-- ===== src/Scenarios/Waves.antt =====
-- Runs of the wave operations.
use gard.Prelude.{String, Fits, List, refl, ◌≡◌, ◌≢◌, ◌↔◌, ◌⊎◌, some, [], ◌∷◌, true}
use gard.Prelude.Rows.{find_row, update_row}
use gard.Prelude.Sorting.{sort_by, insert_by}
use gard.Prelude.Tx.{raised}
use gard.Lifecycle.{LifecycleState, draft, submitted, cancelled, wave_eq}
use gard.Db.{UpliftWave, Db, emit}
use gard.Uplift.StateMachine.{self_approval_forbidden, wave_decide, wave_is_terminal}
use gard.Uplift.Wave.{
  refused, check_violation, apply_state_guard, shift_members, shift_all, load_wave_members,
  join_devices, revert_pending_members_to_ready,
}
use gard.Uplift.Wave.Transitions.{
  get_wave, to_submitted, to_approved, to_rejected, to_cancelled, submit, approve, reject, cancel,
}
use gard.Uplift.Wave.Operations.{
  Effect, submit-returned, approve-returned, reject-returned, cancel-returned,
}
use gard.Uplift.Wave.Enabled.{
  submit_op, approve_op, cancel_op, apply_op, Allows, Succeeds, apply_op-raised,
  apply_op-Succeeds_iff,
}
use gard.Uplift.Wave.History.{Action, SameButKey, transition, draft_one, invalidate, run}
use gard.Uplift.Wave.Refinement.{Evolves}
use gard.Uplift.Wave.Runs.{AllConsistent, run-Evolves, run-AllConsistent, run-terminal}
use gard.Scenarios.{alice, bob, ready_db, wave_db, wave_in, draft_request}

abbrev change_ticket : String
change_ticket = "CHG-1: seen by the change board"

abbrev late_optics : String
late_optics = "optics come late"

-- a wave is drafted, submitted and approved, and cancelled too late
abbrev story : List Action
story =
    draft_one alice draft_request 5
    ∷ transition alice 5 submit_op
    ∷ transition bob 5 (approve_op change_ticket)
    ∷ transition alice 5 (cancel_op late_optics)
    ∷ invalidate bob (7 ∷ [])
    ∷ []

run-Evolves_example : Evolves ready_db (run story ready_db)
run-Evolves_example = run-Evolves story ready_db

no_waves : AllConsistent ready_db
unfolding find_row
no_waves i w h = absurd (cc h)

run-AllConsistent_example : AllConsistent (run story ready_db)
run-AllConsistent_example = run-AllConsistent story ready_db no_waves

run-terminal_example :
    (w' : UpliftWave) × (get_wave 5 (run story (wave_db cancelled LifecycleState.ready_for_uplift))
      ≡ some w')
    × SameButKey (wave_in cancelled) w'
unfolding find_row wave_is_terminal
run-terminal_example =
    run-terminal story (wave_db cancelled LifecycleState.ready_for_uplift) 5 (wave_in cancelled)
      refl refl

submit-returned_example :
    (w : UpliftWave) × (get_wave 5 (wave_db draft LifecycleState.ready_for_uplift) ≡ some w)
    × (w.state ≡ draft)
    × (to_submitted bob (wave_in draft) ≡ to_submitted bob w)
    × Effect 5 true LifecycleState.ready_for_uplift LifecycleState.approval_pending
        (wave_db draft LifecycleState.ready_for_uplift)
        (to_submitted bob (wave_in draft))
        (submit bob 5 (wave_db draft LifecycleState.ready_for_uplift)).1
unfolding find_row update_row sort_by insert_by apply_op submit approve reject cancel wave_decide
    apply_state_guard shift_members shift_all load_wave_members join_devices
    revert_pending_members_to_ready emit
submit-returned_example =
    submit-returned bob 5 (wave_db draft LifecycleState.ready_for_uplift)
      (submit bob 5 (wave_db draft LifecycleState.ready_for_uplift)).1
      (to_submitted bob (wave_in draft)) refl

-- submitted by alice, its device pending
abbrev pending_db : Db
pending_db = wave_db submitted LifecycleState.approval_pending

approve-returned_example :
    (w : UpliftWave) × (get_wave 5 pending_db ≡ some w)
    × (w.state ≡ submitted)
    × ("bob" ≢ w.drafted_by)
    × Fits 20 2000 change_ticket
    × (to_approved bob change_ticket (wave_in submitted) ≡ to_approved bob change_ticket w)
    × Effect 5 true LifecycleState.approval_pending LifecycleState.approved pending_db
        (to_approved bob change_ticket (wave_in submitted))
        (approve bob 5 change_ticket pending_db).1
unfolding find_row update_row sort_by insert_by apply_op submit approve reject cancel wave_decide
    apply_state_guard shift_members shift_all load_wave_members join_devices
    revert_pending_members_to_ready emit
approve-returned_example =
    approve-returned bob 5 pending_db (approve bob 5 change_ticket pending_db).1
      (to_approved bob change_ticket (wave_in submitted)) change_ticket refl

reject-returned_example :
    (w : UpliftWave) × (get_wave 5 pending_db ≡ some w)
    × (w.state ≡ submitted)
    × Fits 20 2000 change_ticket
    × (to_rejected alice change_ticket (wave_in submitted) ≡ to_rejected alice change_ticket w)
    × Effect 5 true LifecycleState.approval_pending LifecycleState.ready_for_uplift pending_db
        (to_rejected alice change_ticket (wave_in submitted))
        (reject alice 5 change_ticket pending_db).1
unfolding find_row update_row sort_by insert_by apply_op submit approve reject cancel wave_decide
    apply_state_guard shift_members shift_all load_wave_members join_devices
    revert_pending_members_to_ready emit
reject-returned_example =
    reject-returned alice 5 pending_db (reject alice 5 change_ticket pending_db).1
      (to_rejected alice change_ticket (wave_in submitted)) change_ticket refl

cancel-returned_example :
    (w : UpliftWave) × (get_wave 5 pending_db ≡ some w)
    × ((w.state ≡ draft) ⊎ (w.state ≡ submitted))
    × Fits 10 500 late_optics
    × (to_cancelled alice late_optics (wave_in submitted) ≡ to_cancelled alice late_optics w)
    × Effect 5
        (wave_eq w.state submitted)
        LifecycleState.approval_pending
        LifecycleState.ready_for_uplift
        pending_db
        (to_cancelled alice late_optics (wave_in submitted))
        (cancel alice 5 late_optics pending_db).1
unfolding find_row update_row sort_by insert_by apply_op submit approve reject cancel wave_decide
    apply_state_guard shift_members shift_all load_wave_members join_devices
    revert_pending_members_to_ready emit
cancel-returned_example =
    cancel-returned alice 5 pending_db (cancel alice 5 late_optics pending_db).1
      (to_cancelled alice late_optics (wave_in submitted)) late_optics refl

-- the drafter approves
apply_op-raised_example : pending_db ≡ pending_db
unfolding find_row update_row sort_by insert_by apply_op submit approve reject cancel wave_decide
    apply_state_guard shift_members shift_all load_wave_members join_devices
    revert_pending_members_to_ready emit
apply_op-raised_example =
    apply_op-raised alice 5 (approve_op change_ticket) pending_db pending_db
      (refused self_approval_forbidden) refl

apply_op-Succeeds_iff_example : Succeeds bob 5 (approve_op change_ticket) pending_db ↔ (
    (w : UpliftWave) × (get_wave 5 pending_db ≡ some w) × Allows (approve_op change_ticket) bob w)
apply_op-Succeeds_iff_example = apply_op-Succeeds_iff bob 5 (approve_op change_ticket) pending_db

-- a citation that is too short
too_short : approve bob 5 "CHG-1" pending_db ≡ (raised check_violation, pending_db)
unfolding find_row update_row approve wave_decide apply_state_guard
too_short = refl
