-- ===== src/Uplift/Wave/Between.antt =====
-- What happens between a request and its repetition: transitions and invalidations, which keep
-- each wave where its key finds it.
use gard.Prelude.{
  ℕ, ◌≡◌, refl, ap, ◌∙◌, true, List, [], ◌∷◌, if◌then◌else◌, suc, Bool, Bool-cases, Option-cases,
  inl, inr,
}
use gard.Prelude.Tx.{Outcome}
use gard.Lifecycle.{WaveState, wave_eq_iff}
use gard.Db.{UpliftWave, AuditEvent, Db, Call, emit}
use gard.Uplift.StateMachine.{StateMachineError, Transition}
use gard.Uplift.Wave.{shift_members, revert_pending_members_to_ready}
use gard.Uplift.Wave.Guard.{move, move-cases, set_wave, guard_wins}
use gard.Uplift.Wave.Transitions.{
  get_wave, settle, is_open, submit, approve, reject, cancel, invalidate_one, invalidate_each,
  invalidate_affected_waves, candidate_wave_ids, to_invalidated, invalidation_reason,
}
use gard.Uplift.Wave.Enabled.{WaveOp, submit_op, approve_op, reject_op, cancel_op, apply_op}
use gard.Uplift.Wave.History.{Action, transition, draft_one, invalidate, perform, run}
use gard.Uplift.Wave.Keys.{
  SameRequest, Finds, Finds-same, Finds-trans, set_wave-Finds, release_waves,
}

module _ (wave_id : ℕ) (decide : UpliftWave → Outcome StateMachineError (Transition WaveState))
    (expected : UpliftWave → WaveState) (allowed : Bool) (values : UpliftWave → UpliftWave)
    (after : UpliftWave → Db → Db) (event : UpliftWave → AuditEvent)
    (keeps : (w : UpliftWave) → SameRequest w (values w))
    (only : (w : UpliftWave) (d : Db) → (after w d).waves ≡ d.waves) where
  move-Finds : (db : Db) → Finds db (move wave_id decide expected allowed values after event db).1
  unfolding emit
  move-Finds db =
      elim (move-cases wave_id decide expected allowed values after event (λ w. (keeps w).id) db) [
        | inr (e, h) ↦ Finds-same db _ (ap (λ r. r.1.waves) h)
        | inl (row, db', h, m) ↦
            Finds-trans db (set_wave wave_id (expected m.wave) values db) _
              (set_wave-Finds wave_id (expected m.wave) values keeps db)
              (Finds-same (set_wave wave_id (expected m.wave) values db) _ (
                ap (λ r. r.1.waves) h
                ∙ ap (λ (d : Db). d.waves) m.db_eq
                ∙ only m.wave (set_wave wave_id (expected m.wave) values db)))
      ]

transition-Finds :
    (call : Call) (wave_id : ℕ) (op : WaveOp) (db : Db) → Finds db (apply_op call wave_id op db).1
unfolding apply_op submit approve reject cancel revert_pending_members_to_ready shift_members
transition-Finds call wave_id submit_op db =
    move-Finds _ _ _ _ _ _ _
      (λ w. record { id = refl; plan_id = refl; idempotency_key = refl; drafted_at = refl })
      (λ w d. refl) db
transition-Finds call wave_id (approve_op c) db =
    move-Finds _ _ _ _ _ _ _
      (λ w. record { id = refl; plan_id = refl; idempotency_key = refl; drafted_at = refl })
      (λ w d. refl) db
transition-Finds call wave_id (reject_op c) db =
    move-Finds _ _ _ _ _ _ _
      (λ w. record { id = refl; plan_id = refl; idempotency_key = refl; drafted_at = refl })
      (λ w d. refl) db
transition-Finds call wave_id (cancel_op r) db =
    move-Finds _ _ _ _ _ _ _
      (λ w. record { id = refl; plan_id = refl; idempotency_key = refl; drafted_at = refl })
      (λ w d. release_waves w.state wave_id d) db

invalidate_one-Finds :
    (call : Call) (wave_id : ℕ) (db : Db) → Finds db (invalidate_one call wave_id db).1
unfolding invalidate_one emit
invalidate_one-Finds call wave_id db = elim (Option-cases (get_wave wave_id db)) [
  | inl missing ↦ rw (missing, invalidate_one) (Finds-same db db refl)
  | inr (w, found) ↦ elim (Bool-cases (is_open w.state)) [
    | inr closed ↦ rw (found, invalidate_one) (rw closed (Finds-same db db refl))
    | inl is_open_now ↦
        let values = to_invalidated call (invalidation_reason w db) in
        let wins =
          guard_wins wave_id w.state values (λ v. refl) true refl db w found
            ((wave_eq_iff w.state w.state).1 refl) in
        rw (found, invalidate_one)
          (rw is_open_now (
            rw (wins, settle)
              (Finds-trans db (set_wave wave_id w.state values db) _
                (set_wave-Finds wave_id w.state values
                  (λ v. record {
                    id = refl;
                    plan_id = refl;
                    idempotency_key = refl;
                    drafted_at = refl;
                  })
                  db)
                (Finds-same (set_wave wave_id w.state values db) _
                  (release_waves w.state wave_id (set_wave wave_id w.state values db))))))
  ]
]

each-Finds :
    (call : Call) (ids : List ℕ) (count : ℕ) (db : Db)
    → Finds db (invalidate_each call ids count db).1
unfolding invalidate_each
each-Finds call [] count db = Finds-same db db refl
each-Finds call (i ∷ ids) count db =
    let (done, db') = invalidate_one call i db in
    Finds-trans db db' _ (invalidate_one-Finds call i db)
      (each-Finds call ids (if done then suc count else count) db')

-- no draft among the actions
abbrev pub IsQuiet : List Action → Type 0
IsQuiet [] = Unit
IsQuiet (transition call wave_id op ∷ rest) = IsQuiet rest
IsQuiet (draft_one call req wave_id ∷ rest) = ⊥
IsQuiet (invalidate call affected ∷ rest) = IsQuiet rest

pub run-Finds : (actions : List Action) (db : Db) → IsQuiet actions → Finds db (run actions db)
unfolding run perform invalidate_affected_waves
run-Finds [] db quiet = Finds-same db db refl
run-Finds (transition call wave_id op ∷ rest) db quiet =
    let db' = (apply_op call wave_id op db).1 in
    Finds-trans db db' _ (transition-Finds call wave_id op db) (run-Finds rest db' quiet)
run-Finds (draft_one call req wave_id ∷ rest) db quiet = absurd quiet
run-Finds (invalidate call affected ∷ rest) db quiet =
    let db' = (invalidate_each call (candidate_wave_ids affected db) 0 db).1 in
    Finds-trans db db' _ (each-Finds call (candidate_wave_ids affected db) 0 db)
      (run-Finds rest db' quiet)
