-- ===== src/Scenarios/Exceptions.antt =====
-- Runs of the exception operations and of the state machines.
use gard.Prelude.{String, refl, ◌≡◌, ◌↔◌, ◌⊎◌, inl, inr, none, some, true, sym}
use mathlib.Core.Path.{subst}
use gard.Prelude.Rows.{find_row, update_row}
use gard.Prelude.Tx.{returned, raised}
use gard.Lifecycle.{
  LifecycleState, expired, ExceptionState, pending_review, WaveState, draft, submitted,
}
use gard.Db.{UpliftException, Db, emit}
use gard.Uplift.StateMachine.{
  ActorKind, approver, exception_decide, Transition, wave_decide, wave_is_terminal,
  self_approval_forbidden, transition_forbidden,
}
use gard.Uplift.StateMachine.Edges.{
  MayMoveException, exception_decide_iff, MayMoveWave, wave_move, wave_decide_iff,
  wave_decide-self_approval, wave_is_terminal_iff,
}
use gard.Uplift.Wave.{aware}
use gard.Uplift.Exceptions.{get_exception, FileRequest, apply_state_guard, is_in_force}
use gard.Uplift.Exceptions.Operations.{
  to_approved, approve_exception, except_device, expire_overdue_exceptions, expire_each,
  block_device,
}
use gard.Uplift.Exceptions.Guard.{Approved, approve_exception-returned}
use gard.Uplift.Exceptions.Operations.{to_withdrawn, withdraw_exception}
use gard.Uplift.Exceptions.Withdrawal.{Withdrawn, withdraw_exception-returned}
use gard.Uplift.Exceptions.Expiry.{
  IsKeyed, IsOverdue, expire_overdue_exceptions-get, expire_overdue_exceptions-in_force,
}
use gard.Scenarios.{alice, bob, call_of, exception_db, exception_in}

abbrev file_request : FileRequest
file_request = record {
  device_id = 7;
  blocker_rule_id = none;
  synthetic_kind = some "missing_upgrade_path";
  justification = "hardware swap is scheduled";
  expires_at = aware 5000;
}

abbrev filed_db : Db
filed_db = exception_db pending_review LifecycleState.blocked

approve_exception-returned_example :
    Approved bob 9 filed_db
      (to_approved bob (exception_in pending_review))
      (approve_exception bob 9 filed_db).1
unfolding find_row update_row approve_exception exception_decide apply_state_guard except_device
    emit
approve_exception-returned_example =
    approve_exception-returned bob 9 filed_db (approve_exception bob 9 filed_db).1
      (to_approved bob (exception_in pending_review)) refl

abbrev active_db : Db
active_db = exception_db ExceptionState.approved LifecycleState.exception_approved

active_db-IsKeyed : IsKeyed active_db
unfolding find_row
active_db-IsKeyed e (inl p) =
    subst (λ (x : UpliftException). get_exception x.id active_db ≡ some x) (sym p) refl
active_db-IsKeyed e (inr q) = absurd q

-- the clock is past the expiry
expire_overdue_exceptions-get_example :
    (IsOverdue bob 7 (exception_in ExceptionState.approved)
      → get_exception 9 (expire_overdue_exceptions bob 7 active_db).1
        ≡ some (record (exception_in ExceptionState.approved) {
          state = expired;
          expired_at = some bob.now;
        }))
    × (¬ IsOverdue bob 7 (exception_in ExceptionState.approved)
        → get_exception 9 (expire_overdue_exceptions bob 7 active_db).1
          ≡ some (exception_in ExceptionState.approved))
unfolding find_row
expire_overdue_exceptions-get_example =
    expire_overdue_exceptions-get bob 7 9 active_db (exception_in ExceptionState.approved)
      active_db-IsKeyed refl

-- the clock stands at the expiry
expire_overdue_exceptions-in_force_example :
    (is_in_force 7 1500 (exception_in ExceptionState.approved) ≡ true)
    ⊎ ((exception_in ExceptionState.approved).expires_at ≡ 1500)
unfolding find_row update_row expire_overdue_exceptions expire_each apply_state_guard block_device
expire_overdue_exceptions-in_force_example =
    expire_overdue_exceptions-in_force (call_of "system" 1500) 7 9 active_db
      (exception_in ExceptionState.approved) (exception_in ExceptionState.approved)
      active_db-IsKeyed refl refl refl refl

exception_decide_iff_example :
    ((t : Transition ExceptionState) × (exception_decide pending_review ExceptionState.approved
          approver "bob" "alice"
        ≡ returned t))
    ↔ MayMoveException "bob" "alice" approver pending_review ExceptionState.approved
exception_decide_iff_example =
    exception_decide_iff pending_review ExceptionState.approved approver "bob" "alice"

wave_decide_iff_example :
    (wave_decide submitted WaveState.approved approver "bob" "alice"
      ≡ returned (wave_move submitted WaveState.approved approver "bob"))
    ↔ MayMoveWave "bob" "alice" approver submitted WaveState.approved
wave_decide_iff_example = wave_decide_iff submitted WaveState.approved approver "bob" "alice"

wave_decide-self_approval_example :
    (wave_decide submitted WaveState.approved approver "alice" "alice"
      ≡ raised self_approval_forbidden)
    ↔ ((submitted ≡ submitted)
        × (WaveState.approved ≡ WaveState.approved)
        × (approver ≡ approver)
        × (◌≡◌ {A = String} "alice" "alice"))
wave_decide-self_approval_example =
    wave_decide-self_approval submitted WaveState.approved approver "alice" "alice"

wave_is_terminal_iff_example : (wave_is_terminal draft ≡ true) ↔ (
    (to : WaveState) (kind : ActorKind) (subject author : _)
    → wave_decide draft to kind subject author ≡ raised transition_forbidden)
wave_is_terminal_iff_example = wave_is_terminal_iff draft

-- alice takes her approved exception back
withdraw_exception-returned_example :
    Withdrawn alice 9 active_db
      (to_withdrawn alice (exception_in ExceptionState.approved))
      (withdraw_exception alice 9 active_db).1
unfolding find_row update_row withdraw_exception exception_decide apply_state_guard block_device
    emit
withdraw_exception-returned_example =
    withdraw_exception-returned alice 9 active_db (withdraw_exception alice 9 active_db).1
      (to_withdrawn alice (exception_in ExceptionState.approved)) refl
