-- ===== src/Uplift/Exceptions/Withdrawal.antt =====
-- What `withdraw_exception` has done when it returns.
use mathlib.Core.Path.{subst₂}
use gard.Prelude.{
  ℕ, ◌≡◌, ◌⊎◌, refl, ap, ◌∙◌, Bool, ◌&&◌, some, [], ◌∷◌, ◌++◌, arith, ◌==◌, if◌then◌else◌,
  Option-cases, Bool-cases, inl, inr,
}
use gard.Prelude.Rows.{find_row, find_row-update_row, map_option}
use gard.Prelude.Tx.{Outcome, returned, Outcome-cases, attempt, require_some}
use gard.Lifecycle.{
  blocked, exception_approved, ExceptionState, pending_review, withdrawn, exception_eq,
  exception_eq_iff,
}
use gard.Db.{Device, UpliftException, AuditEvent, Db, Call, emit}
use gard.Uplift.StateMachine.{Transition, filer, exception_decide}
use gard.Uplift.StateMachine.Edges.{
  MayMoveException, exception_decide_iff, withdraw_it, withdraw_approved,
}
use gard.Uplift.Wave.{shift}
use gard.Uplift.Exceptions.{
  ExceptionError, get_exception, set_exception, exception_event, state_object,
}
use gard.Uplift.Exceptions.Operations.{
  get_device, withdraw_exception, to_withdrawn, block_device, end_exception,
}
use gard.Uplift.Exceptions.Guard.{guard_wins, rows_after}

abbrev was_approved : UpliftException → Bool
was_approved e = exception_eq e.state ExceptionState.approved

pub record Withdrawn (call : Call) (exception_id : ℕ) (db : Db) (row : UpliftException) (db' : Db)
    : Type 0 where
  pub exc : UpliftException
  pub found : get_exception exception_id db ≡ some exc
  pub was_active : (exc.state ≡ pending_review) ⊎ (exc.state ≡ ExceptionState.approved)
  pub row_eq : row ≡ record exc {
    state = withdrawn;
    withdrawn_by = some call.actor;
    withdrawn_at = some call.now;
  }
  pub exceptions_after :
      (i : ℕ) → get_exception i db' ≡ (if i == exception_id then some row else get_exception i db)
  pub device_after :
      (i : ℕ)
      → get_device i db' ≡ (
          if was_approved exc && (i == exc.device_id)
          then map_option (shift exception_approved blocked) (get_device i db)
          else get_device i db)
  pub audited : (e : AuditEvent) × (db'.audit ≡ db.audit ++ e ∷ []) × (e.object_id ≡ exception_id)

-- its audit row
abbrev event : Call → ℕ → UpliftException → AuditEvent
event call exception_id e =
    exception_event call "uplift_exception.withdrawn" exception_id (some (state_object e.state))
      (state_object withdrawn)

withdraw_move :
    (call : Call) (e : UpliftException) (t : Transition ExceptionState)
    → exception_decide e.state withdrawn filer call.actor e.filed_by ≡ returned t
    → (e.state ≡ pending_review) ⊎ (e.state ≡ ExceptionState.approved)
withdraw_move call e t h =
    of_move e.state ((exception_decide_iff e.state withdrawn filer call.actor e.filed_by).0 (t, h))
  where
    of_move :
        (from : ExceptionState)
        → MayMoveException call.actor e.filed_by filer from withdrawn
        → (from ≡ pending_review) ⊎ (from ≡ ExceptionState.approved)
    of_move _ withdraw_it = inl refl
    of_move _ withdraw_approved = inr refl

-- the devices after the withdrawal
end_devices :
    (i : ℕ) (e : UpliftException) (db : Db)
    → get_device i (end_exception e.state e.device_id db) ≡ (
        if was_approved e && (i == e.device_id)
        then map_option (shift exception_approved blocked) (get_device i db)
        else get_device i db)
unfolding block_device
end_devices i e db = elim (Bool-cases (was_approved e)) [
  | inl h ↦ rw h (
      find_row-update_row (λ (d : Device). d.id) e.device_id i (shift exception_approved blocked)
        (λ d. ground arith) db.devices)
  | inr h ↦ rw h refl
]

end_exceptions :
    (state : ExceptionState) (device_id : ℕ) (db : Db)
    → ((end_exception state device_id db).exceptions ≡ db.exceptions)
      × ((end_exception state device_id db).audit ≡ db.audit)
unfolding block_device
end_exceptions state device_id db = elim (Bool-cases (exception_eq state ExceptionState.approved)) [
  | inl h ↦ rw h (refl, refl)
  | inr h ↦ rw h (refl, refl)
]

-- `withdraw_exception` returns only on a pending or an approved exception, whoever calls it; it
-- stamps the caller and changes no other exception. If the exception was approved, its device is
-- blocked again where it was at `exception_approved`; no other device changes.
pub withdraw_exception-returned :
    (call : Call) (exception_id : ℕ) (db db' : Db) (row : UpliftException)
    → withdraw_exception call exception_id db ≡ (returned row, db')
    → Withdrawn call exception_id db row db'
unfolding withdraw_exception emit
withdraw_exception-returned call exception_id db db' row h =
    elim (Option-cases (get_exception exception_id db)) [
      | inl missing ↦ absurd (cc (rw (missing, require_some) at h))
      | inr (e, found) ↦
          let h₁ = rw (found, require_some) at h in
          elim (Outcome-cases (exception_decide e.state withdrawn filer call.actor e.filed_by)) [
            | inr (err, bad) ↦ absurd (cc (rw (bad, attempt) at h₁))
            | inl (t, granted) ↦
                let h₂ = rw (granted, attempt) at h₁ in
                let same = (exception_eq_iff e.state e.state).1 refl in
                let wins =
                  guard_wins exception_id e.state (to_withdrawn call) (λ x. refl) db e found same in
                let h₃ = rw wins at h₂ in
                let row_eq : to_withdrawn call e ≡ row = cc h₃ in
                let db_eq = ap (λ (p : Outcome ExceptionError UpliftException × Db). p.1) h₃ in
                let set = set_exception exception_id e.state (to_withdrawn call) db in
                let kept = end_exceptions e.state e.device_id set in
                subst₂ (Withdrawn call exception_id db) row_eq db_eq (record {
                  exc = e;
                  found = found;
                  was_active = withdraw_move call e t granted;
                  row_eq = refl;
                  exceptions_after = λ i.
                      ap (find_row (λ x. x.id) i) kept.0
                      ∙ rows_after i exception_id e.state (to_withdrawn call) (λ x. refl) db e found
                          same;
                  device_after = λ i. end_devices i e set;
                  audited = (
                    event call exception_id e,
                    ap (λ a. a ++ event call exception_id e ∷ []) kept.1,
                    refl,
                  );
                })
          ]
    ]
