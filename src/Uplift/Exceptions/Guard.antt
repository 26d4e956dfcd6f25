-- ===== src/Uplift/Exceptions/Guard.antt =====
-- The optimistic guard of the exceptions, and what the transitions of an exception promise.
use mathlib.Core.Path.{subst₂}
use gard.Prelude.{
  ℕ, ◌≡◌, ◌≢◌, refl, ap, true, false, Option, none, some, [], ◌∷◌, ◌++◌, arith, ◌==◌, if◌then◌else◌,
  Option-cases, Bool-cases, inl, inr, ==_self,
}
use gard.Prelude.Rows.{find_row-update_row, map_option}
use gard.Prelude.Tx.{Outcome, returned, raised, Outcome-cases, attempt, require_some, raise_if}
use gard.Lifecycle.{
  blocked, exception_approved, lifecycle_eq_iff, ExceptionState, pending_review, exception_eq,
  exception_eq_iff,
}
use gard.Db.{Device, UpliftException, AuditEvent, Db, Call, emit}
use gard.Uplift.StateMachine.{Transition, approver, exception_decide}
use gard.Uplift.StateMachine.Edges.{MayMoveException, exception_decide_iff, approve_it}
use gard.Uplift.Exceptions.{
  ExceptionError, exception_state_mismatch, get_exception, guarded, set_exception,
  apply_state_guard,
}
use gard.Uplift.Exceptions.Operations.{
  get_device, is_blocked_device, approve_exception, to_approved, except_device,
}

module _ (i : ℕ) (expected : ExceptionState) (values : UpliftException → UpliftException) where
  module _ (keeps : (e : UpliftException) → (values e).id ≡ e.id) where
    guarded_keeps : (e : UpliftException) → (guarded expected values e).id ≡ e.id
    guarded_keeps e = ground (arith, keeps e)

    pub get_exception-set_exception :
        (j : ℕ) (db : Db)
        → get_exception j (set_exception i expected values db) ≡ (
            if j == i
            then map_option (guarded expected values) (get_exception j db)
            else get_exception j db)
    get_exception-set_exception j db =
        find_row-update_row (λ e. e.id) i j (guarded expected values) guarded_keeps db.exceptions

    row_after :
        (db : Db) (e : UpliftException)
        → get_exception i db ≡ some e
        → exception_eq e.state expected ≡ true
        → get_exception i (set_exception i expected values db) ≡ some (values e)
    row_after db e found match =
        rw (get_exception-set_exception i db, ==_self i) (rw found (rw match refl))

    pub guard_wins :
        (db : Db) (e : UpliftException)
        → get_exception i db ≡ some e
        → exception_eq e.state expected ≡ true
        → apply_state_guard i expected values db
          ≡ (returned (values e), set_exception i expected values db)
    unfolding apply_state_guard
    guard_wins db e found match =
        rw (found, apply_state_guard) (rw match (rw (row_after db e found match) refl))

  pub guard_loses :
      (db : Db) (e : UpliftException)
      → get_exception i db ≡ some e
      → exception_eq e.state expected ≡ false
      → apply_state_guard i expected values db
        ≡ (raised (exception_state_mismatch expected (some e.state)), db)
  unfolding apply_state_guard
  guard_loses db e found mismatch = rw (found, apply_state_guard) (rw mismatch)

  pub guard_missing :
      (db : Db)
      → get_exception i db ≡ none
      → apply_state_guard i expected values db
        ≡ (raised (exception_state_mismatch expected none), db)
  unfolding apply_state_guard
  guard_missing db missing = rw (missing, apply_state_guard) refl

-- What `approve_exception` has done when it returns.
pub record Approved (call : Call) (exception_id : ℕ) (db : Db) (row : UpliftException) (db' : Db)
    : Type 0 where
  pub exc : UpliftException
  pub found : get_exception exception_id db ≡ some exc
  pub was_pending : exc.state ≡ pending_review
  pub sod : call.actor ≢ exc.filed_by
  pub was_blocked :
      (d : Device) × (get_device exc.device_id db ≡ some d) × (d.lifecycle_state ≡ blocked)
  pub row_eq : row ≡ record exc {
    state = ExceptionState.approved;
    approved_by = some call.actor;
    approved_at = some call.now;
  }
  pub exceptions_after :
      (i : ℕ) → get_exception i db' ≡ (if i == exception_id then some row else get_exception i db)
  pub device_after :
      (i : ℕ)
      → get_device i db' ≡ (
          if i == exc.device_id
          then map_option (λ d. record d { lifecycle_state = exception_approved }) (get_device i db)
          else get_device i db)
  pub audited : (e : AuditEvent) × (db'.audit ≡ db.audit ++ e ∷ []) × (e.object_id ≡ exception_id)

device_blocked :
    (o : Option Device)
    → is_blocked_device o ≡ true
    → (d : Device) × (o ≡ some d) × (d.lifecycle_state ≡ blocked)
device_blocked none h = absurd (cc h)
device_blocked (some d) h = (d, refl, (lifecycle_eq_iff d.lifecycle_state blocked).0 h)

pub rows_after :
    (i exception_id : ℕ) (expected : ExceptionState) (values : UpliftException → UpliftException)
    (keeps : (e : UpliftException) → (values e).id ≡ e.id) (db : Db) (e : UpliftException)
    → get_exception exception_id db ≡ some e
    → exception_eq e.state expected ≡ true
    → get_exception i (set_exception exception_id expected values db)
      ≡ (if i == exception_id then some (values e) else get_exception i db)
rows_after i exception_id expected values keeps db e found same =
    elim (Bool-cases (i == exception_id)) [
      | inl h ↦
          let here : i ≡ exception_id = ground arith in
          rw (get_exception-set_exception exception_id expected values keeps i db)
            (rw h (rw here (rw found (rw same refl))))
      | inr h ↦ rw (get_exception-set_exception exception_id expected values keeps i db) (rw h refl)
    ]

approve_move :
    (call : Call) (e : UpliftException) (t : Transition ExceptionState)
    → exception_decide e.state ExceptionState.approved approver call.actor e.filed_by ≡ returned t
    → (e.state ≡ pending_review) × (call.actor ≢ e.filed_by)
approve_move call e t h =
    of_move e.state ExceptionState.approved refl (
      (exception_decide_iff e.state ExceptionState.approved approver call.actor e.filed_by).0
        (t, h))
  where
    of_move :
        (from to : ExceptionState)
        → to ≡ ExceptionState.approved
        → MayMoveException call.actor e.filed_by approver from to
        → (from ≡ pending_review) × (call.actor ≢ e.filed_by)
    of_move _ _ p (approve_it ne) = (refl, ne)
    of_move _ _ p MayMoveException.reject_it = absurd (cc p)

-- `approve_exception` returns only on a pending exception, for somebody who is not its filer,
-- while the device is blocked; it stamps the approver, moves that device to
-- `exception_approved`, and changes no other exception and no other device.
pub approve_exception-returned :
    (call : Call) (exception_id : ℕ) (db db' : Db) (row : UpliftException)
    → approve_exception call exception_id db ≡ (returned row, db')
    → Approved call exception_id db row db'
unfolding approve_exception except_device emit
approve_exception-returned call exception_id db db' row h =
    elim (Option-cases (get_exception exception_id db)) [
      | inl missing ↦ absurd (cc (rw (missing, require_some) at h))
      | inr (e, found) ↦
          let h₁ = rw (found, require_some) at h in
          elim (Outcome-cases
            (exception_decide e.state ExceptionState.approved approver call.actor e.filed_by)) [
              | inr (err, bad) ↦ absurd (cc (rw (bad, attempt) at h₁))
              | inl (t, granted) ↦
                  let h₂ = rw (granted, attempt) at h₁ in
                  elim (Bool-cases (is_blocked_device (get_device e.device_id db))) [
                    | inr bad ↦ absurd (cc (rw (bad, raise_if) at h₂))
                    | inl ok ↦
                        let h₃ = rw (ok, raise_if) at h₂ in
                        let (pending, sod) = approve_move call e t granted in
                        let same = (exception_eq_iff e.state pending_review).1 pending in
                        let wins =
                          guard_wins exception_id pending_review (to_approved call) (λ x. refl) db e
                            found same in
                        let h₄ = rw wins at h₃ in
                        let row_eq : to_approved call e ≡ row = cc h₄ in
                        let db_eq =
                          ap (λ (p : Outcome ExceptionError UpliftException × Db). p.1) h₄ in
                        subst₂ (Approved call exception_id db) row_eq db_eq (record {
                          exc = e;
                          found = found;
                          was_pending = pending;
                          sod = sod;
                          was_blocked = device_blocked (get_device e.device_id db) ok;
                          row_eq = refl;
                          exceptions_after = λ i.
                              rows_after i exception_id pending_review (to_approved call)
                                (λ x. refl) db e found same;
                          device_after = λ i.
                              find_row-update_row (λ (d : Device). d.id) e.device_id i
                                (λ (d : Device). record d { lifecycle_state = exception_approved })
                                (λ d. refl) db.devices;
                          audited = (_, refl, refl);
                        })
                  ]
            ]
    ]
