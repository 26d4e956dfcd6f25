-- ===== src/Uplift/Exceptions.antt =====
-- gard/core/uplift_exception_controller.py: a blocked device may be excepted from a blocker, for
-- a time and by somebody other than the filer.
pub mod Operations
pub mod Guard
pub mod Expiry
pub mod Rivals
pub mod Filing
pub mod Withdrawal
use gard.Prelude.{
  ℕ, String, Bool, true, false, Option, none, some, List, [], ◌∷◌, ◌++◌, ◌==◌, ltb, leb, str_eq,
  opt_eq, opt_str_eq, is_none, is_some, suc, first, filter_by, any_of, not, ◌&&◌, ◌||◌, ◌+◌, ◌*◌,
  if◌then◌else◌,
}
use gard.Prelude.Rows.{find_row, update_row}
use gard.Prelude.Tx.{
  Tx, Outcome, returned, raised, give, reads, attempt, require_some, raise_if, writes, ◌>>=◌, ◌>>◌,
}
use gard.Lifecycle.{
  LifecycleState, blocked, exception_approved, lifecycle_eq, ExceptionState, pending_review,
  expired, withdrawn, exception_eq, exception_value,
}
use gard.Envelope.{Json, str, uuid, JsonObject, Blocker, ReadinessState, predicate_value}
use gard.Db.{
  Device, ReadinessEvaluation, UpliftException, AuditEvent, Db, Call, day, emit, latest_by,
  latest_readiness,
}
use gard.Uplift.StateMachine.{StateMachineError, ActorKind, approver, filer, exception_decide}
use gard.Uplift.Wave.{DateTime, aware, naive}

-- The texts of `InvalidExceptionExpiry`.
pub data ExpiryFault : Type 0 where
  not_aware not_future not_after_filed too_long : ExpiryFault

pub data ExceptionError : Type 0 where
  not_exactly_one : ExceptionError
  device_not_found : ℕ → ExceptionError
  exception_not_found : ℕ → ExceptionError
  device_not_blocked : ExceptionError
  blocker_not_in_latest_verdict : ExceptionError
  invalid_expiry : ExpiryFault → ExceptionError
  exception_already_active : ℕ → ExceptionError
  exception_state_mismatch : ExceptionState → Option ExceptionState → ExceptionError
  refused : StateMachineError → ExceptionError
  no_blocker_key : ExceptionError
  check_violation : ExceptionError
  assertion_failed : ExceptionError

abbrev pub ExceptionTx : Type 0 → Type 0
ExceptionTx = Tx Db ExceptionError

abbrev pub get_exception : ℕ → Db → Option UpliftException
get_exception i db = find_row (λ e. e.id) i db.exceptions

-- `_blocker_key`
unfoldable pub blocker_key : Option ℕ → Option String → Outcome ExceptionError Json
blocker_key (some rule_id) kind = returned (uuid rule_id)
blocker_key none none = raised no_blocker_key
blocker_key none (some kind) = returned (str kind)

-- one round of `_blocker_in_readiness`
abbrev pub cites : Option ℕ → Option String → Blocker → Bool
cites rule_id kind raw =
    (is_some rule_id && opt_eq raw.rule_id rule_id)
    || (is_some kind
        && (is_none raw.rule_id && opt_str_eq (some (predicate_value raw.predicate_kind)) kind))

-- `_blocker_in_readiness`
unfoldable pub blocker_in_readiness : ReadinessEvaluation → Option ℕ → Option String → Bool
blocker_in_readiness latest rule_id kind = any_of (cites rule_id kind) latest.blockers

-- `state in _ACTIVE_EXCEPTION_STATES`
abbrev pub is_active : ExceptionState → Bool
is_active state = exception_eq state pending_review || exception_eq state ExceptionState.approved

-- the blocker that an exception is about
abbrev pub about_blocker : Option ℕ → Option String → UpliftException → Bool
about_blocker (some rule_id) kind e = opt_eq e.blocker_rule_id (some rule_id)
about_blocker none (some kind) e = opt_str_eq e.synthetic_kind (some kind)
about_blocker none none e = is_none e.synthetic_kind

-- `_find_conflicting_active`
unfoldable pub find_conflicting_active : ℕ → Option ℕ → Option String → Db → Option UpliftException
find_conflicting_active device_id rule_id kind db =
    latest_by (λ e. e.filed_at)
      (filter_by
        (λ e. (e.device_id == device_id) && (is_active e.state && about_blocker rule_id kind e))
        db.exceptions)

-- `approved_at DESC NULLS LAST`
abbrev pub approval_time : UpliftException → ℕ
approval_time e = elim e.approved_at [ none ↦ 0 | some t ↦ suc t ]

-- `expires_at > ts`, on an approved exception of the device
abbrev pub is_in_force : ℕ → ℕ → UpliftException → Bool
is_in_force device_id ts e =
    (e.device_id == device_id)
    && (exception_eq e.state ExceptionState.approved && ltb ts e.expires_at)

unfoldable pub find_active_approved_exception : ℕ → ℕ → Db → Option UpliftException
find_active_approved_exception device_id ts db =
    latest_by approval_time (filter_by (is_in_force device_id ts) db.exceptions)

-- `_validate_expires_at`; the time comes back without its zone
unfoldable pub validate_expires_at : Call → DateTime → ℕ → Outcome ExpiryFault ℕ
validate_expires_at call (naive t) filed_at = raised not_aware
validate_expires_at call (aware t) filed_at =
    if leb t call.now
    then raised not_future
    else if leb t filed_at
    then raised not_after_filed
    else if ltb (filed_at + call.settings.exception_max_lifetime_days * day) t
    then raised too_long
    else returned t

-- `_apply_state_guard`: `UPDATE … WHERE id = :id AND state = :expected`, and the refreshed row
abbrev pub guarded :
    ExceptionState → (UpliftException → UpliftException) → UpliftException → UpliftException
guarded expected values e = if exception_eq e.state expected then values e else e

abbrev pub set_exception : ℕ → ExceptionState → (UpliftException → UpliftException) → Db → Db
set_exception i expected values db = record db {
  exceptions = update_row (λ e. e.id) i (guarded expected values) db.exceptions;
}

unfoldable pub apply_state_guard :
    ℕ → ExceptionState → (UpliftException → UpliftException) → ExceptionTx UpliftException
apply_state_guard i expected values db = elim (get_exception i db) [
  | none ↦ (raised (exception_state_mismatch expected none), db)
  | some e ↦
      if exception_eq e.state expected
      then require_some assertion_failed (get_exception i (set_exception i expected values db))
          (set_exception i expected values db)
      else (raised (exception_state_mismatch expected (some e.state)), db)
]

pub record FileRequest : Type 0 where
  pub device_id : ℕ
  pub blocker_rule_id : Option ℕ
  pub synthetic_kind : Option String
  pub justification : String
  pub expires_at : DateTime

abbrev pub new_exception : Call → FileRequest → ℕ → ℕ → UpliftException
new_exception call req exception_id expires_at = record {
  id = exception_id;
  device_id = req.device_id;
  blocker_rule_id = req.blocker_rule_id;
  synthetic_kind = req.synthetic_kind;
  justification = req.justification;
  expires_at = expires_at;
  state = pending_review;
  filed_by = call.actor;
  filed_at = call.now;
  approved_by = none;
  approved_at = none;
  rejected_by = none;
  rejected_at = none;
  withdrawn_by = none;
  withdrawn_at = none;
  expired_at = none;
}

-- `latest is None or latest.readiness_state != "blocked"`
abbrev pub is_blocked_verdict : Option ReadinessEvaluation → Bool
is_blocked_verdict none = false
is_blocked_verdict (some r) = elim r.readiness_state [ ReadinessState.blocked ↦ true | _ ↦ false ]

-- `(a is None) == (b is None)`
abbrev pub exactly_one : Option ℕ → Option String → Bool
exactly_one none none = false
exactly_one (some a) (some b) = false
exactly_one none (some b) = true
exactly_one (some a) none = true

abbrev pub exception_event : Call → String → ℕ → Option JsonObject → JsonObject → AuditEvent
exception_event call action i before after = record {
  action = action;
  object_type = "UpliftException";
  object_id = i;
  actor = call.actor;
  actor_type = call.actor_type;
  before = before;
  after = some after;
}

-- `{"state": …}`
abbrev pub state_object : ExceptionState → JsonObject
state_object state = ("state", str (exception_value state)) ∷ []
