-- ===== src/Uplift/Exceptions/Operations.antt =====
-- `file_exception`, `approve_exception`, `reject_exception`, `withdraw_exception` and
-- `expire_overdue_exceptions`.
use gard.Prelude.{
  ℕ, String, Bool, true, false, Option, none, some, List, [], ◌∷◌, ◌++◌, ◌==◌, ltb, leb, not, ◌&&◌,
  ◌||◌, ◌+◌, ◌*◌, str_eq, fits, filter_by, if◌then◌else◌,
}
use gard.Prelude.Rows.{find_row, update_row}
use gard.Prelude.Tx.{
  Outcome, returned, raised, give, reads, lift, attempt, require_some, raise_if, writes, ◌>>=◌,
  ◌>>◌,
}
use gard.Lifecycle.{
  blocked, exception_approved, lifecycle_eq, ExceptionState, pending_review, expired, withdrawn,
  exception_eq, exception_value,
}
use gard.Envelope.{str, uuid}
use gard.Db.{day, Device, UpliftException, Db, Call, emit, latest_readiness}
use gard.Uplift.StateMachine.{approver, filer, exception_decide}
use gard.Uplift.Wave.{shift}
use gard.Uplift.Exceptions.{
  ExceptionError, not_exactly_one, device_not_found, exception_not_found, device_not_blocked,
  blocker_not_in_latest_verdict, invalid_expiry, exception_already_active, check_violation, refused,
  ExceptionTx, get_exception, blocker_key, blocker_in_readiness, find_conflicting_active,
  validate_expires_at, apply_state_guard, FileRequest, new_exception, is_blocked_verdict,
  exactly_one, exception_event, state_object,
}

-- `session.get(Device, …)`
abbrev pub get_device : ℕ → Db → Option Device
get_device i db = find_row (λ d. d.id) i db.devices

abbrev pub is_blocked_device : Option Device → Bool
is_blocked_device none = false
is_blocked_device (some d) = lifecycle_eq d.lifecycle_state blocked

-- `_blocker_in_readiness` on the latest verdict
abbrev pub cited_in : Option ℕ → Option String → Db → ℕ → Bool
cited_in rule_id kind db device_id = elim (latest_readiness device_id db) [
  | none ↦ false
  | some r ↦ blocker_in_readiness r rule_id kind
]

abbrev pub raise_if_active : Option UpliftException → ExceptionTx (Unit {0})
raise_if_active none db = (returned tt, db)
raise_if_active (some e) db = (raised (exception_already_active e.id), db)

-- `synthetic_kind IS NULL OR synthetic_kind IN (…)`
abbrev pub kind_allowed : Option String → Bool
kind_allowed none = true
kind_allowed (some kind) =
    str_eq kind "missing_upgrade_path" || str_eq kind "missing_observation_field"

-- the CHECK constraints of the table that the checks before do not imply
abbrev pub exception_allowed : UpliftException → Bool
exception_allowed e =
    fits 20 2000 e.justification
    && (kind_allowed e.synthetic_kind && leb e.expires_at (e.filed_at + 365 * day))

-- from the search for an active exception on; `exception_id` is the identifier that the insert
-- generates
unfoldable pub insert_exception : Call → FileRequest → ℕ → ExceptionTx UpliftException
insert_exception call req exception_id = do
  conflict ← reads (find_conflicting_active req.device_id req.blocker_rule_id req.synthetic_kind)
  raise_if_active conflict
  expires_at ← attempt invalid_expiry (validate_expires_at call req.expires_at call.now)
  let exc = new_exception call req exception_id expires_at
  raise_if (not (exception_allowed exc)) check_violation
  writes (λ db. record db { exceptions = db.exceptions ++ exc ∷ [] })
  key ← lift (blocker_key req.blocker_rule_id req.synthetic_kind)
  writes (
      emit (
        exception_event call "uplift_exception.filed" exception_id none (
          ("id", uuid exception_id)
          ∷ ("device_id", uuid req.device_id)
          ∷ ("blocker", key)
          ∷ ("state", str (exception_value pending_review))
          ∷ [])))
  give exc

unfoldable pub file_exception : Call → FileRequest → ℕ → ExceptionTx UpliftException
unfolding insert_exception
file_exception call req exception_id = do
  raise_if (not (exactly_one req.blocker_rule_id req.synthetic_kind)) not_exactly_one
  found ← reads (get_device req.device_id)
  device ← require_some (device_not_found req.device_id) found
  raise_if (not (lifecycle_eq device.lifecycle_state blocked)) device_not_blocked
  latest ← reads (latest_readiness req.device_id)
  raise_if (not (is_blocked_verdict latest)) device_not_blocked
  cited ← reads (λ db. cited_in req.blocker_rule_id req.synthetic_kind db req.device_id)
  raise_if (not cited) blocker_not_in_latest_verdict
  insert_exception call req exception_id

-- the columns that each transition sets
abbrev pub to_approved : Call → UpliftException → UpliftException
to_approved call e = record e {
  state = ExceptionState.approved;
  approved_by = some call.actor;
  approved_at = some call.now;
}

abbrev pub to_rejected : Call → UpliftException → UpliftException
to_rejected call e = record e {
  state = ExceptionState.rejected;
  rejected_by = some call.actor;
  rejected_at = some call.now;
}

abbrev pub to_withdrawn : Call → UpliftException → UpliftException
to_withdrawn call e = record e {
  state = withdrawn;
  withdrawn_by = some call.actor;
  withdrawn_at = some call.now;
}

abbrev pub to_expired : Call → UpliftException → UpliftException
to_expired call e = record e { state = expired; expired_at = some call.now }

-- `device.lifecycle_state = LifecycleState.exception_approved`
unfoldable pub except_device : ℕ → Db → Db
except_device i db = record db {
  devices =
      update_row (λ d. d.id) i (λ d. record d { lifecycle_state = exception_approved }) db.devices;
}

-- an excepted device is blocked again
unfoldable pub block_device : ℕ → Db → Db
block_device i db = record db {
  devices = update_row (λ d. d.id) i (shift exception_approved blocked) db.devices;
}

unfoldable pub approve_exception : Call → ℕ → ExceptionTx UpliftException
approve_exception call exception_id = do
  found ← reads (get_exception exception_id)
  exc ← require_some (exception_not_found exception_id) found
  attempt refused
      (exception_decide exc.state ExceptionState.approved approver call.actor exc.filed_by)
  device ← reads (get_device exc.device_id)
  raise_if (not (is_blocked_device device)) device_not_blocked
  refreshed ← apply_state_guard exception_id pending_review (to_approved call)
  writes (except_device exc.device_id)
  writes (
      emit (
        exception_event call "uplift_exception.approved" exception_id
          (some (state_object pending_review))
          (("state", str (exception_value ExceptionState.approved))
            ∷ ("approved_by", str call.actor)
            ∷ [])))
  give refreshed

unfoldable pub reject_exception : Call → ℕ → ExceptionTx UpliftException
reject_exception call exception_id = do
  found ← reads (get_exception exception_id)
  exc ← require_some (exception_not_found exception_id) found
  attempt refused
      (exception_decide exc.state ExceptionState.rejected approver call.actor exc.filed_by)
  refreshed ← apply_state_guard exception_id pending_review (to_rejected call)
  writes (
      emit (
        exception_event call "uplift_exception.rejected" exception_id
          (some (state_object pending_review)) (state_object ExceptionState.rejected)))
  give refreshed

-- `if current == ExceptionState.approved: …`
abbrev pub end_exception : ExceptionState → ℕ → Db → Db
end_exception current device_id db =
    if exception_eq current ExceptionState.approved then block_device device_id db else db

unfoldable pub withdraw_exception : Call → ℕ → ExceptionTx UpliftException
withdraw_exception call exception_id = do
  found ← reads (get_exception exception_id)
  exc ← require_some (exception_not_found exception_id) found
  attempt refused (exception_decide exc.state withdrawn filer call.actor exc.filed_by)
  refreshed ← apply_state_guard exception_id exc.state (to_withdrawn call)
  writes (end_exception exc.state exc.device_id)
  writes (
      emit (
        exception_event call "uplift_exception.withdrawn" exception_id
          (some (state_object exc.state)) (state_object withdrawn)))
  give refreshed

-- the rows that the query of `expire_overdue_exceptions` selects
abbrev pub is_overdue : Call → ℕ → UpliftException → Bool
is_overdue call device_id e =
    (e.device_id == device_id)
    && (exception_eq e.state ExceptionState.approved && ltb e.expires_at call.now)

-- the end of a round: a lost guard is skipped
abbrev pub settle_expiry : Call → ℕ → ℕ → Outcome ExceptionError UpliftException → Db → Bool × Db
settle_expiry call device_id i (raised e) db = (false, db)
settle_expiry call device_id i (returned e) db = (
  true,
  emit
      (exception_event call "uplift_exception.expired" i
        (some (state_object ExceptionState.approved)) (state_object expired))
      (block_device device_id db),
)

abbrev pub expire_one : Call → ℕ → ℕ → Db → Bool × Db
expire_one call device_id i db =
    let (r, db') = apply_state_guard i ExceptionState.approved (to_expired call) db in
    settle_expiry call device_id i r db'

unfoldable pub expire_each : Call → ℕ → List UpliftException → Db → List ℕ × Db
expire_each call device_id [] db = ([], db)
expire_each call device_id (e ∷ overdue) db =
    let (won, db') = expire_one call device_id e.id db in
    let (ids, db'') = expire_each call device_id overdue db' in
    (if won then e.id ∷ ids else ids, db'')

unfoldable pub expire_overdue_exceptions : Call → ℕ → Db → List ℕ × Db
unfolding expire_each
expire_overdue_exceptions call device_id db =
    expire_each call device_id (filter_by (is_overdue call device_id) db.exceptions) db
