-- ===== src/Uplift/Exceptions/Filing.antt =====
-- What `file_exception` has checked when it returns.
use gard.Prelude.{
  ℕ, Fits, String, ◌≡◌, ◌<◌, ◌≤◌, ◌+◌, ◌*◌, true, none, some, [], ◌∷◌, ◌++◌, ◌⊎◌, In,
}
use gard.Lifecycle.{blocked}
use gard.Envelope.{Blocker, ReadinessState}
use gard.Db.{
  Device, ReadinessEvaluation, UpliftException, AuditEvent, Db, Call, day, latest_readiness,
}
use gard.Uplift.Exceptions.{FileRequest, new_exception, find_conflicting_active}
use gard.Uplift.Exceptions.Operations.{get_device, exception_allowed}
use gard.Uplift.Exceptions.Rivals.{Cites, IsRival}

pub record Filed (call : Call) (req : FileRequest) (exception_id : ℕ) (db : Db)
    (row : UpliftException) (db' : Db) : Type 0 where
  pub one_blocker :
      ((rule_id : ℕ) × (req.blocker_rule_id ≡ some rule_id) × (req.synthetic_kind ≡ none))
      ⊎ ((kind : String) × (req.blocker_rule_id ≡ none) × (req.synthetic_kind ≡ some kind))
  pub was_blocked :
      (d : Device) × (get_device req.device_id db ≡ some d) × (d.lifecycle_state ≡ blocked)
  pub verdict :
      (r : ReadinessEvaluation) × (latest_readiness req.device_id db ≡ some r)
      × (r.readiness_state ≡ ReadinessState.blocked)
      × ((b : Blocker) × In b r.blockers × Cites req b)
  pub first_one : (e : UpliftException) → In e db.exceptions → ¬ IsRival req e
  pub expiry :
      (call.now < row.expires_at)
      × (row.expires_at ≤ call.now + call.settings.exception_max_lifetime_days * day)
  pub justified : Fits 20 2000 req.justification
  pub within_a_year : row.expires_at ≤ call.now + 365 * day
  pub row_eq : row ≡ new_exception call req exception_id row.expires_at
  pub exceptions_after : db'.exceptions ≡ db.exceptions ++ row ∷ []
  pub devices_after : db'.devices ≡ db.devices
  pub audited : (e : AuditEvent) × (db'.audit ≡ db.audit ++ e ∷ []) × (e.object_id ≡ exception_id)

module _ (call : Call) (req : FileRequest) (exception_id : ℕ) (db : Db) where
  record Inserted (row : UpliftException) (db' : Db) : Type 0 where
    first_one :
        find_conflicting_active req.device_id req.blocker_rule_id req.synthetic_kind db ≡ none
    expiry :
        (call.now < row.expires_at)
        × (row.expires_at ≤ call.now + call.settings.exception_max_lifetime_days * day)
    allowed : exception_allowed (new_exception call req exception_id row.expires_at) ≡ true
    row_eq : row ≡ new_exception call req exception_id row.expires_at
    exceptions_after : db'.exceptions ≡ db.exceptions ++ row ∷ []
    devices_after : db'.devices ≡ db.devices
    audited : (e : AuditEvent) × (db'.audit ≡ db.audit ++ e ∷ []) × (e.object_id ≡ exception_id)
