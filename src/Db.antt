-- ===== src/Db.antt =====
-- The tables that the controllers share (gard/models/*.py), with the columns that the modelled
-- code reads or writes, and one call's context. Times are numbers of microseconds.
use gard.Prelude.{ℕ, String, Bool, Option, List, ◌*◌, ◌++◌, ◌∷◌, [], filter_by, first, leb, ◌==◌}
use gard.Prelude.Chars.{Chars}
use gard.Prelude.Sorting.{sort_by}
use gard.Lifecycle.{LifecycleState, WaveState, ExceptionState, ActorType}
use gard.Scope.{Selector}
use gard.Envelope.{
  JsonObject, Blocker, PredicateKind, ReadinessState, ComplianceState, Reason, DriftType,
  RecommendedAction,
}

pub record Device : Type 0 where
  pub id : ℕ
  pub hostname : String
  pub site : String
  pub region : Option String
  pub role : Option String
  pub vendor_normalized : Option String
  pub platform_family : Option String
  pub hardware_revision : Option String
  pub ram_mb : Option ℕ
  pub disk_mb : Option ℕ
  pub licenses : Option (List String)
  pub tags : Option (List Chars)
  pub lifecycle_state : LifecycleState

pub record DeviceObservation : Type 0 where
  pub id : ℕ
  pub device_id : ℕ
  pub observed_firmware : Option String
  pub observed_at : ℕ
  pub created_at : ℕ

pub record FirmwareTarget : Type 0 where
  pub id : ℕ
  pub name : String
  pub platform_family : String
  pub target_version : String
  pub scope_selector : Selector
  pub loaded_at : ℕ
  pub removed_at : Option ℕ

-- `predicate_args`, one entry for each key that an evaluator reads
pub record PredicateArgs : Type 0 where
  pub min_mb : Option ℕ
  pub min_version : Option String
  pub revisions : Option (List String)
  pub license : Option String
  pub via_version : Option String
  pub states : Option (List String)
  pub regions : Option (List String)
  pub tags : Option (List Chars)

pub record FirmwarePrerequisiteRule : Type 0 where
  pub id : ℕ
  pub name : String
  pub applies_to : Selector
  pub predicate_kind : PredicateKind
  pub predicate_args : PredicateArgs
  pub severity : String
  pub evaluable : Bool
  pub removed_at : Option ℕ

pub record FirmwarePackage : Type 0 where
  pub id : ℕ
  pub vendor : String
  pub platform_family : String
  pub version : String
  pub blob_present : Bool
  pub loaded_at : ℕ
  pub removed_at : Option ℕ

pub record FirmwareUpgradePath : Type 0 where
  pub platform_family : String
  pub from_version : String
  pub to_version : String
  pub weight : ℕ
  pub removed_at : Option ℕ

-- `LifecycleEvidence`; `is_re_evaluation` is the test of its type
pub record LifecycleEvidence : Type 0 where
  pub is_re_evaluation : Bool
  pub subject_type : String
  pub subject_id : ℕ
  pub timestamp : ℕ

pub record ComplianceEvaluation : Type 0 where
  pub id : ℕ
  pub device_id : ℕ
  pub target_ref : Option ℕ
  pub observation_ref : Option ℕ
  pub compliance_state : ComplianceState
  pub primary_drift_type : Option DriftType
  pub secondary_drift_types : List DriftType
  pub target_version : Option String
  pub observed_version : Option String
  pub reasons : List Reason
  pub recommended_actions : List RecommendedAction
  pub evaluated_at : ℕ

pub record ReadinessEvaluation : Type 0 where
  pub id : ℕ
  pub device_id : ℕ
  pub compliance_evaluation_ref : Option ℕ
  pub readiness_state : ReadinessState
  pub target_version : Option String
  pub observed_version : Option String
  pub upgrade_path_exists : Bool
  pub applicable_rules_count : ℕ
  pub blockers : List Blocker
  pub recommended_actions : List RecommendedAction
  pub reasons : List Reason
  pub evaluated_at : ℕ

pub record UpliftWave : Type 0 where
  pub id : ℕ
  pub plan_id : ℕ
  pub name : String
  pub target_version : String
  pub target_platform_family : String
  pub change_window_start : ℕ
  pub change_window_end : ℕ
  pub state : WaveState
  pub drafted_by : String
  pub drafted_at : ℕ
  pub submitted_by : Option String
  pub submitted_at : Option ℕ
  pub approved_by : Option String
  pub approved_at : Option ℕ
  pub approval_citation : Option String
  pub rejected_by : Option String
  pub rejected_at : Option ℕ
  pub rejection_citation : Option String
  pub cancelled_by : Option String
  pub cancelled_at : Option ℕ
  pub cancellation_reason : Option String
  pub invalidated_at : Option ℕ
  pub invalidated_reason : Option String
  pub idempotency_key : Option String

pub record UpliftWaveDevice : Type 0 where
  pub wave_id : ℕ
  pub device_id : ℕ
  pub position : ℕ
  pub readiness_evaluation_ref : Option ℕ
  pub snapshot_target_version : Option String
  pub snapshot_observed_version : Option String

pub record UpliftException : Type 0 where
  pub id : ℕ
  pub device_id : ℕ
  pub blocker_rule_id : Option ℕ
  pub synthetic_kind : Option String
  pub justification : String
  pub expires_at : ℕ
  pub state : ExceptionState
  pub filed_by : String
  pub filed_at : ℕ
  pub approved_by : Option String
  pub approved_at : Option ℕ
  pub rejected_by : Option String
  pub rejected_at : Option ℕ
  pub withdrawn_by : Option String
  pub withdrawn_at : Option ℕ
  pub expired_at : Option ℕ

pub record UpliftPlan : Type 0 where
  pub id : ℕ
  pub name : String
  pub description : Option String
  pub created_by : String
  pub created_at : ℕ
  pub archived_at : Option ℕ
  pub archived_by : Option String

-- `AuditEvent`, without its hash, clock and correlation columns
pub record AuditEvent : Type 0 where
  pub action : String
  pub object_type : String
  pub object_id : ℕ
  pub actor : String
  pub actor_type : ActorType
  pub before : Option JsonObject
  pub after : Option JsonObject

-- Both sessions of a request: the tables, and the append-only audit rows.
pub record Db : Type 0 where
  pub devices : List Device
  pub observations : List DeviceObservation
  pub targets : List FirmwareTarget
  pub rules : List FirmwarePrerequisiteRule
  pub packages : List FirmwarePackage
  pub upgrade_paths : List FirmwareUpgradePath
  pub evidence : List LifecycleEvidence
  pub compliance : List ComplianceEvaluation
  pub readiness : List ReadinessEvaluation
  pub plans : List UpliftPlan
  pub waves : List UpliftWave
  pub wave_devices : List UpliftWaveDevice
  pub exceptions : List UpliftException
  pub audit : List AuditEvent

pub record Settings : Type 0 where
  pub uplift_wave_max_devices : ℕ
  pub uplift_change_window_max_hours : ℕ
  pub uplift_change_window_min_minutes : ℕ
  pub uplift_idempotency_ttl_seconds : ℕ
  pub exception_max_lifetime_days : ℕ
  pub discovery_stale_days : ℕ
  pub evidence_stale_days : ℕ
  pub compliance_evaluate_max_batch : ℕ
  pub readiness_stale_days : ℕ
  pub readiness_upgrade_weight_cap : ℕ

-- What a call finds around it: the clock, the settings, and who calls.
pub record Call : Type 0 where
  pub now : ℕ
  pub settings : Settings
  pub actor : String
  pub actor_type : ActorType
  pub correlation_id : ℕ

abbrev pub second : ℕ
second = 1000000

abbrev pub minute : ℕ
minute = 60 * second

abbrev pub hour : ℕ
hour = 60 * minute

abbrev pub day : ℕ
day = 24 * hour

-- `audit.emit`: one row at the end of the log
unfoldable pub emit : AuditEvent → Db → Db
emit e db = record db { audit = db.audit ++ e ∷ [] }

-- `ORDER BY key DESC LIMIT 1`
abbrev pub latest_by : {A : Type 0} → (A → ℕ) → List A → Option A
latest_by key rows = first (sort_by (λ a b. leb (key b) (key a)) rows)

-- `_latest_readiness`
unfoldable pub latest_readiness : ℕ → Db → Option ReadinessEvaluation
latest_readiness device_id db =
    latest_by (λ r. r.evaluated_at) (filter_by (λ r. r.device_id == device_id) db.readiness)

-- `_latest_evaluation`
unfoldable pub latest_compliance : ℕ → Db → Option ComplianceEvaluation
latest_compliance device_id db =
    latest_by (λ r. r.evaluated_at) (filter_by (λ r. r.device_id == device_id) db.compliance)

-- `_latest_observation`
unfoldable pub latest_observation : ℕ → Db → Option DeviceObservation
latest_observation device_id db =
    latest_by (λ o. o.observed_at) (filter_by (λ o. o.device_id == device_id) db.observations)
