-- ===== src/Envelope.antt =====
-- gard/core/envelope.py: the typed parts of a verdict. Identifiers (UUIDs) are numbers, in the
-- order of their texts. A formatted text is kept as its template and its arguments.
use gard.Prelude.{ℕ, String, Bool, Option, List}
use gard.Prelude.Chars.{Chars}

-- The JSON values that occur in verdicts and in audit rows.
pub data Json : Type 0 where
  null : Json
  flag : Bool → Json
  num : ℕ → Json
  str : String → Json
  strs : List String → Json
  slugs : List Chars → Json
  uuid : ℕ → Json
  ids : List ℕ → Json
  time : ℕ → Json

-- An f-string.
pub record Detail : Type 0 where
  pub template : String
  pub args : List Json

abbrev pub JsonObject : Type 0
JsonObject = List (String × Json)

pub data PredicateKind : Type 0 where
  min_ram_mb min_disk_mb hardware_revision_in min_current_version : PredicateKind
  intermediate_version_required missing_upgrade_path license_present not_in_state : PredicateKind
  region_in missing_observation_field tagged_with : PredicateKind

pub data Severity : Type 0 where
  required recommended : Severity

-- `Blocker`
pub record Blocker : Type 0 where
  pub rule_id : Option ℕ
  pub rule_name : Option String
  pub predicate_kind : PredicateKind
  pub severity : Severity
  pub required_value : Option JsonObject
  pub observed_value : Option JsonObject
  pub detail : Detail

pub data ReadinessState : Type 0 where
  ready_for_uplift blocked not_applicable : ReadinessState

-- `FirmwareComplianceState`
pub data ComplianceState : Type 0 where
  classified target_defined compliant outside_target unknown : ComplianceState

-- `ComplianceReasonKind`, a superset of `FirmwareComplianceReasonKind`
pub data ReasonKind : Type 0 where
  target_matched target_runner_up version_match version_mismatch missing_observation : ReasonKind
  no_target_matched empty_catalog predicate_deferred stale_observation : ReasonKind
  missing_upgrade_path package_not_built active_exception : ReasonKind

-- `ComplianceReason`; a `FirmwareComplianceReason` has no `ref_type`
pub record Reason : Type 0 where
  pub kind : ReasonKind
  pub ref_type : Option String
  pub ref_id : Option ℕ
  pub detail : Detail

-- `DriftType`
pub data DriftType : Type 0 where
  target_drift catalog_drift package_drift rule_drift : DriftType
  evidence_drift discovery_drift exception_drift : DriftType

-- `RecommendedActionKind`
pub data ActionKind : Type 0 where
  upgrade_path_query define_target define_upgrade_path upload_firmware_package : ActionKind
  trigger_discovery request_observation_refresh escalate_to_catalog_owner : ActionKind
  acknowledge_exception schedule_uplift_wave hardware_refresh license_acquire : ActionKind
  firmware_intermediate_step import_observation submit_for_approval assign_approver : ActionKind
  extend_change_window request_exception_review cancel_wave : ActionKind

-- `RecommendedAction`
pub record RecommendedAction : Type 0 where
  pub kind : ActionKind
  pub target_version : Option String
  pub target_platform_family : Option String
  pub target_device_id : Option ℕ
  pub target_observation_id : Option ℕ
  pub target_firmware_target_id : Option ℕ
  pub requires : List String
  pub detail : Option Detail

-- `FirmwareComplianceEnvelope`, without its facts, clock and correlation fields
pub record ComplianceEnvelope : Type 0 where
  pub state : ComplianceState
  pub summary : Detail
  pub target_ref : Option ℕ
  pub target_version : Option String
  pub observed_version : Option String
  pub reasons : List Reason

-- the text of a predicate kind
abbrev pub predicate_value : PredicateKind → String
predicate_value min_ram_mb = "min_ram_mb"
predicate_value min_disk_mb = "min_disk_mb"
predicate_value hardware_revision_in = "hardware_revision_in"
predicate_value min_current_version = "min_current_version"
predicate_value intermediate_version_required = "intermediate_version_required"
predicate_value PredicateKind.missing_upgrade_path = "missing_upgrade_path"
predicate_value license_present = "license_present"
predicate_value not_in_state = "not_in_state"
predicate_value region_in = "region_in"
predicate_value missing_observation_field = "missing_observation_field"
predicate_value tagged_with = "tagged_with"
