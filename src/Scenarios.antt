-- ===== src/Scenarios.antt =====
-- Concrete databases and requests on which the code is run.
pub mod Waves
pub mod Drafts
pub mod Exceptions
pub mod Verdicts
pub mod Drifts
pub mod Graphs
pub mod Readiness
pub mod Evaluations
pub mod Listings
use gard.Prelude.{ℕ, String, none, some, List, [], ◌∷◌, true, ◌*◌, ◌+◌}
use gard.Lifecycle.{LifecycleState, WaveState, ExceptionState, ActorType}
use gard.Scope.{Selector, Value, platform_family, region_in}
use gard.Envelope.{ReadinessState, Blocker, PredicateKind, missing_upgrade_path, Severity, required}
use gard.Db.{
  Device, DeviceObservation, FirmwareTarget, ReadinessEvaluation, UpliftWave, UpliftWaveDevice,
  UpliftException, Db, Settings, Call, hour, day,
}
use gard.Uplift.Wave.{DateTime, aware}
use gard.Uplift.Wave.Draft.{DraftRequest, strict}

abbrev pub settings : Settings
settings = record {
  uplift_wave_max_devices = 50;
  uplift_change_window_max_hours = 24;
  uplift_change_window_min_minutes = 30;
  uplift_idempotency_ttl_seconds = 3600;
  exception_max_lifetime_days = 90;
  discovery_stale_days = 30;
  evidence_stale_days = 90;
  compliance_evaluate_max_batch = 5000;
  readiness_stale_days = 30;
  readiness_upgrade_weight_cap = 1000;
}

abbrev pub call_of : String → ℕ → Call
call_of who now = record {
  now = now;
  settings = settings;
  actor = who;
  actor_type = ActorType.user;
  correlation_id = 1;
}

abbrev pub alice : Call
alice = call_of "alice" 1000

abbrev pub bob : Call
bob = call_of "bob" 2000

abbrev pub switch_in : ℕ → LifecycleState → Device
switch_in i state = record {
  id = i;
  hostname = "sw";
  site = "oslo";
  region = some "north";
  role = some "edge";
  vendor_normalized = some "acme";
  platform_family = some "ios-xe";
  hardware_revision = none;
  ram_mb = some 8192;
  disk_mb = none;
  licenses = none;
  tags = none;
  lifecycle_state = state;
}

abbrev pub no_path : Blocker
no_path = record {
  rule_id = none;
  rule_name = none;
  predicate_kind = missing_upgrade_path;
  severity = required;
  required_value = none;
  observed_value = none;
  detail = record { template = "no path"; args = [] };
}

abbrev pub readiness_of : ℕ → ℕ → ReadinessState → List Blocker → ReadinessEvaluation
readiness_of i device_id state blockers = record {
  id = i;
  device_id = device_id;
  compliance_evaluation_ref = none;
  readiness_state = state;
  target_version = some "17.9";
  observed_version = some "17.3";
  upgrade_path_exists = true;
  applicable_rules_count = 0;
  blockers = blockers;
  recommended_actions = [];
  reasons = [];
  evaluated_at = 10;
}

abbrev pub north_ios : Selector
north_ios = (platform_family, Value.text "ios-xe") ∷ (region_in, Value.texts ("north" ∷ [])) ∷ []

abbrev pub target_of : ℕ → Selector → FirmwareTarget
target_of i scope = record {
  id = i;
  name = "baseline";
  platform_family = "ios-xe";
  target_version = "17.9";
  scope_selector = scope;
  loaded_at = i;
  removed_at = none;
}

abbrev pub wave_in : WaveState → UpliftWave
wave_in state = record {
  id = 5;
  plan_id = 1;
  name = "w";
  target_version = "17.9";
  target_platform_family = "ios-xe";
  change_window_start = 2 * day;
  change_window_end = 2 * day + hour;
  state = state;
  drafted_by = "alice";
  drafted_at = 1000;
  submitted_by = none;
  submitted_at = none;
  approved_by = none;
  approved_at = none;
  approval_citation = none;
  rejected_by = none;
  rejected_at = none;
  rejection_citation = none;
  cancelled_by = none;
  cancelled_at = none;
  cancellation_reason = none;
  invalidated_at = none;
  invalidated_reason = none;
  idempotency_key = some "k";
}

abbrev pub member : UpliftWaveDevice
member = record {
  wave_id = 5;
  device_id = 7;
  position = 1;
  readiness_evaluation_ref = some 3;
  snapshot_target_version = some "17.9";
  snapshot_observed_version = some "17.3";
}

-- one device and nothing else
abbrev pub fleet : Device → ReadinessEvaluation → Db
fleet d r = record {
  devices = d ∷ [];
  observations = [];
  targets = target_of 2 north_ios ∷ [];
  rules = [];
  packages = [];
  upgrade_paths = [];
  evidence = [];
  compliance = [];
  readiness = r ∷ [];
  plans = [];
  waves = [];
  wave_devices = [];
  exceptions = [];
  audit = [];
}

-- a device that is ready
abbrev pub ready_db : Db
ready_db =
    fleet (switch_in 7 LifecycleState.ready_for_uplift)
      (readiness_of 3 7 ReadinessState.ready_for_uplift [])

-- the same with a wave
abbrev pub wave_db : WaveState → LifecycleState → Db
wave_db state device_state =
    record (fleet (switch_in 7 device_state)
      (readiness_of 3 7 ReadinessState.ready_for_uplift [])) {
        waves = wave_in state ∷ [];
        wave_devices = member ∷ [];
      }

abbrev pub draft_request : DraftRequest
draft_request = record {
  plan_id = 1;
  name = "w";
  target_version = "17.9";
  target_platform_family = "ios-xe";
  scope_selector = north_ios;
  mode = strict;
  change_window_start = aware (2 * day);
  change_window_end = aware (2 * day + hour);
  idempotency_key = some "k";
}

-- a device that is blocked
abbrev pub blocked_db : Db
blocked_db =
    fleet (switch_in 7 LifecycleState.blocked)
      (readiness_of 3 7 ReadinessState.blocked (no_path ∷ []))

abbrev pub exception_in : ExceptionState → UpliftException
exception_in state = record {
  id = 9;
  device_id = 7;
  blocker_rule_id = none;
  synthetic_kind = some "missing_upgrade_path";
  justification = "hardware swap is scheduled";
  expires_at = 1500;
  state = state;
  filed_by = "alice";
  filed_at = 900;
  approved_by = none;
  approved_at = none;
  rejected_by = none;
  rejected_at = none;
  withdrawn_by = none;
  withdrawn_at = none;
  expired_at = none;
}

abbrev pub exception_db : ExceptionState → LifecycleState → Db
exception_db state device_state = record blocked_db {
  devices = switch_in 7 device_state ∷ [];
  exceptions = exception_in state ∷ [];
}
