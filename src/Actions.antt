-- ===== src/Actions.antt =====
-- gard/core/recommended_actions.py: the builders of the compliance and readiness actions, and
-- `build_actions_for`. The tie-break of its sort, the JSON text of an action, is left out: no
-- kind occurs twice in a list.
pub mod Kinds
use gard.Prelude.{
  ℕ, String, Bool, true, false, Option, none, some, List, [], ◌∷◌, ◌++◌, not, str_ltb, any_of, ◌&&◌,
  ◌==◌, if◌then◌else◌,
}
use gard.Prelude.Sorting.{sort_by}
use gard.Envelope.{
  Json, null, str, Detail, ActionKind, RecommendedAction, ComplianceEnvelope, DriftType,
  target_drift, catalog_drift, package_drift, rule_drift, evidence_drift, discovery_drift,
}
use gard.Rbac.{
  read_firmware_catalog, manage_rules, manage_firmware_blob, import_devices, reevaluate_observation,
  read_readiness, draft_uplift_wave,
}
use gard.Db.{Device}
use gard.Drift.{precedence_index}

-- the text of a kind
abbrev pub action_value : ActionKind → String
action_value ActionKind.upgrade_path_query = "upgrade_path_query"
action_value ActionKind.define_target = "define_target"
action_value ActionKind.define_upgrade_path = "define_upgrade_path"
action_value ActionKind.upload_firmware_package = "upload_firmware_package"
action_value ActionKind.trigger_discovery = "trigger_discovery"
action_value ActionKind.request_observation_refresh = "request_observation_refresh"
action_value ActionKind.escalate_to_catalog_owner = "escalate_to_catalog_owner"
action_value ActionKind.acknowledge_exception = "acknowledge_exception"
action_value ActionKind.schedule_uplift_wave = "schedule_uplift_wave"
action_value ActionKind.hardware_refresh = "hardware_refresh"
action_value ActionKind.license_acquire = "license_acquire"
action_value ActionKind.firmware_intermediate_step = "firmware_intermediate_step"
action_value ActionKind.import_observation = "import_observation"
action_value ActionKind.submit_for_approval = "submit_for_approval"
action_value ActionKind.assign_approver = "assign_approver"
action_value ActionKind.extend_change_window = "extend_change_window"
action_value ActionKind.request_exception_review = "request_exception_review"
action_value ActionKind.cancel_wave = "cancel_wave"

-- an action about a device, without the fields that only some builders set
abbrev pub device_action : ActionKind → ℕ → List String → Detail → RecommendedAction
device_action kind device_id requires detail = record {
  kind = kind;
  target_version = none;
  target_platform_family = none;
  target_device_id = some device_id;
  target_observation_id = none;
  target_firmware_target_id = none;
  requires = requires;
  detail = some detail;
}

abbrev pub text : String → List Json → Detail
text template args = record { template = template; args = args }

abbrev pub opt_text : Option String → Json
opt_text none = null
opt_text (some s) = str s

abbrev pub upgrade_path_query : ℕ → String → Option String → RecommendedAction
upgrade_path_query device_id version platform =
    record (device_action ActionKind.upgrade_path_query device_id (read_firmware_catalog ∷ [])
      (text "query upgrade-path graph for a chain to {!r}" (str version ∷ []))) {
        target_version = some version;
        target_platform_family = platform;
      }

abbrev pub define_target : ℕ → Option String → RecommendedAction
define_target device_id platform =
    record (device_action ActionKind.define_target device_id (manage_rules ∷ []) (
      text
        "add a FirmwareTarget YAML under gard-catalog/firmware/targets/ whose scope_selector matches this device's facts, then `make catalog-reload`"
        [])) { target_platform_family = platform }

abbrev pub define_upgrade_path : Option String → String → Option String → RecommendedAction
define_upgrade_path observed version platform = record {
  kind = ActionKind.define_upgrade_path;
  target_version = some version;
  target_platform_family = platform;
  target_device_id = none;
  target_observation_id = none;
  target_firmware_target_id = none;
  requires = manage_rules ∷ [];
  detail = some (
      text "add FirmwareUpgradePath edges that reach {!r} from {!r} on this platform"
        (str version ∷ opt_text observed ∷ []));
}

abbrev pub upload_firmware_package : String → Option ℕ → Option String → RecommendedAction
upload_firmware_package version target_id platform = record {
  kind = ActionKind.upload_firmware_package;
  target_version = some version;
  target_platform_family = platform;
  target_device_id = none;
  target_observation_id = none;
  target_firmware_target_id = target_id;
  requires = manage_firmware_blob ∷ [];
  detail =
      some (text "POST /api/v1/firmware/packages/{id}/blob for version {!r}" (str version ∷ []));
}

abbrev pub trigger_discovery : ℕ → RecommendedAction
trigger_discovery device_id =
    device_action ActionKind.trigger_discovery device_id (import_devices ∷ []) (
      text
        "schedule a discovery/refresh job for this device — current observation is missing or stale"
        [])

abbrev pub request_observation_refresh : ℕ → Option ℕ → RecommendedAction
request_observation_refresh device_id observation_id =
    record (device_action ActionKind.request_observation_refresh device_id
      (reevaluate_observation ∷ [])
      (text "re-run a re_evaluation pass so this device emits a fresh lifecycle_evidence row" [])) {
        target_observation_id = observation_id;
      }

abbrev pub escalate_to_catalog_owner : ℕ → Detail → RecommendedAction
escalate_to_catalog_owner device_id detail =
    device_action ActionKind.escalate_to_catalog_owner device_id [] detail

abbrev pub schedule_uplift_wave : ℕ → Option String → Option String → RecommendedAction
schedule_uplift_wave device_id version platform =
    record (device_action ActionKind.schedule_uplift_wave device_id (read_readiness ∷ []) (
      text "device is ready for uplift to {!r}; queue for the next wave" (opt_text version ∷ []))) {
        target_version = version;
        target_platform_family = platform;
      }

abbrev pub hardware_refresh : ℕ → Detail → RecommendedAction
hardware_refresh device_id detail = device_action ActionKind.hardware_refresh device_id [] detail

abbrev pub license_acquire : ℕ → Detail → RecommendedAction
license_acquire device_id detail = device_action ActionKind.license_acquire device_id [] detail

abbrev pub firmware_intermediate_step :
    ℕ → Option String → Option String → Detail → RecommendedAction
firmware_intermediate_step device_id version platform detail =
    record (device_action ActionKind.firmware_intermediate_step device_id
      (read_firmware_catalog ∷ []) detail) {
        target_version = version;
        target_platform_family = platform;
      }

abbrev pub import_observation : ℕ → Detail → RecommendedAction
import_observation device_id detail =
    device_action ActionKind.import_observation device_id (import_devices ∷ []) detail

-- `d in drift_set`
abbrev pub has_drift : DriftType → List DriftType → Bool
has_drift d drifts = any_of (λ x. precedence_index x == precedence_index d) drifts

abbrev pub when : Bool → RecommendedAction → List RecommendedAction
when true a = a ∷ []
when false a = []

-- the three actions that need a target version
abbrev pub target_actions :
    Device → ComplianceEnvelope → List DriftType → Option String → List RecommendedAction
target_actions device envelope drifts none = []
target_actions device envelope drifts (some version) =
    when (has_drift rule_drift drifts)
      (define_upgrade_path envelope.observed_version version device.platform_family)
    ++ (when (has_drift package_drift drifts)
          (upload_firmware_package version envelope.target_ref device.platform_family)
        ++ when (has_drift target_drift drifts && not (has_drift rule_drift drifts))
            (upgrade_path_query device.id version device.platform_family))

-- `sorted(actions, key=…)` by the kind's text
abbrev pub kind_leb : RecommendedAction → RecommendedAction → Bool
kind_leb a b = not (str_ltb (action_value b.kind) (action_value a.kind))

unfoldable pub sort_actions : List RecommendedAction → List RecommendedAction
sort_actions actions = sort_by kind_leb actions

-- the actions before they are sorted
unfoldable pub collect_actions :
    Device → ComplianceEnvelope → List DriftType → List RecommendedAction
collect_actions device envelope drifts =
    when (has_drift catalog_drift drifts) (define_target device.id device.platform_family)
    ++ (target_actions device envelope drifts envelope.target_version
        ++ (when (has_drift discovery_drift drifts) (trigger_discovery device.id)
            ++ when (has_drift evidence_drift drifts) (request_observation_refresh device.id none)))

unfoldable pub build_actions_for :
    Device → ComplianceEnvelope → List DriftType → List RecommendedAction
unfolding sort_actions collect_actions
build_actions_for device envelope drifts = sort_actions (collect_actions device envelope drifts)
