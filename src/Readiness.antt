-- ===== src/Readiness.antt =====
-- gard/core/readiness_evaluation_controller.py: the verdict on a device that is outside its
-- target, from the rules, the upgrade paths and the device's row. `Readiness.Controller` has the
-- calls that write.
pub mod Edges
pub mod Judgement
pub mod Repeats
pub mod Controller
pub mod Evaluate
pub mod Recording
pub mod Batch
pub mod Summary
use gard.Prelude.{
  ℕ, String, Bool, true, false, Option, none, some, List, [], ◌∷◌, ◌++◌, leb, not, str_eq, ◌&&◌,
  map, filter_by, is_none, length, if◌then◌else◌, opt_str_eq, ◌==◌,
}
use gard.Prelude.Sorting.{sort_by}
use gard.Prelude.Tx.{Outcome, returned, raised, and_then}
use gard.Lifecycle.{lifecycle_value}
use gard.Scope.{Facts, SelectorError}
use gard.Scope as Selector
use gard.Envelope.{
  Json, num, str, Detail, Blocker, PredicateKind, min_ram_mb, min_disk_mb, hardware_revision_in,
  license_present, min_current_version, intermediate_version_required, missing_upgrade_path,
  missing_observation_field, not_in_state, region_in, tagged_with, required, ReadinessState,
  ready_for_uplift, blocked, not_applicable, Reason, RecommendedAction,
}
use gard.Db.{
  Device, FirmwarePrerequisiteRule, DeviceObservation, ComplianceEvaluation, ReadinessEvaluation,
  Db, Call, latest_observation,
}
use gard.Prereq.{PrereqError, evaluate_rule}
use gard.Prereq.Order.{sort_blockers, has_required, is_required}
use gard.UpgradePath.{Networkx, EdgeSpec, ChainResult, PathError, with_edges}
use gard.Actions.{
  text, opt_text, sort_actions, schedule_uplift_wave, hardware_refresh, license_acquire,
  firmware_intermediate_step, import_observation, escalate_to_catalog_owner,
}
use gard.Same.{list_eq, bool_eq, blocker_eq, action_eq}

-- `ValueError` of an unknown device or of a batch that is too large, `ReadinessInputStale`, and
-- the errors of the modules that are called.
pub data ReadinessError : Type 0 where
  device_not_found : ℕ → ReadinessError
  too_many_devices : ℕ → ℕ → ReadinessError
  input_stale : ℕ → ℕ → ℕ → ReadinessError
  bad_selector : SelectorError → ReadinessError
  bad_rule : PrereqError → ReadinessError
  bad_path : PathError → ReadinessError

-- a pure call of another module
abbrev pub mapped : {E F A : Type 0} → (F → E) → Outcome F A → Outcome E A
mapped wrap (returned a) = returned a
mapped wrap (raised e) = raised (wrap e)

-- `_device_facts`
unfoldable pub device_facts : Device → Facts
device_facts d = record {
  vendor_normalized = d.vendor_normalized;
  platform_family = d.platform_family;
  region = d.region;
  site = some d.site;
  role = d.role;
  hardware_revision = d.hardware_revision;
  lifecycle_state = some (lifecycle_value d.lifecycle_state);
  tags = d.tags;
}

-- the comprehension of `_matching_rules`
unfoldable pub select_rules :
    Facts → List FirmwarePrerequisiteRule → Outcome SelectorError (List FirmwarePrerequisiteRule)
select_rules facts [] = returned []
select_rules facts (r ∷ rules) =
    let rest = select_rules facts rules in
    and_then (Selector.evaluate r.applies_to facts)
      λ v. and_then rest λ l. returned (if v.matched then r ∷ l else l)

-- `_matching_rules`
unfoldable pub matching_rules : Db → Device → Outcome SelectorError (List FirmwarePrerequisiteRule)
unfolding select_rules device_facts
matching_rules db device =
    select_rules (device_facts device) (
      sort_by (λ a b. leb a.id b.id)
        (filter_by (λ r. is_none r.removed_at && r.evaluable) db.rules))

abbrev pub keep : Option Blocker → List Blocker → List Blocker
keep none blockers = blockers
keep (some b) blockers = b ∷ blockers

-- the loop over the rules
unfoldable pub fire_rules :
    List FirmwarePrerequisiteRule
    → Device
    → Option DeviceObservation
    → Outcome PrereqError (List Blocker)
fire_rules [] device observation = returned []
fire_rules (r ∷ rules) device observation =
    let rest = fire_rules rules device observation in
    and_then (evaluate_rule r device observation) λ b. and_then rest λ l. returned (keep b l)

-- `_platform_edges`
unfoldable pub platform_edges : Db → String → List EdgeSpec
platform_edges db platform =
    map
      (λ p. record { from_version = p.from_version; to_version = p.to_version; weight = p.weight })
      (filter_by (λ p. is_none p.removed_at && str_eq p.platform_family platform) db.upgrade_paths)

abbrev pub is_chain : List String → Bool
is_chain [] = false
is_chain (v ∷ vs) = true

abbrev pub is_light : ℕ → Option ℕ → Bool
is_light most none = true
is_light most (some w) = leb w most

-- `result.chain and (result.total_weight is None or result.total_weight <= cap)`
abbrev pub within_cap : ℕ → ChainResult → Bool
within_cap most result = is_chain result.chain && is_light most result.total_weight

module _ (nx : Networkx) where
  -- `upgrade_path_exists`
  unfoldable pub find_path :
      ℕ → Db → Option String → Option String → Option String → Outcome PathError Bool
  unfolding with_edges platform_edges
  find_path cap db (some platform) (some target) (some observed) =
      and_then (with_edges nx [] platform (platform_edges db platform) observed target).0
        λ result. returned (within_cap cap result)
  find_path cap db _ _ _ = returned false

-- the synthetic blocker
abbrev pub no_path_blocker : ℕ → Option String → Option String → String → Blocker
no_path_blocker cap platform observed target = record {
  rule_id = none;
  rule_name = none;
  predicate_kind = missing_upgrade_path;
  severity = required;
  required_value =
      some (("target_version", str target) ∷ ("platform_family", opt_text platform) ∷ []);
  observed_value = some (("observed_version", opt_text observed) ∷ []);
  detail =
      text
        "no upgrade-path chain from {!r} to {!r} on platform {!r} (or all chains exceed weight cap {})"
        (opt_text observed ∷ str target ∷ opt_text platform ∷ num cap ∷ []);
}

-- `if not upgrade_path_exists and target_version is not None: …`
abbrev pub path_blockers : ℕ → Option String → Option String → Option String → Bool → List Blocker
path_blockers cap platform observed none exists = []
path_blockers cap platform observed (some target) true = []
path_blockers cap platform observed (some target) false =
    no_path_blocker cap platform observed target ∷ []

-- the branches of `_build_actions` on the primary blocker's kind
abbrev pub primary_action : Device → Option String → PredicateKind → Detail → RecommendedAction
primary_action device target min_ram_mb detail = hardware_refresh device.id detail
primary_action device target min_disk_mb detail = hardware_refresh device.id detail
primary_action device target hardware_revision_in detail = hardware_refresh device.id detail
primary_action device target license_present detail = license_acquire device.id detail
primary_action device target min_current_version detail =
    firmware_intermediate_step device.id target device.platform_family detail
primary_action device target intermediate_version_required detail =
    firmware_intermediate_step device.id target device.platform_family detail
primary_action device target missing_upgrade_path detail =
    firmware_intermediate_step device.id target device.platform_family detail
primary_action device target missing_observation_field detail = import_observation device.id detail
primary_action device target not_in_state detail = escalate_to_catalog_owner device.id detail
primary_action device target region_in detail = escalate_to_catalog_owner device.id detail
primary_action device target tagged_with detail = escalate_to_catalog_owner device.id detail

abbrev pub blocked_actions : Device → Option String → List Blocker → List RecommendedAction
blocked_actions device target [] = []
blocked_actions device target (b ∷ blockers) =
    sort_actions (primary_action device target b.predicate_kind b.detail ∷ [])

-- `_build_actions`
unfoldable pub build_actions :
    Device → ReadinessState → List Blocker → Option String → List RecommendedAction
build_actions device ready_for_uplift blockers target =
    sort_actions (schedule_uplift_wave device.id target device.platform_family ∷ [])
build_actions device blocked blockers target = blocked_actions device target blockers
build_actions device not_applicable blockers target = blocked_actions device target blockers

-- `_summary_text`
unfoldable pub summary_text : ReadinessState → List Blocker → Detail
summary_text ready_for_uplift blockers = text "device is ready for uplift" []
summary_text not_applicable blockers = text "readiness is not applicable for this device" []
summary_text blocked blockers = text "blocked: {} required + {} recommended blocker(s)" (
    num (length (filter_by (λ b. is_required b.severity) blockers))
    ∷ num (length (filter_by (λ b. not (is_required b.severity)) blockers))
    ∷ [])

-- what `evaluate` has computed when it compares with the latest row
pub record Verdict : Type 0 where
  pub state : ReadinessState
  pub blockers : List Blocker
  pub actions : List RecommendedAction
  pub upgrade_path_exists : Bool
  pub applicable_rules_count : ℕ
  pub target_version : Option String
  pub observed_version : Option String

-- `"blocked" if has_required else "ready_for_uplift"`
abbrev pub state_of : List Blocker → ReadinessState
state_of blockers = if has_required blockers then blocked else ready_for_uplift

-- the sorted blockers
unfoldable pub all_blockers : ℕ → Device → ComplianceEvaluation → List Blocker → Bool → List Blocker
unfolding sort_blockers
all_blockers cap device f3_row raw exists = sort_blockers (
    raw
    ++ path_blockers cap device.platform_family f3_row.observed_version f3_row.target_version
        exists)

-- steps 6 and 7
unfoldable pub conclude : ℕ → Device → ComplianceEvaluation → ℕ → List Blocker → Bool → Verdict
unfolding all_blockers build_actions
conclude cap device f3_row rules_count raw exists =
    let blockers = all_blockers cap device f3_row raw exists in
    record {
      state = state_of blockers;
      blockers = blockers;
      actions = build_actions device (state_of blockers) blockers f3_row.target_version;
      upgrade_path_exists = exists;
      applicable_rules_count = rules_count;
      target_version = f3_row.target_version;
      observed_version = f3_row.observed_version;
    }

module _ (nx : Networkx) where
  -- steps 3 to 7
  unfoldable pub judge : Call → Db → Device → ComplianceEvaluation → Outcome ReadinessError Verdict
  unfolding matching_rules fire_rules find_path conclude
  judge call db device f3_row = and_then (mapped bad_selector (matching_rules db device)) λ rules.
      and_then (mapped bad_rule (fire_rules rules device (latest_observation device.id db))) λ raw.
        and_then
          (mapped bad_path (
            find_path nx call.settings.readiness_upgrade_weight_cap db device.platform_family
              f3_row.target_version f3_row.observed_version))
          λ exists. returned (
            conclude call.settings.readiness_upgrade_weight_cap device f3_row (length rules) raw
              exists)

abbrev pub readiness_no : ReadinessState → ℕ
readiness_no ready_for_uplift = 0
readiness_no blocked = 1
readiness_no not_applicable = 2

-- `_verdict_unchanged`
unfoldable pub verdict_unchanged : Option ReadinessEvaluation → Verdict → Bool
verdict_unchanged none v = false
verdict_unchanged (some prev) v =
    (readiness_no prev.readiness_state == readiness_no v.state)
    && (bool_eq prev.upgrade_path_exists v.upgrade_path_exists
        && ((prev.applicable_rules_count == v.applicable_rules_count)
            && (opt_str_eq prev.target_version v.target_version
                && (opt_str_eq prev.observed_version v.observed_version
                    && (list_eq blocker_eq prev.blockers v.blockers
                        && list_eq action_eq (sort_actions prev.recommended_actions)
                            (sort_actions v.actions))))))
