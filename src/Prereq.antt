-- ===== src/Prereq.antt =====
-- gard/core/prereq_predicates.py: one evaluator per kind of predicate, and their dispatch.
pub mod Order
pub mod Meets
use gard.Prelude.{
  ℕ, String, Bool, true, false, Option, none, some, List, [], ◌∷◌, ltb, not, str_eq, str_ltb,
  str_in, filter_by, map, if◌then◌else◌,
}
use gard.Prelude.Chars.{Chars, lower, strip, chars_in}
use gard.Prelude.Tx.{Outcome, returned, raised}
use gard.Lifecycle.{lifecycle_value}
use gard.Envelope.{
  Json, null, flag, num, str, strs, slugs, Detail, JsonObject, PredicateKind, min_ram_mb,
  min_disk_mb, hardware_revision_in, min_current_version, intermediate_version_required,
  missing_upgrade_path, license_present, not_in_state, region_in, missing_observation_field,
  tagged_with, Severity, required, recommended, Blocker,
}
use gard.Db.{Device, DeviceObservation, FirmwarePrerequisiteRule}

-- `KeyError`: no evaluator is registered for the kind.
pub data PrereqError : Type 0 where
  unknown_predicate_kind : PredicateKind → PrereqError

-- `_severity_of`
abbrev pub severity_of : FirmwarePrerequisiteRule → Severity
severity_of rule = if str_eq rule.severity "recommended" then recommended else required

-- `args.get(key, default)`
abbrev pub get_or : {A : Type 0} → A → Option A → A
get_or d none = d
get_or d (some a) = a

-- `_blocker`, with its severity and its detail written out
abbrev pub blocker :
    FirmwarePrerequisiteRule
    → PredicateKind
    → Severity
    → JsonObject
    → JsonObject
    → String
    → List Json
    → Blocker
blocker rule kind severity wanted observed template args = record {
  rule_id = some rule.id;
  rule_name = some rule.name;
  predicate_kind = kind;
  severity = severity;
  required_value = some wanted;
  observed_value = some observed;
  detail = record { template = template; args = args };
}

-- the synthetic blocker for a column without a value
abbrev pub missing : FirmwarePrerequisiteRule → String → String → List Json → Option Blocker
missing rule field template args = some (
    blocker rule missing_observation_field required (("field", str field) ∷ []) ((field, null) ∷ [])
      template args)

unfoldable pub eval_min_ram_mb : FirmwarePrerequisiteRule → Device → Option Blocker
eval_min_ram_mb rule device =
    let required_mb = get_or 0 rule.predicate_args.min_mb in
    elim device.ram_mb [
      | none ↦
          missing rule "ram_mb" "rule {!r} requires ram_mb >= {} but device row has no ram_mb value"
            (str rule.name ∷ num required_mb ∷ [])
      | some mb ↦
          if ltb mb required_mb
          then some (
              blocker rule min_ram_mb (severity_of rule) (("min_mb", num required_mb) ∷ [])
                (("ram_mb", num mb) ∷ []) "device has {} MB RAM; rule {!r} requires >= {} MB"
                (num mb ∷ str rule.name ∷ num required_mb ∷ []))
          else none
    ]

unfoldable pub eval_min_disk_mb : FirmwarePrerequisiteRule → Device → Option Blocker
eval_min_disk_mb rule device =
    let required_mb = get_or 0 rule.predicate_args.min_mb in
    elim device.disk_mb [
      | none ↦
          missing rule "disk_mb"
            "rule {!r} requires disk_mb >= {} but device row has no disk_mb value"
            (str rule.name ∷ num required_mb ∷ [])
      | some mb ↦
          if ltb mb required_mb
          then some (
              blocker rule min_disk_mb (severity_of rule) (("min_mb", num required_mb) ∷ [])
                (("disk_mb", num mb) ∷ []) "device has {} MB disk; rule {!r} requires >= {} MB"
                (num mb ∷ str rule.name ∷ num required_mb ∷ []))
          else none
    ]

-- `observation.observed_firmware if observation is not None else None`
abbrev pub observed_by : Option DeviceObservation → Option String
observed_by none = none
observed_by (some o) = o.observed_firmware

unfoldable pub eval_min_current_version :
    FirmwarePrerequisiteRule → Option DeviceObservation → Option Blocker
eval_min_current_version rule observation =
    let required_version = get_or "" rule.predicate_args.min_version in
    elim (observed_by observation) [
      | none ↦
          missing rule "observed_firmware"
            "rule {!r} requires min_current_version >= {!r} but no observation carries observed_firmware"
            (str rule.name ∷ str required_version ∷ [])
      | some observed ↦
          if str_ltb observed required_version
          then some (
              blocker rule min_current_version (severity_of rule)
                (("min_version", str required_version) ∷ [])
                (("observed_firmware", str observed) ∷ [])
                "observed_firmware={!r} < required min_version={!r}"
                (str observed ∷ str required_version ∷ []))
          else none
    ]

unfoldable pub eval_hardware_revision_in : FirmwarePrerequisiteRule → Device → Option Blocker
eval_hardware_revision_in rule device =
    let allowed = get_or [] rule.predicate_args.revisions in
    elim device.hardware_revision [
      | none ↦
          missing rule "hardware_revision"
            "rule {!r} requires hardware_revision in {} but device row has no hardware_revision"
            (str rule.name ∷ strs allowed ∷ [])
      | some revision ↦
          if str_in revision allowed
          then none
          else some (
              blocker rule hardware_revision_in (severity_of rule)
                (("revisions", strs allowed) ∷ []) (("hardware_revision", str revision) ∷ [])
                "device hardware_revision={!r} is not in the allowed set {}"
                (str revision ∷ strs allowed ∷ []))
    ]

unfoldable pub eval_license_present : FirmwarePrerequisiteRule → Device → Option Blocker
eval_license_present rule device =
    let needed = get_or "" rule.predicate_args.license in
    elim device.licenses [
      | none ↦
          missing rule "licenses"
            "rule {!r} requires license={!r} but device row has no licenses value"
            (str rule.name ∷ str needed ∷ [])
      | some licenses ↦
          if str_in needed licenses
          then none
          else some (
              blocker rule license_present (severity_of rule) (("license", str needed) ∷ [])
                (("licenses", strs licenses) ∷ [])
                "device does not carry license {!r}; observed licenses={}"
                (str needed ∷ strs licenses ∷ []))
    ]

abbrev pub opt_text : Option String → Json
opt_text none = null
opt_text (some s) = str s

unfoldable pub eval_intermediate_version_required :
    FirmwarePrerequisiteRule → Option DeviceObservation → Option Blocker
eval_intermediate_version_required rule observation =
    let intermediate = get_or "" rule.predicate_args.via_version in
    some (
      blocker rule intermediate_version_required recommended
        (("via_version", str intermediate) ∷ [])
        (("observed_firmware", opt_text (observed_by observation)) ∷ [])
        "rule {!r} recommends an intermediate hop via {!r} before reaching the target"
        (str rule.name ∷ str intermediate ∷ []))

unfoldable pub eval_not_in_state : FirmwarePrerequisiteRule → Device → Option Blocker
eval_not_in_state rule device =
    let forbidden = get_or [] rule.predicate_args.states in
    let state = lifecycle_value device.lifecycle_state in
    if str_in state forbidden
    then some (
        blocker rule not_in_state (severity_of rule) (("states_not_in", strs forbidden) ∷ [])
          (("lifecycle_state", str state) ∷ [])
          "device is in lifecycle_state={!r} which the rule forbids ({})"
          (str state ∷ strs forbidden ∷ []))
    else none

unfoldable pub eval_region_in : FirmwarePrerequisiteRule → Device → Option Blocker
eval_region_in rule device =
    let allowed = get_or [] rule.predicate_args.regions in
    elim device.region [
      | none ↦
          missing rule "region" "rule {!r} requires region in {} but device row has no region value"
            (str rule.name ∷ strs allowed ∷ [])
      | some region ↦
          if str_in region allowed
          then none
          else some (
              blocker rule region_in (severity_of rule) (("regions", strs allowed) ∷ [])
                (("region", str region) ∷ []) "device region={!r} is not in the allowed set {}"
                (str region ∷ strs allowed ∷ []))
    ]

abbrev pub is_filled : Chars → Bool
is_filled [] = false
is_filled (c ∷ cs) = true

-- `[str(t).strip() for t in raw if str(t).strip()]`
abbrev pub required_tags : FirmwarePrerequisiteRule → List Chars
required_tags rule = filter_by is_filled (map strip (get_or [] rule.predicate_args.tags))

-- `[t for t in required if t.lower() not in have]`
abbrev pub missing_tags : List Chars → List Chars → List Chars
missing_tags wanted device_tags =
    filter_by (λ t. not (chars_in (lower t) (map lower device_tags))) wanted

-- the blocker where tags are missing, from the device's tags on
abbrev pub tag_blocker :
    FirmwarePrerequisiteRule → List Chars → List Chars → List Chars → Option Blocker
tag_blocker rule wanted device_tags [] = none
tag_blocker rule wanted device_tags (t ∷ absent) = some (
    blocker rule tagged_with (severity_of rule) (("tags", slugs wanted) ∷ [])
      (("tags", slugs device_tags) ∷ ("missing", slugs (t ∷ absent)) ∷ [])
      "device missing required tag(s) {!r} (have {!r})"
      (slugs (t ∷ absent) ∷ slugs device_tags ∷ []))

abbrev pub tags_round : FirmwarePrerequisiteRule → List Chars → Option (List Chars) → Option Blocker
tags_round rule [] device_tags = none
tags_round rule (t ∷ wanted) none = some (
    blocker rule tagged_with recommended (("tags", slugs (t ∷ wanted)) ∷ [])
      (("tags", null) ∷ ("tags_known", flag false) ∷ [])
      "rule {!r} depends on device tags which are not populated yet; sync from NetBox first"
      (str rule.name ∷ []))
tags_round rule (t ∷ wanted) (some device_tags) =
    tag_blocker rule (t ∷ wanted) device_tags (missing_tags (t ∷ wanted) device_tags)

unfoldable pub eval_tagged_with : FirmwarePrerequisiteRule → Device → Option Blocker
eval_tagged_with rule device = tags_round rule (required_tags rule) device.tags

-- `PREDICATE_DISPATCH[kind]`, applied
abbrev pub dispatch :
    PredicateKind
    → FirmwarePrerequisiteRule
    → Device
    → Option DeviceObservation
    → Outcome PrereqError (Option Blocker)
dispatch min_ram_mb rule device observation = returned (eval_min_ram_mb rule device)
dispatch min_disk_mb rule device observation = returned (eval_min_disk_mb rule device)
dispatch min_current_version rule device observation =
    returned (eval_min_current_version rule observation)
dispatch hardware_revision_in rule device observation =
    returned (eval_hardware_revision_in rule device)
dispatch license_present rule device observation = returned (eval_license_present rule device)
dispatch intermediate_version_required rule device observation =
    returned (eval_intermediate_version_required rule observation)
dispatch not_in_state rule device observation = returned (eval_not_in_state rule device)
dispatch region_in rule device observation = returned (eval_region_in rule device)
dispatch tagged_with rule device observation = returned (eval_tagged_with rule device)
dispatch missing_upgrade_path rule device observation =
    raised (unknown_predicate_kind missing_upgrade_path)
dispatch missing_observation_field rule device observation =
    raised (unknown_predicate_kind missing_observation_field)

unfoldable pub evaluate_rule :
    FirmwarePrerequisiteRule
    → Device
    → Option DeviceObservation
    → Outcome PrereqError (Option Blocker)
evaluate_rule rule device observation = dispatch rule.predicate_kind rule device observation
