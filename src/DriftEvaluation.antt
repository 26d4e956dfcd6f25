-- ===== src/DriftEvaluation.antt =====
-- gard/core/compliance_evaluation_controller.py: the inputs of the drift rules, and the verdict
-- that is stored. `DriftEvaluation.Controller` has the calls that write.
pub mod Reasons
pub mod Persisted
pub mod Controller
pub mod Batch
use gard.Prelude.{
  ℕ, String, Bool, true, false, Option, none, some, List, [], ◌∷◌, ◌++◌, ltb, not, ◌&&◌, ◌==◌,
  str_eq, opt_str_eq, opt_eq, is_none, filter_by, map, length, any_of, if◌then◌else◌,
}
use gard.Prelude.Sorting.{sort_by}
use gard.Envelope.{
  Detail, ComplianceState, compliant, Reason, ComplianceEnvelope, RecommendedAction, DriftType,
  target_drift, catalog_drift, package_drift, rule_drift, evidence_drift, discovery_drift,
  exception_drift,
}
use gard.Db.{
  Device, DeviceObservation, FirmwarePackage, ComplianceEvaluation, Db, Call, latest_by,
  latest_observation,
}
use gard.Drift.{
  precedence_index, sort_by_precedence, primary_of, is_target_drift, is_catalog_drift,
  is_package_drift, is_rule_drift, is_discovery_drift, is_evidence_drift, is_exception_drift,
}
use gard.Actions.{build_actions_for, action_value, kind_leb}
use gard.Same.{list_eq, option_eq, reason_same, action_eq}

-- the query of `_resolve_package`
abbrev pub is_package : String → String → String → FirmwarePackage → Bool
is_package vendor platform version p =
    is_none p.removed_at
    && (str_eq p.vendor vendor && (str_eq p.platform_family platform && str_eq p.version version))

abbrev pub package_for : Db → Option String → Option String → String → Option FirmwarePackage
package_for db (some vendor) (some platform) version =
    latest_by (λ p. p.loaded_at) (filter_by (is_package vendor platform version) db.packages)
package_for db _ _ version = none

-- `_resolve_package`
unfoldable pub resolve_package : Db → Device → String → Option FirmwarePackage
resolve_package db device version =
    package_for db device.vendor_normalized device.platform_family version

-- `_upgrade_paths_exist`
unfoldable pub upgrade_paths_exist : Db → Option String → String → Bool
upgrade_paths_exist db none version = false
upgrade_paths_exist db (some platform) version = ltb 0 (
    length (
      filter_by
        (λ p.
          is_none p.removed_at
          && (str_eq p.platform_family platform && str_eq p.to_version version))
        db.upgrade_paths))

-- `_latest_reeval_evidence_at`
unfoldable pub latest_reeval_evidence_at : ℕ → Db → Option ℕ
latest_reeval_evidence_at device_id db =
    elim (latest_by (λ e. e.timestamp)
      (filter_by
        (λ e. e.is_re_evaluation && (str_eq e.subject_type "Device" && (e.subject_id == device_id)))
        db.evidence)) [ none ↦ none | some e ↦ some e.timestamp ]

-- `drift_reasons.append(…)` where the rule fired
abbrev pub fired : DriftType → Option Reason → List (DriftType × Reason)
fired d none = []
fired d (some r) = (d, r) ∷ []

abbrev pub package_of : Db → Device → Option String → Option FirmwarePackage
package_of db device none = none
package_of db device (some version) = resolve_package db device version

abbrev pub paths_of : Db → Device → Option String → Bool
paths_of db device none = false
paths_of db device (some version) = upgrade_paths_exist db device.platform_family version

-- the rules, one after the other
unfoldable pub drift_reasons : Call → Db → Device → ComplianceEnvelope → List (DriftType × Reason)
unfolding resolve_package upgrade_paths_exist latest_reeval_evidence_at is_target_drift
    is_catalog_drift is_package_drift is_rule_drift is_discovery_drift is_evidence_drift
    is_exception_drift
drift_reasons call db device f2 =
    fired catalog_drift (is_catalog_drift f2)
    ++ (fired rule_drift (is_rule_drift f2 (paths_of db device f2.target_version))
        ++ (fired package_drift (is_package_drift f2 (package_of db device f2.target_version))
            ++ (fired target_drift (is_target_drift f2)
                ++ (fired discovery_drift (
                      is_discovery_drift f2 (latest_observation device.id db) call.now
                        call.settings.discovery_stale_days)
                    ++ (fired evidence_drift (
                          is_evidence_drift f2 (latest_reeval_evidence_at device.id db) call.now
                            call.settings.evidence_stale_days)
                        ++ fired exception_drift (is_exception_drift f2))))))

-- `_push`: a reason whose signature was seen is not added
abbrev pub push : List Reason → Reason → List Reason
push reasons r = if any_of (reason_same r) reasons then reasons else reasons ++ r ∷ []

unfoldable pub push_all : List Reason → List Reason → List Reason
push_all reasons [] = reasons
push_all reasons (r ∷ rest) = push_all (push reasons r) rest

-- an F2 reason, as the constructor call takes it over
abbrev pub widen : Reason → Reason
widen r = record { kind = r.kind; ref_type = none; ref_id = r.ref_id; detail = r.detail }

-- `base_reasons`
unfoldable pub base_reasons : ComplianceEnvelope → List (DriftType × Reason) → List Reason
unfolding push_all
base_reasons f2 drifts = push_all (push_all [] (map widen f2.reasons)) (map (λ d. d.1) drifts)

abbrev pub drift_eq : DriftType → DriftType → Bool
drift_eq a b = precedence_index a == precedence_index b

-- `d != primary`
abbrev pub differs : Option DriftType → DriftType → Bool
differs none d = true
differs (some p) d = not (drift_eq d p)

-- `d in soft_drift`
abbrev pub is_soft : DriftType → Bool
is_soft evidence_drift = true
is_soft discovery_drift = true
is_soft _ = false

abbrev pub soft_only : Option DriftType → Option DriftType
soft_only none = none
soft_only (some d) = if is_soft d then some d else none

abbrev pub is_compliant : ComplianceState → Bool
is_compliant compliant = true
is_compliant _ = false

-- what `evaluate` has computed when it compares with the latest row
pub record Verdict : Type 0 where
  pub state : ComplianceState
  pub summary : Detail
  pub primary : Option DriftType
  pub secondary : List DriftType
  pub target_ref : Option ℕ
  pub target_version : Option String
  pub observed_version : Option String
  pub observation_ref : Option ℕ
  pub reasons : List Reason
  pub actions : List RecommendedAction

abbrev pub observation_id : Option DeviceObservation → Option ℕ
observation_id none = none
observation_id (some o) = some o.id

-- `persisted_primary` and `persisted_secondary`
unfoldable pub persisted :
    ComplianceState → Option DriftType → List DriftType → Option DriftType × List DriftType
persisted state primary secondary =
    if is_compliant state
    then (soft_only primary, filter_by is_soft secondary)
    else (primary, secondary)

-- `drift_set`
abbrev pub drift_set : List (DriftType × Reason) → List DriftType
drift_set drifts = sort_by_precedence (map (λ d. d.0) drifts)

-- `secondary`
abbrev pub secondary_of : List (DriftType × Reason) → List DriftType
secondary_of drifts = filter_by (differs (primary_of (drift_set drifts))) (drift_set drifts)

-- from the drift rules on, up to the comparison
unfoldable pub conclude :
    Device → ComplianceEnvelope → Option DeviceObservation → List (DriftType × Reason) → Verdict
unfolding base_reasons sort_by_precedence primary_of persisted build_actions_for
conclude device f2 latest_obs drifts =
    let kept = persisted f2.state (primary_of (drift_set drifts)) (secondary_of drifts) in
    record {
      state = f2.state;
      summary = f2.summary;
      primary = kept.0;
      secondary = kept.1;
      target_ref = f2.target_ref;
      target_version = f2.target_version;
      observed_version = f2.observed_version;
      observation_ref = observation_id latest_obs;
      reasons = base_reasons f2 drifts;
      actions = build_actions_for device f2 (drift_set drifts);
    }

abbrev pub state_no : ComplianceState → ℕ
state_no ComplianceState.classified = 0
state_no ComplianceState.target_defined = 1
state_no compliant = 2
state_no ComplianceState.outside_target = 3
state_no ComplianceState.unknown = 4

-- `_verdict_unchanged`
unfoldable pub verdict_unchanged : Option ComplianceEvaluation → Verdict → Bool
verdict_unchanged none v = false
verdict_unchanged (some prev) v =
    (state_no prev.compliance_state == state_no v.state)
    && (option_eq drift_eq prev.primary_drift_type v.primary
        && (list_eq drift_eq prev.secondary_drift_types v.secondary
            && (opt_eq prev.target_ref v.target_ref
                && (opt_str_eq prev.target_version v.target_version
                    && (opt_str_eq prev.observed_version v.observed_version
                        && (list_eq reason_same prev.reasons v.reasons
                            && list_eq action_eq (sort_by kind_leb prev.recommended_actions)
                                (sort_by kind_leb v.actions)))))))
