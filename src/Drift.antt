-- ===== src/Drift.antt =====
-- gard/core/drift_rules.py: one rule per drift type, and the precedence among the types.
pub mod Precedence
pub mod Exclusive
use gard.Prelude.{
  ℕ, String, Bool, true, false, Option, none, some, List, [], ◌∷◌, ltb, leb, ◌-◌, ◌*◌, ◌/◌, ◌||◌,
  if◌then◌else◌,
}
use gard.Prelude.Sorting.{sort_by, by_key}
use gard.Envelope.{
  Json, null, num, str, Detail, ComplianceState, classified, compliant, outside_target, ReasonKind,
  version_mismatch, no_target_matched, empty_catalog, package_not_built, missing_upgrade_path,
  missing_observation, stale_observation, Reason, ComplianceEnvelope, DriftType, target_drift,
  catalog_drift, package_drift, rule_drift, evidence_drift, discovery_drift, exception_drift,
}
use gard.Db.{DeviceObservation, FirmwarePackage, day}

-- `DRIFT_PRECEDENCE` and `_PRECEDENCE_INDEX`
abbrev pub precedence_index : DriftType → ℕ
precedence_index catalog_drift = 0
precedence_index rule_drift = 1
precedence_index package_drift = 2
precedence_index target_drift = 3
precedence_index discovery_drift = 4
precedence_index evidence_drift = 5
precedence_index exception_drift = 6

-- the loop of `primary_of`, with `best`
unfoldable pub primary_from : Option DriftType → List DriftType → Option DriftType
primary_from best [] = best
primary_from none (d ∷ drifts) = primary_from (some d) drifts
primary_from (some b) (d ∷ drifts) =
    primary_from (if ltb (precedence_index d) (precedence_index b) then some d else some b) drifts

unfoldable pub primary_of : List DriftType → Option DriftType
unfolding primary_from
primary_of drifts = primary_from none drifts

unfoldable pub sort_by_precedence : List DriftType → List DriftType
sort_by_precedence drifts = sort_by (by_key precedence_index) drifts

abbrev reason : ReasonKind → String → List Json → Reason
reason kind template args = record {
  kind = kind;
  ref_type = none;
  ref_id = none;
  detail = record { template = template; args = args };
}

abbrev opt_json : Option String → Json
opt_json none = null
opt_json (some s) = str s

abbrev is_outside : ComplianceState → Bool
is_outside outside_target = true
is_outside _ = false

abbrev is_classified : ComplianceState → Bool
is_classified classified = true
is_classified _ = false

abbrev is_compliant : ComplianceState → Bool
is_compliant compliant = true
is_compliant _ = false

unfoldable pub is_target_drift : ComplianceEnvelope → Option Reason
is_target_drift env =
    if is_outside env.state
    then some (
        reason version_mismatch "observed_firmware={!r} != target_version={!r}"
          (opt_json env.observed_version ∷ opt_json env.target_version ∷ []))
    else none

unfoldable pub target_drift_fired : ComplianceEnvelope → Bool
target_drift_fired env = is_outside env.state

abbrev is_unclaimed : ReasonKind → Bool
is_unclaimed no_target_matched = true
is_unclaimed empty_catalog = true
is_unclaimed _ = false

-- the loop of `is_catalog_drift`
unfoldable pub catalog_reason : List Reason → Option Reason
catalog_reason [] = none
catalog_reason (r ∷ reasons) =
    let rest = catalog_reason reasons in
    if is_unclaimed r.kind
    then some (record { kind = r.kind; ref_type = none; ref_id = none; detail = r.detail })
    else rest

unfoldable pub is_catalog_drift : ComplianceEnvelope → Option Reason
unfolding catalog_reason
is_catalog_drift env = if is_classified env.state then catalog_reason env.reasons else none

abbrev package_reason : String → Option FirmwarePackage → Option Reason
package_reason version none = some (
    reason package_not_built "no FirmwarePackage row exists for target_version={!r}"
      (str version ∷ []))
package_reason version (some p) =
    if p.blob_present
    then none
    else some (record {
      kind = package_not_built;
      ref_type = some "FirmwarePackage";
      ref_id = some p.id;
      detail = record {
        template =
            "FirmwarePackage for {!r} exists but blob has not been uploaded (blob_present=false)";
        args = str version ∷ [];
      };
    })

unfoldable pub is_package_drift : ComplianceEnvelope → Option FirmwarePackage → Option Reason
is_package_drift env firmware = elim env.target_version [
  | none ↦ none
  | some version ↦ if is_outside env.state then package_reason version firmware else none
]

abbrev path_reason : Bool → Option String → Option String → Option Reason
path_reason upgrade_paths_exist (some observed) (some version) =
    if upgrade_paths_exist
    then none
    else some (
        reason missing_upgrade_path
          "no FirmwareUpgradePath chain on this platform reaches target_version={!r}"
          (str version ∷ []))
path_reason upgrade_paths_exist _ _ = none

unfoldable pub is_rule_drift : ComplianceEnvelope → Bool → Option Reason
is_rule_drift env upgrade_paths_exist =
    if is_outside env.state
    then path_reason upgrade_paths_exist env.observed_version env.target_version
    else none

-- `now - then > timedelta(days=…)`; a time that lies ahead is not old
abbrev older_than : ℕ → ℕ → ℕ → Bool
older_than stale_after_days now time = ltb (stale_after_days * day) (now - time)

unfoldable pub is_discovery_drift :
    ComplianceEnvelope → Option DeviceObservation → ℕ → ℕ → Option Reason
is_discovery_drift env none now stale_after_days =
    some (reason missing_observation "device has no DeviceObservation rows on file" [])
is_discovery_drift env (some o) now stale_after_days = elim env.observed_version [
  | none ↦ some (reason missing_observation "device has no observed_firmware on file" [])
  | some v ↦
      if older_than stale_after_days now o.observed_at
      then some (record {
        kind = stale_observation;
        ref_type = some "DeviceObservation";
        ref_id = some o.id;
        detail = record {
          template = "latest observation is {} days old (>{} days threshold)";
          args = num ((now - o.observed_at) / day) ∷ num stale_after_days ∷ [];
        };
      })
      else none
]

abbrev evidence_reason : Option ℕ → ℕ → ℕ → Option Reason
evidence_reason none now stale_after_days = some (
    reason stale_observation
      "device has no re_evaluation LifecycleEvidence row; compliance verdict cannot be re-validated against a recent run"
      [])
evidence_reason (some time) now stale_after_days =
    if older_than stale_after_days now time
    then some (
        reason stale_observation "latest re_evaluation evidence is {} days old (>{} days threshold)"
          (num ((now - time) / day) ∷ num stale_after_days ∷ []))
    else none

unfoldable pub is_evidence_drift : ComplianceEnvelope → Option ℕ → ℕ → ℕ → Option Reason
is_evidence_drift env latest_reeval_evidence_at now stale_after_days =
    if is_compliant env.state
    then evidence_reason latest_reeval_evidence_at now stale_after_days
    else none

unfoldable pub is_exception_drift : ComplianceEnvelope → Option Reason
is_exception_drift env = none
