-- ===== src/Drift/Exclusive.antt =====
-- Which rules can fire together.
use gard.Prelude.{◌≡◌, ◌≢◌, Bool, false, Option, none, ℕ, arith}
use gard.Envelope.{ComplianceEnvelope}
use gard.Db.{FirmwarePackage}
use gard.Drift.{
  is_target_drift, target_drift_fired, is_catalog_drift, is_package_drift, is_rule_drift,
  is_evidence_drift,
}

-- Where the catalogue rule fires, none of the rules on target, package, path and evidence does.
pub is_catalog_drift-alone :
    (env : ComplianceEnvelope) (firmware : Option FirmwarePackage) (paths : Bool) (at : Option ℕ)
    (now stale : ℕ)
    → is_catalog_drift env ≢ none
    → (target_drift_fired env ≡ false)
      × (is_target_drift env ≡ none)
      × (is_package_drift env firmware ≡ none)
      × (is_rule_drift env paths ≡ none)
      × (is_evidence_drift env at now stale ≡ none)
unfolding is_catalog_drift target_drift_fired is_target_drift is_package_drift is_rule_drift
    is_evidence_drift
is_catalog_drift-alone env firmware paths at now stale h =
    (ground arith, ground arith, ground arith, ground arith, ground arith)
