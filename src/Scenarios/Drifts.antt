-- ===== src/Scenarios/Drifts.antt =====
-- Runs of the drift rules.
use gard.Prelude.{◌≡◌, false, none, some, [], ◌∷◌, first}
use gard.Envelope.{
  target_drift, catalog_drift, evidence_drift, ComplianceEnvelope, classified, no_target_matched,
}
use gard.Drift.{
  primary_of, sort_by_precedence, is_target_drift, target_drift_fired, is_catalog_drift,
  catalog_reason, is_package_drift, is_rule_drift, is_evidence_drift,
}
use gard.Drift.Precedence.{primary_of-sort_by_precedence}
use gard.Drift.Exclusive.{is_catalog_drift-alone}

primary_of-sort_by_precedence_example :
    primary_of (target_drift ∷ catalog_drift ∷ evidence_drift ∷ [])
    ≡ first (sort_by_precedence (target_drift ∷ catalog_drift ∷ evidence_drift ∷ []))
primary_of-sort_by_precedence_example =
    primary_of-sort_by_precedence (target_drift ∷ catalog_drift ∷ evidence_drift ∷ [])

-- no target claims the device
abbrev unclaimed : ComplianceEnvelope
unclaimed = record {
  state = classified;
  summary = record { template = "no firmware target applies"; args = [] };
  target_ref = none;
  target_version = none;
  observed_version = some "17.3";
  reasons =
      record {
        kind = no_target_matched;
        ref_type = none;
        ref_id = none;
        detail = record { template = "none of 2"; args = [] };
      }
      ∷ [];
}

is_catalog_drift-alone_example :
    (target_drift_fired unclaimed ≡ false)
    × (is_target_drift unclaimed ≡ none)
    × (is_package_drift unclaimed none ≡ none)
    × (is_rule_drift unclaimed false ≡ none)
    × (is_evidence_drift unclaimed none 0 90 ≡ none)
unfolding is_catalog_drift catalog_reason
is_catalog_drift-alone_example =
    is_catalog_drift-alone unclaimed none false none 0 90 (λ e. absurd (cc e))
