-- ===== src/Scenarios/Evaluations.antt =====
-- Runs of the compliance evaluation, of its suggestions and of the roles.
use gard.Prelude.{true, none, some, List, [], ◌∷◌, ◌≡◌, ◌↔◌, All, map}
use gard.Envelope.{
  Reason, ComplianceEnvelope, outside_target, no_target_matched, DriftType, target_drift,
}
use gard.Rbac.{
  Principal, lifecycle_manager, change_approver, has, draft_uplift_wave, approve_uplift_wave,
  manage_exception, approve_exception,
}
use gard.Rbac.Duties.{HasBothSides, has-HasBothSides}
use gard.DriftEvaluation.{widen, base_reasons}
use gard.DriftEvaluation.Reasons.{IsDistinct, Carries, base_reasons-IsDistinct}
use gard.DriftEvaluation.Persisted.{IsLawful, evaluate-IsLawful}
use gard.DriftEvaluation.Controller.{evaluate}
use gard.Scenarios.{alice}
use gard.Scenarios.Readiness.{outside_db}

abbrev two_roles : Principal
two_roles = record {
  subject = "carol";
  actor_type = "user";
  roles = lifecycle_manager ∷ change_approver ∷ [];
}

has-HasBothSides_example :
    (((has two_roles draft_uplift_wave ≡ true) × (has two_roles approve_uplift_wave ≡ true))
      ↔ HasBothSides two_roles.roles)
    × (((has two_roles manage_exception ≡ true) × (has two_roles approve_exception ≡ true))
        ↔ HasBothSides two_roles.roles)
has-HasBothSides_example = has-HasBothSides two_roles

abbrev drifted : ComplianceEnvelope
drifted = record {
  state = outside_target;
  summary = record { template = "outside its target"; args = [] };
  target_ref = some 2;
  target_version = some "17.9";
  observed_version = some "17.3";
  reasons = [];
}

abbrev unmatched : Reason
unmatched = record {
  kind = no_target_matched;
  ref_type = none;
  ref_id = none;
  detail = record { template = "none"; args = [] };
}

abbrev drifts : List (DriftType × Reason)
drifts = (target_drift, unmatched) ∷ []

-- one reason from both sides
abbrev repeated : ComplianceEnvelope
repeated = record drifted { reasons = unmatched ∷ [] }

base_reasons-IsDistinct_example :
    IsDistinct [] (base_reasons repeated drifts)
    × All (Carries (base_reasons repeated drifts)) (map widen repeated.reasons)
    × All (Carries (base_reasons repeated drifts)) (map (λ d. d.1) drifts)
base_reasons-IsDistinct_example = base_reasons-IsDistinct repeated drifts

evaluate-IsLawful_example : All IsLawful (evaluate alice 7 60 outside_db).1.compliance
evaluate-IsLawful_example = evaluate-IsLawful alice 7 60 outside_db (((λ h. absurd (cc h)), tt), tt)
