-- ===== src/DriftEvaluation/Controller.antt =====
-- `evaluate` of the compliance evaluation controller. `evaluation_id` is the identifier that the
-- insert generates.
use gard.Prelude.{
  ℕ, String, Bool, true, false, Option, none, some, List, [], ◌∷◌, ◌++◌, map, if◌then◌else◌,
}
use gard.Prelude.Rows.{find_row}
use gard.Prelude.Tx.{Outcome, returned, raised, Tx, give, reads, require_some, writes, ◌>>=◌, ◌>>◌}
use gard.Envelope.{
  Json, null, str, strs, uuid, Detail, ComplianceState, Reason, ComplianceEnvelope,
  RecommendedAction, DriftType, target_drift, catalog_drift, package_drift, rule_drift,
  evidence_drift, discovery_drift, exception_drift,
}
use gard.Db.{
  Device, ComplianceEvaluation, AuditEvent, Db, Call, emit, latest_compliance, latest_observation,
}
use gard.Compliance.{ComplianceError}
use gard.Compliance.Controller as Firmware
use gard.Readiness.Controller.{compliance_value}
use gard.DriftEvaluation.{Verdict, drift_reasons, conclude, verdict_unchanged}

-- the errors of this controller and of the firmware compliance controller
pub data EvaluationError : Type 0 where
  device_not_found : ℕ → EvaluationError
  too_many_devices : ℕ → ℕ → EvaluationError
  in_firmware : ComplianceError → EvaluationError

abbrev pub EvaluationTx : Type 0 → Type 0
EvaluationTx A = Tx Db EvaluationError A

-- a call of another controller, whose errors go on to the caller
abbrev pub wrapped : {E F A : Type 0} → (F → E) → Outcome F A → Outcome E A
wrapped wrap (returned a) = returned a
wrapped wrap (raised e) = raised (wrap e)

abbrev pub calls : {S E F A : Type 0} → (F → E) → Tx S F A → Tx S E A
calls wrap m s = let (r, s') = m s in (wrapped wrap r, s')

-- `ComplianceEnvelope`, without its facts, clock, confidence and correlation fields
pub record DriftEnvelope : Type 0 where
  pub state : ComplianceState
  pub summary : Detail
  pub drift_type : Option DriftType
  pub secondary_drift_types : List DriftType
  pub target_ref : Option ℕ
  pub target_version : Option String
  pub observed_version : Option String
  pub observation_ref : Option ℕ
  pub reasons : List Reason
  pub recommended_actions : List RecommendedAction
  pub evaluation_id : Option ℕ

pub record EvaluationOutcome : Type 0 where
  pub envelope : DriftEnvelope
  pub evaluation_id : Option ℕ
  pub state_changed : Bool

abbrev pub drift_value : DriftType → String
drift_value target_drift = "target_drift"
drift_value catalog_drift = "catalog_drift"
drift_value package_drift = "package_drift"
drift_value rule_drift = "rule_drift"
drift_value evidence_drift = "evidence_drift"
drift_value discovery_drift = "discovery_drift"
drift_value exception_drift = "exception_drift"

abbrev pub opt_drift : Option DriftType → Json
opt_drift none = null
opt_drift (some d) = str (drift_value d)

abbrev pub opt_uuid : Option ℕ → Json
opt_uuid none = null
opt_uuid (some i) = uuid i

abbrev pub opt_text : Option String → Json
opt_text none = null
opt_text (some s) = str s

abbrev pub envelope_of : Verdict → Option ℕ → DriftEnvelope
envelope_of v evaluation_id = record {
  state = v.state;
  summary = v.summary;
  drift_type = v.primary;
  secondary_drift_types = v.secondary;
  target_ref = v.target_ref;
  target_version = v.target_version;
  observed_version = v.observed_version;
  observation_ref = v.observation_ref;
  reasons = v.reasons;
  recommended_actions = v.actions;
  evaluation_id = evaluation_id;
}

abbrev pub row_of : Call → ℕ → ℕ → Verdict → ComplianceEvaluation
row_of call device_id evaluation_id v = record {
  id = evaluation_id;
  device_id = device_id;
  target_ref = v.target_ref;
  observation_ref = v.observation_ref;
  compliance_state = v.state;
  primary_drift_type = v.primary;
  secondary_drift_types = v.secondary;
  target_version = v.target_version;
  observed_version = v.observed_version;
  reasons = v.reasons;
  recommended_actions = v.actions;
  evaluated_at = call.now;
}

abbrev pub state_before : Option ComplianceEvaluation → Json
state_before none = null
state_before (some prev) = str (compliance_value prev.compliance_state)

abbrev pub drift_before : Option ComplianceEvaluation → Json
drift_before none = null
drift_before (some prev) = opt_drift prev.primary_drift_type

-- the audit row; its entry for the confidence is left out
abbrev pub evaluated_event : Call → ℕ → ℕ → Verdict → Option ComplianceEvaluation → AuditEvent
evaluated_event call device_id evaluation_id v prev = record {
  action = "compliance.evaluated";
  object_type = "Device";
  object_id = device_id;
  actor = call.actor;
  actor_type = call.actor_type;
  before =
      some
        (("compliance_state", state_before prev) ∷ ("primary_drift_type", drift_before prev) ∷ []);
  after = some (
      ("device_id", uuid device_id)
      ∷ ("compliance_state", str (compliance_value v.state))
      ∷ ("primary_drift_type", opt_drift v.primary)
      ∷ ("secondary_drift_types", strs (map drift_value v.secondary))
      ∷ ("target_ref", opt_uuid v.target_ref)
      ∷ ("observed_version", opt_text v.observed_version)
      ∷ ("evaluation_id", uuid evaluation_id)
      ∷ []);
}

abbrev pub insert_row : ComplianceEvaluation → Db → Db
insert_row row db = record db { compliance = db.compliance ++ row ∷ [] }

abbrev pub id_of : Option ComplianceEvaluation → Option ℕ
id_of none = none
id_of (some prev) = some prev.id

abbrev pub kept : Option ComplianceEvaluation → Verdict → EvaluationOutcome
kept prev v = record {
  envelope = envelope_of v (id_of prev);
  evaluation_id = none;
  state_changed = false;
}

abbrev pub changed : ℕ → Verdict → EvaluationOutcome
changed evaluation_id v = record {
  envelope = envelope_of v (some evaluation_id);
  evaluation_id = some evaluation_id;
  state_changed = true;
}

-- from the search for the latest row on
unfoldable pub record_verdict : Call → ℕ → ℕ → Verdict → EvaluationTx EvaluationOutcome
unfolding verdict_unchanged
record_verdict call device_id evaluation_id v = do
  prev ← reads (latest_compliance device_id)
  if verdict_unchanged prev v
      then give (kept prev v)
      else writes (insert_row (row_of call device_id evaluation_id v))
        >> writes (emit (evaluated_event call device_id evaluation_id v prev))
        >> give (changed evaluation_id v)

-- the verdict on a device whose firmware question is answered
unfoldable pub judge : Call → Device → ComplianceEnvelope → Db → Verdict
unfolding drift_reasons conclude
judge call device f2 db =
    conclude device f2 (latest_observation device.id db) (drift_reasons call db device f2)

unfoldable pub evaluate : Call → ℕ → ℕ → EvaluationTx EvaluationOutcome
unfolding record_verdict judge
evaluate call device_id evaluation_id = do
  found ← reads (λ db. find_row (λ d. d.id) device_id db.devices)
  device ← require_some (device_not_found device_id) found
  f2 ← calls in_firmware (Firmware.evaluate call device_id)
  v ← reads (judge call device f2)
  record_verdict call device_id evaluation_id v
