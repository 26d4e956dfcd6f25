-- ===== src/Readiness/Controller.antt =====
-- `evaluate` of the readiness controller, with its two carve-outs. `evaluation_id` is the
-- identifier that the insert generates.
use gard.Prelude.{
  ℕ, String, Bool, true, false, Option, none, some, List, [], ◌∷◌, ◌++◌, ◌&&◌, ◌==◌, if◌then◌else◌,
}
use gard.Prelude.Tx.{Tx, give, reads, writes, ◌>>=◌, ◌>>◌}
use gard.Envelope.{
  Json, null, str, Detail, JsonObject, Blocker, ReadinessState, ready_for_uplift, blocked,
  not_applicable, ComplianceState, classified, target_defined, compliant, outside_target, unknown,
  Reason, RecommendedAction,
}
use gard.Db.{ReadinessEvaluation, AuditEvent, Db, Call, emit, latest_readiness}
use gard.Actions.{text}
use gard.Same.{list_eq, reason_eq}
use gard.Readiness.{ReadinessError, readiness_no}

-- `ReadinessEnvelope`, without its clock, confidence and correlation fields
pub record ReadinessEnvelope : Type 0 where
  pub state : ReadinessState
  pub summary : Detail
  pub target_version : Option String
  pub observed_version : Option String
  pub upgrade_path_exists : Bool
  pub applicable_rules_count : ℕ
  pub blockers : List Blocker
  pub recommended_actions : List RecommendedAction
  pub reasons : List Reason
  pub compliance_evaluation_ref : Option ℕ
  pub evaluation_id : Option ℕ

pub record ReadinessOutcome : Type 0 where
  pub envelope : ReadinessEnvelope
  pub evaluation_id : Option ℕ
  pub state_changed : Bool

abbrev pub ReadinessTx : Type 0 → Type 0
ReadinessTx A = Tx Db ReadinessError A

abbrev pub readiness_value : ReadinessState → String
readiness_value ready_for_uplift = "ready_for_uplift"
readiness_value blocked = "blocked"
readiness_value not_applicable = "not_applicable"

abbrev pub compliance_value : ComplianceState → String
compliance_value classified = "classified"
compliance_value target_defined = "target_defined"
compliance_value compliant = "compliant"
compliance_value outside_target = "outside_target"
compliance_value unknown = "unknown"

-- `prev.readiness_state if prev is not None else None`
abbrev pub state_before : Option ReadinessEvaluation → Json
state_before none = null
state_before (some prev) = str (readiness_value prev.readiness_state)

abbrev pub id_of : Option ReadinessEvaluation → Option ℕ
id_of none = none
id_of (some prev) = some prev.id

-- the audit row of an evaluation
abbrev pub evaluated_event : Call → ℕ → JsonObject → JsonObject → AuditEvent
evaluated_event call device_id before after = record {
  action = "readiness.evaluated";
  object_type = "Device";
  object_id = device_id;
  actor = call.actor;
  actor_type = call.actor_type;
  before = some before;
  after = some after;
}

-- `session.add(row)` of a carve-out
abbrev pub carve_out_row :
    Call → ℕ → ℕ → Option ℕ → Option String → Option String → Reason → ReadinessEvaluation
carve_out_row call device_id evaluation_id f3_ref target observed reason = record {
  id = evaluation_id;
  device_id = device_id;
  compliance_evaluation_ref = f3_ref;
  readiness_state = not_applicable;
  target_version = target;
  observed_version = observed;
  upgrade_path_exists = false;
  applicable_rules_count = 0;
  blockers = [];
  recommended_actions = [];
  reasons = reason ∷ [];
  evaluated_at = call.now;
}

-- the envelope that a row answers with
abbrev pub envelope_of : ReadinessEvaluation → Detail → Option ℕ → ReadinessEnvelope
envelope_of row summary evaluation_id = record {
  state = row.readiness_state;
  summary = summary;
  target_version = row.target_version;
  observed_version = row.observed_version;
  upgrade_path_exists = row.upgrade_path_exists;
  applicable_rules_count = row.applicable_rules_count;
  blockers = row.blockers;
  recommended_actions = row.recommended_actions;
  reasons = row.reasons;
  compliance_evaluation_ref = row.compliance_evaluation_ref;
  evaluation_id = evaluation_id;
}

abbrev pub is_empty : List Blocker → Bool
is_empty [] = true
is_empty (b ∷ blockers) = false

-- the carve-out is the latest verdict already
unfoldable pub same_carve_out : Option ReadinessEvaluation → Reason → Bool
same_carve_out none reason = false
same_carve_out (some prev) reason =
    (readiness_no prev.readiness_state == readiness_no not_applicable)
    && (is_empty prev.blockers && list_eq reason_eq prev.reasons (reason ∷ []))

abbrev pub insert_row : ReadinessEvaluation → Db → Db
insert_row row db = record db { readiness = db.readiness ++ row ∷ [] }

abbrev pub kept : Option ReadinessEvaluation → ReadinessEvaluation → Detail → ReadinessOutcome
kept prev row summary = record {
  envelope = envelope_of row summary (id_of prev);
  evaluation_id = none;
  state_changed = false;
}

abbrev pub changed : ReadinessEvaluation → Detail → ReadinessOutcome
changed row summary = record {
  envelope = envelope_of row summary (some row.id);
  evaluation_id = some row.id;
  state_changed = true;
}

-- the end of both carve-outs, from the search for the latest verdict on
unfoldable pub emit_carve_out :
    ℕ
    → ReadinessEvaluation
    → Reason
    → (Option ReadinessEvaluation → AuditEvent)
    → ReadinessTx ReadinessOutcome
unfolding same_carve_out
emit_carve_out device_id row reason event = do
  prev ← reads (latest_readiness device_id)
  let summary = text "readiness is not applicable for this device" []
  if same_carve_out prev reason
      then give (kept prev row summary)
      else writes (insert_row row) >> writes (emit (event prev)) >> give (changed row summary)
