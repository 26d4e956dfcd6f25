-- ===== src/Readiness/Evaluate.antt =====
-- `_emit_not_applicable`, `_emit_active_exception` and `evaluate` of the readiness controller.
use gard.Prelude.{
  ℕ, String, Bool, true, false, Option, none, some, List, [], ◌∷◌, ltb, not, ◌-◌, ◌/◌, length,
  if◌then◌else◌,
}
use gard.Prelude.Rows.{update_row}
use gard.Prelude.Tx.{give, reads, lift, require_some, raise_if, writes, ◌>>=◌, ◌>>◌}
use gard.Lifecycle.{LifecycleState, lifecycle_value}
use gard.Envelope.{
  Json, null, flag, num, str, uuid, Detail, Blocker, ReadinessState, ready_for_uplift, blocked,
  not_applicable, ComplianceState, classified, target_defined, compliant, outside_target, unknown,
  Reason, predicate_deferred, active_exception, predicate_value,
}
use gard.Db.{
  Device, ComplianceEvaluation, ReadinessEvaluation, UpliftException, AuditEvent, Db, Call, emit,
  latest_readiness, latest_compliance, day,
}
use gard.UpgradePath.{Networkx}
use gard.Actions.{text}
use gard.Uplift.Exceptions.{find_active_approved_exception}
use gard.Uplift.Exceptions.Operations.{get_device, expire_overdue_exceptions}
use gard.Readiness.{device_not_found, input_stale, Verdict, judge, summary_text, verdict_unchanged}
use gard.Readiness.Controller.{
  ReadinessTx, ReadinessOutcome, readiness_value, compliance_value, state_before, evaluated_event,
  carve_out_row, insert_row, kept, changed, emit_carve_out,
}

abbrev pub ref_of : Option ComplianceEvaluation → Option ℕ
ref_of none = none
ref_of (some r) = some r.id

abbrev pub target_of : Option ComplianceEvaluation → Option String
target_of none = none
target_of (some r) = r.target_version

abbrev pub observed_of : Option ComplianceEvaluation → Option String
observed_of none = none
observed_of (some r) = r.observed_version

-- the detail's template has the reason's kind in front
abbrev pub not_applicable_reason : String → Detail → Reason
not_applicable_reason reason_kind detail = record {
  kind = predicate_deferred;
  ref_type = none;
  ref_id = none;
  detail = text "[{}] {}" (str reason_kind ∷ str detail.template ∷ detail.args);
}

abbrev pub not_applicable_event :
    Call → Device → String → ℕ → Option ReadinessEvaluation → AuditEvent
not_applicable_event call device reason_kind evaluation_id prev =
    evaluated_event call device.id (("readiness_state", state_before prev) ∷ []) (
      ("device_id", uuid device.id)
      ∷ ("readiness_state", str "not_applicable")
      ∷ ("reason_kind", str reason_kind)
      ∷ ("evaluation_id", uuid evaluation_id)
      ∷ [])

-- `_emit_not_applicable`
unfoldable pub emit_not_applicable :
    Call → Device → String → Detail → Option ComplianceEvaluation → ℕ → ReadinessTx ReadinessOutcome
unfolding emit_carve_out
emit_not_applicable call device reason_kind detail f3_row evaluation_id =
    emit_carve_out device.id
      (carve_out_row call device.id evaluation_id (ref_of f3_row) (target_of f3_row)
        (observed_of f3_row) (not_applicable_reason reason_kind detail))
      (not_applicable_reason reason_kind detail)
      (not_applicable_event call device reason_kind evaluation_id)

abbrev pub exception_reason : ℕ → Reason
exception_reason exception_id = record {
  kind = active_exception;
  ref_type = some "UpliftException";
  ref_id = some exception_id;
  detail = text "device has an approved active exception" [];
}

abbrev pub exception_event : Call → Device → ℕ → ℕ → Option ReadinessEvaluation → AuditEvent
exception_event call device exception_id evaluation_id prev =
    evaluated_event call device.id
      (("readiness_state", state_before prev)
        ∷ ("lifecycle_state", str (lifecycle_value device.lifecycle_state))
        ∷ [])
      (("device_id", uuid device.id)
        ∷ ("readiness_state", str "not_applicable")
        ∷ ("reason_kind", str "active_exception")
        ∷ ("exception_id", uuid exception_id)
        ∷ ("evaluation_id", uuid evaluation_id)
        ∷ [])

-- `_emit_active_exception`
unfoldable pub emit_active_exception :
    Call → Device → ℕ → ComplianceEvaluation → ℕ → ReadinessTx ReadinessOutcome
unfolding emit_carve_out
emit_active_exception call device exception_id f3_row evaluation_id =
    emit_carve_out device.id
      (carve_out_row call device.id evaluation_id (some f3_row.id) f3_row.target_version
        f3_row.observed_version (exception_reason exception_id))
      (exception_reason exception_id) (exception_event call device exception_id evaluation_id)

-- `new_lifecycle`
abbrev pub lifecycle_of : ReadinessState → LifecycleState
lifecycle_of ready_for_uplift = LifecycleState.ready_for_uplift
lifecycle_of blocked = LifecycleState.blocked
lifecycle_of not_applicable = LifecycleState.blocked

-- `device.lifecycle_state = new_lifecycle`
unfoldable pub move_device : ℕ → LifecycleState → Db → Db
move_device i state db = record db {
  devices = update_row (λ d. d.id) i (λ d. record d { lifecycle_state = state }) db.devices;
}

abbrev pub verdict_row : Call → ℕ → ℕ → ComplianceEvaluation → Verdict → ReadinessEvaluation
verdict_row call device_id evaluation_id f3_row v = record {
  id = evaluation_id;
  device_id = device_id;
  compliance_evaluation_ref = some f3_row.id;
  readiness_state = v.state;
  target_version = v.target_version;
  observed_version = v.observed_version;
  upgrade_path_exists = v.upgrade_path_exists;
  applicable_rules_count = v.applicable_rules_count;
  blockers = v.blockers;
  recommended_actions = v.actions;
  reasons = [];
  evaluated_at = call.now;
}

abbrev pub primary_kind : List Blocker → Json
primary_kind [] = null
primary_kind (b ∷ blockers) = str (predicate_value b.predicate_kind)

-- step 9
unfoldable pub store_verdict :
    Call → Device → ReadinessEvaluation → Option ReadinessEvaluation → Db → Db
unfolding move_device
store_verdict call device row prev db =
    emit
      (evaluated_event call device.id
        (("readiness_state", state_before prev)
          ∷ ("lifecycle_state", str (lifecycle_value device.lifecycle_state))
          ∷ [])
        (("device_id", uuid device.id)
          ∷ ("readiness_state", str (readiness_value row.readiness_state))
          ∷ ("lifecycle_state", str (lifecycle_value (lifecycle_of row.readiness_state)))
          ∷ ("blocker_count", num (length row.blockers))
          ∷ ("primary_blocker_kind", primary_kind row.blockers)
          ∷ ("upgrade_path_exists", flag row.upgrade_path_exists)
          ∷ ("evaluation_id", uuid row.id)
          ∷ []))
      (move_device device.id (lifecycle_of row.readiness_state) (insert_row row db))

-- steps 8 and 9
unfoldable pub record_verdict :
    Call → Device → ComplianceEvaluation → Verdict → ℕ → ReadinessTx ReadinessOutcome
unfolding verdict_unchanged summary_text store_verdict
record_verdict call device f3_row v evaluation_id = do
  prev ← reads (latest_readiness device.id)
  let row = verdict_row call device.id evaluation_id f3_row v
  let summary = summary_text v.state v.blockers
  if verdict_unchanged prev v
      then give (kept prev row summary)
      else writes (store_verdict call device row prev) >> give (changed row summary)

abbrev pub is_outside : ComplianceState → Bool
is_outside outside_target = true
is_outside _ = false

-- `_NOT_APPLICABLE_REASON.get(state)`, with its default
abbrev pub carve_out_reason : ComplianceState → String
carve_out_reason compliant = "already_compliant"
carve_out_reason classified = "no_target_resolved"
carve_out_reason target_defined = "no_observation_to_verify"
carve_out_reason unknown = "lifecycle_unknown"
carve_out_reason outside_target = "lifecycle_unknown"

module _ (nx : Networkx) where
  -- from the search for an active exception on
  unfoldable pub on_outside :
      Call
      → Device
      → ComplianceEvaluation
      → ℕ
      → Option UpliftException
      → ReadinessTx ReadinessOutcome
  unfolding emit_active_exception record_verdict judge
  on_outside call device f3_row evaluation_id (some exc) =
      emit_active_exception call device exc.id f3_row evaluation_id
  on_outside call device f3_row evaluation_id none = do
    judged ← reads (λ db. judge nx call db device f3_row)
    v ← lift judged
    record_verdict call device f3_row v evaluation_id

  -- from the compliance row on
  unfoldable pub from_compliance :
      Call → Device → ℕ → Option ComplianceEvaluation → ReadinessTx ReadinessOutcome
  unfolding emit_not_applicable on_outside
  from_compliance call device evaluation_id none =
      emit_not_applicable call device "no_compliance_evaluation"
        (text "device has no compliance_evaluation row; call POST /api/v1/compliance/evaluate first"
          [])
        none evaluation_id
  from_compliance call device evaluation_id (some f3_row) = do
    raise_if (ltb call.settings.readiness_stale_days ((call.now - f3_row.evaluated_at) / day))
        (input_stale device.id f3_row.evaluated_at call.settings.readiness_stale_days)
    if not (is_outside f3_row.compliance_state)
        then emit_not_applicable call device (carve_out_reason f3_row.compliance_state)
            (text "latest compliance_state={!r}; readiness not applicable"
              (str (compliance_value f3_row.compliance_state) ∷ []))
            (some f3_row) evaluation_id
        else (reads (find_active_approved_exception device.id call.now)
            >>= on_outside call device f3_row evaluation_id)

  -- the sweep changes the row of the device that was read before it, so it is read again
  unfoldable pub evaluate : Call → ℕ → ℕ → ReadinessTx ReadinessOutcome
  unfolding from_compliance
  evaluate call device_id evaluation_id = do
    found ← reads (get_device device_id)
    require_some (device_not_found device_id) found
    writes (λ db. (expire_overdue_exceptions call device_id db).1)
    swept ← reads (get_device device_id)
    device ← require_some (device_not_found device_id) swept
    latest ← reads (latest_compliance device_id)
    from_compliance call device evaluation_id latest
