-- ===== src/Compliance/Controller.antt =====
-- `evaluate` of gard/core/compliance_controller.py: the verdict, the transition and its audit row.
use gard.Prelude.{
  ℕ, String, Option, none, some, List, [], ◌∷◌, ◌++◌, map, str_eq, length, take, if◌then◌else◌,
}
use gard.Prelude.Rows.{find_row, update_row}
use gard.Prelude.Tx.{
  Tx, Outcome, returned, and_then, give, reads, attempt, require_some, writes, ◌>>=◌, ◌>>◌,
}
use gard.Lifecycle.{LifecycleState, lifecycle_eq, lifecycle_value}
use gard.Scope.{Key, SelectorError}
use gard.Envelope.{
  null, num, str, strs, uuid, ComplianceState, classified, compliant, outside_target, unknown,
  target_matched, target_runner_up, version_match, version_mismatch, missing_observation,
  no_target_matched, empty_catalog, predicate_deferred, Reason, ComplianceEnvelope,
}
use gard.Db.{Device, FirmwareTarget, Db, Call, emit}
use gard.Compliance.{
  device_not_found, bad_selector, Candidate, ComplianceError, Resolved, active_targets, facts_for,
  latest_observed_firmware, opt_json, reason, resolve_target, sorted_keys, summarize,
}

-- the reason `predicate_deferred`, when there are deferred keys
abbrev pub deferred_reason : List Key → List Reason
deferred_reason [] = []
deferred_reason (k ∷ ks) =
    reason predicate_deferred none "deferred selector keys: {}" (strs (sorted_keys (k ∷ ks)) ∷ [])
    ∷ []

-- What `evaluate` concludes before it writes.
pub record Verdict : Type 0 where
  pub envelope : ComplianceEnvelope
  pub new_state : LifecycleState
  pub target : Option FirmwareTarget
  pub reason_text : String

-- the branches with no target
abbrev pub no_target : Device → Option String → List Reason → String → Verdict
no_target d observed reasons text = record {
  envelope = record {
    state = classified;
    summary = summarize classified d none observed;
    target_ref = none;
    target_version = none;
    observed_version = observed;
    reasons = reasons;
  };
  new_state = LifecycleState.classified;
  target = none;
  reason_text = text;
}

abbrev pub runner_up : Candidate → Reason
runner_up c =
    reason target_runner_up (some c.target.id) "runner-up {!r} also matched (specificity={})"
      (str c.target.name ∷ num c.specificity ∷ [])

-- `base_reasons`
abbrev pub base_reasons : Candidate → List Candidate → List Reason
base_reasons w runners_up =
    reason target_matched (some w.target.id) "target {!r} matched (specificity={}, loaded_at={})"
      (str w.target.name ∷ num w.specificity ∷ num w.target.loaded_at ∷ [])
    ∷ map runner_up (take 3 runners_up)

abbrev pub with_target :
    Device
    → Option String
    → Candidate
    → List Candidate
    → ComplianceState
    → LifecycleState
    → String
    → Reason
    → Verdict
with_target d observed w runners_up state new_state text why = record {
  envelope = record {
    state = state;
    summary = summarize state d (some w.target) observed;
    target_ref = some w.target.id;
    target_version = some w.target.target_version;
    observed_version = observed;
    reasons = base_reasons w runners_up ++ why ∷ [];
  };
  new_state = new_state;
  target = some w.target;
  reason_text = text;
}

-- the classification on the observation
unfoldable pub classify : Device → Option String → Candidate → List Candidate → Verdict
unfolding summarize
classify d none w runners_up =
    with_target d none w runners_up unknown LifecycleState.unknown "unknown"
      (reason missing_observation none "device has no observed_firmware on file" [])
classify d (some observed) w runners_up =
    if str_eq observed w.target.target_version
    then with_target d (some observed) w runners_up compliant LifecycleState.compliant "compliant" (
        reason version_match none "observed_firmware == target_version ({!r})"
          (str w.target.target_version ∷ []))
    else with_target d (some observed) w runners_up outside_target LifecycleState.outside_target
        "outside_target"
        (reason version_mismatch none "observed_firmware={!r} != target_version={!r}"
          (str observed ∷ str w.target.target_version ∷ []))

abbrev pub conclude : Device → Option String → ℕ → Resolved → Verdict
conclude d observed live_targets r = elim r.winner [
  | none ↦
      no_target d observed
        (reason no_target_matched none "none of {} live targets matched device facts"
            (num live_targets ∷ [])
          ∷ deferred_reason r.deferred)
        "no_target_matched"
  | some w ↦ classify d observed w r.runners_up
]

-- the branches of `evaluate`
unfoldable pub judge : Device → List FirmwareTarget → Option String → Outcome SelectorError Verdict
unfolding resolve_target classify facts_for summarize
judge d [] observed = returned (
    no_target d observed
      (reason empty_catalog none "no firmware_targets rows are live; falling back to classified." []
        ∷ [])
      "empty_catalog")
judge d (t ∷ ts) observed =
    and_then (resolve_target (t ∷ ts) (facts_for d))
      λ r. returned (conclude d observed (length (t ∷ ts)) r)

-- `_maybe_transition`
unfoldable pub maybe_transition : Call → Device → Verdict → Option String → Db → Db
maybe_transition call d v observed db =
    if lifecycle_eq v.new_state d.lifecycle_state
    then db
    else emit
        (record {
          action = "firmware_target.compliance_evaluated";
          object_type = "Device";
          object_id = d.id;
          actor = call.actor;
          actor_type = call.actor_type;
          before = some (("lifecycle_state", str (lifecycle_value d.lifecycle_state)) ∷ []);
          after = some (
              ("lifecycle_state", str (lifecycle_value v.new_state))
              ∷ ("target_ref", elim v.target [ none ↦ null | some t ↦ uuid t.id ])
              ∷ ("target_version", elim v.target [ none ↦ null | some t ↦ str t.target_version ])
              ∷ ("observed_firmware", opt_json observed)
              ∷ ("reason", str v.reason_text)
              ∷ []);
        })
        (record db {
          devices =
              update_row (λ r. r.id) d.id (λ r. record r { lifecycle_state = v.new_state })
                db.devices;
        })

unfoldable pub evaluate : Call → ℕ → Tx Db ComplianceError ComplianceEnvelope
unfolding judge maybe_transition active_targets latest_observed_firmware
evaluate call device_id = do
  found ← reads (λ db. find_row (λ r. r.id) device_id db.devices)
  device ← require_some (device_not_found device_id) found
  targets ← reads active_targets
  observed ← reads (latest_observed_firmware device.id)
  verdict ← attempt bad_selector (judge device targets observed)
  writes (maybe_transition call device verdict observed)
  give verdict.envelope
