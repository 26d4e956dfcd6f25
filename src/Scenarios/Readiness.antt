-- ===== src/Scenarios/Readiness.antt =====
-- Runs of the readiness evaluation.
use gard.Prelude.{
  ℕ, String, true, Option, none, some, List, [], ◌∷◌, ◌≡◌, refl, ◌⊎◌, ◌↔◌, ◌≤◌, ◌+◌, All, length,
}
use gard.Prelude.Rows.{find_row}
use gard.Prelude.Sorting.{sort_by, insert_by, IsLeast}
use gard.Prelude.Tx.{Outcome, returned, raised}
use gard.Lifecycle.{LifecycleState}
use gard.Scope as Selector
use gard.Envelope.{
  Blocker, ReadinessState, ready_for_uplift, outside_target, min_ram_mb, recommended,
}
use gard.Db.{
  Device, ComplianceEvaluation, FirmwarePrerequisiteRule, PredicateArgs, Db, latest_observation,
  latest_readiness, latest_compliance,
}
use gard.UpgradePath.{with_edges, rebuild, shortest_path, get_graph, add_edges, path_weight}
use gard.Prereq.{evaluate_rule, eval_min_ram_mb}
use gard.Prereq.Order.{
  key_leb, is_required, has_required, sort_blockers, primary_blocker_of, primary_blocker_of-IsLeast,
}
use gard.Prereq.Meets.{Meets, evaluate_rule-Meets}
use gard.Readiness.{
  Verdict, judge, conclude, matching_rules, select_rules, device_facts, fire_rules, find_path,
  platform_edges, all_blockers, build_actions, summary_text, verdict_unchanged, ReadinessError,
}
use gard.Actions.{sort_actions}
use gard.Uplift.Exceptions.{find_active_approved_exception}
use gard.Uplift.Exceptions.Operations.{expire_overdue_exceptions, expire_each}
use gard.Readiness.Controller.{ReadinessOutcome}
use gard.Readiness.Evaluate.{evaluate, from_compliance, on_outside, record_verdict}
use gard.Readiness.Summary.{devices_at, Filters, fetch_summary, sum_counts, fetch_summary-Counted}
use gard.Readiness.Judgement.{Clears, Reachable, judge-Ready}
use gard.Scenarios.{alice, switch_in, fleet, readiness_of, no_path}
use gard.Scenarios.Graphs.{list_nx, list_laws, one_edge_finds}

abbrev pub no_args : PredicateArgs
no_args = record {
  min_mb = none;
  min_version = none;
  revisions = none;
  license = none;
  via_version = none;
  states = none;
  regions = none;
  tags = none;
}

-- at least 4096 MB
abbrev pub ram_rule : FirmwarePrerequisiteRule
ram_rule = record {
  id = 31;
  name = "ram";
  applies_to = [];
  predicate_kind = min_ram_mb;
  predicate_args = record no_args { min_mb = some 4096 };
  severity = "required";
  evaluable = true;
  removed_at = none;
}

abbrev pub outside : Device
outside = switch_in 7 LifecycleState.outside_target

evaluate_rule-Meets_example :
    (evaluate_rule ram_rule outside none ≡ returned none) ↔ Meets ram_rule outside none
evaluate_rule-Meets_example = evaluate_rule-Meets ram_rule outside none

abbrev pub outside_row : ComplianceEvaluation
outside_row = record {
  id = 21;
  device_id = 7;
  target_ref = some 2;
  observation_ref = none;
  compliance_state = outside_target;
  primary_drift_type = none;
  secondary_drift_types = [];
  target_version = some "17.9";
  observed_version = some "17.3";
  reasons = [];
  recommended_actions = [];
  evaluated_at = 900;
}

-- a device outside its target, one rule and one upgrade path
abbrev pub outside_db : Db
outside_db = record (fleet outside (readiness_of 3 7 ReadinessState.blocked (no_path ∷ []))) {
  rules = ram_rule ∷ [];
  upgrade_paths =
      record {
        platform_family = "ios-xe";
        from_version = "17.3";
        to_version = "17.9";
        weight = 1;
        removed_at = none;
      }
      ∷ [];
  compliance = outside_row ∷ [];
}

-- the verdict on it
abbrev pub ready_verdict : Verdict
ready_verdict = conclude 1000 outside outside_row 1 [] true

judge-Ready_example : (ready_verdict.state ≡ ready_for_uplift) ↔ (
    All (Clears outside (latest_observation 7 outside_db)) (ram_rule ∷ [])
    × ((◌≡◌ {A = Option String} (some "17.9") none)
        ⊎ Reachable 1000 outside_db (some "ios-xe") (some "17.9") (some "17.3")))
unfolding judge matching_rules select_rules device_facts fire_rules find_path platform_edges
    with_edges rebuild shortest_path get_graph add_edges path_weight evaluate_rule eval_min_ram_mb
    sort_by insert_by latest_observation Selector.evaluate Selector.evaluate_items
    Selector.validate_keys
judge-Ready_example =
    judge-Ready list_nx list_laws alice outside_db outside outside_row ready_verdict (ram_rule ∷ [])
      one_edge_finds refl refl

abbrev advisory : Blocker
advisory = record no_path { severity = recommended; predicate_kind = min_ram_mb }

primary_blocker_of-IsLeast_example :
    IsLeast key_leb no_path (advisory ∷ no_path ∷ [])
    × (is_required no_path.severity ≡ has_required (advisory ∷ no_path ∷ []))
unfolding primary_blocker_of sort_blockers sort_by insert_by
primary_blocker_of-IsLeast_example =
    primary_blocker_of-IsLeast (advisory ∷ no_path ∷ []) no_path refl

-- The latest row says ready already, but the compliance evaluation has moved the device back to
-- outside its target since.
abbrev stuck_db : Db
stuck_db = record outside_db {
  readiness =
      record (readiness_of 3 7 ready_verdict.state ready_verdict.blockers) {
        recommended_actions = ready_verdict.actions;
        applicable_rules_count = 1;
      }
      ∷ [];
}

abbrev opt_state : Option Device → Option LifecycleState
opt_state none = none
opt_state (some d) = some d.lifecycle_state

abbrev answer : Outcome ReadinessError ReadinessOutcome → Option ReadinessState
answer (raised e) = none
answer (returned o) = some o.envelope.state

-- The evaluation answers that the device is ready and leaves it outside its target.
stays_outside :
    (answer (evaluate list_nx alice 7 50 stuck_db).0 ≡ some ready_for_uplift)
    × (opt_state (find_row (λ d. d.id) 7 (evaluate list_nx alice 7 50 stuck_db).1.devices)
        ≡ some LifecycleState.outside_target)
unfolding evaluate from_compliance on_outside record_verdict verdict_unchanged summary_text conclude
    all_blockers sort_blockers build_actions sort_actions judge matching_rules select_rules
    device_facts fire_rules find_path platform_edges with_edges rebuild shortest_path get_graph
    add_edges path_weight evaluate_rule eval_min_ram_mb sort_by insert_by latest_observation
    latest_readiness latest_compliance Selector.evaluate Selector.evaluate_items
    Selector.validate_keys find_row expire_overdue_exceptions expire_each
    find_active_approved_exception
stays_outside = (refl, refl)

abbrev batch : List (ℕ × ℕ)
batch = (7, 50) ∷ []

abbrev everything : Filters
everything = record { region = none; site = none; platform_family = none; vendor_normalized = none }

fetch_summary-Counted_example :
    let s = fetch_summary outside_db everything in
    (s.ready_for_uplift_count
      ≡ devices_at ready_for_uplift outside_db everything outside_db.devices)
    × (s.blocked_count ≡ devices_at ReadinessState.blocked outside_db everything outside_db.devices)
    × (s.not_applicable_count
        ≡ devices_at ReadinessState.not_applicable outside_db everything outside_db.devices)
    × (s.total_outside_target
        ≡ devices_at ready_for_uplift outside_db everything outside_db.devices
          + devices_at ReadinessState.blocked outside_db everything outside_db.devices)
    × (length s.top_blocker_categories ≤ 10)
    × (sum_counts s.top_blocker_categories
        ≤ devices_at ReadinessState.blocked outside_db everything outside_db.devices)
fetch_summary-Counted_example = fetch_summary-Counted outside_db everything
