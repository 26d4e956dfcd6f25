-- ===== src/Readiness/Repeats.antt =====
-- When a readiness verdict repeats the latest stored one.
use gard.Prelude.{
  ℕ, Bool, true, false, some, List, [], ◌∷◌, ◌≡◌, refl, ◌↔◌, ◌==◌, ◌&&◌, ==_iff, arith,
  opt_str_eq_iff, Option, subst, sym,
}
use gard.Same.{bool_eq, list_eq, blocker_eq, action_eq, reason_eq}
use gard.Envelope.{Detail, Reason, ReadinessState, not_applicable, Blocker}
use gard.Db.{ReadinessEvaluation, ComplianceEvaluation, Call}
use gard.Readiness.{Verdict, readiness_no, sort_actions, verdict_unchanged}
use gard.Readiness.Controller.{ReadinessEnvelope, envelope_of, same_carve_out, is_empty}
use gard.Readiness.Evaluate.{verdict_row}

-- The row states what the envelope states: the same state, the same versions and counts, the same
-- blockers in their order, and the same recommended actions in any order, as JSON.
pub record Repeats (prev : ReadinessEvaluation) (e : ReadinessEnvelope) : Type 0 where
  pub state : prev.readiness_state ≡ e.state
  pub path : prev.upgrade_path_exists ≡ e.upgrade_path_exists
  pub rules : prev.applicable_rules_count ≡ e.applicable_rules_count
  pub target : prev.target_version ≡ e.target_version
  pub observed : prev.observed_version ≡ e.observed_version
  pub blockers : list_eq blocker_eq prev.blockers e.blockers ≡ true
  pub actions :
      list_eq action_eq (sort_actions prev.recommended_actions) (sort_actions e.recommended_actions)
      ≡ true

-- The row is a carve-out with the reasons of the envelope, as JSON.
pub record RepeatsCarveOut (prev : ReadinessEvaluation) (e : ReadinessEnvelope) : Type 0 where
  pub state : prev.readiness_state ≡ not_applicable
  pub blockers : prev.blockers ≡ []
  pub reasons : list_eq reason_eq prev.reasons e.reasons ≡ true

bool_eq_iff : (a b : Bool) → (bool_eq a b ≡ true) ↔ (a ≡ b)
bool_eq_iff true b = ground arith
bool_eq_iff false true = ground arith
bool_eq_iff false false = ground arith

readiness_no_iff : (a b : ReadinessState) → ((readiness_no a == readiness_no b) ≡ true) ↔ (a ≡ b)
readiness_no_iff a b = ground arith

is_empty_iff : (l : List Blocker) → (is_empty l ≡ true) ↔ (l ≡ [])
is_empty_iff [] = ((λ h. refl), λ h. refl)
is_empty_iff (b ∷ l) = ((λ h. absurd (cc h)), λ h. absurd (cc h))

and_iff : (a b : Bool) → ((a && b) ≡ true) ↔ ((a ≡ true) × (b ≡ true))
and_iff a b = ground arith

module _ (prev : ReadinessEvaluation) (id : Option ℕ) (summary : Detail) where
  -- `_verdict_unchanged`, on a stored row
  pub verdict_unchanged_iff :
      (call : Call) (device_id i : ℕ) (f3_row : ComplianceEvaluation) (v : Verdict)
      → (verdict_unchanged (some prev) v ≡ true)
        ↔ Repeats prev (envelope_of (verdict_row call device_id i f3_row v) summary id)
  unfolding verdict_unchanged
  verdict_unchanged_iff call device_id i f3_row v = (
    λ h.
        let a = (and_iff _ _).0 h in
        let b = (and_iff _ _).0 a.1 in
        let c = (and_iff _ _).0 b.1 in
        let d = (and_iff _ _).0 c.1 in
        let e = (and_iff _ _).0 d.1 in
        let f = (and_iff _ _).0 e.1 in
        record {
          state = (readiness_no_iff prev.readiness_state v.state).0 a.0;
          path = (bool_eq_iff prev.upgrade_path_exists v.upgrade_path_exists).0 b.0;
          rules = (==_iff prev.applicable_rules_count v.applicable_rules_count).0 c.0;
          target = (opt_str_eq_iff prev.target_version v.target_version).0 d.0;
          observed = (opt_str_eq_iff prev.observed_version v.observed_version).0 e.0;
          blockers = f.0;
          actions = f.1;
        },
    λ r. (and_iff _ _).1 (
      (readiness_no_iff prev.readiness_state v.state).1 r.state,
      (and_iff _ _).1 (
        (bool_eq_iff prev.upgrade_path_exists v.upgrade_path_exists).1 r.path,
        (and_iff _ _).1 (
          (==_iff prev.applicable_rules_count v.applicable_rules_count).1 r.rules,
          (and_iff _ _).1 (
            (opt_str_eq_iff prev.target_version v.target_version).1 r.target,
            (and_iff _ _).1 (
              (opt_str_eq_iff prev.observed_version v.observed_version).1 r.observed,
              (and_iff _ _).1 (r.blockers, r.actions),
            ),
          ),
        ),
      ),
    ),
  )

  -- the test of both carve-outs, on a stored row
  pub same_carve_out_iff :
      (row : ReadinessEvaluation) (reason : Reason)
      → row.reasons ≡ reason ∷ []
      → (same_carve_out (some prev) reason ≡ true)
        ↔ RepeatsCarveOut prev (envelope_of row summary id)
  unfolding same_carve_out
  same_carve_out_iff row reason own = (
    λ h.
        let a = (and_iff _ _).0 h in
        let b = (and_iff _ _).0 a.1 in
        record {
          state = (readiness_no_iff prev.readiness_state not_applicable).0 a.0;
          blockers = (is_empty_iff prev.blockers).0 b.0;
          reasons = subst (λ l. list_eq reason_eq prev.reasons l ≡ true) (sym own) b.1;
        },
    λ r. (and_iff _ _).1 (
      (readiness_no_iff prev.readiness_state not_applicable).1 r.state,
      (and_iff _ _).1 (
        (is_empty_iff prev.blockers).1 r.blockers,
        subst (λ l. list_eq reason_eq prev.reasons l ≡ true) own r.reasons,
      ),
    ),
  )
