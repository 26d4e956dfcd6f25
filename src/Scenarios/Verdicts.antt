-- ===== src/Scenarios/Verdicts.antt =====
-- Runs of the selector and of the compliance evaluation.
use gard.Prelude.{inr, Bool, List, refl, ◌≡◌, ◌↔◌, ◌⊎◌, inl, none, some, [], ◌∷◌, true, In}
use gard.Prelude.Rows.{find_row, update_row}
use gard.Prelude.Sorting.{sort_by, insert_by}
use gard.Prelude.Tx.{returned, raised}
use gard.Lifecycle.{LifecycleState}
use gard.Scope.{
  Key, Selector, Value, Facts, Evaluation, evaluate, evaluate_items, validate_keys, round,
  tagged_with, other, unknown_selector_key, specificity, count_leaves,
}
use gard.Scope.Verdicts.{AllHold, evaluate-matched, evaluate-unknown_key, evaluate_order}
use gard.Scope.Deferred.{IsDeferral, evaluate-deferred}
use gard.Envelope.{ComplianceEnvelope, unknown, missing_observation}
use gard.Db.{Device, FirmwareTarget, emit}
use gard.Compliance.{
  Candidate, Resolved, facts_for, resolve_target, match_targets, active_targets,
  latest_observed_firmware, summarize, reason,
}
use gard.Compliance.Controller.{judge, classify, maybe_transition, with_target}
use gard.Compliance.Winner.{InScope, IsBest, resolve_target-returned}
use gard.Compliance.Judgement.{Evaluated, evaluate-returned}
use gard.Scenarios.{alice, north_ios, ready_db, switch_in, target_of}

-- the facts of a device in the north, whose tags are not known
abbrev north_facts : Facts
north_facts = facts_for (switch_in 7 LifecycleState.classified)

evaluate-matched_example :
    (r : Evaluation) × (evaluate north_ios north_facts ≡ returned r)
    × ((r.matched ≡ true) ↔ AllHold north_facts north_ios)
evaluate-matched_example = evaluate-matched north_ios north_facts (tt, (tt, tt))

evaluate-unknown_key_example :
    evaluate ((other "color", Value.null) ∷ north_ios) north_facts ≡ raised unknown_selector_key
evaluate-unknown_key_example =
    evaluate-unknown_key ((other "color", Value.null) ∷ north_ios) north_facts "color" Value.null
      (inl refl)

abbrev matched_verdict : Evaluation
matched_verdict = record { matched = true; deferred_keys = [] }

-- the same leaves the other way round
abbrev ios_north : Selector
ios_north =
    (Key.region_in, Value.texts ("north" ∷ [])) ∷ (Key.platform_family, Value.text "ios-xe") ∷ []

evaluate_order_example : matched_verdict.matched ≡ matched_verdict.matched
unfolding evaluate evaluate_items validate_keys round facts_for
evaluate_order_example =
    evaluate_order north_ios ios_north north_facts matched_verdict matched_verdict
      (λ item. (swap, swap)) refl refl
  where
    swap : {A : Type 0} {a x y : A} → In a (x ∷ y ∷ []) → In a (y ∷ x ∷ [])
    swap (inl p) = inr (inl p)
    swap (inr (inl p)) = inl p
    swap (inr (inr q)) = absurd q

abbrev tagged_scope : Selector
tagged_scope = (tagged_with, Value.texts ("core" ∷ [])) ∷ []

evaluate-deferred_example :
    IsDeferral north_facts tagged_scope
      (record { matched = Bool.false; deferred_keys = tagged_with ∷ [] })
unfolding evaluate evaluate_items validate_keys round facts_for
evaluate-deferred_example =
    evaluate-deferred tagged_scope north_facts
      (record { matched = Bool.false; deferred_keys = tagged_with ∷ [] }) (tt, tt) refl
      (λ e. absurd (cc e))

-- two targets, the second of which is more specific
abbrev two_targets : List FirmwareTarget
two_targets = target_of 1 [] ∷ target_of 2 north_ios ∷ []

abbrev resolved : Resolved
resolved = record {
  winner = some (record { target = target_of 2 north_ios; specificity = 2; deferred_keys = [] });
  runners_up = record { target = target_of 1 []; specificity = 0; deferred_keys = [] } ∷ [];
  deferred = [];
}

resolve_target-returned_example :
    ((w : Candidate) × (resolved.winner ≡ some w) × IsBest two_targets north_facts w)
    ⊎ ((resolved.winner ≡ none)
        × ((t : FirmwareTarget) → In t two_targets → ¬ (InScope north_facts t)))
unfolding resolve_target match_targets evaluate evaluate_items validate_keys round facts_for
    specificity count_leaves sort_by insert_by
resolve_target-returned_example = resolve_target-returned two_targets north_facts resolved refl

abbrev ready_switch : Device
ready_switch = switch_in 7 LifecycleState.ready_for_uplift

-- nothing has been observed on the device
abbrev verdict_of_ready : ComplianceEnvelope
verdict_of_ready =
    (with_target ready_switch none
      (record { target = target_of 2 north_ios; specificity = 2; deferred_keys = [] }) [] unknown
      LifecycleState.unknown "unknown"
      (reason missing_observation none "device has no observed_firmware on file" [])).envelope

evaluate-returned_example :
    Evaluated 7 ready_db verdict_of_ready (gard.Compliance.Controller.evaluate alice 7 ready_db).1
unfolding gard.Compliance.Controller.evaluate judge resolve_target match_targets evaluate
    evaluate_items validate_keys round facts_for specificity count_leaves sort_by insert_by find_row
    update_row active_targets latest_observed_firmware classify maybe_transition summarize emit
evaluate-returned_example =
    evaluate-returned alice 7 ready_db (gard.Compliance.Controller.evaluate alice 7 ready_db).1
      verdict_of_ready refl
