-- ===== src/Scenarios/Drafts.antt =====
-- Runs of `draft_wave`.
use gard.Prelude.{map, Bool, refl, ◌≡◌, inl, [], ◌∷◌}
use gard.Prelude.Rows.{find_row, update_row}
use gard.Prelude.Sorting.{sort_by, insert_by}
use gard.Prelude.Tx.{returned}
use gard.Lifecycle.{LifecycleState}
use gard.Scope.{Value, tagged_with, validate_keys, evaluate, evaluate_items, round}
use gard.Db.{Db, emit, latest_readiness}
use gard.Uplift.Wave.{validate_change_window, target_is_live}
use gard.Uplift.Wave.Draft.{
  DraftRequest, WaveDraftOutcome, draft_wave, draft_fresh, insert_draft, resolve_scope,
  device_facts, in_order, attach, store_wave, find_replay, new_wave,
}
use gard.Uplift.Wave.Membership.{IsGoodDraft, draft_fresh-returned}
use gard.Uplift.Wave.Preview.{WaveDraftPreview, preview_wave_draft}
use gard.Uplift.Wave.Forecast.{preview_of, preview_wave_draft-draft_fresh}
use gard.Uplift.Wave.Enabled.{submit_op}
use gard.Uplift.Wave.History.{transition, run}
use gard.Uplift.Wave.Replay.{replayed, draft_fresh-tagged}
use gard.Scenarios.{alice, ready_db, draft_request, member, switch_in}

-- the wave that the request drafts
abbrev drafted : WaveDraftOutcome
drafted = record {
  wave = new_wave alice draft_request 5 172800000000 176400000000;
  members = (switch_in 7 LifecycleState.ready_for_uplift, member) ∷ [];
  skipped = [];
  replayed = Bool.false;
}

draft_fresh-returned_example :
    IsGoodDraft alice draft_request 5 ready_db drafted
      (draft_fresh alice draft_request 5 ready_db).1
unfolding find_row update_row sort_by insert_by draft_wave draft_fresh insert_draft
    validate_change_window target_is_live validate_keys resolve_scope device_facts evaluate
    evaluate_items latest_readiness in_order attach store_wave emit find_replay round
draft_fresh-returned_example =
    draft_fresh-returned alice draft_request 5 ready_db
      (draft_fresh alice draft_request 5 ready_db).1 drafted refl

preview_wave_draft-draft_fresh_example :
    (p : WaveDraftPreview) × (preview_wave_draft alice (preview_of draft_request) ready_db
      ≡ returned p)
    × (p.warnings ≡ [])
    × (map (λ r. r.device_id) p.device_rows ≡ map (λ m. m.1.device_id) drafted.members)
unfolding find_row update_row sort_by insert_by draft_wave draft_fresh insert_draft
    validate_change_window target_is_live validate_keys resolve_scope device_facts evaluate
    evaluate_items latest_readiness in_order attach store_wave emit find_replay round
preview_wave_draft-draft_fresh_example =
    preview_wave_draft-draft_fresh alice draft_request 5 ready_db
      (draft_fresh alice draft_request 5 ready_db).1 drafted refl

-- bob sends it again a moment later, after alice has submitted the wave
abbrev submitted_db : Db
submitted_db = run (transition alice 5 submit_op ∷ []) (draft_wave alice draft_request 5 ready_db).1

-- a scope that asks for the tag `core`
abbrev tagged_request : DraftRequest
tagged_request = record draft_request {
  scope_selector = (tagged_with, Value.texts ("core" ∷ [])) ∷ [];
}

draft_fresh-tagged_example :
    ¬ (draft_fresh alice tagged_request 5 ready_db ≡ (returned drafted, ready_db))
draft_fresh-tagged_example =
    draft_fresh-tagged alice tagged_request 5 ready_db ready_db drafted (Value.texts ("core" ∷ []))
      (inl refl)
