-- ===== src/Uplift/Wave/Forecast.antt =====
-- The preview of a wave and the draft of the same request.
use gard.Prelude.{ℕ, true, Option, List, [], ◌∷◌, ◌≡◌, refl, sym, ap, ◌∙◌, map, ◌+◌}
use gard.Prelude.Tx.{returned}
use gard.Db.{Device, ReadinessEvaluation, Db, Call}
use gard.Uplift.Wave.Draft.{DraftRequest, WaveDraftOutcome, attach, in_order, draft_fresh}
use gard.Uplift.Wave.Pool.{draft_fresh-Drafted}
use gard.Uplift.Wave.Preview.{PreviewRequest, WaveDraftPreview, row_of, present, preview_wave_draft}

-- the arguments that the two functions share
abbrev pub preview_of : DraftRequest → PreviewRequest
preview_of req = record {
  target_version = req.target_version;
  target_platform_family = req.target_platform_family;
  scope_selector = req.scope_selector;
  mode = req.mode;
  change_window_start = req.change_window_start;
  change_window_end = req.change_window_end;
}

rows-attach :
    (wave_id n : ℕ) (es : List (Device × Option ReadinessEvaluation))
    → map (λ r. r.device_id) (map row_of es) ≡ map (λ m. m.1.device_id) (attach wave_id n es)
unfolding attach
rows-attach wave_id n [] = refl
rows-attach wave_id n ((d, latest) ∷ es) = ap (λ l. d.id ∷ l) (rows-attach wave_id (n + 1) es)

-- Where a request can be drafted, its preview warns of nothing and lists the devices of the wave
-- in the order of their positions.
pub preview_wave_draft-draft_fresh :
    (call : Call) (req : DraftRequest) (wave_id : ℕ) (db db' : Db) (out : WaveDraftOutcome)
    → draft_fresh call req wave_id db ≡ (returned out, db')
    → (p : WaveDraftPreview) × (preview_wave_draft call (preview_of req) db ≡ returned p)
      × (p.warnings ≡ [])
      × (map (λ r. r.device_id) p.device_rows ≡ map (λ m. m.1.device_id) out.members)
unfolding preview_wave_draft
preview_wave_draft-draft_fresh call req wave_id db db' out h =
    let d = draft_fresh-Drafted call req wave_id db out db' h in
    let i = d.inserted in
    (
      present req.mode (returned d.window) true d.resolution,
      rw (d.window_ok, d.live, d.known, d.resolved) refl,
      rw (i.strictly, i.nonempty) refl,
      rows-attach wave_id 1 (in_order d.resolution.eligible)
          ∙ ap (map λ m. m.1.device_id) (sym i.members_eq),
    )
