-- ===== src/Uplift/Wave/Replay.antt =====
-- The idempotency key of `draft_wave`, and scopes that ask for tags.
use gard.Prelude.{ℕ, ◌≡◌, ◌<◌, true, [], ◌∷◌, arith, length, All, All-In, In}
use gard.Prelude.Tx.{returned}
use gard.Scope.{Value, tagged_with}
use gard.Scope.Meaning.{Satisfies}
use gard.Scope.Verdicts.{matched_iff}
use gard.Db.{UpliftWave, Db, Call}
use gard.Uplift.Wave.{load_wave_members}
use gard.Uplift.Wave.Draft.{DraftRequest, Members, WaveDraftOutcome, device_facts, draft_fresh}
use gard.Uplift.Wave.Membership.{IsMemberOf, draft_fresh-returned}

-- A scope with a `tagged_with` leaf drafts no wave, whatever the tags of the devices are: the
-- facts that this controller hands to the selector have no tags.
pub draft_fresh-tagged :
    (call : Call) (req : DraftRequest) (wave_id : ℕ) (db db' : Db) (out : WaveDraftOutcome)
    (v : Value)
    → In (tagged_with, v) req.scope_selector
    → ¬ (draft_fresh call req wave_id db ≡ (returned out, db'))
unfolding device_facts
draft_fresh-tagged call req wave_id db db' out v tagged h =
    let good = draft_fresh-returned call req wave_id db db' out h in
    no_members out.members good.nonempty good.members
  where
    no_members :
        (ms : Members)
        → 0 < length ms
        → All (λ m. IsMemberOf db req.scope_selector wave_id m.0 m.1) ms
        → ⊥
    no_members [] pos h = absurd (omega arith)
    no_members (m ∷ ms) pos h =
        let (verdict, seen, matched) = h.0.in_scope in
        All-In (λ item. Satisfies (device_facts m.0) item.0 item.1) (tagged_with, v)
          req.scope_selector
          ((matched_iff req.scope_selector (device_facts m.0) verdict seen).0 matched) tagged

-- The wave that a repeated request is answered with.
abbrev pub replayed : UpliftWave → Db → WaveDraftOutcome
replayed w db = record {
  wave = w;
  members = load_wave_members w.id db;
  skipped = [];
  replayed = true;
}
