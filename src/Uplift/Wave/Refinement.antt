-- ===== src/Uplift/Wave/Refinement.antt =====
-- The actions on waves against the steps of `History`.
use mathlib.Core.Path.{subst}
use gard.Prelude.{
  ℕ, ◌≡◌, true, inl, inr, refl, sym, ap, not, none, some, [], ◌∷◌, ◌++◌, arith, ◌==◌, if◌then◌else◌,
  Bool-cases, Option-cases, length, ltb, ◌&&◌,
}
use gard.Prelude.Rows.{find_row-append}
use gard.Prelude.Tx.{Outcome, returned, raised, Outcome-cases, attempt, raise_if}
use gard.Db.{UpliftWave, Db, Call}
use gard.Scope.{validate_keys}
use gard.Uplift.Wave.{WaveError, validate_change_window, target_is_live}
use gard.Uplift.Wave.Transitions.{get_wave}
use gard.Uplift.Wave.Draft.{
  DraftRequest, Resolution, WaveDraftOutcome, draft_fresh, insert_draft, resolve_scope, is_strict,
  window_allowed, new_wave,
}
use gard.Uplift.Wave.Operations.{
  submit-returned, approve-returned, reject-returned, cancel-returned,
}
use gard.Uplift.Wave.Enabled.{
  WaveOp, submit_op, approve_op, reject_op, cancel_op, apply_op, apply_op-raised,
}
use gard.Uplift.Wave.Membership.{draft_fresh-returned}
use gard.Uplift.Wave.Pool.{draft_fresh-Drafted}
use gard.Uplift.Wave.History.{
  RowStep, submits, approves, rejects, cancels, RowSteps, here, next, RowSteps-trans, IsConsistent,
  RowSteps-IsConsistent,
}

-- What an action may do to the table: every row that was there has gone along `RowSteps`, and
-- every other row is a consistent draft.
pub record Evolves (db db' : Db) : Type 0 where
  pub kept :
      (i : ℕ) (w : UpliftWave)
      → get_wave i db ≡ some w
      → (w' : UpliftWave) × (get_wave i db' ≡ some w') × RowSteps w w'
  pub added :
      (i : ℕ) (w' : UpliftWave) → get_wave i db ≡ none → get_wave i db' ≡ some w' → IsConsistent w'

pub Evolves-same : (db db' : Db) → db'.waves ≡ db.waves → Evolves db db'
Evolves-same db db' e = record {
  kept = λ i w h. (w, rw e h, here);
  added = λ i w h k. absurd (cc (rw e at k, h));
}

pub Evolves-trans : (a b c : Db) → Evolves a b → Evolves b c → Evolves a c
Evolves-trans a b c p q = record {
  kept = λ i w h.
      let (v, found, steps) = p.kept i w h in
      let (u, found', steps') = q.kept i v found in (u, found', RowSteps-trans steps steps');
  added = λ i u h k. elim (Option-cases (get_wave i b)) [
    | inl missing ↦ q.added i u missing k
    | inr (v, found) ↦
        let (u', found', steps) = q.kept i v found in
        let same : u' ≡ u = cc (found', k) in
        subst IsConsistent same (RowSteps-IsConsistent v u' steps (p.added i v h found))
  ];
}

-- One row has made one step.
pub Evolves-step :
    (wave_id : ℕ) (db db' : Db) (w row : UpliftWave)
    → get_wave wave_id db ≡ some w
    → RowStep w row
    → ((i : ℕ) → get_wave i db' ≡ (if i == wave_id then some row else get_wave i db))
    → Evolves db db'
Evolves-step wave_id db db' w row found step after = record {
  kept = λ i v h. elim (Bool-cases (i == wave_id)) [
    | inl e ↦
        let here_is : i ≡ wave_id = ground arith in
        let same : w ≡ v = cc (found, h, here_is) in
        (row, rw (after i) (rw e refl), subst (λ x. RowSteps x row) same (next here step))
    | inr e ↦ (v, rw (after i) (rw e h), here)
  ];
  added = λ i v h k. elim (Bool-cases (i == wave_id)) [
    | inl e ↦ let here_is : i ≡ wave_id = ground arith in absurd (cc (found, h, here_is))
    | inr e ↦ absurd (cc (rw e at (rw (after i) at k), h))
  ];
}

moved :
    (call : Call) (wave_id : ℕ) (op : WaveOp) (db db' : Db) (row : UpliftWave)
    → apply_op call wave_id op db ≡ (returned row, db')
    → Evolves db db'
unfolding apply_op
moved call wave_id submit_op db db' row h =
    let (w, found, from, e, effect) = submit-returned call wave_id db db' row h in
    Evolves-step wave_id db db' w row found (submits call from e) effect.waves_after
moved call wave_id (approve_op citation) db db' row h =
    let (w, found, from, sod, fit, e, effect) =
      approve-returned call wave_id db db' row citation h in
    Evolves-step wave_id db db' w row found (approves call citation from sod fit e)
      effect.waves_after
moved call wave_id (reject_op citation) db db' row h =
    let (w, found, from, fit, e, effect) = reject-returned call wave_id db db' row citation h in
    Evolves-step wave_id db db' w row found (rejects call citation from fit e) effect.waves_after
moved call wave_id (cancel_op reason) db db' row h =
    let (w, found, from, fit, e, effect) = cancel-returned call wave_id db db' row reason h in
    Evolves-step wave_id db db' w row found (cancels call reason from fit e) effect.waves_after

pub transition-Evolves :
    (call : Call) (wave_id : ℕ) (op : WaveOp) (db : Db) → Evolves db (apply_op call wave_id op db).1
transition-Evolves call wave_id op db = elim (Outcome-cases (apply_op call wave_id op db).0) [
  | inl (row, e) ↦ moved call wave_id op db _ row (λ i. (e i, (apply_op call wave_id op db).1))
  | inr (err, e) ↦ Evolves-same db _ (
      ap (λ (d : Db). d.waves)
        (apply_op-raised call wave_id op db _ err (λ i. (e i, (apply_op call wave_id op db).1))))
]

-- A draft that raises has written nothing.
insert_draft-raised :
    (call : Call) (req : DraftRequest) (wave_id : ℕ) (window : ℕ × ℕ) (r : Resolution) (db db' : Db)
    (err : WaveError)
    → insert_draft call req wave_id window r db ≡ (raised err, db')
    → db' ≡ db
unfolding insert_draft
insert_draft-raised call req wave_id window r db db' err h =
    elim (Bool-cases (is_strict req.mode && not (length r.skipped == 0))) [
      | inl bad ↦ cc (rw (bad, raise_if) at h)
      | inr strictly ↦
          let h₁ = rw (strictly, raise_if) at h in
          elim (Bool-cases (length r.eligible == 0)) [
            | inl bad ↦ cc (rw (bad, raise_if) at h₁)
            | inr nonempty ↦
                let h₂ = rw (nonempty, raise_if) at h₁ in
                elim (Bool-cases (ltb call.settings.uplift_wave_max_devices (length r.eligible))) [
                  | inl bad ↦ cc (rw (bad, raise_if) at h₂)
                  | inr capped ↦
                      let h₃ = rw (capped, raise_if) at h₂ in
                      elim (Bool-cases (window_allowed window.0 window.1)) [
                        | inr bad ↦ cc (rw (bad, raise_if) at h₃)
                        | inl ok ↦ absurd (cc (rw (ok, raise_if) at h₃))
                      ]
                ]
          ]
    ]

draft_fresh-raised :
    (call : Call) (req : DraftRequest) (wave_id : ℕ) (db db' : Db) (err : WaveError)
    → draft_fresh call req wave_id db ≡ (raised err, db')
    → db' ≡ db
unfolding draft_fresh
draft_fresh-raised call req wave_id db db' err h =
    elim (Outcome-cases
      (validate_change_window call req.change_window_start req.change_window_end)) [
        | inr (e, bad) ↦ cc (rw (bad, attempt) at h)
        | inl (w, ok) ↦
            let h₁ = rw (ok, attempt) at h in
            elim (Bool-cases (target_is_live req.target_platform_family req.target_version db)) [
              | inr bad ↦ cc (rw (bad, raise_if) at h₁)
              | inl live ↦
                  let h₂ = rw (live, raise_if) at h₁ in
                  elim (Outcome-cases (validate_keys req.scope_selector)) [
                    | inr (e, bad) ↦ cc (rw (bad, attempt) at h₂)
                    | inl (u, known) ↦
                        let h₃ = rw (known, attempt) at h₂ in
                        elim (Outcome-cases (resolve_scope db req.scope_selector db.devices)) [
                          | inr (e, bad) ↦ cc (rw (bad, attempt) at h₃)
                          | inl (r, resolved) ↦
                              insert_draft-raised call req wave_id w r db db' err
                                (rw (resolved, attempt) at h₃)
                        ]
                  ]
            ]
      ]

Evolves-add :
    (db db' : Db) (row : UpliftWave)
    → db'.waves ≡ db.waves ++ row ∷ []
    → IsConsistent row
    → Evolves db db'
Evolves-add db db' row e consistent = record {
  kept = λ i w h. (w, rw e (rw (find_row-append (λ v. v.id) i db.waves row) (rw h refl)), here);
  added = λ i w' h k.
      let at_end = rw h at (rw (find_row-append (λ v. v.id) i db.waves row) at (rw e at k)) in
      elim (Bool-cases (row.id == i)) [
        | inl same ↦
            let is_row : row ≡ w' = cc (rw same at at_end) in subst IsConsistent is_row consistent
        | inr other ↦ absurd (cc (rw other at at_end))
      ];
}

new_wave-IsConsistent :
    (call : Call) (req : DraftRequest) (wave_id start end : ℕ)
    → window_allowed start end ≡ true
    → IsConsistent (new_wave call req wave_id start end)
new_wave-IsConsistent call req wave_id start end h = record {
  window = ground (arith, h);
  max_24h = ground (arith, h);
  min_15m = ground (arith, h);
  approval_len = λ a x. absurd (cc x);
  rejection_len = λ a x. absurd (cc x);
  cancellation_len = λ a x. absurd (cc x);
  sod = λ a x. absurd (cc x);
  submitted_at_set = λ x. absurd (cc x);
  approved_at_set = λ x. absurd (cc x);
  rejected_at_set = λ x. absurd (cc x);
  cancelled_at_set = λ x. absurd (cc x);
  invalidated_at_set = λ x. absurd (cc x);
}

pub fresh-Evolves :
    (call : Call) (req : DraftRequest) (wave_id : ℕ) (db : Db)
    → Evolves db (draft_fresh call req wave_id db).1
fresh-Evolves call req wave_id db = elim (Outcome-cases (draft_fresh call req wave_id db).0) [
  | inr (err, e) ↦ Evolves-same db _ (
      ap (λ (d : Db). d.waves)
        (draft_fresh-raised call req wave_id db _ err
          (λ i. (e i, (draft_fresh call req wave_id db).1))))
  | inl (out, e) ↦
      let h : ◌≡◌ {A = Outcome WaveError WaveDraftOutcome × Db} (draft_fresh call req wave_id db)
          (returned out, (draft_fresh call req wave_id db).1) =
        (λ i. (e i, (draft_fresh call req wave_id db).1)) in
      let good = draft_fresh-returned call req wave_id db _ out h in
      let d = draft_fresh-Drafted call req wave_id db out _ h in
      Evolves-add db _ out.wave good.waves_after (
        subst IsConsistent (sym d.inserted.wave_eq)
          (new_wave-IsConsistent call req wave_id d.window.0 d.window.1 d.inserted.checked))
]
