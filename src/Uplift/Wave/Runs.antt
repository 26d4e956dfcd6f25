-- ===== src/Uplift/Wave/Runs.antt =====
-- Any sequence of actions on the waves: transitions, drafts and invalidations.
use mathlib.Core.Path.{subst}
use gard.Prelude.{
  ℕ, ◌≡◌, inl, inr, refl, ap, ◌∙◌, true, none, some, List, [], ◌∷◌, ◌==◌, if◌then◌else◌, Bool-cases,
  Option-cases, suc,
}
use gard.Prelude.Rows.{find_row, map_option, find_row-update_row}
use gard.Lifecycle.{draft, submitted, wave_eq, wave_eq_iff}
use gard.Db.{UpliftWave, Db, Call, emit}
use gard.Uplift.StateMachine.{wave_is_terminal}
use gard.Uplift.Wave.Transitions.{
  get_wave, settle, is_open, invalidate_one, invalidate_each, invalidate_affected_waves,
  candidate_wave_ids, to_invalidated, invalidation_reason,
}
use gard.Uplift.Wave.Draft.{
  DraftRequest, draft_wave, find_replay, is_fresh, free_key, replay_or_draft,
}
use gard.Uplift.Wave.Guard.{set_wave, guard_wins}
use gard.Uplift.Wave.Operations.{row_after}
use gard.Uplift.Wave.Keys.{release_waves}
use gard.Uplift.Wave.History.{
  freed, invalidates, here, next, Action, transition, draft_one, invalidate, perform, run,
  IsConsistent, RowSteps-IsConsistent, RowSteps-terminal, SameButKey, IsOpen,
}
use gard.Uplift.Wave.Refinement.{
  Evolves, Evolves-same, Evolves-trans, transition-Evolves, fresh-Evolves, Evolves-step,
}

free_key-Evolves : (wave_id : ℕ) (db : Db) → Evolves db (free_key wave_id db)
unfolding free_key
free_key-Evolves wave_id db = record {
  kept = λ i w h. elim (Bool-cases (i == wave_id)) [
    | inl e ↦ (
      record w { idempotency_key = none },
      rw (after i) (rw e (rw h refl)),
      next here (freed refl),
    )
    | inr e ↦ (w, rw (after i) (rw e h), here)
  ];
  added = λ i w h k. elim (Bool-cases (i == wave_id)) [
    | inl e ↦ absurd (cc (rw h at (rw e at (rw (after i) at k))))
    | inr e ↦ absurd (cc (rw e at (rw (after i) at k), h))
  ];
}
  where
    after :
        (i : ℕ)
        → get_wave i (free_key wave_id db) ≡ (
            if i == wave_id
            then map_option
                (λ (r : UpliftWave). record r { idempotency_key = none })
                (get_wave i db)
            else get_wave i db)
    after i =
        find_row-update_row (λ (r : UpliftWave). r.id) wave_id i
          (λ (r : UpliftWave). record r { idempotency_key = none }) (λ r. refl) db.waves

draft-Evolves :
    (call : Call) (req : DraftRequest) (wave_id : ℕ) (db : Db)
    → Evolves db (draft_wave call req wave_id db).1
unfolding draft_wave
draft-Evolves call req wave_id db =
    elim (Option-cases (find_replay req.plan_id req.idempotency_key db)) [
      | inl first_use ↦ rw (first_use, replay_or_draft) (fresh-Evolves call req wave_id db)
      | inr (w, found) ↦ elim (Bool-cases (is_fresh call w)) [
        | inl fresh ↦ rw (found, replay_or_draft) (rw fresh (Evolves-same db db refl))
        | inr stale ↦
            rw (found, replay_or_draft)
              (rw stale (
                Evolves-trans db (free_key w.id db) _ (free_key-Evolves w.id db)
                  (fresh-Evolves call req wave_id (free_key w.id db))))
      ]
    ]

IsOpen-state : (w : UpliftWave) → is_open w.state ≡ true → IsOpen w
IsOpen-state w h = elim (Bool-cases (wave_eq w.state draft)) [
  | inl e ↦ inl ((wave_eq_iff w.state draft).0 e)
  | inr e ↦ inr ((wave_eq_iff w.state submitted).0 (rw e at h))
]

invalidate_one-Evolves :
    (call : Call) (wave_id : ℕ) (db : Db) → Evolves db (invalidate_one call wave_id db).1
unfolding invalidate_one emit
invalidate_one-Evolves call wave_id db = elim (Option-cases (get_wave wave_id db)) [
  | inl missing ↦ rw (missing, invalidate_one) (Evolves-same db db refl)
  | inr (w, found) ↦ elim (Bool-cases (is_open w.state)) [
    | inr closed ↦ rw (found, invalidate_one) (rw closed (Evolves-same db db refl))
    | inl is_open_now ↦
        let reason = invalidation_reason w db in
        let same = (wave_eq_iff w.state w.state).1 refl in
        let wins =
          guard_wins wave_id w.state (to_invalidated call reason) (λ v. refl) true refl db w found
            same in
        rw (found, invalidate_one)
          (rw is_open_now (
            rw (wins, settle)
              (Evolves-step wave_id db _ w (to_invalidated call reason w) found
                (invalidates call reason (IsOpen-state w is_open_now) refl)
                (λ i.
                  ap (find_row (λ v. v.id) i) (
                    release_waves w.state wave_id
                      (set_wave wave_id w.state (to_invalidated call reason) db))
                  ∙ row_after i wave_id w.state (to_invalidated call reason) (λ v. refl) db w found
                      same))))
  ]
]

each-Evolves :
    (call : Call) (ids : List ℕ) (count : ℕ) (db : Db)
    → Evolves db (invalidate_each call ids count db).1
unfolding invalidate_each
each-Evolves call [] count db = Evolves-same db db refl
each-Evolves call (i ∷ ids) count db =
    let (done, db') = invalidate_one call i db in
    Evolves-trans db db' _ (invalidate_one-Evolves call i db)
      (each-Evolves call ids (if done then suc count else count) db')

perform-Evolves : (a : Action) (db : Db) → Evolves db (perform a db)
unfolding perform invalidate_affected_waves
perform-Evolves (transition call wave_id op) db = transition-Evolves call wave_id op db
perform-Evolves (draft_one call req wave_id) db = draft-Evolves call req wave_id db
perform-Evolves (invalidate call affected) db =
    each-Evolves call (candidate_wave_ids affected db) 0 db

-- Over any sequence of transitions, drafts and invalidations, by any callers, at any times,
-- whether each of them returns or raises: every wave that was there is there at the end, and
-- its row has only gone along `RowStep`s; every wave that is new satisfies the constraints.
pub run-Evolves : (actions : List Action) (db : Db) → Evolves db (run actions db)
unfolding run
run-Evolves [] db = Evolves-same db db refl
run-Evolves (a ∷ rest) db =
    Evolves-trans db (perform a db) _ (perform-Evolves a db) (run-Evolves rest (perform a db))

-- Every stored wave satisfies the constraints of its table.
abbrev pub AllConsistent : Db → Type 0
AllConsistent db = (i : ℕ) (w : UpliftWave) → get_wave i db ≡ some w → IsConsistent w

-- A database whose waves satisfy the constraints of their table, among them that nobody has
-- approved a wave that they drafted, keeps them over any sequence of actions.
pub run-AllConsistent :
    (actions : List Action) (db : Db) → AllConsistent db → AllConsistent (run actions db)
run-AllConsistent actions db ok i w' after =
    let e = run-Evolves actions db in
    elim (Option-cases (get_wave i db)) [
      | inl missing ↦ e.added i w' missing after
      | inr (w, found) ↦
          let (v, stored, steps) = e.kept i w found in
          let same : v ≡ w' = cc (stored, after) in
          subst IsConsistent same (RowSteps-IsConsistent w v steps (ok i w found))
    ]

-- A wave in a terminal state stays as it is, but for its idempotency key, over any sequence of
-- actions.
pub run-terminal :
    (actions : List Action) (db : Db) (i : ℕ) (w : UpliftWave)
    → get_wave i db ≡ some w
    → wave_is_terminal w.state ≡ true
    → (w' : UpliftWave) × (get_wave i (run actions db) ≡ some w') × SameButKey w w'
run-terminal actions db i w found over =
    let (w', stored, steps) = (run-Evolves actions db).kept i w found in
    (w', stored, RowSteps-terminal w w' over steps)
