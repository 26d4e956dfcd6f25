-- ===== src/Uplift/Wave/Keys.antt =====
-- Transitions and invalidations leave a wave where its idempotency key finds it.
use gard.Prelude.{
  ℕ, String, Bool, ◌≡◌, refl, ap, ◌∙◌, some, List, [], ◌∷◌, ◌==◌, ◌&&◌, first, filter_by,
  opt_str_eq, Bool-cases, inl, inr, subst,
}
use gard.Prelude.Rows.{update_row}
use gard.Lifecycle.{WaveState, submitted, wave_eq}
use gard.Db.{UpliftWave, Db}
use gard.Uplift.Wave.{guarded, shift_members, revert_pending_members_to_ready}
use gard.Uplift.Wave.Draft.{find_replay}
use gard.Uplift.Wave.Guard.{set_wave}
use gard.Uplift.Wave.Transitions.{release}

-- what a replay reads of a row
pub record SameRequest (w w' : UpliftWave) : Type 0 where
  pub id : w'.id ≡ w.id
  pub plan_id : w'.plan_id ≡ w.plan_id
  pub idempotency_key : w'.idempotency_key ≡ w.idempotency_key
  pub drafted_at : w'.drafted_at ≡ w.drafted_at

pub same_row : (w : UpliftWave) → SameRequest w w
same_row w = record { id = refl; plan_id = refl; idempotency_key = refl; drafted_at = refl }

SameRequest-trans : (u v w : UpliftWave) → SameRequest u v → SameRequest v w → SameRequest u w
SameRequest-trans u v w p q = record {
  id = q.id ∙ p.id;
  plan_id = q.plan_id ∙ p.plan_id;
  idempotency_key = q.idempotency_key ∙ p.idempotency_key;
  drafted_at = q.drafted_at ∙ p.drafted_at;
}

-- A wave that a key finds before is found after, with the same request.
abbrev pub Finds : Db → Db → Type 0
Finds db db' =
    (plan_id : ℕ) (key : String) (w : UpliftWave)
    → find_replay plan_id (some key) db ≡ some w
    → (w' : UpliftWave) × (find_replay plan_id (some key) db' ≡ some w') × SameRequest w w'

pub Finds-same : (db db' : Db) → db'.waves ≡ db.waves → Finds db db'
unfolding find_replay
Finds-same db db' e plan_id key w h = (w, rw e h, same_row w)

pub Finds-trans : (a b c : Db) → Finds a b → Finds b c → Finds a c
Finds-trans a b c p q plan_id key w h =
    let (v, found, s) = p plan_id key w h in
    let (u, found', s') = q plan_id key v found in (u, found', SameRequest-trans w v u s s')

module _ (p : UpliftWave → Bool) (f : UpliftWave → UpliftWave)
    (keeps : (w : UpliftWave) → SameRequest w (f w)) (same : (w : UpliftWave) → p (f w) ≡ p w)
    (i : ℕ) where
  first-update_row :
      (rows : List UpliftWave) (w : UpliftWave)
      → first (filter_by p rows) ≡ some w
      → (w' : UpliftWave) × (first (filter_by p (update_row (λ r. r.id) i f rows)) ≡ some w')
        × SameRequest w w'
  unfolding update_row
  first-update_row [] w h = absurd (cc h)
  first-update_row (r ∷ rows) w h = elim (Bool-cases (r.id == i)) [
    | inl e ↦ elim (Bool-cases (p r)) [
      | inl k ↦
          let is_r : r ≡ w = cc (rw k at h) in
          rw (e, same r, k) (f r, refl, subst (λ x. SameRequest x (f r)) is_r (keeps r))
      | inr k ↦ rw (e, same r, k) (first-update_row rows w (rw k at h))
    ]
    | inr e ↦ elim (Bool-cases (p r)) [
      | inl k ↦
          let is_r : r ≡ w = cc (rw k at h) in
          rw (e, k) (r, refl, subst (λ x. SameRequest x r) is_r (same_row r))
      | inr k ↦ rw (e, k) (first-update_row rows w (rw k at h))
    ]
  ]

module _ (wave_id : ℕ) (expected : WaveState) (values : UpliftWave → UpliftWave)
    (keeps : (w : UpliftWave) → SameRequest w (values w)) where
  guarded-SameRequest : (w : UpliftWave) → SameRequest w (guarded expected values w)
  guarded-SameRequest w = elim (Bool-cases (wave_eq w.state expected)) [
    | inl e ↦ rw e (keeps w)
    | inr e ↦ rw e (same_row w)
  ]

  pub set_wave-Finds : (db : Db) → Finds db (set_wave wave_id expected values db)
  unfolding find_replay
  set_wave-Finds db plan_id key w h =
      first-update_row (λ v. (v.plan_id == plan_id) && opt_str_eq v.idempotency_key (some key))
        (guarded expected values) guarded-SameRequest
        (λ v.
          let s = guarded-SameRequest v in
          ap
            (λ x.
              (x == plan_id) && opt_str_eq (guarded expected values v).idempotency_key (some key))
            s.plan_id
          ∙ ap (λ x. (v.plan_id == plan_id) && opt_str_eq x (some key)) s.idempotency_key)
        wave_id db.waves w h

pub release_waves :
    (state : WaveState) (wave_id : ℕ) (db : Db) → (release state wave_id db).waves ≡ db.waves
unfolding revert_pending_members_to_ready shift_members
release_waves state wave_id db = elim (Bool-cases (wave_eq state submitted)) [
  | inl e ↦ rw e refl
  | inr e ↦ rw e refl
]
