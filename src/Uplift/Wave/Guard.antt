-- ===== src/Uplift/Wave/Guard.antt =====
-- The optimistic guard, and the shape that the four transitions share.
use gard.Prelude.{
  ℕ, Bool, ◌≡◌, ◌⊎◌, refl, sym, ap, ◌∙◌, true, false, none, some, arith, ◌==◌, Option-cases,
  Bool-cases, inl, inr, if◌then◌else◌, ==_self,
}
use gard.Prelude.Rows.{update_row, find_row-update_row, map_option}
use mathlib.Core.Path.{subst₂}
use gard.Prelude.Tx.{
  Outcome-cases, Outcome, returned, raised, give, reads, attempt, require_some, writes, ◌>>=◌, ◌>>◌,
}
use gard.Lifecycle.{WaveState, wave_eq}
use gard.Db.{UpliftWave, AuditEvent, Db, emit}
use gard.Uplift.StateMachine.{StateMachineError, Transition}
use gard.Uplift.Wave.{
  WaveError, wave_not_found, wave_state_mismatch, check_violation, refused, WaveTx,
  apply_state_guard, guarded, put_waves,
}
use gard.Uplift.Wave.Transitions.{get_wave}

-- The table after `UPDATE … WHERE id = :id AND state = :expected`.
abbrev pub set_wave : ℕ → WaveState → (UpliftWave → UpliftWave) → Db → Db
set_wave wave_id expected values db =
    put_waves (update_row (λ r. r.id) wave_id (guarded expected values) db.waves) db

module _ (wave_id : ℕ) (expected : WaveState) (values : UpliftWave → UpliftWave) where
  module _ (keeps : (w : UpliftWave) → (values w).id ≡ w.id) where
    guarded_keeps : (w : UpliftWave) → (guarded expected values w).id ≡ w.id
    guarded_keeps w = ground (arith, keeps w)

    pub get_wave-set_wave :
        (i : ℕ) (db : Db)
        → get_wave i (set_wave wave_id expected values db) ≡ (
            if i == wave_id
            then map_option (guarded expected values) (get_wave i db)
            else get_wave i db)
    get_wave-set_wave i db =
        find_row-update_row (λ w. w.id) wave_id i (guarded expected values) guarded_keeps db.waves

    row_after :
        (db : Db) (w : UpliftWave)
        → get_wave wave_id db ≡ some w
        → wave_eq w.state expected ≡ true
        → get_wave wave_id (set_wave wave_id expected values db) ≡ some (values w)
    row_after db w found match =
        rw (get_wave-set_wave wave_id db, ==_self wave_id) (rw found (rw match refl))

    -- The caller that finds the row in the expected state wins.
    pub guard_wins :
        (allowed : Bool) (ok : allowed ≡ true) (db : Db) (w : UpliftWave)
        → get_wave wave_id db ≡ some w
        → wave_eq w.state expected ≡ true
        → apply_state_guard wave_id expected allowed values db
          ≡ (returned (values w), set_wave wave_id expected values db)
    unfolding apply_state_guard
    guard_wins allowed ok db w found match =
        rw (found, apply_state_guard) (rw (match, ok) (rw (row_after db w found match) refl))

  -- Otherwise nothing is written.
  pub guard_loses :
      (allowed : Bool) (db : Db) (w : UpliftWave)
      → get_wave wave_id db ≡ some w
      → wave_eq w.state expected ≡ false
      → apply_state_guard wave_id expected allowed values db
        ≡ (raised (wave_state_mismatch expected (some w.state)), db)
  unfolding apply_state_guard
  guard_loses allowed db w found mismatch = rw (found, apply_state_guard) (rw mismatch)

  -- A CHECK constraint refuses the columns.
  pub guard_refuses :
      (db : Db) (w : UpliftWave)
      → get_wave wave_id db ≡ some w
      → wave_eq w.state expected ≡ true
      → apply_state_guard wave_id expected false values db ≡ (raised check_violation, db)
  unfolding apply_state_guard
  guard_refuses db w found match = rw (found, apply_state_guard) (rw match refl)

-- The shape that `submit`, `approve`, `reject` and `cancel` share.
abbrev pub move :
    ℕ
    → (UpliftWave → Outcome StateMachineError (Transition WaveState))
    → (UpliftWave → WaveState)
    → Bool
    → (UpliftWave → UpliftWave)
    → (UpliftWave → Db → Db)
    → (UpliftWave → AuditEvent)
    → WaveTx UpliftWave
move wave_id decide expected allowed values after event = do
  found ← reads (get_wave wave_id)
  wave ← require_some (wave_not_found wave_id) found
  attempt refused (decide wave)
  refreshed ← apply_state_guard wave_id (expected wave) allowed values
  writes (after wave)
  writes (emit (event wave))
  give refreshed

module _ (wave_id : ℕ) (decide : UpliftWave → Outcome StateMachineError (Transition WaveState))
    (expected : UpliftWave → WaveState) (allowed : Bool) (values : UpliftWave → UpliftWave)
    (after : UpliftWave → Db → Db) (event : UpliftWave → AuditEvent) where
  -- A transition that returns has found the row, has had its edge granted, has found the row in
  -- the expected state, and has written the row, the devices and one audit row.
  pub record Moved (db : Db) (row : UpliftWave) (db' : Db) : Type 0 where
    pub wave : UpliftWave
    pub found : get_wave wave_id db ≡ some wave
    pub granted : (t : Transition WaveState) × (decide wave ≡ returned t)
    pub in_state : wave_eq wave.state (expected wave) ≡ true
    pub checked : allowed ≡ true
    pub row_eq : row ≡ values wave
    pub db_eq : db' ≡ emit (event wave) (after wave (set_wave wave_id (expected wave) values db))

  abbrev run : WaveTx UpliftWave
  run = move wave_id decide expected allowed values after event

  move_missing :
      (db : Db) → get_wave wave_id db ≡ none → run db ≡ (raised (wave_not_found wave_id), db)
  move_missing db found = rw (found, require_some) refl

  module _ (db : Db) (w : UpliftWave) (found : get_wave wave_id db ≡ some w) where
    move_refused : (e : StateMachineError) → decide w ≡ raised e → run db ≡ (raised (refused e), db)
    move_refused e no_edge = rw (found, require_some) (rw (no_edge, attempt) refl)

    module _ (t : Transition WaveState) (granted : decide w ≡ returned t) where
      move_loses :
          wave_eq w.state (expected w) ≡ false
          → run db ≡ (raised (wave_state_mismatch (expected w) (some w.state)), db)
      move_loses differs =
          rw (found, require_some)
            (rw (granted, attempt)
              (rw (guard_loses wave_id (expected w) values allowed db w found differs) refl))

      pub move_wins :
          (keeps : (r : UpliftWave) → (values r).id ≡ r.id)
          → wave_eq w.state (expected w) ≡ true
          → allowed ≡ true
          → run db ≡ (
            returned (values w),
            emit (event w) (after w (set_wave wave_id (expected w) values db)),
          )
      move_wins keeps same ok =
          rw (found, require_some)
            (rw (granted, attempt)
              (rw (guard_wins wave_id (expected w) values keeps allowed ok db w found same) refl))

      move_unchecked :
          wave_eq w.state (expected w) ≡ true
          → allowed ≡ false
          → run db ≡ (raised check_violation, db)
      move_unchecked same bad =
          rw (found, require_some)
            (rw (granted, attempt)
              (rw bad (rw (guard_refuses wave_id (expected w) values db w found same) refl)))

  module _ (keeps : (w : UpliftWave) → (values w).id ≡ w.id) (db : Db) where
    -- A transition either raises and has written nothing, or it has done all of its writes.
    pub move-cases :
        ((row : UpliftWave) × (db' : Db) × (run db ≡ (returned row, db')) × Moved db row db')
        ⊎ ((e : WaveError) × (run db ≡ (raised e, db)))
    move-cases = elim (Option-cases (get_wave wave_id db)) [
      | inl missing ↦ inr (wave_not_found wave_id, move_missing db missing)
      | inr (w, found) ↦ elim (Outcome-cases (decide w)) [
        | inr (e, no_edge) ↦ inr (refused e, move_refused db w found e no_edge)
        | inl (t, granted) ↦ elim (Bool-cases (wave_eq w.state (expected w))) [
          | inr differs ↦ inr (
            wave_state_mismatch (expected w) (some w.state),
            move_loses db w found t granted differs,
          )
          | inl same ↦ elim (Bool-cases allowed) [
            | inr bad ↦ inr (check_violation, move_unchecked db w found t granted same bad)
            | inl ok ↦ inl (
              values w,
              emit (event w) (after w (set_wave wave_id (expected w) values db)),
              move_wins db w found t granted keeps same ok,
              record {
                wave = w;
                found = found;
                granted = (t, granted);
                in_state = same;
                checked = ok;
                row_eq = refl;
                db_eq = refl;
              },
            )
          ]
        ]
      ]
    ]

    pub move-returned :
        (row : UpliftWave) (db' : Db) → run db ≡ (returned row, db') → Moved db row db'
    move-returned row db' h = elim move-cases [
      | inl (r, d, e, m) ↦
          let same : ◌≡◌ {A = Outcome WaveError UpliftWave × Db} (returned r, d)
              (returned row, db') =
            sym e ∙ h in
          subst₂ (λ x y. Moved db x y) (cc same)
            (ap (λ (p : Outcome WaveError UpliftWave × Db). p.1) same) m
      | inr (err, e) ↦ absurd (cc (e, h))
    ]

    pub move-raised : (e : WaveError) (db' : Db) → run db ≡ (raised e, db') → db' ≡ db
    move-raised err db' h = elim move-cases [
      | inl (r, d, e, m) ↦ absurd (cc (e, h))
      | inr (x, e) ↦ cc (e, h)
    ]
