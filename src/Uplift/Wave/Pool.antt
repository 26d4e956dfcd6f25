-- ===== src/Uplift/Wave/Pool.antt =====
-- What `draft_wave` promises of the wave that it drafts.
use gard.Prelude.{
  ℕ, ◌≡◌, sym, ap, ◌∙◌, ◌≤◌, ◌<◌, ◌+◌, ◌*◌, inl, inr, true, false, not, ◌&&◌, [], arith, length,
  Bool-cases, if◌then◌else◌, ltb, ◌==◌,
}
use mathlib.Core.Path.{subst, ap₂}
use gard.Prelude.Tx.{Outcome, returned, Outcome-cases, attempt, raise_if}
use gard.Scope.{validate_keys}
use gard.Db.{Db, Call, minute, hour}
use gard.Uplift.Wave.{
  WaveError, validate_change_window, check_window, DateTime, aware, naive, target_is_live,
}
use gard.Uplift.Wave.Draft.{
  DraftRequest, WaveDraftOutcome, Resolution, resolve_scope, attach, in_order, store_wave,
  insert_draft, draft_fresh, window_allowed, is_strict, new_wave,
}

-- A change window that passes: in the future, and of an allowed length.
pub record IsWindow (call : Call) (start end : ℕ) : Type 0 where
  pub future : call.now < start
  pub long_enough : start + call.settings.uplift_change_window_min_minutes * minute ≤ end
  pub short_enough : end ≤ start + call.settings.uplift_change_window_max_hours * hour
  pub ordered : start < end

check_window-IsWindow :
    (call : Call) (start end : ℕ) (w : ℕ × ℕ)
    → check_window call start end ≡ returned w
    → (w ≡ (start, end)) × IsWindow call start end
unfolding check_window
check_window-IsWindow call start end w h = (ground arith, ground arith)

-- The texts that a window check accepts are two aware times that make a window.
pub validate-IsWindow :
    (call : Call) (start end : DateTime) (w : ℕ × ℕ)
    → validate_change_window call start end ≡ returned w
    → IsWindow call w.0 w.1
unfolding validate_change_window
validate-IsWindow call (aware s) (aware e) w h =
    let (same, ok) = check_window-IsWindow call s e w h in
    subst (λ v. IsWindow call v.0 v.1) (sym same) ok
validate-IsWindow call (naive s) e w h = absurd (cc h)
validate-IsWindow call (aware s) (naive e) w h = absurd (cc h)

module _ (call : Call) (req : DraftRequest) (wave_id : ℕ) (db : Db) where
  module _ (window : ℕ × ℕ) (r : Resolution) where
    pub record Inserted (out : WaveDraftOutcome) (db' : Db) : Type 0 where
      pub strictly : (is_strict req.mode && not (length r.skipped == 0)) ≡ false
      pub nonempty : (length r.eligible == 0) ≡ false
      pub capped : ltb call.settings.uplift_wave_max_devices (length r.eligible) ≡ false
      pub checked : window_allowed window.0 window.1 ≡ true
      pub wave_eq : out.wave ≡ new_wave call req wave_id window.0 window.1
      pub members_eq : out.members ≡ attach wave_id 1 (in_order r.eligible)
      pub fresh : out.replayed ≡ false
      pub db_eq : (n : ℕ) × (db' ≡ store_wave call req out.wave out.members n db)

    abbrev drafted : WaveDraftOutcome
    drafted = record {
      wave = new_wave call req wave_id window.0 window.1;
      members = attach wave_id 1 (in_order r.eligible);
      skipped = if is_strict req.mode then [] else r.skipped;
      replayed = false;
    }

    written :
        (is_strict req.mode && not (length r.skipped == 0)) ≡ false
        → (length r.eligible == 0) ≡ false
        → ltb call.settings.uplift_wave_max_devices (length r.eligible) ≡ false
        → window_allowed window.0 window.1 ≡ true
        → (out : WaveDraftOutcome) (db' : Db)
        → ◌≡◌ {A = Outcome WaveError WaveDraftOutcome × Db}
            (
              returned drafted,
              store_wave call req drafted.wave drafted.members (length drafted.skipped) db,
            )
            (returned out, db')
        → Inserted out db'
    written strictly nonempty capped checked out db' h =
        let e : drafted ≡ out = cc h in
        let w = ap (λ (o : WaveDraftOutcome). o.wave) e in
        let m = ap (λ (o : WaveDraftOutcome). o.members) e in
        record {
          strictly = strictly;
          nonempty = nonempty;
          capped = capped;
          checked = checked;
          wave_eq = sym w;
          members_eq = sym m;
          fresh = sym (ap (λ (o : WaveDraftOutcome). o.replayed) e);
          db_eq = (
            length drafted.skipped,
            sym (ap (λ (p : Outcome WaveError WaveDraftOutcome × Db). p.1) h)
                ∙ ap₂ (λ v ms. store_wave call req v ms (length drafted.skipped) db) w m,
          );
        }

    insert_draft-Inserted :
        (out : WaveDraftOutcome) (db' : Db)
        → insert_draft call req wave_id window r db ≡ (returned out, db')
        → Inserted out db'
    unfolding insert_draft
    insert_draft-Inserted out db' h =
        elim (Bool-cases (is_strict req.mode && not (length r.skipped == 0))) [
          | inl bad ↦ absurd (cc (rw (bad, raise_if) at h))
          | inr strictly ↦
              let h₁ = rw (strictly, raise_if) at h in
              elim (Bool-cases (length r.eligible == 0)) [
                | inl bad ↦ absurd (cc (rw (bad, raise_if) at h₁))
                | inr nonempty ↦
                    let h₂ = rw (nonempty, raise_if) at h₁ in
                    elim (Bool-cases
                      (ltb call.settings.uplift_wave_max_devices (length r.eligible))) [
                        | inl bad ↦ absurd (cc (rw (bad, raise_if) at h₂))
                        | inr capped ↦
                            let h₃ = rw (capped, raise_if) at h₂ in
                            elim (Bool-cases (window_allowed window.0 window.1)) [
                              | inr bad ↦ absurd (cc (rw (bad, raise_if) at h₃))
                              | inl checked ↦
                                  written strictly nonempty capped checked out db'
                                    (rw (checked, raise_if) at h₃)
                            ]
                      ]
              ]
        ]

  -- Every check of `draft_wave` on the way to its writes, with the value that it gave.
  pub record Drafted (out : WaveDraftOutcome) (db' : Db) : Type 0 where
    pub window : ℕ × ℕ
    pub window_ok :
        validate_change_window call req.change_window_start req.change_window_end ≡ returned window
    pub live : target_is_live req.target_platform_family req.target_version db ≡ true
    pub known : validate_keys req.scope_selector ≡ returned tt
    pub resolution : Resolution
    pub resolved : resolve_scope db req.scope_selector db.devices ≡ returned resolution
    pub inserted : Inserted window resolution out db'

  pub draft_fresh-Drafted :
      (out : WaveDraftOutcome) (db' : Db)
      → draft_fresh call req wave_id db ≡ (returned out, db')
      → Drafted out db'
  unfolding draft_fresh
  draft_fresh-Drafted out db' h =
      elim (Outcome-cases
        (validate_change_window call req.change_window_start req.change_window_end)) [
          | inr (e, bad) ↦ absurd (cc (rw (bad, attempt) at h))
          | inl (w, window_ok) ↦
              let h₁ = rw (window_ok, attempt) at h in
              elim (Bool-cases (target_is_live req.target_platform_family req.target_version db)) [
                | inr bad ↦ absurd (cc (rw (bad, raise_if) at h₁))
                | inl live ↦
                    let h₂ = rw (live, raise_if) at h₁ in
                    elim (Outcome-cases (validate_keys req.scope_selector)) [
                      | inr (e, bad) ↦ absurd (cc (rw (bad, attempt) at h₂))
                      | inl (u, known) ↦
                          let h₃ = rw (known, attempt) at h₂ in
                          elim (Outcome-cases (resolve_scope db req.scope_selector db.devices)) [
                            | inr (e, bad) ↦ absurd (cc (rw (bad, attempt) at h₃))
                            | inl (r, resolved) ↦ record {
                              window = w;
                              window_ok = window_ok;
                              live = live;
                              known = known;
                              resolution = r;
                              resolved = resolved;
                              inserted =
                                  insert_draft-Inserted w r out db' (rw (resolved, attempt) at h₃);
                            }
                          ]
                    ]
              ]
        ]
