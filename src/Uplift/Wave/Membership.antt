-- ===== src/Uplift/Wave/Membership.antt =====
-- The members of a drafted wave.
use gard.Prelude.{
  ℕ, suc, ◌≡◌, refl, sym, ap, ◌∙◌, ◌≤◌, ◌<◌, ◌+◌, inl, inr, true, Option, none, some, List, [], ◌∷◌,
  ◌++◌, map, arith, length, All, In, All-of_In, Bool-cases, leb,
}
use mathlib.Core.Path.{subst}
use gard.Prelude.Tx.{returned, Outcome-cases, and_then}
use gard.Prelude.Sorting.{
  IsSortedBy, by_key, by_key-IsOrder, sort_by-IsSortedBy, sort_by-All, length-sort_by,
}
use gard.Lifecycle.{draft}
use gard.Scope.{Evaluation, Selector, evaluate}
use gard.Envelope.{ready_for_uplift}
use gard.Db.{
  Device, ReadinessEvaluation, UpliftWave, UpliftWaveDevice, Db, Call, emit, latest_readiness,
}
use gard.Uplift.Wave.{target_is_live}
use gard.Uplift.Wave.Pool.{IsWindow, draft_fresh-Drafted, validate-IsWindow}
use gard.Uplift.Wave.Draft.{
  DraftRequest, Members, WaveDraftOutcome, Resolution, resolve_scope, device_facts, attach,
  in_order, store_wave, draft_fresh, state_of, is_ready, place,
}

-- The members are numbered from `start` on, without a gap.
abbrev pub NumberedFrom : ℕ → Members → Type 0
NumberedFrom start [] = Unit {0}
NumberedFrom start ((d, wd) ∷ rest) = (wd.position ≡ start) × NumberedFrom (start + 1) rest

-- A device of the pool: stored, in scope, with a latest verdict that is `ready_for_uplift`.
pub record IsEligible (db : Db) (scope : Selector) (d : Device)
    (latest : Option ReadinessEvaluation) : Type 0 where
  pub stored : In d db.devices
  pub in_scope :
      (v : Evaluation) × (evaluate scope (device_facts d) ≡ returned v) × (v.matched ≡ true)
  pub latest_eq : latest ≡ latest_readiness d.id db
  pub ready : (r : ReadinessEvaluation) × (latest ≡ some r) × (r.readiness_state ≡ ready_for_uplift)

ready_of :
    (latest : Option ReadinessEvaluation)
    → is_ready (state_of latest) ≡ true
    → (r : ReadinessEvaluation) × (latest ≡ some r) × (r.readiness_state ≡ ready_for_uplift)
ready_of none h = absurd (cc h)
ready_of (some r) h = (r, refl, ground arith)

module _ (db : Db) (scope : Selector) where
  abbrev Eligible : Device × Option ReadinessEvaluation → Type 0
  Eligible p = IsEligible db scope p.0 p.1

  place-eligible :
      (d : Device) (r : Resolution)
      → In d db.devices
      → ((v : Evaluation) × (evaluate scope (device_facts d) ≡ returned v) × (v.matched ≡ true))
      → All Eligible r.eligible
      → All Eligible (place db d r).eligible
  place-eligible d r stored in_scope h =
      elim (Bool-cases (is_ready (state_of (latest_readiness d.id db)))) [
        | inl e ↦ rw e (
          record {
            stored = stored;
            in_scope = in_scope;
            latest_eq = refl;
            ready = ready_of (latest_readiness d.id db) e;
          },
          h,
        )
        | inr e ↦ rw e h
      ]

  same_resolution : (q r : Resolution) → q ≡ r → All Eligible q.eligible → All Eligible r.eligible
  same_resolution q r e h = subst (λ (q : Resolution). All Eligible q.eligible) e h

  resolve_scope-eligible :
      (devices : List Device) (r : Resolution)
      → All (λ d. In d db.devices) devices
      → resolve_scope db scope devices ≡ returned r
      → All Eligible r.eligible
  unfolding resolve_scope
  resolve_scope-eligible [] r stored h =
      same_resolution (record { eligible = []; skipped = [] }) r (cc h) tt
  resolve_scope-eligible (d ∷ devices) r stored h =
      elim (Outcome-cases (evaluate scope (device_facts d))) [
        | inr (e, bad) ↦ absurd (cc (rw (bad, and_then) at h))
        | inl (v, seen) ↦
            let h₁ = rw (seen, and_then) at h in
            elim (Outcome-cases (resolve_scope db scope devices)) [
              | inr (e, bad) ↦ absurd (cc (rw (bad, and_then) at h₁))
              | inl (q, rest) ↦
                  let h₂ = rw (rest, and_then) at h₁ in
                  let ih = resolve_scope-eligible devices q stored.1 rest in
                  elim (Bool-cases v.matched) [
                    | inl m ↦
                        same_resolution (place db d q) r (cc (rw m at h₂))
                          (place-eligible d q stored.0 (v, seen, m) ih)
                    | inr m ↦ same_resolution q r (cc (rw m at h₂)) ih
                  ]
            ]
      ]

-- A member is a device in scope whose latest readiness verdict is `ready_for_uplift`; the join
-- row is of this wave and of this device.
pub record IsMemberOf (db : Db) (scope : Selector) (wave_id : ℕ) (d : Device)
    (wd : UpliftWaveDevice) : Type 0 where
  pub of_wave : wd.wave_id ≡ wave_id
  pub of_device : wd.device_id ≡ d.id
  pub stored : In d db.devices
  pub in_scope :
      (v : Evaluation) × (evaluate scope (device_facts d) ≡ returned v) × (v.matched ≡ true)
  pub latest :
      (r : ReadinessEvaluation) × (latest_readiness d.id db ≡ some r)
      × (r.readiness_state ≡ ready_for_uplift)

abbrev pub ById : Members → Type 0
ById members = IsSortedBy (by_key (λ m. m.0.id)) members

module _ (db : Db) (scope : Selector) (wave_id : ℕ) where
  abbrev pub AreMembers : Members → Type 0
  AreMembers members = All (λ m. IsMemberOf db scope wave_id m.0 m.1) members

  attach-members :
      (n : ℕ) (es : List (Device × Option ReadinessEvaluation))
      → All (λ p. IsEligible db scope p.0 p.1) es
      → AreMembers (attach wave_id n es)
  unfolding attach
  attach-members n [] h = tt
  attach-members n ((d, latest) ∷ es) h = (
    record {
      of_wave = refl;
      of_device = refl;
      stored = h.0.stored;
      in_scope = h.0.in_scope;
      latest = (h.0.ready.0, sym h.0.latest_eq ∙ h.0.ready.1, h.0.ready.2);
    },
    attach-members (n + 1) es h.1,
  )

attach-NumberedFrom :
    (wave_id n : ℕ) (es : List (Device × Option ReadinessEvaluation))
    → NumberedFrom n (attach wave_id n es)
unfolding attach
attach-NumberedFrom wave_id n [] = tt
attach-NumberedFrom wave_id n ((d, latest) ∷ es) = (refl, attach-NumberedFrom wave_id (n + 1) es)

length-attach :
    (wave_id n : ℕ) (es : List (Device × Option ReadinessEvaluation))
    → length (attach wave_id n es) ≡ length es
unfolding attach
length-attach wave_id n [] = refl
length-attach wave_id n ((d, latest) ∷ es) = ap suc (length-attach wave_id (n + 1) es)

attach-least :
    (wave_id n k : ℕ) (es : List (Device × Option ReadinessEvaluation))
    → All (λ p. leb k p.0.id ≡ true) es
    → All (λ m. leb k m.0.id ≡ true) (attach wave_id n es)
unfolding attach
attach-least wave_id n k [] h = tt
attach-least wave_id n k ((d, latest) ∷ es) h = (h.0, attach-least wave_id (n + 1) k es h.1)

attach-ById :
    (wave_id n : ℕ) (es : List (Device × Option ReadinessEvaluation))
    → IsSortedBy (by_key (λ p. p.0.id)) es
    → ById (attach wave_id n es)
unfolding attach
attach-ById wave_id n [] h = tt
attach-ById wave_id n ((d, latest) ∷ es) h =
    (attach-least wave_id (n + 1) d.id es h.0, attach-ById wave_id (n + 1) es h.1)

-- What holds of every wave that `draft_wave` drafts anew.
pub record IsGoodDraft (call : Call) (req : DraftRequest) (wave_id : ℕ) (db : Db)
    (out : WaveDraftOutcome) (db' : Db) : Type 0 where
  pub drafted :
      (out.wave.id ≡ wave_id) × (out.wave.state ≡ draft) × (out.wave.drafted_by ≡ call.actor)
  pub window : IsWindow call out.wave.change_window_start out.wave.change_window_end
  pub live : target_is_live req.target_platform_family req.target_version db ≡ true
  pub members : AreMembers db req.scope_selector wave_id out.members
  pub numbered : NumberedFrom 1 out.members
  pub by_id : ById out.members
  pub nonempty : 0 < length out.members
  pub capped : length out.members ≤ call.settings.uplift_wave_max_devices
  pub waves_after : db'.waves ≡ db.waves ++ out.wave ∷ []
  pub rows_after : db'.wave_devices ≡ db.wave_devices ++ map (λ m. m.1) out.members
  pub devices_after : db'.devices ≡ db.devices

-- A wave that is drafted anew is in the state `draft` and of the caller; its window lies in the
-- future and has an allowed length, its target is live, each of its members is a device in scope
-- that is ready, there is at least one and at most the cap, numbered from 1 in the order of their
-- identifiers; and drafting adds the wave and its member rows and changes no device.
pub draft_fresh-returned :
    (call : Call) (req : DraftRequest) (wave_id : ℕ) (db db' : Db) (out : WaveDraftOutcome)
    → draft_fresh call req wave_id db ≡ (returned out, db')
    → IsGoodDraft call req wave_id db out db'
unfolding in_order store_wave emit
draft_fresh-returned call req wave_id db db' out h =
    let d = draft_fresh-Drafted call req wave_id db out db' h in
    let i = d.inserted in
    let es = in_order d.resolution.eligible in
    let size = length-sort_by (by_key (λ p. p.0.id)) d.resolution.eligible in
    let eligible =
      sort_by-All (by_key (λ p. p.0.id)) (λ p. IsEligible db req.scope_selector p.0 p.1)
        d.resolution.eligible
        (resolve_scope-eligible db req.scope_selector db.devices d.resolution
          (All-of_In (λ d. In d db.devices) db.devices (λ a m. m)) d.resolved) in
    record {
      drafted = (
        ap (λ (w : UpliftWave). w.id) i.wave_eq,
        ap (λ (w : UpliftWave). w.state) i.wave_eq,
        ap (λ (w : UpliftWave). w.drafted_by) i.wave_eq,
      );
      window =
          subst (λ w. IsWindow call w.change_window_start w.change_window_end) (sym i.wave_eq)
            (validate-IsWindow call req.change_window_start req.change_window_end d.window
              d.window_ok);
      live = d.live;
      members =
          subst (AreMembers db req.scope_selector wave_id) (sym i.members_eq)
            (attach-members db req.scope_selector wave_id 1 es eligible);
      numbered = subst (NumberedFrom 1) (sym i.members_eq) (attach-NumberedFrom wave_id 1 es);
      by_id = subst ById (sym i.members_eq) (
          attach-ById wave_id 1 es (
            sort_by-IsSortedBy (by_key (λ p. p.0.id)) (by_key-IsOrder (λ p. p.0.id))
              d.resolution.eligible));
      nonempty = rw (i.members_eq, length-attach) (rw size (ground (arith, i.nonempty)));
      capped = rw (i.members_eq, length-attach) (rw size (ground (arith, i.capped)));
      waves_after = ap (λ (d : Db). d.waves) i.db_eq.1;
      rows_after = ap (λ (d : Db). d.wave_devices) i.db_eq.1;
      devices_after = ap (λ (d : Db). d.devices) i.db_eq.1;
    }
