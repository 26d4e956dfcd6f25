-- ===== src/Readiness/Judgement.antt =====
-- When a computed verdict says that the device is ready.
use gard.Prelude.{
  some_inj, ℕ, String, Bool, true, false, Option, none, some, List, [], ◌∷◌, ◌++◌, ◌≡◌, refl, sym,
  ap, subst, ◌∙◌, ◌↔◌, ◌⊎◌, inl, inr, ◌||◌, ◌≤◌, All, any_of-append, length, arith, Bool-cases,
}
use gard.Prelude.Sorting.{any_of-sort_by}
use gard.Prelude.Tx.{returned, Outcome-cases, returned_inj}
use gard.Envelope.{Blocker, ready_for_uplift, blocked}
use gard.Db.{
  Device, FirmwarePrerequisiteRule, DeviceObservation, ComplianceEvaluation, Db, Call,
  latest_observation,
}
use gard.Prereq.{evaluate_rule}
use gard.Prereq.Order.{sort_blockers, has_required, is_required, key_leb}
use gard.UpgradePath.{
  ChainResult, Networkx, NetworkxLaws, Walk, stop, step, FindsShortest, add_edges,
}
use gard.UpgradePath.Walks.{Answers, unreachable, lightest, edge_weight, with_edges-IsAnswered}
use gard.Readiness.Edges.{live_edges, platform_edges-live_edges}
use gard.Readiness.{
  matching_rules, fire_rules, keep, platform_edges, is_chain, within_cap, find_path, path_blockers,
  all_blockers, Verdict, state_of, conclude, judge,
}

-- The pieces of a verdict: the rules, the blockers that they raised, and whether a path exists.
pub record Pieces (nx : Networkx) (call : Call) (db : Db) (device : Device)
    (f3_row : ComplianceEvaluation) (v : Verdict) : Type 0 where
  pub rules : List FirmwarePrerequisiteRule
  pub raw : List Blocker
  pub exists : Bool
  pub matching : matching_rules db device ≡ returned rules
  pub fired : fire_rules rules device (latest_observation device.id db) ≡ returned raw
  pub path :
      find_path nx call.settings.readiness_upgrade_weight_cap db device.platform_family
        f3_row.target_version f3_row.observed_version
      ≡ returned exists
  pub whole :
      conclude call.settings.readiness_upgrade_weight_cap device f3_row (length rules) raw exists
      ≡ v

module _ (nx : Networkx) where
  pub judge-Pieces :
      (call : Call) (db : Db) (device : Device) (f3_row : ComplianceEvaluation) (v : Verdict)
      → judge nx call db device f3_row ≡ returned v
      → Pieces nx call db device f3_row v
  unfolding judge
  judge-Pieces call db device f3_row v h = elim (Outcome-cases (matching_rules db device)) [
    | inr (e, k) ↦ absurd (cc (rw k at h))
    | inl (rules, k) ↦
        elim (Outcome-cases (fire_rules rules device (latest_observation device.id db))) [
          | inr (e, l) ↦ absurd (cc (rw (k, l) at h))
          | inl (raw, l) ↦
              elim (Outcome-cases (
                find_path nx call.settings.readiness_upgrade_weight_cap db device.platform_family
                  f3_row.target_version f3_row.observed_version)) [
                    | inr (e, m) ↦ absurd (cc (rw (k, l, m) at h))
                    | inl (exists, m) ↦ record {
                      rules = rules;
                      raw = raw;
                      exists = exists;
                      matching = k;
                      fired = l;
                      path = m;
                      whole = returned_inj (rw (k, l, m) at h);
                    }
                  ]
        ]
  ]

  -- A computed verdict is not a carve-out.
  pub judge-state :
      (call : Call) (db : Db) (device : Device) (f3_row : ComplianceEvaluation) (v : Verdict)
      → judge nx call db device f3_row ≡ returned v
      → (v.state ≡ ready_for_uplift) ⊎ (v.state ≡ blocked)
  unfolding conclude
  judge-state call db device f3_row v h =
      let p = judge-Pieces call db device f3_row v h in
      subst (λ w. (w.state ≡ ready_for_uplift) ⊎ (w.state ≡ blocked)) p.whole
        (ready_or_blocked
          (all_blockers call.settings.readiness_upgrade_weight_cap device f3_row p.raw p.exists))
    where
      ready_or_blocked :
          (bs : List Blocker) → (state_of bs ≡ ready_for_uplift) ⊎ (state_of bs ≡ blocked)
      ready_or_blocked bs = elim (Bool-cases (has_required bs)) [
        | inl e ↦ inr (rw e refl)
        | inr e ↦ inl (rw e refl)
      ]

-- The rule raises no required blocker.
abbrev pub Clears : Device → Option DeviceObservation → FirmwarePrerequisiteRule → Type 0
Clears device observation rule =
    (b : Blocker)
    → evaluate_rule rule device observation ≡ returned (some b)
    → is_required b.severity ≡ false

-- A way of live upgrade paths on the platform, from the observed to the target version and no
-- heavier than the cap.
abbrev pub Reachable : ℕ → Db → Option String → Option String → Option String → Type 0
Reachable most db (some platform) (some target) (some observed) =
    (path : List String) × (n : ℕ) × Walk (edge_weight (live_edges platform db.upgrade_paths)) path
      observed target n
    × (n ≤ most)
Reachable most db _ _ _ = ⊥

-- What networkx promises of the one query that an evaluation makes.
abbrev pub Finds : (nx : Networkx) → Db → Option String → Option String → Option String → Type 0
Finds nx db (some platform) (some target) (some observed) =
    FindsShortest nx (add_edges nx (platform_edges db platform) nx.empty) observed target
Finds nx db _ _ _ = Unit

orb_false : (a b : Bool) → (a || b) ≡ false → (a ≡ false) × (b ≡ false)
orb_false a b h = ground arith

keep-Clears :
    (rule : FirmwarePrerequisiteRule) (device : Device) (o : Option DeviceObservation)
    (b : Option Blocker) (l : List Blocker) (P : Type 0)
    → evaluate_rule rule device o ≡ returned b
    → (has_required l ≡ false) ↔ P
    → (has_required (keep b l) ≡ false) ↔ (Clears device o rule × P)
keep-Clears rule device o none l P e f = ((λ h. ((λ b k. absurd (cc (e, k))), f.0 h)), λ h. f.1 h.1)
keep-Clears rule device o (some b) l P e f = (
  λ h.
      let (quiet, rest) = orb_false (is_required b.severity) (has_required l) h in
      (
        (λ c k.
            subst (λ x. is_required x.severity ≡ false) (some_inj.0 (returned_inj (sym e ∙ k)))
              quiet),
        f.0 rest,
      ),
  λ h. rw (h.0 b e) (f.1 h.1),
)

fire_rules-Clears :
    (rules : List FirmwarePrerequisiteRule) (device : Device)
    (observation : Option DeviceObservation) (raw : List Blocker)
    → fire_rules rules device observation ≡ returned raw
    → (has_required raw ≡ false) ↔ All (Clears device observation) rules
unfolding fire_rules
fire_rules-Clears [] device o raw h =
    ((λ e. tt), λ e. subst (λ l. has_required l ≡ false) (returned_inj h) refl)
fire_rules-Clears (r ∷ rules) device o raw h = elim (Outcome-cases (evaluate_rule r device o)) [
  | inr (err, e) ↦ absurd (cc (rw e at h))
  | inl (b, e) ↦ elim (Outcome-cases (fire_rules rules device o)) [
    | inr (err, k) ↦ absurd (cc (rw (e, k) at h))
    | inl (l, k) ↦
        subst (λ x. (has_required x ≡ false) ↔ All (Clears device o) (r ∷ rules))
          (returned_inj (rw (e, k) at h))
          (keep-Clears r device o b l _ e (fire_rules-Clears rules device o l k))
  ]
]

-- What stands in the way of the path alone.
path_blockers-has_required :
    (most : ℕ) (platform observed target : Option String) (exists : Bool)
    → (has_required (path_blockers most platform observed target exists) ≡ false)
      ↔ ((target ≡ none) ⊎ (exists ≡ true))
path_blockers-has_required most platform observed none exists = ((λ e. inl refl), λ e. refl)
path_blockers-has_required most platform observed (some t) true = ((λ e. inr refl), λ e. refl)
path_blockers-has_required most platform observed (some t) false =
    ((λ e. absurd (cc e)), elim [ inl e ↦ absurd (cc e) | inr e ↦ absurd (cc e) ])

Walk-is_chain :
    (edge : String → String → Option ℕ) (path : List String) (a b : String) (n : ℕ)
    → Walk edge path a b n
    → is_chain path ≡ true
Walk-is_chain edge path a b n (stop v) = refl
Walk-is_chain edge path a b n (step u v x w m p e rest) = refl

within_cap-Answers :
    (edge : String → String → Option ℕ) (a b : String) (most : ℕ) (r : ChainResult)
    → Answers edge a b r
    → (within_cap most r ≡ true)
      ↔ ((path : List String) × (n : ℕ) × Walk edge path a b n × (n ≤ most))
within_cap-Answers edge a b most r (unreachable e never) =
    (λ h. absurd (cc (rw e at h)), λ h. absurd (never h.0 h.1 h.2))
within_cap-Answers edge a b most r (lightest n walk e hops least) = (
  λ h. (r.chain, n, walk, ground (arith, rw (Walk-is_chain edge r.chain a b n walk, e) at h)),
  λ h.
      let light : n ≤ h.1 = least h.0 h.1 h.2 in
      rw (Walk-is_chain edge r.chain a b n walk, e) (ground (arith, light, h.3)),
)

-- Nothing required was found.
all_blockers-quiet :
    (most : ℕ) (device : Device) (f3_row : ComplianceEvaluation) (raw : List Blocker)
    (exists : Bool)
    → (has_required (all_blockers most device f3_row raw exists) ≡ false)
      ↔ ((has_required raw ≡ false) × ((f3_row.target_version ≡ none) ⊎ (exists ≡ true)))
unfolding all_blockers sort_blockers
all_blockers-quiet most device f3_row raw exists =
    let extra =
      path_blockers most device.platform_family f3_row.observed_version f3_row.target_version
        exists in
    let way =
      path_blockers-has_required most device.platform_family f3_row.observed_version
        f3_row.target_version exists in
    rw (any_of-sort_by key_leb (λ b. is_required b.severity) (raw ++ extra)) (
      rw (any_of-append (λ b. is_required b.severity) raw extra) (
        (λ h.
            let (quiet, rest) = orb_false (has_required raw) (has_required extra) h in
            (quiet, way.0 rest)),
        λ h. rw (h.0, way.1 h.1) refl,
      ))

state_of-quiet : (bs : List Blocker) → (state_of bs ≡ ready_for_uplift) ↔ (has_required bs ≡ false)
state_of-quiet bs = elim (Bool-cases (has_required bs)) [
  | inl e ↦ rw e ((λ h. absurd (cc h)), λ h. absurd (cc h))
  | inr e ↦ rw e ((λ h. refl), λ h. refl)
]

no_path : {exists : Bool} → false ≡ exists → (exists ≡ true) ↔ ⊥
no_path e = ((λ h. absurd (cc (e, h))), λ h. absurd h)

module _ (nx : Networkx) (laws : NetworkxLaws nx) where
  find_path-Reachable :
      (most : ℕ) (db : Db) (platform target observed : Option String) (exists : Bool)
      → Finds nx db platform target observed
      → find_path nx most db platform target observed ≡ returned exists
      → (exists ≡ true) ↔ Reachable most db platform target observed
  unfolding find_path
  find_path-Reachable most db none t o exists finds h = no_path (returned_inj h)
  find_path-Reachable most db (some p) none o exists finds h = no_path (returned_inj h)
  find_path-Reachable most db (some p) (some t) none exists finds h = no_path (returned_inj h)
  find_path-Reachable most db (some p) (some t) (some o) exists finds h =
      let (r, e, answers) = with_edges-IsAnswered nx laws [] p (platform_edges db p) o t finds in
      subst (λ x. (x ≡ true) ↔ Reachable most db (some p) (some t) (some o))
        (returned_inj (rw e at h))
        (subst
          (λ edges.
            (within_cap most r ≡ true)
            ↔ ((path : List String) × (n : ℕ) × Walk (edge_weight edges) path o t n × (n ≤ most)))
          (platform_edges-live_edges db p)
          (within_cap-Answers (edge_weight (platform_edges db p)) o t most r answers))

  -- A verdict says that the device is ready exactly where no matching rule raises a required
  -- blocker, and, if the device has a target version, a way of live upgrade paths on its
  -- platform leads from the observed version to the target within the weight cap. This is under
  -- what networkx documents of its graphs and of `shortest_path` on this query.
  pub judge-Ready :
      (call : Call) (db : Db) (device : Device) (f3_row : ComplianceEvaluation) (v : Verdict)
      (rules : List FirmwarePrerequisiteRule)
      → Finds nx db device.platform_family f3_row.target_version f3_row.observed_version
      → matching_rules db device ≡ returned rules
      → judge nx call db device f3_row ≡ returned v
      → (v.state ≡ ready_for_uplift) ↔ (
          All (Clears device (latest_observation device.id db)) rules
          × ((f3_row.target_version ≡ none)
              ⊎ Reachable call.settings.readiness_upgrade_weight_cap db device.platform_family
                  f3_row.target_version f3_row.observed_version))
  unfolding conclude all_blockers sort_blockers
  judge-Ready call db device f3_row v rules finds same_rules h =
      let p = judge-Pieces nx call db device f3_row v h in
      let most = call.settings.readiness_upgrade_weight_cap in
      let ready = state_of-quiet (all_blockers most device f3_row p.raw p.exists) in
      let quiet = all_blockers-quiet most device f3_row p.raw p.exists in
      let clears = fire_rules-Clears rules device (latest_observation device.id db) p.raw (
        subst (λ l. fire_rules l device (latest_observation device.id db) ≡ returned p.raw)
          (returned_inj (sym p.matching ∙ same_rules)) p.fired) in
      let reach =
        find_path-Reachable most db device.platform_family f3_row.target_version
          f3_row.observed_version p.exists finds p.path in
      (
        λ r.
            let (none_required, way) = quiet.0 (ready.0 (ap (λ w. w.state) p.whole ∙ r)) in
            (clears.0 none_required, elim way [ inl e ↦ inl e | inr e ↦ inr (reach.0 e) ]),
        λ r.
            sym (ap (λ w. w.state) p.whole)
            ∙ ready.1
                (quiet.1 (clears.1 r.0, elim r.1 [ inl e ↦ inl e | inr w ↦ inr (reach.1 w) ])),
      )
