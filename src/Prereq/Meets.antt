-- ===== src/Prereq/Meets.antt =====
-- What a device must be for a rule to raise no blocker, and what a blocker says of its rule.
use gard.Prelude.{
  ap, true, Option, none, some, List, [], ◌∷◌, ◌≡◌, refl, ◌↔◌, ◌≤◌, ◌⊎◌, inl, inr, In, All, str_ltb,
  str_in, str_in_iff, map, arith, Bool-cases, Option-cases,
}
use gard.Prelude.Chars.{Chars, lower, chars_in, chars_in_iff}
use gard.Prelude.Tx.{Outcome, returned, raised, returned_inj}
use gard.Lifecycle.{lifecycle_value}
use gard.Envelope.{
  PredicateKind, min_ram_mb, min_disk_mb, hardware_revision_in, min_current_version,
  intermediate_version_required, missing_upgrade_path, license_present, not_in_state, region_in,
  missing_observation_field, tagged_with, Blocker,
}
use gard.Db.{Device, DeviceObservation, FirmwarePrerequisiteRule}
use gard.Prereq.{
  PrereqError, get_or, observed_by, required_tags, missing_tags, tag_blocker, tags_round,
  eval_min_ram_mb, eval_min_disk_mb, eval_min_current_version, eval_hardware_revision_in,
  eval_license_present, eval_intermediate_version_required, eval_not_in_state, eval_region_in,
  eval_tagged_with, dispatch, evaluate_rule,
}

-- the column has a value, and it is as asked
abbrev Has : {A : Type 0} → Option A → (A → Type 0) → Type 0
Has none P = ⊥
Has (some a) P = P a

-- The predicate of each kind, stated of the device and of its latest observation. No device
-- meets a rule of the advisory kind, nor one of a kind that has no evaluator.
abbrev MeetsKind :
    PredicateKind → FirmwarePrerequisiteRule → Device → Option DeviceObservation → Type 0
MeetsKind min_ram_mb rule device observation =
    Has device.ram_mb λ mb. get_or 0 rule.predicate_args.min_mb ≤ mb
MeetsKind min_disk_mb rule device observation =
    Has device.disk_mb λ mb. get_or 0 rule.predicate_args.min_mb ≤ mb
MeetsKind min_current_version rule device observation =
    Has (observed_by observation)
      λ v. ¬ (str_ltb v (get_or "" rule.predicate_args.min_version) ≡ true)
MeetsKind hardware_revision_in rule device observation =
    Has device.hardware_revision λ r. In r (get_or [] rule.predicate_args.revisions)
MeetsKind license_present rule device observation =
    Has device.licenses λ l. In (get_or "" rule.predicate_args.license) l
MeetsKind intermediate_version_required rule device observation = ⊥
MeetsKind not_in_state rule device observation =
    ¬ In (lifecycle_value device.lifecycle_state) (get_or [] rule.predicate_args.states)
MeetsKind region_in rule device observation =
    Has device.region λ r. In r (get_or [] rule.predicate_args.regions)
MeetsKind tagged_with rule device observation =
    (required_tags rule ≡ [])
    ⊎ Has device.tags λ tags. All (λ t. In (lower t) (map lower tags)) (required_tags rule)
MeetsKind missing_upgrade_path rule device observation = ⊥
MeetsKind missing_observation_field rule device observation = ⊥

abbrev pub Meets : FirmwarePrerequisiteRule → Device → Option DeviceObservation → Type 0
Meets rule device observation = MeetsKind rule.predicate_kind rule device observation

missing_tags_iff :
    (wanted tags : List Chars)
    → (missing_tags wanted tags ≡ []) ↔ All (λ t. In (lower t) (map lower tags)) wanted
missing_tags_iff [] tags = ((λ e. tt), λ e. refl)
missing_tags_iff (t ∷ wanted) tags = elim (Bool-cases (chars_in (lower t) (map lower tags))) [
  | inl e ↦ (
    λ h. (
      (chars_in_iff (lower t) (map lower tags)).0 e,
      (missing_tags_iff wanted tags).0 (rw e at h),
    ),
    λ h. rw e ((missing_tags_iff wanted tags).1 h.1),
  )
  | inr e ↦ (
    λ h. absurd (cc (rw e at h)),
    λ h. absurd (cc ((chars_in_iff (lower t) (map lower tags)).1 h.0, e)),
  )
]

tag_blocker_iff :
    (rule : FirmwarePrerequisiteRule) (wanted tags absent : List Chars)
    → (tag_blocker rule wanted tags absent ≡ none) ↔ (absent ≡ [])
tag_blocker_iff rule wanted tags [] = ((λ e. refl), λ e. refl)
tag_blocker_iff rule wanted tags (t ∷ absent) = ((λ e. absurd (cc e)), λ e. absurd (cc e))

tags_round_iff :
    (rule : FirmwarePrerequisiteRule) (wanted : List Chars) (tags : Option (List Chars))
    → (tags_round rule wanted tags ≡ none)
      ↔ ((wanted ≡ []) ⊎ Has tags λ l. All (λ t. In (lower t) (map lower l)) wanted)
tags_round_iff rule [] tags = ((λ e. inl refl), λ e. refl)
tags_round_iff rule (t ∷ wanted) none =
    (λ e. absurd (cc e), elim [ inl e ↦ absurd (cc e) | inr e ↦ absurd e ])
tags_round_iff rule (t ∷ wanted) (some l) =
    let blocks = tag_blocker_iff rule (t ∷ wanted) l (missing_tags (t ∷ wanted) l) in
    let lacks = missing_tags_iff (t ∷ wanted) l in
    (λ e. inr (lacks.0 (blocks.0 e)), elim [ inl e ↦ absurd (cc e) | inr h ↦ blocks.1 (lacks.1 h) ])

-- a kind's evaluator inside the result of the dispatch
returned_iff :
    {P : Type 0} (o : Option Blocker)
    → (o ≡ none) ↔ P
    → (◌≡◌ {A = Outcome PrereqError (Option Blocker)} (returned o) (returned none)) ↔ P
returned_iff o h = (λ e. h.0 (returned_inj e), λ p. ap returned (h.1 p))

no_evaluator :
    (e : PrereqError)
    → (◌≡◌ {A = Outcome PrereqError (Option Blocker)} (raised e) (returned none)) ↔ ⊥
no_evaluator e = (λ h. absurd (cc h), λ h. absurd h)

module _ (rule : FirmwarePrerequisiteRule) (device : Device) where
  ram_iff :
      (eval_min_ram_mb rule device ≡ none)
      ↔ Has device.ram_mb λ mb. get_or 0 rule.predicate_args.min_mb ≤ mb
  unfolding eval_min_ram_mb
  ram_iff = ground arith

  license_iff :
      (eval_license_present rule device ≡ none)
      ↔ Has device.licenses λ l. In (get_or "" rule.predicate_args.license) l
  unfolding eval_license_present
  license_iff = elim (Option-cases device.licenses) [
    | inl e ↦ rw e (ground arith)
    | inr (l, e) ↦ rw e (ground (arith, str_in_iff (get_or "" rule.predicate_args.license) l))
  ]

  disk_iff :
      (eval_min_disk_mb rule device ≡ none)
      ↔ Has device.disk_mb λ mb. get_or 0 rule.predicate_args.min_mb ≤ mb
  unfolding eval_min_disk_mb
  disk_iff = ground arith

  revision_iff :
      (eval_hardware_revision_in rule device ≡ none)
      ↔ Has device.hardware_revision λ r. In r (get_or [] rule.predicate_args.revisions)
  unfolding eval_hardware_revision_in
  revision_iff = elim (Option-cases device.hardware_revision) [
    | inl e ↦ rw e (ground arith)
    | inr (r, e) ↦ rw e (ground (arith, str_in_iff r (get_or [] rule.predicate_args.revisions)))
  ]

  region_iff :
      (eval_region_in rule device ≡ none)
      ↔ Has device.region λ r. In r (get_or [] rule.predicate_args.regions)
  unfolding eval_region_in
  region_iff = elim (Option-cases device.region) [
    | inl e ↦ rw e (ground arith)
    | inr (r, e) ↦ rw e (ground (arith, str_in_iff r (get_or [] rule.predicate_args.regions)))
  ]

  state_iff :
      (eval_not_in_state rule device ≡ none)
      ↔ (¬ In (lifecycle_value device.lifecycle_state) (get_or [] rule.predicate_args.states))
  unfolding eval_not_in_state
  state_iff =
      let has =
        str_in_iff (lifecycle_value device.lifecycle_state)
          (get_or [] rule.predicate_args.states) in
      elim (Bool-cases
        (str_in (lifecycle_value device.lifecycle_state) (get_or [] rule.predicate_args.states))) [
          | inl k ↦ rw k ((λ h. absurd (cc h)), λ h. absurd (h (has.0 k)))
          | inr k ↦ rw k ((λ h i. cc (has.1 i, k)), λ h. refl)
        ]

  version_iff :
      (observation : Option DeviceObservation)
      → (eval_min_current_version rule observation ≡ none)
        ↔ Has
            (observed_by observation)
            λ v. ¬ (str_ltb v (get_or "" rule.predicate_args.min_version) ≡ true)
  unfolding eval_min_current_version
  version_iff observation = elim (Option-cases (observed_by observation)) [
    | inl e ↦ rw e (ground arith)
    | inr (v, e) ↦ rw e (ground arith)
  ]

  hop_iff :
      (observation : Option DeviceObservation)
      → (eval_intermediate_version_required rule observation ≡ none) ↔ ⊥
  unfolding eval_intermediate_version_required
  hop_iff observation = ((λ h. absurd (cc h)), λ h. absurd h)

dispatch-MeetsKind :
    (kind : PredicateKind) (rule : FirmwarePrerequisiteRule) (device : Device)
    (observation : Option DeviceObservation)
    → (dispatch kind rule device observation ≡ returned none)
      ↔ MeetsKind kind rule device observation
unfolding eval_tagged_with
dispatch-MeetsKind min_ram_mb rule device o = returned_iff _ (ram_iff rule device)
dispatch-MeetsKind min_disk_mb rule device o = returned_iff _ (disk_iff rule device)
dispatch-MeetsKind min_current_version rule device o = returned_iff _ (version_iff rule device o)
dispatch-MeetsKind hardware_revision_in rule device o = returned_iff _ (revision_iff rule device)
dispatch-MeetsKind license_present rule device o = returned_iff _ (license_iff rule device)
dispatch-MeetsKind intermediate_version_required rule device o =
    returned_iff _ (hop_iff rule device o)
dispatch-MeetsKind not_in_state rule device o = returned_iff _ (state_iff rule device)
dispatch-MeetsKind region_in rule device o = returned_iff _ (region_iff rule device)
dispatch-MeetsKind tagged_with rule device o =
    returned_iff _ (tags_round_iff rule (required_tags rule) device.tags)
dispatch-MeetsKind missing_upgrade_path rule device o = no_evaluator _
dispatch-MeetsKind missing_observation_field rule device o = no_evaluator _

-- A rule raises no blocker for a device exactly where the device meets its predicate; a rule
-- whose kind has no evaluator raises an error and is met by no device.
pub evaluate_rule-Meets :
    (rule : FirmwarePrerequisiteRule) (device : Device) (observation : Option DeviceObservation)
    → (evaluate_rule rule device observation ≡ returned none) ↔ Meets rule device observation
unfolding evaluate_rule
evaluate_rule-Meets rule device observation =
    dispatch-MeetsKind rule.predicate_kind rule device observation
