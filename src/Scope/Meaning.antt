-- ===== src/Scope/Meaning.antt =====
-- What a selector says, independently of the loop: each leaf is a statement about the facts.
use package.text.Mathlib.Text.{find?}
use gard.Prelude.{
  String, ◌≡◌, refl, ◌↔◌, inl, inr, Bool, true, false, Option, none, some, List, [], ◌∷◌, map,
  arith, All, In, is_some, opt_str_eq_iff, str_in, str_in_iff, Bool-cases,
}
use gard.Prelude.Chars.{Chars, codes, lower, chars_in_iff}
use gard.Scope.{
  Key, Value, null, texts, Facts, vendor_normalized, platform_family, region_in, site_in, role_in,
  hardware_revision_in, not_in_state, tagged_with, other, go_on, verdict, contained, letters,
  carries, exact_round, member_round, state_round, tags_round, round,
}

-- The fact is the value.
abbrev pub ExactlyIs : Option String → Value → Type 0
ExactlyIs fact null = fact ≡ none
ExactlyIs fact (Value.text s) = fact ≡ some s
ExactlyIs fact (texts l) = ⊥

abbrev pub Contains : Value → String → Type 0
Contains null fact = ⊥
Contains (Value.text s) fact = is_some (find? s fact) ≡ true
Contains (texts l) fact = In fact l

-- The fact is known, and one of the values.
abbrev pub IsOneOf : Option String → Value → Type 0
IsOneOf none value = ⊥
IsOneOf (some fact) value = Contains value fact

-- The fact is known, and none of the values.
abbrev pub IsNoneOf : Option String → Value → Type 0
IsNoneOf none value = ⊥
IsNoneOf (some fact) null = ⊥
IsNoneOf (some fact) value = ¬ Contains value fact

-- Each wanted tag is, up to case, a tag of the device.
abbrev pub CarriesAll : List Chars → List Chars → Type 0
CarriesAll tags wanted = All (λ t. In (lower t) (map lower tags)) wanted

abbrev pub HasTags : Option (List Chars) → Value → Type 0
HasTags none value = ⊥
HasTags (some tags) null = ⊥
HasTags (some tags) (Value.text s) = CarriesAll tags (letters s)
HasTags (some tags) (texts l) = CarriesAll tags (map codes l)

abbrev pub Satisfies : Facts → Key → Value → Type 0
Satisfies f vendor_normalized v = ExactlyIs f.vendor_normalized v
Satisfies f platform_family v = ExactlyIs f.platform_family v
Satisfies f region_in v = IsOneOf f.region v
Satisfies f site_in v = IsOneOf f.site v
Satisfies f role_in v = IsOneOf f.role v
Satisfies f hardware_revision_in v = IsOneOf f.hardware_revision v
Satisfies f not_in_state v = IsNoneOf f.lifecycle_state v
Satisfies f tagged_with v = HasTags f.tags v
Satisfies f (other k) v = ⊥

verdict_iff : (b : Bool) → (verdict b ≡ go_on) ↔ (b ≡ true)
verdict_iff true = ((λ e. refl), (λ e. refl))
verdict_iff false = ground arith

carries_iff : (tags wanted : List Chars) → (carries tags wanted ≡ true) ↔ CarriesAll tags wanted
carries_iff tags [] = ((λ e. tt), (λ h. refl))
carries_iff tags (t ∷ wanted) =
    let head = chars_in_iff (lower t) (map lower tags) in
    let rest = carries_iff tags wanted in
    (
      λ e. (head.0 (ground arith), rest.0 (ground arith)),
      λ h. ground (arith, head.1 h.0, rest.1 h.1),
    )

exact_round_iff : (o : Option String) (v : Value) → (exact_round o v ≡ go_on) ↔ ExactlyIs o v
exact_round_iff o null = ground (arith, opt_str_eq_iff o none)
exact_round_iff o (Value.text s) = ground (arith, opt_str_eq_iff o (some s))
exact_round_iff o (texts l) = ground arith

contained_iff : (v : Value) (s : String) → (contained s v ≡ go_on) ↔ Contains v s
contained_iff null s = ground arith
contained_iff (Value.text t) s = verdict_iff (is_some (find? t s))
contained_iff (texts l) s = (
  λ e. (str_in_iff s l).0 ((verdict_iff (str_in s l)).0 e),
  λ h. (verdict_iff (str_in s l)).1 ((str_in_iff s l).1 h),
)

member_round_iff : (o : Option String) (v : Value) → (member_round o v ≡ go_on) ↔ IsOneOf o v
member_round_iff none v = ground arith
member_round_iff (some s) v = contained_iff v s

state_round_iff : (o : Option String) (v : Value) → (state_round o v ≡ go_on) ↔ IsNoneOf o v
state_round_iff none v = ground arith
state_round_iff (some s) null = ground arith
state_round_iff (some s) (Value.text t) = ground arith
state_round_iff (some s) (texts l) = (
  λ e i. ground (arith, (str_in_iff s l).1 i),
  λ n. elim (Bool-cases (str_in s l)) [ inl e ↦ absurd (n ((str_in_iff s l).0 e)) | inr e ↦ rw e ],
)

tags_round_iff : (o : Option (List Chars)) (v : Value) → (tags_round o v ≡ go_on) ↔ HasTags o v
tags_round_iff none v = ground arith
tags_round_iff (some tags) null = ground arith
tags_round_iff (some tags) (Value.text s) = (
  λ e. (carries_iff tags (letters s)).0 ((verdict_iff (carries tags (letters s))).0 e),
  λ h. (verdict_iff (carries tags (letters s))).1 ((carries_iff tags (letters s)).1 h),
)
tags_round_iff (some tags) (texts l) = (
  λ e. (carries_iff tags (map codes l)).0 ((verdict_iff (carries tags (map codes l))).0 e),
  λ h. (verdict_iff (carries tags (map codes l))).1 ((carries_iff tags (map codes l)).1 h),
)

-- A round goes on exactly when its leaf is satisfied.
pub round_iff : (f : Facts) (k : Key) (v : Value) → (round f k v ≡ go_on) ↔ Satisfies f k v
unfolding round
round_iff f vendor_normalized v = exact_round_iff f.vendor_normalized v
round_iff f platform_family v = exact_round_iff f.platform_family v
round_iff f region_in v = member_round_iff f.region v
round_iff f site_in v = member_round_iff f.site v
round_iff f role_in v = member_round_iff f.role v
round_iff f hardware_revision_in v = member_round_iff f.hardware_revision v
round_iff f not_in_state v = state_round_iff f.lifecycle_state v
round_iff f tagged_with v = tags_round_iff f.tags v
round_iff f (other k) v = ground arith
