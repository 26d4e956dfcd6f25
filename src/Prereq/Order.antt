-- ===== src/Prereq/Order.antt =====
-- `BLOCKER_PREDICATE_ORDER`, `_sort_key`, `sort_blockers` and `primary_blocker_of`.
use mathlib.Core.List.{Perm}
use gard.Prelude.{
  suc, sym, All, ◌∙◌, ℕ, Bool, true, false, Option, none, some, List, [], ◌∷◌, ◌≡◌, refl, ◌||◌,
  ◌&&◌, ltb, leb, ◌==◌, first, any_of, arith, if◌then◌else◌, Bool-cases, inl, inr,
}
use gard.Prelude.Sorting.{
  sort_by, IsOrder, IsLeast, IsSortedBy, sort_by-perm, sort_by-IsSortedBy, first-sort_by-IsLeast,
  first-sort_by-All,
}
use gard.Envelope.{
  PredicateKind, min_ram_mb, min_disk_mb, hardware_revision_in, min_current_version,
  intermediate_version_required, missing_upgrade_path, license_present, not_in_state, region_in,
  missing_observation_field, tagged_with, Severity, required, recommended, Blocker,
}

abbrev pub predicate_index : PredicateKind → ℕ
predicate_index min_ram_mb = 0
predicate_index min_disk_mb = 1
predicate_index hardware_revision_in = 2
predicate_index min_current_version = 3
predicate_index intermediate_version_required = 4
predicate_index missing_upgrade_path = 5
predicate_index license_present = 6
predicate_index not_in_state = 7
predicate_index region_in = 8
predicate_index missing_observation_field = 9
predicate_index tagged_with = 10

abbrev pub is_required : Severity → Bool
is_required required = true
is_required recommended = false

abbrev pub severity_rank : Severity → ℕ
severity_rank severity = if is_required severity then 0 else 1

-- `b.rule_id or ""`: the empty text stands before every identifier
abbrev pub rule_leb : Option ℕ → Option ℕ → Bool
rule_leb none b = true
rule_leb (some a) none = false
rule_leb (some a) (some b) = leb a b

-- `_sort_key(a) <= _sort_key(b)`
abbrev pub key_leb : Blocker → Blocker → Bool
key_leb a b =
    ltb (severity_rank a.severity) (severity_rank b.severity)
    || ((severity_rank a.severity == severity_rank b.severity)
        && (ltb (predicate_index a.predicate_kind) (predicate_index b.predicate_kind)
            || ((predicate_index a.predicate_kind == predicate_index b.predicate_kind)
                && rule_leb a.rule_id b.rule_id)))

unfoldable pub sort_blockers : List Blocker → List Blocker
sort_blockers blockers = sort_by key_leb blockers

unfoldable pub primary_blocker_of : List Blocker → Option Blocker
unfolding sort_blockers
primary_blocker_of blockers = first (sort_blockers blockers)

-- `any(b.severity == "required" for b in blockers)`
abbrev pub has_required : List Blocker → Bool
has_required blockers = any_of (λ b. is_required b.severity) blockers

-- the place of an optional identifier among the texts
abbrev rule_rank : Option ℕ → ℕ
rule_rank none = 0
rule_rank (some a) = suc a

lex_leb : ℕ → ℕ → ℕ → ℕ → ℕ → ℕ → Bool
lex_leb s k r s' k' r' = ltb s s' || ((s == s') && (ltb k k' || ((k == k') && leb r r')))

lex_leb_total :
    (s k r s' k' r' : ℕ) → lex_leb s k r s' k' r' ≡ false → lex_leb s' k' r' s k r ≡ true
unfolding lex_leb
lex_leb_total s k r s' k' r' h = ground arith

lex_leb_trans :
    (s k r s' k' r' s'' k'' r'' : ℕ)
    → lex_leb s k r s' k' r' ≡ true
    → lex_leb s' k' r' s'' k'' r'' ≡ true
    → lex_leb s k r s'' k'' r'' ≡ true
unfolding lex_leb
lex_leb_trans s k r s' k' r' s'' k'' r'' h i = ground arith

rule_leb_lem : (a b : Option ℕ) → rule_leb a b ≡ leb (rule_rank a) (rule_rank b)
rule_leb_lem none none = ground arith
rule_leb_lem none (some b) = ground arith
rule_leb_lem (some a) none = ground arith
rule_leb_lem (some a) (some b) = ground arith

key_leb_lem :
    (a b : Blocker)
    → key_leb a b
      ≡ lex_leb
          (severity_rank a.severity)
          (predicate_index a.predicate_kind)
          (rule_rank a.rule_id)
          (severity_rank b.severity)
          (predicate_index b.predicate_kind)
          (rule_rank b.rule_id)
unfolding lex_leb
key_leb_lem a b = rw (rule_leb_lem a.rule_id b.rule_id) refl

key_leb-IsOrder : IsOrder key_leb
key_leb-IsOrder = record {
  total = λ a b h. key_leb_lem b a ∙ lex_leb_total _ _ _ _ _ _ (sym (key_leb_lem a b) ∙ h);
  trans = λ a b c h i.
      key_leb_lem a c
      ∙ lex_leb_trans _ _ _ _ _ _ _ _ _ (sym (key_leb_lem a b) ∙ h) (sym (key_leb_lem b c) ∙ i);
}

-- The blockers of a verdict are those that were found, each as often, and they stand in the
-- order of the key: severity, then kind, then rule.
pub sort_blockers-IsSortedBy :
    (blockers : List Blocker)
    → Perm (sort_blockers blockers) blockers × IsSortedBy key_leb (sort_blockers blockers)
unfolding sort_blockers
sort_blockers-IsSortedBy blockers =
    (sort_by-perm key_leb blockers, sort_by-IsSortedBy key_leb key_leb-IsOrder blockers)

-- A least blocker is required exactly where any blocker is.
least-has_required :
    (b : Blocker) (bs : List Blocker)
    → IsLeast key_leb b bs
    → is_required b.severity ≡ false
    → has_required bs ≡ false
least-has_required b [] l h = refl
least-has_required b (c ∷ bs) l h = ground (arith, least-has_required b bs l.1 h, l.0)

none-required :
    (bs : List Blocker) → has_required bs ≡ false → All (λ b. is_required b.severity ≡ false) bs
none-required [] h = tt
none-required (b ∷ bs) h = (ground arith, none-required bs (ground arith))

-- The primary blocker is not above any blocker in the order of the key, and it is a required
-- one exactly where some blocker is.
pub primary_blocker_of-IsLeast :
    (blockers : List Blocker) (b : Blocker)
    → primary_blocker_of blockers ≡ some b
    → IsLeast key_leb b blockers × (is_required b.severity ≡ has_required blockers)
unfolding primary_blocker_of sort_blockers
primary_blocker_of-IsLeast blockers b h =
    let least = first-sort_by-IsLeast key_leb key_leb-IsOrder blockers b h in
    (
      least,
      elim (Bool-cases (has_required blockers)) [
        | inl e ↦ elim (Bool-cases (is_required b.severity)) [
          | inl k ↦ k ∙ sym e
          | inr k ↦ absurd (cc (least-has_required b blockers least k, e))
        ]
        | inr e ↦
            first-sort_by-All key_leb (λ c. is_required c.severity ≡ false) blockers b
              (none-required blockers e) h
            ∙ sym e
      ],
    )
