-- ===== src/Scope.antt =====
-- gard/core/scope_selector.py: the AND-only grammar that decides whether a target or a
-- prerequisite rule applies to a device. A selector is the mapping from keys to JSON values, in
-- the order of its items; a key outside the vocabulary is `other`.
pub mod Meaning
pub mod Verdicts
pub mod Deferred
use gard.Prelude.{
  ℕ, String, Bool, true, false, ◌&&◌, ◌||◌, not, Option, none, some, List, [], ◌∷◌, map, ◌+◌, ◌==◌,
  str_eq, opt_str_eq, str_in, any_of, all_of, is_some, if◌then◌else◌,
}
use gard.Prelude.Chars.{Chars, codes, lower, chars_in}
use gard.Prelude.Tx.{Outcome, returned, raised}
use Prim.Native.String.{String as Text}
use package.text.Mathlib.Text.{find?}

pub data Key : Type 0 where
  vendor_normalized platform_family region_in site_in role_in : Key
  hardware_revision_in not_in_state tagged_with : Key
  other : String → Key

-- A JSON value of a selector.
pub data Value : Type 0 where
  null : Value
  text : String → Value
  texts : List String → Value

abbrev pub Selector : Type 0
Selector = List (Key × Value)

-- The mapping of a device's facts. A missing entry and an entry `None` read alike (`facts.get`).
pub record Facts : Type 0 where
  pub vendor_normalized : Option String
  pub platform_family : Option String
  pub region : Option String
  pub site : Option String
  pub role : Option String
  pub hardware_revision : Option String
  pub lifecycle_state : Option String
  pub tags : Option (List Chars)

pub data SelectorError : Type 0 where
  unknown_selector_key : SelectorError
  type_error : SelectorError

-- `SelectorEvaluation`
pub record Evaluation : Type 0 where
  pub matched : Bool
  pub deferred_keys : List Key

abbrev pub is_known : Key → Bool
is_known (other k) = false
is_known vendor_normalized = true
is_known _ = true

-- `validate_keys`
unfoldable pub validate_keys : Selector → Outcome SelectorError (Unit {0})
validate_keys selector =
    if all_of (λ item. is_known item.0) selector then returned tt else raised unknown_selector_key

-- What one round of the loop of `evaluate` does: go on, return a verdict, or raise.
pub data Round : Type 0 where
  go_on stop defer fault : Round

abbrev pub verdict : Bool → Round
verdict true = go_on
verdict false = stop

-- `fact in value`: membership in a list, a substring of a text, a TypeError on `None`
abbrev pub contained : String → Value → Round
contained fact null = fault
contained fact (text s) = verdict (is_some (find? s fact))
contained fact (texts l) = verdict (str_in fact l)

abbrev pub flip : Round → Round
flip go_on = stop
flip stop = go_on
flip r = r

abbrev pub letters : String → List Chars
letters Text.[] = []
letters (Text.◌∷◌ c s) = codes (Text.◌∷◌ c Text.[]) ∷ letters s

-- `all(str(tag).lower() in have for tag in value)`
abbrev pub carries : List Chars → List Chars → Bool
carries device_tags wanted = all_of (λ t. chars_in (lower t) (map lower device_tags)) wanted

abbrev pub exact_round : Option String → Value → Round
exact_round fact null = verdict (opt_str_eq fact none)
exact_round fact (text s) = verdict (opt_str_eq fact (some s))
exact_round fact (texts l) = stop

abbrev pub member_round : Option String → Value → Round
member_round none value = stop
member_round (some fact) value = contained fact value

abbrev pub state_round : Option String → Value → Round
state_round none value = stop
state_round (some state) value = flip (contained state value)

abbrev pub tags_round : Option (List Chars) → Value → Round
tags_round none value = defer
tags_round (some device_tags) null = fault
tags_round (some device_tags) (text s) = verdict (carries device_tags (letters s))
tags_round (some device_tags) (texts l) = verdict (carries device_tags (map codes l))

unfoldable pub round : Facts → Key → Value → Round
round facts tagged_with value = tags_round facts.tags value
round facts vendor_normalized value = exact_round facts.vendor_normalized value
round facts platform_family value = exact_round facts.platform_family value
round facts region_in value = member_round facts.region value
round facts site_in value = member_round facts.site value
round facts role_in value = member_round facts.role value
round facts hardware_revision_in value = member_round facts.hardware_revision value
round facts not_in_state value = state_round facts.lifecycle_state value
round facts (other k) value = fault

-- the loop, with the set `deferred`
unfoldable pub evaluate_items : Facts → List Key → Selector → Outcome SelectorError Evaluation
evaluate_items facts deferred [] = returned (record { matched = true; deferred_keys = deferred })
evaluate_items facts deferred ((key, value) ∷ rest) = elim (round facts key value) [
  | go_on ↦ evaluate_items facts deferred rest
  | stop ↦ returned (record { matched = false; deferred_keys = deferred })
  | defer ↦ returned (record { matched = false; deferred_keys = key ∷ deferred })
  | fault ↦ raised type_error
]

unfoldable pub evaluate : Selector → Facts → Outcome SelectorError Evaluation
unfolding validate_keys evaluate_items
evaluate selector facts = elim (validate_keys selector) [
  | returned u ↦ evaluate_items facts [] selector
  | raised e ↦ raised e
]

-- `v is not None and v != []`
abbrev pub is_leaf : Value → Bool
is_leaf null = false
is_leaf (text s) = true
is_leaf (texts []) = false
is_leaf (texts (x ∷ xs)) = true

unfoldable pub count_leaves : Selector → ℕ
count_leaves [] = 0
count_leaves ((key, value) ∷ rest) = (if is_leaf value then 1 else 0) + count_leaves rest

unfoldable pub specificity : Selector → Outcome SelectorError ℕ
unfolding validate_keys count_leaves
specificity selector = elim (validate_keys selector) [
  | returned u ↦ returned (count_leaves selector)
  | raised e ↦ raised e
]
