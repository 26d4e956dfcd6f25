-- ===== src/Scope/Verdicts.antt =====
-- The verdicts of `evaluate`.
use gard.Prelude.{
  ◌≡◌, refl, ◌↔◌, ◌⊎◌, inl, inr, Bool, true, false, Option, none, some, List, [], ◌∷◌, arith, All,
  In, Bool-cases, all_of, String, ◌≢◌, map, ◌∙◌, All-In, All-of_In, Bool-eq_of_iff, opt_str_eq,
  str_in,
}
use gard.Prelude.Chars.{Chars, codes}
use gard.Prelude.Tx.{returned, raised}
use gard.Scope.{
  Key, Value, null, texts, Facts, Selector, Evaluation, vendor_normalized, platform_family,
  region_in, site_in, role_in, hardware_revision_in, not_in_state, tagged_with, other, Round, go_on,
  stop, defer, fault, is_known, unknown_selector_key, round, evaluate_items, evaluate,
  validate_keys, verdict, member_round, state_round, tags_round, exact_round, carries,
}
use gard.Scope.Meaning.{Satisfies, round_iff}

-- All leaves hold of the facts.
abbrev pub AllHold : Facts → Selector → Type 0
AllHold f selector = All (λ item. Satisfies f item.0 item.1) selector

-- Set membership and tags want lists; the exact keys take any value.
abbrev IsList : Value → Type 0
IsList (texts l) = Unit {0}
IsList _ = ⊥

abbrev pub IsTyped : Key → Value → Type 0
IsTyped vendor_normalized v = Unit {0}
IsTyped platform_family v = Unit {0}
IsTyped (other k) v = ⊥
IsTyped _ v = IsList v

-- The selector's keys are of the vocabulary and its values have the types of the schema.
abbrev pub IsWellFormed : Selector → Type 0
IsWellFormed selector = All (λ item. IsTyped item.0 item.1) selector

pub Round-cases : (r : Round) → (r ≡ go_on) ⊎ (r ≡ stop) ⊎ (r ≡ defer) ⊎ (r ≡ fault)
Round-cases go_on = inl refl
Round-cases stop = inr (inl refl)
Round-cases defer = inr (inr (inl refl))
Round-cases fault = inr (inr (inr refl))

evaluate_items-matched :
    (f : Facts) (ds : List Key) (selector : Selector) (r : Evaluation)
    → evaluate_items f ds selector ≡ returned r
    → (r.matched ≡ true) ↔ AllHold f selector
unfolding evaluate_items
evaluate_items-matched f ds [] r h = ((λ e. tt), λ a. ground arith)
evaluate_items-matched f ds ((k, v) ∷ rest) r h = elim (Round-cases (round f k v)) [
  | inl e ↦
      let ih = evaluate_items-matched f ds rest r (rw (e, evaluate_items) at h) in
      ((λ m. ((round_iff f k v).0 e, ih.0 m)), λ a. ih.1 a.1)
  | inr e ↦ ((λ m. absurd (ground arith)), λ a. ground (arith, (round_iff f k v).1 a.0))
]

verdict-ne-fault : (b : Bool) → verdict b ≢ fault
verdict-ne-fault true e = ground arith
verdict-ne-fault false e = ground arith

member-ne-fault : (o : Option String) (v : Value) → IsList v → member_round o v ≢ fault
member-ne-fault none v w e = ground arith
member-ne-fault (some s) null w e = w
member-ne-fault (some s) (Value.text t) w e = w
member-ne-fault (some s) (texts l) w e = verdict-ne-fault (str_in s l) e

state-ne-fault : (o : Option String) (v : Value) → IsList v → state_round o v ≢ fault
state-ne-fault none v w e = ground arith
state-ne-fault (some s) null w e = w
state-ne-fault (some s) (Value.text t) w e = w
state-ne-fault (some s) (texts l) w e = ground arith

tags-ne-fault : (o : Option (List Chars)) (v : Value) → IsList v → tags_round o v ≢ fault
tags-ne-fault none v w e = ground arith
tags-ne-fault (some ts) null w e = w
tags-ne-fault (some ts) (Value.text t) w e = w
tags-ne-fault (some ts) (texts l) w e = verdict-ne-fault (carries ts (map codes l)) e

exact-ne-fault : (o : Option String) (v : Value) → exact_round o v ≢ fault
exact-ne-fault o null e = verdict-ne-fault (opt_str_eq o none) e
exact-ne-fault o (Value.text t) e = verdict-ne-fault (opt_str_eq o (some t)) e
exact-ne-fault o (texts l) e = ground arith

round-ne-fault : (f : Facts) (k : Key) (v : Value) → IsTyped k v → round f k v ≢ fault
unfolding round
round-ne-fault f vendor_normalized v w = exact-ne-fault f.vendor_normalized v
round-ne-fault f platform_family v w = exact-ne-fault f.platform_family v
round-ne-fault f region_in v w = member-ne-fault f.region v w
round-ne-fault f site_in v w = member-ne-fault f.site v w
round-ne-fault f role_in v w = member-ne-fault f.role v w
round-ne-fault f hardware_revision_in v w = member-ne-fault f.hardware_revision v w
round-ne-fault f not_in_state v w = state-ne-fault f.lifecycle_state v w
round-ne-fault f tagged_with v w = tags-ne-fault f.tags v w
round-ne-fault f (other k) v w = absurd w

evaluate_items-returns :
    (f : Facts) (ds : List Key) (selector : Selector)
    → IsWellFormed selector
    → (r : Evaluation) × (evaluate_items f ds selector ≡ returned r)
unfolding evaluate_items
evaluate_items-returns f ds [] w = (record { matched = true; deferred_keys = ds }, refl)
evaluate_items-returns f ds ((k, v) ∷ rest) w = elim (Round-cases (round f k v)) [
  | inl e ↦ rw (e, evaluate_items) (evaluate_items-returns f ds rest w.1)
  | inr (inl e) ↦ rw (e, evaluate_items) (record { matched = false; deferred_keys = ds }, refl)
  | inr (inr (inl e)) ↦
      rw (e, evaluate_items) (record { matched = false; deferred_keys = k ∷ ds }, refl)
  | inr (inr (inr e)) ↦ absurd (round-ne-fault f k v w.0 e)
]

typed_is_known : (k : Key) (v : Value) → IsTyped k v → is_known k ≡ true
typed_is_known (other k) v w = absurd w
typed_is_known _ v w = refl

all_known : (l : Selector) → IsWellFormed l → all_of (λ item. is_known item.0) l ≡ true
all_known [] w = refl
all_known ((k, v) ∷ l) w = ground (arith, typed_is_known k v w.0, all_known l w.1)

well_formed_is_valid :
    (selector : Selector) → IsWellFormed selector → validate_keys selector ≡ returned tt
unfolding validate_keys
well_formed_is_valid selector w = rw (all_known selector w)

pub evaluate_of_well_formed :
    (selector : Selector) (f : Facts)
    → IsWellFormed selector
    → evaluate selector f ≡ evaluate_items f [] selector
unfolding evaluate
evaluate_of_well_formed selector f w = rw (well_formed_is_valid selector w, evaluate)

-- Whatever the facts, a selector of the schema's form has a verdict, and that verdict is
-- `matched` exactly when every leaf holds of the facts.
pub evaluate-matched :
    (selector : Selector) (f : Facts)
    → IsWellFormed selector
    → (r : Evaluation) × (evaluate selector f ≡ returned r)
      × ((r.matched ≡ true) ↔ AllHold f selector)
evaluate-matched selector f w =
    let (r, e) = evaluate_items-returns f [] selector w in
    (r, evaluate_of_well_formed selector f w ∙ e, evaluate_items-matched f [] selector r e)

-- With what `evaluate` returned given.
pub matched_iff :
    (selector : Selector) (f : Facts) (r : Evaluation)
    → evaluate selector f ≡ returned r
    → (r.matched ≡ true) ↔ AllHold f selector
unfolding evaluate
matched_iff selector f r h = elim (Bool-cases (all_of (λ item. is_known item.0) selector)) [
  | inl e ↦ evaluate_items-matched f [] selector r (rw (e, evaluate, validate_keys) at h)
  | inr e ↦ absurd (refused (rw (e, evaluate, validate_keys) at h))
]
  where
    refused : raised unknown_selector_key ≡ returned r → ⊥
    refused p = cc

-- A selector with a key outside the vocabulary is refused, whatever the other leaves and the
-- facts are.
pub evaluate-unknown_key :
    (selector : Selector) (f : Facts) (k : String) (v : Value)
    → In (other k, v) selector
    → evaluate selector f ≡ raised unknown_selector_key
unfolding evaluate
evaluate-unknown_key selector f k v i = rw (has_unknown selector i, evaluate, validate_keys)
  where
    has_unknown : (l : Selector) → In (other k, v) l → all_of (λ item. is_known item.0) l ≡ false
    has_unknown [] i = absurd i
    has_unknown ((j, w) ∷ l) (inl e) = ground arith
    has_unknown ((j, w) ∷ l) (inr i) = ground (arith, has_unknown l i)

-- Two selectors with the same leaves, in whatever order and however often, have one verdict,
-- where both evaluations return.
pub evaluate_order :
    (s t : Selector) (f : Facts) (r q : Evaluation)
    → ((item : Key × Value) → In item s ↔ In item t)
    → evaluate s f ≡ returned r
    → evaluate t f ≡ returned q
    → r.matched ≡ q.matched
evaluate_order s t f r q same hs ht = Bool-eq_of_iff r.matched q.matched (
  λ m.
      (matched_iff t f q ht).1
        (All-of_In _ t λ i p. All-In _ i s ((matched_iff s f r hs).0 m) ((same i).1 p)),
  λ m.
      (matched_iff s f r hs).1
        (All-of_In _ s λ i p. All-In _ i t ((matched_iff t f q ht).0 m) ((same i).0 p)),
)
