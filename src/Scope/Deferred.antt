-- ===== src/Scope/Deferred.antt =====
-- When the verdict of `evaluate` is deferred.
use gard.Prelude.{
  ◌≡◌, refl, inl, inr, Bool, true, false, Option, none, some, List, [], ◌∷◌, arith, In, String, ◌≢◌,
  map, ◌∙◌, sym, ap, is_some, opt_str_eq, str_in,
}
use text.Mathlib.Text.{find?}
use gard.Prelude.Chars.{Chars, codes}
use gard.Prelude.Tx.{returned}
use gard.Scope.{
  Key, Value, null, texts, Facts, Selector, Evaluation, vendor_normalized, platform_family,
  region_in, site_in, role_in, hardware_revision_in, not_in_state, tagged_with, other, Round, go_on,
  stop, defer, fault, round, evaluate_items, evaluate, verdict, member_round, state_round,
  tags_round, exact_round, carries, contained, flip, letters,
}
use gard.Scope.Verdicts.{Round-cases, IsWellFormed, evaluate_of_well_formed}

verdict-ne-defer : (b : Bool) → verdict b ≢ defer
verdict-ne-defer true e = ground arith
verdict-ne-defer false e = ground arith

exact-ne-defer : (o : Option String) (v : Value) → exact_round o v ≢ defer
exact-ne-defer o null e = verdict-ne-defer (opt_str_eq o none) e
exact-ne-defer o (Value.text t) e = verdict-ne-defer (opt_str_eq o (some t)) e
exact-ne-defer o (texts l) e = ground arith

contained-ne-defer : (s : String) (v : Value) → contained s v ≢ defer
contained-ne-defer s null e = ground arith
contained-ne-defer s (Value.text t) e = verdict-ne-defer (is_some (find? t s)) e
contained-ne-defer s (texts l) e = verdict-ne-defer (str_in s l) e

member-ne-defer : (o : Option String) (v : Value) → member_round o v ≢ defer
member-ne-defer none v e = ground arith
member-ne-defer (some s) v e = contained-ne-defer s v e

state-ne-defer : (o : Option String) (v : Value) → state_round o v ≢ defer
state-ne-defer none v e = ground arith
state-ne-defer (some s) v e = contained-ne-defer s v (flip-defer (contained s v) e)
  where
    flip-defer : (r : Round) → flip r ≡ defer → r ≡ defer
    flip-defer go_on h = ground arith
    flip-defer stop h = ground arith
    flip-defer defer h = refl
    flip-defer fault h = h

tags-defer : (o : Option (List Chars)) (v : Value) → tags_round o v ≡ defer → o ≡ none
tags-defer none v e = refl
tags-defer (some ts) null e = ground arith
tags-defer (some ts) (Value.text t) e = absurd (verdict-ne-defer (carries ts (letters t)) e)
tags-defer (some ts) (texts l) e = absurd (verdict-ne-defer (carries ts (map codes l)) e)

round-defer :
    (f : Facts) (k : Key) (v : Value) → round f k v ≡ defer → (k ≡ tagged_with) × (f.tags ≡ none)
unfolding round
round-defer f tagged_with v e = (refl, tags-defer f.tags v e)
round-defer f vendor_normalized v e = absurd (exact-ne-defer f.vendor_normalized v e)
round-defer f platform_family v e = absurd (exact-ne-defer f.platform_family v e)
round-defer f region_in v e = absurd (member-ne-defer f.region v e)
round-defer f site_in v e = absurd (member-ne-defer f.site v e)
round-defer f role_in v e = absurd (member-ne-defer f.role v e)
round-defer f hardware_revision_in v e = absurd (member-ne-defer f.hardware_revision v e)
round-defer f not_in_state v e = absurd (state-ne-defer f.lifecycle_state v e)
round-defer f (other k) v e = ground arith

abbrev pub IsDeferral : Facts → Selector → Evaluation → Type 0
IsDeferral f selector r =
    (r.deferred_keys ≡ tagged_with ∷ [])
    × (r.matched ≡ false)
    × (f.tags ≡ none)
    × ((v : Value) × In (tagged_with, v) selector)

evaluate_items-deferred :
    (f : Facts) (selector : Selector) (r : Evaluation)
    → evaluate_items f [] selector ≡ returned r
    → r.deferred_keys ≢ []
    → IsDeferral f selector r
unfolding evaluate_items
evaluate_items-deferred f [] r h n = absurd (n (ground arith))
evaluate_items-deferred f ((j, v) ∷ rest) r h n = elim (Round-cases (round f j v)) [
  | inl e ↦
      let (d, m, t, (w, i)) = evaluate_items-deferred f rest r (rw (e, evaluate_items) at h) n in
      (d, m, t, (w, inr i))
  | inr (inl e) ↦ absurd (n (ground arith))
  | inr (inr (inl e)) ↦
      let d = round-defer f j v e in
      (ground arith, ground arith, d.1, (v, inl (sym (ap (λ (k : Key). (k, v)) d.0))))
  | inr (inr (inr e)) ↦ absurd (ground arith)
]

-- Where the evaluation of a selector of the schema's form returns some deferred key, that key is
-- just `tagged_with`; then the device's tags were never populated, the selector asks for tags,
-- and the verdict is not `matched`.
pub evaluate-deferred :
    (selector : Selector) (f : Facts) (r : Evaluation)
    → IsWellFormed selector
    → evaluate selector f ≡ returned r
    → r.deferred_keys ≢ []
    → IsDeferral f selector r
evaluate-deferred selector f r w h =
    evaluate_items-deferred f selector r (sym (evaluate_of_well_formed selector f w) ∙ h)
