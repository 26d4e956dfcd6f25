-- ===== src/DriftEvaluation/Reasons.antt =====
-- The reasons of a verdict are told apart by their signatures.
use gard.Prelude.{
  ℕ, Option, none, some, str_eq, eq_refl, opt_eq, ◌==◌, ==_self, Bool, true, false, List, [], ◌∷◌,
  ◌++◌, ◌≡◌, refl, map, any_of, any_of-append, arith, Bool-cases, inl, inr, All,
}
use gard.Prelude.Chars.{Chars, chars_eq, chars_eq_iff}
use gard.Envelope.{
  Json, time, null, flag, num, str, strs, slugs, uuid, ids, Reason, ComplianceEnvelope, DriftType,
}
use gard.Same.{list_eq, json_eq, reason_value, reason_same}
use gard.DriftEvaluation.{push, push_all, widen, base_reasons}

-- no element has the signature of one that stands before it
abbrev pub IsDistinct : List Reason → List Reason → Type 0
IsDistinct seen [] = Unit
IsDistinct seen (r ∷ reasons) =
    (any_of (reason_same r) seen ≡ false) × IsDistinct (seen ++ r ∷ []) reasons

IsDistinct-append :
    (seen reasons : List Reason) (r : Reason)
    → IsDistinct seen reasons
    → any_of (reason_same r) (seen ++ reasons) ≡ false
    → IsDistinct seen (reasons ++ r ∷ [])
IsDistinct-append seen [] r d h =
    (ground (arith, rw (any_of-append (reason_same r) seen []) at h), tt)
IsDistinct-append seen (x ∷ reasons) r d h = (
  d.0,
  IsDistinct-append (seen ++ x ∷ []) reasons r d.1 (
      ground (
        arith,
        any_of-append (reason_same r) (seen ++ x ∷ []) reasons,
        any_of-append (reason_same r) seen (x ∷ []),
        any_of-append (reason_same r) seen (x ∷ reasons),
        h,
      )),
)

push-IsDistinct :
    (reasons : List Reason) (r : Reason) → IsDistinct [] reasons → IsDistinct [] (push reasons r)
push-IsDistinct reasons r d = elim (Bool-cases (any_of (reason_same r) reasons)) [
  | inl e ↦ rw e d
  | inr e ↦ rw e (IsDistinct-append [] reasons r d e)
]

push_all-IsDistinct :
    (reasons rest : List Reason) → IsDistinct [] reasons → IsDistinct [] (push_all reasons rest)
unfolding push_all
push_all-IsDistinct reasons [] d = d
push_all-IsDistinct reasons (r ∷ rest) d =
    push_all-IsDistinct (push reasons r) rest (push-IsDistinct reasons r d)

-- a reason with the signature is in the list
abbrev pub Carries : List Reason → Reason → Type 0
Carries reasons r = any_of (reason_same r) reasons ≡ true

list_eq_refl :
    {A : Type 0} (same : A → A → Bool)
    → ((a : A) → same a a ≡ true)
    → (l : List A) → list_eq same l l ≡ true
list_eq_refl same h [] = refl
list_eq_refl same h (a ∷ l) = rw (h a) (list_eq_refl same h l)

chars_eq_refl : (l : Chars) → chars_eq l l ≡ true
chars_eq_refl l = (chars_eq_iff l l).1 refl

json_eq_refl : (j : Json) → json_eq j j ≡ true
json_eq_refl null = refl
json_eq_refl (flag true) = refl
json_eq_refl (flag false) = refl
json_eq_refl (num n) = ==_self n
json_eq_refl (str s) = eq_refl s
json_eq_refl (strs l) = list_eq_refl str_eq eq_refl l
json_eq_refl (slugs l) = list_eq_refl chars_eq chars_eq_refl l
json_eq_refl (uuid n) = ==_self n
json_eq_refl (ids l) = list_eq_refl (λ x y. x == y) ==_self l
json_eq_refl (time n) = ==_self n

opt_eq_refl : (o : Option ℕ) → opt_eq o o ≡ true
opt_eq_refl none = refl
opt_eq_refl (some n) = ==_self n

reason_same_refl : (r : Reason) → reason_same r r ≡ true
reason_same_refl r =
    rw (eq_refl (reason_value r.kind), opt_eq_refl r.ref_id, eq_refl r.detail.template)
      (list_eq_refl json_eq json_eq_refl r.detail.args)

push-Carries : (reasons : List Reason) (r : Reason) → Carries (push reasons r) r
push-Carries reasons r = elim (Bool-cases (any_of (reason_same r) reasons)) [
  | inl e ↦ rw e e
  | inr e ↦
      rw e (ground (arith, any_of-append (reason_same r) reasons (r ∷ []), reason_same_refl r))
]

push-keeps : (reasons : List Reason) (r q : Reason) → Carries reasons q → Carries (push reasons r) q
push-keeps reasons r q h = elim (Bool-cases (any_of (reason_same r) reasons)) [
  | inl e ↦ rw e h
  | inr e ↦ rw e (ground (arith, any_of-append (reason_same q) reasons (r ∷ []), h))
]

push_all-keeps :
    (reasons rest : List Reason) (q : Reason)
    → Carries reasons q
    → Carries (push_all reasons rest) q
unfolding push_all
push_all-keeps reasons [] q h = h
push_all-keeps reasons (r ∷ rest) q h =
    push_all-keeps (push reasons r) rest q (push-keeps reasons r q h)

push_all-Carries : (reasons rest : List Reason) → All (Carries (push_all reasons rest)) rest
unfolding push_all
push_all-Carries reasons [] = tt
push_all-Carries reasons (r ∷ rest) = (
  push_all-keeps (push reasons r) rest r (push-Carries reasons r),
  push_all-Carries (push reasons r) rest,
)

All-mono :
    {P Q : Reason → Type 0} (l : List Reason) → ((r : Reason) → P r → Q r) → All P l → All Q l
All-mono [] f h = tt
All-mono (r ∷ l) f h = (f r h.0, All-mono l f h.1)

-- The stored reasons have pairwise different signatures, and each reason of the firmware verdict
-- and of a fired drift rule has its signature among them.
pub base_reasons-IsDistinct :
    (f2 : ComplianceEnvelope) (drifts : List (DriftType × Reason))
    → IsDistinct [] (base_reasons f2 drifts)
      × All (Carries (base_reasons f2 drifts)) (map widen f2.reasons)
      × All (Carries (base_reasons f2 drifts)) (map (λ d. d.1) drifts)
unfolding base_reasons
base_reasons-IsDistinct f2 drifts =
    let first = map widen f2.reasons in
    let second = map (λ d. d.1) drifts in
    (
      push_all-IsDistinct (push_all [] first) second (push_all-IsDistinct [] first tt),
      All-mono first (λ r h. push_all-keeps (push_all [] first) second r h)
          (push_all-Carries [] first),
      push_all-Carries (push_all [] first) second,
    )
