-- ===== src/Prelude/Tests.antt =====
-- Boolean tests on the native numbers, the conditional, and Python's `is None` and `==` on
-- optional texts.
use Prim.Native.Nat.{◌≤◌, ℕ, compare, Ordering}
use Prim.Native.String.{String}
use mathlib.Core.Path.{◌≡◌, refl, sym}
use mathlib.Core.Logic.{◌↔◌, ◌⊎◌, inl, inr}
use mathlib.Core.Bool.{Bool, true, false, ◌&&◌}
use mathlib.Core.Option.{Option, none, some}
use native.Mathlib.Omega.{arith}
use text.Mathlib.Text.{◌==◌ as str_eq}
use text.Mathlib.TextEquality.{eq_iff}

abbrev pub ltb : ℕ → ℕ → Bool
ltb a b = elim (compare a b) [ Ordering.lt ↦ true | _ ↦ false ]

abbrev pub leb : ℕ → ℕ → Bool
leb a b = elim (compare a b) [ Ordering.gt ↦ false | _ ↦ true ]

infix 50 ◌==◌
abbrev pub ◌==◌ : ℕ → ℕ → Bool
a == b = elim (compare a b) [ Ordering.eq ↦ true | _ ↦ false ]

infix 1 if◌then◌else◌
abbrev pub if◌then◌else◌ {ℓ} : {A : Type ℓ} → Bool → A → A → A
if true then x else y = x
if false then x else y = y

pub ==_iff : (a b : ℕ) → ((a == b) ≡ true) ↔ (a ≡ b)
==_iff a b = ground arith

pub ==_self : (a : ℕ) → (a == a) ≡ true
==_self a = ground arith

-- To split on a computed value and keep the equation.
pub Bool-cases : (b : Bool) → (b ≡ true) ⊎ (b ≡ false)
Bool-cases true = inl refl
Bool-cases false = inr refl

pub Bool-eq_of_iff : (a b : Bool) → (a ≡ true) ↔ (b ≡ true) → a ≡ b
Bool-eq_of_iff true b e = sym (e.0 refl)
Bool-eq_of_iff false true e = e.1 refl
Bool-eq_of_iff false false e = refl

pub Option-cases {ℓ} : {A : Type ℓ} (o : Option A) → (o ≡ none) ⊎ ((a : A) × (o ≡ some a))
Option-cases none = inl refl
Option-cases (some a) = inr (a, refl)

module _ {ℓ} {A : Type ℓ} where
  -- `x is None`
  abbrev pub is_none : Option A → Bool
  is_none none = true
  is_none (some a) = false

  -- `x is not None`
  abbrev pub is_some : Option A → Bool
  is_some none = false
  is_some (some a) = true

-- `==` on values that may be `None`
abbrev pub opt_str_eq : Option String → Option String → Bool
opt_str_eq none none = true
opt_str_eq (some a) (some b) = str_eq a b
opt_str_eq none (some b) = false
opt_str_eq (some a) none = false

abbrev pub opt_eq : Option ℕ → Option ℕ → Bool
opt_eq none none = true
opt_eq (some a) (some b) = a == b
opt_eq none (some b) = false
opt_eq (some a) none = false

-- `length(text) BETWEEN low AND high`: the length in characters
abbrev pub fits : ℕ → ℕ → String → Bool
fits low high text =
    leb low (Prim.Native.String.count text) && leb (Prim.Native.String.count text) high

abbrev pub Fits : ℕ → ℕ → String → Type 0
Fits low high text = (low ≤ Prim.Native.String.count text) × (Prim.Native.String.count text ≤ high)

pub fits_iff : (low high : ℕ) (text : String) → (fits low high text ≡ true) ↔ Fits low high text
fits_iff low high text = ground arith

pub opt_eq_iff : (a b : Option ℕ) → (opt_eq a b ≡ true) ↔ (a ≡ b)
opt_eq_iff none none = ground arith
opt_eq_iff none (some b) = ground arith
opt_eq_iff (some a) none = ground arith
opt_eq_iff (some a) (some b) = ground (arith, ==_iff a b)

pub opt_str_eq_iff : (a b : Option String) → (opt_str_eq a b ≡ true) ↔ (a ≡ b)
opt_str_eq_iff none none = ground arith
opt_str_eq_iff none (some b) = ground arith
opt_str_eq_iff (some a) none = ground arith
opt_str_eq_iff (some a) (some b) = ground (arith, eq_iff a b)

-- `a < b` on texts: by code points
abbrev pub str_ltb : String → String → Bool
str_ltb a b = elim (Prim.Native.String.compare a b) [ Ordering.lt ↦ true | _ ↦ false ]
