-- ===== src/Prelude/Chars.antt =====
-- Texts that the program walks: lists of code points. `lower` and `strip` are Python's on ASCII
-- text, which slugs are.
use Prim.Native.Char.{code}
use Prim.Native.Nat.{ℕ, ◌+◌}
use Prim.Native.String.{String}
use mathlib.Core.Bool.{Bool, true, false, ◌&&◌, ◌||◌}
use mathlib.Core.List.{List, [], ◌∷◌, map, reverse}
use mathlib.Core.Logic.{◌↔◌}
use mathlib.Core.Path.{◌≡◌}
use native.Mathlib.Omega.{arith}
use gard.Prelude.Tests.{leb, ◌==◌, if◌then◌else◌}
use gard.Prelude.Lists.{In}

abbrev pub Chars : Type 0
Chars = List ℕ

abbrev pub codes : String → Chars
codes String.[] = []
codes (String.◌∷◌ c s) = code c ∷ codes s

abbrev pub lower_char : ℕ → ℕ
lower_char c = if leb b'A' c && leb c b'Z' then c + 32 else c

-- `s.lower()`
abbrev pub lower : Chars → Chars
lower = map lower_char

abbrev pub is_space : ℕ → Bool
is_space c = (c == 32) || (leb 9 c && leb c 13)

abbrev pub lstrip : Chars → Chars
lstrip [] = []
lstrip (c ∷ cs) = let rest = lstrip cs in if is_space c then rest else c ∷ cs

-- `s.strip()`
abbrev pub strip : Chars → Chars
strip cs = reverse (lstrip (reverse (lstrip cs)))

abbrev pub chars_eq : Chars → Chars → Bool
chars_eq [] [] = true
chars_eq (c ∷ cs) (d ∷ ds) = (c == d) && chars_eq cs ds
chars_eq [] (d ∷ ds) = false
chars_eq (c ∷ cs) [] = false

abbrev pub chars_in : Chars → List Chars → Bool
chars_in x [] = false
chars_in x (y ∷ ys) = chars_eq x y || chars_in x ys

pub chars_eq_iff : (a b : Chars) → (chars_eq a b ≡ true) ↔ (a ≡ b)
chars_eq_iff [] [] = ground arith
chars_eq_iff (c ∷ cs) (d ∷ ds) = ground (arith, chars_eq_iff cs ds)
chars_eq_iff [] (d ∷ ds) = ground arith
chars_eq_iff (c ∷ cs) [] = ground arith

pub chars_in_iff : (x : Chars) (ys : List Chars) → (chars_in x ys ≡ true) ↔ In x ys
chars_in_iff x [] = ((λ e. cc), λ e. absurd e)
chars_in_iff x (y ∷ ys) = (
  λ h. ground (arith, chars_eq_iff x y, (chars_in_iff x ys).0),
  λ h. ground (arith, chars_eq_iff x y, (chars_in_iff x ys).1),
)
