-- ===== src/Prelude/Rows.antt =====
-- Tables as lists of rows with a numeric primary key: `session.get`, and `UPDATE … WHERE id = …`.
use gard.Prelude.Tests.{◌==◌, if◌then◌else◌, is_some, Bool-cases}
use gard.Prelude.Lists.{In}
use mathlib.Core.Logic.{inl, inr}
use Prim.Native.Nat.{ℕ}
use mathlib.Core.Path.{refl, ◌≡◌}
use mathlib.Core.List.{List, [], ◌∷◌, ◌++◌}
use mathlib.Core.Option.{Option, none, some}
use native.Mathlib.Omega.{arith}

module _ {ℓ} {A : Type ℓ} where
  -- `session.get(Row, id)`
  unfoldable pub find_row : (A → ℕ) → ℕ → List A → Option A
  find_row key i [] = none
  find_row key i (r ∷ rs) = if key r == i then some r else find_row key i rs

  -- `UPDATE … SET f WHERE id = i`
  unfoldable pub update_row : (A → ℕ) → ℕ → (A → A) → List A → List A
  update_row key i f [] = []
  update_row key i f (r ∷ rs) = (if key r == i then f r else r) ∷ update_row key i f rs

  abbrev pub map_option : (A → A) → Option A → Option A
  map_option f none = none
  map_option f (some r) = some (f r)

  module _ (key : A → ℕ) where
    -- Reading after a write of one row, where the write keeps the key.
    pub find_row-update_row :
        (i j : ℕ) (f : A → A)
        → ((r : A) → key (f r) ≡ key r)
        → (rs : List A)
        → find_row key j (update_row key i f rs)
          ≡ (if j == i then map_option f (find_row key j rs) else find_row key j rs)
    unfolding find_row update_row
    find_row-update_row i j f keep [] = ground arith
    find_row-update_row i j f keep (r ∷ rs) =
        ground (arith, keep r, find_row-update_row i j f keep rs)

    -- What `session.get` returns has the key that was asked for.
    pub find_row-key : (i : ℕ) (rs : List A) (r : A) → find_row key i rs ≡ some r → key r ≡ i
    unfolding find_row
    find_row-key i [] r h = ground arith
    find_row-key i (x ∷ rs) r h = ground (arith, find_row-key i rs r)

    -- A row added at the end is found where no other row has its key.
    pub find_row-append :
        (i : ℕ) (rs : List A) (x : A)
        → find_row key i (rs ++ x ∷ []) ≡ (
            if is_some (find_row key i rs)
            then find_row key i rs
            else if key x == i
            then some x
            else none)
    unfolding find_row
    find_row-append i [] x = refl
    find_row-append i (r ∷ rs) x = ground (arith, find_row-append i rs x)

-- A row that `session.get` returns is a row of the table.
pub find_row-In :
    {A : Type 0} (key : A → ℕ) (i : ℕ) (rs : List A) (r : A) → find_row key i rs ≡ some r → In r rs
unfolding find_row
find_row-In key i [] r h = absurd (cc h)
find_row-In key i (x ∷ rs) r h = elim (Bool-cases (key x == i)) [
  | inl e ↦ inl (cc (rw e at h))
  | inr e ↦ inr (find_row-In key i rs r (rw e at h))
]
