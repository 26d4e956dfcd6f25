-- ===== src/Prelude/Paging.antt =====
-- Pages of a table: `WHERE id < after ORDER BY id DESC LIMIT limit`, and a client that follows the
-- cursors.
pub mod Cursors
pub mod Walk
use Prim.Native.Nat.{ℕ, zero, suc, ◌≤◌, ◌<◌}
use mathlib.Core.Path.{◌≡◌, refl, sym, ap, subst, ◌∙◌}
use mathlib.Core.Logic.{◌≢◌, inl, inr}
use mathlib.Core.Bool.{Bool, true, false}
use mathlib.Core.List.{List, [], ◌∷◌, ◌++◌, map}
use mathlib.Core.Option.{Option, none, some, some_inj}
use native.Mathlib.Omega.{arith}
use gard.Prelude.Tests.{if◌then◌else◌, Bool-cases, Option-cases, leb, ltb, ◌==◌}
use gard.Prelude.Lists.{All, length, take, filter_by}
use gard.Prelude.Sorting.{
  sort_by, insert_by, IsOrder, IsLeast, IsLeast-trans, IsSortedBy, sort_by-IsSortedBy, sort_by-All,
  length-sort_by, count-sort_by,
}
use gard.Prelude.Tx.{Outcome, returned, raised}

module _ {A : Type 0} (key : A → ℕ) where
  -- `ORDER BY id DESC`
  abbrev pub descending : A → A → Bool
  descending a b = leb (key b) (key a)

  -- `id < after`, where there is a cursor
  abbrev pub below : Option ℕ → A → Bool
  below none a = true
  below (some c) a = ltb (key a) c

  abbrev pub page : ℕ → Option ℕ → List A → List A
  page limit after rows = take limit (sort_by descending (filter_by (below after) rows))

  -- the identifier of the last row
  abbrev pub last_key : List A → Option ℕ
  last_key [] = none
  last_key (x ∷ []) = some (key x)
  last_key (x ∷ y ∷ xs) = last_key (y ∷ xs)

  -- `rows[-1].id if len(rows) == limit else None`
  abbrev pub next_after : ℕ → List A → Option ℕ
  next_after limit rows = if length rows == limit then last_key rows else none

  -- no two rows have one key
  abbrev pub IsKeyed : List A → Type 0
  IsKeyed rows = (k : ℕ) → length (filter_by (λ a. key a == k) rows) ≤ 1

-- `rows[-1]` of no rows
pub data PageError : Type 0 where
  index_error : PageError

module _ {A : Type 0} where
  -- one page with its cursor; a limit of zero asks for the last of no rows
  unfoldable pub list_rows : (A → ℕ) → ℕ → Option ℕ → List A → Outcome PageError (List A × Option ℕ)
  list_rows key zero after rows = raised index_error
  list_rows key (suc n) after rows =
      returned (page key (suc n) after rows, next_after key (suc n) (page key (suc n) after rows))

  -- the page before what its cursor leads to
  abbrev pub after_page : List A → Option (List A) → Option (List A)
  after_page p none = none
  after_page p (some rest) = some (p ++ rest)

  abbrev pub go_to : Outcome PageError (List A × Option ℕ) → (ℕ → Option (List A)) → Option (List A)
  go_to (raised e) f = none
  go_to (returned (p, none)) f = some p
  go_to (returned (p, some c)) f = after_page p (f c)

  -- A client that follows the cursors of a listing: what it has read where it met a page without a
  -- cursor, and nothing where it still has a cursor after so many pages or a page was refused.
  unfoldable pub follow :
      ℕ → (Option ℕ → Outcome PageError (List A × Option ℕ)) → Option ℕ → Option (List A)
  follow zero listing after = none
  follow (suc fuel) listing after = go_to (listing after) λ c. follow fuel listing (some c)

module _ {A B : Type 0} (f : A → B) where
  -- a listing that computes something of each row
  abbrev pub map_rows :
      Outcome PageError (List A × Option ℕ) → Outcome PageError (List B × Option ℕ)
  map_rows (raised e) = raised e
  map_rows (returned (rows, next)) = returned (map f rows, next)
