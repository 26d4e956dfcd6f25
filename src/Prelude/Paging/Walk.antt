-- ===== src/Prelude/Paging/Walk.antt =====
-- A client that follows the cursors reads everything.
use Prim.Native.Nat.{ℕ, zero, suc, ◌<◌}
use mathlib.Core.Path.{◌≡◌, refl, sym, ap, ◌∙◌}
use mathlib.Core.Logic.{inl, inr}
use mathlib.Core.List.{List, [], ◌∷◌, ◌++◌, map}
use mathlib.Core.Option.{Option, none, some}
use native.Mathlib.Omega.{arith}
use gard.Prelude.Tests.{Bool-cases, ◌==◌}
use gard.Prelude.Lists.{length, take, filter_by}
use gard.Prelude.Sorting.{sort_by, length-sort_by}
use gard.Prelude.Tx.{Outcome, returned, raised}
use gard.Prelude.Paging.{
  descending, below, page, next_after, IsKeyed, PageError, list_rows, after_page, go_to, follow,
  map_rows,
}
use gard.Prelude.Paging.Cursors.{
  cut, take_all, full_page, remaining, remaining-IsStrict, rest-remaining,
}

module _ {A : Type 0} (key : A → ℕ) where
  abbrev pub go_on : List A → Option ℕ → (ℕ → Option (List A)) → Option (List A)
  go_on p none f = some p
  go_on p (some c) f = after_page p (f c)

  -- the pages that a client reads, one after the other, until there is no cursor
  unfoldable pub walk_pages : ℕ → ℕ → Option ℕ → List A → Option (List A)
  walk_pages zero limit after rows = none
  walk_pages (suc fuel) limit after rows =
      go_on (page key limit after rows) (next_after key limit (page key limit after rows))
        λ c. walk_pages fuel limit (some c) rows

  -- Enough fuel reads everything that is left.
  pub walk_pages-remaining :
      (fuel n : ℕ) (after : Option ℕ) (rows : List A)
      → IsKeyed key rows
      → length (remaining key after rows) < fuel
      → walk_pages fuel (suc n) after rows ≡ some (remaining key after rows)
  unfolding walk_pages
  walk_pages-remaining zero n after rows k h = absurd (omega arith)
  walk_pages-remaining (suc fuel) n after rows k h =
      elim (Bool-cases (length (take (suc n) (remaining key after rows)) == suc n)) [
        | inr e ↦
            let stops : next_after key (suc n) (page key (suc n) after rows) ≡ none = rw e refl in
            ap
              (λ o.
                go_on (page key (suc n) after rows) o λ c. walk_pages fuel (suc n) (some c) rows)
              stops
            ∙ ap (λ l. some l)
                (take_all key (suc n) (remaining key after rows) λ full. ground (arith, full, e))
        | inl e ↦
            let (c, last) = full_page key n (remaining key after rows) (ground (arith, e)) in
            let (split, shorter) =
              cut key n c (remaining key after rows) (remaining-IsStrict key after rows k) last in
            let rest = rest-remaining key n c after rows last in
            let left : length (remaining key (some c) rows) < fuel =
              omega (arith, ap (λ l. length l) rest, shorter, h) in
            let goes_on : next_after key (suc n) (page key (suc n) after rows) ≡ some c =
              rw e last in
            ap
              (λ o.
                go_on (page key (suc n) after rows) o λ c. walk_pages fuel (suc n) (some c) rows)
              goes_on
            ∙ ap (after_page (page key (suc n) after rows))
                (walk_pages-remaining fuel n (some c) rows k left)
            ∙ ap (λ l. some l) (ap (λ l. page key (suc n) after rows ++ l) (sym rest) ∙ sym split)
      ]

module _ {A : Type 0} where
  go_on-go_to :
      (p : List A) (o : Option ℕ) (f : ℕ → Option (List A)) (key : A → ℕ)
      → go_to (returned (p, o)) f ≡ go_on key p o f
  go_on-go_to p none f key = refl
  go_on-go_to p (some c) f key = refl

  follow-walk_pages :
      (key : A → ℕ) (fuel n : ℕ) (after : Option ℕ) (rows : List A)
      → follow fuel (λ a. list_rows key (suc n) a rows) after
        ≡ walk_pages key fuel (suc n) after rows
  unfolding follow walk_pages list_rows
  follow-walk_pages key zero n after rows = refl
  follow-walk_pages key (suc fuel) n after rows =
      go_on-go_to (page key (suc n) after rows)
        (next_after key (suc n) (page key (suc n) after rows))
        (λ c. follow fuel (λ a. list_rows key (suc n) a rows) (some c)) key
      ∙ ap
          (go_on key (page key (suc n) after rows)
            (next_after key (suc n) (page key (suc n) after rows)))
          (λ i c. follow-walk_pages key fuel n (some c) rows i)

  sort_all : (key : A → ℕ) (rows : List A) → remaining key none rows ≡ sort_by (descending key) rows
  sort_all key rows = ap (sort_by (descending key)) (filter_by_all rows)
    where
      filter_by_all : (xs : List A) → filter_by (below key none) xs ≡ xs
      filter_by_all [] = refl
      filter_by_all (x ∷ xs) = ap (λ l. x ∷ l) (filter_by_all xs)

  -- A client that follows the cursors reads every row once, the latest first, and stops.
  pub follow-list_rows :
      (key : A → ℕ) (fuel n : ℕ) (rows : List A)
      → IsKeyed key rows
      → length rows < fuel
      → follow fuel (λ a. list_rows key (suc n) a rows) none ≡ some (sort_by (descending key) rows)
  follow-list_rows key fuel n rows k h =
      follow-walk_pages key fuel n none rows
      ∙ walk_pages-remaining key fuel n none rows k (
          omega (
            arith,
            ap (λ l. length l) (sort_all key rows),
            length-sort_by (descending key) rows,
            h,
          ))
      ∙ ap (λ l. some l) (sort_all key rows)

module _ {A B : Type 0} (f : A → B) where
  map-append : (xs ys : List A) → map f (xs ++ ys) ≡ map f xs ++ map f ys
  map-append [] ys = refl
  map-append (x ∷ xs) ys = ap (λ l. f x ∷ l) (map-append xs ys)

  abbrev pub map_read : Option (List A) → Option (List B)
  map_read none = none
  map_read (some l) = some (map f l)

  after_page-map_read :
      (p : List A) (o : Option (List A))
      → after_page (map f p) (map_read o) ≡ map_read (after_page p o)
  after_page-map_read p none = refl
  after_page-map_read p (some l) = ap (λ x. some x) (sym (map-append p l))

  go_to-map_rows :
      (o : Outcome PageError (List A × Option ℕ)) (g : ℕ → Option (List A))
      (h : ℕ → Option (List B))
      → ((c : ℕ) → h c ≡ map_read (g c))
      → go_to (map_rows f o) h ≡ map_read (go_to o g)
  go_to-map_rows (raised e) g h same = refl
  go_to-map_rows (returned (p, none)) g h same = refl
  go_to-map_rows (returned (p, some c)) g h same =
      ap (after_page (map f p)) (same c) ∙ after_page-map_read p (g c)

  pub follow-map_rows :
      (fuel : ℕ) (listing : Option ℕ → Outcome PageError (List A × Option ℕ)) (after : Option ℕ)
      → follow fuel (λ a. map_rows f (listing a)) after ≡ map_read (follow fuel listing after)
  unfolding follow
  follow-map_rows zero listing after = refl
  follow-map_rows (suc fuel) listing after =
      go_to-map_rows (listing after) (λ c. follow fuel listing (some c))
        (λ c. follow fuel (λ a. map_rows f (listing a)) (some c))
        λ c. follow-map_rows fuel listing (some c)
