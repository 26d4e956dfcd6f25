-- ===== src/Prelude/Paging/Cursors.antt =====
-- What a cursor cuts off, and what is left below it.
use Prim.Native.Nat.{ℕ, zero, suc, ◌≤◌, ◌<◌}
use mathlib.Core.Path.{◌≡◌, refl, sym, ap, subst, ◌∙◌}
use mathlib.Core.Logic.{◌≢◌, inl, inr}
use mathlib.Core.Bool.{Bool, true, false}
use mathlib.Core.List.{List, [], ◌∷◌, ◌++◌}
use mathlib.Core.Option.{Option, none, some, some_inj}
use native.Mathlib.Omega.{arith}
use gard.Prelude.Tests.{if◌then◌else◌, Bool-cases, ltb, ◌==◌}
use gard.Prelude.Lists.{All, length, take, filter_by}
use gard.Prelude.Sorting.{
  sort_by, insert_by, IsOrder, IsLeast, IsLeast-trans, IsSortedBy, sort_by-IsSortedBy, sort_by-All,
  count-sort_by,
}
use gard.Prelude.Paging.{descending, below, last_key, IsKeyed}

module _ {A : Type 0} (le : A → A → Bool) (o : IsOrder le) (p : A → Bool) where
  insert_by-least : (x : A) (ys : List A) → IsLeast le x ys → insert_by le x ys ≡ x ∷ ys
  unfolding insert_by
  insert_by-least x [] h = refl
  insert_by-least x (y ∷ ys) h = rw h.0 refl

  filter_by-IsLeast : (x : A) (ys : List A) → IsLeast le x ys → IsLeast le x (filter_by p ys)
  filter_by-IsLeast x [] h = tt
  filter_by-IsLeast x (y ∷ ys) h = elim (Bool-cases (p y)) [
    | inl e ↦ rw e (h.0, filter_by-IsLeast x ys h.1)
    | inr e ↦ rw e (filter_by-IsLeast x ys h.1)
  ]

  filter_by-insert_by :
      (x : A) (ys : List A)
      → IsSortedBy le ys
      → filter_by p (insert_by le x ys)
        ≡ (if p x then insert_by le x (filter_by p ys) else filter_by p ys)
  unfolding insert_by
  filter_by-insert_by x [] h = ground arith
  filter_by-insert_by x (y ∷ ys) h = elim (Bool-cases (le x y)) [
    | inl e ↦
        let least =
          insert_by-least x (filter_by p (y ∷ ys))
            (filter_by-IsLeast x (y ∷ ys) (e, IsLeast-trans le o x y ys e h.0)) in
        elim (Bool-cases (p x)) [ inl k ↦ rw (e, k) (sym least) | inr k ↦ rw (e, k) refl ]
    | inr e ↦ ground (arith, filter_by-insert_by x ys h.1)
  ]

  -- Filtering and sorting commute.
  pub filter_by-sort_by : (xs : List A) → filter_by p (sort_by le xs) ≡ sort_by le (filter_by p xs)
  unfolding sort_by
  filter_by-sort_by [] = refl
  filter_by-sort_by (x ∷ xs) =
      filter_by-insert_by x (sort_by le xs) (sort_by-IsSortedBy le o xs)
      ∙ rw (filter_by-sort_by xs)
          (elim (Bool-cases (p x)) [ inl k ↦ rw k refl | inr k ↦ rw k refl ])

filter_by-filter_by :
    {A : Type 0} (p q : A → Bool) (xs : List A)
    → ((a : A) → p a ≡ true → q a ≡ true)
    → filter_by p (filter_by q xs) ≡ filter_by p xs
filter_by-filter_by p q [] h = refl
filter_by-filter_by p q (x ∷ xs) h = ground (arith, filter_by-filter_by p q xs h, h x)

module _ {A : Type 0} (key : A → ℕ) where
  -- every key is above those that follow it
  abbrev pub IsStrict : List A → Type 0
  IsStrict [] = Unit
  IsStrict (x ∷ xs) = All (λ y. key y < key x) xs × IsStrict xs

  descending-IsOrder : IsOrder (descending key)
  descending-IsOrder = record { total = λ a b h. ground arith; trans = λ a b c h k. ground arith }

  above_every :
      (x : A) (xs : List A)
      → IsLeast (descending key) x xs
      → length (filter_by (λ a. key a == key x) xs) ≡ 0
      → All (λ y. key y < key x) xs
  above_every x [] l h = tt
  above_every x (y ∷ ys) l h = elim (Bool-cases (key y == key x)) [
    | inl e ↦ absurd (ground (arith, rw e at h))
    | inr e ↦ (ground (arith, e, l.0), above_every x ys l.1 (rw e at h))
  ]

  IsStrict-of_sorted : (xs : List A) → IsSortedBy (descending key) xs → IsKeyed key xs → IsStrict xs
  IsStrict-of_sorted [] s k = tt
  IsStrict-of_sorted (x ∷ xs) s k = (
    above_every x xs s.0 (ground (arith, k (key x))),
    IsStrict-of_sorted xs s.1 (λ j. ground (arith, k j)),
  )

  -- the keys are all above the last one or equal to it
  last_key-below :
      (k c : ℕ) (xs : List A) → All (λ y. key y < k) xs → last_key key xs ≡ some c → c < k
  last_key-below k c [] h e = absurd (cc e)
  last_key-below k c (x ∷ []) h e = ground (arith, some_inj.0 e, h.0)
  last_key-below k c (x ∷ y ∷ xs) h e = last_key-below k c (y ∷ xs) h.1 e

  All-take : (k n : ℕ) (xs : List A) → All (λ y. key y < k) xs → All (λ y. key y < k) (take n xs)
  All-take k zero xs h = tt
  All-take k (suc n) [] h = tt
  All-take k (suc n) (x ∷ xs) h = (h.0, All-take k n xs h.1)

  keeps_below :
      (k : ℕ) (xs : List A) → All (λ y. key y < k) xs → filter_by (below key (some k)) xs ≡ xs
  keeps_below k [] h = refl
  keeps_below k (x ∷ xs) h = ground (arith, keeps_below k xs h.1, h.0)

  -- A full page and the rows below key its last key are all rows.
  pub cut :
      (n c : ℕ) (xs : List A)
      → IsStrict xs
      → last_key key (take (suc n) xs) ≡ some c
      → (xs ≡ take (suc n) xs ++ filter_by (below key (some c)) xs)
        × (length (filter_by (below key (some c)) xs) < length xs)
  cut n c [] s e = absurd (cc e)
  cut zero c (x ∷ xs) s e =
      let last : key x ≡ c = some_inj.0 e in
      let off : ltb (key x) c ≡ false = ground (arith, last) in
      let rest : filter_by (below key (some c)) xs ≡ xs =
        subst (λ k. filter_by (below key (some k)) xs ≡ xs) last (keeps_below (key x) xs s.0) in
      rw (off, rest) (refl, omega arith)
  cut (suc n) c (x ∷ []) s e =
      let last : key x ≡ c = some_inj.0 e in
      let off : ltb (key x) c ≡ false = ground (arith, last) in rw off (refl, omega arith)
  cut (suc n) c (x ∷ y ∷ xs) s e =
      let under =
        last_key-below (key x) c (take (suc n) (y ∷ xs)) (All-take (key x) (suc n) (y ∷ xs) s.0)
          e in
      let off : ltb (key x) c ≡ false = ground (arith, under) in
      let (split, shorter) = cut n c (y ∷ xs) s.1 e in
      subst
        (λ b.
          (x ∷ y ∷ xs
            ≡ x
              ∷ (take (suc n) (y ∷ xs)
                  ++ (if b
                      then x ∷ filter_by (below key (some c)) (y ∷ xs)
                      else filter_by (below key (some c)) (y ∷ xs))))
          × (length (
                if b
                then x ∷ filter_by (below key (some c)) (y ∷ xs)
                else filter_by (below key (some c)) (y ∷ xs))
              < suc (length (y ∷ xs))))
        (sym off) (ap (λ l. x ∷ l) split, omega (arith, shorter))

  pub take_all : (n : ℕ) (xs : List A) → length (take n xs) ≢ n → take n xs ≡ xs
  take_all zero xs h = absurd (h refl)
  take_all (suc n) [] h = refl
  take_all (suc n) (x ∷ xs) h = ap (λ l. x ∷ l) (take_all n xs λ e. h (ground (arith, e)))

  pub full_page :
      (n : ℕ) (xs : List A)
      → length (take (suc n) xs) ≡ suc n
      → (c : ℕ) × (last_key key (take (suc n) xs) ≡ some c)
  full_page n [] h = absurd (ground (arith, h))
  full_page zero (x ∷ xs) h = (key x, refl)
  full_page (suc n) (x ∷ []) h = absurd (ground (arith, h))
  full_page (suc n) (x ∷ y ∷ xs) h = full_page n (y ∷ xs) (omega (arith, h))

  filter_le :
      (p q : A → Bool) (xs : List A)
      → length (filter_by p (filter_by q xs)) ≤ length (filter_by p xs)
  filter_le p q [] = omega arith
  filter_le p q (x ∷ xs) = ground (arith, filter_le p q xs)

  -- what is left to read from a cursor on
  abbrev pub remaining : Option ℕ → List A → List A
  remaining after rows = sort_by (descending key) (filter_by (below key after) rows)

  pub remaining-IsStrict :
      (after : Option ℕ) (rows : List A) → IsKeyed key rows → IsStrict (remaining after rows)
  remaining-IsStrict after rows k =
      IsStrict-of_sorted (remaining after rows)
        (sort_by-IsSortedBy (descending key) descending-IsOrder (filter_by (below key after) rows))
        λ j.
          rw (count-sort_by (descending key) (λ a. key a == j) (filter_by (below key after) rows))
            (omega (arith, filter_le (λ a. key a == j) (below key after) rows, k j))

  kept_below : (c : ℕ) (xs : List A) → All (λ y. key y < c) (filter_by (below key (some c)) xs)
  kept_below c [] = tt
  kept_below c (x ∷ xs) = elim (Bool-cases (ltb (key x) c)) [
    | inl e ↦ rw e (ground (arith, e), kept_below c xs)
    | inr e ↦ rw e (kept_below c xs)
  ]

  -- The next cursor lies below key the one before.
  narrows :
      (n c : ℕ) (after : Option ℕ) (rows : List A)
      → last_key key (take (suc n) (remaining after rows)) ≡ some c
      → (a : A) → below key (some c) a ≡ true
      → below key after a ≡ true
  narrows n c none rows e a h = refl
  narrows n c (some d) rows e a h =
      let under =
        last_key-below d c (take (suc n) (remaining (some d) rows))
          (All-take d (suc n) (remaining (some d) rows) (
            sort_by-All (descending key) (λ y. key y < d) (filter_by (below key (some d)) rows)
              (kept_below d rows)))
          e in
      ground (arith, under, h)

  pub rest-remaining :
      (n c : ℕ) (after : Option ℕ) (rows : List A)
      → last_key key (take (suc n) (remaining after rows)) ≡ some c
      → filter_by (below key (some c)) (remaining after rows) ≡ remaining (some c) rows
  rest-remaining n c after rows e =
      filter_by-sort_by (descending key) descending-IsOrder (below key (some c))
        (filter_by (below key after) rows)
      ∙ ap (sort_by (descending key)) (
          filter_by-filter_by (below key (some c)) (below key after) rows
            (narrows n c after rows e))

  -- what is left of a keyed table after a `WHERE` is keyed
  pub filter_by-IsKeyed :
      (p : A → Bool) (rows : List A) → IsKeyed key rows → IsKeyed key (filter_by p rows)
  filter_by-IsKeyed p rows h k = omega (arith, filter_le (λ a. key a == k) p rows, h k)
