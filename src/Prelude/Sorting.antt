-- ===== src/Prelude/Sorting.antt =====
-- Python's `sorted(xs, key=…)`: a stable sort, here by insertion, over a Boolean order.
use Prim.Native.Nat.{ℕ}
use mathlib.Core.Path.{◌≡◌, refl, subst}
use mathlib.Core.Logic.{inl, inr}
use mathlib.Core.Bool.{Bool, true, false}
use mathlib.Core.List.{List, [], ◌∷◌, Perm}
use mathlib.Core.List.Perm
use native.Mathlib.Omega.{arith}
use gard.Prelude.Tests.{if◌then◌else◌, Bool-cases, leb}
use gard.Prelude.Lists.{All, length, first, filter_by, any_of}
use mathlib.Core.Option.{some, some_inj}

module _ {ℓ} {A : Type ℓ} where
  -- before the first element that is not smaller, so equal keys keep their order
  unfoldable pub insert_by : (A → A → Bool) → A → List A → List A
  insert_by le x [] = x ∷ []
  insert_by le x (y ∷ ys) = if le x y then x ∷ y ∷ ys else y ∷ insert_by le x ys

  unfoldable pub sort_by : (A → A → Bool) → List A → List A
  unfolding insert_by
  sort_by le [] = []
  sort_by le (x ∷ xs) = insert_by le x (sort_by le xs)

  -- `x` is not above any element of the list
  abbrev pub IsLeast : (A → A → Bool) → A → List A → Type 0
  IsLeast le x ys = All (λ y. le x y ≡ true) ys

  -- every element is not above any that follows it
  abbrev pub IsSortedBy : (A → A → Bool) → List A → Type 0
  IsSortedBy le [] = Unit
  IsSortedBy le (x ∷ xs) = IsLeast le x xs × IsSortedBy le xs

-- A total preorder, which is what the comparison of keys is.
pub record IsOrder {ℓ} {A : Type ℓ} (le : A → A → Bool) : Type ℓ where
  pub total : (a b : A) → le a b ≡ false → le b a ≡ true
  pub trans : (a b c : A) → le a b ≡ true → le b c ≡ true → le a c ≡ true

module _ {ℓ} {A : Type ℓ} (le : A → A → Bool) where
  insert_by-perm : (x : A) (ys : List A) → Perm (insert_by le x ys) (x ∷ ys)
  unfolding insert_by
  insert_by-perm x [] = Perm.refl (x ∷ [])
  insert_by-perm x (y ∷ ys) = elim (Bool-cases (le x y)) [
    | inl h ↦ rw h (Perm.refl (x ∷ y ∷ ys))
    | inr h ↦ rw h (Perm.trans (Perm.cons y (insert_by-perm x ys)) (Perm.swap x y ys))
  ]

  -- Sorting loses and invents nothing.
  pub sort_by-perm : (xs : List A) → Perm (sort_by le xs) xs
  unfolding sort_by
  sort_by-perm [] = Perm.refl []
  sort_by-perm (x ∷ xs) =
      Perm.trans (insert_by-perm x (sort_by le xs)) (Perm.cons x (sort_by-perm xs))

  length-insert_by : (x : A) (ys : List A) → length (insert_by le x ys) ≡ length (x ∷ ys)
  unfolding insert_by
  length-insert_by x [] = refl
  length-insert_by x (y ∷ ys) = ground (arith, length-insert_by x ys)

  pub length-sort_by : (xs : List A) → length (sort_by le xs) ≡ length xs
  unfolding sort_by
  length-sort_by [] = refl
  length-sort_by (x ∷ xs) = ground (arith, length-insert_by x (sort_by le xs), length-sort_by xs)

  module _ {κ} (P : A → Type κ) where
    insert_by-All : (x : A) (ys : List A) → P x → All P ys → All P (insert_by le x ys)
    unfolding insert_by
    insert_by-All x [] px h = (px, tt)
    insert_by-All x (y ∷ ys) px h = elim (Bool-cases (le x y)) [
      | inl e ↦ rw e (px, h)
      | inr e ↦ rw e (h.0, insert_by-All x ys px h.1)
    ]

    -- What holds of every element holds of every element of the sorted list.
    pub sort_by-All : (xs : List A) → All P xs → All P (sort_by le xs)
    unfolding sort_by
    sort_by-All [] h = tt
    sort_by-All (x ∷ xs) h = insert_by-All x (sort_by le xs) h.0 (sort_by-All xs h.1)

  module _ (o : IsOrder le) where
    pub IsLeast-trans : (x y : A) (ys : List A) → le x y ≡ true → IsLeast le y ys → IsLeast le x ys
    IsLeast-trans x y [] h l = tt
    IsLeast-trans x y (z ∷ ys) h l = (o.trans x y z h l.0, IsLeast-trans x y ys h l.1)

    insert_by-IsSortedBy :
        (x : A) (ys : List A) → IsSortedBy le ys → IsSortedBy le (insert_by le x ys)
    unfolding insert_by
    insert_by-IsSortedBy x [] h = (tt, tt)
    insert_by-IsSortedBy x (y ∷ ys) h = elim (Bool-cases (le x y)) [
      | inl e ↦ rw e ((e, IsLeast-trans x y ys e h.0), h)
      | inr e ↦ rw e (
        insert_by-All (λ z. le y z ≡ true) x ys (o.total x y e) h.0,
        insert_by-IsSortedBy x ys h.1,
      )
    ]

    -- The result is in order.
    pub sort_by-IsSortedBy : (xs : List A) → IsSortedBy le (sort_by le xs)
    unfolding sort_by
    sort_by-IsSortedBy [] = tt
    sort_by-IsSortedBy (x ∷ xs) = insert_by-IsSortedBy x (sort_by le xs) (sort_by-IsSortedBy xs)

-- Comparison of numeric keys.
abbrev pub by_key {ℓ} : {A : Type ℓ} → (A → ℕ) → A → A → Bool
by_key key a b = leb (key a) (key b)

pub by_key-IsOrder {ℓ} : {A : Type ℓ} (key : A → ℕ) → IsOrder (by_key key)
by_key-IsOrder key = record { total = λ a b h. ground arith; trans = λ a b c h k. ground arith }

module _ {ℓ κ} {A : Type ℓ} (le : A → A → Bool) (P : A → Type κ) where
  All-insert_by : (x : A) (ys : List A) → All P (insert_by le x ys) → P x × All P ys
  unfolding insert_by
  All-insert_by x [] h = h
  All-insert_by x (y ∷ ys) h = elim (Bool-cases (le x y)) [
    | inl e ↦ let k = rw e at h in (k.0, k.1)
    | inr e ↦ let k = rw e at h in let (px, rest) = All-insert_by x ys k.1 in (px, (k.0, rest))
  ]

  -- What holds of every element of the sorted list holds of every element.
  pub All-sort_by : (xs : List A) → All P (sort_by le xs) → All P xs
  unfolding sort_by
  All-sort_by [] h = tt
  All-sort_by (x ∷ xs) h =
      let (px, rest) = All-insert_by x (sort_by le xs) h in (px, All-sort_by xs rest)

-- The first of the sorted list is not above any element.
pub first-sort_by-IsLeast :
    {A : Type 0} (le : A → A → Bool)
    → IsOrder le
    → (xs : List A) (b : A) → first (sort_by le xs) ≡ some b
    → IsLeast le b xs
first-sort_by-IsLeast le o xs b h =
    All-sort_by le (λ y. le b y ≡ true) xs
      (head_least (sort_by le xs) h (sort_by-IsSortedBy le o xs))
  where
    le_refl : (x : _) → le x x ≡ true
    le_refl x = elim (Bool-cases (le x x)) [ inl e ↦ e | inr e ↦ o.total x x e ]

    head_least : (ys : List _) → first ys ≡ some b → IsSortedBy le ys → IsLeast le b ys
    head_least [] e s = tt
    head_least (y ∷ ys) e s = subst (λ z. IsLeast le z (y ∷ ys)) (some_inj.0 e) (le_refl y, s.0)

-- What holds of every element holds of the first of the sorted list.
pub first-sort_by-All :
    {A : Type 0} (le : A → A → Bool) (P : A → Type 0) (xs : List A) (b : A)
    → All P xs
    → first (sort_by le xs) ≡ some b
    → P b
first-sort_by-All le P xs b h e = head_has (sort_by le xs) (sort_by-All le P xs h) e
  where
    head_has : (ys : List _) → All P ys → first ys ≡ some b → P b
    head_has [] k i = absurd (cc i)
    head_has (y ∷ ys) k i = subst P (some_inj.0 i) k.0

module _ {ℓ} {A : Type ℓ} (le : A → A → Bool) (p : A → Bool) where
  count-insert_by :
      (x : A) (ys : List A)
      → length (filter_by p (insert_by le x ys)) ≡ length (filter_by p (x ∷ ys))
  unfolding insert_by
  count-insert_by x [] = refl
  count-insert_by x (y ∷ ys) = ground (arith, count-insert_by x ys)

  -- Sorting keeps how many elements pass a test.
  pub count-sort_by : (xs : List A) → length (filter_by p (sort_by le xs)) ≡ length (filter_by p xs)
  unfolding sort_by
  count-sort_by [] = refl
  count-sort_by (x ∷ xs) = ground (arith, count-insert_by x (sort_by le xs), count-sort_by xs)

  any_of-insert_by : (x : A) (ys : List A) → any_of p (insert_by le x ys) ≡ any_of p (x ∷ ys)
  unfolding insert_by
  any_of-insert_by x [] = refl
  any_of-insert_by x (y ∷ ys) = ground (arith, any_of-insert_by x ys)

  -- Sorting keeps whether some element passes a test.
  pub any_of-sort_by : (xs : List A) → any_of p (sort_by le xs) ≡ any_of p xs
  unfolding sort_by
  any_of-sort_by [] = refl
  any_of-sort_by (x ∷ xs) = ground (arith, any_of-insert_by x (sort_by le xs), any_of-sort_by xs)
