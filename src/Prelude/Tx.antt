-- ===== src/Prelude/Tx.antt =====
-- Controller code: it reads and writes the database, and returns or raises. What was written
-- before a raise stays written, so the database comes back beside the error too.
use mathlib.Core.Path.{◌≡◌, refl}
use mathlib.Core.Logic.{◌⊎◌, inl, inr}
use mathlib.Core.Bool.{Bool, true, false}
use mathlib.Core.Option.{Option, none, some}

pub data Outcome {ℓ} (E A : Type ℓ) : Type ℓ where
  returned : A → Outcome E A
  raised : E → Outcome E A

-- a pure call whose exception goes on to the caller
abbrev pub and_then {ℓ} : {E A B : Type ℓ} → Outcome E A → (A → Outcome E B) → Outcome E B
and_then (returned a) f = f a
and_then (raised e) f = raised e

abbrev pub Tx {ℓ} : Type ℓ → Type ℓ → Type ℓ → Type ℓ
Tx S E A = S → Outcome E A × S

module _ {ℓ} {S E A : Type ℓ} where
  abbrev pub give : A → Tx S E A
  give a s = (returned a, s)

  abbrev pub raise : E → Tx S E A
  raise e s = (raised e, s)

  -- an expression over the database
  abbrev pub reads : (S → A) → Tx S E A
  reads f s = (returned (f s), s)

  -- a call that may raise and touches no row
  abbrev pub lift : Outcome E A → Tx S E A
  lift r s = (r, s)

  -- `x = …; if x is None: raise e`
  abbrev pub require_some : E → Option A → Tx S E A
  require_some e none s = (raised e, s)
  require_some e (some a) s = (returned a, s)

module _ {ℓ} {S E F A : Type ℓ} where
  -- a pure call of another module, whose exceptions are among this one's
  abbrev pub attempt : (F → E) → Outcome F A → Tx S E A
  attempt wrap (returned a) s = (returned a, s)
  attempt wrap (raised e) s = (raised (wrap e), s)

module _ {ℓ} {S E : Type ℓ} where
  -- a statement that writes rows
  abbrev pub writes : (S → S) → Tx S E (Unit {ℓ})
  writes f s = (returned tt, f s)

  -- `if bad: raise e`
  abbrev pub raise_if : Bool → E → Tx S E (Unit {ℓ})
  raise_if true e s = (raised e, s)
  raise_if false e s = (returned tt, s)

module _ {ℓ} {S E A B : Type ℓ} where
  abbrev pub proceed : Outcome E A → (A → Tx S E B) → Tx S E B
  proceed (returned a) f s = f a s
  proceed (raised e) f s = (raised e, s)

  infixl 5 ◌>>=◌ ◌>>◌
  abbrev pub ◌>>=◌ : Tx S E A → (A → Tx S E B) → Tx S E B
  ◌>>=◌ m f s = let (r, s') = m s in proceed r f s'

  abbrev pub ◌>>◌ : Tx S E A → Tx S E B → Tx S E B
  m >> n = m >>= λ _. n

pub Outcome-cases {ℓ} :
    {E A : Type ℓ} (o : Outcome E A) → ((a : A) × (o ≡ returned a)) ⊎ ((e : E) × (o ≡ raised e))
Outcome-cases (returned a) = inl (a, refl)
Outcome-cases (raised e) = inr (e, refl)

pub returned_inj {ℓ} :
    {E A : Type ℓ} {a b : A} → ◌≡◌ {A = Outcome E A} (returned a) (returned b) → a ≡ b
returned_inj h = cc h
