-- ===== src/Uplift/Exceptions/Rivals.antt =====
-- The blocker that a request names, and the exceptions that stand in its way.
use gard.Prelude.{
  ℕ, String, ◌≡◌, refl, sym, ◌∙◌, Bool, true, Option, none, some, List, [], ◌∷◌, arith, ◌⊎◌, In,
  any_of, filter_by, first, length, leb, ◌==◌, ◌&&◌, eq_iff, opt_eq_iff, opt_str_eq_iff,
  Option-cases, Bool-cases, inl, inr,
}
use gard.Prelude.Sorting.{sort_by, length-sort_by}
use gard.Lifecycle.{ExceptionState, pending_review}
use gard.Envelope.{Blocker, predicate_value}
use gard.Db.{UpliftException, Db, latest_by}
use gard.Uplift.Exceptions.{
  FileRequest, exactly_one, cites, is_active, about_blocker, find_conflicting_active,
}

-- The blocker of a verdict that a request names: by its rule, or, where it has none, by its kind.
abbrev pub Cites : FileRequest → Blocker → Type 0
Cites req b =
    ((rule_id : ℕ) × (req.blocker_rule_id ≡ some rule_id) × (b.rule_id ≡ some rule_id))
    ⊎ ((kind : String) × (req.synthetic_kind ≡ some kind)
        × (b.rule_id ≡ none)
        × (predicate_value b.predicate_kind ≡ kind))

-- An exception that waits for review or is approved, for the device and the blocker of a request.
pub record IsRival (req : FileRequest) (e : UpliftException) : Type 0 where
  pub own : e.device_id ≡ req.device_id
  pub active : (e.state ≡ pending_review) ⊎ (e.state ≡ ExceptionState.approved)
  pub about :
      ((rule_id : ℕ) × (req.blocker_rule_id ≡ some rule_id) × (e.blocker_rule_id ≡ some rule_id))
      ⊎ ((kind : String) × (req.synthetic_kind ≡ some kind) × (e.synthetic_kind ≡ some kind))

pub one_of :
    (rule_id : Option ℕ) (kind : Option String)
    → exactly_one rule_id kind ≡ true
    → ((r : ℕ) × (rule_id ≡ some r) × (kind ≡ none))
      ⊎ ((k : String) × (rule_id ≡ none) × (kind ≡ some k))
one_of (some r) none h = inl (r, refl, refl)
one_of none (some k) h = inr (k, refl, refl)
one_of (some r) (some k) h = absurd (cc h)
one_of none none h = absurd (cc h)

pub any_of-found :
    {A : Type 0} (p : A → Bool) (xs : List A)
    → any_of p xs ≡ true
    → (x : A) × In x xs × (p x ≡ true)
any_of-found p [] h = absurd (cc h)
any_of-found p (x ∷ xs) h = elim (Bool-cases (p x)) [
  | inl e ↦ (x, inl refl, e)
  | inr e ↦ let (y, i, k) = any_of-found p xs (rw e at h) in (y, inr i, k)
]

cites_rule : (b : Blocker) (r : ℕ) → cites (some r) none b ≡ true → b.rule_id ≡ some r
cites_rule b r h = (opt_eq_iff b.rule_id (some r)).0 (ground (arith, h))

cites_kind :
    (b : Blocker) (k : String)
    → cites none (some k) b ≡ true
    → (b.rule_id ≡ none) × (predicate_value b.predicate_kind ≡ k)
cites_kind b k h = elim (Option-cases b.rule_id) [
  | inl e ↦ (e, (eq_iff (predicate_value b.predicate_kind) k).0 (rw e at h))
  | inr (r, e) ↦ absurd (cc (rw e at h))
]

pub cites_lem :
    (req : FileRequest) (b : Blocker)
    → exactly_one req.blocker_rule_id req.synthetic_kind ≡ true
    → cites req.blocker_rule_id req.synthetic_kind b ≡ true
    → Cites req b
cites_lem req b one h = elim (one_of req.blocker_rule_id req.synthetic_kind one) [
  | inl (r, e, k) ↦ inl (r, e, cites_rule b r (rw (e, k) at h))
  | inr (kind, e, k) ↦
      let (missing, same) = cites_kind b kind (rw (e, k) at h) in inr (kind, k, missing, same)
]

no_rows : {A : Type 0} (xs : List A) → length xs ≡ 0 → xs ≡ []
no_rows [] h = refl
no_rows (x ∷ xs) h = absurd (omega (arith, h))

latest_by-nil : {A : Type 0} (key : A → ℕ) (xs : List A) → latest_by key xs ≡ none → xs ≡ []
latest_by-nil {A = A} key xs h = no_rows xs (sym (length-sort_by le xs) ∙ empty (sort_by le xs) h)
  where
    le : A → A → Bool
    le a b = leb (key b) (key a)

    empty : (l : List A) → first l ≡ none → length l ≡ 0
    empty [] e = refl
    empty (x ∷ l) e = absurd (cc e)

filter_by-nil :
    {A : Type 0} (p : A → Bool) (xs : List A) (x : A)
    → filter_by p xs ≡ []
    → In x xs
    → p x ≡ true
    → ⊥
filter_by-nil p [] x e i h = i
filter_by-nil p (y ∷ xs) x e i h = elim (Bool-cases (p y)) [
  | inl k ↦ absurd (cc (rw k at e))
  | inr k ↦ elim i [
    | inl same ↦ absurd (cc (h, same, k))
    | inr later ↦ filter_by-nil p xs x (rw k at e) later h
  ]
]

active_lem :
    (state : ExceptionState)
    → (state ≡ pending_review) ⊎ (state ≡ ExceptionState.approved)
    → is_active state ≡ true
active_lem state (inl e) = rw e refl
active_lem state (inr e) = rw e refl

about_lem :
    (req : FileRequest) (e : UpliftException)
    → exactly_one req.blocker_rule_id req.synthetic_kind ≡ true
    → IsRival req e
    → about_blocker req.blocker_rule_id req.synthetic_kind e ≡ true
about_lem req e one r = elim (one_of req.blocker_rule_id req.synthetic_kind one) [
  | inl (i, p, k) ↦ elim r.about [
    | inl (j, q, x) ↦ rw q ((opt_eq_iff e.blocker_rule_id (some j)).1 x)
    | inr (j, q, x) ↦ absurd (cc (k, q))
  ]
  | inr (i, p, k) ↦ elim r.about [
    | inl (j, q, x) ↦ absurd (cc (p, q))
    | inr (j, q, x) ↦ rw p (rw q ((opt_str_eq_iff e.synthetic_kind (some j)).1 x))
  ]
]

pub no-IsRival :
    (req : FileRequest) (db : Db)
    → exactly_one req.blocker_rule_id req.synthetic_kind ≡ true
    → find_conflicting_active req.device_id req.blocker_rule_id req.synthetic_kind db ≡ none
    → (e : UpliftException) → In e db.exceptions
    → ¬ IsRival req e
unfolding find_conflicting_active
no-IsRival req db one free e i r =
    let p : UpliftException → Bool = (λ x.
      (x.device_id == req.device_id)
      && (is_active x.state && about_blocker req.blocker_rule_id req.synthetic_kind x)) in
    filter_by-nil p db.exceptions e
      (latest_by-nil (λ x. x.filed_at) (filter_by p db.exceptions) free) i
      (ground (arith, r.own, active_lem e.state r.active, about_lem req e one r))
