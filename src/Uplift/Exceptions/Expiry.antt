-- ===== src/Uplift/Exceptions/Expiry.antt =====
-- The expiry sweep, and what it leaves in force.
use gard.Prelude.{
  ℕ, ◌≡◌, refl, sym, Bool, true, false, ◌||◌, Option, none, some, List, [], ◌∷◌, arith, ◌==◌,
  if◌then◌else◌, Option-cases, Bool-cases, inl, inr, ◌⊎◌, filter_by, any_of, In, ◌<◌, ◌↔◌, ◌∙◌,
}
use gard.Prelude.Rows.{map_option, find_row-In, find_row-key}
use gard.Lifecycle.{ExceptionState, expired, exception_eq, exception_eq_iff}
use gard.Db.{UpliftException, Db, Call, emit}
use gard.Uplift.Exceptions.{get_exception, guarded, is_in_force}
use gard.Uplift.Exceptions.Operations.{
  to_expired, is_overdue, settle_expiry, expire_one, expire_each, expire_overdue_exceptions,
  block_device,
}
use gard.Uplift.Exceptions.Guard.{
  get_exception-set_exception, guard_wins, guard_loses, guard_missing,
}

-- the change to one row
abbrev expiry : Call → UpliftException → UpliftException
expiry call = guarded ExceptionState.approved (to_expired call)

expiry-again :
    (call : Call) (o : Option UpliftException)
    → map_option (expiry call) (map_option (expiry call) o) ≡ map_option (expiry call) o
expiry-again call none = refl
expiry-again call (some e) = elim (Bool-cases (exception_eq e.state ExceptionState.approved)) [
  | inl h ↦ rw h refl
  | inr h ↦ rw h (rw h refl)
]

one_after :
    (call : Call) (device_id i j : ℕ) (db : Db)
    → get_exception j (expire_one call device_id i db).1
      ≡ (if j == i then map_option (expiry call) (get_exception j db) else get_exception j db)
unfolding block_device emit
one_after call device_id i j db = elim (Option-cases (get_exception i db)) [
  | inl missing ↦
      rw (guard_missing i ExceptionState.approved (to_expired call) db missing, settle_expiry)
        (elim (Bool-cases (j == i)) [
          | inl h ↦ let here : j ≡ i = ground arith in rw h (rw here (rw missing refl))
          | inr h ↦ rw h refl
        ])
  | inr (e, found) ↦ elim (Bool-cases (exception_eq e.state ExceptionState.approved)) [
    | inl same ↦
        rw
          (
            guard_wins i ExceptionState.approved (to_expired call) (λ x. refl) db e found same,
            settle_expiry,
          )
          (get_exception-set_exception i ExceptionState.approved (to_expired call) (λ x. refl) j db)
    | inr differs ↦
        rw
          (
            guard_loses i ExceptionState.approved (to_expired call) db e found differs,
            settle_expiry,
          )
          (elim (Bool-cases (j == i)) [
            | inl h ↦ let here : j ≡ i = ground arith in rw h (rw here (rw found (rw differs refl)))
            | inr h ↦ rw h refl
          ])
  ]
]

each_after :
    (call : Call) (device_id j : ℕ) (overdue : List UpliftException) (db : Db)
    → get_exception j (expire_each call device_id overdue db).1 ≡ (
        if any_of (λ e. j == e.id) overdue
        then map_option (expiry call) (get_exception j db)
        else get_exception j db)
unfolding expire_each
each_after call device_id j [] db = refl
each_after call device_id j (e ∷ overdue) db =
    rw (each_after call device_id j overdue (expire_one call device_id e.id db).1) (
      rw (one_after call device_id e.id j db)
        (branches (j == e.id) (any_of (λ x. j == x.id) overdue) (get_exception j db)))
  where
    branches :
        (here later : Bool) (o : Option UpliftException)
        → (if later
            then map_option (expiry call) (if here then map_option (expiry call) o else o)
            else if here
            then map_option (expiry call) o
            else o)
          ≡ (if here || later then map_option (expiry call) o else o)
    branches true true o = expiry-again call o
    branches true false o = refl
    branches false true o = refl
    branches false false o = refl

-- The primary key: every stored row is the one found under its identifier.
abbrev pub IsKeyed : Db → Type 0
IsKeyed db = (e : UpliftException) → In e db.exceptions → get_exception e.id db ≡ some e

module _ {A : Type 0} (p q : A → Bool) where
  any_of-In :
      (x : A) (xs : List A) → In x xs → p x ≡ true → q x ≡ true → any_of q (filter_by p xs) ≡ true
  any_of-In x [] i hp hq = absurd i
  any_of-In x (y ∷ ys) (inl e) hp hq = rw (sym e) (rw hp (rw hq refl))
  any_of-In x (y ∷ ys) (inr i) hp hq = elim (Bool-cases (p y)) [
    | inl h ↦ rw h (ground (arith, any_of-In x ys i hp hq))
    | inr h ↦ rw h (any_of-In x ys i hp hq)
  ]

  any_of-found :
      (xs : List A)
      → any_of q (filter_by p xs) ≡ true
      → (x : A) × In x xs × (p x ≡ true) × (q x ≡ true)
  any_of-found [] h = absurd (cc h)
  any_of-found (y ∷ ys) h = elim (Bool-cases (p y)) [
    | inr e ↦ let (x, i, hp, hq) = any_of-found ys (rw e at h) in (x, inr i, hp, hq)
    | inl e ↦ elim (Bool-cases (q y)) [
      | inl k ↦ (y, inl refl, e, k)
      | inr k ↦ let (x, i, hp, hq) = any_of-found ys (rw k at (rw e at h)) in (x, inr i, hp, hq)
    ]
  ]

-- the row after the sweep, by the query's test
swept_row :
    (call : Call) (device_id i : ℕ) (db : Db) (e : UpliftException)
    → IsKeyed db
    → get_exception i db ≡ some e
    → get_exception i (expire_overdue_exceptions call device_id db).1
      ≡ some (if is_overdue call device_id e then to_expired call e else e)
unfolding expire_overdue_exceptions
swept_row call device_id i db e keyed found =
    let p = is_overdue call device_id in
    let q : UpliftException → Bool = (λ x. i == x.id) in
    let at_i : e.id ≡ i = find_row-key (λ x. x.id) i db.exceptions e found in
    let own : q e ≡ true = ground (arith, at_i) in
    rw (each_after call device_id i (filter_by p db.exceptions) db) (elim (Bool-cases (p e)) [
      | inl h ↦
          let swept =
            any_of-In p q e db.exceptions (find_row-In (λ x. x.id) i db.exceptions e found) h own in
          rw swept (rw found (ground arith))
      | inr h ↦ elim (Bool-cases (any_of q (filter_by p db.exceptions))) [
        | inr kept ↦ rw kept (rw found (rw h refl))
        | inl swept ↦
            let (x, stored, hp, hq) = any_of-found p q db.exceptions swept in
            let same_id : x.id ≡ i = ground arith in
            let same : x ≡ e = cc (rw same_id at (keyed x stored), found) in
            absurd (cc (hp, h, same))
      ]
    ])

-- A row that the sweep is to expire: an approved exception of the device that expires before now.
abbrev pub IsOverdue : Call → ℕ → UpliftException → Type 0
IsOverdue call device_id e =
    (e.device_id ≡ device_id) × (e.state ≡ ExceptionState.approved) × (e.expires_at < call.now)

is_overdue_iff :
    (call : Call) (device_id : ℕ) (e : UpliftException)
    → (is_overdue call device_id e ≡ true) ↔ IsOverdue call device_id e
is_overdue_iff call device_id e =
    let same = exception_eq_iff e.state ExceptionState.approved in
    (
      λ h. (ground (arith, h), same.0 (ground (arith, h)), ground (arith, h)),
      λ h. ground (arith, h.0, same.1 h.1, h.2),
    )

-- The sweep, for one device at one time, under a primary key: an approved exception of the device
-- whose expiry lies before that time is `expired` then, with the time and nothing else changed,
-- and every other stored exception is as it was.
pub expire_overdue_exceptions-get :
    (call : Call) (device_id i : ℕ) (db : Db) (e : UpliftException)
    → IsKeyed db
    → get_exception i db ≡ some e
    → let after = get_exception i (expire_overdue_exceptions call device_id db).1 in
      (IsOverdue call device_id e
        → after ≡ some (record e { state = expired; expired_at = some call.now }))
      × (¬ IsOverdue call device_id e → after ≡ some e)
expire_overdue_exceptions-get call device_id i db e keyed found =
    let row = swept_row call device_id i db e keyed found in
    let test = is_overdue_iff call device_id e in
    (
      λ h. row ∙ rw (test.1 h) refl,
      λ h. elim (Bool-cases (is_overdue call device_id e)) [
        | inl bad ↦ absurd (h (test.0 bad))
        | inr ok ↦ row ∙ rw ok refl
      ],
    )

-- After the sweep at a time, an approved exception of the device is in force at that time or
-- expires at that very moment.
pub expire_overdue_exceptions-in_force :
    (call : Call) (device_id i : ℕ) (db : Db) (e e' : UpliftException)
    → IsKeyed db
    → get_exception i db ≡ some e
    → get_exception i (expire_overdue_exceptions call device_id db).1 ≡ some e'
    → e'.device_id ≡ device_id
    → e'.state ≡ ExceptionState.approved
    → (is_in_force device_id call.now e' ≡ true) ⊎ (e'.expires_at ≡ call.now)
expire_overdue_exceptions-in_force call device_id i db e e' keyed found after own approved_now =
    let is_e : (if is_overdue call device_id e then to_expired call e else e) ≡ e' =
      cc (swept_row call device_id i db e keyed found, after) in
    elim (Bool-cases (is_overdue call device_id e)) [
      | inl h ↦ absurd (cc (rw h at is_e, approved_now))
      | inr h ↦ let same : e ≡ e' = rw h at is_e in last (rw same at h)
    ]
  where
    last :
        is_overdue call device_id e' ≡ false
        → (is_in_force device_id call.now e' ≡ true) ⊎ (e'.expires_at ≡ call.now)
    last h = elim (Bool-cases (is_in_force device_id call.now e')) [
      | inl f ↦ inl f
      | inr f ↦ inr (ground arith)
    ]
