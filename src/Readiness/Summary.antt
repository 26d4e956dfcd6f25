-- ===== src/Readiness/Summary.antt =====
-- `fetch_summary` of the readiness controller: the counts over the latest row of each device.
use gard.Prelude.{
  ℕ, zero, suc, String, Bool, true, false, filter_by, Bool-cases, Option-cases, inl, inr, Option,
  none, some, List, [], ◌∷◌, ◌++◌, ◌≡◌, refl, ◌+◌, ◌≤◌, ◌&&◌, ltb, ◌==◌, ◌||◌, not, str_eq, str_ltb,
  opt_str_eq, length, take, arith, if◌then◌else◌,
}
use gard.Prelude.Sorting.{sort_by, insert_by}
use gard.Envelope.{PredicateKind, predicate_value, Blocker, ReadinessState, ready_for_uplift}
use gard.Readiness.{readiness_no}
use gard.Db.{Device, ReadinessEvaluation, Db, latest_readiness}

-- the filters of the estate-wide queries
pub record Filters : Type 0 where
  pub region : Option String
  pub site : Option String
  pub platform_family : Option String
  pub vendor_normalized : Option String

-- `if value is not None: q = q.where(column == value)`; a null column is not equal to a text
abbrev pub passes : Option String → Option String → Bool
passes none column = true
passes (some value) column = opt_str_eq column (some value)

abbrev pub selects : Filters → Device → Bool
selects f d =
    passes f.region d.region
    && (passes f.site (some d.site)
        && (passes f.platform_family d.platform_family
            && passes f.vendor_normalized d.vendor_normalized))

abbrev pub applied : String → Option String → List (String × String)
applied name none = []
applied name (some value) = (name, value) ∷ []

-- `filters_applied`
abbrev pub filters_applied : Filters → List (String × String)
filters_applied f =
    applied "region" f.region
    ++ (applied "site" f.site
        ++ (applied "platform_family" f.platform_family
            ++ applied "vendor_normalized" f.vendor_normalized))

abbrev pub with_latest :
    Device
    → Option ReadinessEvaluation
    → List (Device × ReadinessEvaluation)
    → List (Device × ReadinessEvaluation)
with_latest d none rows = rows
with_latest d (some r) rows = (d, r) ∷ rows

-- the latest row of each selected device
unfoldable pub latest_rows : Db → Filters → List Device → List (Device × ReadinessEvaluation)
latest_rows db f [] = []
latest_rows db f (d ∷ devices) =
    let rest = latest_rows db f devices in
    if selects f d then with_latest d (latest_readiness d.id db) rest else rest

pub record Totals : Type 0 where
  pub ready : ℕ
  pub blocked : ℕ
  pub not_applicable : ℕ
  pub kind_counts : List (PredicateKind × ℕ)

-- `kind_counts[kind] = kind_counts.get(kind, 0) + 1`
unfoldable pub bump : PredicateKind → List (PredicateKind × ℕ) → List (PredicateKind × ℕ)
bump kind [] = (kind, 1) ∷ []
bump kind ((k, n) ∷ counts) =
    if str_eq (predicate_value k) (predicate_value kind)
    then (k, n + 1) ∷ counts
    else (k, n) ∷ bump kind counts

abbrev pub bump_first : List Blocker → List (PredicateKind × ℕ) → List (PredicateKind × ℕ)
bump_first [] counts = counts
bump_first (b ∷ blockers) counts = bump b.predicate_kind counts

-- one round of the loop
abbrev pub count_state : ReadinessState → List Blocker → Totals → Totals
count_state ready_for_uplift blockers t = record t { ready = t.ready + 1 }
count_state ReadinessState.blocked blockers t = record t {
  blocked = t.blocked + 1;
  kind_counts = bump_first blockers t.kind_counts;
}
count_state ReadinessState.not_applicable blockers t = record t {
  not_applicable = t.not_applicable + 1;
}

abbrev pub count_row : ReadinessEvaluation → Totals → Totals
count_row row t = count_state row.readiness_state row.blockers t

unfoldable pub count_rows : List (Device × ReadinessEvaluation) → Totals → Totals
count_rows [] t = t
count_rows ((d, row) ∷ rows) t = count_rows rows (count_row row t)

-- `(-count, kind)`
abbrev pub top_leb : PredicateKind × ℕ → PredicateKind × ℕ → Bool
top_leb a b =
    ltb b.1 a.1 || ((a.1 == b.1) && not (str_ltb (predicate_value b.0) (predicate_value a.0)))

-- `ReadinessSummary`, without its clock
pub record ReadinessSummary : Type 0 where
  pub total_outside_target : ℕ
  pub ready_for_uplift_count : ℕ
  pub blocked_count : ℕ
  pub not_applicable_count : ℕ
  pub top_blocker_categories : List (PredicateKind × ℕ)
  pub filters_applied : List (String × String)

abbrev pub summary_of : Filters → Totals → ReadinessSummary
summary_of f t = record {
  total_outside_target = t.ready + t.blocked;
  ready_for_uplift_count = t.ready;
  blocked_count = t.blocked;
  not_applicable_count = t.not_applicable;
  top_blocker_categories = take 10 (sort_by top_leb t.kind_counts);
  filters_applied = filters_applied f;
}

abbrev pub no_totals : Totals
no_totals = record { ready = 0; blocked = 0; not_applicable = 0; kind_counts = [] }

unfoldable pub fetch_summary : Db → Filters → ReadinessSummary
unfolding latest_rows count_rows
fetch_summary db f = summary_of f (count_rows (latest_rows db f db.devices) no_totals)

-- the sum of the counts
abbrev pub sum_counts : List (PredicateKind × ℕ) → ℕ
sum_counts [] = 0
sum_counts ((k, n) ∷ counts) = n + sum_counts counts

bump-sum_counts :
    (kind : PredicateKind) (counts : List (PredicateKind × ℕ))
    → sum_counts (bump kind counts) ≡ sum_counts counts + 1
unfolding bump
bump-sum_counts kind [] = omega arith
bump-sum_counts kind ((k, n) ∷ counts) = ground (arith, bump-sum_counts kind counts)

insert_by-sum_counts :
    (x : PredicateKind × ℕ) (counts : List (PredicateKind × ℕ))
    → sum_counts (insert_by top_leb x counts) ≡ sum_counts (x ∷ counts)
unfolding insert_by
insert_by-sum_counts x [] = refl
insert_by-sum_counts x (y ∷ counts) = ground (arith, insert_by-sum_counts x counts)

sort_by-sum_counts :
    (counts : List (PredicateKind × ℕ)) → sum_counts (sort_by top_leb counts) ≡ sum_counts counts
unfolding sort_by
sort_by-sum_counts [] = refl
sort_by-sum_counts (x ∷ counts) =
    ground (arith, insert_by-sum_counts x (sort_by top_leb counts), sort_by-sum_counts counts)

take-sum_counts :
    (n : ℕ) (counts : List (PredicateKind × ℕ)) → sum_counts (take n counts) ≤ sum_counts counts
take-sum_counts zero counts = omega arith
take-sum_counts (suc n) [] = omega arith
take-sum_counts (suc n) (x ∷ counts) = omega (arith, take-sum_counts n counts)

length-take-le : {A : Type 0} (n : ℕ) (xs : List A) → length (take n xs) ≤ n
length-take-le zero xs = omega arith
length-take-le (suc n) [] = omega arith
length-take-le (suc n) (x ∷ xs) = omega (arith, length-take-le n xs)

-- Every counted row is counted once, and the kinds are those of blocked rows.
Counted : ℕ → Totals → Totals → Type 0
Counted n t t' =
    (t'.ready + t'.blocked + t'.not_applicable ≡ t.ready + t.blocked + t.not_applicable + n)
    × (sum_counts t'.kind_counts + t.blocked ≤ sum_counts t.kind_counts + t'.blocked)

bump_first-sum_counts :
    (blockers : List Blocker) (counts : List (PredicateKind × ℕ))
    → sum_counts (bump_first blockers counts) ≤ sum_counts counts + 1
bump_first-sum_counts [] counts = omega arith
bump_first-sum_counts (b ∷ blockers) counts = omega (arith, bump-sum_counts b.predicate_kind counts)

count_state-Counted :
    (state : ReadinessState) (blockers : List Blocker) (t : Totals)
    → Counted 1 t (count_state state blockers t)
unfolding Counted
count_state-Counted ready_for_uplift blockers t = (omega arith, omega arith)
count_state-Counted ReadinessState.blocked blockers t =
    (omega arith, omega (arith, bump_first-sum_counts blockers t.kind_counts))
count_state-Counted ReadinessState.not_applicable blockers t = (omega arith, omega arith)

count_rows-Counted :
    (rows : List (Device × ReadinessEvaluation)) (t : Totals)
    → Counted (length rows) t (count_rows rows t)
unfolding Counted count_rows
count_rows-Counted [] t = (omega arith, omega arith)
count_rows-Counted ((d, row) ∷ rows) t =
    let one = count_state-Counted row.readiness_state row.blockers t in
    let rest = count_rows-Counted rows (count_row row t) in
    (omega (arith, one, rest), omega (arith, one, rest))

-- The latest verdict of a device is in the state.
abbrev pub stands_at : ReadinessState → Option ReadinessEvaluation → Bool
stands_at state none = false
stands_at state (some r) = readiness_no r.readiness_state == readiness_no state

-- the devices that the filters select and whose latest verdict is in the state
abbrev pub devices_at : ReadinessState → Db → Filters → List Device → ℕ
devices_at state db f devices =
    length (filter_by (λ d. selects f d && stands_at state (latest_readiness d.id db)) devices)

-- the counter of a state
abbrev counter : ReadinessState → Totals → ℕ
counter ready_for_uplift t = t.ready
counter ReadinessState.blocked t = t.blocked
counter ReadinessState.not_applicable t = t.not_applicable

count_state-counter :
    (state seen : ReadinessState) (blockers : List Blocker) (t : Totals)
    → counter state (count_state seen blockers t)
      ≡ counter state t + (if readiness_no seen == readiness_no state then 1 else 0)
count_state-counter ready_for_uplift ready_for_uplift blockers t = omega arith
count_state-counter ready_for_uplift ReadinessState.blocked blockers t = omega arith
count_state-counter ready_for_uplift ReadinessState.not_applicable blockers t = omega arith
count_state-counter ReadinessState.blocked ready_for_uplift blockers t = omega arith
count_state-counter ReadinessState.blocked ReadinessState.blocked blockers t = omega arith
count_state-counter ReadinessState.blocked ReadinessState.not_applicable blockers t = omega arith
count_state-counter ReadinessState.not_applicable ready_for_uplift blockers t = omega arith
count_state-counter ReadinessState.not_applicable ReadinessState.blocked blockers t = omega arith
count_state-counter ReadinessState.not_applicable ReadinessState.not_applicable blockers t =
    omega arith

count_rows-counter :
    (state : ReadinessState) (db : Db) (f : Filters) (devices : List Device) (t : Totals)
    → counter state (count_rows (latest_rows db f devices) t)
      ≡ counter state t + devices_at state db f devices
unfolding count_rows latest_rows
count_rows-counter state db f [] t = omega arith
count_rows-counter state db f (d ∷ devices) t = elim (Bool-cases (selects f d)) [
  | inr e ↦ rw e (count_rows-counter state db f devices t)
  | inl e ↦ elim (Option-cases (latest_readiness d.id db)) [
    | inl k ↦ rw (e, k) (count_rows-counter state db f devices t)
    | inr (r, k) ↦
        let one = count_state-counter state r.readiness_state r.blockers t in
        let rest = count_rows-counter state db f devices (count_row r t) in
        rw (e, k) (ground (arith, one, rest))
  ]
]

-- Each of the three counts of the summary is the number of the devices that the filters select and
-- whose latest verdict is in that state; the total is the first two of them; and at most ten
-- categories stand in it, whose counts together are not above the blocked devices.
pub fetch_summary-Counted :
    (db : Db) (f : Filters)
    → let s = fetch_summary db f in
      (s.ready_for_uplift_count ≡ devices_at ready_for_uplift db f db.devices)
      × (s.blocked_count ≡ devices_at ReadinessState.blocked db f db.devices)
      × (s.not_applicable_count ≡ devices_at ReadinessState.not_applicable db f db.devices)
      × (s.total_outside_target
          ≡ devices_at ready_for_uplift db f db.devices
            + devices_at ReadinessState.blocked db f db.devices)
      × (length s.top_blocker_categories ≤ 10)
      × (sum_counts s.top_blocker_categories ≤ devices_at ReadinessState.blocked db f db.devices)
unfolding fetch_summary Counted
fetch_summary-Counted db f =
    let t = count_rows (latest_rows db f db.devices) no_totals in
    let counted = count_rows-Counted (latest_rows db f db.devices) no_totals in
    let sorted = sort_by-sum_counts t.kind_counts in
    let ready = count_rows-counter ready_for_uplift db f db.devices no_totals in
    let blocked = count_rows-counter ReadinessState.blocked db f db.devices no_totals in
    (
      omega (arith, ready),
      omega (arith, blocked),
      omega (arith, count_rows-counter ReadinessState.not_applicable db f db.devices no_totals),
      omega (arith, ready, blocked),
      length-take-le 10 (sort_by top_leb t.kind_counts),
      omega (arith, counted, sorted, blocked, take-sum_counts 10 (sort_by top_leb t.kind_counts)),
    )
