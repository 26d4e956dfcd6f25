-- ===== src/Drift/Precedence.antt =====
-- The primary drift type, and the sorted ones.
use gard.Prelude.{
  ◌≡◌, refl, sym, ◌∙◌, Option, none, some, List, [], ◌∷◌, arith, ltb, leb, first, if◌then◌else◌,
  Bool-cases, inl, inr,
}
use gard.Prelude.Sorting.{sort_by, insert_by, by_key}
use gard.Envelope.{DriftType}
use gard.Drift.{precedence_index, primary_from, primary_of, sort_by_precedence}

-- the better of two, the earlier one where they tie
abbrev better : DriftType → Option DriftType → Option DriftType
better b none = some b
better b (some d) = if ltb (precedence_index d) (precedence_index b) then some d else some b

better-first :
    (d : DriftType) (l : List DriftType)
    → first (insert_by (by_key precedence_index) d l) ≡ better d (first l)
unfolding insert_by
better-first d [] = refl
better-first d (y ∷ l) = elim (Bool-cases (leb (precedence_index d) (precedence_index y))) [
  | inl h ↦ rw h (ground arith)
  | inr h ↦ rw h (ground arith)
]

better_assoc :
    (b d : DriftType) (o : Option DriftType)
    → better b (better d o) ≡ (elim (better b (some d)) [ none ↦ o | some x ↦ better x o ])
better_assoc b d none = ground arith
better_assoc b d (some x) = ground arith

primary_from-better :
    (b : DriftType) (drifts : List DriftType)
    → primary_from (some b) drifts ≡ better b (first (sort_by_precedence drifts))
unfolding primary_from sort_by_precedence sort_by
primary_from-better b [] = refl
primary_from-better b (d ∷ drifts) =
    elim (Bool-cases (ltb (precedence_index d) (precedence_index b))) [
      | inl h ↦ rw h (
          rw (primary_from-better d drifts) (
            rw (better-first d (sort_by (by_key precedence_index) drifts)) (
              sym
                (better_assoc b d (first (sort_by (by_key precedence_index) drifts)) ∙ rw h refl))))
      | inr h ↦ rw h (
          rw (primary_from-better b drifts) (
            rw (better-first d (sort_by (by_key precedence_index) drifts)) (
              sym
                (better_assoc b d (first (sort_by (by_key precedence_index) drifts)) ∙ rw h refl))))
    ]

-- `primary_of`, which scans the drift types once, gives the first that `sort_by_precedence`
-- gives.
pub primary_of-sort_by_precedence :
    (drifts : List DriftType) → primary_of drifts ≡ first (sort_by_precedence drifts)
unfolding primary_of sort_by_precedence sort_by primary_from
primary_of-sort_by_precedence [] = refl
primary_of-sort_by_precedence (d ∷ drifts) =
    primary_from-better d drifts ∙ sym (better-first d (sort_by (by_key precedence_index) drifts))
