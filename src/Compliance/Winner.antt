-- ===== src/Compliance/Winner.antt =====
-- The target that `_resolve_target` picks.
use mathlib.Core.Path.{subst}
use gard.Prelude.{
  ◌⊎◌, ℕ, ◌≡◌, refl, sym, ap, ◌≤◌, true, none, some, List, [], ◌∷◌, arith, All, In, All-In,
  Bool-cases, inl, inr,
}
use gard.Prelude.Sorting.{
  sort_by, IsLeast, IsSortedBy, IsOrder, sort_by-All, All-sort_by, sort_by-IsSortedBy,
}
use gard.Prelude.Tx.{returned, Outcome-cases, and_then}
use gard.Scope.{Facts, SelectorError, Evaluation, specificity}
use gard.Db.{FirmwareTarget}
use gard.Compliance.{
  Candidate, Matches, match_targets, Resolved, resolve_target, rank, by_specificity,
}

-- The target's scope matches the facts.
abbrev pub InScope : Facts → FirmwareTarget → Type 0
InScope facts t =
    (v : Evaluation) × (gard.Scope.evaluate t.scope_selector facts ≡ returned v)
    × (v.matched ≡ true)

-- The candidate is one of the targets, in scope, and carries its specificity.
pub record IsCandidate (targets : List FirmwareTarget) (facts : Facts) (c : Candidate)
    : Type 0 where
  pub listed : In c.target targets
  pub in_scope : InScope facts c.target
  pub ranked : specificity c.target.scope_selector ≡ returned c.specificity

-- Every target in scope is among the candidates, with its specificity.
abbrev Complete : List FirmwareTarget → Facts → List Candidate → Type 0
Complete targets facts cs =
    (t : FirmwareTarget)
    → In t targets
    → InScope facts t
    → (c : Candidate) × In c cs × (c.target ≡ t)

abbrev Sound : List FirmwareTarget → Facts → List Candidate → Type 0
Sound targets facts cs = All (IsCandidate targets facts) cs

module _ (facts : Facts) where
  weaken :
      (t : FirmwareTarget) (ts : List FirmwareTarget) (cs : List Candidate)
      → Sound ts facts cs
      → Sound (t ∷ ts) facts cs
  weaken t ts [] h = tt
  weaken t ts (c ∷ cs) h = (
    record { listed = inr h.0.listed; in_scope = h.0.in_scope; ranked = h.0.ranked },
    weaken t ts cs h.1,
  )

  match_targets-returned :
      (ts : List FirmwareTarget) (m : Matches)
      → match_targets ts facts ≡ returned m
      → Sound ts facts m.matched × Complete ts facts m.matched
  unfolding match_targets
  match_targets-returned [] m h =
      let e : [] ≡ m.matched = ground arith in (rw (sym e) tt, λ t i s. absurd i)
  match_targets-returned (t ∷ ts) m h =
      elim (Outcome-cases (gard.Scope.evaluate t.scope_selector facts)) [
        | inr (e, bad) ↦ absurd (cc (rw (bad, and_then) at h))
        | inl (v, seen) ↦
            let h₁ = rw (seen, and_then) at h in
            elim (Bool-cases v.matched) [
              | inl yes_matched ↦
                  let h₂ = rw yes_matched at h₁ in
                  elim (Outcome-cases (specificity t.scope_selector)) [
                    | inr (e, bad) ↦ absurd (cc (rw (bad, and_then) at h₂))
                    | inl (n, ranked) ↦
                        let h₃ = rw (ranked, and_then) at h₂ in
                        elim (Outcome-cases (match_targets ts facts)) [
                          | inr (e, bad) ↦ absurd (cc (rw (bad, and_then) at h₃))
                          | inl (r, rest) ↦
                              let h₄ = rw (rest, and_then) at h₃ in
                              let (sound, complete) = match_targets-returned ts r rest in
                              let c : Candidate = record {
                                target = t;
                                specificity = n;
                                deferred_keys = v.deferred_keys;
                              } in
                              let e : c ∷ r.matched ≡ m.matched = cc h₄ in
                              rw (sym e) (
                                (
                                  record {
                                    listed = inl refl;
                                    in_scope = (v, seen, yes_matched);
                                    ranked = ranked;
                                  },
                                  weaken t ts r.matched sound,
                                ),
                                λ u i s. elim i [
                                  | inl same ↦ (c, inl refl, sym same)
                                  | inr later ↦
                                      let (d, at, is_u) = complete u later s in (d, inr at, is_u)
                                ],
                              )
                        ]
                  ]
              | inr not_matched ↦
                  let h₂ = rw not_matched at h₁ in
                  elim (Outcome-cases (match_targets ts facts)) [
                    | inr (e, bad) ↦ absurd (cc (rw (bad, and_then) at h₂))
                    | inl (r, rest) ↦
                        let h₃ = rw (rest, and_then) at h₂ in
                        let (sound, complete) = match_targets-returned ts r rest in
                        let e : r.matched ≡ m.matched = cc h₃ in
                        rw (sym e) (
                          weaken t ts r.matched sound,
                          λ u i s. elim i [
                            | inl same ↦ absurd (cc (seen, not_matched, s.1, s.2, same))
                            | inr later ↦ complete u later s
                          ],
                        )
                  ]
            ]
      ]

-- What `_resolve_target` promises of a winner: a target in scope, such that no target in scope
-- is more specific.
pub record IsBest (targets : List FirmwareTarget) (facts : Facts) (w : Candidate) : Type 0 where
  pub candidate : IsCandidate targets facts w
  pub best :
      (t : FirmwareTarget) (n : ℕ)
      → In t targets
      → InScope facts t
      → specificity t.scope_selector ≡ returned n
      → n ≤ w.specificity

by_specificity-IsOrder : IsOrder by_specificity
by_specificity-IsOrder = record { total = λ a b h. ground arith; trans = λ a b c h k. ground arith }

module _ (targets : List FirmwareTarget) (facts : Facts) where
  ranked-IsBest :
      (cs : List Candidate) (w : Candidate) (rest : List Candidate)
      → Sound targets facts cs
      → Complete targets facts cs
      → sort_by by_specificity cs ≡ w ∷ rest
      → IsBest targets facts w
  ranked-IsBest cs w rest sound complete e =
      let sorted =
        subst (IsSortedBy by_specificity) e
          (sort_by-IsSortedBy by_specificity by_specificity-IsOrder cs) in
      let all_sound =
        subst (All (IsCandidate targets facts)) e
          (sort_by-All by_specificity (IsCandidate targets facts) cs sound) in
      let least =
        All-sort_by by_specificity (λ c. c.specificity ≤ w.specificity) cs
          (subst (All (λ c. c.specificity ≤ w.specificity)) (sym e)
            (omega arith, below rest sorted.0)) in
      record {
        candidate = all_sound.0;
        best = λ t n i s ranked.
            let (c, at, is_t) = complete t i s in
            let c_rank = (All-In (IsCandidate targets facts) c cs sound at).ranked in
            let same : c.specificity ≡ n = cc (c_rank, ranked, is_t) in
            subst (λ x. x ≤ w.specificity) same
              (All-In (λ c. c.specificity ≤ w.specificity) c cs least at);
      }
    where
      below :
          (l : List Candidate)
          → IsLeast by_specificity w l
          → All (λ c. c.specificity ≤ w.specificity) l
      below [] h = tt
      below (c ∷ l) h = (ground (arith, h.0), below l h.1)

  -- The winner is a target in scope and no target in scope is more specific; without a winner,
  -- no target is in scope.
  pub resolve_target-returned :
      (r : Resolved)
      → resolve_target targets facts ≡ returned r
      → ((w : Candidate) × (r.winner ≡ some w) × IsBest targets facts w)
        ⊎ ((r.winner ≡ none) × ((t : FirmwareTarget) → In t targets → ¬ (InScope facts t)))
  unfolding resolve_target
  resolve_target-returned r h = elim (Outcome-cases (match_targets targets facts)) [
    | inr (e, bad) ↦ absurd (cc (rw (bad, and_then) at h))
    | inl (m, found) ↦
        let (sound, complete) = match_targets-returned facts targets m found in
        let h₁ = rw (found, and_then) at h in
        pick m sound complete (sort_by by_specificity m.matched) refl (cc h₁)
  ]
    where
      pick :
          (m : Matches)
          → Sound targets facts m.matched
          → Complete targets facts m.matched
          → (l : List Candidate) → sort_by by_specificity m.matched ≡ l
          → rank (sort_by by_specificity m.matched) m.deferred ≡ r
          → ((w : Candidate) × (r.winner ≡ some w) × IsBest targets facts w)
            ⊎ ((r.winner ≡ none) × ((t : FirmwareTarget) → In t targets → ¬ (InScope facts t)))
      pick m sound complete [] e is_r = inr (
        sym (ap (λ (x : Resolved). x.winner) (rw (e, rank) at is_r)),
        λ t i s.
            let (c, at, is_t) = complete t i s in
            All-In (λ c. ⊥) c m.matched
              (All-sort_by by_specificity (λ c. ⊥) m.matched (subst (All (λ c. ⊥)) (sym e) tt)) at,
      )
      pick m sound complete (w ∷ rest) e is_r = inl (
        w,
        sym (ap (λ (x : Resolved). x.winner) (rw (e, rank) at is_r)),
        ranked-IsBest m.matched w rest sound complete e,
      )
