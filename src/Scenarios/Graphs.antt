-- ===== src/Scenarios/Graphs.antt =====
-- A small networkx on lists of edges, and queries of it.
use gard.Prelude.{
  ℕ, String, Bool, true, false, Option, none, some, some_inj, List, [], ◌∷◌, ◌≡◌, refl, ◌⊎◌, inl,
  inr, ◌||◌, ◌&&◌, ◌≤◌, str_eq, eq_iff, subst, arith, if◌then◌else◌,
}
use gard.UpgradePath.{
  Networkx, NetworkxLaws, Walk, stop, step, FindsShortest, EdgeSpec, add_edges, with_edges,
}
use gard.UpgradePath.Walks.{IsAnswered, edge_weight, with_edges-IsAnswered}

abbrev pub list_has_node : List EdgeSpec → String → Bool
list_has_node [] x = false
list_has_node (e ∷ g) x = str_eq x e.from_version || (str_eq x e.to_version || list_has_node g x)

abbrev pub list_weight : List EdgeSpec → String → String → Option ℕ
list_weight [] a b = none
list_weight (e ∷ g) a b =
    if str_eq a e.from_version && str_eq b e.to_version then some e.weight else list_weight g a b

-- the direct edge alone
abbrev pub direct : List EdgeSpec → String → String → Option (List String)
direct g a b = elim (list_weight g a b) [ none ↦ none | some w ↦ some (a ∷ b ∷ []) ]

abbrev pub list_nx : Networkx
list_nx = record {
  DiGraph = List EdgeSpec;
  empty = [];
  add_edge = λ u v w g. record { from_version = u; to_version = v; weight = w } ∷ g;
  has_node = list_has_node;
  weight = list_weight;
  shortest_path = direct;
}

pub list_laws : NetworkxLaws list_nx
list_laws = record {
  has_node-add_edge = λ g u v w x. refl;
  weight-empty = λ a b. refl;
  weight-add_edge = λ g u v w a b. refl;
}

abbrev pub one_edge : List EdgeSpec
one_edge = record { from_version = "17.3"; to_version = "17.9"; weight = 1 } ∷ []

-- Where every edge weighs something, so does every way between two versions.
Walk-weight :
    (edge : String → String → Option ℕ) (path : List String) (a b : String) (n : ℕ)
    → ((u v : String) (w : ℕ) → edge u v ≡ some w → 1 ≤ w)
    → Walk edge path a b n
    → (a ≡ b) ⊎ (1 ≤ n)
Walk-weight edge path a b n heavy (stop v) = inl refl
Walk-weight edge path a b n heavy (step u v x w m p e rest) =
    let one : 1 ≤ w = heavy u v w e in inr (omega (arith, one))

versions_differ : ¬ (◌≡◌ {A = String} "17.3" "17.9")
versions_differ same = let h : false ≡ true = (eq_iff "17.3" "17.9").1 same in cc h

-- The direct edge is the lightest way of the graph that has no other.
pub one_edge_finds : FindsShortest list_nx (add_edges list_nx one_edge []) "17.3" "17.9"
unfolding add_edges
one_edge_finds = record {
  found = λ path e.
      subst
        (λ p.
          (n : ℕ) × Walk (list_weight one_edge) p "17.3" "17.9" n
          × ((path' : List String) (n' : ℕ)
              → Walk (list_weight one_edge) path' "17.3" "17.9" n'
              → n ≤ n'))
        (some_inj.0 e)
        (
          1,
          step "17.3" "17.9" "17.9" 1 0 ("17.9" ∷ []) refl (stop "17.9"),
          λ path' n' walk.
              elim (Walk-weight (list_weight one_edge) path' "17.3" "17.9" n'
                (λ u v w h. ground arith) walk) [
                  | inl same ↦ absurd (versions_differ same)
                  | inr h ↦ h
                ],
        );
  not_found = λ e. absurd (cc e);
}

with_edges-IsAnswered_example :
    IsAnswered list_nx
      (edge_weight one_edge)
      "17.3"
      "17.9"
      (with_edges list_nx [] "ios-xe" one_edge "17.3" "17.9").0
with_edges-IsAnswered_example =
    with_edges-IsAnswered list_nx list_laws [] "ios-xe" one_edge "17.3" "17.9" one_edge_finds
