-- ===== src/UpgradePath/Walks.antt =====
-- What a query of the cache answers, in terms of the ways that the edges allow.
use gard.Prelude.{
  ℕ, String, true, Option, none, some, List, [], ◌∷◌, ◌≡◌, refl, ap, subst, ◌∙◌, ◌⊎◌, inl, inr,
  ◌||◌, ◌&&◌, ◌+◌, ◌-◌, ◌≤◌, not, str_eq, eq_iff, eq_refl, length, arith, Bool-cases, Option-cases,
  if◌then◌else◌,
}
use gard.Prelude.Tx.{Outcome, returned}
use gard.UpgradePath.{
  Networkx, NetworkxLaws, Walk, stop, step, FindsShortest, EdgeSpec, ChainResult, zero_hop,
  PathError, Graphs, get_graph, add_edges, rebuild, path_weight, chain_of, query, shortest_path,
  with_edges,
}

-- the weight of the last of the edges between two versions
abbrev pub last_weight : Option ℕ → List EdgeSpec → String → String → Option ℕ
last_weight w [] a b = w
last_weight w (e ∷ edges) a b =
    last_weight (if str_eq a e.from_version && str_eq b e.to_version then some e.weight else w)
      edges a b

abbrev pub edge_weight : List EdgeSpec → String → String → Option ℕ
edge_weight edges a b = last_weight none edges a b

-- The two answers to a query: no way leads there, or the chain is a lightest way.
pub data Answers (edge : String → String → Option ℕ) (a b : String) (r : ChainResult) : Type 0 where
  unreachable :
      r.chain ≡ [] → ((path : List String) (n : ℕ) → ¬ Walk edge path a b n) → Answers edge a b r
  lightest :
      (n : ℕ)
      → Walk edge r.chain a b n
      → r.total_weight ≡ some n
      → r.hops + 1 ≡ length r.chain
      → ((path : List String) (m : ℕ) → Walk edge path a b m → n ≤ m)
      → Answers edge a b r

module _ (nx : Networkx) where
  -- A way's weight is what the code sums up, and no edge of it is missing.
  path_weight-Walk :
      (g : nx.DiGraph) (path : List String) (u v : String) (n : ℕ)
      → Walk (nx.weight g) path u v n
      → path_weight nx g path ≡ returned n
  unfolding path_weight
  path_weight-Walk g path u v n (stop w) = refl
  path_weight-Walk g path u v n (step x y z w m p e (stop k)) = rw (path_weight, e) refl
  path_weight-Walk g path u v n (step x y z w m p e (step y' v' x' w' n' p' e' rest)) =
      rw (path_weight, e, path_weight-Walk g _ _ _ _ (step y' v' x' w' n' p' e' rest)) refl

  module _ (laws : NetworkxLaws nx) where
    -- A graph's edges are the last that were added.
    weight-add_edges :
        (edges : List EdgeSpec) (g : nx.DiGraph) (a b : String)
        → nx.weight (add_edges nx edges g) a b ≡ last_weight (nx.weight g a b) edges a b
    unfolding add_edges
    weight-add_edges [] g a b = refl
    weight-add_edges (e ∷ edges) g a b =
        weight-add_edges edges _ a b
        ∙ ap (λ w. last_weight w edges a b) (laws.weight-add_edge g _ _ _ a b)

    weight-edge_weight :
        (edges : List EdgeSpec) → nx.weight (add_edges nx edges nx.empty) ≡ edge_weight edges
    weight-edge_weight edges = λ i a b.
        (weight-add_edges edges nx.empty a b
            ∙ ap (λ w. last_weight w edges a b) (laws.weight-empty a b))
          i

    -- both ends of every edge are nodes
    abbrev Grounded : nx.DiGraph → Type 0
    Grounded g =
        (a b : String) (w : ℕ)
        → nx.weight g a b ≡ some w
        → (nx.has_node g a ≡ true) × (nx.has_node g b ≡ true)

    Grounded-add_edge :
        (g : nx.DiGraph) (u v : String) (w : ℕ) → Grounded g → Grounded (nx.add_edge u v w g)
    Grounded-add_edge g u v w known a b n h = ground (
      arith,
      laws.has_node-add_edge g u v w a,
      laws.has_node-add_edge g u v w b,
      laws.weight-add_edge g u v w a b,
      known a b n,
    )

    Grounded-add_edges :
        (edges : List EdgeSpec) (g : nx.DiGraph) → Grounded g → Grounded (add_edges nx edges g)
    unfolding add_edges
    Grounded-add_edges [] g known = known
    Grounded-add_edges (e ∷ edges) g known =
        Grounded-add_edges edges _ (Grounded-add_edge g _ _ _ known)

    -- A way with two ends passes nodes only.
    Walk-has_node :
        (g : nx.DiGraph)
        → Grounded g
        → (path : List String) (u v : String) (n : ℕ) → Walk (nx.weight g) path u v n
        → (u ≡ v) ⊎ ((nx.has_node g u ≡ true) × (nx.has_node g v ≡ true))
    Walk-has_node g known path u v n (stop w) = inl refl
    Walk-has_node g known path u v n (step x y z w m p e rest) = inr (
      (known x y w e).0,
      elim (Walk-has_node g known p y z m rest) [
        | inl same ↦ subst (λ k. nx.has_node g k ≡ true) same (known x y w e).1
        | inr nodes ↦ nodes.1
      ],
    )

    Grounded-empty : Grounded nx.empty
    Grounded-empty a b w h = absurd (cc (laws.weight-empty a b, h))

  Walk-length :
      (edge : String → String → Option ℕ) (path : List String) (u v : String) (n : ℕ)
      → Walk edge path u v n
      → (length path - 1) + 1 ≡ length path
  Walk-length edge path u v n (stop w) = refl
  Walk-length edge path u v n (step x y z w m p e rest) = omega arith

  -- A result that is an answer.
  abbrev pub IsAnswered :
      (String → String → Option ℕ) → String → String → Outcome PathError ChainResult → Type 0
  IsAnswered edge a b out = (r : ChainResult) × (out ≡ returned r) × Answers edge a b r

  chain_of-IsAnswered :
      (g : nx.DiGraph) (a b : String)
      → FindsShortest nx g a b
      → IsAnswered (nx.weight g) a b (chain_of nx g (nx.shortest_path g a b))
  chain_of-IsAnswered g a b finds = elim (Option-cases (nx.shortest_path g a b)) [
    | inl e ↦ rw e (_, refl, unreachable refl (finds.not_found e))
    | inr (path, e) ↦
        let (n, walk, least) = finds.found path e in
        rw (e, path_weight-Walk g path a b n walk)
          (_, refl, lightest n walk refl (Walk-length (nx.weight g) path a b n walk) least)
  ]

  module _ (laws : NetworkxLaws nx) where
    query-IsAnswered :
        (g : nx.DiGraph) (a b : String)
        → Grounded laws g
        → ¬ (a ≡ b)
        → FindsShortest nx g a b
        → IsAnswered (nx.weight g) a b (query nx g a b)
    query-IsAnswered g a b known differ finds =
        elim (Bool-cases (not (nx.has_node g a) || not (nx.has_node g b))) [
          | inl e ↦ rw e (
            _,
            refl,
            unreachable refl λ path n walk. elim (Walk-has_node laws g known path a b n walk) [
              | inl same ↦ differ same
              | inr nodes ↦ ground arith
            ],
          )
          | inr e ↦ rw e (chain_of-IsAnswered g a b finds)
        ]

    -- `with_edges` raises nothing. Its chain is a lightest way along the edges that it was given,
    -- with that way's weight and one hop less than it has versions; where no such way leads from
    -- one version to the other, its chain is empty. This is under what networkx documents of its
    -- graphs and of `shortest_path` on this query.
    pub with_edges-IsAnswered :
        (graphs : Graphs nx) (platform : String) (edges : List EdgeSpec) (a b : String)
        → FindsShortest nx (add_edges nx edges nx.empty) a b
        → IsAnswered (edge_weight edges) a b (with_edges nx graphs platform edges a b).0
    unfolding with_edges shortest_path rebuild get_graph
    with_edges-IsAnswered graphs platform edges a b finds = elim (Bool-cases (str_eq a b)) [
      | inl e ↦ rw e (
        zero_hop a,
        refl,
        lightest 0
            (subst (λ v. Walk (edge_weight edges) (a ∷ []) a v 0) ((eq_iff a b).0 e) (stop a)) refl
            refl λ path n walk. omega arith,
      )
      | inr e ↦
          rw (e, eq_refl platform)
            (subst (λ edge. IsAnswered edge a b (query nx (add_edges nx edges nx.empty) a b))
              (weight-edge_weight laws edges)
              (query-IsAnswered (add_edges nx edges nx.empty) a b
                (Grounded-add_edges laws edges nx.empty (Grounded-empty laws))
                (λ same. cc ((eq_iff a b).1 same, e)) finds))
    ]
