-- ===== src/UpgradePath.antt =====
-- gard/core/upgrade_path_graph.py: the cache of upgrade graphs. networkx is a parameter: the
-- operations that the code calls, and what its documentation says of them.
pub mod Walks
use gard.Prelude.{
  ℕ, zero, suc, String, Bool, true, false, Option, none, some, List, [], ◌∷◌, ◌≡◌, ◌||◌, ◌&&◌, ◌+◌,
  ◌-◌, ◌≤◌, not, str_eq, length, filter_by, is_some, if◌then◌else◌,
}
use gard.Prelude.Tx.{Outcome, returned, raised, and_then}
use gard.Envelope.{Json, str, Detail}

-- What the code calls of networkx: `DiGraph()`, `add_edge`, `in g.nodes`, the attribute `weight`
-- of `g.edges[u, v]` (`none` where there is no such edge), and `shortest_path` (`none` where it
-- raises `NetworkXNoPath`).
pub record Networkx : Type 1 where
  pub DiGraph : Type 0
  pub empty : DiGraph
  pub add_edge : String → String → ℕ → DiGraph → DiGraph
  pub has_node : DiGraph → String → Bool
  pub weight : DiGraph → String → String → Option ℕ
  pub shortest_path : DiGraph → String → String → Option (List String)

-- A graph holds the nodes and the edges that were added; adding an edge again sets its weight.
pub record NetworkxLaws (nx : Networkx) : Type 0 where
  pub has_node-add_edge :
      (g : nx.DiGraph) (u v : String) (w : ℕ) (x : String)
      → nx.has_node (nx.add_edge u v w g) x ≡ (str_eq x u || (str_eq x v || nx.has_node g x))
  pub weight-empty : (a b : String) → nx.weight nx.empty a b ≡ none
  pub weight-add_edge :
      (g : nx.DiGraph) (u v : String) (w : ℕ) (a b : String)
      → nx.weight (nx.add_edge u v w g) a b
        ≡ (if str_eq a u && str_eq b v then some w else nx.weight g a b)

-- A way from one version to another along edges, with the versions that it passes and its weight.
pub data Walk (edge : String → String → Option ℕ) : List String → String → String → ℕ → Type 0 where
  stop : (v : String) → Walk edge (v ∷ []) v v 0
  step :
      (u v x : String) (w n : ℕ) (path : List String)
      → edge u v ≡ some w
      → Walk edge path v x n
      → Walk edge (u ∷ path) u x (w + n)

-- What `nx.shortest_path` promises of one query: a lightest way, or that there is none.
pub record FindsShortest (nx : Networkx) (g : nx.DiGraph) (u v : String) : Type 0 where
  pub found :
      (path : List String)
      → nx.shortest_path g u v ≡ some path
      → (n : ℕ) × Walk (nx.weight g) path u v n
        × ((path' : List String) (n' : ℕ) → Walk (nx.weight g) path' u v n' → n ≤ n')
  pub not_found :
      nx.shortest_path g u v ≡ none → (path : List String) (n : ℕ) → ¬ Walk (nx.weight g) path u v n

pub record EdgeSpec : Type 0 where
  pub from_version : String
  pub to_version : String
  pub weight : ℕ

pub data PathReasonKind : Type 0 where
  no_path platform_not_found : PathReasonKind

pub record ChainResult : Type 0 where
  pub chain : List String
  pub total_weight : Option ℕ
  pub hops : ℕ
  pub reasons : List (PathReasonKind × Option Detail)

-- `ChainResult.empty`
abbrev pub empty_result : PathReasonKind → Option Detail → ChainResult
empty_result reason detail = record {
  chain = [];
  total_weight = none;
  hops = 0;
  reasons = (reason, detail) ∷ [];
}

-- `ChainResult.zero_hop`
abbrev pub zero_hop : String → ChainResult
zero_hop version = record { chain = version ∷ []; total_weight = some 0; hops = 0; reasons = [] }

-- the `KeyError` of `g.edges[u, v]`
pub data PathError : Type 0 where
  no_such_edge : PathError

module _ (nx : Networkx) where
  -- `_graphs`
  abbrev pub Graphs : Type 0
  Graphs = List (String × nx.DiGraph)

  -- `_graphs.get(platform_family)`
  unfoldable pub get_graph : String → Graphs → Option nx.DiGraph
  get_graph platform [] = none
  get_graph platform ((p, g) ∷ graphs) =
      let rest = get_graph platform graphs in if str_eq p platform then some g else rest

  -- `_graphs.pop(platform_family, None)`
  abbrev pub drop_graph : String → Graphs → Graphs
  drop_graph platform graphs = filter_by (λ entry. not (str_eq entry.0 platform)) graphs

  -- `invalidate`
  unfoldable pub invalidate : Option String → Graphs → Graphs
  invalidate none graphs = []
  invalidate (some platform) graphs = drop_graph platform graphs

  -- the loop of `rebuild`
  unfoldable pub add_edges : List EdgeSpec → nx.DiGraph → nx.DiGraph
  add_edges [] g = g
  add_edges (e ∷ edges) g = add_edges edges (nx.add_edge e.from_version e.to_version e.weight g)

  -- `rebuild`
  unfoldable pub rebuild : String → List EdgeSpec → Graphs → Graphs
  rebuild platform edges graphs = (platform, add_edges edges nx.empty) ∷ drop_graph platform graphs

  -- `has_platform`
  unfoldable pub has_platform : String → Graphs → Bool
  unfolding get_graph
  has_platform platform graphs = is_some (get_graph platform graphs)

  -- the sum over `itertools.pairwise(path)`
  unfoldable pub path_weight : nx.DiGraph → List String → Outcome PathError ℕ
  path_weight g [] = returned 0
  path_weight g (u ∷ []) = returned 0
  path_weight g (u ∷ v ∷ path) =
      let rest = path_weight g (v ∷ path) in
      elim (nx.weight g u v) [
        | none ↦ raised no_such_edge
        | some w ↦ and_then rest λ n. returned (w + n)
      ]

  -- the query of one graph, from `nx.shortest_path` on
  abbrev pub chain_of : nx.DiGraph → Option (List String) → Outcome PathError ChainResult
  chain_of g none = returned (empty_result no_path none)
  chain_of g (some path) = and_then (path_weight g path) λ total.
      returned
        (record { chain = path; total_weight = some total; hops = length path - 1; reasons = [] })

  abbrev pub query : nx.DiGraph → String → String → Outcome PathError ChainResult
  query g from_version to_version =
      if not (nx.has_node g from_version) || not (nx.has_node g to_version)
      then returned (
          empty_result no_path (
            some (record {
              template = "version not in graph: from={!r} to={!r}";
              args = str from_version ∷ str to_version ∷ [];
            })))
      else chain_of g (nx.shortest_path g from_version to_version)

  -- `shortest_path`
  unfoldable pub shortest_path : Graphs → String → String → String → Outcome PathError ChainResult
  unfolding get_graph
  shortest_path graphs platform from_version to_version =
      if str_eq from_version to_version
      then returned (zero_hop from_version)
      else elim (get_graph platform graphs) [
        | none ↦ returned (
            empty_result platform_not_found (
              some (record {
                template = "no edges loaded for platform_family={}";
                args = str platform ∷ [];
              })))
        | some g ↦ query g from_version to_version
      ]

  -- `with_edges`: the result, and the cache after it
  unfoldable pub with_edges :
      Graphs → String → List EdgeSpec → String → String → Outcome PathError ChainResult × Graphs
  unfolding rebuild shortest_path
  with_edges graphs platform edges from_version to_version =
      let graphs' = rebuild platform edges graphs in
      (shortest_path graphs' platform from_version to_version, graphs')
