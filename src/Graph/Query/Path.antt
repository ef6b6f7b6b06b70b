-- ===== src/Graph/Query/Path.antt =====
-- crates/rxgraph/src/graph/graph.rs: shortest paths. The three searches differ in how a node is
-- marked and in what a parent entry holds.
use rxgraph.Prelude.{
  ℕ, zero, suc, ◌+◌, Bool, true, false, Option, none, some, List, [], ◌∷◌, ◌++◌, reverse, ◌==◌,
  get_elem?, replicate,
}
use rxgraph.Prelude.Words.{u32_max}
use rxgraph.Result.{GraphId, Result, ok, out_of_fuel, ◌>>=◌, or_panic, index, store}
use rxgraph.Graph.Csr.{NodeId}
use rxgraph.Graph.Identity.{internal_node_u64}
use rxgraph.Graph.Repo.{Repo}
use rxgraph.Graph.Walk.{outgoing_dests}
use rxgraph.Graph.Query.{required_internal_node, external_node, node_to_u64}

pub record PathSearch (V P : Type 0) : Type 0 where
  pub visited : List V
  pub parent : List P
  pub frontier : List NodeId

module _ {V P : Type 0} (seen : V → Bool) (mark : V) (link : NodeId → P) where
  -- The loop over the destinations of `node`; true when it meets the target.
  unfoldable pub sweep :
      NodeId → NodeId → List NodeId → PathSearch V P → Result (Bool × PathSearch V P)
  sweep target node [] s = ok (false, s)
  sweep target node (dest ∷ dests) s = do
    old ← index s.visited dest
    elim (seen old) [
      | true ↦ sweep target node dests s
      | false ↦ do
        visited ← store s.visited dest mark
        parent ← store s.parent dest (link node)
        elim (dest == target) [
          | true ↦ ok (true, record { visited = visited; parent = parent; frontier = s.frontier })
          | false ↦
              sweep target node dests
                (record { visited = visited; parent = parent; frontier = s.frontier ++ dest ∷ [] })
        ]
    ]

  unfoldable pub path_loop : Repo → NodeId → ℕ → ℕ → PathSearch V P → Result (Bool × PathSearch V P)
  unfolding sweep
  path_loop r target zero head s = out_of_fuel
  path_loop r target (suc fuel) head s = elim (get_elem? s.frontier head) [
    | none ↦ ok (false, s)
    | some node ↦ do
      dests ← outgoing_dests r node
      (found, swept) ← sweep target node dests s
      elim found [ true ↦ ok (true, swept) | false ↦ path_loop r target fuel (suc head) swept ]
  ]

module _ {P A : Type 0} (name : NodeId → Result A) (up : P → Result NodeId) where
  -- `path` grows at its end, and is reversed after the source.
  unfoldable pub parent_loop : ℕ → NodeId → NodeId → List P → List A → Result (List A)
  parent_loop zero source node parent path = out_of_fuel
  parent_loop (suc fuel) source node parent path = elim (node == source) [
    | true ↦ do id ← name source; ok (reverse (path ++ id ∷ []))
    | false ↦ do
      id ← name node
      entry ← index parent node
      next ← up entry
      parent_loop fuel source next parent (path ++ id ∷ [])
  ]

unfoldable pub materialize_path :
    Repo → NodeId → NodeId → List (Option NodeId) → Result (List GraphId)
unfolding parent_loop
materialize_path r source target parent =
    parent_loop (external_node r) or_panic (r.node_count + 1) source target parent []

unfoldable pub materialize_path_u64 : Repo → NodeId → NodeId → List NodeId → Result (List ℕ)
unfolding parent_loop
materialize_path_u64 r source target parent =
    parent_loop (node_to_u64 r) ok (r.node_count + 1) source target parent []

unfoldable pub shortest_path : Repo → GraphId → GraphId → Result (Option (List GraphId))
unfolding path_loop materialize_path
shortest_path r from to = do
  source ← required_internal_node r from
  target ← required_internal_node r to
  elim (source == target) [
    | true ↦ do id ← external_node r source; ok (some (id ∷ []))
    | false ↦ do
      visited ← store (replicate r.node_count false) source true
      (found, s) ←
          path_loop (λ old. old) true some r target (r.node_count + 1) 0
            (record {
              visited = visited;
              parent = replicate r.node_count none;
              frontier = source ∷ [];
            })
      elim found [
        | false ↦ ok none
        | true ↦ do path ← materialize_path r source target s.parent; ok (some path)
      ]
  ]

unfoldable pub shortest_path_u64 : Repo → ℕ → ℕ → Result (Option (Option (List ℕ)))
unfolding path_loop materialize_path_u64
shortest_path_u64 r from to = elim (internal_node_u64 r.identity from) [
  | none ↦ ok none
  | some source ↦ elim (internal_node_u64 r.identity to) [
    | none ↦ ok none
    | some target ↦ elim (source == target) [
      | true ↦ ok (some (some (from ∷ [])))
      | false ↦ do
        visited ← store (replicate r.node_count false) source true
        (found, s) ←
            path_loop (λ old. old) true (λ node. node) r target (r.node_count + 1) 0
              (record {
                visited = visited;
                parent = replicate r.node_count u32_max;
                frontier = source ∷ [];
              })
        elim found [
          | false ↦ ok (some none)
          | true ↦ do path ← materialize_path_u64 r source target s.parent; ok (some (some path))
        ]
    ]
  ]
]
