-- ===== src/Graph/Query.antt =====
-- crates/rxgraph/src/graph/graph.rs: the queries of `Graph` by external ids. A `Graph` is its repo.
pub mod Path
pub mod Scratch
pub mod Components
use rxgraph.Prelude.{ℕ, Bool, true, false, Option, none, some, List, [], ◌∷◌}
use rxgraph.Result.{
  GraphId, Result, ok, err, ◌>>=◌, or_err, or_panic, map_result, unknown_node, no_u64_id,
}
use rxgraph.Graph.Csr.{NodeId}
use rxgraph.Graph.Identity
use rxgraph.Graph.Identity.{
  internal_node, has_u64_ids, internal_node_u64, external_node_u64, is_contiguous_u64,
}
use rxgraph.Graph.Repo.{Repo}
use rxgraph.Graph.Walk.{walk_many}
use rxgraph.Graph.Walk.Bounded.{walk_breadth_first, walk_depth_first}

unfoldable pub required_internal_node : Repo → GraphId → Result NodeId
required_internal_node r external =
    or_err (internal_node r.identity external) (unknown_node external)

unfoldable pub external_node : Repo → NodeId → Result GraphId
external_node r node = or_panic (Identity.external_node r.identity node)

unfoldable pub node_to_u64 : Repo → NodeId → Result ℕ
node_to_u64 r node = elim (is_contiguous_u64 r.identity) [
  | true ↦ ok node
  | false ↦ or_err (external_node_u64 r.identity node) no_u64_id
]

unfoldable pub materialize_nodes_u64_slice : Repo → List NodeId → Result (List ℕ)
unfolding node_to_u64
materialize_nodes_u64_slice r nodes = map_result (node_to_u64 r) nodes

unfoldable pub materialize_nodes_u64 : Repo → List NodeId → Result (Option (List ℕ))
materialize_nodes_u64 r nodes = do ids ← materialize_nodes_u64_slice r nodes; ok (some ids)

unfoldable pub bfs : Repo → GraphId → Option ℕ → Result (List GraphId)
unfolding required_internal_node external_node
bfs r start max_depth = do
  node ← required_internal_node r start
  nodes ← walk_breadth_first r node max_depth
  map_result (external_node r) nodes

unfoldable pub bfs_u64 : Repo → ℕ → Option ℕ → Result (Option (List ℕ))
bfs_u64 r start max_depth = elim (internal_node_u64 r.identity start) [
  | none ↦ ok none
  | some node ↦ do nodes ← walk_breadth_first r node max_depth; materialize_nodes_u64 r nodes
]

unfoldable pub dfs : Repo → GraphId → Option ℕ → Result (List GraphId)
unfolding required_internal_node external_node
dfs r start max_depth = do
  node ← required_internal_node r start
  nodes ← walk_depth_first r node max_depth
  map_result (external_node r) nodes

unfoldable pub dfs_u64 : Repo → ℕ → Option ℕ → Result (Option (List ℕ))
dfs_u64 r start max_depth = elim (internal_node_u64 r.identity start) [
  | none ↦ ok none
  | some node ↦ do nodes ← walk_depth_first r node max_depth; materialize_nodes_u64 r nodes
]

unfoldable pub reachable_nodes : Repo → GraphId → Result (List GraphId)
unfolding bfs
reachable_nodes r start = bfs r start none

unfoldable pub reachable_nodes_u64 : Repo → ℕ → Result (Option (List ℕ))
unfolding bfs_u64
reachable_nodes_u64 r start = bfs_u64 r start none

-- `iter().map(f).collect::<Option<Vec<_>>>()`.
unfoldable pub all_internal : Repo → List ℕ → Option (List NodeId)
all_internal r [] = some []
all_internal r (id ∷ ids) = elim (internal_node_u64 r.identity id) [
  | none ↦ none
  | some node ↦ elim (all_internal r ids) [ none ↦ none | some nodes ↦ some (node ∷ nodes) ]
]

-- `ancestors_many` and `descendants_many` walk from all seeds, along the incoming edges or not.
unfoldable pub related_many : Bool → Repo → List GraphId → Result (List GraphId)
unfolding required_internal_node external_node
related_many is_incoming r seeds = do
  nodes ← map_result (required_internal_node r) seeds
  found ← walk_many r nodes is_incoming
  map_result (external_node r) found

unfoldable pub related_many_u64 : Bool → Repo → List ℕ → Result (Option (List ℕ))
unfolding all_internal
related_many_u64 is_incoming r seeds = elim (has_u64_ids r.identity) [
  | false ↦ ok none
  | true ↦ elim (all_internal r seeds) [
    | none ↦ ok none
    | some nodes ↦ do found ← walk_many r nodes is_incoming; materialize_nodes_u64 r found
  ]
]

unfoldable pub ancestors_many : Repo → List GraphId → Result (List GraphId)
unfolding related_many
ancestors_many = related_many true

unfoldable pub descendants_many : Repo → List GraphId → Result (List GraphId)
unfolding related_many
descendants_many = related_many false

unfoldable pub ancestors_many_u64 : Repo → List ℕ → Result (Option (List ℕ))
unfolding related_many_u64
ancestors_many_u64 = related_many_u64 true

unfoldable pub descendants_many_u64 : Repo → List ℕ → Result (Option (List ℕ))
unfolding related_many_u64
descendants_many_u64 = related_many_u64 false
