-- ===== src/Graph/Query/Scratch.antt =====
-- crates/rxgraph/src/graph/graph.rs: the batched queries. A node is visited in a query if it holds
-- the generation of the query, so that the marks need not be cleared between queries.
pub mod Generation
use rxgraph.Prelude.{
  ℕ, zero, suc, ◌+◌, true, false, Option, none, some, List, [], ◌∷◌, ◌++◌, leb, ◌==◌, get_elem?,
  length, replicate,
}
use rxgraph.Prelude.Words.{u32_max}
use rxgraph.Result.{Result, ok, out_of_fuel, ◌>>=◌, index, store}
use rxgraph.Graph.Csr.{NodeId}
use rxgraph.Graph.Identity.{internal_node_u64, has_u64_ids}
use rxgraph.Graph.Repo.{Repo}
use rxgraph.Graph.Walk.{outgoing_dests}
use rxgraph.Graph.Query.{node_to_u64, materialize_nodes_u64_slice}
use rxgraph.Graph.Query.Path.{path_loop, materialize_path_u64}

pub record TopologyScratch : Type 0 where
  pub visited : List ℕ
  pub generation : ℕ
  pub parent : List NodeId
  pub frontier : List NodeId
  pub depth_frontier : List (NodeId × ℕ)

unfoldable pub new : ℕ → TopologyScratch
new node_count = record {
  visited = replicate node_count 0;
  generation = 0;
  parent = replicate node_count u32_max;
  frontier = [];
  depth_frontier = [];
}

unfoldable pub next_generation : TopologyScratch → TopologyScratch
next_generation s = elim (s.generation == u32_max) [
  | true ↦ record s { visited = replicate (length s.visited) 0; generation = 1 }
  | false ↦ record s { generation = s.generation + 1 }
]

-- The loop over the destinations, without a limit and with one.
unfoldable pub stamp : List NodeId → TopologyScratch → Result TopologyScratch
stamp [] s = ok s
stamp (dest ∷ dests) s = do
  old ← index s.visited dest
  elim (old == s.generation) [
    | true ↦ stamp dests s
    | false ↦ do
      visited ← store s.visited dest s.generation
      stamp dests (record s { visited = visited; frontier = s.frontier ++ dest ∷ [] })
  ]

unfoldable pub stamp_layer : ℕ → List NodeId → TopologyScratch → Result TopologyScratch
stamp_layer depth [] s = ok s
stamp_layer depth (dest ∷ dests) s = do
  old ← index s.visited dest
  elim (old == s.generation) [
    | true ↦ stamp_layer depth dests s
    | false ↦ do
      visited ← store s.visited dest s.generation
      stamp_layer depth dests (record s {
        visited = visited;
        depth_frontier = s.depth_frontier ++ (dest, depth + 1) ∷ [];
      })
  ]

unfoldable pub stamp_loop : Repo → ℕ → ℕ → TopologyScratch → Result TopologyScratch
unfolding stamp
stamp_loop r zero head s = out_of_fuel
stamp_loop r (suc fuel) head s = elim (get_elem? s.frontier head) [
  | none ↦ ok s
  | some node ↦ do
    dests ← outgoing_dests r node
    stamped ← stamp dests s
    stamp_loop r fuel (suc head) stamped
]

unfoldable pub stamp_layer_loop : Repo → ℕ → ℕ → ℕ → TopologyScratch → Result TopologyScratch
unfolding stamp_layer
stamp_layer_loop r max_depth zero head s = out_of_fuel
stamp_layer_loop r max_depth (suc fuel) head s = elim (get_elem? s.depth_frontier head) [
  | none ↦ ok s
  | some (node, depth) ↦ elim (leb max_depth depth) [
    | true ↦
        stamp_layer_loop r max_depth fuel (suc head)
          (record s { frontier = s.frontier ++ node ∷ [] })
    | false ↦ do
      dests ← outgoing_dests r node
      stamped ← stamp_layer depth dests (record s { frontier = s.frontier ++ node ∷ [] })
      stamp_layer_loop r max_depth fuel (suc head) stamped
  ]
]

-- The walk of one query, after `next_generation`.
unfoldable pub bfs_stamped : Repo → NodeId → Option ℕ → TopologyScratch → Result TopologyScratch
unfolding stamp_loop stamp_layer_loop
bfs_stamped r start none s = do
  visited ← store s.visited start s.generation
  stamp_loop r (r.node_count + 1) 0 (record s { visited = visited; frontier = start ∷ [] })
bfs_stamped r start (some max_depth) s = do
  visited ← store s.visited start s.generation
  stamp_layer_loop r max_depth (r.node_count + 1) 0
      (record s { visited = visited; frontier = []; depth_frontier = (start, 0) ∷ [] })

unfoldable pub bfs_u64_with_scratch :
    Repo → ℕ → Option ℕ → TopologyScratch → Result (Option (List ℕ) × TopologyScratch)
unfolding next_generation bfs_stamped
bfs_u64_with_scratch r start max_depth s = elim (internal_node_u64 r.identity start) [
  | none ↦ ok (none, s)
  | some node ↦ do
    done ← bfs_stamped r node max_depth (next_generation s)
    ids ← materialize_nodes_u64_slice r done.frontier
    ok (some ids, done)
]

unfoldable pub shortest_path_u64_with_scratch :
    Repo → ℕ → ℕ → TopologyScratch → Result (Option (List ℕ) × TopologyScratch)
unfolding next_generation
shortest_path_u64_with_scratch r from to s = elim (internal_node_u64 r.identity from) [
  | none ↦ ok (none, s)
  | some source ↦ elim (internal_node_u64 r.identity to) [
    | none ↦ ok (none, s)
    | some target ↦ elim (source == target) [
      | true ↦ do id ← node_to_u64 r source; ok (some (id ∷ []), s)
      | false ↦ do
        let fresh = next_generation s
        visited ← store fresh.visited source fresh.generation
        (found, swept) ←
            path_loop (λ old. old == fresh.generation) fresh.generation (λ node. node) r target
              (r.node_count + 1) 0
              (record { visited = visited; parent = fresh.parent; frontier = source ∷ [] })
        let after = record fresh {
          visited = swept.visited;
          parent = swept.parent;
          frontier = swept.frontier;
        }
        elim found [
          | false ↦ ok (none, after)
          | true ↦ do
            path ← materialize_path_u64 r source target after.parent
            ok (some path, after)
        ]
    ]
  ]
]

-- One scratch is handed on from query to query.
module _ {Q A : Type 0} (query : Q → TopologyScratch → Result (A × TopologyScratch)) where
  unfoldable pub in_turn : List Q → TopologyScratch → Result (List A)
  in_turn [] s = ok []
  in_turn (q ∷ qs) s = do
    (answer, after) ← query q s
    answers ← in_turn qs after
    ok (answer ∷ answers)

unfoldable pub bfs_many_u64 : Repo → List ℕ → Option ℕ → Result (Option (List (Option (List ℕ))))
unfolding new in_turn bfs_u64_with_scratch
bfs_many_u64 r starts max_depth = elim (has_u64_ids r.identity) [
  | false ↦ ok none
  | true ↦ do
    answers ←
        in_turn (λ start s. bfs_u64_with_scratch r start max_depth s) starts (new r.node_count)
    ok (some answers)
]

unfoldable pub shortest_paths_u64 : Repo → List (ℕ × ℕ) → Result (Option (List (Option (List ℕ))))
unfolding new in_turn shortest_path_u64_with_scratch
shortest_paths_u64 r queries = elim (has_u64_ids r.identity) [
  | false ↦ ok none
  | true ↦ do
    answers ← in_turn (λ q s. shortest_path_u64_with_scratch r q.0 q.1 s) queries (new r.node_count)
    ok (some answers)
]
