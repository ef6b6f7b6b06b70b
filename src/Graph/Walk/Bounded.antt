-- ===== src/Graph/Walk/Bounded.antt =====
-- crates/rxgraph/src/graph/graph.rs: the walks with a depth limit.
use rxgraph.Prelude.{
  ℕ, zero, suc, ◌+◌, Bool, true, false, Option, none, some, List, [], ◌∷◌, ◌++◌, reverse, leb,
  get_elem?, replicate,
}
use rxgraph.Result.{Result, ok, out_of_fuel, ◌>>=◌, index, store}
use rxgraph.Graph.Csr.{NodeId}
use rxgraph.Graph.Repo.{Repo}
use rxgraph.Graph.Walk.{outgoing_dests, walk_breadth_first_unbounded}

-- `max_depth.is_some_and(|max| depth >= max)`.
unfoldable pub at_depth : Option ℕ → ℕ → Bool
at_depth none depth = false
at_depth (some limit) depth = leb limit depth

pub record Layers : Type 0 where
  pub visited : List Bool
  pub queue : List (NodeId × ℕ)

unfoldable pub visit_layer : ℕ → List NodeId → Layers → Result Layers
visit_layer depth [] f = ok f
visit_layer depth (dest ∷ dests) f = do
  seen ← index f.visited dest
  elim seen [
    | true ↦ visit_layer depth dests f
    | false ↦ do
      visited ← store f.visited dest true
      visit_layer depth dests
          (record { visited = visited; queue = f.queue ++ (dest, depth + 1) ∷ [] })
  ]

-- The loop, with `order` as it grows.
unfoldable pub layer_loop : Repo → Option ℕ → ℕ → ℕ → Layers → List NodeId → Result (List NodeId)
unfolding at_depth
layer_loop r max_depth zero head f order = out_of_fuel
layer_loop r max_depth (suc fuel) head f order = elim (get_elem? f.queue head) [
  | none ↦ ok order
  | some (node, depth) ↦ elim (at_depth max_depth depth) [
    | true ↦ layer_loop r max_depth fuel (suc head) f (order ++ node ∷ [])
    | false ↦ do
      dests ← outgoing_dests r node
      g ← visit_layer depth dests f
      layer_loop r max_depth fuel (suc head) g (order ++ node ∷ [])
  ]
]

unfoldable pub walk_breadth_first : Repo → NodeId → Option ℕ → Result (List NodeId)
unfolding layer_loop
walk_breadth_first r start none = walk_breadth_first_unbounded r start
walk_breadth_first r start (some limit) = do
  visited ← store (replicate r.node_count false) start true
  layer_loop r (some limit) (r.node_count + 1) 0
      (record { visited = visited; queue = (start, 0) ∷ [] }) []

-- The unvisited destinations go on the stack; its top stands first.
unfoldable pub push_unvisited :
    List Bool → ℕ → List NodeId → List (NodeId × ℕ) → Result (List (NodeId × ℕ))
push_unvisited visited depth [] stack = ok stack
push_unvisited visited depth (dest ∷ dests) stack = do
  seen ← index visited dest
  elim seen [
    | true ↦ push_unvisited visited depth dests stack
    | false ↦ push_unvisited visited depth dests ((dest, depth + 1) ∷ stack)
  ]

unfoldable pub stack_loop :
    Repo → Option ℕ → ℕ → List Bool → List NodeId → List (NodeId × ℕ) → Result (List NodeId)
unfolding at_depth push_unvisited
stack_loop r max_depth zero visited order stack = out_of_fuel
stack_loop r max_depth (suc fuel) visited order [] = ok order
stack_loop r max_depth (suc fuel) visited order ((node, depth) ∷ stack) = do
  seen ← index visited node
  elim seen [
    | true ↦ stack_loop r max_depth fuel visited order stack
    | false ↦ do
      marked ← store visited node true
      elim (at_depth max_depth depth) [
        | true ↦ stack_loop r max_depth fuel marked (order ++ node ∷ []) stack
        | false ↦ do
          dests ← outgoing_dests r node
          pushed ← push_unvisited marked depth (reverse dests) stack
          stack_loop r max_depth fuel marked (order ++ node ∷ []) pushed
      ]
  ]

-- Each edge is pushed at most once: the loop is given two rounds more than there are edges.
unfoldable pub walk_depth_first : Repo → NodeId → Option ℕ → Result (List NodeId)
unfolding stack_loop
walk_depth_first r start max_depth =
    stack_loop r max_depth (r.edge_count + 2) (replicate r.node_count false) [] ((start, 0) ∷ [])
