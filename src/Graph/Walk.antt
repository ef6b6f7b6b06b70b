-- ===== src/Graph/Walk.antt =====
-- crates/rxgraph/src/graph/graph.rs: the walks over node ids of `impl Graph`. The bytes of a
-- `visited` vector are 0 or 1, here Booleans. A loop `while let Some(&node) = frontier.get(head)` is
-- given one round more than there are nodes.
pub mod Reach
pub mod Marking
pub mod Topology
pub mod Bounded
use rxgraph.Prelude.{
  ℕ, zero, suc, ◌+◌, Bool, true, false, Option, none, some, List, [], ◌∷◌, ◌++◌, length, get_elem?,
  drop, replicate,
}
use rxgraph.Result.{Result, ok, panic, out_of_fuel, ◌>>=◌, index, store}
use rxgraph.Graph.Csr.{NodeId}
use rxgraph.Graph.Repo.{Repo, outgoing_slice, incoming}

pub record Frontier : Type 0 where
  pub visited : List Bool
  pub queue : List NodeId

-- The body of the loop over the neighbors of a node.
unfoldable pub visit : NodeId → Frontier → Result Frontier
visit dest f = do
  seen ← index f.visited dest
  elim seen [
    | true ↦ ok f
    | false ↦ do
      visited ← store f.visited dest true
      ok (record { visited = visited; queue = f.queue ++ dest ∷ [] })
  ]

unfoldable pub visit_all : List NodeId → Frontier → Result Frontier
visit_all [] f = ok f
visit_all (dest ∷ dests) f = do g ← visit dest f; visit_all dests g

unfoldable pub expand : (NodeId → Result (List NodeId)) → ℕ → ℕ → Frontier → Result (List NodeId)
expand neighbors zero head f = out_of_fuel
expand neighbors (suc fuel) head f = elim (get_elem? f.queue head) [
  | none ↦ ok f.queue
  | some node ↦ do dests ← neighbors node; g ← visit_all dests f; expand neighbors fuel (suc head) g
]

unfoldable pub outgoing_dests : Repo → NodeId → Result (List NodeId)
outgoing_dests r node = do row ← outgoing_slice r node; ok row.1

unfoldable pub walk_breadth_first_unbounded : Repo → NodeId → Result (List NodeId)
walk_breadth_first_unbounded r start = do
  visited ← store (replicate r.node_count false) start true
  expand (outgoing_dests r) (r.node_count + 1) 0 (record { visited = visited; queue = start ∷ [] })

-- The two loops over a row in `walk_many`.
unfoldable pub neighbors : Repo → Bool → NodeId → Result (List NodeId)
neighbors r true node = incoming r node
neighbors r false node = outgoing_dests r node

unfoldable pub walk_many : Repo → List NodeId → Bool → Result (List NodeId)
walk_many r [] is_incoming = ok []
walk_many r (seed ∷ seeds) is_incoming = do
  f ← visit_all (seed ∷ seeds) (record { visited = replicate r.node_count false; queue = [] })
  frontier ← expand (neighbors r is_incoming) (r.node_count + 1) 0 f
  ok (drop (length f.queue) frontier)
