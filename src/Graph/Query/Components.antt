-- ===== src/Graph/Query/Components.antt =====
-- crates/rxgraph/src/graph/graph.rs: weakly connected components.
use rxgraph.Prelude.{
  ℕ, zero, suc, ◌+◌, Bool, true, false, none, some, List, [], ◌∷◌, ◌++◌, get_elem?, replicate,
}
use rxgraph.Result.{GraphId, Result, ok, out_of_fuel, ◌>>=◌, index, store}
use rxgraph.Graph.Csr.{NodeId}
use rxgraph.Graph.Repo.{Repo, outgoing, incoming}
use rxgraph.Graph.Walk.{Frontier, visit_all}
use rxgraph.Graph.Query.{external_node}
use mathlib.Core.List

-- The loop over one component, along both directions, with the component as it grows.
unfoldable pub component_loop :
    Repo → ℕ → ℕ → Frontier → List GraphId → Result (List Bool × List GraphId)
component_loop r zero head f component = out_of_fuel
component_loop r (suc fuel) head f component = elim (get_elem? f.queue head) [
  | none ↦ ok (f.visited, component)
  | some node ↦ do
    id ← external_node r node
    edges ← outgoing r node
    ahead ← visit_all (List.map (λ e. e.1) edges) f
    srcs ← incoming r node
    both ← visit_all srcs ahead
    component_loop r fuel (suc head) both (component ++ id ∷ [])
]

-- The loop over the starts, with the starts left.
unfoldable pub components_loop :
    Repo → ℕ → NodeId → List Bool → List (List GraphId) → Result (List (List GraphId))
unfolding component_loop
components_loop r zero start visited components = ok components
components_loop r (suc rounds) start visited components = do
  seen ← index visited start
  elim seen [
    | true ↦ components_loop r rounds (suc start) visited components
    | false ↦ do
      marked ← store visited start true
      (next, component) ←
          component_loop r (r.node_count + 1) 0 (record { visited = marked; queue = start ∷ [] }) []
      components_loop r rounds (suc start) next (components ++ component ∷ [])
  ]

unfoldable pub weakly_connected_components : Repo → Result (List (List GraphId))
unfolding components_loop
weakly_connected_components r = components_loop r r.node_count 0 (replicate r.node_count false) []
