-- ===== src/Traversal/Adapter.antt =====
-- crates/rxgraph/src/traversal/algo.rs, `GraphSearchAdapter`: what a search asks, answered by a graph
-- and a kernel. A graph is its repo and the payload columns that a kernel reads. The vectors of
-- `materialize` are pushed and at the end reversed, so that each push goes in front here. The cache
-- is given to every transition as it was made; the reads that fill it are those of Kernel.
pub mod Route
use rxgraph.Prelude.{
  ℕ, zero, suc, ◌-◌, Bool, true, false, Option, none, some, List, [], ◌∷◌, length, map,
}
use rxgraph.Result.{
  GraphId, Result, ok, panic, out_of_fuel, ◌>>=◌, or_err, index, slice, map_result,
  missing_node_path, missing_edge_path,
}
use rxgraph.Graph.Csr.{NodeId, EdgeId}
use rxgraph.Graph.Identity.{Identity, internal_node, external_node, external_edge}
use rxgraph.Graph.Repo.{Repo, outgoing_slice}
use rxgraph.Dsl.Float.{Float}
use rxgraph.Dsl.Bound.{StateValue}
use rxgraph.Dsl.Bind.{PayloadGraph, BoundKernel, Transition, reject, continue, complete}
use rxgraph.Dsl.Bind
use rxgraph.Traversal.Arena.{PathEntry}
use rxgraph.Traversal.Kernel.{EdgeCtx, PayloadCache, new_cache}
use rxgraph.Traversal.Search.{SearchAdapter}
use mathlib.Core.List.{zip}

pub record Graph (F : Type 0) : Type 0 where
  pub repo : Repo
  pub payloads : PayloadGraph F

-- The trait `Kernel`.
pub record Kernel (F S : Type 0) : Type 0 where
  pub initial_state : Graph F → NodeId → Result S
  pub transition : EdgeCtx F S → PayloadCache F → Result (Transition S)

pub record GraphPath (O : Type 0) : Type 0 where
  pub nodes : List GraphId
  pub edges : List GraphId
  pub state : O
  pub intermediate_states : Option (List O)

-- What `eval_edge` makes of a transition.
unfoldable pub answer : {S : Type 0} → Transition S → Option (S × Bool)
answer reject = none
answer (continue state) = some (state, false)
answer (complete state) = some (state, true)

-- The vectors that a climb fills.
pub record Climbed (O : Type 0) : Type 0 where
  pub nodes : List GraphId
  pub edges : List GraphId
  pub states : Option (List O)

module _ {S O : Type 0} (identity : Identity) (project : S → Result O) where
  unfoldable pub climb_edge : Option EdgeId → List GraphId → Result (List GraphId)
  climb_edge none edges = ok edges
  climb_edge (some edge) edges = do
    id ← or_err (external_edge identity edge) missing_edge_path
    ok (id ∷ edges)

  unfoldable pub climb_state : S → Option (List O) → Result (Option (List O))
  climb_state state none = ok none
  climb_state state (some states) = do o ← project state; ok (some (o ∷ states))

  unfoldable pub climb_entry : PathEntry S → Climbed O → Result (Climbed O)
  unfolding climb_edge climb_state
  climb_entry e c = do
    id ← or_err (external_node identity e.node) missing_node_path
    edges ← climb_edge e.incoming_edge c.edges
    states ← climb_state e.state c.states
    ok (record { nodes = id ∷ c.nodes; edges = edges; states = states })

  -- The loop of `materialize`, from an entry to its start.
  unfoldable pub climb : ℕ → List (PathEntry S) → ℕ → Climbed O → Result (Climbed O)
  unfolding climb_entry
  climb zero arena path c = out_of_fuel
  climb (suc fuel) arena path c = do
    e ← index arena path
    next ← climb_entry e c
    elim e.parent [ none ↦ ok next | some parent ↦ climb fuel arena parent next ]

  unfoldable pub materialize : List (PathEntry S) → ℕ → Bool → Result (GraphPath O)
  unfolding climb
  materialize arena path intermediate_states = do
    e ← index arena path
    state ← project e.state
    let states : Option (List O) = elim intermediate_states [ true ↦ some [] | false ↦ none ]
    c ← climb (length arena) arena path (record { nodes = []; edges = []; states = states })
    ok (record { nodes = c.nodes; edges = c.edges; state = state; intermediate_states = c.states })

module _ {F S O : Type 0} (graph : Graph F) (kernel : Kernel F S) (project : S → Result O) where
  unfoldable pub out_degree : NodeId → Result ℕ
  out_degree node = do (edges, dests) ← outgoing_slice graph.repo node; ok (length edges)

  -- The edges that `for_each_range` visits.
  unfoldable pub range : NodeId → ℕ → ℕ → Result (List (EdgeId × NodeId))
  range node first last = do
    (edges, dests) ← outgoing_slice graph.repo node
    some_edges ← slice edges first last
    some_dests ← slice dests first last
    ok (zip some_edges some_dests)

  unfoldable pub eval_edge :
      NodeId → EdgeId → NodeId → S → PayloadCache F → Result (Option (S × Bool))
  unfolding answer
  eval_edge src edge dest state cache = do
    t ←
        kernel.transition
          (record { graph = graph.payloads; src = src; dest = dest; edge = edge; state = state })
          cache
    ok (answer t)

  unfoldable pub graph_adapter : SearchAdapter S (GraphPath O) (PayloadCache F)
  unfolding out_degree range eval_edge materialize
  graph_adapter = record {
    resolve_node = λ external. ok (internal_node graph.repo.identity external);
    initial_state = kernel.initial_state graph;
    dense_node_count = some graph.repo.node_count;
    prefetch_outgoing = λ nodes. ok tt;
    out_degree = out_degree;
    range = range;
    make_cache = new_cache;
    eval_edge = eval_edge;
    materialize = materialize graph.repo.identity project;
  }

-- A bound kernel of expressions is a kernel: crates/rxgraph/src/dsl/bind.rs.
unfoldable pub bound_kernel :
    {F : Type 0} ⦃float : Float F⦄ → BoundKernel F → Kernel F (List (StateValue F))
bound_kernel kernel = record {
  initial_state = λ graph start. ok kernel.initial_state;
  transition = λ cx cache. Bind.transition kernel cx.graph.identity cx.src cx.dest cx.edge cx.state;
}
