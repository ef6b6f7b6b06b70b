-- ===== src/Traversal/Native.antt =====
-- crates/rxgraph/src/traversal/native.rs: searches over a store that loads its rows when they are
-- asked for. A store is the record of its methods, and a loaded row stays the same.
pub mod Eager
use rxgraph.Prelude.{
  ℕ, zero, suc, Bool, true, false, Option, none, some, List, [], ◌∷◌, length, get_elem?, map, ◌==◌,
  ltb, if◌then◌else◌,
}
use rxgraph.Result.{
  GraphId, Result, ok, err, out_of_fuel, ◌>>=◌, or_err, or_panic, index, slice, map_result,
  node_payloads, edge_payloads, node_row, edge_row,
}
use rxgraph.Graph.Csr.{NodeId, EdgeId}
use rxgraph.Graph.Identity.{internal_node, external_node, external_edge}
use rxgraph.Graph.Repo.{Repo, outgoing_slice}
use rxgraph.Dsl.Bind.{Transition}
use rxgraph.Traversal.Stats.{SearchStats}
use rxgraph.Traversal.Arena.{PathEntry}
use rxgraph.Traversal.Search.{SearchAdapter, RunOptions, breadth_first}
use rxgraph.Traversal.Cursor.{pop}
use rxgraph.Traversal.Adapter.{answer}
use rxgraph.Traversal.Config.{popped}
use rxgraph.Traversal.Run
use mathlib.Core.List.{zip}

pub record OutgoingEdge : Type 0 where
  pub edge : EdgeId
  pub dest : NodeId

-- The trait `GraphStore`.
pub record GraphStore (N E : Type 0) : Type 0 where
  pub resolve_node : GraphId → Result (Option NodeId)
  pub external_node : NodeId → Result (Option GraphId)
  pub external_edge : EdgeId → Result (Option GraphId)
  pub dense_node_count : Option ℕ
  pub outgoing : NodeId → Result (List OutgoingEdge)
  pub prefetch_outgoing : List NodeId → Result (Unit {0})
  pub node : NodeId → Result N
  pub edge : EdgeId → Result E

pub record StartCtx (N E : Type 0) : Type 0 where
  pub store : GraphStore N E
  pub node : NodeId

pub record EdgeCtx (N E S : Type 0) : Type 0 where
  pub store : GraphStore N E
  pub src : NodeId
  pub dest : NodeId
  pub edge : EdgeId
  pub state : S

-- The trait `Kernel`.
pub record Kernel (N E S : Type 0) : Type 0 where
  pub initial_state : StartCtx N E → Result S
  pub transition : EdgeCtx N E S → Result (Transition S)

pub record PathNode (N S : Type 0) : Type 0 where
  pub id : NodeId
  pub external_id : Option GraphId
  pub payload : N
  pub state : Option S

pub record PathEdge (E : Type 0) : Type 0 where
  pub id : EdgeId
  pub external_id : Option GraphId
  pub payload : E

pub record NativePath (N E S : Type 0) : Type 0 where
  pub nodes : List (PathNode N S)
  pub edges : List (PathEdge E)
  pub state : S

pub record SearchResult (N E S : Type 0) : Type 0 where
  pub paths : List (NativePath N E S)
  pub stats : SearchStats

pub record FirstResult (N E S : Type 0) : Type 0 where
  pub path : Option (NativePath N E S)
  pub stats : SearchStats

-- The accessors of the two contexts that read the store.
module _ {N E : Type 0} (cx : StartCtx N E) where
  unfoldable pub start_external_id : Result (Option GraphId)
  start_external_id = cx.store.external_node cx.node

  unfoldable pub start_payload : Result N
  start_payload = cx.store.node cx.node

module _ {N E S : Type 0} (cx : EdgeCtx N E S) where
  unfoldable pub src_external_id : Result (Option GraphId)
  src_external_id = cx.store.external_node cx.src

  unfoldable pub dest_external_id : Result (Option GraphId)
  dest_external_id = cx.store.external_node cx.dest

  unfoldable pub edge_external_id : Result (Option GraphId)
  edge_external_id = cx.store.external_edge cx.edge

  unfoldable pub src_payload : Result N
  src_payload = cx.store.node cx.src

  unfoldable pub dest_payload : Result N
  dest_payload = cx.store.node cx.dest

  unfoldable pub edge_payload : Result E
  edge_payload = cx.store.edge cx.edge

-- The vectors of the loop of `materialize_native`, reversed.
pub record Collected (S : Type 0) : Type 0 where
  pub node_ids : List NodeId
  pub edge_ids : List EdgeId
  pub states : Option (List S)

unfoldable pub collect_edge : Option EdgeId → List EdgeId → List EdgeId
collect_edge none edges = edges
collect_edge (some edge) edges = edge ∷ edges

module _ {S : Type 0} where
  unfoldable pub collect_state : S → Option (List S) → Option (List S)
  collect_state state none = none
  collect_state state (some states) = some (state ∷ states)

  unfoldable pub collect_entry : PathEntry S → Collected S → Collected S
  unfolding collect_edge collect_state
  collect_entry e c = record {
    node_ids = e.node ∷ c.node_ids;
    edge_ids = collect_edge e.incoming_edge c.edge_ids;
    states = collect_state e.state c.states;
  }

  -- The loop, from an entry to its start.
  unfoldable pub collect : ℕ → List (PathEntry S) → ℕ → Collected S → Result (Collected S)
  unfolding collect_entry
  collect zero arena path c = out_of_fuel
  collect (suc fuel) arena path c = do
    e ← index arena path
    let next = collect_entry e c
    elim e.parent [ none ↦ ok next | some parent ↦ collect fuel arena parent next ]

module _ {N E : Type 0} (store : GraphStore N E) where
  unfoldable pub path_edge : EdgeId → Result (PathEdge E)
  path_edge id = do
    external ← store.external_edge id
    payload ← store.edge id
    ok (record { id = id; external_id = external; payload = payload })

module _ {N E S : Type 0} (store : GraphStore N E) where
  unfoldable pub path_node : NodeId → Option S → Result (PathNode N S)
  path_node id state = do
    external ← store.external_node id
    payload ← store.node id
    ok (record { id = id; external_id = external; payload = payload; state = state })

  -- The nodes with the iterator of their states, which must not end before them.
  unfoldable pub path_nodes : List NodeId → Option (List S) → Result (List (PathNode N S))
  unfolding path_node
  path_nodes [] states = ok []
  path_nodes (id ∷ ids) none = do n ← path_node id none; rest ← path_nodes ids none; ok (n ∷ rest)
  path_nodes (id ∷ ids) (some []) = do
    external ← store.external_node id
    payload ← store.node id
    or_panic none
  path_nodes (id ∷ ids) (some (state ∷ states)) = do
    n ← path_node id (some state)
    rest ← path_nodes ids (some states)
    ok (n ∷ rest)

  unfoldable pub materialize_native : List (PathEntry S) → ℕ → Bool → Result (NativePath N E S)
  unfolding collect path_nodes path_edge
  materialize_native arena path intermediate_states = do
    e ← index arena path
    let states : Option (List S) = elim intermediate_states [ true ↦ some [] | false ↦ none ]
    c ← collect (length arena) arena path (record { node_ids = []; edge_ids = []; states = states })
    nodes ← path_nodes c.node_ids c.states
    edges ← map_result (path_edge store) c.edge_ids
    ok (record { nodes = nodes; edges = edges; state = e.state })

module _ {N E S P : Type 0} (store : GraphStore N E) (kernel : Kernel N E S)
    (materialize : GraphStore N E → List (PathEntry S) → ℕ → Bool → Result P) where
  unfoldable pub native_out_degree : NodeId → Result ℕ
  native_out_degree node = do edges ← store.outgoing node; ok (length edges)

  -- The edges that `for_each_range` visits.
  unfoldable pub native_range : NodeId → ℕ → ℕ → Result (List (EdgeId × NodeId))
  native_range node first last = do
    edges ← store.outgoing node
    some_edges ← slice edges first last
    ok (map (λ e. (e.edge, e.dest)) some_edges)

  unfoldable pub native_eval : NodeId → EdgeId → NodeId → S → Unit {0} → Result (Option (S × Bool))
  unfolding answer
  native_eval src edge dest state cache = do
    t ←
        kernel.transition
          (record { store = store; src = src; dest = dest; edge = edge; state = state })
    ok (answer t)

  unfoldable pub native_adapter : SearchAdapter S P (Unit {0})
  unfolding native_out_degree native_range native_eval
  native_adapter = record {
    resolve_node = store.resolve_node;
    initial_state = λ node. kernel.initial_state (record { store = store; node = node });
    dense_node_count = store.dense_node_count;
    prefetch_outgoing = store.prefetch_outgoing;
    out_degree = native_out_degree;
    range = native_range;
    make_cache = tt;
    eval_edge = native_eval;
    materialize = materialize store;
  }

-- `RunOptions` as `search_first` sets them.
unfoldable pub native_first_run : RunOptions → RunOptions
native_first_run run = record run { max_paths = some 1; strategy = breadth_first; parallel = false }

module _ {N E S : Type 0} (rounds chunks : ℕ) (store : GraphStore N E) (kernel : Kernel N E S) where
  unfoldable pub search_native : RunOptions → Result (SearchResult N E S)
  search_native run = do
    let adapter = native_adapter store kernel materialize_native
    result ← Run.search_serial adapter rounds chunks run
    ok (record { paths = result.paths; stats = result.stats })

  unfoldable pub native_search_paths : RunOptions → Result (SearchResult N E S)
  native_search_paths run = search_native run

  unfoldable pub native_search_first : RunOptions → Result (FirstResult N E S)
  unfolding native_first_run popped pop
  native_search_first run = do
    result ← search_native (native_first_run run)
    ok (record { path = popped (pop result.paths); stats = result.stats })
