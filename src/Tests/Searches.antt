-- ===== src/Tests/Searches.antt =====
-- A run of the search engine over a line of three nodes, whose last edge completes a path.
use rxgraph.Prelude.{
  ℕ, zero, suc, ◌+◌, ◌-◌, ◌≡◌, refl, false, Option, none, some, List, [], ◌∷◌, arith, take, drop,
  length, ◌==◌,
}
use rxgraph.Result.{ok, GraphId, num, text}
use rxgraph.Graph.Csr.{NodeId, EdgeId}
use rxgraph.Traversal.Stats.{no_stats}
use rxgraph.Traversal.Visits.{sparse, count, increment, decrement, count_of, remove, less_one}
use rxgraph.Traversal.Search.{
  SearchAdapter, breadth_first, from_run, depth_limit, push_starts, initial_arena, eval_arena_edge,
}
use rxgraph.Traversal.Cursor.{
  Cursor, pop, close, at_limit, nothing_to_do, counters, set_up, initialize, edges_at, start,
  accept,
}
use rxgraph.Traversal.Cursor.Advance.{
  next_edge, visit_range, layer_nodes, dfs_edge, top_frame, descend, retreat, dfs_frame, activate,
  dfs_loop, advance_dfs,
}
use rxgraph.Traversal.Cursor.Batch.{
  enqueue, take_answer, bfs_edge, fetch_layer, prefetch, edge_total, bfs_entry, bfs_loop,
  advance_bfs, run_strategy, advance, batch_loop, settle, next_batch,
}
use rxgraph.Traversal.Cursor.Counters.{IsBalanced}
use rxgraph.Traversal.Cursor.BatchBalance.{next_batch-IsBalanced}
use rxgraph.Tests.Paths.{program}

unfoldable pub resolve : GraphId → Option NodeId
resolve (num n) = some n
resolve (text t) = none

unfoldable pub edges_of : NodeId → List (EdgeId × NodeId)
edges_of zero = (0, 1) ∷ (1, 0) ∷ []
edges_of (suc zero) = (2, 2) ∷ []
edges_of (suc (suc n)) = []

-- The state counts the edges; the path is given by its end's state.
abbrev pub line : SearchAdapter ℕ ℕ (Unit {0})
line = record {
  resolve_node = λ id. ok (resolve id);
  initial_state = λ node. ok 0;
  dense_node_count = some 3;
  prefetch_outgoing = λ nodes. ok tt;
  out_degree = λ node. ok (length (edges_of node));
  range = λ node first end. ok (take (end - first) (drop first (edges_of node)));
  make_cache = tt;
  eval_edge = λ src edge dest state cache. ok (some (state + 1, dest == 2));
  materialize = λ arena path with_states. ok path;
}

abbrev pub begun : Cursor ℕ (Unit {0})
begun = record {
  cfg = record {
    start_nodes = num 0 ∷ [];
    max_depth = 5;
    max_paths = none;
    strategy = breadth_first;
    max_visits_per_node = 1;
    intermediate_states = false;
  };
  arena = [];
  frames = [];
  frontier = [];
  bfs_edge = 0;
  bfs_count = none;
  bfs_prefetched = 0;
  next_start = 0;
  visits = sparse [];
  cache = none;
  initialized = false;
  done = false;
  stats = no_stats;
}

unfoldable pub search_program : Unit {0}
unfolding program resolve edges_of count increment decrement count_of remove less_one from_run
    depth_limit push_starts initial_arena eval_arena_edge pop close at_limit nothing_to_do counters
    set_up initialize edges_at start accept next_edge visit_range layer_nodes dfs_edge top_frame
    descend retreat dfs_frame activate dfs_loop advance_dfs enqueue take_answer bfs_edge fetch_layer
    prefetch edge_total bfs_entry bfs_loop advance_bfs run_strategy advance batch_loop settle
    next_batch
search_program = tt

pub first_batch : (next_batch 2 line 4 begun).0 ≡ ok (some (2 ∷ []))
unfolding search_program
first_batch = refl

begun-IsBalanced : IsBalanced begun.stats
begun-IsBalanced = record { evaluated = omega arith; entries = omega arith; stopped = omega arith }

next_batch_example : IsBalanced (next_batch 2 line 4 begun).1.stats
next_batch_example =
    next_batch-IsBalanced line 2 4 begun (some (2 ∷ [])) begun-IsBalanced first_batch
