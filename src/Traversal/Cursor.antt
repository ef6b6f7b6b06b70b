-- ===== src/Traversal/Cursor.antt =====
-- crates/rxgraph/src/traversal/engine/cursor.rs: a search that stops and goes on. The progress line
-- on stderr is left out, and so are the counters after an error. The last of `frames` stands first
-- here.
pub mod Advance
pub mod Batch
pub mod Counters
pub mod Balance
pub mod BatchBalance
pub mod Limits
use rxgraph.Prelude.{
  ℕ, zero, suc, ◌+◌, ◌-◌, ◌/◌, Bool, true, false, not, ◌&&◌, ◌||◌, Option, none, some, List, [],
  ◌∷◌, ◌++◌, map, ltb, leb, ◌==◌, if◌then◌else◌, min, max, length, get_elem?, replicate,
}
use rxgraph.Result.{
  GraphId, Result, ok, err, panic, out_of_fuel, ◌>>=◌, or_err, or_panic, index, map_result,
  zero_visits, zero_batch, unknown_start,
}
use rxgraph.Graph.Csr.{NodeId, EdgeId}
use rxgraph.Traversal.Arena.{PathEntry, EdgeEval, start_entry, push_entry}
use rxgraph.Traversal.Stats.{SearchStats, no_stats}
use rxgraph.Traversal.Visits.{Visits, bits, dense, sparse, count, increment, decrement}
use rxgraph.Traversal.Search.{
  SearchAdapter, TraversalStrategy, breadth_first, depth_first, RunOptions, RunConfig, from_run,
  initial_arena, eval_arena_edge,
}

abbrev pub work_quantum : ℕ
work_quantum = 8192

pub record DfsFrame : Type 0 where
  pub next_edge : ℕ
  pub edge_count : ℕ

pub record Cursor (S C : Type 0) : Type 0 where
  pub cfg : RunConfig
  pub arena : List (PathEntry S)
  pub frames : List DfsFrame
  pub frontier : List ℕ
  pub bfs_edge : ℕ
  pub bfs_count : Option ℕ
  pub bfs_prefetched : ℕ
  pub next_start : ℕ
  pub visits : Visits
  pub cache : Option C
  pub initialized : Bool
  pub done : Bool
  pub stats : SearchStats

-- `Vec::pop`.
unfoldable pub pop {ℓ} : {A : Type ℓ} → List A → Option (A × List A)
pop [] = none
pop (x ∷ xs) = elim (pop xs) [ none ↦ some (x, []) | some (last, rest) ↦ some (last, x ∷ rest) ]

-- What the closure of a round has changed: the cursor, the work, the accepted child, the paths.
pub record Turn (S C P : Type 0) : Type 0 where
  pub cursor : Cursor S C
  pub work : ℕ
  pub accepted : Option ℕ
  pub paths : List P

module _ {S C : Type 0} where
  unfoldable pub new : RunOptions → Result (Cursor S C)
  unfolding from_run
  new run = elim (run.max_visits_per_node == 0) [
    | true ↦ err zero_visits
    | false ↦ ok (record {
      cfg = from_run run;
      arena = [];
      frames = [];
      frontier = [];
      bfs_edge = 0;
      bfs_count = none;
      bfs_prefetched = 0;
      next_start = 0;
      visits = sparse [];
      cache = none;
      initialized = false;
      done = false;
      stats = no_stats;
    })
  ]

  unfoldable pub close : Cursor S C → Cursor S C
  close c = record c {
    done = true;
    arena = [];
    frames = [];
    frontier = [];
    visits = sparse [];
    cache = none;
    cfg = record c.cfg { start_nodes = [] };
  }

  unfoldable pub at_limit : Cursor S C → Bool
  at_limit c = elim c.cfg.max_paths [ none ↦ false | some n ↦ leb n c.stats.stopped_paths ]

-- `max_paths == Some(0) || start_nodes.is_empty()`.
unfoldable pub nothing_to_do : Option ℕ → List GraphId → Bool
nothing_to_do (some zero) starts = true
nothing_to_do max_paths [] = true
nothing_to_do max_paths (start ∷ starts) = false

-- The counters of a depth-first search.
unfoldable pub counters : Option ℕ → ℕ → Visits → Visits
counters none max_visits visits = visits
counters (some n) max_visits visits =
    if max_visits == 1 then bits (replicate ((n + 63) / 64) 0) else dense (replicate n 0)

module _ {S P C : Type 0} (adapter : SearchAdapter S P C) where
  -- What a search of each strategy begins with.
  unfoldable pub set_up : TraversalStrategy → Cursor S C → Result (Cursor S C)
  unfolding counters
  set_up depth_first c =
      ok
        (record c { visits = counters adapter.dense_node_count c.cfg.max_visits_per_node c.visits })
  set_up breadth_first c = do
    (arena, frontier, stats) ← initial_arena adapter c.cfg
    ok (record c { arena = arena; frontier = frontier; stats = stats })

  unfoldable pub initialize : Cursor S C → Result (Cursor S C)
  unfolding nothing_to_do set_up
  initialize c = elim c.initialized [
    | true ↦ ok c
    | false ↦
        let begun = record c { initialized = true; cache = some adapter.make_cache } in
        elim (nothing_to_do c.cfg.max_paths c.cfg.start_nodes) [
          | true ↦ ok (record begun { done = true })
          | false ↦ set_up c.cfg.strategy begun
        ]
  ]

  -- The edges of an entry that the depth still allows.
  unfoldable pub edges_at : RunConfig → ℕ → NodeId → Result ℕ
  edges_at cfg depth node = elim (leb cfg.max_depth depth) [
    | true ↦ ok 0
    | false ↦ do fetched ← adapter.prefetch_outgoing (node ∷ []); adapter.out_degree node
  ]

  -- False when there is no start left.
  unfoldable pub start : Cursor S C → Result (Bool × Cursor S C)
  unfolding edges_at
  start c = elim (get_elem? c.cfg.start_nodes c.next_start) [
    | none ↦ ok (false, c)
    | some external ↦ do
      resolved ← adapter.resolve_node external
      node ← or_err resolved (unknown_start external)
      state ← adapter.initial_state node
      edge_count ← edges_at c.cfg 0 node
      visits ← increment c.visits node
      ok (
        true,
        record c {
          next_start = c.next_start + 1;
          arena = c.arena ++ start_entry node state ∷ [];
          frames = record { next_edge = 0; edge_count = edge_count } ∷ c.frames;
          visits = visits;
          stats = record c.stats {
            start_nodes = c.stats.start_nodes + 1;
            path_entries = c.stats.path_entries + 1;
          };
        },
      )
  ]

  -- A path that stops is materialized and taken off the arena; another gives its index.
  unfoldable pub accept :
      Cursor S C → ℕ → EdgeEval S → List P → Result (Option ℕ × Cursor S C × List P)
  accept c parent edge paths = do
    (child, arena) ← push_entry c.arena parent edge
    entry ← index arena child
    let stats = record c.stats {
      accepted_edges = c.stats.accepted_edges + 1;
      path_entries = c.stats.path_entries + 1;
      max_depth = max c.stats.max_depth entry.depth;
    }
    elim edge.stop [
      | false ↦ ok (some child, record c { arena = arena; stats = stats }, paths)
      | true ↦ do
        path ← adapter.materialize arena child c.cfg.intermediate_states
        (last, rest) ← or_panic (pop arena)
        ok (
          none,
          record c {
            arena = rest;
            stats = record stats { stopped_paths = stats.stopped_paths + 1 };
          },
          paths ++ path ∷ [],
        )
    ]
