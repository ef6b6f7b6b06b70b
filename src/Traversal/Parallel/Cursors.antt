-- ===== src/Traversal/Parallel/Cursors.antt =====
-- crates/rxgraph/src/traversal/engine/cursor/parallel.rs: `ParallelBfs::next_batch`, and `GraphCursor`,
-- the cursor that a search of a graph chooses.
use rxgraph.Prelude.{
  ℕ, zero, suc, ◌+◌, Bool, true, false, ◌&&◌, ◌||◌, Option, none, some, List, [], ◌∷◌, ltb, leb,
  ◌==◌, length, take,
}
use rxgraph.Result.{Result, ok, err, panic, out_of_fuel, ◌>>=◌, index, zero_visits, zero_batch}
use rxgraph.Traversal.Stats.{SearchStats}
use rxgraph.Traversal.Search.{
  SearchAdapter, TraversalStrategy, breadth_first, depth_first, RunOptions,
}
use rxgraph.Traversal.Cursor.{work_quantum, Cursor, new, close, at_limit, initialize}
use rxgraph.Traversal.Cursor.Batch.{advance_bfs, next_batch}
use rxgraph.Traversal.Parallel.{ParallelDfs, new_dfs, dfs_batch}
use rxgraph.Traversal.Parallel.Layer.{
  min_par_frontier, min_par_edges, ParallelBfs, drain, frontier_edges, fetched_nodes, cut_jobs,
  evaluate_chunks, job_chunks,
}

module _ {S P C : Type 0} (adapter : SearchAdapter S P C) (threads : ℕ) where
  -- A layer that is large is evaluated by the workers.
  unfoldable pub evaluate_layer : ℕ → ParallelBfs S C → Result (ParallelBfs S C)
  unfolding fetched_nodes cut_jobs evaluate_chunks job_chunks
  evaluate_layer depth b = do
    let c = record b.cursor { bfs_prefetched = 0 }
    nodes ← fetched_nodes adapter c.arena depth c.cfg.max_depth (take work_quantum c.frontier)
    fetched ← adapter.prefetch_outgoing nodes
    (cut, jobs, total) ←
        cut_jobs adapter (length c.frontier + work_quantum + 1) threads depth c [] 0
    let parallel = leb min_par_edges total || leb min_par_frontier (length c.frontier)
    (pending, stats) ←
        evaluate_chunks adapter parallel cut.arena cut.cfg
          (job_chunks adapter parallel threads jobs) b.pending cut.stats
    ok (record { cursor = record cut { stats = stats }; pending = pending })

  -- The rest of a round once the edges that wait are drained: done, and the paths found.
  unfoldable pub expand_front : ℕ → ParallelBfs S C → Result (Bool × ParallelBfs S C × List P)
  unfolding frontier_edges evaluate_layer
  expand_front size b = elim b.cursor.frontier [
    | [] ↦ ok (true, record b { cursor = record b.cursor { done = true } }, [])
    | first ∷ rest ↦ do
      entry ← index b.cursor.arena first
      edges ← frontier_edges adapter b.cursor entry.depth
      elim (ltb (length b.cursor.frontier) min_par_frontier && ltb edges min_par_edges) [
        | true ↦ do
          (c, paths) ← advance_bfs adapter size b.cursor
          ok (false, record b { cursor = c }, paths)
        | false ↦ do next ← evaluate_layer entry.depth b; ok (false, next, [])
      ]
  ]

  unfoldable pub bfs_rounds : ℕ → ℕ → ParallelBfs S C → Result (Option (List P) × ParallelBfs S C)
  unfolding drain expand_front
  bfs_rounds zero size b = out_of_fuel
  bfs_rounds (suc fuel) size b = elim (b.cursor.done || at_limit b.cursor) [
    | true ↦ ok (none, record b { cursor = record b.cursor { done = true } })
    | false ↦ do
      (pending, c, paths) ← drain adapter size b.pending b.cursor []
      let drained : ParallelBfs S C = record { cursor = c; pending = pending }
      elim paths [
        | path ∷ more ↦ ok (some (path ∷ more), drained)
        | [] ↦ do
          (done, next, found) ← expand_front size drained
          elim found [
            | path ∷ more ↦ ok (some (path ∷ more), next)
            | [] ↦ elim done [ true ↦ ok (none, next) | false ↦ bfs_rounds fuel size next ]
          ]
      ]
  ]

  unfoldable pub bfs_batch : ℕ → ℕ → ParallelBfs S C → Result (Option (List P) × ParallelBfs S C)
  unfolding bfs_rounds
  bfs_batch fuel size b = elim b.cursor.done [
    | true ↦ ok (none, b)
    | false ↦ do
      ready ← initialize adapter b.cursor
      bfs_rounds fuel size (record b { cursor = ready })
  ]

pub data GraphCursor (S C : Type 0) : Type 0 where
  serial : Cursor S C → GraphCursor S C
  parallel_dfs : ParallelDfs S C → GraphCursor S C
  parallel_bfs : ParallelBfs S C → GraphCursor S C

-- `should_parallelize_dfs`.
unfoldable pub should_parallelize_dfs : ℕ → RunOptions → Bool
should_parallelize_dfs threads run =
    elim run.max_paths [ none ↦ true | some most ↦ leb 64 most ]
    && leb threads (length run.start_nodes)

module _ {S C : Type 0} where
  unfoldable pub choose : ℕ → TraversalStrategy → RunOptions → Result (GraphCursor S C)
  unfolding should_parallelize_dfs
  choose threads depth_first run = elim (run.parallel && should_parallelize_dfs threads run) [
    | true ↦ do c ← new_dfs threads run; ok (parallel_dfs c)
    | false ↦ do c ← new run; ok (serial c)
  ]
  choose threads breadth_first run = elim run.parallel [
    | true ↦ do c ← new run; ok (parallel_bfs (record { cursor = c; pending = [] }))
    | false ↦ do c ← new run; ok (serial c)
  ]

  -- `GraphCursor::new`.
  unfoldable pub new_cursor : ℕ → RunOptions → Result (GraphCursor S C)
  unfolding choose
  new_cursor threads run = elim (run.max_visits_per_node == 0) [
    | true ↦ err zero_visits
    | false ↦ choose threads run.strategy run
  ]

  unfoldable pub cursor_stats : GraphCursor S C → SearchStats
  cursor_stats (serial c) = c.stats
  cursor_stats (parallel_dfs c) = c.stats
  cursor_stats (parallel_bfs b) = b.cursor.stats

  unfoldable pub close_cursor : GraphCursor S C → GraphCursor S C
  close_cursor (serial c) = serial (close c)
  close_cursor (parallel_dfs c) = parallel_dfs (record c { workers = [] })
  close_cursor (parallel_bfs b) = parallel_bfs (record { cursor = close b.cursor; pending = [] })

module _ {S P C : Type 0} where
  -- The cursor is closed after an error and at the end.
  unfoldable pub settle_cursor :
      {X : Type 0}
      → (X → GraphCursor S C)
      → X
      → Result (Option (List P) × X)
      → Result (Option (List P)) × GraphCursor S C
  unfolding close_cursor
  settle_cursor wrap before (ok (none, after)) = (ok none, close_cursor (wrap after))
  settle_cursor wrap before (ok (some paths, after)) = (ok (some paths), wrap after)
  settle_cursor wrap before (err e) = (err e, close_cursor (wrap before))
  settle_cursor wrap before panic = (panic, wrap before)
  settle_cursor wrap before out_of_fuel = (out_of_fuel, wrap before)

  -- The serial cursor has settled already.
  unfoldable pub settle_serial :
      Result (Option (List P)) × Cursor S C → Result (Option (List P)) × GraphCursor S C
  unfolding close_cursor
  settle_serial (ok none, c) = (ok none, close_cursor (serial c))
  settle_serial (ok (some paths), c) = (ok (some paths), serial c)
  settle_serial (err e, c) = (err e, close_cursor (serial c))
  settle_serial (panic, c) = (panic, serial c)
  settle_serial (out_of_fuel, c) = (out_of_fuel, serial c)

  unfoldable pub cursor_batch :
      ℕ → ℕ → SearchAdapter S P C → ℕ → GraphCursor S C → Result (Option (List P)) × GraphCursor S C
  unfolding settle_cursor settle_serial bfs_batch
  cursor_batch fuel threads adapter zero g = (err zero_batch, close_cursor g)
  cursor_batch fuel threads adapter (suc size) (serial c) =
      settle_serial (next_batch fuel adapter (suc size) c)
  cursor_batch fuel threads adapter (suc size) (parallel_dfs c) =
      settle_cursor parallel_dfs c (dfs_batch adapter fuel (suc size) c)
  cursor_batch fuel threads adapter (suc size) (parallel_bfs b) =
      settle_cursor parallel_bfs b (bfs_batch adapter threads fuel (suc size) b)
