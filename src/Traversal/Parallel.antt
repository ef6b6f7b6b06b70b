-- ===== src/Traversal/Parallel.antt =====
-- crates/rxgraph/src/traversal/engine/cursor/parallel.rs: the cursors that use Rayon's workers. The
-- number of threads is a parameter. A worker shares nothing with the others while it runs, and results
-- are collected in the order of the jobs, so that the jobs stand in turn here; of several errors
-- the first is taken, and the counters after an error are left out.
pub mod Layer
pub mod Cursors
pub mod Quota
pub mod Limits
pub mod LayerLimits
pub mod BreadthLimits
use rxgraph.Prelude.{
  ℕ, zero, suc, ◌+◌, ◌-◌, ◌/◌, ◌%◌, Bool, true, false, not, Option, none, some, List, [], ◌∷◌, ◌++◌,
  ltb, ◌==◌, if◌then◌else◌, min, max, length, enumerate, replicate,
}
use rxgraph.Result.{GraphId, Result, ok, out_of_fuel, ◌>>=◌, map_result, index, store}
use rxgraph.Traversal.Stats.{SearchStats, no_stats, merge_stats}
use rxgraph.Traversal.Search.{SearchAdapter, RunOptions}
use rxgraph.Traversal.Cursor.{Cursor, new}
use rxgraph.Traversal.Cursor.Batch.{advance}

pub record ParallelDfs (S C : Type 0) : Type 0 where
  pub workers : List (Cursor S C)
  pub max_paths : Option ℕ
  pub emitted : ℕ
  pub stats : SearchStats

-- What the workers may still find: `saturating_sub` stops at 0.
unfoldable pub remaining_paths : Option ℕ → ℕ → ℕ → ℕ
remaining_paths none emitted size = size
remaining_paths (some most) emitted size = min (most - emitted) size

module _ {S C : Type 0} where
  -- `worker.cfg.start_nodes.push(start)`.
  unfoldable pub push_start : GraphId → Cursor S C → Cursor S C
  push_start external w = record w {
    cfg = record w.cfg { start_nodes = w.cfg.start_nodes ++ external ∷ [] };
  }

  -- Start `i` goes to worker `i % count`.
  unfoldable pub deal : ℕ → List (ℕ × GraphId) → List (Cursor S C) → Result (List (Cursor S C))
  unfolding push_start
  deal count [] workers = ok workers
  deal count ((i, external) ∷ starts) workers = do
    w ← index workers (i % count)
    dealt ← store workers (i % count) (push_start external w)
    deal count starts dealt

  -- `ParallelDfs::new`.
  unfoldable pub new_dfs : ℕ → RunOptions → Result (ParallelDfs S C)
  unfolding deal
  new_dfs threads run = do
    let count = max (min threads (length run.start_nodes)) 1
    workers ← map_result new (
        replicate count
          (record run { start_nodes = []; max_paths = none; parallel = false; progress = false }))
    dealt ← deal count (enumerate 0 run.start_nodes) workers
    ok (record { workers = dealt; max_paths = run.max_paths; emitted = 0; stats = no_stats })

  unfoldable pub active_count : List (Cursor S C) → ℕ
  active_count [] = 0
  active_count (w ∷ workers) = if w.done then active_count workers else suc (active_count workers)

  unfoldable pub merge_all : List (Cursor S C) → SearchStats → SearchStats
  unfolding merge_stats
  merge_all [] stats = stats
  merge_all (w ∷ workers) stats = merge_all workers (merge_stats stats w.stats)

-- The quota of the active worker `index`.
unfoldable pub quota_of : ℕ → ℕ → ℕ → ℕ
quota_of remaining active index =
    remaining / active + (if ltb index (remaining % active) then 1 else 0)

module _ {S P C : Type 0} (adapter : SearchAdapter S P C) where
  -- A worker with no quota rests.
  unfoldable pub advance_worker : ℕ → Cursor S C → Result (Cursor S C × List P)
  advance_worker zero w = ok (w, [])
  advance_worker (suc quota) w = do
    (next, paths) ← advance adapter (suc quota) w
    let evaluated = next.stats.evaluated_edges - w.stats.evaluated_edges
    ok (
      record next {
        stats = record next.stats { parallel_edges = next.stats.parallel_edges + evaluated };
      },
      paths,
    )

  unfoldable pub advance_all : ℕ → ℕ → ℕ → List (Cursor S C) → Result (List (Cursor S C) × List P)
  unfolding advance_worker quota_of
  advance_all remaining active index [] = ok ([], [])
  advance_all remaining active index (w ∷ workers) = elim w.done [
    | true ↦ do (rest, paths) ← advance_all remaining active index workers; ok (w ∷ rest, paths)
    | false ↦ do
      (next, found) ← advance_worker (quota_of remaining active index) w
      (rest, paths) ← advance_all remaining active (suc index) workers
      ok (next ∷ rest, found ++ paths)
  ]

  -- The loop of `ParallelDfs::next_batch`.
  unfoldable pub dfs_batch : ℕ → ℕ → ParallelDfs S C → Result (Option (List P) × ParallelDfs S C)
  unfolding active_count remaining_paths merge_all advance_all
  dfs_batch zero size c = out_of_fuel
  dfs_batch (suc fuel) size c =
      let remaining = remaining_paths c.max_paths c.emitted size in
      let active = active_count c.workers in
      elim (active == 0) [
        | true ↦ ok (none, c)
        | false ↦ elim (remaining == 0) [
          | true ↦ ok (none, c)
          | false ↦ do
            (workers, paths) ← advance_all remaining active 0 c.workers
            let next = record c {
              workers = workers;
              stats = merge_all workers no_stats;
              emitted = c.emitted + length paths;
            }
            elim paths [
              | [] ↦ dfs_batch fuel size next
              | path ∷ more ↦ ok (some (path ∷ more), next)
            ]
        ]
      ]
