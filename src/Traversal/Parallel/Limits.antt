-- ===== src/Traversal/Parallel/Limits.antt =====
-- engine/cursor/parallel.rs, `ParallelDfs`: the size of a batch, and of all batches together.
use rxgraph.Prelude.{
  ℕ, zero, suc, ◌+◌, ◌≤◌, ◌≡◌, ap, subst, inl, inr, Option, none, some, List, ◌==◌, length, arith,
  Bool-cases, List-cases, All,
}
use rxgraph.Result.{ok, >>=-elim, ok-injective}
use rxgraph.Traversal.Stats.{no_stats}
use rxgraph.Traversal.Search.{SearchAdapter}
use rxgraph.Traversal.Cursor.Limits.{AtMost}
use rxgraph.Traversal.Cursor.Limits.Batches.{IsCapped, batch_size}
use rxgraph.Traversal.Parallel.{
  ParallelDfs, active_count, remaining_paths, merge_all, advance_all, dfs_batch,
}
use rxgraph.Traversal.Parallel.Quota.{quotas-all, advance_all_lem}

-- No more than `max_paths` paths were emitted, and no worker has a limit of its own.
pub record IsShared {S C : Type 0} (most : Option ℕ) (c : ParallelDfs S C) : Type 0 where
  pub configured : c.max_paths ≡ most
  pub allowed : AtMost most c.emitted
  pub workers_capped : All (λ w. IsCapped none w) c.workers

remaining_paths-size :
    (most : Option ℕ) (emitted size : ℕ) → remaining_paths most emitted size ≤ size
unfolding remaining_paths
remaining_paths-size none emitted size = omega arith
remaining_paths-size (some n) emitted size = omega arith

remaining_paths-AtMost :
    (most : Option ℕ) (emitted size found : ℕ)
    → AtMost most emitted
    → found ≤ remaining_paths most emitted size
    → AtMost most (emitted + found)
unfolding remaining_paths
remaining_paths-AtMost none emitted size found p h = tt
remaining_paths-AtMost (some n) emitted size found p h = omega arith

module _ {S P C : Type 0} (adapter : SearchAdapter S P C) (most : Option ℕ) where
  -- For every adapter and every number of workers: if no more paths than `max_paths` were emitted and
  -- a batch of the parallel depth-first search returns, this is so again, the batch holds at most as
  -- many paths as were asked for, and they are counted as emitted.
  pub dfs_batch-IsShared :
      (fuel size : ℕ) (c : ParallelDfs S C) (r : Option (List P) × ParallelDfs S C)
      → IsShared most c
      → dfs_batch adapter fuel size c ≡ ok r
      → IsShared most r.1 × (r.1.emitted ≡ c.emitted + batch_size r.0) × (batch_size r.0 ≤ size)
  unfolding dfs_batch
  dfs_batch-IsShared zero size c r p h = absurd cc
  dfs_batch-IsShared (suc fuel) size c r p h =
      let remaining = remaining_paths c.max_paths c.emitted size in
      let active = active_count c.workers in
      elim (Bool-cases (active == 0)) [
        | inl idle ↦ rw (← ok-injective (rw (dfs_batch, idle) at h)) (p, omega arith, omega arith)
        | inr busy ↦ elim (Bool-cases (remaining == 0)) [
          | inl full ↦
              rw (← ok-injective (rw (dfs_batch, busy, full) at h)) (p, omega arith, omega arith)
          | inr room ↦
              >>=-elim (advance_all adapter remaining active 0 c.workers) _
                (rw (dfs_batch, busy, room) at h)
                λ next a h1.
                  let (kept, fits) =
                    advance_all_lem adapter remaining active 0 c.workers next p.workers_capped a in
                  let whole = quotas-all remaining active (ground arith) in
                  let found : length next.1 ≤ remaining = omega (arith, fits, whole) in
                  let small = remaining_paths-size c.max_paths c.emitted size in
                  let after : ParallelDfs S C = record c {
                    workers = next.0;
                    stats = merge_all next.0 no_stats;
                    emitted = c.emitted + length next.1;
                  } in
                  let shared : IsShared most after = record {
                    configured = p.configured;
                    allowed = remaining_paths-AtMost most c.emitted size (length next.1) p.allowed (
                        subst (λ m. length next.1 ≤ remaining_paths m c.emitted size) p.configured
                          found);
                    workers_capped = kept;
                  } in
                  elim (List-cases next.1) [
                    | inl empty ↦
                        let (again, counted, fit) =
                          dfs_batch-IsShared fuel size after r shared (rw empty at h1) in
                        (again, omega (arith, counted, ap length empty), fit)
                    | inr some_paths ↦
                        let (path, more, shape) = some_paths in
                        let same = ap length shape in
                        rw (← ok-injective (rw shape at h1))
                          (shared, omega (arith, same), omega (arith, found, small, same))
                  ]
        ]
      ]
