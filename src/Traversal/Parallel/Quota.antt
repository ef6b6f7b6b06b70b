-- ===== src/Traversal/Parallel/Quota.antt =====
-- engine/cursor/parallel.rs, `ParallelDfs::next_batch`: the quotas of the workers.
use rxgraph.Prelude.{
  ℕ, zero, suc, ◌+◌, ◌-◌, ◌*◌, ◌/◌, ◌%◌, ◌≤◌, ◌<◌, ◌≡◌, refl, inl, inr, none, List, [], ◌∷◌, min,
  length, length-append, arith, Bool-cases, All,
}
use rxgraph.Result.{ok, >>=-elim, ok-injective}
use rxgraph.Traversal.Search.{SearchAdapter}
use rxgraph.Traversal.Cursor.{Cursor}
use rxgraph.Traversal.Cursor.Batch.{advance}
use rxgraph.Traversal.Cursor.Limits.Batches.{IsCapped, advance-Within, Within-IsCapped}
use rxgraph.Traversal.Parallel.{quota_of, advance_worker, advance_all, active_count}

-- The quotas of `k` workers from `index` on.
abbrev pub quotas : ℕ → ℕ → ℕ → ℕ → ℕ
quotas remaining active index zero = 0
quotas remaining active index (suc k) =
    quota_of remaining active index + quotas remaining active (suc index) k

quotas_lem :
    (remaining active index k : ℕ)
    → quotas remaining active index k
      ≡ k * (remaining / active) + min (remaining % active - index) k
unfolding quota_of
quotas_lem remaining active index zero = grind arith
quotas_lem remaining active index (suc k) = grind (arith, quotas_lem remaining active (suc index) k)

-- All of them share out exactly what remains.
pub quotas-all : (remaining active : ℕ) → 0 < active → quotas remaining active 0 active ≡ remaining
quotas-all remaining active pos = grind (arith, quotas_lem remaining active 0 active)

module _ {S P C : Type 0} (adapter : SearchAdapter S P C) where
  advance_worker_lem :
      (quota : ℕ) (w : Cursor S C) (r : Cursor S C × List P)
      → IsCapped none w
      → advance_worker adapter quota w ≡ ok r
      → IsCapped none r.0 × (length r.1 ≤ quota)
  unfolding advance_worker
  advance_worker_lem zero w r p h = rw (← ok-injective h) (p, omega arith)
  advance_worker_lem (suc quota) w r p h = >>=-elim (advance adapter (suc quota) w) _ h λ next a h1.
      let q = advance-Within adapter none (suc quota) w next p a in
      let capped = Within-IsCapped adapter none (suc quota) w.stats.stopped_paths next.0 next.1 q in
      rw (← ok-injective h1)
        (record { configured = capped.configured; allowed = tt; fresh = capped.fresh }, q.fits)

  -- The workers that advance find no more paths than their quotas together.
  pub advance_all_lem :
      (remaining active index : ℕ) (workers : List (Cursor S C)) (r : List (Cursor S C) × List P)
      → All (λ w. IsCapped none w) workers
      → advance_all adapter remaining active index workers ≡ ok r
      → All (λ w. IsCapped none w) r.0
        × (length r.1 ≤ quotas remaining active index (active_count workers))
  unfolding advance_all active_count
  advance_all_lem remaining active index [] r p h = rw (← ok-injective h) (tt, omega arith)
  advance_all_lem remaining active index (w ∷ workers) r p h = elim (Bool-cases w.done) [
    | inl done ↦
        >>=-elim (advance_all adapter remaining active index workers) _
          (rw (advance_all, done) at h)
          λ rest a h1.
            let (kept, fits) = advance_all_lem remaining active index workers rest p.1 a in
            let same : active_count (w ∷ workers) ≡ active_count workers =
              rw (active_count, done) refl in
            rw (← ok-injective h1) ((p.0, kept), rw same fits)
    | inr busy ↦
        let quota = quota_of remaining active index in
        >>=-elim (advance_worker adapter quota w) _ (rw (advance_all, busy) at h) λ next a h1.
          >>=-elim (advance_all adapter remaining active (suc index) workers) _ h1 λ rest b h2.
            let (capped, share) = advance_worker_lem quota w next p.0 a in
            let (kept, fits) = advance_all_lem remaining active (suc index) workers rest p.1 b in
            let same : active_count (w ∷ workers) ≡ suc (active_count workers) =
              rw (active_count, busy) refl in
            rw (← ok-injective h2)
              ((capped, kept), rw same (omega (arith, share, fits, length-append next.1 rest.1)))
  ]
