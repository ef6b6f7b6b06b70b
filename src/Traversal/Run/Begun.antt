-- ===== src/Traversal/Run/Begun.antt =====
-- engine/cursor/parallel.rs, `GraphCursor::new` and `close`: the paths found, and their limit.
use rxgraph.Prelude.{
  ℕ, zero, suc, ◌≡◌, refl, subst, false, ◌&&◌, inl, inr, Option, none, some, List, [], ◌∷◌, ◌==◌,
  ◌%◌, length, arith, replicate, enumerate, max, min, Bool-cases, All,
}
use rxgraph.Result.{GraphId, ok, >>=-elim, ok-injective, index, store, map_result}
use rxgraph.Traversal.Search.{TraversalStrategy, breadth_first, depth_first, RunOptions, from_run}
use rxgraph.Traversal.Cursor.{Cursor, new, close}
use rxgraph.Traversal.Cursor.Limits.{AtMost}
use rxgraph.Traversal.Cursor.Limits.Batches.{IsCapped}
use rxgraph.Traversal.Parallel.{ParallelDfs, push_start, deal, new_dfs}
use rxgraph.Traversal.Parallel.Limits.{IsShared}
use rxgraph.Traversal.Parallel.Cursors.{
  GraphCursor, serial, parallel_dfs, parallel_bfs, should_parallelize_dfs, choose, new_cursor,
  close_cursor,
}

AtMost-zero : (most : Option ℕ) → AtMost most 0
AtMost-zero none = tt
AtMost-zero (some n) = omega arith

module _ {S C : Type 0} where
  new-IsCapped :
      (run : RunOptions) (c : Cursor S C)
      → new run ≡ ok c
      → IsCapped run.max_paths c × (c.stats.stopped_paths ≡ 0)
  unfolding new from_run
  new-IsCapped run c h = elim (Bool-cases (run.max_visits_per_node == 0)) [
    | inl nothing ↦ absurd (let refused = rw (new, nothing) at h in cc)
    | inr visits ↦ rw (← ok-injective (rw (new, visits) at h)) (
      record { configured = refl; allowed = AtMost-zero run.max_paths; fresh = λ unset. refl },
      refl,
    )
  ]

  push_start-IsCapped :
      (external : GraphId) (w : Cursor S C)
      → IsCapped none w
      → IsCapped none (push_start external w)
  unfolding push_start
  push_start-IsCapped external w p = record {
    configured = p.configured;
    allowed = tt;
    fresh = p.fresh;
  }

  store-All :
      (workers r : List (Cursor S C)) (i : ℕ) (w : Cursor S C)
      → All (λ w. IsCapped none w) workers
      → IsCapped none w
      → store workers i w ≡ ok r
      → All (λ w. IsCapped none w) r
  unfolding store
  store-All [] r i w p q h = absurd cc
  store-All (x ∷ xs) r zero w p q h = rw (← ok-injective h) (q, p.1)
  store-All (x ∷ xs) r (suc i) w p q h =
      >>=-elim (store xs i w) _ h
        λ ys a h1. rw (← ok-injective h1) (p.0, store-All xs ys i w p.1 q a)

  index-All :
      (workers : List (Cursor S C)) (i : ℕ) (w : Cursor S C)
      → All (λ w. IsCapped none w) workers
      → index workers i ≡ ok w
      → IsCapped none w
  unfolding index
  index-All [] i w p h = absurd cc
  index-All (x ∷ xs) zero w p h = rw (← ok-injective h) p.0
  index-All (x ∷ xs) (suc i) w p h = index-All xs i w p.1 h

  deal-All :
      (count : ℕ) (starts : List (ℕ × GraphId)) (workers r : List (Cursor S C))
      → All (λ w. IsCapped none w) workers
      → deal count starts workers ≡ ok r
      → All (λ w. IsCapped none w) r
  unfolding deal
  deal-All count [] workers r p h = rw (← ok-injective h) p
  deal-All count ((i, external) ∷ starts) workers r p h =
      >>=-elim (index workers (i % count)) _ h λ w a h1.
        >>=-elim (store workers (i % count) (push_start external w)) _ h1 λ dealt b h2.
          deal-All count starts dealt r
            (store-All workers dealt (i % count) (push_start external w) p
              (push_start-IsCapped external w (index-All workers (i % count) w p a)) b)
            h2

  new_workers-All :
      (run : RunOptions) (count : ℕ) (r : List (Cursor S C))
      → run.max_paths ≡ none
      → map_result new (replicate count run) ≡ ok r
      → All (λ w. IsCapped none w) r
  new_workers-All run zero r same h = rw (← ok-injective h) tt
  new_workers-All run (suc count) r same h = >>=-elim (new run) _ h λ w a h1.
      >>=-elim (map_result new (replicate count run)) _ h1 λ ws b h2. rw (← ok-injective h2) (
        subst (λ m. IsCapped m w) same (new-IsCapped run w a).0,
        new_workers-All run count ws same b,
      )

  new_dfs-IsShared :
      (threads : ℕ) (run : RunOptions) (c : ParallelDfs S C)
      → new_dfs threads run ≡ ok c
      → IsShared run.max_paths c × (c.emitted ≡ 0)
  unfolding new_dfs
  new_dfs-IsShared threads run c h =
      let count = max (min threads (length run.start_nodes)) 1 in
      let idle : RunOptions = record run {
        start_nodes = [];
        max_paths = none;
        parallel = false;
        progress = false;
      } in
      >>=-elim (map_result (new {S = S} {C = C}) (replicate count idle)) _ h λ workers a h1.
        >>=-elim (deal count (enumerate 0 run.start_nodes) workers) _ h1 λ dealt b h2.
          let capped = new_workers-All idle count workers refl a in
          rw (← ok-injective h2) (
            record {
              configured = refl;
              allowed = AtMost-zero run.max_paths;
              workers_capped = deal-All count (enumerate 0 run.start_nodes) workers dealt capped b;
            },
            refl,
          )

  -- The cursors of a search, between two batches.
  abbrev pub IsLimited : Option ℕ → GraphCursor S C → Type 0
  IsLimited most (serial c) = IsCapped most c
  IsLimited most (parallel_dfs c) = IsShared most c
  IsLimited most (parallel_bfs b) = IsCapped most b.cursor

  -- The paths that a cursor has found.
  abbrev pub found_by : GraphCursor S C → ℕ
  found_by (serial c) = c.stats.stopped_paths
  found_by (parallel_dfs c) = c.emitted
  found_by (parallel_bfs b) = b.cursor.stats.stopped_paths

  pub IsLimited-AtMost :
      (most : Option ℕ) (g : GraphCursor S C) → IsLimited most g → AtMost most (found_by g)
  IsLimited-AtMost most (serial c) p = p.allowed
  IsLimited-AtMost most (parallel_dfs c) p = p.allowed
  IsLimited-AtMost most (parallel_bfs b) p = p.allowed

  pub close_cursor-IsLimited :
      (most : Option ℕ) (g : GraphCursor S C)
      → IsLimited most g
      → IsLimited most (close_cursor g) × (found_by (close_cursor g) ≡ found_by g)
  unfolding close_cursor close
  close_cursor-IsLimited most (serial c) p =
      (record { configured = p.configured; allowed = p.allowed; fresh = p.fresh }, refl)
  close_cursor-IsLimited most (parallel_dfs c) p =
      (record { configured = p.configured; allowed = p.allowed; workers_capped = tt }, refl)
  close_cursor-IsLimited most (parallel_bfs b) p =
      (record { configured = p.configured; allowed = p.allowed; fresh = p.fresh }, refl)

  choose-IsLimited :
      (threads : ℕ) (strategy : TraversalStrategy) (run : RunOptions) (g : GraphCursor S C)
      → choose threads strategy run ≡ ok g
      → IsLimited run.max_paths g × (found_by g ≡ 0)
  unfolding choose
  choose-IsLimited threads depth_first run g h =
      elim (Bool-cases (run.parallel && should_parallelize_dfs threads run)) [
        | inl shared ↦
            >>=-elim (new_dfs threads run) _ (rw (choose, shared) at h)
              λ c a h1. rw (← ok-injective h1) (new_dfs-IsShared threads run c a)
        | inr alone ↦
            >>=-elim (new run) _ (rw (choose, alone) at h)
              λ c a h1. rw (← ok-injective h1) (new-IsCapped run c a)
      ]
  choose-IsLimited threads breadth_first run g h = elim (Bool-cases run.parallel) [
    | inl shared ↦
        >>=-elim (new run) _ (rw (choose, shared) at h)
          λ c a h1. rw (← ok-injective h1) (new-IsCapped run c a)
    | inr alone ↦
        >>=-elim (new run) _ (rw (choose, alone) at h)
          λ c a h1. rw (← ok-injective h1) (new-IsCapped run c a)
  ]

  pub new_cursor-IsLimited :
      (threads : ℕ) (run : RunOptions) (g : GraphCursor S C)
      → new_cursor threads run ≡ ok g
      → IsLimited run.max_paths g × (found_by g ≡ 0)
  unfolding new_cursor
  new_cursor-IsLimited threads run g h = elim (Bool-cases (run.max_visits_per_node == 0)) [
    | inl nothing ↦ absurd (let refused = rw (new_cursor, nothing) at h in cc)
    | inr visits ↦ choose-IsLimited threads run.strategy run g (rw (new_cursor, visits) at h)
  ]
