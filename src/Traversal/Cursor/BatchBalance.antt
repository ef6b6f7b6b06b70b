-- ===== src/Traversal/Cursor/BatchBalance.antt =====
-- Every batch of a search leaves its counters balanced.
use rxgraph.Prelude.{
  ℕ, zero, suc, ◌+◌, ◌≡◌, refl, ◌&&◌, inl, inr, Option, List, [], ltb, ◌==◌, length, Bool-cases,
  List-cases,
}
use rxgraph.Result.{Result, ok, err, panic, out_of_fuel, >>=-elim, ok-injective, index}
use rxgraph.Traversal.Search.{SearchAdapter, TraversalStrategy, breadth_first, depth_first}
use rxgraph.Traversal.Cursor.{work_quantum, Cursor, Turn, at_limit, initialize, close}
use rxgraph.Traversal.Cursor.Advance.{visit_range, layer_nodes, advance_dfs}
use rxgraph.Traversal.Cursor.Batch.{
  bfs_edge, prefetch, fetch_layer, edge_total, bfs_entry, bfs_loop, advance_bfs, run_strategy,
  advance, batch_loop, settle, next_batch,
}
use rxgraph.Traversal.Cursor.Counters.{IsBalanced, bfs_edge-IsBalanced, visit_range_lem}
use rxgraph.Traversal.Cursor.Balance.{initialize-IsBalanced, dfs_loop-IsBalanced}

module _ {S P C : Type 0} (adapter : SearchAdapter S P C) (limit : ℕ) where
  prefetch-IsBalanced :
      (parent : ℕ) (c r : Cursor S C)
      → IsBalanced c.stats
      → prefetch adapter limit parent c ≡ ok r
      → IsBalanced r.stats
  unfolding prefetch
  prefetch-IsBalanced parent c r p h = elim (Bool-cases (c.bfs_prefetched == 0)) [
    | inr fetched ↦ rw (← ok-injective (rw (prefetch, fetched) at h)) p
    | inl due ↦ >>=-elim (index c.arena parent) _ (rw (prefetch, due) at h) λ entry a h1.
        >>=-elim (layer_nodes work_quantum c.arena entry.depth c.frontier) _ h1 λ nodes b h2.
          >>=-elim (fetch_layer adapter limit (ltb entry.depth c.cfg.max_depth) nodes) _ h2
            λ done d h3. rw (← ok-injective h3) p
  ]

  bfs_entry-IsBalanced :
      (parent : ℕ) (rest : List ℕ) (c : Cursor S C) (work : ℕ) (paths : List P)
      (r : Cursor S C × ℕ × List P)
      → IsBalanced c.stats
      → bfs_entry adapter limit parent rest c work paths ≡ ok r
      → IsBalanced r.0.stats
  unfolding bfs_entry
  bfs_entry-IsBalanced parent rest c work paths r p h =
      >>=-elim (prefetch adapter limit parent c) _ h λ fetched a h1.
        let q = prefetch-IsBalanced parent c fetched p a in
        >>=-elim (edge_total adapter limit parent fetched) _ h1 λ total b h2.
          elim (Bool-cases (fetched.bfs_edge == total)) [
            | inl spent ↦ rw (← ok-injective (rw spent at h2)) q
            | inr more ↦ >>=-elim (index fetched.arena parent) _ (rw more at h2) λ entry d h3.
                >>=-elim (adapter.range entry.node fetched.bfs_edge _) _ h3 λ edges f h4.
                  >>=-elim (visit_range (bfs_edge adapter limit parent) edges _) _ h4 λ t g h5.
                    rw (← ok-injective h5) (
                      visit_range_lem (λ (t : Turn S C P). IsBalanced t.cursor.stats)
                        (bfs_edge adapter limit parent) edges _ t
                        (bfs_edge-IsBalanced adapter limit parent) q g)
          ]

  bfs_loop-IsBalanced :
      (fuel : ℕ) (c : Cursor S C) (work : ℕ) (paths : List P) (r : Cursor S C × List P)
      → IsBalanced c.stats
      → bfs_loop adapter limit fuel c work paths ≡ ok r
      → IsBalanced r.0.stats
  unfolding bfs_loop
  bfs_loop-IsBalanced zero c work paths r p h = absurd cc
  bfs_loop-IsBalanced (suc fuel) c work paths r p h =
      elim (Bool-cases (ltb work work_quantum && ltb (length paths) limit)) [
        | inr full ↦ rw (← ok-injective (rw (bfs_loop, full) at h)) p
        | inl room ↦ elim (Bool-cases (at_limit c)) [
          | inl reached ↦ rw (← ok-injective (rw (bfs_loop, room, reached) at h)) p
          | inr below ↦ elim (List-cases c.frontier) [
            | inl empty ↦ rw (← ok-injective (rw (bfs_loop, room, below, empty) at h)) p
            | inr waiting ↦
                let (parent, rest, shape) = waiting in
                >>=-elim (bfs_entry adapter limit parent rest c work paths) _
                  (rw (bfs_loop, room, below, shape) at h)
                  λ next a h1.
                    bfs_loop-IsBalanced fuel next.0 next.1 next.2 r
                      (bfs_entry-IsBalanced parent rest c work paths next p a) h1
          ]
        ]
      ]

  run_strategy-IsBalanced :
      (strategy : TraversalStrategy) (c : Cursor S C) (r : Cursor S C × List P)
      → IsBalanced c.stats
      → run_strategy adapter limit strategy c ≡ ok r
      → IsBalanced r.0.stats
  unfolding run_strategy advance_dfs advance_bfs
  run_strategy-IsBalanced depth_first c r p h =
      dfs_loop-IsBalanced adapter limit (work_quantum + 1) c 0 [] r p h
  run_strategy-IsBalanced breadth_first c r p h =
      bfs_loop-IsBalanced (work_quantum + 1) c 0 [] r p h

  advance-IsBalanced :
      (c : Cursor S C) (r : Cursor S C × List P)
      → IsBalanced c.stats
      → advance adapter limit c ≡ ok r
      → IsBalanced r.0.stats
  unfolding advance
  advance-IsBalanced c r p h = >>=-elim (initialize adapter c) _ h λ ready a h1.
      let q = initialize-IsBalanced adapter c ready p a in
      elim (Bool-cases ready.done) [
        | inl done ↦ rw (← ok-injective (rw done at h1)) q
        | inr active ↦ run_strategy-IsBalanced ready.cfg.strategy ready r q (rw active at h1)
      ]

  batch_loop-IsBalanced :
      (fuel : ℕ) (c : Cursor S C) (r : Option (List P) × Cursor S C)
      → IsBalanced c.stats
      → batch_loop adapter limit fuel c ≡ ok r
      → IsBalanced r.1.stats
  unfolding batch_loop
  batch_loop-IsBalanced zero c r p h = absurd cc
  batch_loop-IsBalanced (suc fuel) c r p h = elim (Bool-cases c.done) [
    | inl done ↦ rw (← ok-injective (rw (batch_loop, done) at h)) p
    | inr active ↦ >>=-elim (advance adapter limit c) _ (rw (batch_loop, active) at h) λ next a h1.
        let q = advance-IsBalanced c next p a in
        elim (List-cases next.1) [
          | inl empty ↦ batch_loop-IsBalanced fuel next.0 r q (rw empty at h1)
          | inr full ↦ let (path, more, shape) = full in rw (← ok-injective (rw shape at h1)) q
        ]
  ]

settle-IsBalanced :
    {S P C : Type 0} (c : Cursor S C) (m : Result (Option (List P) × Cursor S C))
    (batch : Option (List P))
    → ((r : Option (List P) × Cursor S C) → m ≡ ok r → IsBalanced r.1.stats)
    → (settle c m).0 ≡ ok batch
    → IsBalanced (settle c m).1.stats
unfolding settle close
settle-IsBalanced c (err e) batch keeps h = absurd cc
settle-IsBalanced c panic batch keeps h = absurd cc
settle-IsBalanced c out_of_fuel batch keeps h = absurd cc
settle-IsBalanced c (ok (found, next)) batch keeps h = elim (Bool-cases next.done) [
  | inl done ↦ rw done (keeps (found, next) refl)
  | inr more ↦ rw more (keeps (found, next) refl)
]

-- If the counters of a cursor balance, and `next_batch` returns without an error, they balance
-- again: each evaluated edge was accepted or rejected, each path entry is a start or an accepted
-- edge, and no more paths stopped than edges were accepted. This holds for every adapter and both
-- strategies.
pub next_batch-IsBalanced :
    {S P C : Type 0} (adapter : SearchAdapter S P C) (fuel size : ℕ) (c : Cursor S C)
    (batch : Option (List P))
    → IsBalanced c.stats
    → (next_batch fuel adapter size c).0 ≡ ok batch
    → IsBalanced (next_batch fuel adapter size c).1.stats
unfolding next_batch
next_batch-IsBalanced adapter fuel zero c batch p h = absurd cc
next_batch-IsBalanced adapter fuel (suc size) c batch p h =
    settle-IsBalanced c (batch_loop adapter (suc size) fuel c) batch
      (λ r e. batch_loop-IsBalanced adapter (suc size) fuel c r p e) h
