-- ===== src/Traversal/Cursor/Limits/Breadth.antt =====
-- engine/cursor.rs: the paths that the breadth-first rounds find, and those of a chunk.
use rxgraph.Prelude.{
  ℕ, zero, suc, ◌+◌, ◌≡◌, inl, inr, Option, List, [], ltb, ◌==◌, length, Bool-cases, List-cases,
}
use rxgraph.Result.{ok, >>=-elim, ok-injective, index}
use rxgraph.Traversal.Search.{SearchAdapter, TraversalStrategy, breadth_first, depth_first}
use rxgraph.Traversal.Cursor.{work_quantum, Cursor, Turn, at_limit}
use rxgraph.Traversal.Cursor.Advance.{visit_range, layer_nodes, advance_dfs}
use rxgraph.Traversal.Cursor.Batch.{
  bfs_edge, prefetch, fetch_layer, edge_total, bfs_entry, bfs_loop, advance_bfs, run_strategy,
}
use rxgraph.Traversal.Cursor.Limits.{Within, Room, Room-Within, Within-Room}
use rxgraph.Traversal.Cursor.Limits.Edges.{visit_range_within, bfs_edge-Visited}
use rxgraph.Traversal.Cursor.Limits.Depth.{dfs_loop-Within}

module _ {S P C : Type 0} (adapter : SearchAdapter S P C) (limit base : ℕ) (most : Option ℕ) where
  prefetch-Room :
      (parent : ℕ) (c r : Cursor S C) (paths : List P)
      → Room limit base most c paths
      → prefetch adapter limit parent c ≡ ok r
      → Room limit base most r paths
  unfolding prefetch
  prefetch-Room parent c r paths p h = elim (Bool-cases (c.bfs_prefetched == 0)) [
    | inr fetched ↦ rw (← ok-injective (rw (prefetch, fetched) at h)) p
    | inl due ↦ >>=-elim (index c.arena parent) _ (rw (prefetch, due) at h) λ entry a h1.
        >>=-elim (layer_nodes work_quantum c.arena entry.depth c.frontier) _ h1 λ nodes b h2.
          >>=-elim (fetch_layer adapter limit (ltb entry.depth c.cfg.max_depth) nodes) _ h2
            λ done d h3. rw (← ok-injective h3) p
  ]

  bfs_entry-Within :
      (parent : ℕ) (rest : List ℕ) (c : Cursor S C) (work : ℕ) (paths : List P)
      (r : Cursor S C × ℕ × List P)
      → Room limit base most c paths
      → bfs_entry adapter limit parent rest c work paths ≡ ok r
      → Within limit base most r.0 r.2
  unfolding bfs_entry
  bfs_entry-Within parent rest c work paths r p h =
      >>=-elim (prefetch adapter limit parent c) _ h λ fetched a h1.
        let q = prefetch-Room parent c fetched paths p a in
        >>=-elim (edge_total adapter limit parent fetched) _ h1 λ total b h2.
          elim (Bool-cases (fetched.bfs_edge == total)) [
            | inl spent ↦
                rw (← ok-injective (rw spent at h2)) (Room-Within limit base most fetched paths q)
            | inr more ↦ >>=-elim (index fetched.arena parent) _ (rw more at h2) λ entry d h3.
                >>=-elim (adapter.range entry.node fetched.bfs_edge _) _ h3 λ edges f h4.
                  >>=-elim (visit_range (bfs_edge adapter limit parent) edges _) _ h4 λ t g h5.
                    rw (← ok-injective h5) (
                      visit_range_within (λ (t : Turn S C P). Room limit base most t.cursor t.paths)
                        (λ (t : Turn S C P). Within limit base most t.cursor t.paths)
                        (bfs_edge adapter limit parent) edges _ t
                        (bfs_edge-Visited adapter limit base most parent)
                        (λ t. Room-Within limit base most t.cursor t.paths) q g)
          ]

  pub bfs_loop-Within :
      (fuel : ℕ) (c : Cursor S C) (work : ℕ) (paths : List P) (r : Cursor S C × List P)
      → Within limit base most c paths
      → bfs_loop adapter limit fuel c work paths ≡ ok r
      → Within limit base most r.0 r.1
  unfolding bfs_loop
  bfs_loop-Within zero c work paths r p h = absurd cc
  bfs_loop-Within (suc fuel) c work paths r p h = elim (Bool-cases (ltb work work_quantum)) [
    | inr full ↦ rw (← ok-injective (rw (bfs_loop, full) at h)) p
    | inl time ↦ elim (Bool-cases (ltb (length paths) limit)) [
      | inr full ↦ rw (← ok-injective (rw (bfs_loop, time, full) at h)) p
      | inl less ↦ elim (Bool-cases (at_limit c)) [
        | inl reached ↦ rw (← ok-injective (rw (bfs_loop, time, less, reached) at h)) p
        | inr below ↦ elim (List-cases c.frontier) [
          | inl empty ↦ rw (← ok-injective (rw (bfs_loop, time, less, below, empty) at h)) p
          | inr waiting ↦
              let (parent, rest, shape) = waiting in
              let room = Within-Room limit base most c paths p less below in
              >>=-elim (bfs_entry adapter limit parent rest c work paths) _
                (rw (bfs_loop, time, less, below, shape) at h)
                λ next a h1.
                  bfs_loop-Within fuel next.0 next.1 next.2 r
                    (bfs_entry-Within parent rest c work paths next room a) h1
        ]
      ]
    ]
  ]

  pub run_strategy-Within :
      (strategy : TraversalStrategy) (c : Cursor S C) (r : Cursor S C × List P)
      → Within {P = P} limit base most c []
      → run_strategy adapter limit strategy c ≡ ok r
      → Within limit base most r.0 r.1
  unfolding run_strategy advance_dfs advance_bfs
  run_strategy-Within depth_first c r p h =
      dfs_loop-Within adapter limit base most (work_quantum + 1) c 0 [] r p h
  run_strategy-Within breadth_first c r p h = bfs_loop-Within (work_quantum + 1) c 0 [] r p h
