-- ===== src/Traversal/Cursor/Balance.antt =====
-- The start of a search and its depth-first rounds keep the counters balanced.
use rxgraph.Prelude.{
  ℕ, zero, suc, ◌-◌, ◌≡◌, Bool, true, ◌&&◌, inl, inr, Option, none, some, List, [], ◌∷◌, arith, ltb,
  ◌==◌, length, get_elem?, Bool-cases, Option-cases, List-cases,
}
use rxgraph.Result.{GraphId, ok, >>=-elim, ok-injective, or_err, or_panic, index, unknown_start}
use rxgraph.Traversal.Arena.{PathEntry}
use rxgraph.Traversal.Stats.{SearchStats, no_stats}
use rxgraph.Traversal.Visits.{increment, decrement}
use rxgraph.Traversal.Search.{
  SearchAdapter, TraversalStrategy, breadth_first, depth_first, push_starts, initial_arena,
}
use rxgraph.Traversal.Cursor.{
  work_quantum, DfsFrame, Cursor, pop, Turn, at_limit, nothing_to_do, set_up, initialize, edges_at,
  start,
}
use rxgraph.Traversal.Cursor.Advance.{
  visit_range, dfs_edge, descend, retreat, top_frame, dfs_frame, activate, dfs_loop,
}
use rxgraph.Traversal.Cursor.Counters.{IsBalanced, dfs_edge-IsBalanced, visit_range_lem}

module _ {S P C : Type 0} (adapter : SearchAdapter S P C) where
  push_starts-IsBalanced :
      (starts : List GraphId) (arena : List (PathEntry S)) (frontier : List ℕ) (stats : SearchStats)
      (r : List (PathEntry S) × List ℕ × SearchStats)
      → IsBalanced stats
      → push_starts adapter starts arena frontier stats ≡ ok r
      → IsBalanced r.2
  unfolding push_starts
  push_starts-IsBalanced [] arena frontier stats r p h = rw (← ok-injective h) p
  push_starts-IsBalanced (external ∷ externals) arena frontier stats r p h =
      >>=-elim (adapter.resolve_node external) _ h λ resolved a h1.
        >>=-elim (or_err resolved (unknown_start external)) _ h1 λ node b h2.
          >>=-elim (adapter.initial_state node) _ h2 λ state d h3.
            push_starts-IsBalanced externals _ _ _ r
              (record {
                evaluated = p.evaluated;
                entries = omega (arith, p.entries);
                stopped = p.stopped;
              })
              h3

  no_stats-IsBalanced : IsBalanced no_stats
  no_stats-IsBalanced = record {
    evaluated = omega arith;
    entries = omega arith;
    stopped = omega arith;
  }

  set_up-IsBalanced :
      (strategy : TraversalStrategy) (c r : Cursor S C)
      → IsBalanced c.stats
      → set_up adapter strategy c ≡ ok r
      → IsBalanced r.stats
  unfolding set_up initial_arena
  set_up-IsBalanced depth_first c r p h = rw (← ok-injective h) p
  set_up-IsBalanced breadth_first c r p h =
      >>=-elim (push_starts adapter c.cfg.start_nodes [] [] no_stats) _ h λ begun a h1.
        rw (← ok-injective h1)
          (push_starts-IsBalanced c.cfg.start_nodes [] [] no_stats begun no_stats-IsBalanced a)

  pub initialize-IsBalanced :
      (c r : Cursor S C) → IsBalanced c.stats → initialize adapter c ≡ ok r → IsBalanced r.stats
  unfolding initialize
  initialize-IsBalanced c r p h = elim (Bool-cases c.initialized) [
    | inl again ↦ rw (← ok-injective (rw (initialize, again) at h)) p
    | inr first ↦ elim (Bool-cases (nothing_to_do c.cfg.max_paths c.cfg.start_nodes)) [
      | inl idle ↦ rw (← ok-injective (rw (initialize, first, idle) at h)) p
      | inr busy ↦
          set_up-IsBalanced c.cfg.strategy
            (record c { initialized = true; cache = some adapter.make_cache }) r p
            (rw (initialize, first, busy) at h)
    ]
  ]

  start-IsBalanced :
      (c : Cursor S C) (r : Bool × Cursor S C)
      → IsBalanced c.stats
      → start adapter c ≡ ok r
      → IsBalanced r.1.stats
  unfolding start
  start-IsBalanced c r p h = elim (Option-cases (get_elem? c.cfg.start_nodes c.next_start)) [
    | inl used_up ↦ rw (← ok-injective (rw (start, used_up) at h)) p
    | inr more ↦
        let (external, at) = more in
        >>=-elim (adapter.resolve_node external) _ (rw (start, at) at h) λ resolved a h1.
          >>=-elim (or_err resolved (unknown_start external)) _ h1 λ node b h2.
            >>=-elim (adapter.initial_state node) _ h2 λ state d h3.
              >>=-elim (edges_at adapter c.cfg 0 node) _ h3 λ total f h4.
                >>=-elim (increment c.visits node) _ h4 λ visits g h5.
                  rw (← ok-injective h5) (record {
                    evaluated = p.evaluated;
                    entries = omega (arith, p.entries);
                    stopped = p.stopped;
                  })
  ]

  module _ (limit : ℕ) where
    retreat-IsBalanced :
        (frames : List DfsFrame) (c r : Cursor S C)
        → IsBalanced c.stats
        → retreat adapter limit frames c ≡ ok r
        → IsBalanced r.stats
    unfolding retreat
    retreat-IsBalanced frames c r p h = >>=-elim (or_panic (pop c.arena)) _ h λ popped a h1.
        >>=-elim (decrement c.visits popped.0.node) _ h1 λ visits b h2. rw (← ok-injective h2) p

    descend-IsBalanced :
        (child : Option ℕ) (c r : Cursor S C)
        → IsBalanced c.stats
        → descend adapter limit child c ≡ ok r
        → IsBalanced r.stats
    unfolding descend
    descend-IsBalanced none c r p h = rw (← ok-injective h) p
    descend-IsBalanced (some child) c r p h = >>=-elim (index c.arena child) _ h λ entry a h1.
        >>=-elim (increment c.visits entry.node) _ h1 λ visits b h2.
          >>=-elim (edges_at adapter c.cfg entry.depth entry.node) _ h2
            λ total d h3. rw (← ok-injective h3) p

    dfs_frame-IsBalanced :
        (frames : List DfsFrame) (c : Cursor S C) (work : ℕ) (paths : List P)
        (r : Cursor S C × ℕ × List P)
        → IsBalanced c.stats
        → dfs_frame adapter limit frames c work paths ≡ ok r
        → IsBalanced r.0.stats
    unfolding dfs_frame
    dfs_frame-IsBalanced frames c work paths r p h =
        let parent = length c.arena - 1 in
        >>=-elim (or_panic (top_frame frames)) _ h λ top a h1.
          elim (Bool-cases (top.0.next_edge == top.0.edge_count)) [
            | inl spent ↦
                >>=-elim (retreat adapter limit top.1 c) _ (rw spent at h1)
                  λ back b h2. rw (← ok-injective h2) (retreat-IsBalanced top.1 c back p b)
            | inr more ↦ >>=-elim (index c.arena parent) _ (rw more at h1) λ entry b h2.
                >>=-elim (adapter.range entry.node top.0.next_edge _) _ h2 λ edges d h3.
                  >>=-elim (visit_range (dfs_edge adapter limit parent entry.node) edges _) _ h3
                    λ t f h4.
                      let q =
                        visit_range_lem (λ (t : Turn S C P). IsBalanced t.cursor.stats)
                          (dfs_edge adapter limit parent entry.node) edges _ t
                          (dfs_edge-IsBalanced adapter limit parent entry.node) p f in
                      >>=-elim (descend adapter limit t.accepted t.cursor) _ h4 λ down g h5.
                        rw (← ok-injective h5) (descend-IsBalanced t.accepted t.cursor down q g)
          ]

    activate-IsBalanced :
        (c : Cursor S C) (r : Bool × Cursor S C)
        → IsBalanced c.stats
        → activate adapter limit c ≡ ok r
        → IsBalanced r.1.stats
    unfolding activate
    activate-IsBalanced c r p h = elim (List-cases c.frames) [
      | inl empty ↦ start-IsBalanced c r p (rw (activate, empty) at h)
      | inr some_frame ↦
          let (f, fs, shape) = some_frame in rw (← ok-injective (rw (activate, shape) at h)) p
    ]

    pub dfs_loop-IsBalanced :
        (fuel : ℕ) (c : Cursor S C) (work : ℕ) (paths : List P) (r : Cursor S C × List P)
        → IsBalanced c.stats
        → dfs_loop adapter limit fuel c work paths ≡ ok r
        → IsBalanced r.0.stats
    unfolding dfs_loop
    dfs_loop-IsBalanced zero c work paths r p h = absurd cc
    dfs_loop-IsBalanced (suc fuel) c work paths r p h =
        elim (Bool-cases (ltb work work_quantum && ltb (length paths) limit)) [
          | inr full ↦ rw (← ok-injective (rw (dfs_loop, full) at h)) p
          | inl room ↦ elim (Bool-cases (at_limit c)) [
            | inl reached ↦ rw (← ok-injective (rw (dfs_loop, room, reached) at h)) p
            | inr below ↦
                >>=-elim (activate adapter limit c) _ (rw (dfs_loop, room, below) at h)
                  λ begun a h1.
                    let q = activate-IsBalanced c begun p a in
                    elim (Bool-cases begun.0) [
                      | inr used_up ↦ rw (← ok-injective (rw used_up at h1)) q
                      | inl active ↦
                          >>=-elim (dfs_frame adapter limit begun.1.frames begun.1 work paths) _
                            (rw active at h1)
                            λ next b h2.
                              dfs_loop-IsBalanced fuel next.0 next.1 next.2 r
                                (dfs_frame-IsBalanced begun.1.frames begun.1 work paths next q b) h2
                    ]
          ]
        ]
