-- ===== src/Traversal/Cursor/Limits/Depth.antt =====
-- engine/cursor.rs: the paths that the depth-first rounds find.
use rxgraph.Prelude.{
  ℕ, zero, suc, ◌-◌, ◌≡◌, Bool, inl, inr, Option, none, some, List, ltb, ◌==◌, length, get_elem?,
  Bool-cases, Option-cases, List-cases,
}
use rxgraph.Result.{ok, >>=-elim, ok-injective, or_err, or_panic, index, unknown_start}
use rxgraph.Traversal.Visits.{increment, decrement}
use rxgraph.Traversal.Search.{SearchAdapter}
use rxgraph.Traversal.Cursor.{work_quantum, DfsFrame, Cursor, pop, Turn, at_limit, edges_at, start}
use rxgraph.Traversal.Cursor.Advance.{
  visit_range, dfs_edge, descend, retreat, top_frame, dfs_frame, activate, dfs_loop,
}
use rxgraph.Traversal.Cursor.Limits.{Within, Room, Room-Within, Within-Room}
use rxgraph.Traversal.Cursor.Limits.Edges.{visit_range_within, dfs_edge-Visited}

module _ {S P C : Type 0} (adapter : SearchAdapter S P C) (limit base : ℕ) (most : Option ℕ) where
  start-Room :
      (c : Cursor S C) (paths : List P) (r : Bool × Cursor S C)
      → Room limit base most c paths
      → start adapter c ≡ ok r
      → Room limit base most r.1 paths
  unfolding start
  start-Room c paths r p h = elim (Option-cases (get_elem? c.cfg.start_nodes c.next_start)) [
    | inl used_up ↦ rw (← ok-injective (rw (start, used_up) at h)) p
    | inr more ↦
        let (external, at) = more in
        >>=-elim (adapter.resolve_node external) _ (rw (start, at) at h) λ resolved a h1.
          >>=-elim (or_err resolved (unknown_start external)) _ h1 λ node b h2.
            >>=-elim (adapter.initial_state node) _ h2 λ state d h3.
              >>=-elim (edges_at adapter c.cfg 0 node) _ h3 λ total f h4.
                >>=-elim (increment c.visits node) _ h4 λ visits g h5. rw (← ok-injective h5) p
  ]

  activate-Room :
      (c : Cursor S C) (paths : List P) (r : Bool × Cursor S C)
      → Room limit base most c paths
      → activate adapter limit c ≡ ok r
      → Room limit base most r.1 paths
  unfolding activate
  activate-Room c paths r p h = elim (List-cases c.frames) [
    | inl empty ↦ start-Room c paths r p (rw (activate, empty) at h)
    | inr some_frame ↦
        let (f, fs, shape) = some_frame in rw (← ok-injective (rw (activate, shape) at h)) p
  ]

  retreat-Within :
      (frames : List DfsFrame) (c r : Cursor S C) (paths : List P)
      → Within limit base most c paths
      → retreat adapter limit frames c ≡ ok r
      → Within limit base most r paths
  unfolding retreat
  retreat-Within frames c r paths p h = >>=-elim (or_panic (pop c.arena)) _ h λ popped a h1.
      >>=-elim (decrement c.visits popped.0.node) _ h1 λ visits b h2. rw (← ok-injective h2) p

  descend-Within :
      (child : Option ℕ) (c r : Cursor S C) (paths : List P)
      → Within limit base most c paths
      → descend adapter limit child c ≡ ok r
      → Within limit base most r paths
  unfolding descend
  descend-Within none c r paths p h = rw (← ok-injective h) p
  descend-Within (some child) c r paths p h = >>=-elim (index c.arena child) _ h λ entry a h1.
      >>=-elim (increment c.visits entry.node) _ h1 λ visits b h2.
        >>=-elim (edges_at adapter c.cfg entry.depth entry.node) _ h2
          λ total d h3. rw (← ok-injective h3) p

  dfs_frame-Within :
      (frames : List DfsFrame) (c : Cursor S C) (work : ℕ) (paths : List P)
      (r : Cursor S C × ℕ × List P)
      → Room limit base most c paths
      → dfs_frame adapter limit frames c work paths ≡ ok r
      → Within limit base most r.0 r.2
  unfolding dfs_frame
  dfs_frame-Within frames c work paths r p h =
      let parent = length c.arena - 1 in
      let within = Room-Within limit base most c paths p in
      >>=-elim (or_panic (top_frame frames)) _ h λ top a h1.
        elim (Bool-cases (top.0.next_edge == top.0.edge_count)) [
          | inl spent ↦
              >>=-elim (retreat adapter limit top.1 c) _ (rw spent at h1)
                λ back b h2. rw (← ok-injective h2) (retreat-Within top.1 c back paths within b)
          | inr more ↦ >>=-elim (index c.arena parent) _ (rw more at h1) λ entry b h2.
              >>=-elim (adapter.range entry.node top.0.next_edge _) _ h2 λ edges d h3.
                >>=-elim (visit_range (dfs_edge adapter limit parent entry.node) edges _) _ h3
                  λ t f h4.
                    let q =
                      visit_range_within (λ (t : Turn S C P). Room limit base most t.cursor t.paths)
                        (λ (t : Turn S C P). Within limit base most t.cursor t.paths)
                        (dfs_edge adapter limit parent entry.node) edges _ t
                        (dfs_edge-Visited adapter limit base most parent entry.node)
                        (λ t. Room-Within limit base most t.cursor t.paths) p f in
                    >>=-elim (descend adapter limit t.accepted t.cursor) _ h4 λ down g h5.
                      rw (← ok-injective h5) (descend-Within t.accepted t.cursor down t.paths q g)
        ]

  pub dfs_loop-Within :
      (fuel : ℕ) (c : Cursor S C) (work : ℕ) (paths : List P) (r : Cursor S C × List P)
      → Within limit base most c paths
      → dfs_loop adapter limit fuel c work paths ≡ ok r
      → Within limit base most r.0 r.1
  unfolding dfs_loop
  dfs_loop-Within zero c work paths r p h = absurd cc
  dfs_loop-Within (suc fuel) c work paths r p h = elim (Bool-cases (ltb work work_quantum)) [
    | inr full ↦ rw (← ok-injective (rw (dfs_loop, full) at h)) p
    | inl time ↦ elim (Bool-cases (ltb (length paths) limit)) [
      | inr full ↦ rw (← ok-injective (rw (dfs_loop, time, full) at h)) p
      | inl less ↦ elim (Bool-cases (at_limit c)) [
        | inl reached ↦ rw (← ok-injective (rw (dfs_loop, time, less, reached) at h)) p
        | inr below ↦
            let room = Within-Room limit base most c paths p less below in
            >>=-elim (activate adapter limit c) _ (rw (dfs_loop, time, less, below) at h)
              λ begun a h1.
                let q = activate-Room c paths begun room a in
                elim (Bool-cases begun.0) [
                  | inr used_up ↦
                      rw (← ok-injective (rw used_up at h1))
                        (Room-Within limit base most begun.1 paths q)
                  | inl active ↦
                      >>=-elim (dfs_frame adapter limit begun.1.frames begun.1 work paths) _
                        (rw active at h1)
                        λ next b h2.
                          dfs_loop-Within fuel next.0 next.1 next.2 r
                            (dfs_frame-Within begun.1.frames begun.1 work paths next q b) h2
                ]
      ]
    ]
  ]
