-- ===== src/Traversal/Parallel/BreadthLimits.antt =====
-- engine/cursor/parallel.rs, `ParallelBfs::next_batch`: the size of a batch.
use rxgraph.Prelude.{
  ℕ, zero, suc, ◌+◌, ◌≤◌, ◌<◌, ◌≡◌, ap, Bool, true, false, ◌&&◌, ◌||◌, inl, inr, Option, none, some,
  List, [], ◌∷◌, ltb, leb, length, arith, Bool-cases, List-cases,
}
use rxgraph.Result.{ok, >>=-elim, ok-injective, index}
use rxgraph.Traversal.Arena.{EdgeEval, push_entry}
use rxgraph.Traversal.Search.{SearchAdapter}
use rxgraph.Traversal.Cursor.{work_quantum, Cursor, at_limit, initialize, accept}
use rxgraph.Traversal.Cursor.Batch.{advance_bfs, enqueue}
use rxgraph.Traversal.Cursor.Limits.{Within, Room, Room-Within, Within-Room}
use rxgraph.Traversal.Cursor.Limits.Edges.{accept-Within}
use rxgraph.Traversal.Cursor.Limits.Breadth.{bfs_loop-Within}
use rxgraph.Traversal.Cursor.Limits.Batches.{
  IsCapped, IsEmitted, Within-IsCapped, initialize-Within, batch_size,
}
use rxgraph.Traversal.Parallel.Layer.{
  min_par_frontier, min_par_edges, ParallelBfs, drain, frontier_edges,
}
use rxgraph.Traversal.Parallel.LayerLimits.{evaluate_layer-Within}
use rxgraph.Traversal.Parallel.Cursors.{evaluate_layer, expand_front, bfs_rounds, bfs_batch}

right-false : (a b : Bool) → (a || b) ≡ false → b ≡ false
right-false true b h = absurd cc
right-false false b h = h

lt→ltb : (a b : ℕ) → a < b → ltb a b ≡ true
lt→ltb a b h = ground arith

module _ {S P C : Type 0} (adapter : SearchAdapter S P C) where
  module _ (limit base : ℕ) (most : Option ℕ) where
    -- An edge that goes on takes no room.
    accept-Room :
        (c : Cursor S C) (parent : ℕ) (e : EdgeEval S) (paths : List P)
        (r : Option ℕ × Cursor S C × List P)
        → e.stop ≡ false
        → Room limit base most c paths
        → accept adapter c parent e paths ≡ ok r
        → Room limit base most r.1 r.2
    unfolding accept
    accept-Room c parent e paths r goes_on p h =
        >>=-elim (push_entry c.arena parent e) _ h λ pushed a h1.
          >>=-elim (index pushed.1 pushed.0) _ h1
            λ entry b h2. rw (← ok-injective (rw goes_on at h2)) p

    drain-Within :
        (pending : List (ℕ × EdgeEval S)) (c : Cursor S C) (paths : List P)
        (r : List (ℕ × EdgeEval S) × Cursor S C × List P)
        → Room limit base most c paths
        → drain adapter limit pending c paths ≡ ok r
        → Within limit base most r.1 r.2
    unfolding drain
    drain-Within [] c paths r p h = rw (← ok-injective h) (Room-Within limit base most c paths p)
    drain-Within ((parent, e) ∷ pending) c paths r p h =
        >>=-elim (accept adapter c parent e paths) _ h λ taken a h1.
          let within = accept-Within adapter limit base most c parent e paths taken p a in
          let next : Cursor S C = record taken.1 { frontier = enqueue taken.0 taken.1.frontier } in
          elim (Bool-cases e.stop) [
            | inr goes_on ↦
                drain-Within pending _ taken.2 r (accept-Room c parent e paths taken goes_on p a)
                  (rw goes_on at h1)
            | inl stops ↦ elim (Bool-cases (leb limit (length taken.2))) [
              | inl full ↦ rw (← ok-injective (rw (stops, full) at h1)) within
              | inr less ↦ elim (Bool-cases (at_limit next)) [
                | inl reached ↦ rw (← ok-injective (rw (stops, less, reached) at h1)) within
                | inr below ↦
                    drain-Within pending _ taken.2 r
                      (Within-Room limit base most next taken.2 within (ground arith) below)
                      (rw (stops, less, below) at h1)
              ]
            ]
          ]

    expand_front-Within :
        (threads : ℕ) (b : ParallelBfs S C) (r : Bool × ParallelBfs S C × List P)
        → Within {P = P} limit base most b.cursor []
        → expand_front adapter threads limit b ≡ ok r
        → Within limit base most r.1.cursor r.2
    unfolding expand_front advance_bfs
    expand_front-Within threads b r p h = elim (List-cases b.cursor.frontier) [
      | inl empty ↦ rw (← ok-injective (rw (expand_front, empty) at h)) p
      | inr waiting ↦
          let (first, rest, shape) = waiting in
          >>=-elim (index b.cursor.arena first) _ (rw (expand_front, shape) at h) λ entry a h1.
            >>=-elim (frontier_edges adapter b.cursor entry.depth) _ h1 λ edges d h2.
              elim (Bool-cases
                (ltb (length b.cursor.frontier) min_par_frontier && ltb edges min_par_edges)) [
                  | inl small ↦
                      >>=-elim (advance_bfs adapter limit b.cursor) _ (rw small at h2) λ next f h3.
                        rw (← ok-injective h3) (
                          bfs_loop-Within adapter limit base most (work_quantum + 1) b.cursor 0 []
                            next p f)
                  | inr large ↦
                      >>=-elim (evaluate_layer adapter threads entry.depth b) _ (rw large at h2)
                        λ next f h3. rw (← ok-injective h3) (
                          evaluate_layer-Within adapter limit base most threads entry.depth b next
                            [] p f)
                ]
    ]

  -- What a batch leaves: as after a batch of the serial cursor.
  module _ (limit base : ℕ) (most : Option ℕ) where
    found_some :
        (c : Cursor S C) (paths : List P) (path : P) (more : List P)
        → paths ≡ path ∷ more
        → Within limit base most c paths
        → IsCapped most c
          × (c.stats.stopped_paths ≡ base + batch_size (some (path ∷ more)))
          × (batch_size (some (path ∷ more)) ≤ limit)
    found_some c paths path more shape p =
        let same = ap length shape in
        (
          Within-IsCapped adapter most limit base c paths p,
          omega (arith, p.counted, same),
          omega (arith, p.fits, same),
        )

    found_none :
        (c : Cursor S C)
        → Within {P = P} limit base most c []
        → IsCapped most c
          × (c.stats.stopped_paths ≡ base + batch_size {P = P} none)
          × (batch_size {P = P} none ≤ limit)
    found_none c p = (Within-IsCapped adapter most limit base c [] p, p.counted, omega arith)

    bfs_rounds-IsEmitted :
        (threads fuel : ℕ) (b : ParallelBfs S C) (r : Option (List P) × ParallelBfs S C)
        → 0 < limit
        → Within {P = P} limit base most b.cursor []
        → bfs_rounds adapter threads fuel limit b ≡ ok r
        → IsCapped most r.1.cursor
          × (r.1.cursor.stats.stopped_paths ≡ base + batch_size r.0)
          × (batch_size r.0 ≤ limit)
    unfolding bfs_rounds
    bfs_rounds-IsEmitted threads zero b r pos p h = absurd cc
    bfs_rounds-IsEmitted threads (suc fuel) b r pos p h =
        elim (Bool-cases (b.cursor.done || at_limit b.cursor)) [
          | inl over ↦
              rw (← ok-injective (rw (bfs_rounds, over) at h))
                (found_none (record b.cursor { done = true }) p)
          | inr goes ↦
              let below = right-false b.cursor.done (at_limit b.cursor) goes in
              let room =
                Within-Room {P = P} limit base most b.cursor [] p (lt→ltb 0 limit pos) below in
              >>=-elim (drain adapter limit b.pending b.cursor []) _ (rw (bfs_rounds, goes) at h)
                λ drained a h1.
                  let q = drain-Within limit base most b.pending b.cursor [] drained room a in
                  elim (List-cases drained.2) [
                    | inr found ↦
                        let (path, more, shape) = found in
                        rw (← ok-injective (rw shape at h1))
                          (found_some drained.1 drained.2 path more shape q)
                    | inl empty ↦
                        let front : ParallelBfs S C = record {
                          cursor = drained.1;
                          pending = drained.0;
                        } in
                        let q' : Within {P = P} limit base most drained.1 [] = rw empty at q in
                        >>=-elim (expand_front adapter threads limit front) _ (rw empty at h1)
                          λ next d h2.
                            let s = expand_front-Within limit base most threads front next q' d in
                            elim (List-cases next.2) [
                              | inr found ↦
                                  let (path, more, shape) = found in
                                  rw (← ok-injective (rw shape at h2))
                                    (found_some next.1.cursor next.2 path more shape s)
                              | inl none_yet ↦
                                  let s' : Within {P = P} limit base most next.1.cursor [] =
                                    rw none_yet at s in
                                  elim (Bool-cases next.0) [
                                    | inl finished ↦
                                        rw (← ok-injective (rw (none_yet, finished) at h2))
                                          (found_none next.1.cursor s')
                                    | inr goes_on ↦
                                        bfs_rounds-IsEmitted threads fuel next.1 r pos s'
                                          (rw (none_yet, goes_on) at h2)
                                  ]
                            ]
                  ]
        ]

  -- A batch of the parallel breadth-first search leaves what a serial batch does.
  pub bfs_batch-IsEmitted :
      (most : Option ℕ) (threads fuel size : ℕ) (b : ParallelBfs S C)
      (r : Option (List P) × ParallelBfs S C)
      → 0 < size
      → IsCapped most b.cursor
      → bfs_batch adapter threads fuel size b ≡ ok r
      → IsEmitted most size b.cursor r.0 r.1.cursor
  unfolding bfs_batch
  bfs_batch-IsEmitted most threads fuel size b r pos p h = elim (Bool-cases b.cursor.done) [
    | inl done ↦ rw (← ok-injective (rw (bfs_batch, done) at h)) (p, omega arith, omega arith)
    | inr busy ↦ >>=-elim (initialize adapter b.cursor) _ (rw (bfs_batch, busy) at h) λ ready a h1.
        let q = initialize-Within adapter most size b.cursor ready p a in
        bfs_rounds-IsEmitted size b.cursor.stats.stopped_paths most threads fuel
          (record b { cursor = ready }) r pos q h1
  ]
