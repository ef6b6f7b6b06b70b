-- ===== src/Traversal/Cursor/Counters.antt =====
-- The counters of a search balance after every step.
use rxgraph.Prelude.{
  ℕ, ◌+◌, ◌≤◌, ◌≡◌, subst, Bool, inl, inr, Option, none, some, List, [], ◌∷◌, arith, leb,
  Bool-cases, Option-cases,
}
use rxgraph.Result.{Result, ok, >>=-elim, ok-injective, or_panic, index}
use rxgraph.Graph.Csr.{NodeId, EdgeId}
use rxgraph.Traversal.Arena.{PathEntry, EdgeEval, push_entry, can_visit_arena}
use rxgraph.Traversal.Stats.{SearchStats}
use rxgraph.Traversal.Search.{SearchAdapter, RunConfig, eval_arena_edge}
use rxgraph.Traversal.Cursor.{Cursor, pop, Turn, accept}
use rxgraph.Traversal.Cursor.Batch.{bfs_edge, take_answer}
use rxgraph.Traversal.Cursor.Advance.{dfs_edge, next_edge, visit_range}
use rxgraph.Traversal.Visits.{count}

-- Each evaluated edge was accepted or rejected, each path entry is a start or an accepted edge, and
-- no more paths stopped than edges were accepted.
pub record IsBalanced (s : SearchStats) : Type 0 where
  pub evaluated : s.evaluated_edges ≡ s.accepted_edges + s.rejected_edges
  pub entries : s.path_entries ≡ s.start_nodes + s.accepted_edges
  pub stopped : s.stopped_paths ≤ s.accepted_edges

-- The same, with one evaluated edge that is not yet accepted or rejected.
pub record IsPending (s : SearchStats) : Type 0 where
  pub evaluated : s.evaluated_edges ≡ s.accepted_edges + s.rejected_edges + 1
  pub entries : s.path_entries ≡ s.start_nodes + s.accepted_edges
  pub stopped : s.stopped_paths ≤ s.accepted_edges

module _ {S P C : Type 0} (adapter : SearchAdapter S P C) where
  -- `accept` settles the pending edge.
  pub accept-IsBalanced :
      (c : Cursor S C) (parent : ℕ) (e : EdgeEval S) (paths : List P)
      (r : Option ℕ × Cursor S C × List P)
      → IsPending c.stats
      → accept adapter c parent e paths ≡ ok r
      → IsBalanced r.1.stats
  unfolding accept
  accept-IsBalanced c parent e paths r p h =
      >>=-elim (push_entry c.arena parent e) _ h λ pushed a h1.
        >>=-elim (index pushed.1 pushed.0) _ h1 λ entry b h2. elim (Bool-cases e.stop) [
          | inr goes_on ↦
              let same = ok-injective (rw goes_on at h2) in
              rw (← same) (record {
                evaluated = omega (arith, p.evaluated);
                entries = omega (arith, p.entries);
                stopped = omega (arith, p.stopped);
              })
          | inl stops ↦
              >>=-elim (adapter.materialize pushed.1 pushed.0 c.cfg.intermediate_states) _
                (rw stops at h2)
                λ path d h3. >>=-elim (or_panic (pop pushed.1)) _ h3 λ rest g h4.
                  rw (← ok-injective h4) (record {
                    evaluated = omega (arith, p.evaluated);
                    entries = omega (arith, p.entries);
                    stopped = omega (arith, p.stopped);
                  })
        ]

  -- What `eval_arena_edge` leaves: an edge to accept, or none.
  abbrev pub IsAnswered : Option (EdgeEval S) → SearchStats → Type 0
  IsAnswered none s = IsBalanced s
  IsAnswered (some e) s = IsPending s

  pub eval_arena_edge-IsAnswered :
      (arena : List (PathEntry S)) (parent : ℕ) (candidate : EdgeId × NodeId) (cfg : RunConfig)
      (stats : SearchStats) (cache : C) (r : Option (EdgeEval S) × SearchStats)
      → IsBalanced stats
      → eval_arena_edge adapter arena parent candidate cfg stats cache ≡ ok r
      → IsAnswered r.0 r.1
  unfolding eval_arena_edge
  eval_arena_edge-IsAnswered arena parent (edge, dest) cfg stats cache r p h =
      >>=-elim (can_visit_arena arena parent dest cfg.max_visits_per_node) _ h λ allowed a h1.
        elim (Bool-cases allowed) [
          | inr no_visit ↦
              rw (← ok-injective (rw no_visit at h1))
                (record { evaluated = p.evaluated; entries = p.entries; stopped = p.stopped })
          | inl may_visit ↦ >>=-elim (index arena parent) _ (rw may_visit at h1) λ up b h2.
              >>=-elim (adapter.eval_edge up.node edge dest up.state cache) _ h2 λ answer d h3.
                elim (Option-cases answer) [
                  | inl rejects ↦ rw (← ok-injective (rw rejects at h3)) (record {
                    evaluated = omega (arith, p.evaluated);
                    entries = p.entries;
                    stopped = p.stopped;
                  })
                  | inr accepts ↦
                      let (found, is_some) = accepts in
                      rw (← ok-injective (rw is_some at h3)) (record {
                        evaluated = omega (arith, p.evaluated);
                        entries = p.entries;
                        stopped = p.stopped;
                      })
                ]
        ]

  module _ (limit : ℕ) where
    take_answer-IsBalanced :
        (parent : ℕ) (answer : Option (EdgeEval S)) (c : Cursor S C) (paths : List P)
        (r : Cursor S C × List P)
        → IsAnswered answer c.stats
        → take_answer adapter limit parent answer c paths ≡ ok r
        → IsBalanced r.0.stats
    unfolding take_answer
    take_answer-IsBalanced parent none c paths r p h = rw (← ok-injective h) p
    take_answer-IsBalanced parent (some e) c paths r p h =
        >>=-elim (accept adapter c parent e paths) _ h
          λ taken a h1. rw (← ok-injective h1) (accept-IsBalanced c parent e paths taken p a)

    pub bfs_edge-IsBalanced :
        (parent : ℕ) (edge : EdgeId) (dest : NodeId) (t : Turn S C P) (r : Bool × Turn S C P)
        → IsBalanced t.cursor.stats
        → bfs_edge adapter limit parent edge dest t ≡ ok r
        → IsBalanced r.1.cursor.stats
    unfolding bfs_edge
    bfs_edge-IsBalanced parent edge dest t r p h =
        let c : Cursor S C = record t.cursor { bfs_edge = t.cursor.bfs_edge + 1 } in
        >>=-elim (or_panic c.cache) _ h λ cache a h1.
          >>=-elim (eval_arena_edge adapter c.arena parent (edge, dest) c.cfg c.stats cache) _ h1
            λ found b h2.
              let q =
                eval_arena_edge-IsAnswered c.arena parent (edge, dest) c.cfg c.stats cache found p
                  b in
              let counted : Cursor S C = record c { stats = found.1 } in
              >>=-elim (take_answer adapter limit parent found.0 counted t.paths) _ h2 λ after d h3.
                rw (← ok-injective h3)
                  (take_answer-IsBalanced parent found.0 counted t.paths after q d)

    pub dfs_edge-IsBalanced :
        (parent : ℕ) (node : NodeId) (edge : EdgeId) (dest : NodeId) (t : Turn S C P)
        (r : Bool × Turn S C P)
        → IsBalanced t.cursor.stats
        → dfs_edge adapter limit parent node edge dest t ≡ ok r
        → IsBalanced r.1.cursor.stats
    unfolding dfs_edge
    dfs_edge-IsBalanced parent node edge dest t r p h =
        >>=-elim (or_panic (next_edge t.cursor.frames)) _ h λ frames a h1.
          let c : Cursor S C = record t.cursor { frames = frames } in
          >>=-elim (count c.visits dest) _ h1 λ visits b h2.
            elim (Bool-cases (leb c.cfg.max_visits_per_node visits)) [
              | inl full ↦
                  rw (← ok-injective (rw full at h2))
                    (record { evaluated = p.evaluated; entries = p.entries; stopped = p.stopped })
              | inr room ↦
                  let stats : SearchStats = record c.stats {
                    evaluated_edges = c.stats.evaluated_edges + 1;
                  } in
                  let pending : IsPending stats = record {
                    evaluated = omega (arith, p.evaluated);
                    entries = p.entries;
                    stopped = p.stopped;
                  } in
                  >>=-elim (index c.arena parent) _ (rw room at h2) λ entry d h3.
                    >>=-elim (or_panic c.cache) _ h3 λ cache f h4.
                      >>=-elim (adapter.eval_edge node edge dest entry.state cache) _ h4
                        λ answer g h5. elim (Option-cases answer) [
                          | inl rejects ↦ rw (← ok-injective (rw rejects at h5)) (record {
                            evaluated = omega (arith, p.evaluated);
                            entries = p.entries;
                            stopped = p.stopped;
                          })
                          | inr accepts ↦
                              let ((state, stop), is_some) = accepts in
                              let e : EdgeEval S = record {
                                edge = edge;
                                dest = dest;
                                state = state;
                                stop = stop;
                              } in
                              let counted : Cursor S C = record c { stats = stats } in
                              >>=-elim (accept adapter counted parent e t.paths) _
                                (rw is_some at h5)
                                λ taken k h6.
                                  rw (← ok-injective h6)
                                    (accept-IsBalanced counted parent e t.paths taken pending k)
                        ]
            ]

-- What every visit keeps, a range keeps.
pub visit_range_lem :
    {T : Type 0} (P : T → Type 0) (visit : EdgeId → NodeId → T → Result (Bool × T))
    (edges : List (EdgeId × NodeId)) (t r : T)
    → ((edge : EdgeId) (dest : NodeId) (t' : T) (r' : Bool × T)
        → P t'
        → visit edge dest t' ≡ ok r'
        → P r'.1)
    → P t
    → visit_range visit edges t ≡ ok r
    → P r
unfolding visit_range
visit_range_lem P visit [] t r keeps p h = subst P (ok-injective h) p
visit_range_lem P visit ((edge, dest) ∷ edges) t r keeps p h =
    >>=-elim (visit edge dest t) _ h λ next a h1.
      let q = keeps edge dest t next p a in
      elim (Bool-cases next.0) [
        | inl more ↦ visit_range_lem P visit edges next.1 r keeps q (rw more at h1)
        | inr last ↦ subst P (ok-injective (rw last at h1)) q
      ]
