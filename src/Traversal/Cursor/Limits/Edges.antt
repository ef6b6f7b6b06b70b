-- ===== src/Traversal/Cursor/Limits/Edges.antt =====
-- engine/cursor.rs: the paths that an accepted edge adds.
use rxgraph.Prelude.{
  ℕ, ◌+◌, ◌≡◌, refl, subst, Bool, true, false, not, ◌&&◌, inl, inr, Option, none, some, List, [],
  ◌∷◌, arith, leb, ltb, length, length-append, Bool-cases, Option-cases,
}
use rxgraph.Result.{Result, ok, >>=-elim, ok-injective, or_panic, index}
use rxgraph.Graph.Csr.{NodeId, EdgeId}
use rxgraph.Traversal.Arena.{PathEntry, EdgeEval, push_entry, can_visit_arena}
use rxgraph.Traversal.Stats.{SearchStats}
use rxgraph.Traversal.Search.{SearchAdapter, RunConfig, eval_arena_edge}
use rxgraph.Traversal.Cursor.{Cursor, pop, Turn, accept, at_limit}
use rxgraph.Traversal.Cursor.Batch.{bfs_edge, take_answer}
use rxgraph.Traversal.Cursor.Advance.{dfs_edge, next_edge, visit_range}
use rxgraph.Traversal.Visits.{count}
use rxgraph.Traversal.Cursor.Limits.{
  Below-AtMost_one, Within, Room, Room-Within, Visited, Visited-test,
}

-- What holds before each visit of a range, and after it.
pub visit_range_within :
    {T : Type 0} (P Q : T → Type 0) (visit : EdgeId → NodeId → T → Result (Bool × T))
    (edges : List (EdgeId × NodeId)) (t r : T)
    → ((edge : EdgeId) (dest : NodeId) (t' : T) (r' : Bool × T)
        → P t'
        → visit edge dest t' ≡ ok r'
        → Q r'.1 × (r'.0 ≡ true → P r'.1))
    → ((t' : T) → P t' → Q t')
    → P t
    → visit_range visit edges t ≡ ok r
    → Q r
unfolding visit_range
visit_range_within P Q visit [] t r keeps weaker p h = subst Q (ok-injective h) (weaker t p)
visit_range_within P Q visit ((edge, dest) ∷ edges) t r keeps weaker p h =
    >>=-elim (visit edge dest t) _ h λ next a h1.
      let (after, goes_on) = keeps edge dest t next p a in
      elim (Bool-cases next.0) [
        | inl more ↦
            visit_range_within P Q visit edges next.1 r keeps weaker (goes_on more) (rw more at h1)
        | inr last ↦ subst Q (ok-injective (rw last at h1)) after
      ]

module _ {S P C : Type 0} (adapter : SearchAdapter S P C) where
  pub eval_arena_edge-stopped :
      (arena : List (PathEntry S)) (parent : ℕ) (candidate : EdgeId × NodeId) (cfg : RunConfig)
      (stats : SearchStats) (cache : C) (r : Option (EdgeEval S) × SearchStats)
      → eval_arena_edge adapter arena parent candidate cfg stats cache ≡ ok r
      → r.1.stopped_paths ≡ stats.stopped_paths
  unfolding eval_arena_edge
  eval_arena_edge-stopped arena parent (edge, dest) cfg stats cache r h =
      >>=-elim (can_visit_arena arena parent dest cfg.max_visits_per_node) _ h λ allowed a h1.
        elim (Bool-cases allowed) [
          | inr no_visit ↦ rw (← ok-injective (rw no_visit at h1)) refl
          | inl may_visit ↦ >>=-elim (index arena parent) _ (rw may_visit at h1) λ up b h2.
              >>=-elim (adapter.eval_edge up.node edge dest up.state cache) _ h2 λ answer d h3.
                elim (Option-cases answer) [
                  | inl rejects ↦ rw (← ok-injective (rw rejects at h3)) refl
                  | inr accepts ↦
                      let (found, is_some) = accepts in rw (← ok-injective (rw is_some at h3)) refl
                ]
        ]

  module _ (limit base : ℕ) (most : Option ℕ) where
    pub accept-Within :
        (c : Cursor S C) (parent : ℕ) (e : EdgeEval S) (paths : List P)
        (r : Option ℕ × Cursor S C × List P)
        → Room limit base most c paths
        → accept adapter c parent e paths ≡ ok r
        → Within limit base most r.1 r.2
    unfolding accept
    accept-Within c parent e paths r p h = >>=-elim (push_entry c.arena parent e) _ h λ pushed a h1.
        >>=-elim (index pushed.1 pushed.0) _ h1 λ entry b h2. elim (Bool-cases e.stop) [
          | inr goes_on ↦
              rw (← ok-injective (rw goes_on at h2)) (Room-Within limit base most c paths p)
          | inl stops ↦
              >>=-elim (adapter.materialize pushed.1 pushed.0 c.cfg.intermediate_states) _
                (rw stops at h2)
                λ path d h3. >>=-elim (or_panic (pop pushed.1)) _ h3 λ rest g h4.
                  rw (← ok-injective h4) (record {
                    counted = omega (arith, p.counted, length-append paths (path ∷ []));
                    fits = omega (arith, p.fits, length-append paths (path ∷ []));
                    allowed = Below-AtMost_one most c.stats.stopped_paths p.allowed;
                    configured = p.configured;
                    set = p.set;
                  })
        ]

    take_answer-Within :
        (parent : ℕ) (answer : Option (EdgeEval S)) (c : Cursor S C) (paths : List P)
        (r : Cursor S C × List P)
        → Room limit base most c paths
        → take_answer adapter limit parent answer c paths ≡ ok r
        → Within limit base most r.0 r.1
    unfolding take_answer
    take_answer-Within parent none c paths r p h =
        rw (← ok-injective h) (Room-Within limit base most c paths p)
    take_answer-Within parent (some e) c paths r p h =
        >>=-elim (accept adapter c parent e paths) _ h
          λ taken a h1. rw (← ok-injective h1) (accept-Within c parent e paths taken p a)

    pub bfs_edge-Visited :
        (parent : ℕ) (edge : EdgeId) (dest : NodeId) (t : Turn S C P) (r : Bool × Turn S C P)
        → Room limit base most t.cursor t.paths
        → bfs_edge adapter limit parent edge dest t ≡ ok r
        → Visited limit base most r
    unfolding bfs_edge
    bfs_edge-Visited parent edge dest t r p h =
        let c : Cursor S C = record t.cursor { bfs_edge = t.cursor.bfs_edge + 1 } in
        >>=-elim (or_panic c.cache) _ h λ cache a h1.
          >>=-elim (eval_arena_edge adapter c.arena parent (edge, dest) c.cfg c.stats cache) _ h1
            λ found b h2.
              let same =
                eval_arena_edge-stopped c.arena parent (edge, dest) c.cfg c.stats cache found b in
              let counted : Cursor S C = record c { stats = found.1 } in
              let room : Room limit base most counted t.paths = rw same p in
              >>=-elim (take_answer adapter limit parent found.0 counted t.paths) _ h2 λ after d h3.
                let within = take_answer-Within parent found.0 counted t.paths after room d in
                rw (← ok-injective h3) (
                  Visited-test limit base most
                    (record t { cursor = after.0; work = t.work + 1; paths = after.1 }) within)

    child-Visited :
        (child : Option ℕ) (t : Turn S C P)
        → Within limit base most t.cursor t.paths
        → Visited limit base most (
          elim child [
            | none ↦ ltb (length t.paths) limit && not (at_limit t.cursor)
            | some index ↦ false
          ],
          t,
        )
    child-Visited none t within = Visited-test limit base most t within
    child-Visited (some index) t within = (within, (λ never. absurd cc))

    pub dfs_edge-Visited :
        (parent : ℕ) (node : NodeId) (edge : EdgeId) (dest : NodeId) (t : Turn S C P)
        (r : Bool × Turn S C P)
        → Room limit base most t.cursor t.paths
        → dfs_edge adapter limit parent node edge dest t ≡ ok r
        → Visited limit base most r
    unfolding dfs_edge
    dfs_edge-Visited parent node edge dest t r p h =
        >>=-elim (or_panic (next_edge t.cursor.frames)) _ h λ frames a h1.
          let c : Cursor S C = record t.cursor { frames = frames } in
          let within = Room-Within limit base most t.cursor t.paths p in
          >>=-elim (count c.visits dest) _ h1 λ visits b h2.
            elim (Bool-cases (leb c.cfg.max_visits_per_node visits)) [
              | inl full ↦ rw (← ok-injective (rw full at h2)) (within, (λ always. p))
              | inr room ↦
                  let stats : SearchStats = record c.stats {
                    evaluated_edges = c.stats.evaluated_edges + 1;
                  } in
                  >>=-elim (index c.arena parent) _ (rw room at h2) λ entry d h3.
                    >>=-elim (or_panic c.cache) _ h3 λ cache f h4.
                      >>=-elim (adapter.eval_edge node edge dest entry.state cache) _ h4
                        λ answer g h5. elim (Option-cases answer) [
                          | inl rejects ↦
                              rw (← ok-injective (rw rejects at h5)) (within, (λ always. p))
                          | inr accepts ↦
                              let ((state, stop), is_some) = accepts in
                              let e : EdgeEval S = record {
                                edge = edge;
                                dest = dest;
                                state = state;
                                stop = stop;
                              } in
                              let counted : Cursor S C = record c { stats = stats } in
                              >>=-elim (accept adapter counted parent e t.paths) _
                                (rw is_some at h5)
                                λ taken k h6. rw (← ok-injective h6) (
                                  child-Visited taken.0
                                    (record t {
                                      cursor = taken.1;
                                      work = t.work + 1;
                                      accepted = taken.0;
                                      paths = taken.2;
                                    })
                                    (accept-Within counted parent e t.paths taken p k))
                        ]
            ]
