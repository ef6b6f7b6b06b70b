-- ===== src/Traversal/Parallel/LayerLimits.antt =====
-- engine/cursor/parallel.rs, `ParallelBfs`: the paths that the steps of a round find.
use rxgraph.Prelude.{
  ℕ, zero, suc, ◌+◌, ◌≡◌, refl, ◌∙◌, Bool, true, false, ◌||◌, inl, inr, Option, List, [], ◌∷◌, ltb,
  leb, ◌==◌, if◌then◌else◌, length, take, arith, Bool-cases, List-cases,
}
use rxgraph.Result.{ok, >>=-elim, ok-injective, index}
use rxgraph.Graph.Csr.{NodeId, EdgeId}
use rxgraph.Traversal.Arena.{PathEntry, EdgeEval}
use rxgraph.Traversal.Stats.{SearchStats, no_stats, merge_stats}
use rxgraph.Traversal.Search.{SearchAdapter, RunConfig, eval_arena_edge}
use rxgraph.Traversal.Cursor.{work_quantum, Cursor}
use rxgraph.Traversal.Cursor.Advance.{visit_range}
use rxgraph.Traversal.Cursor.Limits.{Within}
use rxgraph.Traversal.Cursor.Limits.Edges.{visit_range_within, eval_arena_edge-stopped}
use rxgraph.Traversal.Parallel.Layer.{
  min_par_frontier, min_par_edges, ParallelBfs, Job, entry_edges, cut_jobs, evaluate_edge,
  evaluate_jobs, evaluate, evaluate_chunks, job_chunks, fetched_nodes,
}
use rxgraph.Traversal.Parallel.Cursors.{evaluate_layer}

module _ {S P C : Type 0} (adapter : SearchAdapter S P C) where
  -- The evaluation of edges stops no path.
  evaluate_edge-stopped :
      (arena : List (PathEntry S)) (cfg : RunConfig) (parent : ℕ) (edge : EdgeId) (dest : NodeId)
      (found : List (ℕ × EdgeEval S) × SearchStats)
      (r : Bool × (List (ℕ × EdgeEval S) × SearchStats))
      → found.1.stopped_paths ≡ 0
      → evaluate_edge adapter arena cfg parent edge dest found ≡ ok r
      → r.1.1.stopped_paths ≡ 0
  unfolding evaluate_edge
  evaluate_edge-stopped arena cfg parent edge dest (edges, stats) r p h =
      >>=-elim (eval_arena_edge adapter arena parent (edge, dest) cfg stats adapter.make_cache) _ h
        λ next a h1. rw (← ok-injective h1) (
          eval_arena_edge-stopped adapter arena parent (edge, dest) cfg stats adapter.make_cache
            next a
          ∙ p)

  evaluate_jobs-stopped :
      (arena : List (PathEntry S)) (cfg : RunConfig) (jobs : List Job)
      (found r : List (ℕ × EdgeEval S) × SearchStats)
      → found.1.stopped_paths ≡ 0
      → evaluate_jobs adapter arena cfg jobs found ≡ ok r
      → r.1.stopped_paths ≡ 0
  unfolding evaluate_jobs
  evaluate_jobs-stopped arena cfg [] found r p h = rw (← ok-injective h) p
  evaluate_jobs-stopped arena cfg (job ∷ jobs) found r p h =
      >>=-elim (index arena job.parent) _ h λ entry a h1.
        >>=-elim (adapter.range entry.node job.first job.last) _ h1 λ range b h2.
          >>=-elim (visit_range (evaluate_edge adapter arena cfg job.parent) range found) _ h2
            λ next d h3.
              let q =
                visit_range_within
                  (λ (t : List (ℕ × EdgeEval S) × SearchStats). t.1.stopped_paths ≡ 0)
                  (λ (t : List (ℕ × EdgeEval S) × SearchStats). t.1.stopped_paths ≡ 0)
                  (evaluate_edge adapter arena cfg job.parent) range found next
                  (λ edge dest t r' pt ht.
                    let zero_left =
                      evaluate_edge-stopped arena cfg job.parent edge dest t r' pt ht in
                    (zero_left, (λ more. zero_left)))
                  (λ t pt. pt) p d in
              evaluate_jobs-stopped arena cfg jobs next r q h3

  evaluate_chunks-stopped :
      (parallel : Bool) (arena : List (PathEntry S)) (cfg : RunConfig) (chunks : List (List Job))
      (pending : List (ℕ × EdgeEval S)) (stats : SearchStats)
      (r : List (ℕ × EdgeEval S) × SearchStats)
      → evaluate_chunks adapter parallel arena cfg chunks pending stats ≡ ok r
      → r.1.stopped_paths ≡ stats.stopped_paths
  unfolding evaluate_chunks evaluate merge_stats
  evaluate_chunks-stopped parallel arena cfg [] pending stats r h = rw (← ok-injective h) refl
  evaluate_chunks-stopped parallel arena cfg (jobs ∷ rest) pending stats r h =
      >>=-elim (evaluate adapter parallel arena cfg jobs) _ h λ found a h1.
        >>=-elim (evaluate_jobs adapter arena cfg jobs ([], no_stats)) _ a λ counted b a1.
          let none_stopped = evaluate_jobs-stopped arena cfg jobs ([], no_stats) counted refl b in
          let same : found.1.stopped_paths ≡ 0 =
            rw (← ok-injective a1) (marked parallel counted.1 ∙ none_stopped) in
          evaluate_chunks-stopped parallel arena cfg rest _ _ r h1 ∙ omega (arith, same)
    where
      marked :
          (b : Bool) (s : SearchStats)
          → (if b then record s { parallel_edges = s.evaluated_edges } else s).stopped_paths
            ≡ s.stopped_paths
      marked true s = refl
      marked false s = refl

  module _ (limit base : ℕ) (most : Option ℕ) where
    cut_jobs-Within :
        (fuel threads depth : ℕ) (c : Cursor S C) (jobs : List Job) (total : ℕ) (paths : List P)
        (r : Cursor S C × List Job × ℕ)
        → Within limit base most c paths
        → cut_jobs adapter fuel threads depth c jobs total ≡ ok r
        → Within limit base most r.0 paths
    unfolding cut_jobs
    cut_jobs-Within zero threads depth c jobs total paths r p h = absurd cc
    cut_jobs-Within (suc fuel) threads depth c jobs total paths r p h =
        elim (Bool-cases (ltb total work_quantum)) [
          | inr full ↦ rw (← ok-injective (rw (cut_jobs, full) at h)) p
          | inl room ↦ elim (List-cases c.frontier) [
            | inl empty ↦ rw (← ok-injective (rw (cut_jobs, room, empty) at h)) p
            | inr waiting ↦
                let (parent, rest, shape) = waiting in
                >>=-elim (index c.arena parent) _ (rw (cut_jobs, room, shape) at h) λ entry a h1.
                  elim (Bool-cases (entry.depth == depth)) [
                    | inr deeper ↦ rw (← ok-injective (rw deeper at h1)) p
                    | inl level ↦
                        >>=-elim (entry_edges adapter c depth entry.node) _ (rw level at h1)
                          λ count b h2. elim (Bool-cases (c.bfs_edge == count)) [
                            | inl spent ↦
                                cut_jobs-Within fuel threads depth _ jobs total paths r p
                                  (rw spent at h2)
                            | inr more ↦
                                cut_jobs-Within fuel threads depth _ _ _ paths r p (rw more at h2)
                          ]
                  ]
          ]
        ]

    pub evaluate_layer-Within :
        (threads depth : ℕ) (b r : ParallelBfs S C) (paths : List P)
        → Within limit base most b.cursor paths
        → evaluate_layer adapter threads depth b ≡ ok r
        → Within limit base most r.cursor paths
    unfolding evaluate_layer
    evaluate_layer-Within threads depth b r paths p h =
        let c : Cursor S C = record b.cursor { bfs_prefetched = 0 } in
        >>=-elim
          (fetched_nodes adapter c.arena depth c.cfg.max_depth (take work_quantum c.frontier)) _ h
          λ nodes a h1. >>=-elim (adapter.prefetch_outgoing nodes) _ h1 λ fetched d h2.
            >>=-elim (cut_jobs adapter (length c.frontier + work_quantum + 1) threads depth c [] 0)
              _ h2
              λ cut f h3.
                let q =
                  cut_jobs-Within (length c.frontier + work_quantum + 1) threads depth c [] 0 paths
                    cut p f in
                let parallel =
                  leb min_par_edges cut.2 || leb min_par_frontier (length c.frontier) in
                >>=-elim
                  (evaluate_chunks adapter parallel cut.0.arena cut.0.cfg
                    (job_chunks adapter parallel threads cut.1) b.pending cut.0.stats)
                  _ h3
                  λ found g h4.
                    let same =
                      evaluate_chunks-stopped parallel cut.0.arena cut.0.cfg
                        (job_chunks adapter parallel threads cut.1) b.pending cut.0.stats found g in
                    rw (← ok-injective h4) (rw same q)
