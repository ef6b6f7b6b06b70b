-- ===== src/Traversal/Parallel/Layer.antt =====
-- crates/rxgraph/src/traversal/engine/cursor/parallel.rs, `ParallelBfs`: a layer's edges are evaluated
-- by the workers, and the accepted ones wait for the next batches. The loop that cuts the frontier
-- into jobs takes an entry off or adds an edge in each round.
use rxgraph.Prelude.{
  ℕ, zero, suc, ◌+◌, ◌-◌, ◌/◌, Bool, true, false, not, ◌&&◌, ◌||◌, Option, none, some, List, [],
  ◌∷◌, ◌++◌, ltb, leb, ◌==◌, if◌then◌else◌, min, max, length, take, drop,
}
use rxgraph.Result.{Result, ok, out_of_fuel, ◌>>=◌, index}
use rxgraph.Graph.Csr.{NodeId, EdgeId}
use rxgraph.Traversal.Arena.{PathEntry, EdgeEval}
use rxgraph.Traversal.Stats.{SearchStats, no_stats, merge_stats}
use rxgraph.Traversal.Search.{SearchAdapter, RunConfig, eval_arena_edge}
use rxgraph.Traversal.Cursor.{work_quantum, Cursor, at_limit, accept}
use rxgraph.Traversal.Cursor.Advance.{visit_range}
use rxgraph.Traversal.Cursor.Batch.{enqueue}

abbrev pub min_par_frontier : ℕ
min_par_frontier = 512

abbrev pub min_par_edges : ℕ
min_par_edges = 8192

pub record ParallelBfs (S C : Type 0) : Type 0 where
  pub cursor : Cursor S C
  pub pending : List (ℕ × EdgeEval S)

-- An entry and a range of its edges.
pub record Job : Type 0 where
  pub parent : ℕ
  pub first : ℕ
  pub last : ℕ

-- `usize::div_ceil`.
unfoldable pub div_ceil : ℕ → ℕ → ℕ
div_ceil a b = (a + b - 1) / b

-- `par_chunks`, with a round for each element.
unfoldable pub chunks : {A : Type 0} → ℕ → ℕ → List A → List (List A)
chunks zero size xs = []
chunks (suc fuel) size [] = []
chunks (suc fuel) size (x ∷ xs) = take size (x ∷ xs) ∷ chunks fuel size (drop size (x ∷ xs))

unfoldable pub accepted : {S : Type 0} → ℕ → Option (EdgeEval S) → List (ℕ × EdgeEval S)
accepted parent none = []
accepted parent (some edge) = (parent, edge) ∷ []

module _ {S P C : Type 0} (adapter : SearchAdapter S P C) where
  -- Edges that wait become entries, until the batch is full.
  unfoldable pub drain :
      ℕ
      → List (ℕ × EdgeEval S)
      → Cursor S C
      → List P
      → Result (List (ℕ × EdgeEval S) × Cursor S C × List P)
  unfolding enqueue
  drain size [] c paths = ok ([], c, paths)
  drain size ((parent, edge) ∷ pending) c paths = do
    (child, after, found) ← accept adapter c parent edge paths
    let next = record after { frontier = enqueue child after.frontier }
    elim (edge.stop && (leb size (length found) || at_limit next)) [
      | true ↦ ok (pending, next, found)
      | false ↦ drain size pending next found
    ]

  -- The edges of the front layer, counted until they are many.
  unfoldable pub count_edges : List (PathEntry S) → ℕ → List ℕ → ℕ → Result ℕ
  count_edges arena depth [] total = ok total
  count_edges arena depth (p ∷ frontier) total = do
    entry ← index arena p
    elim (not (entry.depth == depth) || leb min_par_edges total) [
      | true ↦ ok total
      | false ↦ do
        degree ← adapter.out_degree entry.node
        count_edges arena depth frontier (total + degree)
    ]

  unfoldable pub frontier_edges : Cursor S C → ℕ → Result ℕ
  unfolding count_edges
  frontier_edges c depth = elim (ltb (length c.frontier) min_par_frontier) [
    | true ↦ count_edges c.arena depth c.frontier 0
    | false ↦ ok 0
  ]

  -- The nodes whose edges are fetched together.
  unfoldable pub fetched_nodes : List (PathEntry S) → ℕ → ℕ → List ℕ → Result (List NodeId)
  fetched_nodes arena depth max_depth [] = ok []
  fetched_nodes arena depth max_depth (p ∷ frontier) = do
    entry ← index arena p
    nodes ← fetched_nodes arena depth max_depth frontier
    ok (if entry.depth == depth && ltb depth max_depth then entry.node ∷ nodes else nodes)

  unfoldable pub entry_edges : Cursor S C → ℕ → NodeId → Result ℕ
  entry_edges c depth node = elim c.bfs_count [
    | some count ↦ ok count
    | none ↦ elim (leb c.cfg.max_depth depth) [ true ↦ ok 0 | false ↦ adapter.out_degree node ]
  ]

  -- The frontier is cut into jobs of together a quantum of edges.
  unfoldable pub cut_jobs :
      ℕ → ℕ → ℕ → Cursor S C → List Job → ℕ → Result (Cursor S C × List Job × ℕ)
  unfolding entry_edges div_ceil
  cut_jobs zero threads depth c jobs total = out_of_fuel
  cut_jobs (suc fuel) threads depth c jobs total = elim (ltb total work_quantum) [
    | false ↦ ok (c, jobs, total)
    | true ↦ elim c.frontier [
      | [] ↦ ok (c, jobs, total)
      | parent ∷ rest ↦ do
        entry ← index c.arena parent
        elim (entry.depth == depth) [
          | false ↦ ok (c, jobs, total)
          | true ↦ do
            count ← entry_edges c depth entry.node
            elim (c.bfs_edge == count) [
              | true ↦
                  cut_jobs fuel threads depth
                    (record c { frontier = rest; bfs_edge = 0; bfs_count = none }) jobs total
              | false ↦
                  let room = min (work_quantum - total) (div_ceil work_quantum threads) in
                  let last = min count (c.bfs_edge + room) in
                  cut_jobs fuel threads depth (record c { bfs_edge = last; bfs_count = some count })
                    (jobs ++ record { parent = parent; first = c.bfs_edge; last = last } ∷ [])
                    (total + (last - c.bfs_edge))
            ]
        ]
    ]
  ]

  -- The closure of `evaluate`, and its loop over the jobs of a worker.
  unfoldable pub evaluate_edge :
      List (PathEntry S)
      → RunConfig
      → ℕ
      → EdgeId
      → NodeId
      → List (ℕ × EdgeEval S) × SearchStats
      → Result (Bool × (List (ℕ × EdgeEval S) × SearchStats))
  unfolding accepted
  evaluate_edge arena cfg parent edge dest (edges, stats) = do
    (answer, counted) ←
        eval_arena_edge adapter arena parent (edge, dest) cfg stats adapter.make_cache
    ok (true, (edges ++ accepted parent answer, counted))

  unfoldable pub evaluate_jobs :
      List (PathEntry S)
      → RunConfig
      → List Job
      → List (ℕ × EdgeEval S) × SearchStats
      → Result (List (ℕ × EdgeEval S) × SearchStats)
  unfolding evaluate_edge
  evaluate_jobs arena cfg [] found = ok found
  evaluate_jobs arena cfg (job ∷ jobs) found = do
    entry ← index arena job.parent
    range ← adapter.range entry.node job.first job.last
    next ← visit_range (evaluate_edge arena cfg job.parent) range found
    evaluate_jobs arena cfg jobs next

  unfoldable pub evaluate :
      Bool
      → List (PathEntry S)
      → RunConfig
      → List Job
      → Result (List (ℕ × EdgeEval S) × SearchStats)
  unfolding evaluate_jobs
  evaluate parallel arena cfg jobs = do
    (edges, stats) ← evaluate_jobs arena cfg jobs ([], no_stats)
    ok (edges, if parallel then record stats { parallel_edges = stats.evaluated_edges } else stats)

  -- The results of the workers, joined in their order.
  unfoldable pub evaluate_chunks :
      Bool
      → List (PathEntry S)
      → RunConfig
      → List (List Job)
      → List (ℕ × EdgeEval S)
      → SearchStats
      → Result (List (ℕ × EdgeEval S) × SearchStats)
  unfolding evaluate merge_stats
  evaluate_chunks parallel arena cfg [] pending stats = ok (pending, stats)
  evaluate_chunks parallel arena cfg (jobs ∷ rest) pending stats = do
    (edges, counted) ← evaluate parallel arena cfg jobs
    evaluate_chunks parallel arena cfg rest (pending ++ edges) (merge_stats stats counted)

  -- `jobs.par_chunks(…)`, or all jobs in one.
  unfoldable pub job_chunks : Bool → ℕ → List Job → List (List Job)
  unfolding chunks div_ceil
  job_chunks true threads jobs = chunks (length jobs) (max (div_ceil (length jobs) threads) 1) jobs
  job_chunks false threads jobs = jobs ∷ []
