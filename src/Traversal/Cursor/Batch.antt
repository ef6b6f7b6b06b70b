-- ===== src/Traversal/Cursor/Batch.antt =====
-- crates/rxgraph/src/traversal/engine/cursor.rs: the breadth-first rounds, and the batches.
use rxgraph.Prelude.{
  ℕ, zero, suc, ◌+◌, ◌-◌, Bool, true, false, not, ◌&&◌, Option, none, some, List, [], ◌∷◌, ◌++◌,
  ltb, leb, ◌==◌, min, length,
}
use rxgraph.Result.{Result, ok, err, panic, out_of_fuel, ◌>>=◌, or_panic, index, zero_batch}
use rxgraph.Graph.Csr.{NodeId, EdgeId}
use rxgraph.Traversal.Search.{
  SearchAdapter, TraversalStrategy, breadth_first, depth_first, eval_arena_edge,
}
use rxgraph.Traversal.Arena.{EdgeEval}
use rxgraph.Traversal.Cursor.{work_quantum, Cursor, Turn, close, at_limit, initialize, accept}
use rxgraph.Traversal.Cursor.Advance.{visit_range, layer_nodes, advance_dfs}

-- An accepted child that goes on joins the end of the frontier.
unfoldable pub enqueue : Option ℕ → List ℕ → List ℕ
enqueue none frontier = frontier
enqueue (some child) frontier = frontier ++ child ∷ []

module _ {S P C : Type 0} (adapter : SearchAdapter S P C) (limit : ℕ) where
  -- An answered edge is accepted, and its child put in the frontier.
  unfoldable pub take_answer :
      ℕ → Option (EdgeEval S) → Cursor S C → List P → Result (Cursor S C × List P)
  unfolding enqueue
  take_answer parent none c paths = ok (c, paths)
  take_answer parent (some e) c paths = do
    (child, accepted, more) ← accept adapter c parent e paths
    ok (record accepted { frontier = enqueue child accepted.frontier }, more)

  -- The closure of `advance_bfs`.
  unfoldable pub bfs_edge : ℕ → EdgeId → NodeId → Turn S C P → Result (Bool × Turn S C P)
  unfolding take_answer
  bfs_edge parent edge dest t = do
    let c = record t.cursor { bfs_edge = t.cursor.bfs_edge + 1 }
    cache ← or_panic c.cache
    (answer, stats) ← eval_arena_edge adapter c.arena parent (edge, dest) c.cfg c.stats cache
    (after, paths) ← take_answer parent answer (record c { stats = stats }) t.paths
    ok (
      ltb (length paths) limit && not (at_limit after),
      record t { cursor = after; work = t.work + 1; paths = paths },
    )

  unfoldable pub fetch_layer : Bool → List NodeId → Result (Unit {0})
  fetch_layer true nodes = adapter.prefetch_outgoing nodes
  fetch_layer false nodes = ok tt

  -- The nodes of the front layer are fetched together.
  unfoldable pub prefetch : ℕ → Cursor S C → Result (Cursor S C)
  unfolding fetch_layer
  prefetch parent c = elim (c.bfs_prefetched == 0) [
    | false ↦ ok c
    | true ↦ do
      entry ← index c.arena parent
      nodes ← layer_nodes work_quantum c.arena entry.depth c.frontier
      fetched ← fetch_layer (ltb entry.depth c.cfg.max_depth) nodes
      ok (record c { bfs_prefetched = length nodes })
  ]

  unfoldable pub edge_total : ℕ → Cursor S C → Result ℕ
  edge_total parent c = elim c.bfs_count [
    | some count ↦ ok count
    | none ↦ do
      entry ← index c.arena parent
      elim (leb c.cfg.max_depth entry.depth) [ true ↦ ok 0 | false ↦ adapter.out_degree entry.node ]
  ]

  -- A round over the entry at the front.
  unfoldable pub bfs_entry : ℕ → List ℕ → Cursor S C → ℕ → List P → Result (Cursor S C × ℕ × List P)
  unfolding prefetch edge_total bfs_edge
  bfs_entry parent rest c work paths = do
    fetched ← prefetch parent c
    count ← edge_total parent fetched
    let counted = record fetched { bfs_count = some count }
    elim (counted.bfs_edge == count) [
      | true ↦ ok (
        record counted {
          frontier = rest;
          bfs_edge = 0;
          bfs_count = none;
          bfs_prefetched = counted.bfs_prefetched - 1;
        },
        work + 1,
        paths,
      )
      | false ↦ do
        entry ← index counted.arena parent
        edges ←
            adapter.range entry.node counted.bfs_edge
              (min count (counted.bfs_edge + work_quantum - work))
        t ←
            visit_range (bfs_edge parent) edges
              (record { cursor = counted; work = work; accepted = none; paths = paths })
        ok (t.cursor, t.work, t.paths)
    ]

  unfoldable pub bfs_loop : ℕ → Cursor S C → ℕ → List P → Result (Cursor S C × List P)
  unfolding bfs_entry
  bfs_loop zero c work paths = out_of_fuel
  bfs_loop (suc fuel) c work paths = elim (ltb work work_quantum && ltb (length paths) limit) [
    | false ↦ ok (c, paths)
    | true ↦ elim (at_limit c) [
      | true ↦ ok (record c { done = true }, paths)
      | false ↦ elim c.frontier [
        | [] ↦ ok (record c { done = true }, paths)
        | parent ∷ rest ↦ do
          (next, more, found) ← bfs_entry parent rest c work paths
          bfs_loop fuel next more found
      ]
    ]
  ]

  unfoldable pub advance_bfs : Cursor S C → Result (Cursor S C × List P)
  unfolding bfs_loop
  advance_bfs c = bfs_loop (work_quantum + 1) c 0 []

  unfoldable pub run_strategy : TraversalStrategy → Cursor S C → Result (Cursor S C × List P)
  unfolding advance_bfs
  run_strategy depth_first c = advance_dfs adapter limit c
  run_strategy breadth_first c = advance_bfs c

  unfoldable pub advance : Cursor S C → Result (Cursor S C × List P)
  unfolding run_strategy
  advance c = do
    ready ← initialize adapter c
    elim ready.done [ true ↦ ok (ready, []) | false ↦ run_strategy ready.cfg.strategy ready ]

  -- The loop of `next_batch`, that skips empty chunks.
  unfoldable pub batch_loop : ℕ → Cursor S C → Result (Option (List P) × Cursor S C)
  unfolding advance
  batch_loop zero c = out_of_fuel
  batch_loop (suc fuel) c = elim c.done [
    | true ↦ ok (none, c)
    | false ↦ do
      (next, paths) ← advance c
      elim paths [ [] ↦ batch_loop fuel next | path ∷ more ↦ ok (some (path ∷ more), next) ]
  ]

-- The cursor is closed after an error and at the end.
unfoldable pub settle :
    {S P C : Type 0}
    → Cursor S C
    → Result (Option (List P) × Cursor S C)
    → Result (Option (List P)) × Cursor S C
settle c (ok (batch, next)) = (ok batch, elim next.done [ true ↦ close next | false ↦ next ])
settle c (err e) = (err e, close c)
settle c panic = (panic, c)
settle c out_of_fuel = (out_of_fuel, c)

unfoldable pub next_batch :
    {S P C : Type 0}
    → ℕ
    → SearchAdapter S P C
    → ℕ
    → Cursor S C
    → Result (Option (List P)) × Cursor S C
unfolding batch_loop settle
next_batch fuel adapter zero c = (err zero_batch, close c)
next_batch fuel adapter (suc size) c = settle c (batch_loop adapter (suc size) fuel c)
