-- ===== src/Traversal/Cursor/Advance.antt =====
-- crates/rxgraph/src/traversal/engine/cursor.rs: the rounds of a cursor. A round that does not end
-- the batch does at least one unit of work, so that one more than the quantum is enough; an adapter
-- that gives an empty range for edges that it counted runs out of fuel.
use rxgraph.Prelude.{
  ℕ, zero, suc, ◌+◌, ◌-◌, Bool, true, false, not, ◌&&◌, Option, none, some, List, [], ◌∷◌, ltb, leb,
  ◌==◌, min, length,
}
use rxgraph.Result.{Result, ok, out_of_fuel, ◌>>=◌, or_panic, index}
use rxgraph.Graph.Csr.{NodeId, EdgeId}
use rxgraph.Traversal.Arena.{PathEntry}
use rxgraph.Traversal.Visits.{count, increment, decrement}
use rxgraph.Traversal.Search.{SearchAdapter}
use rxgraph.Traversal.Cursor.{
  work_quantum, DfsFrame, Cursor, pop, Turn, at_limit, edges_at, start, accept,
}

-- `frames.last_mut().expect("active frame").next_edge += 1`.
unfoldable pub next_edge : List DfsFrame → Option (List DfsFrame)
next_edge [] = none
next_edge (frame ∷ frames) = some (record frame { next_edge = frame.next_edge + 1 } ∷ frames)

-- `frames.last()`, with the frames below it.
unfoldable pub top_frame : List DfsFrame → Option (DfsFrame × List DfsFrame)
top_frame [] = none
top_frame (frame ∷ frames) = some (frame, frames)

-- The loop of `for_each_range`, until a visit answers false.
unfoldable pub visit_range :
    {T : Type 0} → (EdgeId → NodeId → T → Result (Bool × T)) → List (EdgeId × NodeId) → T → Result T
visit_range visit [] t = ok t
visit_range visit ((edge, dest) ∷ edges) t = do
  (goes_on, next) ← visit edge dest t
  elim goes_on [ true ↦ visit_range visit edges next | false ↦ ok next ]

-- The nodes of the front layer, at most a quantum of them.
unfoldable pub layer_nodes :
    {S : Type 0} → ℕ → List (PathEntry S) → ℕ → List ℕ → Result (List NodeId)
layer_nodes zero arena depth frontier = ok []
layer_nodes (suc rounds) arena depth [] = ok []
layer_nodes (suc rounds) arena depth (p ∷ frontier) = do
  entry ← index arena p
  elim (entry.depth == depth) [
    | false ↦ ok []
    | true ↦ do nodes ← layer_nodes rounds arena depth frontier; ok (entry.node ∷ nodes)
  ]

module _ {S P C : Type 0} (adapter : SearchAdapter S P C) (limit : ℕ) where
  -- The closure of `advance_dfs`.
  unfoldable pub dfs_edge : ℕ → NodeId → EdgeId → NodeId → Turn S C P → Result (Bool × Turn S C P)
  unfolding next_edge
  dfs_edge parent node edge dest t = do
    frames ← or_panic (next_edge t.cursor.frames)
    let c = record t.cursor { frames = frames }
    let worked = record t { cursor = c; work = t.work + 1 }
    visits ← count c.visits dest
    elim (leb c.cfg.max_visits_per_node visits) [
      | true ↦ ok (
        true,
        record worked {
          cursor = record c {
            stats = record c.stats { skipped_revisits = c.stats.skipped_revisits + 1 };
          };
        },
      )
      | false ↦ do
        let stats = record c.stats { evaluated_edges = c.stats.evaluated_edges + 1 }
        entry ← index c.arena parent
        cache ← or_panic c.cache
        answer ← adapter.eval_edge node edge dest entry.state cache
        elim answer [
          | none ↦ ok (
            true,
            record worked {
              cursor = record c {
                stats = record stats { rejected_edges = stats.rejected_edges + 1 };
              };
            },
          )
          | some (state, stop) ↦ do
            (child, accepted, paths) ←
                accept adapter (record c { stats = stats }) parent
                  (record { edge = edge; dest = dest; state = state; stop = stop }) t.paths
            let next = record worked { cursor = accepted; accepted = child; paths = paths }
            ok (
              elim child [
                | none ↦ ltb (length paths) limit && not (at_limit accepted)
                | some index ↦ false
              ],
              next,
            )
        ]
    ]

  -- An accepted child becomes the active entry.
  unfoldable pub descend : Option ℕ → Cursor S C → Result (Cursor S C)
  descend none c = ok c
  descend (some child) c = do
    entry ← index c.arena child
    visits ← increment c.visits entry.node
    edge_count ← edges_at adapter c.cfg entry.depth entry.node
    ok (record c {
      visits = visits;
      frames = record { next_edge = 0; edge_count = edge_count } ∷ c.frames;
    })

  -- An exhausted frame leaves with its entry.
  unfoldable pub retreat : List DfsFrame → Cursor S C → Result (Cursor S C)
  retreat frames c = do
    (entry, arena) ← or_panic (pop c.arena)
    visits ← decrement c.visits entry.node
    ok (record c { frames = frames; arena = arena; visits = visits })

  -- The rest of a round over the active frame: the cursor, the work, the paths.
  unfoldable pub dfs_frame :
      List DfsFrame → Cursor S C → ℕ → List P → Result (Cursor S C × ℕ × List P)
  unfolding top_frame retreat dfs_edge descend
  dfs_frame frames c work paths = do
    (frame, rest) ← or_panic (top_frame frames)
    let parent = length c.arena - 1
    elim (frame.next_edge == frame.edge_count) [
      | true ↦ do back ← retreat rest c; ok (back, work + 1, paths)
      | false ↦ do
        entry ← index c.arena parent
        edges ←
            adapter.range entry.node frame.next_edge
              (min frame.edge_count (frame.next_edge + work_quantum - work))
        t ←
            visit_range (dfs_edge parent entry.node) edges
              (record { cursor = c; work = work; accepted = none; paths = paths })
        down ← descend t.accepted t.cursor
        ok (down, t.work, t.paths)
    ]

  -- The cursor to go on with, or none when the starts are used up.
  unfoldable pub activate : Cursor S C → Result (Bool × Cursor S C)
  activate c = elim c.frames [ [] ↦ start adapter c | f ∷ fs ↦ ok (true, c) ]

  unfoldable pub dfs_loop : ℕ → Cursor S C → ℕ → List P → Result (Cursor S C × List P)
  unfolding activate dfs_frame
  dfs_loop zero c work paths = out_of_fuel
  dfs_loop (suc fuel) c work paths = elim (ltb work work_quantum && ltb (length paths) limit) [
    | false ↦ ok (c, paths)
    | true ↦ elim (at_limit c) [
      | true ↦ ok (record c { done = true }, paths)
      | false ↦ do
        (active, begun) ← activate c
        elim active [
          | false ↦ ok (record begun { done = true }, paths)
          | true ↦ do
            (next, more, found) ← dfs_frame begun.frames begun work paths
            dfs_loop fuel next more found
        ]
    ]
  ]

  unfoldable pub advance_dfs : Cursor S C → Result (Cursor S C × List P)
  unfolding dfs_loop
  advance_dfs c = dfs_loop (work_quantum + 1) c 0 []
