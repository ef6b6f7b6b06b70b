-- ===== src/Traversal/Run/Limits.antt =====
-- engine.rs, `search`: how many paths it returns, with each of the cursors.
use rxgraph.Prelude.{
  ℕ, zero, suc, ◌+◌, ◌≡◌, refl, subst, ◌∙◌, inl, inr, Option, none, some, List, [], ◌++◌, length,
  length-append, arith, Option-cases,
}
use rxgraph.Result.{Result, ok, err, panic, out_of_fuel, >>=-elim, ok-injective}
use rxgraph.Traversal.Search.{SearchAdapter, RunOptions}
use rxgraph.Traversal.Cursor.{Cursor}
use rxgraph.Traversal.Cursor.Batch.{next_batch}
use rxgraph.Traversal.Cursor.Limits.{AtMost}
use rxgraph.Traversal.Cursor.Limits.Batches.{batch_size, next_batch-IsEmitted}
use rxgraph.Traversal.Parallel.{dfs_batch}
use rxgraph.Traversal.Parallel.Limits.{dfs_batch-IsShared}
use rxgraph.Traversal.Parallel.BreadthLimits.{bfs_batch-IsEmitted}
use rxgraph.Traversal.Parallel.Cursors.{
  GraphCursor, serial, parallel_dfs, parallel_bfs, new_cursor, settle_cursor, settle_serial,
  cursor_batch, bfs_batch,
}
use rxgraph.Traversal.Run.{SearchOutput, batch_limit, drain_cursor, search}
use rxgraph.Traversal.Run.Begun.{
  IsLimited, found_by, IsLimited-AtMost, close_cursor-IsLimited, new_cursor-IsLimited,
}

module _ {S P C : Type 0} (adapter : SearchAdapter S P C) (most : Option ℕ) where
  -- What a batch leaves of any cursor.
  abbrev Emits : GraphCursor S C → Option (List P) → GraphCursor S C → Type 0
  Emits before batch after =
      IsLimited most after × (found_by after ≡ found_by before + batch_size batch)

  settle_serial-Emits :
      (c : Cursor S C) (answer : Result (Option (List P)) × Cursor S C) (batch : Option (List P))
      → ((found : Option (List P)) → answer.0 ≡ ok found → Emits (serial c) found (serial answer.1))
      → (settle_serial answer).0 ≡ ok batch
      → Emits (serial c) batch (settle_serial answer).1
  unfolding settle_serial
  settle_serial-Emits c (err e, next) batch keeps h = absurd cc
  settle_serial-Emits c (panic, next) batch keeps h = absurd cc
  settle_serial-Emits c (out_of_fuel, next) batch keeps h = absurd cc
  settle_serial-Emits c (ok (some paths), next) batch keeps h = keeps batch h
  settle_serial-Emits c (ok none, next) batch keeps h =
      let (kept, counted) = keeps batch h in
      let (closed, same) = close_cursor-IsLimited most (serial next) kept in
      (closed, same ∙ counted)

  settle_cursor-Emits :
      {X : Type 0} (wrap : X → GraphCursor S C) (before : X) (m : Result (Option (List P) × X))
      (batch : Option (List P))
      → ((r : Option (List P) × X) → m ≡ ok r → Emits (wrap before) r.0 (wrap r.1))
      → (settle_cursor wrap before m).0 ≡ ok batch
      → Emits (wrap before) batch (settle_cursor wrap before m).1
  unfolding settle_cursor
  settle_cursor-Emits wrap before (err e) batch keeps h = absurd cc
  settle_cursor-Emits wrap before panic batch keeps h = absurd cc
  settle_cursor-Emits wrap before out_of_fuel batch keeps h = absurd cc
  settle_cursor-Emits wrap before (ok (some paths, after)) batch keeps h =
      rw (← ok-injective h) (keeps (some paths, after) refl)
  settle_cursor-Emits wrap before (ok (none, after)) batch keeps h =
      let (kept, counted) = keeps (none, after) refl in
      let (closed, same) = close_cursor-IsLimited most (wrap after) kept in
      rw (← ok-injective h) (closed, same ∙ counted)

  cursor_batch-Emits :
      (chunks threads size : ℕ) (g : GraphCursor S C) (batch : Option (List P))
      → IsLimited most g
      → (cursor_batch chunks threads adapter size g).0 ≡ ok batch
      → Emits g batch (cursor_batch chunks threads adapter size g).1
  unfolding cursor_batch
  cursor_batch-Emits chunks threads zero g batch p h = absurd cc
  cursor_batch-Emits chunks threads (suc size) (serial c) batch p h =
      settle_serial-Emits c (next_batch chunks adapter (suc size) c) batch
        (λ found e.
          let (kept, counted, fits) =
            next_batch-IsEmitted adapter most chunks (suc size) c found p e in
          (kept, counted))
        h
  cursor_batch-Emits chunks threads (suc size) (parallel_dfs c) batch p h =
      settle_cursor-Emits parallel_dfs c (dfs_batch adapter chunks (suc size) c) batch
        (λ r e.
          let (kept, counted, fits) = dfs_batch-IsShared adapter most chunks (suc size) c r p e in
          (kept, counted))
        h
  cursor_batch-Emits chunks threads (suc size) (parallel_bfs b) batch p h =
      settle_cursor-Emits parallel_bfs b (bfs_batch adapter threads chunks (suc size) b) batch
        (λ r e.
          let (kept, counted, fits) =
            bfs_batch-IsEmitted adapter most threads chunks (suc size) b r (omega arith) p e in
          (kept, counted))
        h

  drain_cursor-AtMost :
      (rounds chunks threads : ℕ) (g : GraphCursor S C) (paths : List P) (out : SearchOutput P)
      → IsLimited most g
      → found_by g ≡ length paths
      → drain_cursor adapter rounds chunks threads g paths ≡ ok out
      → AtMost most (length out.paths)
  unfolding drain_cursor
  drain_cursor-AtMost zero chunks threads g paths out p same h = absurd cc
  drain_cursor-AtMost (suc rounds) chunks threads g paths out p same h =
      let answer = cursor_batch chunks threads adapter batch_limit g in
      >>=-elim answer.0 _ h λ batch a h1.
        let (kept, counted) = cursor_batch-Emits chunks threads batch_limit g batch p a in
        elim (Option-cases batch) [
          | inl over ↦
              rw (← ok-injective (rw over at h1))
                (subst (AtMost most) same (IsLimited-AtMost most g p))
          | inr more ↦
              let (found, shape) = more in
              let size : batch_size batch ≡ length found = rw shape refl in
              drain_cursor-AtMost rounds chunks threads answer.1 (paths ++ found) out kept
                (omega (arith, counted, same, size, length-append paths found)) (rw shape at h1)
        ]

-- A search that returns has at most `max_paths` paths, for every adapter and strategy, with the
-- serial cursor and with both parallel ones, on any number of threads.
pub search_lem :
    {S P C : Type 0} (adapter : SearchAdapter S P C) (rounds chunks threads : ℕ) (run : RunOptions)
    (out : SearchOutput P)
    → search adapter rounds chunks threads run ≡ ok out
    → AtMost run.max_paths (length out.paths)
unfolding search
search_lem adapter rounds chunks threads run out h = >>=-elim (new_cursor threads run) _ h λ g a h1.
    let (limited, none_yet) = new_cursor-IsLimited threads run g a in
    drain_cursor-AtMost adapter run.max_paths rounds chunks threads g [] out limited none_yet h1
