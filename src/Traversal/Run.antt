-- ===== src/Traversal/Run.antt =====
-- crates/rxgraph/src/traversal/engine.rs, `search` and `search_serial`: a cursor is pulled until it is
-- exhausted. `rounds` bounds the batches, `chunks` the empty chunks that a batch skips.
pub mod Begun
pub mod Limits
use rxgraph.Prelude.{ℕ, zero, suc, Option, none, some, List, [], ◌++◌}
use rxgraph.Result.{Result, ok, out_of_fuel, ◌>>=◌}
use rxgraph.Traversal.Stats.{SearchStats}
use rxgraph.Traversal.Search.{SearchAdapter, RunOptions}
use rxgraph.Traversal.Cursor.{Cursor, new}
use rxgraph.Traversal.Cursor.Batch.{next_batch}
use rxgraph.Traversal.Parallel.Cursors.{GraphCursor, new_cursor, cursor_stats, cursor_batch}

pub record SearchOutput (P : Type 0) : Type 0 where
  pub paths : List P
  pub stats : SearchStats

abbrev pub batch_limit : ℕ
batch_limit = 1024

module _ {S P C : Type 0} (adapter : SearchAdapter S P C) where
  -- `while let Some(batch) = cursor.next_batch(adapter, 1024)?`.
  unfoldable pub drain_serial : ℕ → ℕ → Cursor S C → List P → Result (SearchOutput P)
  drain_serial zero chunks c paths = out_of_fuel
  drain_serial (suc rounds) chunks c paths =
      let (answer, next) = next_batch chunks adapter batch_limit c in
      answer >>= λ batch. elim batch [
        | none ↦ ok (record { paths = paths; stats = next.stats })
        | some found ↦ drain_serial rounds chunks next (paths ++ found)
      ]

  unfoldable pub search_serial : ℕ → ℕ → RunOptions → Result (SearchOutput P)
  unfolding drain_serial
  search_serial rounds chunks run = do c ← new run; drain_serial rounds chunks c []

  unfoldable pub drain_cursor : ℕ → ℕ → ℕ → GraphCursor S C → List P → Result (SearchOutput P)
  drain_cursor zero chunks threads g paths = out_of_fuel
  drain_cursor (suc rounds) chunks threads g paths =
      let (answer, next) = cursor_batch chunks threads adapter batch_limit g in
      answer >>= λ batch. elim batch [
        | none ↦ ok (record { paths = paths; stats = cursor_stats next })
        | some found ↦ drain_cursor rounds chunks threads next (paths ++ found)
      ]

  unfoldable pub search : ℕ → ℕ → ℕ → RunOptions → Result (SearchOutput P)
  unfolding drain_cursor
  search rounds chunks threads run = do
    g ← new_cursor threads run
    drain_cursor rounds chunks threads g []
