-- ===== src/Traversal/Stream.antt =====
-- crates/rxgraph/src/traversal/stream.rs: a search that is pulled in batches. A plugin's stream is an
-- interface. An initializer is what it gives when it runs; that it runs at the first pull is the
-- order of the tests. After a panic a session is not used again.
pub mod Sessions
use rxgraph.Prelude.{ℕ, zero, suc, ◌==◌, Bool, true, false, Option, none, some, List, map}
use rxgraph.Result.{GraphId, Result, ok, err, panic, out_of_fuel, ◌>>=◌, zero_batch}
use rxgraph.Traversal.Stats.{SearchStats, no_stats}
use rxgraph.Traversal.Search.{SearchAdapter, RunOptions}
use rxgraph.Traversal.Adapter.{GraphPath}
use rxgraph.Traversal.Parallel.Cursors.{
  GraphCursor, new_cursor, cursor_stats, close_cursor, cursor_batch,
}

-- `NativeBatchStream`.
pub record BatchStream (T R : Type 0) : Type 0 where
  pub next_batch : ℕ → T → Result (Option R) × T
  pub stats : T → SearchStats
  pub close : T → T

pub record Managed (T : Type 0) : Type 0 where
  pub inner : Option T
  pub stats : SearchStats

pub record Deferred (T : Type 0) : Type 0 where
  pub initialize : Option (Result T)
  pub inner : Option T

-- `result.is_err() || matches!(result, Ok(None))`.
unfoldable pub ends : {R : Type 0} → Result (Option R) → Bool
ends (err e) = true
ends (ok none) = true
ends (ok (some batch)) = false
ends panic = false
ends out_of_fuel = false

module _ {T R : Type 0} (stream : BatchStream T R) where
  unfoldable pub managed_close : Managed T → Managed T
  managed_close m = elim m.inner [
    | none ↦ m
    | some t ↦ record { inner = none; stats = stream.stats t }
  ]

  unfoldable pub managed_next : ℕ → Managed T → Result (Option R) × Managed T
  unfolding ends managed_close
  managed_next size m = elim m.inner [
    | none ↦ (ok none, m)
    | some t ↦
        let (result, next) = stream.next_batch size t in
        let after : Managed T = record { inner = some next; stats = stream.stats next } in
        (result, elim (ends result) [ true ↦ managed_close after | false ↦ after ])
  ]

  unfoldable pub managed_stream : BatchStream (Managed T) R
  unfolding managed_next managed_close
  managed_stream = record { next_batch = managed_next; stats = λ m. m.stats; close = managed_close }

  -- `managed`.
  unfoldable pub manage : T → Managed T
  manage t = record { inner = some t; stats = no_stats }

  -- The pull of a stream that is set up.
  unfoldable pub pull_inner : ℕ → Deferred T → Result (Option R) × Deferred T
  pull_inner size d = elim d.inner [
    | none ↦ (ok none, d)
    | some t ↦
        let (result, next) = stream.next_batch size t in (result, record d { inner = some next })
  ]

  -- `initialize()?`, once.
  unfoldable pub pull_first : Result T → ℕ → Deferred T → Result (Option R) × Deferred T
  unfolding pull_inner
  pull_first (ok t) size d = pull_inner size (record d { inner = some t })
  pull_first (err e) size d = (err e, d)
  pull_first panic size d = (panic, d)
  pull_first out_of_fuel size d = (out_of_fuel, d)

  unfoldable pub deferred_next : ℕ → Deferred T → Result (Option R) × Deferred T
  unfolding pull_first pull_inner
  deferred_next zero d = (err zero_batch, d)
  deferred_next (suc size) d = elim d.initialize [
    | some initialize ↦ pull_first initialize (suc size) (record d { initialize = none })
    | none ↦ pull_inner (suc size) d
  ]

  unfoldable pub deferred_stats : Deferred T → SearchStats
  deferred_stats d = elim d.inner [ none ↦ no_stats | some t ↦ stream.stats t ]

  unfoldable pub deferred_close : Deferred T → Deferred T
  deferred_close d = record { initialize = none; inner = none }

  unfoldable pub deferred_stream : BatchStream (Deferred T) R
  unfolding deferred_next deferred_stats deferred_close
  deferred_stream = record {
    next_batch = deferred_next;
    stats = deferred_stats;
    close = deferred_close;
  }

-- `deferred`: the session before its first pull.
unfoldable pub defer : {T : Type 0} → Result T → Managed (Deferred T)
defer initialize = record {
  inner = some (record { initialize = some initialize; inner = none });
  stats = no_stats;
}

-- `GraphSearchStream`.
pub record GraphSearchStream (S C : Type 0) : Type 0 where
  pub cursor : GraphCursor S C
  pub batch_size : ℕ

pub record OwnedSearchResult (P : Type 0) : Type 0 where
  pub paths : List P
  pub stats : SearchStats

-- `Graph::search_batches_with`.
unfoldable pub search_batches : {S C : Type 0} → ℕ → RunOptions → ℕ → Result (GraphSearchStream S C)
search_batches threads run zero = err zero_batch
search_batches threads run (suc size) = do
  g ← new_cursor threads run
  ok (record { cursor = g; batch_size = suc size })

-- The paths of an owned session own their ids.
module _ {P : Type 0} where
  unfoldable pub owned_paths : List P → SearchStats → OwnedSearchResult P
  owned_paths paths stats = record { paths = paths; stats = stats }

  unfoldable pub owned_batch :
      Result (Option (List P)) → SearchStats → Result (Option (OwnedSearchResult P))
  unfolding owned_paths
  owned_batch result stats = do
    batch ← result
    ok (elim batch [ none ↦ none | some paths ↦ some (owned_paths paths stats) ])

module _ {S P C : Type 0} where
  -- `Iterator::next`.
  unfoldable pub next_item :
      ℕ
      → ℕ
      → SearchAdapter S P C
      → GraphSearchStream S C
      → Result (Option (List P)) × GraphSearchStream S C
  next_item chunks threads adapter stream =
      let (result, next) = cursor_batch chunks threads adapter stream.batch_size stream.cursor in
      (result, record stream { cursor = next })

  -- The session of `graph_stream`.
  unfoldable pub graph_stream :
      ℕ → ℕ → SearchAdapter S P C → BatchStream (GraphCursor S C) (OwnedSearchResult P)
  unfolding owned_batch
  graph_stream chunks threads adapter = record {
    next_batch = λ size g.
        let (result, next) = cursor_batch chunks threads adapter size g in
        (owned_batch result (cursor_stats next), next);
    stats = cursor_stats;
    close = close_cursor;
  }
