-- ===== src/Traversal/Kernel/Cached.antt =====
-- crates/rxgraph/src/traversal/kernel.rs: reads through the cache of column readers, and without it.
use Prim.Native.String.{String}
use rxgraph.Prelude.{
  ◌≡◌, refl, sym, ap, subst, some, List, [], ◌∷◌, All, Option-cases, Bool-cases, inl, inr,
  some-injective,
}
use rxgraph.Prelude.Keys.{HashMap, get, insert, string_key}
use rxgraph.Result.{Result, ok, err, panic, out_of_fuel, ◌>>=◌}
use rxgraph.Dsl.Value.{Value}
use rxgraph.Dsl.Arrow.{ColumnReader, bind, value}
use rxgraph.Dsl.Bind.{PayloadGraph}
use rxgraph.Traversal.Kernel.{
  Batch, PayloadCache, EdgeCtx, new_cache, remember, reader, node_reader, edge_reader, src_value,
  dest_value, edge_value,
}

module _ {F : Type 0} where
  -- Every reader of the cache is what binding its column gives.
  abbrev pub IsFaithful : Batch F → HashMap String (ColumnReader F) → Type 0
  IsFaithful batch cache =
      (col : String) (found : ColumnReader F)
      → get cache col ≡ some found
      → bind batch col ≡ ok found

  module _ (batch : Batch F) where
    insert-IsFaithful :
        (cache : HashMap String (ColumnReader F)) (col : String) (found : ColumnReader F)
        → bind batch col ≡ ok found
        → IsFaithful batch cache
        → (q : String) (other : ColumnReader F) → get ((col, found) ∷ cache) q ≡ some other
        → bind batch q ≡ ok other
    unfolding get
    insert-IsFaithful cache col found same faithful q other at =
        elim (Bool-cases (string_key.beq col q)) [
          | inl here ↦
              let key = (string_key.beq_iff col q).0 here in
              let one = some-injective (rw here at at) in rw (← key, same, one) refl
          | inr there ↦ faithful q other (rw there at at)
        ]

    remember_lem :
        (cache : HashMap String (ColumnReader F)) (col : String) (bound : Result (ColumnReader F))
        → bind batch col ≡ bound
        → IsFaithful batch cache
        → ((remember cache col bound).0 ≡ bound) × IsFaithful batch (remember cache col bound).1
    unfolding remember insert
    remember_lem cache col (err e) same faithful = (refl, faithful)
    remember_lem cache col panic same faithful = (refl, faithful)
    remember_lem cache col out_of_fuel same faithful = (refl, faithful)
    remember_lem cache col (ok found) same faithful =
        (refl, insert-IsFaithful cache col found same faithful)

    -- A read binds the column once, and gives the same reader or error each time.
    reader_lem :
        (cache : HashMap String (ColumnReader F)) (col : String)
        → IsFaithful batch cache
        → ((reader cache batch col).0 ≡ bind batch col)
          × IsFaithful batch (reader cache batch col).1
    unfolding reader
    reader_lem cache col faithful = elim (Option-cases (get cache col)) [
      | inr hit ↦ let (found, at) = hit in rw (reader, at) (sym (faithful col found at), faithful)
      | inl miss ↦ rw (reader, miss) (remember_lem cache col (bind batch col) refl faithful)
    ]

abbrev pub HoldsColumns : {F : Type 0} → PayloadGraph F → PayloadCache F → Type 0
HoldsColumns graph cache = IsFaithful graph.nodes cache.node × IsFaithful graph.edges cache.edge

-- Which of an edge's payloads is read.
pub data Side : Type 0 where
  of_src of_dest of_edge : Side

module _ {F S : Type 0} where
  -- A read by the methods of `EdgeCtx`, and the same read with no cache.
  abbrev pub cached :
      Side → EdgeCtx F S → PayloadCache F → String → Result (Value F) × PayloadCache F
  cached of_src = src_value
  cached of_dest = dest_value
  cached of_edge = edge_value

  abbrev pub uncached : Side → EdgeCtx F S → String → Result (Value F)
  uncached of_src cx col = bind cx.graph.nodes col >>= λ column. value column cx.src
  uncached of_dest cx col = bind cx.graph.nodes col >>= λ column. value column cx.dest
  uncached of_edge cx col = bind cx.graph.edges col >>= λ column. value column cx.edge

  cached-uncached :
      (side : Side) (cx : EdgeCtx F S) (cache : PayloadCache F) (col : String)
      → HoldsColumns cx.graph cache
      → ((cached side cx cache col).0 ≡ uncached side cx col)
        × HoldsColumns cx.graph (cached side cx cache col).1
  unfolding src_value dest_value edge_value node_reader edge_reader
  cached-uncached of_src cx cache col h =
      let (same, kept) = reader_lem cx.graph.nodes cache.node col h.0 in
      (ap (λ found. found >>= λ column. value column cx.src) same, (kept, h.1))
  cached-uncached of_dest cx cache col h =
      let (same, kept) = reader_lem cx.graph.nodes cache.node col h.0 in
      (ap (λ found. found >>= λ column. value column cx.dest) same, (kept, h.1))
  cached-uncached of_edge cx cache col h =
      let (same, kept) = reader_lem cx.graph.edges cache.edge col h.1 in
      (ap (λ found. found >>= λ column. value column cx.edge) same, (h.0, kept))

  -- The answers to reads in turn, with one cache for all.
  abbrev pub cached_reads :
      List (Side × EdgeCtx F S × String) → PayloadCache F → List (Result (Value F))
  cached_reads [] cache = []
  cached_reads ((side, cx, col) ∷ reads) cache =
      let (answer, next) = cached side cx cache col in answer ∷ cached_reads reads next

  abbrev pub uncached_reads : List (Side × EdgeCtx F S × String) → List (Result (Value F))
  uncached_reads [] = []
  uncached_reads ((side, cx, col) ∷ reads) = uncached side cx col ∷ uncached_reads reads

  cached_reads_from :
      (graph : PayloadGraph F) (reads : List (Side × EdgeCtx F S × String)) (cache : PayloadCache F)
      → All (λ read. read.1.graph ≡ graph) reads
      → HoldsColumns graph cache
      → cached_reads reads cache ≡ uncached_reads reads
  cached_reads_from graph [] cache same h = refl
  cached_reads_from graph ((side, cx, col) ∷ reads) cache same h =
      let (answer, kept) =
        cached-uncached side cx cache col (subst (λ g. HoldsColumns g cache) (sym same.0) h) in
      let rest =
        cached_reads_from graph reads (cached side cx cache col).1 same.1
          (subst (λ g. HoldsColumns g (cached side cx cache col).1) same.0 kept) in
      λ i. answer i ∷ rest i

  -- Whatever payloads a search reads in turn, at any edges of one graph, the cache of column
  -- readers gives each read the value or error that binding its column anew gives.
  pub cached_reads-uncached_reads :
      (graph : PayloadGraph F) (reads : List (Side × EdgeCtx F S × String))
      → All (λ read. read.1.graph ≡ graph) reads
      → cached_reads reads new_cache ≡ uncached_reads reads
  unfolding new_cache get
  cached_reads-uncached_reads graph reads same =
      cached_reads_from graph reads new_cache same
        ((λ col found at. absurd cc), (λ col found at. absurd cc))
