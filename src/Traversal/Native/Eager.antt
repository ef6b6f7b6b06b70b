-- ===== src/Traversal/Native/Eager.antt =====
-- crates/rxgraph/src/traversal/native.rs, `EagerGraphStore`: its slots are filled once from the graph,
-- so that it is its methods on the graph.
use rxgraph.Prelude.{
  ℕ, zero, suc, ◌-◌, ◌<◌, ◌≡◌, refl, sym, ap, subst, inl, inr, some, [], ◌∷◌, map, arith, true,
  if◌then◌else◌, get_elem?, Bool, ltb, leb, ◌&&◌, List, length, take, drop, ◌==◌, Bool-cases,
}
use rxgraph.Result.{
  GraphId, Result, ok, err, ◌>>=◌, or_err, ok-injective, slice, node_payloads, edge_payloads,
  node_row, edge_row,
}
use rxgraph.Graph.Csr.{NodeId, EdgeId, Endpoints}
use rxgraph.Graph.Csr.Build.{edges_from, dests_from}
use rxgraph.Graph.Csr.Place.{count-keyed_ids}
use rxgraph.Graph.Identity.{internal_node, external_node, external_edge}
use rxgraph.Graph.Repo.{Repo, outgoing_slice}
use rxgraph.Graph.Repo.Outgoing.{IsTopology, outgoing_slice_lem}
use rxgraph.Traversal.Adapter.{Graph, GraphPath, out_degree, range, graph_adapter}
use rxgraph.Traversal.Arena.{PathEntry}
use rxgraph.Traversal.Kernel.{PayloadCache}
use rxgraph.Traversal.Search.{SearchAdapter}
use rxgraph.Traversal.Adapter
use rxgraph.Traversal.Native
use rxgraph.Traversal.Native.{
  OutgoingEdge, native_out_degree, native_range, native_adapter, GraphStore,
}
use mathlib.Core.List.{zip}

unfoldable pub outgoing_edge : EdgeId × NodeId → OutgoingEdge
outgoing_edge e = record { edge = e.0; dest = e.1 }

-- `EagerGraphStore`.
pub record EagerGraphStore (N E : Type 0) : Type 0 where
  pub graph : Repo
  pub nodes : List N
  pub edges : List E

module _ {N E : Type 0} where
  unfoldable pub new_eager : Repo → List N → List E → Result (EagerGraphStore N E)
  new_eager graph nodes edges =
      if length nodes == graph.node_count
      then if length edges == graph.edge_count
        then ok (record { graph = graph; nodes = nodes; edges = edges })
        else err (edge_payloads (length edges) graph.edge_count)
      else err (node_payloads (length nodes) graph.node_count)

module _ {N E : Type 0} (store : EagerGraphStore N E) where
  -- There is one slot for each node.
  unfoldable pub eager_outgoing : NodeId → Result (List OutgoingEdge)
  unfolding outgoing_edge
  eager_outgoing src =
      if ltb src store.graph.node_count
      then (outgoing_slice store.graph src >>= λ row. ok (map outgoing_edge (zip row.0 row.1)))
      else err (node_row src)

  unfoldable pub eager_store : GraphStore N E
  unfolding eager_outgoing
  eager_store = record {
    resolve_node = λ external. ok (internal_node store.graph.identity external);
    external_node = λ internal. ok (external_node store.graph.identity internal);
    external_edge = λ internal. ok (external_edge store.graph.identity internal);
    dense_node_count = some store.graph.node_count;
    outgoing = eager_outgoing;
    prefetch_outgoing = λ nodes. ok tt;
    node = λ id. or_err (get_elem? store.nodes id) (node_row id);
    edge = λ id. or_err (get_elem? store.edges id) (edge_row id);
  }

length-outgoing :
    (ids dests : List ℕ)
    → length ids ≡ length dests
    → length (map outgoing_edge (zip ids dests)) ≡ length ids
unfolding zip
length-outgoing [] dests h = refl
length-outgoing (i ∷ ids) [] h = absurd (omega (arith, h))
length-outgoing (i ∷ ids) (d ∷ dests) h =
    omega (arith, length-outgoing ids dests (omega (arith, h)))

-- The pairs of a range of outgoing edges are those of the ranges of ids and destinations.
pairs-take :
    (n : ℕ) (ids dests : List ℕ)
    → length ids ≡ length dests
    → map (λ e. (e.edge, e.dest)) (take n (map outgoing_edge (zip ids dests)))
      ≡ zip (take n ids) (take n dests)
unfolding zip outgoing_edge
pairs-take zero ids dests h = refl
pairs-take (suc n) [] [] h = refl
pairs-take (suc n) [] (d ∷ dests) h = absurd (omega (arith, h))
pairs-take (suc n) (i ∷ ids) [] h = absurd (omega (arith, h))
pairs-take (suc n) (i ∷ ids) (d ∷ dests) h =
    ap (λ rest. (i, d) ∷ rest) (pairs-take n ids dests (omega (arith, h)))

pairs-range :
    (n first : ℕ) (ids dests : List ℕ)
    → length ids ≡ length dests
    → map (λ e. (e.edge, e.dest)) (take n (drop first (map outgoing_edge (zip ids dests))))
      ≡ zip (take n (drop first ids)) (take n (drop first dests))
unfolding zip
pairs-range n zero ids dests h = pairs-take n ids dests h
pairs-range zero (suc first) ids dests h = refl
pairs-range (suc n) (suc first) [] [] h = refl
pairs-range n (suc first) [] (d ∷ dests) h = absurd (omega (arith, h))
pairs-range n (suc first) (i ∷ ids) [] h = absurd (omega (arith, h))
pairs-range n (suc first) (i ∷ ids) (d ∷ dests) h = pairs-range n first ids dests (omega (arith, h))

-- A range of the outgoing edges, and the ranges of the two rows.
slice-outgoing :
    (first last : ℕ) (ids dests : List ℕ)
    → length ids ≡ length dests
    → (slice (map outgoing_edge (zip ids dests)) first last >>= λ es.
        ok (map (λ e. (e.edge, e.dest)) es))
      ≡ (slice ids first last >>= λ a. slice dests first last >>= λ b. ok (zip a b))
unfolding slice
slice-outgoing first last ids dests h =
    let long = length-outgoing ids dests h in
    elim (Bool-cases (leb first last && leb last (length ids))) [
      | inl inside ↦
          rw (long, inside, sym h, inside) (ap ok (pairs-range (last - first) first ids dests h))
      | inr outside ↦ rw (long, outside) refl
    ]

module _ {N E : Type 0} (endpoints : List Endpoints) (store : EagerGraphStore N E)
    (t : IsTopology endpoints store.graph) where
  -- A node's edges in the eager store.
  eager_outgoing_lem :
      (node : NodeId)
      → node < store.graph.node_count
      → eager_outgoing store node
        ≡ ok (map outgoing_edge (zip (edges_from node endpoints) (dests_from node endpoints)))
  unfolding eager_outgoing
  eager_outgoing_lem node lt =
      let inside : ltb node store.graph.node_count ≡ true = ground arith in
      rw (inside, outgoing_slice_lem endpoints store.graph t node lt) refl

new_eager-graph :
    {N E : Type 0} (repo : Repo) (nodes : List N) (edges : List E) (store : EagerGraphStore N E)
    → new_eager repo nodes edges ≡ ok store
    → store.graph ≡ repo
unfolding new_eager
new_eager-graph repo nodes edges store h = elim (Bool-cases (length nodes == repo.node_count)) [
  | inr short ↦ absurd cc
  | inl many ↦ elim (Bool-cases (length edges == repo.edge_count)) [
    | inr short ↦ absurd cc
    | inl all ↦ ap (λ s. s.graph) (sym (ok-injective (rw (many, all) at h)))
  ]
]

module _ {F N E S T O P : Type 0} (graph : Graph F) (nodes : List N) (edges : List E)
    (store : EagerGraphStore N E) (kernel : Adapter.Kernel F S) (project : S → Result O)
    (native : Native.Kernel N E T)
    (materialize : GraphStore N E → List (PathEntry T) → ℕ → Bool → Result P) where
  abbrev own : SearchAdapter S (GraphPath O) (PayloadCache F)
  own = graph_adapter graph kernel project

  abbrev eager : SearchAdapter T P (Unit {0})
  eager = native_adapter (eager_store store) native materialize

  -- On a graph whose rows are those of `endpoints`, a search through an eager store that is built
  -- over it resolves the same start nodes and sees, at every node, the same out-degree and the same
  -- edges in every range, panics included, as the graph's own search.
  pub eager_store-graph_adapter :
      (endpoints : List Endpoints)
      → IsTopology endpoints graph.repo
      → new_eager graph.repo nodes edges ≡ ok store
      → (node : NodeId) (first last : ℕ) → node < graph.repo.node_count
      → (eager.dense_node_count ≡ own.dense_node_count)
        × ((id : GraphId) → eager.resolve_node id ≡ own.resolve_node id)
        × (eager.out_degree node ≡ own.out_degree node)
        × (eager.range node first last ≡ own.range node first last)
  unfolding graph_adapter out_degree range native_adapter native_out_degree native_range eager_store
  eager_store-graph_adapter endpoints t built node first last lt =
      let same = new_eager-graph graph.repo nodes edges store built in
      let topology = subst (IsTopology endpoints) (sym same) t in
      let inside = subst (λ r. node < r.node_count) (sym same) lt in
      let row = eager_outgoing_lem endpoints store topology node inside in
      let own_row = outgoing_slice_lem endpoints graph.repo t node lt in
      let even = count-keyed_ids node 0 endpoints in
      (
        ap (λ r. some r.node_count) same,
        λ id. ap (λ r. ok (internal_node r.identity id)) same,
        rw (row, own_row) (ap ok (length-outgoing _ _ even)),
        rw (row, own_row) (slice-outgoing first last _ _ even),
      )
