-- ===== src/Graph/Repo/Outgoing.antt =====
-- The rows of a graph that `from_tables` built are its edges, by source.
use rxgraph.Prelude.{
  ℕ, suc, ◌+◌, ◌-◌, ◌≤◌, ◌<◌, ◌≡◌, refl, sym, ap, subst, ◌∙◌, inl, inr, some, List, [], ◌∷◌, arith,
  ltb, length, get_elem?, All, Bool-cases,
}
use native.Mathlib.Numerals.{add-one}
use rxgraph.Prelude.Words.{u32_max, sub_u32-le}
use rxgraph.Prelude.Counts.{count, count_below, count_below-suc, count_below-le}
use rxgraph.Result.{ok, >>=-elim, ok-injective, index-get_or, slice-take}
use rxgraph.Graph.Csr.{NodeId, Endpoints, Csr, build_csr}
use rxgraph.Graph.Csr.Build.{IsCsr, edges_from, dests_from, build_csr_lem}
use rxgraph.Graph.Table.{RecordBatch}
use rxgraph.Graph.Preprocess.{preprocess_graph}
use rxgraph.Graph.Preprocess.Correct.{IsPreprocessed, preprocess_graph_lem}
use rxgraph.Graph.Repo.{
  Repo, strip_topology_columns, node_topology_cols, edge_topology_cols, from_tables, outgoing_slice,
  out_degree,
}

abbrev pub csr_of : Repo → Csr
csr_of r = record { offsets = r.csr_offsets; edge_ids = r.edge_ids; dests = r.csr_dests }

-- The rows of `r` are those of `endpoints`, and every endpoint is a node.
pub record IsTopology (endpoints : List Endpoints) (r : Repo) : Type 0 where
  pub csr : IsCsr r.node_count endpoints (csr_of r)
  pub srcs : All (λ e. e.0 < r.node_count) endpoints
  pub dests : All (λ e. e.1 < r.node_count) endpoints
  pub few : length endpoints ≤ u32_max
  pub counted : r.edge_count ≡ length endpoints

module _ (endpoints : List Endpoints) (r : Repo) (t : IsTopology endpoints r) where
  open t use {csr, few}

  -- On a repo whose rows are those of `endpoints`, `outgoing_slice` of a node returns the ids and
  -- the destinations of the edges that leave it, in edge order.
  pub outgoing_slice_lem :
      (node : NodeId)
      → node < r.node_count
      → outgoing_slice r node ≡ ok (edges_from node endpoints, dests_from node endpoints)
  unfolding outgoing_slice
  outgoing_slice_lem node lt =
      let start = csr.offset node (omega arith) in
      let end = csr.offset (node + 1) (omega arith) in
      let next : count_below (node + 1) endpoints
          ≡ count_below node endpoints + count node endpoints =
        rw add-one (count_below-suc node endpoints) in
      let width : count_below (node + 1) endpoints - count_below node endpoints
          ≡ count node endpoints =
        omega arith in
      let bound = count_below-le (node + 1) endpoints in
      rw
        (
          index-get_or r.csr_offsets node 0 (omega (arith, csr.rows)),
          index-get_or r.csr_offsets (node + 1) 0 (omega (arith, csr.rows)),
          start,
          end,
          slice-take r.edge_ids (count_below node endpoints) (count_below (node + 1) endpoints)
              (omega (arith, next)) (omega (arith, csr.edge_size, bound)),
          slice-take r.csr_dests (count_below node endpoints) (count_below (node + 1) endpoints)
              (omega (arith, next)) (omega (arith, csr.dest_size, bound)),
        )
        (rw (width, csr.edge_row node lt, csr.dest_row node lt))

  -- On a repo whose rows are those of `endpoints`, the out-degree of a node is the number of edges
  -- that leave it, with no wrap-around.
  pub out_degree_lem :
      (node : NodeId) → node < r.node_count → out_degree r node ≡ ok (count node endpoints)
  unfolding out_degree
  out_degree_lem node lt =
      let start = csr.offset node (omega arith) in
      let end = csr.offset (node + 1) (omega arith) in
      let next : count_below (node + 1) endpoints
          ≡ count_below node endpoints + count node endpoints =
        rw add-one (count_below-suc node endpoints) in
      let bound = count_below-le (node + 1) endpoints in
      rw
        (
          index-get_or r.csr_offsets node 0 (omega (arith, csr.rows)),
          index-get_or r.csr_offsets (node + 1) 0 (omega (arith, csr.rows)),
          start,
          end,
          sub_u32-le (count_below (node + 1) endpoints) (count_below node endpoints)
              (omega (arith, next)) (omega (arith, bound, few)),
        )
        (ap ok (omega (arith, next)))

module _ {A : Type 0} (P : A → Type 0) where
  All-of_reads :
      (xs : List A)
      → ((i : ℕ) → i < length xs → (x : A) × (get_elem? xs i ≡ some x) × P x)
      → All P xs
  All-of_reads [] h = tt
  All-of_reads (x ∷ xs) h =
      let (y, e, p) = h 0 (omega arith) in
      let same : y ≡ x = cc in (subst P same p, All-of_reads xs (λ i lt. h (suc i) (omega arith)))

-- What holds of a graph that was built from the tables `nodes` and `edges`.
pub record IsBuilt (nodes edges : RecordBatch) (r : Repo) : Type 0 where
  pub endpoints : List Endpoints
  pub resolved :
      IsPreprocessed nodes edges (record { identity = r.identity; edge_endpoints = endpoints })
  pub topology : IsTopology endpoints r
  pub node_count : r.node_count ≡ nodes.num_rows
  pub edge_count : r.edge_count ≡ edges.num_rows

few-build_csr :
    (n : ℕ) (edges : List Endpoints) (c : Csr) → build_csr n edges ≡ ok c → length edges ≤ u32_max
unfolding build_csr
few-build_csr n edges c h = elim (Bool-cases (ltb u32_max (length edges))) [
  | inl many ↦ absurd (ground arith)
  | inr few ↦ ground arith
]

-- If `from_tables` accepts the two tables, their ids and endpoints are resolved as `IsPreprocessed`
-- says, the rows of the repo are those of the edges by source, and its counts are the tables'.
pub from_tables_lem :
    (nodes edges : RecordBatch) (r : Repo) → from_tables nodes edges ≡ ok r → IsBuilt nodes edges r
unfolding from_tables
from_tables_lem nodes edges r h = >>=-elim (preprocess_graph nodes edges) _ h λ p a h1.
    >>=-elim (build_csr nodes.num_rows p.edge_endpoints) _ h1 λ csr b h2.
      >>=-elim (strip_topology_columns nodes node_topology_cols) _ h2 λ node_payloads c h3.
        >>=-elim (strip_topology_columns edges edge_topology_cols) _ h3 λ edge_payloads d h4.
          let q = preprocess_graph_lem nodes edges p a in
          let few = few-build_csr nodes.num_rows p.edge_endpoints csr b in
          let row =
            λ (i : ℕ) (lt : i < length p.edge_endpoints). q.rows i (omega (arith, q.size)) in
          let srcs =
            All-of_reads (λ (e : Endpoints). e.0 < nodes.num_rows) p.edge_endpoints
              (λ i lt.
                let w = row i lt in
                ((w.src, w.dest), w.stored, q.bounded w.src_id w.src w.src_found)) in
          let dests =
            All-of_reads (λ (e : Endpoints). e.1 < nodes.num_rows) p.edge_endpoints
              (λ i lt.
                let w = row i lt in
                ((w.src, w.dest), w.stored, q.bounded w.dest_id w.dest w.dest_found)) in
          let (built, run, is_csr) = build_csr_lem nodes.num_rows p.edge_endpoints few srcs in
          let same : built ≡ csr = ok-injective (sym run ∙ b) in
          rw (← ok-injective h4) (record {
            endpoints = p.edge_endpoints;
            resolved = q;
            topology = record {
              csr = rw same at is_csr;
              srcs = srcs;
              dests = dests;
              few = few;
              counted = refl;
            };
            node_count = refl;
            edge_count = q.size;
          })
