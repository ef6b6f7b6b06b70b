-- ===== src/Graph/Preprocess/Correct.antt =====
-- What a successful `preprocess_graph` promises of its identity and its edge endpoints.
use Prim.Native.String.{String}
use rxgraph.Prelude.{
  ℕ, ◌≤◌, ◌<◌, ◌≡◌, refl, sym, ap, ◌∙◌, Option, none, some, List, [], arith, length, get_elem?,
  get_elem?-lt,
}
use rxgraph.Prelude.Keys.{Key, HashMap, get, nat_key, string_key}
use rxgraph.Prelude.Words.{u32_mod}
use rxgraph.Result.{GraphId, num, text, Result, ok, >>=-elim, ok-injective}
use rxgraph.Graph.Csr.{NodeId}
use rxgraph.Graph.Table.{RecordBatch, uint64, other, u64_col, str_col}
use rxgraph.Graph.Identity.{Identity, u64, str, internal_node, external_node, external_edge}
use rxgraph.Graph.Identity.Bijection.{
  IsBijective, u64_identity_lem, u64-IsBijective, str-IsBijective,
}
use rxgraph.Graph.Preprocess.{
  EdgeColumns, Preprocessed, id_col, edge_src_col, edge_dest_col, register_nodes, register_edges,
  u64_identity, preprocess_keys, preprocess_u64, preprocess_str, preprocess_graph,
  validate_type_col, id_mode, require_mode, IdMode, u64_mode, str_mode,
}
use rxgraph.Graph.Preprocess.Rows.{HasNodes, HasEdges, IsInverse, register_nodes_lem}
use rxgraph.Graph.Preprocess.EdgeRows.{register_edges_lem}
use mathlib.Core.Option

-- The external id in a cell of an identity column.
pub cell : RecordBatch → String → ℕ → Option GraphId
cell batch col row = elim (batch.field col) [
  | none ↦ none
  | some uint64 ↦ Option.map num (batch.u64_value col row)
  | some other ↦ none
  | some _ ↦ Option.map text (batch.str_value col row)
]

-- Row `i` of the edges names its id and two nodes, which are the stored endpoints.
pub record IsResolved (edges : RecordBatch) (p : Preprocessed) (i : ℕ) : Type 0 where
  pub src : NodeId
  pub dest : NodeId
  pub src_id : GraphId
  pub dest_id : GraphId
  pub src_read : cell edges edge_src_col i ≡ some src_id
  pub dest_read : cell edges edge_dest_col i ≡ some dest_id
  pub src_found : internal_node p.identity src_id ≡ some src
  pub dest_found : internal_node p.identity dest_id ≡ some dest
  pub id_kept : external_edge p.identity i ≡ cell edges id_col i
  pub stored : get_elem? p.edge_endpoints i ≡ some (src, dest)

pub record IsPreprocessed (nodes edges : RecordBatch) (p : Preprocessed) : Type 0 where
  pub bijective : IsBijective p.identity
  pub small : nodes.num_rows ≤ u32_mod
  pub node_ids : (i : ℕ) → i < nodes.num_rows → external_node p.identity i ≡ cell nodes id_col i
  pub bounded :
      (e : GraphId) (i : NodeId) → internal_node p.identity e ≡ some i → i < nodes.num_rows
  pub size : length p.edge_endpoints ≡ edges.num_rows
  pub rows : (i : ℕ) → i < edges.num_rows → IsResolved edges p i

-- The columns that `u64_col` reads.
u64_col-eq-ok :
    (batch : RecordBatch) (col : String) (f : ℕ → Option ℕ)
    → u64_col batch col ≡ ok f
    → (i : ℕ) → cell batch col i ≡ Option.map num (f i)
unfolding u64_col cell
u64_col-eq-ok batch col f h i = ground arith

str_col-eq-ok :
    (batch : RecordBatch) (col : String) (f : ℕ → Option String)
    → str_col batch col ≡ ok f
    → (i : ℕ) → cell batch col i ≡ Option.map text (f i)
unfolding str_col cell
str_col-eq-ok batch col f h i = ground arith

no_nodes : {K : Type 0} ⦃key : Key K⦄ (ids : ℕ → Option K) → HasNodes ids 0 ([], [])
unfolding get
no_nodes ids = record {
  inverse = λ k i. ground arith;
  size = refl;
  small = omega arith;
  rows = λ i lt. absurd (omega arith);
}

no_edges :
    {K : Type 0} ⦃key : Key K⦄ (lookup : HashMap K NodeId) (cols : EdgeColumns K)
    → HasEdges lookup cols 0 ([], [])
no_edges lookup cols = record { id_size = refl; size = refl; rows = λ i lt. absurd (omega arith) }

module _ {K : Type 0} ⦃key : Key K⦄ (wrap : K → GraphId)
    (column : RecordBatch → String → Result (ℕ → Option K))
    (make : List K → List K → HashMap K NodeId → Identity) where
  -- The parts of a successful run over the columns.
  record Parts (nodes edges : RecordBatch) (p : Preprocessed) : Type 0 where
    node_ids : ℕ → Option K
    cols : EdgeColumns K
    lookup : HashMap K NodeId
    nodes_out : List K
    edges_out : List K
    node_read : column nodes id_col ≡ ok node_ids
    id_read : column edges id_col ≡ ok cols.ids
    src_read : column edges edge_src_col ≡ ok cols.srcs
    dest_read : column edges edge_dest_col ≡ ok cols.dests
    has_nodes : HasNodes node_ids nodes.num_rows (lookup, nodes_out)
    has_edges : HasEdges lookup cols edges.num_rows (edges_out, p.edge_endpoints)
    identity : p.identity ≡ make nodes_out edges_out lookup

  preprocess-Parts :
      (nodes edges : RecordBatch) (p : Preprocessed)
      → preprocess_keys wrap column make nodes edges ≡ ok p
      → Parts nodes edges p
  unfolding preprocess_keys
  preprocess-Parts nodes edges p h = >>=-elim (column nodes id_col) _ h λ node_ids a h1.
      >>=-elim (column edges id_col) _ h1 λ edge_ids b h2.
        >>=-elim (column edges edge_src_col) _ h2 λ srcs c h3.
          >>=-elim (column edges edge_dest_col) _ h3 λ dests d h4.
            >>=-elim (register_nodes wrap node_ids nodes.num_rows 0 [] []) _ h4 λ n e h5.
              let cols : EdgeColumns K = record { ids = edge_ids; srcs = srcs; dests = dests } in
              >>=-elim (register_edges wrap n.0 cols edges.num_rows 0 [] [] []) _ h5 λ m f h6.
                let done = ok-injective h6 in
                record {
                  node_ids = node_ids;
                  cols = cols;
                  lookup = n.0;
                  nodes_out = n.1;
                  edges_out = m.0;
                  node_read = a;
                  id_read = b;
                  src_read = c;
                  dest_read = d;
                  has_nodes =
                      register_nodes_lem wrap node_ids nodes.num_rows 0 nodes.num_rows [] [] n
                        (omega arith) (no_nodes node_ids) e;
                  has_edges = rw (← done) (
                      register_edges_lem n.0 cols wrap edges.num_rows 0 edges.num_rows [] [] [] m
                        (omega arith) (no_edges n.0 cols) f);
                  identity = sym (ap (λ (q : Preprocessed). q.identity) done);
                }

  -- The identity answers by the tables, and a column holds the wrapped keys.
  record Agrees (lookup : HashMap K NodeId) (nodes edges : List K) (identity : Identity)
      : Type 0 where
    bijective : IsBijective identity
    inside : (e : GraphId) (i : NodeId) → internal_node identity e ≡ some i → i < length nodes
    lookups : (k : K) → internal_node identity (wrap k) ≡ get lookup k
    node_at : (i : ℕ) → external_node identity i ≡ Option.map wrap (get_elem? nodes i)
    edge_at : (i : ℕ) → external_edge identity i ≡ Option.map wrap (get_elem? edges i)

  module _
      (reads : (batch : RecordBatch) (col : String) (f : ℕ → Option K)
        → column batch col ≡ ok f
        → (i : ℕ) → cell batch col i ≡ Option.map wrap (f i))
      (agrees : (lookup : HashMap K NodeId) (nodes edges : List K)
        → IsInverse lookup nodes
        → length nodes ≤ u32_mod
        → Agrees lookup nodes edges (make nodes edges lookup)) where
    preprocess_keys_lem :
        (nodes edges : RecordBatch) (p : Preprocessed)
        → preprocess_keys wrap column make nodes edges ≡ ok p
        → IsPreprocessed nodes edges p
    preprocess_keys_lem nodes edges p h =
        let q = preprocess-Parts nodes edges p h in
        let small : length q.nodes_out ≤ u32_mod =
          omega (arith, q.has_nodes.size, q.has_nodes.small) in
        let a =
          rw (← q.identity) at
            (agrees q.lookup q.nodes_out q.edges_out q.has_nodes.inverse small) in
        record {
          bijective = a.bijective;
          small = q.has_nodes.small;
          node_ids = λ i lt.
              a.node_at i
              ∙ ap (Option.map wrap) (q.has_nodes.rows i lt)
              ∙ sym (reads nodes id_col q.node_ids q.node_read i);
          bounded = λ e i found. omega (arith, a.inside e i found, q.has_nodes.size);
          size = q.has_edges.size;
          rows = λ i lt.
              let row = q.has_edges.rows i lt in
              record {
                src = row.src;
                dest = row.dest;
                src_id = wrap row.src_id;
                dest_id = wrap row.dest_id;
                src_read =
                    reads edges edge_src_col q.cols.srcs q.src_read i
                    ∙ ap (Option.map wrap) row.src_read;
                dest_read =
                    reads edges edge_dest_col q.cols.dests q.dest_read i
                    ∙ ap (Option.map wrap) row.dest_read;
                src_found = a.lookups row.src_id ∙ row.src_found;
                dest_found = a.lookups row.dest_id ∙ row.dest_found;
                id_kept =
                    a.edge_at i
                    ∙ ap (Option.map wrap) row.id_read
                    ∙ sym (reads edges id_col q.cols.ids q.id_read i);
                stored = row.stored;
              };
        }

get-lt :
    {K : Type 0} ⦃key : Key K⦄ (lookup : HashMap K NodeId) (nodes : List K) (k : K) (i : NodeId)
    → IsInverse lookup nodes
    → get lookup k ≡ some i
    → i < length nodes
get-lt lookup nodes k i inverse h = get_elem?-lt nodes i k ((inverse k i).0 h)

u64-Agrees :
    (lookup : HashMap ℕ NodeId) (nodes edges : List ℕ)
    → IsInverse lookup nodes
    → length nodes ≤ u32_mod
    → Agrees num u64_col u64_identity lookup nodes edges (u64_identity nodes edges lookup)
unfolding internal_node external_node external_edge
u64-Agrees lookup nodes edges inverse small =
    let (a, b, c) = u64_identity_lem nodes edges lookup inverse small in
    record {
      bijective = λ e i. rw (a e, b i) (u64-IsBijective nodes edges lookup inverse e i);
      inside = λ e i h. u64_inside e i (sym (a e) ∙ h);
      lookups = λ k. a (num k);
      node_at = λ i. b i;
      edge_at = λ i. c i;
    }
  where
    u64_inside :
        (e : GraphId) (i : NodeId)
        → internal_node (u64 nodes edges lookup) e ≡ some i
        → i < length nodes
    u64_inside (num v) i h = get-lt lookup nodes v i inverse h
    u64_inside (text v) i h = cc

str-Agrees :
    (lookup : HashMap String NodeId) (nodes edges : List String)
    → IsInverse lookup nodes
    → length nodes ≤ u32_mod
    → Agrees text str_col str lookup nodes edges (str nodes edges lookup)
unfolding internal_node external_node external_edge
str-Agrees lookup nodes edges inverse small = record {
  bijective = str-IsBijective nodes edges lookup inverse;
  inside = str_inside;
  lookups = λ k. refl;
  node_at = λ i. refl;
  edge_at = λ i. refl;
}
  where
    str_inside :
        (e : GraphId) (i : NodeId)
        → internal_node (str nodes edges lookup) e ≡ some i
        → i < length nodes
    str_inside (num v) i h = cc
    str_inside (text v) i h = get-lt lookup nodes v i inverse h

-- If `preprocess_graph` accepts the two tables, ids and internal nodes are inverse to each other,
-- each node row keeps its id, and each edge row keeps its id and has both endpoints, resolved, at
-- its place.
pub preprocess_graph_lem :
    (nodes edges : RecordBatch) (p : Preprocessed)
    → preprocess_graph nodes edges ≡ ok p
    → IsPreprocessed nodes edges p
unfolding preprocess_graph preprocess_u64 preprocess_str
preprocess_graph_lem nodes edges p h = >>=-elim (validate_type_col nodes) _ h λ _ _ h1.
    >>=-elim (validate_type_col edges) _ h1 λ _ _ h2.
      >>=-elim (id_mode nodes id_col) _ h2 λ mode _ h3.
        >>=-elim (require_mode edges id_col mode) _ h3 λ _ _ h4.
          >>=-elim (require_mode edges edge_src_col mode) _ h4 λ _ _ h5.
            >>=-elim (require_mode edges edge_dest_col mode) _ h5 λ _ _ h6. by_mode mode h6
  where
    by_mode :
        (mode : IdMode)
        → elim mode [
          | u64_mode ↦ preprocess_u64 nodes edges
          | str_mode ↦ preprocess_str nodes edges
        ]
          ≡ ok p
        → IsPreprocessed nodes edges p
    by_mode u64_mode run =
        preprocess_keys_lem num u64_col u64_identity u64_col-eq-ok u64-Agrees nodes edges p run
    by_mode str_mode run =
        preprocess_keys_lem text str_col str str_col-eq-ok str-Agrees nodes edges p run
