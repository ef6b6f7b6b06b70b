-- ===== src/Tests.antt =====
-- Runs of the graph's model on small tables, and its theorems at concrete inputs.
mod Paths
mod Queries
mod Searches
mod Expressions
mod Sessions
mod Runs
use Prim.Native.String.{String}
use mathlib.Core.List.{zip}
use rxgraph.Prelude.{
  ℕ, zero, suc, ◌+◌, ◌≤◌, ◌<◌, ◌≡◌, refl, sym, ◌∙◌, Bool, true, false, ◌||◌, Option, none, some,
  List, [], ◌∷◌, ◌++◌, arith, ltb, ◌==◌, length, get_elem?, All,
}
use rxgraph.Prelude.Keys
use rxgraph.Prelude.Keys.{HashMap, nat_key, string_key}
use rxgraph.Prelude.Words.{add_u32, to_u32, sub_u32, u32_max, u32_mod}
use rxgraph.Result.{
  Result, ok, err, ◌>>=◌, Returns, ok-injective, index, store, slice, num, text, duplicate_node_id,
}
use rxgraph.Graph.Csr.{NodeId, Endpoints, Csr, count_sources, accumulate, place, build_csr}
use rxgraph.Graph.Csr.Build.{IsCsr, edges_from, dests_from, build_csr_lem}
use rxgraph.Graph.Identity.{Identity, u64, internal_node, external_node, external_edge}
use rxgraph.Graph.Table.{
  DataType, uint64, RecordBatch, validate_field_exists, is_string, u64_col, str_col,
}
use rxgraph.Graph.Preprocess.{
  Preprocessed, checked_id, register_nodes, register_edges, is_sequence, u64_identity,
  preprocess_keys, preprocess_u64, preprocess_str, id_mode, require_mode, validate_type_col,
  preprocess_graph,
}
use rxgraph.Graph.Repo.{
  Repo, strip_topology_columns, without_columns, node_topology_cols, edge_topology_cols,
  from_tables, outgoing_slice, outgoing, out_degree, incoming, incoming_csr, build_incoming_csr,
  count_dests, gather_row, gather, in_degree, out_degrees, in_degrees, degrees_from_offsets,
  compute_degrees,
}
use rxgraph.Graph.Preprocess.Correct.{IsPreprocessed, preprocess_graph_lem}
use rxgraph.Graph.Repo.Outgoing.{
  csr_of, IsTopology, IsBuilt, from_tables_lem, outgoing_slice_lem, out_degree_lem,
}
use rxgraph.Graph.Walk.Reach.{IsReached}
use rxgraph.Graph.Walk.Topology.{IsBeyond, walk_breadth_first_unbounded_lem, walk_many-outgoing}
use rxgraph.Graph.Walk.{
  visit, visit_all, expand, outgoing_dests, neighbors, walk_breadth_first_unbounded, walk_many,
}

-- The rows of one column.
column : List (String × List ℕ) → String → Option (List ℕ)
column [] col = none
column ((name, cells) ∷ cols) col = elim (string_key.beq name col) [
  | true ↦ some cells
  | false ↦ column cols col
]

table : ℕ → List (String × List ℕ) → RecordBatch
unfolding column
table rows cols = record {
  num_rows = rows;
  field = λ col. elim (column cols col) [ none ↦ none | some cells ↦ some uint64 ];
  u64_value = λ col row. elim (column cols col) [ none ↦ none | some cells ↦ get_elem? cells row ];
  str_value = λ col row. none;
  rebuilds = λ cols. true;
}

abbrev diamond_nodes : RecordBatch
diamond_nodes = table 5 (("id", 10 ∷ 20 ∷ 30 ∷ 40 ∷ 50 ∷ []) ∷ [])

abbrev diamond_edges : RecordBatch
diamond_edges = table 5 (
    ("id", 0 ∷ 1 ∷ 2 ∷ 3 ∷ 4 ∷ [])
    ∷ ("src", 10 ∷ 20 ∷ 10 ∷ 30 ∷ 40 ∷ [])
    ∷ ("dest", 20 ∷ 40 ∷ 30 ∷ 40 ∷ 10 ∷ [])
    ∷ [])

abbrev diamond_endpoints : List Endpoints
diamond_endpoints = (0, 1) ∷ (1, 3) ∷ (0, 2) ∷ (2, 3) ∷ (3, 0) ∷ []

abbrev diamond_identity : Identity
diamond_identity =
    u64 (10 ∷ 20 ∷ 30 ∷ 40 ∷ 50 ∷ []) (0 ∷ 1 ∷ 2 ∷ 3 ∷ 4 ∷ [])
      ((50, 4) ∷ (40, 3) ∷ (30, 2) ∷ (20, 1) ∷ (10, 0) ∷ [])

abbrev diamond : Repo
diamond = record {
  csr_offsets = 0 ∷ 2 ∷ 3 ∷ 4 ∷ 5 ∷ 5 ∷ [];
  csr_dests = 1 ∷ 2 ∷ 3 ∷ 3 ∷ 0 ∷ [];
  edge_ids = 0 ∷ 2 ∷ 1 ∷ 3 ∷ 4 ∷ [];
  node_count = 5;
  edge_count = 5;
  identity = diamond_identity;
  nodes = without_columns diamond_nodes node_topology_cols;
  edges = without_columns diamond_edges edge_topology_cols;
}

program : Unit {0}
unfolding column table strip_topology_columns without_columns index store slice Keys.get Keys.insert
    add_u32 to_u32 sub_u32 count_sources accumulate place build_csr validate_field_exists is_string
    u64_col str_col checked_id register_nodes register_edges is_sequence u64_identity
    preprocess_keys preprocess_u64 preprocess_str id_mode require_mode validate_type_col
    preprocess_graph from_tables outgoing_slice outgoing out_degree incoming incoming_csr
    build_incoming_csr count_dests gather_row gather in_degree out_degrees in_degrees
    degrees_from_offsets compute_degrees visit visit_all expand outgoing_dests neighbors
    walk_breadth_first_unbounded walk_many internal_node external_node external_edge
program = tt

preprocess_diamond :
    preprocess_graph diamond_nodes diamond_edges
    ≡ ok (record { identity = diamond_identity; edge_endpoints = diamond_endpoints })
unfolding program
preprocess_diamond = refl

from_tables-diamond : from_tables diamond_nodes diamond_edges ≡ ok diamond
unfolding program
from_tables-diamond = refl

walk_diamond : walk_breadth_first_unbounded diamond 0 ≡ ok (0 ∷ 1 ∷ 2 ∷ 3 ∷ [])
unfolding program
walk_diamond = refl

incoming-diamond : incoming diamond 3 ≡ ok (1 ∷ 2 ∷ [])
unfolding program
incoming-diamond = refl

ancestors_diamond : walk_many diamond (3 ∷ 3 ∷ []) true ≡ ok (1 ∷ 2 ∷ 0 ∷ [])
unfolding program
ancestors_diamond = refl

-- A second node with the id 10.
duplicate_diamond :
    preprocess_graph (table 2 (("id", 10 ∷ 10 ∷ []) ∷ [])) diamond_edges
    ≡ err (duplicate_node_id (num 10))
unfolding program
duplicate_diamond = refl

diamond-IsCsr : IsCsr 5 diamond_endpoints (csr_of diamond)
unfolding program
diamond-IsCsr =
    let (c, run, is_csr) =
      build_csr_lem 5 diamond_endpoints (omega arith)
        (omega arith, (omega arith, (omega arith, (omega arith, (omega arith, tt))))) in
    let same : c ≡ csr_of diamond = ok-injective (sym run ∙ refl) in rw same at is_csr

diamond-IsTopology : IsTopology diamond_endpoints diamond
diamond-IsTopology = record {
  csr = diamond-IsCsr;
  srcs = (omega arith, (omega arith, (omega arith, (omega arith, (omega arith, tt)))));
  dests = (omega arith, (omega arith, (omega arith, (omega arith, (omega arith, tt)))));
  few = omega arith;
  counted = refl;
}

from_tables_example : IsBuilt diamond_nodes diamond_edges diamond
from_tables_example = from_tables_lem diamond_nodes diamond_edges diamond from_tables-diamond

build_csr_example : Returns (build_csr 5 diamond_endpoints) (IsCsr 5 diamond_endpoints)
build_csr_example =
    build_csr_lem 5 diamond_endpoints (omega arith)
      (omega arith, (omega arith, (omega arith, (omega arith, (omega arith, tt)))))

preprocess_graph_example :
    IsPreprocessed diamond_nodes diamond_edges
      (record { identity = diamond_identity; edge_endpoints = diamond_endpoints })
preprocess_graph_example =
    preprocess_graph_lem diamond_nodes diamond_edges
      (record { identity = diamond_identity; edge_endpoints = diamond_endpoints })
      preprocess_diamond

outgoing_slice_example : outgoing_slice diamond 0 ≡ ok (0 ∷ 2 ∷ [], 1 ∷ 2 ∷ [])
outgoing_slice_example =
    outgoing_slice_lem diamond_endpoints diamond diamond-IsTopology 0 (omega arith)

out_degree_example : out_degree diamond 0 ≡ ok 2
out_degree_example = out_degree_lem diamond_endpoints diamond diamond-IsTopology 0 (omega arith)

walk_breadth_first_unbounded_example :
    Returns
      (walk_breadth_first_unbounded diamond 3)
      (IsReached (λ v. dests_from v diamond_endpoints) (3 ∷ []) (3 ∷ []))
walk_breadth_first_unbounded_example =
    walk_breadth_first_unbounded_lem diamond_endpoints diamond diamond-IsTopology 3 (omega arith)

walk_many_example :
    Returns
      (walk_many diamond (1 ∷ 2 ∷ 1 ∷ []) false)
      (IsBeyond (λ v. dests_from v diamond_endpoints) (1 ∷ 2 ∷ 1 ∷ []))
walk_many_example =
    walk_many-outgoing diamond_endpoints diamond (1 ∷ 2 ∷ 1 ∷ []) diamond-IsTopology
      (omega arith, (omega arith, (omega arith, tt)))
