-- ===== src/Traversal/Stats.antt =====
-- crates/rxgraph/src/traversal/mod.rs, `SearchStats`, and engine.rs, `merge_stats`.
use rxgraph.Prelude.{ℕ, ◌+◌, max}

pub record SearchStats : Type 0 where
  pub start_nodes : ℕ
  pub path_entries : ℕ
  pub evaluated_edges : ℕ
  pub parallel_edges : ℕ
  pub accepted_edges : ℕ
  pub rejected_edges : ℕ
  pub skipped_revisits : ℕ
  pub stopped_paths : ℕ
  pub max_depth : ℕ
  pub materialized_node_payloads : ℕ
  pub materialized_edge_payloads : ℕ
  pub lazy_payload_read_calls : ℕ
  pub lazy_payload_requested_rows : ℕ
  pub lazy_payload_selected_rows : ℕ
  pub lazy_payload_row_groups : ℕ

abbrev pub no_stats : SearchStats
no_stats = record {
  start_nodes = 0;
  path_entries = 0;
  evaluated_edges = 0;
  parallel_edges = 0;
  accepted_edges = 0;
  rejected_edges = 0;
  skipped_revisits = 0;
  stopped_paths = 0;
  max_depth = 0;
  materialized_node_payloads = 0;
  materialized_edge_payloads = 0;
  lazy_payload_read_calls = 0;
  lazy_payload_requested_rows = 0;
  lazy_payload_selected_rows = 0;
  lazy_payload_row_groups = 0;
}

unfoldable pub merge_stats : SearchStats → SearchStats → SearchStats
merge_stats a b = record {
  start_nodes = a.start_nodes + b.start_nodes;
  path_entries = a.path_entries + b.path_entries;
  evaluated_edges = a.evaluated_edges + b.evaluated_edges;
  parallel_edges = a.parallel_edges + b.parallel_edges;
  accepted_edges = a.accepted_edges + b.accepted_edges;
  rejected_edges = a.rejected_edges + b.rejected_edges;
  skipped_revisits = a.skipped_revisits + b.skipped_revisits;
  stopped_paths = a.stopped_paths + b.stopped_paths;
  max_depth = max a.max_depth b.max_depth;
  materialized_node_payloads = a.materialized_node_payloads + b.materialized_node_payloads;
  materialized_edge_payloads = a.materialized_edge_payloads + b.materialized_edge_payloads;
  lazy_payload_read_calls = a.lazy_payload_read_calls + b.lazy_payload_read_calls;
  lazy_payload_requested_rows = a.lazy_payload_requested_rows + b.lazy_payload_requested_rows;
  lazy_payload_selected_rows = a.lazy_payload_selected_rows + b.lazy_payload_selected_rows;
  lazy_payload_row_groups = a.lazy_payload_row_groups + b.lazy_payload_row_groups;
}
