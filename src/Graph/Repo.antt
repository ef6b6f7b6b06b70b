-- ===== src/Graph/Repo.antt =====
-- crates/rxgraph/src/graph/repo.rs, `Repo`: the topology and the identity of a graph. The caches
-- (`OnceLock`) are computed at each use: they hold what the same pure function gives.
pub mod Outgoing
use Prim.Native.String.{String}
use rxgraph.Prelude.{
  ℕ, zero, suc, ◌+◌, ◌-◌, Bool, true, false, ◌||◌, Option, none, some, List, [], ◌∷◌, ◌==◌,
  if◌then◌else◌, length, replicate,
}
use rxgraph.Prelude.Keys.{Key, string_key}
use rxgraph.Prelude.Words.{add_u32, sub_u32, to_u32}
use rxgraph.Result.{
  GraphId, Result, ok, err, panic, out_of_fuel, payload_table, ◌>>=◌, ◌>>◌, guard, index, store,
  slice, node_rows, edge_rows,
}
use rxgraph.Graph.Csr.{NodeId, EdgeId, Csr, accumulate, build_csr}
use rxgraph.Graph.Identity
use rxgraph.Graph.Identity.{Identity}
use rxgraph.Graph.Table.{RecordBatch}
use rxgraph.Graph.Preprocess.{Preprocessed, preprocess_graph, id_col, edge_src_col, edge_dest_col}
use mathlib.Core.List.{zip}

pub record Repo : Type 0 where
  pub csr_offsets : List ℕ
  pub csr_dests : List NodeId
  pub edge_ids : List EdgeId
  pub node_count : ℕ
  pub edge_count : ℕ
  pub identity : Identity
  pub nodes : RecordBatch
  pub edges : RecordBatch

one_of : List String → String → Bool
one_of [] col = false
one_of (c ∷ cols) col = string_key.beq c col || one_of cols col

-- The columns that stay keep their values, and the rows their number.
unfoldable pub without_columns : RecordBatch → List String → RecordBatch
unfolding one_of
without_columns batch cols = record batch {
  field = λ col. if one_of cols col then none else batch.field col;
}

unfoldable pub strip_topology_columns : RecordBatch → List String → Result RecordBatch
unfolding without_columns
strip_topology_columns batch cols = do
  guard (batch.rebuilds cols) payload_table
  ok (without_columns batch cols)

abbrev pub node_topology_cols : List String
node_topology_cols = id_col ∷ []

abbrev pub edge_topology_cols : List String
edge_topology_cols = id_col ∷ edge_src_col ∷ edge_dest_col ∷ []

unfoldable pub from_tables : RecordBatch → RecordBatch → Result Repo
from_tables nodes edges = do
  p ← preprocess_graph nodes edges
  csr ← build_csr nodes.num_rows p.edge_endpoints
  node_payloads ← strip_topology_columns nodes node_topology_cols
  edge_payloads ← strip_topology_columns edges edge_topology_cols
  ok (record {
    csr_offsets = csr.offsets;
    csr_dests = csr.dests;
    edge_ids = csr.edge_ids;
    node_count = nodes.num_rows;
    edge_count = length p.edge_endpoints;
    identity = p.identity;
    nodes = node_payloads;
    edges = edge_payloads;
  })

unfoldable pub set_edges : Repo → Result RecordBatch → Repo × Result (Unit {0})
set_edges r (ok batch) = (record r { edges = batch }, ok tt)
set_edges r (err e) = (r, err e)
set_edges r panic = (r, panic)
set_edges r out_of_fuel = (r, out_of_fuel)

unfoldable pub set_nodes : Repo → RecordBatch → Result RecordBatch → Repo × Result (Unit {0})
unfolding set_edges
set_nodes r edges (ok batch) =
    set_edges (record r { nodes = batch }) (strip_topology_columns edges edge_topology_cols)
set_nodes r edges (err e) = (r, err e)
set_nodes r edges panic = (r, panic)
set_nodes r edges out_of_fuel = (r, out_of_fuel)

-- The node table is replaced before the edge table may be refused.
unfoldable pub set_payloads : Repo → RecordBatch → RecordBatch → Repo × Result (Unit {0})
unfolding set_nodes
set_payloads r nodes edges = set_nodes r edges do
  guard (nodes.num_rows == r.node_count) (node_rows nodes.num_rows r.node_count)
  guard (edges.num_rows == r.edge_count) (edge_rows edges.num_rows r.edge_count)
  strip_topology_columns nodes node_topology_cols

unfoldable pub outgoing_slice : Repo → NodeId → Result (List EdgeId × List NodeId)
outgoing_slice r node = do
  start ← index r.csr_offsets node
  end ← index r.csr_offsets (node + 1)
  ids ← slice r.edge_ids start end
  dests ← slice r.csr_dests start end
  ok (ids, dests)

unfoldable pub outgoing : Repo → NodeId → Result (List (EdgeId × NodeId))
outgoing r node = do
  start ← index r.csr_offsets node
  end ← index r.csr_offsets (node + 1)
  ids ← slice r.edge_ids start end
  dests ← slice r.csr_dests start end
  ok (zip ids dests)

unfoldable pub out_degree : Repo → NodeId → Result ℕ
out_degree r node = do
  end ← index r.csr_offsets (node + 1)
  start ← index r.csr_offsets node
  ok (sub_u32 end start)

pub record IncomingCsr : Type 0 where
  pub offsets : List ℕ
  pub srcs : List NodeId

-- `offsets[dest as usize + 1] += 1` over the destinations.
unfoldable pub count_dests : List NodeId → List ℕ → Result (List ℕ)
count_dests [] offsets = ok offsets
count_dests (dest ∷ dests) offsets = do
  n ← index offsets (dest + 1)
  counted ← store offsets (dest + 1) (add_u32 n 1)
  count_dests dests counted

pub record Gathering : Type 0 where
  pub srcs : List NodeId
  pub cursor : List ℕ

-- The inner loop over the destinations of one source.
unfoldable pub gather_row : NodeId → List NodeId → Gathering → Result Gathering
gather_row src [] g = ok g
gather_row src (dest ∷ dests) g = do
  pos ← index g.cursor dest
  srcs ← store g.srcs pos src
  cursor ← store g.cursor dest (add_u32 pos 1)
  gather_row src dests (record { srcs = srcs; cursor = cursor })

-- The outer loop, with the sources left and the source.
unfoldable pub gather : List ℕ → List NodeId → ℕ → NodeId → Gathering → Result Gathering
gather csr_offsets csr_dests zero src g = ok g
gather csr_offsets csr_dests (suc rounds) src g = do
  start ← index csr_offsets src
  end ← index csr_offsets (src + 1)
  dests ← slice csr_dests start end
  gathered ← gather_row src dests g
  gather csr_offsets csr_dests rounds (suc src) gathered

unfoldable pub build_incoming_csr : ℕ → List ℕ → List NodeId → Result IncomingCsr
build_incoming_csr node_count csr_offsets csr_dests = do
  counts ← count_dests csr_dests (replicate (node_count + 1) 0)
  offsets ← accumulate (length counts - 1) 1 counts
  g ←
      gather csr_offsets csr_dests (to_u32 node_count) 0
        (record { srcs = replicate (length csr_dests) 0; cursor = offsets })
  ok (record { offsets = offsets; srcs = g.srcs })

unfoldable pub incoming_csr : Repo → Result IncomingCsr
incoming_csr r = build_incoming_csr r.node_count r.csr_offsets r.csr_dests

unfoldable pub incoming : Repo → NodeId → Result (List NodeId)
unfolding incoming_csr
incoming r node = do
  csr ← incoming_csr r
  start ← index csr.offsets node
  end ← index csr.offsets (node + 1)
  slice csr.srcs start end

unfoldable pub in_degree : Repo → NodeId → Result ℕ
unfolding incoming_csr
in_degree r node = do
  csr ← incoming_csr r
  end ← index csr.offsets (node + 1)
  start ← index csr.offsets node
  ok (sub_u32 end start)

-- `windows(2)`.
unfoldable pub degrees_from_offsets : List ℕ → List ℕ
degrees_from_offsets [] = []
degrees_from_offsets (a ∷ []) = []
degrees_from_offsets (a ∷ b ∷ rest) = sub_u32 b a ∷ degrees_from_offsets (b ∷ rest)

unfoldable pub out_degrees : Repo → List ℕ
unfolding degrees_from_offsets
out_degrees r = degrees_from_offsets r.csr_offsets

unfoldable pub in_degrees : Repo → Result (List ℕ)
unfolding incoming_csr degrees_from_offsets
in_degrees r = do csr ← incoming_csr r; ok (degrees_from_offsets csr.offsets)

-- The rows left and the row.
sum_degrees : List ℕ → List ℕ → ℕ → ℕ → Result (List ℕ)
sum_degrees out incoming zero i = ok []
sum_degrees out incoming (suc rounds) i = do
  out_end ← index out (i + 1)
  out_start ← index out i
  in_end ← index incoming (i + 1)
  in_start ← index incoming i
  rest ← sum_degrees out incoming rounds (suc i)
  ok ((sub_u32 out_end out_start + sub_u32 in_end in_start) ∷ rest)

unfoldable pub compute_degrees : Repo → Result (List ℕ)
unfolding incoming_csr sum_degrees
compute_degrees r = do csr ← incoming_csr r; sum_degrees r.csr_offsets csr.offsets r.node_count 0
