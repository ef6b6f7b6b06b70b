-- ===== src/Graph/Preprocess.antt =====
-- crates/rxgraph/src/graph/repo.rs, `preprocess_graph`: validation of the tables, dense ids and
-- edge endpoints. `preprocess_u64` and `preprocess_str` run the same two loops over their key type.
pub mod Rows
pub mod Correct
pub mod EdgeRows
use Prim.Native.String.{String}
use rxgraph.Prelude.{
  ℕ, zero, suc, ◌+◌, ◌-◌, Bool, true, false, not, ◌&&◌, Option, none, some, List, [], ◌∷◌, ◌++◌,
  leb, ◌==◌, if◌then◌else◌, length,
}
use rxgraph.Prelude.Keys.{Key, HashMap, get, insert, nat_key, string_key}
use rxgraph.Prelude.Words.{u32_max}
use rxgraph.Result.{
  GraphId, num, text, Result, ok, err, ◌>>=◌, ◌>>◌, guard, or_err, too_many_ids, null_node_id,
  null_edge_id, null_src, null_dest, duplicate_node_id, duplicate_edge_id, missing_src,
  missing_dest, bad_id_type, mixed_id_types, type_not_string,
}
use rxgraph.Graph.Csr.{NodeId, Endpoints}
use rxgraph.Graph.Identity.{Identity, u64_contiguous, u64, str}
use rxgraph.Graph.Table.{
  DataType, uint64, other, RecordBatch, validate_field_exists, is_string, u64_col, str_col,
}

abbrev pub id_col : String
id_col = "id"

abbrev pub type_col : String
type_col = "type"

abbrev pub edge_src_col : String
edge_src_col = "src"

abbrev pub edge_dest_col : String
edge_dest_col = "dest"

unfoldable pub checked_id : ℕ → Result NodeId
checked_id i = if leb i u32_max then ok i else err too_many_ids

pub record EdgeColumns {ℓ} (K : Type ℓ) : Type ℓ where
  pub ids : ℕ → Option K
  pub srcs : ℕ → Option K
  pub dests : ℕ → Option K

module _ {ℓ} {K : Type ℓ} ⦃key : Key K⦄ (wrap : K → GraphId) where
  -- The loop over the node rows, with the rows left and the row.
  unfoldable pub register_nodes :
      (ℕ → Option K) → ℕ → ℕ → HashMap K NodeId → List K → Result (HashMap K NodeId × List K)
  unfolding checked_id
  register_nodes ids zero row lookup out = ok (lookup, out)
  register_nodes ids (suc rounds) row lookup out = do
    id ← or_err (ids row) (null_node_id row)
    internal ← checked_id row
    elim (insert lookup id internal).0 [
      | some old ↦ err (duplicate_node_id (wrap id))
      | none ↦ register_nodes ids rounds (suc row) (insert lookup id internal).1 (out ++ id ∷ [])
    ]

  -- The loop over the edge rows: ids are distinct, endpoints are nodes.
  unfoldable pub register_edges :
      HashMap K NodeId
      → EdgeColumns K
      → ℕ
      → ℕ
      → HashMap K (Unit {0})
      → List K
      → List Endpoints
      → Result (List K × List Endpoints)
  unfolding checked_id
  register_edges lookup cols zero row seen out endpoints = ok (out, endpoints)
  register_edges lookup cols (suc rounds) row seen out endpoints = do
    id ← or_err (cols.ids row) (null_edge_id row)
    src_external ← or_err (cols.srcs row) (null_src row)
    dest_external ← or_err (cols.dests row) (null_dest row)
    elim (insert seen id tt).0 [
      | some old ↦ err (duplicate_edge_id (wrap id))
      | none ↦ do
        src ← or_err (get lookup src_external) (missing_src row (wrap src_external))
        dest ← or_err (get lookup dest_external) (missing_dest row (wrap dest_external))
        checked ← checked_id row
        register_edges lookup cols rounds (suc row) (insert seen id tt).1 (out ++ id ∷ [])
            (endpoints ++ (src, dest) ∷ [])
    ]

-- `iter().enumerate().all(|(row, &id)| id == row)`.
unfoldable pub is_sequence : ℕ → List ℕ → Bool
is_sequence row [] = true
is_sequence row (id ∷ ids) = id == row && is_sequence (suc row) ids

pub record Preprocessed : Type 0 where
  pub identity : Identity
  pub edge_endpoints : List Endpoints

unfoldable pub u64_identity : List ℕ → List ℕ → HashMap ℕ NodeId → Identity
unfolding is_sequence
u64_identity nodes edges lookup =
    if is_sequence 0 nodes && is_sequence 0 edges
    then u64_contiguous (length nodes) (length edges)
    else u64 nodes edges lookup

-- What `preprocess_u64` and `preprocess_str` do alike, over the reader of a column and the identity
-- that they build.
module _ {K : Type 0} ⦃key : Key K⦄ (wrap : K → GraphId)
    (column : RecordBatch → String → Result (ℕ → Option K))
    (make : List K → List K → HashMap K NodeId → Identity) where
  unfoldable pub preprocess_keys : RecordBatch → RecordBatch → Result Preprocessed
  unfolding register_nodes register_edges
  preprocess_keys nodes edges = do
    node_ids ← column nodes id_col
    edge_ids ← column edges id_col
    edge_srcs ← column edges edge_src_col
    edge_dests ← column edges edge_dest_col
    (lookup, nodes_out) ← register_nodes wrap node_ids nodes.num_rows 0 [] []
    (edges_out, endpoints) ←
        register_edges wrap lookup (record { ids = edge_ids; srcs = edge_srcs; dests = edge_dests })
          edges.num_rows 0 [] [] []
    ok (record { identity = make nodes_out edges_out lookup; edge_endpoints = endpoints })

unfoldable pub preprocess_u64 : RecordBatch → RecordBatch → Result Preprocessed
unfolding preprocess_keys u64_identity u64_col
preprocess_u64 = preprocess_keys num u64_col u64_identity

unfoldable pub preprocess_str : RecordBatch → RecordBatch → Result Preprocessed
unfolding preprocess_keys str_col
preprocess_str = preprocess_keys text str_col str

pub data IdMode : Type 0 where
  u64_mode str_mode : IdMode

unfoldable pub id_mode : RecordBatch → String → Result IdMode
unfolding validate_field_exists is_string
id_mode batch col = do
  ty ← validate_field_exists batch col
  elim ty [ uint64 ↦ ok u64_mode | other ↦ err (bad_id_type col) | _ ↦ ok str_mode ]

same_mode : IdMode → IdMode → Bool
same_mode u64_mode u64_mode = true
same_mode str_mode str_mode = true
same_mode _ _ = false

unfoldable pub require_mode : RecordBatch → String → IdMode → Result (Unit {0})
unfolding id_mode same_mode
require_mode batch col mode = do
  actual ← id_mode batch col
  guard (same_mode actual mode) (mixed_id_types col)

-- A missing column is no fault here: `if let Ok(ty) = …`.
unfoldable pub validate_type_col : RecordBatch → Result (Unit {0})
unfolding is_string
validate_type_col batch = elim (batch.field type_col) [
  | none ↦ ok tt
  | some ty ↦ guard (is_string ty) type_not_string
]

unfoldable pub preprocess_graph : RecordBatch → RecordBatch → Result Preprocessed
unfolding validate_type_col id_mode require_mode preprocess_u64 preprocess_str
preprocess_graph nodes edges = do
  validate_type_col nodes
  validate_type_col edges
  mode ← id_mode nodes id_col
  require_mode edges id_col mode
  require_mode edges edge_src_col mode
  require_mode edges edge_dest_col mode
  elim mode [ u64_mode ↦ preprocess_u64 nodes edges | str_mode ↦ preprocess_str nodes edges ]
