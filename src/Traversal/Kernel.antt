-- ===== src/Traversal/Kernel.antt =====
-- crates/rxgraph/src/traversal/kernel.rs: what a native kernel reads of an edge. The cache of column
-- readers is passed on by each read; the debug assertion on a field's owner is left out.
pub mod Convert
pub mod Cached
use Prim.Native.Nat.{Ordering}
use Prim.Native.String.{String}
use rxgraph.Prelude.{ℕ, ◌-◌, ◌^◌, Bool, true, false, ◌&&◌, Option, none, some, [], leb}
use rxgraph.Prelude.Keys.{HashMap, get, insert, string_key}
use rxgraph.Result.{
  GraphId, Result, ok, err, panic, out_of_fuel, ◌>>=◌, or_err, missing_column, field_type,
  negative_value, out_of_range, lossy_float, not_integer, not_number, not_boolean, not_string,
}
use rxgraph.Graph.Csr.{NodeId, EdgeId}
use rxgraph.Graph.Identity.{external_node, external_edge}
use rxgraph.Dsl.Integer.{ℤ, pos, negsuc, word_64, half_64}
use rxgraph.Dsl.Float.{Float}
use rxgraph.Dsl.Value.{Value, null, bool, i64, u64, f64, str, list, struct}
use rxgraph.Dsl.Arrow.{
  Primitive, ArrowArray, boolean_array, uint64_array, int64_array, float64_array, ColumnReader,
  bind, value,
}
use rxgraph.Dsl.Bind.{PayloadGraph, Transition}

-- `RecordBatch::column_by_name`.
abbrev pub Batch : Type 0 → Type 0
Batch F = String → Option (ArrowArray F)

-- `FieldValue` is what a column's downcast to the value's array gives.
unfoldable pub downcast_bool : {F : Type 0} → ArrowArray F → Option (Primitive Bool)
downcast_bool (boolean_array a) = some a
downcast_bool _ = none

unfoldable pub downcast_u64 : {F : Type 0} → ArrowArray F → Option (Primitive ℕ)
downcast_u64 (uint64_array a) = some a
downcast_u64 _ = none

unfoldable pub downcast_i64 : {F : Type 0} → ArrowArray F → Option (Primitive ℤ)
downcast_i64 (int64_array a) = some a
downcast_i64 _ = none

unfoldable pub downcast_f64 : {F : Type 0} → ArrowArray F → Option (Primitive F)
downcast_f64 (float64_array a) = some a
downcast_f64 _ = none

module _ {F T : Type 0} where
  -- `BoundField::bind`, and with the nodes' or the edges' batch `node_field` and `edge_field`.
  unfoldable pub bind_field :
      (ArrowArray F → Option (Primitive T)) → Batch F → String → Result (Primitive T)
  bind_field downcast batch name = do
    column ← or_err (batch name) (missing_column name)
    or_err (downcast column) (field_type name)

  unfoldable pub node_field :
      (ArrowArray F → Option (Primitive T)) → PayloadGraph F → String → Result (Primitive T)
  unfolding bind_field
  node_field downcast graph name = bind_field downcast graph.nodes name

  unfoldable pub edge_field :
      (ArrowArray F → Option (Primitive T)) → PayloadGraph F → String → Result (Primitive T)
  unfolding bind_field
  edge_field downcast graph name = bind_field downcast graph.edges name

-- `BoundField::read`.
unfoldable pub read_field : {T : Type 0} → Primitive T → ℕ → Option T
read_field a row = elim (a.is_null row) [ true ↦ none | false ↦ some (a.value row) ]

pub record PayloadCache (F : Type 0) : Type 0 where
  pub node : HashMap String (ColumnReader F)
  pub edge : HashMap String (ColumnReader F)

pub record EdgeCtx (F S : Type 0) : Type 0 where
  pub graph : PayloadGraph F
  pub src : NodeId
  pub dest : NodeId
  pub edge : EdgeId
  pub state : S

-- A name-based read: its answer, and the cache after it.
abbrev pub Read : Type 0 → Type 0 → Type 0 → Type 0
Read F S A = EdgeCtx F S → PayloadCache F → String → Result A × PayloadCache F

module _ {F : Type 0} where
  unfoldable pub new_cache : PayloadCache F
  new_cache = record { node = []; edge = [] }

  -- A reader that binds joins the cache; an error leaves the cache as it is.
  unfoldable pub remember :
      HashMap String (ColumnReader F)
      → String
      → Result (ColumnReader F)
      → Result (ColumnReader F) × HashMap String (ColumnReader F)
  remember cache col (ok found) = (ok found, (insert cache col found).1)
  remember cache col (err e) = (err e, cache)
  remember cache col panic = (panic, cache)
  remember cache col out_of_fuel = (out_of_fuel, cache)

  unfoldable pub reader :
      HashMap String (ColumnReader F)
      → Batch F
      → String
      → Result (ColumnReader F) × HashMap String (ColumnReader F)
  unfolding remember
  reader cache batch col = elim (get cache col) [
    | some found ↦ (ok found, cache)
    | none ↦ remember cache col (bind batch col)
  ]

  unfoldable pub node_reader :
      PayloadCache F → Batch F → String → Result (ColumnReader F) × PayloadCache F
  unfolding reader
  node_reader cache batch col =
      let (found, node) = reader cache.node batch col in (found, record cache { node = node })

  unfoldable pub edge_reader :
      PayloadCache F → Batch F → String → Result (ColumnReader F) × PayloadCache F
  unfolding reader
  edge_reader cache batch col =
      let (found, edge) = reader cache.edge batch col in (found, record cache { edge = edge })

  module _ {S : Type 0} where
    unfoldable pub src_field : {T : Type 0} → EdgeCtx F S → Primitive T → Option T
    unfolding read_field
    src_field cx field = read_field field cx.src

    unfoldable pub dest_field : {T : Type 0} → EdgeCtx F S → Primitive T → Option T
    unfolding read_field
    dest_field cx field = read_field field cx.dest

    -- `EdgeCtx::edge_field`.
    unfoldable pub own_field : {T : Type 0} → EdgeCtx F S → Primitive T → Option T
    unfolding read_field
    own_field cx field = read_field field cx.edge

    unfoldable pub src_id : EdgeCtx F S → Option GraphId
    src_id cx = external_node cx.graph.identity cx.src

    unfoldable pub dest_id : EdgeCtx F S → Option GraphId
    dest_id cx = external_node cx.graph.identity cx.dest

    unfoldable pub edge_id : EdgeCtx F S → Option GraphId
    edge_id cx = external_edge cx.graph.identity cx.edge

    unfoldable pub src_value : Read F S (Value F)
    unfolding node_reader
    src_value cx cache col =
        let (found, next) = node_reader cache cx.graph.nodes col in
        (found >>= λ column. value column cx.src, next)

    unfoldable pub dest_value : Read F S (Value F)
    unfolding node_reader
    dest_value cx cache col =
        let (found, next) = node_reader cache cx.graph.nodes col in
        (found >>= λ column. value column cx.dest, next)

    unfoldable pub edge_value : Read F S (Value F)
    unfolding edge_reader
    edge_value cx cache col =
        let (found, next) = edge_reader cache cx.graph.edges col in
        (found >>= λ column. value column cx.edge, next)

    -- A read of a value, and its conversion.
    unfoldable pub converted : {A : Type 0} → (Value F → Result A) → Read F S (Value F) → Read F S A
    converted convert read cx cache col =
        let (answer, next) = read cx cache col in (answer >>= convert, next)
