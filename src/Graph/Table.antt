-- ===== src/Graph/Table.antt =====
-- The Arrow tables that crates/rxgraph/src/graph/repo.rs reads. A table is a parameter: its rows,
-- its schema, and the values that Arrow's typed columns give by row, `none` at a null.
use Prim.Native.String.{String}
use rxgraph.Prelude.{ℕ, Bool, true, false, Option, List}
use rxgraph.Result.{Result, ok, err, ◌>>=◌, or_err, missing_column, bad_id_type}

pub data DataType : Type 0 where
  uint64 utf8 large_utf8 utf8_view other : DataType

pub record RecordBatch : Type 0 where
  pub num_rows : ℕ
  pub field : String → Option DataType
  pub u64_value : String → ℕ → Option ℕ
  pub str_value : String → ℕ → Option String
  -- Whether Arrow accepts the table without these columns.
  pub rebuilds : List String → Bool

-- arrow.rs: `validate_field_exists`.
unfoldable pub validate_field_exists : RecordBatch → String → Result DataType
validate_field_exists batch col = or_err (batch.field col) (missing_column col)

unfoldable pub is_string : DataType → Bool
is_string utf8 = true
is_string large_utf8 = true
is_string utf8_view = true
is_string _ = false

-- repo.rs: `u64_col`, with `is_null` and `value` as one read.
unfoldable pub u64_col : RecordBatch → String → Result (ℕ → Option ℕ)
u64_col batch col = do
  ty ← or_err (batch.field col) (missing_column col)
  elim ty [ uint64 ↦ ok (batch.u64_value col) | _ ↦ err (bad_id_type col) ]

-- repo.rs: `str_col` and `StrCol::value`.
unfoldable pub str_col : RecordBatch → String → Result (ℕ → Option String)
str_col batch col = do
  ty ← or_err (batch.field col) (missing_column col)
  elim ty [
    | utf8 ↦ ok (batch.str_value col)
    | large_utf8 ↦ ok (batch.str_value col)
    | utf8_view ↦ ok (batch.str_value col)
    | _ ↦ err (bad_id_type col)
  ]
