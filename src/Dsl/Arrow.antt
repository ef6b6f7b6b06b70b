-- ===== src/Dsl/Arrow.antt =====
-- crates/rxgraph/src/dsl/arrow_value.rs: values read from Arrow columns. An array of the arrow crate
-- is what its `len`, `is_null` and `value` give; a nested array is that of one row. The downcast of
-- a column to the type that it names always succeeds.
pub mod Agree
use Prim.Native.String.{String}
use rxgraph.Prelude.{
  ℕ, zero, suc, ◌≡◌, Bool, true, false, Option, none, some, List, [], ◌∷◌, length,
}
use rxgraph.Result.{
  Result, ok, err, panic, ◌>>=◌, or_err, missing_column, unsupported_column, unsupported_value,
  empty_literal, column_count,
}
use rxgraph.Dsl.Integer.{ℤ}
use rxgraph.Dsl.Value.{
  Value, Values, nil, cons, Fields, no_fields, field, null, bool, i64, u64, f64, str, list, struct,
}

pub record Primitive (X : Type 0) : Type 0 where
  pub len : ℕ
  pub is_null : ℕ → Bool
  pub value : ℕ → X

mutual
  pub data ArrowArray (F : Type 0) : Type 0 where
    boolean_array : Primitive Bool → ArrowArray F
    int8_array int16_array int32_array int64_array : Primitive ℤ → ArrowArray F
    uint8_array uint16_array uint32_array uint64_array : Primitive ℕ → ArrowArray F
    float32_array float64_array : Primitive F → ArrowArray F
    utf8_array large_utf8_array utf8_view_array : Primitive String → ArrowArray F
    list_array large_list_array : ℕ → (ℕ → Bool) → (ℕ → ArrowArray F) → ArrowArray F
    struct_array : ℕ → (ℕ → Bool) → Columns F → ArrowArray F
    other_array : ℕ → String → ArrowArray F

  -- The fields of a struct array, zipped with their columns.
  pub data Columns (F : Type 0) : Type 0 where
    no_columns : Columns F
    column : String → ArrowArray F → Columns F → Columns F

pub data ColumnReader (F : Type 0) : Type 0 where
  bool_column : Primitive Bool → ColumnReader F
  i8_column i16_column i32_column i64_column : Primitive ℤ → ColumnReader F
  u8_column u16_column u32_column u64_column : Primitive ℕ → ColumnReader F
  f32_column f64_column : Primitive F → ColumnReader F
  utf8_column large_utf8_column utf8_view_column : Primitive String → ColumnReader F
  list_column large_list_column : ℕ → (ℕ → Bool) → (ℕ → ArrowArray F) → ColumnReader F
  struct_column : ℕ → (ℕ → Bool) → Columns F → ColumnReader F

module _ {F : Type 0} where
  unfoldable pub array_len : ArrowArray F → ℕ
  array_len (boolean_array a) = a.len
  array_len (int8_array a) = a.len
  array_len (int16_array a) = a.len
  array_len (int32_array a) = a.len
  array_len (int64_array a) = a.len
  array_len (uint8_array a) = a.len
  array_len (uint16_array a) = a.len
  array_len (uint32_array a) = a.len
  array_len (uint64_array a) = a.len
  array_len (float32_array a) = a.len
  array_len (float64_array a) = a.len
  array_len (utf8_array a) = a.len
  array_len (large_utf8_array a) = a.len
  array_len (utf8_view_array a) = a.len
  array_len (list_array n is_null value) = n
  array_len (large_list_array n is_null value) = n
  array_len (struct_array n is_null fields) = n
  array_len (other_array n dtype) = n

  -- The `primitive!` and `nullable!` macros.
  unfoldable pub nullable : {X : Type 0} → Primitive X → ℕ → (X → Value F) → Value F
  nullable a row wrap = elim (a.is_null row) [ true ↦ null | false ↦ wrap (a.value row) ]

  -- `count` rows from `row` on, collected.
  unfoldable pub collect_rows : (ℕ → Result (Value F)) → ℕ → ℕ → Result (Values F)
  collect_rows read row zero = ok nil
  collect_rows read row (suc count) = do
    v ← read row
    vs ← collect_rows read (suc row) count
    ok (cons v vs)

  unfoldable mutual
    unfolding nullable collect_rows array_len

    pub array_row_to_value : ArrowArray F → ℕ → Result (Value F)
    array_row_to_value (boolean_array a) row = ok (nullable a row (λ b. bool b))
    array_row_to_value (int8_array a) row = ok (nullable a row (λ z. i64 z))
    array_row_to_value (int16_array a) row = ok (nullable a row (λ z. i64 z))
    array_row_to_value (int32_array a) row = ok (nullable a row (λ z. i64 z))
    array_row_to_value (int64_array a) row = ok (nullable a row (λ z. i64 z))
    array_row_to_value (uint8_array a) row = ok (nullable a row (λ n. u64 n))
    array_row_to_value (uint16_array a) row = ok (nullable a row (λ n. u64 n))
    array_row_to_value (uint32_array a) row = ok (nullable a row (λ n. u64 n))
    array_row_to_value (uint64_array a) row = ok (nullable a row (λ n. u64 n))
    array_row_to_value (float32_array a) row = ok (nullable a row (λ x. f64 x))
    array_row_to_value (float64_array a) row = ok (nullable a row (λ x. f64 x))
    array_row_to_value (utf8_array a) row = ok (nullable a row (λ s. str s))
    array_row_to_value (large_utf8_array a) row = ok (nullable a row (λ s. str s))
    array_row_to_value (utf8_view_array a) row = ok (nullable a row (λ s. str s))
    array_row_to_value (list_array n is_null value) row = elim (is_null row) [
      | true ↦ ok null
      | false ↦ do
        vs ← collect_rows (array_row_to_value (value row)) 0 (array_len (value row))
        ok (list vs)
    ]
    array_row_to_value (large_list_array n is_null value) row = elim (is_null row) [
      | true ↦ ok null
      | false ↦ do
        vs ← collect_rows (array_row_to_value (value row)) 0 (array_len (value row))
        ok (list vs)
    ]
    array_row_to_value (struct_array n is_null columns) row = elim (is_null row) [
      | true ↦ ok null
      | false ↦ do fields ← struct_row_to_fields columns row; ok (struct fields)
    ]
    array_row_to_value (other_array n dtype) row = err (unsupported_value dtype)

    -- The fields that `struct_row_to_value` collects.
    pub struct_row_to_fields : Columns F → ℕ → Result (Fields F)
    struct_row_to_fields no_columns row = ok no_fields
    struct_row_to_fields (column name a columns) row = do
      v ← array_row_to_value a row
      fields ← struct_row_to_fields columns row
      ok (field name v fields)

  unfoldable pub array_to_values : ArrowArray F → Result (Values F)
  unfolding array_row_to_value collect_rows array_len
  array_to_values a = collect_rows (array_row_to_value a) 0 (array_len a)

  unfoldable pub struct_row_to_value : Columns F → ℕ → Result (Value F)
  unfolding array_row_to_value
  struct_row_to_value columns row = do fields ← struct_row_to_fields columns row; ok (struct fields)

  unfoldable pub reader_of : String → ArrowArray F → Result (ColumnReader F)
  reader_of name (boolean_array a) = ok (bool_column a)
  reader_of name (int8_array a) = ok (i8_column a)
  reader_of name (int16_array a) = ok (i16_column a)
  reader_of name (int32_array a) = ok (i32_column a)
  reader_of name (int64_array a) = ok (i64_column a)
  reader_of name (uint8_array a) = ok (u8_column a)
  reader_of name (uint16_array a) = ok (u16_column a)
  reader_of name (uint32_array a) = ok (u32_column a)
  reader_of name (uint64_array a) = ok (u64_column a)
  reader_of name (float32_array a) = ok (f32_column a)
  reader_of name (float64_array a) = ok (f64_column a)
  reader_of name (utf8_array a) = ok (utf8_column a)
  reader_of name (large_utf8_array a) = ok (large_utf8_column a)
  reader_of name (utf8_view_array a) = ok (utf8_view_column a)
  reader_of name (list_array n is_null value) = ok (list_column n is_null value)
  reader_of name (large_list_array n is_null value) = ok (large_list_column n is_null value)
  reader_of name (struct_array n is_null columns) = ok (struct_column n is_null columns)
  reader_of name (other_array n dtype) = err (unsupported_column name)

  -- A record batch finds its columns by name.
  unfoldable pub bind : (String → Option (ArrowArray F)) → String → Result (ColumnReader F)
  unfolding reader_of
  bind batch name = do a ← or_err (batch name) (missing_column name); reader_of name a

  unfoldable pub value : ColumnReader F → ℕ → Result (Value F)
  unfolding nullable array_to_values struct_row_to_value
  value (bool_column a) row = ok (nullable a row (λ b. bool b))
  value (i8_column a) row = ok (nullable a row (λ z. i64 z))
  value (i16_column a) row = ok (nullable a row (λ z. i64 z))
  value (i32_column a) row = ok (nullable a row (λ z. i64 z))
  value (i64_column a) row = ok (nullable a row (λ z. i64 z))
  value (u8_column a) row = ok (nullable a row (λ n. u64 n))
  value (u16_column a) row = ok (nullable a row (λ n. u64 n))
  value (u32_column a) row = ok (nullable a row (λ n. u64 n))
  value (u64_column a) row = ok (nullable a row (λ n. u64 n))
  value (f32_column a) row = ok (nullable a row (λ x. f64 x))
  value (f64_column a) row = ok (nullable a row (λ x. f64 x))
  value (utf8_column a) row = ok (nullable a row (λ s. str s))
  value (large_utf8_column a) row = ok (nullable a row (λ s. str s))
  value (utf8_view_column a) row = ok (nullable a row (λ s. str s))
  value (list_column n is_null nested) row = elim (is_null row) [
    | true ↦ ok null
    | false ↦ do vs ← array_to_values (nested row); ok (list vs)
  ]
  value (large_list_column n is_null nested) row = elim (is_null row) [
    | true ↦ ok null
    | false ↦ do vs ← array_to_values (nested row); ok (list vs)
  ]
  value (struct_column n is_null columns) row = elim (is_null row) [
    | true ↦ ok null
    | false ↦ struct_row_to_value columns row
  ]

  -- The batches of a Polars list literal, decoded by the IPC reader: `none` ends the stream.
  unfoldable pub ipc_list_literal_to_value : Option (ℕ × List (ArrowArray F)) → Result (Value F)
  unfolding array_row_to_value collect_rows
  ipc_list_literal_to_value none = err empty_literal
  ipc_list_literal_to_value (some (num_rows, [])) = err (column_count 0)
  ipc_list_literal_to_value (some (num_rows, a ∷ [])) = do
    vs ← collect_rows (array_row_to_value a) 0 num_rows
    ok (list vs)
  ipc_list_literal_to_value (some (num_rows, a ∷ b ∷ rest)) =
      err (column_count (suc (suc (length rest))))
