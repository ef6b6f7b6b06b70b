-- ===== src/Dsl/Column.antt =====
-- crates/rxgraph/src/dsl/arrow_value.rs: comparison of a column's scalar with a literal, with no
-- value built. `unreachable!` on another operator is a panic.
pub mod Order
mod Agree
pub mod FastPath
use Prim.Native.Nat.{Ordering}
use Prim.Native.String.{String, compare as compare_str}
use rxgraph.Prelude.{ℕ, Bool, true, false, not, Option, none, some}
use rxgraph.Prelude.Keys.{string_key}
use rxgraph.Result.{Result, ok, err, panic, ◌>>=◌, or_err, incomparable}
use rxgraph.Dsl.Integer.{ℤ, pos}
use rxgraph.Dsl.Float.{Float, flip}
use rxgraph.Dsl.Value.{Value, null, bool, str, is_null, as_f64, compare_bool, eq_bool}
use rxgraph.Dsl.Scalar.{ScalarOp, equals, not_eq, lt, lt_eq, gt, gt_eq, is_lt, is_le, is_gt, is_ge}
use rxgraph.Dsl.Arrow.{
  Primitive, ColumnReader, bool_column, i8_column, i16_column, i32_column, i64_column, u8_column,
  u16_column, u32_column, u64_column, f32_column, f64_column, utf8_column, large_utf8_column,
  utf8_view_column,
}

-- The six operators that the fast path takes.
unfoldable pub is_comparison : ScalarOp → Bool
is_comparison equals = true
is_comparison not_eq = true
is_comparison lt = true
is_comparison lt_eq = true
is_comparison gt = true
is_comparison gt_eq = true
is_comparison _ = false

pub data ScalarValueRef (F : Type 0) : Type 0 where
  null_ref : ScalarValueRef F
  bool_ref : Bool → ScalarValueRef F
  number_ref : F → ScalarValueRef F
  str_ref : String → ScalarValueRef F

unfoldable pub ordering_test : ScalarOp → Ordering → Result Bool
unfolding is_lt is_le is_gt is_ge
ordering_test lt ordering = ok (is_lt ordering)
ordering_test lt_eq ordering = ok (is_le ordering)
ordering_test gt ordering = ok (is_gt ordering)
ordering_test gt_eq ordering = ok (is_ge ordering)
ordering_test _ ordering = panic

unfoldable pub apply_ordering : ScalarOp → Ordering → Bool → Result Bool
unfolding ordering_test
apply_ordering op ordering reverse =
    ordering_test op (elim reverse [ true ↦ flip ordering | false ↦ ordering ])

module _ {F : Type 0} where
  unfoldable pub nullable_ref :
      {X : Type 0} → Primitive X → ℕ → (X → ScalarValueRef F) → ScalarValueRef F
  nullable_ref a row wrap = elim (a.is_null row) [ true ↦ null_ref | false ↦ wrap (a.value row) ]

  unfoldable pub eval_null_literal : ScalarOp → Value F → Result (Value F)
  eval_null_literal equals literal = ok (bool (is_null literal))
  eval_null_literal not_eq literal = ok (bool (not (is_null literal)))
  eval_null_literal lt literal = ok null
  eval_null_literal lt_eq literal = ok null
  eval_null_literal gt literal = ok null
  eval_null_literal gt_eq literal = ok null
  eval_null_literal _ literal = panic

  unfoldable pub eval_non_null_null_literal : ScalarOp → Result (Value F)
  eval_non_null_null_literal equals = ok (bool false)
  eval_non_null_null_literal not_eq = ok (bool true)
  eval_non_null_null_literal lt = ok null
  eval_non_null_null_literal lt_eq = ok null
  eval_non_null_null_literal gt = ok null
  eval_non_null_null_literal gt_eq = ok null
  eval_non_null_null_literal _ = panic

  unfoldable pub eval_incomparable_literal : ScalarOp → Result (Value F)
  eval_incomparable_literal equals = ok (bool false)
  eval_incomparable_literal not_eq = ok (bool true)
  eval_incomparable_literal lt = err incomparable
  eval_incomparable_literal lt_eq = err incomparable
  eval_incomparable_literal gt = err incomparable
  eval_incomparable_literal gt_eq = err incomparable
  eval_incomparable_literal _ = panic

  unfoldable pub eval_ordering_or_eq : ScalarOp → Bool → Ordering → Bool → Result (Value F)
  unfolding apply_ordering
  eval_ordering_or_eq equals equal ordering reverse = ok (bool equal)
  eval_ordering_or_eq not_eq equal ordering reverse = ok (bool (not equal))
  eval_ordering_or_eq op equal ordering reverse = do
    b ← apply_ordering op ordering reverse
    ok (bool b)

  unfoldable pub literal_bool : Value F → Option Bool
  literal_bool (bool b) = some b
  literal_bool _ = none

  unfoldable pub literal_str : Value F → Option String
  literal_str (str s) = some s
  literal_str _ = none

  unfoldable pub eval_bool_literal : Bool → ScalarOp → Value F → Bool → Result (Value F)
  unfolding eval_non_null_null_literal eval_incomparable_literal eval_ordering_or_eq literal_bool
  eval_bool_literal v op literal reverse = elim (is_null literal) [
    | true ↦ eval_non_null_null_literal op
    | false ↦ elim (literal_bool literal) [
      | none ↦ eval_incomparable_literal op
      | some rhs ↦ eval_ordering_or_eq op (eq_bool v rhs) (compare_bool v rhs) reverse
    ]
  ]

  unfoldable pub eval_str_literal : String → ScalarOp → Value F → Bool → Result (Value F)
  unfolding eval_non_null_null_literal eval_incomparable_literal eval_ordering_or_eq literal_str
  eval_str_literal v op literal reverse = elim (is_null literal) [
    | true ↦ eval_non_null_null_literal op
    | false ↦ elim (literal_str literal) [
      | none ↦ eval_incomparable_literal op
      | some rhs ↦ eval_ordering_or_eq op (string_key.beq v rhs) (compare_str v rhs) reverse
    ]
  ]

module _ {F : Type 0} ⦃float : Float F⦄ where
  -- Floats compare by `partial_cmp`, which may give nothing.
  unfoldable pub eval_numbers : F → ScalarOp → F → Bool → Result (Value F)
  unfolding apply_ordering
  eval_numbers v equals rhs reverse = ok (bool (float.feq v rhs))
  eval_numbers v not_eq rhs reverse = ok (bool (not (float.feq v rhs)))
  eval_numbers v op rhs reverse = do
    ordering ← or_err (float.partial_cmp v rhs) incomparable
    b ← apply_ordering op ordering reverse
    ok (bool b)

  unfoldable pub eval_number_literal : F → ScalarOp → Value F → Bool → Result (Value F)
  unfolding eval_non_null_null_literal eval_incomparable_literal eval_numbers
  eval_number_literal v op literal reverse = elim (is_null literal) [
    | true ↦ eval_non_null_null_literal op
    | false ↦ elim (as_f64 literal) [
      | none ↦ eval_incomparable_literal op
      | some rhs ↦ eval_numbers v op rhs reverse
    ]
  ]

  unfoldable pub scalar_value : ColumnReader F → ℕ → Option (ScalarValueRef F)
  unfolding nullable_ref
  scalar_value (bool_column a) row = some (nullable_ref a row (λ b. bool_ref b))
  scalar_value (i8_column a) row = some (nullable_ref a row (λ z. number_ref (float.of_int z)))
  scalar_value (i16_column a) row = some (nullable_ref a row (λ z. number_ref (float.of_int z)))
  scalar_value (i32_column a) row = some (nullable_ref a row (λ z. number_ref (float.of_int z)))
  scalar_value (i64_column a) row = some (nullable_ref a row (λ z. number_ref (float.of_int z)))
  scalar_value (u8_column a) row =
      some (nullable_ref a row (λ n. number_ref (float.of_int (pos n))))
  scalar_value (u16_column a) row =
      some (nullable_ref a row (λ n. number_ref (float.of_int (pos n))))
  scalar_value (u32_column a) row =
      some (nullable_ref a row (λ n. number_ref (float.of_int (pos n))))
  scalar_value (u64_column a) row =
      some (nullable_ref a row (λ n. number_ref (float.of_int (pos n))))
  scalar_value (f32_column a) row = some (nullable_ref a row (λ x. number_ref x))
  scalar_value (f64_column a) row = some (nullable_ref a row (λ x. number_ref x))
  scalar_value (utf8_column a) row = some (nullable_ref a row (λ s. str_ref s))
  scalar_value (large_utf8_column a) row = some (nullable_ref a row (λ s. str_ref s))
  scalar_value (utf8_view_column a) row = some (nullable_ref a row (λ s. str_ref s))
  scalar_value _ row = none

  unfoldable pub eval_ref : ScalarValueRef F → ScalarOp → Value F → Bool → Result (Value F)
  unfolding eval_null_literal eval_bool_literal eval_number_literal eval_str_literal
  eval_ref null_ref op literal reverse = eval_null_literal op literal
  eval_ref (bool_ref b) op literal reverse = eval_bool_literal b op literal reverse
  eval_ref (number_ref x) op literal reverse = eval_number_literal x op literal reverse
  eval_ref (str_ref s) op literal reverse = eval_str_literal s op literal reverse

  unfoldable pub eval_scalar_literal :
      ColumnReader F → ℕ → ScalarOp → Value F → Bool → Result (Option (Value F))
  unfolding scalar_value eval_ref
  eval_scalar_literal reader row op literal reverse = elim (scalar_value reader row) [
    | none ↦ ok none
    | some v ↦ do result ← eval_ref v op literal reverse; ok (some result)
  ]
