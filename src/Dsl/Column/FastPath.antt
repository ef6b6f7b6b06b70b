-- ===== src/Dsl/Column/FastPath.antt =====
-- crates/rxgraph/src/dsl/arrow_value.rs: `eval_scalar_literal` beside the operators on values.
use rxgraph.Prelude.{
  ℕ, ◌≡◌, refl, ap, true, false, some, [], ◌∷◌, Bool-cases, inl, inr, some-injective,
}
use rxgraph.Prelude.Keys.{string_key}
use rxgraph.Result.{ok, ◌>>=◌}
use rxgraph.Dsl.Integer.{ℤ, pos}
use rxgraph.Dsl.Float.{Float}
use rxgraph.Dsl.Value.{Value, bool, i64, u64, f64, str, as_f64}
use rxgraph.Dsl.Scalar.{ScalarOp, eval_scalar}
use rxgraph.Dsl.Arrow.{
  ColumnReader, Primitive, nullable, bool_column, i8_column, i16_column, i32_column, i64_column,
  u8_column, u16_column, u32_column, u64_column, f32_column, f64_column, utf8_column,
  large_utf8_column, utf8_view_column, value,
}
use rxgraph.Dsl.Column.{
  is_comparison, ScalarValueRef, bool_ref, number_ref, str_ref, eval_ref, nullable_ref,
  scalar_value, eval_scalar_literal,
}
use rxgraph.Dsl.Column.Agree.{Agrees, null-Agrees, bool-Agrees, str-Agrees, number-Agrees}

module _ {F : Type 0} ⦃float : Float F⦄ where
  -- A reference that a column gives is to the value that it gives.
  Faithful : ColumnReader F → ℕ → ScalarValueRef F → Type 0
  Faithful reader row r =
      (v : Value F) × (value reader row ≡ ok v)
      × ((literal : Value F) (op : ScalarOp) → is_comparison op ≡ true → Agrees v r literal op)

  nullable-Agrees :
      {X : Type 0} (a : Primitive X) (row : ℕ) (wrap : X → Value F) (refer : X → ScalarValueRef F)
      → ((x : X) (literal : Value F) (op : ScalarOp)
          → is_comparison op ≡ true
          → Agrees (wrap x) (refer x) literal op)
      → (literal : Value F) (op : ScalarOp) → is_comparison op ≡ true
      → Agrees (nullable a row wrap) (nullable_ref a row refer) literal op
  unfolding nullable nullable_ref eval_ref eval_scalar
  nullable-Agrees a row wrap refer each literal op h = elim (Bool-cases (a.is_null row)) [
    | inl e ↦ rw (nullable, nullable_ref, e) (null-Agrees literal op h)
    | inr e ↦ rw (nullable, nullable_ref, e) (each (a.value row) literal op h)
  ]

  reads :
      {X : Type 0} (a : Primitive X) (reader : ColumnReader F) (row : ℕ) {r : ScalarValueRef F}
      (wrap : X → Value F) (refer : X → ScalarValueRef F)
      → value reader row ≡ ok (nullable a row wrap)
      → ((x : X) (literal : Value F) (op : ScalarOp)
          → is_comparison op ≡ true
          → Agrees (wrap x) (refer x) literal op)
      → some (nullable_ref a row refer) ≡ some r
      → Faithful reader row r
  unfolding Faithful
  reads a reader row wrap refer v each e =
      (nullable a row wrap, v, rw (← some-injective e) (nullable-Agrees a row wrap refer each))

  i64-Agrees :
      (z : ℤ) (literal : Value F) (op : ScalarOp)
      → is_comparison op ≡ true
      → Agrees (i64 z) (number_ref (float.of_int z)) literal op
  unfolding as_f64
  i64-Agrees z literal = number-Agrees (i64 z) literal refl

  u64-Agrees :
      (n : ℕ) (literal : Value F) (op : ScalarOp)
      → is_comparison op ≡ true
      → Agrees (u64 n) (number_ref (float.of_int (pos n))) literal op
  unfolding as_f64
  u64-Agrees n literal = number-Agrees (u64 n) literal refl

  f64-Agrees :
      (x : F) (literal : Value F) (op : ScalarOp)
      → is_comparison op ≡ true
      → Agrees (f64 x) (number_ref x) literal op
  unfolding as_f64
  f64-Agrees x literal = number-Agrees (f64 x) literal refl

  scalar_value-Faithful :
      (reader : ColumnReader F) (row : ℕ) {r : ScalarValueRef F}
      → scalar_value reader row ≡ some r
      → Faithful reader row r
  unfolding scalar_value value
  scalar_value-Faithful (bool_column a) row =
      reads a (bool_column a) row (λ b. bool b) (λ b. bool_ref b) refl bool-Agrees
  scalar_value-Faithful (i8_column a) row =
      reads a (i8_column a) row (λ z. i64 z) (λ z. number_ref (float.of_int z)) refl i64-Agrees
  scalar_value-Faithful (i16_column a) row =
      reads a (i16_column a) row (λ z. i64 z) (λ z. number_ref (float.of_int z)) refl i64-Agrees
  scalar_value-Faithful (i32_column a) row =
      reads a (i32_column a) row (λ z. i64 z) (λ z. number_ref (float.of_int z)) refl i64-Agrees
  scalar_value-Faithful (i64_column a) row =
      reads a (i64_column a) row (λ z. i64 z) (λ z. number_ref (float.of_int z)) refl i64-Agrees
  scalar_value-Faithful (u8_column a) row =
      reads a (u8_column a) row (λ n. u64 n) (λ n. number_ref (float.of_int (pos n))) refl
        u64-Agrees
  scalar_value-Faithful (u16_column a) row =
      reads a (u16_column a) row (λ n. u64 n) (λ n. number_ref (float.of_int (pos n))) refl
        u64-Agrees
  scalar_value-Faithful (u32_column a) row =
      reads a (u32_column a) row (λ n. u64 n) (λ n. number_ref (float.of_int (pos n))) refl
        u64-Agrees
  scalar_value-Faithful (u64_column a) row =
      reads a (u64_column a) row (λ n. u64 n) (λ n. number_ref (float.of_int (pos n))) refl
        u64-Agrees
  scalar_value-Faithful (f32_column a) row =
      reads a (f32_column a) row (λ x. f64 x) (λ x. number_ref x) refl f64-Agrees
  scalar_value-Faithful (f64_column a) row =
      reads a (f64_column a) row (λ x. f64 x) (λ x. number_ref x) refl f64-Agrees
  scalar_value-Faithful (utf8_column a) row =
      reads a (utf8_column a) row (λ s. str s) (λ s. str_ref s) refl str-Agrees
  scalar_value-Faithful (large_utf8_column a) row =
      reads a (large_utf8_column a) row (λ s. str s) (λ s. str_ref s) refl str-Agrees
  scalar_value-Faithful (utf8_view_column a) row =
      reads a (utf8_view_column a) row (λ s. str s) (λ s. str_ref s) refl str-Agrees
  scalar_value-Faithful reader row = λ e. absurd cc

  -- For each of the six comparisons, a column of scalars gives with the literal, on its right or on
  -- its left, what the operator gives on the boxed values, null rows and errors included.
  pub eval_scalar_literal_lem :
      (reader : ColumnReader F) (row : ℕ) {r : ScalarValueRef F} (op : ScalarOp) (literal : Value F)
      → scalar_value reader row ≡ some r
      → is_comparison op ≡ true
      → (eval_scalar_literal reader row op literal false
          ≡ (do v ← value reader row; w ← eval_scalar op (v ∷ literal ∷ []); ok (some w)))
        × (eval_scalar_literal reader row op literal true
            ≡ (do v ← value reader row; w ← eval_scalar op (literal ∷ v ∷ []); ok (some w)))
  unfolding eval_scalar_literal Faithful
  eval_scalar_literal_lem reader row op literal e h =
      let (v, found, agrees) = scalar_value-Faithful reader row e in
      let (forward, backward) = agrees literal op h in
      (
        rw (eval_scalar_literal, e, found) (ap (λ m. do w ← m; ok (some w)) forward),
        rw (eval_scalar_literal, e, found) (ap (λ m. do w ← m; ok (some w)) backward),
      )
