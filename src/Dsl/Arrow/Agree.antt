-- ===== src/Dsl/Arrow/Agree.antt =====
-- crates/rxgraph/src/dsl/arrow_value.rs: a bound column beside the array that it is bound to.
use Prim.Native.String.{String}
use rxgraph.Prelude.{ℕ, ◌≡◌, refl, Option, some, none, Option-cases, inl, inr}
use rxgraph.Result.{ok, err, ok-injective, missing_column}
use rxgraph.Dsl.Arrow.{
  ArrowArray, other_array, ColumnReader, bind, value, array_row_to_value, reader_of,
}

module _ {F : Type 0} where
  -- The reader of an array, where it has one, gives the array's values.
  pub value-reader_of :
      (name : String) (a : ArrowArray F) {reader : ColumnReader F} (row : ℕ)
      → reader_of name a ≡ ok reader
      → value reader row ≡ array_row_to_value a row
  unfolding reader_of value array_row_to_value
  value-reader_of name (other_array n dtype) row e = absurd cc
  value-reader_of name a row e = rw (← ok-injective e) refl

  -- A column that binds is there, and every row of it reads as the row of the nested value that the
  -- batch's array holds, errors included.
  pub value-bind :
      (batch : String → Option (ArrowArray F)) (name : String) {reader : ColumnReader F}
      → bind batch name ≡ ok reader
      → (a : ArrowArray F) × (batch name ≡ some a)
        × ((row : ℕ) → value reader row ≡ array_row_to_value a row)
  unfolding bind
  value-bind batch name e = elim (Option-cases (batch name)) [
    | inl absent ↦ absurd (cc (lost absent))
    | inr present ↦
        let (a, found) = present in (a, found, λ row. value-reader_of name a row (rw found at e))
  ]
    where
      lost : batch name ≡ none → bind batch name ≡ err (missing_column name)
      lost absent = rw (bind, absent) refl
