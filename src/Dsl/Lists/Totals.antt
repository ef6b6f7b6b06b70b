-- ===== src/Dsl/Lists/Totals.antt =====
-- crates/rxgraph/src/dsl/ops/list.rs: sums, means, tests and counts. A sum of fewer than 2^63 values of
-- 64 bits stays within `i128`.
use rxgraph.Prelude.{ℕ, zero, suc, Bool, true, false, ◌||◌, List, [], ◌∷◌}
use rxgraph.Result.{Result, ok, err, ◌>>=◌, or_err, not_number, not_boolean_item}
use rxgraph.Dsl.Integer.{ℤ, pos, ◌+ℤ◌}
use rxgraph.Dsl.Float.{Float}
use rxgraph.Dsl.Arguments.{map_list, without_nulls, arg}
use rxgraph.Dsl.Scalar.{is_float, of_i128}
use rxgraph.Dsl.Value.{Value, null, bool, u64, f64, as_f64, as_i128, eq_value}

module _ {F : Type 0} where
  -- `sum as u64` or `sum as i64`.
  unfoldable pub float_or : Bool → Value F → Value F → Value F
  float_or true x n = x
  float_or false x n = n

  -- The value that ends `any` (true) or `all` (false) when it is met, and the answer at the end.
  unfoldable pub bool_from : Bool → Bool → Bool → List (Value F) → Result (Value F)
  bool_from ignore_nulls true saw_null [] = ok (elim saw_null [ true ↦ null | false ↦ bool false ])
  bool_from ignore_nulls false saw_null [] = ok (elim saw_null [ true ↦ null | false ↦ bool true ])
  bool_from ignore_nulls true saw_null (bool true ∷ vs) = ok (bool true)
  bool_from ignore_nulls true saw_null (bool false ∷ vs) = bool_from ignore_nulls true saw_null vs
  bool_from ignore_nulls false saw_null (bool true ∷ vs) = bool_from ignore_nulls false saw_null vs
  bool_from ignore_nulls false saw_null (bool false ∷ vs) = ok (bool false)
  bool_from true any saw_null (null ∷ vs) = bool_from true any saw_null vs
  bool_from false any saw_null (null ∷ vs) = bool_from false any true vs
  bool_from ignore_nulls any saw_null (v ∷ vs) = err not_boolean_item

  unfoldable pub aggregate_bool : List (Value F) → Bool → Bool → Result (Value F)
  unfolding map_list bool_from
  aggregate_bool args ignore_nulls any = map_list args (bool_from ignore_nulls any false)

module _ {F : Type 0} ⦃float : Float F⦄ where
  -- From the first float on, everything is added to the float sum.
  unfoldable pub sum_from : Bool → ℤ → F → List (Value F) → Result (Value F)
  unfolding float_or of_i128
  sum_from has_float int_sum float_sum [] =
      ok (float_or has_float (f64 (float.add float_sum (float.of_int int_sum))) (of_i128 int_sum))
  sum_from has_float int_sum float_sum (v ∷ vs) = elim (is_float v || has_float) [
    | true ↦ do x ← or_err (as_f64 v) not_number; sum_from true int_sum (float.add float_sum x) vs
    | false ↦ do z ← or_err (as_i128 v) not_number; sum_from false (int_sum +ℤ z) float_sum vs
  ]

  unfoldable pub aggregate_sum : List (Value F) → Result (Value F)
  unfolding map_list sum_from without_nulls
  aggregate_sum args =
      map_list args (λ values. sum_from false (pos 0) (float.of_int (pos 0)) (without_nulls values))

  unfoldable pub mean_from : F → ℕ → List (Value F) → Result (Value F)
  mean_from sum zero [] = ok null
  mean_from sum (suc n) [] = ok (f64 (float.div sum (float.of_int (pos (suc n)))))
  mean_from sum count (v ∷ vs) = do
    x ← or_err (as_f64 v) not_number
    mean_from (float.add sum x) (suc count) vs

  unfoldable pub aggregate_mean : List (Value F) → Result (Value F)
  unfolding map_list mean_from without_nulls
  aggregate_mean args =
      map_list args (λ values. mean_from (float.of_int (pos 0)) 0 (without_nulls values))

  unfoldable pub count_equal : Value F → List (Value F) → ℕ
  count_equal needle [] = 0
  count_equal needle (v ∷ vs) =
      let rest = count_equal needle vs in
      elim (eq_value v needle) [ true ↦ suc rest | false ↦ rest ]

  unfoldable pub count_matches : List (Value F) → Result (Value F)
  unfolding map_list arg count_equal
  count_matches args =
      map_list args λ values. do needle ← arg args 1; ok (u64 (count_equal needle values))
