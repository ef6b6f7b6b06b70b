-- ===== src/Tests/Expressions.antt =====
-- The theorems on expressions, at a graph of two nodes whose floats are integers.
use Prim.Native.Nat.{Ordering, compare as compare_nat}
use Prim.Native.String.{String}
use mathlib.Core.List.{Perm}
use rxgraph.Prelude.{
  ℕ, ◌+◌, ◌-◌, ◌*◌, ◌≤◌, ◌<◌, ◌≡◌, refl, Bool, true, false, Option, none, some, List, [], ◌∷◌, ◌==◌,
  if◌then◌else◌, arith, take, drop, get_elem?,
}
use rxgraph.Prelude.Keys.{string_key}
use rxgraph.Result.{ok, Returns, ◌>>=◌, index, store}
use rxgraph.Graph.Identity.{u64_contiguous}
use rxgraph.Dsl.Integer.{ℤ, pos, negsuc, ◌+ℤ◌, ◌-ℤ◌, ◌*ℤ◌, word_64, half_64, wrap_i128, as_u64}
use rxgraph.Dsl.Float.{Float, flip_option}
use rxgraph.Dsl.Value.{
  Value, null, bool, i64, u64, f64, str, is_null, truthy, compare, as_f64, compare_numbers,
  field_lookup, find_field,
}
use rxgraph.Dsl.Value.StructEq.{field_lookup_lem}
use rxgraph.Dsl.Scalar.{gt, lt, plus, minus, equals, eval_scalar}
use rxgraph.Dsl.Scalar.Integers.{plus-minus}
use rxgraph.Dsl.Arrow.{
  ArrowArray, Primitive, uint64_array, utf8_array, u64_column, utf8_column, bind, value, reader_of,
  nullable, array_row_to_value,
}
use rxgraph.Dsl.Arrow.Agree.{value-bind}
use rxgraph.Dsl.Column.{
  is_comparison, scalar_value, nullable_ref, number_ref, eval_ref, eval_scalar_literal,
}
use rxgraph.Dsl.Column.FastPath.{eval_scalar_literal_lem}
use rxgraph.Dsl.Lists.Access.{slice_values, gather_from}
use rxgraph.Dsl.Lists.Access.Windows.{slice_values_lem}
use rxgraph.Dsl.Lists.Access.Steps.{gather_from_lem, gather_from_wraps}
use rxgraph.Dsl.Lists.Distinct.{unique, unique_slow, set_values, slow_set, symmetric_difference}
use rxgraph.Dsl.Lists.Distinct.Keyed.{unique-unique_slow}
use rxgraph.Dsl.Lists.Distinct.Sets.{set_values-slow_set}
use rxgraph.Dsl.Lists.Sorting.{insert_by, sort_by, sort_order, sort_values, validate_sortable}
use rxgraph.Dsl.Lists.Sorting.Sorted.{IsSorted, sort_values_lem}
use rxgraph.Dsl.Expr.{
  Expr, column, literal, scalar, no_exprs, expr, expr_count, try_map_column, ColumnRef, src_field,
  dest_field,
}
use rxgraph.Dsl.Bound.{
  BoundColumn, src, dest, EvalCtx, inline, context, state_value, column_value, column_literal,
}
use rxgraph.Dsl.Eval.{
  column_expr, literal_expr, pair_literal, fast_args, try_eval_scalar_fast_path, eval_with, eval,
}
use rxgraph.Dsl.Eval.Plain.{decline, eval-plain}
use rxgraph.Dsl.Expr.Shape.{WellFormed}
use rxgraph.Dsl.Expr.Build
use rxgraph.Dsl.Bind.{
  PayloadGraph, DslKernel, BoundKernel, bind_kernel, transition, eval_test, next_state_from,
  bind_entry, bind_column, state_names, state_index, normalize_state, dedup, keys, entry_value,
  value_or_null, bound_state, new_kernel,
}
use rxgraph.Dsl.Search.{binary_search_by, narrow, compares}
use rxgraph.Dsl.Bind.Names.{Settles, bind_kernel-Settles}
use rxgraph.Dsl.Bind.States.{IsUpdate, outcome, transition_lem}

unfoldable pub eq_int : ℤ → ℤ → Bool
eq_int (pos a) (pos b) = a == b
eq_int (negsuc a) (negsuc b) = a == b
eq_int _ _ = false

unfoldable pub order_int : ℤ → ℤ → Ordering
order_int (pos a) (pos b) = compare_nat a b
order_int (negsuc a) (negsuc b) = compare_nat b a
order_int (pos a) (negsuc b) = Ordering.gt
order_int (negsuc a) (pos b) = Ordering.lt

unfoldable pub code : ℤ → ℕ
code (pos a) = 2 * a
code (negsuc a) = 2 * a + 1

pub eq_int_sym : (a b : ℤ) → eq_int a b ≡ eq_int b a
unfolding eq_int
eq_int_sym (pos a) (pos b) = ground arith
eq_int_sym (negsuc a) (negsuc b) = ground arith
eq_int_sym (pos a) (negsuc b) = refl
eq_int_sym (negsuc a) (pos b) = refl

pub order_int-flip : (a b : ℤ) → some (order_int b a) ≡ flip_option (some (order_int a b))
unfolding order_int
order_int-flip (pos a) (pos b) = ground arith
order_int-flip (negsuc a) (negsuc b) = ground arith
order_int-flip (pos a) (negsuc b) = refl
order_int-flip (negsuc a) (pos b) = refl

pub code-zero :
    (a b : ℤ)
    → false ≡ false
    → false ≡ false
    → (code (if eq_int a (pos 0) then pos 0 else a) == code (if eq_int b (pos 0) then pos 0 else b))
      ≡ eq_int a b
unfolding code eq_int
code-zero (pos a) (pos b) h k = ground arith
code-zero (negsuc a) (negsuc b) h k = ground arith
code-zero (pos a) (negsuc b) h k = ground arith
code-zero (negsuc a) (pos b) h k = ground arith

instance abbrev pub exact_float : Float ℤ
exact_float = record {
  of_int = λ z. z;
  feq = eq_int;
  partial_cmp = λ a b. some (order_int a b);
  add = λ a b. a +ℤ b;
  sub = λ a b. a -ℤ b;
  mul = λ a b. a *ℤ b;
  div = λ a b. a;
  is_nan = λ a. false;
  to_bits = code;
  show_int = λ z. "";
  show = λ z. "";
  show_json = λ j. "";
  is_finite = λ a. true;
  select_nth = λ cmp mid values. sort_by cmp values;
  feq_sym = eq_int_sym;
  partial_cmp-flip = order_int-flip;
  to_bits-zero = code-zero;
}

-- A table of two rows: a weight, null in the second row, and a tag.
abbrev pub weights : Primitive ℕ
weights = record { len = 2; is_null = λ row. row == 1; value = λ row. 7 }

abbrev pub tags : Primitive String
tags = record { len = 2; is_null = λ row. false; value = λ row. "red" }

unfoldable pub columns : String → Option (ArrowArray ℤ)
columns name =
    if string_key.beq name "weight"
    then some (uint64_array weights)
    else if string_key.beq name "tag"
    then some (utf8_array tags)
    else none

abbrev numbers : List (Value ℤ)
numbers = u64 3 ∷ i64 (pos 3) ∷ f64 (pos 4) ∷ u64 3 ∷ []

unfoldable pub run : Unit {0}
unfolding binary_search_by narrow compares value_or_null bind_kernel bind_entry bind_column
    state_names state_index normalize_state dedup keys insert_by entry_value bound_state state_value
    try_map_column new_kernel Build.gt Build.lit Build.src columns bind reader_of value nullable
    eval decline eval_with try_eval_scalar_fast_path fast_args pair_literal column_expr literal_expr
    column_literal eval_scalar_literal scalar_value nullable_ref eval_ref is_comparison expr_count
    WellFormed eval_scalar column_value eq_int order_int code context transition eval_test
    next_state_from outcome is_null index store wrap_i128 ◌+ℤ◌ as_u64 truthy sort_values
    validate_sortable sort_by sort_order compare as_f64 compare_numbers
run = tt

weight_bound : bind columns "weight" ≡ ok (u64_column weights)
unfolding run
weight_bound = refl

weight_read : scalar_value (u64_column weights) 0 ≡ some (number_ref (pos 7))
unfolding run
weight_read = refl

lt_comparison : is_comparison lt ≡ true
unfolding run
lt_comparison = refl

sorted : sort_values {F = ℤ} false true (u64 5 ∷ null ∷ u64 2 ∷ []) ≡ ok (u64 2 ∷ u64 5 ∷ null ∷ [])
unfolding run
sorted = refl

value-bind_example :
    (a : ArrowArray ℤ) × (columns "weight" ≡ some a)
    × ((row : ℕ) → value (u64_column weights) row ≡ array_row_to_value a row)
value-bind_example = value-bind columns "weight" weight_bound

-- `src.weight > 5`.
abbrev heavy : Expr ℤ (BoundColumn ℤ)
heavy = scalar gt (expr (column (src (u64_column weights))) (expr (literal (i64 (pos 5))) no_exprs))

abbrev edge_0 : EvalCtx ℤ
edge_0 = context (u64_contiguous 2 1) 0 1 0 (inline (u64 1) ∷ [])

eval-heavy : eval heavy edge_0 ≡ ok (bool true)
unfolding run
eval-heavy = refl

eval-plain_example : eval heavy edge_0 ≡ eval_with decline heavy edge_0
unfolding run
eval-plain_example = eval-plain heavy edge_0 ((λ h. refl), (tt, (tt, tt)))

eval_scalar_literal_example :
    (eval_scalar_literal {F = ℤ} (u64_column weights) 0 lt (i64 (pos 9)) false ≡ (do
      v ← value (u64_column weights) 0
      w ← eval_scalar lt (v ∷ i64 (pos 9) ∷ [])
      ok (some w)))
    × (eval_scalar_literal {F = ℤ} (u64_column weights) 0 lt (i64 (pos 9)) true ≡ (do
      v ← value (u64_column weights) 0
      w ← eval_scalar lt (i64 (pos 9) ∷ v ∷ [])
      ok (some w)))
eval_scalar_literal_example =
    eval_scalar_literal_lem (u64_column weights) 0 lt (i64 (pos 9)) weight_read lt_comparison

unique_example : unique numbers ≡ unique_slow numbers
unique_example = unique-unique_slow numbers

set_values_example :
    set_values numbers (u64 4 ∷ null ∷ []) symmetric_difference
    ≡ slow_set symmetric_difference (unique_slow numbers) (unique_slow (u64 4 ∷ null ∷ []))
set_values_example = set_values-slow_set numbers (u64 4 ∷ null ∷ []) symmetric_difference

sort_values_example :
    Perm {A = Value ℤ} (u64 2 ∷ u64 5 ∷ null ∷ []) (u64 5 ∷ null ∷ u64 2 ∷ [])
    × IsSorted {F = ℤ} false true (u64 2 ∷ u64 5 ∷ null ∷ [])
sort_values_example = sort_values_lem false true (u64 5 ∷ null ∷ u64 2 ∷ []) sorted

slice_values_example : slice_values numbers (negsuc 1) (pos 2) ≡ ok (take 2 (drop 2 numbers))
slice_values_example =
    slice_values_lem numbers (negsuc 1) (pos 2) (omega arith) (omega arith) (omega arith)

gather_from_example :
    Returns
      (gather_from 5 numbers 2 1)
      (λ out. (k : ℕ) → get_elem? out k ≡ get_elem? numbers (1 + k * 2))
gather_from_example =
    gather_from_lem numbers (omega arith) 2 (omega arith) 5 1 (omega arith) (omega arith)
      (omega arith)

gather_from_wraps_example :
    gather_from {F = ℤ} 3 (u64 3 ∷ u64 4 ∷ []) (word_64 - 1) 1 ≡ ok (u64 4 ∷ u64 3 ∷ [])
gather_from_wraps_example = gather_from_wraps (u64 3) (u64 4) [] (omega arith)

plus-minus_example :
    (eval_scalar {F = ℤ} plus (u64 7 ∷ u64 9 ∷ []) ≡ ok (u64 16))
    × (9 ≤ 7 → eval_scalar {F = ℤ} minus (u64 7 ∷ u64 9 ∷ []) ≡ ok (u64 0))
    × (7 < 9 → 2 ≤ half_64 → eval_scalar {F = ℤ} minus (u64 7 ∷ u64 9 ∷ []) ≡ ok (i64 (negsuc 1)))
plus-minus_example = plus-minus 7 9 (omega arith) (omega arith)

field_lookup_example :
    field_lookup {F = ℤ} (("a", u64 1) ∷ ("a", u64 2) ∷ []) "a"
    ≡ find_field (("a", u64 1) ∷ ("a", u64 2) ∷ []) "a"
field_lookup_example = field_lookup_lem (("a", u64 1) ∷ ("a", u64 2) ∷ []) "a"

-- `visit: src.weight > 5`, `total: state.total + 1`, `stop: dest.tag == "red"`.
abbrev pub payload : PayloadGraph ℤ
payload = record { identity = u64_contiguous 2 1; nodes = columns; edges = λ name. none }

abbrev pub kernel : DslKernel ℤ
kernel = record {
  visit = scalar gt (expr (column (src_field "weight")) (expr (literal (i64 (pos 5))) no_exprs));
  next_state =
      (
        "total",
        scalar plus (expr (column (ColumnRef.state "total")) (expr (literal (u64 1)) no_exprs)),
      )
      ∷ [];
  stop = scalar equals (expr (column (dest_field "tag")) (expr (literal (str "red")) no_exprs));
  initial_state = ("total", u64 0) ∷ [];
}

bind_kernel_example : Settles (bind_kernel payload kernel)
bind_kernel_example = bind_kernel-Settles payload kernel

abbrev bound_kernel : BoundKernel ℤ
bound_kernel = record {
  visit = heavy;
  next_state =
      (0, scalar plus (expr (column (BoundColumn.state 0)) (expr (literal (u64 1)) no_exprs))) ∷ [];
  stop =
      scalar equals (expr (column (dest (utf8_column tags))) (expr (literal (str "red")) no_exprs));
  names = "total" ∷ [];
  initial_state = inline (u64 0) ∷ [];
}

completed :
    transition bound_kernel (u64_contiguous 2 1) 0 1 0 (inline (u64 0) ∷ [])
    ≡ ok (outcome true (inline (u64 1) ∷ []))
unfolding run
completed = refl

transition_example :
    (eval_test heavy (context (u64_contiguous 2 1) 0 1 0 (inline (u64 0) ∷ [])) ≡ ok true)
    × IsUpdate bound_kernel.next_state
        (inline (u64 0) ∷ [])
        (inline (u64 1) ∷ [])
        (context (u64_contiguous 2 1) 0 1 0 (inline (u64 0) ∷ []))
    × (eval_test bound_kernel.stop (context (u64_contiguous 2 1) 0 1 0 (inline (u64 1) ∷ []))
        ≡ ok true)
transition_example =
    transition_lem bound_kernel (u64_contiguous 2 1) 0 1 0 (inline (u64 0) ∷ [])
      (inline (u64 1) ∷ []) true completed

kernel_bound : bind_kernel payload kernel ≡ ok bound_kernel
unfolding run
kernel_bound = refl
