-- ===== src/Dsl/Lists.antt =====
-- crates/rxgraph/src/dsl/ops/list.rs: the list operators. `eval` and `filter`, which evaluate
-- expressions, stand with the evaluator.
pub mod Access
pub mod Sorting
pub mod Distinct
pub mod Totals
use Prim.Native.Nat.{Ordering}
use Prim.Native.String.{String}
use rxgraph.Prelude.{ℕ, Bool, true, false, List, reverse, length}
use rxgraph.Result.{Result, ok, err, needs_expressions}
use rxgraph.Dsl.Float.{Float}
use rxgraph.Dsl.Arguments.{map_list, without_nulls}
use rxgraph.Dsl.Value.{Value, u64, list, of_list}
use rxgraph.Dsl.Lists.Access.{
  concat_values, get, slice, shift, gather_every, explode, to_struct, join,
}
use rxgraph.Dsl.Lists.Sorting.{sort, aggregate_order, aggregate_arg_order, aggregate_median}
use rxgraph.Dsl.Lists.Distinct.{SetOp, unique, set_operation, contains}
use rxgraph.Dsl.Lists.Totals.{aggregate_sum, aggregate_mean, aggregate_bool, count_matches}

pub data ListOp : Type 0 where
  concat_op len_op slice_op reverse_op unique_op drop_nulls_op : ListOp
  contains_op get_op : Bool → ListOp
  sort_op : Bool → Bool → ListOp
  sum_op min_op max_op arg_min_op arg_max_op mean_op median_op : ListOp
  any_op all_op : Bool → ListOp
  count_matches_op n_unique_op : ListOp
  join_op : Bool → ListOp
  shift_op gather_every_op : ListOp
  set_op : SetOp → ListOp
  eval_op filter_op : ListOp
  explode_op : Bool → Bool → ListOp
  to_struct_op : List String → ListOp

module _ {F : Type 0} ⦃float : Float F⦄ where
  unfoldable pub eval_list_op : ListOp → List (Value F) → Result (Value F)
  unfolding concat_values map_list get slice sort unique without_nulls aggregate_sum aggregate_order
      aggregate_arg_order aggregate_mean aggregate_median aggregate_bool count_matches join shift
      gather_every set_operation explode to_struct contains
  eval_list_op concat_op args = ok (list (of_list (concat_values args)))
  eval_list_op len_op args = map_list args (λ values. ok (u64 (length values)))
  eval_list_op (contains_op nulls_equal) args = contains args nulls_equal
  eval_list_op (get_op null_on_oob) args = get args null_on_oob
  eval_list_op slice_op args = slice args
  eval_list_op reverse_op args = map_list args (λ values. ok (list (of_list (reverse values))))
  eval_list_op (sort_op descending nulls_last) args = sort args descending nulls_last
  eval_list_op unique_op args = map_list args (λ values. ok (list (of_list (unique values))))
  eval_list_op drop_nulls_op args =
      map_list args (λ values. ok (list (of_list (without_nulls values))))
  eval_list_op sum_op args = aggregate_sum args
  eval_list_op min_op args = aggregate_order args Ordering.lt
  eval_list_op max_op args = aggregate_order args Ordering.gt
  eval_list_op arg_min_op args = aggregate_arg_order args Ordering.lt
  eval_list_op arg_max_op args = aggregate_arg_order args Ordering.gt
  eval_list_op mean_op args = aggregate_mean args
  eval_list_op median_op args = aggregate_median args
  eval_list_op (any_op ignore_nulls) args = aggregate_bool args ignore_nulls true
  eval_list_op (all_op ignore_nulls) args = aggregate_bool args ignore_nulls false
  eval_list_op count_matches_op args = count_matches args
  eval_list_op n_unique_op args = map_list args (λ values. ok (u64 (length (unique values))))
  eval_list_op (join_op ignore_nulls) args = join args ignore_nulls
  eval_list_op shift_op args = shift args
  eval_list_op gather_every_op args = gather_every args
  eval_list_op (set_op op) args = set_operation args op
  eval_list_op (explode_op empty_as_null keep_nulls) args = explode args empty_as_null keep_nulls
  eval_list_op (to_struct_op names) args = to_struct args names
  eval_list_op eval_op args = err needs_expressions
  eval_list_op filter_op args = err needs_expressions
