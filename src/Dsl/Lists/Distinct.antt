-- ===== src/Dsl/Lists/Distinct.antt =====
-- crates/rxgraph/src/dsl/ops/list.rs: distinct values and sets. Where every value has a scalar key, a
-- hash set of keys takes the place of comparisons. A `HashSet` is the list of its keys.
pub mod Keyed
pub mod Sets
use Prim.Native.String.{String}
use rxgraph.Prelude.{
  ℕ, ◌==◌, Bool, true, false, not, ◌&&◌, ◌||◌, Option, none, some, List, [], ◌∷◌, ◌++◌,
  if◌then◌else◌,
}
use rxgraph.Prelude.Keys.{string_key}
use rxgraph.Result.{Result, ok, err, panic, out_of_fuel, ◌>>=◌}
use rxgraph.Dsl.Float.{Float}
use rxgraph.Dsl.Integer.{pos}
use rxgraph.Dsl.Arguments.{arg, list_arg, map_list, unless_null}
use rxgraph.Dsl.Value.{Value, null, bool, str, list, is_null, of_list, eq_value, eq_bool, as_f64}

pub data SetOp : Type 0 where
  union intersection difference symmetric_difference : SetOp

pub data ScalarKey : Type 0 where
  null_key : ScalarKey
  bool_key : Bool → ScalarKey
  number_key : ℕ → ScalarKey
  str_key : String → ScalarKey

unfoldable pub eq_key : ScalarKey → ScalarKey → Bool
unfolding eq_bool
eq_key null_key null_key = true
eq_key (bool_key a) (bool_key b) = eq_bool a b
eq_key (number_key m) (number_key n) = m == n
eq_key (str_key s) (str_key t) = string_key.beq s t
eq_key _ _ = false

unfoldable pub has_key : List ScalarKey → ScalarKey → Bool
unfolding eq_key
has_key [] key = false
has_key (k ∷ ks) key = eq_key k key || has_key ks key

module _ {F : Type 0} where
  unfoldable pub filter_values : (Value F → Bool) → List (Value F) → List (Value F)
  filter_values test [] = []
  filter_values test (v ∷ vs) =
      let rest = filter_values test vs in elim (test v) [ true ↦ v ∷ rest | false ↦ rest ]

  -- The values whose key was not seen before.
  unfoldable pub unique_by_scalar_key : List ScalarKey → List (ScalarKey × Value F) → List (Value F)
  unfolding has_key
  unique_by_scalar_key seen [] = []
  unique_by_scalar_key seen ((key, v) ∷ keyed) = elim (has_key seen key) [
    | true ↦ unique_by_scalar_key seen keyed
    | false ↦ v ∷ unique_by_scalar_key (key ∷ seen) keyed
  ]

  unfoldable pub keys_of : List (ScalarKey × Value F) → List ScalarKey
  keys_of [] = []
  keys_of ((key, v) ∷ keyed) = key ∷ keys_of keyed

  unfoldable pub keyed_filter : (ScalarKey → Bool) → List (ScalarKey × Value F) → List (Value F)
  keyed_filter test [] = []
  keyed_filter test ((key, v) ∷ keyed) =
      let rest = keyed_filter test keyed in elim (test key) [ true ↦ v ∷ rest | false ↦ rest ]

module _ {F : Type 0} ⦃float : Float F⦄ where
  -- Both zeros become one.
  unfoldable pub normal : F → F
  normal x = if float.feq x (float.of_int (pos 0)) then float.of_int (pos 0) else x

  unfoldable pub number_bits : F → Option ScalarKey
  unfolding normal
  number_bits x = elim (float.is_nan x) [
    | true ↦ none
    | false ↦ some (number_key (float.to_bits (normal x)))
  ]

  unfoldable pub key_of_number : Option F → Option ScalarKey
  unfolding number_bits
  key_of_number none = none
  key_of_number (some x) = number_bits x

  unfoldable pub scalar_key : Value F → Option ScalarKey
  unfolding key_of_number as_f64
  scalar_key null = some null_key
  scalar_key (bool b) = some (bool_key b)
  scalar_key (str s) = some (str_key s)
  scalar_key v = key_of_number (as_f64 v)

  -- `map(scalar_key).collect::<Option<Vec<_>>>()`, zipped with the values.
  unfoldable pub with_keys : List (Value F) → Option (List (ScalarKey × Value F))
  unfolding scalar_key
  with_keys [] = some []
  with_keys (v ∷ vs) = elim (scalar_key v) [
    | none ↦ none
    | some key ↦ elim (with_keys vs) [ none ↦ none | some keyed ↦ some ((key, v) ∷ keyed) ]
  ]

  unfoldable pub any_equal : List (Value F) → Value F → Bool
  any_equal [] v = false
  any_equal (w ∷ ws) v = eq_value w v || any_equal ws v

  -- `out` holds the values taken so far.
  unfoldable pub unique_slow_from : List (Value F) → List (Value F) → List (Value F)
  unfolding any_equal
  unique_slow_from out [] = out
  unique_slow_from out (v ∷ vs) = elim (any_equal out v) [
    | true ↦ unique_slow_from out vs
    | false ↦ unique_slow_from (out ++ v ∷ []) vs
  ]

  unfoldable pub unique_slow : List (Value F) → List (Value F)
  unfolding unique_slow_from
  unique_slow values = unique_slow_from [] values

  unfoldable pub unique : List (Value F) → List (Value F)
  unfolding with_keys unique_by_scalar_key unique_slow
  unique values = elim (with_keys values) [
    | some keyed ↦ unique_by_scalar_key [] keyed
    | none ↦ unique_slow values
  ]

  -- `keyed_unique`: the first value of each key, with its key.
  unfoldable pub keyed_unique_from :
      List ScalarKey → List (Value F) → Option (List (ScalarKey × Value F))
  unfolding scalar_key has_key
  keyed_unique_from seen [] = some []
  keyed_unique_from seen (v ∷ vs) = elim (scalar_key v) [
    | none ↦ none
    | some key ↦ elim (has_key seen key) [
      | true ↦ keyed_unique_from seen vs
      | false ↦ elim (keyed_unique_from (key ∷ seen) vs) [
        | none ↦ none
        | some rest ↦ some ((key, v) ∷ rest)
      ]
    ]
  ]

  unfoldable pub keyed_set :
      SetOp → List (ScalarKey × Value F) → List (ScalarKey × Value F) → List (Value F)
  unfolding unique_by_scalar_key keyed_filter has_key keys_of
  keyed_set union left right = unique_by_scalar_key [] (left ++ right)
  keyed_set intersection left right = keyed_filter (λ key. has_key (keys_of right) key) left
  keyed_set difference left right = keyed_filter (λ key. not (has_key (keys_of right) key)) left
  keyed_set symmetric_difference left right =
      keyed_filter (λ key. not (has_key (keys_of right) key)) left
      ++ keyed_filter (λ key. not (has_key (keys_of left) key)) right

  unfoldable pub set_operation_scalar :
      List (Value F) → List (Value F) → SetOp → Option (List (Value F))
  unfolding keyed_unique_from keyed_set
  set_operation_scalar left right op = elim (keyed_unique_from [] left) [
    | none ↦ none
    | some l ↦ elim (keyed_unique_from [] right) [ none ↦ none | some r ↦ some (keyed_set op l r) ]
  ]

  -- On the distinct values of both sides.
  unfoldable pub slow_set : SetOp → List (Value F) → List (Value F) → List (Value F)
  unfolding unique_slow filter_values any_equal
  slow_set union left right = unique_slow (left ++ right)
  slow_set intersection left right = filter_values (λ v. any_equal right v) left
  slow_set difference left right = filter_values (λ v. not (any_equal right v)) left
  slow_set symmetric_difference left right =
      filter_values (λ v. not (any_equal right v)) left
      ++ filter_values (λ v. not (any_equal left v)) right

  unfoldable pub set_values : List (Value F) → List (Value F) → SetOp → List (Value F)
  unfolding set_operation_scalar slow_set unique_slow
  set_values left right op = elim (set_operation_scalar left right op) [
    | some out ↦ out
    | none ↦ slow_set op (unique_slow left) (unique_slow right)
  ]

  unfoldable pub set_operation : List (Value F) → SetOp → Result (Value F)
  unfolding list_arg unless_null set_values
  set_operation args op = do
    left ← list_arg args 0
    unless_null left λ l. do
      right ← list_arg args 1
      unless_null right (λ r. ok (list (of_list (set_values l r op))))

  -- `contains` with a needle that may be null.
  unfoldable pub matches : Bool → Value F → Value F → Bool
  matches nulls_equal needle v = elim (is_null v || is_null needle) [
    | true ↦ nulls_equal && is_null v && is_null needle
    | false ↦ eq_value v needle
  ]

  unfoldable pub any_match : Bool → Value F → List (Value F) → Bool
  unfolding matches
  any_match nulls_equal needle [] = false
  any_match nulls_equal needle (v ∷ vs) =
      matches nulls_equal needle v || any_match nulls_equal needle vs

  unfoldable pub contains : List (Value F) → Bool → Result (Value F)
  unfolding map_list arg any_match
  contains args nulls_equal = map_list args λ values. do
    needle ← arg args 1
    elim (is_null needle && not nulls_equal) [
      | true ↦ ok null
      | false ↦ ok (bool (any_match nulls_equal needle values))
    ]
