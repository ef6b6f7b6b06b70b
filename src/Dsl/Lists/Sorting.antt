-- ===== src/Dsl/Lists/Sorting.antt =====
-- crates/rxgraph/src/dsl/ops/list.rs: order. `sort_by` is a stable sort, and is modelled by insertion;
-- the order that `select_nth_unstable_by` leaves values in is a parameter.
pub mod Sorted
use Prim.Native.Nat.{Ordering}
use rxgraph.Prelude.{
  ℕ, zero, suc, ◌/◌, ◌%◌, ◌==◌, Bool, true, false, Option, none, some, List, [], ◌∷◌, length, take,
  if◌then◌else◌,
}
use rxgraph.Result.{
  Result, ok, err, panic, out_of_fuel, ◌>>=◌, ◌>>◌, or_err, or_panic, index, not_number,
}
use rxgraph.Dsl.Float.{Float, flip}
use rxgraph.Dsl.Integer.{pos}
use rxgraph.Dsl.Arguments.{map_list, without_nulls, unwrap_or}
use rxgraph.Dsl.Value.{Value, null, u64, f64, list, is_null, of_list, compare, as_f64}

unfoldable pub is_ordering : Ordering → Ordering → Bool
is_ordering Ordering.lt Ordering.lt = true
is_ordering Ordering.eq Ordering.eq = true
is_ordering Ordering.gt Ordering.gt = true
is_ordering _ _ = false

-- `unwrap_or(Ordering::Equal)`.
unfoldable pub or_equal : Result Ordering → Ordering
or_equal (ok o) = o
or_equal _ = Ordering.eq

-- `is_ok_and(|ord| ord == preferred)`.
unfoldable pub is_ok_and : Ordering → Result Ordering → Bool
unfolding is_ordering
is_ok_and preferred (ok o) = is_ordering o preferred
is_ok_and preferred _ = false

-- Equal values keep their order.
unfoldable pub insert_by : {A : Type 0} → (A → A → Ordering) → A → List A → List A
insert_by cmp x [] = x ∷ []
insert_by cmp x (y ∷ ys) = elim (cmp x y) [
  | Ordering.gt ↦ y ∷ insert_by cmp x ys
  | other ↦ x ∷ y ∷ ys
]

unfoldable pub sort_by : {A : Type 0} → (A → A → Ordering) → List A → List A
unfolding insert_by
sort_by cmp [] = []
sort_by cmp (x ∷ xs) = insert_by cmp x (sort_by cmp xs)

module _ {F : Type 0} where
  unfoldable pub second : Option (ℕ × Value F) → Option (Value F)
  second none = none
  second (some (i, v)) = some v

  unfoldable pub index_value : Option (ℕ × Value F) → Value F
  index_value none = null
  index_value (some (i, v)) = u64 i

  unfoldable pub keeps : (Value F → Value F → Ordering) → Option (Value F) → Value F → Bool
  unfolding is_ordering
  keeps cmp none v = false
  keeps cmp (some out) v = is_ordering (cmp out v) Ordering.gt

  -- The greatest, the last one among equals.
  unfoldable pub max_by :
      (Value F → Value F → Ordering) → List (Value F) → Option (Value F) → Option (Value F)
  unfolding keeps
  max_by cmp [] out = out
  max_by cmp (v ∷ vs) out = max_by cmp vs (if keeps cmp out v then out else some v)

module _ {F : Type 0} ⦃float : Float F⦄ where
  unfoldable pub compare_values : Value F → Value F → Ordering
  unfolding or_equal
  compare_values left right = or_equal (compare left right)

  unfoldable pub sort_order : Bool → Bool → Value F → Value F → Ordering
  unfolding compare_values
  sort_order descending nulls_last left right = elim (is_null left) [
    | true ↦ elim (is_null right) [
      | true ↦ Ordering.eq
      | false ↦ if nulls_last then Ordering.gt else Ordering.lt
    ]
    | false ↦ elim (is_null right) [
      | true ↦ if nulls_last then Ordering.lt else Ordering.gt
      | false ↦ let o = compare_values left right in if descending then flip o else o
    ]
  ]

  -- The rest compares with the first value.
  unfoldable pub validate_with : Value F → List (Value F) → Result (Unit {0})
  validate_with first [] = ok tt
  validate_with first (v ∷ vs) = do o ← compare first v; validate_with first vs

  unfoldable pub validate_from : List (Value F) → Result (Unit {0})
  unfolding validate_with
  validate_from [] = ok tt
  validate_from (first ∷ vs) = validate_with first vs

  unfoldable pub validate_sortable : List (Value F) → Result (Unit {0})
  unfolding validate_from without_nulls
  validate_sortable values = validate_from (without_nulls values)

  unfoldable pub sort_values : Bool → Bool → List (Value F) → Result (List (Value F))
  unfolding validate_sortable sort_by sort_order
  sort_values descending nulls_last values =
      validate_sortable values >> ok (sort_by (sort_order descending nulls_last) values)

  unfoldable pub sort : List (Value F) → Bool → Bool → Result (Value F)
  unfolding map_list sort_values
  sort args descending nulls_last =
      map_list args
        λ values. do sorted ← sort_values descending nulls_last values; ok (list (of_list sorted))

  -- `out.is_none_or(…)`.
  unfoldable pub replaces : Ordering → Value F → Option (Value F) → Bool
  unfolding is_ok_and
  replaces preferred v none = true
  replaces preferred v (some current) = is_ok_and preferred (compare v current)

  unfoldable pub best : Ordering → List (Value F) → Option (Value F) → Option (Value F)
  unfolding replaces
  best preferred [] out = out
  best preferred (v ∷ vs) out = best preferred vs (if replaces preferred v out then some v else out)

  unfoldable pub aggregate_order : List (Value F) → Ordering → Result (Value F)
  unfolding map_list best without_nulls unwrap_or
  aggregate_order args preferred =
      map_list args (λ values. ok (unwrap_or (best preferred (without_nulls values) none) null))

  -- The best value with its index; a null is passed over.
  unfoldable pub best_index :
      Ordering → ℕ → List (Value F) → Option (ℕ × Value F) → Option (ℕ × Value F)
  unfolding replaces second
  best_index preferred i [] out = out
  best_index preferred i (v ∷ vs) out = best_index preferred (suc i) vs (elim (is_null v) [
    | true ↦ out
    | false ↦ if replaces preferred v (second out) then some (i, v) else out
  ])

  unfoldable pub aggregate_arg_order : List (Value F) → Ordering → Result (Value F)
  unfolding map_list best_index index_value
  aggregate_arg_order args preferred =
      map_list args (λ values. ok (index_value (best_index preferred 0 values none)))

  -- The values as `select_nth_unstable_by` leaves them.
  unfoldable pub selected : List (Value F) → List (Value F)
  unfolding compare_values
  selected values = float.select_nth compare_values (length values / 2) values

  unfoldable pub middle : List (Value F) → Result (Value F)
  unfolding selected compare_values max_by
  middle values = elim (length values % 2 == 1) [
    | true ↦ index (selected values) (length values / 2)
    | false ↦ do
      upper ← index (selected values) (length values / 2)
      lower ← or_panic (max_by compare_values (take (length values / 2) (selected values)) none)
      a ← or_err (as_f64 lower) not_number
      b ← or_err (as_f64 upper) not_number
      ok (f64 (float.div (float.add a b) (float.of_int (pos 2))))
  ]

  unfoldable pub median_of : List (Value F) → Result (Value F)
  unfolding validate_sortable middle
  median_of [] = ok null
  median_of (v ∷ vs) = validate_sortable (v ∷ vs) >> middle (v ∷ vs)

  unfoldable pub aggregate_median : List (Value F) → Result (Value F)
  unfolding map_list median_of without_nulls
  aggregate_median args = map_list args (λ values. median_of (without_nulls values))
