-- ===== src/Dsl/Lists/Access.antt =====
-- crates/rxgraph/src/dsl/ops/list.rs: the operators that move values.
pub mod Windows
pub mod Steps
use Prim.Native.String.{String, ◌++◌ as concat_text}
use rxgraph.Prelude.{
  ℕ, zero, suc, ◌+◌, ◌-◌, min, ltb, Bool, true, false, ◌&&◌, ◌||◌, Option, none, some, List, [],
  ◌∷◌, length, get_elem?, replicate, not, ◌++◌, ◌%◌, ◌^◌, if◌then◌else◌,
}
use rxgraph.Result.{
  Result, ok, err, panic, out_of_fuel, ◌>>=◌, ◌>>◌, guard, index, store, slice as subslice,
  index_out_of_bounds, step_not_positive, bad_separator, not_string_item,
}
use rxgraph.Dsl.Integer.{ℤ, pos, negsuc, ◌+ℤ◌, negate, is_negative, magnitude, as_u64, word_64}
use rxgraph.Dsl.Float.{Float}
use rxgraph.Dsl.Arguments.{arg, list_arg, integer_arg, unless_null, map_list, unwrap_or}
use rxgraph.Dsl.Value.{
  Value, null, bool, u64, str, list, struct, nil, of_list, to_list, of_pairs, eq_value,
}

abbrev pub saturation : ℕ
saturation = 2 ^ 64 - 1

unfoldable pub with_part : String → Option (List String) → Option (List String)
with_part s none = none
with_part s (some parts) = some (s ∷ parts)

-- `parts.join(separator)`.
unfoldable pub join_texts : String → List String → String
join_texts separator [] = ""
join_texts separator (s ∷ []) = s
join_texts separator (s ∷ t ∷ parts) =
    concat_text s (concat_text separator (join_texts separator (t ∷ parts)))

-- A negative index counts from the end.
unfoldable pub from_end : ℕ → ℤ → ℤ
from_end len z = if is_negative z then pos len +ℤ z else z

unfoldable pub slice_start : ℕ → ℤ → ℕ
slice_start len offset =
    if is_negative offset then len - as_u64 (negate offset) else min (as_u64 offset) len

-- `max(0) as usize`.
unfoldable pub at_least_zero : ℤ → ℕ
at_least_zero z = if is_negative z then 0 else as_u64 z

module _ {F : Type 0} where
  unfoldable pub concat_values : List (Value F) → List (Value F)
  unfolding to_list
  concat_values [] = []
  concat_values (list values ∷ args) = to_list values ++ concat_values args
  concat_values (null ∷ args) = null ∷ concat_values args
  concat_values (v ∷ args) = v ∷ concat_values args

  -- `values[index as usize]` behind the test of the range.
  unfoldable pub get_checked : List (Value F) → ℤ → Bool → Result (Value F)
  get_checked values z null_on_oob =
      elim (not (is_negative z) && ltb (magnitude z) (length values)) [
        | true ↦ index values (as_u64 z)
        | false ↦ elim null_on_oob [
          | true ↦ ok null
          | false ↦ err (index_out_of_bounds (length values))
        ]
      ]

  unfoldable pub get : List (Value F) → Bool → Result (Value F)
  unfolding list_arg unless_null integer_arg get_checked from_end
  get args null_on_oob = do
    found ← list_arg args 0
    unless_null found λ values. do
      z ← integer_arg args 1
      get_checked values (from_end (length values) z) null_on_oob

  unfoldable pub slice_values : List (Value F) → ℤ → ℤ → Result (List (Value F))
  unfolding slice_start at_least_zero
  slice_values values offset len =
      let start = slice_start (length values) offset in
      subslice values start (min (min (start + at_least_zero len) saturation) (length values))

  unfoldable pub slice : List (Value F) → Result (Value F)
  unfolding list_arg unless_null integer_arg slice_values
  slice args = do
    found ← list_arg args 0
    unless_null found λ values. do
      offset ← integer_arg args 1
      len ← integer_arg args 2
      part ← slice_values values offset len
      ok (list (of_list part))

  -- `out[shifted as usize] = value` for what stays in range.
  unfoldable pub shift_from : ℕ → ℤ → ℕ → List (Value F) → List (Value F) → Result (List (Value F))
  shift_from len n i [] out = ok out
  shift_from len n i (v ∷ vs) out =
      let shifted = pos i +ℤ n in
      elim (not (is_negative shifted) && ltb (magnitude shifted) len) [
        | true ↦ do out' ← store out (as_u64 shifted) v; shift_from len n (suc i) vs out'
        | false ↦ shift_from len n (suc i) vs out
      ]

  unfoldable pub shift : List (Value F) → Result (Value F)
  unfolding list_arg unless_null integer_arg shift_from
  shift args = do
    found ← list_arg args 0
    unless_null found λ values. do
      n ← integer_arg args 1
      out ← shift_from (length values) n 0 values (replicate (length values) null)
      ok (list (of_list out))

  -- `while index < values.len()`. The index wraps around.
  unfoldable pub gather_from : ℕ → List (Value F) → ℕ → ℕ → Result (List (Value F))
  gather_from zero values step i = out_of_fuel
  gather_from (suc fuel) values step i = elim (ltb i (length values)) [
    | false ↦ ok []
    | true ↦ do
      v ← index values i
      rest ← gather_from fuel values step ((i + step) % word_64)
      ok (v ∷ rest)
  ]

  unfoldable pub gather_every : List (Value F) → Result (Value F)
  unfolding list_arg unless_null integer_arg gather_from at_least_zero
  gather_every args = do
    found ← list_arg args 0
    unless_null found λ values. do
      n ← integer_arg args 1
      offset ← integer_arg args 2
      guard (not (is_negative n) && ltb 0 (magnitude n)) step_not_positive
      out ← gather_from (suc (length values)) values (as_u64 n) (at_least_zero offset)
      ok (list (of_list out))

  unfoldable pub explode_values : Bool → Bool → List (Value F) → List (Value F)
  unfolding to_list
  explode_values empty_as_null keep_nulls [] = []
  explode_values empty_as_null keep_nulls (list nil ∷ vs) =
      (if empty_as_null then null ∷ [] else []) ++ explode_values empty_as_null keep_nulls vs
  explode_values empty_as_null keep_nulls (list inner ∷ vs) =
      to_list inner ++ explode_values empty_as_null keep_nulls vs
  explode_values empty_as_null keep_nulls (null ∷ vs) =
      (if keep_nulls then null ∷ [] else []) ++ explode_values empty_as_null keep_nulls vs
  explode_values empty_as_null keep_nulls (v ∷ vs) = v ∷ explode_values empty_as_null keep_nulls vs

  unfoldable pub or_one_null : Bool → List (Value F) → List (Value F)
  or_one_null true [] = null ∷ []
  or_one_null _ out = out

  unfoldable pub explode : List (Value F) → Bool → Bool → Result (Value F)
  unfolding map_list explode_values or_one_null
  explode args empty_as_null keep_nulls = map_list args (λ values.
      ok (
        list
          (of_list (or_one_null empty_as_null (explode_values empty_as_null keep_nulls values)))))

  -- One field for each name, null past the end of the list.
  unfoldable pub named_from : List (Value F) → ℕ → List String → List (String × Value F)
  unfolding unwrap_or
  named_from values i [] = []
  named_from values i (name ∷ names) =
      (name, unwrap_or (get_elem? values i) null) ∷ named_from values (suc i) names

  unfoldable pub to_struct : List (Value F) → List String → Result (Value F)
  unfolding map_list unwrap_or named_from
  to_struct args names =
      map_list args (λ values. ok (struct (of_pairs (named_from values 0 names))))

  -- The parts to join: none where a null ends the join.
  unfoldable pub join_parts : Bool → List (Value F) → Result (Option (List String))
  unfolding with_part
  join_parts ignore_nulls [] = ok (some [])
  join_parts ignore_nulls (str s ∷ vs) = do rest ← join_parts ignore_nulls vs; ok (with_part s rest)
  join_parts true (null ∷ vs) = join_parts true vs
  join_parts false (null ∷ vs) = ok none
  join_parts ignore_nulls (v ∷ vs) = err not_string_item

  unfoldable pub join_with : Bool → List (Value F) → Value F → Result (Value F)
  unfolding join_parts join_texts
  join_with ignore_nulls values null = ok null
  join_with ignore_nulls values (str separator) = do
    parts ← join_parts ignore_nulls values
    unless_null parts (λ texts. ok (str (join_texts separator texts)))
  join_with ignore_nulls values _ = err bad_separator

  unfoldable pub join : List (Value F) → Bool → Result (Value F)
  unfolding map_list arg join_with
  join args ignore_nulls =
      map_list args λ values. do separator ← arg args 1; join_with ignore_nulls values separator
