-- ===== src/Dsl/Value.antt =====
-- crates/rxgraph/src/dsl/value.rs: the values of the expression language. `F` stands for `f64`.
pub mod StructEq
use Prim.Native.Nat.{Ordering, compare as compare_nat}
use Prim.Native.String.{String, compare as compare_str}
use rxgraph.Prelude.{
  ℕ, zero, suc, ◌≡◌, refl, Bool, true, false, ◌&&◌, Option, none, some, List, [], ◌∷◌, ◌==◌, ltb,
  length,
}
use rxgraph.Prelude.Keys.{HashMap, get, insert, string_key}
use rxgraph.Result.{Result, ok, err, not_boolean, not_list, not_struct, incomparable, or_err}
use rxgraph.Dsl.Integer.{ℤ, pos, negsuc}
use rxgraph.Dsl.Float.{
  Float, Json, json_null, json_bool, json_int, json_float, json_string, json_array, json_object,
  Jsons, no_jsons, json, Members, no_members, member,
}

mutual
  pub data Value (F : Type 0) : Type 0 where
    null : Value F
    bool : Bool → Value F
    i64 : ℤ → Value F
    u64 : ℕ → Value F
    f64 : F → Value F
    str : String → Value F
    list : Values F → Value F
    struct : Fields F → Value F

  -- `Vec<Value>`.
  pub data Values (F : Type 0) : Type 0 where
    nil : Values F
    cons : Value F → Values F → Values F

  -- `Vec<(String, Value)>`.
  pub data Fields (F : Type 0) : Type 0 where
    no_fields : Fields F
    field : String → Value F → Fields F → Fields F

module _ {F : Type 0} where
  unfoldable pub to_list : Values F → List (Value F)
  to_list nil = []
  to_list (cons v vs) = v ∷ to_list vs

  unfoldable pub of_list : List (Value F) → Values F
  of_list [] = nil
  of_list (v ∷ vs) = cons v (of_list vs)

  unfoldable pub to_pairs : Fields F → List (String × Value F)
  to_pairs no_fields = []
  to_pairs (field name v fields) = (name, v) ∷ to_pairs fields

  unfoldable pub of_pairs : List (String × Value F) → Fields F
  of_pairs [] = no_fields
  of_pairs ((name, v) ∷ pairs) = field name v (of_pairs pairs)

  unfoldable pub is_null : Value F → Bool
  is_null null = true
  is_null _ = false

  unfoldable pub truthy : Value F → Result Bool
  truthy (bool b) = ok b
  truthy null = ok false
  truthy _ = err not_boolean

  unfoldable pub as_i128 : Value F → Option ℤ
  as_i128 (i64 z) = some z
  as_i128 (u64 n) = some (pos n)
  as_i128 _ = none

  unfoldable pub as_u64 : Value F → Option ℕ
  as_u64 (i64 (pos n)) = some n
  as_u64 (u64 n) = some n
  as_u64 _ = none

  unfoldable pub as_list : Value F → Result (Option (List (Value F)))
  unfolding to_list
  as_list null = ok none
  as_list (list values) = ok (some (to_list values))
  as_list _ = err not_list

  unfoldable pub as_struct : Value F → Result (Option (List (String × Value F)))
  unfolding to_pairs
  as_struct null = ok none
  as_struct (struct fields) = ok (some (to_pairs fields))
  as_struct _ = err not_struct

  -- `find` by name.
  unfoldable pub find_field : List (String × Value F) → String → Option (Value F)
  find_field [] name = none
  find_field ((key, v) ∷ fields) name = elim (string_key.beq key name) [
    | true ↦ some v
    | false ↦ find_field fields name
  ]

unfoldable pub compare_bool : Bool → Bool → Ordering
compare_bool false true = Ordering.lt
compare_bool true false = Ordering.gt
compare_bool _ _ = Ordering.eq

unfoldable pub eq_bool : Bool → Bool → Bool
eq_bool true true = true
eq_bool false false = true
eq_bool _ _ = false

module _ {F : Type 0} ⦃float : Float F⦄ where
  unfoldable pub as_f64 : Value F → Option F
  as_f64 (i64 z) = some (float.of_int z)
  as_f64 (u64 n) = some (float.of_int (pos n))
  as_f64 (f64 x) = some x
  as_f64 _ = none

  unfoldable pub eq_numbers : Option F → Option F → Bool
  eq_numbers (some a) (some b) = float.feq a b
  eq_numbers _ _ = false

  unfoldable pub compare_numbers : Option F → Option F → Option Ordering
  compare_numbers (some a) (some b) = float.partial_cmp a b
  compare_numbers _ _ = none

  unfoldable pub compare : Value F → Value F → Result Ordering
  unfolding as_f64 compare_numbers compare_bool
  compare (bool a) (bool b) = ok (compare_bool a b)
  compare (str a) (str b) = ok (compare_str a b)
  compare a b = or_err (compare_numbers (as_f64 a) (as_f64 b)) incomparable

module _ {F : Type 0} where
  -- `right_by_name.entry(name).or_insert(value)`.
  unfoldable pub entry_or_insert :
      HashMap String (Value F) → String → Value F → HashMap String (Value F)
  entry_or_insert m name v = elim (get m name) [ some old ↦ m | none ↦ (insert m name v).1 ]

  unfoldable pub index_by_name :
      List (String × Value F) → HashMap String (Value F) → HashMap String (Value F)
  unfolding entry_or_insert
  index_by_name [] m = m
  index_by_name ((name, v) ∷ fields) m = index_by_name fields (entry_or_insert m name v)

  -- A short struct is searched in line, a long one by a map.
  unfoldable pub field_lookup : List (String × Value F) → String → Option (Value F)
  unfolding index_by_name find_field
  field_lookup right name = elim (ltb (length right) 8) [
    | true ↦ find_field right name
    | false ↦ get (index_by_name right []) name
  ]

module _ {F : Type 0} ⦃float : Float F⦄ where
  unfoldable mutual
    unfolding as_f64 eq_numbers eq_bool to_pairs field_lookup

    pub eq_value : Value F → Value F → Bool
    eq_value null null = true
    eq_value (bool a) (bool b) = eq_bool a b
    eq_value (str a) (str b) = string_key.beq a b
    eq_value (list a) (list b) = eq_values a b
    eq_value (struct a) (struct b) = elim (length (to_pairs a) == length (to_pairs b)) [
      | true ↦ eq_fields a (field_lookup (to_pairs b))
      | false ↦ false
    ]
    eq_value a b = eq_numbers (as_f64 a) (as_f64 b)

    -- The lengths are equal, and so are the values by position.
    pub eq_values : Values F → Values F → Bool
    eq_values nil nil = true
    eq_values (cons a as') (cons b bs) = eq_value a b && eq_values as' bs
    eq_values _ _ = false

    -- Each field has a counterpart.
    pub eq_fields : Fields F → (String → Option (Value F)) → Bool
    eq_fields no_fields lookup = true
    eq_fields (field name v rest) lookup = elim (lookup name) [
      | none ↦ false
      | some w ↦ eq_value v w && eq_fields rest lookup
    ]

  -- `JsonNumber::from_f64` refuses what is not finite.
  unfoldable mutual
    pub to_value : Value F → Json F
    to_value null = json_null
    to_value (bool b) = json_bool b
    to_value (i64 z) = json_int z
    to_value (u64 n) = json_int (pos n)
    to_value (f64 x) = elim (float.is_finite x) [ true ↦ json_float x | false ↦ json_null ]
    to_value (str s) = json_string s
    to_value (list values) = json_array (to_values values)
    to_value (struct fields) = json_object (to_members fields)

    pub to_values : Values F → Jsons F
    to_values nil = no_jsons
    to_values (cons v vs) = json (to_value v) (to_values vs)

    pub to_members : Fields F → Members F
    to_members no_fields = no_members
    to_members (field name v fields) = member name (to_value v) (to_members fields)
