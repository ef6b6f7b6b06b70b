-- ===== src/Traversal/Encoder.antt =====
-- crates/rxgraph/src/traversal/state_encoder.rs: a state becomes a value. A state that serde
-- serializes is the tree of the serializer calls that it makes; an `f32` stands as the float that it
-- widens to, and a `char` as its text. `BTreeMap` is a list in key order. The texts of numbers are
-- those of the interface of floats, with that of an `f32` besides.
pub mod Numbers
pub mod Objects
use Prim.Native.Nat.{Ordering}
use Prim.Native.String.{String, compare as compare_str}
use rxgraph.Prelude.{ℕ, ◌-◌, ◌<◌, Bool, true, false, Option, none, some, List, [], ◌∷◌, leb, ltb}
use rxgraph.Result.{
  Result, ok, err, panic, out_of_fuel, ◌>>=◌, or_err, state_not_object, number_too_big,
  value_without_key, key_not_string, key_not_finite,
}
use rxgraph.Dsl.Integer.{ℤ, pos, negsuc, word_64, half_64}
use rxgraph.Dsl.Float.{Float, json_float}
use rxgraph.Dsl.Value.{
  Value, null, bool, i64, u64, f64, str, list, struct, Values, nil, cons, Fields, no_fields, field,
  of_pairs, to_pairs,
}

mutual
  -- What a `Serialize` value asks of a serializer.
  pub data Serial (F : Type 0) : Type 0 where
    of_bool : Bool → Serial F
    of_i8 of_i16 of_i32 of_i64 of_i128 : ℤ → Serial F
    of_u8 of_u16 of_u32 of_u64 of_u128 : ℕ → Serial F
    of_f32 of_f64 : F → Serial F
    of_char of_str : String → Serial F
    of_bytes : List ℕ → Serial F
    of_none of_unit of_unit_struct : Serial F
    of_some of_newtype_struct : Serial F → Serial F
    of_unit_variant : String → Serial F
    of_newtype_variant : String → Serial F → Serial F
    of_seq of_tuple of_tuple_struct : Elements F → Serial F
    of_tuple_variant : String → Elements F → Serial F
    of_map : Calls F → Serial F
    of_struct : Parts F → Serial F
    of_struct_variant : String → Parts F → Serial F

  pub data Elements (F : Type 0) : Type 0 where
    no_elements : Elements F
    element : Serial F → Elements F → Elements F

  -- `serialize_key` and `serialize_value`, in the order of the calls.
  pub data Calls (F : Type 0) : Type 0 where
    no_calls : Calls F
    key_call value_call : Serial F → Calls F → Calls F

  pub data Parts (F : Type 0) : Type 0 where
    no_parts : Parts F
    part : String → Serial F → Parts F → Parts F

-- `Object`: the map so far, and the key that waits for its value.
pub record Object (F : Type 0) : Type 0 where
  pub values : List (String × Value F)
  pub key : Option String
  pub variant : Option String

module _ {F : Type 0} where
  -- `BTreeMap::insert`: the value of a key that is there is replaced.
  unfoldable pub tree_insert : List (String × Value F) → String → Value F → List (String × Value F)
  tree_insert [] key v = (key, v) ∷ []
  tree_insert ((k, w) ∷ tree) key v = elim (compare_str key k) [
    | Ordering.lt ↦ (key, v) ∷ (k, w) ∷ tree
    | Ordering.eq ↦ (k, v) ∷ tree
    | Ordering.gt ↦ (k, w) ∷ tree_insert tree key v
  ]

  unfoldable pub serialize_i64 : ℤ → Value F
  serialize_i64 (pos n) = u64 n
  serialize_i64 (negsuc n) = i64 (negsuc n)

  -- `i64::try_from`, then `u64::try_from`.
  unfoldable pub serialize_i128 : ℤ → Result (Value F)
  unfolding serialize_i64
  serialize_i128 (pos n) = elim (ltb n word_64) [ true ↦ ok (u64 n) | false ↦ err number_too_big ]
  serialize_i128 (negsuc n) = elim (ltb n half_64) [
    | true ↦ ok (serialize_i64 (negsuc n))
    | false ↦ err number_too_big
  ]

  unfoldable pub serialize_u128 : ℕ → Result (Value F)
  serialize_u128 n = elim (ltb n word_64) [ true ↦ ok (u64 n) | false ↦ err number_too_big ]

  unfoldable pub byte_values : List ℕ → Values F
  byte_values [] = nil
  byte_values (b ∷ bytes) = cons (u64 b) (byte_values bytes)

  -- A variant wraps its value in a struct of one field.
  unfoldable pub wrap : Option String → Value F → Value F
  wrap none v = v
  wrap (some name) v = struct (field name v no_fields)

  -- `Sequence::finish` and `Object::finish`.
  unfoldable pub finish_sequence : Option String → Values F → Value F
  unfolding wrap
  finish_sequence variant values = wrap variant (list values)

  unfoldable pub finish_object : Object F → Value F
  unfolding wrap of_pairs
  finish_object object = wrap object.variant (struct (of_pairs object.values))

  unfoldable pub new_object : Option String → Object F
  new_object variant = record { values = []; key = none; variant = variant }

unfoldable pub bool_text : Bool → String
bool_text true = "true"
bool_text false = "false"

module _ {F : Type 0} ⦃float : Float F⦄ (f32_text : F → String) where
  unfoldable pub serialize_f64 : F → Value F
  serialize_f64 x = elim (float.is_finite x) [ true ↦ f64 x | false ↦ null ]

  -- `KeyEncoder`.
  unfoldable pub serialize_key : Serial F → Result String
  unfolding bool_text
  serialize_key (of_bool b) = ok (bool_text b)
  serialize_key (of_i8 z) = ok (float.show_int z)
  serialize_key (of_i16 z) = ok (float.show_int z)
  serialize_key (of_i32 z) = ok (float.show_int z)
  serialize_key (of_i64 z) = ok (float.show_int z)
  serialize_key (of_i128 z) = ok (float.show_int z)
  serialize_key (of_u8 n) = ok (float.show_int (pos n))
  serialize_key (of_u16 n) = ok (float.show_int (pos n))
  serialize_key (of_u32 n) = ok (float.show_int (pos n))
  serialize_key (of_u64 n) = ok (float.show_int (pos n))
  serialize_key (of_u128 n) = ok (float.show_int (pos n))
  serialize_key (of_char s) = ok s
  serialize_key (of_str s) = ok s
  serialize_key (of_f32 x) = elim (float.is_finite x) [
    | true ↦ ok (f32_text x)
    | false ↦ err key_not_finite
  ]
  serialize_key (of_f64 x) = elim (float.is_finite x) [
    | true ↦ ok (float.show_json (json_float x))
    | false ↦ err key_not_finite
  ]
  serialize_key (of_some v) = serialize_key v
  serialize_key (of_newtype_struct v) = serialize_key v
  serialize_key (of_unit_variant name) = ok name
  serialize_key _ = err key_not_string

  unfoldable mutual
    unfolding serialize_i64 serialize_i128 serialize_u128 byte_values wrap finish_sequence
        finish_object new_object tree_insert serialize_f64 serialize_key

    -- `Encoder`.
    pub serialize : Serial F → Result (Value F)
    serialize (of_bool b) = ok (bool b)
    serialize (of_i8 z) = ok (serialize_i64 z)
    serialize (of_i16 z) = ok (serialize_i64 z)
    serialize (of_i32 z) = ok (serialize_i64 z)
    serialize (of_i64 z) = ok (serialize_i64 z)
    serialize (of_i128 z) = serialize_i128 z
    serialize (of_u8 n) = ok (u64 n)
    serialize (of_u16 n) = ok (u64 n)
    serialize (of_u32 n) = ok (u64 n)
    serialize (of_u64 n) = ok (u64 n)
    serialize (of_u128 n) = serialize_u128 n
    serialize (of_f32 x) = ok (serialize_f64 x)
    serialize (of_f64 x) = ok (serialize_f64 x)
    serialize (of_char s) = ok (str s)
    serialize (of_str s) = ok (str s)
    serialize (of_bytes bytes) = ok (list (byte_values bytes))
    serialize of_none = ok null
    serialize of_unit = ok null
    serialize of_unit_struct = ok null
    serialize (of_some v) = serialize v
    serialize (of_newtype_struct v) = serialize v
    serialize (of_unit_variant name) = ok (str name)
    serialize (of_newtype_variant name v) = do w ← serialize v; ok (wrap (some name) w)
    serialize (of_seq vs) = do ws ← elements vs; ok (finish_sequence none ws)
    serialize (of_tuple vs) = do ws ← elements vs; ok (finish_sequence none ws)
    serialize (of_tuple_struct vs) = do ws ← elements vs; ok (finish_sequence none ws)
    serialize (of_tuple_variant name vs) = do ws ← elements vs; ok (finish_sequence (some name) ws)
    serialize (of_map calls) = do
      object ← entries calls (new_object none)
      ok (finish_object object)
    serialize (of_struct parts) = do
      object ← fields_of parts (new_object none)
      ok (finish_object object)
    serialize (of_struct_variant name parts) = do
      object ← fields_of parts (new_object (some name))
      ok (finish_object object)

    -- `Sequence::push`, for each element.
    pub elements : Elements F → Result (Values F)
    elements no_elements = ok nil
    elements (element v vs) = do w ← serialize v; ws ← elements vs; ok (cons w ws)

    -- `serialize_key` puts a key by, `serialize_value` takes it.
    pub entries : Calls F → Object F → Result (Object F)
    entries no_calls object = ok object
    entries (key_call k calls) object = do
      key ← serialize_key k
      entries calls (record object { key = some key })
    entries (value_call v calls) object = do
      key ← or_err object.key value_without_key
      w ← serialize v
      entries calls (record object { values = tree_insert object.values key w; key = none })

    -- `Object::field`, for each part.
    pub fields_of : Parts F → Object F → Result (Object F)
    fields_of no_parts object = ok object
    fields_of (part name v parts) object = do
      w ← serialize v
      fields_of parts (record object { values = tree_insert object.values name w })

  unfoldable pub state_row : Value F → Result (List (String × Value F))
  unfolding to_pairs
  state_row (struct fields) = ok (to_pairs fields)
  state_row _ = err state_not_object

  unfoldable pub encode : Serial F → Result (List (String × Value F))
  unfolding serialize state_row
  encode state = do v ← serialize state; state_row v
