-- ===== src/Traversal/Kernel/Convert.antt =====
-- crates/rxgraph/src/traversal/kernel.rs: the conversions of a value, and the reads that use them.
use Prim.Native.Nat.{Ordering}
use Prim.Native.String.{String}
use rxgraph.Prelude.{ℕ, ◌-◌, Bool, true, false, ◌&&◌, Option, none, some, leb}
use rxgraph.Prelude.Keys.{string_key}
use rxgraph.Result.{
  Result, ok, err, negative_value, out_of_range, lossy_float, not_integer, not_number, not_boolean,
  not_string,
}
use rxgraph.Dsl.Integer.{ℤ, pos, negsuc, word_64, half_64}
use rxgraph.Dsl.Float.{Float}
use rxgraph.Dsl.Value.{Value, null, bool, i64, u64, f64, str, list, struct}
use rxgraph.Traversal.Kernel.{Read, converted, src_value, dest_value, edge_value}

-- What the conversions use of `f64` beyond its arithmetic: `fract`, and the casts to integers.
pub record FloatCast (F : Type 0) : Type 0 where
  pub fract : F → F
  pub to_u64 : F → ℕ
  pub to_i64 : F → ℤ

-- `a >= b`, false if the floats are not ordered.
unfoldable pub at_least : Option Ordering → Bool
at_least (some Ordering.gt) = true
at_least (some Ordering.eq) = true
at_least _ = false

module _ {F : Type 0} ⦃float : Float F⦄ ⦃cast : FloatCast F⦄ where
  -- The test on a float before its cast.
  unfoldable pub fits : F → ℤ → ℤ → Bool
  unfolding at_least
  fits x least most =
      float.is_finite x
      && (float.feq (cast.fract x) (float.of_int (pos 0))
          && (at_least (float.partial_cmp x (float.of_int least))
              && at_least (float.partial_cmp (float.of_int most) x)))

  unfoldable pub as_u64 : Value F → Result (Option ℕ)
  unfolding fits
  as_u64 null = ok none
  as_u64 (u64 n) = ok (some n)
  as_u64 (i64 (pos n)) = ok (some n)
  as_u64 (i64 (negsuc n)) = err negative_value
  as_u64 (f64 x) = elim (fits x (pos 0) (pos (word_64 - 1))) [
    | true ↦ ok (some (cast.to_u64 x))
    | false ↦ err lossy_float
  ]
  as_u64 (bool b) = err not_integer
  as_u64 (str s) = err not_integer
  as_u64 (list values) = err not_integer
  as_u64 (struct _) = err not_integer

  unfoldable pub as_i64 : Value F → Result (Option ℤ)
  unfolding fits
  as_i64 null = ok none
  as_i64 (i64 z) = ok (some z)
  as_i64 (u64 n) = elim (leb n (half_64 - 1)) [
    | true ↦ ok (some (pos n))
    | false ↦ err out_of_range
  ]
  as_i64 (f64 x) = elim (fits x (negsuc (half_64 - 1)) (pos (half_64 - 1))) [
    | true ↦ ok (some (cast.to_i64 x))
    | false ↦ err lossy_float
  ]
  as_i64 (bool b) = err not_integer
  as_i64 (str s) = err not_integer
  as_i64 (list values) = err not_integer
  as_i64 (struct _) = err not_integer

  unfoldable pub as_f64 : Value F → Result (Option F)
  as_f64 null = ok none
  as_f64 (f64 x) = ok (some x)
  as_f64 (i64 z) = ok (some (float.of_int z))
  as_f64 (u64 n) = ok (some (float.of_int (pos n)))
  as_f64 _ = err not_number

module _ {F : Type 0} where
  unfoldable pub as_bool : Value F → Result (Option Bool)
  as_bool null = ok none
  as_bool (bool b) = ok (some b)
  as_bool _ = err not_boolean

  unfoldable pub as_str : Value F → Result (Option String)
  as_str null = ok none
  as_str (str s) = ok (some s)
  as_str _ = err not_string

module _ {F S : Type 0} ⦃float : Float F⦄ ⦃cast : FloatCast F⦄ where
  unfoldable pub src_u64 : Read F S (Option ℕ)
  unfolding converted src_value as_u64
  src_u64 = converted as_u64 src_value

  unfoldable pub dest_u64 : Read F S (Option ℕ)
  unfolding converted dest_value as_u64
  dest_u64 = converted as_u64 dest_value

  unfoldable pub edge_u64 : Read F S (Option ℕ)
  unfolding converted edge_value as_u64
  edge_u64 = converted as_u64 edge_value

  unfoldable pub src_i64 : Read F S (Option ℤ)
  unfolding converted src_value as_i64
  src_i64 = converted as_i64 src_value

  unfoldable pub dest_i64 : Read F S (Option ℤ)
  unfolding converted dest_value as_i64
  dest_i64 = converted as_i64 dest_value

  unfoldable pub edge_i64 : Read F S (Option ℤ)
  unfolding converted edge_value as_i64
  edge_i64 = converted as_i64 edge_value

  unfoldable pub src_f64 : Read F S (Option F)
  unfolding converted src_value as_f64
  src_f64 = converted as_f64 src_value

  unfoldable pub dest_f64 : Read F S (Option F)
  unfolding converted dest_value as_f64
  dest_f64 = converted as_f64 dest_value

  unfoldable pub edge_f64 : Read F S (Option F)
  unfolding converted edge_value as_f64
  edge_f64 = converted as_f64 edge_value

module _ {F S : Type 0} where
  unfoldable pub src_bool : Read F S (Option Bool)
  unfolding converted src_value as_bool
  src_bool = converted as_bool src_value

  unfoldable pub dest_bool : Read F S (Option Bool)
  unfolding converted dest_value as_bool
  dest_bool = converted as_bool dest_value

  unfoldable pub edge_bool : Read F S (Option Bool)
  unfolding converted edge_value as_bool
  edge_bool = converted as_bool edge_value

  unfoldable pub src_str : Read F S (Option String)
  unfolding converted src_value as_str
  src_str = converted as_str src_value

  unfoldable pub dest_str : Read F S (Option String)
  unfolding converted dest_value as_str
  dest_str = converted as_str dest_value

  unfoldable pub edge_str : Read F S (Option String)
  unfolding converted edge_value as_str
  edge_str = converted as_str edge_value
