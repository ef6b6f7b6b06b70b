-- ===== src/Dsl/Scalar.antt =====
-- crates/rxgraph/src/dsl/ops/scalar.rs: the operators on scalars. `%` by zero is a panic; results of
-- integer operations are cast to 64 bits.
pub mod Integers
use Prim.Native.Nat.{Ordering}
use Prim.Native.String.{String}
use rxgraph.Prelude.{
  ℕ, zero, suc, ◌≡◌, Bool, true, false, not, ◌&&◌, ◌||◌, Option, none, some, List, [], ◌∷◌, bit_and,
  bit_or, ◌-◌, ◌+◌, ◌==◌, get_elem?,
}
use rxgraph.Result.{
  Result, ok, err, panic, ◌>>=◌, or_err, missing_argument, not_integer, not_number, not_unsigned,
}
use rxgraph.Dsl.Integer.{
  ℤ, pos, negsuc, ◌+ℤ◌, ◌-ℤ◌, ◌*ℤ◌, remainder, magnitude, wrap_i128, as_i64, is_negative,
  as_u64 as to_u64,
}
use rxgraph.Dsl.Float.{Float}
use rxgraph.Dsl.Value.{
  Value, null, bool, i64, u64, f64, str, list, struct, is_null, truthy, as_i128, as_u64, as_f64,
  eq_value, compare, to_value,
}

pub data CastType : Type 0 where
  to_bool to_int64 to_uint64 to_float64 to_string : CastType

pub data ScalarOp : Type 0 where
  and or : ScalarOp
  equals not_eq lt lt_eq gt gt_eq : ScalarOp
  plus minus multiply divide modulus : ScalarOp
  bit_and_op bit_or_op bit_xor_op mask_if_any : ScalarOp
  not_op is_null_op is_not_null_op : ScalarOp
  cast_op : CastType → ScalarOp

unfoldable pub is_lt : Ordering → Bool
is_lt Ordering.lt = true
is_lt _ = false

unfoldable pub is_le : Ordering → Bool
is_le Ordering.gt = false
is_le _ = true

unfoldable pub is_gt : Ordering → Bool
is_gt Ordering.gt = true
is_gt _ = false

unfoldable pub is_ge : Ordering → Bool
is_ge Ordering.lt = false
is_ge _ = true

module _ {F : Type 0} where
  unfoldable pub arg : List (Value F) → ℕ → Result (Value F)
  arg args index = or_err (get_elem? args index) (missing_argument index)

  unfoldable pub integer : Value F → Result ℤ
  integer v = or_err (as_i128 v) not_integer

  unfoldable pub unsigned : Value F → Result ℕ
  unsigned v = or_err (as_u64 v) not_unsigned

  unfoldable pub is_float : Value F → Bool
  is_float (f64 x) = true
  is_float _ = false

  -- The result of an operation on integers, as the narrower type.
  unfoldable pub of_i128 : ℤ → Value F
  of_i128 (pos n) = u64 (to_u64 (pos n))
  of_i128 (negsuc n) = i64 (as_i64 (negsuc n))

  unfoldable pub bitwise : Value F → Value F → (ℕ → ℕ → ℕ) → Result (Value F)
  unfolding unsigned
  bitwise left right op = elim (is_null left || is_null right) [
    | true ↦ ok null
    | false ↦ do a ← unsigned left; b ← unsigned right; ok (u64 (op a b))
  ]

-- `a ^ b`: the bits of one of the two.
unfoldable pub bit_xor : ℕ → ℕ → ℕ
bit_xor a b = bit_or a b - bit_and a b

-- `%` on `i128`. The one overflow, of the least `i128` by -1, cannot occur.
unfoldable pub rem : ℤ → ℤ → Result ℤ
rem a b = elim (magnitude b) [ zero ↦ panic | suc n ↦ ok (remainder a (suc n)) ]

module _ {F : Type 0} ⦃float : Float F⦄ where
  unfoldable pub number : Value F → Result F
  number v = or_err (as_f64 v) not_number

  unfoldable pub compare_with : Value F → Value F → (Ordering → Bool) → Result (Value F)
  compare_with left right f = elim (is_null left || is_null right) [
    | true ↦ ok null
    | false ↦ do o ← compare left right; ok (bool (f o))
  ]

  unfoldable pub numeric_binary : Value F → Value F → (ℤ → ℤ → ℤ) → (F → F → F) → Result (Value F)
  unfolding number integer of_i128 is_float
  numeric_binary left right int floating = elim (is_null left || is_null right) [
    | true ↦ ok null
    | false ↦ elim (is_float left || is_float right) [
      | true ↦ do a ← number left; b ← number right; ok (f64 (floating a b))
      | false ↦ do a ← integer left; b ← integer right; ok (of_i128 (wrap_i128 (int a b)))
    ]
  ]

  -- `to_string`; `to_value().to_string()` of a list or a struct is the text of its JSON.
  unfoldable pub text_of : Value F → String
  text_of (str s) = s
  text_of (bool true) = "true"
  text_of (bool false) = "false"
  text_of (i64 z) = float.show_int z
  text_of (u64 n) = float.show_int (pos n)
  text_of (f64 x) = float.show x
  text_of v = float.show_json (to_value v)

  unfoldable pub cast : Value F → CastType → Result (Value F)
  unfolding number integer unsigned text_of
  cast v dtype = elim (is_null v) [
    | true ↦ ok null
    | false ↦ elim dtype [
      | to_bool ↦ do b ← truthy v; ok (bool b)
      | to_int64 ↦ do z ← integer v; ok (i64 (as_i64 z))
      | to_uint64 ↦ do n ← unsigned v; ok (u64 n)
      | to_float64 ↦ do x ← number v; ok (f64 x)
      | to_string ↦ ok (str (text_of v))
    ]
  ]

  unfoldable pub eval_scalar : ScalarOp → List (Value F) → Result (Value F)
  unfolding arg compare_with numeric_binary number integer unsigned bitwise bit_xor rem cast
  eval_scalar and args = do
    left ← arg args 0
    a ← truthy left
    elim a [ false ↦ ok (bool false) | true ↦ do right ← arg args 1; b ← truthy right; ok (bool b) ]
  eval_scalar or args = do
    left ← arg args 0
    a ← truthy left
    elim a [ true ↦ ok (bool true) | false ↦ do right ← arg args 1; b ← truthy right; ok (bool b) ]
  eval_scalar equals args = do
    left ← arg args 0
    right ← arg args 1
    ok (bool (eq_value left right))
  eval_scalar not_eq args = do
    left ← arg args 0
    right ← arg args 1
    ok (bool (not (eq_value left right)))
  eval_scalar lt args = do left ← arg args 0; right ← arg args 1; compare_with left right is_lt
  eval_scalar lt_eq args = do left ← arg args 0; right ← arg args 1; compare_with left right is_le
  eval_scalar gt args = do left ← arg args 0; right ← arg args 1; compare_with left right is_gt
  eval_scalar gt_eq args = do left ← arg args 0; right ← arg args 1; compare_with left right is_ge
  eval_scalar plus args = do
    left ← arg args 0
    right ← arg args 1
    numeric_binary left right (λ a b. a +ℤ b) float.add
  eval_scalar minus args = do
    left ← arg args 0
    right ← arg args 1
    numeric_binary left right (λ a b. a -ℤ b) float.sub
  eval_scalar multiply args = do
    left ← arg args 0
    right ← arg args 1
    numeric_binary left right (λ a b. a *ℤ b) float.mul
  eval_scalar divide args = do
    left ← arg args 0
    a ← number left
    right ← arg args 1
    b ← number right
    ok (f64 (float.div a b))
  eval_scalar modulus args = do
    left ← arg args 0
    a ← integer left
    right ← arg args 1
    b ← integer right
    c ← rem a b
    ok (i64 (as_i64 c))
  eval_scalar bit_and_op args = do left ← arg args 0; right ← arg args 1; bitwise left right bit_and
  eval_scalar bit_or_op args = do left ← arg args 0; right ← arg args 1; bitwise left right bit_or
  eval_scalar bit_xor_op args = do left ← arg args 0; right ← arg args 1; bitwise left right bit_xor
  eval_scalar mask_if_any args = do
    left ← arg args 0
    v ← unsigned left
    right ← arg args 1
    mask ← unsigned right
    elim (bit_and v mask == 0) [ true ↦ ok (u64 0) | false ↦ arg args 2 ]
  eval_scalar not_op args = do v ← arg args 0; b ← truthy v; ok (bool (not b))
  eval_scalar is_null_op args = do v ← arg args 0; ok (bool (is_null v))
  eval_scalar is_not_null_op args = do v ← arg args 0; ok (bool (not (is_null v)))
  eval_scalar (cast_op dtype) args = do v ← arg args 0; cast v dtype
