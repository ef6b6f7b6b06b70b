-- ===== src/Dsl/Texts.antt =====
-- crates/rxgraph/src/dsl/ops/string.rs.
use Prim.Native.String.{String, len}
use text.Mathlib.Text.{find?, starts_with, get?, ◌==◌}
use rxgraph.Prelude.{ℕ, ◌-◌, leb, Bool, true, false, Option, none, some, List}
use rxgraph.Result.{Result, ok, ◌>>=◌}
use rxgraph.Dsl.Arguments.{string_arg, unless_null}
use rxgraph.Dsl.Value.{Value, bool}

pub data StringOp : Type 0 where
  contains_op starts_with_op ends_with_op : StringOp

unfoldable pub is_found : Option ℕ → Bool
is_found none = false
is_found (some i) = true

-- The text that is cut off at the end, where there is one, is the suffix.
unfoldable pub ends_with : String → String → Bool
ends_with s t = elim (leb (len t) (len s)) [
  | false ↦ false
  | true ↦ elim (get? s (len s - len t) (len s)) [ none ↦ false | some rest ↦ rest == t ]
]

unfoldable pub test_text : StringOp → String → String → Bool
unfolding is_found ends_with
test_text contains_op left right = is_found (find? left right)
test_text starts_with_op left right = starts_with left right
test_text ends_with_op left right = ends_with left right

module _ {F : Type 0} where
  unfoldable pub eval_string : StringOp → List (Value F) → Result (Value F)
  unfolding string_arg unless_null test_text
  eval_string op args = do
    left ← string_arg args 0
    right ← string_arg args 1
    unless_null left (λ a. unless_null right (λ b. ok (bool (test_text op a b))))
