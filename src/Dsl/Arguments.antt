-- ===== src/Dsl/Arguments.antt =====
-- The arguments of an operator: `list_arg`, `struct_arg`, `string_arg`, `integer_arg`, `unary_list`
-- and `map_list` of crates/rxgraph/src/dsl/ops/.
use Prim.Native.String.{String}
use rxgraph.Prelude.{ℕ, Option, none, some, List, [], ◌∷◌, true, false, get_elem?}
use rxgraph.Result.{Result, ok, err, ◌>>=◌, or_err, missing_argument, not_integer, not_string}
use rxgraph.Dsl.Integer.{ℤ}
use rxgraph.Dsl.Value.{Value, null, str, as_list, as_struct, as_i128, is_null}

unfoldable pub unwrap_or : {A : Type 0} → Option A → A → A
unwrap_or none a = a
unwrap_or (some b) a = b

module _ {F : Type 0} where
  unfoldable pub arg : List (Value F) → ℕ → Result (Value F)
  arg args index = or_err (get_elem? args index) (missing_argument index)

  unfoldable pub list_arg : List (Value F) → ℕ → Result (Option (List (Value F)))
  unfolding arg as_list
  list_arg args index = do v ← arg args index; as_list v

  unfoldable pub struct_arg : List (Value F) → ℕ → Result (Option (List (String × Value F)))
  unfolding arg as_struct
  struct_arg args index = do v ← arg args index; as_struct v

  unfoldable pub string_of : Value F → Result (Option String)
  string_of null = ok none
  string_of (str s) = ok (some s)
  string_of _ = err not_string

  unfoldable pub string_arg : List (Value F) → ℕ → Result (Option String)
  unfolding arg string_of
  string_arg args index = do v ← arg args index; string_of v

  unfoldable pub integer_arg : List (Value F) → ℕ → Result ℤ
  unfolding arg as_i128
  integer_arg args index = do v ← arg args index; or_err (as_i128 v) not_integer

  -- `let Some(values) = … else { return Ok(Value::Null) }`.
  unfoldable pub unless_null : {A : Type 0} → Option A → (A → Result (Value F)) → Result (Value F)
  unless_null none next = ok null
  unless_null (some a) next = next a

  -- `unary_list` and `map_list`: a null list gives null.
  unfoldable pub map_list : List (Value F) → (List (Value F) → Result (Value F)) → Result (Value F)
  unfolding list_arg unless_null
  map_list args f = do values ← list_arg args 0; unless_null values f

  unfoldable pub without_nulls : List (Value F) → List (Value F)
  without_nulls [] = []
  without_nulls (v ∷ vs) = elim (is_null v) [
    | true ↦ without_nulls vs
    | false ↦ v ∷ without_nulls vs
  ]
