-- ===== src/Dsl/Structs.antt =====
-- crates/rxgraph/src/dsl/ops/struct_.rs. `with_fields`, which evaluates expressions, stands with the
-- evaluator.
use Prim.Native.String.{String, ◌++◌}
use rxgraph.Prelude.{ℕ, suc, true, false, List, [], ◌∷◌, get_elem?}
use rxgraph.Prelude.Keys.{string_key}
use rxgraph.Result.{Result, ok, err, ◌>>=◌, or_err, needs_expressions, missing_struct_argument}
use rxgraph.Dsl.Float.{Float}
use rxgraph.Dsl.Arguments.{struct_arg, unless_null, unwrap_or}
use rxgraph.Dsl.Integer.{pos}
use rxgraph.Dsl.Value.{Value, null, str, struct, is_null, of_pairs, find_field, to_value}

pub data StructOp : Type 0 where
  field_by_name : String → StructOp
  rename_fields with_fields : List String → StructOp
  json_encode : StructOp

module _ {F : Type 0} where
  -- The value of an existing field of the name is replaced, or a field is added at the end.
  unfoldable pub put_field : List (String × Value F) → String → Value F → List (String × Value F)
  put_field [] name v = (name, v) ∷ []
  put_field ((key, old) ∷ fields) name v = elim (string_key.beq key name) [
    | true ↦ (key, v) ∷ fields
    | false ↦ (key, old) ∷ put_field fields name v
  ]

  -- `show_index` is the text of `field_{index}`.
  unfoldable pub rename :
      List String → (ℕ → String) → ℕ → List (String × Value F) → List (String × Value F)
  unfolding unwrap_or
  rename names show_index index [] = []
  rename names show_index index ((old, v) ∷ fields) =
      (unwrap_or (get_elem? names index) (show_index index), v)
      ∷ rename names show_index (suc index) fields

module _ {F : Type 0} ⦃float : Float F⦄ where
  unfoldable pub eval_struct : StructOp → List (Value F) → Result (Value F)
  unfolding struct_arg unless_null rename unwrap_or
  eval_struct (field_by_name name) args = do
    fields ← struct_arg args 0
    unless_null fields (λ pairs. ok (unwrap_or (find_field pairs name) null))
  eval_struct (rename_fields names) args = do
    fields ← struct_arg args 0
    unless_null fields (λ pairs.
        ok (struct (of_pairs (rename names (λ i. "field_" ++ float.show_int (pos i)) 0 pairs))))
  eval_struct json_encode args = do
    v ← or_err (get_elem? args 0) missing_struct_argument
    ok (elim (is_null v) [ true ↦ null | false ↦ str (float.show_json (to_value v)) ])
  eval_struct (with_fields names) args = err needs_expressions
