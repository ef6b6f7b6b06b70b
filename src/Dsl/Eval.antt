-- ===== src/Dsl/Eval.antt =====
-- crates/rxgraph/src/dsl/eval.rs, and `eval_with_exprs` of ops/list.rs and ops/struct_.rs: the value of
-- an expression at a candidate edge.
mod Answers
pub mod Plain
use Prim.Native.String.{String}
use rxgraph.Prelude.{ℕ, zero, suc, Option, none, some, List, [], ◌∷◌, Bool, true, false}
use rxgraph.Result.{
  Result, ok, err, panic, out_of_fuel, ◌>>=◌, or_err, map_result, missing_argument, no_element,
  expression_count, missing_base_struct, missing_field_expression,
}
use rxgraph.Dsl.Float.{Float}
use rxgraph.Dsl.Value.{Value, bool, list, struct, truthy, as_list, as_struct, of_list, of_pairs}
use rxgraph.Dsl.Arguments.{unless_null}
use rxgraph.Dsl.Scalar.{ScalarOp, and, or, eval_scalar}
use rxgraph.Dsl.Texts.{eval_string}
use rxgraph.Dsl.Structs.{StructOp, with_fields, eval_struct, put_field}
use rxgraph.Dsl.Lists.{ListOp, eval_op, filter_op, eval_list_op}
use rxgraph.Dsl.Column.{is_comparison}
use rxgraph.Dsl.Bound.{BoundColumn, EvalCtx, column_value, column_literal, with_element}
use rxgraph.Dsl.Expr.{
  Expr, Exprs, expr_count, column, element, literal, alias, ternary, scalar, string, list_expr,
  struct_expr, no_exprs, expr,
}

module _ {F : Type 0} where
  unfoldable pub column_expr : Expr F (BoundColumn F) → Option (BoundColumn F)
  column_expr (column c) = some c
  column_expr (alias e name) = column_expr e
  column_expr _ = none

  unfoldable pub literal_expr : Expr F (BoundColumn F) → Option (Value F)
  literal_expr (literal v) = some v
  literal_expr (alias e name) = literal_expr e
  literal_expr _ = none

  -- The values that a test keeps, up to its first error.
  unfoldable pub filter_result : (Value F → Result Bool) → List (Value F) → Result (List (Value F))
  filter_result test [] = ok []
  filter_result test (v ∷ vs) = do
    keep ← test v
    rest ← filter_result test vs
    ok (elim keep [ true ↦ v ∷ rest | false ↦ rest ])

module _ {F : Type 0} ⦃float : Float F⦄ where
  -- A column and a literal, in this order or, reversed, in the other.
  unfoldable pub pair_literal :
      Option (BoundColumn F)
      → Option (Value F)
      → Bool
      → ScalarOp
      → EvalCtx F
      → Result (Option (Value F))
  unfolding column_literal
  pair_literal (some c) (some v) reverse op ctx = column_literal c ctx op v reverse
  pair_literal _ _ reverse op ctx = ok none

  unfoldable pub fast_args :
      ScalarOp → Exprs F (BoundColumn F) → EvalCtx F → Result (Option (Value F))
  unfolding column_expr literal_expr pair_literal
  fast_args op no_exprs ctx = err (missing_argument 0)
  fast_args op (expr left no_exprs) ctx = err (missing_argument 1)
  fast_args op (expr left (expr right rest)) ctx = elim (column_expr left) [
    | none ↦ pair_literal (column_expr right) (literal_expr left) true op ctx
    | some c ↦ elim (literal_expr right) [
      | none ↦ pair_literal (column_expr right) (literal_expr left) true op ctx
      | some v ↦ column_literal c ctx op v false
    ]
  ]

  unfoldable pub try_eval_scalar_fast_path :
      ScalarOp → Exprs F (BoundColumn F) → EvalCtx F → Result (Option (Value F))
  unfolding is_comparison fast_args
  try_eval_scalar_fast_path op args ctx = elim (is_comparison op) [
    | false ↦ ok none
    | true ↦ fast_args op args ctx
  ]

  -- The evaluator over a fast path.
  module _ (fast : ScalarOp → Exprs F (BoundColumn F) → EvalCtx F → Result (Option (Value F))) where
    unfoldable mutual
      unfolding column_value truthy eval_scalar eval_string eval_list_op eval_struct unless_null
          as_list as_struct filter_result expr_count put_field with_element

      pub eval_with : Expr F (BoundColumn F) → EvalCtx F → Result (Value F)
      eval_with (column c) ctx = column_value c ctx
      eval_with element ctx = or_err ctx.current no_element
      eval_with (literal v) ctx = ok v
      eval_with (alias e name) ctx = eval_with e ctx
      eval_with (ternary predicate yes_expr no_expr) ctx = do
        v ← eval_with predicate ctx
        b ← truthy v
        elim b [ true ↦ eval_with yes_expr ctx | false ↦ eval_with no_expr ctx ]
      eval_with (scalar and args) ctx = eval_and args ctx
      eval_with (scalar or args) ctx = eval_or args ctx
      eval_with (scalar op args) ctx = do
        found ← fast op args ctx
        elim found [ some v ↦ ok v | none ↦ do vs ← eval_args args ctx; eval_scalar op vs ]
      eval_with (string op args) ctx = do vs ← eval_args args ctx; eval_string op vs
      eval_with (list_expr eval_op args) ctx = eval_list args ctx
      eval_with (list_expr filter_op args) ctx = filter_list args ctx
      eval_with (list_expr op args) ctx = do vs ← eval_args args ctx; eval_list_op op vs
      eval_with (struct_expr (with_fields names) args) ctx = eval_with_fields args names ctx
      eval_with (struct_expr op args) ctx = do vs ← eval_args args ctx; eval_struct op vs

      pub eval_args : Exprs F (BoundColumn F) → EvalCtx F → Result (List (Value F))
      eval_args no_exprs ctx = ok []
      eval_args (expr e args) ctx = do v ← eval_with e ctx; vs ← eval_args args ctx; ok (v ∷ vs)

      pub eval_and : Exprs F (BoundColumn F) → EvalCtx F → Result (Value F)
      eval_and no_exprs ctx = err (missing_argument 0)
      eval_and (expr left no_exprs) ctx = err (missing_argument 1)
      eval_and (expr left (expr right rest)) ctx = do
        v ← eval_with left ctx
        a ← truthy v
        elim a [
          | false ↦ ok (bool false)
          | true ↦ do w ← eval_with right ctx; b ← truthy w; ok (bool b)
        ]

      pub eval_or : Exprs F (BoundColumn F) → EvalCtx F → Result (Value F)
      eval_or no_exprs ctx = err (missing_argument 0)
      eval_or (expr left no_exprs) ctx = err (missing_argument 1)
      eval_or (expr left (expr right rest)) ctx = do
        v ← eval_with left ctx
        a ← truthy v
        elim a [
          | true ↦ ok (bool true)
          | false ↦ do w ← eval_with right ctx; b ← truthy w; ok (bool b)
        ]

      pub eval_list : Exprs F (BoundColumn F) → EvalCtx F → Result (Value F)
      eval_list (expr source (expr body no_exprs)) ctx = do
        v ← eval_with source ctx
        found ← as_list v
        unless_null found λ values. do
          out ← map_result (λ w. eval_with body (with_element ctx w)) values
          ok (list (of_list out))
      eval_list args ctx = err (expression_count (expr_count args))

      pub filter_list : Exprs F (BoundColumn F) → EvalCtx F → Result (Value F)
      filter_list (expr source (expr body no_exprs)) ctx = do
        v ← eval_with source ctx
        found ← as_list v
        unless_null found λ values. do
          out ← filter_result (λ w. do r ← eval_with body (with_element ctx w); truthy r) values
          ok (list (of_list out))
      filter_list args ctx = err (expression_count (expr_count args))

      pub eval_with_fields : Exprs F (BoundColumn F) → List String → EvalCtx F → Result (Value F)
      eval_with_fields no_exprs names ctx = err missing_base_struct
      eval_with_fields (expr base args) names ctx = do
        v ← eval_with base ctx
        found ← as_struct v
        unless_null found
            λ pairs. do out ← put_fields args names pairs ctx; ok (struct (of_pairs out))

      pub put_fields :
          Exprs F (BoundColumn F)
          → List String
          → List (String × Value F)
          → EvalCtx F
          → Result (List (String × Value F))
      put_fields args [] pairs ctx = ok pairs
      put_fields no_exprs (name ∷ names) pairs ctx = err (missing_field_expression name)
      put_fields (expr e args) (name ∷ names) pairs ctx = do
        v ← eval_with e ctx
        put_fields args names (put_field pairs name v) ctx

  unfoldable pub eval : Expr F (BoundColumn F) → EvalCtx F → Result (Value F)
  unfolding eval_with try_eval_scalar_fast_path
  eval = eval_with try_eval_scalar_fast_path
