-- ===== src/Dsl/Eval/Plain.antt =====
-- crates/rxgraph/src/dsl/eval.rs: the evaluator with and without its fast path.
use Prim.Native.String.{String}
use rxgraph.Prelude.{◌≡◌, refl, ◌∙◌, Option, none, List, [], ◌∷◌, true, false}
use rxgraph.Result.{Result, ok, ◌>>=◌, map_result}
use rxgraph.Dsl.Float.{Float}
use rxgraph.Dsl.Value.{Value, bool, list, struct, truthy, as_list, as_struct, of_list, of_pairs}
use rxgraph.Dsl.Arguments.{unless_null}
use rxgraph.Dsl.Scalar.{ScalarOp, and, or, eval_scalar}
use rxgraph.Dsl.Texts.{eval_string}
use rxgraph.Dsl.Structs.{with_fields, eval_struct, put_field}
use rxgraph.Dsl.Lists.{eval_op, filter_op, eval_list_op}
use rxgraph.Dsl.Bound.{BoundColumn, EvalCtx, with_element}
use rxgraph.Dsl.Expr.{
  Expr, Exprs, column, element, literal, alias, ternary, scalar, string, list_expr, struct_expr,
  no_exprs, expr,
}
use rxgraph.Dsl.Eval.{
  filter_result, try_eval_scalar_fast_path, eval_with, eval_args, eval_list, filter_list,
  eval_with_fields, put_fields, eval,
}
use rxgraph.Dsl.Eval.Answers.{answered, Answers, applied, fast-Answers}
use rxgraph.Dsl.Expr.Shape.{WellFormed, AllWellFormed}

module _ {F : Type 0} ⦃float : Float F⦄ where
  -- No fast path.
  unfoldable pub decline :
      ScalarOp → Exprs F (BoundColumn F) → EvalCtx F → Result (Option (Value F))
  decline op args ctx = ok none

  mutual
    unfolding eval_with WellFormed decline applied answered Answers

    plain :
        (e : Expr F (BoundColumn F)) (ctx : EvalCtx F)
        → WellFormed e
        → eval_with try_eval_scalar_fast_path e ctx ≡ eval_with decline e ctx
    plain (column c) ctx w = refl
    plain element ctx w = refl
    plain (literal v) ctx w = refl
    plain (alias e name) ctx w = plain e ctx w
    plain (ternary predicate yes_expr no_expr) ctx (p, t, f) = λ i. do
      v ← plain predicate ctx p i
      b ← truthy v
      elim b [ true ↦ plain yes_expr ctx t i | false ↦ plain no_expr ctx f i ]
    plain (scalar and no_exprs) ctx w = refl
    plain (scalar and (expr left no_exprs)) ctx w = refl
    plain (scalar and (expr left (expr right rest))) ctx (arity, (l, (r, others))) = λ i. do
      v ← plain left ctx l i
      a ← truthy v
      elim a [
        | false ↦ ok (bool false)
        | true ↦ do w ← plain right ctx r i; b ← truthy w; ok (bool b)
      ]
    plain (scalar or no_exprs) ctx w = refl
    plain (scalar or (expr left no_exprs)) ctx w = refl
    plain (scalar or (expr left (expr right rest))) ctx (arity, (l, (r, others))) = λ i. do
      v ← plain left ctx l i
      a ← truthy v
      elim a [
        | true ↦ ok (bool true)
        | false ↦ do w ← plain right ctx r i; b ← truthy w; ok (bool b)
      ]
    plain (scalar op args) ctx (arity, w) =
        fast-Answers try_eval_scalar_fast_path op args ctx arity
        ∙ (λ i. do vs ← plain_args args ctx w i; eval_scalar op vs)
    plain (string op args) ctx w = λ i. do vs ← plain_args args ctx w i; eval_string op vs
    plain (list_expr eval_op args) ctx w = plain_list args ctx w
    plain (list_expr filter_op args) ctx w = plain_filter args ctx w
    plain (list_expr op args) ctx w = λ i. do vs ← plain_args args ctx w i; eval_list_op op vs
    plain (struct_expr (with_fields names) args) ctx w = plain_with_fields args names ctx w
    plain (struct_expr op args) ctx w = λ i. do vs ← plain_args args ctx w i; eval_struct op vs

    plain_args :
        (args : Exprs F (BoundColumn F)) (ctx : EvalCtx F)
        → AllWellFormed args
        → eval_args try_eval_scalar_fast_path args ctx ≡ eval_args decline args ctx
    plain_args no_exprs ctx w = refl
    plain_args (expr e args) ctx (h, w) =
        λ i. do v ← plain e ctx h i; vs ← plain_args args ctx w i; ok (v ∷ vs)

    plain_list :
        (args : Exprs F (BoundColumn F)) (ctx : EvalCtx F)
        → AllWellFormed args
        → eval_list try_eval_scalar_fast_path args ctx ≡ eval_list decline args ctx
    plain_list no_exprs ctx w = refl
    plain_list (expr source no_exprs) ctx w = refl
    plain_list (expr source (expr body (expr other rest))) ctx w = refl
    plain_list (expr source (expr body no_exprs)) ctx (s, (b, done)) = λ i. do
      v ← plain source ctx s i
      found ← as_list v
      unless_null found λ values. do
        out ← map_result (λ w. plain body (with_element ctx w) b i) values
        ok (list (of_list out))

    plain_filter :
        (args : Exprs F (BoundColumn F)) (ctx : EvalCtx F)
        → AllWellFormed args
        → filter_list try_eval_scalar_fast_path args ctx ≡ filter_list decline args ctx
    plain_filter no_exprs ctx w = refl
    plain_filter (expr source no_exprs) ctx w = refl
    plain_filter (expr source (expr body (expr other rest))) ctx w = refl
    plain_filter (expr source (expr body no_exprs)) ctx (s, (b, done)) = λ i. do
      v ← plain source ctx s i
      found ← as_list v
      unless_null found λ values. do
        out ← filter_result (λ w. do r ← plain body (with_element ctx w) b i; truthy r) values
        ok (list (of_list out))

    plain_with_fields :
        (args : Exprs F (BoundColumn F)) (names : List String) (ctx : EvalCtx F)
        → AllWellFormed args
        → eval_with_fields try_eval_scalar_fast_path args names ctx
          ≡ eval_with_fields decline args names ctx
    plain_with_fields no_exprs names ctx w = refl
    plain_with_fields (expr base args) names ctx (h, w) = λ i. do
      v ← plain base ctx h i
      found ← as_struct v
      unless_null found
          λ pairs. do out ← plain_put args names pairs ctx w i; ok (struct (of_pairs out))

    plain_put :
        (args : Exprs F (BoundColumn F)) (names : List String) (pairs : List (String × Value F))
        (ctx : EvalCtx F)
        → AllWellFormed args
        → put_fields try_eval_scalar_fast_path args names pairs ctx
          ≡ put_fields decline args names pairs ctx
    plain_put no_exprs [] pairs ctx w = refl
    plain_put (expr e args) [] pairs ctx w = refl
    plain_put no_exprs (name ∷ names) pairs ctx w = refl
    plain_put (expr e args) (name ∷ names) pairs ctx (h, w) =
        λ i. do v ← plain e ctx h i; plain_put args names (put_field pairs name v) ctx w i

  -- An expression whose comparisons have two arguments each evaluates with the fast path as it does
  -- without: to the same value, the same error or the same panic, at every edge and state.
  pub eval-plain :
      (e : Expr F (BoundColumn F)) (ctx : EvalCtx F)
      → WellFormed e
      → eval e ctx ≡ eval_with decline e ctx
  unfolding eval
  eval-plain = plain
