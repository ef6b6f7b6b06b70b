-- ===== src/Dsl/Eval/Answers.antt =====
-- crates/rxgraph/src/dsl/eval.rs: the answer of the fast path beside the operator.
use rxgraph.Prelude.{
  ℕ, ◌≡◌, refl, ap, subst, ◌∙◌, inl, inr, Option, none, some, some-injective, Option-cases,
  Bool-cases, [], ◌∷◌, true, false, arith,
}
use rxgraph.Result.{Result, ok, err, panic, out_of_fuel, ◌>>=◌}
use rxgraph.Dsl.Float.{Float}
use rxgraph.Dsl.Value.{Value}
use rxgraph.Dsl.Scalar.{ScalarOp, eval_scalar}
use rxgraph.Dsl.Arrow.{ColumnReader, value}
use rxgraph.Dsl.Column.{is_comparison, scalar_value, eval_scalar_literal}
use rxgraph.Dsl.Column.FastPath.{eval_scalar_literal_lem}
use rxgraph.Dsl.Bound.{BoundColumn, src, dest, edge, EvalCtx, column_value, column_literal}
use rxgraph.Dsl.Expr.{Expr, Exprs, column, literal, alias, no_exprs, expr, expr_count}
use rxgraph.Dsl.Eval.{
  column_expr, literal_expr, pair_literal, fast_args, try_eval_scalar_fast_path, eval_with,
  eval_args,
}

module _ {F : Type 0} where
  -- What the evaluator does with the answer of the fast path.
  unfoldable pub answered : Result (Option (Value F)) → Result (Value F) → Result (Value F)
  answered fast general = do found ← fast; elim found [ some v ↦ ok v | none ↦ general ]

  answered-some : (r general : Result (Value F)) → answered (do x ← r; ok (some x)) general ≡ r
  unfolding answered
  answered-some (ok x) general = refl
  answered-some (err e) general = refl
  answered-some panic general = refl
  answered-some out_of_fuel general = refl

  answered-agree :
      (m : Result (Value F)) (k : Value F → Result (Value F)) (general : Result (Value F))
      → answered (do w ← m; x ← k w; ok (some x)) general ≡ (do w ← m; k w)
  unfolding answered
  answered-agree (ok w) k general = answered-some (k w) general
  answered-agree (err e) k general = refl
  answered-agree panic k general = refl
  answered-agree out_of_fuel k general = refl

module _ {F : Type 0} ⦃float : Float F⦄ where
  -- The fast path declines, or does what the operator does.
  unfoldable pub Answers : Result (Option (Value F)) → Result (Value F) → Type 0
  Answers fast general = answered fast general ≡ general

  reader-Answers :
      (reader : ColumnReader F) (row : ℕ) (op : ScalarOp) (v : Value F)
      → is_comparison op ≡ true
      → Answers
          (eval_scalar_literal reader row op v false)
          (do w ← value reader row; eval_scalar op (w ∷ v ∷ []))
        × Answers
            (eval_scalar_literal reader row op v true)
            (do w ← value reader row; eval_scalar op (v ∷ w ∷ []))
  unfolding Answers answered eval_scalar_literal
  reader-Answers reader row op v h = elim (Option-cases (scalar_value reader row)) [
    | inl declined ↦
        (rw (eval_scalar_literal, declined) refl, rw (eval_scalar_literal, declined) refl)
    | inr read ↦
        let (r, found) = read in
        let (forward, backward) = eval_scalar_literal_lem reader row op v found h in
        (
          ap (λ f. answered f (do w ← value reader row; eval_scalar op (w ∷ v ∷ []))) forward
              ∙ answered-agree (value reader row) (λ w. eval_scalar op (w ∷ v ∷ []))
                  (do w ← value reader row; eval_scalar op (w ∷ v ∷ [])),
          ap (λ f. answered f (do w ← value reader row; eval_scalar op (v ∷ w ∷ []))) backward
              ∙ answered-agree (value reader row) (λ w. eval_scalar op (v ∷ w ∷ []))
                  (do w ← value reader row; eval_scalar op (v ∷ w ∷ [])),
        )
  ]

  column-Answers :
      (c : BoundColumn F) (ctx : EvalCtx F) (op : ScalarOp) (v : Value F)
      → is_comparison op ≡ true
      → Answers
          (column_literal c ctx op v false)
          (do w ← column_value c ctx; eval_scalar op (w ∷ v ∷ []))
        × Answers
            (column_literal c ctx op v true)
            (do w ← column_value c ctx; eval_scalar op (v ∷ w ∷ []))
  unfolding Answers answered column_literal column_value
  column-Answers (src reader) ctx op v h = reader-Answers reader ctx.src_node op v h
  column-Answers (dest reader) ctx op v h = reader-Answers reader ctx.dest_node op v h
  column-Answers (edge reader) ctx op v h = reader-Answers reader ctx.edge_id op v h
  column-Answers c ctx op v h = (refl, refl)

  module _ (fast : ScalarOp → Exprs F (BoundColumn F) → EvalCtx F → Result (Option (Value F))) where
    eval_with-column_expr :
        (e : Expr F (BoundColumn F)) (ctx : EvalCtx F) (c : BoundColumn F)
        → column_expr e ≡ some c
        → eval_with fast e ctx ≡ column_value c ctx
    unfolding column_expr eval_with
    eval_with-column_expr (column d) ctx c h = ap (λ x. column_value x ctx) (some-injective h)
    eval_with-column_expr (alias e name) ctx c h = eval_with-column_expr e ctx c h
    eval_with-column_expr e ctx c h = absurd cc

    eval_with-literal_expr :
        (e : Expr F (BoundColumn F)) (ctx : EvalCtx F) (v : Value F)
        → literal_expr e ≡ some v
        → eval_with fast e ctx ≡ ok v
    unfolding literal_expr eval_with
    eval_with-literal_expr (literal w) ctx v h = ap ok (some-injective h)
    eval_with-literal_expr (alias e name) ctx v h = eval_with-literal_expr e ctx v h
    eval_with-literal_expr e ctx v h = absurd cc

    -- The operator on the values of its arguments.
    unfoldable pub applied : ScalarOp → Exprs F (BoundColumn F) → EvalCtx F → Result (Value F)
    applied op args ctx = do vs ← eval_args fast args ctx; eval_scalar op vs

    applied-left :
        (op : ScalarOp) (l r : Expr F (BoundColumn F)) (ctx : EvalCtx F) (c : BoundColumn F)
        (v : Value F)
        → column_expr l ≡ some c
        → literal_expr r ≡ some v
        → (do w ← column_value c ctx; eval_scalar op (w ∷ v ∷ []))
          ≡ applied op (expr l (expr r no_exprs)) ctx
    unfolding applied eval_with
    applied-left op l r ctx c v h k =
        rw (eval_with-column_expr l ctx c h, eval_with-literal_expr r ctx v k)
          (flat (column_value c ctx))
      where
        flat :
            (m : Result (Value F))
            → (do w ← m; eval_scalar op (w ∷ v ∷ []))
              ≡ (do vs ← (do w ← m; ok (w ∷ v ∷ [])); eval_scalar op vs)
        flat (ok w) = refl
        flat (err e) = refl
        flat panic = refl
        flat out_of_fuel = refl

    applied-right :
        (op : ScalarOp) (l r : Expr F (BoundColumn F)) (ctx : EvalCtx F) (c : BoundColumn F)
        (v : Value F)
        → literal_expr l ≡ some v
        → column_expr r ≡ some c
        → (do w ← column_value c ctx; eval_scalar op (v ∷ w ∷ []))
          ≡ applied op (expr l (expr r no_exprs)) ctx
    unfolding applied eval_with
    applied-right op l r ctx c v h k =
        rw (eval_with-column_expr r ctx c k, eval_with-literal_expr l ctx v h)
          (flat (column_value c ctx))
      where
        flat :
            (m : Result (Value F))
            → (do w ← m; eval_scalar op (v ∷ w ∷ []))
              ≡ (do vs ← (do ws ← (do w ← m; ok (w ∷ [])); ok (v ∷ ws)); eval_scalar op vs)
        flat (ok w) = refl
        flat (err e) = refl
        flat panic = refl
        flat out_of_fuel = refl

    reversed-Answers :
        (op : ScalarOp) (l r : Expr F (BoundColumn F)) (ctx : EvalCtx F)
        → is_comparison op ≡ true
        → Answers
            (pair_literal (column_expr r) (literal_expr l) true op ctx)
            (applied op (expr l (expr r no_exprs)) ctx)
    unfolding Answers answered pair_literal
    reversed-Answers op l r ctx h = elim (Option-cases (column_expr r)) [
      | inl no_column ↦ rw (pair_literal, no_column) refl
      | inr with_column ↦
          let (c, k) = with_column in
          elim (Option-cases (literal_expr l)) [
            | inl no_literal ↦ rw (pair_literal, k, no_literal) refl
            | inr with_literal ↦
                let (v, j) = with_literal in
                rw (pair_literal, k, j)
                  (subst (Answers (column_literal c ctx op v true))
                    (applied-right op l r ctx c v j k) (column-Answers c ctx op v h).1)
          ]
    ]

    fast_args-Answers :
        (op : ScalarOp) (args : Exprs F (BoundColumn F)) (ctx : EvalCtx F)
        → is_comparison op ≡ true
        → expr_count args ≡ 2
        → Answers (fast_args op args ctx) (applied op args ctx)
    unfolding Answers fast_args expr_count
    fast_args-Answers op no_exprs ctx h e = absurd (omega arith)
    fast_args-Answers op (expr l no_exprs) ctx h e = absurd (omega arith)
    fast_args-Answers op (expr l (expr r (expr x rest))) ctx h e = absurd (omega arith)
    fast_args-Answers op (expr l (expr r no_exprs)) ctx h e = elim (Option-cases (column_expr l)) [
      | inl no_column ↦ rw (fast_args, no_column) (reversed-Answers op l r ctx h)
      | inr with_column ↦
          let (c, k) = with_column in
          elim (Option-cases (literal_expr r)) [
            | inl no_literal ↦ rw (fast_args, k, no_literal) (reversed-Answers op l r ctx h)
            | inr with_literal ↦
                let (v, j) = with_literal in
                rw (fast_args, k, j)
                  (subst (Answers (column_literal c ctx op v false))
                    (applied-left op l r ctx c v k j) (column-Answers c ctx op v h).0)
          ]
    ]

    pub fast-Answers :
        (op : ScalarOp) (args : Exprs F (BoundColumn F)) (ctx : EvalCtx F)
        → (is_comparison op ≡ true → expr_count args ≡ 2)
        → Answers (try_eval_scalar_fast_path op args ctx) (applied op args ctx)
    unfolding Answers answered try_eval_scalar_fast_path
    fast-Answers op args ctx arity = elim (Bool-cases (is_comparison op)) [
      | inr other ↦ rw (try_eval_scalar_fast_path, other) refl
      | inl h ↦ rw (try_eval_scalar_fast_path, h) (fast_args-Answers op args ctx h (arity h))
    ]
