-- ===== src/Dsl/Expr/Shape.antt =====
-- crates/rxgraph/src/dsl/expr.rs: the shape of an expression.
use rxgraph.Prelude.{◌≡◌, true}
use rxgraph.Dsl.Column.{is_comparison}
use rxgraph.Dsl.Expr.{
  Expr, Exprs, column, element, literal, alias, ternary, scalar, string, list_expr, struct_expr,
  no_exprs, expr, expr_count,
}

module _ {F C : Type 0} where
  -- Every comparison has two arguments, as those that the constructors of `DslExpr` make.
  unfoldable mutual
    unfolding expr_count

    pub WellFormed : Expr F C → Type 0
    WellFormed (column c) = Unit {0}
    WellFormed element = Unit {0}
    WellFormed (literal v) = Unit {0}
    WellFormed (alias e name) = WellFormed e
    WellFormed (ternary predicate truthy falsy) =
        WellFormed predicate × WellFormed truthy × WellFormed falsy
    WellFormed (scalar op args) =
        (is_comparison op ≡ true → expr_count args ≡ 2) × AllWellFormed args
    WellFormed (string op args) = AllWellFormed args
    WellFormed (list_expr op args) = AllWellFormed args
    WellFormed (struct_expr op args) = AllWellFormed args

    pub AllWellFormed : Exprs F C → Type 0
    AllWellFormed no_exprs = Unit {0}
    AllWellFormed (expr e args) = WellFormed e × AllWellFormed args
