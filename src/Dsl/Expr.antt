-- ===== src/Dsl/Expr.antt =====
-- crates/rxgraph/src/dsl/expr.rs: expressions over columns of a type, and the change of columns.
pub mod Shape
pub mod Build
use Prim.Native.String.{String}
use rxgraph.Prelude.{ℕ, suc}
use rxgraph.Result.{Result, ok, ◌>>=◌}
use rxgraph.Dsl.Value.{Value}
use rxgraph.Dsl.Scalar.{ScalarOp}
use rxgraph.Dsl.Texts.{StringOp}
use rxgraph.Dsl.Lists.{ListOp}
use rxgraph.Dsl.Structs.{StructOp}

mutual
  pub data Expr (F C : Type 0) : Type 0 where
    column : C → Expr F C
    element : Expr F C
    literal : Value F → Expr F C
    alias : Expr F C → String → Expr F C
    ternary : Expr F C → Expr F C → Expr F C → Expr F C
    scalar : ScalarOp → Exprs F C → Expr F C
    string : StringOp → Exprs F C → Expr F C
    list_expr : ListOp → Exprs F C → Expr F C
    struct_expr : StructOp → Exprs F C → Expr F C

  -- `Vec<Expr<C>>`.
  pub data Exprs (F C : Type 0) : Type 0 where
    no_exprs : Exprs F C
    expr : Expr F C → Exprs F C → Exprs F C

pub data ColumnRef : Type 0 where
  src_id dest_id edge_id : ColumnRef
  src_field dest_field edge_field : String → ColumnRef
  state : String → ColumnRef

module _ {F C D : Type 0} where
  unfoldable mutual
    pub try_map_column : (C → Result D) → Expr F C → Result (Expr F D)
    try_map_column f (column c) = do d ← f c; ok (column d)
    try_map_column f element = ok element
    try_map_column f (literal v) = ok (literal v)
    try_map_column f (alias e name) = do e' ← try_map_column f e; ok (alias e' name)
    try_map_column f (ternary predicate truthy falsy) = do
      p ← try_map_column f predicate
      t ← try_map_column f truthy
      e ← try_map_column f falsy
      ok (ternary p t e)
    try_map_column f (scalar op args) = do args' ← map_args f args; ok (scalar op args')
    try_map_column f (string op args) = do args' ← map_args f args; ok (string op args')
    try_map_column f (list_expr op args) = do args' ← map_args f args; ok (list_expr op args')
    try_map_column f (struct_expr op args) = do args' ← map_args f args; ok (struct_expr op args')

    pub map_args : (C → Result D) → Exprs F C → Result (Exprs F D)
    map_args f no_exprs = ok no_exprs
    map_args f (expr e args) = do
      e' ← try_map_column f e
      args' ← map_args f args
      ok (expr e' args')

-- `args.len()`.
unfoldable pub expr_count : {F C : Type 0} → Exprs F C → ℕ
expr_count no_exprs = 0
expr_count (expr e args) = suc (expr_count args)
