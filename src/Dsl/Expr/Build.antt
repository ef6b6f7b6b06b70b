-- ===== src/Dsl/Expr/Build.antt =====
-- crates/rxgraph/src/dsl/expr.rs, `DslExpr`: the methods that build expressions.
use Prim.Native.String.{String}
use rxgraph.Prelude.{ℕ, Bool}
use rxgraph.Dsl.Integer.{ℤ}
use rxgraph.Dsl.Value.{Value}
use rxgraph.Dsl.Scalar.{ScalarOp}
use rxgraph.Dsl.Texts.{StringOp}
use rxgraph.Dsl.Lists.{ListOp}
use rxgraph.Dsl.Expr.{Expr, Exprs, ColumnRef}

module _ {F : Type 0} where
  unfoldable pub src : String → Expr F ColumnRef
  src name = Expr.column (ColumnRef.src_field name)

  unfoldable pub dest : String → Expr F ColumnRef
  dest name = Expr.column (ColumnRef.dest_field name)

  unfoldable pub edge : String → Expr F ColumnRef
  edge name = Expr.column (ColumnRef.edge_field name)

  unfoldable pub state : String → Expr F ColumnRef
  state name = Expr.column (ColumnRef.state name)

  unfoldable pub src_id : Expr F ColumnRef
  src_id = Expr.column ColumnRef.src_id

  unfoldable pub dest_id : Expr F ColumnRef
  dest_id = Expr.column ColumnRef.dest_id

  unfoldable pub edge_id : Expr F ColumnRef
  edge_id = Expr.column ColumnRef.edge_id

  unfoldable pub lit : Value F → Expr F ColumnRef
  lit v = Expr.literal v

  unfoldable pub null_lit : Expr F ColumnRef
  unfolding lit
  null_lit = lit Value.null

  unfoldable pub bool_lit : Bool → Expr F ColumnRef
  unfolding lit
  bool_lit value = lit (Value.bool value)

  unfoldable pub int_lit : ℤ → Expr F ColumnRef
  unfolding lit
  int_lit value = lit (Value.i64 value)

  unfoldable pub uint_lit : ℕ → Expr F ColumnRef
  unfolding lit
  uint_lit value = lit (Value.u64 value)

  unfoldable pub float_lit : F → Expr F ColumnRef
  unfolding lit
  float_lit value = lit (Value.f64 value)

  unfoldable pub string_lit : String → Expr F ColumnRef
  unfolding lit
  string_lit value = lit (Value.str value)

  unfoldable pub when : Expr F ColumnRef → Expr F ColumnRef → Expr F ColumnRef → Expr F ColumnRef
  when predicate truthy falsy = Expr.ternary predicate truthy falsy

  -- `scalar` and `string_op`: the receiver comes first.
  unfoldable pub scalar_of : Expr F ColumnRef → ScalarOp → Exprs F ColumnRef → Expr F ColumnRef
  scalar_of lhs op rhs = Expr.scalar op (Exprs.expr lhs rhs)

  unfoldable pub string_of_op : Expr F ColumnRef → StringOp → Exprs F ColumnRef → Expr F ColumnRef
  string_of_op lhs op rhs = Expr.string op (Exprs.expr lhs rhs)

  unfoldable pub and : Expr F ColumnRef → Expr F ColumnRef → Expr F ColumnRef
  unfolding scalar_of
  and lhs rhs = scalar_of lhs ScalarOp.and (Exprs.expr rhs Exprs.no_exprs)

  unfoldable pub or : Expr F ColumnRef → Expr F ColumnRef → Expr F ColumnRef
  unfolding scalar_of
  or lhs rhs = scalar_of lhs ScalarOp.or (Exprs.expr rhs Exprs.no_exprs)

  unfoldable pub eq : Expr F ColumnRef → Expr F ColumnRef → Expr F ColumnRef
  unfolding scalar_of
  eq lhs rhs = scalar_of lhs ScalarOp.equals (Exprs.expr rhs Exprs.no_exprs)

  unfoldable pub ne : Expr F ColumnRef → Expr F ColumnRef → Expr F ColumnRef
  unfolding scalar_of
  ne lhs rhs = scalar_of lhs ScalarOp.not_eq (Exprs.expr rhs Exprs.no_exprs)

  unfoldable pub lt : Expr F ColumnRef → Expr F ColumnRef → Expr F ColumnRef
  unfolding scalar_of
  lt lhs rhs = scalar_of lhs ScalarOp.lt (Exprs.expr rhs Exprs.no_exprs)

  unfoldable pub le : Expr F ColumnRef → Expr F ColumnRef → Expr F ColumnRef
  unfolding scalar_of
  le lhs rhs = scalar_of lhs ScalarOp.lt_eq (Exprs.expr rhs Exprs.no_exprs)

  unfoldable pub gt : Expr F ColumnRef → Expr F ColumnRef → Expr F ColumnRef
  unfolding scalar_of
  gt lhs rhs = scalar_of lhs ScalarOp.gt (Exprs.expr rhs Exprs.no_exprs)

  unfoldable pub ge : Expr F ColumnRef → Expr F ColumnRef → Expr F ColumnRef
  unfolding scalar_of
  ge lhs rhs = scalar_of lhs ScalarOp.gt_eq (Exprs.expr rhs Exprs.no_exprs)

  unfoldable pub plus : Expr F ColumnRef → Expr F ColumnRef → Expr F ColumnRef
  unfolding scalar_of
  plus lhs rhs = scalar_of lhs ScalarOp.plus (Exprs.expr rhs Exprs.no_exprs)

  unfoldable pub minus : Expr F ColumnRef → Expr F ColumnRef → Expr F ColumnRef
  unfolding scalar_of
  minus lhs rhs = scalar_of lhs ScalarOp.minus (Exprs.expr rhs Exprs.no_exprs)

  unfoldable pub multiply : Expr F ColumnRef → Expr F ColumnRef → Expr F ColumnRef
  unfolding scalar_of
  multiply lhs rhs = scalar_of lhs ScalarOp.multiply (Exprs.expr rhs Exprs.no_exprs)

  unfoldable pub divide : Expr F ColumnRef → Expr F ColumnRef → Expr F ColumnRef
  unfolding scalar_of
  divide lhs rhs = scalar_of lhs ScalarOp.divide (Exprs.expr rhs Exprs.no_exprs)

  unfoldable pub modulo : Expr F ColumnRef → Expr F ColumnRef → Expr F ColumnRef
  unfolding scalar_of
  modulo lhs rhs = scalar_of lhs ScalarOp.modulus (Exprs.expr rhs Exprs.no_exprs)

  unfoldable pub bit_and : Expr F ColumnRef → Expr F ColumnRef → Expr F ColumnRef
  unfolding scalar_of
  bit_and lhs rhs = scalar_of lhs ScalarOp.bit_and_op (Exprs.expr rhs Exprs.no_exprs)

  unfoldable pub bit_or : Expr F ColumnRef → Expr F ColumnRef → Expr F ColumnRef
  unfolding scalar_of
  bit_or lhs rhs = scalar_of lhs ScalarOp.bit_or_op (Exprs.expr rhs Exprs.no_exprs)

  unfoldable pub bit_xor : Expr F ColumnRef → Expr F ColumnRef → Expr F ColumnRef
  unfolding scalar_of
  bit_xor lhs rhs = scalar_of lhs ScalarOp.bit_xor_op (Exprs.expr rhs Exprs.no_exprs)

  unfoldable pub mask_if_any :
      Expr F ColumnRef → Expr F ColumnRef → Expr F ColumnRef → Expr F ColumnRef
  unfolding scalar_of
  mask_if_any lhs mask then_value =
      scalar_of lhs ScalarOp.mask_if_any (Exprs.expr mask (Exprs.expr then_value Exprs.no_exprs))

  unfoldable pub not : Expr F ColumnRef → Expr F ColumnRef
  not operand = Expr.scalar ScalarOp.not_op (Exprs.expr operand Exprs.no_exprs)

  unfoldable pub is_null : Expr F ColumnRef → Expr F ColumnRef
  is_null operand = Expr.scalar ScalarOp.is_null_op (Exprs.expr operand Exprs.no_exprs)

  unfoldable pub is_not_null : Expr F ColumnRef → Expr F ColumnRef
  is_not_null operand = Expr.scalar ScalarOp.is_not_null_op (Exprs.expr operand Exprs.no_exprs)

  unfoldable pub str_contains : Expr F ColumnRef → Expr F ColumnRef → Expr F ColumnRef
  unfolding string_of_op
  str_contains lhs rhs = string_of_op lhs StringOp.contains_op (Exprs.expr rhs Exprs.no_exprs)

  unfoldable pub str_starts_with : Expr F ColumnRef → Expr F ColumnRef → Expr F ColumnRef
  unfolding string_of_op
  str_starts_with lhs rhs = string_of_op lhs StringOp.starts_with_op (Exprs.expr rhs Exprs.no_exprs)

  unfoldable pub str_ends_with : Expr F ColumnRef → Expr F ColumnRef → Expr F ColumnRef
  unfolding string_of_op
  str_ends_with lhs rhs = string_of_op lhs StringOp.ends_with_op (Exprs.expr rhs Exprs.no_exprs)

  unfoldable pub concat_list : Exprs F ColumnRef → Expr F ColumnRef
  concat_list values = Expr.list_expr ListOp.concat_op values
