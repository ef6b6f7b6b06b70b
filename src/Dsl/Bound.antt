-- ===== src/Dsl/Bound.antt =====
-- crates/rxgraph/src/dsl/bind.rs, eval.rs and mod.rs: columns bound to a graph, and the context of an
-- evaluation.
use rxgraph.Prelude.{ℕ, Option, none, some, List, Bool}
use rxgraph.Result.{Result, ok, ◌>>=◌, or_err, index, GraphId, num, text, missing_id}
use rxgraph.Graph.Csr.{NodeId, EdgeId}
use rxgraph.Graph.Identity.{Identity, external_node, external_edge}
use rxgraph.Dsl.Float.{Float}
use rxgraph.Dsl.Value.{Value, null, u64, str, list, struct}
use rxgraph.Dsl.Scalar.{ScalarOp}
use rxgraph.Dsl.Arrow.{ColumnReader, value}
use rxgraph.Dsl.Column.{eval_scalar_literal}

-- Lists and structs are shared, other values stand in line.
pub data StateValue (F : Type 0) : Type 0 where
  inline shared : Value F → StateValue F

pub data BoundColumn (F : Type 0) : Type 0 where
  src_id dest_id edge_id missing_state : BoundColumn F
  src dest edge : ColumnReader F → BoundColumn F
  state : ℕ → BoundColumn F

-- Of the graph, the evaluation reads the identity; the columns hold their arrays.
pub record EvalCtx (F : Type 0) : Type 0 where
  pub identity : Identity
  pub src_node : NodeId
  pub dest_node : NodeId
  pub edge_id : EdgeId
  pub values : List (StateValue F)
  pub current : Option (Value F)

module _ {F : Type 0} where
  unfoldable pub state_value : Value F → StateValue F
  state_value (list values) = shared (list values)
  state_value (struct entries) = shared (struct entries)
  state_value v = inline v

  unfoldable pub to_state_value : StateValue F → Value F
  to_state_value (inline v) = v
  to_state_value (shared v) = v

  -- `EvalCtx::new`.
  unfoldable pub context : Identity → NodeId → NodeId → EdgeId → List (StateValue F) → EvalCtx F
  context identity src_row dest_row edge_row values = record {
    identity = identity;
    src_node = src_row;
    dest_node = dest_row;
    edge_id = edge_row;
    values = values;
    current = none;
  }

  unfoldable pub with_element : EvalCtx F → Value F → EvalCtx F
  with_element ctx v = record ctx { current = some v }

  unfoldable pub graph_id_value : GraphId → Value F
  graph_id_value (num n) = u64 n
  graph_id_value (text s) = str s

  unfoldable pub id_value : Option GraphId → Result (Value F)
  unfolding graph_id_value
  id_value id = do found ← or_err id missing_id; ok (graph_id_value found)

  unfoldable pub column_value : BoundColumn F → EvalCtx F → Result (Value F)
  unfolding id_value external_node external_edge to_state_value value
  column_value src_id ctx = id_value (external_node ctx.identity ctx.src_node)
  column_value dest_id ctx = id_value (external_node ctx.identity ctx.dest_node)
  column_value edge_id ctx = id_value (external_edge ctx.identity ctx.edge_id)
  column_value (src reader) ctx = value reader ctx.src_node
  column_value (dest reader) ctx = value reader ctx.dest_node
  column_value (edge reader) ctx = value reader ctx.edge_id
  column_value (state i) ctx = do v ← index ctx.values i; ok (to_state_value v)
  column_value missing_state ctx = ok null

module _ {F : Type 0} ⦃float : Float F⦄ where
  unfoldable pub column_literal :
      BoundColumn F → EvalCtx F → ScalarOp → Value F → Bool → Result (Option (Value F))
  unfolding eval_scalar_literal
  column_literal (src reader) ctx op literal reverse =
      eval_scalar_literal reader ctx.src_node op literal reverse
  column_literal (dest reader) ctx op literal reverse =
      eval_scalar_literal reader ctx.dest_node op literal reverse
  column_literal (edge reader) ctx op literal reverse =
      eval_scalar_literal reader ctx.edge_id op literal reverse
  column_literal _ ctx op literal reverse = ok none
