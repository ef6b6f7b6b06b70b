-- ===== src/Dsl/Bind.antt =====
-- crates/rxgraph/src/dsl/bind.rs and mod.rs: a kernel of expressions, bound to a graph, and its
-- transition at a candidate edge.
pub mod Order
pub mod Places
pub mod Names
pub mod States
use Prim.Native.Nat.{Ordering}
use Prim.Native.String.{String, compare as compare_str}
use rxgraph.Prelude.{
  ℕ, zero, suc, get_elem?, Option, none, some, List, [], ◌∷◌, ◌++◌, Bool, true, false, ◌≡◌,
}
use rxgraph.Prelude.Keys.{string_key}
use rxgraph.Result.{Result, ok, err, panic, out_of_fuel, ◌>>=◌, or_panic, map_result, store}
use rxgraph.Graph.Csr.{NodeId, EdgeId}
use rxgraph.Graph.Identity.{Identity}
use rxgraph.Graph.Preprocess.{id_col, edge_src_col, edge_dest_col}
use rxgraph.Dsl.Float.{Float}
use rxgraph.Dsl.Value.{Value, null, truthy}
use rxgraph.Dsl.Arrow.{ArrowArray, bind}
use rxgraph.Dsl.Expr.{Expr, ColumnRef, try_map_column}
use rxgraph.Dsl.Lists.Sorting.{sort_by}
use rxgraph.Dsl.Search.{binary_search_by}
use rxgraph.Dsl.Bound.{StateValue, BoundColumn, EvalCtx, context, state_value, to_state_value}
use rxgraph.Dsl.Eval.{eval}

-- What binding and evaluation read of a graph: its ids and its payload columns.
pub record PayloadGraph (F : Type 0) : Type 0 where
  pub identity : Identity
  pub nodes : String → Option (ArrowArray F)
  pub edges : String → Option (ArrowArray F)

pub record DslKernel (F : Type 0) : Type 0 where
  pub visit : Expr F ColumnRef
  pub next_state : List (String × Expr F ColumnRef)
  pub stop : Expr F ColumnRef
  pub initial_state : List (String × Value F)

pub record BoundKernel (F : Type 0) : Type 0 where
  pub visit : Expr F (BoundColumn F)
  pub next_state : List (ℕ × Expr F (BoundColumn F))
  pub stop : Expr F (BoundColumn F)
  pub names : List String
  pub initial_state : List (StateValue F)

pub data Transition (S : Type 0) : Type 0 where
  reject : Transition S
  continue complete : S → Transition S

-- Of equal neighbours, `dedup` keeps the first.
unfoldable pub dedup : List String → List String
dedup [] = []
dedup (s ∷ []) = s ∷ []
dedup (s ∷ t ∷ names) =
    let rest = dedup (t ∷ names) in elim (string_key.beq s t) [ true ↦ rest | false ↦ s ∷ rest ]

unfoldable pub state_index : List String → String → Option ℕ
unfolding binary_search_by
state_index names name = binary_search_by (λ key. compare_str key name) names

unfoldable pub keys : {A : Type 0} → List (String × A) → List String
keys [] = []
keys ((name, a) ∷ entries) = name ∷ keys entries

-- `DslKernel::new` sorts the initial state by name.
unfoldable pub by_name : {A : Type 0} → String × A → String × A → Ordering
by_name a b = compare_str a.0 b.0

module _ {F : Type 0} where
  unfoldable pub new_kernel :
      Expr F ColumnRef
      → List (String × Expr F ColumnRef)
      → Expr F ColumnRef
      → List (String × Value F)
      → DslKernel F
  unfolding sort_by by_name
  new_kernel visit next_state stop initial_state = record {
    visit = visit;
    next_state = next_state;
    stop = stop;
    initial_state = sort_by by_name initial_state;
  }

  unfoldable pub state_names :
      List (String × Value F) → List (String × Expr F ColumnRef) → List String
  unfolding dedup sort_by keys
  state_names initial next = dedup (sort_by compare_str (keys initial ++ keys next))

  -- The value of an entry that is found.
  unfoldable pub value_or_null : Option (String × Value F) → Value F
  value_or_null none = null
  value_or_null (some (key, v)) = v

  unfoldable pub entry_value : List (String × Value F) → String → Value F
  unfolding binary_search_by value_or_null
  entry_value entries name = elim (binary_search_by (λ e. compare_str e.0 name) entries) [
    | none ↦ null
    | some i ↦ value_or_null (get_elem? entries i)
  ]

  unfoldable pub normalize_state : List (String × Value F) → List String → List (StateValue F)
  unfolding entry_value state_value
  normalize_state state [] = []
  normalize_state state (name ∷ names) =
      state_value (entry_value state name) ∷ normalize_state state names

  -- By name, unless the name is that of an identity column.
  unfoldable pub bound_state : Option ℕ → BoundColumn F
  bound_state none = BoundColumn.missing_state
  bound_state (some i) = BoundColumn.state i

  unfoldable pub bind_column : PayloadGraph F → List String → ColumnRef → Result (BoundColumn F)
  unfolding bind bound_state state_index
  bind_column graph names ColumnRef.src_id = ok BoundColumn.src_id
  bind_column graph names ColumnRef.dest_id = ok BoundColumn.dest_id
  bind_column graph names ColumnRef.edge_id = ok BoundColumn.edge_id
  bind_column graph names (ColumnRef.src_field name) = elim (string_key.beq name id_col) [
    | true ↦ ok BoundColumn.src_id
    | false ↦ do reader ← bind graph.nodes name; ok (BoundColumn.src reader)
  ]
  bind_column graph names (ColumnRef.dest_field name) = elim (string_key.beq name id_col) [
    | true ↦ ok BoundColumn.dest_id
    | false ↦ do reader ← bind graph.nodes name; ok (BoundColumn.dest reader)
  ]
  bind_column graph names (ColumnRef.edge_field name) = elim (string_key.beq name id_col) [
    | true ↦ ok BoundColumn.edge_id
    | false ↦ elim (string_key.beq name edge_src_col) [
      | true ↦ ok BoundColumn.src_id
      | false ↦ elim (string_key.beq name edge_dest_col) [
        | true ↦ ok BoundColumn.dest_id
        | false ↦ do reader ← bind graph.edges name; ok (BoundColumn.edge reader)
      ]
    ]
  ]
  bind_column graph names (ColumnRef.state name) = ok (bound_state (state_index names name))

  -- `state_index(…).unwrap()`, then the expression.
  unfoldable pub bind_entry :
      PayloadGraph F → List String → String × Expr F ColumnRef → Result (ℕ × Expr F (BoundColumn F))
  unfolding state_index bind_column try_map_column
  bind_entry graph names (name, e) = do
    i ← or_panic (state_index names name)
    e' ← try_map_column (bind_column graph names) e
    ok (i, e')

  unfoldable pub bind_kernel : PayloadGraph F → DslKernel F → Result (BoundKernel F)
  unfolding state_names bind_entry bind_column try_map_column normalize_state
  bind_kernel graph kernel = do
    let names = state_names kernel.initial_state kernel.next_state
    visit ← try_map_column (bind_column graph names) kernel.visit
    next_state ← map_result (bind_entry graph names) kernel.next_state
    stop ← try_map_column (bind_column graph names) kernel.stop
    ok (record {
      visit = visit;
      next_state = next_state;
      stop = stop;
      names = names;
      initial_state = normalize_state kernel.initial_state names;
    })

  unfoldable pub state_row : List String → List (StateValue F) → List (String × Value F)
  unfolding to_state_value
  state_row [] values = []
  state_row (name ∷ names) [] = []
  state_row (name ∷ names) (v ∷ values) = (name, to_state_value v) ∷ state_row names values

module _ {F : Type 0} ⦃float : Float F⦄ where
  unfoldable pub eval_test : Expr F (BoundColumn F) → EvalCtx F → Result Bool
  unfolding eval truthy
  eval_test e ctx = do v ← eval e ctx; truthy v

  -- `next` starts as the current state; the expressions read the context's.
  unfoldable pub next_state_from :
      List (ℕ × Expr F (BoundColumn F))
      → List (StateValue F)
      → EvalCtx F
      → Result (List (StateValue F))
  unfolding eval state_value
  next_state_from [] next ctx = ok next
  next_state_from ((i, e) ∷ entries) next ctx = do
    v ← eval e ctx
    next' ← store next i (state_value v)
    next_state_from entries next' ctx

  unfoldable pub transition :
      BoundKernel F
      → Identity
      → NodeId
      → NodeId
      → EdgeId
      → List (StateValue F)
      → Result (Transition (List (StateValue F)))
  unfolding eval_test next_state_from context
  transition kernel identity src dest edge state = do
    visited ← eval_test kernel.visit (context identity src dest edge state)
    elim visited [
      | false ↦ ok reject
      | true ↦ do
        next ← next_state_from kernel.next_state state (context identity src dest edge state)
        stopped ← eval_test kernel.stop (context identity src dest edge next)
        ok (elim stopped [ true ↦ complete next | false ↦ continue next ])
    ]
