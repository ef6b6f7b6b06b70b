-- ===== src/Dsl/Bind/Names.antt =====
-- crates/rxgraph/src/dsl/bind.rs, `BoundKernel::bind`: the errors of binding.
use Prim.Native.String.{String}
use rxgraph.Prelude.{◌≡◌, refl, ◌||◌, Option, none, some, List, [], ◌∷◌, Bool, true, false}
use rxgraph.Prelude.Keys.{string_key}
use rxgraph.Result.{Result, ok, err, panic, out_of_fuel, ◌>>=◌, or_err, map_result, missing_column}
use rxgraph.Graph.Preprocess.{id_col, edge_src_col, edge_dest_col}
use rxgraph.Dsl.Arrow.{ArrowArray, ColumnReader, boolean_array, reader_of, bind}
use rxgraph.Dsl.Bound.{BoundColumn}
use rxgraph.Dsl.Expr.{
  Expr, Exprs, ColumnRef, column, element, literal, alias, ternary, scalar, string, list_expr,
  struct_expr, no_exprs, expr, try_map_column, map_args,
}
use rxgraph.Dsl.Bind.{
  PayloadGraph, DslKernel, keys, state_names, bind_column, bind_entry, bind_kernel,
}
use rxgraph.Dsl.Bind.Order.{IsAscending}
use rxgraph.Dsl.Bind.Places.{
  has_name, state_index-has_name, state_names-has_name, state_names-IsAscending,
}

-- Ends in a value or an error.
abbrev pub Settles : {A : Type 0} → Result A → Type 0
Settles (ok a) = Unit {0}
Settles (err e) = Unit {0}
Settles panic = ⊥
Settles out_of_fuel = ⊥

Settles-bind :
    {A B : Type 0} (m : Result A) (k : A → Result B)
    → Settles m
    → ((a : A) → Settles (k a))
    → Settles (m >>= k)
Settles-bind (ok a) k h each = each a
Settles-bind (err e) k h each = tt
Settles-bind panic k h each = absurd h
Settles-bind out_of_fuel k h each = absurd h

module _ {F C D : Type 0} (f : C → Result D) (each : (c : C) → Settles (f c)) where
  mutual
    unfolding try_map_column

    try_map_column-Settles : (e : Expr F C) → Settles (try_map_column f e)
    try_map_column-Settles (column c) = Settles-bind (f c) (λ d. ok (column d)) (each c) (λ d. tt)
    try_map_column-Settles element = tt
    try_map_column-Settles (literal v) = tt
    try_map_column-Settles (alias e name) =
        Settles-bind (try_map_column f e) (λ e'. ok (alias e' name)) (try_map_column-Settles e)
          (λ e'. tt)
    try_map_column-Settles (ternary p t e) =
        Settles-bind (try_map_column f p)
          (λ p'. do t' ← try_map_column f t; e' ← try_map_column f e; ok (ternary p' t' e'))
          (try_map_column-Settles p)
          (λ p'.
            Settles-bind (try_map_column f t)
              (λ t'. do e' ← try_map_column f e; ok (ternary p' t' e')) (try_map_column-Settles t)
              (λ t'.
                Settles-bind (try_map_column f e) (λ e'. ok (ternary p' t' e'))
                  (try_map_column-Settles e) (λ e'. tt)))
    try_map_column-Settles (scalar op args) =
        Settles-bind (map_args f args) (λ args'. ok (scalar op args')) (map_args-Settles args)
          (λ args'. tt)
    try_map_column-Settles (string op args) =
        Settles-bind (map_args f args) (λ args'. ok (string op args')) (map_args-Settles args)
          (λ args'. tt)
    try_map_column-Settles (list_expr op args) =
        Settles-bind (map_args f args) (λ args'. ok (list_expr op args')) (map_args-Settles args)
          (λ args'. tt)
    try_map_column-Settles (struct_expr op args) =
        Settles-bind (map_args f args) (λ args'. ok (struct_expr op args')) (map_args-Settles args)
          (λ args'. tt)

    map_args-Settles : (args : Exprs F C) → Settles (map_args f args)
    map_args-Settles no_exprs = tt
    map_args-Settles (expr e args) =
        Settles-bind (try_map_column f e) (λ e'. do args' ← map_args f args; ok (expr e' args'))
          (try_map_column-Settles e)
          (λ e'.
            Settles-bind (map_args f args) (λ args'. ok (expr e' args')) (map_args-Settles args)
              (λ args'. tt))

module _ {F : Type 0} where
  reader_of-Settles : (name : String) (a : ArrowArray F) → Settles (reader_of name a)
  unfolding reader_of
  reader_of-Settles name (boolean_array a) = tt
  reader_of-Settles name a = tt

  bind-Settles :
      (batch : String → Option (ArrowArray F)) (name : String) → Settles (bind batch name)
  unfolding bind
  bind-Settles batch name =
      Settles-bind (or_err (batch name) (missing_column name)) (reader_of name) (found (batch name))
        (reader_of-Settles name)
    where
      found : (o : Option (ArrowArray F)) → Settles (or_err o (missing_column name))
      found none = tt
      found (some a) = tt

  by_reader :
      (batch : String → Option (ArrowArray F)) (name : String) (own : Bool) (id : BoundColumn F)
      (wrap : ColumnReader F → BoundColumn F)
      → Settles (elim own [ true ↦ ok id | false ↦ do reader ← bind batch name; ok (wrap reader) ])
  by_reader batch name true id wrap = tt
  by_reader batch name false id wrap =
      Settles-bind (bind batch name) (λ reader. ok (wrap reader)) (bind-Settles batch name)
        (λ reader. tt)

  by_endpoint :
      (own : Bool) (id : BoundColumn F) (m : Result (BoundColumn F))
      → Settles m
      → Settles (elim own [ true ↦ ok id | false ↦ m ])
  by_endpoint true id m h = tt
  by_endpoint false id m h = h

  bind_column-Settles :
      (graph : PayloadGraph F) (names : List String) (c : ColumnRef)
      → Settles (bind_column graph names c)
  unfolding bind_column
  bind_column-Settles graph names ColumnRef.src_id = tt
  bind_column-Settles graph names ColumnRef.dest_id = tt
  bind_column-Settles graph names ColumnRef.edge_id = tt
  bind_column-Settles graph names (ColumnRef.src_field name) =
      by_reader graph.nodes name (string_key.beq name id_col) BoundColumn.src_id
        (λ r. BoundColumn.src r)
  bind_column-Settles graph names (ColumnRef.dest_field name) =
      by_reader graph.nodes name (string_key.beq name id_col) BoundColumn.dest_id
        (λ r. BoundColumn.dest r)
  bind_column-Settles graph names (ColumnRef.edge_field name) =
      by_endpoint (string_key.beq name id_col) BoundColumn.edge_id _ (
        by_endpoint (string_key.beq name edge_src_col) BoundColumn.src_id _ (
          by_reader graph.edges name (string_key.beq name edge_dest_col) BoundColumn.dest_id
            (λ r. BoundColumn.edge r)))
  bind_column-Settles graph names (ColumnRef.state name) = tt

  bind_entries-Settles :
      (graph : PayloadGraph F) (names : List String) (entries : List (String × Expr F ColumnRef))
      → IsAscending names
      → ((q : String) → has_name (keys entries) q ≡ true → has_name names q ≡ true)
      → Settles (map_result (bind_entry graph names) entries)
  unfolding bind_entry keys has_name
  bind_entries-Settles graph names [] ascends inside = tt
  bind_entries-Settles graph names ((name, e) ∷ entries) ascends inside =
      let (i, found) =
        state_index-has_name names name ascends
          (inside name (rw ((string_key.beq_iff name name).1 refl) refl)) in
      rw found (
        Settles-bind (do e' ← try_map_column (bind_column graph names) e; ok (i, e'))
          (λ b. do bs ← map_result (bind_entry graph names) entries; ok (b ∷ bs))
          (Settles-bind (try_map_column (bind_column graph names) e) (λ e'. ok (i, e'))
            (try_map_column-Settles (bind_column graph names) (bind_column-Settles graph names) e)
            (λ e'. tt))
          (λ b.
            Settles-bind (map_result (bind_entry graph names) entries) (λ bs. ok (b ∷ bs))
              (bind_entries-Settles graph names entries ascends
                (λ q h. inside q (rw h (or_right (string_key.beq name q)))))
              (λ bs. tt)))
    where
      or_right : (b : Bool) → (b || true) ≡ true
      or_right true = refl
      or_right false = refl

  -- Binding a kernel to a graph ends in a bound kernel or an error: the binary search finds the place
  -- of each state that the kernel writes, and nothing panics.
  pub bind_kernel-Settles :
      (graph : PayloadGraph F) (kernel : DslKernel F) → Settles (bind_kernel graph kernel)
  unfolding bind_kernel
  bind_kernel-Settles graph kernel =
      Settles-bind (try_map_column (bind_column graph names) kernel.visit) _ (columns kernel.visit)
        (λ visit.
          Settles-bind (map_result (bind_entry graph names) kernel.next_state) _
            (bind_entries-Settles graph names kernel.next_state ascends inside)
            (λ next_state.
              Settles-bind (try_map_column (bind_column graph names) kernel.stop) _
                (columns kernel.stop) (λ stop. tt)))
    where
      names : List String
      names = state_names kernel.initial_state kernel.next_state

      ascends : IsAscending names
      ascends = state_names-IsAscending kernel.initial_state kernel.next_state

      columns : (e : Expr F ColumnRef) → Settles (try_map_column (bind_column graph names) e)
      columns = try_map_column-Settles (bind_column graph names) (bind_column-Settles graph names)

      inside : (q : String) → has_name (keys kernel.next_state) q ≡ true → has_name names q ≡ true
      inside q h = state_names-has_name kernel.initial_state kernel.next_state q h
