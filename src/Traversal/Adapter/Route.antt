-- ===== src/Traversal/Adapter/Route.antt =====
-- The route of an arena entry, and the path that `materialize` makes of it.
use mathlib.Core.List.{reverse_aux}
use mathlib.Core.Option
use rxgraph.Prelude.{
  ℕ, zero, suc, ◌+◌, ◌<◌, ◌≡◌, refl, ap, sym, ◌∙◌, Bool, true, false, Option, none, some, List, [],
  ◌∷◌, map, reverse, inl, inr, if◌then◌else◌, Option-cases, arith, length, length-map, get_elem?,
  get_elem?-lt, All,
}
use rxgraph.Result.{GraphId, Result, ok, ◌>>=◌, index-get_elem?, Returns}
use rxgraph.Graph.Csr.{NodeId, EdgeId}
use rxgraph.Graph.Identity.{Identity, external_node, external_edge}
use rxgraph.Traversal.Arena.{PathEntry}
use rxgraph.Traversal.Adapter.{Climbed, climb_edge, climb_state, climb_entry, climb, materialize}

length-reverse_aux :
    {A : Type 0} (xs ys : List A) → length (reverse_aux xs ys) ≡ length xs + length ys
length-reverse_aux [] ys = omega arith
length-reverse_aux (x ∷ xs) ys = omega (arith, length-reverse_aux xs (x ∷ ys))

module _ {S : Type 0} where
  -- The entries of the path that ends in entry `i`, last first. Only a start has no edge.
  pub data Route (arena : List (PathEntry S)) : ℕ → List (PathEntry S) → Type 0 where
    begin :
        {i : ℕ} (e : PathEntry S)
        → get_elem? arena i ≡ some e
        → e.parent ≡ none
        → e.incoming_edge ≡ none
        → Route arena i (e ∷ [])
    onward :
        {i : ℕ} (e : PathEntry S) (p : ℕ) (edge : EdgeId) {es : List (PathEntry S)}
        → get_elem? arena i ≡ some e
        → e.parent ≡ some p
        → e.incoming_edge ≡ some edge
        → p < i
        → Route arena p es
        → Route arena i (e ∷ es)

  abbrev last_entry : List (PathEntry S) → Option (PathEntry S)
  last_entry [] = none
  last_entry (e ∷ es) = some e

  Route-at :
      (arena : List (PathEntry S)) {i : ℕ} {es : List (PathEntry S)}
      → Route arena i es
      → get_elem? arena i ≡ last_entry es
  Route-at arena (begin e at top bare) = at
  Route-at arena (onward e p edge at up via lt route) = at

  -- The edges of a route, last first.
  abbrev pub steps : List (PathEntry S) → List EdgeId
  steps [] = []
  steps (e ∷ es) = elim e.incoming_edge [ none ↦ steps es | some edge ↦ edge ∷ steps es ]

  steps-Route :
      (arena : List (PathEntry S)) {i : ℕ} {es : List (PathEntry S)}
      → Route arena i es
      → length es ≡ length (steps es) + 1
  steps-Route arena (begin e at top bare) = rw bare (omega arith)
  steps-Route arena (onward e p edge at up via lt route) =
      rw via (omega (arith, steps-Route arena route))

module _ {S O : Type 0} (identity : Identity) (project : S → Result O)
    (node_name : NodeId → GraphId) (edge_name : EdgeId → GraphId) (shown : S → O) where
  -- The ids of an entry are known, and its state is projected.
  pub record IsNamed (e : PathEntry S) : Type 0 where
    pub node_known : external_node identity e.node ≡ some (node_name e.node)
    pub edge_known :
        (edge : EdgeId)
        → e.incoming_edge ≡ some edge
        → external_edge identity edge ≡ some (edge_name edge)
    pub projected : project e.state ≡ ok (shown e.state)

  abbrev step_edge : Option EdgeId → List GraphId → List GraphId
  step_edge none edges = edges
  step_edge (some edge) edges = edge_name edge ∷ edges

  -- What an entry, and what the entries of a route put before what there is.
  abbrev step : PathEntry S → Climbed O → Climbed O
  step e c = record {
    nodes = node_name e.node ∷ c.nodes;
    edges = step_edge e.incoming_edge c.edges;
    states = Option.map (λ states. shown e.state ∷ states) c.states;
  }

  abbrev climbed : List (PathEntry S) → Climbed O → Climbed O
  climbed [] c = c
  climbed (e ∷ es) c = climbed es (step e c)

  climb_state_lem :
      (e : PathEntry S) (states : Option (List O))
      → IsNamed e
      → climb_state identity project e.state states
        ≡ ok (Option.map (λ below. shown e.state ∷ below) states)
  unfolding climb_state
  climb_state_lem e none named = refl
  climb_state_lem e (some states) named = rw (named.projected) refl

  climb_edge_lem :
      (e : PathEntry S) (edges : List GraphId)
      → IsNamed e
      → climb_edge identity project e.incoming_edge edges ≡ ok (step_edge e.incoming_edge edges)
  unfolding climb_edge
  climb_edge_lem e edges named = elim (Option-cases e.incoming_edge) [
    | inl bare ↦ rw bare refl
    | inr via ↦ let (edge, at) = via in rw (at, named.edge_known edge at) refl
  ]

  climb_entry_lem :
      (e : PathEntry S) (c : Climbed O)
      → IsNamed e
      → climb_entry identity project e c ≡ ok (step e c)
  unfolding climb_entry
  climb_entry_lem e c named =
      rw (named.node_known, climb_edge_lem e c.edges named, climb_state_lem e c.states named) refl

  climb_lem :
      (fuel : ℕ) (arena : List (PathEntry S)) (c : Climbed O) {i : ℕ} {es : List (PathEntry S)}
      → Route arena i es
      → i < fuel
      → All IsNamed es
      → climb identity project fuel arena i c ≡ ok (climbed es c)
  unfolding climb
  climb_lem zero arena c route lt named = absurd (omega arith)
  climb_lem (suc fuel) arena c {i} (begin e at top bare) lt named =
      rw (index-get_elem? arena i e at, ◌>>=◌, climb_entry_lem e c named.0, top) refl
  climb_lem (suc fuel) arena c {i} (onward e p edge at up via below route) lt named =
      rw (index-get_elem? arena i e at, ◌>>=◌, climb_entry_lem e c named.0, up)
        (climb_lem fuel arena (step e c) route (omega arith) named.1)

  climbed-nodes :
      (es : List (PathEntry S)) (c : Climbed O)
      → (climbed es c).nodes ≡ reverse_aux (map (λ e. node_name e.node) es) c.nodes
  climbed-nodes [] c = refl
  climbed-nodes (e ∷ es) c = climbed-nodes es (step e c)

  climbed-edges :
      (es : List (PathEntry S)) (c : Climbed O)
      → (climbed es c).edges ≡ reverse_aux (map edge_name (steps es)) c.edges
  climbed-edges [] c = refl
  climbed-edges (e ∷ es) c = elim (Option-cases e.incoming_edge) [
    | inl bare ↦ climbed-edges es (step e c) ∙ rw bare refl
    | inr via ↦ let (edge, at) = via in climbed-edges es (step e c) ∙ rw at refl
  ]

  map_id :
      {A : Type 0} (f : List A → List A) (o : Option (List A))
      → ((xs : List A) → f xs ≡ xs)
      → Option.map f o ≡ o
  map_id f none same = refl
  map_id f (some xs) same = ap some (same xs)

  climbed-states :
      (es : List (PathEntry S)) (c : Climbed O)
      → (climbed es c).states ≡ Option.map (reverse_aux (map (λ e. shown e.state) es)) c.states
  climbed-states [] c = sym (map_id (reverse_aux []) c.states (λ xs. refl))
  climbed-states (e ∷ es) c = climbed-states es (step e c) ∙ fused c.states
    where
      fused :
          (o : Option (List O))
          → Option.map
              (reverse_aux (map (λ d. shown d.state) es))
              (Option.map (λ states. shown e.state ∷ states) o)
            ≡ Option.map (reverse_aux (map (λ d. shown d.state) (e ∷ es))) o
      fused none = refl
      fused (some xs) = refl

  -- If the ids of the entries on a route are known and their states can be projected,
  -- `materialize` returns the path of the route from its start to its end: the ids of its nodes in
  -- order, those of the edges between them, one less than there are nodes, the last state, and, if
  -- they are asked for, the states at all nodes in order.
  pub materialize_lem :
      (arena : List (PathEntry S)) (path : ℕ) (e : PathEntry S) (es : List (PathEntry S))
      (with_states : Bool)
      → Route arena path (e ∷ es)
      → All IsNamed (e ∷ es)
      → Returns (materialize identity project arena path with_states) (λ found.
        (found.nodes ≡ reverse (map (λ d. node_name d.node) (e ∷ es)))
        × (found.edges ≡ reverse (map edge_name (steps (e ∷ es))))
        × (length found.nodes ≡ length found.edges + 1)
        × (found.state ≡ shown e.state)
        × (found.intermediate_states
            ≡ (if with_states then some (reverse (map (λ d. shown d.state) (e ∷ es))) else none)))
  unfolding materialize
  materialize_lem arena path e es with_states route named =
      let at = Route-at arena route in
      let inside = get_elem?-lt arena path e at in
      let states : Option (List O) = elim with_states [ true ↦ some [] | false ↦ none ] in
      let before : Climbed O = record { nodes = []; edges = []; states = states } in
      let found = climbed (e ∷ es) before in
      let nodes = climbed-nodes (e ∷ es) before in
      let edges = climbed-edges (e ∷ es) before in
      (
        record {
          nodes = found.nodes;
          edges = found.edges;
          state = shown e.state;
          intermediate_states = found.states;
        },
        rw
            (
              index-get_elem? arena path e at,
              ◌>>=◌,
              named.0.projected,
              climb_lem (length arena) arena before route inside named,
            )
            refl,
        (
          nodes,
          edges,
          omega (
            arith,
            ap length nodes,
            ap length edges,
            length-reverse_aux (map (λ d. node_name d.node) (e ∷ es)) [],
            length-reverse_aux (map edge_name (steps (e ∷ es))) [],
            length-map (λ d. node_name d.node) (e ∷ es),
            length-map edge_name (steps (e ∷ es)),
            steps-Route arena route,
          ),
          refl,
          climbed-states (e ∷ es) before ∙ asked with_states,
        ),
      )
    where
      asked :
          (b : Bool)
          → Option.map
              (reverse_aux (map (λ d. shown d.state) (e ∷ es)))
              (elim b [ true ↦ some [] | false ↦ none ])
            ≡ (if b then some (reverse (map (λ d. shown d.state) (e ∷ es))) else none)
      asked true = refl
      asked false = refl
