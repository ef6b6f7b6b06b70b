-- ===== src/Dsl/Bind/States.antt =====
-- crates/rxgraph/src/dsl/bind.rs: the state after a transition.
use rxgraph.Prelude.{
  ℕ, zero, suc, ◌≡◌, ◌≢◌, refl, sym, ap, ◌∙◌, ◌==◌, Option, none, some, Option-cases, Bool-cases,
  inl, inr, some-injective, List, [], ◌∷◌, Bool, true, false, length, get_elem?, ==_iff, arith,
}
use rxgraph.Result.{Result, ok, ◌>>=◌, >>=-elim, ok-injective, store}
use rxgraph.Graph.Identity.{Identity}
use rxgraph.Dsl.Float.{Float}
use rxgraph.Dsl.Value.{Value}
use rxgraph.Dsl.Bound.{StateValue, BoundColumn, EvalCtx, context, state_value}
use rxgraph.Dsl.Expr.{Expr}
use rxgraph.Dsl.Eval.{eval}
use rxgraph.Dsl.Bind.{
  BoundKernel, Transition, reject, continue, complete, next_state_from, transition, eval_test,
}

module _ {A : Type 0} where
  store-get_elem? :
      (xs : List A) (i : ℕ) (v : A) {ys : List A}
      → store xs i v ≡ ok ys
      → (length ys ≡ length xs)
        × (get_elem? ys i ≡ some v)
        × ((j : ℕ) → (i == j) ≡ false → get_elem? ys j ≡ get_elem? xs j)
  unfolding store
  store-get_elem? [] i v e = absurd cc
  store-get_elem? (x ∷ xs) zero v e = rw (← ok-injective e) (refl, refl, others)
    where
      others : (j : ℕ) → (0 == j) ≡ false → get_elem? (v ∷ xs) j ≡ get_elem? (x ∷ xs) j
      others zero h = absurd cc
      others (suc j) h = refl
  store-get_elem? (x ∷ xs) (suc i) v e =
      >>=-elim (store xs i v) (λ ys. ok (x ∷ ys)) e
        λ ys stored rest.
          let (size, at, others) = store-get_elem? xs i v stored in
          rw (← ok-injective rest) (ap suc size, at, shifted ys others)
    where
      shifted :
          (ys : List A)
          → ((j : ℕ) → (i == j) ≡ false → get_elem? ys j ≡ get_elem? xs j)
          → (j : ℕ) → (suc i == j) ≡ false
          → get_elem? (x ∷ ys) j ≡ get_elem? (x ∷ xs) j
      shifted ys others zero h = refl
      shifted ys others (suc j) h = others j (ground (arith, h))

module _ {F : Type 0} where
  -- The last expression that writes a place.
  unfoldable pub last_expr : List (ℕ × Expr F (BoundColumn F)) → ℕ → Option (Expr F (BoundColumn F))
  last_expr [] i = none
  last_expr ((j, e) ∷ entries) i = elim (last_expr entries i) [
    | some later ↦ some later
    | none ↦ elim (j == i) [ true ↦ some e | false ↦ none ]
  ]

module _ {F : Type 0} ⦃float : Float F⦄ where
  -- A place that is written holds the value, in the context, of the last expression that writes it;
  -- the others are as before.
  pub record IsUpdate (entries : List (ℕ × Expr F (BoundColumn F)))
      (before after : List (StateValue F)) (ctx : EvalCtx F) : Type 0 where
    pub size : length after ≡ length before
    pub kept : (i : ℕ) → last_expr entries i ≡ none → get_elem? after i ≡ get_elem? before i
    pub written :
        (i : ℕ) (e : Expr F (BoundColumn F))
        → last_expr entries i ≡ some e
        → (v : Value F) × (eval e ctx ≡ ok v) × (get_elem? after i ≡ some (state_value v))

  module _ (j : ℕ) (e : Expr F (BoundColumn F)) (entries : List (ℕ × Expr F (BoundColumn F))) where
    last_expr-later :
        (i : ℕ) (later : Expr F (BoundColumn F))
        → last_expr entries i ≡ some later
        → last_expr ((j, e) ∷ entries) i ≡ some later
    unfolding last_expr
    last_expr-later i later h = rw (last_expr, h) refl

    last_expr-here :
        (i : ℕ)
        → last_expr entries i ≡ none
        → (j == i) ≡ true
        → last_expr ((j, e) ∷ entries) i ≡ some e
    unfolding last_expr
    last_expr-here i h same = rw (last_expr, h, same) refl

    last_expr-other :
        (i : ℕ)
        → last_expr entries i ≡ none
        → (j == i) ≡ false
        → last_expr ((j, e) ∷ entries) i ≡ none
    unfolding last_expr
    last_expr-other i h other = rw (last_expr, h, other) refl

    IsUpdate-cons :
        (before next after : List (StateValue F)) (ctx : EvalCtx F) (v : Value F)
        → eval e ctx ≡ ok v
        → store before j (state_value v) ≡ ok next
        → IsUpdate entries next after ctx
        → IsUpdate ((j, e) ∷ entries) before after ctx
    IsUpdate-cons before next after ctx v value stored u =
        let (size, at, others) = store-get_elem? before j (state_value v) stored in
        record { size = u.size ∙ size; kept = kept others; written = written at }
      where
        kept :
            ((i : ℕ) → (j == i) ≡ false → get_elem? next i ≡ get_elem? before i)
            → (i : ℕ) → last_expr ((j, e) ∷ entries) i ≡ none
            → get_elem? after i ≡ get_elem? before i
        kept others i h = elim (Option-cases (last_expr entries i)) [
          | inr later ↦ let (l, found) = later in absurd (cc (last_expr-later i l found))
          | inl absent ↦ elim (Bool-cases (j == i)) [
            | inl same ↦ absurd (cc (last_expr-here i absent same))
            | inr other ↦ u.kept i absent ∙ others i other
          ]
        ]

        written :
            get_elem? next j ≡ some (state_value v)
            → (i : ℕ) (e' : Expr F (BoundColumn F)) → last_expr ((j, e) ∷ entries) i ≡ some e'
            → (w : Value F) × (eval e' ctx ≡ ok w) × (get_elem? after i ≡ some (state_value w))
        written at i e' h = elim (Option-cases (last_expr entries i)) [
          | inr later ↦
              let (l, found) = later in u.written i e' (found ∙ sym (last_expr-later i l found) ∙ h)
          | inl absent ↦ elim (Bool-cases (j == i)) [
            | inl same ↦
                let this : j ≡ i = (==_iff j i).0 same in
                let own : e ≡ e' = some-injective (sym (last_expr-here i absent same) ∙ h) in
                (v, rw (← own) value, u.kept i absent ∙ rw (← this) at)
            | inr other ↦ absurd (cc (last_expr-other i absent other))
          ]
        ]

  next_state_from-IsUpdate :
      (entries : List (ℕ × Expr F (BoundColumn F))) (before : List (StateValue F)) (ctx : EvalCtx F)
      {after : List (StateValue F)}
      → next_state_from entries before ctx ≡ ok after
      → IsUpdate entries before after ctx
  unfolding next_state_from last_expr
  next_state_from-IsUpdate [] before ctx e =
      rw (← ok-injective e)
        (record { size = refl; kept = λ i h. refl; written = λ i e h. absurd cc })
  next_state_from-IsUpdate ((j, e) ∷ entries) before ctx {after} h =
      >>=-elim (eval e ctx)
        (λ v. do next ← store before j (state_value v); next_state_from entries next ctx) h
        λ v value rest.
          >>=-elim (store before j (state_value v)) (λ next. next_state_from entries next ctx) rest
            λ next stored more.
              IsUpdate-cons j e entries before next after ctx v value stored
                (next_state_from-IsUpdate entries next ctx more)

  -- The transition to a state, by the answer of `stop`.
  unfoldable pub outcome : Bool → List (StateValue F) → Transition (List (StateValue F))
  outcome true after = complete after
  outcome false after = continue after

  outcome-injective :
      (a b : Bool) (s t : List (StateValue F)) → outcome a s ≡ outcome b t → (a ≡ b) × (s ≡ t)
  unfolding outcome
  outcome-injective true true s t h = (refl, cc)
  outcome-injective false false s t h = (refl, cc)
  outcome-injective true false s t h = cc
  outcome-injective false true s t h = cc

  outcome-stopped :
      (b : Bool) (s : List (StateValue F))
      → elim b [ true ↦ complete s | false ↦ continue s ] ≡ outcome b s
  unfolding outcome
  outcome-stopped true s = refl
  outcome-stopped false s = refl

  reject-outcome : (a : Bool) (s : List (StateValue F)) → reject ≢ outcome a s
  unfolding outcome
  reject-outcome true s h = cc
  reject-outcome false s h = cc

  -- What follows a visit.
  followed :
      BoundKernel F
      → (List (StateValue F) → EvalCtx F)
      → List (StateValue F)
      → Result (Transition (List (StateValue F)))
  followed kernel ctx state = do
    next ← next_state_from kernel.next_state state (ctx state)
    stopped ← eval_test kernel.stop (ctx next)
    ok (elim stopped [ true ↦ complete next | false ↦ continue next ])

  followed_lem :
      (kernel : BoundKernel F) (ctx : List (StateValue F) → EvalCtx F)
      (state after : List (StateValue F)) (stopped : Bool)
      → followed kernel ctx state ≡ ok (outcome stopped after)
      → IsUpdate kernel.next_state state after (ctx state)
        × (eval_test kernel.stop (ctx after) ≡ ok stopped)
  unfolding followed
  followed_lem kernel ctx state after stopped h =
      >>=-elim (next_state_from kernel.next_state state (ctx state))
        (λ next. do
          b ← eval_test kernel.stop (ctx next)
          ok (elim b [ true ↦ complete next | false ↦ continue next ]))
        h
        λ next updated rest.
          >>=-elim (eval_test kernel.stop (ctx next))
            (λ b. ok (elim b [ true ↦ complete next | false ↦ continue next ])) rest
            λ b tested last.
              let (same_b, same) =
                outcome-injective b stopped next after
                  (sym (outcome-stopped b next) ∙ ok-injective last) in
              (
                rw (← same) (next_state_from-IsUpdate kernel.next_state state (ctx state) updated),
                rw (← same, ← same_b) tested,
              )

  -- A transition that accepts the edge gives a state in which each place that the kernel writes holds
  -- the value of its last expression, all of them evaluated on the old state, and the other places keep
  -- their values. It completes the path if `stop` holds on the new state and else continues it.
  pub transition_lem :
      (kernel : BoundKernel F) (identity : Identity) (src dest edge : ℕ)
      (state after : List (StateValue F)) (stopped : Bool)
      → transition kernel identity src dest edge state ≡ ok (outcome stopped after)
      → (eval_test kernel.visit (context identity src dest edge state) ≡ ok true)
        × IsUpdate kernel.next_state state after (context identity src dest edge state)
        × (eval_test kernel.stop (context identity src dest edge after) ≡ ok stopped)
  unfolding transition followed
  transition_lem kernel identity src dest edge state after stopped h =
      >>=-elim (eval_test kernel.visit (context identity src dest edge state))
        (λ visited. branch visited) h λ visited seen rest. accepted visited seen rest
    where
      branch : Bool → Result (Transition (List (StateValue F)))
      branch visited = elim visited [
        | false ↦ ok reject
        | true ↦ followed kernel (context identity src dest edge) state
      ]

      accepted :
          (visited : Bool)
          → eval_test kernel.visit (context identity src dest edge state) ≡ ok visited
          → branch visited ≡ ok (outcome stopped after)
          → (eval_test kernel.visit (context identity src dest edge state) ≡ ok true)
            × IsUpdate kernel.next_state state after (context identity src dest edge state)
            × (eval_test kernel.stop (context identity src dest edge after) ≡ ok stopped)
      accepted false seen rest = absurd (reject-outcome stopped after (ok-injective rest))
      accepted true seen rest =
          let (update, tested) =
            followed_lem kernel (context identity src dest edge) state after stopped rest in
          (seen, update, tested)
