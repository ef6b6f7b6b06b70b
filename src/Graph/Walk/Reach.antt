-- ===== src/Graph/Walk/Reach.antt =====
-- The loop of a breadth-first walk ends within its rounds, with the nodes that can be reached.
use rxgraph.Prelude.{
  ℕ, zero, suc, ◌+◌, ◌≤◌, ◌<◌, ◌≡◌, refl, sym, ap, ◌∙◌, true, inl, inr, none, some, List, [], ◌++◌,
  arith, length, get_elem?, contains, occurrences, contains-append, length-append, get_elem?-append,
  get_elem?-ge, get_elem?-lt, All, All-get_elem?, Option-cases, contains-get_elem?,
  get_elem?-contains, Bool-cases, ltb, ltb→lt, some-injective, append_nil, append_assoc,
}
use rxgraph.Result.{Result, ok, ◌>>=◌, Returns}
use rxgraph.Graph.Csr.{NodeId}
use rxgraph.Graph.Walk.{Frontier, expand}
use rxgraph.Graph.Walk.Marking.{IsFrontier, Visits, visit_all_lem}

-- A walk of edges leads from a seed to the node.
pub data Reach (succs : NodeId → List NodeId) (seeds : List NodeId) : NodeId → Type 0 where
  seed : {v : NodeId} → contains seeds v ≡ true → Reach succs seeds v
  step : {u v : NodeId} → Reach succs seeds u → contains (succs u) v ≡ true → Reach succs seeds v

-- `q` lists, each once, the nodes that can be reached; `before` stands at its front.
pub record IsReached (succs : NodeId → List NodeId) (seeds before q : List NodeId) : Type 0 where
  pub complete : (v : NodeId) → Reach succs seeds v → contains q v ≡ true
  pub sound : (v : NodeId) → contains q v ≡ true → Reach succs seeds v
  pub once : (v : NodeId) → occurrences v q ≤ 1
  pub rest : List NodeId
  pub extends : q ≡ before ++ rest

module _ (n : ℕ) (succs : NodeId → List NodeId) (seeds : List NodeId) where
  -- The first `head` nodes of the queue have had their neighbors visited.
  pub record Progress (head : ℕ) (f : Frontier) : Type 0 where
    pub frontier : IsFrontier n f
    pub bounded : head ≤ length f.queue
    pub reached : (v : NodeId) → contains f.queue v ≡ true → Reach succs seeds v
    pub seeded : (v : NodeId) → contains seeds v ≡ true → contains f.queue v ≡ true
    pub closed :
        (i : ℕ) (u v : NodeId)
        → i < head
        → get_elem? f.queue i ≡ some u
        → contains (succs u) v ≡ true
        → contains f.queue v ≡ true

  Visits-keep :
      {dests : List NodeId} (f g : Frontier) (v : NodeId)
      → Visits dests f g
      → contains f.queue v ≡ true
      → contains g.queue v ≡ true
  Visits-keep f g v w h =
      ground (arith, ap (λ q. contains q v) w.grown, contains-append f.queue w.added v)

  Progress-step :
      (head : ℕ) (f g : Frontier) (node : NodeId)
      → Progress head f
      → get_elem? f.queue head ≡ some node
      → IsFrontier n g
      → Visits (succs node) f g
      → Progress (suc head) g
  Progress-step head f g node p at q w =
      let here = get_elem?-lt f.queue head node at in
      let old = λ (i : ℕ) (lt : i < length f.queue).
        ap (λ ys. get_elem? ys i) w.grown ∙ get_elem?-append f.queue w.added i lt in
      record {
        frontier = q;
        bounded = omega (arith, ap (λ ys. length ys) w.grown, length-append f.queue w.added, here);
        reached = λ v h. elim (Bool-cases (contains f.queue v)) [
          | inl was ↦ p.reached v was
          | inr new ↦
              let fresh : contains w.added v ≡ true =
                ground
                  (arith, ap (λ ys. contains ys v) w.grown, contains-append f.queue w.added v) in
              step (p.reached node (get_elem?-contains f.queue head node at)) (w.from v fresh)
        ];
        seeded = λ v h. Visits-keep f g v w (p.seeded v h);
        closed = λ i u v lt e h. elim (Bool-cases (ltb i head)) [
          | inl before ↦
              let lower = ltb→lt i head before in
              Visits-keep f g v w (p.closed i u v lower (sym (old i (omega arith)) ∙ e) h)
          | inr now ↦
              let same : i ≡ head = ground arith in
              let u_node : node ≡ u =
                some-injective
                  (sym at ∙ sym (old head here) ∙ ap (get_elem? g.queue) (sym same) ∙ e) in
              w.held v (rw u_node h)
        ];
      }

  Progress-end :
      (head : ℕ) (f : Frontier)
      → Progress head f
      → get_elem? f.queue head ≡ none
      → (v : NodeId) → Reach succs seeds v
      → contains f.queue v ≡ true
  Progress-end head f p at v (seed h) = p.seeded v h
  Progress-end head f p at v (step {u} r h) =
      let (i, e) = contains-get_elem? f.queue u (Progress-end head f p at u r) in
      let last = get_elem?-ge f.queue head at in
      p.closed i u v (omega (arith, get_elem?-lt f.queue i u e)) e h

  module _ (neighbors : NodeId → Result (List NodeId))
      (runs : (v : NodeId) → v < n → neighbors v ≡ ok (succs v))
      (inside : (v : NodeId) → v < n → All (λ w. w < n) (succs v)) where
    -- With a round for each node and one more, the loop ends with what can be reached.
    pub expand_lem :
        (fuel head : ℕ) (f : Frontier)
        → Progress head f
        → n < fuel + head
        → Returns (expand neighbors fuel head f) (IsReached succs seeds f.queue)
    unfolding expand
    expand_lem zero head f p lt = absurd (omega (arith, p.bounded, p.frontier.room))
    expand_lem (suc fuel) head f p lt = elim (Option-cases (get_elem? f.queue head)) [
      | inl done ↦ (
        f.queue,
        rw (expand, done) refl,
        record {
          complete = Progress-end head f p done;
          sound = p.reached;
          once = λ v. ground (arith, p.frontier.once v);
          rest = [];
          extends = append_nil f.queue;
        },
      )
      | inr more ↦
          let (node, at) = more in
          let small = All-get_elem? (λ v. v < n) f.queue head node p.frontier.inside at in
          let (g, run, (q, w)) = visit_all_lem n (succs node) f (inside node small) p.frontier in
          let (r, ends, good) =
            expand_lem fuel (suc head) g (Progress-step head f g node p at q w) (omega arith) in
          (
            r,
            rw (expand, at, runs node small, ◌>>=◌, run) ends,
            record {
              complete = good.complete;
              sound = good.sound;
              once = good.once;
              rest = w.added ++ good.rest;
              extends =
                  good.extends
                  ∙ ap (λ ys. ys ++ good.rest) w.grown
                  ∙ append_assoc f.queue w.added good.rest;
            },
          )
    ]
