-- ===== src/Graph/Walk/Topology.antt =====
-- The walks over the outgoing edges of a built graph give the nodes that can be reached.
use rxgraph.Prelude.{
  ℕ, ◌+◌, ◌≤◌, ◌<◌, ◌≡◌, refl, sym, ap, ◌∙◌, Bool, true, false, inl, inr, List, [], ◌∷◌, ◌++◌,
  arith, ◌==◌, length, set, get_or-set, length-set, contains, occurrences, occurrences-append,
  contains-append, drop, replicate, length-replicate, get_or-replicate, All, Bool-cases,
}
use rxgraph.Result.{ok, Returns, store-set}
use rxgraph.Graph.Csr.{NodeId, Endpoints}
use rxgraph.Graph.Csr.Build.{dests_from}
use rxgraph.Graph.Repo.{Repo}
use rxgraph.Graph.Repo.Outgoing.{IsTopology, outgoing_slice_lem}
use rxgraph.Graph.Walk.{
  Frontier, outgoing_dests, walk_breadth_first_unbounded, walk_many, neighbors,
}
use rxgraph.Graph.Walk.Marking.{IsFrontier, Visits, visit_all_lem, unmarked-set, unmarked-replicate}
use rxgraph.Graph.Walk.Reach.{Reach, seed, step, IsReached, expand_lem}

All-values_of :
    (s n : ℕ) (edges : List Endpoints)
    → All (λ e. e.1 < n) edges
    → All (λ w. w < n) (dests_from s edges)
All-values_of s n [] h = tt
All-values_of s n (e ∷ edges) h = elim (Bool-cases (e.0 == s)) [
  | inl same ↦ rw same (h.0, All-values_of s n edges h.1)
  | inr other ↦ rw other (All-values_of s n edges h.1)
]

module _ (endpoints : List Endpoints) (r : Repo) (t : IsTopology endpoints r) where
  outgoing_dests_lem :
      (v : NodeId) → v < r.node_count → outgoing_dests r v ≡ ok (dests_from v endpoints)
  unfolding outgoing_dests
  outgoing_dests_lem v lt = rw (outgoing_slice_lem endpoints r t v lt) refl

  -- In a graph with the given endpoints, the walk from a node returns exactly the nodes that can be
  -- reached from it, each once, and the start first.
  pub walk_breadth_first_unbounded_lem :
      (start : NodeId)
      → start < r.node_count
      → Returns
          (walk_breadth_first_unbounded r start)
          (IsReached (λ v. dests_from v endpoints) (start ∷ []) (start ∷ []))
  unfolding walk_breadth_first_unbounded
  walk_breadth_first_unbounded_lem start lt =
      let n = r.node_count in
      let marks : List Bool = replicate n false in
      let size = length-replicate {A = Bool} n false in
      let written = store-set marks start true (omega arith) in
      let clear = λ (v : ℕ). get_or-replicate {A = Bool} n v false in
      rw written (
        expand_lem n (λ v. dests_from v endpoints) (start ∷ []) (outgoing_dests r)
          outgoing_dests_lem (λ v h. All-values_of v n endpoints t.dests) (n + 1) 0
          (record { visited = set marks start true; queue = start ∷ [] })
          (record {
            frontier = record {
              size = length-set marks start true ∙ size;
              once = λ v. ground (arith, clear v, get_or-set marks start v true false);
              room = omega (
                arith,
                unmarked-set marks start (omega arith) (clear start),
                unmarked-replicate n,
              );
              inside = (lt, tt);
            };
            bounded = omega arith;
            reached = λ v h. seed h;
            seeded = λ v h. h;
            closed = λ i u v h e c. absurd (omega arith);
          })
          (omega arith))

-- `q` lists, each once, the nodes that can be reached and are no seeds.
pub record IsBeyond (succs : NodeId → List NodeId) (seeds q : List NodeId) : Type 0 where
  pub complete : (v : NodeId) → Reach succs seeds v → contains seeds v ≡ false → contains q v ≡ true
  pub sound : (v : NodeId) → contains q v ≡ true → Reach succs seeds v × (contains seeds v ≡ false)
  pub once : (v : NodeId) → occurrences v q ≤ 1

drop-append : (xs ys : List ℕ) → drop (length xs) (xs ++ ys) ≡ ys
drop-append [] ys = refl
drop-append (x ∷ xs) ys = drop-append xs ys

occurrences-present : (v : ℕ) (xs : List ℕ) → contains xs v ≡ true → 1 ≤ occurrences v xs
occurrences-present v [] h = absurd cc
occurrences-present v (x ∷ xs) h = ground (arith, occurrences-present v xs)

contains_once :
    (xs ys : List ℕ) (v : ℕ)
    → occurrences v (xs ++ ys) ≤ 1
    → contains ys v ≡ true
    → contains xs v ≡ false
contains_once xs ys v h c = elim (Bool-cases (contains xs v)) [
  | inl both ↦ absurd (
      omega (
        arith,
        h,
        occurrences-append v xs ys,
        occurrences-present v xs both,
        occurrences-present v ys c,
      ))
  | inr only ↦ only
]

IsBeyond-drop :
    (succs : NodeId → List NodeId) (seeds front q : List NodeId)
    → ((v : NodeId) → contains front v ≡ contains seeds v)
    → IsReached succs seeds front q
    → IsBeyond succs seeds (drop (length front) q)
IsBeyond-drop succs seeds front q same p =
    let tail : drop (length front) q ≡ p.rest =
      ap (drop (length front)) p.extends ∙ drop-append front p.rest in
    let split = λ (v : ℕ). ap (λ ys. contains ys v) p.extends ∙ contains-append front p.rest v in
    rw tail (record {
      complete = λ v h out. ground (arith, p.complete v h, split v, same v);
      sound = λ v h. (
        p.sound v (ground (arith, split v)),
        sym (same v) ∙ contains_once front p.rest v (rw p.extends at p.once v) h,
      );
      once = λ v. omega (
        arith,
        p.once v,
        ap (λ ys. occurrences v ys) p.extends,
        occurrences-append v front p.rest,
      );
    })

empty-IsFrontier : (n : ℕ) → IsFrontier n (record { visited = replicate n false; queue = [] })
empty-IsFrontier n = record {
  size = length-replicate {A = Bool} n false;
  once = λ v. ground (arith, get_or-replicate {A = Bool} n v false);
  room = omega (arith, unmarked-replicate n);
  inside = tt;
}

visited_same :
    (seeds : List NodeId) (n : ℕ) (f : Frontier)
    → Visits seeds (record { visited = replicate n false; queue = [] }) f
    → (v : ℕ) → contains f.queue v ≡ contains seeds v
visited_same seeds n f w v = elim (Bool-cases (contains seeds v)) [
  | inl stands ↦ w.held v stands ∙ sym stands
  | inr out ↦ ground (arith, ap (λ ys. contains ys v) w.grown, w.from v)
]

walk_many_nil :
    (succs : NodeId → List NodeId) (v : NodeId) → Reach succs [] v → contains [] v ≡ true
walk_many_nil succs v (seed h) = h
walk_many_nil succs v (step {u} r h) = let none_of = walk_many_nil succs u r in cc

module _ (r : Repo) (is_incoming : Bool) (succs : NodeId → List NodeId)
    (runs : (v : NodeId) → v < r.node_count → neighbors r is_incoming v ≡ ok (succs v))
    (inside : (v : NodeId) → v < r.node_count → All (λ w. w < r.node_count) (succs v)) where
  -- If the rows that `walk_many` reads are those of `succs`, it returns exactly the nodes that can
  -- be reached from the seeds, without the seeds, each once.
  pub walk_many_lem :
      (seeds : List NodeId)
      → All (λ v. v < r.node_count) seeds
      → Returns (walk_many r seeds is_incoming) (IsBeyond succs seeds)
  unfolding walk_many
  walk_many_lem [] lt = (
    [],
    refl,
    record {
      complete = λ v h out. walk_many_nil succs v h;
      sound = λ v h. absurd cc;
      once = λ v. omega arith;
    },
  )
  walk_many_lem (s ∷ seeds) lt =
      let n = r.node_count in
      let (f, run, (p, w)) =
        visit_all_lem n (s ∷ seeds) (record { visited = replicate n false; queue = [] }) lt
          (empty-IsFrontier n) in
      let same : (v : ℕ) → contains f.queue v ≡ contains (s ∷ seeds) v =
        visited_same (s ∷ seeds) n f w in
      let (q, ends, good) =
        expand_lem n succs (s ∷ seeds) (neighbors r is_incoming) runs inside (n + 1) 0 f
          (record {
            frontier = p;
            bounded = omega arith;
            reached = λ v h. seed (sym (same v) ∙ h);
            seeded = λ v h. same v ∙ h;
            closed = λ i u v h e c. absurd (omega arith);
          })
          (omega arith) in
      (
        drop (length f.queue) q,
        rw (run, ends) refl,
        IsBeyond-drop succs (s ∷ seeds) f.queue q same good,
      )

-- In a graph with the given endpoints, the walk from several seeds along the outgoing edges returns
-- exactly the nodes beyond the seeds that can be reached from one of them, each once.
pub walk_many-outgoing :
    (endpoints : List Endpoints) (r : Repo) (seeds : List NodeId)
    → IsTopology endpoints r
    → All (λ v. v < r.node_count) seeds
    → Returns (walk_many r seeds false) (IsBeyond (λ v. dests_from v endpoints) seeds)
unfolding neighbors
walk_many-outgoing endpoints r seeds t lt =
    walk_many_lem r false (λ v. dests_from v endpoints) (outgoing_dests_lem endpoints r t)
      (λ v h. All-values_of v r.node_count endpoints t.dests) seeds lt
