-- ===== src/Graph/Walk/Marking.antt =====
-- A frontier lists each marked node once.
use rxgraph.Prelude.{
  ℕ, zero, suc, ◌+◌, ◌<◌, ◌≡◌, refl, ap, ◌∙◌, Bool, true, false, inl, inr, List, [], ◌∷◌, ◌++◌,
  arith, if◌then◌else◌, length, get_or, set, replicate, contains, occurrences, occurrences-append,
  contains-append, length-append, length-set, get_or-set, Bool-cases, All, All-append, append_nil,
  append_assoc,
}
use rxgraph.Result.{◌>>=◌, Returns, Returns-bind, index-get_or, store-set}
use rxgraph.Graph.Csr.{NodeId}
use rxgraph.Graph.Walk.{Frontier, visit, visit_all}

-- The marks still to be set.
abbrev pub unmarked : List Bool → ℕ
unmarked [] = 0
unmarked (true ∷ bs) = unmarked bs
unmarked (false ∷ bs) = suc (unmarked bs)

pub unmarked-set :
    (bs : List Bool) (i : ℕ)
    → i < length bs
    → get_or bs i false ≡ false
    → unmarked (set bs i true) + 1 ≡ unmarked bs
unmarked-set [] i lt h = absurd (omega arith)
unmarked-set (true ∷ bs) zero lt h = cc
unmarked-set (false ∷ bs) zero lt h = omega arith
unmarked-set (true ∷ bs) (suc i) lt h = unmarked-set bs i (omega arith) h
unmarked-set (false ∷ bs) (suc i) lt h = omega (arith, unmarked-set bs i (omega arith) h)

pub unmarked-replicate : (n : ℕ) → unmarked (replicate n false) ≡ n
unmarked-replicate zero = refl
unmarked-replicate (suc n) = ap suc (unmarked-replicate n)

pub record IsFrontier (n : ℕ) (f : Frontier) : Type 0 where
  pub size : length f.visited ≡ n
  pub once : (v : ℕ) → occurrences v f.queue ≡ (if get_or f.visited v false then 1 else 0)
  pub room : unmarked f.visited + length f.queue ≡ n
  pub inside : All (λ v. v < n) f.queue

-- `g` is `f` with new nodes at the end, all of them in `dests`; it holds all of `dests`.
pub record Visits (dests : List NodeId) (f g : Frontier) : Type 0 where
  pub added : List NodeId
  pub grown : g.queue ≡ f.queue ++ added
  pub from : (v : ℕ) → contains added v ≡ true → contains dests v ≡ true
  pub held : (v : ℕ) → contains dests v ≡ true → contains g.queue v ≡ true

contains-occurrences : (v : ℕ) (xs : List ℕ) → occurrences v xs ≡ 1 → contains xs v ≡ true
contains-occurrences v [] h = absurd (omega arith)
contains-occurrences v (x ∷ xs) h = ground (arith, contains-occurrences v xs)

module _ (n : ℕ) where
  pub visit_lem :
      (dest : NodeId) (f : Frontier)
      → dest < n
      → IsFrontier n f
      → Returns (visit dest f) (λ g. IsFrontier n g × Visits (dest ∷ []) f g)
  unfolding visit
  visit_lem dest f lt p =
      let read = index-get_or f.visited dest false (omega (arith, p.size)) in
      let written = store-set f.visited dest true (omega (arith, p.size)) in
      elim (Bool-cases (get_or f.visited dest false)) [
        | inl seen ↦ (
          f,
          rw (read, seen) refl,
          (
            p,
            record {
              added = [];
              grown = append_nil f.queue;
              from = λ v h. cc;
              held = λ v h.
                  let same : dest ≡ v = ground arith in
                  let one : get_or f.visited v false ≡ true = cc in
                  contains-occurrences v f.queue (ground (arith, p.once v));
            },
          ),
        )
        | inr new ↦ (
          record { visited = set f.visited dest true; queue = f.queue ++ dest ∷ [] },
          rw (read, new, ◌>>=◌, written) refl,
          (
            record {
              size = omega (arith, p.size, length-set f.visited dest true);
              once = λ v. ground (
                arith,
                p.once v,
                occurrences-append v f.queue (dest ∷ []),
                get_or-set f.visited dest v true false,
                p.size,
              );
              room = omega (
                arith,
                p.room,
                unmarked-set f.visited dest (omega (arith, p.size)) new,
                length-append f.queue (dest ∷ []),
              );
              inside = All-append (λ v. v < n) f.queue (dest ∷ []) p.inside (lt, tt);
            },
            record {
              added = dest ∷ [];
              grown = refl;
              from = λ v h. h;
              held = λ v h. ground (arith, contains-append f.queue (dest ∷ []) v);
            },
          ),
        )
      ]

  Visits-chain :
      (dest : NodeId) (dests : List NodeId) (f g h : Frontier)
      → Visits (dest ∷ []) f g
      → Visits dests g h
      → Visits (dest ∷ dests) f h
  Visits-chain dest dests f g h a b = record {
    added = a.added ++ b.added;
    grown = b.grown ∙ ap (λ ys. ys ++ b.added) a.grown ∙ append_assoc f.queue a.added b.added;
    from = λ v p. ground (arith, contains-append a.added b.added v, a.from v, b.from v);
    held = λ v p. ground (
      arith,
      a.held v,
      b.held v,
      ap (λ ys. contains ys v) b.grown,
      contains-append g.queue b.added v,
    );
  }

  pub visit_all_lem :
      (dests : List NodeId) (f : Frontier)
      → All (λ v. v < n) dests
      → IsFrontier n f
      → Returns (visit_all dests f) (λ g. IsFrontier n g × Visits dests f g)
  unfolding visit_all
  visit_all_lem [] f inside p = (
    f,
    refl,
    (p, record { added = []; grown = append_nil f.queue; from = λ v h. h; held = λ v h. cc }),
  )
  visit_all_lem (dest ∷ dests) f inside p =
      Returns-bind (visit dest f) _ (visit_lem dest f inside.0 p) λ g q.
        let (h, run, (r, b)) = visit_all_lem dests g inside.1 q.0 in
        (h, run, (r, Visits-chain dest dests f g h q.1 b))
