-- ===== src/Traversal/Arena/Trail.antt =====
-- The path of an entry is the chain of its parents. `can_visit_arena` counts a node on that chain,
-- and the fingerprint never changes its answer.
use rxgraph.Prelude.{
  ℕ, zero, suc, ◌+◌, ◌<◌, ◌≡◌, ◌∙◌, inl, inr, true, false, none, some, List, [], ◌∷◌, arith, ltb,
  ◌==◌, Bool-cases, length, get_elem?, get_elem?-lt, contains, occurrences, occurrences-absent,
}
use rxgraph.Result.{ok, ◌>>=◌, index-get_elem?}
use rxgraph.Graph.Csr.{NodeId}
use rxgraph.Traversal.Fingerprint.{might_contain}
use rxgraph.Traversal.Arena.{PathEntry, tally, walk_up, can_visit_arena}

module _ {S : Type 0} where
  -- The nodes of the path that ends in entry `i`, last first.
  pub data Trail (arena : List (PathEntry S)) : ℕ → List NodeId → Type 0 where
    root :
        {i : ℕ} (e : PathEntry S)
        → get_elem? arena i ≡ some e
        → e.parent ≡ none
        → Trail arena i (e.node ∷ [])
    below :
        {i : ℕ} (e : PathEntry S) (p : ℕ) {ns : List NodeId}
        → get_elem? arena i ≡ some e
        → e.parent ≡ some p
        → p < i
        → Trail arena p ns
        → Trail arena i (e.node ∷ ns)

  tally_lem :
      (e : PathEntry S) (node : NodeId) (visits : ℕ) (ns : List NodeId)
      → visits + occurrences node (e.node ∷ ns) ≡ tally e node visits + occurrences node ns
  unfolding tally
  tally_lem e node visits ns = ground arith

  tally_other :
      (e : PathEntry S) (node : NodeId) (visits : ℕ)
      → (e.node == node) ≡ false
      → tally e node visits ≡ visits
  unfolding tally
  tally_other e node visits h = ground arith

  -- Enough rounds are given, and the loop answers by the count.
  walk_up_lem :
      (fuel : ℕ) (arena : List (PathEntry S)) (node : NodeId) (max visits : ℕ) {i : ℕ}
      {ns : List NodeId}
      → Trail arena i ns
      → i < fuel
      → visits < max
      → walk_up fuel arena i node max visits ≡ ok (ltb (visits + occurrences node ns) max)
  unfolding walk_up
  walk_up_lem zero arena node max visits t lt small = absurd (omega arith)
  walk_up_lem (suc fuel) arena node max visits {i} (root e at top) lt small =
      rw (index-get_elem? arena i e at, ◌>>=◌)
        (ground (arith, top, tally_lem e node visits [], tally_other e node visits))
  walk_up_lem (suc fuel) arena node max visits {i} (below e p {ns} at up le t) lt small =
      rw (index-get_elem? arena i e at, ◌>>=◌)
        (ground (
          arith,
          up,
          tally_lem e node visits ns,
          tally_other e node visits,
          walk_up_lem fuel arena node max (tally e node visits) t (omega arith),
        ))

  -- What the arena keeps: every entry has a path and a fingerprint of four words, which holds all
  -- nodes of the path.
  pub record IsForest (arena : List (PathEntry S)) : Type 0 where
    pub trail : (i : ℕ) → i < length arena → (ns : List NodeId) × Trail arena i ns
    pub sized : (i : ℕ) (e : PathEntry S) → get_elem? arena i ≡ some e → length e.visits ≡ 4
    pub covers :
        (i : ℕ) (e : PathEntry S) (ns : List NodeId) (n : NodeId)
        → get_elem? arena i ≡ some e
        → Trail arena i ns
        → contains ns n ≡ true
        → might_contain e.visits n ≡ true

  pub Trail-entry :
      (arena : List (PathEntry S)) {i : ℕ} {ns : List NodeId}
      → Trail arena i ns
      → (e : PathEntry S) × (get_elem? arena i ≡ some e)
  Trail-entry arena (root e at top) = (e, at)
  Trail-entry arena (below e p at up le t) = (e, at)

  -- On a sound arena and for a limit of at least one, `can_visit_arena` returns, and allows a node
  -- exactly if it stands less than `max_visits` times on the path.
  pub can_visit_arena_lem :
      (arena : List (PathEntry S)) (path : ℕ) (ns : List NodeId) (node : NodeId) (max_visits : ℕ)
      → IsForest arena
      → Trail arena path ns
      → 0 < max_visits
      → can_visit_arena arena path node max_visits ≡ ok (ltb (occurrences node ns) max_visits)
  unfolding can_visit_arena
  can_visit_arena_lem arena path ns node max_visits forest t pos =
      let (e, at) = Trail-entry arena t in
      let inside = get_elem?-lt arena path e at in
      let counted = walk_up_lem (length arena) arena node max_visits 0 t inside pos in
      rw (index-get_elem? arena path e at, ◌>>=◌)
        (elim (Bool-cases (might_contain e.visits node)) [
          | inl maybe ↦ rw maybe (counted ∙ ground arith)
          | inr never ↦
              let absent : contains ns node ≡ false =
                ground (arith, forest.covers path e ns node at t) in
              rw never (ground (arith, occurrences-absent node ns absent))
        ])
