-- ===== src/Traversal/Arena/Push.antt =====
-- A new entry for a start node or an accepted edge keeps the arena a forest.
use rxgraph.Prelude.{
  ℕ, ◌<◌, ◌≡◌, refl, sym, ap, subst, ◌∙◌, inl, inr, true, false, none, some, List, [], ◌∷◌, ◌++◌,
  arith, ltb, ltb→lt, ◌==◌, Bool-cases, length, get_elem?, get_elem?-lt, get_elem?-append,
  get_elem?-append_last, length-append, contains, replicate, some-injective,
}
use rxgraph.Result.{Returns, index-get_elem?}
use rxgraph.Graph.Csr.{NodeId}
use rxgraph.Traversal.Fingerprint.{insert, might_contain, for_node}
use rxgraph.Traversal.Fingerprint.Laws.{length-insert, length-for_node, might_contain-insert}
use rxgraph.Traversal.Arena.{PathEntry, EdgeEval, start_entry, child_entry, push_entry}
use rxgraph.Traversal.Arena.Trail.{Trail-entry, Trail, root, below, IsForest}

module _ {S : Type 0} (arena : List (PathEntry S)) (new : PathEntry S) where
  at_end : get_elem? (arena ++ new ∷ []) (length arena) ≡ some new
  at_end = ground (arith, get_elem?-append_last arena new (length arena))

  at_old :
      (i : ℕ) (e : PathEntry S)
      → get_elem? arena i ≡ some e
      → get_elem? (arena ++ new ∷ []) i ≡ some e
  at_old i e at = get_elem?-append arena (new ∷ []) i (get_elem?-lt arena i e at) ∙ at

  at_last :
      (i : ℕ) (e : PathEntry S)
      → get_elem? (arena ++ new ∷ []) i ≡ some e
      → ltb i (length arena) ≡ false
      → (i ≡ length arena) × (new ≡ e)
  at_last i e at last =
      let lt = get_elem?-lt (arena ++ new ∷ []) i e at in
      let same : i ≡ length arena = ground (arith, length-append arena (new ∷ [])) in
      (same, some-injective (sym at_end ∙ ap (get_elem? (arena ++ new ∷ [])) (sym same) ∙ at))

  Trail-grow : {i : ℕ} {ns : List NodeId} → Trail arena i ns → Trail (arena ++ new ∷ []) i ns
  Trail-grow {i} (root e at top) = root e (at_old i e at) top
  Trail-grow {i} (below e p at up le t) = below e p (at_old i e at) up le (Trail-grow t)

  Trail-shrink :
      {i : ℕ} {ns : List NodeId}
      → i < length arena
      → Trail (arena ++ new ∷ []) i ns
      → Trail arena i ns
  Trail-shrink {i} lt (root e at top) =
      root e (sym (get_elem?-append arena (new ∷ []) i lt) ∙ at) top
  Trail-shrink {i} lt (below e p at up le t) =
      below e p (sym (get_elem?-append arena (new ∷ []) i lt) ∙ at) up le
        (Trail-shrink (omega arith) t)

  -- What is asked of the new entry.
  IsForest-append :
      IsForest arena
      → length new.visits ≡ 4
      → (ns : List NodeId) × Trail (arena ++ new ∷ []) (length arena) ns
      → ((ns : List NodeId) (n : NodeId)
          → Trail (arena ++ new ∷ []) (length arena) ns
          → contains ns n ≡ true
          → might_contain new.visits n ≡ true)
      → IsForest (arena ++ new ∷ [])
  IsForest-append forest size path cover = record {
    trail = λ i lt. elim (Bool-cases (ltb i (length arena))) [
      | inl old ↦ let (ns, t) = forest.trail i (ltb→lt i (length arena) old) in (ns, Trail-grow t)
      | inr last ↦
          let same : i ≡ length arena = ground (arith, length-append arena (new ∷ [])) in
          rw same path
    ];
    sized = λ i e at. elim (Bool-cases (ltb i (length arena))) [
      | inl old ↦
          forest.sized i e
            (sym (get_elem?-append arena (new ∷ []) i (ltb→lt i (length arena) old)) ∙ at)
      | inr last ↦ let (same, entry) = at_last i e at last in rw (← entry) size
    ];
    covers = λ i e ns n at t h. elim (Bool-cases (ltb i (length arena))) [
      | inl old ↦
          let lt = ltb→lt i (length arena) old in
          forest.covers i e ns n (sym (get_elem?-append arena (new ∷ []) i lt) ∙ at)
            (Trail-shrink lt t) h
      | inr last ↦
          let (same, entry) = at_last i e at last in
          let here : Trail (arena ++ new ∷ []) (length arena) ns =
            subst (λ k. Trail (arena ++ new ∷ []) k ns) same t in
          rw (← entry) (cover ns n here h)
    ];
  }

-- `might_contain` after the insertion of a node, on the nodes of a path that it extends.
insert_covers :
    (f : List ℕ) (node : NodeId) (ns : List NodeId) (n : NodeId)
    → length f ≡ 4
    → (contains ns n ≡ true → might_contain f n ≡ true)
    → contains (node ∷ ns) n ≡ true
    → might_contain (insert f node) n ≡ true
insert_covers f node ns n size before h =
    might_contain-insert f node n size (elim (Bool-cases (node == n)) [
      | inl same ↦ rw same refl
      | inr other ↦ rw (other, before (rw other at h)) refl
    ])

module _ {S : Type 0} where
  pub empty-IsForest : IsForest {S = S} []
  empty-IsForest = record {
    trail = λ i lt. absurd (omega arith);
    sized = λ i e at. absurd cc;
    covers = λ i e ns n at t h. absurd cc;
  }

  Trail-start :
      (arena : List (PathEntry S)) (i : ℕ) (e : PathEntry S) (ns : List NodeId)
      → Trail arena i ns
      → get_elem? arena i ≡ some e
      → e.parent ≡ none
      → ns ≡ e.node ∷ []
  Trail-start arena i e ns (root e' at' top') at top =
      let same : e' ≡ e = some-injective (sym at' ∙ at) in rw same refl
  Trail-start arena i e ns (below e' p at' up le t) at top =
      let same : e' ≡ e = some-injective (sym at' ∙ at) in
      let both : some p ≡ none = sym up ∙ ap (λ x. x.parent) same ∙ top in absurd cc

  Trail-up :
      (arena : List (PathEntry S)) (i p : ℕ) (e : PathEntry S) (ns : List NodeId)
      → Trail arena i ns
      → get_elem? arena i ≡ some e
      → e.parent ≡ some p
      → (ms : List NodeId) × (ns ≡ e.node ∷ ms) × Trail arena p ms
  Trail-up arena i p e ns (root e' at' top') at up =
      let same : e' ≡ e = some-injective (sym at' ∙ at) in
      let both : none ≡ some p = sym top' ∙ ap (λ x. x.parent) same ∙ up in absurd cc
  Trail-up arena i p e ns (below e' q {ns = ms} at' up' le t) at up =
      let same : e' ≡ e = some-injective (sym at' ∙ at) in
      let parents : q ≡ p = some-injective (sym up' ∙ ap (λ x. x.parent) same ∙ up) in
      (ms, rw same refl, subst (λ k. Trail arena k ms) parents t)

  -- On a sound arena, an entry for a start node keeps it sound, and the path of the entry is that
  -- node.
  pub start_entry_lem :
      (arena : List (PathEntry S)) (node : NodeId) (state : S)
      → IsForest arena
      → IsForest (arena ++ start_entry node state ∷ [])
        × Trail (arena ++ start_entry node state ∷ []) (length arena) (node ∷ [])
  unfolding start_entry for_node
  start_entry_lem arena node state forest =
      let new = start_entry node state in
      let path : Trail (arena ++ new ∷ []) (length arena) (node ∷ []) =
        root new (at_end arena new) refl in
      (
        IsForest-append arena new forest (length-for_node node) (node ∷ [], path)
            (λ ns n t h.
              insert_covers (replicate 4 0) node [] n refl (λ none_of. absurd cc)
                (subst (λ ms. contains ms n ≡ true)
                  (Trail-start _ _ new ns t (at_end arena new) refl) h)),
        path,
      )

  -- On a sound arena and for a parent on it, `push_entry` returns the next index and a sound arena,
  -- where the path of the new entry is the parent's path and the edge's end.
  pub push_entry_lem :
      (arena : List (PathEntry S)) (parent : ℕ) (e : EdgeEval S) (ns : List NodeId)
      → IsForest arena
      → Trail arena parent ns
      → Returns
          (push_entry arena parent e)
          (λ r. (r.0 ≡ length arena) × IsForest r.1 × Trail r.1 r.0 (e.dest ∷ ns))
  unfolding push_entry child_entry
  push_entry_lem arena parent e ns forest t =
      let (up, at) = Trail-entry arena t in
      let new = child_entry up parent e in
      let inside = get_elem?-lt arena parent up at in
      let path : Trail (arena ++ new ∷ []) (length arena) (e.dest ∷ ns) =
        below new parent (at_end arena new) refl inside (Trail-grow arena new t) in
      let size = length-insert up.visits e.dest ∙ forest.sized parent up at in
      (
        (length arena, arena ++ new ∷ []),
        rw (index-get_elem? arena parent up at) refl,
        (
          refl,
          IsForest-append arena new forest size (e.dest ∷ ns, path)
              (λ ms n u h.
                let (above, shape, rest) =
                  Trail-up _ (length arena) parent new ms u (at_end arena new) refl in
                insert_covers up.visits e.dest above n (forest.sized parent up at)
                  (forest.covers parent up above n at (Trail-shrink arena new inside rest))
                  (subst (λ ks. contains ks n ≡ true) shape h)),
          path,
        ),
      )
