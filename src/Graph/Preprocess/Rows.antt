-- ===== src/Graph/Preprocess/Rows.antt =====
-- What the loops over the rows establish: a lookup and a vector that are inverse to each other.
use rxgraph.Prelude.{
  ℕ, zero, suc, ◌+◌, ◌≤◌, ◌<◌, ◌≡◌, ◌↔◌, inl, inr, Option, none, some, List, [], ◌∷◌, ◌++◌, arith,
  leb, leb→le, Bool-cases, Option-cases, length, length-append, get_elem?, get_elem?-append_last,
  get_elem?-lt,
}
use rxgraph.Prelude.Keys.{Key, HashMap, get, insert}
use rxgraph.Prelude.Words.{u32_max, u32_mod}
use rxgraph.Result.{GraphId, ok, ok-injective}
use rxgraph.Graph.Csr.{NodeId, Endpoints}
use rxgraph.Graph.Preprocess.{EdgeColumns, register_nodes, checked_id}

module _ {K : Type 0} ⦃key : Key K⦄ where
  -- The map and the vector are inverse to each other.
  abbrev pub IsInverse : HashMap K NodeId → List K → Type 0
  IsInverse lookup out = (k : K) (i : ℕ) → (get lookup k ≡ some i) ↔ (get_elem? out i ≡ some k)

  IsInverse-insert :
      (lookup : HashMap K NodeId) (out : List K) (id : K)
      → IsInverse lookup out
      → get lookup id ≡ none
      → IsInverse (insert lookup id (length out)).1 (out ++ id ∷ [])
  unfolding get insert
  IsInverse-insert lookup out id inv fresh k i = ground (
    arith,
    inv k i,
    inv id i,
    key.beq_iff id k,
    get_elem?-append_last out id i,
    get_elem?-lt out i k,
  )

  pub record HasNodes (ids : ℕ → Option K) (last : ℕ) (r : HashMap K NodeId × List K) : Type 0 where
    pub inverse : IsInverse r.0 r.1
    pub size : length r.1 ≡ last
    pub small : last ≤ u32_mod
    pub rows : (i : ℕ) → i < last → get_elem? r.1 i ≡ ids i

  HasNodes-insert :
      {ids : ℕ → Option K} (row : ℕ) (lookup : HashMap K NodeId) (out : List K) (id : K)
      → HasNodes ids row (lookup, out)
      → ids row ≡ some id
      → get lookup id ≡ none
      → row ≤ u32_max
      → HasNodes ids (suc row) ((insert lookup id row).1, out ++ id ∷ [])
  HasNodes-insert {ids} row lookup out id inv found fresh small = record {
    inverse = rw inv.size at (IsInverse-insert lookup out id inv.inverse fresh);
    size = omega (arith, inv.size, length-append out (id ∷ []));
    small = omega arith;
    rows = λ i lt. ground (arith, inv.rows i, inv.size, get_elem?-append_last out id i, found);
  }

  module _ (wrap : K → GraphId) (ids : ℕ → Option K) where
    pub register_nodes_lem :
        (rounds row last : ℕ) (lookup : HashMap K NodeId) (out : List K)
        (r : HashMap K NodeId × List K)
        → row + rounds ≡ last
        → HasNodes ids row (lookup, out)
        → register_nodes wrap ids rounds row lookup out ≡ ok r
        → HasNodes ids last r
    unfolding register_nodes checked_id insert
    register_nodes_lem zero row last lookup out r e inv h =
        let same : row ≡ last = omega arith in rw (← same, ← ok-injective h) inv
    register_nodes_lem (suc rounds) row last lookup out r e inv h = elim (Option-cases (ids row)) [
      | inl absent ↦ absurd (ground arith)
      | inr (id, found) ↦ elim (Bool-cases (leb row u32_max)) [
        | inr big ↦ absurd (ground arith)
        | inl small ↦ elim (Option-cases (get lookup id)) [
          | inr (old, taken) ↦ absurd (ground arith)
          | inl fresh ↦
              register_nodes_lem rounds (suc row) last (insert lookup id row).1 (out ++ id ∷ []) r
                (omega arith) (HasNodes-insert row lookup out id inv found fresh (leb→le _ _ small))
                (rw (found, small, fresh) at h)
        ]
      ]
    ]

  -- Row `i` names two nodes, and its endpoints are their positions.
  pub record IsEdgeRow (lookup : HashMap K NodeId) (cols : EdgeColumns K) (out : List K)
      (endpoints : List Endpoints) (i : ℕ) : Type 0 where
    pub src_id : K
    pub dest_id : K
    pub src : NodeId
    pub dest : NodeId
    pub id_read : get_elem? out i ≡ cols.ids i
    pub src_read : cols.srcs i ≡ some src_id
    pub dest_read : cols.dests i ≡ some dest_id
    pub src_found : get lookup src_id ≡ some src
    pub dest_found : get lookup dest_id ≡ some dest
    pub stored : get_elem? endpoints i ≡ some (src, dest)

  pub record HasEdges (lookup : HashMap K NodeId) (cols : EdgeColumns K) (last : ℕ)
      (r : List K × List Endpoints) : Type 0 where
    pub id_size : length r.0 ≡ last
    pub size : length r.1 ≡ last
    pub rows : (i : ℕ) → i < last → IsEdgeRow lookup cols r.0 r.1 i
