-- ===== src/Graph/Preprocess/EdgeRows.antt =====
-- The loop over the edge rows stores, for each row, the positions of the nodes that it names.
use rxgraph.Prelude.{
  ℕ, zero, suc, ◌+◌, ◌≡◌, inl, inr, some, List, [], ◌∷◌, ◌++◌, arith, leb, ◌==◌, Bool-cases,
  Option-cases, length-append, get_elem?-append_last,
}
use rxgraph.Prelude.Keys.{Key, HashMap, get, insert}
use rxgraph.Prelude.Words.{u32_max}
use rxgraph.Result.{GraphId, ok, ok-injective}
use rxgraph.Graph.Csr.{NodeId, Endpoints}
use rxgraph.Graph.Preprocess.{EdgeColumns, register_edges, checked_id}
use rxgraph.Graph.Preprocess.Rows.{IsEdgeRow, HasEdges}

module _ {K : Type 0} ⦃key : Key K⦄ (lookup : HashMap K NodeId) (cols : EdgeColumns K) where
  -- The earlier rows stay, and the new row is the last.
  rows-append :
      (row : ℕ) (out : List K) (endpoints : List Endpoints) (id : K) (e : Endpoints)
      → HasEdges lookup cols row (out, endpoints)
      → IsEdgeRow lookup cols (out ++ id ∷ []) (endpoints ++ e ∷ []) row
      → HasEdges lookup cols (suc row) (out ++ id ∷ [], endpoints ++ e ∷ [])
  rows-append row out endpoints id e inv new = record {
    id_size = omega (arith, inv.id_size, length-append out (id ∷ []));
    size = omega (arith, inv.size, length-append endpoints (e ∷ []));
    rows = λ i lt. elim (Bool-cases (i == row)) [
      | inl same ↦ let eq : row ≡ i = ground arith in rw eq at new
      | inr other ↦
          let old = inv.rows i (ground arith) in
          record {
            src_id = old.src_id;
            dest_id = old.dest_id;
            src = old.src;
            dest = old.dest;
            id_read = ground (arith, get_elem?-append_last out id i, inv.id_size, old.id_read);
            src_read = old.src_read;
            dest_read = old.dest_read;
            src_found = old.src_found;
            dest_found = old.dest_found;
            stored = ground (arith, get_elem?-append_last endpoints e i, inv.size, old.stored);
          }
    ];
  }

  module _ (wrap : K → GraphId) where
    -- A round that succeeds found the row's ids, and goes on with the next row.
    record Round (row rounds : ℕ) (seen : HashMap K (Unit {0})) (out : List K)
        (endpoints : List Endpoints) (r : List K × List Endpoints) : Type 0 where
      id : K
      src_id : K
      dest_id : K
      src : NodeId
      dest : NodeId
      id_read : cols.ids row ≡ some id
      src_read : cols.srcs row ≡ some src_id
      dest_read : cols.dests row ≡ some dest_id
      src_found : get lookup src_id ≡ some src
      dest_found : get lookup dest_id ≡ some dest
      rest :
          register_edges wrap lookup cols rounds
            (suc row)
            (insert seen id tt).1
            (out ++ id ∷ [])
            (endpoints ++ (src, dest) ∷ [])
          ≡ ok r

    round :
        (row rounds : ℕ) (seen : HashMap K (Unit {0})) (out : List K) (endpoints : List Endpoints)
        (r : List K × List Endpoints)
        → register_edges wrap lookup cols (suc rounds) row seen out endpoints ≡ ok r
        → Round row rounds seen out endpoints r
    unfolding register_edges checked_id insert
    round row rounds seen out endpoints r h = elim (Option-cases (cols.ids row)) [
      | inl absent ↦ absurd (ground arith)
      | inr (id, a) ↦ elim (Option-cases (cols.srcs row)) [
        | inl absent ↦ absurd (ground arith)
        | inr (src_id, b) ↦ elim (Option-cases (cols.dests row)) [
          | inl absent ↦ absurd (ground arith)
          | inr (dest_id, c) ↦ elim (Option-cases (get seen id)) [
            | inr (old, taken) ↦ absurd (ground arith)
            | inl fresh ↦ elim (Option-cases (get lookup src_id)) [
              | inl absent ↦ absurd (ground arith)
              | inr (src, s) ↦ elim (Option-cases (get lookup dest_id)) [
                | inl absent ↦ absurd (ground arith)
                | inr (dest, d) ↦ elim (Bool-cases (leb row u32_max)) [
                  | inr big ↦ absurd (ground arith)
                  | inl small ↦ record {
                    id = id;
                    src_id = src_id;
                    dest_id = dest_id;
                    src = src;
                    dest = dest;
                    id_read = a;
                    src_read = b;
                    dest_read = c;
                    src_found = s;
                    dest_found = d;
                    rest = rw (a, b, c, fresh, s, d, small) at h;
                  }
                ]
              ]
            ]
          ]
        ]
      ]
    ]

    pub register_edges_lem :
        (rounds row last : ℕ) (seen : HashMap K (Unit {0})) (out : List K)
        (endpoints : List Endpoints) (r : List K × List Endpoints)
        → row + rounds ≡ last
        → HasEdges lookup cols row (out, endpoints)
        → register_edges wrap lookup cols rounds row seen out endpoints ≡ ok r
        → HasEdges lookup cols last r
    unfolding register_edges
    register_edges_lem zero row last seen out endpoints r e inv h =
        let same : row ≡ last = omega arith in rw (← same, ← ok-injective h) inv
    register_edges_lem (suc rounds) row last seen out endpoints r e inv h =
        let n = round row rounds seen out endpoints r h in
        register_edges_lem rounds (suc row) last (insert seen n.id tt).1 (out ++ n.id ∷ [])
          (endpoints ++ (n.src, n.dest) ∷ []) r (omega arith)
          (rows-append row out endpoints n.id (n.src, n.dest) inv
            (record {
              src_id = n.src_id;
              dest_id = n.dest_id;
              src = n.src;
              dest = n.dest;
              id_read = ground (arith, get_elem?-append_last out n.id row, inv.id_size, n.id_read);
              src_read = n.src_read;
              dest_read = n.dest_read;
              src_found = n.src_found;
              dest_found = n.dest_found;
              stored =
                  ground (arith, get_elem?-append_last endpoints (n.src, n.dest) row, inv.size);
            }))
          n.rest
