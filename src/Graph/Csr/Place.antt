-- ===== src/Graph/Csr/Place.antt =====
-- The third loop of `build_csr` scatters the edge ids and the destinations by source.
use rxgraph.Prelude.{
  ℕ, suc, ◌+◌, ◌≤◌, ◌<◌, ◌≡◌, refl, List, [], ◌∷◌, arith, length, get_or, set, All, length-set,
}
use rxgraph.Prelude.Words.{u32_mod, add_u32-lt, to_u32-lt}
use rxgraph.Prelude.Counts.{count, count-cons}
use rxgraph.Result.{Returns, index-get_or, store-set}
use rxgraph.Graph.Csr.{EdgeId, Endpoints, Filling, place}
use rxgraph.Graph.Csr.Scatter.{scatter, Fits, Fits-step}

-- The positions of the edges, by source.
abbrev pub keyed_ids : EdgeId → List Endpoints → List (ℕ × EdgeId)
keyed_ids k [] = []
keyed_ids k ((src, dest) ∷ edges) = (src, k) ∷ keyed_ids (suc k) edges

pub count-keyed_ids :
    (s k : ℕ) (edges : List Endpoints) → count s (keyed_ids k edges) ≡ count s edges
count-keyed_ids s k [] = refl
count-keyed_ids s k ((src, dest) ∷ edges) = ground (
  arith,
  count-cons s src k (keyed_ids (suc k) edges),
  count-cons s src dest edges,
  count-keyed_ids s (suc k) edges,
)

pub All-keyed_ids :
    (n k : ℕ) (edges : List Endpoints)
    → All (λ e. e.0 < n) edges
    → All (λ e. e.0 < n) (keyed_ids k edges)
All-keyed_ids n k [] h = tt
All-keyed_ids n k ((src, dest) ∷ edges) h = (h.0, All-keyed_ids n (suc k) edges h.1)

pub record IsPlaced (edge_id : EdgeId) (edges : List Endpoints) (f r : Filling) : Type 0 where
  pub dests : r.dests ≡ scatter edges f.cursor f.dests
  pub edge_ids : r.edge_ids ≡ scatter (keyed_ids edge_id edges) f.cursor f.edge_ids

pub place_lem :
    (edge_id : EdgeId) (edges : List Endpoints) (f : Filling)
    → Fits edges f.cursor f.dests
    → length f.edge_ids ≡ length f.dests
    → length f.dests < u32_mod
    → edge_id + length edges ≤ length f.dests
    → Returns (place edge_id edges f) (IsPlaced edge_id edges f)
unfolding place scatter
place_lem edge_id [] f fits same small ids = (f, refl, record { dests = refl; edge_ids = refl })
place_lem edge_id ((src, dest) ∷ edges) f fits same small ids =
    let pos = get_or f.cursor src 0 in
    let room : pos < length f.dests =
      ground (arith, fits.room src fits.keys.0, count-cons src src dest edges) in
    let f' : Filling = record {
      edge_ids = set f.edge_ids pos edge_id;
      dests = set f.dests pos dest;
      cursor = set f.cursor src (pos + 1);
    } in
    let (r, runs, p) =
      place_lem (suc edge_id) edges f' (Fits-step src dest edges f.cursor f.dests fits)
        (omega (arith, length-set f.edge_ids pos edge_id, length-set f.dests pos dest))
        (omega (arith, length-set f.dests pos dest)) (omega (arith, length-set f.dests pos dest)) in
    (
      r,
      rw
          (
            index-get_or f.cursor src 0 fits.keys.0,
            to_u32-lt edge_id (omega arith),
            store-set f.edge_ids pos edge_id (omega arith),
            store-set f.dests pos dest room,
            add_u32-lt pos 1 (omega arith),
            store-set f.cursor src (pos + 1) fits.keys.0,
          )
          runs,
      record { dests = p.dests; edge_ids = p.edge_ids },
    )
