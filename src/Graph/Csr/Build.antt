-- ===== src/Graph/Csr/Build.antt =====
-- `build_csr` groups the edges by source, each group in edge order.
use rxgraph.Prelude.{
  ℕ, zero, suc, ◌+◌, ◌-◌, ◌≤◌, ◌<◌, ◌≡◌, refl, sym, ◌∙◌, List, [], ◌∷◌, arith, false, ltb, length,
  get_or, take, drop, replicate, All, length-replicate, get_or-replicate, length-drop, get_or-drop,
  take-ext,
}
use rxgraph.Prelude.Words.{u32_max}
use rxgraph.Prelude.Counts.{
  values_of, count, count_below, count_below-zero, count_below-suc, count_below-le,
  count_below_mono,
}
use rxgraph.Result.{ok, Returns}
use rxgraph.Graph.Csr.{NodeId, EdgeId, Endpoints, Csr, count_sources, accumulate, build_csr}
use rxgraph.Graph.Csr.Scatter.{scatter, length-scatter, Fits, scatter_reads}
use rxgraph.Graph.Csr.Offsets.{degree_at, count_sources_lem, accumulate_lem}
use rxgraph.Graph.Csr.Place.{keyed_ids, count-keyed_ids, All-keyed_ids, place_lem}

-- The edges that leave a node, by position and by destination, in edge order.
abbrev pub edges_from : NodeId → List Endpoints → List EdgeId
edges_from s edges = values_of s (keyed_ids 0 edges)

abbrev pub dests_from : NodeId → List Endpoints → List NodeId
dests_from s edges = values_of s edges

pub record IsCsr (node_count : ℕ) (edges : List Endpoints) (c : Csr) : Type 0 where
  pub rows : length c.offsets ≡ node_count + 1
  pub offset : (i : ℕ) → i ≤ node_count → get_or c.offsets i 0 ≡ count_below i edges
  pub edge_size : length c.edge_ids ≡ length edges
  pub dest_size : length c.dests ≡ length edges
  pub edge_row :
      (s : ℕ)
      → s < node_count
      → take (count s edges) (drop (count_below s edges) c.edge_ids) ≡ edges_from s edges
  pub dest_row :
      (s : ℕ)
      → s < node_count
      → take (count s edges) (drop (count_below s edges) c.dests) ≡ dests_from s edges

module _ {A : Type 0} (es : List (ℕ × A)) (cursor : List ℕ) (out : List A) (d : A) where
  -- A region of a scattered vector, as a slice.
  pub scatter_row :
      (s : ℕ)
      → Fits es cursor out
      → s < length cursor
      → take (count s es) (drop (get_or cursor s 0) (scatter es cursor out)) ≡ values_of s es
  scatter_row s f lt =
      let o = get_or cursor s 0 in
      take-ext (drop o (scatter es cursor out)) (values_of s es) d
        (omega
          (arith, length-drop o (scatter es cursor out), length-scatter es cursor out, f.room s lt))
        (λ j h.
          get_or-drop o j (scatter es cursor out) d ∙ scatter_reads es cursor out s j d f lt h)

-- The running sums of the degrees are the starts of regions that fit.
pub Fits-offsets :
    {A B : Type 0} (n : ℕ) (edges : List (ℕ × A)) (es : List (ℕ × B)) (offsets : List ℕ)
    (out : List B)
    → ((s : ℕ) → count s es ≡ count s edges)
    → All (λ e. e.0 < length offsets) es
    → length offsets ≡ n + 1
    → length out ≡ length edges
    → ((i : ℕ) → i < length offsets → get_or offsets i 0 ≡ count_below i edges)
    → Fits es offsets out
Fits-offsets n edges es offsets out same keys rows size starts = record {
  keys = keys;
  room = λ k lt.
      omega (arith, starts k lt, same k, count_below-suc k edges, count_below-le (suc k) edges);
  apart = λ k l lt inside. omega (
    arith,
    starts k (omega arith),
    starts l inside,
    same k,
    count_below-suc k edges,
    count_below_mono (suc k) l edges lt,
  );
}

All-weaken :
    {A : Type 0} (n m : ℕ) (es : List (ℕ × A))
    → n ≤ m
    → All (λ e. e.0 < n) es
    → All (λ e. e.0 < m) es
All-weaken n m [] h p = tt
All-weaken n m (e ∷ es) h p = (omega (arith, p.0), All-weaken n m es h p.1)

All-shift :
    {A : Type 0} (n m : ℕ) (es : List (ℕ × A))
    → n < m
    → All (λ e. e.0 < n) es
    → All (λ e. e.0 + 1 < m) es
All-shift n m [] h p = tt
All-shift n m (e ∷ es) h p = (omega (arith, p.0), All-shift n m es h p.1)

degree_at_zero : (j : ℕ) (edges : List Endpoints) → j < 1 → degree_at j edges ≡ count_below j edges
degree_at_zero zero edges h = sym (count_below-zero edges)
degree_at_zero (suc j) edges h = absurd (omega arith)

degree_sum :
    (j : ℕ) (edges : List Endpoints)
    → 1 ≤ j
    → count_below j edges ≡ degree_at j edges + count_below (j - 1) edges
degree_sum zero edges h = absurd (omega arith)
degree_sum (suc j) edges h =
    let same : suc j - 1 ≡ j = omega arith in rw same (omega (arith, count_below-suc j edges))

module _ (node_count : ℕ) (edges : List Endpoints) where
  -- Both running sums of `build_csr` together.
  offsets_lem :
      length edges ≤ u32_max
      → All (λ e. e.0 < node_count) edges
      → (counts : List ℕ) × (o : List ℕ) × (count_sources edges (replicate (node_count + 1) 0)
          ≡ ok counts)
        × (accumulate (length counts - 1) 1 counts ≡ ok o)
        × (length o ≡ node_count + 1)
        × ((i : ℕ) → i < length o → get_or o i 0 ≡ count_below i edges)
  offsets_lem fits inside =
      let zeros : List ℕ = replicate (node_count + 1) 0 in
      let zero_size = length-replicate {A = ℕ} (node_count + 1) 0 in
      let zero_at = λ (i : ℕ). get_or-replicate {A = ℕ} (node_count + 1) i 0 in
      let (counts, run, (size, reads)) =
        count_sources_lem edges zeros
          (All-shift node_count (length zeros) edges (omega arith) inside)
          (λ i. omega (arith, zero_at i)) in
      let (o, run', (size', sums)) =
        accumulate_lem (λ i. count_below i edges) (length counts - 1) 1 counts (omega arith)
          (omega arith) (λ j lt. omega (arith, zero_at j, reads j, degree_at_zero j edges lt))
          (λ j le lt. omega (arith, zero_at j, reads j, degree_sum j edges le))
          (λ j. omega (arith, count_below-le j edges)) in
      (counts, o, run, run', omega arith, λ i lt. sums i (omega arith))

-- With at most `u32::MAX` edges and sources in range, `build_csr` returns the grouped rows.
pub build_csr_lem :
    (node_count : ℕ) (edges : List Endpoints)
    → length edges ≤ u32_max
    → All (λ e. e.0 < node_count) edges
    → Returns (build_csr node_count edges) (IsCsr node_count edges)
unfolding build_csr
build_csr_lem node_count edges fits inside =
    let small : ltb u32_max (length edges) ≡ false = ground arith in
    let zeros : List ℕ = replicate (length edges) 0 in
    let zero_size = length-replicate {A = ℕ} (length edges) 0 in
    let (counts, o, count_run, sum_run, rows, starts) = offsets_lem node_count edges fits inside in
    let keys = All-weaken node_count (length o) edges (omega arith) inside in
    let dest_fits =
      Fits-offsets node_count edges edges o zeros (λ s. refl) keys rows zero_size starts in
    let id_fits =
      Fits-offsets node_count edges (keyed_ids 0 edges) o zeros (λ s. count-keyed_ids s 0 edges)
        (All-keyed_ids (length o) 0 edges keys) rows zero_size starts in
    let (r, placed, p) =
      place_lem 0 edges (record { edge_ids = zeros; dests = zeros; cursor = o }) dest_fits refl
        (omega arith) (omega arith) in
    (
      record { offsets = o; edge_ids = r.edge_ids; dests = r.dests },
      rw (small, count_run, sum_run, placed),
      record {
        rows = rows;
        offset = λ i le. starts i (omega arith);
        edge_size = rw p.edge_ids (length-scatter (keyed_ids 0 edges) o zeros ∙ zero_size);
        dest_size = rw p.dests (length-scatter edges o zeros ∙ zero_size);
        edge_row = λ s lt.
            let here : s < length o = omega arith in
            let row = scatter_row (keyed_ids 0 edges) o zeros 0 s id_fits here in
            rw (p.edge_ids, ← starts s here, ← count-keyed_ids s 0 edges) row;
        dest_row = λ s lt.
            let here : s < length o = omega arith in
            rw (p.dests, ← starts s here) (scatter_row edges o zeros 0 s dest_fits here);
      },
    )
