-- ===== src/Graph/Csr/Offsets.antt =====
-- The first two loops of `build_csr`: degree counts, and their running sums, which are the offsets.
use rxgraph.Prelude.{
  ℕ, zero, suc, ◌+◌, ◌-◌, ◌≤◌, ◌<◌, ◌≡◌, refl, List, [], ◌∷◌, arith, ◌==◌, if◌then◌else◌, length,
  get_or, set, All, length-set, get_or-set,
}
use rxgraph.Prelude.Words.{u32_mod, add_u32-lt}
use rxgraph.Prelude.Counts.{count, count-cons}
use rxgraph.Result.{Returns, index-get_or, store-set}
use rxgraph.Graph.Csr.{Endpoints, count_sources, accumulate}

-- What the counting loop adds at position `i`: the out-degree of node `i - 1`.
abbrev pub degree_at : ℕ → List Endpoints → ℕ
degree_at zero edges = 0
degree_at (suc s) edges = count s edges

degree_at-cons :
    (i src dest : ℕ) (edges : List Endpoints)
    → degree_at i ((src, dest) ∷ edges)
      ≡ (if src + 1 == i then suc (degree_at i edges) else degree_at i edges)
degree_at-cons zero src dest edges = ground arith
degree_at-cons (suc i) src dest edges = ground (arith, count-cons i src dest edges)

empty : (i : ℕ) → degree_at i [] ≡ 0
empty zero = refl
empty (suc i) = refl

pub count_sources_lem :
    (edges : List Endpoints) (offsets : List ℕ)
    → All (λ e. e.0 + 1 < length offsets) edges
    → ((i : ℕ) → get_or offsets i 0 + length edges < u32_mod)
    → Returns (count_sources edges offsets) λ r.
      (length r ≡ length offsets)
      × ((i : ℕ) → get_or r i 0 ≡ get_or offsets i 0 + degree_at i edges)
unfolding count_sources
count_sources_lem [] offsets inside small = (offsets, refl, (refl, λ i. omega (arith, empty i)))
count_sources_lem ((src, dest) ∷ edges) offsets inside small =
    let n = get_or offsets (src + 1) 0 in
    let read = λ (i : ℕ). get_or-set offsets (src + 1) i (n + 1) 0 inside.0 in
    let counted = set offsets (src + 1) (n + 1) in
    let same = length-set offsets (src + 1) (n + 1) in
    let (r, runs, (size, reads)) =
      count_sources_lem edges counted (rw same inside.1) (λ i. ground (arith, read i, small i)) in
    (
      r,
      rw
          (
            index-get_or offsets (src + 1) 0 inside.0,
            add_u32-lt n 1 (omega (arith, small (src + 1))),
            store-set offsets (src + 1) (n + 1) inside.0,
          )
          runs,
      (
        omega (arith, size, same),
        λ i. ground (arith, reads i, read i, degree_at-cons i src dest edges),
      ),
    )

pub accumulate_lem :
    (sum : ℕ → ℕ) (rounds i : ℕ) (offsets : List ℕ)
    → i + rounds ≡ length offsets
    → 1 ≤ i
    → ((j : ℕ) → j < i → get_or offsets j 0 ≡ sum j)
    → ((j : ℕ) → i ≤ j → j < length offsets → sum j ≡ get_or offsets j 0 + sum (j - 1))
    → ((j : ℕ) → sum j < u32_mod)
    → Returns
        (accumulate rounds i offsets)
        λ r. (length r ≡ length offsets) × ((j : ℕ) → j < length offsets → get_or r j 0 ≡ sum j)
unfolding accumulate
accumulate_lem sum zero i offsets e pos done todo small =
    (offsets, refl, (refl, λ j lt. done j (omega arith)))
accumulate_lem sum (suc rounds) i offsets e pos done todo small =
    let n = get_or offsets i 0 in
    let before = get_or offsets (i - 1) 0 in
    let inside : i < length offsets = omega arith in
    let read = λ (j : ℕ). get_or-set offsets i j (n + before) 0 inside in
    let summed = set offsets i (n + before) in
    let same = length-set offsets i (n + before) in
    let (r, runs, (size, reads)) =
      accumulate_lem sum rounds (i + 1) summed (omega (arith, same)) (omega arith)
        (λ j lt. ground (arith, read j, done j, done (i - 1), todo i))
        (λ j le lt. ground (arith, read j, todo j, same)) small in
    (
      r,
      rw
          (
            index-get_or offsets i 0 inside,
            index-get_or offsets (i - 1) 0 (omega arith),
            add_u32-lt n before (ground (arith, done (i - 1), todo i, small i)),
            store-set offsets i (n + before) inside,
          )
          runs,
      (omega (arith, size, same), λ j lt. reads j (omega (arith, same))),
    )
