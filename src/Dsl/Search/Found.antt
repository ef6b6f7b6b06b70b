-- ===== src/Dsl/Search/Found.antt =====
-- A binary search finds what stands in a range that the comparison divides.
use Prim.Native.Nat.{Ordering}
use rxgraph.Prelude.{
  ℕ, zero, suc, ◌+◌, ◌-◌, ◌/◌, ◌<◌, ◌≤◌, ◌≡◌, ◌≢◌, refl, some, List, length, get_elem?,
  get_elem?-lt, get_elem?-ge, ltb, true, false, Bool-cases, Option-cases, inl, inr, ◌⊎◌, arith,
}
use rxgraph.Dsl.Lists.Sorting.{is_ordering}
use rxgraph.Dsl.Search.{compares, narrow, binary_search_by}

is_ordering-not : (o : Ordering) → o ≢ Ordering.gt → is_ordering o Ordering.gt ≡ false
unfolding is_ordering
is_ordering-not Ordering.lt h = refl
is_ordering-not Ordering.eq h = refl
is_ordering-not Ordering.gt h = absurd (h refl)

module _ {A : Type 0} (cmp : A → Ordering) (xs : List A) (i : ℕ)
    (before : (j : ℕ) (x : A) → j ≤ i → get_elem? xs j ≡ some x → cmp x ≢ Ordering.gt)
    (after : (j : ℕ) (x : A) → i < j → get_elem? xs j ≡ some x → cmp x ≡ Ordering.gt) where
  -- A comparison in range says on which side it is.
  side :
      (j : ℕ)
      → j < length xs
      → ((i < j) × (compares cmp Ordering.gt (get_elem? xs j) ≡ true))
        ⊎ ((j ≤ i) × (compares cmp Ordering.gt (get_elem? xs j) ≡ false))
  unfolding compares is_ordering
  side j lt = elim (Option-cases (get_elem? xs j)) [
    | inl gone ↦ absurd (let short = get_elem?-ge xs j gone in omega arith)
    | inr there ↦
        let (x, at) = there in
        elim (Bool-cases (ltb i j)) [
          | inl above ↦ let far : i < j = ground arith in inl (far, rw (at, after j x far at) refl)
          | inr below ↦
              let near : j ≤ i = ground arith in
              inr (near, rw at (is_ordering-not (cmp x) (before j x near at)))
        ]
  ]

  narrow-found :
      (fuel size base : ℕ)
      → base ≤ i
      → i < base + size
      → base + size ≤ length xs
      → size ≤ fuel + 1
      → narrow cmp fuel xs size base ≡ i
  unfolding narrow
  narrow-found zero size base p q r s = omega arith
  narrow-found (suc fuel) size base p q r s = elim (Bool-cases (ltb 1 size)) [
    | inr small ↦ rw small (let least : size ≤ 1 = ground arith in omega arith)
    | inl large ↦
        let many : 1 < size = ground arith in
        elim (side (base + size / 2) (omega arith)) [
          | inl (above, gt) ↦
              rw (large, gt)
                (narrow-found fuel (size - size / 2) base p (omega arith) (omega arith)
                  (omega arith))
          | inr (below, le) ↦
              rw (large, le)
                (narrow-found fuel (size - size / 2) (base + size / 2) below (omega arith)
                  (omega arith) (omega arith))
        ]
  ]

  -- A list in which the comparison turns after index `i`, and finds equality there, is searched with
  -- that index.
  pub binary_search_by-found :
      (x : A) → get_elem? xs i ≡ some x → cmp x ≡ Ordering.eq → binary_search_by cmp xs ≡ some i
  unfolding binary_search_by compares is_ordering
  binary_search_by-found x at same =
      let inside = get_elem?-lt xs i x at in
      let base =
        narrow-found (length xs) (length xs) 0 (omega arith) (omega arith) (omega arith)
          (omega arith) in
      rw (base, at, same) refl
