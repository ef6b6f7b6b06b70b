-- ===== src/Dsl/Search.antt =====
-- `slice::binary_search_by` of the standard library, as crates/rxgraph/src/dsl/bind.rs calls it: each
-- round halves the range, with no early exit. There is a round for each element, more than the
-- halvings.
pub mod Text
pub mod Found
use Prim.Native.Nat.{Ordering}
use rxgraph.Prelude.{
  ℕ, zero, suc, ◌+◌, ◌-◌, ◌/◌, Option, none, some, List, length, get_elem?, ltb, if◌then◌else◌,
  Bool, true, false,
}
use rxgraph.Dsl.Lists.Sorting.{is_ordering}

module _ {A : Type 0} (cmp : A → Ordering) where
  -- The comparison at an index that is in range.
  unfoldable pub compares : Ordering → Option A → Bool
  unfolding is_ordering
  compares o none = false
  compares o (some x) = is_ordering (cmp x) o

  -- `while size > 1`, to the base that is left.
  unfoldable pub narrow : ℕ → List A → ℕ → ℕ → ℕ
  unfolding compares
  narrow zero xs size base = base
  narrow (suc fuel) xs size base =
      let mid = base + size / 2 in
      let next = if compares Ordering.gt (get_elem? xs mid) then base else mid in
      if ltb 1 size then narrow fuel xs (size - size / 2) next else base

  -- `binary_search_by(…).ok()`.
  unfoldable pub binary_search_by : List A → Option ℕ
  unfolding narrow compares
  binary_search_by xs =
      let base = narrow (length xs) xs (length xs) 0 in
      if compares Ordering.eq (get_elem? xs base) then some base else none
