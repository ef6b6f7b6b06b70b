-- ===== src/Dsl/Bind/Order.antt =====
-- crates/rxgraph/src/dsl/bind.rs, `state_names` and `state_index`: sorted names without repeats, and
-- the place of a name in them.
use Prim.Native.String.{String, compare as compare_str}
use Prim.Native.Nat.{Ordering}
use text.Mathlib.Text.{is_eq}
use text.Mathlib.TextPositions.{compare_refl}
use rxgraph.Prelude.{
  ℕ, zero, suc, ◌≤◌, ◌<◌, ◌≡◌, ◌≢◌, refl, sym, ap, ◌∙◌, some, Bool-cases, inl, inr, List, [], ◌∷◌,
  false, get_elem?, arith, some-injective,
}
use rxgraph.Prelude.Keys.{string_key}
use rxgraph.Dsl.Float.{flip}
use rxgraph.Dsl.Column.Order.{compare_str-flip}
use rxgraph.Dsl.Search.Text.{compare_str_trans}
use rxgraph.Dsl.Search.Found.{binary_search_by-found}
use rxgraph.Dsl.Lists.Sorting.{sort_by}
use rxgraph.Dsl.Lists.Sorting.Sorted.{Ascending, sort_by-Ascending}
use rxgraph.Dsl.Bind.{dedup, state_index}

-- A name stands before the first of the names, if there is one.
abbrev IsBelow : String → List String → Type 0
IsBelow s [] = Unit {0}
IsBelow s (t ∷ names) = compare_str s t ≡ Ordering.lt

abbrev pub IsAscending : List String → Type 0
IsAscending [] = Unit {0}
IsAscending (s ∷ names) = IsBelow s names × IsAscending names

is_eq-not : (o : Ordering) → o ≢ Ordering.gt → is_eq o ≡ false → o ≡ Ordering.lt
is_eq-not Ordering.lt h k = refl
is_eq-not Ordering.eq h k = absurd cc
is_eq-not Ordering.gt h k = absurd (h refl)

-- Of two texts in order that are not one, the first is before the second.
compare_str-ne :
    (s t : String)
    → compare_str s t ≢ Ordering.gt
    → string_key.beq s t ≡ false
    → compare_str s t ≡ Ordering.lt
compare_str-ne s t h differs = is_eq-not (compare_str s t) h differs

-- `dedup` keeps the first name, up to equality.
dedup-first :
    (s : String) (names : List String) → (rest : List String) × (dedup (s ∷ names) ≡ s ∷ rest)
unfolding dedup
dedup-first s [] = ([], refl)
dedup-first s (t ∷ names) = elim (Bool-cases (string_key.beq s t)) [
  | inl same ↦
      let (rest, first) = dedup-first t names in
      (rest, rw (dedup, same) (first ∙ ap (λ u. u ∷ rest) (sym ((string_key.beq_iff s t).0 same))))
  | inr other ↦ (dedup (t ∷ names), rw (dedup, other) refl)
]

dedup-IsAscending : (names : List String) → Ascending compare_str names → IsAscending (dedup names)
unfolding dedup
dedup-IsAscending [] h = tt
dedup-IsAscending (s ∷ []) h = (tt, tt)
dedup-IsAscending (s ∷ t ∷ names) (first, rest) = elim (Bool-cases (string_key.beq s t)) [
  | inl same ↦ rw (dedup, same) (dedup-IsAscending (t ∷ names) rest)
  | inr other ↦
      let (more, shape) = dedup-first t names in
      let below : IsBelow s (dedup (t ∷ names)) = rw shape (compare_str-ne s t first other) in
      rw (dedup, other) (below, dedup-IsAscending (t ∷ names) rest)
]

-- A name is before all that stand after it.
IsAscending-below :
    (s : String) (names : List String) (j : ℕ) (x : String)
    → IsAscending (s ∷ names)
    → get_elem? names j ≡ some x
    → compare_str s x ≡ Ordering.lt
IsAscending-below s [] j x h at = absurd cc
IsAscending-below s (t ∷ names) zero x h at = rw (← some-injective at) h.0
IsAscending-below s (t ∷ names) (suc j) x h at =
    compare_str_trans s t x h.0 (IsAscending-below t names j x h.1 at)

module _ (q : String) where
  ascending-before :
      (names : List String) (i j : ℕ) (x : String)
      → IsAscending names
      → get_elem? names i ≡ some q
      → j ≤ i
      → get_elem? names j ≡ some x
      → compare_str x q ≢ Ordering.gt
  ascending-before [] i j x h at le there = absurd cc
  ascending-before (s ∷ names) zero zero x h at le there =
      let same = some-injective (sym there ∙ at) in rw (same, compare_refl q) (λ e. cc)
  ascending-before (s ∷ names) (suc i) zero x h at le there =
      let below = IsAscending-below s names i q h at in rw (← some-injective there, below) (λ e. cc)
  ascending-before (s ∷ names) zero (suc j) x h at le there = absurd (omega arith)
  ascending-before (s ∷ names) (suc i) (suc j) x h at le there =
      ascending-before names i j x h.1 at (omega arith) there

  ascending-after :
      (names : List String) (i j : ℕ) (x : String)
      → IsAscending names
      → get_elem? names i ≡ some q
      → i < j
      → get_elem? names j ≡ some x
      → compare_str x q ≡ Ordering.gt
  ascending-after [] i j x h at lt there = absurd cc
  ascending-after (s ∷ names) i zero x h at lt there = absurd (omega arith)
  ascending-after (s ∷ names) zero (suc j) x h at lt there =
      let below = IsAscending-below s names j x h there in
      let turned : compare_str x s ≡ Ordering.gt = compare_str-flip s x ∙ ap flip below in
      rw (← some-injective at) turned
  ascending-after (s ∷ names) (suc i) (suc j) x h at lt there =
      ascending-after names i j x h.1 at (omega arith) there

  -- In ascending names, a name is found where it stands.
  pub state_index-found :
      (names : List String) (i : ℕ)
      → IsAscending names
      → get_elem? names i ≡ some q
      → state_index names q ≡ some i
  unfolding state_index
  state_index-found names i h at =
      binary_search_by-found (λ key. compare_str key q) names i
        (λ j x le there. ascending-before names i j x h at le there)
        (λ j x lt there. ascending-after names i j x h at lt there) q at (compare_refl q)

pub names-IsAscending : (names : List String) → IsAscending (dedup (sort_by compare_str names))
names-IsAscending names =
    dedup-IsAscending (sort_by compare_str names)
      (sort_by-Ascending compare_str compare_str-flip names)
