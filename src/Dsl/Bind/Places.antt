-- ===== src/Dsl/Bind/Places.antt =====
-- crates/rxgraph/src/dsl/bind.rs, `state_names` and `state_index`: the names of a kernel's states.
use Prim.Native.String.{String, compare as compare_str}
use Prim.Native.Nat.{Ordering}
use rxgraph.Prelude.{
  ℕ, suc, ◌≡◌, refl, sym, ap, ◌∙◌, ◌||◌, some, Bool-cases, inl, inr, List, [], ◌∷◌, ◌++◌, Bool,
  true, false, get_elem?,
}
use rxgraph.Prelude.Keys.{string_key}
use rxgraph.Dsl.Value.{Value}
use rxgraph.Dsl.Expr.{Expr, ColumnRef}
use rxgraph.Dsl.Lists.Sorting.{insert_by, sort_by}
use rxgraph.Dsl.Bind.{dedup, state_index, keys, state_names}
use rxgraph.Dsl.Bind.Order.{IsAscending, names-IsAscending, state_index-found}

unfoldable pub has_name : List String → String → Bool
has_name [] q = false
has_name (name ∷ names) q = string_key.beq name q || has_name names q

or_swap : (a b c : Bool) → (a || (b || c)) ≡ (b || (a || c))
or_swap true true c = refl
or_swap true false c = refl
or_swap false b c = refl

or_twice : (a c : Bool) → (a || (a || c)) ≡ (a || c)
or_twice true c = refl
or_twice false c = refl

has_name-insert_by :
    (cmp : String → String → Ordering) (x : String) (names : List String) (q : String)
    → has_name (insert_by cmp x names) q ≡ (string_key.beq x q || has_name names q)
unfolding insert_by has_name
has_name-insert_by cmp x [] q = refl
has_name-insert_by cmp x (y ∷ names) q = placed (has_name-insert_by cmp x names q) (cmp x y) refl
  where
    placed :
        has_name (insert_by cmp x names) q ≡ (string_key.beq x q || has_name names q)
        → (o : Ordering) → cmp x y ≡ o
        → has_name (insert_by cmp x (y ∷ names)) q ≡ (string_key.beq x q || has_name (y ∷ names) q)
    placed ih Ordering.lt e = rw (insert_by, e) refl
    placed ih Ordering.eq e = rw (insert_by, e) refl
    placed ih Ordering.gt e =
        rw (insert_by, e)
          (ap (λ b. string_key.beq y q || b) ih
            ∙ or_swap (string_key.beq y q) (string_key.beq x q) (has_name names q))

has_name-sort_by :
    (cmp : String → String → Ordering) (names : List String) (q : String)
    → has_name (sort_by cmp names) q ≡ has_name names q
unfolding sort_by has_name
has_name-sort_by cmp [] q = refl
has_name-sort_by cmp (x ∷ names) q =
    has_name-insert_by cmp x (sort_by cmp names) q
    ∙ ap (λ b. string_key.beq x q || b) (has_name-sort_by cmp names q)

has_name-dedup : (names : List String) (q : String) → has_name (dedup names) q ≡ has_name names q
unfolding dedup has_name
has_name-dedup [] q = refl
has_name-dedup (s ∷ []) q = refl
has_name-dedup (s ∷ t ∷ names) q = elim (Bool-cases (string_key.beq s t)) [
  | inl same ↦
      let e : s ≡ t = (string_key.beq_iff s t).0 same in
      rw (dedup, same, has_name-dedup (t ∷ names) q, e)
        (sym (or_twice (string_key.beq t q) (has_name names q)))
  | inr other ↦ rw (dedup, other) (ap (λ b. string_key.beq s q || b) (has_name-dedup (t ∷ names) q))
]

has_name-append :
    (names more : List String) (q : String)
    → has_name more q ≡ true
    → has_name (names ++ more) q ≡ true
unfolding has_name
has_name-append [] more q h = h
has_name-append (name ∷ names) more q h =
    rw (has_name-append names more q h) (or_true (string_key.beq name q))
  where
    or_true : (b : Bool) → (b || true) ≡ true
    or_true true = refl
    or_true false = refl

has_name-get_elem? :
    (names : List String) (q : String)
    → has_name names q ≡ true
    → (i : ℕ) × (get_elem? names i ≡ some q)
unfolding has_name
has_name-get_elem? [] q h = absurd cc
has_name-get_elem? (name ∷ names) q h = elim (Bool-cases (string_key.beq name q)) [
  | inl same ↦ (0, ap some ((string_key.beq_iff name q).0 same))
  | inr other ↦ let (i, there) = has_name-get_elem? names q (rw other at h) in (suc i, there)
]

-- A name that is there has an index among ascending names.
pub state_index-has_name :
    (names : List String) (q : String)
    → IsAscending names
    → has_name names q ≡ true
    → (i : ℕ) × (state_index names q ≡ some i)
state_index-has_name names q ascends h =
    let (i, there) = has_name-get_elem? names q h in (i, state_index-found q names i ascends there)

module _ {F : Type 0} where
  -- The names of the state hold each name that the kernel writes.
  pub state_names-has_name :
      (initial : List (String × Value F)) (next : List (String × Expr F ColumnRef)) (q : String)
      → has_name (keys next) q ≡ true
      → has_name (state_names initial next) q ≡ true
  unfolding state_names
  state_names-has_name initial next q h =
      has_name-dedup (sort_by compare_str (keys initial ++ keys next)) q
      ∙ has_name-sort_by compare_str (keys initial ++ keys next) q
      ∙ has_name-append (keys initial) (keys next) q h

  pub state_names-IsAscending :
      (initial : List (String × Value F)) (next : List (String × Expr F ColumnRef))
      → IsAscending (state_names initial next)
  unfolding state_names
  state_names-IsAscending initial next = names-IsAscending (keys initial ++ keys next)
