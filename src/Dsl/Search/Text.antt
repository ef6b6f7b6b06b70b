-- ===== src/Dsl/Search/Text.antt =====
-- The order of texts is transitive.
use Prim.Native.Nat.{Ordering, compare as compare_ℕ}
use Prim.Native.Char.{code}
use Prim.Native.String.compare as cmp
use Prim.Native.String.{String, [], ◌∷◌, then, compare as compare_str}
use rxgraph.Prelude.{ℕ, ◌≡◌, refl, arith, inl, inr, ◌⊎◌, ◌<◌, ◌∙◌}
use rxgraph.Prelude.Keys.{string_key}

compare_ℕ-cases :
    (m n : ℕ)
    → ((m < n) × (compare_ℕ m n ≡ Ordering.lt))
      ⊎ (((m ≡ n) × (compare_ℕ m n ≡ Ordering.eq)) ⊎ ((n < m) × (compare_ℕ m n ≡ Ordering.gt)))
compare_ℕ-cases m n =
    (elim (compare_ℕ m n)
        as (λ o.
          compare_ℕ m n ≡ o
          → ((m < n) × (o ≡ Ordering.lt))
            ⊎ (((m ≡ n) × (o ≡ Ordering.eq)) ⊎ ((n < m) × (o ≡ Ordering.gt)))) [
              | Ordering.lt ↦ λ e. inl (ground arith, refl)
              | Ordering.eq ↦ λ e. inr (inl (ground arith, refl))
              | Ordering.gt ↦ λ e. inr (inr (ground arith, refl))
            ])
      refl

compare_ℕ-lt : (m n : ℕ) → m < n → compare_ℕ m n ≡ Ordering.lt
compare_ℕ-lt m n h = ground arith

compare_ℕ-eq : (m n : ℕ) → m ≡ n → compare_ℕ m n ≡ Ordering.eq
compare_ℕ-eq m n h = ground arith

then-lt :
    (a b c : ℕ) (x y z : Ordering)
    → then (compare_ℕ a b) x ≡ Ordering.lt
    → then (compare_ℕ b c) y ≡ Ordering.lt
    → (x ≡ Ordering.lt → y ≡ Ordering.lt → z ≡ Ordering.lt)
    → then (compare_ℕ a c) z ≡ Ordering.lt
then-lt a b c x y z h k both = elim (compare_ℕ-cases a b) [
  | inr (inr (above, gt)) ↦ absurd (let broken = rw gt at h in cc)
  | inl (below, lt) ↦ elim (compare_ℕ-cases b c) [
    | inr (inr (above, gt)) ↦ absurd (let broken = rw gt at k in cc)
    | inl (next, lt') ↦ rw (compare_ℕ-lt a c (omega arith)) refl
    | inr (inl (same, eq)) ↦ rw (compare_ℕ-lt a c (omega (arith, same))) refl
  ]
  | inr (inl (same, eq)) ↦ elim (compare_ℕ-cases b c) [
    | inr (inr (above, gt)) ↦ absurd (let broken = rw gt at k in cc)
    | inl (next, lt') ↦ rw (compare_ℕ-lt a c (omega (arith, same))) refl
    | inr (inl (same', eq')) ↦
        rw (compare_ℕ-eq a c (same ∙ same')) (both (rw eq at h) (rw eq' at k))
  ]
]

pub compare_str_trans :
    (s t u : String)
    → compare_str s t ≡ Ordering.lt
    → compare_str t u ≡ Ordering.lt
    → compare_str s u ≡ Ordering.lt
compare_str_trans [] [] u h k = absurd (let a = rw (cmp.nil-nil) at h in cc)
compare_str_trans (c ∷ s) [] u h k = absurd (let a = rw (cmp.cons-nil c s) at h in cc)
compare_str_trans s (d ∷ t) [] h k = absurd (let a = rw (cmp.cons-nil d t) at k in cc)
compare_str_trans [] (d ∷ t) (e ∷ u) h k = rw (cmp.nil-cons e u) refl
compare_str_trans (c ∷ s) (d ∷ t) (e ∷ u) h k = rw (cmp.cons-cons c e s u) (
    then-lt (code c) (code d) (code e) (compare_str s t) (compare_str t u) (compare_str s u)
      (rw (cmp.cons-cons c d s t) at h) (rw (cmp.cons-cons d e t u) at k) (compare_str_trans s t u))
