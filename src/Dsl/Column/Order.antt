-- ===== src/Dsl/Column/Order.antt =====
-- The order of texts, from both sides.
use Prim.Native.Nat.{Ordering, compare as compare_ℕ}
use Prim.Native.Char.{code}
use Prim.Native.String.compare as cmp
use Prim.Native.String.{String, [], ◌∷◌, then, compare as compare_str}
use rxgraph.Prelude.{ℕ, ◌≡◌, refl, sym, ◌∙◌, true, Bool-cases, inl, inr, arith}
use rxgraph.Prelude.Keys.{string_key}
use rxgraph.Dsl.Float.{flip}

compare_ℕ-flip : (m n : ℕ) → compare_ℕ n m ≡ flip (compare_ℕ m n)
compare_ℕ-flip m n = ground arith

then-flip : (a b c d : Ordering) → b ≡ flip a → d ≡ flip c → then b d ≡ flip (then a c)
then-flip Ordering.lt b c d h k = rw h refl
then-flip Ordering.eq b c d h k = rw h k
then-flip Ordering.gt b c d h k = rw h refl

pub compare_str-flip : (s t : String) → compare_str t s ≡ flip (compare_str s t)
compare_str-flip [] [] = rw (cmp.nil-nil) refl
compare_str-flip [] (d ∷ t) = rw (cmp.nil-cons d t, cmp.cons-nil d t) refl
compare_str-flip (c ∷ s) [] = rw (cmp.nil-cons c s, cmp.cons-nil c s) refl
compare_str-flip (c ∷ s) (d ∷ t) =
    rw (cmp.cons-cons c d s t, cmp.cons-cons d c t s)
      (then-flip (compare_ℕ (code c) (code d)) (compare_ℕ (code d) (code c)) (compare_str s t)
        (compare_str t s) (compare_ℕ-flip (code c) (code d)) (compare_str-flip s t))

beq-of-beq : (s t : String) → string_key.beq s t ≡ true → string_key.beq t s ≡ true
beq-of-beq s t same = (string_key.beq_iff t s).1 (sym ((string_key.beq_iff s t).0 same))

pub beq_sym : (s t : String) → string_key.beq s t ≡ string_key.beq t s
beq_sym s t = elim (Bool-cases (string_key.beq s t)) [
  | inl same ↦ same ∙ sym (beq-of-beq s t same)
  | inr other ↦ elim (Bool-cases (string_key.beq t s)) [
    | inl same ↦ absurd (cc (beq-of-beq t s same))
    | inr other' ↦ other ∙ sym other'
  ]
]
