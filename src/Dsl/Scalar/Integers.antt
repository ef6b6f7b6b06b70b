-- ===== src/Dsl/Scalar/Integers.antt =====
-- crates/rxgraph/src/dsl/ops/scalar.rs: arithmetic on integers.
use rxgraph.Prelude.{ℕ, zero, suc, ◌+◌, ◌-◌, ◌%◌, ◌<◌, ◌≤◌, ◌≡◌, refl, ap, [], ◌∷◌, arith}
use rxgraph.Result.{ok}
use rxgraph.Dsl.Float.{Float}
use rxgraph.Dsl.Integer.{
  pos, negsuc, ◌+ℤ◌, ◌-ℤ◌, difference, negate, opposite, wrap_i128-pos, wrap_i128-negsuc, as_u64,
  as_u64-pos, as_i64-negsuc, residue, word_64, half_64,
}
use rxgraph.Dsl.Value.{i64, u64, as_i128, is_null}
use rxgraph.Dsl.Scalar.{eval_scalar, plus, minus, numeric_binary, of_i128}

exact : (a b : ℕ) → b ≤ a → (pos a -ℤ pos b) ≡ pos (a - b)
unfolding ◌-ℤ◌ ◌+ℤ◌ difference negate opposite
exact a zero h = ap pos (omega arith)
exact a (suc b) h = ground arith

below : (a b : ℕ) → a < b → (pos a -ℤ pos b) ≡ negsuc (b - a - 1)
unfolding ◌-ℤ◌ ◌+ℤ◌ difference negate opposite
below a zero h = absurd (omega arith)
below a (suc b) h = ground arith

module _ {F : Type 0} ⦃float : Float F⦄ where
  -- The sum of two unsigned integers is taken modulo 2^64, with no error on overflow. Their difference
  -- is exact: it is a signed integer where the second is greater, if it fits.
  pub plus-minus :
      (a b : ℕ)
      → a < word_64
      → b < word_64
      → (eval_scalar {F = F} plus (u64 a ∷ u64 b ∷ []) ≡ ok (u64 ((a + b) % word_64)))
        × (b ≤ a → eval_scalar {F = F} minus (u64 a ∷ u64 b ∷ []) ≡ ok (u64 (a - b)))
        × (a < b
            → b - a ≤ half_64
            → eval_scalar {F = F} minus (u64 a ∷ u64 b ∷ []) ≡ ok (i64 (negsuc (b - a - 1))))
  unfolding eval_scalar numeric_binary of_i128 is_null ◌+ℤ◌ as_u64 residue as_i128
  plus-minus a b p q = (
    rw (wrap_i128-pos (a + b) (omega arith)) refl,
    λ h.
        rw (exact a b h, wrap_i128-pos (a - b) (omega arith))
          (ap (λ n. ok (u64 n)) (as_u64-pos (a - b) (omega arith))),
    λ h fits.
        rw (below a b h, wrap_i128-negsuc (b - a - 1) (omega arith))
          (ap (λ z. ok (i64 z)) (as_i64-negsuc (b - a - 1) (omega arith))),
  )
