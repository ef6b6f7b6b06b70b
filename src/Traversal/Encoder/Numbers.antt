-- ===== src/Traversal/Encoder/Numbers.antt =====
-- crates/rxgraph/src/traversal/state_encoder.rs: the integers of a state, and their reads in kernel.rs.
use Prim.Native.String.{String}
use rxgraph.Prelude.{ℕ, ◌<◌, ◌≡◌, refl, some, arith, ltb, Bool-cases, inl, inr}
use rxgraph.Result.{ok, err, Returns, number_too_big}
use rxgraph.Dsl.Integer.{ℤ, pos, negsuc, word_64, half_64}
use rxgraph.Dsl.Float.{Float}
use rxgraph.Dsl.Value.{u64, i64, as_i128}
use rxgraph.Traversal.Kernel.Convert.{FloatCast, as_u64, as_i64}
use rxgraph.Traversal.Encoder.{of_i64, of_u64, of_i128, serialize, serialize_i64, serialize_i128}

-- The integers of an `i64`, and those that an `i64` or a `u64` can hold.
abbrev pub IsI64 : ℤ → Type 0
IsI64 (pos n) = n < half_64
IsI64 (negsuc n) = n < half_64

abbrev pub IsHeld : ℤ → Type 0
IsHeld (pos n) = n < word_64
IsHeld (negsuc n) = n < half_64

serialize_i128-held :
    {F : Type 0} (z : ℤ) → IsHeld z → Returns (serialize_i128 {F = F} z) (λ v. as_i128 v ≡ some z)
unfolding serialize_i128 as_i128 serialize_i64
serialize_i128-held (pos n) h = (u64 n, ground arith, refl)
serialize_i128-held (negsuc n) h = (i64 (negsuc n), ground arith, refl)

serialize_i128-too_big :
    {F : Type 0} (z : ℤ) → ¬ IsHeld z → serialize_i128 {F = F} z ≡ err number_too_big
unfolding serialize_i128
serialize_i128-too_big (pos n) h = elim (Bool-cases (ltb n word_64)) [
  | inl fits ↦ absurd (h (ground arith))
  | inr big ↦ rw (serialize_i128, big) refl
]
serialize_i128-too_big (negsuc n) h = elim (Bool-cases (ltb n half_64)) [
  | inl fits ↦ absurd (h (ground arith))
  | inr big ↦ rw (serialize_i128, big) refl
]

module _ (F : Type 0) ⦃float : Float F⦄ ⦃cast : FloatCast F⦄ where
  as_i64-serialize_i64 : (z : ℤ) → IsI64 z → as_i64 (serialize_i64 {F = F} z) ≡ ok (some z)
  unfolding as_i64 serialize_i64
  as_i64-serialize_i64 (pos n) h = ground arith
  as_i64-serialize_i64 (negsuc n) h = refl

module _ {F : Type 0} ⦃float : Float F⦄ ⦃cast : FloatCast F⦄ where
  -- An `i64` of a state encodes to a value that `as_i64` reads back as the same integer, and a `u64`
  -- to one that `as_u64` does; an `i128` from -2^63 to 2^64 - 1 encodes to that integer, and any
  -- other is an error.
  pub serialize_numbers :
      (f32_text : F → String) (z : ℤ) (n : ℕ) (held big : ℤ)
      → IsI64 z
      → IsHeld held
      → ¬ IsHeld big
      → Returns (serialize f32_text (of_i64 z)) (λ v. as_i64 v ≡ ok (some z))
        × Returns (serialize f32_text (of_u64 n)) (λ v. as_u64 v ≡ ok (some n))
        × Returns (serialize f32_text (of_i128 held)) (λ v. as_i128 v ≡ some held)
        × (serialize f32_text (of_i128 big) ≡ err number_too_big)
  unfolding serialize as_u64
  serialize_numbers f32_text z n held big small fits wide = (
    (serialize_i64 z, refl, as_i64-serialize_i64 F z small),
    (u64 n, refl, refl),
    serialize_i128-held held fits,
    serialize_i128-too_big big wide,
  )
