-- ===== src/Dsl/Integer.antt =====
-- Rust's signed integers, exact and with the wrap-around of `as` and of `i128`.
use rxgraph.Prelude.{
  ℕ, zero, suc, ◌+◌, ◌-◌, ◌*◌, ◌%◌, ◌^◌, ◌<◌, ◌≡◌, Bool, true, false, leb, ltb, if◌then◌else◌,
  arith,
}

-- `negsuc n` is -(n + 1).
pub data ℤ : Type 0 where
  pos negsuc : ℕ → ℤ

-- `a - b`.
unfoldable pub difference : ℕ → ℕ → ℤ
difference a b = if leb b a then pos (a - b) else negsuc (b - a - 1)

-- `-n`.
unfoldable pub opposite : ℕ → ℤ
opposite zero = pos 0
opposite (suc n) = negsuc n

unfoldable pub magnitude : ℤ → ℕ
magnitude (pos n) = n
magnitude (negsuc n) = suc n

unfoldable pub is_negative : ℤ → Bool
is_negative (pos n) = false
is_negative (negsuc n) = true

unfoldable pub negate : ℤ → ℤ
unfolding opposite
negate (pos n) = opposite n
negate (negsuc n) = pos (suc n)

infixl 65 ◌+ℤ◌ ◌-ℤ◌
unfoldable pub ◌+ℤ◌ : ℤ → ℤ → ℤ
unfolding difference
pos a +ℤ pos b = pos (a + b)
pos a +ℤ negsuc b = difference a (suc b)
negsuc a +ℤ pos b = difference b (suc a)
negsuc a +ℤ negsuc b = negsuc (suc (a + b))

unfoldable pub ◌-ℤ◌ : ℤ → ℤ → ℤ
unfolding ◌+ℤ◌ negate
a -ℤ b = a +ℤ negate b

infixl 70 ◌*ℤ◌
unfoldable pub ◌*ℤ◌ : ℤ → ℤ → ℤ
unfolding opposite
pos a *ℤ pos b = pos (a * b)
pos a *ℤ negsuc b = opposite (a * suc b)
negsuc a *ℤ pos b = opposite (suc a * b)
negsuc a *ℤ negsuc b = pos (suc a * suc b)

-- The remainder has the sign of the dividend.
unfoldable pub remainder : ℤ → ℕ → ℤ
unfolding opposite
remainder (pos a) b = pos (a % b)
remainder (negsuc a) b = opposite (suc a % b)

-- The bits of an integer in words of `w` values.
unfoldable pub residue : ℕ → ℤ → ℕ
residue w (pos n) = n % w
residue w (negsuc n) = w - 1 - n % w

-- Two's complement.
unfoldable pub signed : ℕ → ℕ → ℤ
signed half n = if ltb n half then pos n else negsuc (half + half - 1 - n)

abbrev pub word_64 : ℕ
word_64 = 2 ^ 64

abbrev pub half_64 : ℕ
half_64 = 2 ^ 63

abbrev pub word_128 : ℕ
word_128 = 2 ^ 128

abbrev pub half_128 : ℕ
half_128 = 2 ^ 127

-- `as u64`, `as i64`, and the result of an operation on `i128`.
unfoldable pub as_u64 : ℤ → ℕ
unfolding residue
as_u64 z = residue word_64 z

unfoldable pub as_i64 : ℤ → ℤ
unfolding residue signed
as_i64 z = signed half_64 (residue word_64 z)

unfoldable pub wrap_i128 : ℤ → ℤ
unfolding residue signed
wrap_i128 z = signed half_128 (residue word_128 z)

-- In range nothing is lost.
pub as_u64-pos : (n : ℕ) → n < word_64 → as_u64 (pos n) ≡ n
unfolding as_u64 residue
as_u64-pos n h = omega arith

pub wrap_i128-pos : (n : ℕ) → n < half_128 → wrap_i128 (pos n) ≡ pos n
unfolding wrap_i128 residue signed
wrap_i128-pos n h = ground arith

pub wrap_i128-negsuc : (n : ℕ) → n < half_128 → wrap_i128 (negsuc n) ≡ negsuc n
unfolding wrap_i128 residue signed
wrap_i128-negsuc n h = ground arith

pub as_i64-negsuc : (n : ℕ) → n < half_64 → as_i64 (negsuc n) ≡ negsuc n
unfolding as_i64 residue signed
as_i64-negsuc n h = ground arith
