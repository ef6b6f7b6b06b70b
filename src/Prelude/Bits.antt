-- ===== src/Prelude/Bits.antt =====
-- Single bits of a word: reading bit `j` by a mask, setting it by `|`.
use Prim.Native.Nat.{
  ℕ, zero, suc, ◌+◌, ◌*◌, ◌/◌, ◌%◌, ◌^◌, ◌≤◌, ◌<◌, min, max, bit_and, bit_or, digits,
  bit_and-bitwise, bit_or-bitwise,
}
use mathlib.Core.Path.{◌≡◌, refl, ◌∙◌}
use mathlib.Core.Bool.{Bool, false, not, ◌||◌}
use native.Mathlib.Omega.{arith}
use native.Mathlib.Nat.{pow-suc}
use rxgraph.Prelude.Tests.{◌==◌, if◌then◌else◌}

module _ (rest : ℕ → ℕ) (join : ℕ → ℕ → ℕ) where
  -- Two counts that cover the number give the same digits.
  enough : (a k l b : ℕ) → a ≤ k → a ≤ l → digits rest join k a b ≡ digits rest join l a b
  enough zero zero zero b p q = refl
  enough zero zero (suc l) b p q = refl
  enough zero (suc k) zero b p q = refl
  enough zero (suc k) (suc l) b p q = refl
  enough (suc a) zero l b p q = absurd (omega arith)
  enough (suc a) (suc k) zero b p q = absurd (omega arith)
  enough (suc a) (suc k) (suc l) b p q =
      omega (arith, enough (suc a / 2) k l (b / 2) (omega arith) (omega arith))

pub and_step : (w v : ℕ) → bit_and w v ≡ bit_and (w / 2) (v / 2) * 2 + min (w % 2) (v % 2)
and_step zero v = omega (arith, bit_and-bitwise 0 v, bit_and-bitwise 0 (v / 2))
and_step (suc w) v = omega (
  arith,
  bit_and-bitwise (suc w) v,
  bit_and-bitwise (suc w / 2) (v / 2),
  enough (λ b. 0) min (suc w / 2) w (suc w / 2) (v / 2) (omega arith) (omega arith),
)

pub or_step : (w v : ℕ) → bit_or w v ≡ bit_or (w / 2) (v / 2) * 2 + max (w % 2) (v % 2)
or_step zero v = omega (arith, bit_or-bitwise 0 v, bit_or-bitwise 0 (v / 2))
or_step (suc w) v = omega (
  arith,
  bit_or-bitwise (suc w) v,
  bit_or-bitwise (suc w / 2) (v / 2),
  enough (λ b. b) max (suc w / 2) w (suc w / 2) (v / 2) (omega arith) (omega arith),
)

-- `w & (1 << k) != 0`.
unfoldable pub has_bit : ℕ → ℕ → Bool
has_bit w k = not (bit_and w (2 ^ k) == 0)

-- The same by recursion on the digits.
abbrev pub digit : ℕ → ℕ → Bool
digit w zero = w % 2 == 1
digit w (suc k) = digit (w / 2) k

and-zero : (n w : ℕ) → w ≤ n → bit_and w 0 ≡ 0
and-zero n zero h = bit_and-bitwise 0 0
and-zero zero (suc w) h = absurd (omega arith)
and-zero (suc n) (suc w) h = omega (arith, and_step (suc w) 0, and-zero n (suc w / 2) (omega arith))

half-pow : (k : ℕ) → (2 ^ suc k / 2 ≡ 2 ^ k) × (2 ^ suc k % 2 ≡ 0)
half-pow k = (omega (arith, pow-suc 2 k), omega (arith, pow-suc 2 k))

and-pow : (w k : ℕ) → bit_and w (2 ^ k) ≡ (if digit w k then 2 ^ k else 0)
and-pow w zero = ground (arith, and_step w 1, and-zero (w / 2) (w / 2) (omega arith))
and-pow w (suc k) =
    let (half, even) = half-pow k in
    let step = and_step w (2 ^ suc k) in
    let ih = and-pow (w / 2) k in
    let step' : bit_and w (2 ^ suc k) ≡ bit_and (w / 2) (2 ^ k) * 2 = rw (← half) (omega arith) in
    ground (arith, step', ih, pow-suc 2 k)

pow-pos : (k : ℕ) → 0 < 2 ^ k
pow-pos zero = omega arith
pow-pos (suc k) = omega (arith, pow-pos k, pow-suc 2 k)

-- The masked test reads the digit.
pub has_bit-digit : (w k : ℕ) → has_bit w k ≡ digit w k
unfolding has_bit
has_bit-digit w k = ground (arith, and-pow w k, pow-pos k)

digit-or : (w v j : ℕ) → digit (bit_or w v) j ≡ (digit w j || digit v j)
digit-or w v zero = ground (arith, or_step w v)
digit-or w v (suc j) =
    let half : bit_or w v / 2 ≡ bit_or (w / 2) (v / 2) = omega (arith, or_step w v) in
    rw half (digit-or (w / 2) (v / 2) j)

digit-zero : (j : ℕ) → digit 0 j ≡ false
digit-zero zero = refl
digit-zero (suc j) = digit-zero j

digit-pow : (k j : ℕ) → digit (2 ^ k) j ≡ (k == j)
digit-pow zero zero = refl
digit-pow zero (suc j) = digit-zero j ∙ ground arith
digit-pow (suc k) zero = ground (arith, (half-pow k).1)
digit-pow (suc k) (suc j) = rw (half-pow k).0 (digit-pow k j ∙ ground arith)

-- Setting bit `k` sets that bit, and keeps the others.
pub has_bit-or : (w k j : ℕ) → has_bit (bit_or w (2 ^ k)) j ≡ (k == j || has_bit w j)
has_bit-or w k j = ground (
  arith,
  has_bit-digit (bit_or w (2 ^ k)) j,
  has_bit-digit w j,
  digit-or w (2 ^ k) j,
  digit-pow k j,
)

and-le_fuel : (n w v : ℕ) → w ≤ n → bit_and w v ≤ v
and-le_fuel n zero v h = omega (arith, bit_and-bitwise 0 v)
and-le_fuel zero (suc w) v h = absurd (omega arith)
and-le_fuel (suc n) (suc w) v h =
    omega (arith, and_step (suc w) v, and-le_fuel n (suc w / 2) (v / 2) (omega arith))

pub and-le : (w v : ℕ) → bit_and w v ≤ v
and-le w v = and-le_fuel w w v (omega arith)
