-- ===== src/Prelude/Words.antt =====
-- `u32` arithmetic of a release build: addition wraps.
use Prim.Native.Nat.{ℕ, ◌+◌, ◌%◌, ◌^◌, ◌≤◌, ◌<◌, ◌-◌}
use mathlib.Core.Path.{◌≡◌}
use native.Mathlib.Omega.{arith}

abbrev pub u32_mod : ℕ
u32_mod = 2 ^ 32

abbrev pub u32_max : ℕ
u32_max = u32_mod - 1

unfoldable pub add_u32 : ℕ → ℕ → ℕ
add_u32 a b = (a + b) % u32_mod

unfoldable pub to_u32 : ℕ → ℕ
to_u32 a = a % u32_mod

pub add_u32-lt : (a b : ℕ) → a + b < u32_mod → add_u32 a b ≡ a + b
unfolding add_u32
add_u32-lt a b h = omega arith

pub to_u32-lt : (a : ℕ) → a < u32_mod → to_u32 a ≡ a
unfolding to_u32
to_u32-lt a h = omega arith

-- The difference of `u32`s, which wraps below 0.
unfoldable pub sub_u32 : ℕ → ℕ → ℕ
sub_u32 a b = (a + u32_mod - b) % u32_mod

pub sub_u32-le : (a b : ℕ) → b ≤ a → a < u32_mod → sub_u32 a b ≡ a - b
unfolding sub_u32
sub_u32-le a b h lt = omega arith
