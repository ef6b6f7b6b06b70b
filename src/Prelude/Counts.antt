-- ===== src/Prelude/Counts.antt =====
-- How often a key stands in a list of keyed values, and how many keys are smaller.
use Prim.Native.Nat.{ℕ, suc, ◌+◌, ◌≤◌}
use mathlib.Core.Path.{◌≡◌, refl}
use mathlib.Core.List.{List, [], ◌∷◌}
use native.Mathlib.Omega.{arith}
use rxgraph.Prelude.Tests.{◌==◌, ltb, if◌then◌else◌}
use rxgraph.Prelude.Lists.{length}

module _ {ℓ} {A : Type ℓ} where
  -- The values under the key `k`, in order.
  abbrev pub values_of : ℕ → List (ℕ × A) → List A
  values_of k [] = []
  values_of k ((j, v) ∷ es) = if j == k then v ∷ values_of k es else values_of k es

  abbrev pub count : ℕ → List (ℕ × A) → ℕ
  count k es = length (values_of k es)

  abbrev pub count_below : ℕ → List (ℕ × A) → ℕ
  count_below k [] = 0
  count_below k ((j, v) ∷ es) = if ltb j k then suc (count_below k es) else count_below k es

  pub count_below-zero : (es : List (ℕ × A)) → count_below 0 es ≡ 0
  count_below-zero [] = refl
  count_below-zero ((j, v) ∷ es) = ground (arith, count_below-zero es)

  pub count_below-suc :
      (k : ℕ) (es : List (ℕ × A)) → count_below (suc k) es ≡ count_below k es + count k es
  count_below-suc k [] = refl
  count_below-suc k ((j, v) ∷ es) = ground (arith, count_below-suc k es)

  pub count_below-le : (k : ℕ) (es : List (ℕ × A)) → count_below k es ≤ length es
  count_below-le k [] = omega arith
  count_below-le k ((j, v) ∷ es) = ground (arith, count_below-le k es)

  pub count_below_mono : (k l : ℕ) (es : List (ℕ × A)) → k ≤ l → count_below k es ≤ count_below l es
  count_below_mono k l [] h = omega arith
  count_below_mono k l ((j, v) ∷ es) h = ground (arith, count_below_mono k l es)

  pub count-cons :
      (k j : ℕ) (v : A) (es : List (ℕ × A))
      → count k ((j, v) ∷ es) ≡ (if j == k then suc (count k es) else count k es)
  count-cons k j v es = ground arith
