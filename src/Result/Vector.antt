-- ===== src/Result/Vector.antt =====
-- `xs[i]`, `xs[i] = v` and `&xs[start..end]`, which panic out of bounds.
use rxgraph.Prelude.{
  ℕ, zero, suc, ◌-◌, ◌≤◌, ◌<◌, ◌≡◌, refl, List, [], ◌∷◌, ◌&&◌, leb, le→leb, if◌then◌else◌, arith,
  length, get_elem?, get_or, set, take, drop, some,
}
use rxgraph.Result.Defs.{Result, ok, panic, ◌>>=◌}

module _ {ℓ} {A : Type ℓ} where
  unfoldable pub index : List A → ℕ → Result A
  index [] i = panic
  index (x ∷ xs) zero = ok x
  index (x ∷ xs) (suc i) = index xs i

  unfoldable pub store : List A → ℕ → A → Result (List A)
  store [] i v = panic
  store (x ∷ xs) zero v = ok (v ∷ xs)
  store (x ∷ xs) (suc i) v = store xs i v >>= λ ys. ok (x ∷ ys)

  unfoldable pub slice : List A → ℕ → ℕ → Result (List A)
  slice xs start end =
      if leb start end && leb end (length xs)
      then ok (take (end - start) (drop start xs))
      else panic

  pub index-get_or : (xs : List A) (i : ℕ) (d : A) → i < length xs → index xs i ≡ ok (get_or xs i d)
  unfolding index
  index-get_or [] i d h = absurd (omega arith)
  index-get_or (x ∷ xs) zero d h = refl
  index-get_or (x ∷ xs) (suc i) d h = index-get_or xs i d (omega arith)

  pub store-set : (xs : List A) (i : ℕ) (v : A) → i < length xs → store xs i v ≡ ok (set xs i v)
  unfolding store
  store-set [] i v h = absurd (omega arith)
  store-set (x ∷ xs) zero v h = refl
  store-set (x ∷ xs) (suc i) v h = rw (store-set xs i v (omega arith))

  pub slice-take :
      (xs : List A) (start end : ℕ)
      → start ≤ end
      → end ≤ length xs
      → slice xs start end ≡ ok (take (end - start) (drop start xs))
  unfolding slice
  slice-take xs start end p q = rw (le→leb start end p, le→leb end (length xs) q)

  pub index-get_elem? : (xs : List A) (i : ℕ) (x : A) → get_elem? xs i ≡ some x → index xs i ≡ ok x
  unfolding index
  index-get_elem? [] i x h = cc
  index-get_elem? (y ∷ xs) zero x h = cc
  index-get_elem? (y ∷ xs) (suc i) x h = index-get_elem? xs i x h
