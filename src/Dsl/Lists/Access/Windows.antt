-- ===== src/Dsl/Lists/Access/Windows.antt =====
-- crates/rxgraph/src/dsl/ops/list.rs: the window of `slice`.
use rxgraph.Prelude.{
  ℕ, zero, suc, ◌+◌, ◌-◌, ◌≤◌, ◌<◌, ◌≡◌, refl, ap, ◌∙◌, min, List, [], ◌∷◌, length, take, drop,
  arith, length-drop,
}
use rxgraph.Result.{ok, slice as subslice, slice-take}
use rxgraph.Dsl.Integer.{ℤ, pos, negsuc, negate, is_negative, as_u64-pos, word_64, half_64}
use rxgraph.Dsl.Value.{Value}
use rxgraph.Dsl.Lists.Access.{slice_values, slice_start, at_least_zero, saturation}

min-zero : (k : ℕ) → min 0 k ≡ 0
min-zero k = omega arith

min-suc : (m k : ℕ) → min (suc m) (suc k) ≡ suc (min m k)
min-suc m k = omega arith

take-nil : {A : Type 0} (n : ℕ) → take {A = A} n [] ≡ []
take-nil zero = refl
take-nil (suc n) = refl

drop-nil : {A : Type 0} (n : ℕ) → drop {A = A} n [] ≡ []
drop-nil zero = refl
drop-nil (suc n) = refl

take-min : {A : Type 0} (n : ℕ) (xs : List A) → take (min n (length xs)) xs ≡ take n xs
take-min zero xs = rw (min-zero (length xs)) refl
take-min (suc n) [] = take-nil (min (suc n) 0)
take-min (suc n) (x ∷ xs) = rw (min-suc n (length xs)) (ap (λ ys. x ∷ ys) (take-min n xs))

drop-min : {A : Type 0} (n : ℕ) (xs : List A) → drop (min n (length xs)) xs ≡ drop n xs
drop-min zero xs = rw (min-zero (length xs)) refl
drop-min (suc n) [] = drop-nil (min (suc n) 0)
drop-min (suc n) (x ∷ xs) = rw (min-suc n (length xs)) (drop-min n xs)

-- The window that the code cuts out is `n` values from `start` on, or what there is of them.
window :
    {A : Type 0} (xs : List A) (start n : ℕ)
    → start ≤ length xs
    → length xs ≤ saturation
    → subslice xs start (min (min (start + n) saturation) (length xs)) ≡ ok (take n (drop start xs))
window xs start n p q =
    slice-take xs start (min (min (start + n) saturation) (length xs)) (omega arith) (omega arith)
    ∙ ap ok (ap (λ k. take k (drop start xs)) size ∙ take-min n (drop start xs))
  where
    size : min (min (start + n) saturation) (length xs) - start ≡ min n (length (drop start xs))
    size = omega (arith, length-drop start xs)

-- The integers that an argument, an `i64` or a `u64`, can hold.
abbrev pub IsArgument : ℤ → Type 0
IsArgument (pos n) = n < word_64
IsArgument (negsuc n) = n < half_64

-- How many values a slice passes over, and how many it takes.
abbrev pub passed : ℕ → ℤ → ℕ
passed size (pos n) = n
passed size (negsuc n) = size - suc n

abbrev pub taken : ℤ → ℕ
taken (pos n) = n
taken (negsuc n) = 0

at_least_zero-taken : (len : ℤ) → IsArgument len → at_least_zero len ≡ taken len
unfolding at_least_zero is_negative
at_least_zero-taken (pos n) p = as_u64-pos n p
at_least_zero-taken (negsuc n) p = refl

module _ {F : Type 0} where
  -- A slice of a list of machine size never panics, for every offset and length that an argument can
  -- hold. From an offset that is not negative it has the values from there on, from a negative one
  -- those from that far before the end, at most as many as its length, and none if that is negative.
  pub slice_values_lem :
      (values : List (Value F)) (offset len : ℤ)
      → IsArgument offset
      → IsArgument len
      → length values ≤ saturation
      → slice_values values offset len
        ≡ ok (take (taken len) (drop (passed (length values) offset) values))
  unfolding slice_values slice_start is_negative negate
  slice_values_lem values (pos offset) len p q r =
      rw (as_u64-pos offset p, at_least_zero-taken len q)
        (window values (min offset (length values)) (taken len) (omega arith) r
          ∙ ap (λ ys. ok (take (taken len) ys)) (drop-min offset values))
  slice_values_lem values (negsuc offset) len p q r =
      rw (as_u64-pos (suc offset) (omega (arith, p)), at_least_zero-taken len q)
        (window values (length values - suc offset) (taken len) (omega arith) r)
