-- ===== src/Dsl/Lists/Access/Steps.antt =====
-- crates/rxgraph/src/dsl/ops/list.rs: the loop of `gather_every`.
use rxgraph.Prelude.{
  ℕ, zero, suc, ◌+◌, ◌-◌, ◌*◌, ◌%◌, ◌≤◌, ◌<◌, ◌≡◌, refl, sym, ap, ◌∙◌, true, false, List, [], ◌∷◌,
  length, get_elem?, get_elem?-ge, none, some, Option-cases, get_elem?-lt, arith, ltb, inl, inr,
}
use rxgraph.Result.{ok, index-get_elem?, Returns}
use rxgraph.Dsl.Integer.{word_64, half_64}
use rxgraph.Dsl.Value.{Value}
use rxgraph.Dsl.Lists.Access.{gather_from}

get_elem?-past : {A : Type 0} (xs : List A) (j : ℕ) → length xs ≤ j → get_elem? xs j ≡ none
get_elem?-past [] j h = refl
get_elem?-past (x ∷ xs) zero h = absurd (omega arith)
get_elem?-past (x ∷ xs) (suc j) h = get_elem?-past xs j (omega arith)

module _ {F : Type 0} (values : List (Value F)) (small : length values ≤ half_64) (step : ℕ)
    (positive : 0 < step) where
  -- Past the end nothing is gathered; before it the value, and then what the next index gives.
  gather_from-past : (fuel i : ℕ) → length values ≤ i → gather_from (suc fuel) values step i ≡ ok []
  unfolding gather_from
  gather_from-past fuel i h = rw (gather_from, not_below) refl
    where
      not_below : ltb i (length values) ≡ false
      not_below = ground arith

  gather_from-next :
      (fuel i j : ℕ) (v : Value F) (rest : List (Value F))
      → get_elem? values i ≡ some v
      → (i + step) % word_64 ≡ j
      → gather_from fuel values step j ≡ ok rest
      → gather_from (suc fuel) values step i ≡ ok (v ∷ rest)
  unfolding gather_from
  gather_from-next fuel i j v rest e to h =
      rw (gather_from, below, index-get_elem? values i v e, to, h) refl
    where
      inside : i < length values
      inside = get_elem?-lt values i v e

      below : ltb i (length values) ≡ true
      below = ground (arith, inside)

  at_steps :
      (i : ℕ) (v : Value F) (rest : List (Value F))
      → get_elem? values i ≡ some v
      → ((k : ℕ) → get_elem? rest k ≡ get_elem? values (i + step + k * step))
      → (k : ℕ) → get_elem? (v ∷ rest) k ≡ get_elem? values (i + k * step)
  at_steps i v rest e each zero = sym (ap (get_elem? values) (omega arith) ∙ e)
  at_steps i v rest e each (suc k) = each k ∙ ap (get_elem? values) (grind arith)

  -- With enough rounds and a step below 2^63, the loop ends and gathers exactly the values at `i`,
  -- `i + step`, `i + 2 * step`, and so on.
  pub gather_from_lem :
      (fuel i : ℕ)
      → length values - i < fuel
      → i < word_64
      → step < half_64
      → Returns
          (gather_from fuel values step i)
          (λ out. (k : ℕ) → get_elem? out k ≡ get_elem? values (i + k * step))
  gather_from_lem zero i f h s = absurd (omega arith)
  gather_from_lem (suc fuel) i f h s = elim (Option-cases (get_elem? values i)) [
    | inl past ↦
        let over = get_elem?-ge values i past in
        (
          [],
          gather_from-past fuel i over,
          λ k. sym (get_elem?-past values (i + k * step) (omega (arith))),
        )
    | inr here ↦
        let (v, e) = here in
        let inside = get_elem?-lt values i v e in
        let next : (i + step) % word_64 ≡ i + step = omega arith in
        let (rest, ends, each) = gather_from_lem fuel (i + step) (omega arith) (omega arith) s in
        (v ∷ rest, gather_from-next fuel i (i + step) v rest e next ends, at_steps i v rest e each)
  ]

-- A step of 2^64 - 1 from index 1 wraps around: the value at 1 is followed by the one before it.
pub gather_from_wraps :
    {F : Type 0} (first second : Value F) (values : List (Value F))
    → length (first ∷ second ∷ values) ≤ half_64
    → gather_from (suc (length (first ∷ second ∷ values))) (first ∷ second ∷ values) (word_64 - 1) 1
      ≡ ok (second ∷ first ∷ [])
gather_from_wraps first second values small =
    gather_from-next (first ∷ second ∷ values) small (word_64 - 1) (omega arith)
      (suc (suc (length values))) 1 0 second (first ∷ []) refl refl
      (gather_from-next (first ∷ second ∷ values) small (word_64 - 1) (omega arith)
        (suc (length values)) 0 (word_64 - 1) first [] refl refl
        (gather_from-past (first ∷ second ∷ values) small (word_64 - 1) (omega arith)
          (length values) (word_64 - 1) (omega arith)))
