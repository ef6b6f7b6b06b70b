-- ===== src/Dsl/Lists/Distinct/Keyed.antt =====
-- crates/rxgraph/src/dsl/ops/list.rs: scalar keys beside comparison.
use rxgraph.Prelude.{
  ◌≡◌, refl, sym, ap, ◌∙◌, Bool, true, false, ◌||◌, none, some, List, [], ◌∷◌, ◌++◌, Bool-cases,
  Option-cases, inl, inr, some-injective,
}
use mathlib.Core.List.{append-nil, append_assoc}
use rxgraph.Prelude.Keys.{string_key}
use rxgraph.Dsl.Float.{Float}
use rxgraph.Dsl.Integer.{pos}
use rxgraph.Dsl.Value.{Value, null, i64, u64, f64, list, struct, eq_value}
use rxgraph.Dsl.Lists.Distinct.{
  ScalarKey, number_key, eq_key, has_key, normal, number_bits, scalar_key, with_keys, any_equal,
  unique_slow_from, unique_slow, unique, unique_by_scalar_key,
}

module _ {F : Type 0} ⦃float : Float F⦄ where
  number_bits_lem :
      (x : F) (k : ScalarKey)
      → number_bits x ≡ some k
      → (float.is_nan x ≡ false) × (k ≡ number_key (float.to_bits (normal x)))
  unfolding number_bits
  number_bits_lem x k e = elim (Bool-cases (float.is_nan x)) [
    | inl nan ↦ absurd (cc (lost nan))
    | inr number ↦ (number, some-injective (sym e ∙ found number))
  ]
    where
      lost : float.is_nan x ≡ true → number_bits x ≡ none
      lost nan = rw (number_bits, nan) refl

      found : float.is_nan x ≡ false → number_bits x ≡ some (number_key (float.to_bits (normal x)))
      found number = rw (number_bits, number) refl

  eq_key-numbers :
      (x y : F) (k l : ScalarKey)
      → number_bits x ≡ some k
      → number_bits y ≡ some l
      → eq_key k l ≡ float.feq x y
  unfolding eq_key normal
  eq_key-numbers x y k l e f =
      let (number_x, kx) = number_bits_lem x k e in
      let (number_y, ly) = number_bits_lem y l f in
      rw (kx, ly) (float.to_bits-zero x y number_x number_y)

  pub eq_key-eq_value :
      (v w : Value F) (k l : ScalarKey)
      → scalar_key v ≡ some k
      → scalar_key w ≡ some l
      → eq_key k l ≡ eq_value v w
  unfolding scalar_key eq_value eq_key
  eq_key-eq_value (i64 a) (i64 b) k l e f = eq_key-numbers (float.of_int a) (float.of_int b) k l e f
  eq_key-eq_value (i64 a) (u64 b) k l e f =
      eq_key-numbers (float.of_int a) (float.of_int (pos b)) k l e f
  eq_key-eq_value (i64 a) (f64 b) k l e f = eq_key-numbers (float.of_int a) b k l e f
  eq_key-eq_value (u64 a) (i64 b) k l e f =
      eq_key-numbers (float.of_int (pos a)) (float.of_int b) k l e f
  eq_key-eq_value (u64 a) (u64 b) k l e f =
      eq_key-numbers (float.of_int (pos a)) (float.of_int (pos b)) k l e f
  eq_key-eq_value (u64 a) (f64 b) k l e f = eq_key-numbers (float.of_int (pos a)) b k l e f
  eq_key-eq_value (f64 a) (i64 b) k l e f = eq_key-numbers a (float.of_int b) k l e f
  eq_key-eq_value (f64 a) (u64 b) k l e f = eq_key-numbers a (float.of_int (pos b)) k l e f
  eq_key-eq_value (f64 a) (f64 b) k l e f = eq_key-numbers a b k l e f
  eq_key-eq_value v (list values) k l e f = absurd cc
  eq_key-eq_value v (struct entries) k l e f = absurd cc
  eq_key-eq_value (list values) w k l e f = absurd cc
  eq_key-eq_value (struct entries) w k l e f = absurd cc
  eq_key-eq_value v (i64 b) k l e f =
      rw (← some-injective e, (number_bits_lem (float.of_int b) l f).1) refl
  eq_key-eq_value v (u64 b) k l e f =
      rw (← some-injective e, (number_bits_lem (float.of_int (pos b)) l f).1) refl
  eq_key-eq_value v (f64 b) k l e f = rw (← some-injective e, (number_bits_lem b l f).1) refl
  eq_key-eq_value (i64 a) w k l e f =
      rw ((number_bits_lem (float.of_int a) k e).1, ← some-injective f) refl
  eq_key-eq_value (u64 a) w k l e f =
      rw ((number_bits_lem (float.of_int (pos a)) k e).1, ← some-injective f) refl
  eq_key-eq_value (f64 a) w k l e f = rw ((number_bits_lem a k e).1, ← some-injective f) refl
  eq_key-eq_value null null k l e f = rw (← some-injective e, ← some-injective f) refl
  eq_key-eq_value v w k l e f = rw (← some-injective e, ← some-injective f) refl

  -- The keys seen answer for the values taken.
  unfoldable pub Reflects : List ScalarKey → List (Value F) → Type 0
  Reflects seen out =
      (w : Value F) (l : ScalarKey) → scalar_key w ≡ some l → has_key seen l ≡ any_equal out w

  -- Every value stands with its key.
  abbrev pub AllKeyed : List (ScalarKey × Value F) → Type 0
  AllKeyed [] = Unit {0}
  AllKeyed ((key, v) ∷ keyed) = (scalar_key v ≡ some key) × AllKeyed keyed

  abbrev pub values_of : List (ScalarKey × Value F) → List (Value F)
  values_of [] = []
  values_of ((key, v) ∷ keyed) = v ∷ values_of keyed

  any_equal-append :
      (out : List (Value F)) (v w : Value F)
      → any_equal (out ++ v ∷ []) w ≡ (eq_value v w || any_equal out w)
  unfolding any_equal
  any_equal-append [] v w = refl
  any_equal-append (x ∷ out) v w =
      rw (any_equal-append out v w) (swap (eq_value x w) (eq_value v w))
    where
      swap : (a b : Bool) → (a || (b || any_equal out w)) ≡ (b || (a || any_equal out w))
      swap true true = refl
      swap true false = refl
      swap false true = refl
      swap false false = refl

  pub Reflects-cons :
      (seen : List ScalarKey) (out : List (Value F)) (key : ScalarKey) (v : Value F)
      → Reflects seen out
      → scalar_key v ≡ some key
      → Reflects (key ∷ seen) (out ++ v ∷ [])
  unfolding Reflects has_key
  Reflects-cons seen out key v r e w l f =
      rw (any_equal-append out v w, eq_key-eq_value v w key l e f, r w l f) refl

  pub unique_slow_from-keyed :
      (keyed : List (ScalarKey × Value F)) (seen : List ScalarKey) (out : List (Value F))
      → AllKeyed keyed
      → Reflects seen out
      → unique_slow_from out (values_of keyed) ≡ out ++ unique_by_scalar_key seen keyed
  unfolding unique_slow_from unique_by_scalar_key Reflects
  unique_slow_from-keyed [] seen out all r = sym (append-nil out)
  unique_slow_from-keyed ((key, v) ∷ keyed) seen out (e, all) r =
      elim (Bool-cases (has_key seen key)) [
        | inl taken ↦
            let same : any_equal out v ≡ true = sym (r v key e) ∙ taken in
            rw (unique_slow_from, unique_by_scalar_key, taken, same)
              (unique_slow_from-keyed keyed seen out all r)
        | inr fresh ↦
            let same : any_equal out v ≡ false = sym (r v key e) ∙ fresh in
            rw (unique_slow_from, unique_by_scalar_key, fresh, same)
              (unique_slow_from-keyed keyed (key ∷ seen) (out ++ v ∷ []) all
                  (Reflects-cons seen out key v r e)
                ∙ append_assoc out (v ∷ []) (unique_by_scalar_key (key ∷ seen) keyed))
      ]

  -- The values of a list that has all its keys.
  with_keys_lem :
      (values : List (Value F)) (keyed : List (ScalarKey × Value F))
      → with_keys values ≡ some keyed
      → AllKeyed keyed × (values_of keyed ≡ values)
  unfolding with_keys
  with_keys_lem [] keyed e = rw (← some-injective e) (tt, refl)
  with_keys_lem (v ∷ vs) keyed e = elim (Option-cases (scalar_key v)) [
    | inl absent ↦ absurd (cc (rw (with_keys, absent) at e))
    | inr present ↦
        let (key, found) = present in
        elim (Option-cases (with_keys vs)) [
          | inl absent ↦ absurd (cc (rw (with_keys, found, absent) at e))
          | inr rest ↦
              let (ks, same) = rest in
              let (all, values) = with_keys_lem vs ks same in
              let whole : ((key, v) ∷ ks) ≡ keyed =
                some-injective (rw (with_keys, found, same) at e) in
              rw (← whole) ((found, all), ap (λ ws. v ∷ ws) values)
        ]
  ]

  -- The distinct values found by keys are those found by comparing each value with those before it.
  pub unique-unique_slow : (values : List (Value F)) → unique values ≡ unique_slow values
  unfolding unique unique_slow Reflects has_key any_equal
  unique-unique_slow values = elim (Option-cases (with_keys values)) [
    | inl absent ↦ rw (unique, absent) refl
    | inr present ↦
        let (keyed, found) = present in
        let (all, same) = with_keys_lem values keyed found in
        rw (unique, found)
          (sym (unique_slow_from-keyed keyed [] [] all (λ w l f. refl))
            ∙ ap (unique_slow_from []) same)
  ]
