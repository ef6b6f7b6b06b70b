-- ===== src/Dsl/Lists/Distinct/Sets.antt =====
-- crates/rxgraph/src/dsl/ops/list.rs: the set operators by keys and by comparison.
use rxgraph.Prelude.{
  ◌≡◌, refl, sym, ap, ◌∙◌, Bool, true, false, not, some, List, [], ◌∷◌, ◌++◌, Bool-cases,
  Option-cases, inl, inr, some-injective,
}
use mathlib.Core.List.{append-nil, append_assoc}
use rxgraph.Dsl.Float.{Float}
use rxgraph.Dsl.Value.{Value}
use rxgraph.Dsl.Lists.Distinct.{
  SetOp, union, intersection, difference, symmetric_difference, ScalarKey, has_key, scalar_key,
  any_equal, unique_slow_from, unique_slow, keyed_unique_from, keyed_set, keyed_filter,
  filter_values, keys_of, slow_set, set_values, set_operation_scalar,
}
use rxgraph.Dsl.Lists.Distinct.Keyed.{
  Reflects, AllKeyed, values_of, eq_key-eq_value, Reflects-cons, unique_slow_from-keyed,
}

module _ {F : Type 0} ⦃float : Float F⦄ where
  keyed_unique_from_lem :
      (vs : List (Value F)) (seen : List ScalarKey) (out : List (Value F))
      {keyed : List (ScalarKey × Value F)}
      → keyed_unique_from seen vs ≡ some keyed
      → Reflects seen out
      → AllKeyed keyed × (unique_slow_from out vs ≡ out ++ values_of keyed)
  unfolding keyed_unique_from unique_slow_from Reflects
  keyed_unique_from_lem [] seen out e r = rw (← some-injective e) (tt, sym (append-nil out))
  keyed_unique_from_lem (v ∷ vs) seen out {keyed} e r = elim (Option-cases (scalar_key v)) [
    | inl absent ↦ absurd (cc (rw (keyed_unique_from, absent) at e))
    | inr present ↦
        let (key, found) = present in
        elim (Bool-cases (has_key seen key)) [
          | inl taken ↦
              let same : any_equal out v ≡ true = sym (r v key found) ∙ taken in
              let (all, slow) =
                keyed_unique_from_lem vs seen out (rw (keyed_unique_from, found, taken) at e) r in
              (all, rw (unique_slow_from, same) slow)
          | inr fresh ↦
              let same : any_equal out v ≡ false = sym (r v key found) ∙ fresh in
              elim (Option-cases (keyed_unique_from (key ∷ seen) vs)) [
                | inl lost ↦ absurd (cc (rw (keyed_unique_from, found, fresh, lost) at e))
                | inr rest ↦
                    let (ks, more) = rest in
                    let (all, slow) =
                      keyed_unique_from_lem vs (key ∷ seen) (out ++ v ∷ []) more
                        (Reflects-cons seen out key v r found) in
                    let whole : ((key, v) ∷ ks) ≡ keyed =
                      some-injective (rw (keyed_unique_from, found, fresh, more) at e) in
                    rw (← whole) (
                      (found, all),
                      rw (unique_slow_from, same) (slow ∙ append_assoc out (v ∷ []) (values_of ks)),
                    )
              ]
        ]
  ]

  keys_of-Reflects :
      (keyed : List (ScalarKey × Value F))
      → AllKeyed keyed
      → Reflects (keys_of keyed) (values_of keyed)
  unfolding Reflects keys_of has_key any_equal
  keys_of-Reflects [] all w l f = refl
  keys_of-Reflects ((key, v) ∷ keyed) (e, all) w l f =
      rw (eq_key-eq_value v w key l e f, keys_of-Reflects keyed all w l f) refl

  keyed_filter-filter_values :
      (test : ScalarKey → Bool) (test' : Value F → Bool) (keyed : List (ScalarKey × Value F))
      → ((w : Value F) (l : ScalarKey) → scalar_key w ≡ some l → test l ≡ test' w)
      → AllKeyed keyed
      → keyed_filter test keyed ≡ filter_values test' (values_of keyed)
  unfolding keyed_filter filter_values
  keyed_filter-filter_values test test' [] agree all = refl
  keyed_filter-filter_values test test' ((key, v) ∷ keyed) agree (e, all) =
      let ih = keyed_filter-filter_values test test' keyed agree all in
      elim (Bool-cases (test' v)) [
        | inl kept ↦ rw (keyed_filter, filter_values, agree v key e, kept) (ap (λ ws. v ∷ ws) ih)
        | inr left_out ↦ rw (keyed_filter, filter_values, agree v key e, left_out) ih
      ]

  AllKeyed-append :
      (l r : List (ScalarKey × Value F))
      → AllKeyed l
      → AllKeyed r
      → AllKeyed (l ++ r) × (values_of (l ++ r) ≡ values_of l ++ values_of r)
  AllKeyed-append [] r p q = (q, refl)
  AllKeyed-append ((key, v) ∷ l) r (e, p) q =
      let (all, same) = AllKeyed-append l r p q in ((e, all), ap (λ ws. v ∷ ws) same)

  keyed_difference :
      (l r : List (ScalarKey × Value F))
      → AllKeyed l
      → AllKeyed r
      → keyed_filter (λ k. not (has_key (keys_of r) k)) l
        ≡ filter_values (λ w. not (any_equal (values_of r) w)) (values_of l)
  unfolding Reflects
  keyed_difference l r p q =
      keyed_filter-filter_values (λ k. not (has_key (keys_of r) k))
        (λ w. not (any_equal (values_of r) w)) l (λ w k f. ap not (keys_of-Reflects r q w k f)) p

  keyed_set-slow_set :
      (op : SetOp) (l r : List (ScalarKey × Value F))
      → AllKeyed l
      → AllKeyed r
      → keyed_set op l r ≡ slow_set op (values_of l) (values_of r)
  unfolding keyed_set slow_set unique_slow Reflects has_key any_equal
  keyed_set-slow_set union l r p q =
      let (all, same) = AllKeyed-append l r p q in
      sym (unique_slow_from-keyed (l ++ r) [] [] all (λ w k f. refl))
      ∙ ap (unique_slow_from []) same
  keyed_set-slow_set intersection l r p q =
      keyed_filter-filter_values (has_key (keys_of r)) (any_equal (values_of r)) l
        (keys_of-Reflects r q) p
  keyed_set-slow_set difference l r p q = keyed_difference l r p q
  keyed_set-slow_set symmetric_difference l r p q =
      rw (keyed_difference l r p q, keyed_difference r l q p) refl

  -- Each set operator gives, by hashed keys where all values have one, what it gives by comparing the
  -- distinct values of both sides.
  pub set_values-slow_set :
      (left right : List (Value F)) (op : SetOp)
      → set_values left right op ≡ slow_set op (unique_slow left) (unique_slow right)
  unfolding set_values set_operation_scalar unique_slow Reflects has_key any_equal
  set_values-slow_set left right op = elim (Option-cases (keyed_unique_from [] left)) [
    | inl none_left ↦ rw (set_values, set_operation_scalar, none_left) refl
    | inr some_left ↦
        let (l, found) = some_left in
        elim (Option-cases (keyed_unique_from [] right)) [
          | inl none_right ↦ rw (set_values, set_operation_scalar, found, none_right) refl
          | inr some_right ↦
              let (r, found') = some_right in
              let (p, slow) = keyed_unique_from_lem left [] [] found (λ w k f. refl) in
              let (q, slow') = keyed_unique_from_lem right [] [] found' (λ w k f. refl) in
              rw (set_values, set_operation_scalar, found, found', slow, slow')
                (keyed_set-slow_set op l r p q)
        ]
  ]
