-- ===== src/Dsl/Column/Agree.antt =====
-- crates/rxgraph/src/dsl/arrow_value.rs: a scalar compared with a literal, beside its value.
use Prim.Native.Nat.{Ordering}
use Prim.Native.String.{String}
use rxgraph.Prelude.{◌≡◌, refl, ◌∙◌, sym, Bool, true, false, not, Option, none, some, [], ◌∷◌}
use rxgraph.Prelude.Keys.{string_key}
use rxgraph.Result.{Result, ok, ◌>>=◌, or_err, incomparable}
use rxgraph.Dsl.Float.{Float, flip, flip_option}
use rxgraph.Dsl.Value.{Value, null, bool, i64, u64, f64, str, is_null, as_f64, eq_value, compare}
use rxgraph.Dsl.Scalar.{
  ScalarOp, equals, not_eq, lt, lt_eq, gt, gt_eq, is_lt, is_le, is_gt, is_ge, eval_scalar,
  compare_with,
}
use rxgraph.Dsl.Column.Order.{compare_str-flip, beq_sym}
use rxgraph.Dsl.Column.{
  is_comparison, ScalarValueRef, null_ref, bool_ref, number_ref, str_ref, eval_ref, apply_ordering,
  ordering_test, eval_numbers, eval_number_literal,
}

-- What holds of each of the six holds of a comparison.
by_comparison :
    (P : ScalarOp → Type 0)
    → P equals
    → P not_eq
    → P lt
    → P lt_eq
    → P gt
    → P gt_eq
    → (op : ScalarOp) → is_comparison op ≡ true
    → P op
unfolding is_comparison
by_comparison P a b c d e f equals h = a
by_comparison P a b c d e f not_eq h = b
by_comparison P a b c d e f lt h = c
by_comparison P a b c d e f lt_eq h = d
by_comparison P a b c d e f gt h = e
by_comparison P a b c d e f gt_eq h = f
by_comparison P a b c d e f _ h = absurd cc

module _ {F : Type 0} ⦃float : Float F⦄ where
  -- The fast path on `v`, read by reference, and a literal, on either side.
  abbrev pub Agrees : Value F → ScalarValueRef F → Value F → ScalarOp → Type 0
  Agrees v r literal op =
      (eval_ref r op literal false ≡ eval_scalar op (v ∷ literal ∷ []))
      × (eval_ref r op literal true ≡ eval_scalar op (literal ∷ v ∷ []))

  pub null-Agrees :
      (literal : Value F) (op : ScalarOp)
      → is_comparison op ≡ true
      → Agrees null null_ref literal op
  unfolding eval_ref eval_scalar is_comparison eq_value is_null
  null-Agrees null =
      by_comparison (Agrees null null_ref null) (refl, refl) (refl, refl) (refl, refl) (refl, refl)
        (refl, refl) (refl, refl)
  null-Agrees literal =
      by_comparison (Agrees null null_ref literal) (refl, refl) (refl, refl) (refl, refl)
        (refl, refl) (refl, refl) (refl, refl)

  pub bool-Agrees :
      (b : Bool) (literal : Value F) (op : ScalarOp)
      → is_comparison op ≡ true
      → Agrees (bool b) (bool_ref b) literal op
  unfolding eval_ref eval_scalar is_comparison eq_value is_null compare
  bool-Agrees true (bool true) =
      by_comparison (Agrees (bool true) (bool_ref true) (bool true)) (refl, refl) (refl, refl)
        (refl, refl) (refl, refl) (refl, refl) (refl, refl)
  bool-Agrees false (bool true) =
      by_comparison (Agrees (bool false) (bool_ref false) (bool true)) (refl, refl) (refl, refl)
        (refl, refl) (refl, refl) (refl, refl) (refl, refl)
  bool-Agrees true (bool false) =
      by_comparison (Agrees (bool true) (bool_ref true) (bool false)) (refl, refl) (refl, refl)
        (refl, refl) (refl, refl) (refl, refl) (refl, refl)
  bool-Agrees false (bool false) =
      by_comparison (Agrees (bool false) (bool_ref false) (bool false)) (refl, refl) (refl, refl)
        (refl, refl) (refl, refl) (refl, refl) (refl, refl)
  bool-Agrees b literal =
      by_comparison (Agrees (bool b) (bool_ref b) literal) (refl, refl) (refl, refl) (refl, refl)
        (refl, refl) (refl, refl) (refl, refl)

  pub str-Agrees :
      (s : String) (literal : Value F) (op : ScalarOp)
      → is_comparison op ≡ true
      → Agrees (str s) (str_ref s) literal op
  unfolding eval_ref eval_scalar is_comparison eq_value is_null compare
  str-Agrees s (str t) =
      by_comparison (Agrees (str s) (str_ref s) (str t)) (refl, rw (beq_sym s t) refl)
        (refl, rw (beq_sym s t) refl) (refl, rw (compare_str-flip s t) refl)
        (refl, rw (compare_str-flip s t) refl) (refl, rw (compare_str-flip s t) refl)
        (refl, rw (compare_str-flip s t) refl)
  str-Agrees s literal =
      by_comparison (Agrees (str s) (str_ref s) literal) (refl, refl) (refl, refl) (refl, refl)
        (refl, refl) (refl, refl) (refl, refl)

  flipped :
      (o : Option Ordering) (f : Ordering → Value F)
      → (do x ← or_err o incomparable; ok (f (flip x)))
        ≡ (do x ← or_err (flip_option o) incomparable; ok (f x))
  flipped none f = refl
  flipped (some x) f = refl

  -- The comparison of two numbers, as the operators make it.
  reference : F → F → ScalarOp → Result (Value F)
  reference x y equals = ok (bool (float.feq x y))
  reference x y not_eq = ok (bool (not (float.feq x y)))
  reference x y op = do
    ordering ← or_err (float.partial_cmp x y) incomparable
    b ← ordering_test op ordering
    ok (bool b)

  numbers_agree :
      (x y : F) (op : ScalarOp)
      → is_comparison op ≡ true
      → (eval_numbers x op y false ≡ reference x y op)
        × (eval_numbers x op y true ≡ reference y x op)
  unfolding eval_numbers reference apply_ordering ordering_test
  numbers_agree x y =
      by_comparison
        (λ op.
          (eval_numbers x op y false ≡ reference x y op)
          × (eval_numbers x op y true ≡ reference y x op))
        (refl, rw (float.feq_sym x y) refl) (refl, rw (float.feq_sym x y) refl)
        (
          refl,
          rw (float.partial_cmp-flip x y) (flipped (float.partial_cmp x y) (λ o. bool (is_lt o))),
        )
        (
          refl,
          rw (float.partial_cmp-flip x y) (flipped (float.partial_cmp x y) (λ o. bool (is_le o))),
        )
        (
          refl,
          rw (float.partial_cmp-flip x y) (flipped (float.partial_cmp x y) (λ o. bool (is_gt o))),
        )
        (
          refl,
          rw (float.partial_cmp-flip x y) (flipped (float.partial_cmp x y) (λ o. bool (is_ge o))),
        )

  is_null-numeric : (v : Value F) {x : F} → as_f64 v ≡ some x → is_null v ≡ false
  unfolding as_f64 is_null
  is_null-numeric null e = cc
  is_null-numeric v e = refl

  eq_value-numeric :
      (v w : Value F) {x y : F}
      → as_f64 v ≡ some x
      → as_f64 w ≡ some y
      → eq_value v w ≡ float.feq x y
  unfolding as_f64 eq_value
  eq_value-numeric (i64 a) (i64 b) e f = cc
  eq_value-numeric v w e f = cc

  compare-numeric :
      (v w : Value F) {x y : F}
      → as_f64 v ≡ some x
      → as_f64 w ≡ some y
      → compare v w ≡ or_err (float.partial_cmp x y) incomparable
  unfolding as_f64 compare
  compare-numeric (i64 a) (i64 b) e f = cc
  compare-numeric v w e f = cc

  compare_with-numeric :
      (v w : Value F) {x y : F} (test : Ordering → Bool)
      → as_f64 v ≡ some x
      → as_f64 w ≡ some y
      → compare_with v w test
        ≡ (do o ← or_err (float.partial_cmp x y) incomparable; ok (bool (test o)))
  unfolding compare_with is_null
  compare_with-numeric v w test e f =
      rw (compare_with, is_null-numeric v e, is_null-numeric w f, compare-numeric v w e f) refl

  eval_scalar-numeric :
      (v w : Value F) {x y : F}
      → as_f64 v ≡ some x
      → as_f64 w ≡ some y
      → (op : ScalarOp) → is_comparison op ≡ true
      → eval_scalar op (v ∷ w ∷ []) ≡ reference x y op
  unfolding eval_scalar reference ordering_test
  eval_scalar-numeric v w {x} {y} e f =
      by_comparison (λ op. eval_scalar op (v ∷ w ∷ []) ≡ reference x y op)
        (rw (eq_value-numeric v w e f) refl) (rw (eq_value-numeric v w e f) refl)
        (compare_with-numeric v w is_lt e f) (compare_with-numeric v w is_le e f)
        (compare_with-numeric v w is_gt e f) (compare_with-numeric v w is_ge e f)

  numeric-Agrees :
      (v w : Value F) {x y : F}
      → as_f64 v ≡ some x
      → as_f64 w ≡ some y
      → (op : ScalarOp) → is_comparison op ≡ true
      → Agrees v (number_ref x) w op
  unfolding eval_ref
  numeric-Agrees v w {x} {y} e f op h =
      let (forward, backward) = numbers_agree x y op h in
      (
        rw (eval_number_literal, is_null-numeric w f, f)
            (forward ∙ sym (eval_scalar-numeric v w e f op h)),
        rw (eval_number_literal, is_null-numeric w f, f)
            (backward ∙ sym (eval_scalar-numeric w v f e op h)),
      )

  pub number-Agrees :
      (v literal : Value F) {x : F}
      → as_f64 v ≡ some x
      → (op : ScalarOp) → is_comparison op ≡ true
      → Agrees v (number_ref x) literal op
  unfolding as_f64 eval_ref eval_scalar eq_value is_null compare
  number-Agrees v (i64 y) e = numeric-Agrees v (i64 y) e refl
  number-Agrees v (u64 y) e = numeric-Agrees v (u64 y) e refl
  number-Agrees v (f64 y) e = numeric-Agrees v (f64 y) e refl
  number-Agrees (i64 z) literal {x} e =
      by_comparison (Agrees (i64 z) (number_ref x) literal) (refl, refl) (refl, refl) (refl, refl)
        (refl, refl) (refl, refl) (refl, refl)
  number-Agrees (u64 n) literal {x} e =
      by_comparison (Agrees (u64 n) (number_ref x) literal) (refl, refl) (refl, refl) (refl, refl)
        (refl, refl) (refl, refl) (refl, refl)
  number-Agrees (f64 r) literal {x} e =
      by_comparison (Agrees (f64 r) (number_ref x) literal) (refl, refl) (refl, refl) (refl, refl)
        (refl, refl) (refl, refl) (refl, refl)
  number-Agrees v literal e = absurd cc
