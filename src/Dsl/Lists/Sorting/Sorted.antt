-- ===== src/Dsl/Lists/Sorting/Sorted.antt =====
-- crates/rxgraph/src/dsl/ops/list.rs: the result of `sort_values`.
use Prim.Native.Nat.{Ordering}
use mathlib.Core.List.{Perm}
use mathlib.Core.List.Perm
use rxgraph.Prelude.{
  ◌≡◌, ◌≢◌, ◌⊎◌, refl, ap, Bool, true, false, Option, none, some, List, [], ◌∷◌, inl, inr,
}
use rxgraph.Result.{ok, or_err, incomparable, >>=-elim, ok-injective}
use rxgraph.Dsl.Float.{Float, flip, flip_option}
use rxgraph.Dsl.Value.{
  Value, null, bool, str, is_null, as_f64, compare_bool, compare_numbers, compare,
}
use rxgraph.Dsl.Column.Order.{compare_str-flip}
use rxgraph.Dsl.Lists.Sorting.{
  insert_by, sort_by, or_equal, compare_values, sort_order, sort_values, validate_sortable,
}

-- No value stands directly before one that the comparison puts strictly before it.
abbrev pub Ascending : {A : Type 0} → (A → A → Ordering) → List A → Type 0
Ascending cmp [] = Unit {0}
Ascending cmp (x ∷ []) = Unit {0}
Ascending cmp (x ∷ y ∷ ys) = (cmp x y ≢ Ordering.gt) × Ascending cmp (y ∷ ys)

gt-cases : (o : Ordering) → (o ≡ Ordering.gt) ⊎ (o ≢ Ordering.gt)
gt-cases Ordering.lt = inr (λ h. cc)
gt-cases Ordering.eq = inr (λ h. cc)
gt-cases Ordering.gt = inl refl

module _ {A : Type 0} (cmp : A → A → Ordering) where
  insert_by-gt :
      (x y : A) (ys : List A)
      → cmp x y ≡ Ordering.gt
      → insert_by cmp x (y ∷ ys) ≡ y ∷ insert_by cmp x ys
  unfolding insert_by
  insert_by-gt x y ys e = rw (insert_by, e) refl

  insert_by-ne_gt :
      (x y : A) (ys : List A) (o : Ordering)
      → cmp x y ≡ o
      → o ≢ Ordering.gt
      → insert_by cmp x (y ∷ ys) ≡ x ∷ y ∷ ys
  unfolding insert_by
  insert_by-ne_gt x y ys Ordering.lt e h = rw (insert_by, e) refl
  insert_by-ne_gt x y ys Ordering.eq e h = rw (insert_by, e) refl
  insert_by-ne_gt x y ys Ordering.gt e h = absurd (h refl)

  insert_by-perm : (x : A) (ys : List A) → Perm (insert_by cmp x ys) (x ∷ ys)
  unfolding insert_by
  insert_by-perm x [] = Perm.rfl
  insert_by-perm x (y ∷ ys) = elim (gt-cases (cmp x y)) [
    | inl after ↦
        rw (insert_by-gt x y ys after)
          (Perm.trans (Perm.cons y (insert_by-perm x ys)) (Perm.swap x y ys))
    | inr before ↦ rw (insert_by-ne_gt x y ys (cmp x y) refl before) Perm.rfl
  ]

  sort_by-perm : (xs : List A) → Perm (sort_by cmp xs) xs
  unfolding sort_by
  sort_by-perm [] = Perm.rfl
  sort_by-perm (x ∷ xs) =
      Perm.trans (insert_by-perm x (sort_by cmp xs)) (Perm.cons x (sort_by-perm xs))

  module _ (turn : (a b : A) → cmp b a ≡ flip (cmp a b)) where
    not_after : (x y : A) → cmp x y ≡ Ordering.gt → cmp y x ≢ Ordering.gt
    not_after x y e h = cc (turn x y)

    insert_by-after :
        (y x : A) (ys : List A)
        → cmp y x ≢ Ordering.gt
        → Ascending cmp (y ∷ ys)
        → Ascending cmp (y ∷ insert_by cmp x ys)
    unfolding insert_by
    insert_by-after y x [] h sorted = (h, tt)
    insert_by-after y x (z ∷ zs) h (first, sorted) = elim (gt-cases (cmp x z)) [
      | inl after ↦
          rw (insert_by-gt x z zs after)
            (first, insert_by-after z x zs (not_after x z after) sorted)
      | inr before ↦ rw (insert_by-ne_gt x z zs (cmp x z) refl before) (h, (before, sorted))
    ]

    insert_by-Ascending :
        (x : A) (ys : List A) → Ascending cmp ys → Ascending cmp (insert_by cmp x ys)
    unfolding insert_by
    insert_by-Ascending x [] sorted = tt
    insert_by-Ascending x (y ∷ ys) sorted = elim (gt-cases (cmp x y)) [
      | inl after ↦
          rw (insert_by-gt x y ys after) (insert_by-after y x ys (not_after x y after) sorted)
      | inr before ↦ rw (insert_by-ne_gt x y ys (cmp x y) refl before) (before, sorted)
    ]

    pub sort_by-Ascending : (xs : List A) → Ascending cmp (sort_by cmp xs)
    unfolding sort_by
    sort_by-Ascending [] = tt
    sort_by-Ascending (x ∷ xs) = insert_by-Ascending x (sort_by cmp xs) (sort_by-Ascending xs)

module _ {F : Type 0} ⦃float : Float F⦄ where
  compare_numbers-flip :
      (a b : Option F)
      → or_equal (or_err (compare_numbers b a) incomparable)
        ≡ flip (or_equal (or_err (compare_numbers a b) incomparable))
  unfolding compare_numbers or_equal
  compare_numbers-flip none none = refl
  compare_numbers-flip none (some y) = refl
  compare_numbers-flip (some x) none = refl
  compare_numbers-flip (some x) (some y) =
      rw (float.partial_cmp-flip x y) (turned (float.partial_cmp x y))
    where
      turned :
          (o : Option Ordering)
          → or_equal (or_err (flip_option o) incomparable) ≡ flip (or_equal (or_err o incomparable))
      turned none = refl
      turned (some o) = refl

  compare_values-flip : (v w : Value F) → compare_values w v ≡ flip (compare_values v w)
  unfolding compare_values compare or_equal compare_bool
  compare_values-flip (bool true) (bool true) = refl
  compare_values-flip (bool true) (bool false) = refl
  compare_values-flip (bool false) (bool true) = refl
  compare_values-flip (bool false) (bool false) = refl
  compare_values-flip (str s) (str t) = compare_str-flip s t
  compare_values-flip v null = compare_numbers-flip (as_f64 v) none
  compare_values-flip v w = compare_numbers-flip (as_f64 v) (as_f64 w)

  sort_order-flip :
      (descending nulls_last : Bool) (v w : Value F)
      → sort_order descending nulls_last w v ≡ flip (sort_order descending nulls_last v w)
  unfolding sort_order is_null compare_values compare or_equal
  sort_order-flip descending true null null = refl
  sort_order-flip descending false null null = refl
  sort_order-flip descending true null w = refl
  sort_order-flip descending false null w = refl
  sort_order-flip descending true v null = refl
  sort_order-flip descending false v null = refl
  sort_order-flip true nulls_last v w = ap flip (compare_values-flip v w)
  sort_order-flip false nulls_last v w = compare_values-flip v w

  -- Whether a value may stand directly before another. Nulls go to one end. Of two others the first
  -- must not be found greater, or, in descending order, less.
  abbrev pub IsPlaced : Bool → Bool → Value F → Value F → Type 0
  IsPlaced descending nulls_last null null = Unit {0}
  IsPlaced descending nulls_last null w = nulls_last ≡ false
  IsPlaced descending nulls_last v null = nulls_last ≡ true
  IsPlaced false nulls_last v w = compare v w ≢ ok Ordering.gt
  IsPlaced true nulls_last v w = compare v w ≢ ok Ordering.lt

  abbrev pub IsSorted : Bool → Bool → List (Value F) → Type 0
  IsSorted descending nulls_last [] = Unit {0}
  IsSorted descending nulls_last (v ∷ []) = Unit {0}
  IsSorted descending nulls_last (v ∷ w ∷ vs) =
      IsPlaced descending nulls_last v w × IsSorted descending nulls_last (w ∷ vs)

  sort_order-IsPlaced :
      (descending nulls_last : Bool) (v w : Value F)
      → sort_order descending nulls_last v w ≢ Ordering.gt
      → IsPlaced descending nulls_last v w
  unfolding sort_order is_null compare_values or_equal
  sort_order-IsPlaced descending nulls_last null null h = tt
  sort_order-IsPlaced descending true null w h = absurd (h refl)
  sort_order-IsPlaced descending false null w h = refl
  sort_order-IsPlaced descending true v null h = refl
  sort_order-IsPlaced descending false v null h = absurd (h refl)
  sort_order-IsPlaced false nulls_last v w h = λ e. h (ap or_equal e)
  sort_order-IsPlaced true nulls_last v w h = λ e. h (ap (λ m. flip (or_equal m)) e)

  Ascending-IsSorted :
      (descending nulls_last : Bool) (vs : List (Value F))
      → Ascending (sort_order descending nulls_last) vs
      → IsSorted descending nulls_last vs
  Ascending-IsSorted descending nulls_last [] h = tt
  Ascending-IsSorted descending nulls_last (v ∷ []) h = tt
  Ascending-IsSorted descending nulls_last (v ∷ w ∷ vs) (first, rest) = (
    sort_order-IsPlaced descending nulls_last v w first,
    Ascending-IsSorted descending nulls_last (w ∷ vs) rest,
  )

  -- When sorting gives a list, it holds the same values, each as often; all nulls stand last if nulls
  -- go last, and else first; and no other value stands directly before one that it compares greater
  -- than, or, in descending order, less than.
  pub sort_values_lem :
      (descending nulls_last : Bool) (values : List (Value F)) {sorted : List (Value F)}
      → sort_values descending nulls_last values ≡ ok sorted
      → Perm sorted values × IsSorted descending nulls_last sorted
  unfolding sort_values
  sort_values_lem descending nulls_last values e =
      >>=-elim (validate_sortable values)
        (λ done. ok (sort_by (sort_order descending nulls_last) values)) e
        λ done valid rest.
          let same = ok-injective rest in
          let ascends =
            sort_by-Ascending (sort_order descending nulls_last)
              (sort_order-flip descending nulls_last) values in
          rw (← same) (
            sort_by-perm (sort_order descending nulls_last) values,
            Ascending-IsSorted descending nulls_last _ ascends,
          )
