-- ===== src/Prelude/Lists.antt =====
-- Vectors as lists measured and indexed by native numbers, under the library's names.
use Prim.Native.Nat.{ℕ, zero, suc, ◌+◌, ◌-◌, ◌<◌, ◌≤◌, min}
use mathlib.Core.Path.{◌≡◌, refl, ap, subst}
use mathlib.Core.Bool.{Bool, true, false, ◌||◌}
use mathlib.Core.List.{List, [], ◌∷◌, ◌++◌, map}
use mathlib.Core.Option.{Option, none, some}
use native.Mathlib.Omega.{arith}
use mathlib.Core.Logic.{inl, inr}
use rxgraph.Prelude.Tests.{◌==◌, if◌then◌else◌, Bool-cases}

module _ {ℓ} {A : Type ℓ} where
  abbrev pub length : List A → ℕ
  length [] = 0
  length (x ∷ xs) = suc (length xs)

  abbrev pub get_elem? : List A → ℕ → Option A
  get_elem? [] i = none
  get_elem? (x ∷ xs) zero = some x
  get_elem? (x ∷ xs) (suc i) = get_elem? xs i

  abbrev pub get_or : List A → ℕ → A → A
  get_or [] i d = d
  get_or (x ∷ xs) zero d = x
  get_or (x ∷ xs) (suc i) d = get_or xs i d

  abbrev pub set : List A → ℕ → A → List A
  set [] i v = []
  set (x ∷ xs) zero v = v ∷ xs
  set (x ∷ xs) (suc i) v = x ∷ set xs i v

  abbrev pub take : ℕ → List A → List A
  take zero xs = []
  take (suc n) [] = []
  take (suc n) (x ∷ xs) = x ∷ take n xs

  abbrev pub drop : ℕ → List A → List A
  drop zero xs = xs
  drop (suc n) [] = []
  drop (suc n) (x ∷ xs) = drop n xs

  abbrev pub replicate : ℕ → A → List A
  replicate zero a = []
  replicate (suc n) a = a ∷ replicate n a

  -- `iter().enumerate()`, counting from `k`.
  abbrev pub enumerate : ℕ → List A → List (ℕ × A)
  enumerate k [] = []
  enumerate k (x ∷ xs) = (k, x) ∷ enumerate (suc k) xs

  abbrev pub All {κ} : (A → Type κ) → List A → Type κ
  All P [] = Unit
  All P (x ∷ xs) = P x × All P xs

-- `Vec::contains` on numbers.
abbrev pub contains : List ℕ → ℕ → Bool
contains [] w = false
contains (x ∷ xs) w = x == w || contains xs w

pub some-injective {ℓ} : {A : Type ℓ} {a b : A} → some a ≡ some b → a ≡ b
some-injective h = cc

-- How often a number stands in a list.
abbrev pub occurrences : ℕ → List ℕ → ℕ
occurrences node [] = 0
occurrences node (n ∷ ns) = if n == node then suc (occurrences node ns) else occurrences node ns

pub occurrences-absent :
    (node : ℕ) (ns : List ℕ) → contains ns node ≡ false → occurrences node ns ≡ 0
occurrences-absent node [] h = refl
occurrences-absent node (n ∷ ns) h = ground (arith, occurrences-absent node ns)

pub occurrences-append :
    (node : ℕ) (xs ys : List ℕ)
    → occurrences node (xs ++ ys) ≡ occurrences node xs + occurrences node ys
occurrences-append node [] ys = omega arith
occurrences-append node (x ∷ xs) ys = ground (arith, occurrences-append node xs ys)

pub contains-get_elem? :
    (xs : List ℕ) (w : ℕ) → contains xs w ≡ true → (i : ℕ) × (get_elem? xs i ≡ some w)
contains-get_elem? [] w h = cc
contains-get_elem? (x ∷ xs) w h = elim (Bool-cases (x == w)) [
  | inl same ↦ (0, ground arith)
  | inr other ↦ let (i, at) = contains-get_elem? xs w (ground arith) in (suc i, at)
]

pub get_elem?-contains : (xs : List ℕ) (i w : ℕ) → get_elem? xs i ≡ some w → contains xs w ≡ true
get_elem?-contains [] i w h = cc
get_elem?-contains (x ∷ xs) zero w h = ground arith
get_elem?-contains (x ∷ xs) (suc i) w h = ground (arith, get_elem?-contains xs i w h)

pub contains-append :
    (xs ys : List ℕ) (w : ℕ) → contains (xs ++ ys) w ≡ (contains xs w || contains ys w)
contains-append [] ys w = refl
contains-append (x ∷ xs) ys w = ground (arith, contains-append xs ys w)

module _ {ℓ} {A : Type ℓ} where
  pub length-append : (xs ys : List A) → length (xs ++ ys) ≡ length xs + length ys
  length-append [] ys = omega arith
  length-append (x ∷ xs) ys = omega (arith, length-append xs ys)

  pub length-set : (xs : List A) (i : ℕ) (v : A) → length (set xs i v) ≡ length xs
  length-set [] i v = refl
  length-set (x ∷ xs) zero v = refl
  length-set (x ∷ xs) (suc i) v = ap suc (length-set xs i v)

  pub length-replicate : (n : ℕ) (a : A) → length (replicate n a) ≡ n
  length-replicate zero a = refl
  length-replicate (suc n) a = ap suc (length-replicate n a)

  pub get_or-replicate : (n i : ℕ) (a : A) → get_or (replicate n a) i a ≡ a
  get_or-replicate zero i a = refl
  get_or-replicate (suc n) zero a = refl
  get_or-replicate (suc n) (suc i) a = get_or-replicate n i a

  -- A read after a write within bounds.
  pub get_or-set :
      (xs : List A) (i j : ℕ) (v d : A)
      → i < length xs
      → get_or (set xs i v) j d ≡ (if i == j then v else get_or xs j d)
  get_or-set [] i j v d h = absurd (omega arith)
  get_or-set (x ∷ xs) (suc i) (suc j) v d h = ground (arith, get_or-set xs i j v d)
  get_or-set (x ∷ xs) zero zero v d h = ground arith
  get_or-set (x ∷ xs) i j v d h = ground arith

  pub length-drop : (n : ℕ) (xs : List A) → length (drop n xs) ≡ length xs - n
  length-drop zero xs = omega arith
  length-drop (suc n) [] = omega arith
  length-drop (suc n) (x ∷ xs) = omega (arith, length-drop n xs)

  pub length-take : (n : ℕ) (xs : List A) → length (take n xs) ≡ min n (length xs)
  length-take zero xs = omega arith
  length-take (suc n) [] = omega arith
  length-take (suc n) (x ∷ xs) = omega (arith, length-take n xs)

  pub get_or-drop : (n i : ℕ) (xs : List A) (d : A) → get_or (drop n xs) i d ≡ get_or xs (n + i) d
  get_or-drop zero i xs d = ground arith
  get_or-drop (suc n) i [] d = ground arith
  get_or-drop (suc n) i (x ∷ xs) d = ground (arith, get_or-drop n i xs d)

  pub get_elem?-append_last :
      (xs : List A) (x : A) (i : ℕ)
      → get_elem? (xs ++ x ∷ []) i ≡ (if i == length xs then some x else get_elem? xs i)
  get_elem?-append_last [] x zero = ground arith
  get_elem?-append_last [] x (suc i) = ground arith
  get_elem?-append_last (y ∷ xs) x zero = ground arith
  get_elem?-append_last (y ∷ xs) x (suc i) = ground (arith, get_elem?-append_last xs x i)

  pub get_elem?-lt : (xs : List A) (i : ℕ) (x : A) → get_elem? xs i ≡ some x → i < length xs
  get_elem?-lt [] i x h = cc
  get_elem?-lt (y ∷ xs) zero x h = omega arith
  get_elem?-lt (y ∷ xs) (suc i) x h = omega (arith, get_elem?-lt xs i x h)

  -- A prefix is determined by its reads.
  pub take-ext :
      (xs ys : List A) (d : A)
      → length ys ≤ length xs
      → ((i : ℕ) → i < length ys → get_or xs i d ≡ get_or ys i d)
      → take (length ys) xs ≡ ys
  take-ext xs [] d h same = refl
  take-ext [] (y ∷ ys) d h same = absurd (omega arith)
  take-ext (x ∷ xs) (y ∷ ys) d h same =
      let rest = take-ext xs ys d (omega arith) (λ i lt. same (suc i) (omega arith)) in
      let first = same 0 (omega arith) in cc

  pub All-append {κ} : (P : A → Type κ) (xs ys : List A) → All P xs → All P ys → All P (xs ++ ys)
  All-append P [] ys p q = q
  All-append P (x ∷ xs) ys p q = (p.0, All-append P xs ys p.1 q)

pub length-map {ℓ κ} :
    {A : Type ℓ} {B : Type κ} (f : A → B) (xs : List A) → length (map f xs) ≡ length xs
length-map f [] = refl
length-map f (x ∷ xs) = ap suc (length-map f xs)

pub get_elem?-append {ℓ} :
    {A : Type ℓ} (xs ys : List A) (i : ℕ) → i < length xs → get_elem? (xs ++ ys) i ≡ get_elem? xs i
get_elem?-append [] ys i h = absurd (omega arith)
get_elem?-append (x ∷ xs) ys zero h = refl
get_elem?-append (x ∷ xs) ys (suc i) h = get_elem?-append xs ys i (omega arith)

pub get_elem?-ge {ℓ} : {A : Type ℓ} (xs : List A) (i : ℕ) → get_elem? xs i ≡ none → length xs ≤ i
get_elem?-ge [] i h = omega arith
get_elem?-ge (x ∷ xs) zero h = cc
get_elem?-ge (x ∷ xs) (suc i) h = omega (arith, get_elem?-ge xs i h)

pub All-get_elem? {ℓ κ} :
    {A : Type ℓ} (P : A → Type κ) (xs : List A) (i : ℕ) (x : A)
    → All P xs
    → get_elem? xs i ≡ some x
    → P x
All-get_elem? P [] i x p h = absurd cc
All-get_elem? P (y ∷ xs) zero x p h = subst P (some-injective h) p.0
All-get_elem? P (y ∷ xs) (suc i) x p h = All-get_elem? P xs i x p.1 h

pub append_nil : (xs : List ℕ) → xs ≡ xs ++ []
append_nil [] = refl
append_nil (x ∷ xs) = ap (λ ys. x ∷ ys) (append_nil xs)

pub append_assoc : (xs ys zs : List ℕ) → (xs ++ ys) ++ zs ≡ xs ++ (ys ++ zs)
append_assoc [] ys zs = refl
append_assoc (x ∷ xs) ys zs = ap (λ ws. x ∷ ws) (append_assoc xs ys zs)
