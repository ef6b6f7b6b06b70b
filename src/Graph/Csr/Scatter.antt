-- ===== src/Graph/Csr/Scatter.antt =====
-- The reference for the filling loops of csr.rs and repo.rs: each value goes to the next free slot
-- of its key's region. `scatter_reads` says that the regions then hold the values by key, in order.
use rxgraph.Prelude.{
  ℕ, zero, suc, ◌+◌, ◌≤◌, ◌<◌, ◌≡◌, refl, ◌∙◌, ◌⊎◌, List, [], ◌∷◌, arith, length, get_or, set, ap,
  All, length-set, get_or-set,
}
use native.Mathlib.Nat.{add-zero}
use rxgraph.Prelude.Counts.{values_of, count, count-cons}

module _ {ℓ} {A : Type ℓ} where
  unfoldable pub scatter : List (ℕ × A) → List ℕ → List A → List A
  scatter [] cursor out = out
  scatter ((k, v) ∷ es) cursor out =
      scatter es (set cursor k (get_or cursor k 0 + 1)) (set out (get_or cursor k 0) v)

pub length-scatter {ℓ} :
    {A : Type ℓ} (es : List (ℕ × A)) (cursor : List ℕ) (out : List A)
    → length (scatter es cursor out) ≡ length out
unfolding scatter
length-scatter [] cursor out = refl
length-scatter ((k, v) ∷ es) cursor out =
    length-scatter es (set cursor k (get_or cursor k 0 + 1)) (set out (get_or cursor k 0) v)
    ∙ length-set out (get_or cursor k 0) v

-- The regions of the keys lie inside the vector and apart from each other.
pub record Fits {ℓ} {A : Type ℓ} (es : List (ℕ × A)) (cursor : List ℕ) (out : List A) : Type ℓ where
  pub keys : All (λ e. e.0 < length cursor) es
  pub room : (k : ℕ) → k < length cursor → get_or cursor k 0 + count k es ≤ length out
  pub apart :
      (k l : ℕ) → k < l → l < length cursor → get_or cursor k 0 + count k es ≤ get_or cursor l 0

module _ {A : Type 0} where
  All-length : (es : List (ℕ × A)) (n m : ℕ) → n ≡ m → All (λ e. e.0 < n) es → All (λ e. e.0 < m) es
  All-length es n m h p = rw h at p

  pub Fits-step :
      (k : ℕ) (v : A) (es : List (ℕ × A)) (cursor : List ℕ) (out : List A)
      → Fits ((k, v) ∷ es) cursor out
      → Fits es (set cursor k (get_or cursor k 0 + 1)) (set out (get_or cursor k 0) v)
  Fits-step k v es cursor out f =
      let c = get_or cursor k 0 in
      let read = λ (a : ℕ). get_or-set cursor k a (c + 1) 0 f.keys.0 in
      record {
        keys = rw length-set f.keys.1;
        room = λ a lt. ground (
          arith,
          read a,
          length-set cursor k (c + 1),
          length-set out c v,
          f.room a,
          count-cons a k v es,
        );
        apart = λ a b lt inside. ground (
          arith,
          read a,
          read b,
          length-set cursor k (c + 1),
          f.apart a b,
          count-cons a k v es,
          count-cons b k v es,
        );
      }

  -- A slot outside the regions is left alone.
  pub scatter_frame :
      (es : List (ℕ × A)) (cursor : List ℕ) (out : List A) (p : ℕ) (d : A)
      → Fits es cursor out
      → ((k : ℕ)
          → k < length cursor
          → (p < get_or cursor k 0) ⊎ (get_or cursor k 0 + count k es ≤ p))
      → get_or (scatter es cursor out) p d ≡ get_or out p d
  unfolding scatter
  scatter_frame [] cursor out p d f free = refl
  scatter_frame ((k, v) ∷ es) cursor out p d f free =
      let c = get_or cursor k 0 in
      let room = f.room k f.keys.0 in
      let later =
        scatter_frame es (set cursor k (c + 1)) (set out c v) p d (Fits-step k v es cursor out f)
          (λ a lt. ground (
            arith,
            get_or-set cursor k a (c + 1) 0 f.keys.0,
            length-set cursor k (c + 1),
            free a,
            count-cons a k v es,
          )) in
      ground (arith, later, get_or-set out c p v d, free k f.keys.0, room, count-cons k k v es)

  module _ (l : ℕ) (v : A) (es : List (ℕ × A)) (cursor : List ℕ) (out : List A) (d : A)
      (f : Fits ((l, v) ∷ es) cursor out) where
    abbrev moved : List ℕ
    moved = set cursor l (get_or cursor l 0 + 1)

    abbrev written : List A
    written = set out (get_or cursor l 0) v

    -- The value that is written first stays where it is put.
    scatter_first : get_or (scatter es moved written) (get_or cursor l 0) d ≡ v
    scatter_first =
        let c = get_or cursor l 0 in
        let room = f.room l f.keys.0 in
        let kept = scatter_frame es moved written c d (Fits-step l v es cursor out f) (λ a lt.
          ground (
            arith,
            get_or-set cursor l a (c + 1) 0 f.keys.0,
            length-set cursor l (c + 1),
            f.apart a l,
            f.apart l a,
            count-cons a l v es,
            count-cons l l v es,
          )) in
        ground (arith, kept, get_or-set out c c v d, room, count-cons l l v es)

  -- The region of a key holds its values, in order.
  pub scatter_reads :
      (es : List (ℕ × A)) (cursor : List ℕ) (out : List A) (k j : ℕ) (d : A)
      → Fits es cursor out
      → k < length cursor
      → j < count k es
      → get_or (scatter es cursor out) (get_or cursor k 0 + j) d ≡ get_or (values_of k es) j d
  unfolding scatter
  scatter_reads [] cursor out k j d f lt h = absurd (omega arith)
  scatter_reads ((l, v) ∷ es) cursor out k zero d f lt h =
      let c = get_or cursor l 0 in
      let first = scatter_first l v es cursor out d f in
      let rest =
        scatter_reads es (moved l v es cursor out d f) (written l v es cursor out d f) k zero d
          (Fits-step l v es cursor out f) in
      ground (
        arith,
        first,
        rest,
        get_or-set cursor l k (c + 1) 0 f.keys.0,
        length-set cursor l (c + 1),
        ap (λ (p : ℕ). get_or (scatter es (set cursor l (c + 1)) (set out c v)) p d) (add-zero c),
      )
  scatter_reads ((l, v) ∷ es) cursor out k (suc j) d f lt h =
      let c = get_or cursor l 0 in
      let after = scatter es (set cursor l (c + 1)) (set out c v) in
      let rest = λ (i : ℕ).
        scatter_reads es (moved l v es cursor out d f) (written l v es cursor out d f) k i d
          (Fits-step l v es cursor out f) in
      let same : c + 1 + j ≡ c + suc j = omega arith in
      ground (
        arith,
        rest j,
        rest (suc j),
        get_or-set cursor l k (c + 1) 0 f.keys.0,
        length-set cursor l (c + 1),
        ap (λ (p : ℕ). get_or after p d) same,
      )
