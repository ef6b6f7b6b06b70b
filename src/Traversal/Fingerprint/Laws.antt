-- ===== src/Traversal/Fingerprint/Laws.antt =====
-- The filter has no false negatives.
use rxgraph.Prelude.{
  ℕ, ◌/◌, ◌%◌, ◌^◌, ◌<◌, ◌≡◌, ◌∙◌, true, ◌&&◌, ◌||◌, arith, bit_or, ◌==◌, length, get_or,
  Bool-cases, inl, inr, replicate, length-set, get_or-set,
}
use rxgraph.Prelude.Bits.{has_bit-or, and-le}
use rxgraph.Graph.Csr.{NodeId}
use rxgraph.Traversal.Fingerprint.{
  VisitFingerprint, visit_hashes, insert_bit, contains_bit, insert, might_contain, for_node,
}

contains_bit-insert_bit :
    (f : VisitFingerprint) (b c : ℕ)
    → b / 64 < length f
    → contains_bit (insert_bit f b) c ≡ (b == c || contains_bit f c)
unfolding contains_bit insert_bit
contains_bit-insert_bit f b c h = ground (
  arith,
  get_or-set f (b / 64) (c / 64) (bit_or (get_or f (b / 64) 0) (2 ^ (b % 64))) 0 h,
  has_bit-or (get_or f (b / 64) 0) (b % 64) (c % 64),
)

length-insert_bit : (f : VisitFingerprint) (b : ℕ) → length (insert_bit f b) ≡ length f
unfolding insert_bit
length-insert_bit f b = length-set f (b / 64) (bit_or (get_or f (b / 64) 0) (2 ^ (b % 64)))

visit_hashes-lt : (node : NodeId) → ((visit_hashes node).0 < 256) × ((visit_hashes node).1 < 256)
unfolding visit_hashes
visit_hashes-lt node = (omega (arith, and-le node 0xff), omega arith)

pub length-insert : (f : VisitFingerprint) (node : NodeId) → length (insert f node) ≡ length f
unfolding insert
length-insert f node =
    let (a, b) = visit_hashes node in
    let f' = insert_bit f a in
    length-set f' (b / 64) (bit_or (get_or f' (b / 64) 0) (2 ^ (b % 64)))
    ∙ length-set f (a / 64) (bit_or (get_or f (a / 64) 0) (2 ^ (a % 64)))

pub length-for_node : (node : NodeId) → length (for_node node) ≡ 4
unfolding for_node
length-for_node node = length-insert (replicate 4 0) node

module _ (f : VisitFingerprint) (size : length f ≡ 4) (a b : ℕ) (a_small : a < 256)
    (b_small : b < 256) where
  two_bits :
      (c : ℕ)
      → contains_bit (insert_bit (insert_bit f a) b) c ≡ (b == c || (a == c || contains_bit f c))
  two_bits c =
      let same = length-insert_bit f a in
      ground (
        arith,
        contains_bit-insert_bit (insert_bit f a) b c (omega arith),
        contains_bit-insert_bit f a c (omega arith),
      )

  two_bits_set :
      (contains_bit (insert_bit (insert_bit f a) b) a
        && contains_bit (insert_bit (insert_bit f a) b) b)
      ≡ true
  two_bits_set = ground (arith, two_bits a, two_bits b)

  two_bits_kept :
      (c d : ℕ)
      → (contains_bit f c && contains_bit f d) ≡ true
      → (contains_bit (insert_bit (insert_bit f a) b) c
          && contains_bit (insert_bit (insert_bit f a) b) d)
        ≡ true
  two_bits_kept c d h = ground (arith, two_bits c, two_bits d)

-- On a filter of four words: after an insertion it may contain the node, and all that it might
-- contain before.
pub might_contain-insert :
    (f : VisitFingerprint) (node other : NodeId)
    → length f ≡ 4
    → (node == other || might_contain f other) ≡ true
    → might_contain (insert f node) other ≡ true
unfolding might_contain insert
might_contain-insert f node other size h =
    let (a, b) = visit_hashes-lt node in
    elim (Bool-cases (node == other)) [
      | inl same ↦
          let e : node ≡ other = ground arith in
          rw (← e) (two_bits_set f size (visit_hashes node).0 (visit_hashes node).1 a b)
      | inr different ↦
          two_bits_kept f size (visit_hashes node).0 (visit_hashes node).1 a b
            (visit_hashes other).0 (visit_hashes other).1 (rw different at h)
    ]
