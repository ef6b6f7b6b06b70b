-- ===== src/Traversal/Fingerprint.antt =====
-- crates/rxgraph/src/traversal/engine.rs, `VisitFingerprint`: a Bloom filter of 256 bits for the
-- nodes of a path. The bits lie below 256, so no word index is out of bounds.
pub mod Laws
use rxgraph.Prelude.{
  ℕ, ◌+◌, ◌*◌, ◌/◌, ◌%◌, ◌^◌, Bool, ◌&&◌, List, [], ◌∷◌, bit_and, bit_or, get_or, set, replicate,
}
use rxgraph.Prelude.Bits.{has_bit}
use rxgraph.Prelude.Words.{u32_mod}
use rxgraph.Graph.Csr.{NodeId}

-- The four words.
abbrev pub VisitFingerprint : Type 0
VisitFingerprint = List ℕ

-- `(node & 0xff, node.wrapping_mul(0x9e37_79b1) >> 24)`.
unfoldable pub visit_hashes : NodeId → ℕ × ℕ
visit_hashes node = (bit_and node 0xff, (node * 0x9e3779b1) % u32_mod / 2 ^ 24)

unfoldable pub insert_bit : VisitFingerprint → ℕ → VisitFingerprint
insert_bit f bit = set f (bit / 64) (bit_or (get_or f (bit / 64) 0) (2 ^ (bit % 64)))

unfoldable pub contains_bit : VisitFingerprint → ℕ → Bool
contains_bit f bit = has_bit (get_or f (bit / 64) 0) (bit % 64)

unfoldable pub insert : VisitFingerprint → NodeId → VisitFingerprint
unfolding visit_hashes insert_bit
insert f node = let (first, second) = visit_hashes node in insert_bit (insert_bit f first) second

unfoldable pub might_contain : VisitFingerprint → NodeId → Bool
unfolding visit_hashes contains_bit
might_contain f node =
    let (first, second) = visit_hashes node in contains_bit f first && contains_bit f second

unfoldable pub for_node : NodeId → VisitFingerprint
unfolding insert
for_node node = insert (replicate 4 0) node
