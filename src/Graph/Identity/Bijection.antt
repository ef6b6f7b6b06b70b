-- ===== src/Graph/Identity/Bijection.antt =====
-- External and internal ids are inverse to each other, and the compact identity of a graph whose
-- ids are 0, 1, 2, … answers as the one with tables does.
use Prim.Native.String.{String}
use rxgraph.Prelude.{
  ℕ, zero, suc, ◌+◌, ◌≤◌, ◌≡◌, ◌↔◌, inl, inr, true, none, some, List, [], ◌∷◌, arith, ltb,
  if◌then◌else◌, Option-cases, length, get_elem?, get_elem?-lt,
}
use rxgraph.Prelude.Keys.{HashMap, get, nat_key, string_key}
use rxgraph.Prelude.Words.{u32_mod, to_u32, to_u32-lt}
use rxgraph.Result.{GraphId, num, text}
use rxgraph.Graph.Csr.{NodeId, EdgeId}
use rxgraph.Graph.Identity.{Identity, u64, str, internal_node, external_node, external_edge}
use rxgraph.Graph.Preprocess.{is_sequence, u64_identity}
use rxgraph.Graph.Preprocess.Rows.{IsInverse}

get_elem?-sequence :
    (row : ℕ) (ids : List ℕ) (i : ℕ)
    → is_sequence row ids ≡ true
    → get_elem? ids i ≡ (if ltb i (length ids) then some (row + i) else none)
unfolding is_sequence
get_elem?-sequence row [] i h = ground arith
get_elem?-sequence row (id ∷ ids) zero h = ground arith
get_elem?-sequence row (id ∷ ids) (suc i) h = ground (arith, get_elem?-sequence (suc row) ids i)

module _ (nodes edges : List ℕ) (lookup : HashMap ℕ NodeId) (inverse : IsInverse lookup nodes)
    (small : length nodes ≤ u32_mod) where
  get_sequence :
      (v : ℕ)
      → is_sequence 0 nodes ≡ true
      → get lookup v ≡ (if ltb v (length nodes) then some (to_u32 v) else none)
  get_sequence v seq = elim (Option-cases (get lookup v)) [
    | inr (i, found) ↦ ground (
      arith,
      found,
      (inverse v i).0 found,
      get_elem?-sequence 0 nodes i seq,
      get_elem?-lt nodes i v,
      to_u32-lt v,
    )
    | inl absent ↦
        ground (arith, absent, (inverse v v).1, get_elem?-sequence 0 nodes v seq, to_u32-lt v)
  ]

  -- The compact form of the identity does not change a node lookup.
  internal_node-u64_identity :
      (e : GraphId)
      → internal_node (u64_identity nodes edges lookup) e ≡ internal_node (u64 nodes edges lookup) e
  unfolding internal_node u64_identity
  internal_node-u64_identity (num v) = ground (arith, get_sequence v)
  internal_node-u64_identity (text v) = ground arith

  -- Nor what the internal ids stand for.
  external_node-u64_identity :
      (i : NodeId)
      → external_node (u64_identity nodes edges lookup) i ≡ external_node (u64 nodes edges lookup) i
  unfolding external_node u64_identity
  external_node-u64_identity i = ground (arith, get_elem?-sequence 0 nodes i)

  external_edge-u64_identity :
      (i : EdgeId)
      → external_edge (u64_identity nodes edges lookup) i ≡ external_edge (u64 nodes edges lookup) i
  unfolding external_edge u64_identity
  external_edge-u64_identity i = ground (arith, get_elem?-sequence 0 edges i)

-- With a lookup that is inverse to the node ids, and at most 2^32 of these, the identity that
-- `u64_identity` chooses answers every lookup as the one with tables.
pub u64_identity_lem :
    (nodes edges : List ℕ) (lookup : HashMap ℕ NodeId)
    → IsInverse lookup nodes
    → length nodes ≤ u32_mod
    → ((e : GraphId)
        → internal_node (u64_identity nodes edges lookup) e
          ≡ internal_node (u64 nodes edges lookup) e)
      × ((i : NodeId)
          → external_node (u64_identity nodes edges lookup) i
            ≡ external_node (u64 nodes edges lookup) i)
      × ((i : EdgeId)
          → external_edge (u64_identity nodes edges lookup) i
            ≡ external_edge (u64 nodes edges lookup) i)
u64_identity_lem nodes edges lookup inverse small = (
  internal_node-u64_identity nodes edges lookup inverse small,
  external_node-u64_identity nodes edges lookup inverse small,
  external_edge-u64_identity nodes edges lookup inverse small,
)

-- Lookup and materialisation of a node are inverse to each other.
abbrev pub IsBijective : Identity → Type 0
IsBijective identity =
    (e : GraphId) (i : NodeId)
    → (internal_node identity e ≡ some i) ↔ (external_node identity i ≡ some e)

pub u64-IsBijective :
    (nodes edges : List ℕ) (lookup : HashMap ℕ NodeId)
    → IsInverse lookup nodes
    → IsBijective (u64 nodes edges lookup)
unfolding internal_node external_node
u64-IsBijective nodes edges lookup inverse (num v) i = ground (arith, inverse v i)
u64-IsBijective nodes edges lookup inverse (text v) i = ground arith

pub str-IsBijective :
    (nodes edges : List String) (lookup : HashMap String NodeId)
    → IsInverse lookup nodes
    → IsBijective (str nodes edges lookup)
unfolding internal_node external_node
str-IsBijective nodes edges lookup inverse (num v) i = ground arith
str-IsBijective nodes edges lookup inverse (text v) i = ground (arith, inverse v i)
