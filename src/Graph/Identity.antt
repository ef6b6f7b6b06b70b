-- ===== src/Graph/Identity.antt =====
-- crates/rxgraph/src/graph/repo.rs, `Identity`: external ids and dense internal ids.
pub mod Bijection
use Prim.Native.String.{String}
use rxgraph.Prelude.{ℕ, Bool, true, false, Option, none, some, List, ltb, if◌then◌else◌, get_elem?}
use rxgraph.Prelude.Keys.{HashMap, get, nat_key, string_key}
use rxgraph.Prelude.Words.{to_u32}
use rxgraph.Result.{GraphId, num, text}
use rxgraph.Graph.Csr.{NodeId, EdgeId}
use mathlib.Core.Option

pub data Identity : Type 0 where
  u64_contiguous : ℕ → ℕ → Identity
  u64 : List ℕ → List ℕ → HashMap ℕ NodeId → Identity
  str : List String → List String → HashMap String NodeId → Identity

unfoldable pub is_contiguous_u64 : Identity → Bool
is_contiguous_u64 (u64_contiguous _ _) = true
is_contiguous_u64 _ = false

unfoldable pub has_u64_ids : Identity → Bool
has_u64_ids (str _ _ _) = false
has_u64_ids _ = true

unfoldable pub internal_node_u64 : Identity → ℕ → Option NodeId
internal_node_u64 (u64_contiguous nodes edges) external =
    if ltb external nodes then some (to_u32 external) else none
internal_node_u64 (u64 nodes edges lookup) external = get lookup external
internal_node_u64 (str nodes edges lookup) external = none

unfoldable pub external_node_u64 : Identity → NodeId → Option ℕ
external_node_u64 (u64_contiguous nodes edges) internal =
    if ltb internal nodes then some internal else none
external_node_u64 (u64 nodes edges lookup) internal = get_elem? nodes internal
external_node_u64 (str nodes edges lookup) internal = none

unfoldable pub internal_node : Identity → GraphId → Option NodeId
internal_node (u64_contiguous nodes edges) (num value) =
    if ltb value nodes then some (to_u32 value) else none
internal_node (u64 nodes edges lookup) (num value) = get lookup value
internal_node (str nodes edges lookup) (text value) = get lookup value
internal_node _ _ = none

unfoldable pub external_node : Identity → NodeId → Option GraphId
external_node (u64_contiguous nodes edges) internal =
    if ltb internal nodes then some (num internal) else none
external_node (u64 nodes edges lookup) internal = Option.map num (get_elem? nodes internal)
external_node (str nodes edges lookup) internal = Option.map text (get_elem? nodes internal)

unfoldable pub external_edge : Identity → EdgeId → Option GraphId
external_edge (u64_contiguous nodes edges) internal =
    if ltb internal edges then some (num internal) else none
external_edge (u64 nodes edges lookup) internal = Option.map num (get_elem? edges internal)
external_edge (str nodes edges lookup) internal = Option.map text (get_elem? edges internal)
