-- ===== src/Tests/Queries.antt =====
-- Runs of the queries on the diamond, and theorems on them at concrete inputs.
use mathlib.Core.List.{zip}
use rxgraph.Prelude.{◌<◌, ◌≤◌, ◌≡◌, refl, none, some, [], ◌∷◌, All, length}
use rxgraph.Prelude.Words.{u32_max}
use rxgraph.Result.{ok, num}
use rxgraph.Graph.Identity.{is_contiguous_u64, has_u64_ids, internal_node_u64, external_node_u64}
use rxgraph.Graph.Walk.Bounded.{
  at_depth, visit_layer, layer_loop, walk_breadth_first, push_unvisited, stack_loop,
  walk_depth_first,
}
use rxgraph.Graph.Query.{
  required_internal_node, external_node, node_to_u64, materialize_nodes_u64_slice,
  materialize_nodes_u64, bfs, bfs_u64, dfs, dfs_u64, all_internal, related_many, related_many_u64,
  ancestors_many, descendants_many, ancestors_many_u64, descendants_many_u64,
}
use rxgraph.Graph.Query.Path.{
  sweep, path_loop, parent_loop, materialize_path, materialize_path_u64, shortest_path,
  shortest_path_u64,
}
use rxgraph.Graph.Query.Scratch
use rxgraph.Graph.Query.Scratch.{
  next_generation, stamp, stamp_layer, stamp_loop, stamp_layer_loop, bfs_stamped,
  bfs_u64_with_scratch, shortest_path_u64_with_scratch, in_turn, bfs_many_u64, shortest_paths_u64,
}
use rxgraph.Graph.Query.Scratch.Generation.{new-IsStamped, next_generation_lem}
use rxgraph.Graph.Query.Components.{component_loop, components_loop, weakly_connected_components}
use rxgraph.Tests.{program, diamond}

queries : Unit {0}
unfolding program is_contiguous_u64 has_u64_ids internal_node_u64 external_node_u64 at_depth
    visit_layer layer_loop walk_breadth_first push_unvisited stack_loop walk_depth_first
    required_internal_node external_node node_to_u64 materialize_nodes_u64_slice
    materialize_nodes_u64 bfs bfs_u64 dfs dfs_u64 all_internal related_many related_many_u64
    ancestors_many descendants_many ancestors_many_u64 descendants_many_u64 sweep path_loop
    parent_loop materialize_path materialize_path_u64 shortest_path shortest_path_u64 Scratch.new
    next_generation stamp stamp_layer stamp_loop stamp_layer_loop bfs_stamped bfs_u64_with_scratch
    shortest_path_u64_with_scratch in_turn bfs_many_u64 shortest_paths_u64 component_loop
    components_loop weakly_connected_components
queries = tt

bfs_run : bfs diamond (num 10) (some 1) ≡ ok (num 10 ∷ num 20 ∷ num 30 ∷ [])
unfolding queries
bfs_run = refl

dfs_run : dfs_u64 diamond 10 none ≡ ok (some (10 ∷ 20 ∷ 40 ∷ 30 ∷ []))
unfolding queries
dfs_run = refl

path_run :
    shortest_path diamond (num 20) (num 30) ≡ ok (some (num 20 ∷ num 40 ∷ num 10 ∷ num 30 ∷ []))
unfolding queries
path_run = refl

paths_run :
    shortest_paths_u64 diamond ((10, 40) ∷ (10, 50) ∷ (30, 10) ∷ (7, 10) ∷ [])
    ≡ ok (some (some (10 ∷ 20 ∷ 40 ∷ []) ∷ none ∷ some (30 ∷ 40 ∷ 10 ∷ []) ∷ none ∷ []))
unfolding queries
paths_run = refl

many_run :
    bfs_many_u64 diamond (10 ∷ 50 ∷ 30 ∷ []) (some 1)
    ≡ ok (some (some (10 ∷ 20 ∷ 30 ∷ []) ∷ some (50 ∷ []) ∷ some (30 ∷ 40 ∷ []) ∷ []))
unfolding queries
many_run = refl

ancestors_run : ancestors_many_u64 diamond (40 ∷ []) ≡ ok (some (20 ∷ 30 ∷ 10 ∷ []))
unfolding queries
ancestors_run = refl

components_run :
    weakly_connected_components diamond
    ≡ ok ((num 10 ∷ num 20 ∷ num 30 ∷ num 40 ∷ []) ∷ (num 50 ∷ []) ∷ [])
unfolding queries zip
components_run = refl

next_generation_example :
    ((next_generation (Scratch.new 3)).generation ≤ u32_max)
    × All
        (λ stamp. stamp < (next_generation (Scratch.new 3)).generation)
        (next_generation (Scratch.new 3)).visited
    × (length (next_generation (Scratch.new 3)).visited ≡ length (Scratch.new 3).visited)
next_generation_example = next_generation_lem (Scratch.new 3) (new-IsStamped 3)
