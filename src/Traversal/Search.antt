-- ===== src/Traversal/Search.antt =====
-- crates/rxgraph/src/traversal/engine.rs: what a search asks of its graph and kernel
-- (`SearchAdapter`), its configuration, the start entries and the evaluation of an edge.
use rxgraph.Prelude.{
  ℕ, ◌+◌, ◌-◌, ◌^◌, Bool, true, false, Option, none, some, List, [], ◌∷◌, ◌++◌, length,
}
use rxgraph.Result.{GraphId, Result, ok, ◌>>=◌, or_err, index, unknown_start}
use rxgraph.Graph.Csr.{NodeId, EdgeId}
use rxgraph.Traversal.Arena.{PathEntry, EdgeEval, start_entry, can_visit_arena}
use rxgraph.Traversal.Stats.{SearchStats, no_stats}

-- `range` gives the edges that `for_each_range` visits in turn.
pub record SearchAdapter (S P C : Type 0) : Type 0 where
  pub resolve_node : GraphId → Result (Option NodeId)
  pub initial_state : NodeId → Result S
  pub dense_node_count : Option ℕ
  pub prefetch_outgoing : List NodeId → Result (Unit {0})
  pub out_degree : NodeId → Result ℕ
  pub range : NodeId → ℕ → ℕ → Result (List (EdgeId × NodeId))
  pub make_cache : C
  pub eval_edge : NodeId → EdgeId → NodeId → S → C → Result (Option (S × Bool))
  pub materialize : List (PathEntry S) → ℕ → Bool → Result P

pub data TraversalStrategy : Type 0 where
  breadth_first depth_first : TraversalStrategy

pub record RunOptions : Type 0 where
  pub start_nodes : List GraphId
  pub max_depth : Option ℕ
  pub max_paths : Option ℕ
  pub strategy : TraversalStrategy
  pub max_visits_per_node : ℕ
  pub parallel : Bool
  pub intermediate_states : Bool
  pub progress : Bool

pub record RunConfig : Type 0 where
  pub start_nodes : List GraphId
  pub max_depth : ℕ
  pub max_paths : Option ℕ
  pub strategy : TraversalStrategy
  pub max_visits_per_node : ℕ
  pub intermediate_states : Bool

abbrev pub usize_max : ℕ
usize_max = 2 ^ 64 - 1

unfoldable pub depth_limit : Option ℕ → ℕ
depth_limit none = usize_max
depth_limit (some depth) = depth

unfoldable pub from_run : RunOptions → RunConfig
unfolding depth_limit
from_run run = record {
  start_nodes = run.start_nodes;
  max_depth = depth_limit run.max_depth;
  max_paths = run.max_paths;
  strategy = run.strategy;
  max_visits_per_node = run.max_visits_per_node;
  intermediate_states = run.intermediate_states;
}

module _ {S P C : Type 0} (adapter : SearchAdapter S P C) where
  -- The loop over the start nodes.
  unfoldable pub push_starts :
      List GraphId
      → List (PathEntry S)
      → List ℕ
      → SearchStats
      → Result (List (PathEntry S) × List ℕ × SearchStats)
  push_starts [] arena frontier stats = ok (arena, frontier, stats)
  push_starts (external ∷ externals) arena frontier stats = do
    resolved ← adapter.resolve_node external
    node ← or_err resolved (unknown_start external)
    state ← adapter.initial_state node
    push_starts externals (arena ++ start_entry node state ∷ []) (frontier ++ length arena ∷ [])
        (record stats {
          start_nodes = stats.start_nodes + 1;
          path_entries = stats.path_entries + 1;
        })

  unfoldable pub initial_arena : RunConfig → Result (List (PathEntry S) × List ℕ × SearchStats)
  unfolding push_starts
  initial_arena cfg = push_starts cfg.start_nodes [] [] no_stats

  unfoldable pub eval_arena_edge :
      List (PathEntry S)
      → ℕ
      → EdgeId × NodeId
      → RunConfig
      → SearchStats
      → C
      → Result (Option (EdgeEval S) × SearchStats)
  eval_arena_edge arena parent (edge, dest) cfg stats cache = do
    allowed ← can_visit_arena arena parent dest cfg.max_visits_per_node
    elim allowed [
      | false ↦ ok (none, record stats { skipped_revisits = stats.skipped_revisits + 1 })
      | true ↦ do
        let counted = record stats { evaluated_edges = stats.evaluated_edges + 1 }
        up ← index arena parent
        answer ← adapter.eval_edge up.node edge dest up.state cache
        elim answer [
          | none ↦ ok (none, record counted { rejected_edges = counted.rejected_edges + 1 })
          | some (state, stop) ↦
              ok (some (record { edge = edge; dest = dest; state = state; stop = stop }), counted)
        ]
    ]
