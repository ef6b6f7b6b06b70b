-- ===== src/Traversal/Config.antt =====
-- crates/rxgraph/src/traversal/config.rs and mod.rs: the configuration of a traversal with its
-- builder, and its results.
use rxgraph.Prelude.{ℕ, Bool, true, false, Option, none, some, List, []}
use rxgraph.Result.{GraphId, Result, ok, ◌>>=◌, map_result}
use rxgraph.Dsl.Bind.{DslKernel}
use rxgraph.Traversal.Stats.{SearchStats}
use rxgraph.Traversal.Search.{TraversalStrategy, breadth_first, depth_first, RunOptions}
use rxgraph.Traversal.Cursor.{pop}
use rxgraph.Traversal.Adapter.{GraphPath}

pub record TraversalConfig (F : Type 0) : Type 0 where
  pub kernel : DslKernel F
  pub start_nodes : List GraphId
  pub max_depth : Option ℕ
  pub max_paths : Option ℕ
  pub strategy : TraversalStrategy
  pub max_visits_per_node : ℕ
  pub parallel : Bool
  pub intermediate_states : Bool
  pub progress : Bool

-- The builder has the fields of the configuration.
pub record TraversalConfigBuilder (F : Type 0) : Type 0 where
  pub kernel : DslKernel F
  pub start_nodes : List GraphId
  pub max_depth : Option ℕ
  pub max_paths : Option ℕ
  pub strategy : TraversalStrategy
  pub max_visits_per_node : ℕ
  pub parallel : Bool
  pub intermediate_states : Bool
  pub progress : Bool

module _ {F : Type 0} where
  unfoldable pub new_builder : DslKernel F → TraversalConfigBuilder F
  new_builder kernel = record {
    kernel = kernel;
    start_nodes = [];
    max_depth = none;
    max_paths = none;
    strategy = depth_first;
    max_visits_per_node = 1;
    parallel = true;
    intermediate_states = false;
    progress = false;
  }

  unfoldable pub with_start_nodes :
      TraversalConfigBuilder F → List GraphId → TraversalConfigBuilder F
  with_start_nodes b nodes = record b { start_nodes = nodes }

  unfoldable pub with_max_depth : TraversalConfigBuilder F → ℕ → TraversalConfigBuilder F
  with_max_depth b depth = record b { max_depth = some depth }

  unfoldable pub with_max_paths : TraversalConfigBuilder F → ℕ → TraversalConfigBuilder F
  with_max_paths b paths = record b { max_paths = some paths }

  unfoldable pub with_strategy :
      TraversalConfigBuilder F → TraversalStrategy → TraversalConfigBuilder F
  with_strategy b strategy = record b { strategy = strategy }

  unfoldable pub with_max_visits_per_node : TraversalConfigBuilder F → ℕ → TraversalConfigBuilder F
  with_max_visits_per_node b visits = record b { max_visits_per_node = visits }

  unfoldable pub with_parallelism : TraversalConfigBuilder F → Bool → TraversalConfigBuilder F
  with_parallelism b enabled = record b { parallel = enabled }

  unfoldable pub with_intermediate_states :
      TraversalConfigBuilder F → Bool → TraversalConfigBuilder F
  with_intermediate_states b enabled = record b { intermediate_states = enabled }

  unfoldable pub with_progress : TraversalConfigBuilder F → Bool → TraversalConfigBuilder F
  with_progress b enabled = record b { progress = enabled }

  unfoldable pub build : TraversalConfigBuilder F → TraversalConfig F
  build b = record {
    kernel = b.kernel;
    start_nodes = b.start_nodes;
    max_depth = b.max_depth;
    max_paths = b.max_paths;
    strategy = b.strategy;
    max_visits_per_node = b.max_visits_per_node;
    parallel = b.parallel;
    intermediate_states = b.intermediate_states;
    progress = b.progress;
  }

  -- The options of a configuration, as `Graph::search` takes them.
  unfoldable pub run_options : TraversalConfig F → RunOptions
  run_options config = record {
    start_nodes = config.start_nodes;
    max_depth = config.max_depth;
    max_paths = config.max_paths;
    strategy = config.strategy;
    max_visits_per_node = config.max_visits_per_node;
    parallel = config.parallel;
    intermediate_states = config.intermediate_states;
    progress = config.progress;
  }

-- `RunOptions::default`.
unfoldable pub default_run : RunOptions
default_run = record {
  start_nodes = [];
  max_depth = none;
  max_paths = none;
  strategy = breadth_first;
  max_visits_per_node = 1;
  parallel = true;
  intermediate_states = false;
  progress = false;
}

pub record SearchResult (O : Type 0) : Type 0 where
  pub paths : List (GraphPath O)
  pub stats : SearchStats

pub record FirstResult (O : Type 0) : Type 0 where
  pub path : Option (GraphPath O)
  pub stats : SearchStats

-- The last of a vector, as `Vec::pop` gives it.
unfoldable pub popped : {A : Type 0} → Option (A × List A) → Option A
popped none = none
popped (some (last, rest)) = some last

unfoldable pub into_first : {O : Type 0} → SearchResult O → FirstResult O
unfolding popped pop
into_first result = record { path = popped (pop result.paths); stats = result.stats }

module _ {S O : Type 0} (convert : S → Result O) where
  unfoldable pub map_states : Option (List S) → Result (Option (List O))
  map_states none = ok none
  map_states (some states) = do converted ← map_result convert states; ok (some converted)

  unfoldable pub map_path : GraphPath S → Result (GraphPath O)
  unfolding map_states
  map_path path = do
    state ← convert path.state
    states ← map_states path.intermediate_states
    ok (record {
      nodes = path.nodes;
      edges = path.edges;
      state = state;
      intermediate_states = states;
    })

  unfoldable pub try_map_state : SearchResult S → Result (SearchResult O)
  unfolding map_path
  try_map_state result = do
    paths ← map_result map_path result.paths
    ok (record { paths = paths; stats = result.stats })
