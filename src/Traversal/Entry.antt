-- ===== src/Traversal/Entry.antt =====
-- crates/rxgraph/src/traversal/algo.rs, the searches of a graph: with a kernel of expressions and
-- with a native one, all paths and the first. `rounds`, `chunks` and `threads` are those of Run.
pub mod First
use Prim.Native.String.{String}
use rxgraph.Prelude.{ℕ, false, some, List, ◌∷◌}
use rxgraph.Result.{Result, ok, ◌>>=◌}
use rxgraph.Dsl.Float.{Float}
use rxgraph.Dsl.Value.{Value}
use rxgraph.Dsl.Bind.{bind_kernel, state_row}
use rxgraph.Traversal.Search.{RunOptions, breadth_first}
use rxgraph.Traversal.Adapter.{Graph, Kernel, GraphPath, graph_adapter, bound_kernel}
use rxgraph.Traversal.Run
use rxgraph.Traversal.Config.{TraversalConfig, SearchResult, FirstResult, run_options, into_first}

-- A `StateRow`: the values of a state under their names.
abbrev pub StateRow : Type 0 → Type 0
StateRow F = List (String × Value F)

-- What `search_first` makes of the configuration.
unfoldable pub first_config : {F : Type 0} → TraversalConfig F → TraversalConfig F
first_config config = record config {
  max_paths = some 1;
  strategy = breadth_first;
  parallel = false;
}

module _ {F : Type 0} ⦃float : Float F⦄ (rounds chunks threads : ℕ) (graph : Graph F) where
  unfoldable pub search : TraversalConfig F → Result (SearchResult (StateRow F))
  search config = do
    kernel ← bind_kernel graph.payloads config.kernel
    let project : _ → Result (StateRow F) = λ state. ok (state_row kernel.names state)
    let adapter = graph_adapter graph (bound_kernel kernel) project
    result ← Run.search adapter rounds chunks threads (run_options config)
    ok (record { paths = result.paths; stats = result.stats })

  unfoldable pub search_paths : TraversalConfig F → Result (SearchResult (StateRow F))
  search_paths config = search config

  unfoldable pub search_first : TraversalConfig F → Result (FirstResult (StateRow F))
  unfolding search_paths first_config
  search_first config = do result ← search_paths (first_config config); ok (into_first result)

-- What `search_first_with` makes of the options.
unfoldable pub first_run : RunOptions → RunOptions
first_run run = record run { max_paths = some 1; strategy = breadth_first; parallel = false }

module _ {F S : Type 0} (rounds chunks threads : ℕ) (graph : Graph F) (kernel : Kernel F S) where
  unfoldable pub search_paths_with : RunOptions → Result (SearchResult S)
  search_paths_with run = do
    let adapter = graph_adapter graph kernel (λ state. ok state)
    result ← Run.search adapter rounds chunks threads run
    ok (record { paths = result.paths; stats = result.stats })

  unfoldable pub search_first_with : RunOptions → Result (FirstResult S)
  unfolding search_paths_with first_run
  search_first_with run = do result ← search_paths_with (first_run run); ok (into_first result)

  -- The alias.
  unfoldable pub search_with : RunOptions → Result (SearchResult S)
  search_with run = search_paths_with run
