-- ===== src/Traversal/Entry/First.antt =====
-- crates/rxgraph/src/traversal/algo.rs, `search_first`, and the search that it makes.
use rxgraph.Prelude.{ℕ, ◌≤◌, ◌≡◌, refl, false, Option, none, some, List, [], ◌∷◌, length, arith}
use rxgraph.Result.{Result, ok, err, panic, out_of_fuel, ◌>>=◌, >>=-elim, ok-injective}
use rxgraph.Dsl.Float.{Float}
use rxgraph.Dsl.Bind.{bind_kernel}
use rxgraph.Traversal.Search.{breadth_first}
use rxgraph.Traversal.Adapter.{Graph, GraphPath}
use rxgraph.Traversal.Cursor.{pop}
use rxgraph.Traversal.Run
use rxgraph.Traversal.Cursor.Limits.{AtMost}
use rxgraph.Traversal.Run.Limits.{search_lem}
use rxgraph.Traversal.Config.{
  TraversalConfig, SearchResult, FirstResult, run_options, popped, into_first,
}
use rxgraph.Traversal.Entry.{StateRow, search, search_paths, first_config, search_first}

-- The paths that a first result stands for.
unfoldable pub first_paths : {O : Type 0} → Option (GraphPath O) → List (GraphPath O)
first_paths none = []
first_paths (some path) = path ∷ []

-- A first result that loses no path of the result.
abbrev pub IsFirst : {O : Type 0} → SearchResult O → FirstResult O → Type 0
IsFirst result first = (result.paths ≡ first_paths first.path) × (first.stats ≡ result.stats)

popped-pop :
    {O : Type 0} (paths : List (GraphPath O))
    → length paths ≤ 1
    → paths ≡ first_paths (popped (pop paths))
unfolding popped pop first_paths
popped-pop [] h = refl
popped-pop (p ∷ []) h = refl
popped-pop (p ∷ q ∷ rest) h = absurd (omega arith)

into_first-IsFirst :
    {O : Type 0} (result : SearchResult O)
    → length result.paths ≤ 1
    → IsFirst result (into_first result)
unfolding into_first
into_first-IsFirst result h = (popped-pop result.paths h, refl)

-- The answers of `search_first` and of its search.
abbrev pub IsFirstAnswer : {O : Type 0} → Result (SearchResult O) → Result (FirstResult O) → Type 0
IsFirstAnswer (ok result) (ok first) = IsFirst result first
IsFirstAnswer (err e) (err f) = e ≡ f
IsFirstAnswer panic panic = Unit
IsFirstAnswer out_of_fuel out_of_fuel = Unit
IsFirstAnswer _ _ = ⊥

into_first-IsFirstAnswer :
    {O : Type 0} (m : Result (SearchResult O))
    → ((result : SearchResult O) → m ≡ ok result → length result.paths ≤ 1)
    → IsFirstAnswer m (m >>= λ result. ok (into_first result))
into_first-IsFirstAnswer (ok result) h = into_first-IsFirst result (h result refl)
into_first-IsFirstAnswer (err e) h = refl
into_first-IsFirstAnswer panic h = tt
into_first-IsFirstAnswer out_of_fuel h = tt

module _ {F : Type 0} (rounds chunks threads : ℕ) (graph : Graph F) where
  search_paths-AtMost :
      ⦃float : Float F⦄ (config : TraversalConfig F) (result : SearchResult (StateRow F))
      → search_paths rounds chunks threads graph config ≡ ok result
      → AtMost config.max_paths (length result.paths)
  unfolding search_paths search run_options
  search_paths-AtMost config result h =
      >>=-elim (bind_kernel graph.payloads config.kernel) _ h λ kernel a h1.
        >>=-elim (Run.search _ rounds chunks threads (run_options config)) _ h1 λ out b h2.
          let least = search_lem _ rounds chunks threads (run_options config) out b in
          rw (← ok-injective h2) least

  -- `search_first` answers as the search of every path with one path at most, breadth first and
  -- serial, errors and panics included: where that search returns, `search_first` returns, with its
  -- counters, and its path is that search's only one, or there is none.
  pub search_first_lem :
      ⦃float : Float F⦄ (config : TraversalConfig F)
      → IsFirstAnswer
          (search_paths rounds chunks threads graph
            (record config { max_paths = some 1; strategy = breadth_first; parallel = false }))
          (search_first rounds chunks threads graph config)
  unfolding search_first first_config
  search_first_lem config =
      into_first-IsFirstAnswer (search_paths rounds chunks threads graph (first_config config))
        λ result a. search_paths-AtMost (first_config config) result a
