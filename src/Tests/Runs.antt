-- ===== src/Tests/Runs.antt =====
-- Whole searches, paths and states at concrete inputs.
use Prim.Native.String.{String}
use rxgraph.Prelude.Keys
use rxgraph.Prelude.{
  ℕ, ◌+◌, ◌≡◌, refl, subst, true, false, none, some, List, [], ◌∷◌, arith, length, some-injective,
}
use rxgraph.Result.{ok, err, num, index, slice, Returns, number_too_big}
use rxgraph.Dsl.Integer.{ℤ, pos, negsuc, word_64}
use rxgraph.Dsl.Value.{Value, u64, bool, as_i128, find_field}
use rxgraph.Dsl.Bind.{state_row}
use rxgraph.Graph.Identity.{Identity, u64_contiguous, internal_node, external_node, external_edge}
use rxgraph.Traversal.Config.{TraversalConfig, FirstResult, run_options, into_first, popped}
use rxgraph.Traversal.Entry.{StateRow, search_first, search_paths}
use rxgraph.Traversal.Entry
use rxgraph.Traversal.Entry.First.{IsFirstAnswer, search_first_lem}
use rxgraph.Traversal.Run
use rxgraph.Traversal.Adapter
use rxgraph.Graph.Repo.{outgoing_slice}
use mathlib.Core.List.{zip}
use rxgraph.Traversal.Stats.{no_stats}
use rxgraph.Traversal.Arena.{PathEntry}
use rxgraph.Traversal.Search.{RunOptions, breadth_first, depth_first}
use rxgraph.Traversal.Adapter.{
  Graph, GraphPath, materialize, climb, graph_adapter, bound_kernel, eval_edge,
}
use rxgraph.Traversal.Adapter.Route.{Route, begin, onward, IsNamed, materialize_lem}
use rxgraph.Traversal.Cursor.Limits.{AtMost}
use rxgraph.Traversal.Parallel.Cursors.{
  new_cursor, choose, cursor_stats, cursor_batch, settle_serial, close_cursor,
}
use rxgraph.Traversal.Cursor
use rxgraph.Traversal.Run.{SearchOutput, search, drain_cursor}
use rxgraph.Traversal.Run.Limits.{search_lem}
use rxgraph.Traversal.Kernel.{EdgeCtx, new_cache}
use rxgraph.Traversal.Kernel.Convert.{FloatCast, as_u64, as_i64}
use rxgraph.Traversal.Kernel.Cached.{
  Side, of_src, of_dest, of_edge, cached_reads, uncached_reads, cached_reads-uncached_reads,
}
use rxgraph.Traversal.Encoder.{
  Parts, part, no_parts, of_i64, of_u64, of_i128, of_bool, of_struct, serialize, encode,
}
use rxgraph.Traversal.Encoder.Numbers.{serialize_numbers}
use rxgraph.Traversal.Encoder.Objects.{IsAscending, IsFound, last_part, encode-of_struct}
use rxgraph.Tests.Searches.{line, search_program}
use rxgraph.Tests.Expressions.{exact_float, payload, kernel, run}
use rxgraph.Tests.{diamond, diamond_identity}

abbrev one_path : RunOptions
one_path = record {
  start_nodes = num 0 ∷ [];
  max_depth = some 3;
  max_paths = some 1;
  strategy = breadth_first;
  max_visits_per_node = 1;
  parallel = false;
  intermediate_states = false;
  progress = false;
}

abbrev first_output : SearchOutput ℕ
first_output = record {
  paths = 2 ∷ [];
  stats = record no_stats {
    start_nodes = 1;
    path_entries = 3;
    evaluated_edges = 2;
    accepted_edges = 2;
    skipped_revisits = 1;
    stopped_paths = 1;
    max_depth = 2;
  };
}

searched : search line 3 3 1 one_path ≡ ok first_output
unfolding search_program search drain_cursor new_cursor choose cursor_batch settle_serial
    close_cursor cursor_stats Cursor.new
searched = refl

search_example : AtMost (some 1) (length first_output.paths)
search_example = search_lem line 3 3 1 one_path first_output searched

-- Reads of a column twice, and of one that is not there.
abbrev at_edge : EdgeCtx ℤ ℕ
at_edge = record { graph = payload; src = 0; dest = 1; edge = 0; state = 0 }

abbrev reads : List (Side × EdgeCtx ℤ ℕ × String)
reads =
    (of_src, at_edge, "weight") ∷ (of_dest, at_edge, "weight") ∷ (of_edge, at_edge, "weight") ∷ []

cached_reads_example : cached_reads reads new_cache ≡ uncached_reads reads
cached_reads_example = cached_reads-uncached_reads payload reads (refl, (refl, (refl, tt)))

instance abbrev exact_cast : FloatCast ℤ
exact_cast = record { fract = λ z. pos 0; to_u64 = λ z. 0; to_i64 = λ z. z }

serialize_numbers_example :
    Returns (serialize {F = ℤ} (λ z. "") (of_i64 (negsuc 2))) (λ v. as_i64 v ≡ ok (some (negsuc 2)))
    × Returns (serialize {F = ℤ} (λ z. "") (of_u64 7)) (λ v. as_u64 v ≡ ok (some 7))
    × Returns (serialize {F = ℤ} (λ z. "") (of_i128 (pos 9))) (λ v. as_i128 v ≡ some (pos 9))
    × (serialize {F = ℤ} (λ z. "") (of_i128 (pos word_64)) ≡ err number_too_big)
serialize_numbers_example =
    serialize_numbers (λ z. "") (negsuc 2) 7 (pos 9) (pos word_64) (omega arith) (omega arith)
      (λ h. omega arith)

-- A struct with a repeated name.
abbrev parts : Parts ℤ
parts =
    part "total" (of_u64 3) (part "done" (of_bool true) (part "total" (of_i64 (pos 4)) no_parts))

abbrev encoded : List (String × Value ℤ)
encoded = ("done", bool true) ∷ ("total", u64 4) ∷ []

encoded_run : encode (λ z. "") (of_struct parts) ≡ ok encoded
unfolding encode
encoded_run = refl

encode_example :
    IsAscending encoded
    × ((name : String) → IsFound (λ z. "") (last_part parts name) none (find_field encoded name))
encode_example = encode-of_struct (λ z. "") parts encoded encoded_run

-- An edge between the two nodes of a graph.
abbrev two_nodes : Identity
two_nodes = u64_contiguous 2 1

abbrev top : PathEntry ℕ
top = record { node = 0; incoming_edge = none; parent = none; depth = 0; state = 4; visits = [] }

abbrev below : PathEntry ℕ
below = record {
  node = 1;
  incoming_edge = some 0;
  parent = some 0;
  depth = 1;
  state = 5;
  visits = [];
}

below-Route : Route (top ∷ below ∷ []) 1 (below ∷ top ∷ [])
below-Route = onward below 0 0 refl refl refl (omega arith) (begin top refl refl refl)

top-IsNamed : IsNamed two_nodes ok num num (λ s. s) top
unfolding external_node external_edge
top-IsNamed = record { node_known = refl; edge_known = λ edge h. absurd cc; projected = refl }

below-IsNamed : IsNamed two_nodes ok num num (λ s. s) below
unfolding external_node external_edge
below-IsNamed = record {
  node_known = refl;
  edge_known = λ edge h. let same = some-injective h in rw (← same) refl;
  projected = refl;
}

materialize_example : Returns (materialize two_nodes ok (top ∷ below ∷ []) 1 true) (λ found.
    (found.nodes ≡ num 0 ∷ num 1 ∷ [])
    × (found.edges ≡ num 0 ∷ [])
    × (length found.nodes ≡ length found.edges + 1)
    × (found.state ≡ 5)
    × (found.intermediate_states ≡ some (4 ∷ 5 ∷ [])))
materialize_example =
    materialize_lem two_nodes ok num num (λ s. s) (top ∷ below ∷ []) 1 below (top ∷ []) true
      below-Route (below-IsNamed, (top-IsNamed, tt))

-- The search for the first heavy edge that ends in a red node.
abbrev red_graph : Graph ℤ
red_graph = record { repo = diamond; payloads = record payload { identity = diamond_identity } }

abbrev config : TraversalConfig ℤ
config = record {
  kernel = kernel;
  start_nodes = num 10 ∷ [];
  max_depth = none;
  max_paths = none;
  strategy = depth_first;
  max_visits_per_node = 1;
  parallel = true;
  intermediate_states = true;
  progress = false;
}

abbrev first_result : FirstResult (StateRow ℤ)
first_result = record {
  path = some (record {
    nodes = num 10 ∷ num 20 ∷ [];
    edges = num 0 ∷ [];
    state = ("total", u64 1) ∷ [];
    intermediate_states = some ((("total", u64 0) ∷ []) ∷ (("total", u64 1) ∷ []) ∷ []);
  });
  stats = record no_stats {
    start_nodes = 1;
    path_entries = 2;
    evaluated_edges = 1;
    accepted_edges = 1;
    stopped_paths = 1;
    max_depth = 1;
  };
}

found_first : search_first 3 3 1 red_graph config ≡ ok first_result
unfolding search_program run search_first Run.search drain_cursor new_cursor choose cursor_batch
    settle_serial close_cursor cursor_stats Cursor.new run_options graph_adapter bound_kernel
    Adapter.out_degree Adapter.range eval_edge materialize climb into_first popped zip
    outgoing_slice index slice new_cache Entry.search internal_node Keys.get state_row
found_first = refl

search_first_example :
    IsFirstAnswer
      (search_paths 3 3 1 red_graph
        (record config { max_paths = some 1; strategy = breadth_first; parallel = false }))
      (ok first_result)
search_first_example = subst (IsFirstAnswer _) found_first (search_first_lem 3 3 1 red_graph config)
