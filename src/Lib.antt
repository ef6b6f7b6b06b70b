-- ===== src/Lib.antt =====
-- A verification of rxgraph, an in-memory property graph with path search.
--
-- A graph is built from a table of nodes and a table of edges. `Repo::from_tables`
-- (crates/rxgraph/src/graph/repo.rs) validates both, gives every external id a dense internal id,
-- and hands the edges' endpoints to `build_csr` (graph/csr.rs), which groups them by source. The
-- topology queries (graph/graph.rs) walk these rows. The search engine (traversal/engine.rs) walks
-- them too, and keeps its partial paths as entries of an arena, each with a link to its parent and
-- a small Bloom filter of the nodes on its path. At each edge it asks a kernel, an expression kernel
-- (dsl/) or a native one (traversal/kernel.rs), and makes a path of an entry that completes.
--
-- Files:
--   Prelude and its children: list, number and bit lemmas, the Boolean tests, u32 arithmetic,
--     hash maps as association lists.
--   Result: fallible code. `err` is an error value, `panic` an index out of bounds or a failed
--     `expect`, `out_of_fuel` a loop that was given too few rounds.
--   Graph/Csr: `build_csr`. Scatter is its reference, Offsets and Place its loops, Build the whole.
--   Graph/Table: Arrow's tables as a parameter, and the column readers of repo.rs and arrow.rs.
--   Graph/Identity: `Identity`. Bijection: lookups, and the compact form of an identity.
--   Graph/Preprocess: `preprocess_graph`. Rows, EdgeRows and Correct: its loops and the whole.
--   Graph/Repo: `Repo`. Outgoing: its rows and degrees.
--   Graph/Walk: the walks of graph.rs. Marking: one visit; Reach: the loop; Topology: on a repo.
--   Graph/Walk/Bounded: the walks with a depth limit. Graph/Query: the queries by external ids;
--     Path: shortest paths; Scratch: the batched queries, with its Generation; Components: weak components.
--   Traversal/Fingerprint: `VisitFingerprint`. Laws: what its filter keeps.
--   Traversal/Arena: `PathEntry`, `push_entry`, `can_visit_arena`. Trail: the path of an entry;
--     Push: new entries.
--   Traversal/Stats, Visits and Search: `SearchStats`, the visit counters, `SearchAdapter` with the
--     run's options and the evaluation of an edge. Traversal/Cursor: the resumable serial search
--     (traversal/engine/cursor.rs); Advance: its depth-first rounds; Batch: its breadth-first rounds
--     and batches; Counters, Balance and BatchBalance: its counters; Limits with its children: how
--     many paths it finds.
--   Traversal/Parallel: the cursor of parallel depth-first workers (engine/cursor/parallel.rs); Layer
--     and Cursors: the breadth-first one, and `GraphCursor`; Quota, Limits, LayerLimits and
--     BreadthLimits: how many paths they find. Traversal/Run: `search` and `search_serial`, with Begun
--     and Limits.
--   Traversal/Kernel: what a kernel reads at an edge (traversal/kernel.rs); Convert: its conversions;
--     Cached: its cache. Traversal/Adapter: the graph as the engine's adapter (traversal/algo.rs);
--     Route: `materialize`. Traversal/Config and Entry: configurations, results and the searches of
--     `Graph`, with First.
--   Traversal/Native: searches over a store of native rows (traversal/native.rs), with Eager.
--     Traversal/Registry: kernels by name, with Lookup. Traversal/Encoder: states as values
--     (state_encoder.rs), with Numbers and Objects. Traversal/Stream: batched sessions, with Sessions.
--   Dsl: the expression language (crates/rxgraph/src/dsl/). Integer and Float: its numbers. Value:
--     `Value`, with StructEq on the lookup of fields. Scalar, Texts, Structs and Lists: the
--     operators; Arguments: their arguments. Scalar/Integers: arithmetic. Lists has the children
--     Access (Windows, Steps), Sorting (Sorted), Distinct (Keyed, Sets) and Totals.
--     Arrow: values read from Arrow arrays, and Agree. Column: a column against a literal, with
--     Order, Agree and FastPath. Expr: expressions, with Shape and Build. Bound: bound columns and the
--     context of an evaluation. Eval: the evaluator, with Answers and Plain. Search: the standard
--     library's binary search, with Text and Found. Bind: kernels bound to a graph and their
--     transition, with Order, Places, Names and States.
--   Tests: runs of the model, and each theorem at a concrete input.
--
-- Numbers: `u32` additions, subtractions and casts wrap around, written out in Prelude/Words.
-- `usize` values are natural numbers: they count elements in memory. Fuel: a walk is given a round
-- for each node and one more, a depth-first walk two more than there are edges, a chunk of a cursor
-- one more than its work quantum, and the loop of `can_visit_arena` a round for each arena entry.
--
-- Integers of expressions are exact, with the wrap-around of `as` and of `i128` written out in
-- Dsl/Integer. `f64` is an interface, Dsl/Float: its operations are parameters, and its laws are that
-- equality and order do not depend on the sides, and that floats other than NaN are equal exactly if
-- their bits are, once both zeros are one. The texts of numbers and of JSON are parameters too.
-- `sort_by` is a stable sort by insertion; the order that `select_nth_unstable_by` leaves values in is
-- a parameter. `gather_every` is given a round more than there are values, and the binary search a
-- round for each value.
--
-- A whole search is given a round for each batch, and an empty chunk of a batch a round of its own:
-- these bounds are arguments. The frontier is cut into jobs in a round for each entry and each edge of
-- a quantum, and one more; an entry's path is climbed in at most a round for each arena entry.
--
-- The parallel cursors take the number of threads as an argument, and their workers in order: each
-- owns its stack and its cache, and their results are collected in order. A store of native rows, a
-- plugin's stream and a linked kernel are parameters.
--
-- Not modelled: Arrow and Parquet, whose refusal of a payload table is a parameter, the typed rows over them, the Python bindings, the boxed runners
-- of the registry, the stream over a native store, progress output, and the parser of Polars plans. A search asks its graph and
-- kernel through an adapter; the counters of a cursor after an error are left out. The caches of
-- `Repo` are computed at each use. `preprocess_u64` and `preprocess_str` are one definition over
-- their key type.
mod Prelude
pub mod Result
pub mod Graph
pub mod Traversal
pub mod Dsl
mod Tests
