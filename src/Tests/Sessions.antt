-- ===== src/Tests/Sessions.antt =====
-- Sessions, registries and stores at concrete inputs.
use Prim.Native.String.{String}
use rxgraph.Prelude.{
  ℕ, zero, suc, ◌≡◌, refl, false, Option, none, some, List, [], ◌∷◌, arith, if◌then◌else◌, ltb,
}
use rxgraph.Prelude.Keys
use rxgraph.Prelude.Keys.{string_key}
use rxgraph.Result.{Result, ok, err, Error, zero_batch, GraphId, already_registered}
use rxgraph.Traversal.Stats.{no_stats}
use rxgraph.Traversal.Stream.{
  BatchStream, managed_next, managed_stream, manage, deferred_stream, defer,
}
use rxgraph.Traversal.Stream.Sessions.{
  answers, until_end, exhausted, managed-until_end, deferred-until_end,
}
use rxgraph.Traversal.Registry.{
  RuntimeRegistry, KernelEntry, lock, register_kernel, try_build_kernel, build_kernel,
}
use rxgraph.Traversal.Registry.Lookup.{build_kernel-register_kernel}
use rxgraph.Traversal.Native.{native_adapter, NativePath, materialize_native}
use rxgraph.Traversal.Native.Eager.{
  new_eager, EagerGraphStore, eager_store, eager_store-graph_adapter,
}
use rxgraph.Traversal.Adapter.{Graph, GraphPath, graph_adapter}
use rxgraph.Traversal.Adapter
use rxgraph.Traversal.Native
use rxgraph.Traversal.Kernel.{PayloadCache}
use rxgraph.Traversal.Search.{SearchAdapter}
use rxgraph.Dsl.Bind.{continue, reject}
use rxgraph.Tests.{diamond, diamond_identity, diamond_endpoints, diamond-IsTopology}

-- The state counts down to the end.
pull : ℕ → ℕ → Result (Option ℕ) × ℕ
pull size zero = (ok none, zero)
pull size (suc left) = (ok (some size), left)

abbrev countdown : BatchStream ℕ ℕ
countdown = record { next_batch = pull; stats = λ left. no_stats; close = λ left. 0 }

managed-until_end_example :
    (answers (managed_stream countdown) (3 ∷ 4 ∷ 5 ∷ []) (manage countdown 1)
      ≡ until_end countdown (3 ∷ 4 ∷ 5 ∷ []) 1)
    × ((managed_next countdown 3 (record { inner = some 1; stats = no_stats })).1
        ≡ (record { inner = some 0; stats = no_stats }))
unfolding pull
managed-until_end_example = managed-until_end countdown (3 ∷ 4 ∷ 5 ∷ []) 1 3 no_stats

deferred-until_end_example :
    ((t : ℕ)
      → answers (managed_stream (deferred_stream countdown)) (3 ∷ 2 ∷ []) (defer (ok t))
        ≡ until_end countdown (3 ∷ 2 ∷ []) t)
    × ((e : Error)
        → answers (managed_stream (deferred_stream countdown)) (3 ∷ 2 ∷ []) (defer (err e))
          ≡ err e ∷ exhausted (2 ∷ []))
    × ((initialize : Result ℕ)
        → answers (managed_stream (deferred_stream countdown)) (0 ∷ 2 ∷ []) (defer initialize)
          ≡ err zero_batch ∷ exhausted (2 ∷ []))
deferred-until_end_example = deferred-until_end countdown 2 (2 ∷ []) (omega arith, tt)

-- A factory that gives its parameter, registered beside a linked one.
abbrev empty : RuntimeRegistry ℕ ℕ
empty = record { poisoned = false; entries = [] }

abbrev echoing : RuntimeRegistry ℕ ℕ
echoing = record { poisoned = false; entries = ("echo", ok) ∷ [] }

abbrev linked_kernels : List (KernelEntry ℕ ℕ)
linked_kernels = (record { name = "echo"; make = λ n. ok 0 }) ∷ []

registered : register_kernel empty "echo" ok ≡ ok echoing
unfolding register_kernel lock Keys.get Keys.insert
registered = refl

build_kernel_example :
    (build_kernel echoing linked_kernels "echo" 5 ≡ ok 5)
    × (try_build_kernel echoing linked_kernels "other" 5
        ≡ try_build_kernel empty linked_kernels "other" 5)
    × ((again : ℕ → Result ℕ)
        → register_kernel echoing "echo" again ≡ err (already_registered "echo"))
build_kernel_example =
    build_kernel-register_kernel empty echoing "echo" ok linked_kernels 5 "other"
      (λ same. let key = (string_key.beq_iff "other" "echo").1 same in cc) registered

abbrev bare_graph : Graph ℕ
bare_graph = record {
  repo = diamond;
  payloads = record { identity = diamond_identity; nodes = λ name. none; edges = λ name. none };
}

-- Edges that lead to a later node are followed.
abbrev onward : Adapter.Kernel ℕ ℕ
onward = record {
  initial_state = λ graph node. ok 0;
  transition = λ cx cache. ok (if ltb cx.src cx.dest then continue cx.dest else reject);
}

abbrev onward_native : Native.Kernel String ℕ ℕ
onward_native = record {
  initial_state = λ cx. ok 0;
  transition = λ cx. ok (if ltb cx.src cx.dest then continue cx.dest else reject);
}

abbrev names : List String
names = "a" ∷ "b" ∷ "c" ∷ "d" ∷ "e" ∷ []

abbrev amounts : List ℕ
amounts = 5 ∷ 6 ∷ 7 ∷ 8 ∷ 9 ∷ []

abbrev row_store : EagerGraphStore String ℕ
row_store = record { graph = diamond; nodes = names; edges = amounts }

built : new_eager diamond names amounts ≡ ok row_store
unfolding new_eager
built = refl

abbrev own : SearchAdapter ℕ (GraphPath ℕ) (PayloadCache ℕ)
own = graph_adapter bare_graph onward ok

abbrev eager : SearchAdapter ℕ (NativePath String ℕ ℕ) (Unit {0})
eager = native_adapter (eager_store row_store) onward_native materialize_native

eager_store_example :
    (eager.dense_node_count ≡ own.dense_node_count)
    × ((id : GraphId) → eager.resolve_node id ≡ own.resolve_node id)
    × (eager.out_degree 0 ≡ own.out_degree 0)
    × (eager.range 0 1 2 ≡ own.range 0 1 2)
eager_store_example =
    eager_store-graph_adapter bare_graph names amounts row_store onward ok onward_native
      materialize_native diamond_endpoints diamond-IsTopology built 0 1 2 (omega arith)
