-- ===== src/Traversal/Registry.antt =====
-- crates/rxgraph/src/traversal/registry.rs: factories of kernels by name, linked or registered at
-- run time. `J` stands for the parameters' JSON, `R` for the boxed runners that a factory makes. The
-- lock of the run-time registry may be poisoned.
pub mod Lookup
use Prim.Native.String.{String, compare as compare_str}
use rxgraph.Prelude.{Bool, true, false, Option, none, some, List, [], ◌∷◌, ◌++◌}
use rxgraph.Prelude.Keys.{HashMap, get, insert, string_key}
use rxgraph.Result.{
  Result, ok, err, panic, out_of_fuel, ◌>>=◌, registry_poisoned, already_registered, unknown_kernel,
  no_stream_support,
}
use rxgraph.Dsl.Lists.Sorting.{sort_by}
use rxgraph.Dsl.Bind.{dedup, keys}

abbrev pub MakeFn : Type 0 → Type 0 → Type 0
MakeFn J R = J → Result R

-- `KernelEntry` and `TypedKernelEntry`.
pub record KernelEntry (J R : Type 0) : Type 0 where
  pub name : String
  pub make : MakeFn J R

pub record RuntimeRegistry (J R : Type 0) : Type 0 where
  pub poisoned : Bool
  pub entries : HashMap String (MakeFn J R)

-- The default of `RunKernel::stream`, and of the streams of `RunTypedKernel`.
unfoldable pub default_stream : {T : Type 0} → Result T
default_stream = err no_stream_support

-- The kernel that is found, or an error that lists the names there are.
unfoldable pub or_unknown : {R : Type 0} → Option R → String → List String → Result R
or_unknown (some made) name names = ok made
or_unknown none name names = err (unknown_kernel name names)

module _ {J R : Type 0} where
  unfoldable pub lock : RuntimeRegistry J R → Result (HashMap String (MakeFn J R))
  lock registry = elim registry.poisoned [
    | true ↦ err registry_poisoned
    | false ↦ ok registry.entries
  ]

  unfoldable pub register_kernel :
      RuntimeRegistry J R → String → MakeFn J R → Result (RuntimeRegistry J R)
  unfolding lock
  register_kernel registry name make = do
    entries ← lock registry
    elim (get entries name) [
      | some old ↦ err (already_registered name)
      | none ↦ ok (record registry { entries = (insert entries name make).1 })
    ]

  -- The first linked entry of the name.
  unfoldable pub try_build_typed_kernel : List (KernelEntry J R) → String → J → Result (Option R)
  try_build_typed_kernel [] name params = ok none
  try_build_typed_kernel (entry ∷ linked) name params = elim (string_key.beq entry.name name) [
    | true ↦ do made ← entry.make params; ok (some made)
    | false ↦ try_build_typed_kernel linked name params
  ]

  unfoldable pub try_build_kernel :
      RuntimeRegistry J R → List (KernelEntry J R) → String → J → Result (Option R)
  unfolding lock try_build_typed_kernel
  try_build_kernel registry linked name params = do
    entries ← lock registry
    elim (get entries name) [
      | some make ↦ do made ← make params; ok (some made)
      | none ↦ try_build_typed_kernel linked name params
    ]

  unfoldable pub entry_names : List (KernelEntry J R) → List String
  entry_names [] = []
  entry_names (entry ∷ linked) = entry.name ∷ entry_names linked

  unfoldable pub runtime_names : RuntimeRegistry J R → List String
  unfolding lock keys
  runtime_names registry = elim registry.poisoned [ true ↦ [] | false ↦ keys registry.entries ]

  unfoldable pub available_names : RuntimeRegistry J R → List (KernelEntry J R) → List String
  unfolding runtime_names entry_names sort_by dedup
  available_names registry linked =
      dedup (sort_by compare_str (runtime_names registry ++ entry_names linked))

  unfoldable pub available_typed_names : List (KernelEntry J R) → List String
  unfolding entry_names sort_by dedup
  available_typed_names linked = dedup (sort_by compare_str (entry_names linked))

  unfoldable pub build_kernel : RuntimeRegistry J R → List (KernelEntry J R) → String → J → Result R
  unfolding try_build_kernel available_names or_unknown
  build_kernel registry linked name params = do
    found ← try_build_kernel registry linked name params
    or_unknown found name (available_names registry linked)

  unfoldable pub build_typed_kernel : List (KernelEntry J R) → String → J → Result R
  unfolding try_build_typed_kernel available_typed_names or_unknown
  build_typed_kernel linked name params = do
    found ← try_build_typed_kernel linked name params
    or_unknown found name (available_typed_names linked)
