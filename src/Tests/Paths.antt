-- ===== src/Tests/Paths.antt =====
-- Runs of the path arena and its fingerprints, and their theorems at concrete inputs.
use rxgraph.Prelude.{ℕ, ◌≡◌, refl, true, false, List, [], ◌∷◌, ◌++◌, arith, ◌==◌, ◌||◌, zero, suc}
use rxgraph.Prelude.Keys
use rxgraph.Prelude.Keys.{HashMap, nat_key}
use rxgraph.Prelude.Bits.{has_bit}
use rxgraph.Result.{ok, Returns, index, GraphId}
use rxgraph.Graph.Csr.{NodeId, EdgeId}
use rxgraph.Graph.Identity.{u64, internal_node, external_node, external_edge}
use rxgraph.Graph.Identity.Bijection.{u64_identity_lem}
use rxgraph.Graph.Preprocess.{u64_identity}
use rxgraph.Graph.Preprocess.Rows.{IsInverse}
use rxgraph.Traversal.Fingerprint.{
  visit_hashes, insert_bit, contains_bit, insert, might_contain, for_node,
}
use rxgraph.Traversal.Fingerprint.Laws.{length-for_node, might_contain-insert}
use rxgraph.Traversal.Arena.{
  PathEntry, EdgeEval, start_entry, child_entry, push_entry, tally, walk_up, can_visit_arena,
}
use rxgraph.Traversal.Arena.Trail.{Trail, IsForest, can_visit_arena_lem}
use rxgraph.Traversal.Arena.Push.{empty-IsForest, start_entry_lem, push_entry_lem}

unfoldable pub program : Unit {0}
unfolding has_bit index visit_hashes insert_bit contains_bit insert might_contain for_node
    start_entry child_entry push_entry tally walk_up can_visit_arena
program = tt

-- Node 7, and an edge to node 8.
abbrev started : List (PathEntry ℕ)
started = start_entry 7 0 ∷ []

abbrev edge_to_8 : EdgeEval ℕ
edge_to_8 = record { edge = 3; dest = 8; state = 1; stop = false }

abbrev pushed : List (PathEntry ℕ)
pushed = started ++ child_entry (start_entry 7 0) 0 edge_to_8 ∷ []

push_started : push_entry started 0 edge_to_8 ≡ ok (1, pushed)
unfolding program
push_started = refl

revisit_pushed : can_visit_arena pushed 1 7 1 ≡ ok false
unfolding program
revisit_pushed = refl

fresh_pushed : can_visit_arena pushed 1 9 1 ≡ ok true
unfolding program
fresh_pushed = refl

-- The bits of node 8 are not both set.
filter_pushed : might_contain (for_node 7) 8 ≡ false
unfolding program
filter_pushed = refl

start_entry_example : IsForest started × Trail started 0 (7 ∷ [])
start_entry_example = start_entry_lem [] 7 0 empty-IsForest

started_lem : IsForest started × Trail started 0 (7 ∷ [])
started_lem = start_entry_lem [] 7 0 empty-IsForest

push_entry_example :
    Returns
      (push_entry started 0 edge_to_8)
      (λ r. (r.0 ≡ 1) × IsForest r.1 × Trail r.1 r.0 (8 ∷ 7 ∷ []))
push_entry_example = push_entry_lem started 0 edge_to_8 (7 ∷ []) started_lem.0 started_lem.1

can_visit_arena_example : can_visit_arena started 0 7 1 ≡ ok false
can_visit_arena_example =
    can_visit_arena_lem started 0 (7 ∷ []) 7 1 started_lem.0 started_lem.1 (omega arith)

kept : ((8 == 7) || might_contain (for_node 7) 7) ≡ true
unfolding program
kept = refl

might_contain-insert_example : might_contain (insert (for_node 7) 8) 7 ≡ true
might_contain-insert_example = might_contain-insert (for_node 7) 8 7 (length-for_node 7) kept

abbrev one_id : HashMap ℕ NodeId
one_id = (0, 0) ∷ []

one_id-IsInverse : IsInverse one_id (0 ∷ [])
unfolding Keys.get
one_id-IsInverse v zero = ground arith
one_id-IsInverse v (suc i) = ground arith

u64_identity_example :
    ((e : GraphId)
      → internal_node (u64_identity (0 ∷ []) (0 ∷ 1 ∷ []) one_id) e
        ≡ internal_node (u64 (0 ∷ []) (0 ∷ 1 ∷ []) one_id) e)
    × ((i : NodeId)
        → external_node (u64_identity (0 ∷ []) (0 ∷ 1 ∷ []) one_id) i
          ≡ external_node (u64 (0 ∷ []) (0 ∷ 1 ∷ []) one_id) i)
    × ((i : EdgeId)
        → external_edge (u64_identity (0 ∷ []) (0 ∷ 1 ∷ []) one_id) i
          ≡ external_edge (u64 (0 ∷ []) (0 ∷ 1 ∷ []) one_id) i)
u64_identity_example = u64_identity_lem (0 ∷ []) (0 ∷ 1 ∷ []) one_id one_id-IsInverse (omega arith)
