-- ===== src/Traversal/Arena.antt =====
-- crates/rxgraph/src/traversal/engine.rs: the arena of path entries, and algo.rs: its paths.
pub mod Trail
pub mod Push
use rxgraph.Prelude.{
  ℕ, zero, suc, ◌+◌, Bool, true, false, ◌&&◌, Option, none, some, List, [], ◌∷◌, ◌++◌, leb, ◌==◌,
  if◌then◌else◌, length,
}
use rxgraph.Result.{Result, ok, panic, out_of_fuel, ◌>>=◌, index}
use rxgraph.Graph.Csr.{NodeId, EdgeId}
use rxgraph.Traversal.Fingerprint.{VisitFingerprint}
use rxgraph.Traversal.Fingerprint

pub record PathEntry {ℓ} (S : Type ℓ) : Type ℓ where
  pub node : NodeId
  pub incoming_edge : Option EdgeId
  pub parent : Option ℕ
  pub depth : ℕ
  pub state : S
  pub visits : VisitFingerprint

pub record EdgeEval {ℓ} (S : Type ℓ) : Type ℓ where
  pub edge : EdgeId
  pub dest : NodeId
  pub state : S
  pub stop : Bool

module _ {ℓ} {S : Type ℓ} where
  -- The entry that `initial_arena` and `start` push for a start node.
  unfoldable pub start_entry : NodeId → S → PathEntry S
  start_entry node state = record {
    node = node;
    incoming_edge = none;
    parent = none;
    depth = 0;
    state = state;
    visits = Fingerprint.for_node node;
  }

  unfoldable pub child_entry : PathEntry S → ℕ → EdgeEval S → PathEntry S
  child_entry up parent e = record {
    node = e.dest;
    incoming_edge = some e.edge;
    parent = some parent;
    depth = up.depth + 1;
    state = e.state;
    visits = Fingerprint.insert up.visits e.dest;
  }

  unfoldable pub push_entry : List (PathEntry S) → ℕ → EdgeEval S → Result (ℕ × List (PathEntry S))
  unfolding child_entry
  push_entry arena parent e = do
    up ← index arena parent
    ok (length arena, arena ++ child_entry up parent e ∷ [])

  -- `visits` after entry `e`.
  unfoldable pub tally : PathEntry S → NodeId → ℕ → ℕ
  tally e node visits = if e.node == node then visits + 1 else visits

  -- The loop of `can_visit_arena`, from `path` to its start.
  unfoldable pub walk_up : ℕ → List (PathEntry S) → ℕ → NodeId → ℕ → ℕ → Result Bool
  walk_up zero arena path node max_visits visits = out_of_fuel
  walk_up (suc fuel) arena path node max_visits visits = do
    e ← index arena path
    elim (e.node == node && leb max_visits (tally e node visits)) [
      | true ↦ ok false
      | false ↦ elim e.parent [
        | none ↦ ok true
        | some parent ↦ walk_up fuel arena parent node max_visits (tally e node visits)
      ]
    ]

  unfoldable pub can_visit_arena : List (PathEntry S) → ℕ → NodeId → ℕ → Result Bool
  unfolding walk_up
  can_visit_arena arena path node max_visits = do
    e ← index arena path
    elim (Fingerprint.might_contain e.visits node) [
      | false ↦ ok true
      | true ↦ walk_up (length arena) arena path node max_visits 0
    ]
