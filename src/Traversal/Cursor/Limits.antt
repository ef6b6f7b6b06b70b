-- ===== src/Traversal/Cursor/Limits.antt =====
-- How many paths a search finds: an accepted edge adds one path at most, and only while there is room
-- for it.
pub mod Edges
pub mod Depth
pub mod Breadth
pub mod Batches
use rxgraph.Prelude.{
  ℕ, ◌+◌, ◌≤◌, ◌<◌, ◌≡◌, refl, subst, ap, ◌∙◌, Bool, true, false, not, ◌&&◌, inl, inr, Option, none,
  some, List, [], ◌∷◌, arith, leb, ltb, ltb→lt, length, length-append, Bool-cases, Option-cases,
}
use rxgraph.Result.{Result, ok, >>=-elim, ok-injective, or_panic, index}
use rxgraph.Graph.Csr.{NodeId, EdgeId}
use rxgraph.Traversal.Arena.{PathEntry, EdgeEval, push_entry, can_visit_arena}
use rxgraph.Traversal.Stats.{SearchStats}
use rxgraph.Traversal.Search.{SearchAdapter, RunConfig, eval_arena_edge}
use rxgraph.Traversal.Cursor.{Cursor, pop, Turn, accept, at_limit}
use rxgraph.Traversal.Cursor.Batch.{bfs_edge, take_answer}
use rxgraph.Traversal.Cursor.Advance.{dfs_edge, next_edge, visit_range}
use rxgraph.Traversal.Visits.{count}

-- `max_paths` reached or not.
abbrev pub AtMost : Option ℕ → ℕ → Type 0
AtMost none n = Unit
AtMost (some most) n = n ≤ most

abbrev pub Below : Option ℕ → ℕ → Type 0
Below none n = Unit
Below (some most) n = n < most

Below-AtMost : (most : Option ℕ) (n : ℕ) → Below most n → AtMost most n
Below-AtMost none n h = tt
Below-AtMost (some most) n h = omega arith

pub Below-AtMost_one : (most : Option ℕ) (n : ℕ) → Below most n → AtMost most (n + 1)
Below-AtMost_one none n h = tt
Below-AtMost_one (some most) n h = omega arith

-- A chunk of at most `limit` paths, begun after `base` paths, under a limit of `most` paths in all:
-- the paths stopped so far, the configured limit, whether the cursor is set up, the paths found.
pub record IsWithin (limit base : ℕ) (most : Option ℕ) (stopped : ℕ) (asked : Option ℕ)
    (begun : Bool) (found : ℕ) : Type 0 where
  pub counted : stopped ≡ base + found
  pub fits : found ≤ limit
  pub allowed : AtMost most stopped
  pub configured : asked ≡ most
  pub set : begun ≡ true

-- The same, with room for one path more.
pub record HasRoom (limit base : ℕ) (most : Option ℕ) (stopped : ℕ) (asked : Option ℕ)
    (begun : Bool) (found : ℕ) : Type 0 where
  pub counted : stopped ≡ base + found
  pub fits : found < limit
  pub allowed : Below most stopped
  pub configured : asked ≡ most
  pub set : begun ≡ true

Below-at_limit :
    {S C : Type 0} (most : Option ℕ) (c : Cursor S C)
    → c.cfg.max_paths ≡ most
    → at_limit c ≡ false
    → Below most c.stats.stopped_paths
unfolding at_limit
Below-at_limit most c same below = elim (Option-cases most) [
  | inl unlimited ↦ rw unlimited tt
  | inr limited ↦
      let (n, shape) = limited in
      let test : leb n c.stats.stopped_paths ≡ false = rw (at_limit, same ∙ shape) at below in
      rw shape (ground arith)
]

module _ {S C P : Type 0} (limit base : ℕ) (most : Option ℕ) where
  abbrev pub Within : Cursor S C → List P → Type 0
  Within c paths =
      IsWithin limit base most c.stats.stopped_paths c.cfg.max_paths c.initialized (length paths)

  abbrev pub Room : Cursor S C → List P → Type 0
  Room c paths =
      HasRoom limit base most c.stats.stopped_paths c.cfg.max_paths c.initialized (length paths)

  pub Room-Within : (c : Cursor S C) (paths : List P) → Room c paths → Within c paths
  Room-Within c paths room = record {
    counted = room.counted;
    fits = omega (arith, room.fits);
    allowed = Below-AtMost most c.stats.stopped_paths room.allowed;
    configured = room.configured;
    set = room.set;
  }

  -- The tests of a loop leave room.
  pub Within-Room :
      (c : Cursor S C) (paths : List P)
      → Within c paths
      → ltb (length paths) limit ≡ true
      → at_limit c ≡ false
      → Room c paths
  Within-Room c paths within less below = record {
    counted = within.counted;
    fits = ltb→lt (length paths) limit less;
    allowed = Below-at_limit most c within.configured below;
    configured = within.configured;
    set = within.set;
  }

  -- What a visit answers: it goes on only if there is room.
  abbrev pub Visited : Bool × Turn S C P → Type 0
  Visited r = Within r.1.cursor r.1.paths × (r.0 ≡ true → Room r.1.cursor r.1.paths)

  Visited-test :
      (t : Turn S C P)
      → Within t.cursor t.paths
      → Visited (ltb (length t.paths) limit && not (at_limit t.cursor), t)
  Visited-test t within = (
    within,
    (λ goes_on. elim (Bool-cases (ltb (length t.paths) limit)) [
      | inr full ↦ absurd (let stops = rw full at goes_on in cc)
      | inl less ↦ elim (Bool-cases (at_limit t.cursor)) [
        | inl reached ↦ absurd (let stops = rw (less, reached) at goes_on in cc)
        | inr below ↦ Within-Room t.cursor t.paths within less below
      ]
    ]),
  )
