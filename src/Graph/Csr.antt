-- ===== src/Graph/Csr.antt =====
-- crates/rxgraph/src/graph/csr.rs: compressed sparse rows of the outgoing edges.
pub mod Scatter
pub mod Place
pub mod Build
pub mod Offsets
use rxgraph.Prelude.{ℕ, zero, suc, ◌+◌, ◌-◌, List, [], ◌∷◌, ltb, if◌then◌else◌, length, replicate}
use rxgraph.Prelude.Words.{add_u32, to_u32, u32_max}
use rxgraph.Result.{Result, ok, err, ◌>>=◌, index, store, too_many_edges}

abbrev pub NodeId : Type 0
NodeId = ℕ

abbrev pub EdgeId : Type 0
EdgeId = ℕ

abbrev pub Endpoints : Type 0
Endpoints = NodeId × NodeId

pub record Csr : Type 0 where
  pub offsets : List ℕ
  pub edge_ids : List EdgeId
  pub dests : List NodeId

-- The first loop: `offsets[src as usize + 1] += 1`.
unfoldable pub count_sources : List Endpoints → List ℕ → Result (List ℕ)
count_sources [] offsets = ok offsets
count_sources ((src, dest) ∷ edges) offsets = do
  n ← index offsets (src + 1)
  counted ← store offsets (src + 1) (add_u32 n 1)
  count_sources edges counted

-- The second loop, with the rounds left and `i`: `offsets[i] += offsets[i - 1]`.
unfoldable pub accumulate : ℕ → ℕ → List ℕ → Result (List ℕ)
accumulate zero i offsets = ok offsets
accumulate (suc rounds) i offsets = do
  n ← index offsets i
  before ← index offsets (i - 1)
  summed ← store offsets i (add_u32 n before)
  accumulate rounds (i + 1) summed

pub record Filling : Type 0 where
  pub edge_ids : List EdgeId
  pub dests : List NodeId
  pub cursor : List ℕ

-- The third loop; `edge_id` is the position that `enumerate` gives.
unfoldable pub place : EdgeId → List Endpoints → Filling → Result Filling
place edge_id [] f = ok f
place edge_id ((src, dest) ∷ edges) f = do
  pos ← index f.cursor src
  edge_ids ← store f.edge_ids pos (to_u32 edge_id)
  dests ← store f.dests pos dest
  cursor ← store f.cursor src (add_u32 pos 1)
  place (suc edge_id) edges (record { edge_ids = edge_ids; dests = dests; cursor = cursor })

unfoldable pub build_csr : ℕ → List Endpoints → Result Csr
build_csr node_count edges =
    if ltb u32_max (length edges) then err (too_many_edges (length edges) u32_max) else do
      counts ← count_sources edges (replicate (node_count + 1) 0)
      offsets ← accumulate (length counts - 1) 1 counts
      let zeros = replicate (length edges) 0
      filled ← place 0 edges (record { edge_ids = zeros; dests = zeros; cursor = offsets })
      ok (record { offsets = offsets; edge_ids = filled.edge_ids; dests = filled.dests })
