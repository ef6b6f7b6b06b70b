-- ===== src/Traversal/Visits.antt =====
-- crates/rxgraph/src/traversal/engine.rs and engine/cursor.rs: the counters of the nodes on the
-- current path, as a bit set, a vector or a map.
use rxgraph.Prelude.{
  ℕ, ◌+◌, ◌-◌, ◌/◌, ◌%◌, ◌^◌, Option, none, some, List, [], ◌∷◌, ◌==◌, if◌then◌else◌, bit_or,
}
use rxgraph.Prelude.Bits.{has_bit}
use rxgraph.Prelude.Keys.{HashMap, nat_key, get, insert}
use rxgraph.Result.{Result, ok, ◌>>=◌, or_panic, index, store}
use rxgraph.Graph.Csr.{NodeId}

pub data Visits : Type 0 where
  bits : List ℕ → Visits
  dense : List ℕ → Visits
  sparse : HashMap NodeId ℕ → Visits

unfoldable pub count_of : Option ℕ → ℕ
count_of none = 0
count_of (some n) = n

-- `HashMap::remove`.
unfoldable pub remove : HashMap NodeId ℕ → NodeId → HashMap NodeId ℕ
remove [] node = []
remove ((n, c) ∷ counts) node =
    if n == node then remove counts node else (n, c) ∷ remove counts node

unfoldable pub count : Visits → NodeId → Result ℕ
unfolding count_of
count (bits words) node = do
  word ← index words (node / 64)
  ok (if has_bit word (node % 64) then 1 else 0)
count (dense counts) node = index counts node
count (sparse counts) node = ok (count_of (get counts node))

unfoldable pub increment : Visits → NodeId → Result Visits
unfolding count_of
increment (bits words) node = do
  word ← index words (node / 64)
  set ← store words (node / 64) (bit_or word (2 ^ (node % 64)))
  ok (bits set)
increment (dense counts) node = do
  n ← index counts node
  set ← store counts node (n + 1)
  ok (dense set)
increment (sparse counts) node = ok (sparse (insert counts node (count_of (get counts node) + 1)).1)

-- `usize` subtraction of one, which wraps below 0.
unfoldable pub less_one : ℕ → ℕ
less_one n = (n + (2 ^ 64 - 1)) % 2 ^ 64

-- `v & !(1 << k)` takes the bit away where it is set.
unfoldable pub decrement : Visits → NodeId → Result Visits
unfolding remove less_one
decrement (bits words) node = do
  word ← index words (node / 64)
  set ← store words (node / 64) (if has_bit word (node % 64) then word - 2 ^ (node % 64) else word)
  ok (bits set)
decrement (dense counts) node = do
  n ← index counts node
  set ← store counts node (less_one n)
  ok (dense set)
decrement (sparse counts) node = do
  n ← or_panic (get counts node)
  ok (sparse (if less_one n == 0 then remove counts node else (insert counts node (less_one n)).1))
