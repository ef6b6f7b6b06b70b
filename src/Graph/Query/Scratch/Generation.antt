-- ===== src/Graph/Query/Scratch/Generation.antt =====
-- A new generation makes every node unvisited, also when the counter starts again.
use rxgraph.Prelude.{
  ℕ, zero, suc, ◌+◌, ◌≤◌, ◌<◌, ◌≡◌, refl, List, [], ◌∷◌, inl, inr, arith, ◌==◌, Bool-cases, length,
  length-replicate, replicate, All,
}
use rxgraph.Prelude.Words.{u32_max}
use rxgraph.Graph.Query.Scratch.{TopologyScratch, new, next_generation}

All-replicate : (n k m : ℕ) → k < m → All (λ x. x < m) (replicate n k)
All-replicate zero k m h = tt
All-replicate (suc n) k m h = (h, All-replicate n k m h)

All-suc : (xs : List ℕ) (g : ℕ) → All (λ x. x ≤ g) xs → All (λ x. x < g + 1) xs
All-suc [] g h = tt
All-suc (x ∷ xs) g h = (omega (arith, h.0), All-suc xs g h.1)

-- No stamp is newer than the generation, which is a `u32`.
pub record IsStamped (s : TopologyScratch) : Type 0 where
  pub small : s.generation ≤ u32_max
  pub old : All (λ stamp. stamp ≤ s.generation) s.visited

All-zero : (n : ℕ) → All (λ x. x ≤ 0) (replicate n 0)
All-zero zero = tt
All-zero (suc n) = (omega arith, All-zero n)

pub new-IsStamped : (node_count : ℕ) → IsStamped (new node_count)
unfolding new
new-IsStamped node_count = record { small = omega arith; old = All-zero node_count }

-- On a scratch none of whose stamps is newer than its generation, the next generation is a `u32`,
-- every stamp is older than it, and the number of stamps is kept.
pub next_generation_lem :
    (s : TopologyScratch)
    → IsStamped s
    → ((next_generation s).generation ≤ u32_max)
      × All (λ stamp. stamp < (next_generation s).generation) (next_generation s).visited
      × (length (next_generation s).visited ≡ length s.visited)
unfolding next_generation
next_generation_lem s h = elim (Bool-cases (s.generation == u32_max)) [
  | inl last ↦
      rw (next_generation, last)
        (
          omega arith,
          All-replicate (length s.visited) 0 1 (omega arith),
          length-replicate {A = ℕ} (length s.visited) 0,
        )
  | inr more ↦
      let below : s.generation + 1 ≤ u32_max = ground (arith, h.small) in
      rw (next_generation, more) (below, All-suc s.visited s.generation h.old, refl)
]
