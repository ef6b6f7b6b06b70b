-- ===== src/Traversal/Cursor/Limits/Batches.antt =====
-- engine/cursor.rs, `Cursor::next_batch`: the size of a batch, and of all batches together.
use rxgraph.Prelude.{
  ℕ, zero, suc, ◌+◌, ◌≤◌, ◌≡◌, refl, sym, ap, subst, ◌∙◌, true, false, inl, inr, Option, none, some,
  List, [], ◌∷◌, length, arith, Bool-cases, List-cases,
}
use rxgraph.Result.{
  GraphId, Result, ok, err, panic, out_of_fuel, >>=-elim, ok-injective, or_err, unknown_start,
}
use rxgraph.Traversal.Arena.{PathEntry}
use rxgraph.Traversal.Search.{
  SearchAdapter, TraversalStrategy, breadth_first, depth_first, push_starts, initial_arena,
}
use rxgraph.Traversal.Stats.{SearchStats, no_stats}
use rxgraph.Traversal.Cursor.{Cursor, initialize, set_up, nothing_to_do, close}
use rxgraph.Traversal.Cursor.Batch.{advance, batch_loop, settle, next_batch}
use rxgraph.Traversal.Cursor.Limits.{AtMost, Within}
use rxgraph.Traversal.Cursor.Limits.Breadth.{run_strategy-Within}

-- A cursor between two batches: its limit is `most`, no more paths than that have stopped, and none
-- before it is set up.
pub record IsCapped {S C : Type 0} (most : Option ℕ) (c : Cursor S C) : Type 0 where
  pub configured : c.cfg.max_paths ≡ most
  pub allowed : AtMost most c.stats.stopped_paths
  pub fresh : c.initialized ≡ false → c.stats.stopped_paths ≡ 0

abbrev pub batch_size : {P : Type 0} → Option (List P) → ℕ
batch_size none = 0
batch_size (some paths) = length paths

-- What a batch leaves: a capped cursor, its paths counted as stopped, and no more than the limit.
abbrev pub IsEmitted :
    {S C P : Type 0} → Option ℕ → ℕ → Cursor S C → Option (List P) → Cursor S C → Type 0
IsEmitted most limit before batch after =
    IsCapped most after
    × (after.stats.stopped_paths ≡ before.stats.stopped_paths + batch_size batch)
    × (batch_size batch ≤ limit)

module _ {S P C : Type 0} (adapter : SearchAdapter S P C) (most : Option ℕ) where
  push_starts-stopped :
      (starts : List GraphId) (arena : List (PathEntry S)) (frontier : List ℕ) (stats : SearchStats)
      (r : List (PathEntry S) × List ℕ × SearchStats)
      → push_starts adapter starts arena frontier stats ≡ ok r
      → r.2.stopped_paths ≡ stats.stopped_paths
  unfolding push_starts
  push_starts-stopped [] arena frontier stats r h = rw (← ok-injective h) refl
  push_starts-stopped (external ∷ externals) arena frontier stats r h =
      >>=-elim (adapter.resolve_node external) _ h λ resolved a h1.
        >>=-elim (or_err resolved (unknown_start external)) _ h1 λ node b h2.
          >>=-elim (adapter.initial_state node) _ h2
            λ state d h3. push_starts-stopped externals _ _ _ r h3

  module _ (limit : ℕ) where
    set_up-Within :
        (strategy : TraversalStrategy) (c r : Cursor S C)
        → Within {P = P} limit 0 most c []
        → set_up adapter strategy c ≡ ok r
        → Within {P = P} limit 0 most r []
    unfolding set_up initial_arena
    set_up-Within depth_first c r p h = rw (← ok-injective h) p
    set_up-Within breadth_first c r p h =
        >>=-elim (push_starts adapter c.cfg.start_nodes [] [] no_stats) _ h λ begun a h1.
          let none_yet = push_starts-stopped c.cfg.start_nodes [] [] no_stats begun a in
          let same = p.counted ∙ sym none_yet in
          rw (← ok-injective h1) (record {
            counted = none_yet;
            fits = p.fits;
            allowed = subst (AtMost most) same p.allowed;
            configured = p.configured;
            set = p.set;
          })

    pub initialize-Within :
        (c r : Cursor S C)
        → IsCapped most c
        → initialize adapter c ≡ ok r
        → Within {P = P} limit c.stats.stopped_paths most r []
    unfolding initialize
    initialize-Within c r p h = elim (Bool-cases c.initialized) [
      | inl set ↦ rw (← ok-injective (rw (initialize, set) at h)) (record {
        counted = omega arith;
        fits = omega arith;
        allowed = p.allowed;
        configured = p.configured;
        set = set;
      })
      | inr fresh ↦
          let none_yet = p.fresh fresh in
          let begun : Cursor S C = record c {
            initialized = true;
            cache = some adapter.make_cache;
          } in
          let within : Within {P = P} limit 0 most begun [] = record {
            counted = omega (arith, none_yet);
            fits = omega arith;
            allowed = p.allowed;
            configured = p.configured;
            set = refl;
          } in
          subst (λ b. Within {P = P} limit b most r []) (sym none_yet)
            (elim (Bool-cases (nothing_to_do c.cfg.max_paths c.cfg.start_nodes)) [
              | inl idle ↦ rw (← ok-injective (rw (initialize, fresh, idle) at h)) within
              | inr busy ↦
                  set_up-Within c.cfg.strategy begun r within (rw (initialize, fresh, busy) at h)
            ])
    ]

    pub advance-Within :
        (c : Cursor S C) (r : Cursor S C × List P)
        → IsCapped most c
        → advance adapter limit c ≡ ok r
        → Within limit c.stats.stopped_paths most r.0 r.1
    unfolding advance
    advance-Within c r p h = >>=-elim (initialize adapter c) _ h λ ready a h1.
        let q = initialize-Within c ready p a in
        elim (Bool-cases ready.done) [
          | inl done ↦ rw (← ok-injective (rw done at h1)) q
          | inr active ↦
              run_strategy-Within adapter limit c.stats.stopped_paths most ready.cfg.strategy ready
                r q (rw active at h1)
        ]

    pub Within-IsCapped :
        (base : ℕ) (c : Cursor S C) (paths : List P)
        → Within limit base most c paths
        → IsCapped most c
    Within-IsCapped base c paths p = record {
      configured = p.configured;
      allowed = p.allowed;
      fresh = λ unset. absurd (let both : true ≡ false = sym p.set ∙ unset in cc);
    }

    batch_loop-IsEmitted :
        (fuel : ℕ) (c : Cursor S C) (r : Option (List P) × Cursor S C)
        → IsCapped most c
        → batch_loop adapter limit fuel c ≡ ok r
        → IsEmitted most limit c r.0 r.1
    unfolding batch_loop
    batch_loop-IsEmitted zero c r p h = absurd cc
    batch_loop-IsEmitted (suc fuel) c r p h = elim (Bool-cases c.done) [
      | inl done ↦ rw (← ok-injective (rw (batch_loop, done) at h)) (p, omega arith, omega arith)
      | inr active ↦
          >>=-elim (advance adapter limit c) _ (rw (batch_loop, active) at h) λ next a h1.
            let q = advance-Within c next p a in
            let capped = Within-IsCapped c.stats.stopped_paths next.0 next.1 q in
            elim (List-cases next.1) [
              | inl empty ↦
                  let (kept, counted, fits) =
                    batch_loop-IsEmitted fuel next.0 r capped (rw empty at h1) in
                  (kept, omega (arith, counted, q.counted, ap length empty), fits)
              | inr full ↦
                  let (path, more, shape) = full in
                  let same = ap length shape in
                  rw (← ok-injective (rw shape at h1))
                    (capped, omega (arith, q.counted, same), omega (arith, q.fits, same))
            ]
    ]

settle-IsEmitted :
    {S P C : Type 0} (most : Option ℕ) (limit : ℕ) (c : Cursor S C)
    (m : Result (Option (List P) × Cursor S C)) (batch : Option (List P))
    → ((r : Option (List P) × Cursor S C) → m ≡ ok r → IsEmitted most limit c r.0 r.1)
    → (settle c m).0 ≡ ok batch
    → IsEmitted most limit c batch (settle c m).1
unfolding settle close
settle-IsEmitted most limit c (err e) batch keeps h = absurd cc
settle-IsEmitted most limit c panic batch keeps h = absurd cc
settle-IsEmitted most limit c out_of_fuel batch keeps h = absurd cc
settle-IsEmitted most limit c (ok (found, next)) batch keeps h =
    let (kept, counted, fits) = keeps (found, next) refl in
    let same = ok-injective h in
    rw (← same) (elim (Bool-cases next.done) [
      | inl done ↦ rw done (
        record { configured = kept.configured; allowed = kept.allowed; fresh = kept.fresh },
        counted,
        fits,
      )
      | inr more ↦ rw more (kept, counted, fits)
    ])

-- For every adapter and both strategies: if no more paths have stopped than `max_paths` and
-- `next_batch` returns without an error, this is so again, the batch holds at most as many paths as
-- were asked for, and exactly as many paths have stopped since.
pub next_batch-IsEmitted :
    {S P C : Type 0} (adapter : SearchAdapter S P C) (most : Option ℕ) (fuel size : ℕ)
    (c : Cursor S C) (batch : Option (List P))
    → IsCapped most c
    → (next_batch fuel adapter size c).0 ≡ ok batch
    → IsEmitted most size c batch (next_batch fuel adapter size c).1
unfolding next_batch
next_batch-IsEmitted adapter most fuel zero c batch p h = absurd cc
next_batch-IsEmitted adapter most fuel (suc size) c batch p h =
    settle-IsEmitted most (suc size) c (batch_loop adapter (suc size) fuel c) batch
      (λ r e. batch_loop-IsEmitted adapter most (suc size) fuel c r p e) h
