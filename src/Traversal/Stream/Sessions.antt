-- ===== src/Traversal/Stream/Sessions.antt =====
-- crates/rxgraph/src/traversal/stream.rs: what the owner of a managed or deferred session sees.
use rxgraph.Prelude.{
  ℕ, zero, suc, ◌<◌, ◌≡◌, refl, ap, ◌∙◌, true, false, inl, inr, if◌then◌else◌, Option, none, some,
  List, [], ◌∷◌, All, Bool-cases, arith,
}
use rxgraph.Result.{Result, ok, err, panic, out_of_fuel, zero_batch, Error}
use rxgraph.Traversal.Stats.{SearchStats, no_stats}
use rxgraph.Traversal.Stream.{
  BatchStream, ends, managed_close, managed_next, managed_stream, manage, pull_inner, pull_first,
  deferred_next, deferred_stream, defer,
}

-- Pulls in turn, of the given sizes.
abbrev pub answers : {T R : Type 0} → BatchStream T R → List ℕ → T → List (Result (Option R))
answers stream [] t = []
answers stream (size ∷ sizes) t =
    let (answer, next) = stream.next_batch size t in answer ∷ answers stream sizes next

abbrev pub exhausted : {R : Type 0} → List ℕ → List (Result (Option R))
exhausted [] = []
exhausted (size ∷ sizes) = ok none ∷ exhausted sizes

-- What follows an answer: after an error or an answer with no batch nothing but the end, and else the
-- rest of the stream.
abbrev pub after_answer :
    {R : Type 0} → Result (Option R) → List ℕ → List (Result (Option R)) → List (Result (Option R))
after_answer (err e) sizes rest = exhausted sizes
after_answer (ok none) sizes rest = exhausted sizes
after_answer (ok (some batch)) sizes rest = rest
after_answer panic sizes rest = rest
after_answer out_of_fuel sizes rest = rest

-- The stream is pulled up to its first error or end, and never again.
abbrev pub until_end : {T R : Type 0} → BatchStream T R → List ℕ → T → List (Result (Option R))
until_end stream [] t = []
until_end stream (size ∷ sizes) t =
    let (answer, next) = stream.next_batch size t in
    let rest = until_end stream sizes next in answer ∷ after_answer answer sizes rest

-- The stream that is still held after an answer.
abbrev pub held_after : {T R : Type 0} → Result (Option R) → T → Option T
held_after (err e) t = none
held_after (ok none) t = none
held_after (ok (some batch)) t = some t
held_after panic t = some t
held_after out_of_fuel t = some t

module _ {R : Type 0} where
  after_answer-ended :
      (answer : Result (Option R)) (sizes : List ℕ) (rest : List (Result (Option R)))
      → ends answer ≡ true
      → after_answer answer sizes rest ≡ exhausted sizes
  unfolding ends
  after_answer-ended (err e) sizes rest h = refl
  after_answer-ended (ok none) sizes rest h = refl
  after_answer-ended (ok (some batch)) sizes rest h = absurd cc
  after_answer-ended panic sizes rest h = absurd cc
  after_answer-ended out_of_fuel sizes rest h = absurd cc

  after_answer-open :
      (answer : Result (Option R)) (sizes : List ℕ) (rest : List (Result (Option R)))
      → ends answer ≡ false
      → after_answer answer sizes rest ≡ rest
  unfolding ends
  after_answer-open (err e) sizes rest h = absurd cc
  after_answer-open (ok none) sizes rest h = absurd cc
  after_answer-open (ok (some batch)) sizes rest h = refl
  after_answer-open panic sizes rest h = refl
  after_answer-open out_of_fuel sizes rest h = refl

  held_after-ends :
      {T : Type 0} (answer : Result (Option R)) (t : T)
      → held_after answer t ≡ (if ends answer then none else some t)
  unfolding ends
  held_after-ends (err e) t = refl
  held_after-ends (ok none) t = refl
  held_after-ends (ok (some batch)) t = refl
  held_after-ends panic t = refl
  held_after-ends out_of_fuel t = refl

module _ {T R : Type 0} (stream : BatchStream T R) where
  answers-closed :
      (sizes : List ℕ) (stats : SearchStats)
      → answers (managed_stream stream) sizes (record { inner = none; stats = stats })
        ≡ exhausted sizes
  unfolding managed_stream managed_next
  answers-closed [] stats = refl
  answers-closed (size ∷ sizes) stats = ap (λ rest. ok none ∷ rest) (answers-closed sizes stats)

  next_ended :
      (size : ℕ) (t : T) (stats : SearchStats)
      → ends (stream.next_batch size t).0 ≡ true
      → (managed_next stream size (record { inner = some t; stats = stats })).1
        ≡ (record { inner = none; stats = stream.stats (stream.next_batch size t).1 })
  unfolding managed_next managed_close
  next_ended size t stats over = rw (managed_next, over) refl

  next_open :
      (size : ℕ) (t : T) (stats : SearchStats)
      → ends (stream.next_batch size t).0 ≡ false
      → (managed_next stream size (record { inner = some t; stats = stats })).1 ≡ (record {
        inner = some (stream.next_batch size t).1;
        stats = stream.stats (stream.next_batch size t).1;
      })
  unfolding managed_next managed_close
  next_open size t stats more = rw (managed_next, more) refl

  answers-open :
      (sizes : List ℕ) (t : T) (stats : SearchStats)
      → answers (managed_stream stream) sizes (record { inner = some t; stats = stats })
        ≡ until_end stream sizes t
  unfolding managed_stream managed_next
  answers-open [] t stats = refl
  answers-open (size ∷ sizes) t stats =
      let answer = stream.next_batch size t in
      elim (Bool-cases (ends answer.0)) [
        | inl over ↦ rw (after_answer-ended answer.0 sizes (until_end stream sizes answer.1) over) (
            ap (λ m. answer.0 ∷ answers (managed_stream stream) sizes m)
              (next_ended size t stats over)
            ∙ ap (λ rest. answer.0 ∷ rest) (answers-closed sizes (stream.stats answer.1)))
        | inr more ↦ rw (after_answer-open answer.0 sizes (until_end stream sizes answer.1) more) (
            ap (λ m. answer.0 ∷ answers (managed_stream stream) sizes m)
              (next_open size t stats more)
            ∙ ap (λ rest. answer.0 ∷ rest) (answers-open sizes answer.1 (stream.stats answer.1)))
      ]

  -- A managed session gives the answers of its stream up to the first error or end, and from then on
  -- it is exhausted. Each pull keeps the stream's counters after it, and releases the stream exactly
  -- if the answer is an error or the end.
  pub managed-until_end :
      (sizes : List ℕ) (t : T) (size : ℕ) (stats : SearchStats)
      → (answers (managed_stream stream) sizes (manage stream t) ≡ until_end stream sizes t)
        × ((managed_next stream size (record { inner = some t; stats = stats })).1 ≡ (record {
          inner = held_after (stream.next_batch size t).0 (stream.next_batch size t).1;
          stats = stream.stats (stream.next_batch size t).1;
        }))
  unfolding manage
  managed-until_end sizes t size stats = (
    answers-open sizes t no_stats,
    elim (Bool-cases (ends (stream.next_batch size t).0)) [
      | inl over ↦
          rw (held_after-ends (stream.next_batch size t).0 (stream.next_batch size t).1, over)
            (next_ended size t stats over)
      | inr more ↦
          rw (held_after-ends (stream.next_batch size t).0 (stream.next_batch size t).1, more)
            (next_open size t stats more)
    ],
  )

  -- A deferred stream that is set up answers as the stream, to pulls of at least one.
  until_end-set :
      (sizes : List ℕ) (t : T)
      → All (λ size. 0 < size) sizes
      → until_end (deferred_stream stream) sizes (record { initialize = none; inner = some t })
        ≡ until_end stream sizes t
  unfolding deferred_stream deferred_next pull_inner
  until_end-set [] t p = refl
  until_end-set (zero ∷ sizes) t p = absurd (omega (arith, p.0))
  until_end-set (suc size ∷ sizes) t p =
      let answer = stream.next_batch (suc size) t in
      ap (λ rest. answer.0 ∷ after_answer answer.0 sizes rest) (until_end-set sizes answer.1 p.1)

module _ {T R : Type 0} (stream : BatchStream T R) where
  -- The first pull sets the stream up.
  until_end-first :
      (size : ℕ) (sizes : List ℕ) (t : T)
      → All (λ n. 0 < n) sizes
      → until_end
          (deferred_stream stream)
          (suc size ∷ sizes)
          (record { initialize = some (ok t); inner = none })
        ≡ until_end stream (suc size ∷ sizes) t
  unfolding deferred_stream deferred_next pull_first pull_inner
  until_end-first size sizes t p =
      let answer = stream.next_batch (suc size) t in
      ap (λ rest. answer.0 ∷ after_answer answer.0 sizes rest)
        (until_end-set stream sizes answer.1 p)

  -- A deferred session that is pulled for at least one path at a time runs its initializer at the
  -- first pull: it then answers as the stream that is set up, or gives the initializer's error and
  -- is exhausted. A first pull of zero paths is an error that ends the session, whatever the
  -- initializer would give.
  pub deferred-until_end :
      (size : ℕ) (sizes : List ℕ)
      → All (λ n. 0 < n) sizes
      → ((t : T)
          → answers (managed_stream (deferred_stream stream)) (suc size ∷ sizes) (defer (ok t))
            ≡ until_end stream (suc size ∷ sizes) t)
        × ((e : Error)
            → answers (managed_stream (deferred_stream stream)) (suc size ∷ sizes) (defer (err e))
              ≡ err e ∷ exhausted sizes)
        × ((initialize : Result T)
            → answers (managed_stream (deferred_stream stream)) (0 ∷ sizes) (defer initialize)
              ≡ err zero_batch ∷ exhausted sizes)
  unfolding defer deferred_stream deferred_next pull_first ends
  deferred-until_end size sizes p = (
    (λ t.
        answers-open (deferred_stream stream) (suc size ∷ sizes) _ no_stats
        ∙ until_end-first size sizes t p),
    (λ e. answers-open (deferred_stream stream) (suc size ∷ sizes) _ no_stats),
    (λ initialize. answers-open (deferred_stream stream) (0 ∷ sizes) _ no_stats),
  )
