-- ===== src/Concurrency/Order.antt =====
-- Every run of the workers gives the values of the branches in their order.
use yabumi.Common.{
  ℕ, zero, suc, ◌+◌, ◌-◌, ◌*◌, ◌<◌, ◌≤◌, ◌==◌, min, Bool, true, false, ◌||◌, List, [], ◌∷◌, Option,
  some, none, ◌≡◌, refl, sym, ap, ◌∙◌, arith, Bool-cases, inl, inr, map, ==_iff, ◌⊎◌, ltb, ltb→lt,
}
use native.Mathlib.Nat.{div-eq-sub-div}
use yabumi.Concurrency.{
  chunk_size, worker_count, Worker, worker, Par, put, started, Step, begin, stop, send, Reach, here,
  step, par_outcome, indices,
}
use yabumi.Concurrency.Slots.{mem, mem-append, par_outcome-in_order}
use yabumi.Eval.Flow.{Flow}
use yabumi.Eval.Panic.{Outcome, ok}
use yabumi.Eval.Value.{Value}

abbrev current : Option ℕ → ℕ → Bool
current none i = false
current (some j) i = j == i

-- The worker has still to send the message of the branch.
abbrev pub holds : Worker → ℕ → Bool
holds (worker now rest) i = current now i || mem i rest

mem-indices_iff :
    (i base count : ℕ)
    → (mem i (indices base count) ≡ true → (base ≤ i) × (i < base + count))
      × (base ≤ i → i < base + count → mem i (indices base count) ≡ true)
unfolding indices
mem-indices_iff i base zero = (λ h. cc, λ le lt. absurd (omega arith))
mem-indices_iff i base (suc count) =
    let (to, from) = mem-indices_iff i (suc base) count in
    (λ h. ground (arith, to), λ le lt. ground (arith, from))

chunk_size-positive :
    (n parallelism : ℕ) → 0 < n → 0 < parallelism → 0 < chunk_size n (worker_count n parallelism)
unfolding chunk_size worker_count
chunk_size-positive n parallelism some_branch some_thread =
    let k = min n parallelism in
    let step = div-eq-sub-div {m = k} {n = n + (k - 1)} (omega arith) (omega arith) in
    omega (arith, step)

-- The worker whose chunk has the branch.
chunk_of : (size i : ℕ) → 0 < size → (w : ℕ) × (w * size ≤ i) × (i < w * size + size)
chunk_of size zero h = (0, ground arith, ground arith)
chunk_of size (suc i) h =
    let (w, le, below) = chunk_of size i h in
    elim (Bool-cases (ltb (suc i) (w * size + size))) [
      | inl e ↦ (w, omega arith, ltb→lt _ _ e)
      | inr e ↦ (suc w, grind arith, grind arith)
    ]

module _ (w : ℕ) (state : Worker) (workers : ℕ → Worker) where
  put_here : (v : ℕ) → (v == w) ≡ true → (put w state workers v ≡ state) × (workers v ≡ workers w)
  put_here v e = (rw e refl, ap workers ((==_iff v w).0 e))

  put_there : (v : ℕ) → (v == w) ≡ false → put w state workers v ≡ workers v
  put_there v e = rw e refl

-- A worker that begins a branch holds what it held.
holds-begin :
    (workers : ℕ → Worker) (w i : ℕ) (rest : List ℕ)
    → workers w ≡ worker none (i ∷ rest)
    → (v j : ℕ) → holds (put w (worker (some i) rest) workers v) j ≡ holds (workers v) j
holds-begin workers w i rest e v j = elim (Bool-cases (v == w)) [
  | inl q ↦ let (new, old) = put_here w (worker (some i) rest) workers v q in rw (new, old, e) refl
  | inr q ↦ ap (λ x. holds x j) (put_there w (worker (some i) rest) workers v q)
]

-- A worker that sends a message holds what it held but the branch.
holds-send :
    (workers : ℕ → Worker) (w i : ℕ) (rest : List ℕ)
    → workers w ≡ worker (some i) rest
    → (v j : ℕ)
    → (holds (put w (worker none rest) workers v) j ≡ true → holds (workers v) j ≡ true)
      × (holds (workers v) j ≡ true
          → (i == j) ≡ false
          → holds (put w (worker none rest) workers v) j ≡ true)
holds-send workers w i rest e v j = elim (Bool-cases (v == w)) [
  | inl q ↦
      let (new, old) = put_here w (worker none rest) workers v q in
      rw (new, old, e) (λ h. ground arith, λ h other. ground arith)
  | inr q ↦ rw (put_there w (worker none rest) workers v q) (λ h. h, λ h other. h)
]

module _ (n : ℕ) (results : ℕ → Outcome (Flow Value)) (vs : ℕ → Value)
    (value : (i : ℕ) → i < n → results i ≡ ok (Flow.value (vs i))) where
  -- What holds in every run: no branch is lost, no flag is set, and there are no other branches.
  record Complete (s : Par) : Type 0 where
    accounted : (i : ℕ) → i < n → (mem i s.sent ≡ true) ⊎ ((w : ℕ) × (holds (s.workers w) i ≡ true))
    going : s.cancelled ≡ false
    known : (i : ℕ) → mem i s.sent ≡ true → i < n
    bounded : (w i : ℕ) → holds (s.workers w) i ≡ true → i < n

  started-Complete : (size : ℕ) → 0 < size → Complete (started n size)
  unfolding started
  started-Complete size h = record {
    accounted = λ i lt.
        let (w, le, below) = chunk_of size i h in
        inr (w, (mem-indices_iff i (w * size) (min size (n - w * size))).1 le (omega arith));
    going = refl;
    known = λ i m. cc;
    bounded = λ w i m.
        let (le, below) = (mem-indices_iff i (w * size) (min size (n - w * size))).0 m in
        omega arith;
  }

  Step-Complete : {s t : Par} → Step results s t → Complete s → Complete t
  Step-Complete {s = s} (begin w i rest e running) c = record {
    accounted = λ j lt. elim (c.accounted j lt) [
      | inl m ↦ inl m
      | inr (v, h) ↦ inr (v, holds-begin s.workers w i rest e v j ∙ h)
    ];
    going = c.going;
    known = c.known;
    bounded = λ v j h. c.bounded v j (sym (holds-begin s.workers w i rest e v j) ∙ h);
  }
  Step-Complete {s = s} (stop w i rest e stopped) c = let h = c.going in cc
  Step-Complete {s = s} (send w i rest e) c =
      let below : i < n = c.bounded w i (rw e (ground arith)) in
      record {
        accounted = λ j lt. elim (c.accounted j lt) [
          | inl m ↦ inl (rw (mem-append j s.sent (i ∷ [])) (ground arith))
          | inr (v, h) ↦ elim (Bool-cases (i == j)) [
            | inl q ↦ inl (rw (mem-append j s.sent (i ∷ []), q) (ground arith))
            | inr q ↦ inr (v, (holds-send s.workers w i rest e v j).1 h q)
          ]
        ];
        going = rw (value i below) c.going;
        known = λ j m.
            let there : (mem j s.sent || mem j (i ∷ [])) ≡ true =
              sym (mem-append j s.sent (i ∷ [])) ∙ m in
            ground (arith, c.known j);
        bounded = λ v j h. c.bounded v j ((holds-send s.workers w i rest e v j).0 h);
      }

  Reach-Complete : {s t : Par} → Reach results s t → Complete s → Complete t
  Reach-Complete here c = c
  Reach-Complete (step r st) c = Step-Complete st (Reach-Complete r c)

  -- Where there are branches and every branch gives a value: whatever number of threads the system offers,
  -- and however the workers are interleaved, once no worker has a branch left, the messages in the order in
  -- which they came make `par` give the values in the order of the branches.
  pub par_outcome-reached :
      (parallelism : ℕ) (s : Par)
      → 0 < n
      → 0 < parallelism
      → Reach results (started n (chunk_size n (worker_count n parallelism))) s
      → ((w : ℕ) → s.workers w ≡ worker none [])
      → par_outcome results n s.sent ≡ ok (map vs (indices 0 n))
  par_outcome-reached parallelism s some_branch some_thread reached finished =
      let c = Reach-Complete reached (
        started-Complete (chunk_size n (worker_count n parallelism))
          (chunk_size-positive n parallelism some_branch some_thread)) in
      par_outcome-in_order vs n results value s.sent c.known (λ i lt. elim (c.accounted i lt) [
        | inl m ↦ m
        | inr (w, h) ↦ let held = ap (λ x. holds x i) (finished w) in cc
      ])
