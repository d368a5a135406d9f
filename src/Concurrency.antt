-- ===== src/Concurrency.antt =====
-- src/concurrency/mod.rs: the worker threads of `eval_par_list` and what the main thread makes of their
-- messages. What a branch evaluates to is a parameter; what the threads do to the world is Eval.Run's.
pub mod Slots
pub mod Order
use yabumi.Common.{
  ℕ, zero, suc, ◌+◌, ◌-◌, ◌*◌, ◌/◌, ◌==◌, min, Bool, true, false, ◌||◌, List, [], ◌∷◌, ◌++◌, all,
  set, Option, some, none, if◌then◌else◌, ◌≡◌,
}
use yabumi.Eval.Flow.{Flow}
use yabumi.Eval.Panic.{Outcome, ok, abort, unreachable, ◌>>=◌}
use yabumi.Eval.Value.{Value}

-- `parallelism` is what the system offers.
unfoldable pub worker_count : ℕ → ℕ → ℕ
worker_count item_count parallelism = min item_count parallelism

-- `n.div_ceil(workers)`
unfoldable pub chunk_size : ℕ → ℕ → ℕ
chunk_size n workers = (n + (workers - 1)) / workers

unfoldable pub indices : ℕ → ℕ → List ℕ
indices base zero = []
indices base (suc count) = base ∷ indices (suc base) count

-- The branch that a worker evaluates, and those that it has still to take.
pub data Worker : Type 0 where
  worker : Option ℕ → List ℕ → Worker

-- The workers by their number, the flag `cancelled`, and the branches whose messages were sent, in order.
pub record Par : Type 0 where
  pub workers : ℕ → Worker
  pub cancelled : Bool
  pub sent : List ℕ

-- Each worker has a chunk of the branches.
unfoldable pub started : ℕ → ℕ → Par
unfolding indices
started n size = record {
  workers = λ w. worker none (indices (w * size) (min size (n - w * size)));
  cancelled = false;
  sent = [];
}

abbrev pub put : ℕ → Worker → (ℕ → Worker) → ℕ → Worker
put w state workers v = if v == w then state else workers v

abbrev pub is_some : Option Value → Bool
is_some none = false
is_some (some v) = true

module _ (results : ℕ → Outcome (Flow Value)) where
  abbrev pub is_err : Outcome (Flow Value) → Bool
  is_err (abort fault) = true
  is_err _ = false

  -- A worker begins its next branch, or stops if the flag is set; at the end of a branch it sets the flag
  -- on an abort and sends its message.
  pub data Step (s : Par) : Par → Type 0 where
    begin :
        (w i : ℕ) (rest : List ℕ)
        → s.workers w ≡ worker none (i ∷ rest)
        → s.cancelled ≡ false
        → Step s (record s { workers = put w (worker (some i) rest) s.workers })
    stop :
        (w i : ℕ) (rest : List ℕ)
        → s.workers w ≡ worker none (i ∷ rest)
        → s.cancelled ≡ true
        → Step s (record s { workers = put w (worker none []) s.workers })
    send :
        (w i : ℕ) (rest : List ℕ)
        → s.workers w ≡ worker (some i) rest
        → Step s (record {
          workers = put w (worker none rest) s.workers;
          cancelled = is_err (results i) || s.cancelled;
          sent = s.sent ++ i ∷ [];
        })

  pub data Reach (s : Par) : Par → Type 0 where
    here : Reach s s
    step : {t u : Par} → Reach s t → Step t u → Reach s u

  -- One message: a value goes to its slot, and the loop ends when all have one.
  abbrev pub on_message :
      Outcome (Flow Value)
      → ℕ
      → List (Option Value)
      → (List (Option Value) → Outcome (List (Option Value)))
      → Outcome (List (Option Value))
  on_message (ok (Flow.value v)) i slots loop =
      let filled = set slots i (some v) in if all is_some filled then ok filled else loop filled
  on_message (ok (Flow.return v)) i slots loop = unreachable
  on_message (abort fault) i slots loop = abort fault
  on_message unreachable i slots loop = unreachable

  -- The loop over the messages, in the order in which they come.
  unfoldable pub receive : List ℕ → List (Option Value) → Outcome (List (Option Value))
  receive [] slots = ok slots
  receive (i ∷ rest) slots = on_message (results i) i slots (receive rest)

unfoldable pub empty_slots : ℕ → List (Option Value)
empty_slots zero = []
empty_slots (suc n) = none ∷ empty_slots n

unfoldable pub collected : List (Option Value) → Outcome (List Value)
collected [] = ok []
collected (none ∷ slots) = unreachable
collected (some v ∷ slots) = collected slots >>= λ vs. ok (v ∷ vs)

-- What `par` gives for the messages in the order in which they came.
unfoldable pub par_outcome : (ℕ → Outcome (Flow Value)) → ℕ → List ℕ → Outcome (List Value)
unfolding receive empty_slots collected
par_outcome results n messages = receive results messages (empty_slots n) >>= collected
