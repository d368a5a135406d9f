-- ===== src/Tests/Concurrency.antt =====
-- Two branches on two threads; the second one ends first.
use yabumi.Common.{
  false, ℕ, zero, suc, min, ◌-◌, ◌*◌, ◌==◌, [], ◌∷◌, some, none, ◌≡◌, refl, arith, map,
}
use yabumi.Common.Int.{pos}
use yabumi.Concurrency.{
  Par, Reach, begin, chunk_size, here, indices, par_outcome, put, send, started, step, worker,
  worker_count,
}
use yabumi.Concurrency.Order.{par_outcome-reached}
use yabumi.Eval.Flow.{Flow}
use yabumi.Eval.Panic.{Outcome, ok}
use yabumi.Eval.Value.{Value}

abbrev branch : ℕ → Value
branch i = Value.int (pos i)

abbrev results : ℕ → Outcome (Flow Value)
results i = ok (Flow.value (branch i))

abbrev initial : Par
initial = started 2 (chunk_size 2 (worker_count 2 2))

abbrev began_one : Par
began_one = record initial { workers = put 1 (worker (some 1) []) initial.workers }

abbrev began_both : Par
began_both = record began_one { workers = put 0 (worker (some 0) []) began_one.workers }

abbrev sent_one : Par
sent_one = record began_both { workers = put 1 (worker none []) began_both.workers; sent = 1 ∷ [] }

abbrev sent_both : Par
sent_both = record sent_one { workers = put 0 (worker none []) sent_one.workers; sent = 1 ∷ 0 ∷ [] }

run : Reach results initial sent_both
unfolding started indices chunk_size worker_count
run =
    step
      (step (step (step here (begin 1 1 [] refl refl)) (begin 0 0 [] refl refl)) (send 1 1 [] refl))
      (send 0 0 [] refl)

sent_both_finished : (w : ℕ) → sent_both.workers w ≡ worker none []
unfolding started indices chunk_size worker_count
sent_both_finished zero = refl
sent_both_finished (suc zero) = refl
sent_both_finished (suc (suc w)) =
    let zeroth : (suc (suc w) == 0) ≡ false = ground arith in
    let first : (suc (suc w) == 1) ≡ false = ground arith in
    let nothing : min 1 (2 - suc (suc w) * 1) ≡ 0 = omega arith in rw (zeroth, first, nothing) refl

par_outcome-reached_example : par_outcome results 2 (sent_both.sent) ≡ ok (map branch (indices 0 2))
par_outcome-reached_example =
    par_outcome-reached 2 results branch (λ i lt. refl) 2 sent_both (omega arith) (omega arith) run
      sent_both_finished
