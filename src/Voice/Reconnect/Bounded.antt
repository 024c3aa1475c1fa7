-- ===== src/Voice/Reconnect/Bounded.antt =====
-- The loop ends, after a bounded number of attempts, and gives up only after all of them failed.
use bosimao_release.Prelude.{
  ℕ, zero, suc, ◌+◌, ◌-◌, ◌≤◌, ◌<◌, Bool, true, false, List, [], ◌∷◌, ◌≡◌, arith, ltb, Bool-cases,
  inl, inr, ◌⊎◌, length,
}
use bosimao_release.Voice.Reconnect.{Scheduler, Event, retried, run_loop, run, fuel_of}

abbrev pub is_retry : Event → ℕ
is_retry (retried n d) = 1
is_retry _ = 0

abbrev pub retries : List Event → ℕ
retries [] = 0
retries (e ∷ es) = is_retry e + retries es

-- The loop has ended: it gave up after all its attempts, or it reconnected and starts afresh, or
-- it was cancelled while it waited.
record Ended (s : Scheduler) (outcomes : List Bool) (r : List Event × Scheduler) : Type 0 where
  pub stopped : r.1.running ≡ false
  pub bounded : retries r.0 ≤ s.max_attempts - s.failures
  pub decided :
      (r.1.gave_up ≡ true) ⊎ (r.1.failures ≡ 0) ⊎ (length outcomes < s.max_attempts - s.failures)
  pub gave_up : r.1.gave_up ≡ true → retries r.0 ≡ s.max_attempts - s.failures

abbrev failing : Scheduler → Scheduler
failing s = record s { failures = s.failures + 1 }

loop-Ended :
    (fuel : ℕ) (s : Scheduler) (outcomes : List Bool)
    → s.failures ≤ s.max_attempts
    → s.gave_up ≡ false
    → s.max_attempts - s.failures < fuel
    → Ended s outcomes (run_loop fuel outcomes s)
unfolding run_loop
loop-Ended zero s outcomes le open_yet enough = absurd (omega arith)
loop-Ended (suc fuel) s [] le open_yet enough = record {
  stopped = ground arith;
  bounded = ground arith;
  decided = ground arith;
  gave_up = ground arith;
}
loop-Ended (suc fuel) s (true ∷ outcomes) le open_yet enough = record {
  stopped = ground arith;
  bounded = ground arith;
  decided = ground arith;
  gave_up = ground arith;
}
loop-Ended (suc fuel) s (false ∷ outcomes) le open_yet enough =
    elim (Bool-cases (ltb s.max_attempts (s.failures + 1))) [
      | inl over ↦ record {
        stopped = ground arith;
        bounded = ground arith;
        decided = ground arith;
        gave_up = ground arith;
      }
      | inr within ↦
          let later = loop-Ended fuel (failing s) outcomes (ground arith) open_yet (ground arith) in
          record {
            stopped = ground (arith, later.stopped);
            bounded = ground (arith, later.bounded);
            decided = ground (arith, later.decided);
            gave_up = ground (arith, later.gave_up);
          }
    ]

-- A loop that starts with no more failures than attempts ends, whatever the attempts bring, and its
-- fuel is enough for that: it clears its task and waits no more often than the attempts that were
-- left; once it has had an outcome for each of these, it has given up or has reconnected with its
-- count at 0; and it gives up only after it used all of them.
pub run_ends :
    (s : Scheduler) (outcomes : List Bool)
    → s.failures ≤ s.max_attempts
    → s.gave_up ≡ false
    → let r = run outcomes s in
      (r.1.running ≡ false)
      × (retries r.0 ≤ s.max_attempts - s.failures)
      × ((r.1.gave_up ≡ true)
          ⊎ (r.1.failures ≡ 0)
          ⊎ (length outcomes < s.max_attempts - s.failures))
      × (r.1.gave_up ≡ true → retries r.0 ≡ s.max_attempts - s.failures)
unfolding run
run_ends s outcomes le open_yet =
    let e = loop-Ended (fuel_of s) s outcomes le open_yet (omega arith) in
    (e.stopped, e.bounded, e.decided, e.gave_up)
