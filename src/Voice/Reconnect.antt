-- ===== src/Voice/Reconnect.antt =====
-- The reconnection of the APM bridge, with exponential backoff: backend/app/voice/apm_reconnect.py.
-- Delays are milliseconds; the outcomes of the attempts come as a list.
pub mod Bounded
use bosimao_release.Prelude.{
  ℕ, zero, suc, ◌+◌, ◌-◌, ◌*◌, ◌^◌, min, Bool, true, false, Option, none, some, List, [], ◌∷◌, ◌||◌,
  ltb, if◌then◌else◌,
}

pub record Scheduler : Type 0 where
  pub base_delay : ℕ
  pub max_delay : ℕ
  pub max_attempts : ℕ
  pub running : Bool
  pub failures : ℕ
  pub gave_up : Bool

-- `schedule`: whether a loop was started.
unfoldable pub schedule : Scheduler → Bool × Scheduler
schedule s = if s.gave_up || s.running then (false, s) else (true, record s { running = true })

unfoldable pub delay_for : Scheduler → ℕ → ℕ
delay_for s attempt = min (s.base_delay * 2 ^ (attempt - 1)) s.max_delay

-- What the loop does: it waits and tries, gives up, or is done.
pub data Event : Type 0 where
  retried : ℕ → ℕ → Event
  gave_up_event : Event
  reconnected : Event

-- The end of a loop, whose task is cleared.
abbrev pub finished : Scheduler → Scheduler
finished s = record s { running = false }

-- `_run`: its events, and the scheduler that it leaves. An outcome that is missing is that of a
-- loop that is cancelled while it waits. Fuel is one more than the attempts that are left.
unfoldable pub run_loop : ℕ → List Bool → Scheduler → List Event × Scheduler
run_loop zero outcomes s = ([], finished s)
run_loop (suc fuel) outcomes s =
    let failing = record s { failures = s.failures + 1 } in
    let next = run_loop fuel (after outcomes) failing in
    let attempt = retried failing.failures (delay_for failing failing.failures) in
    if ltb failing.max_attempts failing.failures
    then (gave_up_event ∷ [], finished (record failing { gave_up = true }))
    else elim outcomes [
      | [] ↦ (attempt ∷ [], finished failing)
      | ok ∷ _ ↦
          if ok
          then (attempt ∷ reconnected ∷ [], finished (record failing { failures = 0 }))
          else (attempt ∷ next.0, next.1)
    ]
  where
    after : List Bool → List Bool
    after [] = []
    after (_ ∷ os) = os

abbrev pub fuel_of : Scheduler → ℕ
fuel_of s = suc (s.max_attempts - s.failures)

unfoldable pub run : List Bool → Scheduler → List Event × Scheduler
run outcomes s = run_loop (fuel_of s) outcomes s
