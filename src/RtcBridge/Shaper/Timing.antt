-- ===== src/RtcBridge/Shaper/Timing.antt =====
-- The shaper sends at the rate of its frames.
use bosimao_release.Prelude.{ℕ, ◌+◌, ◌*◌, ◌≤◌, ◌<◌, List, [], ◌∷◌, ◌≡◌, arith, some}
use bosimao_release.RtcBridge.Shaper.{idle, wait_for, sent_at}

-- The frames from number `n` on, each at its time in the table of `t0`, less the 2 ms of slack.
abbrev pub OnTime : ℕ → ℕ → ℕ → List ℕ → Type 0
OnTime frame_ms t0 n [] = Unit
OnTime frame_ms t0 n (t ∷ ts) = (t0 + n * frame_ms ≤ t + 2) × OnTime frame_ms t0 (n + 1) ts

wait_for_lem :
    (frame_ms t0 n now : ℕ)
    → let waited = wait_for frame_ms (record { t0 = some t0; n = n }) now in
      (t0 + n * frame_ms ≤ now + waited + 2)
unfolding wait_for
wait_for_lem frame_ms t0 n now = ground arith

based_OnTime :
    (frame_ms t0 n : ℕ) (nows : List ℕ)
    → OnTime frame_ms t0 n (sent_at frame_ms (record { t0 = some t0; n = n }) nows)
unfolding sent_at
based_OnTime frame_ms t0 n [] = tt
based_OnTime frame_ms t0 n (now ∷ nows) =
    (wait_for_lem frame_ms t0 n now, based_OnTime frame_ms t0 (n + 1) nows)

-- From an idle loop, the frames of a busy stretch are sent no faster than one in `frame_ms`: the
-- frame of number n goes out n times `frame_ms` after the first was popped, less 2 ms, or later.
pub sent_at-OnTime :
    (frame_ms now : ℕ) (nows : List ℕ) → OnTime frame_ms now 0 (sent_at frame_ms idle (now ∷ nows))
unfolding sent_at wait_for
sent_at-OnTime frame_ms now nows = (omega arith, based_OnTime frame_ms now 1 nows)

-- A frame that is late goes out at once, and one that is early by more than 2 ms at its time.
pub wait_for_exact :
    (frame_ms t0 n now : ℕ)
    → (t0 + n * frame_ms ≤ now → wait_for frame_ms (record { t0 = some t0; n = n }) now ≡ 0)
      × (now + 2 < t0 + n * frame_ms
          → now + wait_for frame_ms (record { t0 = some t0; n = n }) now ≡ t0 + n * frame_ms)
unfolding wait_for
wait_for_exact frame_ms t0 n now = (λ late. ground arith, λ early. ground arith)
