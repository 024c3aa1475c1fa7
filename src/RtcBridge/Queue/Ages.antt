-- ===== src/RtcBridge/Queue/Ages.antt =====
-- No frame that has waited too long is handed out.
use bosimao_release.Prelude.{ℕ, ◌≤◌, List, [], ◌∷◌, ◌≡◌, arith, none, some, List-cases, inl, inr}
use bosimao_release.RtcBridge.Queue.{
  QueueEntry, AudioQueue, age, expire, drop_expired, pop_head, pop,
}

head_expire :
    (limit now : ℕ) (es : List QueueEntry) (e : QueueEntry) (rest : List QueueEntry)
    → (expire limit now es).0 ≡ e ∷ rest
    → age now e ≤ limit
unfolding expire
head_expire limit now [] e rest h = cc
head_expire limit now (x ∷ es) e rest h = ground (arith, head_expire limit now es e rest)

-- What `pop` hands out has waited for the budget at most; and when `pop` finds nothing, the queue
-- is left empty.
pub pop_fresh :
    (now : ℕ) (q : AudioQueue)
    → ((e : QueueEntry) → (pop now q).0 ≡ some e → age now e ≤ q.max_frame_age_ms)
      × ((pop now q).0 ≡ none → (pop now q).1.entries ≡ [])
unfolding pop pop_head drop_expired
pop_fresh now q = elim (List-cases (expire q.max_frame_age_ms now q.entries).0) [
  | inl empty ↦ (λ e h. ground arith, λ h. ground arith)
  | inr (x, rest, front) ↦ (
    λ e h. ground (arith, head_expire q.max_frame_age_ms now q.entries x rest front),
    λ h. ground arith,
  )
]
