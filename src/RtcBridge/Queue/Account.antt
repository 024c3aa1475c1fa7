-- ===== src/RtcBridge/Queue/Account.antt =====
-- The frames that are pushed are accounted for.
use bosimao_release.Prelude.{
  ℕ, ◌+◌, List, [], ◌∷◌, ◌≡◌, refl, arith, length, length-append, ◌==◌, not, length-keep-le, Option,
  none, some, List-cases, inl, inr,
}
use bosimao_release.RtcBridge.Queue.{
  QueueEntry, AudioQueue, depth, drop_expired, make_room, new_entry, admit, push, pop_head, pop,
  flush, bump_generation, Call, push_frame, pop_frame, flush_frames, bump, step, run,
}
use bosimao_release.RtcBridge.Queue.Bounds.{length-expire}
use bosimao_release.RtcBridge.Queue.Order.{leaves, popped}

-- Where a frame can be: in the queue, popped, dropped or flushed.
abbrev accounted : AudioQueue → ℕ
accounted q = depth q + q.pops + q.drops + q.flush_dropped

abbrev pub is_push : Call → ℕ
is_push (push_frame payload tags) = 1
is_push _ = 0

abbrev pub pushes : List (ℕ × Call) → ℕ
pushes [] = 0
pushes (c ∷ cs) = is_push c.1 + pushes cs

drop_expired-accounted : (now : ℕ) (q : AudioQueue) → accounted (drop_expired now q) ≡ accounted q
unfolding drop_expired
drop_expired-accounted now q = omega (arith, length-expire q.max_frame_age_ms now q.entries)

length-make_room :
    (max_frames max_bytes size : ℕ) (es : List QueueEntry)
    → length (make_room max_frames max_bytes size es).0 + (make_room max_frames max_bytes size es).1
      ≡ length es
unfolding make_room
length-make_room max_frames max_bytes size [] = refl
length-make_room max_frames max_bytes size (e ∷ es) =
    ground (arith, length-make_room max_frames max_bytes size es)

admit-accounted : (e : QueueEntry) (q : AudioQueue) → accounted (admit e q).1 ≡ accounted q + 1
unfolding admit
admit-accounted e q = ground (
  arith,
  length-make_room q.max_frames q.max_bytes e.size q.entries,
  length-append (make_room q.max_frames q.max_bytes e.size q.entries).0 (e ∷ []),
)

pop_head-accounted : (now : ℕ) (q : AudioQueue) → accounted (pop_head now q).1 ≡ accounted q
unfolding pop_head
pop_head-accounted now q = elim (List-cases q.entries) [
  | inl empty ↦ rw (empty, pop_head) (ground arith)
  | inr (e, es, front) ↦ rw (front, pop_head) (ground arith)
]

flush-accounted : (g : Option ℕ) (q : AudioQueue) → accounted (flush g q).1 ≡ accounted q
unfolding flush
flush-accounted none q = omega arith
flush-accounted (some g) q =
    omega (arith, length-keep-le (λ (e : QueueEntry). not (e.generation == g)) q.entries)

step-accounted : (q : AudioQueue) (c : ℕ × Call) → accounted (step q c) ≡ accounted q + is_push c.1
unfolding step push pop bump_generation
step-accounted q (now, push_frame payload tags) = omega (
  arith,
  drop_expired-accounted now q,
  admit-accounted (new_entry payload tags now (drop_expired now q)) (drop_expired now q),
)
step-accounted q (now, pop_frame) =
    omega (arith, drop_expired-accounted now q, pop_head-accounted now (drop_expired now q))
step-accounted q (now, flush_frames g) = omega (arith, flush-accounted g q)
step-accounted q (now, bump) = omega (arith, flush-accounted none q)

-- The counter of pops goes on by the frames that pops return.
admit-pops : (e : QueueEntry) (q : AudioQueue) → (admit e q).1.pops ≡ q.pops
unfolding admit
admit-pops e q = ground arith

flush-pops : (g : Option ℕ) (q : AudioQueue) → (flush g q).1.pops ≡ q.pops
unfolding flush
flush-pops none q = refl
flush-pops (some g) q = refl

pop_head-pops :
    (now : ℕ) (q : AudioQueue)
    → (pop_head now q).1.pops
      ≡ q.pops + length (elim (pop_head now q).0 [ none ↦ [] | some e ↦ e.payload ∷ [] ])
unfolding pop_head
pop_head-pops now q = elim (List-cases q.entries) [
  | inl empty ↦ rw (empty, pop_head) (ground arith)
  | inr (e, es, front) ↦ rw (front, pop_head) (ground arith)
]

step-pops : (q : AudioQueue) (c : ℕ × Call) → (step q c).pops ≡ q.pops + length (leaves q c)
unfolding step push pop bump_generation drop_expired
step-pops q (now, push_frame payload tags) =
    omega (arith, admit-pops (new_entry payload tags now (drop_expired now q)) (drop_expired now q))
step-pops q (now, pop_frame) = pop_head-pops now (drop_expired now q)
step-pops q (now, flush_frames g) = omega (arith, flush-pops g q)
step-pops q (now, bump) = omega (arith, flush-pops none q)

-- The frames that pops returned over the calls, those in the queue, and those that were counted as
-- dropped or as flushed are together as many as were there before and as were pushed; and the counter of pops
-- goes on by the frames that were returned.
pub run-accounted :
    (q : AudioQueue) (cs : List (ℕ × Call))
    → (length (popped q cs) + depth (run q cs) + (run q cs).drops + (run q cs).flush_dropped
        ≡ depth q + q.drops + q.flush_dropped + pushes cs)
      × ((run q cs).pops ≡ q.pops + length (popped q cs))
unfolding run
run-accounted q [] = (omega arith, omega arith)
run-accounted q (c ∷ cs) =
    let later = run-accounted (step q c) cs in
    let both = length-append (leaves q c) (popped (step q c) cs) in
    (
      omega (arith, step-accounted q c, step-pops q c, both, later.0),
      omega (arith, step-pops q c, both, later.1),
    )
