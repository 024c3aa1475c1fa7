-- ===== src/RtcBridge/Queue/Bounds.antt =====
-- The queue stays within its budgets.
use bosimao_release.Prelude.{
  ℕ, ◌+◌, ◌≤◌, List, [], ◌∷◌, ◌++◌, ◌≡◌, arith, length, length-append, keep, ◌==◌, not,
  length-keep-le, Option, none, some, Bool-cases, inl, inr, ltb, Bool, String, List-cases,
}
use bosimao_release.RtcBridge.Queue.{
  QueueEntry, AudioQueue, make_queue, depth, total_size, bytes_total, expire, drop_expired,
  make_room, new_entry, admit, push, pop_head, pop, flush, bump_generation, Call, push_frame,
  pop_frame, flush_frames, bump, step, run,
}

-- The depth and the bytes are within the budgets, and the high watermark is between the depth and
-- the budget.
pub record IsBounded (q : AudioQueue) : Type 0 where
  pub frames : depth q ≤ q.max_frames
  pub bytes : bytes_total q ≤ q.max_bytes
  pub mark : q.high_watermark ≤ q.max_frames
  pub reached : depth q ≤ q.high_watermark
  pub positive : 1 ≤ q.max_frames

total_size-append :
    (es fs : List QueueEntry) → total_size (es ++ fs) ≡ total_size es + total_size fs
total_size-append [] fs = omega arith
total_size-append (e ∷ es) fs = omega (arith, total_size-append es fs)

expire_shrinks :
    (limit now : ℕ) (es : List QueueEntry)
    → (length (expire limit now es).0 + (expire limit now es).1 ≡ length es)
      × (total_size (expire limit now es).0 ≤ total_size es)
unfolding expire
expire_shrinks limit now [] = ground arith
expire_shrinks limit now (e ∷ es) = ground (arith, expire_shrinks limit now es)

pub length-expire :
    (limit now : ℕ) (es : List QueueEntry)
    → length (expire limit now es).0 + (expire limit now es).1 ≡ length es
length-expire limit now es = (expire_shrinks limit now es).0

drop_expired-IsBounded : (now : ℕ) (q : AudioQueue) → IsBounded q → IsBounded (drop_expired now q)
unfolding drop_expired
drop_expired-IsBounded now q b =
    let (shorter, smaller) = expire_shrinks q.max_frame_age_ms now q.entries in
    record {
      frames = omega (arith, shorter, b.frames);
      bytes = omega (arith, smaller, b.bytes);
      mark = b.mark;
      reached = omega (arith, shorter, b.reached);
      positive = b.positive;
    }

-- What is left has room for one more frame of the size.
make_room_fits :
    (max_frames max_bytes size : ℕ) (es : List QueueEntry)
    → 1 ≤ max_frames
    → size ≤ max_bytes
    → (length (make_room max_frames max_bytes size es).0 + 1 ≤ max_frames)
      × (total_size (make_room max_frames max_bytes size es).0 + size ≤ max_bytes)
unfolding make_room
make_room_fits max_frames max_bytes size [] one fits = ground arith
make_room_fits max_frames max_bytes size (e ∷ es) one fits =
    ground (arith, make_room_fits max_frames max_bytes size es one fits)

admit-IsBounded : (e : QueueEntry) (q : AudioQueue) → IsBounded q → IsBounded (admit e q).1
unfolding admit
admit-IsBounded e q b = elim (Bool-cases (ltb q.max_bytes e.size)) [
  | inl large ↦
      rw (large, admit)
        (record {
          frames = b.frames;
          bytes = b.bytes;
          mark = b.mark;
          reached = b.reached;
          positive = b.positive;
        })
  | inr fits ↦
      let (room, size) =
        make_room_fits q.max_frames q.max_bytes e.size q.entries b.positive (ground arith) in
      let one = length-append (make_room q.max_frames q.max_bytes e.size q.entries).0 (e ∷ []) in
      let sum =
        total_size-append (make_room q.max_frames q.max_bytes e.size q.entries).0 (e ∷ []) in
      rw (fits, admit)
        (record {
          frames = omega (arith, one, room);
          bytes = omega (arith, sum, size);
          mark = ground (arith, one, room, b.mark);
          reached = ground arith;
          positive = b.positive;
        })
]

total_size-keep-le :
    (p : QueueEntry → Bool) (es : List QueueEntry) → total_size (keep p es) ≤ total_size es
total_size-keep-le p [] = omega arith
total_size-keep-le p (e ∷ es) = ground (arith, total_size-keep-le p es)

pop_head-IsBounded : (now : ℕ) (q : AudioQueue) → IsBounded q → IsBounded (pop_head now q).1
unfolding pop_head
pop_head-IsBounded now q b = elim (List-cases q.entries) [
  | inl empty ↦ rw (empty, pop_head) b
  | inr (e, es, front) ↦
      rw (front, pop_head)
        (record {
          frames = ground (arith, b.frames);
          bytes = ground (arith, b.bytes);
          mark = b.mark;
          reached = ground (arith, b.reached);
          positive = b.positive;
        })
]

flush-IsBounded : (g : Option ℕ) (q : AudioQueue) → IsBounded q → IsBounded (flush g q).1
unfolding flush
flush-IsBounded none q b = record {
  frames = omega arith;
  bytes = omega arith;
  mark = b.mark;
  reached = omega arith;
  positive = b.positive;
}
flush-IsBounded (some g) q b =
    let fewer = length-keep-le (λ (e : QueueEntry). not (e.generation == g)) q.entries in
    let smaller = total_size-keep-le (λ (e : QueueEntry). not (e.generation == g)) q.entries in
    record {
      frames = omega (arith, fewer, b.frames);
      bytes = omega (arith, smaller, b.bytes);
      mark = b.mark;
      reached = omega (arith, fewer, b.reached);
      positive = b.positive;
    }

-- Every call keeps the budgets.
pub step-IsBounded : (q : AudioQueue) (c : ℕ × Call) → IsBounded q → IsBounded (step q c)
unfolding step push pop bump_generation
step-IsBounded q (now, push_frame payload tags) b =
    admit-IsBounded (new_entry payload tags now (drop_expired now q)) (drop_expired now q)
      (drop_expired-IsBounded now q b)
step-IsBounded q (now, pop_frame) b =
    pop_head-IsBounded now (drop_expired now q) (drop_expired-IsBounded now q b)
step-IsBounded q (now, flush_frames generation) b = flush-IsBounded generation q b
step-IsBounded q (now, bump) b =
    let flushed = flush-IsBounded none q b in
    record {
      frames = flushed.frames;
      bytes = flushed.bytes;
      mark = flushed.mark;
      reached = flushed.reached;
      positive = flushed.positive;
    }

run_keeps : (q : AudioQueue) (cs : List (ℕ × Call)) → IsBounded q → IsBounded (run q cs)
unfolding run
run_keeps q [] b = b
run_keeps q (c ∷ cs) b = run_keeps (step q c) cs (step-IsBounded q c b)

make-IsBounded :
    (max_frames max_bytes max_age : ℕ) (name : String) (q : AudioQueue)
    → make_queue max_frames max_bytes max_age name ≡ some q
    → IsBounded q
unfolding make_queue
make-IsBounded max_frames max_bytes max_age name q e = record {
  frames = ground arith;
  bytes = ground arith;
  mark = ground arith;
  reached = ground arith;
  positive = ground arith;
}

-- A queue that is made with positive budgets is, after any calls at any times, within its budget
-- of frames and of bytes, and its high watermark is at least its depth and at most the budget.
pub run-IsBounded :
    (max_frames max_bytes max_age : ℕ) (name : String) (q : AudioQueue) (cs : List (ℕ × Call))
    → make_queue max_frames max_bytes max_age name ≡ some q
    → IsBounded (run q cs)
run-IsBounded max_frames max_bytes max_age name q cs e =
    run_keeps q cs (make-IsBounded max_frames max_bytes max_age name q e)
