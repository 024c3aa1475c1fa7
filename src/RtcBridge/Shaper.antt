-- ===== src/RtcBridge/Shaper.antt =====
-- The downlink shaper: backend/rtc_bridge/shaper.py. Times are milliseconds.
pub mod Ordered
pub mod Fresh
pub mod Timing
use bosimao_release.Prelude.{
  ℕ, zero, suc, ◌+◌, ◌-◌, ◌*◌, String, Bool, true, false, Option, none, some, List, [], ◌∷◌, ◌++◌,
  ltb, if◌then◌else◌, length,
}
use bosimao_release.RtcBridge.Queue as Queue
use bosimao_release.RtcBridge.Queue.{Bytes, QueueEntry, AudioQueue, Tags, Metrics, depth}
use bosimao_release.RtcBridge.Frames as Frames
use bosimao_release.RtcBridge.Frames.{FrameBuffer}

pub record Shaper : Type 0 where
  pub buffer : FrameBuffer
  pub queue : AudioQueue
  pub closed : Bool
  pub reply_id : String
  pub frame_seq : ℕ
  pub last_push : ℕ
  pub frame_ms : ℕ

-- `begin_reply`
abbrev pub begin_reply : String → Shaper → Shaper
begin_reply reply s = record s { reply_id = reply; frame_seq = 0 }

abbrev pub queued_frames : Shaper → ℕ
queued_frames s = depth s.queue

abbrev pub reply_tags : Shaper → Option ℕ → Tags
reply_tags s src = record {
  generation = none;
  reply_id = s.reply_id;
  frame_seq = some s.frame_seq;
  src_seq = src;
}

-- The loop of `push` over the frames of a chunk, all at one time.
unfoldable pub enqueue : List Bytes → Option ℕ → ℕ → Shaper → Shaper
enqueue [] src now s = s
enqueue (f ∷ fs) src now s = enqueue fs src now (record s {
  frame_seq = s.frame_seq + 1;
  queue = (Queue.push f (reply_tags s src) now s.queue).1;
})

unfoldable pub push : Bytes → Option ℕ → ℕ → Shaper → Shaper
push pcm src now s =
    if s.closed
    then s
    else (let (frames, b) = Frames.feed pcm src s.buffer in
        enqueue frames src now (record s { buffer = b; last_push = now }))

-- The frames of `flush_tail`, with no trace.
unfoldable pub enqueue_tail : List Bytes → ℕ → Shaper → Shaper
enqueue_tail [] now s = s
enqueue_tail (f ∷ fs) now s =
    enqueue_tail fs now (record s { queue = (Queue.push f Queue.no_tags now s.queue).1 })

unfoldable pub flush_tail : ℕ → Shaper → Shaper
flush_tail now s =
    let (frames, b) = Frames.flush_tail s.buffer in
    enqueue_tail frames now (record s { buffer = b })

-- `reset`, on a barge-in or when the remote side comes back.
unfoldable pub reset : Shaper → Shaper
reset s = record s { queue = (Queue.flush none s.queue).1; buffer = Frames.reset s.buffer }

pub record ShaperMetrics : Type 0 where
  pub queue : Metrics
  pub down_tail_dropped_bytes : ℕ
  pub down_total_frames : ℕ

abbrev pub metrics : Shaper → ShaperMetrics
metrics s = record {
  queue = Queue.metrics s.queue;
  down_tail_dropped_bytes = s.buffer.tail_dropped_bytes;
  down_total_frames = s.buffer.total_frames;
}

-- `stop`; the task that it cancels sends nothing more.
unfoldable pub stop : ℕ → Shaper → Shaper
stop now s = if s.closed then s else flush_tail now (record s { closed = true })

-- What `_run` sends.
pub record DownFrame : Type 0 where
  pub payload : Bytes
  pub reply_id : String
  pub frame_seq : Option ℕ
  pub src_seq : Option ℕ
  pub enq_mono : ℕ
  pub generation : ℕ

abbrev pub down_frame : QueueEntry → DownFrame
down_frame e = record {
  payload = e.payload;
  reply_id = e.reply_id;
  frame_seq = e.frame_seq;
  src_seq = e.src_seq;
  enq_mono = e.created_at;
  generation = e.generation;
}

-- The timetable of `_run`: the base, once there is one, and the number of the next frame.
pub record Pace : Type 0 where
  pub t0 : Option ℕ
  pub n : ℕ

abbrev pub idle : Pace
idle = record { t0 = none; n = 0 }

-- The base that a frame popped at `now` is timed from, and its number.
abbrev pub based : Pace → ℕ → ℕ × ℕ
based p now = elim p.t0 [ none ↦ (now, 0) | some t ↦ (t, p.n) ]

-- How long to sleep before the frame goes out: not at all within 2 ms of its time or after it.
unfoldable pub wait_for : ℕ → Pace → ℕ → ℕ
wait_for frame_ms p now =
    let (t0, n) = based p now in
    let target = t0 + n * frame_ms in if ltb (now + 2) target then target - now else 0

abbrev pub next_pace : Pace → ℕ → Pace
next_pace p now = (let (t0, n) = based p now in record { t0 = some t0; n = n + 1 })

-- What the loop does with what it popped.
abbrev pub answer : Option QueueEntry → ℕ → Pace → Shaper → Option (DownFrame × ℕ) × Pace × Shaper
answer none now p s = (none, idle, s)
answer (some e) now p s = (some (down_frame e, wait_for s.frame_ms p now), next_pace p now, s)

-- One turn of the loop: the frame and how long it waits, or an idle loop with no base.
unfoldable pub turn : ℕ → Pace → Shaper → Option (DownFrame × ℕ) × Pace × Shaper
turn now p s =
    let (popped, q) = Queue.pop now s.queue in
    if s.closed then (none, p, s) else answer popped now p (record s { queue = q })

-- When the frames of a busy loop go out, popped at the times given: each after its wait.
unfoldable pub sent_at : ℕ → Pace → List ℕ → List ℕ
sent_at frame_ms p [] = []
sent_at frame_ms p (now ∷ nows) =
    (now + wait_for frame_ms p now) ∷ sent_at frame_ms (next_pace p now) nows
