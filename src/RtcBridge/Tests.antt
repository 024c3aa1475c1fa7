-- ===== src/RtcBridge/Tests.antt =====
-- Runs of the queue, the frame buffer, the shaper and the drain reports on concrete data.
mod Redemptions
use mathlib.Core.List.{Sublist}
use bosimao_release.Prelude.{
  length, ℕ, ◌+◌, ◌≤◌, String, true, false, Option, none, some, List, [], ◌∷◌, ◌++◌, ◌≡◌, refl,
  arith, All, count, String_discrete, if◌then◌else◌, ◌=ₛ◌,
}
use bosimao_release.RtcBridge.Queue.{
  Bytes, AudioQueue, make_queue, no_tags, age, pop, depth, bytes_total, push_frame, pop_frame,
  flush_frames, bump, run, step, admit, make_room, drop_expired, expire, new_entry, pop_head, flush,
  QueueEntry,
}
use bosimao_release.RtcBridge.Queue as Queue
use bosimao_release.RtcBridge.Frames.{FrameBuffer, TailMode, feed, feed_all}
use bosimao_release.RtcBridge.Frames.Cut.{join, IsFrame}
use bosimao_release.RtcBridge.Frames.Stream.{stream, feed_all-stream}
use bosimao_release.RtcBridge.Shaper.{Shaper, Pace, idle, sent_at, wait_for, flush_tail}
use bosimao_release.RtcBridge.Shaper as Shaper_
use bosimao_release.RtcBridge.Drain.{
  Acknowledger, bound, drained, apm_cancelled, reports, Message, object, note, get_termination,
  parse_note_termination,
}
use bosimao_release.RtcBridge.Drain as Drain
use bosimao_release.RtcBridge.Queue.Bounds.{IsBounded, run-IsBounded}
use bosimao_release.RtcBridge.Queue.Account.{pushes, run-accounted}
use bosimao_release.RtcBridge.Queue.Order.{payloads, popped, run-Sublist}
use bosimao_release.RtcBridge.Queue.Ages.{pop_fresh}
use bosimao_release.RtcBridge.Shaper.Ordered as Ordered
use bosimao_release.RtcBridge.Shaper.Ordered.{push_chunk, take_turn}
use bosimao_release.RtcBridge.Shaper.Timing.{OnTime, sent_at-OnTime}
use bosimao_release.RtcBridge.Drain.Once.{is_drain, is_apm, IsOf, reports_once, note-parse}

abbrev small : AudioQueue
small = record {
  max_frames = 2;
  max_bytes = 8;
  max_frame_age_ms = 100;
  name = "up";
  entries = [];
  generation = 0;
  high_watermark = 0;
  drops = 0;
  backpressure_events = 0;
  enqueued = 0;
  age_dropped = 0;
  flush_dropped = 0;
  last_age_drop_log = none;
  age_samples = [];
  pops = 0;
}

abbrev queue_calls : List (ℕ × Queue.Call)
queue_calls =
    (1, push_frame (1 ∷ []) no_tags)
    ∷ (2, push_frame (2 ∷ []) no_tags)
    ∷ (3, push_frame (3 ∷ []) no_tags)
    ∷ (4, pop_frame)
    ∷ (5, flush_frames none)
    ∷ []

run-IsBounded_example : IsBounded (run small queue_calls)
unfolding make_queue
run-IsBounded_example = run-IsBounded 2 8 100 "up" small queue_calls refl

run-accounted_example :
    (length (popped small queue_calls)
        + depth (run small queue_calls)
        + (run small queue_calls).drops
        + (run small queue_calls).flush_dropped
      ≡ depth small + small.drops + small.flush_dropped + pushes queue_calls)
    × ((run small queue_calls).pops ≡ small.pops + length (popped small queue_calls))
run-accounted_example = run-accounted small queue_calls

run-Sublist_example :
    Sublist
      (popped small queue_calls ++ payloads (run small queue_calls).entries)
      ((1 ∷ []) ∷ (2 ∷ []) ∷ (3 ∷ []) ∷ [])
run-Sublist_example = run-Sublist small queue_calls

abbrev two_frames : AudioQueue
two_frames = run small ((1, push_frame (1 ∷ []) no_tags) ∷ (90, push_frame (2 ∷ []) no_tags) ∷ [])

pop_fresh_example :
    ((e : QueueEntry) → (pop 150 two_frames).0 ≡ some e → age 150 e ≤ two_frames.max_frame_age_ms)
    × ((pop 150 two_frames).0 ≡ none → (pop 150 two_frames).1.entries ≡ [])
pop_fresh_example = pop_fresh 150 two_frames

abbrev triples : FrameBuffer
triples = record {
  frame_bytes = 3;
  tail_mode = TailMode.drop_tail;
  buf = [];
  total_frames = 0;
  tail_dropped_bytes = 0;
  tail_padded_frames = 0;
  last_src_seqs = [];
}

abbrev chunks : List (Bytes × Option ℕ)
chunks = (1 ∷ 2 ∷ [], some 1) ∷ (3 ∷ 4 ∷ 5 ∷ [], some 2) ∷ (6 ∷ 7 ∷ [], some 3) ∷ []

feed_all-stream_example :
    ((feed_all chunks triples).0 ≡ (feed (stream chunks) none triples).0)
    × ((feed_all chunks triples).1.buf ≡ (feed (stream chunks) none triples).1.buf)
    × All (IsFrame 3) (feed_all chunks triples).0
    × (join (feed_all chunks triples).0 ++ (feed_all chunks triples).1.buf
        ≡ 1 ∷ 2 ∷ 3 ∷ 4 ∷ 5 ∷ 6 ∷ 7 ∷ [])
feed_all-stream_example = feed_all-stream chunks none triples (omega arith, omega arith)

abbrev shaper : Shaper
shaper = record {
  buffer = triples;
  queue = small;
  closed = false;
  reply_id = "";
  frame_seq = 0;
  last_push = 0;
  frame_ms = 20;
}

-- A shaper with audio of an earlier reply, and what comes after its reset.
abbrev playing : Shaper
playing = record shaper { buffer = record triples { buf = 9 ∷ 9 ∷ [] }; queue = two_frames }

abbrev later_calls : List (ℕ × Ordered.Call)
later_calls =
    (100, push_chunk (1 ∷ 2 ∷ 3 ∷ 4 ∷ []) none)
    ∷ (101, take_turn)
    ∷ (102, push_chunk (5 ∷ 6 ∷ []) none)
    ∷ []

sent_at-OnTime_example : OnTime 20 100 0 (sent_at 20 idle (100 ∷ 101 ∷ 150 ∷ []))
sent_at-OnTime_example = sent_at-OnTime 20 100 (101 ∷ 150 ∷ [])

abbrev connection : Acknowledger
connection = record {
  session_id = "s";
  device_id = "d";
  room_id = "r";
  generation = 1;
  has_reporter = true;
  terminations = [];
  reported = false;
  apm_reported = false;
}

abbrev drain_calls : List Drain.Call
drain_calls =
    drained true none ∷ bound "t" ∷ drained true none ∷ apm_cancelled false ∷ drained true none ∷ []

reports_once_example :
    (count is_drain (reports connection drain_calls) ≤ 1)
    × (count is_apm (reports connection drain_calls) ≤ 1)
    × All (IsOf connection) (reports connection drain_calls)
reports_once_example = reports_once connection drain_calls

abbrev note_message : Message
note_message = object (
    ("type", some "ctrl")
    ∷ ("action", some "note_termination")
    ∷ ("session_id", some "s")
    ∷ ("termination_id", some "t")
    ∷ [])
