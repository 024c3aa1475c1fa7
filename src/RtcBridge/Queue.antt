-- ===== src/RtcBridge/Queue.antt =====
-- The bounded audio queue: backend/rtc_bridge/bounded_audio_queue.py. Times are milliseconds of the
-- monotonic clock.
pub mod Bounds
pub mod Account
pub mod Order
pub mod Ages
use bosimao_release.Prelude.{
  ℕ, suc, ◌+◌, ◌-◌, String, Bool, true, false, not, Option, none, some, List, [], ◌∷◌, ◌++◌, ◌==◌,
  ◌||◌, ◌&&◌, ltb, leb, if◌then◌else◌, length, keep, drop,
}

abbrev pub Bytes : Type 0
Bytes = List ℕ

pub record QueueEntry : Type 0 where
  pub payload : Bytes
  pub generation : ℕ
  pub created_at : ℕ
  pub size : ℕ
  pub reply_id : String
  pub frame_seq : Option ℕ
  pub src_seq : Option ℕ

-- The budgets, the entries from the oldest on, and the counters.
pub record AudioQueue : Type 0 where
  pub max_frames : ℕ
  pub max_bytes : ℕ
  pub max_frame_age_ms : ℕ
  pub name : String
  pub entries : List QueueEntry
  pub generation : ℕ
  pub high_watermark : ℕ
  pub drops : ℕ
  pub backpressure_events : ℕ
  pub enqueued : ℕ
  pub age_dropped : ℕ
  pub flush_dropped : ℕ
  pub last_age_drop_log : Option ℕ
  pub age_samples : List ℕ
  pub pops : ℕ

-- `__init__`, which refuses a budget that is not positive.
unfoldable pub make_queue : ℕ → ℕ → ℕ → String → Option AudioQueue
make_queue max_frames max_bytes max_frame_age_ms name =
    if max_frames == 0 || max_bytes == 0 || max_frame_age_ms == 0
    then none
    else some (record {
      max_frames = max_frames;
      max_bytes = max_bytes;
      max_frame_age_ms = max_frame_age_ms;
      name = name;
      entries = [];
      generation = 0;
      high_watermark = 0;
      drops = 0;
      backpressure_events = 0;
      enqueued = 0;
      age_dropped = 0;
      flush_dropped = 0;
      last_age_drop_log = none;
      age_samples = [];
      pops = 0;
    })

abbrev pub depth : AudioQueue → ℕ
depth q = length q.entries

abbrev pub total_size : List QueueEntry → ℕ
total_size [] = 0
total_size (e ∷ es) = e.size + total_size es

abbrev pub bytes_total : AudioQueue → ℕ
bytes_total q = total_size q.entries

pub record Metrics : Type 0 where
  pub queue_name : String
  pub queue_depth : ℕ
  pub queue_high_watermark : ℕ
  pub queue_drops : ℕ
  pub backpressure_events : ℕ
  pub queue_bytes : ℕ
  pub age_dropped : ℕ
  pub flush_dropped : ℕ

abbrev pub metrics : AudioQueue → Metrics
metrics q = record {
  queue_name = q.name;
  queue_depth = depth q;
  queue_high_watermark = q.high_watermark;
  queue_drops = q.drops;
  backpressure_events = q.backpressure_events;
  queue_bytes = bytes_total q;
  age_dropped = q.age_dropped;
  flush_dropped = q.flush_dropped;
}

-- The time since a past time.
abbrev pub age : ℕ → QueueEntry → ℕ
age now e = now - e.created_at

-- The loop of `_drop_expired`: what is left, and how many were dropped.
unfoldable pub expire : ℕ → ℕ → List QueueEntry → List QueueEntry × ℕ
expire limit now [] = ([], 0)
expire limit now (e ∷ es) =
    let rest = expire limit now es in
    if ltb limit (age now e) then (rest.0, suc rest.1) else (e ∷ es, 0)

-- Whether a warning is due: the first at once, then one a second.
abbrev pub log_due : ℕ → Option ℕ → Bool
log_due now none = true
log_due now (some last) = leb 1000 (now - last)

-- `_drop_expired`
unfoldable pub drop_expired : ℕ → AudioQueue → AudioQueue
drop_expired now q =
    let (left, dropped) = expire q.max_frame_age_ms now q.entries in
    record q {
      entries = left;
      drops = q.drops + dropped;
      age_dropped = q.age_dropped + dropped;
      last_age_drop_log =
          if not (dropped == 0) && log_due now q.last_age_drop_log
          then some now
          else q.last_age_drop_log;
    }

-- The loop of `push`: the oldest go until the entry fits.
unfoldable pub make_room : ℕ → ℕ → ℕ → List QueueEntry → List QueueEntry × ℕ
make_room max_frames max_bytes size [] = ([], 0)
make_room max_frames max_bytes size (e ∷ es) =
    let rest = make_room max_frames max_bytes size es in
    if leb max_frames (length (e ∷ es)) || ltb max_bytes (total_size (e ∷ es) + size)
    then (rest.0, suc rest.1)
    else (e ∷ es, 0)

-- What comes with a frame: an explicit generation, if any, and the traces.
pub record Tags : Type 0 where
  pub generation : Option ℕ
  pub reply_id : String
  pub frame_seq : Option ℕ
  pub src_seq : Option ℕ

abbrev pub no_tags : Tags
no_tags = record { generation = none; reply_id = ""; frame_seq = none; src_seq = none }

abbrev pub or_else : Option ℕ → ℕ → ℕ
or_else none n = n
or_else (some m) n = m

abbrev pub new_entry : Bytes → Tags → ℕ → AudioQueue → QueueEntry
new_entry payload tags now q = record {
  payload = payload;
  generation = or_else tags.generation q.generation;
  created_at = now;
  size = length payload;
  reply_id = tags.reply_id;
  frame_seq = tags.frame_seq;
  src_seq = tags.src_seq;
}

-- The end of `push`: the entry goes in, over the oldest if need be.
unfoldable pub admit : QueueEntry → AudioQueue → Bool × AudioQueue
admit e q =
    if ltb q.max_bytes e.size
    then (false, record q { drops = q.drops + 1; backpressure_events = q.backpressure_events + 1 })
    else (let (left, dropped) = make_room q.max_frames q.max_bytes e.size q.entries in
        let entries = left ++ (e ∷ []) in
        (
          true,
          record q {
            entries = entries;
            drops = q.drops + dropped;
            backpressure_events = q.backpressure_events + dropped;
            enqueued = q.enqueued + 1;
            high_watermark =
                if ltb q.high_watermark (length entries) then length entries else q.high_watermark;
          },
        ))

unfoldable pub push : Bytes → Tags → ℕ → AudioQueue → Bool × AudioQueue
push payload tags now q = let q' = drop_expired now q in admit (new_entry payload tags now q') q'

-- A `deque(maxlen=1000)` drops its oldest.
abbrev pub sample : ℕ → List ℕ → List ℕ
sample a as' = (let all = as' ++ (a ∷ []) in drop (length all - 1000) all)

-- The end of `pop`, after the expired entries are gone. The quantiles are only logged.
unfoldable pub pop_head : ℕ → AudioQueue → Option QueueEntry × AudioQueue
pop_head now q = elim q.entries [
  | [] ↦ (none, q)
  | e ∷ es ↦ (
    some e,
    record q { entries = es; age_samples = sample (age now e) q.age_samples; pops = q.pops + 1 },
  )
]

unfoldable pub pop : ℕ → AudioQueue → Option QueueEntry × AudioQueue
pop now q = pop_head now (drop_expired now q)

unfoldable pub peek_oldest_created_at : AudioQueue → Option ℕ
peek_oldest_created_at q = elim q.entries [ [] ↦ none | e ∷ _ ↦ some e.created_at ]

-- `flush`, of one generation or of all.
unfoldable pub flush : Option ℕ → AudioQueue → ℕ × AudioQueue
flush none q = (depth q, record q { entries = []; flush_dropped = q.flush_dropped + depth q })
flush (some generation) q =
    let kept = keep (λ (e : QueueEntry). not (e.generation == generation)) q.entries in
    let dropped = depth q - length kept in
    (dropped, record q { entries = kept; flush_dropped = q.flush_dropped + dropped })

unfoldable pub bump_generation : AudioQueue → ℕ × AudioQueue
bump_generation q =
    let q' = (flush none q).1 in (q'.generation + 1, record q' { generation = q'.generation + 1 })

-- A call on the queue, and any sequence of them, each at its time.
pub data Call : Type 0 where
  push_frame : Bytes → Tags → Call
  pop_frame : Call
  flush_frames : Option ℕ → Call
  bump : Call

unfoldable pub step : AudioQueue → ℕ × Call → AudioQueue
step q (now, push_frame payload tags) = (push payload tags now q).1
step q (now, pop_frame) = (pop now q).1
step q (now, flush_frames generation) = (flush generation q).1
step q (now, bump) = (bump_generation q).1

unfoldable pub run : AudioQueue → List (ℕ × Call) → AudioQueue
run q [] = q
run q (c ∷ cs) = run (step q c) cs
