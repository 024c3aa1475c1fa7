-- ===== src/RtcBridge/Frames.antt =====
-- The PCM frame buffer, which cuts chunks of any length into whole frames:
-- backend/rtc_bridge/frame_buffer.py.
pub mod Cut
pub mod Stream
use bosimao_release.Prelude.{
  ℕ, zero, suc, ◌+◌, ◌-◌, ◌*◌, Bool, true, false, Option, none, some, List, [], ◌∷◌, ◌++◌, ◌==◌,
  leb, if◌then◌else◌, length, take, drop, replicate,
}
use bosimao_release.RtcBridge.Queue.{Bytes}

-- `TAIL_DROP` and `TAIL_PAD`
pub data TailMode : Type 0 where
  drop_tail pad_tail : TailMode

pub record FrameBuffer : Type 0 where
  pub frame_bytes : ℕ
  pub tail_mode : TailMode
  pub buf : Bytes
  pub total_frames : ℕ
  pub tail_dropped_bytes : ℕ
  pub tail_padded_frames : ℕ
  pub last_src_seqs : List (Option ℕ)

-- `__init__`, which refuses a frame of no bytes.
unfoldable pub make_buffer : ℕ → TailMode → Option FrameBuffer
make_buffer frame_bytes mode =
    if frame_bytes == 0
    then none
    else some (record {
      frame_bytes = frame_bytes;
      tail_mode = mode;
      buf = [];
      total_frames = 0;
      tail_dropped_bytes = 0;
      tail_padded_frames = 0;
      last_src_seqs = [];
    })

-- The loop of `feed`, on fuel: the frames, and the bytes that are left.
unfoldable pub cut : ℕ → ℕ → Bytes → List Bytes × Bytes
cut zero n buf = ([], buf)
cut (suc fuel) n buf =
    let rest = cut fuel n (drop n buf) in
    if leb n (length buf) then (take n buf ∷ rest.0, rest.1) else ([], buf)

-- A frame takes a byte at least, so the length of the buffer is fuel enough.
abbrev pub frames_of : ℕ → Bytes → List Bytes × Bytes
frames_of n buf = cut (length buf) n buf

unfoldable pub feed : Bytes → Option ℕ → FrameBuffer → List Bytes × FrameBuffer
feed [] src_seq b = ([], record b { last_src_seqs = [] })
feed (x ∷ chunk) src_seq b =
    let (frames, left) = frames_of b.frame_bytes (b.buf ++ (x ∷ chunk)) in
    (
      frames,
      record b {
        buf = left;
        total_frames = b.total_frames + length frames;
        last_src_seqs = replicate (length frames) src_seq;
      },
    )

-- `flush`, of a buffer that is not empty.
unfoldable pub flush_bytes : TailMode → FrameBuffer → List Bytes × FrameBuffer
flush_bytes TailMode.pad_tail b = (
  (b.buf ++ replicate (b.frame_bytes - length b.buf) 0) ∷ [],
  record b {
    buf = [];
    tail_padded_frames = b.tail_padded_frames + 1;
    total_frames = b.total_frames + 1;
  },
)
flush_bytes TailMode.drop_tail b =
    ([], record b { buf = []; tail_dropped_bytes = b.tail_dropped_bytes + length b.buf })

unfoldable pub flush_tail : FrameBuffer → List Bytes × FrameBuffer
flush_tail b = elim b.buf [ [] ↦ ([], b) | x ∷ rest ↦ flush_bytes b.tail_mode b ]

abbrev pub reset : FrameBuffer → FrameBuffer
reset b = record b { buf = [] }

abbrev pub pending : FrameBuffer → ℕ
pending b = length b.buf

-- Chunks that come one after another.
unfoldable pub feed_all : List (Bytes × Option ℕ) → FrameBuffer → List Bytes × FrameBuffer
feed_all [] b = ([], b)
feed_all (c ∷ cs) b =
    let (frames, b') = feed c.0 c.1 b in let (more, b'') = feed_all cs b' in (frames ++ more, b'')
