-- ===== src/Relay/Frames.antt =====
-- The binary audio frames of the relay and the cut of a payload into chunks:
-- backend/relay/relay_protocol.py, the frame codec.
pub mod RoundTrip
pub mod Chunks
use bosimao_release.Prelude.{
  ℕ, zero, suc, ◌+◌, ◌*◌, ◌/◌, ◌%◌, ◌^◌, Bool, true, false, List, [], ◌∷◌, ◌++◌, ◌&&◌, ◌==◌, ltb,
  leb, not, if◌then◌else◌, length, take, drop, Result, ok, err, ◌>>=◌, ◌>>◌, raise_if,
}

abbrev pub Bytes : Type 0
Bytes = List ℕ

-- The `ValueError`s of the codec.
pub data FrameError : Type 0 where
  too_short bad_magic bad_chunk_size : FrameError

pub record AudioChunk : Type 0 where
  pub seq : ℕ
  pub ts_ms : ℕ
  pub payload : Bytes

abbrev pub audio_frame_magic : ℕ
audio_frame_magic = 2

-- `struct.Struct(">BIQ").size`
abbrev pub audio_frame_header_len : ℕ
audio_frame_header_len = 13

abbrev pub max_audio_chunk_bytes : ℕ
max_audio_chunk_bytes = 65536

-- The big-endian bytes of a number, `I` and `Q` of `struct`, and the number of such bytes.
unfoldable pub big_endian : ℕ → ℕ → Bytes
big_endian zero v = []
big_endian (suc n) v = big_endian n (v / 256) ++ (v % 256 ∷ [])

unfoldable pub read_from : ℕ → Bytes → ℕ
read_from acc [] = acc
read_from acc (b ∷ bs) = read_from (acc * 256 + b) bs

abbrev pub from_big_endian : Bytes → ℕ
from_big_endian = read_from 0

unfoldable pub encode_audio_frame : ℕ → ℕ → Bytes → Bytes
encode_audio_frame seq ts_ms payload =
    audio_frame_magic ∷ (big_endian 4 (seq % 2 ^ 32) ++ (big_endian 8 (ts_ms % 2 ^ 64) ++ payload))

-- The byte at the front; one that is not there is not reached.
abbrev pub head_byte : Bytes → ℕ
head_byte [] = 0
head_byte (b ∷ bs) = b

unfoldable pub decode_audio_frame : Bytes → Result FrameError AudioChunk
decode_audio_frame frame = do
  raise_if (ltb (length frame) audio_frame_header_len) too_short
  raise_if (not (head_byte frame == audio_frame_magic)) bad_magic
  ok (record {
    seq = from_big_endian (take 4 (drop 1 frame));
    ts_ms = from_big_endian (take 8 (drop 5 frame));
    payload = drop audio_frame_header_len frame;
  })

unfoldable pub is_audio_frame : Bytes → Bool
is_audio_frame frame =
    leb audio_frame_header_len (length frame) && (head_byte frame == audio_frame_magic)

-- The slices of `range(0, len(payload), chunk_size)`, on fuel.
unfoldable pub slices : ℕ → ℕ → Bytes → List Bytes
slices zero n payload = []
slices (suc fuel) n [] = []
slices (suc fuel) n (b ∷ bs) = take n (b ∷ bs) ∷ slices fuel n (drop n (b ∷ bs))

-- A slice takes a byte at least, so the length of the payload is fuel enough.
unfoldable pub chunk_payload : Bytes → ℕ → Result FrameError (List Bytes)
chunk_payload payload chunk_size = do
  raise_if (chunk_size == 0) bad_chunk_size
  ok (slices (length payload) chunk_size payload)
