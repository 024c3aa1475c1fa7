-- ===== src/Voice/Audio.antt =====
-- The ring buffer of PCM chunks and the tests on PCM bytes: backend/app/voice/audio.py.
pub mod Newest
use bosimao_release.Prelude.{
  ℕ, zero, suc, ◌+◌, ◌-◌, ◌*◌, ◌/◌, ◌%◌, Bool, true, false, List, [], ◌∷◌, ◌++◌, ◌&&◌, ◌==◌, ltb,
  if◌then◌else◌, length,
}
use bosimao_release.RtcBridge.Queue.{Bytes}

-- The chunks, the oldest in front, and `_total`.
pub record PcmRingBuffer : Type 0 where
  pub max_bytes : ℕ
  pub chunks : List Bytes
  pub total : ℕ

abbrev pub make_ring : ℕ → PcmRingBuffer
make_ring max_bytes = record { max_bytes = max_bytes; chunks = []; total = 0 }

-- The loop of `append`, which drops the oldest chunks.
unfoldable pub trim : ℕ → List Bytes → ℕ → List Bytes × ℕ
trim limit [] total = ([], total)
trim limit (c ∷ cs) total =
    if ltb limit total then trim limit cs (total - length c) else (c ∷ cs, total)

unfoldable pub append : Bytes → PcmRingBuffer → PcmRingBuffer
append [] b = b
append (x ∷ bs) b =
    let (chunks, total) =
      trim b.max_bytes (b.chunks ++ ((x ∷ bs) ∷ [])) (b.total + length (x ∷ bs)) in
    record b { chunks = chunks; total = total }

-- `b"".join(chunks)`
abbrev pub join_bytes : List Bytes → Bytes
join_bytes [] = []
join_bytes (c ∷ cs) = c ++ join_bytes cs

abbrev pub clear : PcmRingBuffer → PcmRingBuffer
clear b = record b { chunks = []; total = 0 }

unfoldable pub drain : PcmRingBuffer → Bytes × PcmRingBuffer
drain b = elim b.chunks [ [] ↦ ([], b) | c ∷ cs ↦ (join_bytes b.chunks, clear b) ]

abbrev pub is_valid_pcm16 : Bytes → Bool
is_valid_pcm16 pcm = ltb 0 (length pcm) && (length pcm % 2 == 0)

-- Chunks that come one after another.
abbrev pub append_all : List Bytes → PcmRingBuffer → PcmRingBuffer
append_all [] b = b
append_all (c ∷ cs) b = append_all cs (append c b)
