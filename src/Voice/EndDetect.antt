-- ===== src/Voice/EndDetect.antt =====
-- The silence that is put in after a pause, so that the model finds the end of a speech:
-- backend/app/voice/end_detect.py, and the same steps in `_feed_apm_with_end_detect` of session.py.
pub mod Pads
use bosimao_release.Prelude.{
  ℕ, zero, suc, ◌+◌, ◌-◌, ◌*◌, ◌/◌, Bool, true, false, not, List, [], ◌∷◌, ◌&&◌, ltb, if◌then◌else◌,
  replicate,
}
use bosimao_release.RtcBridge.Queue.{Bytes}

-- The absolute value of the sample of two bytes, the lower first.
abbrev pub abs_sample : ℕ → ℕ → ℕ
abs_sample low high = let v = low + 256 * high in if ltb v 32768 then v else 65536 - v

-- The samples of the whole pairs, and the sum of their absolute values.
abbrev pub sum_samples : Bytes → ℕ × ℕ
sum_samples [] = (0, 0)
sum_samples (low ∷ []) = (0, 0)
sum_samples (low ∷ high ∷ rest) = let r = sum_samples rest in (r.0 + 1, r.1 + abs_sample low high)

-- `pcm_rms(s16) > SILENCE_RMS_THRESHOLD`, the mean times the count
abbrev pub silence_rms_threshold : ℕ
silence_rms_threshold = 400

unfoldable pub is_voice : Bytes → Bool
is_voice s16 = let r = sum_samples s16 in ltb (silence_rms_threshold * r.0) r.1

-- Times and durations are in milliseconds.
pub record EndDetectFeeder : Type 0 where
  pub silence : ℕ
  pub pad : ℕ
  pub sample_rate : ℕ
  pub last_voice_ts : ℕ
  pub silence_padded : Bool

-- What is fed to the bridge: a chunk as it came, or the pad.
pub data Fed : Type 0 where
  chunk_fed : Bytes → Fed
  pad_fed : ℕ → Fed

-- `b"\x00\x00" * (pad_bytes // 2)`
abbrev pub bytes_of : Fed → Bytes
bytes_of (chunk_fed s16) = s16
bytes_of (pad_fed n) = replicate n 0

abbrev pub pad_bytes : EndDetectFeeder → ℕ
pad_bytes f = f.sample_rate * f.pad / 1000 * 2

unfoldable pub feed : ℕ → Bytes → EndDetectFeeder → Fed × EndDetectFeeder
feed now s16 f =
    if is_voice s16
    then (chunk_fed s16, record f { last_voice_ts = now; silence_padded = false })
    else if not f.silence_padded && ltb f.silence (now - f.last_voice_ts)
    then (pad_fed (pad_bytes f), record f { silence_padded = true })
    else (chunk_fed s16, f)

abbrev pub reset : ℕ → EndDetectFeeder → EndDetectFeeder
reset now f = record f { last_voice_ts = now; silence_padded = false }

-- Chunks that come one after another, each at its time.
unfoldable pub feed_all : List (ℕ × Bytes) → EndDetectFeeder → List Fed
feed_all [] f = []
feed_all (c ∷ cs) f = let (out, f') = feed c.0 c.1 f in out ∷ feed_all cs f'
