-- ===== src/Voice/EndDetect/Pads.antt =====
-- A pause is padded once.
use bosimao_release.Prelude.{
  ℕ, ◌+◌, ◌-◌, ◌≤◌, ◌≡◌, Bool, true, false, List, [], ◌∷◌, ltb, if◌then◌else◌, arith, count, ◌⊎◌,
}
use bosimao_release.RtcBridge.Queue.{Bytes}
use bosimao_release.Voice.EndDetect.{
  EndDetectFeeder, Fed, chunk_fed, pad_fed, pad_bytes, is_voice, feed, feed_all,
}

abbrev pub is_pad : Fed → Bool
is_pad (chunk_fed s16) = false
is_pad (pad_fed n) = true

abbrev pub is_voiced : ℕ × Bytes → Bool
is_voiced c = is_voice c.1

abbrev pub room : Bool → ℕ
room true = 0
room false = 1

-- Each chunk is fed as it came, or it is silent and a pad of n bytes stands for it.
abbrev pub Follows : ℕ → List (ℕ × Bytes) → List Fed → Type 0
Follows n [] [] = Unit {0}
Follows n (c ∷ cs) (f ∷ fs) =
    ((f ≡ chunk_fed c.1) ⊎ ((f ≡ pad_fed n) × (is_voice c.1 ≡ false))) × Follows n cs fs
Follows n _ _ = ⊥

feed-cases :
    (now : ℕ) (s16 : Bytes) (f : EndDetectFeeder)
    → (((feed now s16 f).0 ≡ chunk_fed s16)
        ⊎ (((feed now s16 f).0 ≡ pad_fed (pad_bytes f)) × (is_voice s16 ≡ false)))
      × (pad_bytes (feed now s16 f).1 ≡ pad_bytes f)
unfolding feed
feed-cases now s16 f = ground arith

feed-pads :
    (now : ℕ) (s16 : Bytes) (f : EndDetectFeeder)
    → (if is_pad (feed now s16 f).0 then 1 else 0) + room (feed now s16 f).1.silence_padded
      ≤ room f.silence_padded + (if is_voice s16 then 1 else 0)
unfolding feed
feed-pads now s16 f = ground arith

feed_all-Follows :
    (cs : List (ℕ × Bytes)) (f : EndDetectFeeder) → Follows (pad_bytes f) cs (feed_all cs f)
unfolding feed_all
feed_all-Follows [] f = tt
feed_all-Follows (c ∷ cs) f =
    let (one, same) = feed-cases c.0 c.1 f in
    (one, rw (same) at (feed_all-Follows cs (feed c.0 c.1 f).1))

pads_few :
    (cs : List (ℕ × Bytes)) (f : EndDetectFeeder)
    → count is_pad (feed_all cs f) ≤ room f.silence_padded + count is_voiced cs
unfolding feed_all
pads_few [] f = omega arith
pads_few (c ∷ cs) f = omega (arith, feed-pads c.0 c.1 f, pads_few cs (feed c.0 c.1 f).1)

feed_pads :
    (now : ℕ) (s16 : Bytes) (f : EndDetectFeeder)
    → is_voice s16 ≡ false
    → f.silence_padded ≡ false
    → ltb f.silence (now - f.last_voice_ts) ≡ true
    → (feed now s16 f).0 ≡ pad_fed (pad_bytes f)
unfolding feed
feed_pads now s16 f quiet fresh late = ground arith

-- Of the chunks that are fed one after another each voiced one is fed as it came, and each silent one as
-- it came or as the pad; and there are no more pads than voiced chunks, and one more if the pause that
-- the feeder is in was not padded before. A silent chunk that comes later than the silence after the
-- last voice is padded if the pause was not.
pub feed_all-pads :
    (cs : List (ℕ × Bytes)) (f : EndDetectFeeder)
    → Follows (pad_bytes f) cs (feed_all cs f)
      × (count is_pad (feed_all cs f) ≤ room f.silence_padded + count is_voiced cs)
      × ((now : ℕ) (s16 : Bytes)
          → is_voice s16 ≡ false
          → f.silence_padded ≡ false
          → ltb f.silence (now - f.last_voice_ts) ≡ true
          → (feed now s16 f).0 ≡ pad_fed (pad_bytes f))
feed_all-pads cs f = (
  feed_all-Follows cs f,
  pads_few cs f,
  λ now s16 quiet fresh late. feed_pads now s16 f quiet fresh late,
)
