-- ===== src/Voice/Tests/Sessions.antt =====
-- The theorems on sessions, the ring buffer and the end detection at concrete inputs.
use bosimao_release.Prelude.{
  ℕ, ◌+◌, ◌≤◌, ◌≡◌, refl, String, Bool, true, false, Option, none, some, List, [], ◌∷◌, ◌++◌, arith,
  count, ltb, ◌⊎◌, String_discrete, ◌-◌,
}
use bosimao_release.Relay.Frames.{Bytes, slices}
use bosimao_release.Relay.Pairing.{text, Json, object}
use bosimao_release.Voice.Audio.{append, append_all, make_ring, trim, drain}
use bosimao_release.Voice.Audio.Newest.{IsSound, append_all-newest}
use bosimao_release.Voice.EndDetect.{EndDetectFeeder, feed, feed_all, is_voice, pad_fed}
use bosimao_release.Voice.EndDetect.Pads.{Follows, is_pad, is_voiced, feed_all-pads}
use bosimao_release.Voice.HalfDuplex.{Engine, transcript_of, HalfDuplexResult, local_route, process}
use bosimao_release.Voice.Session.{reconnected, VoiceSession, Services, process_round}
use bosimao_release.Voice.Session.Loop.{
  Arrival, text_arrives, bytes_arrive, beats, calls_back, apm_audio, apm_state, make_session, run,
}
use bosimao_release.Voice.Session.Rounds.{IsSteady}
use bosimao_release.Voice.Session.Kept.{IsResting, run_new-IsKept}
use bosimao_release.Voice.Session.Replies.{Returns, IsReplied, process_round_Returns}

append_all-newest_example :
    IsSound (append_all ((1 ∷ 2 ∷ []) ∷ (3 ∷ 4 ∷ []) ∷ []) (make_ring 3))
    × ((append_all ((1 ∷ 2 ∷ []) ∷ (3 ∷ 4 ∷ []) ∷ []) (make_ring 3)).chunks ≡ (3 ∷ 4 ∷ []) ∷ [])
append_all-newest_example =
    append_all-newest ((1 ∷ 2 ∷ []) ∷ (3 ∷ 4 ∷ []) ∷ []) (make_ring 3)
      (record { counted = refl; bounded = omega arith })

abbrev toy_feeder : EndDetectFeeder
toy_feeder = record {
  silence = 1200;
  pad = 2000;
  sample_rate = 16000;
  last_voice_ts = 0;
  silence_padded = false;
}

abbrev speech : List (ℕ × Bytes)
speech = (100, 0 ∷ 32 ∷ []) ∷ (900, 0 ∷ 0 ∷ []) ∷ (1500, 0 ∷ 0 ∷ []) ∷ []

feed_all-pads_example :
    Follows 64000 speech (feed_all speech toy_feeder)
    × (count is_pad (feed_all speech toy_feeder) ≤ 1 + count is_voiced speech)
    × ((now : ℕ) (s16 : Bytes)
        → is_voice s16 ≡ false
        → ◌≡◌ {A = Bool} false false
        → ltb 1200 (now - 0) ≡ true
        → (feed now s16 toy_feeder).0 ≡ pad_fed 64000)
feed_all-pads_example = feed_all-pads speech toy_feeder

abbrev toy_engine : Engine
toy_engine = record {
  transcribe = λ pcm. transcript_of "hi" "ok";
  model_status = "ok";
  trigger_words = [];
  contains = λ word heard. false;
  brain = λ heard. none;
  synthesize = λ reply. some ("mp3_24k", 8 ∷ 9 ∷ []);
}

abbrev toy_services : Services
toy_services = record {
  aead = record {
    seal = λ key nonce plain aad. plain;
    unseal = λ key nonce sealed aad. some sealed;
  };
  nonce = λ seq. [];
  engine = toy_engine;
}

abbrev read_end : String → Option Json
read_end raw = some (object (("type", text "audio_end") ∷ []))

abbrev arrivals : List (ℕ × Arrival)
arrivals =
    (5, bytes_arrive (2 ∷ 0 ∷ 0 ∷ 0 ∷ 1 ∷ 0 ∷ 0 ∷ 0 ∷ 0 ∷ 0 ∷ 0 ∷ 0 ∷ 7 ∷ 1 ∷ 2 ∷ []))
    ∷ (9, text_arrives "{}")
    ∷ (99, beats)
    ∷ []

-- The bridge of a session that streams speaks, and says that it is back.
abbrev called_back : List (ℕ × Arrival)
called_back =
    arrivals
    ++ ((100, calls_back (apm_audio (3 ∷ []))) ∷ (101, calls_back (apm_state reconnected)) ∷ [])

run_new-IsKept_example :
    IsSteady true (run toy_services read_end 60 called_back (make_session 100 none true 50 50))
    × (((run toy_services read_end 60 called_back (make_session 100 none true 50 50)).closed ≡ true)
        ⊎ IsResting true
            (run toy_services read_end 60 called_back (make_session 100 none true 50 50)))
run_new-IsKept_example = run_new-IsKept toy_services read_end 60 called_back 100 50 50 none true

-- A session that has heard two bytes.
abbrev heard : VoiceSession
heard = record (make_session 100 none false 1 50) { buffer = append (1 ∷ 2 ∷ []) (make_ring 100) }

abbrev reply : HalfDuplexResult
reply = record {
  heard = "hi";
  reply_text = "好的，你说的是：hi";
  route = local_route;
  tts_format = "mp3_24k";
  audio_bytes = 8 ∷ 9 ∷ [];
  error = none;
  model_status = "ok";
  message = none;
}

process_round_Returns_example :
    Returns (process_round toy_services 7 heard) (IsReplied (8 ∷ 9 ∷ []))
unfolding process drain append trim slices String_discrete
process_round_Returns_example =
    process_round_Returns toy_services 7 reply heard refl refl refl (omega arith)
