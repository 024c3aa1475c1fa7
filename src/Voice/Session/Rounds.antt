-- ===== src/Voice/Session/Rounds.antt =====
-- What a session keeps: its frames are numbered in order, its replies are whole, its buffer is within its
-- limit, and between frames it rests.
use bosimao_release.Prelude.{
  if_lem, List-cases, ℕ, zero, suc, ◌+◌, ◌≡◌, refl, String, Bool, true, false, Option, none, some,
  List, [], ◌∷◌, All, arith, inl, inr, Option-cases, Outcome, returned, and_then, after,
  after-and_then, Result, ok, err,
}
use bosimao_release.Relay.Frames.{Bytes, FrameError, chunk_payload, max_audio_chunk_bytes}
use bosimao_release.Voice.Audio.{PcmRingBuffer, drain}
use bosimao_release.Voice.Audio.Newest.{IsSound}
use bosimao_release.Voice.HalfDuplex.{HalfDuplexResult, process}
use bosimao_release.Voice.Session.{
  State, monitoring, thinking, speaking, round_failed, done_reason, Sent, ready, ping, pong,
  session_state, error_frame, transcript, audio_start, audio_frame, audio_end, reply_done,
  VoiceSession, Services, send_on, send, send_state, seal_chunk, next_seq, send_chunks, before,
  reason_of, send_parts, send_audio_down, set_interrupted, speak, settle_error, settle, run_engine,
  process_round,
}

-- The numbers of the audio frames, the newest first.
abbrev pub audio_seqs : List Sent → List ℕ
audio_seqs [] = []
audio_seqs (audio_frame seq ts payload ∷ ms) = seq ∷ audio_seqs ms
audio_seqs (_ ∷ ms) = audio_seqs ms

abbrev pub countdown : ℕ → List ℕ
countdown zero = []
countdown (suc n) = n ∷ countdown n

abbrev pub IsWhole : Sent → Type 0
IsWhole (audio_end seq reason) = reason ≡ done_reason
IsWhole _ = Unit

-- A frame that neither is audio nor ends it.
abbrev pub IsPlain : Sent → Type 0
IsPlain (audio_frame seq ts payload) = ⊥
IsPlain (audio_end seq reason) = ⊥
IsPlain _ = Unit

-- Of a session that streams or not, as `mode` says.
pub record IsSteady (mode : Bool) (s : VoiceSession) : Type 0 where
  pub streams : s.stream_mode ≡ mode
  pub numbered : audio_seqs s.sent ≡ countdown s.down_seq
  pub whole : All IsWhole s.sent
  pub buffered : IsSound s.buffer

-- What holds of a session however a send ends.
pub send_lem {ℓ} :
    (P : VoiceSession → Type ℓ) (n : ℕ) (m : Sent) (s : VoiceSession)
    → P s
    → ((k : ℕ) → P (record s { sent = m ∷ s.sent; socket = k }))
    → P (after (send_on n m s))
send_lem P zero m s h k = h
send_lem P (suc n) m s h k = k n

-- The same of a send that is followed by more.
pub send_then {ℓ} :
    (P : VoiceSession → Type ℓ) (n : ℕ) (m : Sent) (s : VoiceSession)
    (f : VoiceSession → Outcome VoiceSession)
    → P s
    → ((k : ℕ) → P (after (f (record s { sent = m ∷ s.sent; socket = k }))))
    → P (after (and_then (send_on n m s) f))
send_then P zero m s f h k = h
send_then P (suc n) m s f h k = k n

-- A session whose reply is not interrupted.
abbrev pub IsSpeaking : Bool → VoiceSession → Type 0
IsSpeaking mode s = IsSteady mode s × (s.interrupted ≡ false)

plain_seqs :
    (m : Sent) (ms : List Sent) → IsPlain m → (audio_seqs (m ∷ ms) ≡ audio_seqs ms) × IsWhole m
plain_seqs (ready) ms h = (refl, tt)
plain_seqs (ping t) ms h = (refl, tt)
plain_seqs (pong t) ms h = (refl, tt)
plain_seqs (session_state t) ms h = (refl, tt)
plain_seqs (error_frame e) ms h = (refl, tt)
plain_seqs (transcript t final) ms h = (refl, tt)
plain_seqs (audio_start f q) ms h = (refl, tt)
plain_seqs (audio_frame q t b) ms h = absurd h
plain_seqs (audio_end q r) ms h = absurd h
plain_seqs (reply_done r t) ms h = (refl, tt)

pub countdown_next : (n : ℕ) → countdown (n + 1) ≡ n ∷ countdown n
countdown_next n = let e : n + 1 ≡ suc n = omega arith in rw (e) refl

drain-IsSound : (b : PcmRingBuffer) → IsSound b → IsSound (drain b).1
unfolding drain
drain-IsSound b h = elim (List-cases b.chunks) [
  | inl e ↦ ground arith
  | inr (c, cs, e) ↦ ground arith
]

module _ {mode : Bool} where
  pub add_plain :
      (m : Sent) (s : VoiceSession) (k : ℕ)
      → IsPlain m
      → IsSteady mode s
      → IsSteady mode (record s { sent = m ∷ s.sent; socket = k })
  add_plain m s k p h =
      let (same, whole) = plain_seqs m s.sent p in
      record {
        numbered = rw (same) h.numbered;
        whole = (whole, h.whole);
        buffered = h.buffered;
        streams = h.streams;
      }

  send_chunks-IsSpeaking :
      (v : Services) (ts : ℕ) (cs : List Bytes) (s : VoiceSession)
      → IsSpeaking mode s
      → IsSpeaking mode (after (send_chunks v ts cs s))
  unfolding send_chunks
  send_chunks-IsSpeaking v ts [] s h = h
  send_chunks-IsSpeaking v ts (c ∷ cs) s h =
      let m = audio_frame s.down_seq ts (seal_chunk v s.key s.down_seq c) in
      let rest = λ (s' : VoiceSession). send_chunks v ts cs (next_seq s') in
      if_lem (λ o. IsSpeaking mode (after o)) s.interrupted (returned s) (and_then (send m s) rest)
        h
        (send_then (IsSpeaking mode) s.socket m s rest h (λ k.
          send_chunks-IsSpeaking v ts cs (next_seq (record s { sent = m ∷ s.sent; socket = k })) (
            record {
              numbered = rw (countdown_next s.down_seq, h.0.numbered) refl;
              whole = (tt, h.0.whole);
              buffered = h.0.buffered;
              streams = h.0.streams;
            },
            h.1,
          )))

  -- A frame that is neither audio nor its end keeps both.
  send_plain :
      (m : Sent) (s : VoiceSession) (k : ℕ)
      → IsPlain m
      → IsSpeaking mode s
      → IsSpeaking mode (record s { sent = m ∷ s.sent; socket = k })
  send_plain m s k p h = (add_plain m s k p h.0, h.1)

  end_audio-IsSpeaking :
      (s : VoiceSession)
      → IsSpeaking mode s
      → IsSpeaking mode (after (send (audio_end (before s.down_seq) (reason_of s.interrupted)) s))
  end_audio-IsSpeaking s h =
      send_lem (IsSpeaking mode) s.socket (audio_end (before s.down_seq) (reason_of s.interrupted))
        s h
        (λ k. (
          record {
            numbered = h.0.numbered;
            whole = (rw (h.1) refl, h.0.whole);
            buffered = h.0.buffered;
            streams = h.0.streams;
          },
          h.1,
        ))

  send_parts-IsSpeaking :
      (v : Services) (ts : ℕ) (r : Result FrameError (List Bytes)) (s : VoiceSession)
      → IsSpeaking mode s
      → IsSpeaking mode (after (send_parts v ts r s))
  send_parts-IsSpeaking v ts (err e) s h = h
  send_parts-IsSpeaking v ts (ok chunks) s h =
      after-and_then (IsSpeaking mode) (send_chunks v ts chunks s) _
        (send_chunks-IsSpeaking v ts chunks s h) (λ s' h'. end_audio-IsSpeaking s' h')

  send_audio_down-IsSpeaking :
      (v : Services) (audio : Bytes) (ts : ℕ) (format : String) (s : VoiceSession)
      → IsSpeaking mode s
      → IsSpeaking mode (after (send_audio_down v audio ts format s))
  unfolding send_audio_down
  send_audio_down-IsSpeaking v audio ts format s h =
      let m = audio_start format s.down_seq in
      send_then (IsSpeaking mode) s.socket m s _ h (λ k.
        send_parts-IsSpeaking v ts (chunk_payload audio max_audio_chunk_bytes)
          (record s { sent = m ∷ s.sent; socket = k }) (send_plain m s k tt h))

  set_state :
      (state : State) (s : VoiceSession)
      → IsSteady mode s
      → IsSteady mode (record s { state = state })
  set_state state s h = record {
    numbered = h.numbered;
    whole = h.whole;
    buffered = h.buffered;
    streams = h.streams;
  }

  pub send_state-IsSteady :
      (state : State) (s : VoiceSession)
      → IsSteady mode s
      → IsSteady mode (after (send_state state s))
  send_state-IsSteady state s h =
      let s' = record s { state = state } in
      send_lem (IsSteady mode) s.socket (session_state state) s' (set_state state s h)
        (λ k. add_plain (session_state state) s' k tt (set_state state s h))

  send_state-IsSpeaking :
      (state : State) (s : VoiceSession)
      → IsSpeaking mode s
      → IsSpeaking mode (after (send_state state s))
  send_state-IsSpeaking state s h =
      let s' = record s { state = state } in
      let h' : IsSpeaking mode s' = (set_state state s h.0, h.1) in
      send_lem (IsSpeaking mode) s.socket (session_state state) s' h'
        (λ k. send_plain (session_state state) s' k tt h')

  send-IsSpeaking :
      (m : Sent) (s : VoiceSession)
      → IsPlain m
      → IsSpeaking mode s
      → IsSpeaking mode (after (send m s))
  send-IsSpeaking m s p h = send_lem (IsSpeaking mode) s.socket m s h (λ k. send_plain m s k p h)

  finish-IsSpeaking :
      (r : HalfDuplexResult) (s : VoiceSession)
      → IsSpeaking mode s
      → IsSpeaking mode (
          after (
            and_then
              (send (reply_done r.route r.reply_text) s)
              (λ s4. send_state monitoring (set_interrupted false s4))))
  finish-IsSpeaking r s h =
      after-and_then (IsSpeaking mode) (send (reply_done r.route r.reply_text) s) _
        (send-IsSpeaking (reply_done r.route r.reply_text) s tt h)
        (λ s4 h4. send_state-IsSpeaking monitoring (set_interrupted false s4) (
          record {
            numbered = h4.0.numbered;
            whole = h4.0.whole;
            buffered = h4.0.buffered;
            streams = h4.0.streams;
          },
          refl,
        ))

  speak-IsSpeaking :
      (v : Services) (ts : ℕ) (r : HalfDuplexResult) (s : VoiceSession)
      → IsSpeaking mode s
      → IsSpeaking mode (after (speak v ts r s))
  speak-IsSpeaking v ts r s h =
      after-and_then (IsSpeaking mode) (send (transcript r.heard true) s) _
        (send-IsSpeaking (transcript r.heard true) s tt h)
        (λ s1 h1.
          after-and_then (IsSpeaking mode) (send_state speaking s1) _
            (send_state-IsSpeaking speaking s1 h1)
            (λ s2 h2.
              after-and_then (IsSpeaking mode) (send_audio_down v r.audio_bytes ts r.tts_format s2)
                _ (send_audio_down-IsSpeaking v r.audio_bytes ts r.tts_format s2 h2)
                (λ s3 h3. finish-IsSpeaking r s3 h3)))

  settle-IsSpeaking :
      (v : Services) (ts : ℕ) (r : Option HalfDuplexResult) (s : VoiceSession)
      → IsSpeaking mode s
      → IsSpeaking mode (after (settle v ts r s))
  settle-IsSpeaking v ts none s h = h
  settle-IsSpeaking v ts (some r) s h = elim (Option-cases r.error) [
    | inl e ↦ rw (e, settle_error) (speak-IsSpeaking v ts r s h)
    | inr (c, e) ↦
        rw (e, settle_error)
          (after-and_then (IsSpeaking mode) (send (error_frame (round_failed c)) s) _
            (send-IsSpeaking (error_frame (round_failed c)) s tt h)
            (λ s' h'. send_state-IsSpeaking monitoring s' h'))
  ]

  run_engine-IsSpeaking :
      (v : Services) (ts : ℕ) (s : VoiceSession)
      → IsSteady mode s
      → IsSpeaking mode (after (run_engine v ts s))
  run_engine-IsSpeaking v ts s h =
      settle-IsSpeaking v ts (process v.engine (drain s.buffer).0)
        (record s { buffer = (drain s.buffer).1; interrupted = false })
        (
          record {
            numbered = h.numbered;
            whole = h.whole;
            buffered = drain-IsSound s.buffer h.buffered;
            streams = h.streams;
          },
          refl,
        )

  pub process_round-IsSteady :
      (v : Services) (ts : ℕ) (s : VoiceSession)
      → IsSteady mode s
      → IsSteady mode (after (process_round v ts s))
  unfolding process_round
  process_round-IsSteady v ts s h =
      after-and_then (IsSteady mode) (send_state thinking s) _ (send_state-IsSteady thinking s h)
        (λ s1 h1.
          send_then (IsSteady mode) s1.socket (transcript "" false) s1 (λ s2. run_engine v ts s2) h1
            (λ k.
              (run_engine-IsSpeaking v ts
                (record s1 { sent = transcript "" false ∷ s1.sent; socket = k })
                (add_plain (transcript "" false) s1 k tt h1)).0))
