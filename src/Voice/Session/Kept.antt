-- ===== src/Voice/Session/Kept.antt =====
-- What a session keeps over any frames that arrive.
use bosimao_release.Prelude.{
  ℕ, zero, suc, ◌-◌, ◌≡◌, refl, ap, String, Bool, true, false, not, Option, none, some, List, [],
  ◌∷◌, arith, inl, inr, ◌⊎◌, ◌&&◌, Option-cases, Bool-cases, if_lem, if_true, if_false,
  if◌then◌else◌, sym, subst, ◌∙◌, Outcome, returned, raised, and_then, after, Result, ok, err, ltb,
}
use bosimao_release.Relay.Frames.{Bytes, FrameError, AudioChunk, is_audio_frame, decode_audio_frame}
use bosimao_release.Relay.Pairing.{Json, object, plain, Fields, get_field, is_text}
use bosimao_release.Relay.Server.{stamp_of}
use bosimao_release.Relay.Sealing.{
  SealError, invalid_tag, payload_too_short, bad_key_length, blank_passphrase,
}
use bosimao_release.Voice.Audio.{clear, drain}
use bosimao_release.Voice.Audio.Newest.{append-IsSound}
use bosimao_release.Voice.HalfDuplex.{HalfDuplexResult, process}
use bosimao_release.Voice.Session.{
  State, monitoring, listening, thinking, speaking, bad_frame, round_failed, Sent, ping, pong,
  session_state, error_frame, transcript, audio_frame, reply_done, VoiceSession, Services, send_on,
  send, send_state, send_audio_down, set_interrupted, settle_error, settle, run_engine,
  process_round,
}
use bosimao_release.Voice.Session.Loop.{
  wake_up, take_opened, open_chunk, on_audio, ctrl_ok, is_one_of, starts, ends, on_control,
  is_nested, dispatch_json, dispatch_chunk, dispatch_bytes, check_alive, beat, Arrival,
  text_arrives, bytes_arrive, beats, arrive, run, make_session, calls_back, Callback, apm_audio,
  apm_text, apm_state, take_callback, number_on, send_apm_audio, send_apm_text, send_apm_state,
}
use bosimao_release.Voice.Session.Rounds.{
  IsSteady, IsPlain, add_plain, countdown_next, send_lem, send_state-IsSteady,
  process_round-IsSteady,
}

-- A session that does not stream is at rest between frames; what the bridge calls the state of one that
-- streams is the bridge's.
abbrev pub IsResting : Bool → VoiceSession → Type 0
IsResting mode s = (mode ≡ true) ⊎ (s.state ≡ monitoring) ⊎ (s.state ≡ listening)

-- What holds of the session that a call returns.
abbrev Ends : Bool → Outcome VoiceSession → Type 0
Ends mode (returned s) = IsResting mode s
Ends mode (raised s) = Unit

-- A call that keeps a session steady and at rest.
abbrev Keeps : Bool → Outcome VoiceSession → Type 0
Keeps mode o = IsSteady mode (after o) × Ends mode o

abbrev IsKept : Bool → VoiceSession → Type 0
IsKept mode s = IsSteady mode s × ((s.closed ≡ true) ⊎ IsResting mode s)

module _ (mode : Bool) where
  Ends-and_then :
      (o : Outcome VoiceSession) (f : VoiceSession → Outcome VoiceSession)
      → ((s : VoiceSession) → Ends mode (f s))
      → Ends mode (and_then o f)
  Ends-and_then (returned s) f h = h s
  Ends-and_then (raised s) f h = tt

  send_on-Ends :
      (n : ℕ) (m : Sent) (s : VoiceSession) → IsResting mode s → Ends mode (send_on n m s)
  send_on-Ends zero m s h = tt
  send_on-Ends (suc n) m s h = h

  settle-Ends :
      (v : Services) (ts : ℕ) (r : Option HalfDuplexResult) (s : VoiceSession)
      → Ends mode (settle v ts r s)
  settle-Ends v ts none s = tt
  settle-Ends v ts (some r) s = elim (Option-cases r.error) [
    | inl e ↦
        rw (e, settle_error)
          (Ends-and_then (send (transcript r.heard true) s) _ (λ s1.
            Ends-and_then (send_state speaking s1) _ (λ s2.
              Ends-and_then (send_audio_down v r.audio_bytes ts r.tts_format s2) _ (λ s3.
                Ends-and_then (send (reply_done r.route r.reply_text) s3) _ (λ s4.
                  send_on-Ends s4.socket (session_state monitoring)
                    (record (set_interrupted false s4) { state = monitoring }) (inr (inl refl)))))))
    | inr (c, e) ↦
        rw (e, settle_error)
          (Ends-and_then (send (error_frame (round_failed c)) s) _ (λ s1.
            send_on-Ends s1.socket (session_state monitoring) (record s1 { state = monitoring })
              (inr (inl refl))))
  ]

  run_engine-Ends : (v : Services) (ts : ℕ) (s : VoiceSession) → Ends mode (run_engine v ts s)
  run_engine-Ends v ts s =
      settle-Ends v ts (process v.engine (drain s.buffer).0)
        (record s { buffer = (drain s.buffer).1; interrupted = false })

  process_round-Ends : (v : Services) (ts : ℕ) (s : VoiceSession) → Ends mode (process_round v ts s)
  unfolding process_round
  process_round-Ends v ts s =
      Ends-and_then (send_state thinking s) _
        (λ s1. Ends-and_then (send (transcript "" false) s1) _ (λ s2. run_engine-Ends v ts s2))

  send-Keeps :
      (m : Sent) (s : VoiceSession)
      → IsPlain m
      → IsSteady mode s
      → IsResting mode s
      → Keeps mode (send m s)
  send-Keeps m s p h rest = (
    send_lem (IsSteady mode) s.socket m s h (λ k. add_plain m s k p h),
    send_on-Ends s.socket m s rest,
  )

  state-Keeps :
      (state : State) (s : VoiceSession)
      → (state ≡ monitoring) ⊎ (state ≡ listening)
      → IsSteady mode s
      → Keeps mode (send_state state s)
  state-Keeps state s rest h = (
    send_state-IsSteady state s h,
    send_on-Ends s.socket (session_state state) (record s { state = state }) (inr rest),
  )

  on_control-Keeps :
      (v : Services) (now : ℕ) (msg : Fields) (s : VoiceSession)
      → IsSteady mode s
      → IsResting mode s
      → Keeps mode (on_control v now msg s)
  unfolding on_control
  on_control-Keeps v now msg s h rest =
      let t = get_field "type" msg in
      let s' = record s { last_rx = now } in
      let h' : IsSteady mode s' = record {
        numbered = h.numbered;
        whole = h.whole;
        buffered = h.buffered;
        streams = h.streams;
      } in
      if_lem (Keeps mode) (is_text "heartbeat" t) _ _
        (send-Keeps (pong (stamp_of now (get_field "ts" msg))) s' tt h' rest)
        (if_lem (Keeps mode) (is_text "cancel" t) _ _
          (state-Keeps monitoring (record s' { buffer = clear s'.buffer; interrupted = true })
            (inl refl)
            (record {
              numbered = h.numbered;
              whole = h.whole;
              buffered = record { counted = refl; bounded = omega arith };
              streams = h.streams;
            }))
          (if_lem (Keeps mode) (is_text "interrupt" t) _ _
            (state-Keeps listening (set_interrupted true s') (inr refl) (record {
              numbered = h.numbered;
              whole = h.whole;
              buffered = h.buffered;
              streams = h.streams;
            }))
            (if_lem (Keeps mode) (is_one_of starts t) _ _ (state-Keeps listening s' (inr refl) h') (
              if_lem (Keeps mode) (is_one_of ends t) _ _
                (process_round-IsSteady v now s' h', process_round-Ends v now s') (h', rest)))))

  wake_up-rests :
      (s : VoiceSession)
      → IsResting mode s
      → (mode ≡ true) ⊎ (wake_up s.state ≡ monitoring) ⊎ (wake_up s.state ≡ listening)
  wake_up-rests s (inl e) = inl e
  wake_up-rests s (inr (inl e)) = inr (inr (ap wake_up e))
  wake_up-rests s (inr (inr e)) = inr (inr (ap wake_up e))

  take_opened-Keeps :
      (now seq : ℕ) (r : Result SealError Bytes) (s : VoiceSession)
      → IsSteady mode s
      → IsResting mode s
      → Keeps mode (take_opened now seq r s)
  take_opened-Keeps now seq (ok payload) s h rest = (
    record {
      numbered = h.numbered;
      whole = h.whole;
      buffered = append-IsSound payload s.buffer h.buffered;
      streams = h.streams;
    },
    wake_up-rests s rest,
  )
  take_opened-Keeps now seq (err invalid_tag) s h rest = (h, tt)
  take_opened-Keeps now seq (err payload_too_short) s h rest = (h, rest)
  take_opened-Keeps now seq (err bad_key_length) s h rest = (h, rest)
  take_opened-Keeps now seq (err blank_passphrase) s h rest = (h, rest)

  bad_frame-Keeps :
      (s : VoiceSession)
      → IsSteady mode s
      → IsResting mode s
      → Keeps mode (send (error_frame bad_frame) s)
  bad_frame-Keeps s h rest = send-Keeps (error_frame bad_frame) s tt h rest

  dispatch_json-Keeps :
      (v : Services) (now : ℕ) (j : Option Json) (s : VoiceSession)
      → IsSteady mode s
      → IsResting mode s
      → Keeps mode (dispatch_json v now j s)
  dispatch_json-Keeps v now none s h rest = bad_frame-Keeps s h rest
  dispatch_json-Keeps v now (some (plain t)) s h rest = (h, tt)
  dispatch_json-Keeps v now (some (object msg)) s h rest =
      let t = get_field "type" msg in
      if_lem (Keeps mode) (is_nested t) _ _ (h, tt)
        (if_lem (Keeps mode) (not (is_one_of ctrl_ok t)) _ _ (bad_frame-Keeps s h rest) (
          if_lem (Keeps mode) (s.stream_mode && is_one_of ends t) _ _ (h, rest)
            (on_control-Keeps v now msg s h rest)))

  dispatch_chunk-Keeps :
      (v : Services) (now : ℕ) (r : Result FrameError AudioChunk) (s : VoiceSession)
      → IsSteady mode s
      → IsResting mode s
      → Keeps mode (dispatch_chunk v now r s)
  unfolding on_audio
  dispatch_chunk-Keeps v now (err e) s h rest = bad_frame-Keeps s h rest
  dispatch_chunk-Keeps v now (ok c) s h rest =
      if_lem (Keeps mode) s.stream_mode _ _
        (
          record {
            numbered = h.numbered;
            whole = h.whole;
            buffered = h.buffered;
            streams = h.streams;
          },
          rest,
        )
        (take_opened-Keeps now c.seq (open_chunk v s.key c) s h rest)

  check_alive-Keeps :
      (limit now : ℕ) (o : Outcome VoiceSession)
      → IsSteady mode (after o)
      → IsResting mode (after o)
      → Keeps mode (returned (check_alive limit now o))
  check_alive-Keeps limit now (raised s) h rest = (h, rest)
  check_alive-Keeps limit now (returned s) h rest =
      if_lem (λ t. Keeps mode (returned t)) (ltb limit (now - s.last_rx)) _ _
        (
          record {
            numbered = h.numbered;
            whole = h.whole;
            buffered = h.buffered;
            streams = h.streams;
          },
          rest,
        )
        (h, rest)

  beat-Keeps :
      (limit now : ℕ) (s : VoiceSession)
      → IsSteady mode s
      → IsResting mode s
      → Keeps mode (returned (beat limit now s))
  unfolding beat
  beat-Keeps limit now s h rest =
      if_lem (λ t. Keeps mode (returned t)) s.closed s _ (h, rest)
        (check_alive-Keeps limit now (send (ping now) s) (send-Keeps (ping now) s tt h rest).0
          (send_lem (IsResting mode) s.socket (ping now) s rest (λ k. rest)))

  number_on-IsSteady :
      (now n : ℕ) (pcm : Bytes) (s : VoiceSession)
      → IsSteady mode s
      → IsSteady mode (number_on (send_on n (audio_frame s.down_seq now pcm) s))
  number_on-IsSteady now zero pcm s h = h
  number_on-IsSteady now (suc n) pcm s h = record {
    numbered = rw (countdown_next s.down_seq, h.numbered) refl;
    whole = (tt, h.whole);
    buffered = h.buffered;
    streams = h.streams;
  }

  take_callback-IsSteady :
      (now : ℕ) (c : Callback) (s : VoiceSession)
      → IsSteady mode s
      → IsSteady mode (take_callback now c s)
  unfolding send_apm_audio send_apm_text send_apm_state
  take_callback-IsSteady now (apm_audio pcm) s h =
      if_lem (IsSteady mode) s.closed _ _ h (number_on-IsSteady now s.socket pcm s h)
  take_callback-IsSteady now (apm_text t) s h = if_lem (IsSteady mode) s.closed _ _ h (
      send_lem (IsSteady mode) s.socket (transcript t false) s h
        (λ k. add_plain (transcript t false) s k tt h))
  take_callback-IsSteady now (apm_state state) s h =
      if_lem (IsSteady mode) s.closed _ _ h (send_state-IsSteady state s h)

  -- Only a session that streams is called back, and what its state is then is left open.
  calls_back-Keeps :
      (now : ℕ) (c : Callback) (s : VoiceSession)
      → IsSteady mode s
      → IsResting mode s
      → Keeps mode (returned (if s.stream_mode then take_callback now c s else s))
  calls_back-Keeps now c s h rest = elim (Bool-cases s.stream_mode) [
    | inl e ↦
        subst (λ t. Keeps mode (returned t))
          (sym (if_true s.stream_mode (take_callback now c s) s e))
          (take_callback-IsSteady now c s h, inl (sym h.streams ∙ e))
    | inr e ↦
        subst (λ t. Keeps mode (returned t))
          (sym (if_false s.stream_mode (take_callback now c s) s e)) (h, rest)
  ]

  arrive-Keeps :
      (v : Services) (loads : String → Option Json) (limit now : ℕ) (a : Arrival) (s : VoiceSession)
      → IsSteady mode s
      → IsResting mode s
      → Keeps mode (arrive v loads limit now a s)
  unfolding dispatch_bytes
  arrive-Keeps v loads limit now (text_arrives raw) s h rest =
      dispatch_json-Keeps v now (loads raw) s h rest
  arrive-Keeps v loads limit now (bytes_arrive frame) s h rest =
      if_lem (Keeps mode) (not (is_audio_frame frame)) _ _ (bad_frame-Keeps s h rest)
        (dispatch_chunk-Keeps v now (decode_audio_frame frame) s h rest)
  arrive-Keeps v loads limit now beats s h rest = beat-Keeps limit now s h rest
  arrive-Keeps v loads limit now (calls_back c) s h rest = calls_back-Keeps now c s h rest

  -- The rest of the loop, after a frame.
  go_on :
      (rest : VoiceSession → VoiceSession)
      → ((s : VoiceSession) → IsSteady mode s → IsResting mode s → IsKept mode (rest s))
      → (o : Outcome VoiceSession) → Keeps mode o
      → IsKept mode (elim o [ returned s' ↦ rest s' | raised s' ↦ record s' { closed = true } ])
  go_on rest h (returned s') k = h s' k.0 k.1
  go_on rest h (raised s') k = (
    record {
      numbered = k.0.numbered;
      whole = k.0.whole;
      buffered = k.0.buffered;
      streams = k.0.streams;
    },
    inl refl,
  )

  run-IsKept :
      (v : Services) (loads : String → Option Json) (limit : ℕ) (as_ : List (ℕ × Arrival))
      (s : VoiceSession)
      → IsSteady mode s
      → IsResting mode s
      → IsKept mode (run v loads limit as_ s)
  unfolding run
  run-IsKept v loads limit [] s h rest = (h, inr rest)
  run-IsKept v loads limit (a ∷ more) s h rest =
      go_on (run v loads limit more) (λ s'. run-IsKept v loads limit more s')
        (arrive v loads limit a.0 a.1 s) (arrive-Keeps v loads limit a.0 a.1 s h rest)

-- Whatever frames arrive at a new session and whatever its bridge calls, where it streams, whenever its
-- connection breaks and whatever its engine answers: the audio frames that it sent are numbered from 0 in
-- order, no reply that it ended was interrupted, its buffer is counted and within its limit, and it is closed,
-- or it streams, or it is monitoring or listening.
pub run_new-IsKept :
    (v : Services) (loads : String → Option Json) (limit : ℕ) (arrivals : List (ℕ × Arrival))
    (buffer_max_bytes now socket : ℕ) (key : Option Bytes) (stream_mode : Bool)
    → IsSteady stream_mode
        (run v loads limit arrivals (make_session buffer_max_bytes key stream_mode now socket))
      × (((run v loads limit arrivals
              (make_session buffer_max_bytes key stream_mode now socket)).closed
            ≡ true)
          ⊎ IsResting stream_mode (
              run v loads limit arrivals
                (make_session buffer_max_bytes key stream_mode now socket)))
run_new-IsKept v loads limit arrivals buffer_max_bytes now socket key stream_mode =
    run-IsKept stream_mode v loads limit arrivals
      (make_session buffer_max_bytes key stream_mode now socket)
      (record {
        numbered = refl;
        whole = tt;
        buffered = record { counted = refl; bounded = omega arith };
        streams = refl;
      })
      (inr (inl refl))
