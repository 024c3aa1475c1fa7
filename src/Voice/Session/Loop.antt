-- ===== src/Voice/Session/Loop.antt =====
-- The frames of a session and its loop: `on_audio`, `on_control`, `_dispatch_text`, `_dispatch_bytes`,
-- `_heartbeat_loop`, `run_session` and the calls of the bridge of backend/app/voice/session.py.
use bosimao_release.Prelude.{
  ℕ, ◌-◌, String, Bool, true, false, not, Option, none, some, List, [], ◌∷◌, ◌&&◌, any, ltb,
  if◌then◌else◌, Outcome, returned, raised, after, Result, ok, err,
}
use bosimao_release.Relay.Frames.{Bytes, FrameError, AudioChunk, is_audio_frame, decode_audio_frame}
use bosimao_release.Relay.Pairing.{Value, nested, Json, object, plain, Fields, get_field, is_text}
use bosimao_release.Relay.Server.{stamp_of}
use bosimao_release.Relay.Sealing.{SealError, invalid_tag, decrypt_audio}
use bosimao_release.Voice.Audio.{append, clear, make_ring}
use bosimao_release.Voice.EndDetect.{feed}
use bosimao_release.Voice.Session.{
  State, monitoring, listening, bad_frame, ping, pong, error_frame, transcript, audio_frame,
  VoiceSession, Services, send, send_state, next_seq, set_interrupted, process_round,
}

abbrev pub wake_up : State → State
wake_up monitoring = listening
wake_up state = state

abbrev pub take_audio : ℕ → ℕ → Bytes → VoiceSession → VoiceSession
take_audio now seq payload s = record s {
  up_seq = seq;
  last_rx = now;
  buffer = append payload s.buffer;
  state = wake_up s.state;
}

-- `except ValueError` takes the texts that are too short; `InvalidTag` of the library is none.
abbrev pub take_opened : ℕ → ℕ → Result SealError Bytes → VoiceSession → Outcome VoiceSession
take_opened now seq (ok payload) s = returned (take_audio now seq payload s)
take_opened now seq (err invalid_tag) s = raised s
take_opened now seq (err e) s = returned s

abbrev pub open_chunk : Services → Option Bytes → AudioChunk → Result SealError Bytes
open_chunk v none c = ok c.payload
open_chunk v (some key) c = decrypt_audio v.aead key c.seq c.payload

unfoldable pub on_audio : Services → ℕ → AudioChunk → VoiceSession → Outcome VoiceSession
on_audio v now c s = take_opened now c.seq (open_chunk v s.key c) s

-- The types of control frames, `CTRL_OK`, and those that `on_control` takes together.
abbrev pub ctrl_ok : List String
ctrl_ok =
    "hello" ∷ "audio_start" ∷ "audio_end" ∷ "wake" ∷ "cancel" ∷ "heartbeat" ∷ "speech_start"
    ∷ "speech_end" ∷ "interrupt" ∷ []

abbrev pub is_one_of : List String → Option Value → Bool
is_one_of words v = any (λ word. is_text word v) words

abbrev pub starts : List String
starts = "audio_start" ∷ "speech_start" ∷ "wake" ∷ []

abbrev pub ends : List String
ends = "audio_end" ∷ "speech_end" ∷ []

unfoldable pub on_control : Services → ℕ → Fields → VoiceSession → Outcome VoiceSession
on_control v now msg s =
    let t = get_field "type" msg in
    let s' = record s { last_rx = now } in
    if is_text "heartbeat" t
    then send (pong (stamp_of now (get_field "ts" msg))) s'
    else if is_text "cancel" t
    then send_state monitoring (record s' { buffer = clear s'.buffer; interrupted = true })
    else if is_text "interrupt" t
    then send_state listening (set_interrupted true s')
    else if is_one_of starts t
    then send_state listening s'
    else if is_one_of ends t
    then process_round v now s'
    else returned s'

abbrev pub is_nested : Option Value → Bool
is_nested (some (nested t truth)) = true
is_nested _ = false

-- A type that is a list or an object cannot be looked up in the set `CTRL_OK`, which raises.
abbrev pub dispatch_fields : Services → ℕ → Fields → VoiceSession → Outcome VoiceSession
dispatch_fields v now msg s =
    let t = get_field "type" msg in
    if is_nested t
    then raised s
    else if not (is_one_of ctrl_ok t)
    then send (error_frame bad_frame) s
    else if s.stream_mode && is_one_of ends t
    then returned s
    else on_control v now msg s

abbrev pub dispatch_json : Services → ℕ → Option Json → VoiceSession → Outcome VoiceSession
dispatch_json v now none s = send (error_frame bad_frame) s
dispatch_json v now (some (plain t)) s = raised s
dispatch_json v now (some (object msg)) s = dispatch_fields v now msg s

-- In streaming mode the chunk goes to the bridge, which was made with the session.
abbrev pub stream_chunk : ℕ → AudioChunk → VoiceSession → VoiceSession
stream_chunk now c s =
    let (out, feeder) = feed now c.payload s.feeder in
    record s { up_seq = c.seq; last_rx = now; feeder = feeder; fed = out ∷ s.fed }

abbrev pub dispatch_chunk :
    Services → ℕ → Result FrameError AudioChunk → VoiceSession → Outcome VoiceSession
dispatch_chunk v now (err e) s = send (error_frame bad_frame) s
dispatch_chunk v now (ok c) s =
    if s.stream_mode then returned (stream_chunk now c s) else on_audio v now c s

unfoldable pub dispatch_bytes : Services → ℕ → Bytes → VoiceSession → Outcome VoiceSession
dispatch_bytes v now frame s =
    if not (is_audio_frame frame)
    then send (error_frame bad_frame) s
    else dispatch_chunk v now (decode_audio_frame frame) s

-- A round of `_heartbeat_loop`. When it cannot send it ends, and the session goes on.
abbrev pub check_alive : ℕ → ℕ → Outcome VoiceSession → VoiceSession
check_alive limit now (raised s) = s
check_alive limit now (returned s) =
    if ltb limit (now - s.last_rx) then record s { closed = true } else s

unfoldable pub beat : ℕ → ℕ → VoiceSession → VoiceSession
beat limit now s = if s.closed then s else check_alive limit now (send (ping now) s)

-- What the bridge of the streaming mode calls back. A frame is numbered on when it was sent, and what a
-- send raises ends the call or the bridge's task, and not the session.
abbrev pub number_on : Outcome VoiceSession → VoiceSession
number_on (returned s) = next_seq s
number_on (raised s) = s

unfoldable pub send_apm_audio : ℕ → Bytes → VoiceSession → VoiceSession
send_apm_audio now pcm s =
    if s.closed then s else number_on (send (audio_frame s.down_seq now pcm) s)

unfoldable pub send_apm_text : String → VoiceSession → VoiceSession
send_apm_text t s = if s.closed then s else after (send (transcript t false) s)

unfoldable pub send_apm_state : State → VoiceSession → VoiceSession
send_apm_state state s = if s.closed then s else after (send_state state s)

pub data Callback : Type 0 where
  apm_audio : Bytes → Callback
  apm_text : String → Callback
  apm_state : State → Callback

abbrev pub take_callback : ℕ → Callback → VoiceSession → VoiceSession
take_callback now (apm_audio pcm) s = send_apm_audio now pcm s
take_callback now (apm_text t) s = send_apm_text t s
take_callback now (apm_state state) s = send_apm_state state s

-- What comes to a session: frames, the rounds of its heartbeat, and, where it has a bridge, its calls.
pub data Arrival : Type 0 where
  text_arrives : String → Arrival
  bytes_arrive : Bytes → Arrival
  beats : Arrival
  calls_back : Callback → Arrival

module _ (v : Services) (loads : String → Option Json) (limit : ℕ) where
  abbrev pub arrive : ℕ → Arrival → VoiceSession → Outcome VoiceSession
  arrive now (text_arrives raw) s = dispatch_json v now (loads raw) s
  arrive now (bytes_arrive frame) s = dispatch_bytes v now frame s
  arrive now beats s = returned (beat limit now s)
  arrive now (calls_back c) s = returned (if s.stream_mode then take_callback now c s else s)

  -- The loop of `run_session`, which an exception ends, and its end, which closes the session.
  unfoldable pub run : List (ℕ × Arrival) → VoiceSession → VoiceSession
  run [] s = s
  run (a ∷ more) s = elim (arrive a.0 a.1 s) [
    | returned s' ↦ run more s'
    | raised s' ↦ record s' { closed = true }
  ]

-- A new session: its buffer has its limit, and its feeder the time.
abbrev pub make_session : ℕ → Option Bytes → Bool → ℕ → ℕ → VoiceSession
make_session buffer_max_bytes key stream_mode now socket = record {
  buffer = make_ring buffer_max_bytes;
  state = monitoring;
  up_seq = 0;
  down_seq = 0;
  last_rx = now;
  interrupted = false;
  closed = false;
  key = key;
  stream_mode = stream_mode;
  feeder = record {
    silence = 1200;
    pad = 2000;
    sample_rate = 16000;
    last_voice_ts = now;
    silence_padded = false;
  };
  sent = [];
  fed = [];
  socket = socket;
}
