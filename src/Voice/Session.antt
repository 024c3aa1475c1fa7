-- ===== src/Voice/Session.antt =====
-- The session of a phone over a WebSocket: backend/app/voice/session.py. The loop of a session awaits the
-- handler of a frame before it receives the next, so a frame is one step; what its heartbeat task and
-- its bridge do meanwhile is not modelled. Times are in milliseconds; the texts of error frames and the times of state frames
-- are left out.
pub mod Loop
pub mod Rounds
pub mod Manager
pub mod Replies
pub mod Kept
use bosimao_release.Prelude.{
  ℕ, zero, suc, ◌+◌, ◌-◌, String, Bool, true, false, not, Option, none, some, List, [], ◌∷◌, ◌==◌,
  ltb, if◌then◌else◌, Outcome, returned, raised, and_then, Result, ok, err,
}
use bosimao_release.Relay.Frames.{
  Bytes, FrameError, AudioChunk, chunk_payload, max_audio_chunk_bytes,
}
use bosimao_release.Relay.Pairing.{Value}
use bosimao_release.Relay.Store.{Stamp}
use bosimao_release.Relay.Sealing.{Aesgcm, encrypt_audio}
use bosimao_release.Voice.Audio.{PcmRingBuffer, drain}
use bosimao_release.Voice.EndDetect.{EndDetectFeeder, Fed}
use bosimao_release.Voice.HalfDuplex.{Route, ErrorCode, HalfDuplexResult, Engine, process}

pub data State : Type 0 where
  monitoring listening thinking speaking reconnected : State

-- The codes of error frames: a bad frame, a failed round, or a session that was replaced.
pub data SentError : Type 0 where
  bad_frame kicked internal : SentError
  round_failed : ErrorCode → SentError

pub data Reason : Type 0 where
  done_reason interrupted_reason : Reason

-- What goes out on the socket. `audio_frame` has the fields of its binary frame; the number of
-- `audio_end` is `none` for -1.
pub data Sent : Type 0 where
  ready : Sent
  ping : ℕ → Sent
  pong : Stamp → Sent
  session_state : State → Sent
  error_frame : SentError → Sent
  transcript : String → Bool → Sent
  audio_start : String → ℕ → Sent
  audio_frame : ℕ → ℕ → Bytes → Sent
  audio_end : Option ℕ → Reason → Sent
  reply_done : Route → String → Sent

-- `VoiceSession`. `sent` is what went out, the newest first, `fed` what the bridge of the streaming mode
-- was given, and `socket` the number of sends that the connection will still take.
pub record VoiceSession : Type 0 where
  pub buffer : PcmRingBuffer
  pub state : State
  pub up_seq : ℕ
  pub down_seq : ℕ
  pub last_rx : ℕ
  pub interrupted : Bool
  pub closed : Bool
  pub key : Option Bytes
  pub stream_mode : Bool
  pub feeder : EndDetectFeeder
  pub sent : List Sent
  pub fed : List Fed
  pub socket : ℕ

-- What a session takes from others: the cipher, the nonce of each frame, and the engine.
pub record Services : Type 0 where
  pub aead : Aesgcm
  pub nonce : ℕ → Bytes
  pub engine : Engine

-- A send raises once the connection is gone.
abbrev pub send_on : ℕ → Sent → VoiceSession → Outcome VoiceSession
send_on zero m s = raised s
send_on (suc n) m s = returned (record s { sent = m ∷ s.sent; socket = n })

abbrev pub send : Sent → VoiceSession → Outcome VoiceSession
send m s = send_on s.socket m s

abbrev pub send_state : State → VoiceSession → Outcome VoiceSession
send_state state s = send (session_state state) (record s { state = state })

abbrev pub seal_chunk : Services → Option Bytes → ℕ → Bytes → Bytes
seal_chunk v none seq chunk = chunk
seal_chunk v (some key) seq chunk = encrypt_audio v.aead key (v.nonce seq) seq chunk

abbrev pub next_seq : VoiceSession → VoiceSession
next_seq s = record s { down_seq = s.down_seq + 1 }

-- The loop of `send_audio_down`.
unfoldable pub send_chunks : Services → ℕ → List Bytes → VoiceSession → Outcome VoiceSession
send_chunks v ts [] s = returned s
send_chunks v ts (c ∷ cs) s =
    let rest = λ (s' : VoiceSession). send_chunks v ts cs (next_seq s') in
    if s.interrupted
    then returned s
    else and_then (send (audio_frame s.down_seq ts (seal_chunk v s.key s.down_seq c)) s) rest

abbrev pub before : ℕ → Option ℕ
before zero = none
before (suc n) = some n

abbrev pub reason_of : Bool → Reason
reason_of interrupted = if interrupted then interrupted_reason else done_reason

abbrev pub send_parts :
    Services → ℕ → Result FrameError (List Bytes) → VoiceSession → Outcome VoiceSession
send_parts v ts (err e) s = raised s
send_parts v ts (ok chunks) s =
    and_then (send_chunks v ts chunks s)
      (λ s'. send (audio_end (before s'.down_seq) (reason_of s'.interrupted)) s')

unfoldable pub send_audio_down : Services → Bytes → ℕ → String → VoiceSession → Outcome VoiceSession
send_audio_down v audio ts format s =
    and_then (send (audio_start format s.down_seq) s)
      (λ s'. send_parts v ts (chunk_payload audio max_audio_chunk_bytes) s')

abbrev pub set_interrupted : Bool → VoiceSession → VoiceSession
set_interrupted b s = record s { interrupted = b }

-- A round whose result has no error.
abbrev pub speak : Services → ℕ → HalfDuplexResult → VoiceSession → Outcome VoiceSession
speak v ts r s = and_then (send (transcript r.heard true) s) (λ s1.
    and_then (send_state speaking s1) (λ s2.
      and_then (send_audio_down v r.audio_bytes ts r.tts_format s2) (λ s3.
        and_then (send (reply_done r.route r.reply_text) s3)
          (λ s4. send_state monitoring (set_interrupted false s4)))))

abbrev pub settle_error :
    Services → ℕ → HalfDuplexResult → Option ErrorCode → VoiceSession → Outcome VoiceSession
settle_error v ts r none s = speak v ts r s
settle_error v ts r (some e) s =
    and_then (send (error_frame (round_failed e)) s) (λ s'. send_state monitoring s')

abbrev pub settle : Services → ℕ → Option HalfDuplexResult → VoiceSession → Outcome VoiceSession
settle v ts none s = raised s
settle v ts (some r) s = settle_error v ts r r.error s

-- The buffer is drained and the engine is run on it; `ts` is the time of the reply.
abbrev pub run_engine : Services → ℕ → VoiceSession → Outcome VoiceSession
run_engine v ts s =
    let (pcm, buffer) = drain s.buffer in
    settle v ts (process v.engine pcm) (record s { buffer = buffer; interrupted = false })

-- `_process_round`
unfoldable pub process_round : Services → ℕ → VoiceSession → Outcome VoiceSession
process_round v ts s =
    and_then (send_state thinking s)
      (λ s1. and_then (send (transcript "" false) s1) (λ s2. run_engine v ts s2))
