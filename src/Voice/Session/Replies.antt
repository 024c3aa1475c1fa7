-- ===== src/Voice/Session/Replies.antt =====
-- A round delivers the whole reply.
use mathlib.Core.List.{append_assoc, append-nil}
use bosimao_release.Prelude.{
  subst, if_false, ℕ, zero, suc, ◌+◌, ◌≤◌, ◌≡◌, refl, sym, ap, ◌∙◌, String, true, false, Option,
  none, some, List, [], ◌∷◌, ◌++◌, arith, Outcome, returned, raised, and_then, length,
}
use bosimao_release.RtcBridge.Frames.Cut.{join}
use bosimao_release.Relay.Frames.{Bytes, chunk_payload, slices, max_audio_chunk_bytes}
use bosimao_release.Relay.Frames.Chunks.{join-slices}
use bosimao_release.Voice.Audio.{PcmRingBuffer, drain}
use bosimao_release.Voice.HalfDuplex.{HalfDuplexResult, process}
use bosimao_release.Voice.Session.{
  State, monitoring, thinking, speaking, Sent, ready, ping, pong, session_state, error_frame,
  transcript, audio_start, audio_frame, audio_end, reply_done, VoiceSession, Services, send_on,
  send, send_state, seal_chunk, next_seq, send_chunks, before, reason_of, send_audio_down,
  set_interrupted, speak, settle_error, settle, run_engine, process_round,
}
use bosimao_release.Voice.Session.Rounds.{IsPlain}

-- The audio that was sent, in order.
abbrev pub audio_of : List Sent → Bytes
audio_of [] = []
audio_of (audio_frame seq ts payload ∷ ms) = audio_of ms ++ payload
audio_of (_ ∷ ms) = audio_of ms

-- A call returns, with what holds of its session.
abbrev pub Returns : Outcome VoiceSession → (VoiceSession → Type 0) → Type 0
Returns (returned s) Q = Q s
Returns (raised s) Q = ⊥

Returns-and_then :
    (Q R : VoiceSession → Type 0) (o : Outcome VoiceSession)
    (f : VoiceSession → Outcome VoiceSession)
    → Returns o Q
    → ((s : VoiceSession) → Q s → Returns (f s) R)
    → Returns (and_then o f) R
Returns-and_then Q R (returned s) f h k = k s h
Returns-and_then Q R (raised s) f h k = absurd h

-- A session in the clear that can still send k times, has sent this audio, and is not interrupted.
record IsAt (k : ℕ) (audio : Bytes) (s : VoiceSession) : Type 0 where
  pub room : k ≤ s.socket
  pub sent_audio : audio_of s.sent ≡ audio
  pub clear_text : s.key ≡ none
  pub steady : s.interrupted ≡ false

audio_plain : (m : Sent) (ms : List Sent) → IsPlain m → audio_of (m ∷ ms) ≡ audio_of ms
audio_plain ready ms h = refl
audio_plain (ping t) ms h = refl
audio_plain (pong t) ms h = refl
audio_plain (session_state t) ms h = refl
audio_plain (error_frame e) ms h = refl
audio_plain (transcript t final) ms h = refl
audio_plain (audio_start f q) ms h = refl
audio_plain (audio_frame q t b) ms h = absurd h
audio_plain (audio_end q r) ms h = absurd h
audio_plain (reply_done r t) ms h = refl

-- A send adds the audio of its frame.
send_Returns :
    (n k : ℕ) (m : Sent) (audio more : Bytes) (s : VoiceSession)
    → suc k ≤ n
    → IsAt 0 audio s
    → audio_of (m ∷ s.sent) ≡ more
    → Returns (send_on n m s) (IsAt k more)
send_Returns zero k m audio more s le h e = absurd (omega arith)
send_Returns (suc n) k m audio more s le h e = record {
  room = omega arith;
  sent_audio = e;
  clear_text = h.clear_text;
  steady = h.steady;
}

forget_room : (k : ℕ) (audio : Bytes) (s : VoiceSession) → IsAt k audio s → IsAt 0 audio s
forget_room k audio s h = record {
  room = omega arith;
  sent_audio = h.sent_audio;
  clear_text = h.clear_text;
  steady = h.steady;
}

weaker : (j k : ℕ) (audio : Bytes) (s : VoiceSession) → j ≤ k → IsAt k audio s → IsAt j audio s
weaker j k audio s le h = record {
  room = omega (arith, h.room);
  sent_audio = h.sent_audio;
  clear_text = h.clear_text;
  steady = h.steady;
}

plain_Returns :
    (k : ℕ) (m : Sent) (audio : Bytes) (s : VoiceSession)
    → IsPlain m
    → IsAt (suc k) audio s
    → Returns (send m s) (IsAt k audio)
plain_Returns k m audio s p h =
    send_Returns s.socket k m audio audio s h.room (forget_room (suc k) audio s h)
      (audio_plain m s.sent p ∙ h.sent_audio)

state_Returns :
    (k : ℕ) (state : State) (audio : Bytes) (s : VoiceSession)
    → IsAt (suc k) audio s
    → Returns (send_state state s) (IsAt k audio)
state_Returns k state audio s h =
    plain_Returns k (session_state state) audio (record s { state = state }) tt
      (record {
        room = h.room;
        sent_audio = h.sent_audio;
        clear_text = h.clear_text;
        steady = h.steady;
      })

chunks_Returns :
    (v : Services) (ts k : ℕ) (audio : Bytes) (cs : List Bytes) (s : VoiceSession)
    → IsAt (length cs + k) audio s
    → Returns (send_chunks v ts cs s) (IsAt k (audio ++ join cs))
unfolding send_chunks
chunks_Returns v ts k audio [] s h = rw (append-nil audio) (record {
  room = omega (arith, h.room);
  sent_audio = h.sent_audio;
  clear_text = h.clear_text;
  steady = h.steady;
})
chunks_Returns v ts k audio (c ∷ cs) s h =
    let m = audio_frame s.down_seq ts (seal_chunk v s.key s.down_seq c) in
    let rest = λ (s' : VoiceSession). send_chunks v ts cs (next_seq s') in
    let clear_chunk : seal_chunk v s.key s.down_seq c ≡ c =
      ap (λ key. seal_chunk v key s.down_seq c) h.clear_text in
    let added : audio_of (m ∷ s.sent) ≡ audio ++ c =
      ap (λ a. a ++ seal_chunk v s.key s.down_seq c) h.sent_audio
      ∙ ap (λ b. audio ++ b) clear_chunk in
    let sent_one =
      send_Returns s.socket (length cs + k) m audio (audio ++ c) s (omega (arith, h.room))
        (forget_room (length (c ∷ cs) + k) audio s h) added in
    subst (λ o. Returns o (IsAt k (audio ++ (c ++ join cs))))
      (sym (if_false s.interrupted (returned s) (and_then (send m s) rest) h.steady))
      (Returns-and_then (IsAt (length cs + k) (audio ++ c)) (IsAt k (audio ++ (c ++ join cs)))
        (send m s) rest sent_one
        (λ s' h'. rw (← append_assoc audio c (join cs)) (
          chunks_Returns v ts k (audio ++ c) cs (next_seq s') (record {
            room = h'.room;
            sent_audio = h'.sent_audio;
            clear_text = h'.clear_text;
            steady = h'.steady;
          }))))

audio_down_Returns :
    (v : Services) (ts k : ℕ) (format : String) (audio new : Bytes) (s : VoiceSession)
    → IsAt (length (slices (length new) max_audio_chunk_bytes new) + (k + 2)) audio s
    → Returns (send_audio_down v new ts format s) (IsAt k (audio ++ new))
unfolding send_audio_down chunk_payload
audio_down_Returns v ts k format audio new s h =
    let cs = slices (length new) max_audio_chunk_bytes new in
    let whole : join cs ≡ new =
      join-slices (length new) max_audio_chunk_bytes new (omega arith) (omega arith) in
    Returns-and_then (IsAt (length cs + suc k) audio) (IsAt k (audio ++ new))
      (send (audio_start format s.down_seq) s) _
      (plain_Returns (length cs + suc k) (audio_start format s.down_seq) audio s tt
        (weaker _ _ audio s (omega arith) h))
      (λ s1 h1.
        Returns-and_then (IsAt (suc k) (audio ++ new)) (IsAt k (audio ++ new))
          (send_chunks v ts cs s1) _ (rw (whole) at (chunks_Returns v ts (suc k) audio cs s1 h1))
          (λ s2 h2.
            send_Returns s2.socket k (audio_end (before s2.down_seq) (reason_of s2.interrupted))
              (audio ++ new) (audio ++ new) s2 h2.room (forget_room (suc k) (audio ++ new) s2 h2)
              h2.sent_audio))

-- A plain send leaves the audio, the key and the buffer.
record IsNext (k : ℕ) (audio : Bytes) (key : Option Bytes) (buffer : PcmRingBuffer)
    (s : VoiceSession) : Type 0 where
  pub room : k ≤ s.socket
  pub same_audio : audio_of s.sent ≡ audio
  pub same_key : s.key ≡ key
  pub same_buffer : s.buffer ≡ buffer

kept_Returns :
    (n k : ℕ) (m : Sent) (s : VoiceSession)
    → suc k ≤ n
    → IsPlain m
    → Returns (send_on n m s) (IsNext k (audio_of s.sent) s.key s.buffer)
kept_Returns zero k m s le p = absurd (omega arith)
kept_Returns (suc n) k m s le p = record {
  room = omega arith;
  same_audio = audio_plain m s.sent p;
  same_key = refl;
  same_buffer = refl;
}

-- The session after a round: it has sent this audio, and monitors.
abbrev pub IsReplied : Bytes → VoiceSession → Type 0
IsReplied audio s = (audio_of s.sent ≡ audio) × (s.state ≡ monitoring) × (s.interrupted ≡ false)

ends_round :
    (audio : Bytes) (s : VoiceSession)
    → IsAt 1 audio s
    → Returns (send_state monitoring (set_interrupted false s)) (IsReplied audio)
ends_round audio s h = ends_on s.socket audio s h.room h.sent_audio
  where
    ends_on :
        (n : ℕ) (audio : Bytes) (s : VoiceSession)
        → 1 ≤ n
        → audio_of s.sent ≡ audio
        → Returns
            (send_on n
              (session_state monitoring)
              (record (set_interrupted false s) { state = monitoring }))
            (IsReplied audio)
    ends_on zero audio s le e = absurd (omega arith)
    ends_on (suc n) audio s le e = (e, refl, refl)

speak_Returns :
    (v : Services) (ts : ℕ) (r : HalfDuplexResult) (audio : Bytes) (s : VoiceSession)
    → IsAt (length (slices (length r.audio_bytes) max_audio_chunk_bytes r.audio_bytes) + 6) audio s
    → Returns (speak v ts r s) (IsReplied (audio ++ r.audio_bytes))
speak_Returns v ts r audio s h =
    let n = length (slices (length r.audio_bytes) max_audio_chunk_bytes r.audio_bytes) in
    let all = audio ++ r.audio_bytes in
    let done = IsReplied all in
    Returns-and_then (IsAt (n + 5) audio) done (send (transcript r.heard true) s) _
      (plain_Returns (n + 5) (transcript r.heard true) audio s tt
        (weaker _ _ audio s (omega arith) h))
      (λ s1 h1.
        Returns-and_then (IsAt (n + 4) audio) done (send_state speaking s1) _
          (state_Returns (n + 4) speaking audio s1 (weaker _ _ audio s1 (omega arith) h1))
          (λ s2 h2.
            Returns-and_then (IsAt 2 all) done (send_audio_down v r.audio_bytes ts r.tts_format s2)
              _ (audio_down_Returns v ts 2 r.tts_format audio r.audio_bytes s2 h2)
              (λ s3 h3.
                Returns-and_then (IsAt 1 all) done (send (reply_done r.route r.reply_text) s3) _
                  (plain_Returns 1 (reply_done r.route r.reply_text) all s3 tt h3)
                  (λ s4 h4. ends_round all s4 h4))))

engine_Returns :
    (v : Services) (ts : ℕ) (r : HalfDuplexResult) (audio : Bytes) (s : VoiceSession)
    → process v.engine (drain s.buffer).0 ≡ some r
    → r.error ≡ none
    → s.key ≡ none
    → audio_of s.sent ≡ audio
    → length (slices (length r.audio_bytes) max_audio_chunk_bytes r.audio_bytes) + 6 ≤ s.socket
    → Returns (run_engine v ts s) (IsReplied (audio ++ r.audio_bytes))
engine_Returns v ts r audio s answered fine clear_ sent room =
    let s' = record s { buffer = (drain s.buffer).1; interrupted = false } in
    let at : IsAt (length (slices (length r.audio_bytes) max_audio_chunk_bytes r.audio_bytes) + 6)
        audio s' =
      record { room = room; sent_audio = sent; clear_text = clear_; steady = refl } in
    rw (answered, fine, settle, settle_error) (speak_Returns v ts r audio s' at)

-- A round of a session without encryption, whose engine answers with a reply and whose connection takes
-- as many sends as the reply has chunks and eight, returns, and it has then sent just the reply's audio
-- in order, monitors and is not interrupted.
pub process_round_Returns :
    (v : Services) (ts : ℕ) (r : HalfDuplexResult) (s : VoiceSession)
    → process v.engine (drain s.buffer).0 ≡ some r
    → r.error ≡ none
    → s.key ≡ none
    → length (slices (length r.audio_bytes) max_audio_chunk_bytes r.audio_bytes) + 8 ≤ s.socket
    → Returns (process_round v ts s) (IsReplied (audio_of s.sent ++ r.audio_bytes))
unfolding process_round
process_round_Returns v ts r s answered fine clear_ room =
    let n = length (slices (length r.audio_bytes) max_audio_chunk_bytes r.audio_bytes) in
    let done = IsReplied (audio_of s.sent ++ r.audio_bytes) in
    Returns-and_then (IsNext (n + 7) (audio_of s.sent) s.key s.buffer) done (send_state thinking s)
      _
      (kept_Returns s.socket (n + 7) (session_state thinking) (record s { state = thinking })
        (omega arith) tt)
      (λ s1 h1.
        Returns-and_then (IsNext (n + 6) (audio_of s1.sent) s1.key s1.buffer) done
          (send (transcript "" false) s1) _
          (kept_Returns s1.socket (n + 6) (transcript "" false) s1 (omega (arith, h1.room)) tt)
          (λ s2 h2.
            engine_Returns v ts r (audio_of s.sent) s2
              (rw (h2.same_buffer, h1.same_buffer) answered) fine
              (h2.same_key ∙ h1.same_key ∙ clear_) (h2.same_audio ∙ h1.same_audio) h2.room))
