-- ===== src/Relay/Tests.antt =====
-- The theorems on the relay at concrete inputs.
use bosimao_release.Prelude.{
  ℕ, ◌-◌, ◌%◌, ◌^◌, ◌≡◌, refl, ap, String, Bool, true, false, Option, none, some, List, [], ◌∷◌,
  ◌++◌, arith, length, take, replicate, ok, length-append, String_discrete,
}
use bosimao_release.Relay.Frames.{
  Bytes, AudioChunk, encode_audio_frame, decode_audio_frame, big_endian, read_from,
}
use bosimao_release.Relay.Frames.RoundTrip.{take-append, encode-decode}
use bosimao_release.Relay.Pairing.{
  text, Json, object, Fields, phone, pc, RelayConfig, Credentials, accept_conn, parse_pair_frame,
}
use bosimao_release.Relay.Pairing.Accepted.{IsShown, accept_conn_needs}
use bosimao_release.Relay.Sealing.{Aesgcm, IsAesgcm, passed, decrypt_audio, check}
use bosimao_release.Relay.Sealing.Guarded.{Grows, passed-Grows}
use bosimao_release.Relay.Sealing.Opened.{open-send, send_sealed}
use bosimao_release.Relay.Store.{bytes_frame, text_frame, Relay, start}
use bosimao_release.Relay.Server.{
  register, connect, unregister, forward, receive, Call, connects, receives, beats, Moment, run,
  beat,
}
use bosimao_release.Relay.Server.Isolation.{IsIsolated}
use bosimao_release.Relay.Server.Isolation.Steps.{run-start-IsIsolated}
use bosimao_release.Relay.Server.Linking.{IsPair}
use bosimao_release.Relay.Server.Delivery.{Spoken}
use bosimao_release.Relay.Server.Replaced.{replaced_unpairs}

abbrev toy_config : RelayConfig
toy_config = record {
  token = "t";
  require_token = true;
  heartbeat_timeout_s = 60;
  session_timeout_s = 600;
}

abbrev phone_credentials : Credentials
phone_credentials = record {
  role = phone;
  device_id = text "p";
  pairing_code = text "42";
  token = text "t";
}

abbrev pc_credentials : Credentials
pc_credentials = record {
  role = pc;
  device_id = text "d";
  pairing_code = text "42";
  token = text "t";
}

abbrev no_json : String → Option Json
no_json raw = none

abbrev works : ℕ → Bool
works i = false

abbrev moment : ℕ → Call → Moment
moment now c = record { call = c; now = now; broken = works }

abbrev both : List Moment
both = moment 1 (connects pc_credentials) ∷ moment 2 (connects phone_credentials) ∷ []

abbrev calls : List Moment
calls = both ++ (moment 3 (receives 1 (bytes_frame (7 ∷ []))) ∷ moment 99 (beats 0) ∷ [])

abbrev alone : Relay
alone = run toy_config no_json (moment 1 (connects pc_credentials) ∷ []) start

abbrev paired_up : Relay
paired_up = run toy_config no_json both start

run-start-IsIsolated_example : IsIsolated (run toy_config no_json calls start)
run-start-IsIsolated_example = run-start-IsIsolated toy_config no_json calls

-- The frame of the phone is passed on.
passed_on : (run toy_config no_json calls start).stats.forwarded ≡ 1
unfolding run connect register receive forward beat String_discrete
passed_on = refl

-- The phone sends a text and then bytes, and the PC answers.
abbrev spoken : List Spoken
spoken =
    record { by_first = true; at_time = 3; frame = text_frame "a" }
    ∷ record { by_first = true; at_time = 4; frame = bytes_frame (7 ∷ []) }
    ∷ record { by_first = false; at_time = 5; frame = text_frame "b" }
    ∷ []

replaced_unpairs_example :
    IsPair (connect works 5 phone_credentials paired_up) 2 0
    × (((unregister works 1 (connect works 5 phone_credentials paired_up)).heap 0).peer ≡ none)
    × (((unregister works 1 (connect works 5 phone_credentials paired_up)).heap 2).peer ≡ some 0)
    × ((receive no_json works 6 0
          (bytes_frame (7 ∷ []))
          (unregister works 1 (connect works 5 phone_credentials paired_up))).log
        ≡ (unregister works 1 (connect works 5 phone_credentials paired_up)).log)
unfolding run connect register String_discrete
replaced_unpairs_example =
    replaced_unpairs no_json works works works 5 6 1 0 phone_credentials (7 ∷ []) paired_up refl
      (run-start-IsIsolated toy_config no_json both) refl refl refl refl

abbrev frame : Bytes
frame = encode_audio_frame 258 7 (9 ∷ [])

encode-decode_example : encode_audio_frame 258 7 (9 ∷ []) ≡ frame
unfolding encode_audio_frame decode_audio_frame big_endian read_from
encode-decode_example =
    encode-decode frame (record { seq = 258; ts_ms = 7; payload = 9 ∷ [] }) (omega arith) refl

-- An AES-GCM that keeps the text and adds a tag.
abbrev toy_aes : Aesgcm
toy_aes = record {
  seal = λ key nonce plain aad. plain ++ replicate 16 0;
  unseal = λ key nonce sealed aad. some (take (length sealed - 16) sealed);
}

toy_aes-IsAesgcm : IsAesgcm toy_aes
toy_aes-IsAesgcm = record {
  unseal-seal = λ key nonce plain aad. ap some (
      take-append (length (plain ++ replicate 16 0) - 16) plain (replicate 16 0)
        (omega (arith, length-append plain (replicate 16 0))));
  length-seal = λ key nonce plain aad. omega (arith, length-append plain (replicate 16 0));
}

abbrev toy_nonce : Bytes
toy_nonce = replicate 12 1

open-send_example :
    (c : AudioChunk) × (decode_audio_frame (send_sealed toy_aes [] toy_nonce 3 8 (5 ∷ [])) ≡ ok c)
    × (c.seq ≡ 3)
    × (c.ts_ms ≡ 8 % 2 ^ 64)
    × (decrypt_audio toy_aes [] c.seq c.payload ≡ ok (5 ∷ []))
open-send_example = open-send toy_aes toy_aes-IsAesgcm [] toy_nonce (5 ∷ []) 3 8 refl (omega arith)

abbrev arrivals : List (String × ℕ)
arrivals = ("up", 1) ∷ ("down", 1) ∷ ("up", 1) ∷ ("up", 4) ∷ ("up", 2) ∷ []

passed-Grows_example : Grows none (passed "up" arrivals [])
passed-Grows_example = passed-Grows "up" arrivals []

arrivals_passed : passed "up" arrivals [] ≡ 1 ∷ 4 ∷ []
unfolding passed check String_discrete
arrivals_passed = refl

abbrev pair_fields : Fields
pair_fields =
    ("type", text "pair")
    ∷ ("role", text "pc")
    ∷ ("device_id", text "d")
    ∷ ("pairing_code", text "42")
    ∷ ("token", text "t")
    ∷ []

accept_conn_needs_example :
    (raw : String) × (msg : Fields) × ◌≡◌ {A = Option String} (some "{}") (some raw)
    × ◌≡◌ {A = Option Json} (some (object pair_fields)) (some (object msg))
    × IsShown toy_config msg pc_credentials
unfolding accept_conn parse_pair_frame String_discrete
accept_conn_needs_example =
    accept_conn_needs (λ raw. some (object pair_fields)) toy_config (some "{}") "" pc_credentials
      refl
