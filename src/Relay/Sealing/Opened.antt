-- ===== src/Relay/Sealing/Opened.antt =====
-- What is sealed is opened, and the key is 32 bytes.
use bosimao_release.Prelude.{
  ℕ, ◌<◌, ◌≡◌, refl, String, Option, none, some, ◌=ₛ◌, ◌==◌, arith, inl, inr, Bool-cases, length,
  length-append, ok, ◌%◌, ◌^◌,
}
use bosimao_release.Relay.Frames.{Bytes, AudioChunk, encode_audio_frame, decode_audio_frame}
use bosimao_release.Relay.Frames.RoundTrip.{take-append, drop-append, decode-encode}
use bosimao_release.Relay.Sealing.{
  Aesgcm, IsAesgcm, aad, encrypt_audio, decrypt_audio, make_e2ee, load_e2ee_key, or_empty,
  derive_key_from_passphrase,
}

decrypt-encrypt :
    (a : Aesgcm) (law : IsAesgcm a) (key nonce payload : Bytes) (seq : ℕ)
    → length nonce ≡ 12
    → decrypt_audio a key seq (encrypt_audio a key nonce seq payload) ≡ ok payload
unfolding decrypt_audio encrypt_audio
decrypt-encrypt a law key nonce payload seq e =
    let sealed = a.seal key nonce payload (aad seq) in
    let opened = law.unseal-seal key nonce payload (aad seq) in
    let tagged = law.length-seal key nonce payload (aad seq) in
    ground (
      arith,
      take-append 12 nonce sealed e,
      drop-append 12 nonce sealed e,
      length-append nonce sealed,
    )

-- What a client sends of a payload, as one frame, and what the other makes of the frame, which the
-- relay passes on as it is.
abbrev pub send_sealed : Aesgcm → Bytes → Bytes → ℕ → ℕ → Bytes → Bytes
send_sealed a key nonce seq ts_ms payload =
    encode_audio_frame seq ts_ms (encrypt_audio a key nonce seq payload)

-- A payload that is sealed under a sequence number below 2 ^ 32 with a nonce of 12 bytes and sent as
-- a frame is decoded to that number and the time modulo 2 ^ 64, and opened under it to the payload,
-- with an AES-GCM whose decryption undoes its encryption.
pub open-send :
    (a : Aesgcm) (law : IsAesgcm a) (key nonce payload : Bytes) (seq ts_ms : ℕ)
    → length nonce ≡ 12
    → seq < 2 ^ 32
    → (c : AudioChunk) × (decode_audio_frame (send_sealed a key nonce seq ts_ms payload) ≡ ok c)
      × (c.seq ≡ seq)
      × (c.ts_ms ≡ ts_ms % 2 ^ 64)
      × (decrypt_audio a key c.seq c.payload ≡ ok payload)
open-send a law key nonce payload seq ts_ms twelve small =
    let sealed = encrypt_audio a key nonce seq payload in
    let same : seq % 2 ^ 32 ≡ seq = omega arith in
    (
      record { seq = seq % 2 ^ 32; ts_ms = ts_ms % 2 ^ 64; payload = sealed },
      decode-encode seq ts_ms sealed,
      same,
      refl,
      rw (same) (decrypt-encrypt a law key nonce payload seq twelve),
    )

-- Whatever the relay's key is loaded from, a key that is loaded has 32 bytes and so is taken by the
-- cipher, with a SHA-256 and a random key of 32 bytes; and the load is never refused, where a text
-- that is stripped has nothing left to strip.
pub load-make :
    (b64decode : String → Option Bytes) (strip : String → String) (sha256 : String → Bytes)
    (fresh : Bytes) (raw : Option String)
    → length fresh ≡ 32
    → ((s : String) → length (sha256 s) ≡ 32)
    → ((s : String) → strip (strip s) ≡ strip s)
    → (key : Bytes) × (load_e2ee_key b64decode strip sha256 fresh raw ≡ ok key)
      × (make_e2ee key ≡ ok key)
unfolding load_e2ee_key make_e2ee derive_key_from_passphrase
load-make b64decode strip sha256 fresh none full digest strips = (fresh, refl, ground arith)
load-make b64decode strip sha256 fresh (some raw) full digest strips =
    elim (Bool-cases (strip raw =ₛ "")) [
      | inl blank ↦ (fresh, ground arith, ground arith)
      | inr given ↦ elim (Bool-cases (length (or_empty (b64decode (strip raw))) == 32)) [
        | inl direct ↦ (or_empty (b64decode (strip raw)), ground arith, ground arith)
        | inr other ↦
            (sha256 (strip raw), ground (arith, strips raw), ground (arith, digest (strip raw)))
      ]
    ]
