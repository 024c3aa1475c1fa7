-- ===== src/ControlPlane/History.antt =====
-- Any sequence of calls on the ledger: the facade `SessionLedger` of
-- backend/app/voice/control_plane.py together with the claims and the hello proofs, which share its tables.
use bosimao_release.Prelude.{ℕ, String, Option, List, [], ◌∷◌}
use bosimao_release.ControlPlane.Payload.{Payload, Hashing}
use bosimao_release.ControlPlane.Cipher.{Bytes, Aead, UserSigCipher}
use bosimao_release.ControlPlane.Schema.{State, Ledger}
use bosimao_release.ControlPlane.Sessions.{create_session, begin_termination}
use bosimao_release.ControlPlane.Acks.Calls.{AckCall, record_ack, finish_termination}
use bosimao_release.ControlPlane.Retry.{retry_termination}
use bosimao_release.ControlPlane.Kws.{mark_kws_ready}
use bosimao_release.ControlPlane.Wake.{WakeCall}
use bosimao_release.ControlPlane.Wake.Consume.{consume_wake}
use bosimao_release.ControlPlane.Claims.{claim_one}
use bosimao_release.ControlPlane.Hello.{HelloClaims, HelloBody, create_for_signing, redeem}

-- What the ledger takes from outside.
pub record Host : Type 0 where
  pub hashing : Hashing
  pub aead : Aead
  pub iso8601 : ℕ → String
  pub cipher : Option UserSigCipher

-- A call with its arguments; the values of `uuid4()` and `urandom()` are among them.
pub data Call : Type 0 where
  create : String → String → String → ℕ → State → Call
  begin : String → ℕ → String → Payload → String → Call
  acknowledge : AckCall → Call
  finish : String → String → Call
  retry : String → String → String → String → String → Call
  kws_ready : String → ℕ → String → Payload → Call
  wake : WakeCall → Bytes → Call
  hand_out : String → Call
  sign : HelloClaims → String → String → Call
  redeem_hello : HelloClaims → String → HelloBody → Call

module _ (h : Host) where
  -- The ledger after a call, made at the time that stands before it.
  unfoldable pub step : Ledger → ℕ × Call → Ledger
  step l (now, create session device room generation state) =
      (create_session session device room generation state now l).1
  step l (now, begin session generation request payload id) =
      (begin_termination h.hashing session generation request payload id now l).1
  step l (now, acknowledge c) = (record_ack c now l).1
  step l (now, finish k result) = (finish_termination k result now l).1
  step l (now, retry session parent request reason id) =
      (retry_termination h.hashing session parent request reason id now l).1
  step l (now, kws_ready session generation reporter evidence) =
      (mark_kws_ready session generation reporter evidence now l).1
  step l (now, wake c nonce) = (consume_wake h.hashing h.aead h.iso8601 h.cipher c nonce now l).1
  step l (now, hand_out token) = (claim_one h.hashing.sha256_hex token now l).1
  step l (now, sign c proof token_hash) =
      (create_for_signing h.hashing.sha256_hex c proof token_hash now l).1
  step l (now, redeem_hello c proof body) = (redeem h.hashing.sha256_hex c proof body now l).1

  unfoldable pub run : Ledger → List (ℕ × Call) → Ledger
  run l [] = l
  run l (c ∷ cs) = run (step l c) cs
