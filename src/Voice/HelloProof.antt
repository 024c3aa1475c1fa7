-- ===== src/Voice/HelloProof.antt =====
-- The signed proof with which a sidecar enters a session: backend/app/voice/hello_proof.py.
pub mod Verified
use bosimao_release.Prelude.{
  ℕ, ◌+◌, String, Bool, true, false, not, Option, none, some, List, [], ◌∷◌, ◌&&◌, ◌||◌, ◌=ₛ◌, ◌==◌,
  all, leb, ltb, Result, ok, err, ◌>>=◌, ◌>>◌, raise_if, or_raise,
}
use bosimao_release.ControlPlane.Payload
use bosimao_release.ControlPlane.Payload.{Payload}
use bosimao_release.ControlPlane.Hello.{same_payload}
use bosimao_release.Voice.Jwt.{
  Claim, text, int, negative, boolean, table, other, Claims, get_claim, is_claim, is_name, Options,
  Jwt, eddsa_header,
}

-- `HelloProofError` with its code, and the `ValueError`s of the signer.
pub data ProofError : Type 0 where
  hello_error : ℕ → ProofError
  key_unavailable context_incomplete : ProofError

abbrev pub issuer_name : String
issuer_name = "commercial-control-plane"

abbrev pub hello_audience : String
hello_audience = "rtc_bridge"

abbrev pub proof_ttl_seconds : ℕ
proof_ttl_seconds = 60

abbrev pub audio_format : Payload
audio_format =
    ("encoding", Payload.text "pcm_s16le")
    ∷ ("sample_rate_hz", Payload.int 16000)
    ∷ ("channels", Payload.int 1)
    ∷ ("frame_ms", Payload.int 20)
    ∷ ("frame_bytes", Payload.int 640)
    ∷ []

abbrev pub hello_header : Payload
hello_header = eddsa_header "cp-hello-ed25519-v1"

abbrev pub required_claims : List String
required_claims =
    "iss" ∷ "aud" ∷ "jti" ∷ "session_id" ∷ "device_id" ∷ "room_id" ∷ "sidecar_user_id"
    ∷ "generation" ∷ "nonce" ∷ "protocol_version" ∷ "audio_format" ∷ "iat" ∷ "exp" ∷ []

-- The values of the identity keys in the context.
pub record Identity : Type 0 where
  pub session_id : Claim
  pub device_id : Claim
  pub room_id : Claim
  pub sidecar_user_id : Claim
  pub generation : Claim

unfoldable pub read_identity : (String → Option Claim) → Result ProofError Identity
read_identity context = do
  session_id ← or_raise (context "session_id") context_incomplete
  device_id ← or_raise (context "device_id") context_incomplete
  room_id ← or_raise (context "room_id") context_incomplete
  sidecar_user_id ← or_raise (context "sidecar_user_id") context_incomplete
  generation ← or_raise (context "generation") context_incomplete
  ok (record {
    session_id = session_id;
    device_id = device_id;
    room_id = room_id;
    sidecar_user_id = sidecar_user_id;
    generation = generation;
  })

abbrev pub hello_claims : Identity → String → String → ℕ → Claims
hello_claims i jti nonce issued_at =
    ("iss", text issuer_name)
    ∷ ("aud", text hello_audience)
    ∷ ("jti", text jti)
    ∷ ("session_id", i.session_id)
    ∷ ("device_id", i.device_id)
    ∷ ("room_id", i.room_id)
    ∷ ("sidecar_user_id", i.sidecar_user_id)
    ∷ ("generation", i.generation)
    ∷ ("nonce", text nonce)
    ∷ ("protocol_version", text "1.0")
    ∷ ("audio_format", table audio_format)
    ∷ ("iat", int issued_at)
    ∷ ("exp", int (issued_at + proof_ttl_seconds))
    ∷ []

-- `iat` and `exp` are integers, the second 60 more than the first, and the time is between them.
abbrev pub is_current : ℕ → Option Claim → Option Claim → Bool
is_current now (some (int iat)) (some (int exp)) =
    exp == iat + proof_ttl_seconds && leb iat now && ltb now exp
is_current now (some (negative n)) (some (int exp)) = exp + n == proof_ttl_seconds && ltb now exp
is_current now _ _ = false

abbrev pub is_audio_format : Option Claim → Bool
is_audio_format (some (table p)) = same_payload p audio_format
is_audio_format _ = false

-- `isinstance(…, int)` and at least 0, which Booleans are too.
abbrev pub is_generation : Option Claim → Bool
is_generation (some (int n)) = true
is_generation (some (boolean b)) = true
is_generation _ = false

abbrev pub names : List String
names = "session_id" ∷ "device_id" ∷ "room_id" ∷ "sidecar_user_id" ∷ "jti" ∷ "nonce" ∷ []

abbrev pub hello_options : Options
hello_options = record {
  audience = some hello_audience;
  issuer = issuer_name;
  required = required_claims;
}

abbrev pub check_claims : ℕ → Claims → Result ProofError Claims
check_claims now c = do
  raise_if (not (is_current now (get_claim "iat" c) (get_claim "exp" c))) (hello_error 40112)
  raise_if (not (is_claim "1.0" (get_claim "protocol_version" c))) (hello_error 40111)
  raise_if (not (is_audio_format (get_claim "audio_format" c))) (hello_error 40111)
  raise_if (not (is_generation (get_claim "generation" c))) (hello_error 40111)
  raise_if (not (all (λ key. is_name (get_claim key c)) names)) (hello_error 40111)
  ok c

module _ {Token : Type 0} (j : Jwt Token) where
  -- `HelloProofSigner.issue` without extra headers: the proof; uuid4 and token_urlsafe give the
  -- identifier and the nonce.
  unfoldable pub issue :
      String → (String → Option Claim) → String → String → ℕ → Result ProofError Token
  issue private_key context jti nonce issued_at = do
    raise_if (private_key =ₛ "") key_unavailable
    i ← read_identity context
    ok (j.encode private_key hello_header (hello_claims i jti nonce issued_at))

  unfoldable pub verify_hello_proof : Token → String → ℕ → Result ProofError Claims
  verify_hello_proof proof public_key now = do
    raise_if (j.is_blank proof || (public_key =ₛ "")) (hello_error 40111)
    header ← or_raise (j.header_of proof) (hello_error 40111)
    raise_if (not (same_payload header hello_header)) (hello_error 40111)
    claims ← or_raise (j.decode proof public_key hello_options) (hello_error 40111)
    check_claims now claims
