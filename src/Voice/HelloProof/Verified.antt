-- ===== src/Voice/HelloProof/Verified.antt =====
-- A proof that was issued is verified while it lasts.
use bosimao_release.Prelude.{
  ok_injective, ℕ, ◌+◌, ◌≡◌, refl, String, true, false, Option, some, ◌&&◌, ◌=ₛ◌, leb, ltb, arith,
  inl, inr, Bool-cases, ok, err, if◌then◌else◌, String_discrete,
}
use bosimao_release.ControlPlane.Hello.{same_payload}
use bosimao_release.Voice.Jwt.{
  Claim, null, text, texts, int, negative, boolean, other, Claims, get_claim, is_claim, is_name,
  is_given, is_json, is_written, Jwt, IsJwt, accepts,
}
use bosimao_release.Voice.HelloProof.{
  hello_error, Identity, read_identity, hello_claims, hello_header, hello_options, audio_format,
  check_claims, issue, verify_hello_proof,
}

-- An identity of texts that are not empty, and a generation.
pub record IsNamed (i : Identity) : Type 0 where
  pub session : is_name (some i.session_id) ≡ true
  pub device : is_name (some i.device_id) ≡ true
  pub room : is_name (some i.room_id) ≡ true
  pub sidecar : is_name (some i.sidecar_user_id) ≡ true
  pub counted : (n : ℕ) × (i.generation ≡ int n)

-- A name is written as JSON, and is given.
name_given : (v : Claim) → is_name (some v) ≡ true → is_given (some v) && is_json v ≡ true
name_given (text t) e = refl
name_given null e = cc
name_given (texts ts) e = cc
name_given (int n) e = cc
name_given (negative n) e = cc
name_given (boolean b) e = cc
name_given (Claim.table p) e = cc
name_given (other t) e = cc

accepts_hello :
    (i : Identity) (jti nonce : String) (t : ℕ)
    → IsNamed i
    → accepts hello_options (hello_claims i jti nonce t) ≡ true
unfolding String_discrete
accepts_hello i jti nonce t named = rw (named.counted.1) (
    ground (
      arith,
      name_given i.session_id named.session,
      name_given i.device_id named.device,
      name_given i.room_id named.room,
      name_given i.sidecar_user_id named.sidecar,
    ))

is_written_hello :
    (i : Identity) (jti nonce : String) (t : ℕ)
    → IsNamed i
    → is_written (hello_claims i jti nonce t) ≡ true
unfolding String_discrete
is_written_hello i jti nonce t named = rw (named.counted.1) (
    ground (
      arith,
      name_given i.session_id named.session,
      name_given i.device_id named.device,
      name_given i.room_id named.room,
      name_given i.sidecar_user_id named.sidecar,
    ))

same_format : same_payload audio_format audio_format ≡ true
unfolding String_discrete same_payload
same_format = refl

-- The claims that the check reads.
record IsRead (i : Identity) (jti nonce : String) (t : ℕ) (c : Claims) : Type 0 where
  pub iat : get_claim "iat" c ≡ some (int t)
  pub exp : get_claim "exp" c ≡ some (int (t + 60))
  pub version : is_claim "1.0" (get_claim "protocol_version" c) ≡ true
  pub format : get_claim "audio_format" c ≡ some (Claim.table audio_format)
  pub generation : get_claim "generation" c ≡ some i.generation
  pub session : get_claim "session_id" c ≡ some i.session_id
  pub device : get_claim "device_id" c ≡ some i.device_id
  pub room : get_claim "room_id" c ≡ some i.room_id
  pub sidecar : get_claim "sidecar_user_id" c ≡ some i.sidecar_user_id
  pub jti_claim : get_claim "jti" c ≡ some (text jti)
  pub nonce_claim : get_claim "nonce" c ≡ some (text nonce)

hello_claims-IsRead :
    (i : Identity) (jti nonce : String) (t : ℕ) → IsRead i jti nonce t (hello_claims i jti nonce t)
unfolding String_discrete
hello_claims-IsRead i jti nonce t = record {
  iat = refl;
  exp = refl;
  version = refl;
  format = refl;
  generation = refl;
  session = refl;
  device = refl;
  room = refl;
  sidecar = refl;
  jti_claim = refl;
  nonce_claim = refl;
}

check-issued :
    (i : Identity) (jti nonce : String) (t now : ℕ) (c : Claims)
    → IsNamed i
    → (jti =ₛ "") ≡ false
    → (nonce =ₛ "") ≡ false
    → IsRead i jti nonce t c
    → check_claims now c ≡ (if leb t now && ltb now (t + 60) then ok c else err (hello_error 40112))
check-issued i jti nonce t now c named jti_full nonce_full r =
    rw
      (
        r.iat, r.exp, r.version, r.format, r.generation, r.session, r.device, r.room, r.sidecar,
        r.jti_claim, r.nonce_claim, named.counted.1,
      )
      (ground (arith, named.session, named.device, named.room, named.sidecar, same_format))

-- A proof that is issued under a pair of keys is verified from the second of its issue for 60 seconds, as
-- the claims of the context with its identifier, nonce and times, and is refused with 40112 before and
-- after; the context names a session, a device, a room and a sidecar and has a generation, and the
-- identifier and the nonce are not empty.
pub verify-issue :
    {Token : Type 0} (j : Jwt Token) (private_key public_key : String)
    (law : IsJwt j private_key public_key) (context : String → Option Claim) (i : Identity)
    (jti nonce : String) (t now : ℕ) (proof : Token)
    → issue j private_key context jti nonce t ≡ ok proof
    → read_identity context ≡ ok i
    → IsNamed i
    → (jti =ₛ "") ≡ false
    → (nonce =ₛ "") ≡ false
    → (public_key =ₛ "") ≡ false
    → verify_hello_proof j proof public_key now ≡ (
        if leb t now && ltb now (t + 60)
        then ok (hello_claims i jti nonce t)
        else err (hello_error 40112))
unfolding issue verify_hello_proof
verify-issue j private_key public_key law context i jti nonce t now proof issued read named jti_full
      nonce_full keyed =
    let c = hello_claims i jti nonce t in
    let kid : String = "cp-hello-ed25519-v1" in
    elim (Bool-cases (private_key =ₛ "")) [
      | inl blank ↦ absurd (ground arith)
      | inr there ↦
          let made : j.encode private_key hello_header c ≡ proof =
            ok_injective (j.encode private_key hello_header c) proof (rw (there, read) at issued) in
          let (h, read_header, same_header) = law.header-encode kid c in
          rw (← made) (
            rw
              (
                law.is_blank-encode kid c,
                keyed,
                read_header,
                same_header,
                law.decode-encode kid c hello_options (is_written_hello i jti nonce t named)
                    (accepts_hello i jti nonce t named),
              )
              (check-issued i jti nonce t now c named jti_full nonce_full
                (hello_claims-IsRead i jti nonce t)))
    ]
