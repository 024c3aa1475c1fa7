-- ===== src/Voice/Tests/Tickets.antt =====
-- The theorems on hello proofs and ingest tickets at concrete inputs.
use bosimao_release.Prelude.{
  ◌+◌, ◌<◌, ◌≡◌, ◌≢◌, refl, String, Bool, true, false, Option, none, some, ◌&&◌, arith, ok, err,
  leb, ltb, if◌then◌else◌, ◌=ₛ◌, String_discrete, subst,
}
use bosimao_release.ControlPlane.Payload.{Payload}
use bosimao_release.ControlPlane.Hello.{same_payload}
use bosimao_release.Voice.Jwt.{Claim, text, int, Claims, Options, Jwt, IsJwt, accepts, eddsa_header}
use bosimao_release.Voice.HelloProof.{
  hello_error, Identity, read_identity, hello_claims, hello_header, issue, verify_hello_proof,
}
use bosimao_release.Voice.HelloProof.Verified.{IsNamed, verify-issue}
use bosimao_release.Voice.IngestTicket.{ingest_claims, verify_ingest_ticket}
use bosimao_release.Voice.IngestTicket.Apart.{verify_hello_apart, verify_ingest_lasts}

-- A library whose tokens are their contents.
abbrev Token : Type 0
Token = Payload × Claims

abbrev toy_jwt : Jwt Token
toy_jwt = record {
  is_blank = λ t. false;
  encode = λ key h c. (h, c);
  header_of = λ t. some t.0;
  decode = λ t key o. if accepts o t.1 then some t.1 else none;
}

chosen : (b : Bool) (d c : Claims) → (if b then some d else none) ≡ some c → (d ≡ c) × (b ≡ true)
chosen true d c e = (ground arith, refl)
chosen false d c e = absurd (ground arith)

decode-accepts :
    (o : Options) (d c : Claims)
    → (if accepts o d then some d else none) ≡ some c
    → (d ≡ c) × (accepts o c ≡ true)
decode-accepts o d c e =
    let (same, passed) = chosen (accepts o d) d c e in
    (same, subst (λ x. accepts o x ≡ true) same passed)

same_text : (t : String) → (t =ₛ t) ≡ true
same_text t = ground arith

same_header : (kid : String) → same_payload (eddsa_header kid) (eddsa_header kid) ≡ true
unfolding String_discrete same_payload
same_header kid = rw (same_text kid)

toy_jwt-IsJwt : IsJwt toy_jwt "private" "public"
toy_jwt-IsJwt = record {
  is_blank-encode = λ kid c. refl;
  header-encode = λ kid c. (eddsa_header kid, refl, same_header kid);
  decode-encode = λ kid c o written passed. rw passed refl;
  decode-accepts = λ t o c e. (decode-accepts o t.1 c e).1;
  decode_same =
      λ t o o' c c' e e'. cc ((decode-accepts o t.1 c e).0, (decode-accepts o' t.1 c' e').0);
}

abbrev toy_identity : Identity
toy_identity = record {
  session_id = text "s";
  device_id = text "d";
  room_id = text "r";
  sidecar_user_id = text "u";
  generation = int 2;
}

-- A context that has the identity's keys, and others.
abbrev toy_context : String → Option Claim
toy_context key =
    if key =ₛ "session_id"
    then some (text "s")
    else if key =ₛ "device_id"
    then some (text "d")
    else if key =ₛ "room_id"
    then some (text "r")
    else if key =ₛ "sidecar_user_id"
    then some (text "u")
    else some (int 2)

abbrev toy_proof : Token
toy_proof = (hello_header, hello_claims toy_identity "j" "n" 5)

toy_identity-IsNamed : IsNamed toy_identity
unfolding String_discrete
toy_identity-IsNamed = record {
  session = refl;
  device = refl;
  room = refl;
  sidecar = refl;
  counted = (2, refl);
}

verify-issue_example : verify_hello_proof toy_jwt toy_proof "public" 64 ≡ (
    if leb 5 64 && ltb 64 65
    then ok (hello_claims toy_identity "j" "n" 5)
    else err (hello_error 40112))
unfolding issue read_identity String_discrete
verify-issue_example =
    verify-issue toy_jwt "private" "public" toy_jwt-IsJwt toy_context toy_identity "j" "n" 5 64
      toy_proof refl refl toy_identity-IsNamed refl refl refl

verify_hello_apart_example :
    verify_ingest_ticket toy_jwt toy_proof "public" 7 none
    ≢ ok (hello_claims toy_identity "j" "n" 5)
unfolding verify_hello_proof same_payload String_discrete
verify_hello_apart_example =
    verify_hello_apart toy_jwt "private" "public" toy_jwt-IsJwt toy_proof 6 7 none
      (hello_claims toy_identity "j" "n" 5) (hello_claims toy_identity "j" "n" 5) refl

abbrev toy_ticket_claims : Claims
toy_ticket_claims =
    ingest_claims
      (record {
        session_id = text "s";
        device_id = text "d";
        room_id = text "r";
        generation = int 2;
      })
      "j" 5 300

verify_ingest_lasts_example : 304 < 6 + 300
unfolding verify_ingest_ticket same_payload String_discrete
verify_ingest_lasts_example =
    verify_ingest_lasts toy_jwt (hello_header, toy_ticket_claims) "public" 6 304 none (some "s")
      toy_ticket_claims toy_ticket_claims refl refl
