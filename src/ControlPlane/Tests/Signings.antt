-- ===== src/ControlPlane/Tests/Signings.antt =====
-- The theorem on signed proofs at a concrete input.
use bosimao_release.Prelude.{String, ◌≡◌, refl, none, some, [], ◌∷◌, ok, String_discrete}
use bosimao_release.ControlPlane.Schema.{
  State, Session, Claim, Ledger, empty_ledger, find_session, with_state,
}
use bosimao_release.ControlPlane.Hello.{
  HelloClaims, HelloBody, redeemed, same_payload, insert_hello, create_for_signing_tx,
  create_for_signing, check_body, redeem,
}
use bosimao_release.ControlPlane.Signing.{create-redeem}

abbrev digest : String → String
digest s = s

abbrev hello_claims : HelloClaims
hello_claims = record {
  jti = "j";
  nonce = "n";
  session_id = "s";
  device_id = "d";
  room_id = "r";
  sidecar_user_id = "u";
  generation = 1;
  kid = "k";
  iss = "i";
  aud = "a";
  protocol_version = "1";
  audio_format = [];
  iat = 1;
  exp = 9;
}

abbrev hello_body : HelloBody
hello_body = record {
  jti = "j";
  nonce = "n";
  session_id = "s";
  device_id = "d";
  room_id = "r";
  sidecar_user_id = "u";
  generation = 1;
  protocol_version = "1";
  audio_format = [];
}

abbrev signing_session : Session
signing_session = record {
  session_id = "s";
  device_id = "d";
  room_id = "r";
  generation = 1;
  state = State.signing;
  created_at = 1;
  updated_at = 1;
}

abbrev queued : Claim
queued = record {
  id = 1;
  session_id = "s";
  device_id = "d";
  room_id = "r";
  generation = 1;
  expires_at = 90;
  claim_token_hash = some "t";
  claimed_at = some 1;
  consumed_at = none;
  signed_at = none;
  created_at = 1;
  updated_at = 1;
}

abbrev before : Ledger
before = record empty_ledger { sessions = signing_session ∷ []; claims = queued ∷ [] }

abbrev signed : Ledger
signed = (create_for_signing digest hello_claims "proof" "t" 2 before).1

create-redeem_example :
    ((redeem digest hello_claims "proof" hello_body 3 signed).0 ≡ ok (redeemed hello_claims))
    × (s : Session) × (find_session "s" before ≡ some s)
    × (find_session "s" (redeem digest hello_claims "proof" hello_body 3 signed).1
        ≡ some (with_state State.active 3 s))
unfolding create_for_signing create_for_signing_tx insert_hello check_body same_payload
    String_discrete
create-redeem_example =
    create-redeem digest hello_claims "proof" "t" hello_body 2 3 before signed refl refl refl
