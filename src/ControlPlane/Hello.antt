-- ===== src/ControlPlane/Hello.antt =====
-- One-time hello proofs, which take a session from SIGNING through ENTERING to ACTIVE:
-- backend/app/voice/repositories/hello_proofs.py. `pending_sessions.py` queues and hands out the
-- claim that a proof is signed under.
use bosimao_release.Prelude.{
  ℕ, String, Bool, true, false, not, Option, none, some, List, ◌∷◌, ◌=ₛ◌, ◌==◌, ◌&&◌, ◌||◌, ltb,
  if◌then◌else◌, find, update, count, all, Result, ok, err, ◌>>=◌, ◌>>◌, raise_if, or_raise,
}
use bosimao_release.ControlPlane.Payload.{Payload, payload_get, has_key, same_value}
use bosimao_release.ControlPlane.Schema.{
  State, Session, Claim, HelloRow, Ledger, Error, hello_conflict, integrity_error, find_session,
  set_session_state, commit,
}
use bosimao_release.ControlPlane.Retry.{has_some}

-- The claims of a proof.
pub record HelloClaims : Type 0 where
  pub jti : String
  pub nonce : String
  pub session_id : String
  pub device_id : String
  pub room_id : String
  pub sidecar_user_id : String
  pub generation : ℕ
  pub kid : String
  pub iss : String
  pub aud : String
  pub protocol_version : String
  pub audio_format : Payload
  pub iat : ℕ
  pub exp : ℕ

-- What the sidecar sends with the proof to redeem it.
pub record HelloBody : Type 0 where
  pub jti : String
  pub nonce : String
  pub session_id : String
  pub device_id : String
  pub room_id : String
  pub sidecar_user_id : String
  pub generation : ℕ
  pub protocol_version : String
  pub audio_format : Payload

-- What `redeem` returns.
pub record Redeemed : Type 0 where
  pub session_id : String
  pub device_id : String
  pub room_id : String
  pub sidecar_user_id : String
  pub generation : ℕ
  pub expires_at : ℕ

abbrev pub redeemed : HelloClaims → Redeemed
redeemed c = record {
  session_id = c.session_id;
  device_id = c.device_id;
  room_id = c.room_id;
  sidecar_user_id = c.sidecar_user_id;
  generation = c.generation;
  expires_at = c.exp;
}

abbrev pub is_signing : State → Bool
is_signing State.signing = true
is_signing _ = false

abbrev pub is_entering : State → Bool
is_entering State.entering = true
is_entering _ = false

-- `dict` equality of flat objects, whatever the order of the keys: each has the keys of the other, with
-- the same values.
abbrev pub covers : Payload → Payload → Bool
covers p q = all (λ (e : String × _). has_key e.0 p && same_value (payload_get e.0 p) e.1) q

unfoldable pub same_payload : Payload → Payload → Bool
same_payload p q = covers p q && covers q p

-- `_identity(session)` against the claims, without the state.
abbrev pub is_session_of : HelloClaims → Session → Bool
is_session_of c s =
    s.device_id =ₛ c.device_id && s.room_id =ₛ c.room_id && s.generation == c.generation

abbrev pub is_some_text : String → Option String → Bool
is_some_text s none = false
is_some_text s (some t) = t =ₛ s

-- `WHERE session_id, device_id, generation, claim_token_hash … AND signed_at IS NULL`
abbrev pub is_signable : HelloClaims → String → Claim → Bool
is_signable c token_hash p =
    p.session_id =ₛ c.session_id
    && p.device_id =ₛ c.device_id
    && p.generation == c.generation
    && is_some_text token_hash p.claim_token_hash
    && not (has_some p.signed_at)

-- `INSERT INTO control_plane_hello_proofs`, with its keys and its check of the expiry.
unfoldable pub insert_hello : HelloRow → Ledger → Result Error Ledger
insert_hello r l =
    if has_some (
        find
          (λ (x : HelloRow).
            x.jti =ₛ r.jti || x.nonce_hash =ₛ r.nonce_hash || x.proof_hash =ₛ r.proof_hash)
          l.hellos)
      || not (ltb r.issued_at r.expires_at)
    then err integrity_error
    else ok (record l { hellos = r ∷ l.hellos })

module _ (digest : String → String) where
  abbrev pub hello_row : HelloClaims → String → ℕ → HelloRow
  hello_row c proof now = record {
    jti = c.jti;
    nonce_hash = digest c.nonce;
    proof_hash = digest proof;
    session_id = c.session_id;
    device_id = c.device_id;
    room_id = c.room_id;
    sidecar_user_id = c.sidecar_user_id;
    generation = c.generation;
    kid = c.kid;
    issuer = c.iss;
    audience = c.aud;
    protocol_version = c.protocol_version;
    audio_format = c.audio_format;
    issued_at = c.iat;
    expires_at = c.exp;
    consumed_at = none;
    updated_at = now;
  }

  -- The transaction of `create_for_signing`.
  unfoldable pub create_for_signing_tx :
      HelloClaims → String → String → ℕ → Ledger → Result Error (Unit {0} × Ledger)
  unfolding insert_hello
  create_for_signing_tx c proof token_hash now l = do
    session ← or_raise (find_session c.session_id l) (hello_conflict 40914)
    raise_if (not (is_session_of c session && is_signing session.state)) (hello_conflict 40914)
    raise_if (not (count (is_signable c token_hash) l.claims == 1)) (hello_conflict 40914)
    l' ← insert_hello (hello_row c proof now) (record l {
      claims =
          update (is_signable c token_hash)
            (λ p. record p { signed_at = some now; updated_at = now }) l.claims;
    })
    ok (
      tt,
      record l' {
        sessions =
            set_session_state c.session_id (λ s. s.generation == c.generation && is_signing s.state)
              State.entering now l'.sessions;
      },
    )

  unfoldable pub create_for_signing :
      HelloClaims → String → String → ℕ → Ledger → Result Error (Unit {0}) × Ledger
  unfolding create_for_signing_tx
  create_for_signing c proof token_hash now l =
      commit (create_for_signing_tx c proof token_hash now l) l

  -- The checks of the claims against what the sidecar sent.
  unfoldable pub check_body : HelloClaims → HelloBody → Result Error (Unit {0})
  check_body c b = do
    raise_if (not (c.jti =ₛ b.jti && c.nonce =ₛ b.nonce)) (hello_conflict 40113)
    raise_if
        (not (
          c.session_id =ₛ b.session_id
          && c.device_id =ₛ b.device_id
          && c.room_id =ₛ b.room_id
          && c.sidecar_user_id =ₛ b.sidecar_user_id
          && c.generation == b.generation
          && c.protocol_version =ₛ b.protocol_version
          && same_payload c.audio_format b.audio_format))
        (hello_conflict 40111)

  -- The checks of the stored row against the claims.
  unfoldable pub check_row : HelloClaims → String → HelloBody → HelloRow → Result Error (Unit {0})
  check_row c proof b r = do
    raise_if (has_some r.consumed_at) (hello_conflict 40113)
    raise_if (not (r.nonce_hash =ₛ digest b.nonce)) (hello_conflict 40113)
    raise_if (not (r.proof_hash =ₛ digest proof)) (hello_conflict 40111)
    raise_if
        (not (
          r.session_id =ₛ c.session_id
          && r.device_id =ₛ c.device_id
          && r.room_id =ₛ c.room_id
          && r.sidecar_user_id =ₛ c.sidecar_user_id
          && r.generation == c.generation
          && r.kid =ₛ c.kid
          && r.issuer =ₛ c.iss
          && r.audience =ₛ c.aud
          && r.protocol_version =ₛ c.protocol_version))
        (hello_conflict 40914)
    raise_if (not (same_payload r.audio_format c.audio_format)) (hello_conflict 40914)

  -- `UPDATE … SET consumed_at WHERE jti = … AND consumed_at IS NULL`
  abbrev pub consume_row : String → ℕ → List HelloRow → List HelloRow
  consume_row jti now =
      update (λ (r : HelloRow). if r.jti =ₛ jti then not (has_some r.consumed_at) else false)
        (λ r. record r { consumed_at = some now; updated_at = now })

  -- The transaction of `redeem`.
  unfoldable pub redeem_tx :
      HelloClaims → String → HelloBody → ℕ → Ledger → Result Error (Redeemed × Ledger)
  redeem_tx c proof b now l = do
    row ← or_raise (find (λ (r : HelloRow). r.jti =ₛ c.jti) l.hellos) (hello_conflict 40113)
    check_row c proof b row
    session ← or_raise (find_session c.session_id l) (hello_conflict 40914)
    raise_if (not (is_session_of c session && is_entering session.state)) (hello_conflict 40914)
    ok (
      redeemed c,
      record l {
        hellos = consume_row c.jti now l.hellos;
        sessions =
            set_session_state c.session_id
              (λ s. s.generation == c.generation && is_entering s.state) State.active now
              l.sessions;
      },
    )

  unfoldable pub redeem :
      HelloClaims → String → HelloBody → ℕ → Ledger → Result Error Redeemed × Ledger
  redeem c proof b now l = elim (check_body c b) [
    | err e ↦ (err e, l)
    | ok _ ↦ commit (redeem_tx c proof b now l) l
  ]
