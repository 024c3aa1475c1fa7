-- ===== src/ControlPlane/Signing.antt =====
-- From the signing of a hello proof to its redemption: backend/app/voice/repositories/hello_proofs.py.
use bosimao_release.Prelude.{
  ℕ, ◌≡◌, refl, String, Bool, true, some, List, ◌∷◌, ◌=ₛ◌, ◌==◌, ◌&&◌, arith, find, inl, inr,
  Bool-cases, Option-cases, ok, lookup-update,
}
use bosimao_release.ControlPlane.Schema.{
  State, Session, HelloRow, Ledger, find_session, set_session_state, with_state, session_at,
}
use bosimao_release.ControlPlane.Hello.{
  HelloClaims, HelloBody, redeemed, is_signing, is_entering, same_payload, is_session_of,
  insert_hello, hello_row, create_for_signing_tx, create_for_signing, check_body, check_row,
  redeem_tx, redeem,
}

-- An update of one session's state, where the test is passed.
moved :
    (k : String) (p : Session → Bool) (st : State) (now : ℕ) (ss : List Session) (s : Session)
    → session_at k ss ≡ some s
    → p s ≡ true
    → session_at k (set_session_state k p st now ss) ≡ some (with_state st now s)
moved k p st now ss s e passed =
    ground (
      arith,
      lookup-update (λ (x : Session). x.session_id) p (with_state st now) k k ss (λ a. refl),
    )

-- The ledger after a proof was signed.
record IsSigned (digest : String → String) (c : HelloClaims) (proof : String) (now : ℕ)
    (l l' : Ledger) (s : Session) : Type 0 where
  pub was : find_session c.session_id l ≡ some s
  pub fits : is_session_of c s ≡ true
  pub is : find_session c.session_id l' ≡ some (with_state State.entering now s)
  pub row : l'.hellos ≡ hello_row digest c proof now ∷ l.hellos

create-IsSigned :
    (digest : String → String) (c : HelloClaims) (proof token_hash : String) (now : ℕ)
    (l l' : Ledger)
    → create_for_signing digest c proof token_hash now l ≡ (ok tt, l')
    → (s : Session) × IsSigned digest c proof now l l' s
unfolding create_for_signing create_for_signing_tx insert_hello
create-IsSigned digest c proof token_hash now l l' e =
    elim (Option-cases (find_session c.session_id l)) [
      | inl missing ↦ absurd (ground arith)
      | inr (s, found) ↦ elim (Bool-cases (is_session_of c s && is_signing s.state)) [
        | inr other ↦ absurd (ground arith)
        | inl good ↦
            let at =
              moved c.session_id (λ x. x.generation == c.generation && is_signing x.state)
                State.entering now l.sessions s found (ground arith) in
            (s, ground (arith, at))
      ]
    ]

-- What a redemption needs of the row.
check_own :
    (digest : String → String) (c : HelloClaims) (proof : String) (b : HelloBody) (now : ℕ)
    → check_body digest c b ≡ ok tt
    → same_payload c.audio_format c.audio_format ≡ true
    → check_row digest c proof b (hello_row digest c proof now) ≡ ok tt
unfolding check_body check_row
check_own digest c proof b now fits format = ground arith

-- A proof that was signed into the ledger is redeemed from it by a body that matches its claims, at
-- whatever time, if the audio format equals itself as a JSON object: the answer is that of the claims,
-- and the session, which the ledger had before the signing, is then ACTIVE.
pub create-redeem :
    (digest : String → String) (c : HelloClaims) (proof token_hash : String) (b : HelloBody)
    (now later : ℕ) (l l' : Ledger)
    → create_for_signing digest c proof token_hash now l ≡ (ok tt, l')
    → check_body digest c b ≡ ok tt
    → same_payload c.audio_format c.audio_format ≡ true
    → ((redeem digest c proof b later l').0 ≡ ok (redeemed c))
      × (s : Session) × (find_session c.session_id l ≡ some s)
      × (find_session c.session_id (redeem digest c proof b later l').1
          ≡ some (with_state State.active later s))
unfolding redeem redeem_tx
create-redeem digest c proof token_hash b now later l l' e fits format =
    let (s, signed) = create-IsSigned digest c proof token_hash now l l' e in
    let row = hello_row digest c proof now in
    let found : find (λ (r : HelloRow). r.jti =ₛ c.jti) l'.hellos ≡ some row =
      rw (signed.row) (ground arith) in
    let checked = check_own digest c proof b now fits format in
    let session : (is_session_of c (with_state State.entering now s)
          && is_entering (with_state State.entering now s).state)
        ≡ true =
      ground (arith, signed.fits) in
    let active =
      moved c.session_id (λ x. x.generation == c.generation && is_entering x.state) State.active
        later l'.sessions (with_state State.entering now s) signed.is
        (ground (arith, signed.fits)) in
    (
      ground (arith, found, checked, session, signed.is),
      s,
      signed.was,
      ground (arith, found, checked, session, signed.is, active),
    )
