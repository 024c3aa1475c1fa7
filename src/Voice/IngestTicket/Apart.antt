-- ===== src/Voice/IngestTicket/Apart.antt =====
-- Proofs and tickets are not taken for each other, and a ticket is short-lived.
use bosimao_release.Prelude.{
  ℕ, ◌+◌, ◌<◌, ◌≡◌, ◌≢◌, refl, String, Bool, true, false, Option, none, some, ◌&&◌, ◌||◌, ◌=ₛ◌, all,
  arith, inl, inr, Bool-cases, Option-cases, ok, String_discrete,
}
use bosimao_release.ControlPlane.Hello.{same_payload}
use bosimao_release.Voice.Jwt.{
  Claim, null, text, texts, int, negative, boolean, table, other, Claims, get_claim, is_claim,
  is_meant, has_claim, Jwt, IsJwt, accepts,
}
use bosimao_release.Voice.HelloProof.{
  hello_audience, hello_header, hello_options, check_claims, verify_hello_proof,
}
use bosimao_release.Voice.IngestTicket.{
  ingest_audience, ingest_options, check_ticket, verify_ingest_ticket, is_open_at, is_expected,
  is_count,
}

check_claims-same : (now : ℕ) (d c : Claims) → check_claims now d ≡ ok c → d ≡ c
check_claims-same now d c e = ground arith

-- What a ticket has shown when it passes.
pub record IsTaken (now : ℕ) (expected : Option String) (c : Claims) : Type 0 where
  pub audience : is_claim ingest_audience (get_claim "aud" c) ≡ true
  pub open_at : is_open_at now (get_claim "iat" c) (get_claim "exp" c) ≡ true
  pub generation : is_count (get_claim "gen" c) ≡ true
  pub session : is_expected expected (get_claim "sid" c) ≡ true

check_ticket-IsTaken :
    (now : ℕ) (expected : Option String) (d c : Claims)
    → check_ticket now expected d ≡ ok c
    → (d ≡ c) × IsTaken now expected d
check_ticket-IsTaken now expected d c e = ground arith

last_true : (a b c : Bool) → (a && b && c) ≡ true → c ≡ true
last_true a b c e = ground arith

hello_audience_lem :
    (c : Claims)
    → accepts hello_options c ≡ true
    → is_meant hello_audience (get_claim "aud" c) ≡ true
hello_audience_lem c e =
    last_true (all (has_claim c) hello_options.required)
      (is_claim hello_options.issuer (get_claim "iss" c))
      (is_meant hello_audience (get_claim "aud" c)) e

audiences : (hello_audience =ₛ ingest_audience) ≡ false
unfolding String_discrete
audiences = refl

-- A ticket's audience is one text, which no list is.
audiences_differ :
    (v : Option Claim) → is_meant hello_audience v ≡ true → is_claim ingest_audience v ≡ true → ⊥
audiences_differ none e e' = cc
audiences_differ (some (text t)) e e' = ground (arith, audiences)
audiences_differ (some null) e e' = cc
audiences_differ (some (texts ts)) e e' = cc
audiences_differ (some (int n)) e e' = cc
audiences_differ (some (negative n)) e e' = cc
audiences_differ (some (boolean b)) e e' = cc
audiences_differ (some (table p)) e e' = cc
audiences_differ (some (other s)) e e' = cc

open_lasts :
    (now later : ℕ) (iat exp : Option Claim)
    → is_open_at now iat exp ≡ true
    → is_open_at later iat exp ≡ true
    → later < now + 300
open_lasts now later (some (int i)) (some (int e)) h h' = ground arith
open_lasts now later (some (negative n)) (some (int e)) h h' = ground arith
open_lasts now later iat exp h h' = absurd (ground arith)

module _ {Token : Type 0} (j : Jwt Token) where
  -- What was verified was decoded.
  verify_hello_decodes :
      (proof : Token) (key : String) (now : ℕ) (c : Claims)
      → verify_hello_proof j proof key now ≡ ok c
      → j.decode proof key hello_options ≡ some c
  unfolding verify_hello_proof
  verify_hello_decodes proof key now c e = elim (Bool-cases (j.is_blank proof || (key =ₛ ""))) [
    | inl blank ↦ absurd (ground arith)
    | inr full ↦ elim (Option-cases (j.header_of proof)) [
      | inl unread ↦ absurd (ground arith)
      | inr (h, read) ↦ elim (Bool-cases (same_payload h hello_header)) [
        | inr wrong ↦ absurd (ground arith)
        | inl right ↦ elim (Option-cases (j.decode proof key hello_options)) [
          | inl unsigned ↦ absurd (ground arith)
          | inr (d, signed) ↦
              let same : d ≡ c = check_claims-same now d c (rw (full, read, right, signed) at e) in
              rw (← same) signed
        ]
      ]
    ]
  ]

  -- What a ticket that was verified has shown.
  pub verify_ingest-IsTaken :
      (ticket : Token) (key : String) (now : ℕ) (expected : Option String) (c : Claims)
      → verify_ingest_ticket j ticket key now expected ≡ ok c
      → (j.decode ticket key ingest_options ≡ some c) × IsTaken now expected c
  unfolding verify_ingest_ticket
  verify_ingest-IsTaken ticket key now expected c e =
      elim (Bool-cases (j.is_blank ticket || (key =ₛ ""))) [
        | inl blank ↦ absurd (ground arith)
        | inr full ↦ elim (Option-cases (j.header_of ticket)) [
          | inl unread ↦ absurd (ground arith)
          | inr (h, read) ↦ elim (Bool-cases (same_payload h hello_header)) [
            | inr wrong ↦ absurd (ground arith)
            | inl right ↦ elim (Option-cases (j.decode ticket key ingest_options)) [
              | inl unsigned ↦ absurd (ground arith)
              | inr (d, signed) ↦
                  let (same, taken) =
                    check_ticket-IsTaken now expected d c (rw (full, read, right, signed) at e) in
                  (rw (← same) signed, rw (← same) taken)
            ]
          ]
        ]
      ]

  -- A ticket that is verified at two times is verified twice within 300 seconds, whatever signed it and
  -- for whatever time.
  pub verify_ingest_lasts :
      (ticket : Token) (key : String) (now later : ℕ) (expected expected' : Option String)
      (c d : Claims)
      → verify_ingest_ticket j ticket key now expected ≡ ok c
      → verify_ingest_ticket j ticket key later expected' ≡ ok d
      → later < now + 300
  verify_ingest_lasts ticket key now later expected expected' c d e e' =
      let (read, taken) = verify_ingest-IsTaken ticket key now expected c e in
      let (read', taken') = verify_ingest-IsTaken ticket key later expected' d e' in
      let same : c ≡ d = ground (arith, read, read') in
      open_lasts now later (get_claim "iat" c) (get_claim "exp" c) taken.open_at
        (rw (same) taken'.open_at)

  -- With a library that keeps to its word, no token that is verified as a hello proof is verified as an
  -- ingest ticket too, under the same key, at whatever times and for whatever session.
  pub verify_hello_apart :
      (private_key public_key : String) (law : IsJwt j private_key public_key) (token : Token)
      (now later : ℕ) (expected : Option String) (c d : Claims)
      → verify_hello_proof j token public_key now ≡ ok c
      → verify_ingest_ticket j token public_key later expected ≢ ok d
  verify_hello_apart private_key public_key law token now later expected c d e e' =
      let read = verify_hello_decodes token public_key now c e in
      let (read', taken) = verify_ingest-IsTaken token public_key later expected d e' in
      let same = law.decode_same token hello_options ingest_options c d read read' in
      let hello = hello_audience_lem c (law.decode-accepts token hello_options c read) in
      audiences_differ (get_claim "aud" c) hello (rw (same) taken.audience)
