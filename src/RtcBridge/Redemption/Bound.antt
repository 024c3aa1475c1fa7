-- ===== src/RtcBridge/Redemption/Bound.antt =====
-- What is redeemed is bound to the hello, and a request that arrived is not sent again.
use bosimao_release.Prelude.{
  ℕ, ◌≤◌, ◌≡◌, refl, Bool, true, false, not, Option, none, some, ◌||◌, ◌==◌, arith, inl, inr,
  Bool-cases, ok, raise_if, ◌>>◌, raise_if_passed, ok_injective,
}
use bosimao_release.Voice.Jwt.{Claim, Claims, get_claim, is_name}
use bosimao_release.RtcBridge.Redemption.{
  invalid_response, binding_mismatch, body_rejected, Body, unreadable, body, Reply, connect_timeout,
  http_error, response, is_bound, is_true, is_zero, check_data, read_body, read_response,
  retry_once, first_reply, redeem_valid, redeem,
}

-- What the answer of a redemption has shown.
pub record IsRedeemed (payload found : Claims) : Type 0 where
  pub granted : is_true (get_claim "redeemed" found) ≡ true
  pub bound : is_bound payload found ≡ true
  pub expires : is_name (get_claim "expires_at" found) ≡ true

not-false : (a : Bool) → not a ≡ false → a ≡ true
not-false a e = ground arith

not_or : (a b : Bool) → (not a || not b) ≡ false → b ≡ true
not_or a b e = ground arith

check_data-IsRedeemed :
    (payload : Claims) (code : Option Claim) (found c : Claims)
    → check_data payload code found ≡ ok c
    → IsRedeemed payload c
check_data-IsRedeemed payload code found c e =
    let expiry =
      raise_if_passed (not (is_name (get_claim "expires_at" found))) invalid_response (ok found)
        c in
    let binding =
      raise_if_passed (not (is_bound payload found)) binding_mismatch
        (raise_if (not (is_name (get_claim "expires_at" found))) invalid_response >> ok found) c in
    let (granted, rest) =
      raise_if_passed (not (is_zero code) || not (is_true (get_claim "redeemed" found)))
        body_rejected
        (raise_if (not (is_bound payload found)) binding_mismatch
          >> (raise_if (not (is_name (get_claim "expires_at" found))) invalid_response >> ok found))
        c e in
    let (bound, rest') = binding rest in
    let (expires, last) = expiry rest' in
    let same : found ≡ c = ok_injective found c last in
    rw (← same) (record {
      granted = not_or (is_zero code) (is_true (get_claim "redeemed" found)) granted;
      bound = not-false (is_bound payload found) bound;
      expires = not-false (is_name (get_claim "expires_at" found)) expires;
    })

read_body-IsRedeemed :
    (payload : Claims) (b : Body) (c : Claims) → read_body payload b ≡ ok c → IsRedeemed payload c
read_body-IsRedeemed payload unreadable c e = absurd (ground arith)
read_body-IsRedeemed payload (body code none) c e = absurd (ground arith)
read_body-IsRedeemed payload (body code (some found)) c e =
    check_data-IsRedeemed payload code found c e

read_response-IsRedeemed :
    (payload : Claims) (status : ℕ) (b : Body) (c : Claims)
    → read_response payload status b ≡ ok c
    → IsRedeemed payload c
read_response-IsRedeemed payload status b c e = elim (Bool-cases (status == 200)) [
  | inl good ↦ read_body-IsRedeemed payload b c (rw (good) at e)
  | inr bad ↦ absurd (ground arith)
]

retry_once-IsRedeemed :
    (payload : Claims) (r : Reply) (c : Claims) → retry_once payload r ≡ ok c → IsRedeemed payload c
retry_once-IsRedeemed payload connect_timeout c e = absurd (ground arith)
retry_once-IsRedeemed payload http_error c e = absurd (ground arith)
retry_once-IsRedeemed payload (response status b) c e =
    read_response-IsRedeemed payload status b c e

first_reply-IsRedeemed :
    (payload : Claims) (replies : ℕ → Reply) (r : Reply)
    → ((c : Claims) → (first_reply payload replies r).0 ≡ ok c → IsRedeemed payload c)
      × ((first_reply payload replies r).1 ≤ 2)
      × (((first_reply payload replies r).1 ≡ 2) → r ≡ connect_timeout)
first_reply-IsRedeemed payload replies connect_timeout =
    (λ c e. retry_once-IsRedeemed payload (replies 1) c e, omega arith, λ e. refl)
first_reply-IsRedeemed payload replies http_error =
    (λ c e. absurd (ground arith), omega arith, λ e. absurd (omega arith))
first_reply-IsRedeemed payload replies (response status b) =
    (λ c e. read_response-IsRedeemed payload status b c e, omega arith, λ e. absurd (omega arith))

redeem_valid-IsRedeemed :
    (o : Option Claims) (replies : ℕ → Reply)
    → ((c : Claims)
        → (redeem_valid replies o).0 ≡ ok c
        → (payload : Claims) × (o ≡ some payload) × IsRedeemed payload c)
      × ((redeem_valid replies o).1 ≤ 2)
      × (((redeem_valid replies o).1 ≡ 2) → replies 0 ≡ connect_timeout)
redeem_valid-IsRedeemed none replies =
    (λ c e. absurd (ground arith), omega arith, λ e. absurd (omega arith))
redeem_valid-IsRedeemed (some payload) replies =
    let (shown, few, again) = first_reply-IsRedeemed payload replies (replies 0) in
    (λ c e. (payload, refl, shown c e), few, again)

-- A redemption that succeeds has validated the hello, and returns what a response of status 200 said to be
-- redeemed, with an expiry and the session, device, room, sidecar and generation of the hello. Never
-- more than two requests are sent, and a second one only after the first could not connect.
pub redeem-IsRedeemed :
    (validate : Claims → Option Claims) (replies : ℕ → Reply) (hello : Claims)
    → ((c : Claims)
        → (redeem validate replies hello).0 ≡ ok c
        → (payload : Claims) × (validate hello ≡ some payload) × IsRedeemed payload c)
      × ((redeem validate replies hello).1 ≤ 2)
      × (((redeem validate replies hello).1 ≡ 2) → replies 0 ≡ connect_timeout)
unfolding redeem
redeem-IsRedeemed validate replies hello = redeem_valid-IsRedeemed (validate hello) replies
