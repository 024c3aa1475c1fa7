-- ===== src/RtcBridge/Redemption.antt =====
-- The client that redeems a hello at the control plane: backend/rtc_bridge/redemption.py. The validation
-- of the hello is pydantic's, and the answers of the HTTP client are given one after another.
pub mod Bound
use bosimao_release.Prelude.{
  ℕ, suc, ◌+◌, String, Bool, true, false, not, Option, none, some, List, [], ◌∷◌, ◌||◌, ◌=ₛ◌, ◌==◌,
  all, if◌then◌else◌, Result, ok, err, ◌>>=◌, ◌>>◌, raise_if, or_raise,
}
use bosimao_release.Voice.Jwt.{
  Claim, text, int, negative, boolean, table, other, Claims, get_claim, is_name,
}

-- The `HelloRedemptionError`s; the last two pass through it: a timeout that is retried, and the
-- `AttributeError` of a `data` that is no object.
pub data RedemptionError : Type 0 where
  invalid_hello transport_failed transport_failed_again : RedemptionError
  rejected : ℕ → RedemptionError
  invalid_response body_rejected binding_mismatch : RedemptionError
  attribute_error : RedemptionError

-- The body of a response: not JSON or without `data`, or its code and its `data`, with `none` for one
-- that is no object.
pub data Body : Type 0 where
  unreadable : Body
  body : Option Claim → Option Claims → Body

-- What a request meets.
pub data Reply : Type 0 where
  connect_timeout http_error : Reply
  response : ℕ → Body → Reply

abbrev pub identity : List String
identity = "session_id" ∷ "device_id" ∷ "room_id" ∷ "sidecar_user_id" ∷ "generation" ∷ []

-- Python's `==` of a claim and a validated value, which is a text or an integer.
abbrev pub one_if : Bool → ℕ
one_if b = if b then 1 else 0

abbrev pub equals : Option Claim → Option Claim → Bool
equals (some (text s)) (some (text t)) = s =ₛ t
equals (some (int a)) (some (int b)) = a == b
equals (some (boolean a)) (some (int b)) = one_if a == b
equals _ _ = false

abbrev pub is_zero : Option Claim → Bool
is_zero v = equals v (some (int 0))

abbrev pub is_true : Option Claim → Bool
is_true (some (boolean b)) = b
is_true _ = false

abbrev pub is_bound : Claims → Claims → Bool
is_bound payload found = all (λ key. equals (get_claim key found) (get_claim key payload)) identity

abbrev pub check_data : Claims → Option Claim → Claims → Result RedemptionError Claims
check_data payload code found = do
  raise_if (not (is_zero code) || not (is_true (get_claim "redeemed" found))) body_rejected
  raise_if (not (is_bound payload found)) binding_mismatch
  raise_if (not (is_name (get_claim "expires_at" found))) invalid_response
  ok found

abbrev pub read_body : Claims → Body → Result RedemptionError Claims
read_body payload unreadable = err invalid_response
read_body payload (body code none) = err attribute_error
read_body payload (body code (some found)) = check_data payload code found

abbrev pub read_response : Claims → ℕ → Body → Result RedemptionError Claims
read_response payload status b =
    if status == 200 then read_body payload b else err (rejected status)

-- The second request, all of whose transport errors end the redemption.
abbrev pub retry_once : Claims → Reply → Result RedemptionError Claims
retry_once payload (response status b) = read_response payload status b
retry_once payload _ = err transport_failed_again

-- The result, and the number of requests that were sent.
abbrev pub first_reply : Claims → (ℕ → Reply) → Reply → Result RedemptionError Claims × ℕ
first_reply payload replies connect_timeout = (retry_once payload (replies 1), 2)
first_reply payload replies http_error = (err transport_failed, 1)
first_reply payload replies (response status b) = (read_response payload status b, 1)

abbrev pub redeem_valid : (ℕ → Reply) → Option Claims → Result RedemptionError Claims × ℕ
redeem_valid replies none = (err invalid_hello, 0)
redeem_valid replies (some payload) = first_reply payload replies (replies 0)

-- `redeem`; `validate` is `HelloPayload.model_validate(…).model_dump()`, with `none` for its error.
unfoldable pub redeem :
    (Claims → Option Claims) → (ℕ → Reply) → Claims → Result RedemptionError Claims × ℕ
redeem validate replies hello = redeem_valid replies (validate hello)
