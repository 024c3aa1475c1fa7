-- ===== src/Voice/IngestTicket.antt =====
-- The short-lived ticket for media that come in beside the room: backend/app/voice/ingest_ticket.py.
pub mod Apart
use bosimao_release.Prelude.{
  ℕ, ◌+◌, String, Bool, true, false, not, Option, none, some, List, [], ◌∷◌, ◌&&◌, ◌||◌, ◌=ₛ◌, ◌==◌,
  all, leb, ltb, min, max, Result, ok, err, ◌>>=◌, ◌>>◌, raise_if, or_raise, if◌then◌else◌,
}
use bosimao_release.ControlPlane.Hello.{same_payload}
use bosimao_release.Voice.Jwt.{
  Claim, text, int, negative, boolean, table, other, Claims, get_claim, is_claim, is_name, Options,
  Jwt,
}
use bosimao_release.Voice.HelloProof.{hello_header, issuer_name}

-- `IngestTicketError` with its code, and the `ValueError`s of the signer.
pub data TicketError : Type 0 where
  ticket_error : ℕ → TicketError
  key_unavailable context_incomplete generation_invalid : TicketError

abbrev pub ingest_audience : String
ingest_audience = "rtc_bridge_ingest"

abbrev pub ingest_max_ttl_seconds : ℕ
ingest_max_ttl_seconds = 300

abbrev pub ingest_default_ttl_seconds : ℕ
ingest_default_ttl_seconds = 300

-- What `int(ttl_seconds)` gives: a number, or an error.
pub data Ttl : Type 0 where
  seconds : ℕ → Ttl
  below_zero unreadable : Ttl

unfoldable pub clamp_ttl : Ttl → ℕ
clamp_ttl (seconds n) = max 1 (min n ingest_max_ttl_seconds)
clamp_ttl below_zero = 1
clamp_ttl unreadable = ingest_default_ttl_seconds

abbrev pub ingest_required : List String
ingest_required = "iss" ∷ "aud" ∷ "jti" ∷ "sid" ∷ "did" ∷ "rid" ∷ "gen" ∷ "iat" ∷ "exp" ∷ []

abbrev pub string_claims : List String
string_claims = "sid" ∷ "did" ∷ "rid" ∷ "jti" ∷ []

-- The arguments of `issue`, of any type.
pub record Context : Type 0 where
  pub session_id : Claim
  pub device_id : Claim
  pub room_id : Claim
  pub generation : Claim

-- `isinstance(…, int)`, no Boolean, and at least 0.
abbrev pub is_count : Option Claim → Bool
is_count (some (int n)) = true
is_count _ = false

abbrev pub ingest_claims : Context → String → ℕ → ℕ → Claims
ingest_claims x jti issued_at ttl =
    ("iss", text issuer_name)
    ∷ ("aud", text ingest_audience)
    ∷ ("jti", text jti)
    ∷ ("sid", x.session_id)
    ∷ ("did", x.device_id)
    ∷ ("rid", x.room_id)
    ∷ ("gen", x.generation)
    ∷ ("iat", int issued_at)
    ∷ ("exp", int (issued_at + ttl))
    ∷ []

-- Integers, the second later than the first by the longest time at most, and the time between them.
abbrev pub is_open_at : ℕ → Option Claim → Option Claim → Bool
is_open_at now (some (int iat)) (some (int exp)) =
    ltb iat exp && leb exp (iat + ingest_max_ttl_seconds) && leb iat now && ltb now exp
is_open_at now (some (negative n)) (some (int exp)) =
    leb (exp + n) ingest_max_ttl_seconds && ltb now exp
is_open_at now _ _ = false

abbrev pub ingest_options : Options
ingest_options = record { audience = none; issuer = issuer_name; required = ingest_required }

-- The session that is expected, if one is.
abbrev pub is_expected : Option String → Option Claim → Bool
is_expected none sid = true
is_expected (some expected) sid = is_claim expected sid

abbrev pub check_ticket : ℕ → Option String → Claims → Result TicketError Claims
check_ticket now expected c = do
  raise_if (not (is_claim ingest_audience (get_claim "aud" c))) (ticket_error 40111)
  raise_if (not (is_open_at now (get_claim "iat" c) (get_claim "exp" c))) (ticket_error 40112)
  raise_if (not (is_count (get_claim "gen" c))) (ticket_error 40111)
  raise_if (not (all (λ key. is_name (get_claim key c)) string_claims)) (ticket_error 40111)
  raise_if (not (is_expected expected (get_claim "sid" c))) (ticket_error 40111)
  ok c

module _ {Token : Type 0} (j : Jwt Token) where
  -- `IngestTicketSigner` and its `issue`: the ticket; uuid4 gives the identifier.
  unfoldable pub issue_ticket : String → Ttl → Context → String → ℕ → Result TicketError Token
  issue_ticket private_key ttl x jti issued_at = do
    raise_if (private_key =ₛ "") key_unavailable
    raise_if
        (not
          (is_name (some x.session_id) && is_name (some x.device_id) && is_name (some x.room_id)))
        context_incomplete
    raise_if (not (is_count (some x.generation))) generation_invalid
    ok (j.encode private_key hello_header (ingest_claims x jti issued_at (clamp_ttl ttl)))

  unfoldable pub verify_ingest_ticket :
      Token → String → ℕ → Option String → Result TicketError Claims
  verify_ingest_ticket ticket public_key now expected = do
    raise_if (j.is_blank ticket || (public_key =ₛ "")) (ticket_error 40111)
    header ← or_raise (j.header_of ticket) (ticket_error 40111)
    raise_if (not (same_payload header hello_header)) (ticket_error 40111)
    claims ← or_raise (j.decode ticket public_key ingest_options) (ticket_error 40111)
    check_ticket now expected claims
