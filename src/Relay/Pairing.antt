-- ===== src/Relay/Pairing.antt =====
-- The pairing frame and the handshake of a connection: `make_pair_frame` and `parse_pair_frame` of
-- backend/relay/relay_protocol.py, and `accept_conn` of backend/relay/relay_server.py.
pub mod Accepted
use bosimao_release.Prelude.{
  ℕ, String, Bool, true, false, not, Option, none, some, List, [], ◌∷◌, ◌++◌, ◌&&◌, ◌||◌, ◌=ₛ◌,
  if◌then◌else◌, Result, ok, err, ◌>>=◌, ◌>>◌, raise_if, or_raise,
}

-- A JSON value: a text; another one that has no parts, by the text of the key that it is in a `dict` and its
-- truth, so that 1, 1.0 and `true`, which are one key, are one value; or a list or object, by its JSON text
-- and its truth.
pub data Value : Type 0 where
  text : String → Value
  scalar nested : String → Bool → Value

-- Lists and objects are no keys of a `dict`.
abbrev pub is_hashable : Value → Bool
is_hashable (nested t truth) = false
is_hashable _ = true

abbrev pub Fields : Type 0
Fields = List (String × Value)

-- What `json.loads` returns: an object, or a value that has no `get`.
pub data Json : Type 0 where
  object : Fields → Json
  plain : String → Json

-- `msg.get(key)`
abbrev pub get_field : String → Fields → Option Value
get_field key [] = none
get_field key (f ∷ fs) = if f.0 =ₛ key then some f.1 else get_field key fs

abbrev pub is_text : String → Option Value → Bool
is_text s (some (text t)) = t =ₛ s
is_text s _ = false

abbrev pub is_truthy : Option Value → Bool
is_truthy none = false
is_truthy (some (text t)) = not (t =ₛ "")
is_truthy (some (scalar t truth)) = truth
is_truthy (some (nested t truth)) = truth

-- The `ValueError`s of the pairing frame, and the `AttributeError` of a value that has no `get`.
pub data PairError : Type 0 where
  not_json not_pair bad_role no_device no_code attribute_error : PairError

-- `PAIR_ROLES`
pub data Role : Type 0 where
  phone pc : Role

abbrev pub role_text : Role → String
role_text phone = "phone"
role_text pc = "pc"

abbrev pub other_role : Role → Role
other_role phone = pc
other_role pc = phone

abbrev pub read_role : Option Value → Option Role
read_role v = if is_text "phone" v then some phone else if is_text "pc" v then some pc else none

abbrev pub is_pair_role : String → Bool
is_pair_role role = (role =ₛ "phone") || (role =ₛ "pc")

abbrev pub pair_message : String → String → String → String → Fields
pair_message role device_id pairing_code token =
    ("type", text "pair")
    ∷ ("role", text role)
    ∷ ("device_id", text device_id)
    ∷ ("pairing_code", text pairing_code)
    ∷ (if token =ₛ "" then [] else ("token", text token) ∷ [])

-- The message of `make_pair_frame`, which `json.dumps` writes.
unfoldable pub make_pair_frame : String → String → String → String → Result PairError Fields
make_pair_frame role device_id pairing_code token = do
  raise_if (not (is_pair_role role)) bad_role
  ok (pair_message role device_id pairing_code token)

abbrev pub check_fields : Fields → Result PairError Fields
check_fields msg = do
  raise_if (not (is_text "pair" (get_field "type" msg))) not_pair
  or_raise (read_role (get_field "role" msg)) bad_role >>= λ role. (do
    raise_if (not (is_truthy (get_field "device_id" msg))) no_device
    raise_if (not (is_truthy (get_field "pairing_code" msg))) no_code
    ok msg)

abbrev pub check_json : Json → Result PairError Fields
check_json (object msg) = check_fields msg
check_json (plain s) = err attribute_error

-- `json.loads` is the library's, with `none` for `JSONDecodeError`.
unfoldable pub parse_pair_frame : (String → Option Json) → String → Result PairError Fields
parse_pair_frame loads raw = do json ← or_raise (loads raw) not_json; check_json json

pub record RelayConfig : Type 0 where
  pub token : String
  pub require_token : Bool
  pub heartbeat_timeout_s : ℕ
  pub session_timeout_s : ℕ

-- The arguments that `accept_conn` gives to `RelayConn`.
pub record Credentials : Type 0 where
  pub role : Role
  pub device_id : Value
  pub pairing_code : Value
  pub token : Value

-- Why `accept_conn` closes a socket: `none` is a socket that is closed by the exception.
pub data Refusal : Type 0 where
  pair_timeout auth_failed attribute_failure : Refusal
  bad_pair_frame : PairError → Refusal

abbrev pub field_or : Value → Option Value → Value
field_or d none = d
field_or d (some v) = v

-- `query_token or msg.get("token", "")`
abbrev pub token_of : String → Fields → Value
token_of query_token msg =
    if query_token =ₛ "" then field_or (text "") (get_field "token" msg) else text query_token

abbrev pub refuse : PairError → Refusal
refuse attribute_error = attribute_failure
refuse e = bad_pair_frame e

abbrev pub credentials : Fields → Value → Result Refusal Credentials
credentials msg token = do
  role ← or_raise (read_role (get_field "role" msg)) attribute_failure
  device_id ← or_raise (get_field "device_id" msg) attribute_failure
  pairing_code ← or_raise (get_field "pairing_code" msg) attribute_failure
  ok (record { role = role; device_id = device_id; pairing_code = pairing_code; token = token })

abbrev pub settle : RelayConfig → String → Result PairError Fields → Result Refusal Credentials
settle cfg query_token (err e) = err (refuse e)
settle cfg query_token (ok msg) = do
  raise_if (cfg.require_token && not (is_text cfg.token (some (token_of query_token msg))))
      auth_failed
  credentials msg (token_of query_token msg)

-- The frame is the first that the socket gave, if it gave one in time.
unfoldable pub accept_conn :
    (String → Option Json) → RelayConfig → Option String → String → Result Refusal Credentials
accept_conn loads cfg none query_token = err pair_timeout
accept_conn loads cfg (some raw) query_token = settle cfg query_token (parse_pair_frame loads raw)
