-- ===== src/Voice/Session/Manager.antt =====
-- The registry of sessions, one for a device, and the handshake: `VoiceSessionManager`, `kick_and_close`
-- and `handshake` of backend/app/voice/session.py, and `build_e2ee` of e2ee.py.
use bosimao_release.Prelude.{
  ℕ, ◌≡◌, ◌≢◌, String, Bool, true, false, not, Option, none, some, List, [], ◌∷◌, ◌=ₛ◌, ◌==◌, ◌&&◌,
  if◌then◌else◌, arith, after, Result, ok, err, ◌>>=◌, ◌>>◌, raise_if, or_raise,
}
use bosimao_release.Relay.Frames.{Bytes}
use bosimao_release.Relay.Pairing.{
  Value, Json, object, plain, Fields, get_field, is_text, is_truthy, token_of,
}
use bosimao_release.Voice.Session.{VoiceSession, kicked, error_frame, send}

-- `_sessions`: the device and its session, by a number that tells the sessions apart.
abbrev pub Registry : Type 0
Registry = List (String × ℕ)

abbrev pub get_session : String → Registry → Option ℕ
get_session device [] = none
get_session device (e ∷ es) = if e.0 =ₛ device then some e.1 else get_session device es

abbrev pub put_session : String → ℕ → Registry → Registry
put_session device id [] = (device, id) ∷ []
put_session device id (e ∷ es) =
    if e.0 =ₛ device then (device, id) ∷ es else e ∷ put_session device id es

abbrev pub pop_session : String → Registry → Registry
pop_session device [] = []
pop_session device (e ∷ es) = if e.0 =ₛ device then es else e ∷ pop_session device es

-- `register`, which returns the session that was there.
unfoldable pub register : String → ℕ → Registry → Option ℕ × Registry
register device id m = (get_session device m, put_session device id m)

abbrev pub is_session : ℕ → Option ℕ → Bool
is_session id none = false
is_session id (some found) = found == id

unfoldable pub unregister : String → ℕ → Registry → Registry
unregister device id m = if is_session id (get_session device m) then pop_session device m else m

-- `kick_and_close`, which closes the old session whether it could be told or not.
abbrev pub kick_and_close : VoiceSession → VoiceSession
kick_and_close s = record (after (send (error_frame kicked) s)) { closed = true }

-- What is looked up after a registration.
get-put :
    (device other : String) (id : ℕ) (m : Registry)
    → get_session other (put_session device id m)
      ≡ (if device =ₛ other then some id else get_session other m)
get-put device other id [] = ground arith
get-put device other id (e ∷ m) = ground (arith, get-put device other id m)

-- A session that is registered is its device's, also after the session that it replaced, or any other
-- than itself, is unregistered; and registering changes no other device.
pub register-unregister :
    (device other : String) (id old : ℕ) (m : Registry)
    → old ≢ id
    → (get_session device (unregister device old (register device id m).1) ≡ some id)
      × ((device =ₛ other) ≡ false
          → get_session other (register device id m).1 ≡ get_session other m)
unfolding register unregister
register-unregister device other id old m apart =
    let here : get_session device (put_session device id m) ≡ some id =
      ground (arith, get-put device device id m) in
    (ground (arith, here), λ differ. ground (arith, get-put device other id m))

-- Why the handshake closes a socket.
pub data Refusal : Type 0 where
  hello_timeout bad_hello not_hello auth_failed attribute_failure : Refusal

pub record GatewayConfig : Type 0 where
  pub token : String
  pub require_token : Bool
  pub e2ee_key : Option Bytes

-- Python's `str` of a value, and whether its features contain "e2ee".
pub record Reading : Type 0 where
  pub str : Value → String
  pub has_e2ee : Option Value → Bool

abbrev pub build_e2ee : GatewayConfig → Bool → Option Bytes
build_e2ee cfg wanted = if wanted then cfg.e2ee_key else none

abbrev pub str_or : Reading → String → Option Value → String
str_or r d none = d
str_or r d (some v) = r.str v

-- `str(msg.get("device_id") or msg.get("device") or "android")`
abbrev pub device_of : Reading → Fields → String
device_of r msg =
    if is_truthy (get_field "device_id" msg)
    then str_or r "" (get_field "device_id" msg)
    else if is_truthy (get_field "device" msg)
    then str_or r "" (get_field "device" msg)
    else "android"

abbrev pub greet : Reading → GatewayConfig → String → Json → Result Refusal (String × Option Bytes)
greet r cfg query_token (plain t) = err attribute_failure
greet r cfg query_token (object msg) = do
  raise_if (not (is_text "hello" (get_field "type" msg))) not_hello
  raise_if (cfg.require_token && not (is_text cfg.token (some (token_of query_token msg))))
      auth_failed
  ok (device_of r msg, build_e2ee cfg (r.has_e2ee (get_field "features" msg)))

-- The device and the key of the new session.
unfoldable pub handshake :
    (String → Option Json)
    → Reading
    → GatewayConfig
    → Option String
    → String
    → Result Refusal (String × Option Bytes)
handshake loads r cfg received query_token = do
  raw ← or_raise received hello_timeout
  json ← or_raise (loads raw) bad_hello
  greet r cfg query_token json
