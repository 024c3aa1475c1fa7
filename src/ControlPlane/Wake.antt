-- ===== src/ControlPlane/Wake.antt =====
-- The atomic consumption of a wake event: backend/app/voice/control_plane_wake.py.
pub mod Consume
use Prim.Native.Char.{code}
use Prim.Native.String.{◌++◌ as ◌<>◌}
use bosimao_release.Prelude.{
  ℕ, ◌+◌, String, Bool, true, false, not, Option, none, some, [], ◌∷◌, ◌=ₛ◌, ◌==◌, ◌&&◌, ◌||◌, leb,
  if◌then◌else◌, find, lookup, count, length, Result, ok, err, ◌>>=◌, ◌>>◌, raise_if, or_raise,
}
use bosimao_release.ControlPlane.Payload.{Payload, text, int, Hashing, payload_hash}
use bosimao_release.ControlPlane.Cipher.{
  Bytes, CipherError, Aead, WakeContext, UserSigCipher, encrypt, decrypt,
}
use bosimao_release.ControlPlane.Schema.{
  State, Session, WakeRecord, WakeEvent, Claim, Ledger, Error, invalid_state, cipher_error,
  integrity_error, find_session, set_session_state, commit,
}
use bosimao_release.ControlPlane.Retry.{has_some}

pub record WakeCall : Type 0 where
  pub session_id : String
  pub device_id : String
  pub prior_session_id : String
  pub prior_generation : ℕ
  pub wake_event_id : String
  pub user_sig : String
  pub expires_at : ℕ
  pub detected_at : String
  pub kws_instance_id : String
  pub user_id : String

abbrev pub wake_payload : WakeCall → Payload
wake_payload c =
    ("device_id", text c.device_id)
    ∷ ("prior_session_id", text c.prior_session_id)
    ∷ ("prior_generation", int c.prior_generation)
    ∷ ("wake_event_id", text c.wake_event_id)
    ∷ ("detected_at", text c.detected_at)
    ∷ ("kws_instance_id", text c.kws_instance_id)
    ∷ []

-- The primary key of `control_plane_wake_events`.
abbrev pub is_wake : WakeCall → WakeEvent → Bool
is_wake c w =
    w.device_id =ₛ c.device_id
    && w.prior_session_id =ₛ c.prior_session_id
    && w.prior_generation == c.prior_generation
    && w.wake_event_id =ₛ c.wake_event_id

abbrev pub is_kws_ready : State → Bool
is_kws_ready State.kws_ready = true
is_kws_ready _ = false

-- The states in which a session holds its device.
abbrev pub holds_device : State → Bool
holds_device State.active = true
holds_device State.terminating = true
holds_device State.termination_partial = true
holds_device State.termination_timeout = true
holds_device State.entering = true
holds_device _ = false

abbrev pub is_active_on : String → Session → Bool
is_active_on device s = s.device_id =ₛ device && holds_device s.state

-- The code points that `str.strip` removes.
abbrev pub is_space : ℕ → Bool
is_space c =
    (leb 9 c && leb c 13)
    || (leb 28 c && leb c 32)
    || c == 133
    || c == 160
    || c == 5760
    || (leb 8192 c && leb c 8202)
    || c == 8232
    || c == 8233
    || c == 8239
    || c == 8287
    || c == 12288

-- `not s.strip()`
unfoldable pub is_blank : String → Bool
is_blank String.[] = true
is_blank (String.◌∷◌ c s) = if is_space (code c) then is_blank s else false

abbrev pub is_missing_version : Option String → Bool
is_missing_version none = true
is_missing_version (some v) = is_blank v

-- `INSERT INTO control_plane_sessions`, with its primary key.
unfoldable pub insert_session : Session → Ledger → Result Error Ledger
insert_session s l = elim (find_session s.session_id l) [
  | some _ ↦ err integrity_error
  | none ↦ ok (record l { sessions = s ∷ l.sessions })
]

-- `INSERT INTO pending_session_claims`, with its unique index on the session.
unfoldable pub insert_claim : String → String → String → ℕ → ℕ → ℕ → Ledger → Result Error Ledger
insert_claim session device room generation expires_at now l =
    if has_some (lookup (λ (c : Claim). c.session_id) session l.claims)
    then err integrity_error
    else ok (record l { claims = fresh ∷ l.claims })
  where
    fresh : Claim
    fresh = record {
      id = length l.claims + 1;
      session_id = session;
      device_id = device;
      room_id = room;
      generation = generation;
      expires_at = expires_at;
      claim_token_hash = none;
      claimed_at = none;
      consumed_at = none;
      signed_at = none;
      created_at = now;
      updated_at = now;
    }

abbrev pub room_of : String → String
room_of session = "wake-" <> session

abbrev pub wake_context : WakeCall → String → ℕ → WakeContext
wake_context c new_session new_generation = record {
  device_id = c.device_id;
  prior_session_id = c.prior_session_id;
  new_session_id = new_session;
  prior_generation = c.prior_generation;
  new_generation = new_generation;
  wake_event_id = c.wake_event_id;
}

-- The three checks on the prior session, in their order.
unfoldable pub check_prior : WakeCall → Session → Ledger → Result Error (Unit {0})
check_prior c prior l = do
  raise_if (not (prior.device_id =ₛ c.device_id && prior.generation == c.prior_generation))
      (invalid_state 40917)
  raise_if (not (is_kws_ready prior.state)) (invalid_state 40917)
  raise_if (not (count (is_active_on c.device_id) l.sessions == 0)) (invalid_state 40917)

-- An error of the cipher, raised through the ledger.
abbrev pub lift_cipher {ℓ} : {A : Type ℓ} → Result CipherError A → Result Error A
lift_cipher (ok a) = ok a
lift_cipher (err e) = err (cipher_error e)

abbrev pub signing_session : WakeCall → ℕ → Session
signing_session c now = record {
  session_id = c.session_id;
  device_id = c.device_id;
  room_id = room_of c.session_id;
  generation = c.prior_generation + 1;
  state = State.signing;
  created_at = now;
  updated_at = now;
}
