-- ===== src/Voice/Devices.antt =====
-- Pairing, registration and revocation of devices: backend/app/voice/devices.py, with
-- repositories/pairing_codes.py, repositories/device_credentials.py and the two transactions of
-- store_facade.py. Times are seconds; SHA-256 and the salted hash of a secret are parameters, and
-- the random codes, identifiers and secrets are arguments.
pub mod Revocation
pub mod Pairing
pub mod Revoking
use bosimao_release.Prelude.{
  ℕ, ◌+◌, ◌*◌, ◌-◌, String, Bool, true, false, not, Option, none, some, List, [], ◌∷◌, ◌++◌, map,
  ◌=ₛ◌, ◌==◌, ◌&&◌, ◌||◌, leb, ltb, if◌then◌else◌, find, update, keep, take, any, all, count,
  length, lookup, Result, ok, err, ◌>>=◌, ◌>>◌, raise_if, or_raise,
}

pub record PairingCode : Type 0 where
  pub code_hash : String
  pub created_by_owner_id : String
  pub platform : String
  pub expires_at : ℕ
  pub consumed_at : Option ℕ
  pub consumed_device_id : Option String
  pub created_at : ℕ

pub data Status : Type 0 where
  active revoked : Status

pub record Credential : Type 0 where
  pub device_id : String
  pub credential_id : String
  pub device_name : String
  pub platform : String
  pub credential_hash : String
  pub status : Status
  pub expires_at : ℕ
  pub last_seen_at : Option ℕ
  pub revoked_at : Option ℕ
  pub revoke_reason : Option String
  pub created_at : ℕ

pub data EventType : Type 0 where
  issued sidecar_sign stream_ready terminated other_event : EventType

-- A row of `session_events`, with the two fields of its metadata that are read.
pub record SessionEvent : Type 0 where
  pub session_id : String
  pub device_id : String
  pub event_type : EventType
  pub user_sig_fingerprint : String
  pub user_sig_expires_at : ℕ

pub record RevokedSession : Type 0 where
  pub session_id : String
  pub device_id : String
  pub user_sig_fingerprint : String
  pub expires_at : ℕ
  pub revoked_at : ℕ
  pub reason : String

pub record Audit : Type 0 where
  pub action : String
  pub subject_id : String

-- The tables; the newest row is in front.
pub record Store : Type 0 where
  pub codes : List PairingCode
  pub credentials : List Credential
  pub events : List SessionEvent
  pub revoked_sessions : List RevokedSession
  pub audits : List Audit

-- `VoiceError` with its code, `ValueError`, and the database's refusal of a key that is there.
pub data Error : Type 0 where
  voice_error : ℕ → Error
  value_error : Error
  integrity_error : Error

abbrev pub pairing_ttl_seconds : ℕ
pairing_ttl_seconds = 300

abbrev pub credential_ttl_days : ℕ
credential_ttl_days = 30

abbrev pub has_some {ℓ} : {A : Type ℓ} → Option A → Bool
has_some none = false
has_some (some _) = true

abbrev pub find_code : String → List PairingCode → Option PairingCode
find_code = lookup (λ (p : PairingCode). p.code_hash)

abbrev pub find_device : String → Store → Option Credential
find_device k s = lookup (λ (d : Credential). d.device_id) k s.credentials

abbrev pub find_credential : String → Store → Option Credential
find_credential k s = lookup (λ (d : Credential). d.credential_id) k s.credentials

-- The code is neither consumed nor expired.
abbrev pub is_open : ℕ → PairingCode → Bool
is_open now p = not (has_some p.consumed_at) && ltb now p.expires_at

abbrev pub is_open_option : ℕ → Option PairingCode → Bool
is_open_option now none = false
is_open_option now (some p) = is_open now p

-- `UPDATE pairing_codes SET consumed_at … WHERE code_hash = … AND consumed_at IS NULL AND …`
unfoldable pub consume_code : String → String → ℕ → List PairingCode → List PairingCode
consume_code hash device now =
    update (λ (p : PairingCode). if p.code_hash =ₛ hash then is_open now p else false)
      (λ p. record p { consumed_at = some now; consumed_device_id = some device })

module _ (digest : String → String) where
  -- `create_pairing_code`, down to the insert, whose key is the hash of the code.
  unfoldable pub create_pairing_code :
      String → String → String → ℕ → ℕ → Store → Result Error (String × ℕ) × Store
  create_pairing_code owner platform code ttl now s =
      if not (leb 1 ttl && leb ttl pairing_ttl_seconds)
      then (err value_error, s)
      else if has_some (find_code (digest code) s.codes)
      then (err integrity_error, s)
      else (ok (code, now + ttl), record s { codes = fresh ∷ s.codes })
    where
      fresh : PairingCode
      fresh = record {
        code_hash = digest code;
        created_by_owner_id = owner;
        platform = platform;
        expires_at = now + ttl;
        consumed_at = none;
        consumed_device_id = none;
        created_at = now;
      }

  -- `PairingCodeRepository.consume`
  unfoldable pub consume : String → String → ℕ → Store → Bool × Store
  consume code device now s = (
    is_open_option now (find_code (digest code) s.codes),
    record s { codes = consume_code (digest code) device now s.codes },
  )

  -- `PairingCodeRepository.purge_expired`
  unfoldable pub purge_codes : ℕ → Store → ℕ × Store
  purge_codes now s =
      let left = keep (λ (p : PairingCode). leb (now - 86400) p.expires_at) s.codes in
      (length s.codes - length left, record s { codes = left })

-- What a registration brings.
pub record Registration : Type 0 where
  pub device_id : String
  pub credential_id : String
  pub device_name : String
  pub platform : String
  pub secret : String

module _ (digest hash_secret : String → String) where
  abbrev pub new_credential : Registration → ℕ → Credential
  new_credential r now = record {
    device_id = r.device_id;
    credential_id = r.credential_id;
    device_name = r.device_name;
    platform = r.platform;
    credential_hash = hash_secret r.secret;
    status = Status.active;
    expires_at = now + credential_ttl_days * 86400;
    last_seen_at = none;
    revoked_at = none;
    revoke_reason = none;
    created_at = now;
  }

  -- `register_device`, with the transaction of `register_device_from_pairing`: the code is consumed,
  -- and the credential and the audit are written, or nothing is.
  unfoldable pub register_device :
      String → Registration → ℕ → Store → Result Error (String × String × ℕ) × Store
  unfolding consume_code
  register_device code r now s =
      if not (is_open_option now (find_code (digest code) s.codes))
      then (err (voice_error 40901), s)
      else if has_some (find_device r.device_id s) || has_some (find_credential r.credential_id s)
      then (err integrity_error, s)
      else (
        ok (r.device_id, r.secret, now + credential_ttl_days * 86400),
        record s {
          codes = consume_code (digest code) r.device_id now s.codes;
          credentials = new_credential r now ∷ s.credentials;
          audits = record { action = "device.register"; subject_id = r.device_id } ∷ s.audits;
        },
      )
