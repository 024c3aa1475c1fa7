-- ===== src/ControlPlane/Schema.antt =====
-- The rows and the tables of the ledger (backend/app/voice/migrations/003_control_plane.sql and
-- later), the errors of its calls, and the constants of backend/app/voice/control_plane_base.py.
-- A table is a list of rows, the newest first; a time is what the dialect stores, as a number.
use bosimao_release.Prelude.{
  ℕ, String, Bool, true, false, Option, none, some, List, [], ◌∷◌, ◌=ₛ◌, if◌then◌else◌, lookup,
  update, find, Result, err, ok, ◌==◌, ◌&&◌,
}
use bosimao_release.ControlPlane.Payload.{Payload}
use bosimao_release.ControlPlane.Cipher.{Bytes, CipherError}

-- The texts of the `state` columns.
pub data State : Type 0 where
  active signing entering terminating terminated : State
  termination_partial termination_timeout kws_ready : State

pub data Operation : Type 0 where
  terminate retry : Operation

pub data TerminationResult : Type 0 where
  pending complete partial timeout : TerminationResult

pub data AckResult : Type 0 where
  pending confirmed failed : AckResult

-- `ACKNOWLEDGEMENTS`
pub data Ack : Type 0 where
  android_trtc_left sidecar_trtc_left bridge_drained_closed : Ack
  apm_cancelled_closed brain_turns_sealed : Ack

pub data Reporter : Type 0 where
  android sidecar rtc_bridge brain : Reporter

unfoldable pub Ack-discrete : Discrete Ack
Ack-discrete = hlevel

unfoldable pub Reporter-discrete : Discrete Reporter
Reporter-discrete = hlevel

abbrev pub same_ack : Ack → Ack → Bool
same_ack a b = elim (Ack-discrete a b) [ yes _ ↦ true | no _ ↦ false ]

abbrev pub same_reporter : Reporter → Reporter → Bool
same_reporter a b = elim (Reporter-discrete a b) [ yes _ ↦ true | no _ ↦ false ]

pub record Session : Type 0 where
  pub session_id : String
  pub device_id : String
  pub room_id : String
  pub generation : ℕ
  pub state : State
  pub created_at : ℕ
  pub updated_at : ℕ

pub record Termination : Type 0 where
  pub termination_id : String
  pub session_id : String
  pub generation : ℕ
  pub operation : Operation
  pub request_id : String
  pub payload_hash : String
  pub parent_termination_id : Option String
  pub result : TerminationResult
  pub state : State
  pub terminal_at : Option ℕ
  pub created_at : ℕ
  pub updated_at : ℕ

pub record AckRow : Type 0 where
  pub termination_id : String
  pub acknowledgement : Ack
  pub result : AckResult
  pub inherited : Bool
  pub created_at : ℕ
  pub updated_at : ℕ

pub record AckReport : Type 0 where
  pub termination_id : String
  pub acknowledgement : Ack
  pub reporter : Reporter
  pub result : AckResult
  pub error_code : Option String
  pub reported_at : ℕ
  pub created_at : ℕ
  pub updated_at : ℕ

-- What a wake stores as JSON and returns, but for the `user_sig`.
pub record WakeRecord : Type 0 where
  pub wake_event_id : String
  pub prior_session_id : String
  pub prior_generation : ℕ
  pub session_id : String
  pub device_id : String
  pub room_id : String
  pub user_id : String
  pub expires_at : String
  pub generation : ℕ
  pub state : State

pub record WakeEvent : Type 0 where
  pub wake_event_id : String
  pub device_id : String
  pub prior_session_id : String
  pub prior_generation : ℕ
  pub new_session_id : String
  pub new_generation : ℕ
  pub payload_hash : String
  pub wake_record : WakeRecord
  pub user_sig_ciphertext : Option Bytes
  pub user_sig_encryption_version : Option String
  pub consumed_at : ℕ

-- A row of `pending_session_claims`.
pub record Claim : Type 0 where
  pub id : ℕ
  pub session_id : String
  pub device_id : String
  pub room_id : String
  pub generation : ℕ
  pub expires_at : ℕ
  pub claim_token_hash : Option String
  pub claimed_at : Option ℕ
  pub consumed_at : Option ℕ
  pub signed_at : Option ℕ
  pub created_at : ℕ
  pub updated_at : ℕ

pub record Readiness : Type 0 where
  pub session_id : String
  pub generation : ℕ
  pub reporter : String
  pub evidence : Payload
  pub recorded_at : ℕ
  pub updated_at : ℕ

-- A row of `control_plane_hello_proofs`: the digests of the secrets, and the claims.
pub record HelloRow : Type 0 where
  pub jti : String
  pub nonce_hash : String
  pub proof_hash : String
  pub session_id : String
  pub device_id : String
  pub room_id : String
  pub sidecar_user_id : String
  pub generation : ℕ
  pub kid : String
  pub issuer : String
  pub audience : String
  pub protocol_version : String
  pub audio_format : Payload
  pub issued_at : ℕ
  pub expires_at : ℕ
  pub consumed_at : Option ℕ
  pub updated_at : ℕ

-- The ledger's tables.
pub record Ledger : Type 0 where
  pub sessions : List Session
  pub terminations : List Termination
  pub acks : List AckRow
  pub reports : List AckReport
  pub readiness : List Readiness
  pub wakes : List WakeEvent
  pub claims : List Claim
  pub hellos : List HelloRow

abbrev pub empty_ledger : Ledger
empty_ledger = record {
  sessions = [];
  terminations = [];
  acks = [];
  reports = [];
  readiness = [];
  wakes = [];
  claims = [];
  hellos = [];
}

-- `InvalidTerminationState` with its code, `IdempotencyConflict`, an error of the cipher,
-- `HelloProofConflict` with its code, and the database's own refusal of a row that breaks a
-- primary key or a unique index.
pub data Error : Type 0 where
  invalid_state : ℕ → Error
  idempotency_conflict : Error
  cipher_error : CipherError → Error
  hello_conflict : ℕ → Error
  integrity_error : Error

abbrev pub session_at : String → List Session → Option Session
session_at = lookup (λ (s : Session). s.session_id)

abbrev pub termination_at : String → List Termination → Option Termination
termination_at = lookup (λ (t : Termination). t.termination_id)

abbrev pub find_session : String → Ledger → Option Session
find_session k l = session_at k l.sessions

abbrev pub find_termination : String → Ledger → Option Termination
find_termination k l = termination_at k l.terminations

-- `SELECT … WHERE session_id = … AND generation = … AND request_id = …`
abbrev pub is_request : String → ℕ → String → Termination → Bool
is_request session generation request t =
    t.session_id =ₛ session && t.generation == generation && t.request_id =ₛ request

-- `UPDATE control_plane_sessions SET state, updated_at WHERE session_id = … AND p`
abbrev pub with_state : State → ℕ → Session → Session
with_state state now s = record s { state = state; updated_at = now }

abbrev pub set_session_state : String → (Session → Bool) → State → ℕ → List Session → List Session
set_session_state k p state now =
    update (λ s. if s.session_id =ₛ k then p s else false) (with_state state now)

-- `UPDATE control_plane_terminations SET result, state, terminal_at WHERE termination_id = …`
abbrev pub with_result : TerminationResult → State → ℕ → Termination → Termination
with_result result state now t = record t {
  result = result;
  state = state;
  terminal_at = some now;
  updated_at = now;
}

abbrev pub set_termination_result :
    String → TerminationResult → State → ℕ → List Termination → List Termination
set_termination_result k result state now =
    update (λ t. if t.termination_id =ₛ k then true else false) (with_result result state now)

-- `INSERT INTO control_plane_terminations`, with the primary key and the unique index.
unfoldable pub insert_termination : Termination → Ledger → Result Error Ledger
insert_termination t l = elim (find_termination t.termination_id l) [
  | some _ ↦ err integrity_error
  | none ↦ elim (find (is_request t.session_id t.generation t.request_id) l.terminations) [
    | some _ ↦ err integrity_error
    | none ↦ ok (record l { terminations = t ∷ l.terminations })
  ]
]

-- A write transaction: the body's changes are kept if it returns and undone if it raises.
abbrev pub commit {ℓ} : {A : Type ℓ} → Result Error (A × Ledger) → Ledger → Result Error A × Ledger
commit (ok (a, l')) l = (ok a, l')
commit (err e) l = (err e, l)
