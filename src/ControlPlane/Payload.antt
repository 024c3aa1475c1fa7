-- ===== src/ControlPlane/Payload.antt =====
-- Request payloads: the JSON objects whose hash makes a request idempotent
-- (backend/app/voice/control_plane_base.py).
use bosimao_release.Prelude.{
  ℕ, String, Bool, true, false, List, [], ◌∷◌, ◌=ₛ◌, ◌||◌, ◌==◌, if◌then◌else◌,
}

-- The scalars that the payloads hold.
pub data Value : Type 0 where
  text : String → Value
  int : ℕ → Value
  null : Value

abbrev pub Payload : Type 0
Payload = List (String × Value)

-- `payload.get(key)`, where a missing key reads as `None`.
abbrev pub payload_get : String → Payload → Value
payload_get k [] = null
payload_get k ((j, v) ∷ p) = if j =ₛ k then v else payload_get k p

abbrev pub has_key : String → Payload → Bool
has_key k [] = false
has_key k ((j, v) ∷ p) = j =ₛ k || has_key k p

abbrev pub same_value : Value → Value → Bool
same_value (text s) (text t) = s =ₛ t
same_value (int a) (int b) = a == b
same_value null null = true
same_value _ _ = false

-- What the ledger takes from the standard library: `json.dumps` with sorted keys and compact
-- separators, and the hex digest of SHA-256.
pub record Hashing : Type 0 where
  pub dumps : Payload → String
  pub sha256_hex : String → String

-- `_payload_hash`
abbrev pub payload_hash : Hashing → Payload → String
payload_hash h p = h.sha256_hex (h.dumps p)
