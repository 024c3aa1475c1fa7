-- ===== src/Relay/Pairing/Accepted.antt =====
-- What a connection has shown when the handshake accepts it.
use bosimao_release.Prelude.{
  String, ◌≡◌, refl, true, false, Option, none, some, arith, ok, inl, inr, Bool-cases, Option-cases,
  ◌=ₛ◌, ◌⊎◌, String_discrete,
}
use bosimao_release.Relay.Pairing.{
  Value, text, Fields, Json, object, get_field, is_text, is_truthy, role_text, is_pair_role,
  make_pair_frame, pair_message, check_fields, parse_pair_frame, RelayConfig, Credentials,
  accept_conn, settle, token_of,
}

-- The fields of a message.
record IsMessage (role device_id pairing_code : String) (msg : Fields) : Type 0 where
  pub kind : get_field "type" msg ≡ some (text "pair")
  pub role_field : get_field "role" msg ≡ some (text role)
  pub device : get_field "device_id" msg ≡ some (text device_id)
  pub code : get_field "pairing_code" msg ≡ some (text pairing_code)

pair_message-IsMessage :
    (role device_id pairing_code token : String)
    → IsMessage role device_id pairing_code (pair_message role device_id pairing_code token)
unfolding String_discrete
pair_message-IsMessage role device_id pairing_code token = record {
  kind = refl;
  role_field = refl;
  device = refl;
  code = refl;
}

check_message :
    (role device_id pairing_code : String) (msg : Fields)
    → IsMessage role device_id pairing_code msg
    → is_pair_role role ≡ true
    → (device_id =ₛ "") ≡ false
    → (pairing_code =ₛ "") ≡ false
    → ("pair" =ₛ "pair") ≡ true
    → check_fields msg ≡ ok msg
check_message role device_id pairing_code msg h good named coded same =
    rw (h.kind, h.role_field, h.device, h.code) (ground arith)

-- A pair frame that a client makes is read as the message that it was made of, where JSON reads
-- back what it wrote of it, and the device and the code are not empty.
pub parse-make :
    (loads : String → Option Json) (dumps : Fields → String)
    (role device_id pairing_code token : String) (msg : Fields)
    → make_pair_frame role device_id pairing_code token ≡ ok msg
    → loads (dumps msg) ≡ some (object msg)
    → (device_id =ₛ "") ≡ false
    → (pairing_code =ₛ "") ≡ false
    → parse_pair_frame loads (dumps msg) ≡ ok msg
unfolding make_pair_frame parse_pair_frame
parse-make loads dumps role device_id pairing_code token msg made law named coded =
    elim (Bool-cases (is_pair_role role)) [
      | inr bad ↦ absurd (ground arith)
      | inl good ↦
          let same : msg ≡ pair_message role device_id pairing_code token = ground arith in
          let checked =
            check_message role device_id pairing_code
              (pair_message role device_id pairing_code token)
              (pair_message-IsMessage role device_id pairing_code token) good named coded
              (ground arith) in
          rw (law, same) checked
    ]

-- What a message has shown of the connection that is made of it.
pub record IsShown (cfg : RelayConfig) (msg : Fields) (c : Credentials) : Type 0 where
  pub kind : is_text "pair" (get_field "type" msg) ≡ true
  pub role_field : is_text (role_text c.role) (get_field "role" msg) ≡ true
  pub device : get_field "device_id" msg ≡ some c.device_id
  pub named : is_truthy (some c.device_id) ≡ true
  pub code : get_field "pairing_code" msg ≡ some c.pairing_code
  pub coded : is_truthy (some c.pairing_code) ≡ true
  pub token : (cfg.require_token ≡ false) ⊎ (c.token ≡ text cfg.token)

is_text-text : (s : String) (v : Value) → is_text s (some v) ≡ true → v ≡ text s
is_text-text s (text t) e = ground arith
is_text-text s (Value.scalar t b) e = absurd (ground arith)
is_text-text s (Value.nested t b) e = absurd (ground arith)

credentials-IsShown :
    (cfg : RelayConfig) (query_token : String) (msg : Fields) (c : Credentials)
    → settle cfg query_token (check_fields msg) ≡ ok c
    → IsShown cfg msg c
credentials-IsShown cfg query_token msg c e =
    elim (Bool-cases (is_text "pair" (get_field "type" msg))) [
      | inr other ↦ absurd (ground arith)
      | inl kind ↦ elim (Option-cases (get_field "device_id" msg)) [
        | inl nameless ↦ absurd (ground arith)
        | inr (d, device) ↦ elim (Option-cases (get_field "pairing_code" msg)) [
          | inl codeless ↦ absurd (ground arith)
          | inr (k, code) ↦ elim (Bool-cases (is_text "phone" (get_field "role" msg))) [
            | inl is_phone ↦ ground (arith, is_text-text cfg.token (token_of query_token msg))
            | inr not_phone ↦ ground (arith, is_text-text cfg.token (token_of query_token msg))
          ]
        ]
      ]
    ]

-- A socket is accepted only on a pair frame that came in time, is an object with the type, a role,
-- a device and a code, which the connection then has; and where the relay asks for a token, only
-- with this token, in the query or, if the query has none, in the frame.
pub accept_conn_needs :
    (loads : String → Option Json) (cfg : RelayConfig) (received : Option String)
    (query_token : String) (c : Credentials)
    → accept_conn loads cfg received query_token ≡ ok c
    → (raw : String) × (msg : Fields) × (received ≡ some raw)
      × (loads raw ≡ some (object msg))
      × IsShown cfg msg c
unfolding accept_conn parse_pair_frame
accept_conn_needs loads cfg none query_token c e = absurd (ground arith)
accept_conn_needs loads cfg (some raw) query_token c e = elim (Option-cases (loads raw)) [
  | inl broken ↦ absurd (ground arith)
  | inr (Json.plain s, found) ↦ absurd (ground arith)
  | inr (object msg, found) ↦
      (raw, msg, refl, found, credentials-IsShown cfg query_token msg c (rw (found) at e))
]
