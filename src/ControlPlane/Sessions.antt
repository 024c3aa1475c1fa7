-- ===== src/ControlPlane/Sessions.antt =====
-- Sessions and root terminations: backend/app/voice/control_plane_sessions.py, with the read
-- `get_termination` of control_plane_retry.py that each call ends with.
use bosimao_release.Prelude.{
  ℕ, String, Bool, true, false, not, Option, none, some, ◌∷◌, ◌=ₛ◌, ◌==◌, ◌&&◌, if◌then◌else◌, find,
  Result, ok, err, ◌>>=◌, ◌>>◌, raise_if, or_raise,
}
use bosimao_release.ControlPlane.Schema.{
  State, Operation, TerminationResult, AckResult, Ack, AckRow, Session, Termination, Ledger, Error,
  invalid_state, idempotency_conflict, find_session, find_termination, is_request,
  set_session_state, insert_termination, commit, same_ack,
}
use bosimao_release.ControlPlane.Payload.{
  text, int, Payload, payload_get, same_value, Hashing, payload_hash,
}

abbrev pub is_initial : State → Bool
is_initial State.active = true
is_initial State.signing = true
is_initial _ = false

-- `ROOT_TERMINATE_ALLOWED_STATES`
abbrev pub allows_root : State → Bool
allows_root State.active = true
allows_root _ = false

-- The columns that `get_session` selects.
pub record SessionView : Type 0 where
  pub session_id : String
  pub device_id : String
  pub room_id : String
  pub generation : ℕ
  pub state : State

abbrev pub view_session : Session → SessionView
view_session s = record {
  session_id = s.session_id;
  device_id = s.device_id;
  room_id = s.room_id;
  generation = s.generation;
  state = s.state;
}

unfoldable pub get_session : String → Ledger → Result Error SessionView
get_session k l = do s ← or_raise (find_session k l) (invalid_state 40402); ok (view_session s)

abbrev pub same_context : Session → String → String → ℕ → Bool
same_context s device room generation =
    s.device_id =ₛ device && s.room_id =ₛ room && s.generation == generation

abbrev pub fresh_session : String → String → String → ℕ → State → ℕ → Session
fresh_session session device room generation state now = record {
  session_id = session;
  device_id = device;
  room_id = room;
  generation = generation;
  state = state;
  created_at = now;
  updated_at = now;
}

-- The transaction of `create_session`: an existing row must have the same context, and is kept.
unfoldable pub create_session_tx :
    String → String → String → ℕ → State → ℕ → Ledger → Result Error (Unit {0} × Ledger)
create_session_tx session device room generation state now l = elim (find_session session l) [
  | some s ↦ if same_context s device room generation then ok (tt, l) else err (invalid_state 40916)
  | none ↦ ok (
    tt,
    record l { sessions = fresh_session session device room generation state now ∷ l.sessions },
  )
]

unfoldable pub create_session :
    String → String → String → ℕ → State → ℕ → Ledger → Result Error SessionView × Ledger
unfolding create_session_tx
create_session session device room generation state now l =
    if is_initial state
    then (let (r, l') = commit (create_session_tx session device room generation state now l) l in
        ((r >> get_session session l'), l'))
    else (err (invalid_state 40916), l)

-- `_validate_payload`
unfoldable pub validate_payload : Session → ℕ → Payload → Result Error (Unit {0})
validate_payload row generation payload = do
  raise_if (not (generation == row.generation)) (invalid_state 40916)
  raise_if
      (not (
        same_value (payload_get "session_id" payload) (text row.session_id)
        && same_value (payload_get "device_id" payload) (text row.device_id)
        && same_value (payload_get "room_id" payload) (text row.room_id)
        && same_value (payload_get "generation" payload) (int row.generation)))
      (invalid_state 40916)

-- What `get_termination` returns: the row, and each acknowledgement with `pending` for a default.
pub record TerminationView : Type 0 where
  pub row : Termination
  pub acknowledgements : Ack → AckResult

abbrev pub is_ack : String → Ack → AckRow → Bool
is_ack termination ack a = a.termination_id =ₛ termination && same_ack a.acknowledgement ack

abbrev pub ack_result : Option AckRow → AckResult
ack_result none = AckResult.pending
ack_result (some a) = a.result

unfoldable pub get_termination : String → Ledger → Result Error TerminationView
get_termination k l = do
  row ← or_raise (find_termination k l) (invalid_state 40403)
  ok (record { row = row; acknowledgements = λ ack. ack_result (find (is_ack k ack) l.acks) })

module _ (h : Hashing) where
  -- The row that `begin_termination` inserts.
  abbrev pub root_termination : String → String → ℕ → String → Payload → ℕ → Termination
  root_termination id session generation request payload now = record {
    termination_id = id;
    session_id = session;
    generation = generation;
    operation = Operation.terminate;
    request_id = request;
    payload_hash = payload_hash h payload;
    parent_termination_id = none;
    result = TerminationResult.pending;
    state = State.terminating;
    terminal_at = none;
    created_at = now;
    updated_at = now;
  }

  -- A new root termination, where the request was not seen before.
  unfoldable pub open_root :
      Session → String → String → Payload → ℕ → Ledger → Result Error (String × Ledger)
  open_root session id request payload now l = do
    raise_if (not (allows_root session.state)) (invalid_state 40916)
    l' ←
        insert_termination
          (root_termination id session.session_id session.generation request payload now) l
    ok (
      id,
      record l' {
        sessions =
            set_session_state session.session_id (λ _. true) State.terminating now l'.sessions;
      },
    )

  -- The same request again gets the termination that it made; another payload is a conflict.
  unfoldable pub settle_root :
      Session → String → String → Payload → ℕ → Ledger → Result Error (String × Ledger)
  settle_root session id request payload now l =
      elim (find (is_request session.session_id session.generation request) l.terminations) [
        | some existing ↦
            if existing.payload_hash =ₛ payload_hash h payload
            then ok (existing.termination_id, l)
            else err idempotency_conflict
        | none ↦ open_root session id request payload now l
      ]

  -- The transaction of `begin_termination`; `id` is the value of `uuid.uuid4()`.
  unfoldable pub begin_termination_tx :
      String → ℕ → String → Payload → String → ℕ → Ledger → Result Error (String × Ledger)
  unfolding validate_payload settle_root open_root
  begin_termination_tx k generation request payload id now l = do
    session ← or_raise (find_session k l) (invalid_state 40402)
    validate_payload session generation payload
    settle_root session id request payload now l

  unfoldable pub begin_termination :
      String → ℕ → String → Payload → String → ℕ → Ledger → Result Error TerminationView × Ledger
  begin_termination k generation request payload id now l =
      let (r, l') = commit (begin_termination_tx k generation request payload id now l) l in
      ((r >>= λ t. get_termination t l'), l')
