-- ===== src/Relay/Store.antt =====
-- The state of the relay: `RelayConn` and the fields of `RelayServer` in backend/relay/relay_server.py.
-- A connection is a cell of a store, so that peers are shared objects, and what the sockets are told
-- is a log, the newest first.
use bosimao_release.Prelude.{
  ℕ, String, Bool, true, false, not, Option, none, some, List, [], ◌∷◌, ◌++◌, ◌&&◌, ◌==◌, ◌=ₛ◌,
  if◌then◌else◌, find, update, keep, any,
}
use bosimao_release.Relay.Frames.{Bytes}
use bosimao_release.Relay.Pairing.{Value, text, scalar, Role, phone, pc}

-- `RelayConn`; the session is what the text of its identifier shows, the time and the code.
pub record RelayConn : Type 0 where
  pub role : Role
  pub device_id : Value
  pub pairing_code : Value
  pub token : Value
  pub peer : Option ℕ
  pub session_id : Option (ℕ × Value)
  pub last_rx : ℕ
  pub created_at : ℕ
  pub closed : Bool

-- The time of a `pong`: the one of the frame that it answers, or the clock's.
pub data Stamp : Type 0 where
  echoed : Value → Stamp
  clock : ℕ → Stamp

-- What the relay sends of its own.
pub data Message : Type 0 where
  paired : Option (ℕ × Value) → Role → Value → Message
  peer_left : Option (ℕ × Value) → Value → Message
  pong : Stamp → Message
  ping : ℕ → Message
  error_frame : String → Message

pub data Frame : Type 0 where
  text_frame : String → Frame
  bytes_frame : Bytes → Frame

-- A socket is sent a message of the relay, or a frame of another connection, or is closed.
pub data Event : Type 0 where
  told : ℕ → Message → Event
  relayed : (source target : ℕ) → Frame → Event
  shut : ℕ → String → Event

pub record Stats : Type 0 where
  pub paired_pairs : ℕ
  pub forwarded : ℕ
  pub kicked : ℕ

-- An entry of `_conns`.
pub record Entry : Type 0 where
  pub pairing_code : Value
  pub role : Role
  pub conn : ℕ

-- The store of the connections that were made, numbered in order, and the server.
pub record Relay : Type 0 where
  pub heap : ℕ → RelayConn
  pub next : ℕ
  pub conns : List Entry
  pub stats : Stats
  pub log : List Event

-- Equality as keys of a `dict`.
abbrev pub same_value : Value → Value → Bool
same_value (text s) (text t) = s =ₛ t
same_value (scalar s a) (scalar t b) = (s =ₛ t) && (if a then b else not b)
same_value _ _ = false

abbrev pub same_role : Role → Role → Bool
same_role phone phone = true
same_role pc pc = true
same_role _ _ = false

abbrev pub is_at : Value → Role → Entry → Bool
is_at code role e = same_value e.pairing_code code && same_role e.role role

-- `_conns.get((code, role))`
abbrev pub conn_of : Option Entry → Option ℕ
conn_of none = none
conn_of (some e) = some e.conn

abbrev pub get_conn : Value → Role → List Entry → Option ℕ
get_conn code role es = conn_of (find (is_at code role) es)

-- `_conns[(code, role)] = conn`
abbrev pub put_conn : Value → Role → ℕ → List Entry → List Entry
put_conn code role i es =
    if any (is_at code role) es
    then update (is_at code role) (λ e. record e { conn = i }) es
    else es ++ (record { pairing_code = code; role = role; conn = i } ∷ [])

abbrev pub is_conn : ℕ → Option ℕ → Bool
is_conn i none = false
is_conn i (some j) = i == j

-- `if _conns.get(key) is conn: _conns.pop(key)`
abbrev pub pop_conn : Value → Role → ℕ → List Entry → List Entry
pop_conn code role i es =
    if is_conn i (get_conn code role es) then keep (λ e. not (is_at code role e)) es else es

-- Assignments to the fields of one connection.
abbrev pub modify : ℕ → (RelayConn → RelayConn) → (ℕ → RelayConn) → ℕ → RelayConn
modify i f heap j = if i == j then f (heap j) else heap j

-- The server before any connection; the cells of the store that are not made are closed.
abbrev pub start : Relay
start = record {
  heap = λ _. record {
    role = phone;
    device_id = text "";
    pairing_code = text "";
    token = text "";
    peer = none;
    session_id = none;
    last_rx = 0;
    created_at = 0;
    closed = true;
  };
  next = 0;
  conns = [];
  stats = record { paired_pairs = 0; forwarded = 0; kicked = 0 };
  log = [];
}
