-- ===== src/Relay/Server.antt =====
-- Pairing, forwarding and heartbeat of the relay: the methods of `RelayServer` and `run_conn` of
-- backend/relay/relay_server.py. A call is one step.
pub mod Isolation
pub mod Linking
pub mod Delivery
pub mod Counts
pub mod Replaced
use bosimao_release.Prelude.{
  Outcome, returned, raised, and_then, after, ℕ, suc, ◌+◌, ◌-◌, String, Bool, true, false, not,
  Option, none, some, List, [], ◌∷◌, ◌&&◌, ◌||◌, ◌==◌, ltb, if◌then◌else◌,
}
use bosimao_release.Relay.Pairing.{
  Value, Json, object, plain, get_field, is_text, phone, other_role, RelayConfig, Credentials,
  is_hashable,
}
use bosimao_release.Relay.Store.{
  RelayConn, Stamp, echoed, clock, Message, paired, peer_left, pong, ping, error_frame, Frame,
  text_frame, bytes_frame, told, relayed, shut, Relay, same_role, get_conn, put_conn, pop_conn,
  modify,
}

-- A socket that is broken raises when it is sent to.
abbrev pub send : (ℕ → Bool) → ℕ → Message → Relay → Outcome Relay
send broken i m r = if broken i then raised r else returned (record r { log = told i m ∷ r.log })

abbrev pub kick : Relay → Relay
kick r = record r { stats = record r.stats { kicked = r.stats.kicked + 1 } }

-- `_safe_close`, which passes over what the socket raises.
abbrev pub safe_close : ℕ → String → Relay → Relay
safe_close i reason r = record r {
  heap = modify i (λ c. record c { closed = true }) r.heap;
  log = shut i reason ∷ r.log;
}

-- The connection that `register` replaces.
abbrev pub replace_old : ℕ → Option ℕ → Relay → Relay
replace_old i none r = r
replace_old i (some o) r =
    if not (o == i) && not (r.heap o).closed
    then safe_close o "replaced by new connection" (kick r)
    else r

abbrev pub enter : ℕ → Relay → Relay
enter i r = record r { conns = put_conn (r.heap i).pairing_code (r.heap i).role i r.conns }

-- The peer that waits, if it is there and not closed.
abbrev pub is_open : Relay → ℕ → Bool
is_open r p = not (r.heap p).closed

abbrev pub open_one : Relay → Option ℕ → Option ℕ
open_one r none = none
open_one r (some p) = if is_open r p then some p else none

abbrev pub link : ℕ → ℕ → ℕ → Relay → Relay
link now i p r =
    let session = some (now, (r.heap i).pairing_code) in
    record r {
      heap =
          modify p (λ c. record c { peer = some i; session_id = session })
            (modify i (λ c. record c { peer = some p; session_id = session }) r.heap);
      stats = record r.stats { paired_pairs = r.stats.paired_pairs + 1 };
    }

abbrev pub tell_paired : (ℕ → Bool) → ℕ → ℕ → Relay → Outcome Relay
tell_paired broken c other r =
    send broken c (paired (r.heap c).session_id (r.heap other).role (r.heap other).device_id) r

abbrev pub pair_up : (ℕ → Bool) → ℕ → ℕ → Option ℕ → Relay → Outcome Relay
pair_up broken now i none r = returned r
pair_up broken now i (some p) r =
    and_then (tell_paired broken i p (link now i p r)) (λ r'. tell_paired broken p i r')

-- `register`
unfoldable pub register : (ℕ → Bool) → ℕ → ℕ → Relay → Outcome Relay
register broken now i r =
    let code = (r.heap i).pairing_code in
    let role = (r.heap i).role in
    let r' = enter i (replace_old i (get_conn code role r.conns) r) in
    pair_up broken now i (open_one r' (get_conn code (other_role role) r'.conns)) r'

-- What `unregister` tells the peer, if it can.
abbrev pub leave : (ℕ → Bool) → RelayConn → ℕ → Relay → Relay
leave broken c p r =
    let r' = record r { heap = modify p (λ d. record d { peer = none }) r.heap } in
    if broken p
    then r'
    else record r' { log = told p (peer_left c.session_id c.device_id) ∷ r'.log }

abbrev pub leave_peer : (ℕ → Bool) → RelayConn → Option ℕ → Relay → Relay
leave_peer broken c none r = r
leave_peer broken c (some p) r = if is_open r p then leave broken c p r else r

-- `unregister`
unfoldable pub unregister : (ℕ → Bool) → ℕ → Relay → Relay
unregister broken i r =
    let c = r.heap i in
    leave_peer broken c c.peer (record r {
      heap = modify i (λ d. record d { closed = true; peer = none }) r.heap;
      conns = pop_conn c.pairing_code c.role i r.conns;
    })

-- What `forward` makes of a frame by its content: it passes it on, answers it itself, or the JSON
-- value has no `get` and the call raises.
pub data Reading : Type 0 where
  passes breaks : Reading
  answers : Stamp → Reading

abbrev pub stamp_of : ℕ → Option Value → Stamp
stamp_of now none = clock now
stamp_of now (some v) = echoed v

abbrev pub read_json : ℕ → Option Json → Reading
read_json now none = passes
read_json now (some (plain s)) = breaks
read_json now (some (object msg)) =
    if is_text "heartbeat" (get_field "type" msg) || is_text "pong" (get_field "type" msg)
    then answers (stamp_of now (get_field "ts" msg))
    else passes

abbrev pub read_frame : (String → Option Json) → ℕ → Frame → Reading
read_frame loads now (text_frame raw) = read_json now (loads raw)
read_frame loads now (bytes_frame bs) = passes

abbrev pub no_peer : (ℕ → Bool) → ℕ → Frame → Relay → Outcome Relay
no_peer broken i (text_frame raw) r = send broken i (error_frame "no_peer") r
no_peer broken i (bytes_frame bs) r = returned r

abbrev pub deliver : (ℕ → Bool) → ℕ → Frame → Option ℕ → Relay → Outcome Relay
deliver broken i f none r = no_peer broken i f r
deliver broken i f (some p) r =
    if broken p
    then returned (unregister broken p r)
    else returned (record r {
      stats = record r.stats { forwarded = r.stats.forwarded + 1 };
      log = relayed i p f ∷ r.log;
    })

abbrev pub forward_read : (ℕ → Bool) → ℕ → Frame → Reading → Relay → Outcome Relay
forward_read broken i f passes r = deliver broken i f (open_one r (r.heap i).peer) r
forward_read broken i f breaks r = raised r
forward_read broken i f (answers t) r = send broken i (pong t) r

-- `forward`
unfoldable pub forward : (String → Option Json) → (ℕ → Bool) → ℕ → ℕ → Frame → Relay → Outcome Relay
forward loads broken now i f r = forward_read broken i f (read_frame loads now f) r

abbrev pub is_none {ℓ} : {A : Type ℓ} → Option A → Bool
is_none none = true
is_none (some a) = false

-- A round of `heartbeat_loop` after its sleep, and whether the loop goes on.
unfoldable pub beat : RelayConfig → (ℕ → Bool) → ℕ → ℕ → Relay → Relay × Bool
beat cfg broken now i r =
    let c = r.heap i in
    let r' = record r { log = told i (ping now) ∷ r.log } in
    if c.closed || broken i
    then (r, false)
    else if ltb cfg.heartbeat_timeout_s (now - c.last_rx)
    then (safe_close i "heartbeat timeout" (kick r'), false)
    else if is_none c.peer
        && same_role c.role phone
        && ltb cfg.session_timeout_s (now - c.created_at)
    then (safe_close i "pair timeout" (kick r'), false)
    else (r', true)

-- A new connection, which `run_conn` registers.
abbrev pub make_conn : ℕ → Credentials → RelayConn
make_conn now c = record {
  role = c.role;
  device_id = c.device_id;
  pairing_code = c.pairing_code;
  token = c.token;
  peer = none;
  session_id = none;
  last_rx = now;
  created_at = now;
  closed = false;
}

-- `register` stands outside the `try` of `run_conn`: what it raises ends the task as it is. A code
-- that is a list or an object cannot be a key, and so raises at once.
unfoldable pub connect : (ℕ → Bool) → ℕ → Credentials → Relay → Relay
connect broken now c r =
    let r' = record r { heap = modify r.next (λ _. make_conn now c) r.heap; next = suc r.next } in
    if is_hashable c.pairing_code then after (register broken now r.next r') else r'

-- What `forward` raises ends the loop of `run_conn`, which then unregisters the connection.
abbrev pub or_unregister : (ℕ → Bool) → ℕ → Outcome Relay → Relay
or_unregister broken i (returned r) = r
or_unregister broken i (raised r) = unregister broken i r

-- A round of the loop of `run_conn`.
unfoldable pub receive : (String → Option Json) → (ℕ → Bool) → ℕ → ℕ → Frame → Relay → Relay
receive loads broken now i f r = or_unregister broken i (
    forward loads broken now i f
      (record r { heap = modify i (λ c. record c { last_rx = now }) r.heap }))

pub data Call : Type 0 where
  connects : Credentials → Call
  receives : ℕ → Frame → Call
  disconnects beats : ℕ → Call

-- A call, its time, and the sockets that are broken then.
pub record Moment : Type 0 where
  pub call : Call
  pub now : ℕ
  pub broken : ℕ → Bool

module _ (cfg : RelayConfig) (loads : String → Option Json) where
  abbrev pub act : (ℕ → Bool) → ℕ → Call → Relay → Relay
  act broken now (connects c) r = connect broken now c r
  act broken now (receives i f) r = receive loads broken now i f r
  act broken now (disconnects i) r = unregister broken i r
  act broken now (beats i) r = (beat cfg broken now i r).0

  unfoldable pub run : List Moment → Relay → Relay
  run [] r = r
  run (m ∷ ms) r = run ms (act m.broken m.now m.call r)
