-- ===== src/Relay/Server/Counts.antt =====
-- The statistics count what the sockets were told.
use bosimao_release.Prelude.{
  if_lem, Outcome, returned, raised, after, ℕ, suc, ◌≡◌, refl, String, Bool, true, false, Option,
  none, some, List, [], ◌∷◌, arith, count,
}
use bosimao_release.Relay.Pairing.{Json, other_role, RelayConfig, Credentials, is_hashable}
use bosimao_release.Relay.Store.{
  Frame, text_frame, bytes_frame, Event, relayed, shut, Relay, get_conn, start, modify,
}
use bosimao_release.Relay.Server.{
  replace_old, enter, open_one, pair_up, register, connect, leave_peer, unregister, Reading, passes,
  breaks, answers, read_frame, deliver, forward_read, forward, beat, or_unregister, receive, Call,
  connects, receives, disconnects, beats, Moment, act, run, make_conn,
}

abbrev pub is_relayed : Event → Bool
is_relayed (relayed i j f) = true
is_relayed _ = false

abbrev pub is_shut : Event → Bool
is_shut (shut i reason) = true
is_shut _ = false

pub record IsCounted (r : Relay) : Type 0 where
  pub passed : r.stats.forwarded ≡ count is_relayed r.log
  pub closed : r.stats.kicked ≡ count is_shut r.log

replace_old-IsCounted :
    (i : ℕ) (o : Option ℕ) (r : Relay) → IsCounted r → IsCounted (replace_old i o r)
replace_old-IsCounted i none r h = h
replace_old-IsCounted i (some k) r h = ground arith

pair_up-IsCounted :
    (broken : ℕ → Bool) (now i : ℕ) (o : Option ℕ) (r : Relay)
    → IsCounted r
    → IsCounted (after (pair_up broken now i o r))
pair_up-IsCounted broken now i none r h = h
pair_up-IsCounted broken now i (some p) r h = ground arith

register-IsCounted :
    (broken : ℕ → Bool) (now i : ℕ) (r : Relay)
    → IsCounted r
    → IsCounted (after (register broken now i r))
unfolding register
register-IsCounted broken now i r h =
    let code = (r.heap i).pairing_code in
    let role = (r.heap i).role in
    let old = get_conn code role r.conns in
    let one = replace_old-IsCounted i old r h in
    let two = enter i (replace_old i old r) in
    pair_up-IsCounted broken now i (open_one two (get_conn code (other_role role) two.conns)) two
      (record { passed = one.passed; closed = one.closed })

connect-IsCounted :
    (broken : ℕ → Bool) (now : ℕ) (c : Credentials) (r : Relay)
    → IsCounted r
    → IsCounted (connect broken now c r)
unfolding connect
connect-IsCounted broken now c r h =
    let r' = record r { heap = modify r.next (λ _. make_conn now c) r.heap; next = suc r.next } in
    let made : IsCounted r' = record { passed = h.passed; closed = h.closed } in
    if_lem IsCounted (is_hashable c.pairing_code) (after (register broken now r.next r')) r'
      (register-IsCounted broken now r.next r' made) made

leave_peer-IsCounted :
    (broken : ℕ → Bool) (i : ℕ) (o : Option ℕ) (r r' : Relay)
    → IsCounted r'
    → IsCounted (leave_peer broken (r.heap i) o r')
leave_peer-IsCounted broken i none r r' h = h
leave_peer-IsCounted broken i (some p) r r' h = ground arith

unregister-IsCounted :
    (broken : ℕ → Bool) (i : ℕ) (r : Relay) → IsCounted r → IsCounted (unregister broken i r)
unfolding unregister
unregister-IsCounted broken i r h =
    leave_peer-IsCounted broken i (r.heap i).peer r _
      (record { passed = h.passed; closed = h.closed })

deliver-IsCounted :
    (broken : ℕ → Bool) (i : ℕ) (f : Frame) (o : Option ℕ) (r : Relay)
    → IsCounted r
    → IsCounted (after (deliver broken i f o r))
deliver-IsCounted broken i (text_frame raw) none r h = ground arith
deliver-IsCounted broken i (bytes_frame bs) none r h = h
deliver-IsCounted broken i f (some p) r h = ground (arith, unregister-IsCounted broken p r h)

forward_read-IsCounted :
    (broken : ℕ → Bool) (i : ℕ) (f : Frame) (g : Reading) (r : Relay)
    → IsCounted r
    → IsCounted (after (forward_read broken i f g r))
forward_read-IsCounted broken i f passes r h =
    deliver-IsCounted broken i f (open_one r (r.heap i).peer) r h
forward_read-IsCounted broken i f breaks r h = h
forward_read-IsCounted broken i f (answers t) r h = ground arith

or_unregister-IsCounted :
    (broken : ℕ → Bool) (i : ℕ) (o : Outcome Relay)
    → IsCounted (after o)
    → IsCounted (or_unregister broken i o)
or_unregister-IsCounted broken i (returned r) h = h
or_unregister-IsCounted broken i (raised r) h = unregister-IsCounted broken i r h

act-IsCounted :
    (cfg : RelayConfig) (loads : String → Option Json) (broken : ℕ → Bool) (now : ℕ) (c : Call)
    (r : Relay)
    → IsCounted r
    → IsCounted (act cfg loads broken now c r)
unfolding receive forward beat
act-IsCounted cfg loads broken now (connects c) r h = connect-IsCounted broken now c r h
act-IsCounted cfg loads broken now (receives i f) r h =
    let r' = record r { heap = modify i (λ c. record c { last_rx = now }) r.heap } in
    or_unregister-IsCounted broken i (forward_read broken i f (read_frame loads now f) r') (
      forward_read-IsCounted broken i f (read_frame loads now f) r'
        (record { passed = h.passed; closed = h.closed }))
act-IsCounted cfg loads broken now (disconnects i) r h = unregister-IsCounted broken i r h
act-IsCounted cfg loads broken now (beats i) r h = ground arith

run-IsCounted :
    (cfg : RelayConfig) (loads : String → Option Json) (ms : List Moment) (r : Relay)
    → IsCounted r
    → IsCounted (run cfg loads ms r)
unfolding run
run-IsCounted cfg loads [] r h = h
run-IsCounted cfg loads (m ∷ ms) r h =
    run-IsCounted cfg loads ms (act cfg loads m.broken m.now m.call r)
      (act-IsCounted cfg loads m.broken m.now m.call r h)

-- After any calls from the start, `forwarded` is the number of frames that were passed on, and
-- `kicked` the number of connections that the relay closed.
pub run-start-IsCounted :
    (cfg : RelayConfig) (loads : String → Option Json) (ms : List Moment)
    → IsCounted (run cfg loads ms start)
run-start-IsCounted cfg loads ms =
    run-IsCounted cfg loads ms start (record { passed = refl; closed = refl })
