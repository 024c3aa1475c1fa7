-- ===== src/Relay/Server/Isolation/Steps.antt =====
-- Every call of the relay keeps its connections apart.
use bosimao_release.Prelude.{
  Outcome, returned, raised, after, ℕ, ◌-◌, ◌<◌, ◌≡◌, refl, String, Bool, true, not, Option, none,
  some, List, [], ◌∷◌, arith, All, inl, inr, Bool-cases, keep, ◌&&◌, ◌||◌, ltb,
}
use bosimao_release.Relay.Pairing.{Json, phone, RelayConfig}
use bosimao_release.Relay.Store.{
  RelayConn, Frame, text_frame, bytes_frame, error_frame, pong, ping, told, Entry, Relay, is_at,
  get_conn, is_conn, modify, start, same_role,
}
use bosimao_release.Relay.Server.{
  is_open, open_one, leave, leave_peer, unregister, Reading, passes, breaks, answers, read_frame,
  deliver, forward_read, forward, is_none, beat, or_unregister, receive, Call, connects, receives,
  disconnects, beats, Moment, act, run,
}
use bosimao_release.Relay.Server.Isolation.{IsEntry, IsIsolated, Loses-IsSafe, modify-Loses}
use bosimao_release.Relay.Server.Isolation.Registering.{
  send-IsIsolated, close-IsIsolated, connect-IsIsolated, open_one_lem,
}

All-keep : (P : Entry → Type 0) (t : Entry → Bool) (es : List Entry) → All P es → All P (keep t es)
All-keep P t [] a = tt
All-keep P t (e ∷ es) a = elim (Bool-cases (t e)) [
  | inl yes_ ↦ rw yes_ (a.0, All-keep P t es a.1)
  | inr no_ ↦ rw no_ (All-keep P t es a.1)
]

leave-IsIsolated :
    (broken : ℕ → Bool) (c : RelayConn) (p : ℕ) (r : Relay)
    → IsIsolated r
    → IsIsolated (leave broken c p r)
leave-IsIsolated broken c p r h =
    let gone = λ (d : RelayConn). record d { peer = none } in
    let s =
      Loses-IsSafe r.heap (modify p gone r.heap) r.next r.conns r.log
        (modify-Loses p gone r.heap (λ c. refl) (λ c. refl) (λ c. inl refl)) h in
    elim (Bool-cases (broken p)) [
      | inl e ↦ rw e s
      | inr e ↦ rw e (record {
        peers = s.peers;
        fresh = s.fresh;
        entries = s.entries;
        events = (tt, s.events);
      })
    ]

leave_peer-IsIsolated :
    (broken : ℕ → Bool) (c : RelayConn) (o : Option ℕ) (r : Relay)
    → IsIsolated r
    → IsIsolated (leave_peer broken c o r)
leave_peer-IsIsolated broken c none r h = h
leave_peer-IsIsolated broken c (some p) r h = elim (Bool-cases (is_open r p)) [
  | inl e ↦ rw e (leave-IsIsolated broken c p r h)
  | inr e ↦ rw e h
]

unregister-IsIsolated :
    (broken : ℕ → Bool) (i : ℕ) (r : Relay) → IsIsolated r → IsIsolated (unregister broken i r)
unfolding unregister
unregister-IsIsolated broken i r h =
    let c = r.heap i in
    let gone = λ (d : RelayConn). record d { closed = true; peer = none } in
    let s =
      Loses-IsSafe r.heap (modify i gone r.heap) r.next r.conns r.log
        (modify-Loses i gone r.heap (λ c. refl) (λ c. refl) (λ c. inl refl)) h in
    leave_peer-IsIsolated broken c c.peer _ (record {
      peers = s.peers;
      fresh = s.fresh;
      events = s.events;
      entries = elim (Bool-cases (is_conn i (get_conn c.pairing_code c.role r.conns))) [
        | inl e ↦ rw e (
            All-keep (IsEntry (modify i gone r.heap) r.next)
              (λ e. not (is_at c.pairing_code c.role e)) r.conns s.entries)
        | inr e ↦ rw e s.entries
      ];
    })

deliver-IsIsolated :
    (broken : ℕ → Bool) (i : ℕ) (f : Frame) (o : Option ℕ) (r : Relay)
    → IsIsolated r
    → ((p : ℕ) → o ≡ some p → (r.heap i).peer ≡ some p)
    → IsIsolated (after (deliver broken i f o r))
deliver-IsIsolated broken i (text_frame raw) none r h found =
    send-IsIsolated broken i (error_frame "no_peer") r h
deliver-IsIsolated broken i (bytes_frame bs) none r h found = h
deliver-IsIsolated broken i f (some p) r h found = elim (Bool-cases (broken p)) [
  | inl e ↦ rw e (unregister-IsIsolated broken p r h)
  | inr e ↦
      let peer = h.peers i p (found p refl) in
      let made : i < r.next = ground (arith, h.fresh i, found p refl) in
      rw e (record {
        peers = h.peers;
        fresh = h.fresh;
        entries = h.entries;
        events = ((made, peer.0, peer.1), h.events);
      })
]

forward_read-IsIsolated :
    (broken : ℕ → Bool) (i : ℕ) (f : Frame) (g : Reading) (r : Relay)
    → IsIsolated r
    → IsIsolated (after (forward_read broken i f g r))
forward_read-IsIsolated broken i f passes r h =
    deliver-IsIsolated broken i f (open_one r (r.heap i).peer) r h
      (λ p e. (open_one_lem r (r.heap i).peer p e).0)
forward_read-IsIsolated broken i f breaks r h = h
forward_read-IsIsolated broken i f (answers t) r h = send-IsIsolated broken i (pong t) r h

or_unregister-IsIsolated :
    (broken : ℕ → Bool) (i : ℕ) (o : Outcome Relay)
    → IsIsolated (after o)
    → IsIsolated (or_unregister broken i o)
or_unregister-IsIsolated broken i (returned r) h = h
or_unregister-IsIsolated broken i (raised r) h = unregister-IsIsolated broken i r h

receive-IsIsolated :
    (loads : String → Option Json) (broken : ℕ → Bool) (now i : ℕ) (f : Frame) (r : Relay)
    → IsIsolated r
    → IsIsolated (receive loads broken now i f r)
unfolding receive forward
receive-IsIsolated loads broken now i f r h =
    let seen = λ (c : RelayConn). record c { last_rx = now } in
    let s =
      Loses-IsSafe r.heap (modify i seen r.heap) r.next r.conns r.log
        (modify-Loses i seen r.heap (λ c. refl) (λ c. refl) (λ c. inr refl)) h in
    let r' = record r { heap = modify i seen r.heap } in
    let reading = read_frame loads now f in
    or_unregister-IsIsolated broken i (forward_read broken i f reading r')
      (forward_read-IsIsolated broken i f reading r' s)

beat-IsIsolated :
    (cfg : RelayConfig) (broken : ℕ → Bool) (now i : ℕ) (r : Relay)
    → IsIsolated r
    → IsIsolated (beat cfg broken now i r).0
unfolding beat
beat-IsIsolated cfg broken now i r h =
    let c = r.heap i in
    let r' = record r { log = told i (ping now) ∷ r.log } in
    let pinged : IsIsolated r' = record {
      peers = h.peers;
      fresh = h.fresh;
      entries = h.entries;
      events = (tt, h.events);
    } in
    elim (Bool-cases (c.closed || broken i)) [
      | inl e ↦ rw e h
      | inr e ↦ elim (Bool-cases (ltb cfg.heartbeat_timeout_s (now - c.last_rx))) [
        | inl late ↦ rw (e, late) (close-IsIsolated i "heartbeat timeout" r' pinged)
        | inr heard ↦
            elim (Bool-cases (
              is_none c.peer
              && same_role c.role phone
              && ltb cfg.session_timeout_s (now - c.created_at))) [
                | inl alone ↦ rw (e, heard, alone) (close-IsIsolated i "pair timeout" r' pinged)
                | inr fine ↦ rw (e, heard, fine) pinged
              ]
      ]
    ]

act-IsIsolated :
    (cfg : RelayConfig) (loads : String → Option Json) (broken : ℕ → Bool) (now : ℕ) (c : Call)
    (r : Relay)
    → IsIsolated r
    → IsIsolated (act cfg loads broken now c r)
act-IsIsolated cfg loads broken now (connects c) r h = connect-IsIsolated broken now c r h
act-IsIsolated cfg loads broken now (receives i f) r h = receive-IsIsolated loads broken now i f r h
act-IsIsolated cfg loads broken now (disconnects i) r h = unregister-IsIsolated broken i r h
act-IsIsolated cfg loads broken now (beats i) r h = beat-IsIsolated cfg broken now i r h

pub run-IsIsolated :
    (cfg : RelayConfig) (loads : String → Option Json) (ms : List Moment) (r : Relay)
    → IsIsolated r
    → IsIsolated (run cfg loads ms r)
unfolding run
run-IsIsolated cfg loads [] r h = h
run-IsIsolated cfg loads (m ∷ ms) r h =
    run-IsIsolated cfg loads ms (act cfg loads m.broken m.now m.call r)
      (act-IsIsolated cfg loads m.broken m.now m.call r h)

-- After any calls from the start, whatever sockets are broken when, every frame that was passed on
-- went from one made connection to another of the same pairing code and the other role, every peer is
-- such a connection, and every entry of the registry holds a connection of its code and role.
pub run-start-IsIsolated :
    (cfg : RelayConfig) (loads : String → Option Json) (ms : List Moment)
    → IsIsolated (run cfg loads ms start)
run-start-IsIsolated cfg loads ms = run-IsIsolated cfg loads ms start (record {
  peers = λ i p e. absurd (ground arith);
  fresh = λ i le. refl;
  entries = tt;
  events = tt;
})
