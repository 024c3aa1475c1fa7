-- ===== src/Relay/Server/Delivery.antt =====
-- A connection that finds its partner exchanges frames with it, and the clean-up of a connection
-- that was replaced.
use bosimao_release.Prelude.{
  All, if◌then◌else◌, if_true, after, ℕ, suc, ◌<◌, ◌≡◌, ◌≢◌, refl, sym, ap, ◌∙◌, String, Bool, true,
  false, Option, some, List, [], ◌∷◌, arith, inl, inr, Bool-cases,
}
use bosimao_release.Relay.Pairing.{Json, Role, phone, pc, other_role, Credentials, is_hashable}
use bosimao_release.Relay.Store.{Frame, Event, relayed, Relay, get_conn, modify}
use bosimao_release.Relay.Server.{
  register, make_conn, connect, passes, read_frame, forward, receive,
}
use bosimao_release.Relay.Server.Isolation.{IsIsolated}
use bosimao_release.Relay.Server.Isolation.Registering.{get_conn-IsEntry}
use bosimao_release.Relay.Server.Linking.{IsPair, register-IsPair}

-- A frame that the relay passes on reaches an open peer whose socket works, unchanged.
pub receive_passes :
    (loads : String → Option Json) (broken : ℕ → Bool) (now i p : ℕ) (f : Frame) (r : Relay)
    → (r.heap i).peer ≡ some p
    → (r.heap p).closed ≡ false
    → broken p ≡ false
    → read_frame loads now f ≡ passes
    → (receive loads broken now i f r).log ≡ relayed i p f ∷ r.log
unfolding receive forward
receive_passes loads broken now i p f r peer open_ works reading = ground arith

swap : (r : Relay) (i p : ℕ) → IsPair r i p → IsPair r p i
swap r i p h = record { to = h.from; from = h.to; open_i = h.open_p; open_p = h.open_i }

receive_one :
    (loads : String → Option Json) (broken : ℕ → Bool) (now i p : ℕ) (f : Frame) (r : Relay)
    → IsPair r i p
    → broken p ≡ false
    → read_frame loads now f ≡ passes
    → IsPair (receive loads broken now i f r) i p
      × ((receive loads broken now i f r).log ≡ relayed i p f ∷ r.log)
unfolding receive forward
receive_one loads broken now i p f r h works reading = (
  record {
    to = ground (arith, h.to, h.open_p);
    from = ground (arith, h.to, h.from, h.open_p);
    open_i = ground (arith, h.to, h.open_p, h.open_i);
    open_p = ground (arith, h.to, h.open_p);
  },
  receive_passes loads broken now i p f r h.to h.open_p works reading,
)

-- Frames that the two send in some order, each by the first of them or by the other, at its time.
pub record Spoken : Type 0 where
  pub by_first : Bool
  pub at_time : ℕ
  pub frame : Frame

abbrev pub speaker : ℕ → ℕ → Spoken → ℕ
speaker i p m = if m.by_first then i else p

abbrev pub hearer : ℕ → ℕ → Spoken → ℕ
hearer i p m = if m.by_first then p else i

-- What the sockets are told then, the newest first.
unfoldable pub heard : ℕ → ℕ → List Spoken → List Event → List Event
heard i p [] log = log
heard i p (m ∷ ms) log = heard i p ms (relayed (speaker i p m) (hearer i p m) m.frame ∷ log)

-- Frames that the relay does not answer itself.
abbrev pub ArePassed : (String → Option Json) → List Spoken → Type 0
ArePassed loads ms = All (λ (m : Spoken). read_frame loads m.at_time m.frame ≡ passes) ms

module _ (loads : String → Option Json) (broken : ℕ → Bool) (i p : ℕ) where
  unfoldable pub talk : List Spoken → Relay → Relay
  talk [] r = r
  talk (m ∷ ms) r = talk ms (receive loads broken m.at_time (speaker i p m) m.frame r)

  receive-IsPair :
      (m : Spoken) (r : Relay)
      → IsPair r i p
      → broken i ≡ false
      → broken p ≡ false
      → read_frame loads m.at_time m.frame ≡ passes
      → IsPair (receive loads broken m.at_time (speaker i p m) m.frame r) i p
        × ((receive loads broken m.at_time (speaker i p m) m.frame r).log
            ≡ relayed (speaker i p m) (hearer i p m) m.frame ∷ r.log)
  unfolding receive forward
  receive-IsPair m r pair works works' reading = elim (Bool-cases m.by_first) [
    | inl first ↦ rw first (receive_one loads broken m.at_time i p m.frame r pair works' reading)
    | inr second ↦ rw second (
        let (back, told) =
          receive_one loads broken m.at_time p i m.frame r (swap r i p pair) works reading in
        (swap _ p i back, told))
  ]

  pub talk-heard :
      (ms : List Spoken) (r : Relay)
      → IsPair r i p
      → broken i ≡ false
      → broken p ≡ false
      → ArePassed loads ms
      → IsPair (talk ms r) i p × ((talk ms r).log ≡ heard i p ms r.log)
  unfolding talk heard
  talk-heard [] r pair works works' passed = (pair, refl)
  talk-heard (m ∷ ms) r pair works works' (now, later) =
      let (pair', told) = receive-IsPair m r pair works works' now in
      let (pair'', logged) =
        talk-heard ms (receive loads broken m.at_time (speaker i p m) m.frame r) pair' works works'
          later in
      (pair'', rw (logged, told) refl)

other_differs : (a : Role) → a ≢ other_role a
other_differs phone e = ground arith
other_differs pc e = ground arith

-- A connection that comes while its partner waits.
module _ (broken : ℕ → Bool) (now p : ℕ) (c : Credentials) (r : Relay) (safe : IsIsolated r)
    (waits : get_conn c.pairing_code (other_role c.role) r.conns ≡ some p)
    (p_open : (r.heap p).closed ≡ false) where
  pub p_made : p < r.next
  p_made =
      (get_conn-IsEntry r.heap r.next c.pairing_code (other_role c.role) p r.conns safe.entries
        waits).0

  -- The connection of its own role that is replaced, if there is one, is neither of them.
  pub old_apart : (k : ℕ) → get_conn c.pairing_code c.role r.conns ≡ some k → (k < r.next) × (k ≢ p)
  old_apart k e =
      let mine = get_conn-IsEntry r.heap r.next c.pairing_code c.role k r.conns safe.entries e in
      let its =
        get_conn-IsEntry r.heap r.next c.pairing_code (other_role c.role) p r.conns safe.entries
          waits in
      (mine.0, λ same. other_differs c.role (sym mine.1 ∙ ap (λ j. (r.heap j).role) same ∙ its.1))

  -- The store with the new connection.
  abbrev entered : Relay
  entered = record r { heap = modify r.next (λ _. make_conn now c) r.heap; next = suc r.next }

  pub connect-register :
      is_hashable c.pairing_code ≡ true
      → connect broken now c r ≡ after (register broken now r.next entered)
  unfolding connect
  connect-register hashable =
      if_true (is_hashable c.pairing_code) (after (register broken now r.next entered)) entered
        hashable

  register_pairs : IsPair (after (register broken now r.next entered)) r.next p
  register_pairs =
      let made : entered.heap r.next ≡ make_conn now c = ground arith in
      let same : entered.heap p ≡ r.heap p = ground (arith, p_made) in
      register-IsPair broken now r.next p entered (λ e. ground (arith, p_made)) (rw (made) refl)
        (rw (same) p_open)
        (λ k e.
          let (below, apart) = old_apart k (rw (made) at e) in
          ((λ q. absurd (ground arith)), apart))
        (rw (made) waits)

  pub connect-IsPair : is_hashable c.pairing_code ≡ true → IsPair (connect broken now c r) r.next p
  connect-IsPair hashable = rw (connect-register hashable) register_pairs
