-- ===== src/Relay/Server/Replaced.antt =====
-- The clean-up of a connection that was replaced.
use bosimao_release.Prelude.{
  true, after, ℕ, suc, ◌≡◌, ◌≢◌, refl, sym, ◌∙◌, String, Bool, false, Option, none, some, arith,
}
use bosimao_release.Relay.Frames.{Bytes}
use bosimao_release.Relay.Pairing.{Json, other_role, Credentials, is_hashable}
use bosimao_release.Relay.Store.{bytes_frame, Relay, get_conn, modify}
use bosimao_release.Relay.Server.{
  replace_old, enter, open_one, pair_up, register, make_conn, connect, unregister, forward, receive,
}
use bosimao_release.Relay.Server.Isolation.{IsIsolated}
use bosimao_release.Relay.Server.Isolation.Registering.{replace_old-keeps, open_one_lem}
use bosimao_release.Relay.Server.Linking.{IsPair, heap-pair_up, get-put}
use bosimao_release.Relay.Server.Delivery.{connect-IsPair, connect-register, old_apart, p_made}

-- A connection that is neither the new one nor its partner keeps its peer.
replace_old-peer :
    (i j : ℕ) (o : Option ℕ) (r : Relay) → (((replace_old i o r).heap j).peer ≡ (r.heap j).peer)
replace_old-peer i j none r = refl
replace_old-peer i j (some k) r = ground arith

replace_old-conns : (i : ℕ) (o : Option ℕ) (r : Relay) → (replace_old i o r).conns ≡ r.conns
replace_old-conns i none r = refl
replace_old-conns i (some k) r = ground arith

pair_up-peer :
    (broken : ℕ → Bool) (now i j : ℕ) (o : Option ℕ) (r : Relay)
    → j ≢ i
    → ((p : ℕ) → o ≡ some p → j ≢ p)
    → ((after (pair_up broken now i o r)).heap j).peer ≡ (r.heap j).peer
pair_up-peer broken now i j none r apart other = refl
pair_up-peer broken now i j (some p) r apart other =
    rw (heap-pair_up broken now i p r) (ground (arith, other p refl))

register-peer :
    (broken : ℕ → Bool) (now i j : ℕ) (r : Relay)
    → j ≢ i
    → ((p : ℕ)
        → get_conn (r.heap i).pairing_code (other_role (r.heap i).role) r.conns ≡ some p
        → j ≢ p)
    → ((after (register broken now i r)).heap j).peer ≡ (r.heap j).peer
unfolding register
register-peer broken now i j r apart other =
    let code = (r.heap i).pairing_code in
    let role = (r.heap i).role in
    let gone = get_conn code role r.conns in
    let one = replace_old i gone r in
    let two = enter i one in
    let kept = replace_old-keeps i i gone r in
    let search_ : get_conn code (other_role role) two.conns
        ≡ get_conn code (other_role role) r.conns =
      rw (kept.1, kept.2, replace_old-conns i gone r) (get-put code role i r.conns) in
    pair_up-peer broken now i j (open_one two (get_conn code (other_role role) two.conns)) two apart
      (λ p e.
        other p
          (sym search_ ∙ (open_one_lem two (get_conn code (other_role role) two.conns) p e).0))
    ∙ replace_old-peer i j gone r

-- A connection clears the peer of its peer.
unregister-peer :
    (broken : ℕ → Bool) (o p n : ℕ) (r : Relay)
    → (r.heap o).peer ≡ some p
    → (r.heap p).closed ≡ false
    → o ≢ p
    → n ≢ o
    → n ≢ p
    → (((unregister broken o r).heap p).peer ≡ none)
      × (((unregister broken o r).heap n).peer ≡ (r.heap n).peer)
unfolding unregister
unregister-peer broken o p n r e open_ a b c = ground arith

-- A frame of bytes from a connection that has no peer goes nowhere.
lost :
    (loads : String → Option Json) (broken : ℕ → Bool) (now p : ℕ) (bs : Bytes) (r : Relay)
    → (r.heap p).peer ≡ none
    → (receive loads broken now p (bytes_frame bs) r).log ≡ r.log
unfolding receive forward
lost loads broken now p bs r e = ground arith

-- A connection that replaces an open one of its code and role, whose partner waits open in the
-- registry, becomes the partner's peer; but when the replaced connection is then unregistered, as
-- the end of its loop does, the partner has no peer, though the new connection still has the partner
-- for its peer: a frame of bytes that the partner sends is passed on to no one.
pub replaced_unpairs :
    (loads : String → Option Json) (broken broken' broken'' : ℕ → Bool) (now later o p : ℕ)
    (c : Credentials) (bs : Bytes) (r : Relay)
    → is_hashable c.pairing_code ≡ true
    → IsIsolated r
    → get_conn c.pairing_code c.role r.conns ≡ some o
    → get_conn c.pairing_code (other_role c.role) r.conns ≡ some p
    → (r.heap o).peer ≡ some p
    → (r.heap p).closed ≡ false
    → IsPair (connect broken now c r) r.next p
      × (((unregister broken' o (connect broken now c r)).heap p).peer ≡ none)
      × (((unregister broken' o (connect broken now c r)).heap r.next).peer ≡ some p)
      × ((receive loads broken'' later p
            (bytes_frame bs)
            (unregister broken' o (connect broken now c r))).log
          ≡ (unregister broken' o (connect broken now c r)).log)
replaced_unpairs loads broken broken' broken'' now later o p c bs r hashable safe old waits peered
      p_open =
    let pair = connect-IsPair broken now p c r safe waits p_open hashable in
    let made = p_made broken now p c r safe waits p_open in
    let (below, apart) = old_apart broken now p c r safe waits p_open o old in
    let r' = record r { heap = modify r.next (λ _. make_conn now c) r.heap; next = suc r.next } in
    let cell : r'.heap r.next ≡ make_conn now c = ground arith in
    let before : (r'.heap o).peer ≡ some p = ground (arith, below, peered) in
    let registered : ((after (register broken now r.next r')).heap o).peer ≡ (r'.heap o).peer =
      register-peer broken now r.next o r' (λ e. ground arith)
        (λ q e same. apart (ground (arith, waits, (rw (cell) at e)))) in
    let kept : ((connect broken now c r).heap o).peer ≡ some p =
      rw (connect-register broken now p c r safe waits p_open hashable) (registered ∙ before) in
    let (cleared, stays) =
      unregister-peer broken' o p r.next (connect broken now c r) kept pair.open_p apart
        (λ e. ground arith) (λ e. ground arith) in
    (
      pair,
      cleared,
      stays ∙ pair.to,
      lost loads broken'' later p bs (unregister broken' o (connect broken now c r)) cleared,
    )
