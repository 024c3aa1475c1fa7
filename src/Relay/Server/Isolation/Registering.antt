-- ===== src/Relay/Server/Isolation/Registering.antt =====
-- A connection that is registered is paired with one of its code and the other role.
use bosimao_release.Prelude.{
  if_lem, after, after-and_then, ℕ, suc, ◌<◌, ◌≡◌, refl, sym, ap, ◌∙◌, String, Bool, true, false,
  not, Option, none, some, List, [], ◌∷◌, arith, All, All-append, inl, inr, Bool-cases, ◌==◌,
  update, any, ◌&&◌,
}
use bosimao_release.Relay.Pairing.{
  Value, text, scalar, nested, is_hashable, Role, phone, pc, other_role, Credentials,
}
use bosimao_release.Relay.Store.{
  RelayConn, Message, Entry, Relay, same_value, same_role, is_at, get_conn, modify,
}
use bosimao_release.Relay.Server.{
  send, kick, safe_close, replace_old, enter, open_one, link, tell_paired, pair_up, register,
  make_conn, connect,
}
use bosimao_release.Relay.Server.Isolation.{
  Partners, IsEntry, IsIsolated, entries-Same, events-Same, Loses-IsSafe, modify-Loses,
}

pub same_value_lem : (v w : Value) → same_value v w ≡ true → v ≡ w
same_value_lem (text s) (text t) e = ground arith
same_value_lem (text s) (scalar t b) e = absurd (ground arith)
same_value_lem (text s) (nested t b) e = absurd (ground arith)
same_value_lem (scalar s b) (text t) e = absurd (ground arith)
same_value_lem (scalar s a) (scalar t b) e = ground arith
same_value_lem (scalar s a) (nested t b) e = absurd (ground arith)
same_value_lem (nested s a) w e = absurd (ground arith)

pub same_role_lem : (a b : Role) → same_role a b ≡ true → a ≡ b
same_role_lem phone phone e = refl
same_role_lem phone pc e = absurd (ground arith)
same_role_lem pc phone e = absurd (ground arith)
same_role_lem pc pc e = refl

pub send-IsIsolated :
    (broken : ℕ → Bool) (i : ℕ) (m : Message) (r : Relay)
    → IsIsolated r
    → IsIsolated (after (send broken i m r))
send-IsIsolated broken i m r h = elim (Bool-cases (broken i)) [
  | inl e ↦ rw e h
  | inr e ↦
      rw e
        (record { peers = h.peers; fresh = h.fresh; entries = h.entries; events = (tt, h.events) })
]

pub safe_close-IsIsolated :
    (i : ℕ) (reason : String) (r : Relay) → IsIsolated r → IsIsolated (safe_close i reason r)
safe_close-IsIsolated i reason r h =
    let closed = λ (c : RelayConn). record c { closed = true } in
    let s =
      Loses-IsSafe r.heap (modify i closed r.heap) r.next r.conns r.log
        (modify-Loses i closed r.heap (λ c. refl) (λ c. refl) (λ c. inr refl)) h in
    record { peers = s.peers; fresh = s.fresh; entries = s.entries; events = (tt, s.events) }

kick-IsIsolated : (r : Relay) → IsIsolated r → IsIsolated (kick r)
kick-IsIsolated r h = record {
  peers = h.peers;
  fresh = h.fresh;
  entries = h.entries;
  events = h.events;
}

pub close-IsIsolated :
    (i : ℕ) (reason : String) (r : Relay) → IsIsolated r → IsIsolated (safe_close i reason (kick r))
close-IsIsolated i reason r h = safe_close-IsIsolated i reason (kick r) (kick-IsIsolated r h)

replace_old-IsIsolated :
    (i : ℕ) (o : Option ℕ) (r : Relay) → IsIsolated r → IsIsolated (replace_old i o r)
replace_old-IsIsolated i none r h = h
replace_old-IsIsolated i (some o) r h = elim (Bool-cases (not (o == i) && not (r.heap o).closed)) [
  | inl e ↦ rw e (close-IsIsolated o "replaced by new connection" r h)
  | inr e ↦ rw e h
]

pub is_at_lem :
    (code : Value) (role : Role) (e : Entry)
    → is_at code role e ≡ true
    → (e.pairing_code ≡ code) × (e.role ≡ role)
is_at_lem code role e h =
    ground (arith, same_value_lem e.pairing_code code, same_role_lem e.role role)

update-entries :
    (h : ℕ → RelayConn) (n i : ℕ) (es : List Entry)
    → i < n
    → All (IsEntry h n) es
    → All
        (IsEntry h n)
        (update (is_at (h i).pairing_code (h i).role) (λ e. record e { conn = i }) es)
update-entries h n i [] lt a = tt
update-entries h n i (e ∷ es) lt a = elim (Bool-cases (is_at (h i).pairing_code (h i).role e)) [
  | inl at ↦
      let key = is_at_lem (h i).pairing_code (h i).role e at in
      rw at ((lt, sym key.1, sym key.0), update-entries h n i es lt a.1)
  | inr no_at ↦ rw no_at (a.0, update-entries h n i es lt a.1)
]

enter-IsIsolated : (i : ℕ) (r : Relay) → i < r.next → IsIsolated r → IsIsolated (enter i r)
enter-IsIsolated i r lt h = record {
  peers = h.peers;
  fresh = h.fresh;
  events = h.events;
  entries = elim (Bool-cases (any (is_at (r.heap i).pairing_code (r.heap i).role) r.conns)) [
    | inl e ↦ rw e (update-entries r.heap r.next i r.conns lt h.entries)
    | inr e ↦ rw e (All-append (IsEntry r.heap r.next) r.conns _ h.entries ((lt, refl, refl), tt))
  ];
}

-- The entry that is found is one of its key.
pub get_conn-IsEntry :
    (h : ℕ → RelayConn) (n : ℕ) (code : Value) (role : Role) (p : ℕ) (es : List Entry)
    → All (IsEntry h n) es
    → get_conn code role es ≡ some p
    → (p < n) × ((h p).role ≡ role) × ((h p).pairing_code ≡ code)
get_conn-IsEntry h n code role p [] a e = absurd (ground arith)
get_conn-IsEntry h n code role p (x ∷ es) a e = elim (Bool-cases (is_at code role x)) [
  | inl at ↦ let key = is_at_lem code role x at in ground (arith, a.0)
  | inr no_at ↦ get_conn-IsEntry h n code role p es a.1 (rw no_at at e)
]

link-IsIsolated :
    (now i p : ℕ) (r : Relay)
    → i < r.next
    → p < r.next
    → Partners (r.heap i) (r.heap p)
    → Partners (r.heap p) (r.heap i)
    → IsIsolated r
    → IsIsolated (link now i p r)
link-IsIsolated now i p r lt lt' to from h = record {
  peers = λ j q e. ground (arith, h.peers j q);
  fresh = λ j le. ground (arith, h.fresh j);
  entries =
      entries-Same r.heap (link now i p r).heap r.next r.next r.conns (λ j lt. ground arith)
        (omega arith) h.entries;
  events =
      events-Same r.heap (link now i p r).heap r.next r.next r.log (λ j lt. ground arith)
        (omega arith) h.events;
}

tell_paired-IsIsolated :
    (broken : ℕ → Bool) (c other : ℕ) (r : Relay)
    → IsIsolated r
    → IsIsolated (after (tell_paired broken c other r))
tell_paired-IsIsolated broken c other r h = send-IsIsolated broken c _ r h

other_other : (a b : Role) → a ≡ other_role b → b ≡ other_role a
other_other a phone e = ground arith
other_other a pc e = ground arith

pair_up-IsIsolated :
    (broken : ℕ → Bool) (now i : ℕ) (o : Option ℕ) (r : Relay)
    → i < r.next
    → IsIsolated r
    → ((p : ℕ) → o ≡ some p → (p < r.next) × Partners (r.heap p) (r.heap i))
    → IsIsolated (after (pair_up broken now i o r))
pair_up-IsIsolated broken now i none r lt h found = h
pair_up-IsIsolated broken now i (some p) r lt h found =
    let (below, (role, code)) = found p refl in
    after-and_then IsIsolated (tell_paired broken i p (link now i p r))
      (λ r'. tell_paired broken p i r')
      (tell_paired-IsIsolated broken i p (link now i p r)
        (link-IsIsolated now i p r lt below (other_other _ _ role, sym code) (role, code) h))
      (λ r' h'. tell_paired-IsIsolated broken p i r' h')

pub open_one_lem :
    (r : Relay) (o : Option ℕ) (p : ℕ)
    → open_one r o ≡ some p
    → (o ≡ some p) × ((r.heap p).closed ≡ false)
open_one_lem r none p e = absurd (ground arith)
open_one_lem r (some q) p e = ground arith

pub replace_old-keeps :
    (i j : ℕ) (o : Option ℕ) (r : Relay)
    → ((replace_old i o r).next ≡ r.next)
      × (((replace_old i o r).heap j).role ≡ (r.heap j).role)
      × (((replace_old i o r).heap j).pairing_code ≡ (r.heap j).pairing_code)
replace_old-keeps i j none r = (refl, refl, refl)
replace_old-keeps i j (some o) r = ground arith

pub register-IsIsolated :
    (broken : ℕ → Bool) (now i : ℕ) (r : Relay)
    → i < r.next
    → IsIsolated r
    → IsIsolated (after (register broken now i r))
unfolding register
register-IsIsolated broken now i r lt h =
    let code = (r.heap i).pairing_code in
    let role = (r.heap i).role in
    let old = get_conn code role r.conns in
    let one = replace_old i old r in
    let two = enter i one in
    let kept = replace_old-keeps i i old r in
    let safe : IsIsolated two =
      enter-IsIsolated i one (rw (kept.0) lt) (replace_old-IsIsolated i old r h) in
    pair_up-IsIsolated broken now i (open_one two (get_conn code (other_role role) two.conns)) two
      (rw (kept.0) lt) safe
      (λ p e.
        let found =
          get_conn-IsEntry two.heap two.next code (other_role role) p two.conns safe.entries
            (open_one_lem two _ p e).0 in
        (found.0, (found.1 ∙ ap other_role (sym kept.1), found.2 ∙ sym kept.2)))

pub connect-IsIsolated :
    (broken : ℕ → Bool) (now : ℕ) (c : Credentials) (r : Relay)
    → IsIsolated r
    → IsIsolated (connect broken now c r)
unfolding connect
connect-IsIsolated broken now c r h =
    let r' = record r { heap = modify r.next (λ _. make_conn now c) r.heap; next = suc r.next } in
    let made : IsIsolated r' = record {
      peers = λ i p e. ground (arith, h.peers i p);
      fresh = λ i le. ground (arith, h.fresh i);
      entries =
          entries-Same r.heap r'.heap r.next (suc r.next) r.conns (λ j lt. ground arith)
            (omega arith) h.entries;
      events =
          events-Same r.heap r'.heap r.next (suc r.next) r.log (λ j lt. ground arith) (omega arith)
            h.events;
    } in
    if_lem IsIsolated (is_hashable c.pairing_code) (after (register broken now r.next r')) r'
      (register-IsIsolated broken now r.next r' (omega arith) made) made
