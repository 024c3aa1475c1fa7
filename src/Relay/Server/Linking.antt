-- ===== src/Relay/Server/Linking.antt =====
-- A connection that is registered is linked with its partner: `register` of
-- backend/relay/relay_server.py.
use bosimao_release.Prelude.{
  after, ℕ, ◌≡◌, ◌≢◌, refl, ap, Bool, true, false, Option, none, some, List, [], ◌∷◌, ◌++◌, arith,
  inl, inr, Bool-cases, any, find, update,
}
use bosimao_release.Relay.Pairing.{Value, Role, phone, pc, other_role}
use bosimao_release.Relay.Store.{Entry, Relay, is_at, get_conn, put_conn, conn_of}
use bosimao_release.Relay.Server.{replace_old, enter, is_open, open_one, link, pair_up, register}

-- An entry of the other role is found as before.
differ :
    (code code' : Value) (role : Role) (e : Entry)
    → is_at code role e ≡ true
    → is_at code' (other_role role) e ≡ false
differ code code' phone e h = ground arith
differ code code' pc e h = ground arith

find-update :
    (code : Value) (role : Role) (i : ℕ) (es : List Entry)
    → get_conn code (other_role role) (update (is_at code role) (λ e. record e { conn = i }) es)
      ≡ get_conn code (other_role role) es
find-update code role i [] = refl
find-update code role i (e ∷ es) = elim (Bool-cases (is_at code role e)) [
  | inl at ↦ ground (arith, differ code code role e at, find-update code role i es)
  | inr no_at ↦ ground (arith, find-update code role i es)
]

find-append :
    (t : Entry → Bool) (e : Entry) (es : List Entry)
    → t e ≡ false
    → find t (es ++ e ∷ []) ≡ find t es
find-append t e [] h = ground arith
find-append t e (x ∷ es) h = ground (arith, find-append t e es)

pub get-put :
    (code : Value) (role : Role) (i : ℕ) (es : List Entry)
    → get_conn code (other_role role) (put_conn code role i es) ≡ get_conn code (other_role role) es
get-put code role i es = elim (Bool-cases (any (is_at code role) es)) [
  | inl there ↦ rw there (find-update code role i es)
  | inr new ↦ rw new (
      ap conn_of (
        find-append (is_at code (other_role role))
          (record { pairing_code = code; role = role; conn = i }) es (new_differs code role)))
]
  where
    new_differs :
        (code : Value) (role : Role)
        → is_at code (other_role role) (record { pairing_code = code; role = role; conn = i })
          ≡ false
    new_differs code phone = ground arith
    new_differs code pc = ground arith

-- Only the connection that is replaced changes.
replace_old-other :
    (i j : ℕ) (o : Option ℕ) (r : Relay)
    → ((k : ℕ) → o ≡ some k → k ≢ j)
    → ((replace_old i o r).heap j ≡ r.heap j) × ((replace_old i o r).conns ≡ r.conns)
replace_old-other i j none r h = (refl, refl)
replace_old-other i j (some k) r h = ground (arith, h k refl)

pub heap-pair_up :
    (broken : ℕ → Bool) (now i p : ℕ) (r : Relay)
    → (after (pair_up broken now i (some p) r)).heap ≡ (link now i p r).heap
heap-pair_up broken now i p r = ground arith

-- A pair that is linked, and open.
pub record IsPair (r : Relay) (i p : ℕ) : Type 0 where
  pub to : (r.heap i).peer ≡ some p
  pub from : (r.heap p).peer ≡ some i
  pub open_i : (r.heap i).closed ≡ false
  pub open_p : (r.heap p).closed ≡ false

link-IsPair :
    (now i p : ℕ) (r : Relay)
    → i ≢ p
    → (r.heap i).closed ≡ false
    → (r.heap p).closed ≡ false
    → IsPair (link now i p r) i p
link-IsPair now i p r apart open_i open_p = record {
  to = ground arith;
  from = ground arith;
  open_i = ground arith;
  open_p = ground arith;
}

pair_up-IsPair :
    (broken : ℕ → Bool) (now i p : ℕ) (r : Relay)
    → IsPair (link now i p r) i p
    → IsPair (after (pair_up broken now i (some p) r)) i p
pair_up-IsPair broken now i p r h =
    let same = heap-pair_up broken now i p r in
    record {
      to = rw (same) h.to;
      from = rw (same) h.from;
      open_i = rw (same) h.open_i;
      open_p = rw (same) h.open_p;
    }

linked_open : (r : Relay) (p : ℕ) → (r.heap p).closed ≡ false → is_open r p ≡ true
linked_open r p h = ground arith

pub register-IsPair :
    (broken : ℕ → Bool) (now i p : ℕ) (r : Relay)
    → i ≢ p
    → (r.heap i).closed ≡ false
    → (r.heap p).closed ≡ false
    → ((k : ℕ)
        → get_conn (r.heap i).pairing_code (r.heap i).role r.conns ≡ some k
        → (k ≢ i) × (k ≢ p))
    → get_conn (r.heap i).pairing_code (other_role (r.heap i).role) r.conns ≡ some p
    → IsPair (after (register broken now i r)) i p
unfolding register
register-IsPair broken now i p r apart open_i open_p old found =
    let code = (r.heap i).pairing_code in
    let role = (r.heap i).role in
    let gone = get_conn code role r.conns in
    let one = replace_old i gone r in
    let two = enter i one in
    let (same_i, conns) = replace_old-other i i gone r (λ k e. (old k e).0) in
    let (same_p, _) = replace_old-other i p gone r (λ k e. (old k e).1) in
    let waits : get_conn code (other_role role) two.conns ≡ some p =
      rw (same_i, conns, get-put code role i r.conns) found in
    let linked = link-IsPair now i p two apart (rw (same_i) open_i) (rw (same_p) open_p) in
    let chosen : open_one two (get_conn code (other_role role) two.conns) ≡ some p =
      rw (waits) (rw (linked_open two p (rw (same_p) open_p)) refl) in
    rw (chosen) (pair_up-IsPair broken now i p two linked)
