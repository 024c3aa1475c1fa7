-- ===== src/Relay/Server/Isolation.antt =====
-- Frames pass between the two roles of one pairing code only.
pub mod Registering
pub mod Steps
use bosimao_release.Prelude.{
  ℕ, suc, ◌≤◌, ◌<◌, ◌≡◌, refl, sym, ◌∙◌, String, Bool, true, false, not, Option, none, some, List,
  [], ◌∷◌, ◌++◌, arith, All, All-append, ◌⊎◌, inl, inr, Bool-cases, Option-cases, ◌==◌, find,
  update, keep, any, ◌&&◌, ◌||◌,
}
use bosimao_release.Relay.Pairing.{
  Value, text, nested, Json, Role, phone, pc, other_role, RelayConfig, Credentials,
}
use bosimao_release.Relay.Store.{
  RelayConn, Frame, text_frame, bytes_frame, Event, told, relayed, shut, Entry, Relay, same_value,
  same_role, is_at, conn_of, get_conn, put_conn, is_conn, pop_conn, modify, start,
}

abbrev pub Partners : RelayConn → RelayConn → Type 0
Partners c d = (c.role ≡ other_role d.role) × (c.pairing_code ≡ d.pairing_code)

abbrev pub IsEntry : (ℕ → RelayConn) → ℕ → Entry → Type 0
IsEntry h n e =
    (e.conn < n) × ((h e.conn).role ≡ e.role) × ((h e.conn).pairing_code ≡ e.pairing_code)

abbrev pub IsBetween : (ℕ → RelayConn) → ℕ → Event → Type 0
IsBetween h n (told i m) = Unit
IsBetween h n (shut i reason) = Unit
IsBetween h n (relayed i j f) = (i < n) × (j < n) × Partners (h i) (h j)

-- Peers have one code and opposite roles, entries are those of their connections, and so are the
-- frames that were passed on.
pub record IsSafe (h : ℕ → RelayConn) (n : ℕ) (es : List Entry) (l : List Event) : Type 0 where
  pub peers : (i p : ℕ) → (h i).peer ≡ some p → (p < n) × Partners (h i) (h p)
  pub fresh : (i : ℕ) → n ≤ i → (h i).peer ≡ none
  pub entries : All (IsEntry h n) es
  pub events : All (IsBetween h n) l

abbrev pub IsIsolated : Relay → Type 0
IsIsolated r = IsSafe r.heap r.next r.conns r.log

-- The connections that were made are the same.
abbrev pub Same : ℕ → (ℕ → RelayConn) → (ℕ → RelayConn) → Type 0
Same n h g = (i : ℕ) → i < n → ((g i).role ≡ (h i).role) × ((g i).pairing_code ≡ (h i).pairing_code)

pub entries-Same :
    (h g : ℕ → RelayConn) (n m : ℕ) (es : List Entry)
    → Same n h g
    → n ≤ m
    → All (IsEntry h n) es
    → All (IsEntry g m) es
entries-Same h g n m [] s le a = tt
entries-Same h g n m (e ∷ es) s le a =
    let same = s e.conn a.0.0 in
    ((omega (arith, a.0.0), same.0 ∙ a.0.1, same.1 ∙ a.0.2), entries-Same h g n m es s le a.1)

pub events-Same :
    (h g : ℕ → RelayConn) (n m : ℕ) (l : List Event)
    → Same n h g
    → n ≤ m
    → All (IsBetween h n) l
    → All (IsBetween g m) l
events-Same h g n m [] s le a = tt
events-Same h g n m (told i x ∷ l) s le a = (tt, events-Same h g n m l s le a.1)
events-Same h g n m (shut i x ∷ l) s le a = (tt, events-Same h g n m l s le a.1)
events-Same h g n m (relayed i j f ∷ l) s le a =
    let (below, below', partners) = a.0 in
    let one = s i below in
    let two = s j below' in
    ((omega arith, omega arith, ground (arith, one, two)), events-Same h g n m l s le a.1)

-- Connections that keep who they are, and of their peers at most lose some.
pub record Loses (h g : ℕ → RelayConn) : Type 0 where
  pub roles : (i : ℕ) → (g i).role ≡ (h i).role
  pub codes : (i : ℕ) → (g i).pairing_code ≡ (h i).pairing_code
  pub peer : (i : ℕ) → ((g i).peer ≡ none) ⊎ ((g i).peer ≡ (h i).peer)

pub Loses-IsSafe :
    (h g : ℕ → RelayConn) (n : ℕ) (es : List Entry) (l : List Event)
    → Loses h g
    → IsSafe h n es l
    → IsSafe g n es l
Loses-IsSafe h g n es l k s = record {
  peers = λ i p e. elim (k.peer i) [
    | inl gone ↦ absurd (ground arith)
    | inr kept ↦
        let old = s.peers i p (sym kept ∙ e) in
        ground (arith, k.roles i, k.roles p, k.codes i, k.codes p)
  ];
  fresh = λ i le. elim (k.peer i) [ inl gone ↦ gone | inr kept ↦ kept ∙ s.fresh i le ];
  entries = entries-Same h g n n es (λ i lt. (k.roles i, k.codes i)) (omega arith) s.entries;
  events = events-Same h g n n l (λ i lt. (k.roles i, k.codes i)) (omega arith) s.events;
}

-- An assignment to one connection that keeps who it is, and its peer or none.
pub modify-Loses :
    (j : ℕ) (f : RelayConn → RelayConn) (h : ℕ → RelayConn)
    → ((c : RelayConn) → (f c).role ≡ c.role)
    → ((c : RelayConn) → (f c).pairing_code ≡ c.pairing_code)
    → ((c : RelayConn) → ((f c).peer ≡ none) ⊎ ((f c).peer ≡ c.peer))
    → Loses h (modify j f h)
modify-Loses j f h roles codes peer = record {
  roles = λ i. ground (arith, roles (h i));
  codes = λ i. ground (arith, codes (h i));
  peer = λ i. ground (arith, peer (h i));
}
