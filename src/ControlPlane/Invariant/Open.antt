-- ===== src/ControlPlane/Invariant/Open.antt =====
-- A new termination, a new session, and a step of a session that no termination is about keep the
-- invariant.
use bosimao_release.Prelude.{
  ℕ, String, Bool, true, List, ◌∷◌, ◌≡◌, ◌≢◌, refl, sym, arith, String_discrete, key-lookup,
  Option-cases, Bool-cases, inl, inr, none, some,
}
use bosimao_release.ControlPlane.Schema.{
  State, TerminationResult, Session, Termination, session_at, termination_at, set_session_state,
  with_state,
}
use bosimao_release.ControlPlane.Invariant.{
  Shape, Linked, HasTermination, Explained, Inv, session_at-set,
}
use bosimao_release.ControlPlane.Invariant.Explains.{Explained-map}

-- A pending termination of a session that has none.
module _ (ss : List Session) (ts : List Termination) (v : Inv ss ts) (t : Termination) (s : Session)
    (now : ℕ) (fresh : termination_at t.termination_id ts ≡ none)
    (waits : t.result ≡ TerminationResult.pending) (shaped : Shape t.result t.state t.terminal_at)
    (known : session_at t.session_id ss ≡ some s) (generation : t.generation ≡ s.generation)
    (idle : s.state ≢ State.terminating) where
  abbrev opened : List Session
  opened = set_session_state t.session_id (λ _. true) State.terminating now ss

  open-Shape :
      (j : String) (u : Termination)
      → termination_at j (t ∷ ts) ≡ some u
      → Shape u.result u.state u.terminal_at
  open-Shape j u e = ground (arith, v.shape j u)

  open-Linked :
      (j : String) (u : Termination)
      → termination_at j (t ∷ ts) ≡ some u
      → Linked u (session_at u.session_id opened)
  open-Linked j u e = ground (
    arith,
    v.linked j u,
    session_at-set t.session_id (λ _. true) State.terminating now ss u.session_id,
  )

  open-one_open :
      (i j : String) (u w : Termination)
      → termination_at i (t ∷ ts) ≡ some u
      → termination_at j (t ∷ ts) ≡ some w
      → u.result ≡ TerminationResult.pending
      → w.result ≡ TerminationResult.pending
      → u.session_id ≡ w.session_id
      → i ≡ j
  open-one_open i j u w e f a b m = ground (arith, v.one_open i j u w, v.linked i u, v.linked j w)

  open-has :
      (session : String) (g : ℕ) (q : TerminationResult)
      → HasTermination ts session g q
      → HasTermination (t ∷ ts) session g q
  open-has session g q (j, u, e, f, h, i) = (j, u, ground arith, f, h, i)

  open-Explained :
      (j : String) (s' : Session) → session_at j opened ≡ some s' → Explained (t ∷ ts) s' s'.state
  open-Explained j s' e = elim (Option-cases (session_at j ss)) [
    | inl missing ↦
        absurd (ground (arith, session_at-set t.session_id (λ _. true) State.terminating now ss j))
    | inr (s₀, e₀) ↦ elim (String_discrete t.session_id j) [
      | yes m ↦
          let eq : s' ≡ with_state State.terminating now s =
            ground (arith, session_at-set t.session_id (λ _. true) State.terminating now ss j) in
          rw eq (
            t.termination_id,
            t,
            ground arith,
            sym (key-lookup (λ (x : Session). x.session_id) t.session_id ss s known),
            generation,
            waits,
          )
      | no m ↦
          let eq : s' ≡ s₀ =
            ground (arith, session_at-set t.session_id (λ _. true) State.terminating now ss j) in
          rw eq (
            Explained-map ts (t ∷ ts) s₀ s₀ s₀.state refl refl
              (open-has s₀.session_id s₀.generation) (v.explained j s₀ e₀))
    ]
  ]

  pub open-Inv : Inv opened (t ∷ ts)
  open-Inv = record {
    shape = open-Shape;
    linked = open-Linked;
    one_open = open-one_open;
    explained = open-Explained;
  }

-- A session that was not there.
module _ (ss : List Session) (ts : List Termination) (v : Inv ss ts) (s : Session)
    (fresh : session_at s.session_id ss ≡ none) (plain : Explained ts s s.state) where
  fresh-Linked :
      (j : String) (u : Termination)
      → termination_at j ts ≡ some u
      → Linked u (session_at u.session_id (s ∷ ss))
  fresh-Linked j u e = ground (arith, v.linked j u e)

  fresh-Explained :
      (j : String) (s' : Session) → session_at j (s ∷ ss) ≡ some s' → Explained ts s' s'.state
  fresh-Explained j s' e = elim (String_discrete s.session_id j) [
    | yes m ↦ let eq : s ≡ s' = ground arith in rw (sym eq) plain
    | no m ↦ v.explained j s' (ground arith)
  ]

  pub fresh-Inv : Inv (s ∷ ss) ts
  fresh-Inv = record {
    shape = v.shape;
    linked = fresh-Linked;
    one_open = v.one_open;
    explained = fresh-Explained;
  }

-- A session's state moves between two states that need no pending termination.
module _ (ss : List Session) (ts : List Termination) (v : Inv ss ts) (k : String)
    (p : Session → Bool) (st : State) (now : ℕ)
    (idle : (s : Session) → session_at k ss ≡ some s → p s ≡ true → s.state ≢ State.terminating)
    (explains : (s : Session)
      → session_at k ss ≡ some s
      → p s ≡ true
      → Explained ts (with_state st now s) st) where
  shift-Linked :
      (j : String) (u : Termination)
      → termination_at j ts ≡ some u
      → Linked u (session_at u.session_id (set_session_state k p st now ss))
  shift-Linked j u e = elim (Option-cases (session_at u.session_id ss)) [
    | inl missing ↦ ground (arith, v.linked j u e)
    | inr (s, e') ↦
        ground (arith, v.linked j u e, session_at-set k p st now ss u.session_id, idle s)
  ]

  shift-Explained :
      (j : String) (s' : Session)
      → session_at j (set_session_state k p st now ss) ≡ some s'
      → Explained ts s' s'.state
  shift-Explained j s' e = elim (Option-cases (session_at j ss)) [
    | inl missing ↦ absurd (ground (arith, session_at-set k p st now ss j))
    | inr (s, e') ↦ elim (String_discrete k j) [
      | no m ↦
          let eq : s' ≡ s = ground (arith, session_at-set k p st now ss j) in
          rw eq (v.explained j s e')
      | yes m ↦ elim (Bool-cases (p s)) [
        | inl hit ↦
            let eq : s' ≡ with_state st now s = ground (arith, session_at-set k p st now ss j) in
            rw eq (explains s (rw m e') hit)
        | inr miss ↦
            let eq : s' ≡ s = ground (arith, session_at-set k p st now ss j) in
            rw eq (v.explained j s e')
      ]
    ]
  ]

  pub shift-Inv : Inv (set_session_state k p st now ss) ts
  shift-Inv = record {
    shape = v.shape;
    linked = shift-Linked;
    one_open = v.one_open;
    explained = shift-Explained;
  }
