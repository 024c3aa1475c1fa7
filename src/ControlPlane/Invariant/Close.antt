-- ===== src/ControlPlane/Invariant/Close.antt =====
-- A pending termination that ends keeps the invariant.
use bosimao_release.Prelude.{
  ℕ, String, Bool, true, List, ◌≡◌, ◌≢◌, refl, sym, ◌∙◌, arith, String_discrete, key-lookup,
  Option-cases, inl, inr, some,
}
use bosimao_release.ControlPlane.Schema.{
  TerminationResult, Session, Termination, session_at, termination_at, set_session_state,
  set_termination_result, with_state, with_result,
}
use bosimao_release.ControlPlane.Invariant.{
  Shape, Linked, HasTermination, Explained, Inv, session_at-set, termination_at-set,
}
use bosimao_release.ControlPlane.Invariant.Explains.{Explained-map, Explained-final, final_state}

-- A pending termination ends, and its session with it.
module _ (ss : List Session) (ts : List Termination) (v : Inv ss ts) (k : String) (t : Termination)
    (p : Session → Bool) (r : TerminationResult) (now : ℕ) (known : termination_at k ts ≡ some t)
    (waits : t.result ≡ TerminationResult.pending) (ends : r ≢ TerminationResult.pending)
    (hits : (s : Session) → session_at t.session_id ss ≡ some s → p s ≡ true) where
  abbrev ts' : List Termination
  ts' = set_termination_result k r (final_state r) now ts

  abbrev ss' : List Session
  ss' = set_session_state t.session_id p (final_state r) now ss

  close-Shape :
      (j : String) (u : Termination)
      → termination_at j ts' ≡ some u
      → Shape u.result u.state u.terminal_at
  close-Shape j u e = ground (arith, termination_at-set k r (final_state r) now ts j, v.shape j u)

  close-Linked :
      (j : String) (u : Termination)
      → termination_at j ts' ≡ some u
      → Linked u (session_at u.session_id ss')
  close-Linked j u e = elim (Option-cases (termination_at j ts)) [
    | inl missing ↦ ground (arith, termination_at-set k r (final_state r) now ts j)
    | inr (u', e') ↦ ground (
      arith,
      termination_at-set k r (final_state r) now ts j,
      v.linked j u' e',
      v.one_open j k u' t e' known,
      session_at-set t.session_id p (final_state r) now ss u.session_id,
    )
  ]

  close-one_open :
      (i j : String) (u w : Termination)
      → termination_at i ts' ≡ some u
      → termination_at j ts' ≡ some w
      → u.result ≡ TerminationResult.pending
      → w.result ≡ TerminationResult.pending
      → u.session_id ≡ w.session_id
      → i ≡ j
  close-one_open i j u w e f a b m = ground (
    arith,
    termination_at-set k r (final_state r) now ts i,
    termination_at-set k r (final_state r) now ts j,
    v.one_open i j u w,
  )

  close-has :
      (session : String) (generation : ℕ) (q : TerminationResult)
      → session ≢ t.session_id
      → HasTermination ts session generation q
      → HasTermination ts' session generation q
  close-has session generation q other (j, u, e, f, g, h) =
      (j, u, ground (arith, termination_at-set k r (final_state r) now ts j), f, g, h)

  close-has_self :
      (s : Session)
      → session_at t.session_id ss ≡ some s
      → HasTermination ts' t.session_id s.generation r
  close-has_self s e = (
    k,
    with_result r (final_state r) now t,
    ground (arith, termination_at-set k r (final_state r) now ts k),
    refl,
    ground (arith, v.linked k t known),
    refl,
  )

  close-Explained_self :
      (j : String) (s s' : Session)
      → t.session_id ≡ j
      → session_at j ss ≡ some s
      → session_at j ss' ≡ some s'
      → Explained ts' s' s'.state
  close-Explained_self j s s' m e e' =
      let hit : p s ≡ true = hits s (rw m e) in
      let eq : s' ≡ with_state (final_state r) now s =
        ground (arith, session_at-set t.session_id p (final_state r) now ss j) in
      let name : s.session_id ≡ t.session_id =
        ground (arith, key-lookup (λ (x : Session). x.session_id) j ss s e) in
      rw eq (
        Explained-final ts' (with_state (final_state r) now s) r
          (rw name (close-has_self s (rw m e))))

  close-Explained : (j : String) (s : Session) → session_at j ss' ≡ some s → Explained ts' s s.state
  close-Explained j s e = elim (Option-cases (session_at j ss)) [
    | inl missing ↦ absurd (ground (arith, session_at-set t.session_id p (final_state r) now ss j))
    | inr (s', e') ↦ elim (String_discrete t.session_id j) [
      | yes m ↦ close-Explained_self j s' s m e' e
      | no m ↦
          let eq : s ≡ s' =
            ground (arith, session_at-set t.session_id p (final_state r) now ss j) in
          let name : s'.session_id ≡ j = key-lookup (λ (x : Session). x.session_id) j ss s' e' in
          rw eq (
            Explained-map ts ts' s' s' s'.state refl refl
              (λ q. close-has s'.session_id s'.generation q (λ n. m (sym n ∙ name)))
              (v.explained j s' e'))
    ]
  ]

  pub close-Inv : Inv ss' ts'
  close-Inv = record {
    shape = close-Shape;
    linked = close-Linked;
    one_open = close-one_open;
    explained = close-Explained;
  }
