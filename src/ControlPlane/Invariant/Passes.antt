-- ===== src/ControlPlane/Invariant/Passes.antt =====
-- The transactions that move a session between states with no pending termination, the wake and
-- the hello proofs, keep the invariant.
use bosimao_release.Prelude.{
  ℕ, String, Bool, some, ◌≢◌, true, not, none, List, ◌≡◌, subst, arith, ◌==◌, ◌&&◌, Option-cases,
  Bool-cases, inl, inr, find, count, Result, ◌∷◌, ◌=ₛ◌, ◌||◌, ltb, lookup, ◌>>=◌, ◌+◌,
}
use bosimao_release.ControlPlane.Payload.{Payload, Hashing}
use bosimao_release.ControlPlane.Cipher.{Bytes, Aead, UserSigCipher, encrypt}
use bosimao_release.ControlPlane.Schema.{
  State, Session, Claim, WakeRecord, HelloRow, Ledger, Error, find_session, set_session_state,
  session_at, with_state,
}
use bosimao_release.ControlPlane.Kws.{mark_kws_ready, can_enter_kws_ready, is_terminated}
use bosimao_release.ControlPlane.Wake.{
  WakeCall, room_of, check_prior, insert_session, insert_claim, signing_session, is_wake,
  is_kws_ready, lift_cipher, wake_context,
}
use bosimao_release.ControlPlane.Wake.Consume.{consume_wake_tx, fresh_wake, store_wake, replay_wake}
use bosimao_release.ControlPlane.Hello.{
  HelloClaims, HelloBody, create_for_signing_tx, redeem_tx, check_row, insert_hello, is_signing,
  is_entering, is_session_of, is_signable, hello_row,
}
use bosimao_release.ControlPlane.Retry.{has_some}
use bosimao_release.ControlPlane.Invariant.{Inv, IsSound, Explained}
use bosimao_release.ControlPlane.Evidence.{Evidence}
use bosimao_release.ControlPlane.Lifecycle.{follows, Evolves, Evolves-set, Evolves-cons}
use bosimao_release.ControlPlane.Invariant.Open.{fresh-Inv, shift-Inv}
use bosimao_release.ControlPlane.Invariant.Keeps.{
  Ensures, Advances, Keeps, stay, bind-Ensures, guard-Ensures, lookup-Ensures, checked, if_bind,
}

-- A session's state moves between two states that need no pending termination.
shift_advances :
    (k : String) (p : Session → Bool) (st : State) (now : ℕ) (l : Ledger)
    → IsSound l
    → ((s : Session)
        → find_session k l ≡ some s
        → p s ≡ true
        → (s.state ≢ State.terminating)
          × (follows s.state st ≡ true)
          × Explained l.terminations (with_state st now s) st)
    → Inv (set_session_state k p st now l.sessions) l.terminations
      × Evolves l.sessions (set_session_state k p st now l.sessions)
      × (Evidence l → Evidence l)
shift_advances k p st now l v may = (
  shift-Inv l.sessions l.terminations v k p st now (λ s e h. (may s e h).0)
      (λ s e h. (may s e h).2),
  Evolves-set l.sessions k p st now (λ s e h. (may s e h).1),
  λ ev. ev,
)

terminated_of : (s : State) → is_terminated s ≡ true → s ≡ State.terminated
terminated_of s h = ground arith

pub mark-Advances :
    (session : String) (generation : ℕ) (reporter : String) (evidence : Payload) (now : ℕ)
    (l : Ledger)
    → IsSound l
    → Advances l (mark_kws_ready session generation reporter evidence now l).1
unfolding mark_kws_ready
mark-Advances session generation reporter evidence now l v =
    elim (Bool-cases (can_enter_kws_ready session generation l)) [
      | inr no_entry ↦ rw (no_entry, mark_kws_ready) (stay l v)
      | inl entry ↦
          rw (entry, mark_kws_ready)
            (shift_advances session (λ s. s.generation == generation && is_terminated s.state)
              State.kws_ready now l v
              λ s e h. (
                ground arith,
                ground arith,
                subst (Explained l.terminations s) (terminated_of s.state (ground arith))
                    (v.explained session s e),
              ))
    ]

session-Ensures {ℓ κ} :
    {B : Type ℓ} (Q : B → Type κ) (s : Session) (l : Ledger) (f : Ledger → Result Error B)
    → (find_session s.session_id l ≡ none → Ensures Q (f (record l { sessions = s ∷ l.sessions })))
    → Ensures Q (insert_session s l >>= f)
unfolding insert_session
session-Ensures Q s l f h = elim (Option-cases (find_session s.session_id l)) [
  | inr (_, e) ↦ rw (e, insert_session) tt
  | inl e ↦ rw (e, insert_session) (h e)
]

claim-Ensures {ℓ κ} :
    {B : Type ℓ} (Q : B → Type κ) (session device room : String) (generation expires_at now : ℕ)
    (l : Ledger) (f : Ledger → Result Error B)
    → ((cs : List Claim) → Ensures Q (f (record l { claims = cs })))
    → Ensures Q (insert_claim session device room generation expires_at now l >>= f)
unfolding insert_claim
claim-Ensures Q session device room generation expires_at now l f h =
    elim (Bool-cases (has_some (lookup (λ (c : Claim). c.session_id) session l.claims))) [
      | inl taken ↦ rw (taken, insert_claim) tt
      | inr free ↦ rw (free, insert_claim) (h _)
    ]

hello-Ensures {ℓ κ} :
    {B : Type ℓ} (Q : B → Type κ) (r : HelloRow) (l : Ledger) (f : Ledger → Result Error B)
    → ((rs : List HelloRow) → Ensures Q (f (record l { hellos = rs })))
    → Ensures Q (insert_hello r l >>= f)
unfolding insert_hello
hello-Ensures Q r l f h =
    if_bind Q
      (has_some (
          find
            (λ (x : HelloRow).
              x.jti =ₛ r.jti || x.nonce_hash =ₛ r.nonce_hash || x.proof_hash =ₛ r.proof_hash)
            l.hellos)
        || not (ltb r.issued_at r.expires_at))
      _ _ f (h _)

-- The prior session goes back to SIGNING, and the new one starts there.
signing_advances :
    (c : WakeCall) (now : ℕ) (l : Ledger)
    → IsSound l
    → session_at c.session_id (
        set_session_state c.prior_session_id
          (λ s. is_kws_ready s.state)
          State.signing
          now
          l.sessions)
      ≡ none
    → Inv
        (signing_session c now
          ∷ set_session_state c.prior_session_id
              (λ s. is_kws_ready s.state)
              State.signing
              now
              l.sessions)
        l.terminations
      × Evolves l.sessions (
          signing_session c now
          ∷ set_session_state c.prior_session_id
              (λ s. is_kws_ready s.state)
              State.signing
              now
              l.sessions)
      × (Evidence l → Evidence l)
signing_advances c now l v new =
    let back =
      shift_advances c.prior_session_id (λ s. is_kws_ready s.state) State.signing now l v
        (λ s f g. (ground arith, ground arith, tt)) in
    (
      fresh-Inv _ l.terminations back.0 (signing_session c now) new tt,
      Evolves-cons l.sessions _ (signing_session c now) back.1 new,
      λ ev. ev,
    )

module _ (h : Hashing) (a : Aead) (iso8601 : ℕ → String) where
  fresh_wake-Keeps :
      (cipher : UserSigCipher) (c : WakeCall) (nonce : Bytes) (now : ℕ) (l : Ledger)
      → IsSound l
      → Ensures (λ r. Advances l r.2) (fresh_wake h a iso8601 cipher c nonce now l)
  unfolding fresh_wake store_wake
  fresh_wake-Keeps cipher c nonce now l v =
      lookup-Ensures _ (find_session c.prior_session_id l) _ _ λ prior e.
        bind-Ensures (λ _. Unit) _ _ _ (checked (check_prior c prior l))
          λ _ _. session-Ensures _ (signing_session c now) _ _ λ new.
            claim-Ensures {B = WakeRecord × String × Ledger} (λ r. Advances l r.2) c.session_id
              c.device_id (room_of c.session_id) (c.prior_generation + 1) c.expires_at now
              (record l {
                sessions =
                    signing_session c now
                    ∷ set_session_state c.prior_session_id (λ s. is_kws_ready s.state) State.signing
                        now l.sessions;
              })
              (λ l₂. store_wake h a iso8601 cipher c nonce now l₂)
              λ cs.
                bind-Ensures {B = WakeRecord × String × Ledger} (λ _. Unit) (λ r. Advances l r.2) _
                  _
                  (checked (
                    lift_cipher (
                      encrypt a cipher nonce c.user_sig
                        (wake_context c c.session_id (c.prior_generation + 1)))))
                  λ ciphertext _. signing_advances c now l v new

  pub consume_wake_tx-Keeps :
      (cipher : UserSigCipher) (c : WakeCall) (nonce : Bytes) (now : ℕ) (l : Ledger)
      → IsSound l
      → Keeps l (consume_wake_tx h a iso8601 cipher c nonce now l)
  unfolding consume_wake_tx
  consume_wake_tx-Keeps cipher c nonce now l v = elim (Option-cases (find (is_wake c) l.wakes)) [
    | inr (w, e) ↦
        rw (e, consume_wake_tx)
          (bind-Ensures (λ _. Unit) _ _ _ (checked (replay_wake h a iso8601 cipher c w))
            λ _ _. stay l v)
    | inl e ↦
        rw (e, consume_wake_tx)
          (bind-Ensures (λ r. Advances l r.2) _ _ _ (fresh_wake-Keeps cipher c nonce now l v)
            λ _ k. k)
  ]

module _ (digest : String → String) where
  pub create_for_signing_tx-Keeps :
      (c : HelloClaims) (proof token_hash : String) (now : ℕ) (l : Ledger)
      → IsSound l
      → Keeps l (create_for_signing_tx digest c proof token_hash now l)
  unfolding create_for_signing_tx
  create_for_signing_tx-Keeps c proof token_hash now l v =
      lookup-Ensures _ (find_session c.session_id l) _ _ λ s e.
        guard-Ensures _ (not (is_session_of c s && is_signing s.state)) _ _ λ _.
          guard-Ensures _ (not (count (is_signable c token_hash) l.claims == 1)) _ _ λ _.
            hello-Ensures _ (hello_row digest c proof now) _ _ λ rs.
              shift_advances c.session_id (λ s. s.generation == c.generation && is_signing s.state)
                State.entering now l v (λ s f g. (ground arith, ground arith, tt))

  pub redeem_tx-Keeps :
      (c : HelloClaims) (proof : String) (b : HelloBody) (now : ℕ) (l : Ledger)
      → IsSound l
      → Keeps l (redeem_tx digest c proof b now l)
  unfolding redeem_tx
  redeem_tx-Keeps c proof b now l v =
      lookup-Ensures _ (find (λ (r : HelloRow). r.jti =ₛ c.jti) l.hellos) _ _ λ row e.
        bind-Ensures (λ _. Unit) _ _ _ (checked (check_row digest c proof b row))
          λ _ _. lookup-Ensures _ (find_session c.session_id l) _ _ λ s f.
            guard-Ensures _ (not (is_session_of c s && is_entering s.state)) _ _ λ _.
              shift_advances c.session_id (λ s. s.generation == c.generation && is_entering s.state)
                State.active now l v (λ s f g. (ground arith, ground arith, tt))
