-- ===== src/ControlPlane/Gates.antt =====
-- What a session must have behind it to go on: the gates of backend/app/voice/control_plane_kws.py
-- and control_plane_wake.py.
use bosimao_release.Prelude.{
  ℕ, String, Bool, none, some, List, [], ◌∷◌, ◌≡◌, arith, true, find, count, lookup, key-lookup,
  Result-cases, inl, inr, ok, err, Result, ◌==◌, ◌&&◌, subst,
}
use bosimao_release.ControlPlane.Payload.{Payload, Hashing}
use bosimao_release.ControlPlane.Cipher.{Bytes, Aead, UserSigCipher}
use bosimao_release.ControlPlane.Schema.{
  State, TerminationResult, Session, Termination, WakeRecord, Ledger, Error, find_session,
  with_state,
}
use bosimao_release.ControlPlane.Kws.{
  can_enter_kws_ready, mark_kws_ready, is_ended, is_completion, found, is_terminated,
}
use bosimao_release.ControlPlane.Wake.{WakeCall, check_prior, is_wake, is_active_on, is_kws_ready}
use bosimao_release.ControlPlane.Wake.Consume.{consume_wake, consume_wake_tx, fresh_wake}
use bosimao_release.ControlPlane.Invariant.{IsSound, HasTermination, Explained, session_at-set}
use bosimao_release.ControlPlane.Invariant.Keeps.{Ensures, lookup-Ensures, bind-Ensures}

-- A row that is found under its key is met by any test that it passes.
found_row {ℓ} :
    {A : Type ℓ} (key : A → String) (p : A → Bool) (k : String) (xs : List A) (a : A)
    → lookup key k xs ≡ some a
    → p a ≡ true
    → found (find p xs) ≡ true
found_row key p k [] a e h = cc
found_row key p k (x ∷ xs) a e h = ground (arith, found_row key p k xs a)

completion_found :
    (l : Ledger) (k : String) (generation : ℕ)
    → IsSound l
    → HasTermination l.terminations k generation TerminationResult.complete
    → found (find (is_completion k generation) l.terminations) ≡ true
completion_found l k generation v (j, t, e, session, same, complete) =
    found_row (λ (t : Termination). t.termination_id) (is_completion k generation) j l.terminations
      t e (ground (arith, v.shape j t e))

-- A session that is TERMINATED passes the gate: the completion that it asks for is there.
pub can_enter_terminated :
    (k : String) (l : Ledger) (s : Session)
    → IsSound l
    → find_session k l ≡ some s
    → s.state ≡ State.terminated
    → can_enter_kws_ready k s.generation l ≡ true
unfolding can_enter_kws_ready
can_enter_terminated k l s v e ended =
    let key : s.session_id ≡ k = key-lookup (λ (s : Session). s.session_id) k l.sessions s e in
    let explained : HasTermination l.terminations s.session_id s.generation
        TerminationResult.complete =
      subst (Explained l.terminations s) ended (v.explained k s e) in
    let complete = completion_found l s.session_id s.generation v explained in
    let here =
      found_row (λ (s : Session). s.session_id) (is_ended k s.generation) k l.sessions s e
        (ground arith) in
    ground (arith, complete, here, key)

-- In a ledger that the invariant holds of, a session that is TERMINATED is marked ready by any
-- reporter of its generation: the completion that the gate asks for is there.
pub mark-opens :
    (k : String) (reporter : String) (evidence : Payload) (now : ℕ) (l : Ledger) (s : Session)
    → IsSound l
    → find_session k l ≡ some s
    → s.state ≡ State.terminated
    → find_session k (mark_kws_ready k s.generation reporter evidence now l).1
      ≡ some (with_state State.kws_ready now s)
unfolding mark_kws_ready
mark-opens k reporter evidence now l s v e ended =
    let enters = can_enter_terminated k l s v e ended in
    ground (
      arith,
      enters,
      key-lookup (λ (s : Session). s.session_id) k l.sessions s e,
      session_at-set k (λ s'. s'.generation == s.generation && is_terminated s'.state)
          State.kws_ready now l.sessions k,
    )

ok_checks :
    {Q : Type 0} (c : WakeCall) (s : Session) (l : Ledger)
    → (check_prior c s l ≡ ok tt → Q)
    → Ensures (λ _. Q) (check_prior c s l)
ok_checks c s l k = elim (Result-cases (check_prior c s l)) [
  | inl (x, bad) ↦ rw bad tt
  | inr (u, good) ↦ rw good (k good)
]

always {ℓ} : {A : Type ℓ} {Q : Type 0} (r : Result Error A) → Q → Ensures (λ _. Q) r
always (ok a) q = q
always (err e) q = tt

holds_at {ℓ} :
    {A : Type ℓ} {r : Result Error A} (Q : Type 0) (x : A) → Ensures (λ _. Q) r → r ≡ ok x → Q
holds_at {r = ok y} Q x k e = k
holds_at {r = err y} Q x k e = cc

ready_of : (st : State) → is_kws_ready st ≡ true → st ≡ State.kws_ready
ready_of st h = ground arith

module _ (h : Hashing) (a : Aead) (iso8601 : ℕ → String) where
  -- What a first wake asks of the ledger.
  abbrev MayWake : WakeCall → Ledger → Type 0
  MayWake c l =
      HasTermination l.terminations c.prior_session_id c.prior_generation TerminationResult.complete
      × (count (is_active_on c.device_id) l.sessions ≡ 0)

  check_prior-MayWake :
      (c : WakeCall) (s : Session) (l : Ledger)
      → IsSound l
      → find_session c.prior_session_id l ≡ some s
      → check_prior c s l ≡ ok tt
      → MayWake c l
  unfolding check_prior
  check_prior-MayWake c s l v e checks =
      let key = key-lookup (λ (s : Session). s.session_id) c.prior_session_id l.sessions s e in
      let ready : s.state ≡ State.kws_ready = ready_of s.state (ground arith) in
      let generation : s.generation ≡ c.prior_generation = ground arith in
      let (j, t, f, session, same, complete) =
        subst (Explained l.terminations s) ready (v.explained c.prior_session_id s e) in
      ((j, t, f, ground arith, ground arith, complete), ground arith)

  fresh_wake-MayWake :
      (cipher : UserSigCipher) (c : WakeCall) (nonce : Bytes) (now : ℕ) (l : Ledger)
      → IsSound l
      → Ensures (λ r. MayWake c l) (fresh_wake h a iso8601 cipher c nonce now l)
  unfolding fresh_wake
  fresh_wake-MayWake cipher c nonce now l v =
      lookup-Ensures _ (find_session c.prior_session_id l) _ _ λ prior e.
        bind-Ensures (λ _. MayWake c l) _ _ _
          (ok_checks c prior l λ checks. check_prior-MayWake c prior l v e checks)
          λ _ may. always _ may

  -- A wake event that was not seen before opens a session only if the prior session has a
  -- completed termination of the generation that the call names, and no session of the device is
  -- still held; in a ledger that the invariant holds of.
  pub consume_wake_needs :
      (cipher : UserSigCipher) (c : WakeCall) (nonce : Bytes) (now : ℕ) (l l' : Ledger)
      (r : WakeRecord × String)
      → IsSound l
      → find (is_wake c) l.wakes ≡ none
      → consume_wake h a iso8601 (some cipher) c nonce now l ≡ (ok r, l')
      → HasTermination l.terminations c.prior_session_id c.prior_generation
          TerminationResult.complete
        × (count (is_active_on c.device_id) l.sessions ≡ 0)
  unfolding consume_wake consume_wake_tx
  consume_wake_needs cipher c nonce now l l' r v new e =
      elim (Result-cases (fresh_wake h a iso8601 cipher c nonce now l)) [
        | inl (x, bad) ↦ absurd (ground arith)
        | inr (p, good) ↦ holds_at (MayWake c l) p (fresh_wake-MayWake cipher c nonce now l v) good
      ]
