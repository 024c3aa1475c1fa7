-- ===== src/ControlPlane/Invariant/Calls.antt =====
-- Every call, and so every history of calls, keeps the invariant.
use bosimao_release.Prelude.{
  ℕ, String, ◌≡◌, ◌≢◌, Option-cases, Bool-cases, Result-cases, inl, inr, List, [], ◌∷◌, none, some,
  arith, refl, count, ◌==◌,
}
use bosimao_release.ControlPlane.Cipher.{Bytes}
use bosimao_release.ControlPlane.Schema.{State, TerminationResult, Ledger, empty_ledger}
use bosimao_release.ControlPlane.Sessions.{create_session, begin_termination, is_initial}
use bosimao_release.ControlPlane.Acks.Calls.{
  AckCall, record_ack, parse_call, finish_termination, parse_final,
}
use bosimao_release.ControlPlane.Retry.{retry_termination}
use bosimao_release.ControlPlane.Wake.{WakeCall}
use bosimao_release.ControlPlane.Wake.Consume.{consume_wake}
use bosimao_release.ControlPlane.Claims.{claim_one, next_claim, is_unclaimed}
use bosimao_release.ControlPlane.Hello.{
  HelloClaims, HelloBody, create_for_signing, check_body, redeem,
}
use bosimao_release.ControlPlane.History.{
  Host, Call, create, begin, acknowledge, finish, retry, kws_ready, wake, hand_out, sign,
  redeem_hello, step, run,
}
use bosimao_release.ControlPlane.Invariant.{IsSound}
use bosimao_release.ControlPlane.Evidence.{Evidence}
use bosimao_release.ControlPlane.Lifecycle.{Evolves}
use bosimao_release.ControlPlane.Invariant.Explains.{final_state}
use bosimao_release.ControlPlane.Invariant.Keeps.{Advances, stay, commit-Advances}
use bosimao_release.ControlPlane.Invariant.Steps.{
  create_tx-Keeps, record_ack_tx-Keeps, finish_tx-Keeps,
}
use bosimao_release.ControlPlane.Invariant.Steps.Requests.{begin_tx-Keeps, retry_tx-Keeps}
use bosimao_release.ControlPlane.Invariant.Passes.{
  mark-Advances, consume_wake_tx-Keeps, create_for_signing_tx-Keeps, redeem_tx-Keeps,
}

create-Advances :
    (session device room : String) (generation : ℕ) (state : State) (now : ℕ) (l : Ledger)
    → IsSound l
    → Advances l (create_session session device room generation state now l).1
unfolding create_session
create-Advances session device room generation state now l v =
    elim (Bool-cases (is_initial state)) [
      | inr other ↦ rw other (stay l v)
      | inl initial ↦ rw initial (
          commit-Advances _ l v
            (create_tx-Keeps session device room generation state now l initial v))
    ]

record_ack-Advances :
    (c : AckCall) (now : ℕ) (l : Ledger) → IsSound l → Advances l (record_ack c now l).1
unfolding record_ack
record_ack-Advances c now l v = elim (Result-cases (parse_call c)) [
  | inl (e, bad) ↦ rw (bad, record_ack) (stay l v)
  | inr (p, good) ↦
      rw (good, record_ack) (commit-Advances _ l v (record_ack_tx-Keeps c p.0 p.1 p.2 now l v))
]

-- A result that `finish_termination` accepts is final, and comes with its state.
parse_final_lem :
    (s : String) (r : TerminationResult) (st : State)
    → parse_final s ≡ some (r, st)
    → (r ≢ TerminationResult.pending) × (r ≢ TerminationResult.complete) × (st ≡ final_state r)
unfolding parse_final
parse_final_lem s r st e = ground arith

finish-Advances :
    (k result : String) (now : ℕ) (l : Ledger)
    → IsSound l
    → Advances l (finish_termination k result now l).1
unfolding finish_termination
finish-Advances k result now l v = elim (Option-cases (parse_final result)) [
  | inl bad ↦ rw (bad, finish_termination) (stay l v)
  | inr (f, good) ↦
      let (ends, short, state) = parse_final_lem result f.0 f.1 good in
      rw (good, finish_termination, state)
        (commit-Advances _ l v (finish_tx-Keeps k f.0 now l ends short v))
]

module _ (h : Host) where
  wake-Advances :
      (cipher : _) (c : WakeCall) (nonce : Bytes) (now : ℕ) (l : Ledger)
      → IsSound l
      → Advances l (consume_wake h.hashing h.aead h.iso8601 cipher c nonce now l).1
  unfolding consume_wake
  wake-Advances none c nonce now l v = stay l v
  wake-Advances (some cipher) c nonce now l v =
      commit-Advances _ l v
        (consume_wake_tx-Keeps h.hashing h.aead h.iso8601 cipher c nonce now l v)

  claim-Advances :
      (token : String) (now : ℕ) (l : Ledger)
      → IsSound l
      → Advances l (claim_one h.hashing.sha256_hex token now l).1
  unfolding claim_one
  claim-Advances token now l v = elim (Option-cases (next_claim now l.claims)) [
    | inl nothing ↦ rw (nothing, claim_one) (stay l v)
    | inr (c, e) ↦ elim (Bool-cases (count (is_unclaimed c.id) l.claims == 1)) [
      | inr other ↦ rw (e, claim_one, other) (stay l v)
      | inl one ↦ rw (e, claim_one, one) (stay l v)
    ]
  ]

  redeem-Advances :
      (c : HelloClaims) (proof : String) (b : HelloBody) (now : ℕ) (l : Ledger)
      → IsSound l
      → Advances l (redeem h.hashing.sha256_hex c proof b now l).1
  unfolding redeem
  redeem-Advances c proof b now l v = elim (Result-cases (check_body h.hashing.sha256_hex c b)) [
    | inl (e, bad) ↦ rw (bad, redeem) (stay l v)
    | inr (u, good) ↦
        rw (good, redeem)
          (commit-Advances _ l v (redeem_tx-Keeps h.hashing.sha256_hex c proof b now l v))
  ]

  -- Every call, whether it succeeds or raises, keeps the invariant and moves each session along
  -- its life.
  pub step-Advances : (l : Ledger) (c : ℕ × Call) → IsSound l → Advances l (step h l c)
  unfolding step begin_termination retry_termination create_for_signing
  step-Advances l (now, create session device room generation state) v =
      create-Advances session device room generation state now l v
  step-Advances l (now, begin session generation request payload id) v =
      commit-Advances _ l v (begin_tx-Keeps h.hashing session generation request payload id now l v)
  step-Advances l (now, acknowledge c) v = record_ack-Advances c now l v
  step-Advances l (now, finish k result) v = finish-Advances k result now l v
  step-Advances l (now, retry session parent request reason id) v =
      commit-Advances _ l v (retry_tx-Keeps h.hashing session parent request reason id now l v)
  step-Advances l (now, kws_ready session generation reporter evidence) v =
      mark-Advances session generation reporter evidence now l v
  step-Advances l (now, wake c nonce) v = wake-Advances h.cipher c nonce now l v
  step-Advances l (now, hand_out token) v = claim-Advances token now l v
  step-Advances l (now, sign c proof token_hash) v =
      commit-Advances _ l v
        (create_for_signing_tx-Keeps h.hashing.sha256_hex c proof token_hash now l v)
  step-Advances l (now, redeem_hello c proof body) v = redeem-Advances c proof body now l v

  -- A call of the ledger on sound tables, whether it succeeds or raises, loses no session, changes
  -- no session's device, room or generation, and moves its state along the life of a session only:
  -- SIGNING, ENTERING, ACTIVE, TERMINATING, then TERMINATED, KWS_READY and SIGNING again, or
  -- TERMINATION_PARTIAL or TERMINATION_TIMEOUT and TERMINATING again.
  pub step-Evolves :
      (l : Ledger) (c : ℕ × Call) → IsSound l → Evolves l.sessions (step h l c).sessions
  step-Evolves l c v = (step-Advances l c v).1

  run-IsSound : (l : Ledger) (cs : List (ℕ × Call)) → IsSound l → IsSound (run h l cs)
  unfolding run
  run-IsSound l [] v = v
  run-IsSound l (c ∷ cs) v = run-IsSound (step h l c) cs (step-Advances l c v).0

  empty-IsSound : IsSound empty_ledger
  empty-IsSound = record {
    shape = λ k t e. cc;
    linked = λ k t e. cc;
    one_open = λ j k t u e f a b m. cc;
    explained = λ k s e. cc;
  }

  run-Evidence :
      (l : Ledger) (cs : List (ℕ × Call)) → IsSound l → Evidence l → Evidence (run h l cs)
  unfolding run
  run-Evidence l [] v ev = ev
  run-Evidence l (c ∷ cs) v ev =
      let (sound, evolves, keeps) = step-Advances l c v in
      run-Evidence (step h l c) cs sound (keeps ev)

  empty-Evidence : Evidence empty_ledger
  empty-Evidence = record {
    known = λ k ack n _. n refl;
    once = λ k ack. omega arith;
    backed = λ k ack. tt;
    five = λ k t e c. cc;
  }

  pub run-empty-Evidence : (cs : List (ℕ × Call)) → Evidence (run h empty_ledger cs)
  run-empty-Evidence cs = run-Evidence empty_ledger cs empty-IsSound empty-Evidence

  -- After any history of calls on an empty ledger, whether they succeed or raise, the result, the
  -- state and the final time of every termination fit; it has its session, of its generation, in
  -- TERMINATING if it is pending; no session has two pending terminations; and a session that is
  -- TERMINATING, TERMINATED, KWS_READY, PARTIAL or TIMEOUT has a termination of its generation
  -- with the result that explains it.
  pub run-empty-IsSound : (cs : List (ℕ × Call)) → IsSound (run h empty_ledger cs)
  run-empty-IsSound cs = run-IsSound empty_ledger cs empty-IsSound
