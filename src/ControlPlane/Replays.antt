-- ===== src/ControlPlane/Replays.antt =====
-- What a repeated call does: the idempotency of backend/app/voice/control_plane_sessions.py,
-- control_plane_retry.py and control_plane_wake.py, and the one-time proofs of
-- repositories/hello_proofs.py.
pub mod Retry
pub mod Wake
pub mod Hello
use bosimao_release.Prelude.{
  ℕ, String, Option, none, some, List, ◌∷◌, ◌≡◌, ◌≢◌, refl, arith, ◌=ₛ◌, true, false, not, find,
  Option-cases, Bool-cases, Result-cases, inl, inr, Result, ok, err, ◌>>=◌, ◌⊎◌,
}
use bosimao_release.ControlPlane.Payload.{Payload, Hashing, payload_hash}
use bosimao_release.ControlPlane.Schema.{
  State, Session, Termination, Ledger, Error, invalid_state, find_session, find_termination,
  is_request, insert_termination, set_session_state, commit,
}
use bosimao_release.ControlPlane.Sessions.{
  TerminationView, validate_payload, root_termination, open_root, settle_root, begin_termination_tx,
  begin_termination, get_termination,
}
use bosimao_release.ControlPlane.Invariant.{session_at-set}

-- The session is still there, with its identity.
abbrev Stands : Session → Option Session → Type 0
Stands s none = ⊥
Stands s (some s') =
    (s'.session_id ≡ s.session_id)
    × (s'.generation ≡ s.generation)
    × (s'.device_id ≡ s.device_id)
    × (s'.room_id ≡ s.room_id)

-- What settling a request leaves: the session's identity, and the request's row.
module _ (h : Hashing) where
  settle-settle :
      (s s' : Session) (id id' request : String) (payload : Payload) (now now' : ℕ) (l l' : Ledger)
      (t : String)
      → s'.session_id ≡ s.session_id
      → s'.generation ≡ s.generation
      → settle_root h s id request payload now l ≡ ok (t, l')
      → settle_root h s' id' request payload now' l' ≡ ok (t, l')
  unfolding settle_root open_root insert_termination
  settle-settle s s' id id' request payload now now' l l' t k g e = ground arith

  settle-session :
      (s : Session) (id request : String) (payload : Payload) (now : ℕ) (l l' : Ledger)
      (t k : String)
      → find_session k l ≡ some s
      → settle_root h s id request payload now l ≡ ok (t, l')
      → Stands s (find_session k l')
  unfolding settle_root open_root insert_termination
  settle-session s id request payload now l l' t k f e =
      ground (arith, session_at-set s.session_id (λ _. true) State.terminating now l.sessions k)

  begin_tx-begin_tx :
      (k : String) (generation : ℕ) (request : String) (payload : Payload) (id id' : String)
      (now now' : ℕ) (l l' : Ledger) (t : String)
      → begin_termination_tx h k generation request payload id now l ≡ ok (t, l')
      → begin_termination_tx h k generation request payload id' now' l' ≡ ok (t, l')
  unfolding begin_termination_tx validate_payload
  begin_tx-begin_tx k generation request payload id id' now now' l l' t e =
      elim (Option-cases (find_session k l)) [
        | inl gone ↦ ground arith
        | inr (s, f) ↦ elim (Option-cases (find_session k l')) [
          | inl gone ↦ ground (arith, settle-session s id request payload now l l' t k f)
          | inr (s', f') ↦ ground (
            arith,
            settle-session s id request payload now l l' t k f,
            settle-settle s s' id id' request payload now now' l l' t,
          )
        ]
      ]

  -- A termination request that was answered is answered the same when it is sent again with the
  -- same payload, at any later time, and the ledger stays as it is.
  pub begin-begin :
      (k : String) (generation : ℕ) (request : String) (payload : Payload) (id id' : String)
      (now now' : ℕ) (l l' : Ledger) (v : TerminationView)
      → begin_termination h k generation request payload id now l ≡ (ok v, l')
      → begin_termination h k generation request payload id' now' l' ≡ (ok v, l')
  unfolding begin_termination
  begin-begin k generation request payload id id' now now' l l' v e =
      elim (Result-cases (begin_termination_tx h k generation request payload id now l)) [
        | inl (x, bad) ↦ ground arith
        | inr (r, good) ↦
            ground (arith, begin_tx-begin_tx k generation request payload id id' now now' l r.1 r.0)
      ]
