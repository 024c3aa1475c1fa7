-- ===== src/ControlPlane/Replays/Retry.antt =====
-- A retry that is sent again: backend/app/voice/control_plane_retry.py.
use bosimao_release.Prelude.{
  ℕ, Bool, List, [], ◌≢◌, String, none, some, ◌∷◌, ◌≡◌, arith, true, find, Option-cases,
  Result-cases, key-lookup, inl, inr, ok, err,
}
use bosimao_release.ControlPlane.Payload.{Hashing, payload_hash}
use bosimao_release.ControlPlane.Schema.{
  State, Session, Termination, Ledger, invalid_state, find_session, find_termination, is_request,
  insert_termination, with_state, termination_at,
}
use bosimao_release.ControlPlane.Sessions.{TerminationView, get_termination}
use bosimao_release.ControlPlane.Acks.{termination_context}
use bosimao_release.ControlPlane.Retry.{
  retry_termination, retry_termination_tx, check_retry, settle_retry, open_retry, retry_row,
  retry_payload,
}
use bosimao_release.ControlPlane.Invariant.{session_at-set}

-- A row that was found is there under its own key.
row_known :
    (p : Termination → Bool) (ts : List Termination) (t : Termination)
    → find p ts ≡ some t
    → termination_at t.termination_id ts ≢ none
row_known p [] t e = cc
row_known p (x ∷ ts) t e = ground (arith, row_known p ts t)

module _ (h : Hashing) where
  -- A retry that made a new row leaves its session TERMINATING, beside the parent.
  open_retry_lem :
      (parent : Termination) (s : Session) (hash id request : String) (now : ℕ) (l l' : Ledger)
      (t : String)
      → find_session parent.session_id l ≡ some s
      → open_retry h parent hash id request now l ≡ ok (t, l')
      → (t ≡ id)
        × (l'.terminations ≡ retry_row h parent hash id request now ∷ l.terminations)
        × (find_session parent.session_id l' ≡ some (with_state State.terminating now s))
  unfolding open_retry insert_termination
  open_retry_lem parent s hash id request now l l' t f e = ground (
    arith,
    session_at-set parent.session_id (λ _. true) State.terminating now l.sessions parent.session_id,
  )

  retry_tx-retry_tx :
      (session parent_id request reason id id' : String) (now now' : ℕ) (l l' : Ledger)
      → find_termination id l ≡ none
      → retry_termination_tx h session parent_id request reason id now l ≡ ok (id, l')
      → retry_termination_tx h session parent_id request reason id' now' l'
        ≡ err (invalid_state 40913)
  unfolding retry_termination_tx settle_retry termination_context check_retry
  retry_tx-retry_tx session parent_id request reason id id' now now' l l' new e =
      elim (Option-cases (find_termination parent_id l)) [
        | inl gone ↦ ground arith
        | inr (parent, f) ↦ elim (Option-cases (find_session parent.session_id l)) [
          | inl gone ↦ ground arith
          | inr (s, g) ↦
              elim (Option-cases
                (find (is_request parent.session_id parent.generation request) l.terminations)) [
                  | inr (old, seen) ↦ ground (
                    arith,
                    row_known (is_request parent.session_id parent.generation request)
                        l.terminations old seen,
                  )
                  | inl unseen ↦ ground (
                    arith,
                    open_retry_lem parent s (payload_hash h (retry_payload parent s reason)) id
                        request now l l' id g,
                  )
                ]
        ]
      ]

  -- A retry that made a new termination is refused with 40913 when it is sent again, at any later
  -- time, with the ledger left as it is: it is not answered from the termination that it made.
  pub retry-retry :
      (session parent_id request reason id id' : String) (now now' : ℕ) (l l' : Ledger)
      (v : TerminationView)
      → find_termination id l ≡ none
      → retry_termination h session parent_id request reason id now l ≡ (ok v, l')
      → v.row.termination_id ≡ id
      → retry_termination h session parent_id request reason id' now' l'
        ≡ (err (invalid_state 40913), l')
  unfolding retry_termination get_termination
  retry-retry session parent_id request reason id id' now now' l l' v new e same =
      elim (Result-cases (retry_termination_tx h session parent_id request reason id now l)) [
        | inl (x, bad) ↦ ground arith
        | inr (r, good) ↦ ground (
          arith,
          key-lookup (λ (t : Termination). t.termination_id) r.0 r.1.terminations v.row,
          retry_tx-retry_tx session parent_id request reason id id' now now' l l' new,
        )
      ]
