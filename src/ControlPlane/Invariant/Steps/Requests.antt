-- ===== src/ControlPlane/Invariant/Steps/Requests.antt =====
-- Root terminations and retries keep the invariant.
use bosimao_release.Prelude.{
  ℕ, String, true, not, some, ◌≡◌, refl, arith, ◌=ₛ◌, Option-cases, inl, inr, find, lookup_self,
}
use bosimao_release.ControlPlane.Payload.{Payload, Hashing, payload_hash}
use bosimao_release.ControlPlane.Schema.{
  Session, Termination, Ledger, find_session, find_termination, is_request,
}
use bosimao_release.ControlPlane.Sessions.{
  begin_termination_tx, open_root, settle_root, allows_root, root_termination, validate_payload,
}
use bosimao_release.ControlPlane.Retry.{
  retry_termination_tx, open_retry, settle_retry, check_retry, retry_row, retry_payload,
}
use bosimao_release.ControlPlane.Invariant.{IsSound}
use bosimao_release.ControlPlane.Invariant.Advances.{open_advances, may_terminate}
use bosimao_release.ControlPlane.Evidence.Moves.{begin-AckInv, retry-AckInv}
use bosimao_release.ControlPlane.Invariant.Keeps.{
  Ensures, Keeps, stay, bind-Ensures, guard-Ensures, lookup-Ensures, context-Ensures,
  insert-Ensures, if_Ensures, checked,
}

module _ (h : Hashing) where
  open_root-Keeps :
      (s : Session) (id request : String) (payload : Payload) (now : ℕ) (l : Ledger)
      → find_session s.session_id l ≡ some s
      → IsSound l
      → Keeps l (open_root h s id request payload now l)
  unfolding open_root
  open_root-Keeps s id request payload now l known v =
      guard-Ensures _ (not (allows_root s.state)) _ _ λ allowed.
        let row = root_termination h id s.session_id s.generation request payload now in
        insert-Ensures _ row l _ λ new.
          let (sound, evolves) =
            open_advances row s now l v new refl (refl, refl) known refl (ground arith) in
          (sound, evolves, λ ev. begin-AckInv l.terminations l.acks l.reports ev row refl)

  settle_root-Keeps :
      (s : Session) (id request : String) (payload : Payload) (now : ℕ) (l : Ledger)
      → find_session s.session_id l ≡ some s
      → IsSound l
      → Keeps l (settle_root h s id request payload now l)
  unfolding settle_root
  settle_root-Keeps s id request payload now l known v =
      elim (Option-cases (find (is_request s.session_id s.generation request) l.terminations)) [
        | inr (old, f) ↦
            rw (f, settle_root)
              (if_Ensures _ (old.payload_hash =ₛ payload_hash h payload) _ _ (λ _. stay l v)
                (λ _. tt))
        | inl new ↦ rw (new, settle_root) (open_root-Keeps s id request payload now l known v)
      ]

  pub begin_tx-Keeps :
      (k : String) (generation : ℕ) (request : String) (payload : Payload) (id : String) (now : ℕ)
      (l : Ledger)
      → IsSound l
      → Keeps l (begin_termination_tx h k generation request payload id now l)
  unfolding begin_termination_tx
  begin_tx-Keeps k generation request payload id now l v =
      lookup-Ensures _ (find_session k l) _ _ λ s e.
        bind-Ensures (λ _. Unit) _ _ _ (checked (validate_payload s generation payload))
          λ _ _.
            settle_root-Keeps s id request payload now l
              (lookup_self (λ (x : Session). x.session_id) k l.sessions s e) v

  open_retry-Keeps :
      (parent : Termination) (s : Session) (hash id request : String) (now : ℕ) (l : Ledger)
      → find_termination parent.termination_id l ≡ some parent
      → find_session parent.session_id l ≡ some s
      → may_terminate s.state ≡ true
      → IsSound l
      → Keeps l (open_retry h parent hash id request now l)
  unfolding open_retry
  open_retry-Keeps parent s hash id request now l known c may v =
      let row = retry_row h parent hash id request now in
      insert-Ensures _ row l _ λ new.
        let (sound, evolves) =
          open_advances row s now l v new refl (refl, refl) c
            (ground (arith, v.linked parent.termination_id parent known)) may in
        (
          sound,
          evolves,
          λ ev.
              retry-AckInv l.terminations l.acks l.reports ev row parent.termination_id now new
                refl,
        )

  check_retry-Ensures :
      (session : String) (parent : Termination) (s : Session) (reason : String) (l : Ledger)
      → Ensures (λ _. may_terminate s.state ≡ true) (check_retry h session parent s reason l)
  unfolding check_retry
  check_retry-Ensures session parent s reason l = ground arith

  settle_retry-Keeps :
      (parent : Termination) (s : Session) (hash id request : String) (now : ℕ) (l : Ledger)
      → find_termination parent.termination_id l ≡ some parent
      → find_session parent.session_id l ≡ some s
      → may_terminate s.state ≡ true
      → IsSound l
      → Keeps l (settle_retry h parent hash id request now l)
  unfolding settle_retry
  settle_retry-Keeps parent s hash id request now l known c may v =
      elim (Option-cases
        (find (is_request parent.session_id parent.generation request) l.terminations)) [
          | inr (old, f) ↦
              rw (f, settle_retry)
                (if_Ensures _ (old.payload_hash =ₛ hash) _ _ (λ _. stay l v) (λ _. tt))
          | inl new ↦
              rw (new, settle_retry) (open_retry-Keeps parent s hash id request now l known c may v)
        ]

  pub retry_tx-Keeps :
      (session parent_id request reason id : String) (now : ℕ) (l : Ledger)
      → IsSound l
      → Keeps l (retry_termination_tx h session parent_id request reason id now l)
  unfolding retry_termination_tx
  retry_tx-Keeps session parent_id request reason id now l v =
      context-Ensures _ parent_id l _ λ parent s e g.
        bind-Ensures (λ _. may_terminate s.state ≡ true) _ _ _
          (check_retry-Ensures session parent s reason l)
          λ _ may.
            settle_retry-Keeps parent s (payload_hash h (retry_payload parent s reason)) id request
              now l
              (lookup_self (λ (t : Termination). t.termination_id) parent_id l.terminations parent
                e)
              g may v
