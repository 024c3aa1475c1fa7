-- ===== src/ControlPlane/Invariant/Steps.antt =====
-- Each transaction on sessions, terminations and acknowledgements keeps the invariant.
pub mod Requests
use bosimao_release.Prelude.{
  ℕ, String, Option, true, false, not, some, List, ◌≡◌, ◌≢◌, refl, arith, ◌==◌, ◌=ₛ◌, Option-cases,
  Bool-cases, inl, inr, find, count, lookup_self,
}
use bosimao_release.ControlPlane.Payload.{Payload, Hashing, payload_hash}
use bosimao_release.ControlPlane.Schema.{
  State, TerminationResult, AckResult, Ack, Reporter, Session, Termination, Ledger, find_session,
  find_termination, is_request,
}
use bosimao_release.ControlPlane.Sessions.{
  fresh_session, is_ack, same_context, create_session_tx, is_initial, begin_termination_tx,
  open_root, settle_root, allows_root, root_termination, validate_payload,
}
use bosimao_release.ControlPlane.Acks.{
  is_pending, complete_if_all, store_ack, ack_report, upsert_report, write_ack, aggregate,
  is_confirmed_ack,
}
use bosimao_release.ControlPlane.Acks.Calls.{
  AckCall, finish_termination_tx, record_ack_tx, is_inherited, same_termination_context,
}
use bosimao_release.ControlPlane.Retry.{
  retry_termination_tx, open_retry, settle_retry, check_retry, retry_row, retry_payload,
}
use bosimao_release.ControlPlane.Invariant.{IsSound, Explained}
use bosimao_release.ControlPlane.Lifecycle.{Evolves-refl, Evolves-cons}
use bosimao_release.ControlPlane.Invariant.Explains.{final_state}
use bosimao_release.ControlPlane.Invariant.Open.{fresh-Inv}
use bosimao_release.ControlPlane.Invariant.Advances.{close-Advances, open_advances, may_terminate}
use bosimao_release.ControlPlane.Evidence.Moves.{write-AckInv, begin-AckInv, retry-AckInv}
use bosimao_release.ControlPlane.Invariant.Keeps.{
  Ensures, Advances, Keeps, stay, bind-Ensures, guard-Ensures, lookup-Ensures, context-Ensures,
  insert-Ensures, if_Ensures, checked,
}

pending_of_not :
    (r : TerminationResult) → not (is_pending r) ≡ false → r ≡ TerminationResult.pending
pending_of_not r h = ground arith

pub finish_tx-Keeps :
    (k : String) (r : TerminationResult) (now : ℕ) (l : Ledger)
    → r ≢ TerminationResult.pending
    → r ≢ TerminationResult.complete
    → IsSound l
    → Keeps l (finish_termination_tx k r (final_state r) now l)
unfolding finish_termination_tx
finish_tx-Keeps k r now l ends short v = context-Ensures _ k l _ λ t s e _.
    guard-Ensures _ (not (is_pending t.result)) _ _ λ h.
      close-Advances k t (λ _. true) r now l v e (pending_of_not t.result h) ends (λ _ _. refl)
        (λ c. absurd (short c))

complete_if_all-Advances :
    (t : Termination) (now : ℕ) (l : Ledger)
    → IsSound l
    → find_termination t.termination_id l ≡ some t
    → t.result ≡ TerminationResult.pending
    → Advances l (complete_if_all t now l)
unfolding complete_if_all
complete_if_all-Advances t now l v known waits =
    elim (Bool-cases (count (is_confirmed_ack t.termination_id) l.acks == 5)) [
      | inr less ↦ rw (less, complete_if_all) (stay l v)
      | inl five ↦
          rw (five, complete_if_all)
            (close-Advances t.termination_id t (λ s. s.generation == t.generation)
              TerminationResult.complete now l v known waits (λ e. cc)
              (λ s e. ground (arith, v.linked t.termination_id t known)) (λ _. ground arith))
    ]

store_ack-Advances :
    (t : Termination) (ack : Ack) (reporter : Reporter) (result : AckResult)
    (error_code : Option String) (now : ℕ) (l : Ledger)
    → IsSound l
    → find_termination t.termination_id l ≡ some t
    → t.result ≡ TerminationResult.pending
    → is_inherited (find (is_ack t.termination_id ack) l.acks) ≡ false
    → Advances l (
        store_ack t ack reporter result error_code now
          (find (is_ack t.termination_id ack) l.acks)
          l)
unfolding store_ack
store_ack-Advances t ack reporter result error_code now l v known waits own =
    let report = ack_report t ack reporter result error_code now in
    let reports = upsert_report report l.reports in
    let l' : Ledger = record l {
      reports = reports;
      acks =
          write_ack t.termination_id ack (aggregate t.termination_id ack reports) now
            (find (is_ack t.termination_id ack) l.acks) l.acks;
    } in
    let (sound, evolves, keeps) = complete_if_all-Advances t now l' v known waits in
    (
      sound,
      evolves,
      λ ev. keeps (
          write-AckInv l.terminations l.acks l.reports ev report t now
            (find (is_ack t.termination_id ack) l.acks) known waits refl own),
    )

pub record_ack_tx-Keeps :
    (c : AckCall) (ack : Ack) (reporter : Reporter) (result : AckResult) (now : ℕ) (l : Ledger)
    → IsSound l
    → Keeps l (record_ack_tx c ack reporter result now l)
unfolding record_ack_tx
record_ack_tx-Keeps c ack reporter result now l v =
    context-Ensures _ c.termination_id l _ λ t s e _.
      guard-Ensures _ (not (same_termination_context c t s)) _ _ λ _.
        guard-Ensures _ (not (is_pending t.result)) _ _ λ h.
          guard-Ensures _ (is_inherited (find (is_ack t.termination_id ack) l.acks)) _ _ λ own.
            store_ack-Advances t ack reporter result c.error_code now l v
              (lookup_self (λ (t : Termination). t.termination_id) c.termination_id l.terminations t
                e)
              (pending_of_not t.result h) own

initial-Explained :
    (ts : List Termination) (s : Session) (st : State) → is_initial st ≡ true → Explained ts s st
initial-Explained ts s State.active h = tt
initial-Explained ts s State.signing h = tt
initial-Explained ts s State.entering h = tt
initial-Explained ts s State.terminating h = cc
initial-Explained ts s State.terminated h = cc
initial-Explained ts s State.termination_partial h = cc
initial-Explained ts s State.termination_timeout h = cc
initial-Explained ts s State.kws_ready h = cc

pub create_tx-Keeps :
    (session device room : String) (generation : ℕ) (state : State) (now : ℕ) (l : Ledger)
    → is_initial state ≡ true
    → IsSound l
    → Keeps l (create_session_tx session device room generation state now l)
unfolding create_session_tx
create_tx-Keeps session device room generation state now l init v =
    elim (Option-cases (find_session session l)) [
      | inl new ↦
          rw (new, create_session_tx)
            (
              fresh-Inv l.sessions l.terminations v
                  (fresh_session session device room generation state now) new
                  (initial-Explained l.terminations
                    (fresh_session session device room generation state now) state init),
              Evolves-cons l.sessions l.sessions
                  (fresh_session session device room generation state now) (Evolves-refl l.sessions)
                  new,
              λ ev. ev,
            )
      | inr (s, e) ↦
          rw (e, create_session_tx)
            (if_Ensures _ (same_context s device room generation) _ _ (λ _. stay l v) (λ _. tt))
    ]
