-- ===== src/ControlPlane/Invariant/Advances.antt =====
-- Opening and ending a termination advance the ledger.
use bosimao_release.Prelude.{ℕ, String, count, Bool, ◌∷◌, none, true, false, some, ◌≡◌, ◌≢◌, arith}
use bosimao_release.ControlPlane.Schema.{
  State, TerminationResult, Session, Termination, Ledger, find_session, find_termination,
  set_session_state, set_termination_result,
}
use bosimao_release.ControlPlane.Invariant.{Shape, Inv, IsSound}
use bosimao_release.ControlPlane.Lifecycle.{follows, Evolves, Evolves-set}
use bosimao_release.ControlPlane.Invariant.Explains.{final_state}
use bosimao_release.ControlPlane.Invariant.Close.{close-Inv}
use bosimao_release.ControlPlane.Invariant.Open.{open-Inv}
use bosimao_release.ControlPlane.Acks.{is_confirmed_ack}
use bosimao_release.ControlPlane.Evidence.Moves.{close-AckInv}
use bosimao_release.ControlPlane.Invariant.Keeps.{Advances}

final_follows :
    (r : TerminationResult) (st : State)
    → st ≡ State.terminating
    → follows st (final_state r) ≡ true
final_follows r st e = ground arith

abbrev pub may_terminate : State → Bool
may_terminate State.active = true
may_terminate State.termination_partial = true
may_terminate State.termination_timeout = true
may_terminate _ = false

terminating_follows : (st : State) → may_terminate st ≡ true → follows st State.terminating ≡ true
terminating_follows st h = ground arith

-- The end of a termination, with that of its session.
pub close-Advances :
    (k : String) (t : Termination) (p : Session → Bool) (r : TerminationResult) (now : ℕ)
    (l : Ledger)
    → IsSound l
    → find_termination k l ≡ some t
    → t.result ≡ TerminationResult.pending
    → r ≢ TerminationResult.pending
    → ((s : Session) → find_session t.session_id l ≡ some s → p s ≡ true)
    → (r ≡ TerminationResult.complete → count (is_confirmed_ack k) l.acks ≡ 5)
    → Advances l (record l {
      terminations = set_termination_result k r (final_state r) now l.terminations;
      sessions = set_session_state t.session_id p (final_state r) now l.sessions;
    })
close-Advances k t p r now l v known waits ends hits enough = (
  close-Inv l.sessions l.terminations v k t p r now known waits ends hits,
  Evolves-set l.sessions t.session_id p (final_state r) now
      λ s e _. final_follows r s.state (ground (arith, v.linked k t known)),
  λ ev. close-AckInv l.terminations l.acks l.reports ev k r (final_state r) now enough,
)

-- A termination is opened from a state that allows it.
pub open_advances :
    (t : Termination) (s : Session) (now : ℕ) (l : Ledger)
    → IsSound l
    → find_termination t.termination_id l ≡ none
    → t.result ≡ TerminationResult.pending
    → Shape t.result t.state t.terminal_at
    → find_session t.session_id l ≡ some s
    → t.generation ≡ s.generation
    → may_terminate s.state ≡ true
    → Inv
        (set_session_state t.session_id (λ _. true) State.terminating now l.sessions)
        (t ∷ l.terminations)
      × Evolves l.sessions
          (set_session_state t.session_id (λ _. true) State.terminating now l.sessions)
open_advances t s now l v fresh waits shaped known generation may = (
  open-Inv l.sessions l.terminations v t s now fresh waits shaped known generation (ground arith),
  Evolves-set l.sessions t.session_id (λ _. true) State.terminating now
      λ s' e _. ground (arith, terminating_follows s.state),
)
