-- ===== src/ControlPlane/Invariant.antt =====
-- What every history of ledger calls keeps of the sessions and their terminations.
pub mod Explains
pub mod Close
pub mod Open
pub mod Keeps
pub mod Advances
pub mod Steps
pub mod Passes
pub mod Calls
use mathlib.Core.Option
use bosimao_release.Prelude.{
  ℕ, String, Bool, true, Option, none, some, List, ◌=ₛ◌, ◌≡◌, ◌≢◌, refl, if◌then◌else◌,
  lookup-update,
}
use bosimao_release.ControlPlane.Schema.{
  State, TerminationResult, Session, Termination, Ledger, session_at, termination_at,
  set_session_state, set_termination_result, with_state, with_result,
}

-- The result, the state and the final time of a termination fit one another.
abbrev pub Shape : TerminationResult → State → Option ℕ → Type 0
Shape TerminationResult.pending st at = (st ≡ State.terminating) × (at ≡ none)
Shape TerminationResult.complete st at = (st ≡ State.terminated) × (at ≢ none)
Shape TerminationResult.partial st at = (st ≡ State.termination_partial) × (at ≢ none)
Shape TerminationResult.timeout st at = (st ≡ State.termination_timeout) × (at ≢ none)

-- A pending termination holds its session in TERMINATING.
abbrev pub Holds : TerminationResult → State → Type 0
Holds TerminationResult.pending st = st ≡ State.terminating
Holds TerminationResult.complete st = Unit
Holds TerminationResult.partial st = Unit
Holds TerminationResult.timeout st = Unit

abbrev pub Linked : Termination → Option Session → Type 0
Linked t none = ⊥
Linked t (some s) = (t.generation ≡ s.generation) × Holds t.result s.state

-- Some termination of the session has this result.
abbrev pub HasTermination : List Termination → String → ℕ → TerminationResult → Type 0
HasTermination ts session generation r =
    (j : String) × (t : Termination) × (termination_at j ts ≡ some t)
    × (t.session_id ≡ session)
    × (t.generation ≡ generation)
    × (t.result ≡ r)

-- What a session's state says of its terminations.
abbrev pub Explained : List Termination → Session → State → Type 0
Explained ts s State.terminating =
    HasTermination ts s.session_id s.generation TerminationResult.pending
Explained ts s State.terminated =
    HasTermination ts s.session_id s.generation TerminationResult.complete
Explained ts s State.kws_ready =
    HasTermination ts s.session_id s.generation TerminationResult.complete
Explained ts s State.termination_partial =
    HasTermination ts s.session_id s.generation TerminationResult.partial
Explained ts s State.termination_timeout =
    HasTermination ts s.session_id s.generation TerminationResult.timeout
Explained ts s State.active = Unit
Explained ts s State.signing = Unit
Explained ts s State.entering = Unit

pub record Inv (ss : List Session) (ts : List Termination) : Type 0 where
  pub shape :
      (k : String) (t : Termination)
      → termination_at k ts ≡ some t
      → Shape t.result t.state t.terminal_at
  pub linked :
      (k : String) (t : Termination)
      → termination_at k ts ≡ some t
      → Linked t (session_at t.session_id ss)
  pub one_open :
      (j k : String) (t u : Termination)
      → termination_at j ts ≡ some t
      → termination_at k ts ≡ some u
      → t.result ≡ TerminationResult.pending
      → u.result ≡ TerminationResult.pending
      → t.session_id ≡ u.session_id
      → j ≡ k
  pub explained : (k : String) (s : Session) → session_at k ss ≡ some s → Explained ts s s.state

abbrev pub IsSound : Ledger → Type 0
IsSound l = Inv l.sessions l.terminations

pub session_at-set :
    (k : String) (p : Session → Bool) (state : State) (now : ℕ) (ss : List Session) (j : String)
    → session_at j (set_session_state k p state now ss) ≡ (
        if k =ₛ j
        then Option.map (λ s. if p s then with_state state now s else s) (session_at j ss)
        else session_at j ss)
session_at-set k p state now ss j =
    lookup-update (λ (s : Session). s.session_id) p (with_state state now) k j ss (λ _. refl)

pub termination_at-set :
    (k : String) (r : TerminationResult) (state : State) (now : ℕ) (ts : List Termination)
    (j : String)
    → termination_at j (set_termination_result k r state now ts) ≡ (
        if k =ₛ j
        then Option.map (with_result r state now) (termination_at j ts)
        else termination_at j ts)
termination_at-set k r state now ts j =
    lookup-update (λ (t : Termination). t.termination_id) (λ _. true) (with_result r state now) k j
      ts (λ _. refl)
