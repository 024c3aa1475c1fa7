-- ===== src/ControlPlane/Invariant/Explains.antt =====
-- How a state stays explained by the terminations of its session.
use bosimao_release.Prelude.{◌≡◌, List}
use bosimao_release.ControlPlane.Schema.{State, TerminationResult, Session, Termination}
use bosimao_release.ControlPlane.Invariant.{HasTermination, Explained}

-- The session state that goes with a final result.
abbrev pub final_state : TerminationResult → State
final_state TerminationResult.pending = State.terminating
final_state TerminationResult.complete = State.terminated
final_state TerminationResult.partial = State.termination_partial
final_state TerminationResult.timeout = State.termination_timeout

pub Explained-map :
    (ts us : List Termination) (s s' : Session) (st : State)
    → s'.session_id ≡ s.session_id
    → s'.generation ≡ s.generation
    → ((q : TerminationResult)
        → HasTermination ts s.session_id s.generation q
        → HasTermination us s.session_id s.generation q)
    → Explained ts s st
    → Explained us s' st
Explained-map ts us s s' State.active a b f h = tt
Explained-map ts us s s' State.signing a b f h = tt
Explained-map ts us s s' State.entering a b f h = tt
Explained-map ts us s s' State.terminating a b f h = rw (a, b) (f _ h)
Explained-map ts us s s' State.terminated a b f h = rw (a, b) (f _ h)
Explained-map ts us s s' State.termination_partial a b f h = rw (a, b) (f _ h)
Explained-map ts us s s' State.termination_timeout a b f h = rw (a, b) (f _ h)
Explained-map ts us s s' State.kws_ready a b f h = rw (a, b) (f _ h)

pub Explained-final :
    (ts : List Termination) (s : Session) (r : TerminationResult)
    → HasTermination ts s.session_id s.generation r
    → Explained ts s (final_state r)
Explained-final ts s TerminationResult.pending h = h
Explained-final ts s TerminationResult.complete h = h
Explained-final ts s TerminationResult.partial h = h
Explained-final ts s TerminationResult.timeout h = h
