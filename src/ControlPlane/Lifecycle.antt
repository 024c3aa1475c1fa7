-- ===== src/ControlPlane/Lifecycle.antt =====
-- The life of a session as a state machine: which state may follow which, over all the calls of
-- the ledger, and how a table of sessions evolves along it.
use bosimao_release.Prelude.{
  ℕ, String, Bool, true, false, Option, none, some, List, ◌∷◌, ◌≡◌, arith,
}
use bosimao_release.ControlPlane.Schema.{State, Session, session_at, set_session_state}
use bosimao_release.ControlPlane.Invariant.{session_at-set}

-- The states that may follow a state in one call, itself among them.
abbrev pub follows : State → State → Bool
follows State.signing State.signing = true
follows State.signing State.entering = true
follows State.entering State.entering = true
follows State.entering State.active = true
follows State.active State.active = true
follows State.active State.terminating = true
follows State.terminating State.terminating = true
follows State.terminating State.terminated = true
follows State.terminating State.termination_partial = true
follows State.terminating State.termination_timeout = true
follows State.termination_partial State.termination_partial = true
follows State.termination_partial State.terminating = true
follows State.termination_timeout State.termination_timeout = true
follows State.termination_timeout State.terminating = true
follows State.terminated State.terminated = true
follows State.terminated State.kws_ready = true
follows State.kws_ready State.kws_ready = true
follows State.kws_ready State.signing = true
follows _ _ = false

-- The session is still there, with the same identity, in a state that may follow.
abbrev pub Continues : Session → Option Session → Type 0
Continues s none = ⊥
Continues s (some s') =
    (s'.session_id ≡ s.session_id)
    × (s'.device_id ≡ s.device_id)
    × (s'.room_id ≡ s.room_id)
    × (s'.generation ≡ s.generation)
    × (follows s.state s'.state ≡ true)

abbrev pub Evolves : List Session → List Session → Type 0
Evolves ss ss' =
    (k : String) (s : Session) → session_at k ss ≡ some s → Continues s (session_at k ss')

follows_refl : (st : State) → follows st st ≡ true
follows_refl st = ground arith

pub Evolves-refl : (ss : List Session) → Evolves ss ss
Evolves-refl ss k s e = ground (arith, follows_refl s.state)

pub Evolves-set :
    (ss : List Session) (k : String) (p : Session → Bool) (st : State) (now : ℕ)
    → ((s : Session) → session_at k ss ≡ some s → p s ≡ true → follows s.state st ≡ true)
    → Evolves ss (set_session_state k p st now ss)
Evolves-set ss k p st now may j s e =
    ground (arith, session_at-set k p st now ss j, may s, follows_refl s.state)

pub Evolves-cons :
    (ss ss' : List Session) (s : Session)
    → Evolves ss ss'
    → session_at s.session_id ss' ≡ none
    → Evolves ss (s ∷ ss')
Evolves-cons ss ss' s ev new k u e = ground (arith, ev k u e)
