-- ===== src/ControlPlane/Kws.antt =====
-- Readiness for the next wake word: backend/app/voice/control_plane_kws.py.
use bosimao_release.Prelude.{
  ℕ, String, Bool, true, false, Option, none, some, List, [], ◌∷◌, ◌=ₛ◌, ◌==◌, ◌&&◌, if◌then◌else◌,
  find, count,
}
use bosimao_release.ControlPlane.Payload.{Payload}
use bosimao_release.ControlPlane.Schema.{
  State, TerminationResult, Session, Termination, Readiness, Ledger, set_session_state,
}

abbrev pub is_terminated : State → Bool
is_terminated State.terminated = true
is_terminated _ = false

abbrev pub is_complete : TerminationResult → Bool
is_complete TerminationResult.complete = true
is_complete _ = false

-- A completed termination of the session's generation.
abbrev pub is_completion : String → ℕ → Termination → Bool
is_completion session generation t =
    t.session_id =ₛ session
    && t.generation == generation
    && is_complete t.result
    && is_terminated t.state

abbrev pub is_ended : String → ℕ → Session → Bool
is_ended session generation s =
    s.session_id =ₛ session && s.generation == generation && is_terminated s.state

abbrev pub found {ℓ} : {A : Type ℓ} → Option A → Bool
found none = false
found (some _) = true

unfoldable pub can_enter_kws_ready : String → ℕ → Ledger → Bool
can_enter_kws_ready session generation l =
    found (find (is_ended session generation) l.sessions)
    && found (find (is_completion session generation) l.terminations)

-- `INSERT … ON CONFLICT (session_id, generation, reporter) DO UPDATE`
unfoldable pub upsert_readiness : Readiness → List Readiness → List Readiness
upsert_readiness new [] = new ∷ []
upsert_readiness new (r ∷ rs) =
    if r.session_id =ₛ new.session_id
      && r.generation == new.generation
      && r.reporter =ₛ new.reporter
    then record r {
      evidence = new.evidence;
      recorded_at = new.recorded_at;
      updated_at = new.updated_at;
    }
      ∷ rs
    else r ∷ upsert_readiness new rs

-- The evidence is scalar by its type. The result says whether the update met exactly one row.
unfoldable pub mark_kws_ready : String → ℕ → String → Payload → ℕ → Ledger → Bool × Ledger
mark_kws_ready session generation reporter evidence now l =
    if can_enter_kws_ready session generation l
    then (
      count (is_ended session generation) l.sessions == 1,
      record l {
        readiness = upsert_readiness entry l.readiness;
        sessions =
            set_session_state session (λ s. s.generation == generation && is_terminated s.state)
              State.kws_ready now l.sessions;
      },
    )
    else (false, l)
  where
    entry : Readiness
    entry = record {
      session_id = session;
      generation = generation;
      reporter = reporter;
      evidence = evidence;
      recorded_at = now;
      updated_at = now;
    }
