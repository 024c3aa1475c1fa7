-- ===== src/ControlPlane/Acks/Calls.antt =====
-- The calls that record an acknowledgement and that end a termination without its five:
-- backend/app/voice/control_plane_ack.py.
use bosimao_release.Prelude.{
  ℕ, String, Bool, true, false, not, Option, none, some, ◌=ₛ◌, ◌==◌, ◌&&◌, if◌then◌else◌, find,
  Result, ok, err, ◌>>=◌, ◌>>◌, raise_if, or_raise,
}
use bosimao_release.ControlPlane.Schema.{
  State, TerminationResult, AckResult, Ack, Reporter, AckRow, Session, Termination, Ledger, Error,
  invalid_state, set_session_state, set_termination_result, commit,
}
use bosimao_release.ControlPlane.Sessions.{TerminationView, get_termination, is_ack}
use bosimao_release.ControlPlane.Acks.{
  complete_if_all, is_pending, parse_ack, parse_reporter, parse_result, store_ack,
  termination_context,
}

abbrev pub is_inherited : Option AckRow → Bool
is_inherited none = false
is_inherited (some a) = a.inherited

-- What a caller of `record_ack` reports.
pub record AckCall : Type 0 where
  pub termination_id : String
  pub session_id : String
  pub device_id : String
  pub room_id : String
  pub generation : ℕ
  pub acknowledgement : String
  pub reporter : String
  pub result : String
  pub error_code : Option String

abbrev pub same_termination_context : AckCall → Termination → Session → Bool
same_termination_context c t s =
    t.session_id =ₛ c.session_id
    && s.device_id =ₛ c.device_id
    && s.room_id =ₛ c.room_id
    && t.generation == c.generation

-- The transaction of `record_ack`.
unfoldable pub record_ack_tx :
    AckCall → Ack → Reporter → AckResult → ℕ → Ledger → Result Error (Unit {0} × Ledger)
record_ack_tx c ack reporter result now l = do
  (t, s) ← termination_context c.termination_id l
  raise_if (not (same_termination_context c t s)) (invalid_state 40901)
  raise_if (not (is_pending t.result)) (invalid_state 40901)
  let current = find (is_ack t.termination_id ack) l.acks
  raise_if (is_inherited current) (invalid_state 40901)
  ok (tt, store_ack t ack reporter result c.error_code now current l)

unfoldable pub parse_call : AckCall → Result Error (Ack × Reporter × AckResult)
parse_call c = do
  ack ← or_raise (parse_ack c.acknowledgement) (invalid_state 40901)
  reporter ← or_raise (parse_reporter ack c.reporter) (invalid_state 40901)
  result ← or_raise (parse_result c.result) (invalid_state 40901)
  ok (ack, reporter, result)

unfoldable pub record_ack : AckCall → ℕ → Ledger → Result Error TerminationView × Ledger
unfolding record_ack_tx store_ack complete_if_all parse_call
record_ack c now l = elim (parse_call c) [
  | err e ↦ (err e, l)
  | ok p ↦
      let (r, l') = commit (record_ack_tx c p.0 p.1 p.2 now l) l in
      ((r >> get_termination c.termination_id l'), l')
]

-- `result in {"partial", "timeout"}`, and the state that goes with it.
unfoldable pub parse_final : String → Option (TerminationResult × State)
parse_final s =
    if s =ₛ "partial"
    then some (TerminationResult.partial, State.termination_partial)
    else if s =ₛ "timeout"
    then some (TerminationResult.timeout, State.termination_timeout)
    else none

-- The transaction of `finish_termination`.
unfoldable pub finish_termination_tx :
    String → TerminationResult → State → ℕ → Ledger → Result Error (Unit {0} × Ledger)
finish_termination_tx k result state now l = do
  (t, s) ← termination_context k l
  raise_if (not (is_pending t.result)) (invalid_state 40916)
  ok (
    tt,
    record l {
      terminations = set_termination_result k result state now l.terminations;
      sessions = set_session_state t.session_id (λ _. true) state now l.sessions;
    },
  )

unfoldable pub finish_termination :
    String → String → ℕ → Ledger → Result Error TerminationView × Ledger
unfolding finish_termination_tx parse_final
finish_termination k result now l = elim (parse_final result) [
  | none ↦ (err (invalid_state 40916), l)
  | some f ↦
      let (r, l') = commit (finish_termination_tx k f.0 f.1 now l) l in
      ((r >> get_termination k l'), l')
]
