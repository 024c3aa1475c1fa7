-- ===== src/ControlPlane/Acks.antt =====
-- Acknowledgements and the end of a termination: backend/app/voice/control_plane_ack.py, with
-- `_termination_context` and the reporters of control_plane_base.py.
pub mod Calls
use bosimao_release.Prelude.{
  ℕ, String, Bool, true, false, not, Option, none, some, List, [], ◌∷◌, ◌=ₛ◌, ◌==◌, ◌&&◌,
  if◌then◌else◌, find, update, any, all, keep, count, Result, ok, err, ◌>>=◌, ◌>>◌, raise_if,
  or_raise,
}
use bosimao_release.ControlPlane.Schema.{
  State, TerminationResult, AckResult, Ack, Reporter, AckRow, AckReport, Session, Termination,
  Ledger, Error, invalid_state, find_session, find_termination, set_session_state,
  set_termination_result, commit, same_ack, same_reporter,
}
use bosimao_release.ControlPlane.Sessions.{TerminationView, get_termination, is_ack}

abbrev pub ack_name : Ack → String
ack_name Ack.android_trtc_left = "android_trtc_left"
ack_name Ack.sidecar_trtc_left = "sidecar_trtc_left"
ack_name Ack.bridge_drained_closed = "bridge_drained_closed"
ack_name Ack.apm_cancelled_closed = "apm_cancelled_closed"
ack_name Ack.brain_turns_sealed = "brain_turns_sealed"

-- `ACKNOWLEDGEMENTS`
abbrev pub acknowledgements : List Ack
acknowledgements =
    Ack.android_trtc_left ∷ Ack.sidecar_trtc_left ∷ Ack.bridge_drained_closed
    ∷ Ack.apm_cancelled_closed ∷ Ack.brain_turns_sealed ∷ []

abbrev pub reporter_name : Reporter → String
reporter_name Reporter.android = "android"
reporter_name Reporter.sidecar = "sidecar"
reporter_name Reporter.rtc_bridge = "rtc_bridge"
reporter_name Reporter.brain = "brain"

-- `ACK_REPORTERS`
abbrev pub ack_reporters : Ack → List Reporter
ack_reporters Ack.android_trtc_left = Reporter.android ∷ []
ack_reporters Ack.sidecar_trtc_left = Reporter.sidecar ∷ []
ack_reporters Ack.bridge_drained_closed = Reporter.sidecar ∷ Reporter.rtc_bridge ∷ []
ack_reporters Ack.apm_cancelled_closed = Reporter.rtc_bridge ∷ []
ack_reporters Ack.brain_turns_sealed = Reporter.brain ∷ []

-- `acknowledgement in ACK_REPORTERS`, `reporter in ACK_REPORTERS[…]`, `result in {…}`.
unfoldable pub parse_ack : String → Option Ack
parse_ack s = find (λ a. ack_name a =ₛ s) acknowledgements

unfoldable pub parse_reporter : Ack → String → Option Reporter
parse_reporter ack s = find (λ r. reporter_name r =ₛ s) (ack_reporters ack)

unfoldable pub parse_result : String → Option AckResult
parse_result s =
    if s =ₛ "confirmed"
    then some AckResult.confirmed
    else if s =ₛ "failed"
    then some AckResult.failed
    else none

abbrev pub is_report : String → Ack → AckReport → Bool
is_report termination ack r = r.termination_id =ₛ termination && same_ack r.acknowledgement ack

abbrev pub is_failed : AckResult → Bool
is_failed AckResult.failed = true
is_failed _ = false

abbrev pub is_confirmed : AckResult → Bool
is_confirmed AckResult.confirmed = true
is_confirmed _ = false

abbrev pub is_pending : TerminationResult → Bool
is_pending TerminationResult.pending = true
is_pending _ = false

-- `latest.get(reporter) == "confirmed"`
abbrev pub has_confirmed : List AckReport → Reporter → Bool
has_confirmed reports reporter =
    elim (find (λ (r : AckReport). same_reporter r.reporter reporter) reports) [
      | none ↦ false
      | some r ↦ is_confirmed r.result
    ]

-- `_aggregate_ack_result`. The rows are one to a reporter, by the primary key.
unfoldable pub aggregate : String → Ack → List AckReport → AckResult
aggregate termination ack reports =
    let latest = keep (is_report termination ack) reports in
    if any (λ (r : AckReport). is_failed r.result) latest
    then AckResult.failed
    else if all (has_confirmed latest) (ack_reporters ack)
    then AckResult.confirmed
    else AckResult.pending

-- `INSERT … ON CONFLICT (termination_id, acknowledgement, reporter) DO UPDATE`
unfoldable pub upsert_report : AckReport → List AckReport → List AckReport
upsert_report new [] = new ∷ []
upsert_report new (r ∷ rs) =
    if is_report new.termination_id new.acknowledgement r && same_reporter r.reporter new.reporter
    then record r {
      result = new.result;
      error_code = new.error_code;
      reported_at = new.reported_at;
      updated_at = new.updated_at;
    }
      ∷ rs
    else r ∷ upsert_report new rs

-- `INSERT`, or `UPDATE … SET result, updated_at`, of the acknowledgement itself.
unfoldable pub write_ack : String → Ack → AckResult → ℕ → Option AckRow → List AckRow → List AckRow
write_ack termination ack result now none acks =
    record {
      termination_id = termination;
      acknowledgement = ack;
      result = result;
      inherited = false;
      created_at = now;
      updated_at = now;
    }
    ∷ acks
write_ack termination ack result now (some _) acks =
    update (is_ack termination ack) (λ a. record a { result = result; updated_at = now }) acks

abbrev pub is_confirmed_ack : String → AckRow → Bool
is_confirmed_ack termination a = a.termination_id =ₛ termination && is_confirmed a.result

-- `_termination_context`: the termination joined with its session.
unfoldable pub termination_context : String → Ledger → Result Error (Termination × Session)
termination_context k l = do
  t ← or_raise (find_termination k l) (invalid_state 40403)
  s ← or_raise (find_session t.session_id l) (invalid_state 40403)
  ok (t, s)

-- When all five are confirmed, the termination is complete and its session terminated.
unfoldable pub complete_if_all : Termination → ℕ → Ledger → Ledger
complete_if_all t now l =
    if count (is_confirmed_ack t.termination_id) l.acks == 5
    then record l {
      terminations =
          set_termination_result t.termination_id TerminationResult.complete State.terminated now
            l.terminations;
      sessions =
          set_session_state t.session_id (λ s. s.generation == t.generation) State.terminated now
            l.sessions;
    }
    else l

-- A report, as it is inserted.
abbrev pub ack_report : Termination → Ack → Reporter → AckResult → Option String → ℕ → AckReport
ack_report t ack reporter result error_code now = record {
  termination_id = t.termination_id;
  acknowledgement = ack;
  reporter = reporter;
  result = result;
  error_code = error_code;
  reported_at = now;
  created_at = now;
  updated_at = now;
}

-- The writes of `record_ack`, once its checks have passed.
unfoldable pub store_ack :
    Termination → Ack → Reporter → AckResult → Option String → ℕ → Option AckRow → Ledger → Ledger
store_ack t ack reporter result error_code now current l =
    let reports = upsert_report (ack_report t ack reporter result error_code now) l.reports in
    complete_if_all t now (record l {
      reports = reports;
      acks =
          write_ack t.termination_id ack (aggregate t.termination_id ack reports) now current
            l.acks;
    })
