-- ===== src/RtcBridge/Drain.antt =====
-- The drain reports of one connection: backend/rtc_bridge/drain_ack.py. The fields of a JSON message
-- are text, or something else.
pub mod Once
use Prim.Native.String.{count as length_of}
use bosimao_release.Prelude.{
  ℕ, String, Bool, true, false, not, Option, none, some, List, [], ◌∷◌, ◌++◌, ◌=ₛ◌, ◌&&◌, ◌||◌, ltb,
  if◌then◌else◌,
}

-- A termination that is known for a session.
abbrev pub Terminations : Type 0
Terminations = List (String × String)

-- `MAX_TERMINATION_ID_LEN` and `MAX_SESSION_ID_LEN`
abbrev pub max_termination_id_len : ℕ
max_termination_id_len = 128

abbrev pub max_session_id_len : ℕ
max_session_id_len = 64

abbrev pub set_termination : String → String → Terminations → Terminations
set_termination session termination [] = (session, termination) ∷ []
set_termination session termination (t ∷ ts) =
    if t.0 =ₛ session
    then (session, termination) ∷ ts
    else t ∷ set_termination session termination ts

-- `TerminationRegistry.get`
abbrev pub get_termination : String → Terminations → Option String
get_termination session [] = none
get_termination session (t ∷ ts) = if t.0 =ₛ session then some t.1 else get_termination session ts

abbrev pub is_bad_pair : String → String → Bool
is_bad_pair session termination =
    session =ₛ ""
    || termination =ₛ ""
    || ltb max_session_id_len (length_of session)
    || ltb max_termination_id_len (length_of termination)

-- `TerminationRegistry.note`
unfoldable pub note : String → String → Terminations → Bool × Terminations
note session termination ts =
    if is_bad_pair session termination
    then (false, ts)
    else (true, set_termination session termination ts)

-- A message from the sidecar: a JSON object, with the fields that are text, or anything else.
pub data Message : Type 0 where
  object : List (String × Option String) → Message
  other : Message

abbrev pub field : String → List (String × Option String) → Option String
field k [] = none
field k (f ∷ fs) = if f.0 =ₛ k then f.1 else field k fs

abbrev pub is_text : String → Option String → Bool
is_text s none = false
is_text s (some t) = t =ₛ s

abbrev pub both : Option String → Option String → Option (String × String)
both (some s) (some t) = some (s, t)
both _ _ = none

-- `parse_note_termination`
unfoldable pub parse_note_termination : Message → Option (String × String)
parse_note_termination other = none
parse_note_termination (object fields) =
    if not (is_text "ctrl" (field "type" fields))
      || not (is_text "note_termination" (field "action" fields))
    then none
    else elim (both (field "session_id" fields) (field "termination_id" fields)) [
      | none ↦ none
      | some p ↦ if is_bad_pair p.0 p.1 then none else some p
    ]

-- What `DrainAcknowledger` tells the reporter.
pub data Kind : Type 0 where
  drained_closed apm_cancelled_closed : Kind

pub record Report : Type 0 where
  pub kind : Kind
  pub termination_id : String
  pub session_id : String
  pub device_id : String
  pub room_id : String
  pub generation : ℕ
  pub result : String
  pub error_code : Option String

pub record Acknowledger : Type 0 where
  pub session_id : String
  pub device_id : String
  pub room_id : String
  pub generation : ℕ
  pub has_reporter : Bool
  pub terminations : Terminations
  pub reported : Bool
  pub apm_reported : Bool

-- `bind`
abbrev pub bind : String → Acknowledger → Acknowledger
bind termination a = record a {
  terminations = set_termination a.session_id termination a.terminations;
}

abbrev pub report : Acknowledger → Kind → String → Bool → String → Report
report a kind termination closed_cleanly error_code = record {
  kind = kind;
  termination_id = termination;
  session_id = a.session_id;
  device_id = a.device_id;
  room_id = a.room_id;
  generation = a.generation;
  result = if closed_cleanly then "confirmed" else "failed";
  error_code = if closed_cleanly then none else some error_code;
}

-- `if not termination_id`
abbrev pub full : Option String → Option String
full none = none
full (some s) = if s =ₛ "" then none else some s

-- `error_code or "bridge_session_close_failed"`
abbrev pub drain_error : Option String → String
drain_error none = "bridge_session_close_failed"
drain_error (some s) = if s =ₛ "" then "bridge_session_close_failed" else s

-- `report_drain`: what is sent, if anything. A failure to send is logged and changes nothing.
unfoldable pub report_drain : Bool → Option String → Acknowledger → Option Report × Acknowledger
report_drain closed_cleanly error_code a =
    if a.reported || not a.has_reporter
    then (none, a)
    else elim (full (get_termination a.session_id a.terminations)) [
      | none ↦ (none, a)
      | some t ↦ (
        some (report a Kind.drained_closed t closed_cleanly (drain_error error_code)),
        record a { reported = true },
      )
    ]

-- `report_apm_cancel`
unfoldable pub report_apm_cancel : Bool → Acknowledger → Option Report × Acknowledger
report_apm_cancel closed_cleanly a =
    if a.apm_reported || not a.has_reporter
    then (none, a)
    else elim (full (get_termination a.session_id a.terminations)) [
      | none ↦ (none, a)
      | some t ↦ (
        some (report a Kind.apm_cancelled_closed t closed_cleanly "apm_close_failed"),
        record a { apm_reported = true },
      )
    ]

pub data Call : Type 0 where
  bound : String → Call
  drained : Bool → Option String → Call
  apm_cancelled : Bool → Call

unfoldable pub step : Acknowledger → Call → Option Report × Acknowledger
step a (bound termination) = (none, bind termination a)
step a (drained closed_cleanly error_code) = report_drain closed_cleanly error_code a
step a (apm_cancelled closed_cleanly) = report_apm_cancel closed_cleanly a

abbrev pub with_report : Option Report → List Report → List Report
with_report none rs = rs
with_report (some r) rs = r ∷ rs

-- The reports that any sequence of calls sends.
unfoldable pub reports : Acknowledger → List Call → List Report
reports a [] = []
reports a (c ∷ cs) = (let (r, a') = step a c in with_report r (reports a' cs))
