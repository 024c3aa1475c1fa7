-- ===== src/RtcBridge/AckReporter.antt =====
-- The client that reports acknowledgements to the control plane: backend/rtc_bridge/ack_reporter.py.
pub mod Reports
use bosimao_release.Prelude.{
  ℕ, String, Bool, true, false, not, Option, none, some, List, [], ◌∷◌, ◌++◌, ◌&&◌, ◌||◌, ◌=ₛ◌,
  ◌==◌, if◌then◌else◌, Result, ok, err, ◌>>=◌, ◌>>◌, raise_if, or_raise,
}
use bosimao_release.Voice.Jwt.{Claim, text, int, Claims}
use bosimao_release.RtcBridge.Redemption.{is_zero}

-- The `AckReportError`s, and the `AttributeError` of a body that is no object.
pub data AckReportError : Type 0 where
  invalid_result code_required code_omitted transport_failed rejected invalid_response :
      AckReportError
  attribute_error : AckReportError

-- What a report says.
pub record Report : Type 0 where
  pub termination_id : String
  pub session_id : String
  pub device_id : String
  pub room_id : String
  pub generation : ℕ
  pub result : String
  pub error_code : Option String

-- The body of a response: not JSON, no object, or its code and its `data`, with `none` for one that is
-- no object.
pub data AckBody : Type 0 where
  unreadable no_object : AckBody
  ack_body : Option Claim → Option Claims → AckBody

-- What the request meets.
pub data AckReply : Type 0 where
  http_error : AckReply
  response : ℕ → AckBody → AckReply

abbrev pub bridge_drained_closed : String
bridge_drained_closed = "bridge_drained_closed"

abbrev pub apm_cancelled_closed : String
apm_cancelled_closed = "apm_cancelled_closed"

abbrev pub is_blank_code : Option String → Bool
is_blank_code none = true
is_blank_code (some code) = code =ₛ ""

abbrev pub has_code : Option String → Bool
has_code none = false
has_code (some code) = true

abbrev pub code_field : Option String → Claims
code_field none = []
code_field (some code) = ("error_code", text code) ∷ []

-- The JSON of the request; `now` is the time as a text.
abbrev pub report_payload : String → String → Report → Claims
report_payload now acknowledgement r =
    ("acknowledgement", text acknowledgement)
    ∷ ("result", text r.result)
    ∷ ("session_id", text r.session_id)
    ∷ ("device_id", text r.device_id)
    ∷ ("room_id", text r.room_id)
    ∷ ("generation", int r.generation)
    ∷ ("reported_at", text now)
    ∷ code_field r.error_code

abbrev pub data_or_empty : Option Claims → Claims
data_or_empty none = []
data_or_empty (some found) = found

abbrev pub read_ack : AckBody → Result AckReportError Claims
read_ack unreadable = err invalid_response
read_ack no_object = err attribute_error
read_ack (ack_body code found) = if is_zero code then ok (data_or_empty found) else err rejected

abbrev pub read_reply : AckReply → Result AckReportError Claims
read_reply http_error = err transport_failed
read_reply (response status b) = if status == 200 || status == 202 then read_ack b else err rejected

unfoldable pub check_report : Report → Result AckReportError (Unit {0})
check_report r = do
  raise_if (not (r.result =ₛ "confirmed" || r.result =ₛ "failed")) invalid_result
  raise_if (r.result =ₛ "failed" && is_blank_code r.error_code) code_required
  raise_if (r.result =ₛ "confirmed" && has_code r.error_code) code_omitted
  ok tt

abbrev pub post_checked :
    (Claims → AckReply)
    → Claims
    → Result AckReportError (Unit {0})
    → Result AckReportError Claims × List Claims
post_checked send payload (err e) = (err e, [])
post_checked send payload (ok u) = (read_reply (send payload), payload ∷ [])

-- `_post`: its result, and the requests that it sent.
unfoldable pub post :
    (Claims → AckReply) → String → String → Report → Result AckReportError Claims × List Claims
post send now acknowledgement r =
    post_checked send (report_payload now acknowledgement r) (check_report r)

abbrev pub report_drained_closed :
    (Claims → AckReply) → String → Report → Result AckReportError Claims × List Claims
report_drained_closed send now r = post send now bridge_drained_closed r

abbrev pub report_apm_cancelled_closed :
    (Claims → AckReply) → String → Report → Result AckReportError Claims × List Claims
report_apm_cancelled_closed send now r = post send now apm_cancelled_closed r
