-- ===== src/RtcBridge/AckReporter/Reports.antt =====
-- A report is sent only when its result and its code fit.
use bosimao_release.Prelude.{
  ◌≡◌, refl, String, false, Option, none, some, [], ◌∷◌, arith, inl, inr, ◌⊎◌, Result-cases, ok,
  err,
}
use bosimao_release.Voice.Jwt.{Claims}
use bosimao_release.RtcBridge.AckReporter.{
  AckReportError, Report, AckReply, is_blank_code, has_code, report_payload, check_report, post,
  read_reply,
}

-- A confirmed report without a code, or a failed one with a code that is not empty.
abbrev pub IsCoherent : Report → Type 0
IsCoherent r =
    ((r.result ≡ "confirmed") × (r.error_code ≡ none))
    ⊎ ((r.result ≡ "failed") × (is_blank_code r.error_code ≡ false))

has_code_lem : (o : Option String) → has_code o ≡ false → o ≡ none
has_code_lem none e = refl
has_code_lem (some code) e = absurd (ground arith)

check_report-IsCoherent : (r : Report) → check_report r ≡ ok tt → IsCoherent r
unfolding check_report
check_report-IsCoherent r e = ground (arith, has_code_lem r.error_code)

-- A report goes out as one request with its own fields just when the check passes, which then says that
-- it is coherent; a report that does not pass is refused, and nothing is sent.
pub post-IsCoherent :
    (send : Claims → AckReply) (now acknowledgement : String) (r : Report)
    → (IsCoherent r
        × ((post send now acknowledgement r).1 ≡ report_payload now acknowledgement r ∷ [])
        × ((post send now acknowledgement r).0
            ≡ read_reply (send (report_payload now acknowledgement r))))
      ⊎ (((post send now acknowledgement r).1 ≡ [])
          × (e : AckReportError) × ((post send now acknowledgement r).0 ≡ err e))
unfolding post
post-IsCoherent send now acknowledgement r = elim (Result-cases (check_report r)) [
  | inl (x, e) ↦ inr (ground arith, x, ground arith)
  | inr (u, e) ↦ inl (check_report-IsCoherent r e, ground arith, ground arith)
]
