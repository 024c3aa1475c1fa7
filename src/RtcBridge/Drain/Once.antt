-- ===== src/RtcBridge/Drain/Once.antt =====
-- A connection reports each end once, for its own session.
use bosimao_release.Prelude.{
  ℕ, ◌≤◌, String, Bool, true, false, not, Option, none, some, List, [], ◌∷◌, ◌≡◌, arith,
  if◌then◌else◌, count, All, ◌⊎◌, Option-cases, inl, inr, refl, subst, ◌∙◌, ◌=ₛ◌,
}
use bosimao_release.RtcBridge.Drain.{
  Kind, Report, report, full, drain_error, Acknowledger, Call, report_drain, report_apm_cancel,
  bound, drained, apm_cancelled, step, with_report, reports, Message, object, other,
  parse_note_termination, note, Terminations, get_termination, set_termination, is_bad_pair,
}

abbrev pub is_drain : Report → Bool
is_drain r = elim r.kind [ Kind.drained_closed ↦ true | Kind.apm_cancelled_closed ↦ false ]

abbrev pub is_apm : Report → Bool
is_apm r = not (is_drain r)

-- A report of the connection's session, whose error goes with its result.
abbrev pub IsOf : Acknowledger → Report → Type 0
IsOf a r =
    (r.session_id ≡ a.session_id)
    × (r.device_id ≡ a.device_id)
    × (r.room_id ≡ a.room_id)
    × (r.generation ≡ a.generation)
    × (((r.result ≡ "confirmed") × (r.error_code ≡ none))
        ⊎ ((r.result ≡ "failed") × ((e : String) × (r.error_code ≡ some e))))

abbrev left_of : Bool → ℕ
left_of b = if b then 0 else 1

step_once :
    (a : Acknowledger) (c : Call) (rs : List Report)
    → let (r, a') = step a c in
      (count is_drain rs ≤ left_of a'.reported
        → count is_drain (with_report r rs) ≤ left_of a.reported)
unfolding step report_drain report_apm_cancel
step_once a (bound t) rs h = ground arith
step_once a (drained clean error) rs h = ground arith
step_once a (apm_cancelled clean) rs h = ground arith

step_once_apm :
    (a : Acknowledger) (c : Call) (rs : List Report)
    → let (r, a') = step a c in
      (count is_apm rs ≤ left_of a'.apm_reported
        → count is_apm (with_report r rs) ≤ left_of a.apm_reported)
unfolding step report_drain report_apm_cancel
step_once_apm a (bound t) rs h = ground arith
step_once_apm a (drained clean error) rs h = ground arith
step_once_apm a (apm_cancelled clean) rs h = ground arith

drains_left :
    (a : Acknowledger) (cs : List Call) → count is_drain (reports a cs) ≤ left_of a.reported
unfolding reports
drains_left a [] = ground arith
drains_left a (c ∷ cs) = step_once a c (reports (step a c).1 cs) (drains_left (step a c).1 cs)

apms_left :
    (a : Acknowledger) (cs : List Call) → count is_apm (reports a cs) ≤ left_of a.apm_reported
unfolding reports
apms_left a [] = ground arith
apms_left a (c ∷ cs) = step_once_apm a c (reports (step a c).1 cs) (apms_left (step a c).1 cs)

abbrev SameIdentity : Acknowledger → Acknowledger → Type 0
SameIdentity a b =
    (a.session_id ≡ b.session_id)
    × (a.device_id ≡ b.device_id)
    × (a.room_id ≡ b.room_id)
    × (a.generation ≡ b.generation)

step_same : (a : Acknowledger) (c : Call) → SameIdentity (step a c).1 a
unfolding step report_drain report_apm_cancel
step_same a (bound t) = ground arith
step_same a (drained clean error) = ground arith
step_same a (apm_cancelled clean) = ground arith

report-IsOf :
    (a : Acknowledger) (k : Kind) (t : String) (clean : Bool) (error : String)
    → IsOf a (report a k t clean error)
report-IsOf a k t true error = (refl, refl, refl, refl, inl (refl, refl))
report-IsOf a k t false error = (refl, refl, refl, refl, inr (refl, (error, refl)))

step-IsOf : (a : Acknowledger) (c : Call) (r : Report) → (step a c).0 ≡ some r → IsOf a r
unfolding step report_drain report_apm_cancel
step-IsOf a (bound t) r e = absurd (ground arith)
step-IsOf a (drained clean error) r e =
    elim (Option-cases (full (get_termination a.session_id a.terminations))) [
      | inl gone ↦ absurd (ground arith)
      | inr (t, f) ↦
          let sent : report a Kind.drained_closed t clean (drain_error error) ≡ r = ground arith in
          subst (IsOf a) sent (report-IsOf a Kind.drained_closed t clean (drain_error error))
    ]
step-IsOf a (apm_cancelled clean) r e =
    elim (Option-cases (full (get_termination a.session_id a.terminations))) [
      | inl gone ↦ absurd (ground arith)
      | inr (t, f) ↦
          let sent : report a Kind.apm_cancelled_closed t clean "apm_close_failed" ≡ r =
            ground arith in
          subst (IsOf a) sent (report-IsOf a Kind.apm_cancelled_closed t clean "apm_close_failed")
    ]

IsOf-same : (a b : Acknowledger) (r : Report) → SameIdentity a b → IsOf a r → IsOf b r
IsOf-same a b r (s, d, m, g) (rs, rd, rm, rg, rest) = (rs ∙ s, rd ∙ d, rm ∙ m, rg ∙ g, rest)

All-same :
    (a b : Acknowledger) (rs : List Report) → SameIdentity a b → All (IsOf a) rs → All (IsOf b) rs
All-same a b [] same h = tt
All-same a b (r ∷ rs) same h = (IsOf-same a b r same h.0, All-same a b rs same h.1)

with_report-IsOf :
    (a : Acknowledger) (o : Option Report) (rs : List Report)
    → ((r : Report) → o ≡ some r → IsOf a r)
    → All (IsOf a) rs
    → All (IsOf a) (with_report o rs)
with_report-IsOf a none rs h k = k
with_report-IsOf a (some r) rs h k = (h r refl, k)

reports_IsOf : (a : Acknowledger) (cs : List Call) → All (IsOf a) (reports a cs)
unfolding reports
reports_IsOf a [] = tt
reports_IsOf a (c ∷ cs) =
    with_report-IsOf a (step a c).0 (reports (step a c).1 cs) (step-IsOf a c) (
      All-same (step a c).1 a (reports (step a c).1 cs) (step_same a c)
        (reports_IsOf (step a c).1 cs))

-- Whatever calls a connection gets, it reports that its bridge is drained at most once and that its
-- APM is cancelled at most once, with the session, device, room and generation that it was made
-- for, and an error code just when the result is `failed`.
pub reports_once :
    (a : Acknowledger) (cs : List Call)
    → (count is_drain (reports a cs) ≤ 1)
      × (count is_apm (reports a cs) ≤ 1)
      × All (IsOf a) (reports a cs)
reports_once a cs =
    (ground (arith, drains_left a cs), ground (arith, apms_left a cs), reports_IsOf a cs)

get-set :
    (session termination other_session : String) (ts : Terminations)
    → get_termination other_session (set_termination session termination ts)
      ≡ (if session =ₛ other_session then some termination else get_termination other_session ts)
get-set session termination k [] = refl
get-set session termination k (t ∷ ts) = ground (arith, get-set session termination k ts)

-- A message that the parser accepts is one that the registry takes: after `note` the session has
-- the termination of the message, and every other session what it had.
pub note-parse :
    (m : Message) (session termination : String) (ts : Terminations)
    → parse_note_termination m ≡ some (session, termination)
    → ((note session termination ts).0 ≡ true)
      × ((k : String)
          → get_termination k (note session termination ts).1
            ≡ (if session =ₛ k then some termination else get_termination k ts))
unfolding parse_note_termination note
note-parse other session termination ts e = absurd (ground arith)
note-parse (object fields) session termination ts e =
    let good : is_bad_pair session termination ≡ false = ground arith in
    rw good (refl, λ k. get-set session termination k ts)
