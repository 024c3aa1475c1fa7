-- ===== src/Voice/Devices/Revocation.antt =====
-- The revocation of a device and its sessions: backend/app/voice/devices.py,
-- repositories/device_credentials.py and store_facade.py.
use bosimao_release.Prelude.{
  ℕ, String, Bool, true, false, not, Option, none, some, List, [], ◌∷◌, ◌=ₛ◌, ◌&&◌, ltb,
  if◌then◌else◌, update, keep, take, any, all, lookup, Result, ok, err,
}
use bosimao_release.Voice.Devices.{
  Credential, Error, EventType, RevokedSession, SessionEvent, Status, Store, find_device, has_some,
  integrity_error, voice_error,
}

-- `DeviceCredentialRepository.revoke`: whether the device is revoked now.
abbrev pub is_revoked : Option Credential → Bool
is_revoked none = false
is_revoked (some d) = elim d.status [ Status.active ↦ false | Status.revoked ↦ true ]

abbrev pub revoked_credential : String → ℕ → Credential → Credential
revoked_credential reason now d = record d {
  status = Status.revoked;
  revoked_at = some now;
  revoke_reason = some reason;
}

unfoldable pub revoke : String → String → ℕ → Store → Bool × Store
revoke device reason now s =
    let s' = record s {
      credentials =
          update
            (λ (d : Credential).
              if d.device_id =ₛ device then not (has_some d.revoked_at) else false)
            (revoked_credential reason now) s.credentials;
    } in
    (is_revoked (find_device device s'), s')

-- A session whose signature has not expired.
pub record ActiveSession : Type 0 where
  pub session_id : String
  pub fingerprint : String
  pub expires_at : ℕ

abbrev pub is_issue : EventType → Bool
is_issue EventType.issued = true
is_issue EventType.sidecar_sign = true
is_issue EventType.stream_ready = true
is_issue EventType.terminated = false
is_issue EventType.other_event = false

abbrev pub is_termination : EventType → Bool
is_termination EventType.terminated = true
is_termination _ = false

abbrev pub take_events : ℕ → List SessionEvent → List SessionEvent
take_events = take

-- `list_session_events`
unfoldable pub list_session_events : String → ℕ → Store → List SessionEvent
list_session_events device limit s =
    take_events limit (keep (λ (e : SessionEvent). e.device_id =ₛ device) s.events)

-- `active[session_id] = …`: a session that is there keeps its place.
unfoldable pub put_session : ActiveSession → List ActiveSession → List ActiveSession
put_session a [] = a ∷ []
put_session a (b ∷ bs) = if b.session_id =ₛ a.session_id then a ∷ bs else b ∷ put_session a bs

abbrev pub is_ended_in : List SessionEvent → String → Bool
is_ended_in events session =
    any (λ (e : SessionEvent). is_termination e.event_type && e.session_id =ₛ session) events

-- The loop of `_active_sessions`, over the events that are left.
unfoldable pub collect :
    List SessionEvent → ℕ → List SessionEvent → List ActiveSession → List ActiveSession
collect all_events now [] acc = acc
collect all_events now (e ∷ es) acc = collect all_events now es (
    if is_issue e.event_type
      && not (is_ended_in all_events e.session_id)
      && ltb now e.user_sig_expires_at
    then put_session
        (record {
          session_id = e.session_id;
          fingerprint = e.user_sig_fingerprint;
          expires_at = e.user_sig_expires_at;
        })
        acc
    else acc)

-- `_active_sessions`
unfoldable pub active_sessions : String → ℕ → Store → List ActiveSession
active_sessions device now s =
    let events = list_session_events device 200 s in collect events now events []

abbrev pub session_ids : List ActiveSession → List String
session_ids [] = []
session_ids (a ∷ as') = a.session_id ∷ session_ids as'

abbrev pub contains : List String → String → Bool
contains xs x = any (λ y. y =ₛ x) xs

-- `set(xs) == set(ys)`
abbrev pub same_set : List String → List String → Bool
same_set xs ys = all (contains ys) xs && all (contains xs) ys

abbrev pub revoked_session : String → String → ℕ → ActiveSession → RevokedSession
revoked_session device reason now a = record {
  session_id = a.session_id;
  device_id = device;
  user_sig_fingerprint = a.fingerprint;
  expires_at = a.expires_at;
  revoked_at = now;
  reason = reason;
}

abbrev pub termination_event : String → ActiveSession → SessionEvent
termination_event device a = record {
  session_id = a.session_id;
  device_id = device;
  event_type = EventType.terminated;
  user_sig_fingerprint = "";
  user_sig_expires_at = 0;
}

-- The loop of `record_revoke_confirmation`; a session is revoked once, by the unique index.
unfoldable pub record_sessions :
    String → String → ℕ → List ActiveSession → Store → Result Error Store
record_sessions device reason now [] s = ok s
record_sessions device reason now (a ∷ as') s =
    let rest = record_sessions device reason now as' (record s {
      revoked_sessions = revoked_session device reason now a ∷ s.revoked_sessions;
      events = termination_event device a ∷ s.events;
    }) in
    if has_some (lookup (λ (r : RevokedSession). r.session_id) a.session_id s.revoked_sessions)
    then err integrity_error
    else rest

-- `record_revoke_confirmation`: the sessions that it terminated, if the device is revoked.
unfoldable pub record_revoke_confirmation :
    String → String → List ActiveSession → ℕ → Store → Result Error (Option (List String)) × Store
record_revoke_confirmation device reason sessions now s =
    if is_revoked (find_device device s)
    then elim (record_sessions device reason now sessions s) [
      | err e ↦ (err e, s)
      | ok s' ↦ (
        ok (some (session_ids sessions)),
        record s' { audits = record { action = "device.revoke"; subject_id = device } ∷ s'.audits },
      )
    ]
    else (ok none, s)

-- The coordinator of RTC sessions: the sessions that it confirms, or none if it raises.
abbrev pub Terminator : Type 0
Terminator = String → List String → Option (List String)

-- `revoke_device`: the credential is revoked before the coordinator is asked.
unfoldable pub revoke_device :
    Terminator → String → String → ℕ → Store → Result Error (Option (List String)) × Store
revoke_device terminate device reason now s =
    let sessions = active_sessions device now s in
    if not (has_some (find_device device s))
    then (err (voice_error 40401), s)
    else (let s' = (revoke device reason now s).1 in
        elim (terminate device (session_ids sessions)) [
          | none ↦ (err (voice_error 50301), s')
          | some confirmed ↦
              if same_set confirmed (session_ids sessions)
              then record_revoke_confirmation device reason sessions now s'
              else (err (voice_error 50301), s')
        ])
