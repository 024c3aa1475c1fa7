-- ===== src/Voice/Devices/Revoking.antt =====
-- A device that was revoked stays so, and its sessions are recorded only when they are confirmed.
use bosimao_release.Prelude.{
  ℕ, String, Bool, true, false, not, Option, none, some, List, [], ◌∷◌, ◌≡◌, arith, lookup, update,
  ◌=ₛ◌, if◌then◌else◌, all, Option-cases, Bool-cases, Result-cases, inl, inr, ok,
}
use bosimao_release.Voice.Devices.{Credential, Store, RevokedSession, has_some, find_device}
use bosimao_release.Voice.Devices.Revocation.{
  ActiveSession, Terminator, is_revoked, revoked_credential, revoke, revoke_device,
  record_revoke_confirmation, record_sessions, revoked_session, termination_event, active_sessions,
  session_ids, same_set,
}

-- Every credential is revoked just when it has a time of revocation.
abbrev pub IsMarked : List Credential → Type 0
IsMarked [] = Unit
IsMarked (d ∷ ds) = (is_revoked (some d) ≡ has_some d.revoked_at) × IsMarked ds

revoke_at :
    (device reason : String) (now : ℕ) (ds : List Credential)
    → IsMarked ds
    → has_some (lookup (λ (d : Credential). d.device_id) device ds) ≡ true
    → is_revoked (
        lookup
          (λ (d : Credential). d.device_id)
          device
          (update
            (λ (d : Credential).
              if d.device_id =ₛ device then not (has_some d.revoked_at) else false)
            (revoked_credential reason now)
            ds))
      ≡ true
revoke_at device reason now [] m h = ground arith
revoke_at device reason now (d ∷ ds) m h = ground (arith, revoke_at device reason now ds)

abbrev pub is_recorded : String → List RevokedSession → Bool
is_recorded k rs = has_some (lookup (λ (r : RevokedSession). r.session_id) k rs)

module _ (device reason : String) (now : ℕ) where
  abbrev recorded : ActiveSession → Store → Store
  recorded a s = record s {
    revoked_sessions = revoked_session device reason now a ∷ s.revoked_sessions;
    events = termination_event device a ∷ s.events;
  }

  record_keeps :
      (as' : List ActiveSession) (s s' : Store)
      → record_sessions device reason now as' s ≡ ok s'
      → s'.credentials ≡ s.credentials
  unfolding record_sessions
  record_keeps [] s s' e = ground arith
  record_keeps (a ∷ as') s s' e = elim (Bool-cases (is_recorded a.session_id s.revoked_sessions)) [
    | inl taken ↦ absurd (ground arith)
    | inr free ↦ ground (arith, record_keeps as' (recorded a s) s')
  ]

  record_grows :
      (k : String) (as' : List ActiveSession) (s s' : Store)
      → record_sessions device reason now as' s ≡ ok s'
      → is_recorded k s.revoked_sessions ≡ true
      → is_recorded k s'.revoked_sessions ≡ true
  unfolding record_sessions
  record_grows k [] s s' e h = ground arith
  record_grows k (a ∷ as') s s' e h =
      elim (Bool-cases (is_recorded a.session_id s.revoked_sessions)) [
        | inl taken ↦ absurd (ground arith)
        | inr free ↦ ground (arith, record_grows k as' (recorded a s) s')
      ]

  record_all :
      (as' : List ActiveSession) (s s' : Store)
      → record_sessions device reason now as' s ≡ ok s'
      → all (λ k. is_recorded k s'.revoked_sessions) (session_ids as') ≡ true
  unfolding record_sessions
  record_all [] s s' e = ground arith
  record_all (a ∷ as') s s' e = elim (Bool-cases (is_recorded a.session_id s.revoked_sessions)) [
    | inl taken ↦ absurd (ground arith)
    | inr free ↦
        ground
          (arith, record_all as' (recorded a s) s', record_grows a.session_id as' (recorded a s) s')
  ]

-- The coordinator confirmed these sessions and no others.
abbrev pub Confirms : Option (List String) → List String → Type 0
Confirms none ids = ⊥
Confirms (some confirmed) ids = same_set confirmed ids ≡ true

revoke_known :
    (device reason : String) (now : ℕ) (s : Store)
    → IsMarked s.credentials
    → has_some (find_device device s) ≡ true
    → is_revoked (find_device device (revoke device reason now s).1) ≡ true
unfolding revoke
revoke_known device reason now s m h = revoke_at device reason now s.credentials m h

-- For a device that is there, in a store whose credentials are revoked just when they have a time
-- of revocation: whatever the coordinator answers, raises or leaves unconfirmed, the device is
-- revoked afterwards. The call succeeds only if the coordinator confirmed exactly the device's
-- active sessions; then it returns these, and each of them is among the revoked sessions.
pub revoke_device_revokes :
    (terminate : Terminator) (device reason : String) (now : ℕ) (s : Store)
    → IsMarked s.credentials
    → has_some (find_device device s) ≡ true
    → let (r, s') = revoke_device terminate device reason now s in
      let ids = session_ids (active_sessions device now s) in
      (is_revoked (find_device device s') ≡ true)
      × ((x : Option (List String))
          → r ≡ ok x
          → (x ≡ some ids)
            × Confirms (terminate device ids) ids
            × (all (λ k. is_recorded k s'.revoked_sessions) ids ≡ true))
unfolding revoke_device record_revoke_confirmation
revoke_device_revokes terminate device reason now s m h =
    let sessions = active_sessions device now s in
    let s₁ = (revoke device reason now s).1 in
    let done = revoke_known device reason now s m h in
    elim (Option-cases (terminate device (session_ids sessions))) [
      | inl raised ↦ (ground arith, λ x e. absurd (ground arith))
      | inr (confirmed, c) ↦ elim (Bool-cases (same_set confirmed (session_ids sessions))) [
        | inr other ↦ (ground arith, λ x e. absurd (ground arith))
        | inl same ↦ elim (Result-cases (record_sessions device reason now sessions s₁)) [
          | inl (x, bad) ↦ (ground arith, λ x e. absurd (ground arith))
          | inr (s₂, good) ↦ (
            ground (arith, record_keeps device reason now sessions s₁ s₂ good),
            λ x e. (
              ground arith,
              ground arith,
              ground (arith, record_all device reason now sessions s₁ s₂ good),
            ),
          )
        ]
      ]
    ]
