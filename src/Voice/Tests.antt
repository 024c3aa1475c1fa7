-- ===== src/Voice/Tests.antt =====
-- Runs of the services on concrete rows.
mod Sessions
mod Tickets
use bosimao_release.Prelude.{
  ℕ, ◌-◌, ◌≤◌, ◌<◌, String, true, false, Option, none, some, List, [], ◌∷◌, ◌≡◌, refl, arith, ◌⊎◌,
  all, ok, err, String_discrete,
}
use bosimao_release.Voice.Reconnect.{Scheduler, run}
use bosimao_release.Voice.Reconnect.Bounded.{retries, run_ends}
use bosimao_release.Voice.Nonces.{consume, consume_row, use_nonce, purge, Call}
use bosimao_release.Voice.Nonces as Nonces
use bosimao_release.Voice.Nonces.{consume-run-consume}
use bosimao_release.Voice.RateLimit.{
  RateLimitConfig, Request, device_allowed, ip_allowed, allowed_limits,
}
use bosimao_release.Voice.Devices.{
  EventType, Store, Registration, voice_error, register_device, consume_code, new_credential,
  find_device,
}
use bosimao_release.Voice.Devices.Revocation.{
  is_revoked, revoke_device, active_sessions, session_ids,
}
use bosimao_release.Voice.Devices.Pairing.{register-register}
use bosimao_release.Voice.Devices.Revoking.{Confirms, is_recorded, revoke_device_revokes}

abbrev scheduler : Scheduler
scheduler = record {
  base_delay = 1000;
  max_delay = 60000;
  max_attempts = 3;
  running = true;
  failures = 0;
  gave_up = false;
}

run_ends_example :
    let r = run (false ∷ false ∷ true ∷ []) scheduler in
    (r.1.running ≡ false)
    × (retries r.0 ≤ 3 - 0)
    × ((r.1.gave_up ≡ true) ⊎ (r.1.failures ≡ 0) ⊎ (3 < 3 - 0))
    × (r.1.gave_up ≡ true → retries r.0 ≡ 3 - 0)
run_ends_example = run_ends scheduler (false ∷ false ∷ true ∷ []) (omega arith) refl

abbrev same_text : String → String
same_text s = s

abbrev nonce_calls : List (ℕ × Call same_text)
nonce_calls = (10, use_nonce "other" "0123456789abcdef") ∷ (20, purge) ∷ []

consume-run-consume_example :
    let rows =
      Nonces.run same_text 300 nonce_calls (consume same_text 300 "d" "0123456789abcdef" 1 []).1 in
    consume same_text 300 "d" "0123456789abcdef" 30 rows ≡ (false, rows)
unfolding consume consume_row String_discrete
consume-run-consume_example =
    consume-run-consume same_text 300 "d" "0123456789abcdef" 1 30 nonce_calls [] refl
      (omega arith, (omega arith, tt))

abbrev limits : RateLimitConfig
limits = record { window_seconds = 10; device_limit = 1; ip_limit = 2 }

abbrev request_at : ℕ → Request
request_at now = record { subject = "d"; ip = "1.2.3.4"; route = "wake"; now = now }

allowed_limits_example :
    (device_allowed limits "d" "wake" 10 (request_at 11 ∷ request_at 12 ∷ []) [] ≤ 1)
    × (ip_allowed limits "1.2.3.4" "wake" 10 (request_at 11 ∷ request_at 12 ∷ []) [] ≤ 2)
allowed_limits_example =
    allowed_limits limits "wake" 10 "d" "1.2.3.4" (request_at 11 ∷ request_at 12 ∷ []) []

abbrev paired : Store
paired = record {
  codes =
      record {
        code_hash = "code";
        created_by_owner_id = "o";
        platform = "android";
        expires_at = 300;
        consumed_at = none;
        consumed_device_id = none;
        created_at = 0;
      }
      ∷ [];
  credentials = [];
  events = [];
  revoked_sessions = [];
  audits = [];
}

abbrev phone : Registration
phone = record {
  device_id = "d";
  credential_id = "c";
  device_name = "phone";
  platform = "android";
  secret = "x";
}

abbrev registered : Store
registered = (register_device same_text same_text "code" phone 10 paired).1

register-register_example :
    (register_device same_text same_text "code" phone 20 registered
      ≡ (err (voice_error 40901), registered))
    × (find_device "d" registered ≡ some (new_credential same_text same_text phone 10))
unfolding register_device consume_code String_discrete
register-register_example =
    register-register same_text same_text "code" phone phone 10 20 paired registered
      ("d", "x", 2592010) refl

abbrev issuing : Store
issuing = record paired {
  credentials = new_credential same_text same_text phone 10 ∷ [];
  events =
      record {
        session_id = "s";
        device_id = "d";
        event_type = EventType.issued;
        user_sig_fingerprint = "f";
        user_sig_expires_at = 500;
      }
      ∷ [];
}

revoke_device_revokes_example :
    let (r, s') = revoke_device (λ device ids. some ids) "d" "lost" 20 issuing in
    let ids = session_ids (active_sessions "d" 20 issuing) in
    (is_revoked (find_device "d" s') ≡ true)
    × ((x : Option (List String))
        → r ≡ ok x
        → (x ≡ some ids)
          × Confirms (some ids) ids
          × (all (λ k. is_recorded k s'.revoked_sessions) ids ≡ true))
unfolding String_discrete
revoke_device_revokes_example =
    revoke_device_revokes (λ device ids. some ids) "d" "lost" 20 issuing (refl, tt) refl
