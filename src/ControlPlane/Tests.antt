-- ===== src/ControlPlane/Tests.antt =====
-- Runs of the ledger and the cipher on concrete rows.
pub mod Wakes
pub mod Toys
pub mod Claims
mod Signings
use bosimao_release.Prelude.{
  ℕ, String, Option, none, some, List, [], ◌∷◌, ◌++◌, ◌≡◌, ◌≢◌, refl, true, false, Result, ok, err,
  find, String_discrete, replicate, count, ◌⊎◌,
}
use bosimao_release.ControlPlane.Payload.{text, int, Payload, payload_hash, payload_get, same_value}
use bosimao_release.ControlPlane.Schema.{
  State, Operation, TerminationResult, AckResult, Ack, Reporter, Session, Termination, Ledger,
  Error, Ack-discrete, Reporter-discrete, invalid_state, hello_conflict, empty_ledger, find_session,
  insert_termination, with_state,
}
use bosimao_release.ControlPlane.Sessions.{
  TerminationView, create_session, create_session_tx, get_session, begin_termination,
  begin_termination_tx, settle_root, open_root, validate_payload, get_termination, is_ack,
  root_termination, ack_result,
}
use bosimao_release.ControlPlane.Acks.{
  parse_ack, parse_reporter, parse_result, store_ack, complete_if_all, aggregate, upsert_report,
  write_ack, termination_context,
}
use bosimao_release.ControlPlane.Acks.Calls.{
  AckCall, record_ack, record_ack_tx, parse_call, finish_termination, finish_termination_tx,
  parse_final, is_inherited,
}
use bosimao_release.ControlPlane.Retry.{
  retry_termination, retry_termination_tx, check_retry, settle_retry, open_retry, inherited_acks,
}
use bosimao_release.ControlPlane.Kws.{mark_kws_ready, can_enter_kws_ready, upsert_readiness}
use bosimao_release.ControlPlane.Wake.{
  WakeCall, wake_context, is_active_on, check_prior, insert_session, insert_claim, is_blank,
}
use bosimao_release.ControlPlane.Wake.Consume.{
  wake_record, consume_wake, consume_wake_tx, fresh_wake, store_wake, replay_wake, decrypt_stored,
}
use bosimao_release.ControlPlane.Cipher.{
  Bytes, magic, canonical_aad, encrypt, decrypt, read_plaintext,
}
use bosimao_release.ControlPlane.Hello.{
  HelloClaims, hello_row, redeemed, HelloBody, Redeemed, redeem, redeem_tx, check_body, check_row,
  create_for_signing, create_for_signing_tx, insert_hello, same_payload,
}
use bosimao_release.ControlPlane.History.{
  Host, Call, create, begin, acknowledge, finish, retry, kws_ready, wake, sign, redeem_hello, step,
  run,
}
use bosimao_release.ControlPlane.Tests.Toys.{
  toy_host, toy_hashing, toy_aead, toy_aead-IsAead, toy_cipher, toy_time, nonce12,
}
use bosimao_release.ControlPlane.Replays.{begin-begin}
use bosimao_release.ControlPlane.Replays.Retry.{retry-retry}
use bosimao_release.ControlPlane.Replays.Wake.{again, consume-consume}
use bosimao_release.ControlPlane.Replays.Hello.{redeem-redeem}
use bosimao_release.ControlPlane.Sealing.{decrypt-encrypt}
use mathlib.Core.List.{Memᴰ}
use bosimao_release.ControlPlane.Readings.{Reading, get_kws_readiness, mark_kws_ready-get}
use bosimao_release.ControlPlane.Gates.{consume_wake_needs}
use bosimao_release.ControlPlane.Invariant.{IsSound, HasTermination}
use bosimao_release.ControlPlane.Invariant.Calls.{run-empty-IsSound, step-Evolves}
use bosimao_release.ControlPlane.Lifecycle.{Evolves}
use bosimao_release.ControlPlane.Evidence.Completed.{complete_confirmed, AllReported}

abbrev request : Payload
request =
    ("session_id", text "s")
    ∷ ("device_id", text "d")
    ∷ ("room_id", text "r")
    ∷ ("generation", int 1)
    ∷ []

abbrev opened : List (ℕ × Call)
opened = (1, create "s" "d" "r" 1 State.active) ∷ (2, begin "s" 1 "q" request "t") ∷ []

abbrev pending_view : TerminationView
pending_view = record {
  row = root_termination toy_hashing "t" "s" 1 "q" request 2;
  acknowledgements = λ ack. AckResult.pending;
}

abbrev one_session : Ledger
one_session = run toy_host empty_ledger ((1, create "s" "d" "r" 1 State.active) ∷ [])

begin-begin_example :
    begin_termination toy_hashing "s" 1 "q" request "t2" 9 (run toy_host empty_ledger opened)
    ≡ (ok pending_view, run toy_host empty_ledger opened)
unfolding String_discrete Ack-discrete Reporter-discrete run step begin_termination
    begin_termination_tx create_session create_session_tx settle_root open_root insert_termination
    get_termination validate_payload
begin-begin_example =
    begin-begin toy_hashing "s" 1 "q" request "t" "t2" 2 9 one_session
      (run toy_host empty_ledger opened) pending_view refl

abbrev ack_call : String → String → AckCall
ack_call acknowledgement reporter = record {
  termination_id = "t";
  session_id = "s";
  device_id = "d";
  room_id = "r";
  generation = 1;
  acknowledgement = acknowledgement;
  reporter = reporter;
  result = "confirmed";
  error_code = none;
}

abbrev finished_calls : List (ℕ × Call)
finished_calls =
    opened
    ++ ((3, acknowledge (ack_call "android_trtc_left" "android"))
        ∷ (4, acknowledge (ack_call "sidecar_trtc_left" "sidecar"))
        ∷ (5, acknowledge (ack_call "bridge_drained_closed" "sidecar"))
        ∷ (6, acknowledge (ack_call "bridge_drained_closed" "rtc_bridge"))
        ∷ (7, acknowledge (ack_call "apm_cancelled_closed" "rtc_bridge"))
        ∷ (8, acknowledge (ack_call "brain_turns_sealed" "brain"))
        ∷ [])

abbrev completed : Ledger
completed = run toy_host empty_ledger finished_calls

abbrev complete_row : Termination
complete_row = record (root_termination toy_hashing "t" "s" 1 "q" request 2) {
  result = TerminationResult.complete;
  state = State.terminated;
  terminal_at = some 8;
  updated_at = 8;
}

abbrev complete_view : TerminationView
complete_view = record {
  row = complete_row;
  acknowledgements = λ ack. ack_result (find (is_ack "t" ack) completed.acks);
}

run-empty-IsSound_example : IsSound completed
run-empty-IsSound_example = run-empty-IsSound toy_host finished_calls

complete_confirmed_example :
    (complete_view.acknowledgements Ack.bridge_drained_closed ≡ AckResult.confirmed)
    × ((is_inherited (find (is_ack "t" Ack.bridge_drained_closed) completed.acks) ≡ true)
        ⊎ AllReported completed.reports "t" Ack.bridge_drained_closed)
unfolding String_discrete Ack-discrete Reporter-discrete run step begin_termination
    begin_termination_tx create_session create_session_tx settle_root open_root insert_termination
    get_termination validate_payload record_ack record_ack_tx parse_call parse_ack parse_reporter
    parse_result store_ack complete_if_all aggregate upsert_report write_ack termination_context
    finish_termination finish_termination_tx parse_final retry_termination retry_termination_tx
    check_retry settle_retry open_retry inherited_acks mark_kws_ready can_enter_kws_ready
    upsert_readiness consume_wake consume_wake_tx fresh_wake store_wake check_prior insert_session
    insert_claim replay_wake decrypt_stored is_blank encrypt decrypt read_plaintext redeem redeem_tx
    check_body check_row same_payload get_session
complete_confirmed_example =
    complete_confirmed toy_host finished_calls "t" complete_view refl refl Ack.bridge_drained_closed

step-Evolves_example :
    Evolves completed.sessions (step toy_host completed (9, kws_ready "s" 1 "kws" [])).sessions
step-Evolves_example =
    step-Evolves toy_host completed (9, kws_ready "s" 1 "kws" [])
      (run-empty-IsSound toy_host finished_calls)

abbrev ended_session : Session
ended_session = record {
  session_id = "s";
  device_id = "d";
  room_id = "r";
  generation = 1;
  state = State.terminated;
  created_at = 1;
  updated_at = 8;
}

mark_kws_ready-get_example :
    (find_session "s" (mark_kws_ready "s" 1 "kws" [] 9 completed).1
      ≡ some (with_state State.kws_ready 9 ended_session))
    × Memᴰ
        (record {
          session_id = "s";
          generation = 1;
          reporter = "kws";
          evidence = [];
          recorded_at = 9;
        })
        (get_kws_readiness "s" 1 (mark_kws_ready "s" 1 "kws" [] 9 completed).1)
unfolding String_discrete Ack-discrete Reporter-discrete run step begin_termination
    begin_termination_tx create_session create_session_tx settle_root open_root insert_termination
    get_termination validate_payload record_ack record_ack_tx parse_call parse_ack parse_reporter
    parse_result store_ack complete_if_all aggregate upsert_report write_ack termination_context
    finish_termination finish_termination_tx parse_final retry_termination retry_termination_tx
    check_retry settle_retry open_retry inherited_acks mark_kws_ready can_enter_kws_ready
    upsert_readiness consume_wake consume_wake_tx fresh_wake store_wake check_prior insert_session
    insert_claim replay_wake decrypt_stored is_blank encrypt decrypt read_plaintext redeem redeem_tx
    check_body check_row same_payload get_session
mark_kws_ready-get_example =
    mark_kws_ready-get "s" "kws" [] 9 completed ended_session
      (run-empty-IsSound toy_host finished_calls) refl refl
