-- ===== src/ControlPlane/Tests/Wakes.antt =====
-- Runs of the wake, the retry, the cipher and the hello proofs on concrete rows.
use bosimao_release.Prelude.{
  ℕ, String, some, List, [], ◌∷◌, ◌++◌, ◌≡◌, refl, ok, err, String_discrete, count,
}
use bosimao_release.ControlPlane.Payload.{text, int, payload_hash}
use bosimao_release.ControlPlane.Schema.{
  State, Operation, TerminationResult, AckResult, Ledger, Ack-discrete, Reporter-discrete,
  invalid_state, hello_conflict, empty_ledger, insert_termination, with_state,
}
use bosimao_release.ControlPlane.Sessions.{
  TerminationView, create_session, create_session_tx, get_session, begin_termination,
  begin_termination_tx, settle_root, open_root, validate_payload, get_termination, root_termination,
}
use bosimao_release.ControlPlane.Acks.{
  parse_ack, parse_reporter, parse_result, store_ack, complete_if_all, aggregate, upsert_report,
  write_ack, termination_context,
}
use bosimao_release.ControlPlane.Acks.Calls.{
  record_ack, record_ack_tx, parse_call, finish_termination, finish_termination_tx, parse_final,
}
use bosimao_release.ControlPlane.Retry.{
  retry_termination, retry_termination_tx, check_retry, settle_retry, open_retry, inherited_acks,
}
use bosimao_release.ControlPlane.Kws.{mark_kws_ready, can_enter_kws_ready, upsert_readiness}
use bosimao_release.ControlPlane.Wake.{
  WakeCall, wake_context, is_active_on, check_prior, insert_session, insert_claim, is_blank,
}
use bosimao_release.ControlPlane.Wake.Consume.{
  wake_record, consume_wake, consume_wake_tx, fresh_wake, store_wake, replay_wake, decrypt_stored,
}
use bosimao_release.ControlPlane.Cipher.{
  Bytes, magic, canonical_aad, encrypt, decrypt, read_plaintext,
}
use bosimao_release.ControlPlane.Hello.{
  HelloClaims, hello_row, redeemed, HelloBody, redeem, redeem_tx, check_body, check_row,
  same_payload,
}
use bosimao_release.ControlPlane.History.{Call, finish, retry, kws_ready, wake, step, run}
use bosimao_release.ControlPlane.Tests.Toys.{
  toy_host, toy_hashing, toy_aead, toy_aead-IsAead, toy_cipher, toy_time, nonce12,
}
use bosimao_release.ControlPlane.Replays.Retry.{retry-retry}
use bosimao_release.ControlPlane.Replays.Wake.{again, consume-consume}
use bosimao_release.ControlPlane.Replays.Hello.{redeem-redeem}
use bosimao_release.ControlPlane.Sealing.{decrypt-encrypt}
use bosimao_release.ControlPlane.Gates.{consume_wake_needs}
use bosimao_release.ControlPlane.Invariant.{HasTermination}
use bosimao_release.ControlPlane.Invariant.Calls.{run-empty-IsSound}
use bosimao_release.ControlPlane.Tests.{ended_session, finished_calls, opened}

abbrev wake_call : WakeCall
wake_call = record {
  session_id = "s2";
  device_id = "d";
  prior_session_id = "s";
  prior_generation = 1;
  wake_event_id = "e";
  user_sig = "sig";
  expires_at = 99;
  detected_at = "now";
  kws_instance_id = "k";
  user_id = "u";
}

abbrev ready_calls : List (ℕ × Call)
ready_calls = finished_calls ++ ((9, kws_ready "s" 1 "kws" []) ∷ [])

abbrev ready : Ledger
ready = run toy_host empty_ledger ready_calls

abbrev woken : Ledger
woken = run toy_host empty_ledger (ready_calls ++ ((10, wake wake_call nonce12) ∷ []))

consume_wake_needs_example :
    HasTermination ready.terminations "s" 1 TerminationResult.complete
    × (count (is_active_on "d") ready.sessions ≡ 0)
unfolding String_discrete Ack-discrete Reporter-discrete run step begin_termination
    begin_termination_tx create_session create_session_tx settle_root open_root insert_termination
    get_termination validate_payload record_ack record_ack_tx parse_call parse_ack parse_reporter
    parse_result store_ack complete_if_all aggregate upsert_report write_ack termination_context
    finish_termination finish_termination_tx parse_final retry_termination retry_termination_tx
    check_retry settle_retry open_retry inherited_acks mark_kws_ready can_enter_kws_ready
    upsert_readiness consume_wake consume_wake_tx fresh_wake store_wake check_prior insert_session
    insert_claim replay_wake decrypt_stored is_blank encrypt decrypt read_plaintext redeem redeem_tx
    check_body check_row same_payload get_session
consume_wake_needs_example =
    consume_wake_needs toy_hashing toy_aead toy_time toy_cipher wake_call nonce12 10 ready woken
      (wake_record toy_hashing toy_aead toy_time wake_call, "sig")
      (run-empty-IsSound toy_host ready_calls) refl refl

consume-consume_example :
    consume_wake toy_hashing toy_aead toy_time
      (some toy_cipher)
      (again wake_call "s3" "other" 200 "u")
      nonce12
      20
      woken
    ≡ (ok (wake_record toy_hashing toy_aead toy_time wake_call, "sig"), woken)
unfolding String_discrete Ack-discrete Reporter-discrete run step begin_termination
    begin_termination_tx create_session create_session_tx settle_root open_root insert_termination
    get_termination validate_payload record_ack record_ack_tx parse_call parse_ack parse_reporter
    parse_result store_ack complete_if_all aggregate upsert_report write_ack termination_context
    finish_termination finish_termination_tx parse_final retry_termination retry_termination_tx
    check_retry settle_retry open_retry inherited_acks mark_kws_ready can_enter_kws_ready
    upsert_readiness consume_wake consume_wake_tx fresh_wake store_wake check_prior insert_session
    insert_claim replay_wake decrypt_stored is_blank encrypt decrypt read_plaintext redeem redeem_tx
    check_body check_row same_payload get_session
consume-consume_example =
    consume-consume toy_hashing toy_aead toy_time toy_aead-IsAead toy_cipher wake_call nonce12
      nonce12 10 20 ready woken (wake_record toy_hashing toy_aead toy_time wake_call, "sig") "s3"
      "other" 200 "u" refl refl

abbrev timed_out_calls : List (ℕ × Call)
timed_out_calls = opened ++ ((3, finish "t" "timeout") ∷ [])

abbrev timed_out : Ledger
timed_out = run toy_host empty_ledger timed_out_calls

abbrev retried : Ledger
retried =
    run toy_host empty_ledger
      (timed_out_calls ++ ((4, retry "s" "t" "q2" "retry_timeout" "t2") ∷ []))

abbrev retry_view : TerminationView
retry_view = record {
  row = record (root_termination toy_hashing "t2" "s" 1 "q2" [] 4) {
    operation = Operation.retry;
    parent_termination_id = some "t";
    payload_hash = payload_hash toy_hashing (
        ("session_id", text "s")
        ∷ ("device_id", text "d")
        ∷ ("room_id", text "r")
        ∷ ("generation", int 1)
        ∷ ("reason", text "retry_timeout")
        ∷ ("parent_termination_id", text "t")
        ∷ []);
  };
  acknowledgements = λ ack. AckResult.pending;
}

retry-retry_example :
    retry_termination toy_hashing "s" "t" "q2" "retry_timeout" "t3" 5 retried
    ≡ (err (invalid_state 40913), retried)
unfolding String_discrete Ack-discrete Reporter-discrete run step begin_termination
    begin_termination_tx create_session create_session_tx settle_root open_root insert_termination
    get_termination validate_payload record_ack record_ack_tx parse_call parse_ack parse_reporter
    parse_result store_ack complete_if_all aggregate upsert_report write_ack termination_context
    finish_termination finish_termination_tx parse_final retry_termination retry_termination_tx
    check_retry settle_retry open_retry inherited_acks mark_kws_ready can_enter_kws_ready
    upsert_readiness consume_wake consume_wake_tx fresh_wake store_wake check_prior insert_session
    insert_claim replay_wake decrypt_stored is_blank encrypt decrypt read_plaintext redeem redeem_tx
    check_body check_row same_payload get_session
retry-retry_example =
    retry-retry toy_hashing "s" "t" "q2" "retry_timeout" "t2" "t3" 4 5 timed_out retried retry_view
      refl refl refl

abbrev encrypted : String → Bytes
encrypted s =
    magic
    ++ (1
        ∷ (nonce12
            ++ toy_aead.seal toy_cipher.key nonce12 (toy_aead.utf8 s)
                (canonical_aad toy_aead (wake_context wake_call "s2" 2))))

decrypt-encrypt_example :
    decrypt toy_aead toy_cipher (encrypted "sig") (wake_context wake_call "s2" 2) ≡ ok "sig"
unfolding String_discrete Ack-discrete Reporter-discrete run step begin_termination
    begin_termination_tx create_session create_session_tx settle_root open_root insert_termination
    get_termination validate_payload record_ack record_ack_tx parse_call parse_ack parse_reporter
    parse_result store_ack complete_if_all aggregate upsert_report write_ack termination_context
    finish_termination finish_termination_tx parse_final retry_termination retry_termination_tx
    check_retry settle_retry open_retry inherited_acks mark_kws_ready can_enter_kws_ready
    upsert_readiness consume_wake consume_wake_tx fresh_wake store_wake check_prior insert_session
    insert_claim replay_wake decrypt_stored is_blank encrypt decrypt read_plaintext redeem redeem_tx
    check_body check_row same_payload get_session
decrypt-encrypt_example =
    decrypt-encrypt toy_aead toy_aead-IsAead toy_cipher nonce12 "sig"
      (wake_context wake_call "s2" 2) (encrypted "sig") refl refl

abbrev hello_claims : HelloClaims
hello_claims = record {
  jti = "j";
  nonce = "n";
  session_id = "s";
  device_id = "d";
  room_id = "r";
  sidecar_user_id = "u";
  generation = 1;
  kid = "k";
  iss = "i";
  aud = "a";
  protocol_version = "1";
  audio_format = [];
  iat = 1;
  exp = 9;
}

abbrev hello_body : HelloBody
hello_body = record {
  jti = "j";
  nonce = "n";
  session_id = "s";
  device_id = "d";
  room_id = "r";
  sidecar_user_id = "u";
  generation = 1;
  protocol_version = "1";
  audio_format = [];
}

abbrev entering : Ledger
entering = record empty_ledger {
  sessions = with_state State.entering 1 ended_session ∷ [];
  hellos = hello_row toy_hashing.sha256_hex hello_claims "proof" 1 ∷ [];
}

abbrev entered : Ledger
entered = (redeem toy_hashing.sha256_hex hello_claims "proof" hello_body 2 entering).1

redeem-redeem_example :
    redeem toy_hashing.sha256_hex hello_claims "proof" hello_body 3 entered
    ≡ (err (hello_conflict 40113), entered)
unfolding String_discrete Ack-discrete Reporter-discrete run step begin_termination
    begin_termination_tx create_session create_session_tx settle_root open_root insert_termination
    get_termination validate_payload record_ack record_ack_tx parse_call parse_ack parse_reporter
    parse_result store_ack complete_if_all aggregate upsert_report write_ack termination_context
    finish_termination finish_termination_tx parse_final retry_termination retry_termination_tx
    check_retry settle_retry open_retry inherited_acks mark_kws_ready can_enter_kws_ready
    upsert_readiness consume_wake consume_wake_tx fresh_wake store_wake check_prior insert_session
    insert_claim replay_wake decrypt_stored is_blank encrypt decrypt read_plaintext redeem redeem_tx
    check_body check_row same_payload get_session
redeem-redeem_example =
    redeem-redeem toy_hashing.sha256_hex hello_claims hello_claims "proof" "proof" hello_body
      hello_body 2 3 entering entered (redeemed hello_claims) refl refl refl
