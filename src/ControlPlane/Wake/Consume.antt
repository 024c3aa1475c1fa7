-- ===== src/ControlPlane/Wake/Consume.antt =====
-- The transaction of a wake event: backend/app/voice/control_plane_wake.py.
use bosimao_release.Prelude.{
  ℕ, ◌+◌, String, not, Option, none, some, ◌∷◌, ◌=ₛ◌, ◌==◌, find, length, Result, ok, err, ◌>>=◌,
  ◌>>◌, raise_if, or_raise,
}
use bosimao_release.ControlPlane.Payload.{Hashing, payload_hash}
use bosimao_release.ControlPlane.Cipher.{Bytes, CipherError, Aead, UserSigCipher, encrypt, decrypt}
use bosimao_release.ControlPlane.Schema.{
  State, WakeRecord, WakeEvent, Ledger, Error, invalid_state, cipher_error, find_session,
  set_session_state, commit,
}
use bosimao_release.ControlPlane.Wake.{
  WakeCall, check_prior, insert_claim, insert_session, is_blank, is_kws_ready, is_missing_version,
  is_wake, lift_cipher, room_of, signing_session, wake_context, wake_payload,
}

module _ (h : Hashing) (a : Aead) (iso8601 : ℕ → String) where
  abbrev pub wake_record : WakeCall → WakeRecord
  wake_record c = record {
    wake_event_id = c.wake_event_id;
    prior_session_id = c.prior_session_id;
    prior_generation = c.prior_generation;
    session_id = c.session_id;
    device_id = c.device_id;
    room_id = room_of c.session_id;
    user_id = c.user_id;
    expires_at = iso8601 c.expires_at;
    generation = c.prior_generation + 1;
    state = State.signing;
  }

  -- `_decrypt_stored_user_sig`
  unfoldable pub decrypt_stored : UserSigCipher → WakeCall → WakeEvent → Result CipherError String
  unfolding is_blank
  decrypt_stored cipher c w = do
    blob ← or_raise w.user_sig_ciphertext CipherError.ciphertext_missing
    raise_if (length blob == 0) CipherError.ciphertext_missing
    raise_if (is_missing_version w.user_sig_encryption_version) CipherError.ciphertext_missing
    decrypt a cipher blob (wake_context c w.new_session_id w.new_generation)

  -- A wake event seen before: the stored record again, if the payload is the same.
  unfoldable pub replay_wake :
      UserSigCipher → WakeCall → WakeEvent → Result Error (WakeRecord × String)
  replay_wake cipher c w = do
    raise_if (not (w.payload_hash =ₛ payload_hash h (wake_payload c))) (invalid_state 40913)
    user_sig ← lift_cipher (decrypt_stored cipher c w)
    ok (w.wake_record, user_sig)

  abbrev pub wake_event : UserSigCipher → WakeCall → Bytes → ℕ → WakeEvent
  wake_event cipher c ciphertext now = record {
    wake_event_id = c.wake_event_id;
    device_id = c.device_id;
    prior_session_id = c.prior_session_id;
    prior_generation = c.prior_generation;
    new_session_id = c.session_id;
    new_generation = c.prior_generation + 1;
    payload_hash = payload_hash h (wake_payload c);
    wake_record = wake_record c;
    user_sig_ciphertext = some ciphertext;
    user_sig_encryption_version = some cipher.version;
    consumed_at = now;
  }

  -- The ciphertext and the event are written in the same transaction.
  unfoldable pub store_wake :
      UserSigCipher → WakeCall → Bytes → ℕ → Ledger → Result Error (WakeRecord × String × Ledger)
  store_wake cipher c nonce now l = do
    ciphertext ←
        lift_cipher
          (encrypt a cipher nonce c.user_sig (wake_context c c.session_id (c.prior_generation + 1)))
    ok (
      wake_record c,
      c.user_sig,
      record l { wakes = wake_event cipher c ciphertext now ∷ l.wakes },
    )

  -- A new wake event: the prior session and the new one are both SIGNING, the claim is queued and
  -- the event stored, or nothing of it happens.
  unfoldable pub fresh_wake :
      UserSigCipher → WakeCall → Bytes → ℕ → Ledger → Result Error (WakeRecord × String × Ledger)
  unfolding check_prior insert_session insert_claim store_wake
  fresh_wake cipher c nonce now l = do
    prior ← or_raise (find_session c.prior_session_id l) (invalid_state 40402)
    check_prior c prior l
    let signing = record l {
      sessions =
          set_session_state c.prior_session_id (λ s. is_kws_ready s.state) State.signing now
            l.sessions;
    }
    l₁ ← insert_session (signing_session c now) signing
    l₂ ←
        insert_claim c.session_id c.device_id (room_of c.session_id) (c.prior_generation + 1)
          c.expires_at now l₁
    store_wake cipher c nonce now l₂

  -- The transaction of `consume_wake`.
  unfoldable pub consume_wake_tx :
      UserSigCipher → WakeCall → Bytes → ℕ → Ledger → Result Error ((WakeRecord × String) × Ledger)
  consume_wake_tx cipher c nonce now l = elim (find (is_wake c) l.wakes) [
    | some w ↦ (replay_wake cipher c w >>= λ r. ok (r, l))
    | none ↦ (fresh_wake cipher c nonce now l >>= λ r. ok ((r.0, r.1), r.2))
  ]

  -- `consume_wake`: without an injected cipher it refuses before the transaction begins.
  unfoldable pub consume_wake :
      Option UserSigCipher
      → WakeCall
      → Bytes
      → ℕ
      → Ledger
      → Result Error (WakeRecord × String) × Ledger
  consume_wake none c nonce now l = (err (cipher_error CipherError.key_error), l)
  consume_wake (some cipher) c nonce now l = commit (consume_wake_tx cipher c nonce now l) l
