-- ===== src/ControlPlane/Replays/Wake.antt =====
-- A wake event that is consumed again: backend/app/voice/control_plane_wake.py.
use bosimao_release.Prelude.{
  ℕ, ◌+◌, String, some, ◌∷◌, ◌≡◌, arith, false, find, Option-cases, Result-cases, inl, inr, ok, err,
  length, List, ◌>>=◌, refl, Result,
}
use bosimao_release.ControlPlane.Payload.{Hashing}
use bosimao_release.ControlPlane.Cipher.{
  Bytes, CipherError, Aead, IsAead, UserSigCipher, encrypt, cipher_version,
}
use bosimao_release.ControlPlane.Schema.{WakeRecord, WakeEvent, Ledger, Error, find_session}
use bosimao_release.ControlPlane.Wake.{
  WakeCall, is_wake, wake_context, is_blank, insert_session, insert_claim, check_prior,
  signing_session, room_of, lift_cipher,
}
use bosimao_release.ControlPlane.Wake.Consume.{
  consume_wake, consume_wake_tx, fresh_wake, store_wake, replay_wake, decrypt_stored, wake_event,
  wake_record,
}
use bosimao_release.ControlPlane.Invariant.Keeps.{Ensures, lookup-Ensures, bind-Ensures, checked}
use bosimao_release.ControlPlane.Sealing.{decrypt-encrypt, length-encrypt}

-- The same wake event, in a call with new identifiers and another signature.
abbrev pub again : WakeCall → String → String → ℕ → String → WakeCall
again c session user_sig expires_at user = record c {
  session_id = session;
  user_sig = user_sig;
  expires_at = expires_at;
  user_id = user;
}

lift-Ensures {ℓ} : {A : Type ℓ} (r : Result CipherError A) → Ensures (λ a. r ≡ ok a) (lift_cipher r)
lift-Ensures (ok a) = refl
lift-Ensures (err e) = tt

ok_inj {ℓ} : {A : Type ℓ} (x y : A) → Path (Result Error A) (ok x) (ok y) → x ≡ y
ok_inj x y e = cc

ensures_ok {ℓ κ} :
    {A : Type ℓ} (P : A → Type κ) (r : Result Error A) (x : A) → Ensures P r → r ≡ ok x → P x
ensures_ok P (ok y) x k e = rw (← ok_inj y x e) k
ensures_ok P (err y) x k e = cc

module _ (h : Hashing) (a : Aead) (iso8601 : ℕ → String) where
  -- The event that this call would store, over the events before it.
  abbrev Stored : UserSigCipher → WakeCall → Bytes → ℕ → WakeRecord × String → Ledger → Type 0
  Stored cipher c nonce now r l' =
      (blob : Bytes) × (ws : List WakeEvent) × (encrypt a cipher nonce c.user_sig
          (wake_context c c.session_id (c.prior_generation + 1))
        ≡ ok blob)
      × (l'.wakes ≡ wake_event h a iso8601 cipher c blob now ∷ ws)
      × (r ≡ (wake_record h a iso8601 c, c.user_sig))

  abbrev IsStored : UserSigCipher → WakeCall → Bytes → ℕ → WakeRecord × String × Ledger → Type 0
  IsStored cipher c nonce now r = Stored cipher c nonce now (r.0, r.1) r.2

  store_wake_Stored :
      (cipher : UserSigCipher) (c : WakeCall) (nonce : Bytes) (now : ℕ) (l : Ledger)
      → Ensures (IsStored cipher c nonce now) (store_wake h a iso8601 cipher c nonce now l)
  unfolding store_wake
  store_wake_Stored cipher c nonce now l =
      bind-Ensures
        (λ blob.
          encrypt a cipher nonce c.user_sig (wake_context c c.session_id (c.prior_generation + 1))
          ≡ ok blob)
        (IsStored cipher c nonce now) _ _
        (lift-Ensures (
          encrypt a cipher nonce c.user_sig (wake_context c c.session_id (c.prior_generation + 1))))
        λ blob good. (blob, l.wakes, good, refl, refl)

  fresh_wake_Stored :
      (cipher : UserSigCipher) (c : WakeCall) (nonce : Bytes) (now : ℕ) (l : Ledger)
      → Ensures (IsStored cipher c nonce now) (fresh_wake h a iso8601 cipher c nonce now l)
  unfolding fresh_wake
  fresh_wake_Stored cipher c nonce now l =
      let stored = IsStored cipher c nonce now in
      let claim : Ledger → Result Error Ledger = λ l₁.
        insert_claim c.session_id c.device_id (room_of c.session_id) (c.prior_generation + 1)
          c.expires_at now l₁ in
      lookup-Ensures stored (find_session c.prior_session_id l) _ _ λ prior e.
        bind-Ensures (λ _. Unit) stored _ _ (checked (check_prior c prior l))
          λ _ _.
            bind-Ensures {A = Ledger} {B = WakeRecord × String × Ledger} (λ _. Unit) stored _
              (λ l₁. claim l₁ >>= λ l₂. store_wake h a iso8601 cipher c nonce now l₂)
              (checked (insert_session (signing_session c now) _))
              λ l₁ _.
                bind-Ensures {A = Ledger} {B = WakeRecord × String × Ledger} (λ _. Unit) stored _
                  (λ l₂. store_wake h a iso8601 cipher c nonce now l₂) (checked (claim l₁))
                  λ l₂ _. store_wake_Stored cipher c nonce now l₂

  full_version : is_blank cipher_version ≡ false
  unfolding is_blank
  full_version = refl

  -- A stored event answers the same event again.
  stored_replays :
      (law : IsAead a) (cipher : UserSigCipher) (c : WakeCall) (nonce : Bytes) (now : ℕ)
      (blob : Bytes) (session user_sig : String) (expires_at : ℕ) (user : String)
      → length nonce ≡ 12
      → encrypt a cipher nonce c.user_sig (wake_context c c.session_id (c.prior_generation + 1))
        ≡ ok blob
      → replay_wake h a iso8601 cipher
          (again c session user_sig expires_at user)
          (wake_event h a iso8601 cipher c blob now)
        ≡ ok (wake_record h a iso8601 c, c.user_sig)
  unfolding replay_wake decrypt_stored
  stored_replays law cipher c nonce now blob session user_sig expires_at user twelve e =
      let written =
        length-encrypt a law cipher nonce c.user_sig
          (wake_context c c.session_id (c.prior_generation + 1)) blob twelve e in
      let blank : is_blank cipher.version ≡ false = rw (written.1) full_version in
      ground (
        arith,
        blank,
        written,
        decrypt-encrypt a law cipher nonce c.user_sig
            (wake_context c c.session_id (c.prior_generation + 1)) blob twelve e,
      )

  consume_again :
      (law : IsAead a) (cipher : UserSigCipher) (c : WakeCall) (nonce nonce' : Bytes) (now now' : ℕ)
      (l l' : Ledger) (r : WakeRecord × String) (session user_sig : String) (expires_at : ℕ)
      (user : String)
      → length nonce ≡ 12
      → Stored cipher c nonce now r l'
      → consume_wake_tx h a iso8601 cipher (again c session user_sig expires_at user) nonce' now' l'
        ≡ ok (r, l')
  unfolding consume_wake_tx
  consume_again law cipher c nonce nonce' now now' l l' r session user_sig expires_at user twelve
        s =
      let (blob, ws, good, front, same) = s in
      ground (
        arith,
        front,
        same,
        stored_replays law cipher c nonce now blob session user_sig expires_at user twelve good,
      )

  consume_tx-consume_tx :
      (law : IsAead a) (cipher : UserSigCipher) (c : WakeCall) (nonce nonce' : Bytes) (now now' : ℕ)
      (l l' : Ledger) (r : WakeRecord × String) (session user_sig : String) (expires_at : ℕ)
      (user : String)
      → length nonce ≡ 12
      → consume_wake_tx h a iso8601 cipher c nonce now l ≡ ok (r, l')
      → consume_wake_tx h a iso8601 cipher (again c session user_sig expires_at user) nonce' now' l'
        ≡ ok (r, l')
  unfolding consume_wake_tx replay_wake decrypt_stored
  consume_tx-consume_tx law cipher c nonce nonce' now now' l l' r session user_sig expires_at user
        twelve e =
      elim (Option-cases (find (is_wake c) l.wakes)) [
        | inr (w, f) ↦ elim (Result-cases (replay_wake h a iso8601 cipher c w)) [
          | inl (x, bad) ↦ ground arith
          | inr (p, good) ↦ ground arith
        ]
        | inl f ↦ elim (Result-cases (fresh_wake h a iso8601 cipher c nonce now l)) [
          | inl (x, bad) ↦ ground arith
          | inr (p, good) ↦
              let stored : IsStored cipher c nonce now p =
                ensures_ok _ _ p (fresh_wake_Stored cipher c nonce now l) good in
              ground (
                arith,
                consume_again law cipher c nonce nonce' now now' l p.2 (p.0, p.1) session user_sig
                    expires_at user twelve stored,
              )
        ]
      ]

  -- A wake event that was consumed is answered the same when it comes again, with the record and
  -- the `userSig` of the first call whatever identifiers, signature and expiry the second brings,
  -- at any later time, and the ledger stays as it is. The nonce has 12 bytes.
  pub consume-consume :
      (law : IsAead a) (cipher : UserSigCipher) (c : WakeCall) (nonce nonce' : Bytes) (now now' : ℕ)
      (l l' : Ledger) (r : WakeRecord × String) (session user_sig : String) (expires_at : ℕ)
      (user : String)
      → length nonce ≡ 12
      → consume_wake h a iso8601 (some cipher) c nonce now l ≡ (ok r, l')
      → consume_wake h a iso8601
          (some cipher)
          (again c session user_sig expires_at user)
          nonce'
          now'
          l'
        ≡ (ok r, l')
  unfolding consume_wake
  consume-consume law cipher c nonce nonce' now now' l l' r session user_sig expires_at user twelve
        e =
      elim (Result-cases (consume_wake_tx h a iso8601 cipher c nonce now l)) [
        | inl (x, bad) ↦ ground arith
        | inr (p, good) ↦ ground (
          arith,
          consume_tx-consume_tx law cipher c nonce nonce' now now' l p.1 p.0 session user_sig
              expires_at user twelve good,
        )
      ]
