-- ===== src/Voice/Devices/Pairing.antt =====
-- A pairing code registers one device.
use bosimao_release.Prelude.{
  ℕ, String, true, false, some, List, [], ◌∷◌, ◌≡◌, arith, ◌||◌, Bool-cases, inl, inr, ok, err,
}
use bosimao_release.Voice.Devices.{
  PairingCode, Store, voice_error, Registration, has_some, find_code, find_device, find_credential,
  is_open_option, consume_code, register_device, new_credential,
}

-- What was consumed is open no more, and nothing else changed.
is_open-consume :
    (hash device : String) (now later : ℕ) (cs : List PairingCode)
    → is_open_option now (find_code hash cs) ≡ true
    → is_open_option later (find_code hash (consume_code hash device now cs)) ≡ false
unfolding consume_code
is_open-consume hash device now later [] h = ground arith
is_open-consume hash device now later (p ∷ cs) h =
    ground (arith, is_open-consume hash device now later cs)

-- A code that registered a device registers no other, whoever sends it and when: the call is
-- answered with 40901 and changes nothing. The new device has an active credential.
pub register-register :
    (digest hash_secret : String → String) (code : String) (r r' : Registration) (now later : ℕ)
    (s s' : Store) (answer : String × String × ℕ)
    → register_device digest hash_secret code r now s ≡ (ok answer, s')
    → (register_device digest hash_secret code r' later s' ≡ (err (voice_error 40901), s'))
      × (find_device r.device_id s' ≡ some (new_credential digest hash_secret r now))
unfolding register_device
register-register digest hash_secret code r r' now later s s' answer e =
    elim (Bool-cases (is_open_option now (find_code (digest code) s.codes))) [
      | inr shut ↦ absurd (ground arith)
      | inl open_now ↦
          elim (Bool-cases (
            has_some (find_device r.device_id s) || has_some (find_credential r.credential_id s))) [
              | inl taken ↦ absurd (ground arith)
              | inr free ↦
                  ground
                    (arith, is_open-consume (digest code) r.device_id now later s.codes open_now)
            ]
    ]
