-- ===== src/ControlPlane/Sealing.antt =====
-- What is sealed is read back: backend/app/voice/user_sig_cipher.py.
use bosimao_release.Prelude.{
  ◌+◌, ◌≤◌, String, ◌≡◌, refl, true, false, [], ◌∷◌, ◌++◌, ◌=ₛ◌, length, take, drop, arith,
  Bool-cases, inl, inr, ok, some, length-append, or_raise, ◌>>=◌,
}
use bosimao_release.ControlPlane.Cipher.{
  Bytes, CipherError, Aead, IsAead, WakeContext, UserSigCipher, encrypt, decrypt, read_plaintext,
  magic, canonical_aad, cipher_version, version_matches,
}

take-append : (xs ys : Bytes) → take (length xs) (xs ++ ys) ≡ xs
take-append [] ys = refl
take-append (x ∷ xs) ys = rw (take-append xs ys)

drop-append : (xs ys : Bytes) → drop (length xs) (xs ++ ys) ≡ ys
drop-append [] ys = refl
drop-append (x ∷ xs) ys = drop-append xs ys

module _ (a : Aead) (law : IsAead a) where
  -- The blob of a nonce of 12 bytes.
  decrypt_blob :
      (cipher : UserSigCipher) (nonce sealed : Bytes) (c : WakeContext)
      → length nonce ≡ 12
      → 16 ≤ length sealed
      → version_matches a cipher (some cipher_version) ≡ true
      → decrypt a cipher (magic ++ (1 ∷ (nonce ++ sealed))) c ≡ (
          or_raise
            (a.unseal cipher.key nonce sealed (canonical_aad a c))
            CipherError.decryption_error
          >>= λ p. read_plaintext a p)
  unfolding decrypt
  decrypt_blob cipher nonce sealed c twelve tagged version =
      let taken : take 12 (nonce ++ sealed) ≡ nonce = rw (← twelve) (take-append nonce sealed) in
      let dropped : drop 12 (nonce ++ sealed) ≡ sealed = rw (← twelve) (drop-append nonce sealed) in
      ground (arith, taken, dropped, length-append nonce sealed)

  read_sealed :
      (user_sig : String)
      → (user_sig =ₛ "") ≡ false
      → read_plaintext a (a.utf8 user_sig) ≡ ok user_sig
  unfolding read_plaintext
  read_sealed user_sig full = ground (arith, law.from_utf8-utf8 user_sig)

  -- With an AES-GCM and a UTF-8 that undo themselves, a nonce of 12 bytes and any cipher, what
  -- `encrypt` returns is decrypted in the same context to the `userSig` that was given.
  pub decrypt-encrypt :
      (cipher : UserSigCipher) (nonce : Bytes) (user_sig : String) (c : WakeContext) (blob : Bytes)
      → length nonce ≡ 12
      → encrypt a cipher nonce user_sig c ≡ ok blob
      → decrypt a cipher blob c ≡ ok user_sig
  unfolding encrypt
  decrypt-encrypt cipher nonce user_sig c blob twelve e =
      let sealed = a.seal cipher.key nonce (a.utf8 user_sig) (canonical_aad a c) in
      elim (Bool-cases (user_sig =ₛ "")) [
        | inl empty ↦ ground arith
        | inr full ↦ elim (Bool-cases (cipher.version =ₛ cipher_version)) [
          | inr other ↦ ground arith
          | inl version ↦
              let opened : decrypt a cipher blob c ≡ read_plaintext a (a.utf8 user_sig) = ground (
                arith,
                decrypt_blob cipher nonce sealed c twelve,
                law.length-seal cipher.key nonce (a.utf8 user_sig) (canonical_aad a c),
                law.unseal-seal cipher.key nonce (a.utf8 user_sig) (canonical_aad a c),
              ) in
              rw (opened, read_sealed user_sig full)
        ]
      ]

  -- The blob has its 33 bytes of header, nonce and tag, and so is never empty.
  pub length-encrypt :
      (cipher : UserSigCipher) (nonce : Bytes) (user_sig : String) (c : WakeContext) (blob : Bytes)
      → length nonce ≡ 12
      → encrypt a cipher nonce user_sig c ≡ ok blob
      → (length blob ≡ 33 + length (a.utf8 user_sig)) × (cipher.version ≡ cipher_version)
  unfolding encrypt
  length-encrypt cipher nonce user_sig c blob twelve e = ground (
    arith,
    length-append nonce (a.seal cipher.key nonce (a.utf8 user_sig) (canonical_aad a c)),
    law.length-seal cipher.key nonce (a.utf8 user_sig) (canonical_aad a c),
  )
