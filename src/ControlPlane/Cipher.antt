-- ===== src/ControlPlane/Cipher.antt =====
-- The AEAD wrapper that keeps a `userSig` encrypted at rest: backend/app/voice/user_sig_cipher.py.
-- AES-GCM, UTF-8 and `os.urandom` are the library's, and enter as parameters.
use bosimao_release.Prelude.{
  ℕ, ◌+◌, ◌≡◌, String, Bool, true, false, not, Option, none, some, List, [], ◌∷◌, ◌++◌, ◌=ₛ◌, ◌==◌,
  ltb, if◌then◌else◌, length, take, drop, Result, ok, err, ◌>>=◌, ◌>>◌, raise_if, or_raise,
}
use bosimao_release.ControlPlane.Payload.{Payload, text, int}

abbrev pub Bytes : Type 0
Bytes = List ℕ

-- `UserSigCipherKeyError`, `UserSigCipherError`, `UserSigCiphertextMissing` and
-- `UserSigDecryptionError`.
pub data CipherError : Type 0 where
  key_error plaintext_error ciphertext_missing decryption_error : CipherError

-- What the module takes from its libraries.
pub record Aead : Type 0 where
  -- `AESGCM(key).encrypt(nonce, data, aad)` and `decrypt`, with `none` for `InvalidTag`.
  pub seal : Bytes → Bytes → Bytes → Bytes → Bytes
  pub unseal : Bytes → Bytes → Bytes → Bytes → Option Bytes
  pub utf8 : String → Bytes
  pub from_utf8 : Bytes → Option String
  pub dumps : Payload → String

-- What the libraries document of them: decryption undoes encryption under the same key, nonce and
-- associated data, the tag adds 16 bytes, and decoding undoes encoding.
pub record IsAead (a : Aead) : Type 0 where
  pub unseal-seal :
      (key nonce plain aad : Bytes)
      → a.unseal key nonce (a.seal key nonce plain aad) aad ≡ some plain
  pub length-seal :
      (key nonce plain aad : Bytes) → length (a.seal key nonce plain aad) ≡ length plain + 16
  pub from_utf8-utf8 : (s : String) → a.from_utf8 (a.utf8 s) ≡ some s

-- The context that the associated data binds.
pub record WakeContext : Type 0 where
  pub device_id : String
  pub prior_session_id : String
  pub new_session_id : String
  pub prior_generation : ℕ
  pub new_generation : ℕ
  pub wake_event_id : String

-- The key of the instance, and the tag byte of its version.
pub record UserSigCipher : Type 0 where
  pub key : Bytes
  pub version : String

abbrev pub magic : Bytes
magic = b'J' ∷ b'X' ∷ b'U' ∷ b'S' ∷ []

-- `_MIN_BLOB_BYTES`: the header, the nonce and the tag.
abbrev pub min_blob_bytes : ℕ
min_blob_bytes = 33

abbrev pub cipher_version : String
cipher_version = "v1"

-- `_VERSION_TO_TAG` and `_TAG_TO_VERSION`
abbrev pub version_tag : String → Option ℕ
version_tag v = if v =ₛ cipher_version then some 1 else none

abbrev pub tag_version : ℕ → Option String
tag_version tag = if tag == 1 then some cipher_version else none

abbrev pub same_bytes : Bytes → Bytes → Bool
same_bytes [] [] = true
same_bytes [] (y ∷ ys) = false
same_bytes (x ∷ xs) [] = false
same_bytes (x ∷ xs) (y ∷ ys) = if x == y then same_bytes xs ys else false

-- `UserSigCipher.__init__`
unfoldable pub make_cipher : Bytes → String → Result CipherError UserSigCipher
make_cipher key version = elim (version_tag version) [
  | none ↦ err CipherError.key_error
  | some _ ↦
      if length key == 32
      then ok (record { key = key; version = version })
      else err CipherError.key_error
]

abbrev pub aad_payload : WakeContext → Payload
aad_payload c =
    ("device_id", text c.device_id)
    ∷ ("prior_session_id", text c.prior_session_id)
    ∷ ("new_session_id", text c.new_session_id)
    ∷ ("prior_generation", int c.prior_generation)
    ∷ ("new_generation", int c.new_generation)
    ∷ ("wake_event_id", text c.wake_event_id)
    ∷ []

abbrev pub byte_at : ℕ → Bytes → ℕ
byte_at i bs = elim (drop i bs) [ [] ↦ 0 | b ∷ _ ↦ b ]

module _ (a : Aead) where
  -- `_canonical_aad`
  abbrev pub canonical_aad : WakeContext → Bytes
  canonical_aad c = a.utf8 (a.dumps (aad_payload c))

  -- `encrypt`; `nonce` is the value of `os.urandom(12)`.
  unfoldable pub encrypt : UserSigCipher → Bytes → String → WakeContext → Result CipherError Bytes
  encrypt cipher nonce user_sig c = do
    raise_if (user_sig =ₛ "") CipherError.plaintext_error
    tag ← or_raise (version_tag cipher.version) CipherError.key_error
    ok (magic ++ (tag ∷ (nonce ++ a.seal cipher.key nonce (a.utf8 user_sig) (canonical_aad c))))

  -- The end of `decrypt`: the plaintext must be UTF-8 and not empty.
  unfoldable pub read_plaintext : Bytes → Result CipherError String
  read_plaintext plaintext = elim (a.from_utf8 plaintext) [
    | none ↦ err CipherError.decryption_error
    | some s ↦ if s =ₛ "" then err CipherError.decryption_error else ok s
  ]

  abbrev pub version_matches : UserSigCipher → Option String → Bool
  version_matches cipher none = false
  version_matches cipher (some v) = v =ₛ cipher.version

  unfoldable pub decrypt : UserSigCipher → Bytes → WakeContext → Result CipherError String
  unfolding read_plaintext
  decrypt cipher raw c = do
    raise_if (ltb (length raw) min_blob_bytes) CipherError.decryption_error
    raise_if (not (same_bytes (take 4 raw) magic)) CipherError.decryption_error
    raise_if (not (version_matches cipher (tag_version (byte_at 4 raw))))
        CipherError.decryption_error
    plaintext ←
        or_raise (a.unseal cipher.key (take 12 (drop 5 raw)) (drop 17 raw) (canonical_aad c))
          CipherError.decryption_error
    read_plaintext plaintext
