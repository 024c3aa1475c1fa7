-- ===== src/Relay/Sealing.antt =====
-- The end-to-end encryption of audio payloads and the guard against replays: `RelayE2EE`,
-- `load_e2ee_key` and `ReplayGuard` of backend/relay/relay_protocol.py.
pub mod Opened
pub mod Guarded
use bosimao_release.Prelude.{
  ℕ, suc, ◌+◌, ◌*◌, ◌%◌, ◌^◌, ◌≡◌, String, Bool, true, false, not, Option, none, some, List, [],
  ◌∷◌, ◌++◌, ◌==◌, ltb, leb, ◌=ₛ◌, if◌then◌else◌, length, take, drop, Result, ok, err, ◌>>=◌, ◌>>◌,
  raise_if, or_raise,
}
use bosimao_release.Relay.Frames.{Bytes, big_endian}

-- The `ValueError`s, and the library's `InvalidTag`.
pub data SealError : Type 0 where
  bad_key_length payload_too_short invalid_tag blank_passphrase : SealError

-- `AESGCM`: key, nonce, text and associated data; `none` is `InvalidTag`.
pub record Aesgcm : Type 0 where
  pub seal : Bytes → Bytes → Bytes → Bytes → Bytes
  pub unseal : Bytes → Bytes → Bytes → Bytes → Option Bytes

-- Decryption undoes encryption under the same key, nonce and associated data, and the tag has 16
-- bytes.
pub record IsAesgcm (a : Aesgcm) : Type 0 where
  pub unseal-seal :
      (key nonce plain aad : Bytes)
      → a.unseal key nonce (a.seal key nonce plain aad) aad ≡ some plain
  pub length-seal :
      (key nonce plain aad : Bytes) → length (a.seal key nonce plain aad) ≡ length plain + 16

abbrev pub e2ee_nonce_len : ℕ
e2ee_nonce_len = 12

abbrev pub e2ee_tag_len : ℕ
e2ee_tag_len = 16

-- `RelayE2EE(key)`, which holds the key.
unfoldable pub make_e2ee : Bytes → Result SealError Bytes
make_e2ee key = do raise_if (not (length key == 32)) bad_key_length; ok key

abbrev pub aad : ℕ → Bytes
aad seq = big_endian 8 (seq % 2 ^ 64)

-- `secrets.token_bytes` gives the nonce.
unfoldable pub encrypt_audio : Aesgcm → Bytes → Bytes → ℕ → Bytes → Bytes
encrypt_audio a key nonce seq payload = nonce ++ a.seal key nonce payload (aad seq)

unfoldable pub decrypt_audio : Aesgcm → Bytes → ℕ → Bytes → Result SealError Bytes
decrypt_audio a key seq sealed = do
  raise_if (ltb (length sealed) (e2ee_nonce_len + e2ee_tag_len)) payload_too_short
  or_raise (a.unseal key (take e2ee_nonce_len sealed) (drop e2ee_nonce_len sealed) (aad seq))
      invalid_tag

-- `derive_key_from_passphrase`, with `str.strip` and SHA-256 of the UTF-8 bytes for parameters.
unfoldable pub derive_key_from_passphrase :
    (String → String) → (String → Bytes) → String → Result SealError Bytes
derive_key_from_passphrase strip sha256 passphrase = do
  raise_if (strip passphrase =ₛ "") blank_passphrase
  ok (sha256 passphrase)

abbrev pub or_empty : Option Bytes → Bytes
or_empty none = []
or_empty (some key) = key

abbrev pub read_key :
    (String → Option Bytes) → (String → String) → (String → Bytes) → String → Result SealError Bytes
read_key b64decode strip sha256 s =
    let key = or_empty (b64decode s) in
    if length key == 32 then ok key else derive_key_from_passphrase strip sha256 s

-- `load_e2ee_key`; `os.urandom(32)` gives the fresh key.
unfoldable pub load_e2ee_key :
    (String → Option Bytes)
    → (String → String)
    → (String → Bytes)
    → Bytes
    → Option String
    → Result SealError Bytes
load_e2ee_key b64decode strip sha256 fresh none = ok fresh
load_e2ee_key b64decode strip sha256 fresh (some raw) =
    if strip raw =ₛ "" then ok fresh else read_key b64decode strip sha256 (strip raw)

-- `_last`, the sequence number that each direction saw last.
abbrev pub Guard : Type 0
Guard = List (String × ℕ)

abbrev pub last_of : String → Guard → Option ℕ
last_of d [] = none
last_of d (e ∷ g) = if e.0 =ₛ d then some e.1 else last_of d g

abbrev pub set_last : String → ℕ → Guard → Guard
set_last d seq [] = (d, seq) ∷ []
set_last d seq (e ∷ g) = if e.0 =ₛ d then (d, seq) ∷ g else e ∷ set_last d seq g

abbrev pub is_replay : ℕ → Option ℕ → Bool
is_replay seq none = false
is_replay seq (some last) = leb seq last

-- `ReplayGuard.check` of a number that is not negative, with `none` for the `ValueError`.
unfoldable pub check : String → ℕ → Guard → Option Guard
check d seq g = if is_replay seq (last_of d g) then none else some (set_last d seq g)

abbrev pub or_same : Guard → Option Guard → Guard
or_same g none = g
or_same g (some g') = g'

-- The numbers of a direction that pass, in a run of checks of any directions.
abbrev pub passed_one : String → String → ℕ → Option Guard → List ℕ
passed_one d d' seq none = []
passed_one d d' seq (some g) = if d' =ₛ d then seq ∷ [] else []

unfoldable pub passed : String → List (String × ℕ) → Guard → List ℕ
passed d [] g = []
passed d (c ∷ cs) g =
    passed_one d c.0 c.1 (check c.0 c.1 g) ++ passed d cs (or_same g (check c.0 c.1 g))
