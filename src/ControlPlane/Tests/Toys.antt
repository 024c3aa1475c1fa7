-- ===== src/ControlPlane/Tests/Toys.antt =====
-- Concrete libraries for the tests: a coding of texts by the numbers of their characters, and a
-- cipher that adds a tag and hides nothing.
use Prim.Native.Nat.{Ordering, compare}
use Prim.Native.Char.{Char, char, code, IsLt, IsScalar}
use Prim.Native.String.{◌++◌ as ◌<>◌}
use bosimao_release.Prelude.{
  ℕ, ◌-◌, String, Option, none, some, [], ◌∷◌, ◌++◌, ◌≡◌, refl, ap, ◌∙◌, arith, length, take,
  replicate, length-append,
}
use bosimao_release.ControlPlane.Payload.{Value, text, int, null, Payload, Hashing}
use bosimao_release.ControlPlane.Cipher.{Bytes, Aead, IsAead, UserSigCipher}
use bosimao_release.ControlPlane.History.{Host}

-- The clauses of the test that `IsScalar` makes.
abbrev Both : Ordering → Ordering → Type 0
Both Ordering.lt o = IsLt o
Both Ordering.eq _ = ⊥
Both Ordering.gt _ = ⊥

abbrev Scalar : Ordering → Ordering → Ordering → Type 0
Scalar Ordering.lt _ _ = Unit
Scalar Ordering.eq o p = Both o p
Scalar Ordering.gt o p = Both o p

abbrev decide_lt : (o : Ordering) → Option (IsLt o)
decide_lt Ordering.lt = some tt
decide_lt Ordering.eq = none
decide_lt Ordering.gt = none

abbrev decide_both : (o p : Ordering) → Option (Both o p)
decide_both Ordering.lt p = decide_lt p
decide_both Ordering.eq p = none
decide_both Ordering.gt p = none

abbrev decide_scalar : (o p q : Ordering) → Option (Scalar o p q)
decide_scalar Ordering.lt p q = some tt
decide_scalar Ordering.eq p q = decide_both p q
decide_scalar Ordering.gt p q = decide_both p q

lt_decided : (o : Ordering) (h : IsLt o) → decide_lt o ≡ some h
lt_decided Ordering.lt h = refl
lt_decided Ordering.eq h = absurd h
lt_decided Ordering.gt h = absurd h

both_decided : (o p : Ordering) (h : Both o p) → decide_both o p ≡ some h
both_decided Ordering.lt p h = lt_decided p h
both_decided Ordering.eq p h = absurd h
both_decided Ordering.gt p h = absurd h

scalar_decided : (o p q : Ordering) (h : Scalar o p q) → decide_scalar o p q ≡ some h
scalar_decided Ordering.lt p q h = refl
scalar_decided Ordering.eq p q h = both_decided p q h
scalar_decided Ordering.gt p q h = both_decided p q h

abbrev with_scalar : (n : ℕ) → Option (IsScalar n) → Option Char
with_scalar n none = none
with_scalar n (some h) = some (char n h)

abbrev to_char : ℕ → Option Char
to_char n = with_scalar n (decide_scalar (compare n 55296) (compare 57343 n) (compare n 1114112))

to_char-code : (c : Char) → to_char (code c) ≡ some c
to_char-code (char n h) =
    ap (with_scalar n) (scalar_decided (compare n 55296) (compare 57343 n) (compare n 1114112) h)

abbrev encode : String → Bytes
encode String.[] = []
encode (String.◌∷◌ c s) = code c ∷ encode s

abbrev cons_char : Option Char → Option String → Option String
cons_char none s = none
cons_char (some c) none = none
cons_char (some c) (some s) = some (String.◌∷◌ c s)

abbrev decode : Bytes → Option String
decode [] = some String.[]
decode (n ∷ ns) = cons_char (to_char n) (decode ns)

decode-encode : (s : String) → decode (encode s) ≡ some s
decode-encode String.[] = refl
decode-encode (String.◌∷◌ c s) = rw (to_char-code c, decode-encode s)

take_front : (xs ys : Bytes) → take (length xs) (xs ++ ys) ≡ xs
take_front [] ys = refl
take_front (x ∷ xs) ys = rw (take_front xs ys)

abbrev value_text : Value → String
value_text (text s) = "t" <> s
value_text (int n) = "i"
value_text null = "n"

abbrev dump : Payload → String
dump [] = ""
dump ((k, v) ∷ p) = k <> (":" <> (value_text v <> ("," <> dump p)))

abbrev pub toy_aead : Aead
toy_aead = record {
  seal = λ key nonce plain aad. plain ++ replicate 16 0;
  unseal = λ key nonce sealed aad. some (take (length sealed - 16) sealed);
  utf8 = encode;
  from_utf8 = decode;
  dumps = dump;
}

unseal_toy :
    (plain : Bytes) → take (length (plain ++ replicate 16 0) - 16) (plain ++ replicate 16 0) ≡ plain
unseal_toy plain =
    ap (λ n. take n (plain ++ replicate 16 0)) (omega (arith, length-append plain (replicate 16 0)))
    ∙ take_front plain (replicate 16 0)

pub toy_aead-IsAead : IsAead toy_aead
toy_aead-IsAead = record {
  unseal-seal = λ key nonce plain aad. ap some (unseal_toy plain);
  length-seal = λ key nonce plain aad. length-append plain (replicate 16 0);
  from_utf8-utf8 = decode-encode;
}

abbrev pub toy_hashing : Hashing
toy_hashing = record { dumps = dump; sha256_hex = λ s. "h" <> s }

abbrev pub toy_cipher : UserSigCipher
toy_cipher = record { key = replicate 32 7; version = "v1" }

abbrev pub toy_time : ℕ → String
toy_time n = "time"

abbrev pub toy_host : Host
toy_host = record {
  hashing = toy_hashing;
  aead = toy_aead;
  iso8601 = toy_time;
  cipher = some toy_cipher;
}

abbrev pub nonce12 : Bytes
nonce12 = replicate 12 3
