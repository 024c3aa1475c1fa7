-- ===== src/Voice/Jwt.antt =====
-- What the backend takes from PyJWT, and the reading of claims, for backend/app/voice/hello_proof.py and
-- ingest_ticket.py.
use bosimao_release.Prelude.{
  ℕ, ◌≡◌, String, Bool, true, false, not, Option, none, some, List, [], ◌∷◌, ◌&&◌, ◌=ₛ◌, all, any,
  if◌then◌else◌,
}
use bosimao_release.ControlPlane.Payload
use bosimao_release.ControlPlane.Payload.{Payload}
use bosimao_release.ControlPlane.Hello.{same_payload}

-- A JSON value of a claim; `negative n` is -n, of a positive n, and `texts` a list of texts.
pub data Claim : Type 0 where
  null : Claim
  text : String → Claim
  texts : List String → Claim
  int negative : ℕ → Claim
  boolean : Bool → Claim
  table : Payload → Claim
  other : String → Claim

abbrev pub Claims : Type 0
Claims = List (String × Claim)

-- `claims.get(key)`
abbrev pub get_claim : String → Claims → Option Claim
get_claim key [] = none
get_claim key (c ∷ cs) = if c.0 =ₛ key then some c.1 else get_claim key cs

abbrev pub is_claim : String → Option Claim → Bool
is_claim s (some (text t)) = t =ₛ s
is_claim s _ = false

-- A claim that is there and not null.
abbrev pub is_given : Option Claim → Bool
is_given none = false
is_given (some null) = false
is_given (some v) = true

abbrev pub has_claim : Claims → String → Bool
has_claim c key = is_given (get_claim key c)

abbrev pub is_text_claim : Option Claim → Bool
is_text_claim (some (text t)) = true
is_text_claim _ = false

-- No key twice.
abbrev pub have_own_keys {ℓ} : {A : Type ℓ} → List (String × A) → Bool
have_own_keys [] = true
have_own_keys {A = A} (c ∷ cs) = all (λ (d : String × A). not (d.0 =ₛ c.0)) cs && have_own_keys cs

-- A text that is not empty.
abbrev pub is_name : Option Claim → Bool
is_name (some (text t)) = not (t =ₛ "")
is_name _ = false

-- The options of `jwt.decode`: the audience where it is verified, the issuer, and the claims required.
pub record Options : Type 0 where
  pub audience : Option String
  pub issuer : String
  pub required : List String

-- Tokens are texts of the library's making, and stand here for themselves. A token that does not read, or
-- whose signature does not fit the key, gives `none`, for the exceptions of the library.
pub record Jwt (Token : Type 0) : Type 0 where
  pub is_blank : Token → Bool
  pub encode : String → Payload → Claims → Token
  pub header_of : Token → Option Payload
  pub decode : Token → String → Options → Option Claims

-- An audience is a text that is not empty, or a list of texts with the one that is asked for among them.
abbrev pub is_meant : String → Option Claim → Bool
is_meant audience (some (text t)) = not (t =ₛ "") && t =ₛ audience
is_meant audience (some (texts ts)) = any (λ t. t =ₛ audience) ts
is_meant audience _ = false

-- What the options let pass.
abbrev pub fits : Option String → Claims → Bool
fits none c = true
fits (some audience) c = is_meant audience (get_claim "aud" c)

abbrev pub accepts : Options → Claims → Bool
accepts o c =
    all (has_claim c) o.required && is_claim o.issuer (get_claim "iss" c) && fits o.audience c

-- The header of a token that is signed with EdDSA under a key's name.
abbrev pub eddsa_header : String → Payload
eddsa_header kid =
    ("alg", Payload.text "EdDSA") ∷ ("typ", Payload.text "JWT") ∷ ("kid", Payload.text kid) ∷ []

-- A value that is written as JSON and read back as it is.
abbrev pub is_json : Claim → Bool
is_json (other s) = false
is_json (table p) = have_own_keys p
is_json _ = true

abbrev pub is_absent : Option Claim → Bool
is_absent none = true
is_absent (some v) = false

-- Claims that the library writes and reads as they are: JSON values under different keys, with a text for
-- the identifier, and neither a subject nor a time before which the token does not hold, which it would check.
abbrev pub is_written : Claims → Bool
is_written c =
    have_own_keys c
    && all (λ (e : String × Claim). is_json e.1) c
    && is_text_claim (get_claim "jti" c)
    && is_absent (get_claim "sub" c)
    && is_absent (get_claim "nbf" c)

-- What the library documents, for a pair of keys: a token that is encoded with the private key is not
-- blank, has the header, in some order of its keys, and, where the claims are written as they are and the options
-- let them pass, is decoded with the public key to those claims. Whatever is decoded passes the options, and the
-- options do not change what a token says.
pub record IsJwt {Token : Type 0} (j : Jwt Token) (private_key public_key : String) : Type 0 where
  pub is_blank-encode :
      (kid : String) (c : Claims) → j.is_blank (j.encode private_key (eddsa_header kid) c) ≡ false
  pub header-encode :
      (kid : String) (c : Claims)
      → (h : Payload) × (j.header_of (j.encode private_key (eddsa_header kid) c) ≡ some h)
        × (same_payload h (eddsa_header kid) ≡ true)
  pub decode-encode :
      (kid : String) (c : Claims) (o : Options)
      → is_written c ≡ true
      → accepts o c ≡ true
      → j.decode (j.encode private_key (eddsa_header kid) c) public_key o ≡ some c
  pub decode-accepts :
      (t : Token) (o : Options) (c : Claims) → j.decode t public_key o ≡ some c → accepts o c ≡ true
  pub decode_same :
      (t : Token) (o o' : Options) (c c' : Claims)
      → j.decode t public_key o ≡ some c
      → j.decode t public_key o' ≡ some c'
      → c ≡ c'
