-- ===== src/ControlPlane/Claims.antt =====
-- The hand-out of queued sessions to the signer: backend/app/voice/repositories/pending_sessions.py.
-- The queue is filled by `insert_claim`; SHA-256 and the random token are parameters.
pub mod Once
use bosimao_release.Prelude.{
  ℕ, String, Bool, true, false, not, Option, none, some, List, [], ◌∷◌, ◌==◌, ◌&&◌, ◌||◌, ltb,
  if◌then◌else◌, update, count,
}
use bosimao_release.ControlPlane.Schema.{Claim, Ledger}
use bosimao_release.ControlPlane.Retry.{has_some}

-- `WHERE claimed_at IS NULL AND expires_at > …`
abbrev pub is_claimable : ℕ → Claim → Bool
is_claimable now c = not (has_some c.claimed_at) && ltb now c.expires_at

-- `ORDER BY created_at ASC, id ASC`
abbrev pub comes_before : Claim → Claim → Bool
comes_before a b = ltb a.created_at b.created_at || (a.created_at == b.created_at && ltb a.id b.id)

abbrev pub first_of : Claim → Option Claim → Claim
first_of c none = c
first_of c (some d) = if comes_before d c then d else c

-- The candidate: the first row of the `SELECT … LIMIT 1`.
unfoldable pub next_claim : ℕ → List Claim → Option Claim
next_claim now [] = none
next_claim now (c ∷ cs) =
    let rest = next_claim now cs in if is_claimable now c then some (first_of c rest) else rest

-- What `claim_one` returns.
pub record Claimed : Type 0 where
  pub session_id : String
  pub device_id : String
  pub room_id : String
  pub generation : ℕ
  pub expires_at : ℕ
  pub claim_token : String

abbrev pub claimed_as : Claim → String → Claimed
claimed_as c token = record {
  session_id = c.session_id;
  device_id = c.device_id;
  room_id = c.room_id;
  generation = c.generation;
  expires_at = c.expires_at;
  claim_token = token;
}

-- `WHERE id = … AND claimed_at IS NULL`
abbrev pub is_unclaimed : ℕ → Claim → Bool
is_unclaimed id c = c.id == id && not (has_some c.claimed_at)

abbrev pub mark_claimed : String → ℕ → Claim → Claim
mark_claimed token_hash now c = record c {
  claim_token_hash = some token_hash;
  claimed_at = some now;
  consumed_at = some now;
  updated_at = now;
}

module _ (digest : String → String) where
  -- `claim_one`: nothing is handed out and nothing written unless the update meets one row.
  unfoldable pub claim_one : String → ℕ → Ledger → Option Claimed × Ledger
  claim_one token now l = elim (next_claim now l.claims) [
    | none ↦ (none, l)
    | some c ↦
        if count (is_unclaimed c.id) l.claims == 1
        then (
          some (claimed_as c token),
          record l {
            claims = update (is_unclaimed c.id) (mark_claimed (digest token) now) l.claims;
          },
        )
        else (none, l)
  ]

  -- The ledger after several calls, each with its token and its time.
  unfoldable pub claim_all : List (String × ℕ) → Ledger → Ledger
  claim_all [] l = l
  claim_all ((token, now) ∷ ts) l = claim_all ts (claim_one token now l).1
