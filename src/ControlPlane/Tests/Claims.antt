-- ===== src/ControlPlane/Tests/Claims.antt =====
-- Runs of the hand-out of claims on concrete rows.
use bosimao_release.Prelude.{
  ℕ, String, none, [], ◌∷◌, ◌≡◌, ◌≢◌, refl, arith, false, ◌=ₛ◌, String_discrete,
}
use bosimao_release.ControlPlane.Schema.{Claim, Ledger, empty_ledger}
use bosimao_release.ControlPlane.Claims.{next_claim, claimed_as, claim_one, claim_all}
use bosimao_release.ControlPlane.Claims.Once.{IsUnique, claim_all-claim_one}

abbrev queued : ℕ → String → Claim
queued id session = record {
  id = id;
  session_id = session;
  device_id = "d";
  room_id = "r";
  generation = 1;
  expires_at = 100;
  claim_token_hash = none;
  claimed_at = none;
  consumed_at = none;
  signed_at = none;
  created_at = id;
  updated_at = id;
}

abbrev queue : Ledger
queue = record empty_ledger { claims = queued 2 "b" ∷ queued 1 "a" ∷ [] }

abbrev digest : String → String
digest s = s

abbrev handed_out : Ledger
handed_out = (claim_one digest "t" 10 queue).1

differ : ("b" =ₛ "a") ≡ false
unfolding String_discrete
differ = refl

queue-IsUnique : IsUnique queue.claims
queue-IsUnique k = ground (arith, differ)

claim_all-claim_one_example : (claimed_as (queued 2 "b") "u").session_id ≢ "a"
unfolding claim_one claim_all next_claim
claim_all-claim_one_example =
    claim_all-claim_one digest "t" "u" 10 11 [] queue handed_out
      (claim_one digest "u" 11 handed_out).1 (claimed_as (queued 1 "a") "t")
      (claimed_as (queued 2 "b") "u") queue-IsUnique refl refl
