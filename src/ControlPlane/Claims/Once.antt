-- ===== src/ControlPlane/Claims/Once.antt =====
-- A queued session is handed out once.
use bosimao_release.Prelude.{
  ℕ, String, Bool, true, some, List, [], ◌∷◌, ◌≡◌, ◌≢◌, arith, ◌==◌, count, update, Option-cases,
  Bool-cases, inl, inr, ◌⊎◌, ◌≤◌, ◌=ₛ◌, ap, sym, subst,
}
use bosimao_release.ControlPlane.Schema.{Claim, Ledger}
use bosimao_release.ControlPlane.Retry.{has_some}
use bosimao_release.ControlPlane.Claims.{
  Claimed, is_claimable, comes_before, next_claim, is_unclaimed, mark_claimed, claim_one, claim_all,
}

abbrev of_session : String → Claim → Bool
of_session k c = c.session_id =ₛ k

-- The unique index: one claim to a session.
abbrev pub IsUnique : List Claim → Type 0
IsUnique cs = (k : String) → count (of_session k) cs ≤ 1

-- Every row of the session is claimed.
abbrev IsTaken : String → List Claim → Type 0
IsTaken k [] = Unit
IsTaken k (c ∷ cs) = (c.session_id ≡ k → has_some c.claimed_at ≡ true) × IsTaken k cs

-- Every row of the session has this identifier.
abbrev HasId : String → ℕ → List Claim → Type 0
HasId k id [] = Unit
HasId k id (c ∷ cs) = (c.session_id ≡ k → c.id ≡ id) × HasId k id cs

abbrev InList : Claim → List Claim → Type 0
InList c [] = ⊥
InList c (x ∷ xs) = (c ≡ x) ⊎ InList c xs

next_claim-InList :
    (now : ℕ) (cs : List Claim) (c : Claim) → next_claim now cs ≡ some c → InList c cs
unfolding next_claim
next_claim-InList now [] c e = cc
next_claim-InList now (x ∷ cs) c e = elim (Option-cases (next_claim now cs)) [
  | inl nothing ↦ inl (ground arith)
  | inr (d, f) ↦ elim (Bool-cases (is_claimable now x)) [
    | inr closed ↦ inr (next_claim-InList now cs c (ground arith))
    | inl open_now ↦ elim (Bool-cases (comes_before d x)) [
      | inl earlier ↦ inr (next_claim-InList now cs c (ground arith))
      | inr later ↦ inl (ground arith)
    ]
  ]
]

none_left : (k : String) (id : ℕ) (cs : List Claim) → count (of_session k) cs ≡ 0 → HasId k id cs
none_left k id [] h = tt
none_left k id (c ∷ cs) h = (λ same. absurd (ground arith), none_left k id cs (ground arith))

counted : (c : Claim) (cs : List Claim) → InList c cs → 1 ≤ count (of_session c.session_id) cs
counted c [] m = absurd m
counted c (x ∷ cs) (inl same) = ground arith
counted c (x ∷ cs) (inr m) = ground (arith, counted c cs m)

only_one :
    (c : Claim) (cs : List Claim)
    → InList c cs
    → count (of_session c.session_id) cs ≤ 1
    → HasId c.session_id c.id cs
only_one c [] m h = tt
only_one c (x ∷ cs) (inl same) h =
    (λ e. ap (λ (y : Claim). y.id) (sym same), none_left c.session_id c.id cs (ground arith))
only_one c (x ∷ cs) (inr m) h =
    (λ e. absurd (ground (arith, counted c cs m)), only_one c cs m (ground arith))

update-IsTaken :
    (k : String) (id : ℕ) (hash : String) (now : ℕ) (cs : List Claim)
    → HasId k id cs
    → IsTaken k (update (is_unclaimed id) (mark_claimed hash now) cs)
update-IsTaken k id hash now [] h = tt
update-IsTaken k id hash now (c ∷ cs) h =
    (λ same. ground (arith, h.0), update-IsTaken k id hash now cs h.1)

keeps_IsTaken :
    (k : String) (id : ℕ) (hash : String) (now : ℕ) (cs : List Claim)
    → IsTaken k cs
    → IsTaken k (update (is_unclaimed id) (mark_claimed hash now) cs)
keeps_IsTaken k id hash now [] h = tt
keeps_IsTaken k id hash now (c ∷ cs) h =
    (λ same. ground (arith, h.0), keeps_IsTaken k id hash now cs h.1)

next_claim_other :
    (k : String) (now : ℕ) (cs : List Claim) (c : Claim)
    → IsTaken k cs
    → next_claim now cs ≡ some c
    → c.session_id ≢ k
unfolding next_claim
next_claim_other k now [] c h e = cc
next_claim_other k now (x ∷ cs) c h e = elim (Option-cases (next_claim now cs)) [
  | inl nothing ↦ λ same. ground (arith, h.0)
  | inr (d, f) ↦ λ same. ground (arith, h.0, next_claim_other k now cs d h.1 f)
]

module _ (digest : String → String) where
  claim_one-IsTaken :
      (k token : String) (now : ℕ) (l : Ledger)
      → IsTaken k l.claims
      → IsTaken k (claim_one digest token now l).1.claims
  unfolding claim_one
  claim_one-IsTaken k token now l h = elim (Option-cases (next_claim now l.claims)) [
    | inl nothing ↦ rw (nothing, claim_one) h
    | inr (c, e) ↦ elim (Bool-cases (count (is_unclaimed c.id) l.claims == 1)) [
      | inr other ↦ rw (e, claim_one, other) h
      | inl one ↦ rw (e, claim_one, one) (keeps_IsTaken k c.id (digest token) now l.claims h)
    ]
  ]

  claim_all-IsTaken :
      (k : String) (ts : List (String × ℕ)) (l : Ledger)
      → IsTaken k l.claims
      → IsTaken k (claim_all digest ts l).claims
  unfolding claim_all
  claim_all-IsTaken k [] l h = h
  claim_all-IsTaken k ((token, now) ∷ ts) l h =
      claim_all-IsTaken k ts (claim_one digest token now l).1 (claim_one-IsTaken k token now l h)

  claim_one_takes :
      (token : String) (now : ℕ) (l l' : Ledger) (x : Claimed)
      → IsUnique l.claims
      → claim_one digest token now l ≡ (some x, l')
      → IsTaken x.session_id l'.claims
  unfolding claim_one
  claim_one_takes token now l l' x u e = elim (Option-cases (next_claim now l.claims)) [
    | inl nothing ↦ absurd (ground arith)
    | inr (c, f) ↦ elim (Bool-cases (count (is_unclaimed c.id) l.claims == 1)) [
      | inr other ↦ absurd (ground arith)
      | inl one ↦
          let ids = only_one c l.claims (next_claim-InList now l.claims c f) (u c.session_id) in
          let taken = update-IsTaken c.session_id c.id (digest token) now l.claims ids in
          let session : c.session_id ≡ x.session_id = ground arith in
          let rows : update (is_unclaimed c.id) (mark_claimed (digest token) now) l.claims
              ≡ l'.claims =
            ground arith in
          subst (λ k. IsTaken k l'.claims) session (subst (IsTaken c.session_id) rows taken)
    ]
  ]

  other_session :
      (k token : String) (now : ℕ) (l l' : Ledger) (y : Claimed)
      → IsTaken k l.claims
      → claim_one digest token now l ≡ (some y, l')
      → y.session_id ≢ k
  unfolding claim_one
  other_session k token now l l' y h e = elim (Option-cases (next_claim now l.claims)) [
    | inl nothing ↦ absurd (ground arith)
    | inr (c, f) ↦ λ same. next_claim_other k now l.claims c h f (ground arith)
  ]

  -- With one claim to a session, as the unique index has it, a session that was handed out is not
  -- handed out again, after any further hand-outs, whatever tokens and times they have.
  pub claim_all-claim_one :
      (token token' : String) (now now' : ℕ) (ts : List (String × ℕ)) (l l' l'' : Ledger)
      (x y : Claimed)
      → IsUnique l.claims
      → claim_one digest token now l ≡ (some x, l')
      → claim_one digest token' now' (claim_all digest ts l') ≡ (some y, l'')
      → y.session_id ≢ x.session_id
  claim_all-claim_one token token' now now' ts l l' l'' x y u e f =
      other_session x.session_id token' now' (claim_all digest ts l') l'' y
        (claim_all-IsTaken x.session_id ts l' (claim_one_takes token now l l' x u e)) f
