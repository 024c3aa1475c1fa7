-- ===== src/ControlPlane/Replays/Hello.antt =====
-- A proof is redeemed once: backend/app/voice/repositories/hello_proofs.py.
use bosimao_release.Prelude.{
  ℕ, String, Option, none, some, List, [], ◌∷◌, ◌≡◌, arith, true, ◌=ₛ◌, find, Option-cases,
  Result-cases, inl, inr, ok, err,
}
use bosimao_release.ControlPlane.Schema.{HelloRow, Ledger, hello_conflict}
use bosimao_release.ControlPlane.Retry.{has_some}
use bosimao_release.ControlPlane.Hello.{
  HelloClaims, HelloBody, Redeemed, redeem, redeem_tx, check_body, check_row, consume_row,
}

abbrev proof_at : String → List HelloRow → Option HelloRow
proof_at jti rows = find (λ (r : HelloRow). r.jti =ₛ jti) rows

abbrev IsSpent : Option HelloRow → Type 0
IsSpent none = ⊥
IsSpent (some r) = has_some r.consumed_at ≡ true

consume_row-IsSpent :
    (digest : String → String) (jti : String) (now : ℕ) (rows : List HelloRow) (r : HelloRow)
    → proof_at jti rows ≡ some r
    → IsSpent (proof_at jti (consume_row digest jti now rows))
consume_row-IsSpent digest jti now [] r e = cc
consume_row-IsSpent digest jti now (x ∷ rows) r e =
    ground (arith, consume_row-IsSpent digest jti now rows r)

redeem_tx-IsSpent :
    (digest : String → String) (c : HelloClaims) (proof : String) (b : HelloBody) (now : ℕ)
    (l l' : Ledger) (r : Redeemed)
    → redeem_tx digest c proof b now l ≡ ok (r, l')
    → IsSpent (proof_at c.jti l'.hellos)
unfolding redeem_tx
redeem_tx-IsSpent digest c proof b now l l' r e = elim (Option-cases (proof_at c.jti l.hellos)) [
  | inl gone ↦ ground arith
  | inr (row, f) ↦ ground (arith, consume_row-IsSpent digest c.jti now l.hellos row f)
]

spent_refuses :
    (digest : String → String) (c : HelloClaims) (proof : String) (b : HelloBody) (now : ℕ)
    (l : Ledger)
    → IsSpent (proof_at c.jti l.hellos)
    → redeem_tx digest c proof b now l ≡ err (hello_conflict 40113)
unfolding redeem_tx check_row
spent_refuses digest c proof b now l h = elim (Option-cases (proof_at c.jti l.hellos)) [
  | inl gone ↦ ground arith
  | inr (row, f) ↦ ground arith
]

-- A proof that was redeemed is refused the next time, with the error of a replay if the claims
-- still match the body, whatever proof, claims and body of the same `jti` come with it; and the
-- ledger stays as it is.
pub redeem-redeem :
    (digest : String → String) (c c' : HelloClaims) (proof proof' : String) (b b' : HelloBody)
    (now now' : ℕ) (l l' : Ledger) (r : Redeemed)
    → redeem digest c proof b now l ≡ (ok r, l')
    → c'.jti ≡ c.jti
    → check_body digest c' b' ≡ ok tt
    → redeem digest c' proof' b' now' l' ≡ (err (hello_conflict 40113), l')
unfolding redeem
redeem-redeem digest c c' proof proof' b b' now now' l l' r e same body =
    elim (Result-cases (redeem_tx digest c proof b now l)) [
      | inl (x, bad) ↦ ground arith
      | inr (p, good) ↦ ground (
        arith,
        redeem_tx-IsSpent digest c proof b now l p.1 p.0 good,
        spent_refuses digest c' proof' b' now' l',
      )
    ]
