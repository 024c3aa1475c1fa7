-- ===== src/RtcBridge/Tests/Redemptions.antt =====
-- The theorems on redemptions and acknowledgement reports at concrete inputs.
use bosimao_release.Prelude.{
  ℕ, zero, suc, ◌≤◌, ◌≡◌, refl, true, Option, some, [], ◌∷◌, ok, String_discrete,
}
use bosimao_release.Voice.Jwt.{text, int, boolean, Claims}
use bosimao_release.RtcBridge.Redemption.{Reply, connect_timeout, response, body, redeem}
use bosimao_release.RtcBridge.Redemption.Bound.{IsRedeemed, redeem-IsRedeemed}

abbrev hello : Claims
hello =
    ("session_id", text "s")
    ∷ ("device_id", text "d")
    ∷ ("room_id", text "r")
    ∷ ("sidecar_user_id", text "jax-pc-sidecar")
    ∷ ("generation", int 1)
    ∷ []

abbrev granted : Claims
granted = ("redeemed", boolean true) ∷ ("expires_at", text "later") ∷ hello

-- The first request cannot connect, and the second is answered.
abbrev replies : ℕ → Reply
replies n = elim n [
  | zero ↦ connect_timeout
  | suc k ↦ response 200 (body (some (int 0)) (some granted))
]

redeem-IsRedeemed_example :
    ((c : Claims)
      → (redeem some replies hello).0 ≡ ok c
      → (payload : Claims) × ◌≡◌ {A = Option Claims} (some hello) (some payload)
        × IsRedeemed payload c)
    × ((redeem some replies hello).1 ≤ 2)
    × (((redeem some replies hello).1 ≡ 2) → replies 0 ≡ connect_timeout)
redeem-IsRedeemed_example = redeem-IsRedeemed some replies hello

redeemed_second : redeem some replies hello ≡ (ok granted, 2)
unfolding redeem String_discrete
redeemed_second = refl
