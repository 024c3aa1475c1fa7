-- ===== src/ControlPlane/Evidence/Inherited.antt =====
-- The rows that a retry inherits from its parent.
use bosimao_release.Prelude.{
  ℕ, String, true, false, none, some, List, [], ◌∷◌, ◌++◌, ◌≡◌, ◌≤◌, refl, arith, find, count, ◌=ₛ◌,
}
use bosimao_release.ControlPlane.Schema.{AckResult, Ack, AckRow}
use bosimao_release.ControlPlane.Sessions.{is_ack}
use bosimao_release.ControlPlane.Acks.{is_confirmed_ack}
use bosimao_release.ControlPlane.Retry.{inherited_acks}

module _ (child parent : String) (now : ℕ) (olds : List AckRow) where
  -- Another termination's rows are found as before.
  pub find-inherited_ne :
      (j : String) (b : Ack) (acks : List AckRow)
      → (child =ₛ j) ≡ false
      → find (is_ack j b) (inherited_acks child parent now acks ++ olds) ≡ find (is_ack j b) olds
  unfolding inherited_acks
  find-inherited_ne j b [] h = refl
  find-inherited_ne j b (a ∷ rest) h = ground (arith, find-inherited_ne j b rest h)

  pub count-inherited_ne :
      (j : String) (b : Ack) (acks : List AckRow)
      → (child =ₛ j) ≡ false
      → count (is_ack j b) (inherited_acks child parent now acks ++ olds) ≡ count (is_ack j b) olds
  unfolding inherited_acks
  count-inherited_ne j b [] h = refl
  count-inherited_ne j b (a ∷ rest) h = ground (arith, count-inherited_ne j b rest h)

  pub confirmed-inherited_ne :
      (j : String) (acks : List AckRow)
      → (child =ₛ j) ≡ false
      → count (is_confirmed_ack j) (inherited_acks child parent now acks ++ olds)
        ≡ count (is_confirmed_ack j) olds
  unfolding inherited_acks
  confirmed-inherited_ne j [] h = refl
  confirmed-inherited_ne j (a ∷ rest) h = ground (arith, confirmed-inherited_ne j rest h)

  -- The child has as many rows to an acknowledgement as the parent at most.
  pub count-inherited_self :
      (b : Ack) (acks : List AckRow)
      → count (is_ack child b) olds ≡ 0
      → count (is_ack child b) (inherited_acks child parent now acks ++ olds)
        ≤ count (is_ack parent b) acks
  unfolding inherited_acks
  count-inherited_self b [] h = omega arith
  count-inherited_self b (a ∷ rest) h = ground (arith, count-inherited_self b rest h)

  -- The child's rows are confirmed, and marked as inherited.
  pub find-inherited_self :
      (b : Ack) (acks : List AckRow) (r : AckRow)
      → find (is_ack child b) olds ≡ none
      → find (is_ack child b) (inherited_acks child parent now acks ++ olds) ≡ some r
      → (r.inherited ≡ true) × (r.result ≡ AckResult.confirmed)
  unfolding inherited_acks
  find-inherited_self b [] r h e = cc
  find-inherited_self b (a ∷ rest) r h e = ground (arith, find-inherited_self b rest r h)
