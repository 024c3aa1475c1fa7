-- ===== src/ControlPlane/Evidence/Rows.antt =====
-- What the writes of `record_ack` and of a retry do to the acknowledgement rows and the reports.
use bosimao_release.Prelude.{
  ℕ, String, Bool, false, Option, none, some, List, [], ◌∷◌, ◌≡◌, ◌≤◌, refl, arith, find, count,
  update, Option-cases, inl, inr, keep, ◌=ₛ◌, ◌&&◌,
}
use bosimao_release.ControlPlane.Schema.{AckResult, Ack, AckRow, AckReport, same_ack}
use bosimao_release.ControlPlane.Sessions.{is_ack}
use bosimao_release.ControlPlane.Acks.{
  write_ack, upsert_report, is_report, aggregate, is_confirmed_ack,
}
use bosimao_release.ControlPlane.Acks.Calls.{is_inherited}

-- Two acknowledgements of two terminations are the same one.
abbrev pub is_same : String → Ack → String → Ack → Bool
is_same k ack j b = k =ₛ j && same_ack ack b

abbrev pub rewrite : String → Ack → AckResult → ℕ → List AckRow → List AckRow
rewrite k ack result now =
    update (is_ack k ack) (λ a. record a { result = result; updated_at = now })

abbrev pub with_ack_result : AckResult → ℕ → AckRow → AckRow
with_ack_result result now a = record a { result = result; updated_at = now }

find-rewrite_ne :
    (k : String) (ack : Ack) (result : AckResult) (now : ℕ) (j : String) (b : Ack)
    (acks : List AckRow)
    → is_same k ack j b ≡ false
    → find (is_ack j b) (rewrite k ack result now acks) ≡ find (is_ack j b) acks
find-rewrite_ne k ack result now j b [] h = refl
find-rewrite_ne k ack result now j b (a ∷ rest) h =
    ground (arith, find-rewrite_ne k ack result now j b rest h)

find-rewrite_self :
    (k : String) (ack : Ack) (result : AckResult) (now : ℕ) (acks : List AckRow) (a : AckRow)
    → find (is_ack k ack) acks ≡ some a
    → find (is_ack k ack) (rewrite k ack result now acks) ≡ some (with_ack_result result now a)
find-rewrite_self k ack result now [] a h = cc
find-rewrite_self k ack result now (x ∷ rest) a h =
    ground (arith, find-rewrite_self k ack result now rest a)

count-rewrite :
    (k : String) (ack : Ack) (result : AckResult) (now : ℕ) (j : String) (b : Ack)
    (acks : List AckRow)
    → count (is_ack j b) (rewrite k ack result now acks) ≡ count (is_ack j b) acks
count-rewrite k ack result now j b [] = refl
count-rewrite k ack result now j b (a ∷ rest) =
    ground (arith, count-rewrite k ack result now j b rest)

confirmed-rewrite_ne :
    (k : String) (ack : Ack) (result : AckResult) (now : ℕ) (j : String) (acks : List AckRow)
    → (k =ₛ j) ≡ false
    → count (is_confirmed_ack j) (rewrite k ack result now acks) ≡ count (is_confirmed_ack j) acks
confirmed-rewrite_ne k ack result now j [] h = refl
confirmed-rewrite_ne k ack result now j (a ∷ rest) h =
    ground (arith, confirmed-rewrite_ne k ack result now j rest h)

pub count-none :
    (j : String) (b : Ack) (acks : List AckRow)
    → find (is_ack j b) acks ≡ none
    → count (is_ack j b) acks ≡ 0
count-none j b [] h = refl
count-none j b (a ∷ rest) h = ground (arith, count-none j b rest)

keep-upsert_ne :
    (r : AckReport) (j : String) (b : Ack) (rs : List AckReport)
    → is_same r.termination_id r.acknowledgement j b ≡ false
    → keep (is_report j b) (upsert_report r rs) ≡ keep (is_report j b) rs
unfolding upsert_report
keep-upsert_ne r j b [] h = ground arith
keep-upsert_ne r j b (x ∷ rest) h = ground (arith, keep-upsert_ne r j b rest h)

-- The reports of another acknowledgement are as they were.
pub aggregate-upsert_ne :
    (r : AckReport) (j : String) (b : Ack) (rs : List AckReport)
    → is_same r.termination_id r.acknowledgement j b ≡ false
    → aggregate j b (upsert_report r rs) ≡ aggregate j b rs
unfolding aggregate
aggregate-upsert_ne r j b rs h = rw (keep-upsert_ne r j b rs h)

-- The write of an acknowledgement, over the row that was read.
module _ (k : String) (ack : Ack) (result : AckResult) (now : ℕ) (acks : List AckRow)
    (cur : Option AckRow) (read : find (is_ack k ack) acks ≡ cur) where
  abbrev pub written : List AckRow
  written = write_ack k ack result now cur acks

  pub find-write_ne :
      (j : String) (b : Ack)
      → is_same k ack j b ≡ false
      → find (is_ack j b) written ≡ find (is_ack j b) acks
  unfolding write_ack
  find-write_ne j b h = ground (arith, find-rewrite_ne k ack result now j b acks h)

  pub find-write_self :
      (a : AckRow)
      → find (is_ack k ack) written ≡ some a
      → (a.result ≡ result) × (a.inherited ≡ is_inherited cur)
  unfolding write_ack
  find-write_self a e = elim (Option-cases cur) [
    | inl new ↦ ground arith
    | inr (x, old) ↦ ground (arith, find-rewrite_self k ack result now acks x)
  ]

  pub count-write :
      (j : String) (b : Ack) → count (is_ack j b) acks ≤ 1 → count (is_ack j b) written ≤ 1
  unfolding write_ack
  count-write j b h = ground (arith, count-rewrite k ack result now j b acks, count-none j b acks)

  pub confirmed-write_ne :
      (j : String)
      → (k =ₛ j) ≡ false
      → count (is_confirmed_ack j) written ≡ count (is_confirmed_ack j) acks
  unfolding write_ack
  confirmed-write_ne j h = ground (arith, confirmed-rewrite_ne k ack result now j acks h)
