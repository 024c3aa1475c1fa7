-- ===== src/ControlPlane/Evidence/Moves.antt =====
-- The writes of acknowledgements, new terminations and final results keep the evidence.
use bosimao_release.Prelude.{
  ℕ, String, false, Option, none, some, List, ◌∷◌, ◌++◌, ◌≡◌, ◌≢◌, ◌≤◌, arith, find, count, ◌=ₛ◌,
  Option-cases, Bool-cases, inl, inr,
}
use bosimao_release.ControlPlane.Schema.{
  State, TerminationResult, AckResult, Ack, AckRow, AckReport, Termination, termination_at,
  set_termination_result,
}
use bosimao_release.ControlPlane.Sessions.{is_ack}
use bosimao_release.ControlPlane.Acks.{is_confirmed_ack, aggregate, upsert_report, write_ack}
use bosimao_release.ControlPlane.Acks.Calls.{is_inherited}
use bosimao_release.ControlPlane.Retry.{inherited_acks}
use bosimao_release.ControlPlane.Invariant.{termination_at-set}
use bosimao_release.ControlPlane.Evidence.{AckInv, Backed}
use bosimao_release.ControlPlane.Evidence.Rows.{
  is_same, find-write_ne, find-write_self, count-write, confirmed-write_ne, aggregate-upsert_ne,
  count-none,
}
use bosimao_release.ControlPlane.Evidence.Inherited.{
  find-inherited_ne, find-inherited_self, count-inherited_ne, count-inherited_self,
  confirmed-inherited_ne,
}

module _ (ts : List Termination) (acks : List AckRow) (reports : List AckReport)
    (v : AckInv ts acks reports) where
  module _ (r : AckReport) (t : Termination) (now : ℕ) (cur : Option AckRow)
      (known : termination_at r.termination_id ts ≡ some t)
      (waits : t.result ≡ TerminationResult.pending)
      (read : find (is_ack r.termination_id r.acknowledgement) acks ≡ cur)
      (own : is_inherited cur ≡ false) where
    abbrev total : AckResult
    total = aggregate r.termination_id r.acknowledgement (upsert_report r reports)

    abbrev acks' : List AckRow
    acks' = write_ack r.termination_id r.acknowledgement total now cur acks

    write-known :
        (k : String) (b : Ack) → find (is_ack k b) acks' ≢ none → termination_at k ts ≢ none
    write-known k b h = elim (Bool-cases (is_same r.termination_id r.acknowledgement k b)) [
      | inl same ↦ ground (arith, known)
      | inr other ↦ v.known k b (
          rw (← find-write_ne r.termination_id r.acknowledgement total now acks cur read k b other)
            h)
    ]

    write-Backed :
        (k : String) (b : Ack) → Backed (upsert_report r reports) k b (find (is_ack k b) acks')
    write-Backed k b = elim (Option-cases (find (is_ack k b) acks')) [
      | inl gone ↦ rw gone tt
      | inr (a, e) ↦ elim (Bool-cases (is_same r.termination_id r.acknowledgement k b)) [
        | inl same ↦
            ground
              (arith, find-write_self r.termination_id r.acknowledgement total now acks cur read a)
        | inr other ↦ ground (
          arith,
          find-write_ne r.termination_id r.acknowledgement total now acks cur read k b other,
          aggregate-upsert_ne r k b reports other,
          v.backed k b,
        )
      ]
    ]

    write-five :
        (k : String) (u : Termination)
        → termination_at k ts ≡ some u
        → u.result ≡ TerminationResult.complete
        → count (is_confirmed_ack k) acks' ≡ 5
    write-five k u e c = ground (
      arith,
      known,
      confirmed-write_ne r.termination_id r.acknowledgement total now acks cur read k,
      v.five k u e c,
    )

    pub write-AckInv : AckInv ts acks' (upsert_report r reports)
    write-AckInv = record {
      known = write-known;
      once = λ k b.
          count-write r.termination_id r.acknowledgement total now acks cur read k b (v.once k b);
      backed = write-Backed;
      five = write-five;
    }

  -- A new termination, with the rows that it inherits from `parent`.
  module _ (t : Termination) (parent : String) (now : ℕ)
      (fresh : termination_at t.termination_id ts ≡ none)
      (waits : t.result ≡ TerminationResult.pending) where
    no_rows : (b : Ack) → find (is_ack t.termination_id b) acks ≡ none
    no_rows b = elim (Option-cases (find (is_ack t.termination_id b) acks)) [
      | inl e ↦ e
      | inr (a, e) ↦ absurd (v.known t.termination_id b (λ n. cc) fresh)
    ]

    abbrev all_acks : List AckRow
    all_acks = inherited_acks t.termination_id parent now acks ++ acks

    retry-known :
        (k : String) (b : Ack)
        → find (is_ack k b) all_acks ≢ none
        → termination_at k (t ∷ ts) ≢ none
    retry-known k b h = elim (Bool-cases (t.termination_id =ₛ k)) [
      | inl same ↦ ground arith
      | inr other ↦
          let before : find (is_ack k b) acks ≢ none =
            rw (← find-inherited_ne t.termination_id parent now acks k b acks other) h in
          ground (arith, v.known k b before)
    ]

    retry-once : (k : String) (b : Ack) → count (is_ack k b) all_acks ≤ 1
    retry-once k b = ground (
      arith,
      count-inherited_ne t.termination_id parent now acks k b acks,
      count-inherited_self t.termination_id parent now acks b acks,
      count-none t.termination_id b acks (no_rows b),
      v.once k b,
      v.once parent b,
    )

    retry-Backed : (k : String) (b : Ack) → Backed reports k b (find (is_ack k b) all_acks)
    retry-Backed k b = elim (Option-cases (find (is_ack k b) all_acks)) [
      | inl gone ↦ rw gone tt
      | inr (a, e) ↦ ground (
        arith,
        find-inherited_ne t.termination_id parent now acks k b acks,
        find-inherited_self t.termination_id parent now acks b acks a (no_rows b),
        v.backed k b,
      )
    ]

    retry-five :
        (k : String) (u : Termination)
        → termination_at k (t ∷ ts) ≡ some u
        → u.result ≡ TerminationResult.complete
        → count (is_confirmed_ack k) all_acks ≡ 5
    retry-five k u e c =
        ground (arith, confirmed-inherited_ne t.termination_id parent now acks k acks, v.five k u)

    pub retry-AckInv : AckInv (t ∷ ts) all_acks reports
    retry-AckInv = record {
      known = retry-known;
      once = retry-once;
      backed = retry-Backed;
      five = retry-five;
    }

  -- A new termination with no rows.
  module _ (t : Termination) (waits : t.result ≡ TerminationResult.pending) where
    pub begin-AckInv : AckInv (t ∷ ts) acks reports
    begin-AckInv = record {
      known = λ k b h. ground (arith, v.known k b h);
      once = v.once;
      backed = v.backed;
      five = λ k u e c. ground (arith, v.five k u);
    }

  -- A termination that ends; a complete one has its five rows.
  module _ (k : String) (r : TerminationResult) (st : State) (now : ℕ)
      (enough : r ≡ TerminationResult.complete → count (is_confirmed_ack k) acks ≡ 5) where
    close-five :
        (j : String) (u : Termination)
        → termination_at j (set_termination_result k r st now ts) ≡ some u
        → u.result ≡ TerminationResult.complete
        → count (is_confirmed_ack j) acks ≡ 5
    close-five j u e c = elim (Option-cases (termination_at j ts)) [
      | inl gone ↦ absurd (ground (arith, termination_at-set k r st now ts j))
      | inr (u', e') ↦ ground (arith, termination_at-set k r st now ts j, v.five j u' e', enough)
    ]

    pub close-AckInv : AckInv (set_termination_result k r st now ts) acks reports
    close-AckInv = record {
      known = λ j b h. ground (arith, termination_at-set k r st now ts j, v.known j b h);
      once = v.once;
      backed = v.backed;
      five = close-five;
    }
