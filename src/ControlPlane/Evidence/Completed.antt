-- ===== src/ControlPlane/Evidence/Completed.antt =====
-- Why a termination is complete: backend/app/voice/control_plane_ack.py.
use bosimao_release.Prelude.{
  ℕ, ◌+◌, String, Bool, ◌&&◌, Option, none, some, List, [], ◌∷◌, ◌≡◌, ◌≤◌, refl, arith, find, count,
  Option-cases, inl, inr, ok, true, keep, all, ◌⊎◌, Bool-cases,
}
use bosimao_release.ControlPlane.Schema.{
  TerminationResult, AckResult, Ack, AckRow, Termination, Ledger, AckReport, find_termination,
  empty_ledger,
}
use bosimao_release.ControlPlane.Sessions.{is_ack, ack_result, TerminationView, get_termination}
use bosimao_release.ControlPlane.Acks.{
  is_confirmed, is_confirmed_ack, aggregate, has_confirmed, is_report, ack_reporters,
}
use bosimao_release.ControlPlane.Acks.Calls.{is_inherited}
use bosimao_release.ControlPlane.History.{Host, Call, run}
use bosimao_release.ControlPlane.Evidence.{Evidence, Backed}
use bosimao_release.ControlPlane.Invariant.Calls.{run-empty-Evidence}

abbrev confirms : String → Ack → AckRow → Bool
confirms k b a = is_ack k b a && is_confirmed a.result

-- The confirmed rows are counted over the five acknowledgements.
count-confirmed :
    (k : String) (acks : List AckRow)
    → count (is_confirmed_ack k) acks
      ≡ count (confirms k Ack.android_trtc_left) acks
        + count (confirms k Ack.sidecar_trtc_left) acks
        + count (confirms k Ack.bridge_drained_closed) acks
        + count (confirms k Ack.apm_cancelled_closed) acks
        + count (confirms k Ack.brain_turns_sealed) acks
count-confirmed k [] = refl
count-confirmed k (a ∷ acks) = ground (arith, count-confirmed k acks)

count-confirms-le :
    (k : String) (b : Ack) (acks : List AckRow)
    → count (confirms k b) acks ≤ count (is_ack k b) acks
count-confirms-le k b [] = omega arith
count-confirms-le k b (a ∷ acks) = ground (arith, count-confirms-le k b acks)

-- One row, which confirms.
read_confirmed :
    (k : String) (b : Ack) (acks : List AckRow)
    → count (is_ack k b) acks ≤ 1
    → 1 ≤ count (confirms k b) acks
    → ack_result (find (is_ack k b) acks) ≡ AckResult.confirmed
read_confirmed k b [] h one = absurd (omega arith)
read_confirmed k b (a ∷ acks) h one =
    ground (arith, read_confirmed k b acks, count-confirms-le k b acks)

all_confirmed :
    (k : String) (acks : List AckRow)
    → ((b : Ack) → count (is_ack k b) acks ≤ 1)
    → count (is_confirmed_ack k) acks ≡ 5
    → (b : Ack) → 1 ≤ count (confirms k b) acks
all_confirmed k acks once five b = ground (
  arith,
  count-confirmed k acks,
  once Ack.android_trtc_left,
  once Ack.sidecar_trtc_left,
  once Ack.bridge_drained_closed,
  once Ack.apm_cancelled_closed,
  once Ack.brain_turns_sealed,
  count-confirms-le k Ack.android_trtc_left acks,
  count-confirms-le k Ack.sidecar_trtc_left acks,
  count-confirms-le k Ack.bridge_drained_closed acks,
  count-confirms-le k Ack.apm_cancelled_closed acks,
  count-confirms-le k Ack.brain_turns_sealed acks,
)

confirmed_row :
    (l : Ledger) (k : String) (t : Termination)
    → Evidence l
    → find_termination k l ≡ some t
    → t.result ≡ TerminationResult.complete
    → (b : Ack) → ack_result (find (is_ack k b) l.acks) ≡ AckResult.confirmed
confirmed_row l k t ev e c b =
    read_confirmed k b l.acks (ev.once k b) (all_confirmed k l.acks (ev.once k) (ev.five k t e c) b)

-- Every reporter that the acknowledgement needs has a confirming report.
abbrev pub AllReported : List AckReport → String → Ack → Type 0
AllReported reports k b =
    all (has_confirmed (keep (is_report k b) reports)) (ack_reporters b) ≡ true

aggregate_confirmed :
    (k : String) (b : Ack) (reports : List AckReport)
    → aggregate k b reports ≡ AckResult.confirmed
    → AllReported reports k b
unfolding aggregate
aggregate_confirmed k b reports e = ground arith

Backed-reported :
    (reports : List AckReport) (k : String) (b : Ack) (row : Option AckRow)
    → Backed reports k b row
    → ack_result row ≡ AckResult.confirmed
    → (is_inherited row ≡ true) ⊎ AllReported reports k b
Backed-reported reports k b none h e = cc
Backed-reported reports k b (some a) h e = elim (Bool-cases a.inherited) [
  | inl old ↦ inl old
  | inr own ↦ inr (aggregate_confirmed k b reports (ground arith))
]

confirmed_view :
    (k : String) (l : Ledger) (v : TerminationView)
    → get_termination k l ≡ ok v
    → Evidence l
    → v.row.result ≡ TerminationResult.complete
    → (b : Ack)
    → (v.acknowledgements b ≡ AckResult.confirmed)
      × ((is_inherited (find (is_ack k b) l.acks) ≡ true) ⊎ AllReported l.reports k b)
unfolding get_termination
confirmed_view k l v e ev c b = elim (Option-cases (find_termination k l)) [
  | inl gone ↦ absurd (ground arith)
  | inr (t, f) ↦
      let confirmed = confirmed_row l k t ev f (ground arith) b in
      (
        ground arith,
        Backed-reported l.reports k b (find (is_ack k b) l.acks) (ev.backed k b) confirmed,
      )
]

-- After any history of calls on an empty ledger, a termination that reads as complete reads each
-- of its five acknowledgements as confirmed; and each of them was either inherited from the
-- termination that it retries, or every reporter that it needs has reported it confirmed.
pub complete_confirmed :
    (h : Host) (cs : List (ℕ × Call)) (k : String) (v : TerminationView)
    → get_termination k (run h empty_ledger cs) ≡ ok v
    → v.row.result ≡ TerminationResult.complete
    → (b : Ack)
    → (v.acknowledgements b ≡ AckResult.confirmed)
      × ((is_inherited (find (is_ack k b) (run h empty_ledger cs).acks) ≡ true)
          ⊎ AllReported (run h empty_ledger cs).reports k b)
complete_confirmed h cs k v e c b =
    confirmed_view k (run h empty_ledger cs) v e (run-empty-Evidence h cs) c b
