-- ===== src/ControlPlane/Evidence.antt =====
-- What backs a completed termination: its acknowledgement rows, and the reports behind them.
pub mod Rows
pub mod Inherited
pub mod Moves
pub mod Completed
use bosimao_release.Prelude.{
  ℕ, String, Bool, true, false, Option, none, some, List, ◌≡◌, ◌≢◌, ◌≤◌, find, count,
}
use bosimao_release.ControlPlane.Schema.{
  TerminationResult, AckResult, Ack, AckRow, AckReport, Termination, Ledger, termination_at,
}
use bosimao_release.ControlPlane.Sessions.{is_ack}
use bosimao_release.ControlPlane.Acks.{aggregate, is_confirmed_ack}

abbrev pub BackedRow : Bool → AckResult → AckResult → Type 0
BackedRow true result total = result ≡ AckResult.confirmed
BackedRow false result total = result ≡ total

-- A row that was inherited is confirmed, and any other says what its reports add up to.
abbrev pub Backed : List AckReport → String → Ack → Option AckRow → Type 0
Backed reports k ack none = Unit
Backed reports k ack (some a) = BackedRow a.inherited a.result (aggregate k ack reports)

pub record AckInv (ts : List Termination) (acks : List AckRow) (reports : List AckReport)
    : Type 0 where
  -- Every row is of a termination that is there, and there is one to an acknowledgement at most.
  pub known :
      (k : String) (ack : Ack) → find (is_ack k ack) acks ≢ none → termination_at k ts ≢ none
  pub once : (k : String) (ack : Ack) → count (is_ack k ack) acks ≤ 1
  pub backed : (k : String) (ack : Ack) → Backed reports k ack (find (is_ack k ack) acks)
  -- A complete termination has five confirmed rows.
  pub five :
      (k : String) (t : Termination)
      → termination_at k ts ≡ some t
      → t.result ≡ TerminationResult.complete
      → count (is_confirmed_ack k) acks ≡ 5

abbrev pub Evidence : Ledger → Type 0
Evidence l = AckInv l.terminations l.acks l.reports
