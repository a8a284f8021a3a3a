-- ===== src/Processors.antt =====
-- packages/consensus/source/processors: what a node does with messages and commits that arrive.
-- A call of `process` runs to its first wait, the check of the signature, in one step, and from there in a
-- second step when the answer is there; other calls may run in between. Blocks are committed under the
-- exclusive commit lock, so no call is in between then, and the position of consensus at a step is a
-- parameter of the step.
pub mod MessageProcessor
pub mod ProposalProcessor
pub mod Positions
pub mod Proposed
mod Pending
mod Settled
mod Calls
pub mod CommitProcessor
pub mod Committed
pub mod Answers
mod Certificates
mod ProposalTests
mod CommitTests
mod CertificateTests
mod Tests
use mainsail.Prelude.{ℕ, ◌+◌, ◌-◌, ◌≡◌, Bool, true, false, ◌&&◌, not, leb, ltb, ◌==◌, if◌then◌else◌}
use mainsail.Prelude.Outcome.{Result, ok, err, ◌>>=◌}
use mainsail.Timing.{Timeouts, calculate_minimal_timestamp}
use mainsail.RoundState.{RoundEnv}

pub data ProcessorResult : Type 0 where
  accepted skipped invalid : ProcessorResult

-- What consensus, the clock and the state store answer during a step.
pub record Position : Type 0 where
  pub is_disposed : Bool
  pub block_number : ℕ
  pub round : ℕ
  pub now : ℕ
  pub last_timestamp : ℕ
  pub timeouts : Timeouts

abbrev pub has_valid_block_number_and_round : Position → ℕ → ℕ → Bool
has_valid_block_number_and_round at block_number round =
    (block_number == at.block_number) && leb at.round round

-- `calculateMinimalTimestamp` throws for a round that is too high. The earliest time less the tolerance is
-- compared with the clock; both sides have the tolerance added, so that none is below zero.
unfoldable pub is_round_ahead_of_time : Position → ℕ → Result Bool
is_round_ahead_of_time at round = elim (leb round at.round) [
  | true ↦ ok false
  | false ↦ (do
    earliest ← calculate_minimal_timestamp at.timeouts at.last_timestamp round
    ok (leb (at.now + at.timeouts.tolerance) earliest))
]
