-- ===== src/Consensus/Commits.antt =====
-- packages/consensus/source/consensus.ts: the order in which a node commits blocks.
mod Rules
pub mod Rounds
pub mod Inputs
pub mod Theorems
mod Tests
use mainsail.Prelude.{ℕ, ◌+◌, ◌≡◌, List, [], ◌∷◌}
use mainsail.Consensus.State.{
  Consensus, Effect, persisted, dispatched, voted, committed, saved_proposal, submitted,
}

-- The commits of a log, newest first, are of each block number once, from the first up to the one before the next.
abbrev pub IsChain : ℕ → ℕ → List Effect → Type 0
IsChain first next [] = next ≡ first
IsChain first next (committed number ∷ log) = (number + 1 ≡ next) × IsChain first number log
IsChain first next (voted m ∷ log) = IsChain first next log
IsChain first next (persisted s ∷ log) = IsChain first next log
IsChain first next (dispatched e ∷ log) = IsChain first next log
IsChain first next (saved_proposal p ∷ log) = IsChain first next log
IsChain first next (submitted p ∷ log) = IsChain first next log

-- The effect is no commit.
abbrev pub IsQuiet : Effect → Type 0
IsQuiet (committed number) = ⊥
IsQuiet (voted m) = Unit
IsQuiet (persisted s) = Unit
IsQuiet (dispatched e) = Unit
IsQuiet (saved_proposal p) = Unit
IsQuiet (submitted p) = Unit

-- A relation of the block number and the log that no effect breaks: a commit is of the block number, and then goes
-- with the next one.
pub record History (Q : ℕ → List Effect → Type 0) : Type 0 where
  pub quiet : (e : Effect) → IsQuiet e → {b : ℕ} {log : List Effect} → Q b log → Q b (e ∷ log)
  pub commit : {b : ℕ} {log : List Effect} → Q b log → Q (b + 1) (committed b ∷ log)

-- The relation holds of the fields.
abbrev pub IsKept : (ℕ → List Effect → Type 0) → Consensus → Type 0
IsKept Q n = Q n.block_number n.log
