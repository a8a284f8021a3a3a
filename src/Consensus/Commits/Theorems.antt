-- ===== src/Consensus/Commits/Theorems.antt =====
-- The blocks that a node commits, over any inputs.
use mainsail.Prelude.{ℕ, refl, Option, List, [], ◌∷◌}
use mainsail.Contracts.{Block, BlockProcessorResult}
use mainsail.Consensus.State.{
  Consensus, World, Effect, persisted, dispatched, voted, committed, saved_proposal, submitted,
}
use mainsail.Consensus.Events.{InitialState, Input}
use mainsail.Consensus.Safety.Inputs.{node_after}
use mainsail.Consensus.Commits.{IsChain, IsQuiet, History}
use mainsail.Consensus.Commits.Inputs.{take_all-IsKept, run-IsKept}

IsChain-quiet :
    (first : ℕ) (e : Effect)
    → IsQuiet e
    → (b : ℕ) (log : List Effect) → IsChain first b log
    → IsChain first b (e ∷ log)
IsChain-quiet first (committed number) q b log h = absurd q
IsChain-quiet first (voted m) q b log h = h
IsChain-quiet first (persisted s) q b log h = h
IsChain-quiet first (dispatched e) q b log h = h
IsChain-quiet first (saved_proposal p) q b log h = h
IsChain-quiet first (submitted p) q b log h = h

IsChain-History : (first : ℕ) → History (IsChain first)
IsChain-History first = record {
  quiet = λ e q h. IsChain-quiet first e q _ _ h;
  commit = λ h. (refl, h);
}

-- A node commits the blocks in order: over any inputs after a start, whatever the other components answer, failed
-- writes and exceptions included, it has committed each block number once, from the one that it started at up
-- to the one before the block number that it is at.
pub commits-IsChain :
    (w : World) (process_commit : Block → Option BlockProcessorResult) (fuel : ℕ) (s : InitialState)
    (n : Consensus) (inputs : List Input)
    → IsChain s.block_number
        (node_after w process_commit fuel s n inputs).block_number
        (node_after w process_commit fuel s n inputs).log
commits-IsChain w process_commit fuel s n inputs =
    take_all-IsKept w process_commit fuel (IsChain s.block_number) (IsChain-History s.block_number)
      inputs _
      (run-IsKept w process_commit fuel (IsChain s.block_number) (IsChain-History s.block_number) s
        (record n { log = [] }) refl)
