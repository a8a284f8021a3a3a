-- ===== src/Processors/Committed.antt =====
-- packages/consensus/source/processors/commit-processor.ts with packages/consensus/source/consensus.ts: `process`
-- of a block that another node sends with its proof, together with the handler of consensus that it waits for.
use mainsail.Prelude.{
  ℕ, ◌≡◌, ◌<◌, Bool, true, false, Option, none, some, List, ◌∷◌, ◌++◌, if◌then◌else◌, not, ◌==◌,
  ◌||◌,
}
use mainsail.Prelude.Outcome.{Result, ok, err}
use mainsail.Contracts.{Block, Commit, BlockProcessorResult}
use mainsail.Consensus.State.{
  Consensus, World, Effect, committed, dispatched, precommitted_proposal,
}
use mainsail.Consensus.Monad.{Outcome, done, threw}
use mainsail.Consensus.Events.{CommitState, Input, result_of, handle_commit_state, take_all, after}
use mainsail.Processors.{ProcessorResult, accepted, skipped, invalid, Position}
use mainsail.Processors.CommitProcessor.{has_valid_block_number, process_commit}

-- What the processor reads of the node.
abbrev pub read_position : World → Consensus → Position
read_position w n = record {
  is_disposed = n.is_disposed;
  block_number = n.block_number;
  round = n.round;
  now = w.now n.tick;
  last_timestamp = w.last_timestamp n.block_number;
  timeouts = w.timeouts n.block_number;
}

-- `commitStateFactory(commit)`, less the validators of the round, which only the commit of the block reads.
abbrev pub unit_of_commit : Commit → CommitState
unit_of_commit commit = record {
  block = commit.block;
  round = commit.proof.round;
  processor_result = none;
}

module _ (w : World) (process_block : Block → Option BlockProcessorResult) (fuel : ℕ) where
  abbrev pub is_left_alone : CommitState → Consensus → Bool
  is_left_alone c n = n.is_disposed || not (c.block.number == n.block_number)

  -- The result in the unit when `handleCommitState` returns.
  abbrev pub left_in_unit : CommitState → Consensus → Option BlockProcessorResult
  left_in_unit c n =
      if is_left_alone c n then c.processor_result else some (result_of w process_block fuel c)

  abbrev pub handled :
      CommitState → Consensus → Outcome (Unit {0}) → Result (Option BlockProcessorResult)
  handled c n (done a m) = ok (left_in_unit c n)
  handled c n (threw e m) = err e

  -- The node when the handler gets the lock: those before it in the queue have run.
  abbrev pub at_lock : List Input → Consensus → Consensus
  at_lock queue n = take_all w process_block fuel queue n

  abbrev pub handle_commit : Commit → Consensus → Outcome (Unit {0})
  handle_commit commit = handle_commit_state w process_block fuel (unit_of_commit commit)

  -- `process`, called at `n`: what it returns, and the node then.
  unfoldable pub process : Commit → List Input → Consensus → Result ProcessorResult × Consensus
  unfolding process_commit
  process commit queue n =
      let before = at_lock queue n in
      let outcome = handle_commit commit before in
      let answer =
        process_commit (read_position w n) commit
          (handled (unit_of_commit commit) before outcome) in
      if has_valid_block_number (read_position w n) commit
      then (answer, after outcome)
      else (answer, before)

-- The log has the commit of the block right after the effects before it, and the node is past the block.
abbrev pub IsCommitted : ℕ → List Effect → ℕ → List Effect → Type 0
IsCommitted number before b log =
    (number < b)
    × ((newer : List Effect) × (log
          ≡ newer ++ committed number ∷ dispatched precommitted_proposal ∷ before))

abbrev pub IsUntouched : Consensus → Consensus → Type 0
IsUntouched before m = (m.block_number ≡ before.block_number) × (m.log ≡ before.log)

-- What an answer says: the number and the processor's result of the block, the node at the lock and afterwards.
abbrev pub Says : ℕ → BlockProcessorResult → Consensus → Result ProcessorResult → Consensus → Type 0
Says number result before (ok accepted) m = IsCommitted number before.log m.block_number m.log
Says number result before (ok invalid) m = (result.success ≡ false) × IsUntouched before m
Says number result before (ok skipped) m = IsUntouched before m
Says number result before (err e) m =
    (result.success ≡ true) × (before.block_number ≡ number) × (before.is_disposed ≡ false)
