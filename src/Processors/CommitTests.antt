-- ===== src/Processors/CommitTests.antt =====
-- The block of a node's block number arrives with its proof, twice.
use mainsail.Prelude.{◌≡◌, refl, true, some, Option, List, [], ◌∷◌}
use mainsail.Prelude.Outcome.{ok}
use mainsail.Contracts.{Block, BlockProcessorResult, Commit}
use mainsail.RoundState.{configure, get_block}
use mainsail.Timing.{
  get_next_block_timestamp, schedule_timeout_block_prepare, schedule_timeout_prevote,
  schedule_timeout_precommit,
}
use mainsail.Consensus.State.{deref, get_or_create, update_round}
use mainsail.Consensus.Monad.{when, given, lift}
use mainsail.Consensus.Voting.{prevote, precommit, vote_each, get_validators}
use mainsail.Consensus.Rules.{
  process_proposal, on_proposal, on_proposal_locked, on_majority_prevote, on_majority_prevote_any,
  on_majority_prevote_null, on_majority_precommit_any, on_majority_precommit_without_proposal,
}
use mainsail.Consensus.Rounds.{
  begin_round, start_round, apply_rules_with, make_proposal, on_majority_precommit, commit_block,
  on_round_majority_precommit, on_minority_with_higher_round,
}
use mainsail.Consensus.Events.{
  Input, handles_commit, handle_commit_state, take, take_all, result_of,
}
use mainsail.Consensus.Examples.{block, success, world, node}
use mainsail.Processors.{accepted, skipped}
use mainsail.Processors.CommitProcessor.{process_commit}
use mainsail.Processors.Committed.{Says, at_lock, process, unit_of_commit}
use mainsail.Processors.Answers.{process-Says}

abbrev commit : Commit
commit = record {
  block = block;
  proof = record { round = 0; signature = 4; validators = true ∷ true ∷ [] };
}

abbrev good_block : Block → Option BlockProcessorResult
good_block b = some success

process-Says_example :
    Says 1
      (result_of (world []) good_block 2 (unit_of_commit commit))
      (at_lock (world []) good_block 2 [] node)
      (process (world []) good_block 2 commit [] node).0
      (process (world []) good_block 2 commit [] node).1
process-Says_example = process-Says (world []) good_block 2 commit [] node

accepted_run : (process (world []) good_block 2 commit [] node).0 ≡ ok accepted
unfolding process process_commit handle_commit_state begin_round start_round apply_rules_with
    make_proposal process_proposal on_proposal on_proposal_locked on_majority_prevote
    on_majority_prevote_any on_majority_prevote_null on_majority_precommit_any on_majority_precommit
    on_majority_precommit_without_proposal on_round_majority_precommit commit_block deref
    get_or_create update_round prevote precommit vote_each get_validators get_next_block_timestamp
    schedule_timeout_block_prepare schedule_timeout_prevote schedule_timeout_precommit when given
    lift configure get_block on_minority_with_higher_round take_all
accepted_run = refl

-- The handler of another copy of the block has run when this one gets the lock.
abbrev copy_first : List Input
copy_first = handles_commit (unit_of_commit commit) ∷ []

skipped_run : (process (world []) good_block 2 commit copy_first node).0 ≡ ok skipped
unfolding process process_commit handle_commit_state begin_round start_round apply_rules_with
    make_proposal process_proposal on_proposal on_proposal_locked on_majority_prevote
    on_majority_prevote_any on_majority_prevote_null on_majority_precommit_any on_majority_precommit
    on_majority_precommit_without_proposal on_round_majority_precommit commit_block deref
    get_or_create update_round prevote precommit vote_each get_validators get_next_block_timestamp
    schedule_timeout_block_prepare schedule_timeout_prevote schedule_timeout_precommit when given
    lift configure get_block on_minority_with_higher_round take take_all
skipped_run = refl
