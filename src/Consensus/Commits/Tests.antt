-- ===== src/Consensus/Commits/Tests.antt =====
-- A node that receives two blocks with their certificates, and the first of them once more.
use mainsail.Prelude.{ℕ, ◌≡◌, refl, some, List, [], ◌∷◌}
use mainsail.RoundState.{configure, get_block}
use mainsail.Timing.{
  get_next_block_timestamp, schedule_timeout_block_prepare, schedule_timeout_prevote,
  schedule_timeout_precommit,
}
use mainsail.Consensus.State.{Consensus, deref, get_or_create, update_round}
use mainsail.Consensus.Monad.{when, given, lift}
use mainsail.Consensus.Voting.{prevote, precommit, vote_each, get_validators}
use mainsail.Consensus.Rules.{
  process_proposal, on_proposal, on_proposal_locked, on_majority_prevote, on_majority_prevote_any,
  on_majority_prevote_null, on_majority_precommit_any, on_majority_precommit_without_proposal,
}
use mainsail.Consensus.Rounds.{
  begin_round, start_round, apply_rules_with, make_proposal, on_majority_precommit, commit_block,
  on_round_majority_precommit, on_minority_with_higher_round,
}
use mainsail.Consensus.Events.{
  CommitState, Input, handles_commit, handle_commit_state, run, take, take_all,
}
use mainsail.Consensus.Examples.{block, header, success, world, start, node, no_commit}
use mainsail.Consensus.Safety.Inputs.{node_after}
use mainsail.Consensus.Commits.{IsChain}
use mainsail.Consensus.Commits.Theorems.{commits-IsChain}

abbrev unit_of_number : ℕ → CommitState
unit_of_number number = record {
  block = record block { header = record header { number = number } };
  round = 0;
  processor_result = some success;
}

abbrev inputs : List Input
inputs =
    handles_commit (unit_of_number 1)
    ∷ handles_commit (unit_of_number 2)
    ∷ handles_commit (unit_of_number 1)
    ∷ []

abbrev committed_node : Consensus
committed_node = node_after (world []) no_commit 3 start node inputs

commits-IsChain_example : IsChain 1 committed_node.block_number committed_node.log
commits-IsChain_example = commits-IsChain (world []) no_commit 3 start node inputs

both_committed : committed_node.block_number ≡ 3
unfolding take_all take run handle_commit_state begin_round start_round apply_rules_with
    make_proposal process_proposal on_proposal on_proposal_locked on_majority_prevote
    on_majority_prevote_any on_majority_prevote_null on_majority_precommit_any on_majority_precommit
    on_majority_precommit_without_proposal on_round_majority_precommit commit_block deref
    get_or_create update_round prevote precommit vote_each get_validators get_next_block_timestamp
    schedule_timeout_block_prepare schedule_timeout_prevote schedule_timeout_precommit when given
    lift configure get_block on_minority_with_higher_round
both_committed = refl
