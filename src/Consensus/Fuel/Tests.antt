-- ===== src/Consensus/Fuel/Tests.antt =====
-- A node with fuel for one round commits the block of round 0 and then lacks fuel for the next block.
use mainsail.Prelude.{◌+◌, ◌≤◌, ◌≡◌, refl, [], ◌∷◌}
use mainsail.Prelude.Outcome.{fuel_exhausted}
use mainsail.RoundState.{RoundState}
use mainsail.Consensus.State.{World}
use mainsail.Consensus.Monad.{threw}
use mainsail.Consensus.Events.{after}
use mainsail.RoundState.{configure, get_block}
use mainsail.Timing.{
  get_next_block_timestamp, schedule_timeout_block_prepare, schedule_timeout_prevote,
  schedule_timeout_precommit,
}
use mainsail.Consensus.State.{deref, get_or_create, update_round}
use mainsail.Consensus.Monad.{when, given, lift}
use mainsail.Consensus.Voting.{prevote, precommit, vote_each, get_validators}
use mainsail.Consensus.Rules.{
  process_proposal, on_proposal, on_proposal_locked, on_majority_prevote, on_majority_prevote_any,
  on_majority_prevote_null, on_majority_precommit_any, on_majority_precommit_without_proposal,
}
use mainsail.Consensus.Rounds.{
  begin_round, start_round, apply_rules_with, make_proposal, on_majority_precommit, commit_block,
  on_round_majority_precommit, on_minority_with_higher_round,
}
use mainsail.Consensus.Examples.{prevoted, world, node}
use mainsail.Consensus.Fuel.Spent.{start_round-fuel}

abbrev precommitted : RoundState
precommitted = record prevoted { precommits = prevoted.prevotes }

abbrev committing : World
committing = world (precommitted ∷ [])

runs : Unit {0}
unfolding begin_round start_round apply_rules_with make_proposal process_proposal on_proposal
    on_proposal_locked on_majority_prevote on_majority_prevote_any on_majority_prevote_null
    on_majority_precommit_any on_majority_precommit on_majority_precommit_without_proposal
    on_round_majority_precommit commit_block deref get_or_create update_round prevote precommit
    vote_each get_validators get_next_block_timestamp schedule_timeout_block_prepare
    schedule_timeout_prevote schedule_timeout_precommit when given lift configure get_block
    on_minority_with_higher_round
runs = tt

exhausted :
    start_round committing 1 0 node ≡ threw fuel_exhausted (after (start_round committing 1 0 node))
unfolding runs
exhausted = refl

start_round-fuel_example : 1 + 1 ≤ (after (start_round committing 1 0 node)).block_number
start_round-fuel_example =
    start_round-fuel committing 1 0 node (after (start_round committing 1 0 node)) exhausted
