-- ===== src/Consensus/SafetyTests.antt =====
-- The safety theorems at a run in which a node with two validators locks a block and precommits it.
use mainsail.Prelude.{true, false, Bool, none, some, List, [], ◌∷◌, ◌≡◌, refl, inl, inr, arith}
use mainsail.Contracts.{MessageType}
use mainsail.Consensus.State.{
  Effect, Consensus, World, Step, voted, persisted, dispatched, bootstrapped, round_started,
  proposal_accepted, prevoted_proposal, round_of,
}
use mainsail.Consensus.Monad.{when, given, lift}
use mainsail.Consensus.Safety.Log.{HasRecord, covers, latest}
use mainsail.Consensus.Safety.Inputs.{node_after}
use mainsail.Consensus.Safety.Theorems.{votes-agree, vote-HasRecord, precommit-covers}
use mainsail.Consensus.Events.{
  InitialState, take_all, run, take, after, on_timeout_precommit, on_timeout_propose,
  precommit_times_out, propose_times_out,
}
use mainsail.RoundState.{configure}
use mainsail.Consensus.Rounds.{
  begin_round, start_round, apply_rules_with, make_proposal, on_minority_with_higher_round,
}
use mainsail.Consensus.Rules.{
  process_proposal, on_proposal, on_proposal_locked, on_majority_prevote, on_majority_prevote_any,
  on_majority_prevote_null, on_majority_precommit_any, on_majority_precommit_without_proposal,
}
use mainsail.Consensus.State.{deref, get_or_create, update_round}
use mainsail.Consensus.Voting.{prevote, precommit, vote_each, get_validators}
use mainsail.Timing.{
  get_next_block_timestamp, schedule_timeout_block_prepare, schedule_timeout_prevote,
}
use mainsail.Consensus.Safety.Restart.{Life, born, session, restart-votes-agree}
use mainsail.Consensus.Bootstrapper.{
  Records, bootstrap, restore_or_start, restore_state, get_proven, get_proven_round_state,
  load_rounds,
}
use mainsail.Prelude.Outcome.{Result, ok, err}
use mainsail.RoundState.{RoundState, add_proposal, add_prevote, record_vote}
use mainsail.Consensus.Examples.{world, proposal, prevoted, start, node, no_commit, vote_of}

-- A name for all that a run of a node unfolds.
runs : Unit {0}
unfolding take_all run begin_round start_round apply_rules_with make_proposal process_proposal
    on_proposal on_proposal_locked on_majority_prevote on_majority_prevote_any
    on_majority_prevote_null on_majority_precommit_any on_majority_precommit_without_proposal deref
    get_or_create update_round prevote precommit vote_each get_validators get_next_block_timestamp
    schedule_timeout_block_prepare schedule_timeout_prevote when given lift configure
    on_minority_with_higher_round
runs = tt

abbrev locked_node : Consensus
locked_node = node_after (world (prevoted ∷ [])) no_commit 3 start node []

votes-agree_example :
    (vote_of MessageType.precommit 0).block_hash ≡ (vote_of MessageType.precommit 1).block_hash
unfolding runs
votes-agree_example =
    votes-agree (world (prevoted ∷ [])) no_commit 3 start node [] (vote_of MessageType.precommit 0)
      (vote_of MessageType.precommit 1) (inr (inl refl)) (inl refl) refl refl refl

-- What the node did before its last precommit.
abbrev earlier : List Effect
earlier =
    voted (vote_of MessageType.precommit 0)
    ∷ dispatched prevoted_proposal
    ∷ persisted (record {
      block_number = 1;
      round = 0;
      step = Step.precommit;
      valid_round = some 0;
      locked_round = some 0;
    })
    ∷ dispatched proposal_accepted
    ∷ persisted (record {
      block_number = 1;
      round = 0;
      step = Step.prevote;
      valid_round = none;
      locked_round = none;
    })
    ∷ dispatched round_started
    ∷ dispatched bootstrapped
    ∷ []

vote-HasRecord_example : HasRecord 1 0 2 earlier
unfolding runs
vote-HasRecord_example =
    vote-HasRecord (world (prevoted ∷ [])) no_commit 3 start node [] [] earlier
      (vote_of MessageType.precommit 1) refl

precommit-covers_example : covers (round_of locked_node.locked_value) 0 ≡ true
unfolding runs
precommit-covers_example =
    precommit-covers (world (prevoted ∷ [])) no_commit 3 start node []
      (vote_of MessageType.precommit 0) (inr (inl refl)) refl

-- The node stops after its precommits, and starts again from the stored state and messages.
abbrev stored_records : Records
stored_records = record {
  state = latest locked_node.log;
  proposals = proposal ∷ [];
  messages = vote_of MessageType.prevote 0 ∷ vote_of MessageType.prevote 1 ∷ [];
}

abbrev no_records : Records
no_records = record { state = none; proposals = []; messages = [] }

-- The name of what a bootstrap unfolds.
boots : Unit {0}
unfolding runs bootstrap restore_or_start restore_state get_proven get_proven_round_state
    load_rounds add_proposal add_prevote record_vote take on_timeout_precommit on_timeout_propose
boots = tt

abbrev the_world : World
the_world = world (prevoted ∷ [])

abbrev restarted : Result (InitialState × List RoundState × Bool)
restarted = bootstrap the_world.env the_world.deserialize 0 1 (some stored_records) []

abbrev restored : InitialState
restored = record {
  block_number = 1;
  round = 0;
  step = Step.precommit;
  locked_value = some (record { block_number = 1; round = 0 });
  valid_value = some (record { block_number = 1; round = 0 });
}

abbrev rounds_of : Result (InitialState × List RoundState × Bool) → List RoundState
rounds_of (ok r) = r.1
rounds_of (err e) = []

abbrev second_log : List Effect
second_log =
    (take_all the_world no_commit 3 (precommit_times_out 1 0 ∷ propose_times_out 1 1 ∷ [])
      (after (run the_world no_commit 3 restored (record node { log = locked_node.log })))).log

two_lives : Life the_world no_commit 3 second_log
unfolding boots
two_lives =
    session locked_node.log second_log
      (session [] locked_node.log born 0 1 no_records [] (inl (refl, omega arith)) start [] false
        refl node refl [] refl)
      0 1 stored_records [] (inl (refl, omega arith)) restored (rounds_of restarted) false refl
      (record node { log = locked_node.log }) refl
      (precommit_times_out 1 0 ∷ propose_times_out 1 1 ∷ []) refl

restart-votes-agree_example :
    (vote_of MessageType.precommit 0).block_hash ≡ (vote_of MessageType.precommit 1).block_hash
unfolding boots
restart-votes-agree_example =
    restart-votes-agree the_world no_commit 3 second_log (vote_of MessageType.precommit 0)
      (vote_of MessageType.precommit 1) two_lives (inr (inr (inr (inl refl))))
      (inr (inr (inl refl))) refl refl refl
