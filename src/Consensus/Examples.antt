-- ===== src/Consensus/Examples.antt =====
-- A node with both validators of a network: concrete inputs for the theorems about the consensus class.
use mainsail.Prelude.{ℕ, ◌-◌, true, false, Option, none, some, List, [], ◌∷◌}
use mainsail.Contracts.{
  MessageType, Message, BlockHeader, Block, Proposal, ValidatorWallet, BlockProcessorResult,
}
use mainsail.Aggregator.{Worker}
use mainsail.RoundState.{RoundEnv, RoundState, fresh, empty_ballot}
use mainsail.LockProof.{ProofEnv}
use mainsail.Timing.{Timeouts, idle}
use mainsail.Consensus.State.{Consensus, World, Step}
use mainsail.Consensus.Events.{InitialState}

abbrev pub header : BlockHeader
header = record { number = 1; round = 0; hash = 77; timestamp = 5 }

abbrev pub block : Block
block = record { header = header; serialized_block = 770 }

abbrev pub proposal : Proposal
proposal = record {
  block_header = header;
  round = 0;
  validator_index = 0;
  valid_round = none;
  lock_proof = none;
  payload = some block;
  signature = 1;
  serialized = 771;
}

abbrev pub success : BlockProcessorResult
success = record { fee_used = 0; gas_used = 0; receipts = []; success = true }

abbrev pub vote_of : MessageType → ℕ → Message
vote_of type validator_index = record {
  type = type;
  block_number = 1;
  round = 0;
  validator_index = validator_index;
  block_hash = some 77;
  signature = 9;
  serialized = 9;
}

abbrev pub validator : ValidatorWallet
validator = record { address = 3; bls_public_key = 30 }

abbrev pub env : RoundEnv
env = record {
  round_validators = λ _. 2;
  validators = validator ∷ record { address = 4; bls_public_key = 40 } ∷ [];
  validator_index = λ _. 0;
}

-- The round state once the proposal was processed and both prevotes were counted.
abbrev pub prevoted : RoundState
prevoted = record fresh {
  block_number = 1;
  proposal = some proposal;
  processor_result = some success;
  prevotes = record {
    messages = (0, vote_of MessageType.prevote 0) ∷ (1, vote_of MessageType.prevote 1) ∷ [];
    counts = (some 77, 2) ∷ [];
    signed = true ∷ true ∷ [];
  };
  precommits = empty_ballot 2;
  proposer = some validator;
}

abbrev pub worker : Worker
worker = record {
  aggregate_signatures = λ _. 1;
  aggregate_keys = λ _. 2;
  verify_signature = λ _ _ _. true;
}

abbrev pub proof : ProofEnv
proof = record {
  worker = worker;
  key_of = λ i. i;
  serialize_prevote = λ h b r. h;
  round_validators = λ _. 2;
}

abbrev pub timeouts : Timeouts
timeouts = record {
  block_time = 8000;
  block_prepare_time = 4000;
  stage_timeout = 2000;
  stage_timeout_increase = 1000;
  tolerance = 100;
}

-- Whatever the node waits for, the round states are the given ones afterwards.
abbrev pub world : List RoundState → World
world rounds = record {
  env = env;
  proof = proof;
  now = λ _. 10;
  timeouts = λ _. timeouts;
  last_timestamp = λ _. 1;
  arrive = λ _ _. rounds;
  process = λ _ _. some success;
  commit = λ _ _. true;
  deserialize = λ p. p.payload;
  stored = λ _. true;
  registered = λ _. true;
  index_of = λ address. address - 3;
  sign = λ _. 9;
  pending_commits = λ _. false;
  forge = λ _ _ _. some block;
  propose = λ _ _ _ _ _. some proposal;
}

abbrev pub start : InitialState
start = record {
  block_number = 1;
  round = 0;
  step = Step.propose;
  locked_value = none;
  valid_value = none;
}

abbrev pub node : Consensus
node = record {
  block_number = 1;
  round = 0;
  step = Step.propose;
  locked_value = none;
  valid_value = none;
  did_majority_prevote = false;
  did_majority_precommit = false;
  did_majority_precommit_without_proposal = false;
  is_disposed = false;
  proposal_promise = none;
  round_start_time = 0;
  scheduler = idle;
  rounds = [];
  detached = [];
  tick = 0;
  log = [];
}

abbrev pub no_commit : Block → Option BlockProcessorResult
no_commit b = none
