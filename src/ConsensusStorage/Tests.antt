-- ===== src/ConsensusStorage/Tests.antt =====
-- A state of block 4, a restart, then a message of block 5.
use mainsail.Prelude.{ℕ, ◌≡◌, refl, ◌<◌, ◌⊎◌, some, none, List, [], ◌∷◌}
use mainsail.Contracts.{MessageType, Message}
use mainsail.Consensus.State.{StateData, Step}
use mainsail.ConsensusStorage.{block_of, get_state, save_state, save_message, initialize}
use mainsail.ConsensusStorage.Laws.{
  Write, state_saved, message_saved, restarted, performed, last_saved, highest,
  get_state-last_saved,
}

abbrev state : StateData
state = record {
  block_number = 4;
  round = 1;
  step = Step.prevote;
  valid_round = none;
  locked_round = none;
}

abbrev prevote_at : ℕ → Message
prevote_at block_number = record {
  type = MessageType.prevote;
  block_number = block_number;
  round = 0;
  validator_index = 2;
  block_hash = none;
  signature = 9;
  serialized = 9;
}

abbrev writes : List Write
writes = restarted ∷ message_saved (prevote_at 4) ∷ state_saved state ∷ []

get_state_run : get_state (performed writes) ≡ some state
unfolding save_state save_message initialize
get_state_run = refl

replaced_run : get_state (performed (message_saved (prevote_at 5) ∷ writes)) ≡ none
unfolding save_state save_message initialize
replaced_run = refl

get_state-last_saved_example :
    (get_state (performed writes) ≡ last_saved writes)
    ⊎ ((get_state (performed writes) ≡ none) × (block_of (last_saved writes) < highest writes))
get_state-last_saved_example = get_state-last_saved writes
