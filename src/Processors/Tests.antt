-- ===== src/Processors/Tests.antt =====
-- Two copies of one prevote and a conflicting one arrive while the first is verified.
use mainsail.Prelude.{ℕ, ◌≡◌, refl, true, false, some, [], ◌∷◌}
use mainsail.Prelude.JsMap.{number_key}
use mainsail.Contracts.{MessageType}
use mainsail.RoundState.{configure, add_prevote, record_vote}
use mainsail.Consensus.State.{get_or_create, update_round}
use mainsail.Consensus.Examples.{env}
use mainsail.Processors.{Position, accepted, skipped, is_round_ahead_of_time}
use mainsail.Processors.MessageProcessor.{
  Call, returned, MessageProcessor, process_message, resume_message, good,
}
use mainsail.Processors.Calls.{idle}

abbrev at : Position
at = record {
  is_disposed = false;
  block_number = 1;
  round = 0;
  now = 60000;
  last_timestamp = 50000;
  timeouts = record {
    block_time = 8000;
    block_prepare_time = 4000;
    stage_timeout = 2000;
    stage_timeout_increase = 2000;
    tolerance = 100;
  };
}

abbrev prevote_call : ℕ → ℕ → Call
prevote_call id serialized = record {
  id = id;
  message = record {
    type = MessageType.prevote;
    block_number = 1;
    round = 0;
    validator_index = 1;
    block_hash = some 77;
    signature = serialized;
    serialized = serialized;
  };
  broadcast = true;
}

-- The first copy runs to its check, the second waits for it, the third has other bytes.
abbrev three_calls : MessageProcessor
three_calls = process_message env at (prevote_call 3 501) (
    process_message env at (prevote_call 2 500)
      (process_message env at (prevote_call 1 500) (idle [])))

abbrev verified_calls : MessageProcessor
verified_calls = resume_message env 3 good (resume_message env 1 good three_calls)

-- The first is accepted; its copy and the conflicting prevote are skipped.
verified_calls_run :
    verified_calls.answers
    ≡ (3, returned skipped) ∷ (1, returned accepted) ∷ (2, returned skipped) ∷ []
unfolding process_message resume_message is_round_ahead_of_time get_or_create configure add_prevote
    update_round record_vote
verified_calls_run = refl
