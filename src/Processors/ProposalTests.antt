-- ===== src/Processors/ProposalTests.antt =====
-- Two proposals of one round arrive while the first is verified, and a block with its proof.
use mainsail.Prelude.{ℕ, ◌+◌, ◌≤◌, ◌==◌, ◌≡◌, refl, true, false, none, some, [], ◌∷◌, length}
use mainsail.Prelude.Outcome.{ok}
use mainsail.Contracts.{Commit}
use mainsail.RoundState.{configure, add_proposal}
use mainsail.Consensus.State.{get_or_create, update_round}
use mainsail.Consensus.Examples.{env}
use mainsail.Processors.{Position, accepted, skipped, invalid, is_round_ahead_of_time}
use mainsail.Processors.MessageProcessor.{returned, good}
use mainsail.Processors.ProposalProcessor.{
  ProposalCall, ProposalProcessor, receive_proposal, resume_proposal,
}
use mainsail.Processors.Pending.{one}
use mainsail.Processors.Positions.{is_proposed}
use mainsail.Processors.Proposed.{
  IsReachable, no_calls, count_saved, count_handled, one_proposal_per_round,
}
use mainsail.Processors.CommitProcessor.{CommitEnv, process_commit, has_valid_signature}

abbrev at : Position
at = record {
  is_disposed = false;
  block_number = 1;
  round = 0;
  now = 60000;
  last_timestamp = 50000;
  timeouts = record {
    block_time = 8000;
    block_prepare_time = 4000;
    stage_timeout = 2000;
    stage_timeout_increase = 2000;
    tolerance = 100;
  };
}

abbrev proposal_call : ℕ → ℕ → ProposalCall
proposal_call id hash = record {
  id = id;
  proposal = record {
    block_header = record { number = 1; round = 0; hash = hash; timestamp = 0 };
    round = 0;
    validator_index = env.validator_index 0;
    valid_round = none;
    lock_proof = none;
    payload = none;
    signature = 0;
    serialized = hash;
  };
  broadcast = true;
}

abbrev two_calls : ProposalProcessor
two_calls =
    receive_proposal env at (proposal_call 2 78)
      (receive_proposal env at (proposal_call 1 77) (no_calls []))

abbrev both_verified : ProposalProcessor
both_verified = resume_proposal env 0 good none (resume_proposal env 1 good none two_calls)

both_verified-IsReachable : IsReachable env [] both_verified
both_verified-IsReachable = IsReachable.resumed _ 0 good none (
    IsReachable.resumed _ 1 good none (
      IsReachable.called _ at (proposal_call 2 78)
        (IsReachable.called _ at (proposal_call 1 77) IsReachable.started)))

one_proposal_per_round_example :
    (count_saved 1 0 both_verified.saved + one (is_proposed 1 0 [])
      ≤ one (is_proposed 1 0 both_verified.rounds))
    × (count_handled 1 0 both_verified.handled ≡ count_saved 1 0 both_verified.saved)
one_proposal_per_round_example =
    one_proposal_per_round env [] both_verified 1 0 both_verified-IsReachable

-- The first is accepted, the other one skipped.
both_verified_run : both_verified.answers ≡ (2, returned skipped) ∷ (1, returned accepted) ∷ []
unfolding receive_proposal resume_proposal is_round_ahead_of_time get_or_create configure
    add_proposal update_round
both_verified_run = refl

-- A toy scheme in which a joined signature is the sum of the keys and the signed bytes.
abbrev commit_env : CommitEnv
commit_env = record {
  worker = record {
    aggregate_signatures = λ _. 0;
    aggregate_keys = length;
    verify_signature = λ signature message keys. signature == message + keys;
  };
  key_of = λ i. i + 10;
  serialize_precommit = λ hash number round previous. hash + number + round + previous;
  round_validators = λ _. 4;
}

abbrev commit : Commit
commit = record {
  block = record {
    header = record { number = 1; round = 0; hash = 77; timestamp = 0 };
    serialized_block = 0;
  };
  proof = record { round = 0; signature = 84; validators = true ∷ true ∷ false ∷ true ∷ [] };
}

has_valid_signature_run : has_valid_signature commit_env commit 3 ≡ true
unfolding has_valid_signature
has_valid_signature_run = refl

refused_commit :
    process_commit at commit
      (ok (some (record { fee_used = 0; gas_used = 0; receipts = []; success = false })))
    ≡ ok invalid
unfolding process_commit
refused_commit = refl
