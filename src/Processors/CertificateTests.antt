-- ===== src/Processors/CertificateTests.antt =====
-- A round state with the precommits of three of four validators, and a peer that gets the certificate.
use mainsail.Prelude.{ℕ, ◌≡◌, refl, true, some, none, List, [], ◌∷◌, ◌+◌, ◌==◌, arith}
use mainsail.Prelude.Outcome.{ok}
use mainsail.Contracts.{MessageType, Message, Proposal, Block, Commit, BlockHeader}
use mainsail.Aggregator.{Worker}
use mainsail.Aggregator.Joined.{IsBls}
use mainsail.RoundState.{RoundEnv, RoundState, Ballot, fresh, record_vote, empty_ballot}
use mainsail.RoundState.Quorums.{get_commit, get_signatures}
use mainsail.RoundState.Invariant.{IsTallied, empty_ballot-IsTallied, record_vote-IsTallied}
use mainsail.Processors.CommitProcessor.{CommitEnv, has_valid_signature}
use mainsail.Processors.Certificates.{get_commit-has_valid_signature}

-- A toy scheme: a signature is the signed message.
abbrev first_or_zero : List ℕ → ℕ
first_or_zero [] = 0
first_or_zero (n ∷ more) = n

abbrev toy_worker : Worker
toy_worker = record {
  aggregate_signatures = first_or_zero;
  aggregate_keys = λ _. 0;
  verify_signature = λ signature message key. signature == message;
}

toy_worker-IsBls : IsBls toy_worker
toy_worker-IsBls = record {
  joined = λ message first more good. good.0;
  unordered = λ a b same. refl;
}

abbrev peer : CommitEnv
peer = record {
  worker = toy_worker;
  key_of = λ i. i + 10;
  serialize_precommit = λ hash number round previous. hash + number + round + previous;
  round_validators = λ _. 4;
}

abbrev round_env : RoundEnv
round_env = record { round_validators = λ _. 4; validators = []; validator_index = λ _. 0 }

abbrev header : BlockHeader
header = record { number = 1; round = 0; hash = 77; timestamp = 5 }

abbrev block : Block
block = record { header = header; serialized_block = 770 }

abbrev proposal : Proposal
proposal = record {
  block_header = header;
  round = 0;
  validator_index = 0;
  valid_round = none;
  lock_proof = none;
  payload = some block;
  signature = 1;
  serialized = 771;
}

abbrev precommit_of : ℕ → Message
precommit_of i = record {
  type = MessageType.precommit;
  block_number = 1;
  round = 0;
  validator_index = i;
  block_hash = some 77;
  signature = 81;
  serialized = i;
}

-- The last validator's comes first.
abbrev precommits : Ballot
precommits =
    record_vote (precommit_of 1)
      (record_vote (precommit_of 0) (record_vote (precommit_of 3) (empty_ballot 4)))

precommits-IsTallied : IsTallied 4 precommits
unfolding record_vote
precommits-IsTallied =
    record_vote-IsTallied 4 (precommit_of 1) _
      (record_vote-IsTallied 4 (precommit_of 0) _
        (record_vote-IsTallied 4 (precommit_of 3) _ (empty_ballot-IsTallied 4) (omega arith) refl)
        (omega arith) refl)
      (omega arith) refl

abbrev decided : RoundState
decided = record fresh { block_number = 1; proposal = some proposal; precommits = precommits }

get_commit-has_valid_signature_example :
    (commit : Commit) × (get_commit round_env toy_worker decided
      ≡ ok (commit, record decided { commit = some commit }))
    × (commit.block ≡ block)
    × (has_valid_signature peer commit 3 ≡ true)
unfolding record_vote get_signatures
get_commit-has_valid_signature_example =
    get_commit-has_valid_signature round_env peer decided proposal block 3 toy_worker-IsBls
      precommits-IsTallied (refl, (refl, (refl, tt))) refl refl refl refl refl refl
      (refl, (refl, (refl, tt))) refl
