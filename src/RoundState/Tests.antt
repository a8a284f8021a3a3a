-- ===== src/RoundState/Tests.antt =====
-- The theorems about a round state at one with four validators.
use mainsail.Prelude.{ℕ, true, some, [], ◌∷◌, ◌≡◌, refl, arith, same}
use mainsail.Contracts.{MessageType, Message, ValidatorWallet}
use mainsail.RoundState.{RoundEnv, configure, Ballot, record_vote, empty_ballot}
use mainsail.RoundState.Messages.{add_message}
use mainsail.RoundState.Invariant.{
  IsTallied, IsAdded, configure-IsConsistent, add_message-IsAdded, record_vote-IsTallied,
  majority_unique, empty_ballot-IsTallied,
}

abbrev wallet : ℕ → ValidatorWallet
wallet i = record { address = i; bls_public_key = i }

abbrev four : RoundEnv
four = record {
  round_validators = λ _. 4;
  validators = wallet 0 ∷ wallet 1 ∷ wallet 2 ∷ wallet 3 ∷ [];
  validator_index = λ _. 0;
}

abbrev vote : ℕ → Message
vote i = record {
  type = MessageType.prevote;
  block_number = 1;
  round = 0;
  validator_index = i;
  block_hash = some 77;
  signature = i;
  serialized = i;
}

add_message-IsAdded_example :
    IsAdded MessageType.prevote 4 2 (configure four 1 0) (add_message (vote 2) (configure four 1 0))
add_message-IsAdded_example =
    add_message-IsAdded 4 (vote 2) (configure four 1 0) (configure-IsConsistent four 1 0)
      (omega arith)

abbrev three_votes : Ballot
three_votes = record_vote (vote 2) (record_vote (vote 1) (record_vote (vote 0) (empty_ballot 4)))

three_votes-IsTallied : IsTallied 4 three_votes
unfolding record_vote
three_votes-IsTallied =
    record_vote-IsTallied 4 (vote 2) _
      (record_vote-IsTallied 4 (vote 1) _
        (record_vote-IsTallied 4 (vote 0) _ (empty_ballot-IsTallied 4) (omega arith) refl)
        (omega arith) refl)
      (omega arith) refl

majority_unique_example : same (some 77) (some 77) ≡ true
unfolding record_vote
majority_unique_example =
    majority_unique 4 three_votes (some 77) (some 77) three_votes-IsTallied refl refl
