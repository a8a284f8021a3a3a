-- ===== src/LockProof/Tests.antt =====
-- A re-proposal in round 3 with a proof of round 1, among four validators.
use mainsail.Prelude.{ℕ, ◌+◌, ◌==◌, List, ◌≡◌, refl, true, false, some, none, [], ◌∷◌}
use mainsail.Contracts.{Proposal, AggregatedSignature}
use mainsail.LockProof.{ProofEnv, has_valid_lock_proof}
use mainsail.LockProof.Laws.{IsFreshOrProven, has_valid_lock_proof-IsFreshOrProven}

-- A toy scheme in which a joined signature is the sum of the keys and the signed bytes.
abbrev env : ProofEnv
env = record {
  worker = record {
    aggregate_signatures = λ _. 0;
    aggregate_keys = sum;
    verify_signature = λ signature message keys. signature == message + keys;
  };
  key_of = λ i. i + 10;
  serialize_prevote = λ hash number round. hash + number + round;
  round_validators = λ _. 4;
}
  where
    sum : List ℕ → ℕ
    sum [] = 0
    sum (x ∷ xs) = x + sum xs

abbrev proof : AggregatedSignature
proof = record { signature = 117; validators = true ∷ true ∷ false ∷ true ∷ [] }

abbrev proposal : Proposal
proposal = record {
  block_header = record { number = 5; round = 1; hash = 77; timestamp = 0 };
  round = 3;
  validator_index = 3;
  valid_round = some 1;
  lock_proof = some proof;
  payload = none;
  signature = 0;
  serialized = 0;
}

has_valid_lock_proof_run : has_valid_lock_proof env proposal ≡ true
unfolding has_valid_lock_proof
has_valid_lock_proof_run = refl

has_valid_lock_proof-IsFreshOrProven_example : IsFreshOrProven env proposal (some proof) (some 1)
has_valid_lock_proof-IsFreshOrProven_example =
    has_valid_lock_proof-IsFreshOrProven env proposal has_valid_lock_proof_run
