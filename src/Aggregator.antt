-- ===== src/Aggregator.antt =====
-- packages/consensus/source/aggregator.ts: +2/3 signatures joined into one, and the check of such a one.
-- The crypto worker (BLS) and the validator set are parameters. Indices are natural numbers, so the tests
-- for an integer that is not negative always pass.
pub mod Laws
pub mod Joined
mod Tests
use mainsail.Prelude.{
  ℕ, Bool, true, false, List, [], ◌∷◌, ◌++◌, length, leb, ◌==◌, if◌then◌else◌, replicate, set_bit,
  suc,
}
use mainsail.Prelude.Outcome.{
  Result, ok, err, ◌>>=◌, ◌>>◌, majority_not_reached, index_out_of_range,
}
use mainsail.Contracts.{AggregatedSignature}
use mainsail.Quorum.{is_majority}

-- What the crypto worker computes.
pub record Worker : Type 0 where
  pub aggregate_signatures : List ℕ → ℕ
  pub aggregate_keys : List ℕ → ℕ
  pub verify_signature : ℕ → ℕ → ℕ → Bool

-- The loop of `aggregate` over the map of signatures.
unfoldable pub collect : ℕ → List (ℕ × ℕ) → List Bool → List ℕ → Result (List Bool × List ℕ)
collect round_validators [] validators buffers = ok (validators, buffers)
collect round_validators ((validator_index, signature) ∷ more) validators buffers =
    let rest =
      collect round_validators more (set_bit validators validator_index)
        (buffers ++ signature ∷ []) in
    if leb round_validators validator_index then err (index_out_of_range validator_index) else rest

unfoldable pub aggregate : Worker → List (ℕ × ℕ) → ℕ → Result AggregatedSignature
unfolding collect
aggregate worker signatures round_validators =
    if is_majority (length signatures) round_validators
    then (do
      (validators, buffers) ←
          collect round_validators signatures (replicate round_validators false) []
      ok (record { signature = worker.aggregate_signatures buffers; validators = validators }))
    else err majority_not_reached

-- The loop of `verify`: the keys of the validators whose bit is set.
unfoldable pub signers : (ℕ → ℕ) → ℕ → List Bool → List ℕ
signers key_of i [] = []
signers key_of i (true ∷ bits) = key_of i ∷ signers key_of (suc i) bits
signers key_of i (false ∷ bits) = signers key_of (suc i) bits

unfoldable pub verify : Worker → (ℕ → ℕ) → AggregatedSignature → ℕ → ℕ → Bool
unfolding signers
verify worker key_of signature message round_validators =
    let public_keys = signers key_of 0 signature.validators in
    if length signature.validators == round_validators
    then (if is_majority (length public_keys) round_validators
        then worker.verify_signature signature.signature message (worker.aggregate_keys public_keys)
        else false)
    else false
