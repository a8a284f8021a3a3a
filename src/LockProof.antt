-- ===== src/LockProof.antt =====
-- packages/consensus/source/processors/proposal-processor.ts, `hasValidLockProof`: the certificate that a
-- re-proposal carries. The serializer of the signed bytes is a parameter.
pub mod Laws
mod Tests
use mainsail.Prelude.{ℕ, Bool, true, false, Option, none, some, leb, if◌then◌else◌}
use mainsail.Contracts.{Proposal, AggregatedSignature}
use mainsail.Aggregator.{Worker, verify}

pub record ProofEnv : Type 0 where
  pub worker : Worker
  pub key_of : ℕ → ℕ
  -- the bytes that a prevote for this block hash, block number and round signs
  pub serialize_prevote : ℕ → ℕ → ℕ → ℕ
  pub round_validators : ℕ → ℕ

-- By the two fields of the proposal, lock proof and valid round.
unfoldable pub is_valid_pair : ProofEnv → Proposal → Option AggregatedSignature → Option ℕ → Bool
unfolding verify
is_valid_pair env p none none = true
is_valid_pair env p none (some valid_round) = false
is_valid_pair env p (some proof) none = false
is_valid_pair env p (some proof) (some valid_round) =
    if leb p.round valid_round
    then false
    else verify env.worker env.key_of proof
        (env.serialize_prevote p.block_header.hash p.block_header.number valid_round)
        (env.round_validators p.block_header.number)

unfoldable pub has_valid_lock_proof : ProofEnv → Proposal → Bool
unfolding is_valid_pair
has_valid_lock_proof env p = is_valid_pair env p p.lock_proof p.valid_round
