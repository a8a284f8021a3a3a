-- ===== src/Processors/CommitProcessor.antt =====
-- packages/consensus/source/processors/commit-processor.ts: a block with its proof that another node sends. What
-- consensus leaves in the unit is an input of `process_commit`.
use mainsail.Prelude.{ℕ, ◌≡◌, Bool, true, Option, none, some, length, trues, ◌==◌, if◌then◌else◌}
use mainsail.Prelude.Outcome.{Result, ok, ◌>>=◌}
use mainsail.Contracts.{Commit, AggregatedSignature, BlockProcessorResult}
use mainsail.Quorum.{is_majority}
use mainsail.Aggregator.{Worker, signers, verify}
use mainsail.Aggregator.Laws.{verify-inv}
use mainsail.Processors.{ProcessorResult, accepted, skipped, invalid, Position}

-- The bytes that a precommit for this block hash, block number and round signs, after a previous block hash.
pub record CommitEnv : Type 0 where
  pub worker : Worker
  pub key_of : ℕ → ℕ
  pub serialize_precommit : ℕ → ℕ → ℕ → ℕ → ℕ
  pub round_validators : ℕ → ℕ

abbrev pub has_valid_block_number : Position → Commit → Bool
has_valid_block_number at commit = commit.block.number == at.block_number

abbrev pub judged : Option BlockProcessorResult → ProcessorResult
judged none = skipped
judged (some result) = if result.success then accepted else invalid

-- `handleCommitState` throws, or leaves the unit with or without a result.
unfoldable pub process_commit :
    Position → Commit → Result (Option BlockProcessorResult) → Result ProcessorResult
process_commit at commit handled =
    if has_valid_block_number at commit
    then (do result ← handled; ok (judged result))
    else ok skipped

abbrev pub joined_proof : Commit → AggregatedSignature
joined_proof commit = record {
  signature = commit.proof.signature;
  validators = commit.proof.validators;
}

unfoldable pub has_valid_signature : CommitEnv → Commit → ℕ → Bool
unfolding verify
has_valid_signature env commit previous_block_hash =
    verify env.worker env.key_of (joined_proof commit)
      (env.serialize_precommit commit.block.hash commit.block.number commit.proof.round
        previous_block_hash)
      (env.round_validators commit.block.number)

-- The signature of a commit is valid only if its proof has one bit for each validator of the block, the bits are a
-- majority, and the joined signature is good for precommits of the block in the proof's round.
has_valid_signature-inv :
    (env : CommitEnv) (commit : Commit) (previous_block_hash : ℕ)
    → has_valid_signature env commit previous_block_hash ≡ true
    → (length commit.proof.validators ≡ env.round_validators commit.block.number)
      × (is_majority (trues commit.proof.validators) (env.round_validators commit.block.number)
          ≡ true)
      × (env.worker.verify_signature commit.proof.signature
            (env.serialize_precommit commit.block.hash commit.block.number commit.proof.round
              previous_block_hash)
            (env.worker.aggregate_keys (signers env.key_of 0 commit.proof.validators))
          ≡ true)
unfolding has_valid_signature
has_valid_signature-inv env commit previous_block_hash =
    verify-inv env.worker env.key_of (joined_proof commit) _ _
