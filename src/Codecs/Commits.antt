-- ===== src/Codecs/Commits.antt =====
-- packages/crypto-commit/source: commits, a block behind the proof of its majority, as bytes (serializer.ts,
-- deserializer.ts) and their making (factory.ts). The validation by JSON schema, the block factory and the
-- block that the storage gives are parameters.
pub mod RoundTrip
mod Tests
use mainsail.Prelude.{ℕ, ◌+◌, ◌++◌, Bool, true, false, List, [], ◌∷◌, if◌then◌else◌}
use mainsail.Prelude.Outcome.{Result, ok, err, ◌>>=◌, trailing_bytes, schema_violation}
use mainsail.ByteBuffer.{ByteBuffer, Viem, from_buffer, get_remainder, read_bytes}
use mainsail.ValidatorSet.{validator_set_unpack}
use mainsail.Serializer.{
  Property, transactions_count, Value, undefined, number, bigint, string, flags, transactions, Data,
  object_of, optional_number, optional_string, assign, FieldType, uint8_field, uint16_field,
  uint32_field, uint48_field, uint64_field, uint256_field, bigint_field, hash_field,
  block_hash_field, address_field, public_key_field, consensus_signature_field, validator_set_field,
  hex_field, transactions_field, Schema, may_be_optional, is_optional, hash_size, size_or_hash_size,
  AddressFactory, write_sized, read_sized, write_transactions, read_transactions,
  write_validator_set, read_validator_set, write_optional, read_present, read_optional, as_value,
  read_counted, write_value, write_field, write_fields, serialize, read_value, read_field,
  deserialize,
}
use mainsail.Codecs.{
  signature_size, field, optional_field, type_property, block_number_property, round_property,
  block_hash_property, validator_index_property, signature_property, genesis_block_hash_property,
  previous_block_hash_property, valid_round_property, payload_serialized_property,
  validators_property, number_property, empty, is_undefined, BlockFactory, whole, only_object,
}

-- `Identifiers.Cryptography.Commit.ProofSize`.
abbrev pub proof_size : ℕ
proof_size = 4 + signature_size + 1 + 8

abbrev pub proof_schema : List Schema
proof_schema =
    field round_property uint32_field
    ∷ field signature_property consensus_signature_field
    ∷ field validators_property validator_set_field
    ∷ []

pub record CommitProof : Type 0 where
  pub round : ℕ
  pub signature : List ℕ
  pub validators : List Bool

abbrev pub proof_object : CommitProof → Data
proof_object proof = object_of (
    (round_property, number proof.round)
    ∷ (signature_property, string proof.signature)
    ∷ (validators_property, flags proof.validators)
    ∷ [])

pub record Commit : Type 0 where
  pub block : Data
  pub proof : Data
  pub serialized : List ℕ

-- `CommitStorageData`: the proof as it is stored, with the flags in one number, and the block that the block
-- factory makes of the stored header and transactions, with its bytes.
pub record CommitStorageData : Type 0 where
  pub block : Data
  pub block_serialized : List ℕ
  pub round : ℕ
  pub signature : List ℕ
  pub validator_set : ℕ

module _ (viem : Viem) (addresses : AddressFactory) where
  unfoldable pub serialize_commit_proof : CommitProof → Result (List ℕ)
  unfolding serialize
  serialize_commit_proof proof =
      serialize viem addresses proof_size 0 proof_schema (proof_object proof)

  unfoldable pub serialize_commit : CommitProof → List ℕ → Result (List ℕ)
  unfolding serialize_commit_proof
  serialize_commit proof block = do
    serialized ← serialize_commit_proof proof
    ok (serialized ++ block)

  unfoldable pub deserialize_commit_proof : List ℕ → Result Data
  unfolding deserialize
  deserialize_commit_proof serialized =
      whole trailing_bytes (deserialize viem addresses proof_schema empty (from_buffer serialized))

  module _ (blocks : BlockFactory) (validate : Commit → Bool) where
    abbrev pub verify_schema : Commit → Result Commit
    verify_schema commit = if validate commit then ok commit else err schema_violation

    unfoldable pub from_bytes : List ℕ → Result Commit
    unfolding deserialize_commit_proof read_bytes
    from_bytes bytes = do
      (proof_buffer, rest) ← read_bytes proof_size (from_buffer bytes)
      proof ← deserialize_commit_proof proof_buffer
      block ← blocks.from_bytes (get_remainder rest)
      verify_schema (record { block = block; proof = proof; serialized = bytes })

  -- The milestone of the block gives the number of validators.
  unfoldable pub from_storage : (Data → ℕ) → CommitStorageData → Result Commit
  unfolding serialize_commit validator_set_unpack
  from_storage round_validators stored = do
    validators ← validator_set_unpack stored.validator_set (round_validators stored.block)
    serialized ←
        serialize_commit
          (record { round = stored.round; signature = stored.signature; validators = validators })
          stored.block_serialized
    ok (record {
      block = stored.block;
      proof =
          proof_object (record {
            round = stored.round;
            signature = stored.signature;
            validators = validators;
          });
      serialized = serialized;
    })
