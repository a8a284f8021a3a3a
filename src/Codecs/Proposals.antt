-- ===== src/Codecs/Proposals.antt =====
-- packages/crypto-proposal/source: proposals, their payloads and the lock proofs in them as bytes (serializer.ts,
-- deserializer.ts, serializer-schemas.ts) and their making (factory.ts). Signing, the validation by JSON schema
-- and the block factory are parameters.
pub mod Encoding
pub mod RoundTrip
pub mod Payload
pub mod Checks
mod Tests
use mainsail.Prelude.{
  ℕ, zero, suc, ◌+◌, ◌%◌, ◌==◌, ◌++◌, leb, Bool, true, false, not, Option, none, some, List, [],
  ◌∷◌, length, if◌then◌else◌,
}
use mainsail.Prelude.Outcome.{
  Result, ok, err, ◌>>=◌, trailing_bytes, schema_violation, lock_proof_missing, valid_round_missing,
  valid_round_too_high,
}
use mainsail.ByteBuffer.{
  ByteBuffer, Viem, from_buffer, get_remainder, get_remainder_length, read_uint8, read_bytes,
}
use mainsail.Serializer.{
  Property, transactions_count, Value, undefined, number, bigint, string, flags, transactions, Data,
  object_of, optional_number, optional_string, assign, FieldType, uint8_field, uint16_field,
  uint32_field, uint48_field, uint64_field, uint256_field, bigint_field, hash_field,
  block_hash_field, address_field, public_key_field, consensus_signature_field, validator_set_field,
  hex_field, transactions_field, Schema, may_be_optional, is_optional, hash_size, size_or_hash_size,
  AddressFactory, write_sized, read_sized, write_transactions, read_transactions,
  write_validator_set, read_validator_set, write_optional, read_present, read_optional, as_value,
  read_counted, write_value, write_field, write_fields, serialize, read_value, read_field,
  deserialize,
}
use mainsail.Codecs.{
  whole, only_object, signature_size, field, optional_field, type_property, block_number_property,
  round_property, block_hash_property, validator_index_property, signature_property,
  genesis_block_hash_property, previous_block_hash_property, valid_round_property,
  payload_serialized_property, validators_property, number_property, empty, is_undefined,
  BlockFactory,
}

abbrev pub schema_unsigned : List Schema
schema_unsigned =
    field round_property uint32_field
    ∷ optional_field valid_round_property uint32_field
    ∷ field validator_index_property uint8_field
    ∷ field payload_serialized_property hex_field
    ∷ []

abbrev pub schema : List Schema
schema = schema_unsigned ++ (field signature_property consensus_signature_field ∷ [])

abbrev pub lock_proof_schema : List Schema
lock_proof_schema =
    field signature_property consensus_signature_field
    ∷ field validators_property validator_set_field
    ∷ []

-- `Identifiers.Cryptography.Proposal.LockProofSize`.
abbrev pub lock_proof_size : ℕ
lock_proof_size = signature_size + 1 + 8

-- `ProposalDataSerializableUnsigned`.
pub record ProposalData : Type 0 where
  pub round : ℕ
  pub valid_round : Option ℕ
  pub validator_index : ℕ
  pub payload_serialized : List ℕ

pub record AggregatedSignature : Type 0 where
  pub signature : List ℕ
  pub validators : List Bool

abbrev pub proposal_entries : ProposalData → List (Property × Value)
proposal_entries proposal =
    (round_property, number proposal.round)
    ∷ (valid_round_property, optional_number proposal.valid_round)
    ∷ (validator_index_property, number proposal.validator_index)
    ∷ (payload_serialized_property, string proposal.payload_serialized)
    ∷ []

abbrev pub unsigned_object : ProposalData → Data
unsigned_object proposal = object_of (proposal_entries proposal)

abbrev pub proposal_object : ProposalData → List ℕ → Data
proposal_object proposal signature =
    object_of (proposal_entries proposal ++ ((signature_property, string signature) ∷ []))

abbrev pub lock_proof_object : AggregatedSignature → Data
lock_proof_object lock_proof = object_of (
    (signature_property, string lock_proof.signature)
    ∷ (validators_property, flags lock_proof.validators)
    ∷ [])

abbrev pub valid_round_size : Option ℕ → ℕ
valid_round_size none = 1
valid_round_size (some round) = 5

-- A hex string is twice as long as the bytes it spells.
abbrev pub unsigned_proposal_size : ProposalData → ℕ
unsigned_proposal_size proposal =
    4 + valid_round_size proposal.valid_round + 4 + length proposal.payload_serialized + 1

-- `proposal.validRound >= proposal.round`, for a round that is defined.
abbrev pub not_lower : Value → Value → Bool
not_lower (number valid_round) (number round) = leb round valid_round
not_lower _ _ = false

-- `(proposalData.validRound === undefined) !== (lockProof === undefined)`, and what is thrown.
abbrev pub check_pairing : Value → Option Data → Result (Unit {0})
check_pairing undefined none = ok tt
check_pairing undefined (some lock_proof) = err valid_round_missing
check_pairing valid_round none = err lock_proof_missing
check_pairing valid_round (some lock_proof) = ok tt

abbrev pub check_order : Value → Value → Result (Unit {0})
check_order valid_round round =
    if not_lower valid_round round then err valid_round_too_high else ok tt

pub record ProposedPayload : Type 0 where
  pub block : Data
  pub lock_proof : Option Data
  pub serialized : List ℕ

-- `Proposal`, as `initialize` fills it.
pub record Proposal : Type 0 where
  pub properties : Data
  pub block_header : Data
  pub lock_proof : Option Data
  pub serialized : List ℕ

module _ (viem : Viem) (addresses : AddressFactory) where
  unfoldable pub serialize_proposal_unsigned : ProposalData → Result (List ℕ)
  unfolding serialize
  serialize_proposal_unsigned proposal =
      serialize viem addresses (unsigned_proposal_size proposal) 0 schema_unsigned
        (unsigned_object proposal)

  unfoldable pub serialize_proposal : ProposalData → List ℕ → Result (List ℕ)
  unfolding serialize
  serialize_proposal proposal signature =
      serialize viem addresses (unsigned_proposal_size proposal + signature_size) 0 schema
        (proposal_object proposal signature)

  unfoldable pub serialize_lock_proof : AggregatedSignature → Result (List ℕ)
  unfolding serialize
  serialize_lock_proof lock_proof =
      serialize viem addresses lock_proof_size 0 lock_proof_schema (lock_proof_object lock_proof)

  -- `Buffer.of` keeps the lowest byte of a number.
  unfoldable pub serialize_payload : List ℕ → Option AggregatedSignature → Result (List ℕ)
  unfolding serialize_lock_proof
  serialize_payload block none = ok (0 ∷ block)
  serialize_payload block (some lock_proof) = do
    serialized ← serialize_lock_proof lock_proof
    ok ((length serialized % 256) ∷ (serialized ++ block))

  unfoldable pub deserialize_proposal : List ℕ → Result Data
  unfolding deserialize
  deserialize_proposal serialized =
      whole trailing_bytes (deserialize viem addresses schema empty (from_buffer serialized))

  unfoldable pub deserialize_lock_proof : List ℕ → Result Data
  unfolding deserialize
  deserialize_lock_proof serialized =
      only_object (deserialize viem addresses lock_proof_schema empty (from_buffer serialized))

  -- The rest of `#getLockProof`, once the length is read.
  abbrev pub get_proof_of : ℕ × ByteBuffer → Result (Option Data × ByteBuffer)
  get_proof_of (zero, buffer) = ok (none, buffer)
  get_proof_of (suc count, buffer) = do
    (bytes, rest) ← read_bytes (suc count) buffer
    lock_proof ← deserialize_lock_proof bytes
    ok (some lock_proof, rest)

  unfoldable pub get_lock_proof : ByteBuffer → Result (Option Data × ByteBuffer)
  unfolding read_bytes deserialize_lock_proof
  get_lock_proof buffer = do count ← read_uint8 buffer; get_proof_of count

  module _ (blocks : BlockFactory) (validate : Data → Bool)
      (validate_lock_proof : Data → Bool) where
    -- `#verifySchema("lockProof", { ...lockProof, number: block.number })`, where there is a proof.
    abbrev pub verify_lock_proof : Option Data → Data → Result (Unit {0})
    verify_lock_proof none block = ok tt
    verify_lock_proof (some lock_proof) block =
        if validate_lock_proof (assign number_property (block number_property) lock_proof)
        then ok tt
        else err schema_violation

    unfoldable pub make_payload_from_bytes : List ℕ → Result ProposedPayload
    unfolding get_lock_proof
    make_payload_from_bytes bytes = do
      (lock_proof, rest) ← get_lock_proof (from_buffer bytes)
      block ← blocks.from_bytes (get_remainder rest)
      valid ← verify_lock_proof lock_proof block
      ok (record { block = block; lock_proof = lock_proof; serialized = bytes })

    unfoldable pub get_lock_proof_and_block_header : List ℕ → Result (Data × Option Data)
    unfolding get_lock_proof
    get_lock_proof_and_block_header bytes = do
      (lock_proof, rest) ← get_lock_proof (from_buffer bytes)
      block_header ← blocks.header_from_bytes (get_remainder rest)
      valid ← verify_lock_proof lock_proof block_header
      ok (block_header, lock_proof)

    -- The bytes of a string, which `payloadSerialized` is.
    abbrev pub string_bytes : Value → List ℕ
    string_bytes (string bytes) = bytes
    string_bytes _ = []

    abbrev pub verify_proposal : Data → Result (Unit {0})
    verify_proposal object = if validate object then ok tt else err schema_violation

    unfoldable pub make_proposal_from_bytes : List ℕ → Result Proposal
    unfolding deserialize_proposal get_lock_proof_and_block_header
    make_proposal_from_bytes serialized = do
      object ← deserialize_proposal serialized
      valid ← verify_proposal object
      (block_header, lock_proof) ←
          get_lock_proof_and_block_header (string_bytes (object payload_serialized_property))
      paired ← check_pairing (object valid_round_property) lock_proof
      ordered ← check_order (object valid_round_property) (object round_property)
      ok (record {
        properties = object;
        block_header = block_header;
        lock_proof = lock_proof;
        serialized = serialized;
      })

    module _ (sign : List ℕ → List ℕ → List ℕ) (validate_unsigned : Data → Bool) where
      abbrev pub verify_unsigned : Data → Result (Unit {0})
      verify_unsigned object = if validate_unsigned object then ok tt else err schema_violation

      unfoldable pub make_proposal : ProposalData → List ℕ → Result Proposal
      unfolding serialize_proposal_unsigned make_proposal_from_bytes
      make_proposal proposal private_key = do
        valid ← verify_unsigned (unsigned_object proposal)
        bytes ← serialize_proposal_unsigned proposal
        make_proposal_from_bytes (bytes ++ sign bytes private_key)
