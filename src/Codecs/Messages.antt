-- ===== src/Codecs/Messages.antt =====
-- packages/crypto-messages/source: prevotes and precommits as bytes (serializer.ts, deserializer.ts,
-- serializer-schemas.ts) and their making (factory.ts, message.ts). Signing and the validation by JSON schema
-- are parameters.
pub mod Encoding
pub mod RoundTrip
mod Tests
use mainsail.Prelude.{
  ℕ, ◌+◌, ◌==◌, ◌++◌, Bool, true, false, Option, none, some, List, [], ◌∷◌, if◌then◌else◌,
}
use mainsail.Prelude.Outcome.{Result, ok, err, ◌>>=◌, message_deserialization, schema_violation}
use mainsail.ByteBuffer.{ByteBuffer, Viem, from_buffer, get_remainder_length}
use mainsail.Serializer.{
  Property, transactions_count, Value, undefined, number, bigint, string, flags, transactions, Data,
  object_of, optional_number, optional_string, assign, FieldType, uint8_field, uint16_field,
  uint32_field, uint48_field, uint64_field, uint256_field, bigint_field, hash_field,
  block_hash_field, address_field, public_key_field, consensus_signature_field, validator_set_field,
  hex_field, transactions_field, Schema, may_be_optional, is_optional, hash_size, size_or_hash_size,
  AddressFactory, write_sized, read_sized, write_transactions, read_transactions,
  write_validator_set, read_validator_set, write_optional, read_present, read_optional, as_value,
  read_counted, write_value, write_field, write_fields, serialize, read_value, read_field,
  deserialize,
}
use mainsail.Codecs.{
  signature_size, field, optional_field, type_property, block_number_property, round_property,
  block_hash_property, validator_index_property, signature_property, genesis_block_hash_property,
  previous_block_hash_property, valid_round_property, payload_serialized_property,
  validators_property,
}

abbrev pub message_fields : List Schema
message_fields =
    field type_property uint8_field
    ∷ field block_number_property uint32_field
    ∷ field round_property uint32_field
    ∷ optional_field block_hash_property block_hash_field
    ∷ []

abbrev pub schema_for_signature : List Schema
schema_for_signature =
    field genesis_block_hash_property hash_field
    ∷ field previous_block_hash_property hash_field
    ∷ message_fields

abbrev pub schema : List Schema
schema =
    message_fields
    ++ (field validator_index_property uint8_field
        ∷ field signature_property consensus_signature_field
        ∷ [])

-- `SignatureMessageData`, and the rest of `MessageData`.
pub record Vote : Type 0 where
  pub type : ℕ
  pub block_number : ℕ
  pub round : ℕ
  pub block_hash : Option (List ℕ)

pub record MessageData : Type 0 where
  pub vote : Vote
  pub validator_index : ℕ
  pub signature : List ℕ

pub record Context : Type 0 where
  pub genesis_block_hash : List ℕ
  pub previous_block_hash : List ℕ

abbrev pub vote_entries : Vote → List (Property × Value)
vote_entries vote =
    (type_property, number vote.type)
    ∷ (block_number_property, number vote.block_number)
    ∷ (round_property, number vote.round)
    ∷ (block_hash_property, optional_string vote.block_hash)
    ∷ []

abbrev pub message_object : MessageData → Data
message_object message = object_of (
    vote_entries message.vote
    ++ ((validator_index_property, number message.validator_index)
        ∷ (signature_property, string message.signature)
        ∷ []))

-- `{ ...context, ...message }`.
abbrev pub signature_object : Context → Vote → Data
signature_object context vote = object_of (
    (genesis_block_hash_property, string context.genesis_block_hash)
    ∷ (previous_block_hash_property, string context.previous_block_hash)
    ∷ vote_entries vote)

-- `message.blockHash ? this.hashSize : 0`: an empty string is false too.
abbrev pub block_hash_size : Option (List ℕ) → ℕ
block_hash_size none = 0
block_hash_size (some []) = 0
block_hash_size (some (byte ∷ bytes)) = hash_size

-- `Message`.
pub record Message : Type 0 where
  pub properties : Data
  pub serialized : List ℕ

-- What follows the `try`: an error is reported as one of the deserializer.
abbrev pub whole_message : Result (Data × ByteBuffer) → Result Data
whole_message (err e) = err message_deserialization
whole_message (ok (result, buffer)) =
    if get_remainder_length buffer == 0 then ok result else err message_deserialization

module _ (viem : Viem) (addresses : AddressFactory) where
  unfoldable pub serialize_message : MessageData → Result (List ℕ)
  unfolding serialize
  serialize_message message =
      serialize viem addresses
        (1 + 4 + 4 + 1 + 1 + block_hash_size message.vote.block_hash + signature_size) 0 schema
        (message_object message)

  unfoldable pub serialize_message_for_signature : Vote → Context → Result (List ℕ)
  unfolding serialize
  serialize_message_for_signature vote context =
      serialize viem addresses
        (hash_size + hash_size + 1 + 4 + 4 + 1 + block_hash_size vote.block_hash) 0
        schema_for_signature (signature_object context vote)

  unfoldable pub deserialize_message : List ℕ → Result Data
  unfolding deserialize
  deserialize_message serialized =
      whole_message
        (deserialize viem addresses schema (λ property. undefined) (from_buffer serialized))

  module _ (sign : List ℕ → List ℕ → List ℕ) (validate : Data → Bool) where
    unfoldable pub make_message_from_bytes : List ℕ → Result Message
    unfolding deserialize_message
    make_message_from_bytes bytes = do
      object ← deserialize_message bytes
      if validate object
          then ok (record { properties = object; serialized = bytes })
          else err schema_violation

    unfoldable pub make_message : Vote → ℕ → List ℕ → Context → Result Message
    unfolding serialize_message_for_signature serialize_message make_message_from_bytes
    make_message vote validator_index private_key context = do
      bytes ← serialize_message_for_signature vote context
      serialized ← serialize_message (record {
        vote = vote;
        validator_index = validator_index;
        signature = sign bytes private_key;
      })
      make_message_from_bytes serialized
