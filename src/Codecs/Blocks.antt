-- ===== src/Codecs/Blocks.antt =====
-- packages/crypto-block/source: blocks and their headers as bytes (serializer.ts, deserializer.ts,
-- serializer-schemas.ts), their hashes (hash.factory.ts) and their making (factory.ts). The hash function, the
-- validation by JSON schema and the reading of a transaction from its bytes are parameters.
pub mod Encoding
pub mod RoundTrip
pub mod Hashes
mod Tests
use mainsail.Prelude.{
  ℕ, ◌+◌, ◌==◌, ◌++◌, map, Bool, true, false, none, some, List, [], ◌∷◌, length, if◌then◌else◌,
}
use mainsail.Prelude.Outcome.{
  Result, ok, err, ◌>>=◌, trailing_bytes, payload_size_mismatch, schema_violation,
}
use mainsail.ByteBuffer.{ByteBuffer, Viem, from_buffer, get_remainder_length}
use mainsail.Serializer.{
  Property, transactions_count, Value, undefined, number, bigint, string, flags, transactions, Data,
  object_of, optional_number, optional_string, assign, FieldType, uint8_field, uint16_field,
  uint32_field, uint48_field, uint64_field, uint256_field, bigint_field, hash_field,
  block_hash_field, address_field, public_key_field, consensus_signature_field, validator_set_field,
  hex_field, transactions_field, Schema, may_be_optional, is_optional, hash_size, size_or_hash_size,
  AddressFactory, write_sized, read_sized, write_transactions, read_transactions,
  write_validator_set, read_validator_set, write_optional, read_present, read_optional, as_value,
  read_counted, write_value, write_field, write_fields, serialize, read_value, read_field,
  deserialize,
}
use mainsail.Codecs.{
  signature_size, field, optional_field, type_property, block_number_property, round_property,
  block_hash_property, validator_index_property, signature_property, genesis_block_hash_property,
  previous_block_hash_property, valid_round_property, payload_serialized_property,
  validators_property, number_property, version_property, timestamp_property, parent_hash_property,
  state_root_property, logs_bloom_property, gas_used_property, fee_property, reward_property,
  payload_size_property, transactions_root_property, proposer_property, randao_reveal_property,
  hash_property, transactions_property, empty, is_undefined, BlockFactory, whole, only_object,
}

abbrev pub block_header_schema : List Schema
block_header_schema =
    field version_property uint8_field
    ∷ field timestamp_property uint48_field
    ∷ field number_property uint32_field
    ∷ field round_property uint32_field
    ∷ field parent_hash_property hash_field
    ∷ field state_root_property hash_field
    ∷ record {
      property = logs_bloom_property;
      type = hash_field;
      optional = false;
      size = some 256;
    }
    ∷ field transactions_count uint16_field
    ∷ field gas_used_property uint32_field
    ∷ field fee_property uint256_field
    ∷ field reward_property uint256_field
    ∷ field payload_size_property uint32_field
    ∷ field transactions_root_property hash_field
    ∷ field proposer_property address_field
    ∷ field randao_reveal_property consensus_signature_field
    ∷ []

abbrev pub transactions_schema : List Schema
transactions_schema = field transactions_property transactions_field ∷ []

abbrev pub block_schema : List Schema
block_schema = block_header_schema ++ transactions_schema

-- `Identifiers.Cryptography.Block.HeaderSize`, with the sizes of a hash and an address.
abbrev pub header_size : ℕ
header_size =
    1 + 6 + 4 + 4 + hash_size + hash_size + 256 + 2 + 4 + 32 + 32 + 4 + hash_size + 20 + 96

-- `BlockHeaderRaw`.
pub record BlockHeader : Type 0 where
  pub version : ℕ
  pub timestamp : ℕ
  pub number : ℕ
  pub round : ℕ
  pub parent_hash : List ℕ
  pub state_root : List ℕ
  pub logs_bloom : List ℕ
  pub transactions_count : ℕ
  pub gas_used : ℕ
  pub fee : ℕ
  pub reward : ℕ
  pub payload_size : ℕ
  pub transactions_root : List ℕ
  pub proposer : List ℕ
  pub randao_reveal : List ℕ

abbrev pub header_entries : BlockHeader → List (Property × Value)
header_entries header =
    (version_property, number header.version)
    ∷ (timestamp_property, number header.timestamp)
    ∷ (number_property, number header.number)
    ∷ (round_property, number header.round)
    ∷ (parent_hash_property, string header.parent_hash)
    ∷ (state_root_property, string header.state_root)
    ∷ (logs_bloom_property, string header.logs_bloom)
    ∷ (transactions_count, number header.transactions_count)
    ∷ (gas_used_property, number header.gas_used)
    ∷ (fee_property, bigint header.fee)
    ∷ (reward_property, bigint header.reward)
    ∷ (payload_size_property, number header.payload_size)
    ∷ (transactions_root_property, string header.transactions_root)
    ∷ (proposer_property, string header.proposer)
    ∷ (randao_reveal_property, string header.randao_reveal)
    ∷ []

abbrev pub header_object : BlockHeader → Data
header_object header = object_of (header_entries header)

-- `{ ...header, transactions }`.
abbrev pub block_object : BlockHeader → List (List ℕ) → Data
block_object header serialized =
    object_of (header_entries header ++ ((transactions_property, transactions serialized) ∷ []))

abbrev pub total_size : BlockHeader → ℕ
total_size header = header_size + header.payload_size

-- `=== header.payloadSize`.
abbrev pub is_number : Value → ℕ → Bool
is_number (number value) other = other == value
is_number _ other = false

abbrev pub transactions_of : Value → List (List ℕ)
transactions_of (transactions serialized) = serialized
transactions_of _ = []

-- The transactions in their order, unless one of them cannot be read.
unfoldable pub read_all : (List ℕ → Result Data) → List (List ℕ) → Result (List Data)
read_all from_bytes [] = ok []
read_all from_bytes (serialized ∷ rest) = do
  transaction ← from_bytes serialized
  others ← read_all from_bytes rest
  ok (transaction ∷ others)

-- `BlockWithTransactions`.
pub record BlockWithTransactions : Type 0 where
  pub properties : Data
  pub transactions : List Data

pub record Block : Type 0 where
  pub properties : Data
  pub transactions : List Data
  pub serialized : List ℕ

abbrev pub check_payload_size : Data × ByteBuffer → Result (Data × ByteBuffer)
check_payload_size (header, buffer) =
    if is_number (header payload_size_property) (get_remainder_length buffer)
    then ok (header, buffer)
    else err payload_size_mismatch

abbrev pub check_trailing : ByteBuffer → Result (Unit {0})
check_trailing buffer = if get_remainder_length buffer == 0 then ok tt else err trailing_bytes

-- `#verify`, with what the validator says.
abbrev pub verify : Bool → Result (Unit {0})
verify valid = if valid then ok tt else err schema_violation

module _ (viem : Viem) (addresses : AddressFactory) where
  -- Of an object that has the properties of a header.
  unfoldable pub serialize_header : Data → Result (List ℕ)
  unfolding serialize
  serialize_header header = serialize viem addresses header_size 0 block_header_schema header

  unfoldable pub serialize_with_transactions : BlockHeader → List (List ℕ) → Result (List ℕ)
  unfolding serialize
  serialize_with_transactions header serialized =
      serialize viem addresses (total_size header) 0 block_schema (block_object header serialized)

  unfoldable pub deserialize_buffer_header : ByteBuffer → Result (Data × ByteBuffer)
  unfolding deserialize
  deserialize_buffer_header buffer = do
    header ← deserialize viem addresses block_header_schema empty buffer
    check_payload_size header

  module _ (sha256 : List ℕ → List ℕ) (transaction_from_bytes : List ℕ → Result Data) where
    -- `HashFactory.make`.
    unfoldable pub make_hash : Data → Result (List ℕ)
    unfolding serialize_header
    make_hash header = do serialized ← serialize_header header; ok (sha256 serialized)

    -- `{ ...header, hash: await this.hashFactory.make(header) }`.
    unfoldable pub with_hash : Data → Result Data
    unfolding make_hash
    with_hash header = do hash ← make_hash header; ok (assign hash_property (string hash) header)

    unfoldable pub deserialize_header : List ℕ → Result Data
    unfolding deserialize_buffer_header with_hash
    deserialize_header serialized = do
      (header, buffer) ← deserialize_buffer_header (from_buffer serialized)
      with_hash header

    unfoldable pub deserialize_transactions : Data → ByteBuffer → Result (List Data × ByteBuffer)
    unfolding deserialize read_all
    deserialize_transactions header buffer = do
      (block, rest) ← deserialize viem addresses transactions_schema header buffer
      read ← read_all transaction_from_bytes (transactions_of (block transactions_property))
      ok (read, rest)

    -- `if (buffer.getRemainderLength() > 0)`.
    unfoldable pub deserialize_if_any : Data → ByteBuffer → Result (List Data × ByteBuffer)
    unfolding deserialize_transactions
    deserialize_if_any header buffer =
        if get_remainder_length buffer == 0
        then ok ([], buffer)
        else deserialize_transactions header buffer

    unfoldable pub deserialize_with_transactions : List ℕ → Result BlockWithTransactions
    unfolding deserialize_buffer_header deserialize_if_any with_hash
    deserialize_with_transactions serialized = do
      (header, buffer) ← deserialize_buffer_header (from_buffer serialized)
      (read, rest) ← deserialize_if_any header buffer
      whole ← check_trailing rest
      object ← with_hash header
      ok (record { properties = object; transactions = read })

    module _ (validate_header : Data → Bool) (validate : Data → List Data → Bool) where
      unfoldable pub header_from_bytes : List ℕ → Result Data
      unfolding deserialize_header
      header_from_bytes serialized = do
        header ← deserialize_header serialized
        valid ← verify (validate_header header)
        ok header

      -- `#fromSerialized`, which `fromBytes` and `fromHex` call.
      unfoldable pub from_bytes : List ℕ → Result Block
      unfolding deserialize_with_transactions
      from_bytes serialized = do
        block ← deserialize_with_transactions serialized
        valid ← verify (validate block.properties block.transactions)
        ok (record {
          properties = block.properties;
          transactions = block.transactions;
          serialized = serialized;
        })

      -- Each transaction with its bytes.
      unfoldable pub make : BlockHeader → List (Data × List ℕ) → Result Block
      unfolding with_hash serialize_with_transactions
      make header listed = do
        object ← with_hash (header_object header)
        valid ← verify (validate object (map (λ entry. entry.0) listed))
        serialized ← serialize_with_transactions header (map (λ entry. entry.1) listed)
        ok (record {
          properties = object;
          transactions = map (λ entry. entry.0) listed;
          serialized = serialized;
        })
