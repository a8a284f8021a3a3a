-- ===== src/Codecs.antt =====
-- packages/crypto-messages, crypto-proposal, crypto-commit and crypto-block: what the nodes send each other and
-- store, as bytes. The names of the properties, with the sizes that the packages are configured with.
pub mod Whole
pub mod Messages
pub mod Proposals
pub mod Commits
pub mod Blocks
use mainsail.Prelude.{
  ℕ, ◌+◌, ◌==◌, if◌then◌else◌, Bool, true, false, Option, none, some, List, [], ◌∷◌,
}
use mainsail.Prelude.Outcome.{Result, ok, err, Error}
use mainsail.ByteBuffer.{ByteBuffer, get_remainder_length}
use mainsail.Serializer.{Property, FieldType, Schema, Data, Value, undefined}

-- `Identifiers.Cryptography.Signature.Size` of the consensus key.
abbrev pub signature_size : ℕ
signature_size = 96

abbrev pub field : Property → FieldType → Schema
field property type = record { property = property; type = type; optional = false; size = none }

abbrev pub optional_field : Property → FieldType → Schema
optional_field property type = record {
  property = property;
  type = type;
  optional = true;
  size = none;
}

abbrev pub type_property : Property
type_property = 1

abbrev pub block_number_property : Property
block_number_property = 2

abbrev pub round_property : Property
round_property = 3

abbrev pub block_hash_property : Property
block_hash_property = 4

abbrev pub validator_index_property : Property
validator_index_property = 5

abbrev pub signature_property : Property
signature_property = 6

abbrev pub genesis_block_hash_property : Property
genesis_block_hash_property = 7

abbrev pub previous_block_hash_property : Property
previous_block_hash_property = 8

abbrev pub valid_round_property : Property
valid_round_property = 9

abbrev pub payload_serialized_property : Property
payload_serialized_property = 10

abbrev pub validators_property : Property
validators_property = 11

abbrev pub number_property : Property
number_property = 12

abbrev pub version_property : Property
version_property = 13

abbrev pub timestamp_property : Property
timestamp_property = 14

abbrev pub parent_hash_property : Property
parent_hash_property = 15

abbrev pub state_root_property : Property
state_root_property = 16

abbrev pub logs_bloom_property : Property
logs_bloom_property = 17

abbrev pub gas_used_property : Property
gas_used_property = 18

abbrev pub fee_property : Property
fee_property = 19

abbrev pub reward_property : Property
reward_property = 20

abbrev pub payload_size_property : Property
payload_size_property = 21

abbrev pub transactions_root_property : Property
transactions_root_property = 22

abbrev pub proposer_property : Property
proposer_property = 23

abbrev pub randao_reveal_property : Property
randao_reveal_property = 24

abbrev pub hash_property : Property
hash_property = 25

abbrev pub transactions_property : Property
transactions_property = 26

-- `{}`.
abbrev pub empty : Data
empty property = undefined

-- `value === undefined`.
abbrev pub is_undefined : Value → Bool
is_undefined undefined = true
is_undefined _ = false

-- What the block factory makes of a block's bytes, with all its transactions or without.
pub record BlockFactory : Type 0 where
  pub from_bytes : List ℕ → Result Data
  pub header_from_bytes : List ℕ → Result Data

-- `buffer.getRemainderLength() !== 0`, and what is thrown.
abbrev pub whole : Error → Result (Data × ByteBuffer) → Result Data
whole trailing (err e) = err e
whole trailing (ok (object, buffer)) =
    if get_remainder_length buffer == 0 then ok object else err trailing

-- What was read, whatever is left.
abbrev pub only_object : Result (Data × ByteBuffer) → Result Data
only_object (err e) = err e
only_object (ok (object, buffer)) = ok object
