-- ===== src/Codecs/Blocks/Tests.antt =====
-- A block with one transaction of two bytes.
use mainsail.Prelude.{ℕ, ◌≡◌, ◌++◌, refl, List, [], ◌∷◌, length, replicate, take, arith}
use mainsail.Prelude.Outcome.{ok, Result}
use mainsail.ByteBuffer.{to_little_endian, read_number, read_bytes}
use mainsail.Serializer.{Property, Value, string, Data, object_of, assign}
use mainsail.Serializer.RoundTrip.{Agrees}
use mainsail.Serializer.Examples.{
  fixed_width, fixed_width-ViemLaws, plain_addresses, plain_addresses-AddressLaws, bytes_lem,
}
use mainsail.Codecs.{hash_property, empty}
use mainsail.Codecs.Blocks.{
  block_header_schema, header_size, BlockHeader, header_entries, header_object, total_size,
  read_all, BlockWithTransactions, serialize_header, serialize_with_transactions,
  deserialize_header, deserialize_with_transactions,
}
use mainsail.Codecs.Blocks.Encoding.{FitsHeader}
use mainsail.Codecs.Blocks.RoundTrip.{
  deserialize_header-serialize_header, deserialize_with_transactions-serialize_with_transactions,
}
use mainsail.Codecs.Blocks.Hashes.{deserialize_with_transactions-hash}

abbrev example_header : BlockHeader
example_header = record {
  version = 1;
  timestamp = 1700000000000;
  number = 2;
  round = 0;
  parent_hash = replicate 32 1;
  state_root = replicate 32 2;
  logs_bloom = replicate 256 0;
  transactions_count = 1;
  gas_used = 21000;
  fee = 5;
  reward = 0;
  payload_size = 6;
  transactions_root = replicate 32 3;
  proposer = replicate 20 4;
  randao_reveal = replicate 96 5;
}

example_header-Fits : FitsHeader plain_addresses example_header
example_header-Fits = record {
  fits_version = omega arith;
  fits_timestamp = omega arith;
  fits_number = omega arith;
  fits_round = omega arith;
  fits_parent_hash = refl;
  fits_state_root = refl;
  fits_logs_bloom = refl;
  fits_transactions_count = omega arith;
  fits_gas_used = omega arith;
  fits_fee = omega arith;
  fits_reward = omega arith;
  fits_payload_size = omega arith;
  fits_transactions_root = refl;
  fits_proposer = refl;
  proposer_back = refl;
  fits_randao_reveal = refl;
}

-- A transaction is the string of its bytes, and a hash is the first bytes.
abbrev read_transaction : List ℕ → Result Data
read_transaction bytes = ok (object_of ((1, string bytes) ∷ []))

abbrev first_bytes : List ℕ → List ℕ
first_bytes bytes = take 32 bytes

abbrev one_transaction : List Data
one_transaction = object_of ((1, string (8 ∷ 9 ∷ [])) ∷ []) ∷ []

one_read : read_all read_transaction ((8 ∷ 9 ∷ []) ∷ []) ≡ ok one_transaction
unfolding read_all
one_read = refl

block_round_trip_example :
    (header_bytes : List ℕ) × (bytes : List ℕ) × (found : Data) × (serialize_header fixed_width
        plain_addresses
        (header_object example_header)
      ≡ ok header_bytes)
    × (serialize_with_transactions fixed_width plain_addresses example_header ((8 ∷ 9 ∷ []) ∷ [])
        ≡ ok bytes)
    × (length bytes ≡ total_size example_header)
    × (deserialize_with_transactions fixed_width plain_addresses first_bytes read_transaction bytes
        ≡ ok (record {
          properties = assign hash_property (string (first_bytes header_bytes)) found;
          transactions = one_transaction;
        }))
    × Agrees block_header_schema (header_object example_header) found
block_round_trip_example =
    deserialize_with_transactions-serialize_with_transactions fixed_width plain_addresses
      fixed_width-ViemLaws example_header first_bytes read_transaction ((8 ∷ 9 ∷ []) ∷ [])
      one_transaction example_header-Fits
      (record { counted = refl; measured = refl; fits_each = (omega arith, tt) }) one_read

header_round_trip_example :
    (bytes : List ℕ) × (found : Data) × (serialize_header fixed_width plain_addresses
        (header_object example_header)
      ≡ ok bytes)
    × (length bytes ≡ header_size)
    × (deserialize_header fixed_width plain_addresses first_bytes read_transaction
          (bytes ++ (2 ∷ 0 ∷ 0 ∷ 0 ∷ 8 ∷ 9 ∷ []))
        ≡ ok (assign hash_property (string (first_bytes bytes)) found))
    × Agrees block_header_schema (header_object example_header) found
header_round_trip_example =
    deserialize_header-serialize_header fixed_width plain_addresses fixed_width-ViemLaws
      example_header first_bytes read_transaction (2 ∷ 0 ∷ 0 ∷ 0 ∷ 8 ∷ 9 ∷ []) example_header-Fits
      refl

abbrev header_bytes : List ℕ
header_bytes =
    1
    ∷ (to_little_endian 6 1700000000000
        ++ (2
            ∷ 0
            ∷ 0
            ∷ 0
            ∷ 0
            ∷ 0
            ∷ 0
            ∷ 0
            ∷ (replicate 32 1
                ++ (replicate 32 2
                    ++ (replicate 256 0
                        ++ (1
                            ∷ 0
                            ∷ (to_little_endian 4 21000
                                ++ (replicate 31 0
                                    ++ (5
                                        ∷ (replicate 32 0
                                            ++ (6
                                                ∷ 0
                                                ∷ 0
                                                ∷ 0
                                                ∷ (replicate 32 3
                                                    ++ (replicate 20 4
                                                        ++ replicate 96 5)))))))))))))

abbrev block_bytes : List ℕ
block_bytes = header_bytes ++ (2 ∷ 0 ∷ 0 ∷ 0 ∷ 8 ∷ 9 ∷ [])

abbrev entries : List (Property × Value) → Data → Data
entries [] target = target
entries ((property, value) ∷ others) target = entries others (assign property value target)

abbrev example_block : BlockWithTransactions
example_block = record {
  properties =
      assign hash_property (string (first_bytes header_bytes))
        (entries (header_entries example_header) empty);
  transactions = one_transaction;
}

block_read :
    deserialize_with_transactions fixed_width plain_addresses first_bytes read_transaction
      block_bytes
    ≡ ok example_block
unfolding deserialize_with_transactions read_number read_bytes
block_read = refl

block_hash_example :
    (example_block.properties hash_property ≡ string (first_bytes (take header_size block_bytes)))
    × (deserialize_header fixed_width plain_addresses first_bytes read_transaction block_bytes
        ≡ ok example_block.properties)
block_hash_example =
    deserialize_with_transactions-hash fixed_width plain_addresses fixed_width-ViemLaws
      plain_addresses-AddressLaws first_bytes read_transaction block_bytes example_block
      (bytes_lem block_bytes refl) block_read
