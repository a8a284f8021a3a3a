-- ===== src/Codecs/Blocks/Encoding.antt =====
-- Which blocks have an encoding, and how long it is.
use mainsail.Prelude.{ℕ, ◌^◌, ◌<◌, ◌≡◌, refl, ◌++◌, List, [], ◌∷◌, length, All}
use mainsail.ByteBuffer.{Viem}
use mainsail.Serializer.{Data, transactions_field, Schema, AddressFactory}
use mainsail.Serializer.Encoding.{
  encode_transactions, encodes_uint8, encodes_uint16, encodes_uint32, encodes_uint48,
  encodes_uint256, encodes_hash, encodes_address, encodes_consensus_signature, encodes_transactions,
  FieldEncodes, bare, ObjectEncodes, none_left, one_more, add, nothing, Agrees-encoding,
  append-encoding,
}
use mainsail.Serializer.Sizes.{transactions_size}
use mainsail.Codecs.{field, transactions_property}
use mainsail.Codecs.Blocks.{
  block_header_schema, transactions_schema, block_schema, BlockHeader, header_object, block_object,
}

-- The fields fit into the widths of the schema, and the proposer is an address.
pub record FitsHeader (addresses : AddressFactory) (header : BlockHeader) : Type 0 where
  pub fits_version : header.version < 2 ^ 8
  pub fits_timestamp : header.timestamp < 2 ^ 48
  pub fits_number : header.number < 2 ^ 32
  pub fits_round : header.round < 2 ^ 32
  pub fits_parent_hash : length header.parent_hash ≡ 32
  pub fits_state_root : length header.state_root ≡ 32
  pub fits_logs_bloom : length header.logs_bloom ≡ 256
  pub fits_transactions_count : header.transactions_count < 2 ^ 16
  pub fits_gas_used : header.gas_used < 2 ^ 32
  pub fits_fee : header.fee < 2 ^ 256
  pub fits_reward : header.reward < 2 ^ 256
  pub fits_payload_size : header.payload_size < 2 ^ 32
  pub fits_transactions_root : length header.transactions_root ≡ 32
  pub fits_proposer : length (addresses.to_buffer header.proposer) ≡ 20
  pub proposer_back : addresses.from_buffer (addresses.to_buffer header.proposer) ≡ header.proposer
  pub fits_randao_reveal : length header.randao_reveal ≡ 96

-- The header counts the transactions and their bytes, with the length in front of each.
pub record FitsTransactions (header : BlockHeader) (serialized : List (List ℕ)) : Type 0 where
  pub counted : header.transactions_count ≡ length serialized
  pub measured : header.payload_size ≡ transactions_size serialized
  pub fits_each : All (λ transaction. length transaction < 2 ^ 32) serialized

module _ (viem : Viem) (addresses : AddressFactory) (header : BlockHeader) where
  abbrev pub next_field :
      (schema : Schema) (schemas : List Schema) (xs : List ℕ)
      → FieldEncodes viem addresses schema (header_object header schema.property) xs
      → (ys : List ℕ) × ObjectEncodes viem addresses (header_object header) schemas ys
      → (bytes : List ℕ) × ObjectEncodes viem addresses
          (header_object header)
          (schema ∷ schemas)
          bytes
  next_field schema schemas xs h others =
      add viem addresses (header_object header) schema schemas (xs, h) others

  pub header-Encodes :
      FitsHeader addresses header
      → (bytes : List ℕ) × ObjectEncodes viem addresses
          (header_object header)
          block_header_schema
          bytes
  header-Encodes fits =
      next_field _ _ _ (bare _ refl (encodes_uint8 header.version fits.fits_version)) (
        next_field _ _ _ (bare _ refl (encodes_uint48 header.timestamp fits.fits_timestamp)) (
          next_field _ _ _ (bare _ refl (encodes_uint32 header.number fits.fits_number)) (
            next_field _ _ _ (bare _ refl (encodes_uint32 header.round fits.fits_round)) (
              next_field _ _ _ (bare _ refl (encodes_hash header.parent_hash fits.fits_parent_hash))
                (next_field _ _ _
                  (bare _ refl (encodes_hash header.state_root fits.fits_state_root))
                  (next_field _ _ _
                    (bare _ refl (encodes_hash header.logs_bloom fits.fits_logs_bloom))
                    (next_field _ _ _
                      (bare _ refl
                        (encodes_uint16 header.transactions_count fits.fits_transactions_count))
                      (next_field _ _ _
                        (bare _ refl (encodes_uint32 header.gas_used fits.fits_gas_used))
                        (next_field _ _ _ (bare _ refl (encodes_uint256 header.fee fits.fits_fee)) (
                          next_field _ _ _
                            (bare _ refl (encodes_uint256 header.reward fits.fits_reward))
                            (next_field _ _ _
                              (bare _ refl
                                (encodes_uint32 header.payload_size fits.fits_payload_size))
                              (next_field _ _ _
                                (bare _ refl (
                                  encodes_hash header.transactions_root
                                    fits.fits_transactions_root))
                                (next_field _ _ _
                                  (bare _ refl (
                                    encodes_address header.proposer fits.fits_proposer
                                      fits.proposer_back))
                                  (next_field _ _ _
                                    (bare _ refl (
                                      encodes_consensus_signature header.randao_reveal
                                        fits.fits_randao_reveal))
                                    (nothing viem addresses (header_object header))))))))))))))))

  abbrev EntriesAgree : List (List ℕ) → Type 0
  EntriesAgree serialized =
      All
        (λ schema.
          header_object header schema.property ≡ block_object header serialized schema.property)
        block_header_schema

  agree : (serialized : List (List ℕ)) → EntriesAgree serialized
  agree serialized = (
    refl,
    (
      refl,
      (
        refl,
        (
          refl,
          (
            refl,
            (refl, (refl, (refl, (refl, (refl, (refl, (refl, (refl, (refl, (refl, tt)))))))))),
          ),
        ),
      ),
    ),
  )

  -- The transactions stand behind the header.
  pub block-Encodes :
      (serialized : List (List ℕ)) (bytes : List ℕ)
      → FitsTransactions header serialized
      → ObjectEncodes viem addresses (header_object header) block_header_schema bytes
      → ObjectEncodes viem addresses
          (block_object header serialized)
          block_schema
          (bytes ++ (encode_transactions serialized ++ []))
  block-Encodes serialized bytes fits encoded =
      let object : Data = block_object header serialized in
      append-encoding viem addresses object block_header_schema transactions_schema bytes
        (encode_transactions serialized ++ [])
        (Agrees-encoding viem addresses (header_object header) object block_header_schema bytes
          (agree serialized) encoded)
        (one_more (field transactions_property transactions_field) []
          (encode_transactions serialized) []
          (bare (encode_transactions serialized) refl
            (encodes_transactions serialized fits.fits_each))
          none_left)
