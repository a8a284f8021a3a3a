-- ===== src/Codecs/Messages/Encoding.antt =====
-- Which messages have an encoding, and how long it is.
use mainsail.Prelude.{
  true, ℕ, ◌+◌, ◌^◌, ◌<◌, ◌≡◌, refl, Option, none, some, List, [], ◌∷◌, length, arith,
}
use mainsail.ByteBuffer.{Viem, to_little_endian}
use mainsail.Serializer.{
  Property, number, Data, optional_string, uint8_field, uint32_field, hash_field, block_hash_field,
  consensus_signature_field, Schema, hash_size, AddressFactory,
}
use mainsail.Serializer.Encoding.{
  encodes_uint8, encodes_uint32, encodes_hash, encodes_block_hash, encodes_consensus_signature,
  FieldEncodes, absent, present, bare, ObjectEncodes, add, nothing,
}
use mainsail.Serializer.Sizes.{optional_size, object_size}
use mainsail.Codecs.{
  signature_size, field, optional_field, type_property, block_number_property, round_property,
  block_hash_property, validator_index_property, signature_property, genesis_block_hash_property,
  previous_block_hash_property,
}
use mainsail.Codecs.Messages.{
  schema_for_signature, schema, Vote, MessageData, Context, message_object, signature_object,
  block_hash_size,
}

-- A hash has 32 bytes where there is one.
abbrev pub IsHash : Option (List ℕ) → Type 0
IsHash none = Unit {0}
IsHash (some hash) = length hash ≡ 32

-- The fields fit into the widths of the schema.
pub record FitsVote (vote : Vote) : Type 0 where
  pub fits_type : vote.type < 2 ^ 8
  pub fits_block_number : vote.block_number < 2 ^ 32
  pub fits_round : vote.round < 2 ^ 32
  pub fits_block_hash : IsHash vote.block_hash

pub record FitsMessage (message : MessageData) : Type 0 where
  pub fits_vote : FitsVote message.vote
  pub fits_validator_index : message.validator_index < 2 ^ 8
  pub fits_signature : length message.signature ≡ 96

pub record FitsContext (context : Context) : Type 0 where
  pub fits_genesis_block_hash : length context.genesis_block_hash ≡ 32
  pub fits_previous_block_hash : length context.previous_block_hash ≡ 32

module _ (viem : Viem) (addresses : AddressFactory) where
  hash_encodes :
      (property : Property) (hash : Option (List ℕ))
      → IsHash hash
      → (bytes : List ℕ) × FieldEncodes viem addresses
          (optional_field property block_hash_field)
          (optional_string hash)
          bytes
  hash_encodes property none h = (0 ∷ [], absent refl)
  hash_encodes property (some hash) h = (1 ∷ hash, present hash refl (encodes_block_hash hash h))

  -- The fields of the vote, in front of the rest of either schema.
  vote_encodes :
      (object : Data) (vote : Vote) (schemas : List Schema)
      → FitsVote vote
      → object type_property ≡ number vote.type
      → object block_number_property ≡ number vote.block_number
      → object round_property ≡ number vote.round
      → object block_hash_property ≡ optional_string vote.block_hash
      → (ys : List ℕ) × ObjectEncodes viem addresses object schemas ys
      → (bytes : List ℕ) × ObjectEncodes viem addresses object
          (field type_property uint8_field
            ∷ field block_number_property uint32_field
            ∷ field round_property uint32_field
            ∷ optional_field block_hash_property block_hash_field
            ∷ schemas)
          bytes
  vote_encodes object vote schemas fits type block_number round block_hash others =
      add viem addresses object (field type_property uint8_field) _
        (
          to_little_endian 1 vote.type,
          rw type (bare _ refl (encodes_uint8 vote.type fits.fits_type)),
        )
        (add viem addresses object (field block_number_property uint32_field) _
          (
            to_little_endian 4 vote.block_number,
            rw block_number (bare _ refl (encodes_uint32 vote.block_number fits.fits_block_number)),
          )
          (add viem addresses object (field round_property uint32_field) _
            (
              to_little_endian 4 vote.round,
              rw round (bare _ refl (encodes_uint32 vote.round fits.fits_round)),
            )
            (add viem addresses object (optional_field block_hash_property block_hash_field) _
              (rw block_hash
                (hash_encodes block_hash_property vote.block_hash fits.fits_block_hash))
              others)))

  pub message-Encodes :
      (message : MessageData)
      → FitsMessage message
      → (bytes : List ℕ) × ObjectEncodes viem addresses (message_object message) schema bytes
  message-Encodes message fits =
      let object : Data = message_object message in
      vote_encodes object message.vote _ fits.fits_vote refl refl refl refl (
        add viem addresses object (field validator_index_property uint8_field) _
          (_, bare _ refl (encodes_uint8 message.validator_index fits.fits_validator_index))
          (add viem addresses object (field signature_property consensus_signature_field) _
            (_, bare _ refl (encodes_consensus_signature message.signature fits.fits_signature))
            (nothing viem addresses object)))

  pub signature-Encodes :
      (context : Context) (vote : Vote)
      → FitsContext context
      → FitsVote vote
      → (bytes : List ℕ) × ObjectEncodes viem addresses
          (signature_object context vote)
          schema_for_signature
          bytes
  signature-Encodes context vote inside fits =
      let object : Data = signature_object context vote in
      add viem addresses object (field genesis_block_hash_property hash_field) _
        (_, bare _ refl (encodes_hash context.genesis_block_hash inside.fits_genesis_block_hash))
        (add viem addresses object (field previous_block_hash_property hash_field) _
          (
            _,
            bare _ refl (encodes_hash context.previous_block_hash inside.fits_previous_block_hash),
          )
          (vote_encodes object vote _ fits refl refl refl refl (nothing viem addresses object)))

optional_hash_size :
    (hash : Option (List ℕ))
    → IsHash hash
    → optional_size true (optional_string hash) 32 ≡ 1 + block_hash_size hash
optional_hash_size none h = refl
optional_hash_size (some []) h = absurd (omega (arith, h))
optional_hash_size (some (byte ∷ bytes)) h = refl

pub message_size :
    (message : MessageData)
    → FitsMessage message
    → object_size schema (message_object message)
      ≡ 1 + 4 + 4 + 1 + 1 + block_hash_size message.vote.block_hash + signature_size
message_size message fits =
    omega (arith, optional_hash_size message.vote.block_hash fits.fits_vote.fits_block_hash)

pub signature_bytes_size :
    (context : Context) (vote : Vote)
    → FitsVote vote
    → object_size schema_for_signature (signature_object context vote)
      ≡ hash_size + hash_size + 1 + 4 + 4 + 1 + block_hash_size vote.block_hash
signature_bytes_size context vote fits =
    omega (arith, optional_hash_size vote.block_hash fits.fits_block_hash)
