-- ===== src/Codecs/Proposals/Encoding.antt =====
-- Which proposals and lock proofs have an encoding, and how long it is.
use mainsail.Prelude.{
  ℕ, ◌+◌, ◌^◌, ◌<◌, ◌≡◌, refl, Option, none, some, true, List, [], ◌∷◌, ◌++◌, length, arith,
}
use mainsail.ByteBuffer.{Viem, to_little_endian}
use mainsail.ValidatorSet.{validator_set_pack}
use mainsail.Serializer.{
  Data, optional_number, uint8_field, uint32_field, consensus_signature_field, validator_set_field,
  hex_field, AddressFactory,
}
use mainsail.Serializer.Encoding.{
  encodes_uint8, encodes_uint32, encodes_consensus_signature, encodes_validator_set, encodes_hex,
  FieldEncodes, absent, present, bare, ObjectEncodes, none_left, one_more, add, nothing,
  Agrees-encoding, append-encoding,
}
use mainsail.Serializer.Sizes.{optional_size, object_size}
use mainsail.Codecs.{
  signature_size, field, optional_field, round_property, validator_index_property,
  signature_property, valid_round_property, payload_serialized_property, validators_property,
}
use mainsail.Codecs.Proposals.{
  schema_unsigned, schema, lock_proof_schema, ProposalData, AggregatedSignature, unsigned_object,
  proposal_object, lock_proof_object, valid_round_size, unsigned_proposal_size,
}

abbrev pub IsRound : Option ℕ → Type 0
IsRound none = Unit {0}
IsRound (some round) = round < 2 ^ 32

-- The fields fit into the widths of the schema.
pub record FitsProposal (proposal : ProposalData) : Type 0 where
  pub fits_round : proposal.round < 2 ^ 32
  pub fits_valid_round : IsRound proposal.valid_round
  pub fits_validator_index : proposal.validator_index < 2 ^ 8
  pub fits_payload : length proposal.payload_serialized < 2 ^ 32

-- There are fewer than 256 flags, and the packed flags fit into 64 bits.
pub record FitsLockProof (lock_proof : AggregatedSignature) : Type 0 where
  pub fits_signature : length lock_proof.signature ≡ 96
  pub fits_validators : length lock_proof.validators < 2 ^ 8
  pub fits_packed : validator_set_pack lock_proof.validators < 2 ^ 64

module _ (viem : Viem) (addresses : AddressFactory) where
  valid_round_encodes :
      (valid_round : Option ℕ)
      → IsRound valid_round
      → (bytes : List ℕ) × FieldEncodes viem addresses
          (optional_field valid_round_property uint32_field)
          (optional_number valid_round)
          bytes
  valid_round_encodes none h = (0 ∷ [], absent refl)
  valid_round_encodes (some round) h =
      (_, present (to_little_endian 4 round) refl (encodes_uint32 round h))

  pub unsigned-Encodes :
      (proposal : ProposalData)
      → FitsProposal proposal
      → (bytes : List ℕ) × ObjectEncodes viem addresses
          (unsigned_object proposal)
          schema_unsigned
          bytes
  unsigned-Encodes proposal fits =
      let object : Data = unsigned_object proposal in
      add viem addresses object (field round_property uint32_field) _
        (_, bare _ refl (encodes_uint32 proposal.round fits.fits_round))
        (add viem addresses object (optional_field valid_round_property uint32_field) _
          (valid_round_encodes proposal.valid_round fits.fits_valid_round)
          (add viem addresses object (field validator_index_property uint8_field) _
            (_, bare _ refl (encodes_uint8 proposal.validator_index fits.fits_validator_index))
            (add viem addresses object (field payload_serialized_property hex_field) _
              (_, bare _ refl (encodes_hex proposal.payload_serialized fits.fits_payload))
              (nothing viem addresses object))))

  -- The signature stands behind the bytes that are signed.
  pub proposal-Encodes :
      (proposal : ProposalData) (signature bytes : List ℕ)
      → length signature ≡ 96
      → ObjectEncodes viem addresses (unsigned_object proposal) schema_unsigned bytes
      → ObjectEncodes viem addresses
          (proposal_object proposal signature)
          schema
          (bytes ++ (signature ++ []))
  proposal-Encodes proposal signature bytes long encoded =
      let object : Data = proposal_object proposal signature in
      append-encoding viem addresses object schema_unsigned
        (field signature_property consensus_signature_field ∷ []) bytes (signature ++ [])
        (Agrees-encoding viem addresses (unsigned_object proposal) object schema_unsigned bytes
          (refl, (refl, (refl, (refl, tt)))) encoded)
        (one_more (field signature_property consensus_signature_field) [] signature []
          (bare signature refl (encodes_consensus_signature signature long)) none_left)

  pub lock_proof-Encodes :
      (lock_proof : AggregatedSignature)
      → FitsLockProof lock_proof
      → (bytes : List ℕ) × ObjectEncodes viem addresses
          (lock_proof_object lock_proof)
          lock_proof_schema
          bytes
  lock_proof-Encodes lock_proof fits =
      let object : Data = lock_proof_object lock_proof in
      add viem addresses object (field signature_property consensus_signature_field) _
        (_, bare _ refl (encodes_consensus_signature lock_proof.signature fits.fits_signature))
        (add viem addresses object (field validators_property validator_set_field) _
          (
            _,
            bare _ refl
                (encodes_validator_set lock_proof.validators fits.fits_validators fits.fits_packed),
          )
          (nothing viem addresses object))

optional_round_size :
    (valid_round : Option ℕ)
    → optional_size true (optional_number valid_round) 4 ≡ valid_round_size valid_round
optional_round_size none = refl
optional_round_size (some round) = refl

pub unsigned_size :
    (proposal : ProposalData)
    → object_size schema_unsigned (unsigned_object proposal) ≡ unsigned_proposal_size proposal
unsigned_size proposal = omega (arith, optional_round_size proposal.valid_round)

pub proposal_size :
    (proposal : ProposalData) (signature : List ℕ)
    → object_size schema (proposal_object proposal signature)
      ≡ unsigned_proposal_size proposal + signature_size
proposal_size proposal signature = omega (arith, optional_round_size proposal.valid_round)
