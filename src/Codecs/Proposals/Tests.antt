-- ===== src/Codecs/Proposals/Tests.antt =====
-- A proposal of round 2 for a value that was found valid in round 1, and its payload.
use mainsail.Prelude.{
  ℕ, ◌≡◌, ◌++◌, refl, Bool, true, false, Option, some, none, List, [], ◌∷◌, replicate, arith,
}
use mainsail.Prelude.Outcome.{ok}
use mainsail.ValidatorSet.{validator_set_pack}
use mainsail.Serializer.{undefined, number, string, Data, object_of, assign}
use mainsail.Serializer.RoundTrip.{Agrees}
use mainsail.Serializer.Examples.{fixed_width, fixed_width-ViemLaws, plain_addresses}
use mainsail.Codecs.{
  round_property, validator_index_property, signature_property, valid_round_property,
  payload_serialized_property, number_property, empty, BlockFactory,
}
use mainsail.Codecs.Proposals.{
  schema, ProposalData, AggregatedSignature, proposal_object, Proposal, serialize_proposal_unsigned,
  serialize_proposal, serialize_payload, deserialize_proposal, make_payload_from_bytes,
}
use mainsail.Codecs.Proposals.Encoding.{FitsProposal}
use mainsail.Codecs.Proposals.RoundTrip.{deserialize_proposal-serialize_proposal}
use mainsail.Codecs.Proposals.Payload.{SameProof, make_payload_from_bytes-serialize_payload}

abbrev example_proof : AggregatedSignature
example_proof = record { signature = replicate 96 7; validators = true ∷ true ∷ false ∷ [] }

-- A payload with no lock proof for a block of two bytes.
abbrev example_proposal : ProposalData
example_proposal = record {
  round = 2;
  valid_round = none;
  validator_index = 5;
  payload_serialized = 0 ∷ 1 ∷ 2 ∷ [];
}

example_proposal-Fits : FitsProposal example_proposal
example_proposal-Fits = record {
  fits_round = omega arith;
  fits_valid_round = tt;
  fits_validator_index = omega arith;
  fits_payload = omega arith;
}

packed_three : validator_set_pack (true ∷ true ∷ false ∷ []) ≡ 3
unfolding validator_set_pack
packed_three = refl

-- Blocks of any bytes are taken to be block 1.
abbrev example_blocks : BlockFactory
example_blocks = record {
  from_bytes = λ bytes. ok (object_of ((number_property, number 1) ∷ []));
  header_from_bytes = λ bytes. ok (object_of ((number_property, number 1) ∷ []));
}

abbrev accept : Data → Bool
accept object = true

deserialize_proposal-serialize_proposal_example :
    (bytes : List ℕ) × (found : Data) × (serialize_proposal_unsigned fixed_width plain_addresses
        example_proposal
      ≡ ok bytes)
    × (serialize_proposal fixed_width plain_addresses example_proposal (replicate 96 7)
        ≡ ok (bytes ++ replicate 96 7))
    × (deserialize_proposal fixed_width plain_addresses (bytes ++ replicate 96 7) ≡ ok found)
    × Agrees schema (proposal_object example_proposal (replicate 96 7)) found
deserialize_proposal-serialize_proposal_example =
    deserialize_proposal-serialize_proposal fixed_width plain_addresses fixed_width-ViemLaws
      example_proposal (replicate 96 7) example_proposal-Fits refl

make_payload_from_bytes-serialize_payload_example :
    (bytes : List ℕ) × (found : Option Data) × (serialize_payload fixed_width plain_addresses
        (1 ∷ 2 ∷ [])
        (some example_proof)
      ≡ ok bytes)
    × (make_payload_from_bytes fixed_width plain_addresses example_blocks accept accept bytes
        ≡ ok (record {
          block = object_of ((number_property, number 1) ∷ []);
          lock_proof = found;
          serialized = bytes;
        }))
    × SameProof (some example_proof) found
make_payload_from_bytes-serialize_payload_example =
    make_payload_from_bytes-serialize_payload fixed_width plain_addresses fixed_width-ViemLaws
      example_blocks accept accept (1 ∷ 2 ∷ []) (some example_proof)
      (object_of ((number_property, number 1) ∷ []))
      (record {
        fits_signature = refl;
        fits_validators = omega arith;
        fits_packed = omega (arith, packed_three);
      })
      refl (λ found same. refl)

-- The bytes of a proposal that is accepted.
abbrev proposal_bytes : List ℕ
proposal_bytes = 2 ∷ 0 ∷ 0 ∷ 0 ∷ 0 ∷ 5 ∷ 3 ∷ 0 ∷ 0 ∷ 0 ∷ 0 ∷ 1 ∷ 2 ∷ replicate 96 7

abbrev example_read : Data
example_read = assign signature_property (string (replicate 96 7)) (
    assign payload_serialized_property (string (0 ∷ 1 ∷ 2 ∷ [])) (
      assign validator_index_property (number 5)
        (assign valid_round_property undefined (assign round_property (number 2) empty))))

abbrev example_made : Proposal
example_made = record {
  properties = example_read;
  block_header = object_of ((number_property, number 1) ∷ []);
  lock_proof = none;
  serialized = proposal_bytes;
}
