-- ===== src/Codecs/Commits/Tests.antt =====
-- A commit of round 1 by two of three validators.
use mainsail.Prelude.{ℕ, ◌≡◌, refl, true, false, List, [], ◌∷◌, replicate, arith}
use mainsail.Prelude.Outcome.{ok}
use mainsail.ValidatorSet.{validator_set_pack}
use mainsail.Serializer.{number, Data, object_of}
use mainsail.Serializer.RoundTrip.{Agrees}
use mainsail.Serializer.Examples.{fixed_width, fixed_width-ViemLaws, plain_addresses}
use mainsail.Codecs.{number_property, BlockFactory}
use mainsail.Codecs.Commits.{
  proof_schema, CommitProof, proof_object, serialize_commit, from_bytes, from_storage,
}
use mainsail.Codecs.Commits.RoundTrip.{FitsProof, from_bytes-serialize_commit, from_storage-stored}

abbrev example_proof : CommitProof
example_proof = record {
  round = 1;
  signature = replicate 96 7;
  validators = true ∷ true ∷ false ∷ [];
}

packed_three : validator_set_pack (true ∷ true ∷ false ∷ []) ≡ 3
unfolding validator_set_pack
packed_three = refl

example_proof-Fits : FitsProof example_proof
example_proof-Fits = record {
  fits_round = omega arith;
  fits_signature = refl;
  fits_validators = omega arith;
  fits_packed = omega (arith, packed_three);
}

abbrev block_one : Data
block_one = object_of ((number_property, number 1) ∷ [])

abbrev example_blocks : BlockFactory
example_blocks = record {
  from_bytes = λ bytes. ok block_one;
  header_from_bytes = λ bytes. ok block_one;
}

from_bytes-serialize_commit_example :
    (bytes : List ℕ) × (found : Data) × (serialize_commit fixed_width plain_addresses example_proof
        (1 ∷ 2 ∷ [])
      ≡ ok bytes)
    × (from_bytes fixed_width plain_addresses example_blocks (λ commit. true) bytes
        ≡ ok (record { block = block_one; proof = found; serialized = bytes }))
    × Agrees proof_schema (proof_object example_proof) found
from_bytes-serialize_commit_example =
    from_bytes-serialize_commit fixed_width plain_addresses fixed_width-ViemLaws example_blocks
      (λ commit. true) example_proof (1 ∷ 2 ∷ []) block_one example_proof-Fits refl
      (λ commit agrees same. refl)

from_storage-stored_example :
    (bytes : List ℕ) × (serialize_commit fixed_width plain_addresses example_proof (1 ∷ 2 ∷ [])
      ≡ ok bytes)
    × (from_storage fixed_width plain_addresses
          (λ block. 3)
          (record {
            block = block_one;
            block_serialized = 1 ∷ 2 ∷ [];
            round = 1;
            signature = replicate 96 7;
            validator_set = validator_set_pack (true ∷ true ∷ false ∷ []);
          })
        ≡ ok (record { block = block_one; proof = proof_object example_proof; serialized = bytes }))
from_storage-stored_example =
    from_storage-stored fixed_width plain_addresses fixed_width-ViemLaws (λ block. 3) example_proof
      block_one (1 ∷ 2 ∷ []) example_proof-Fits refl
