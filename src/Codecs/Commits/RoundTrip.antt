-- ===== src/Codecs/Commits/RoundTrip.antt =====
-- Commits are read back from their bytes, those that were stored too.
use mainsail.Prelude.{ℕ, ◌^◌, ◌<◌, ◌≡◌, refl, sym, Bool, true, List, ◌++◌, length, arith}
use mainsail.Prelude.Outcome.{ok, trailing_bytes}
use mainsail.ByteBuffer.{Viem, from_buffer, read_bytes}
use mainsail.ByteBuffer.Reading.{Reads-ok, read_bytes-Reads}
use mainsail.ValidatorSet.{validator_set_pack}
use mainsail.ValidatorSet.Laws.{unpack-pack}
use mainsail.Serializer.{
  Data, uint32_field, consensus_signature_field, validator_set_field, AddressFactory,
}
use mainsail.Serializer.Encoding.{
  ViemLaws, encodes_uint32, encodes_consensus_signature, encodes_validator_set, bare, ObjectEncodes,
  add, nothing,
}
use mainsail.Serializer.Sizes.{length-object}
use mainsail.Serializer.Writing.{serialize-fits}
use mainsail.Serializer.RoundTrip.{Agrees}
use mainsail.Codecs.{field, round_property, signature_property, validators_property, BlockFactory}
use mainsail.Codecs.Whole.{whole-encoding}
use mainsail.Codecs.Commits.{
  proof_size, proof_schema, CommitProof, proof_object, Commit, serialize_commit_proof,
  serialize_commit, deserialize_commit_proof, from_bytes, from_storage,
}

-- The round fits, there are fewer than 256 flags, and the packed flags fit into 64 bits.
pub record FitsProof (proof : CommitProof) : Type 0 where
  pub fits_round : proof.round < 2 ^ 32
  pub fits_signature : length proof.signature ≡ 96
  pub fits_validators : length proof.validators < 2 ^ 8
  pub fits_packed : validator_set_pack proof.validators < 2 ^ 64

module _ (viem : Viem) (addresses : AddressFactory) (laws : ViemLaws viem) where
  proof-Encodes :
      (proof : CommitProof)
      → FitsProof proof
      → (bytes : List ℕ) × ObjectEncodes viem addresses (proof_object proof) proof_schema bytes
  proof-Encodes proof fits =
      let object : Data = proof_object proof in
      add viem addresses object (field round_property uint32_field) _
        (_, bare _ refl (encodes_uint32 proof.round fits.fits_round))
        (add viem addresses object (field signature_property consensus_signature_field) _
          (_, bare _ refl (encodes_consensus_signature proof.signature fits.fits_signature))
          (add viem addresses object (field validators_property validator_set_field) _
            (
              _,
              bare _ refl
                  (encodes_validator_set proof.validators fits.fits_validators fits.fits_packed),
            )
            (nothing viem addresses object)))

  serialized_proof :
      (proof : CommitProof) (bytes : List ℕ)
      → ObjectEncodes viem addresses (proof_object proof) proof_schema bytes
      → (serialize_commit_proof viem addresses proof ≡ ok bytes) × (length bytes ≡ proof_size)
  unfolding serialize_commit_proof
  serialized_proof proof bytes encoded =
      let size : length bytes ≡ proof_size =
        length-object viem addresses laws (proof_object proof) proof_schema bytes encoded in
      (
        serialize-fits viem addresses laws proof_size proof_schema (proof_object proof) bytes
            (omega (arith, size)) encoded,
        size,
      )

  read_proof :
      (proof : CommitProof) (bytes : List ℕ)
      → ObjectEncodes viem addresses (proof_object proof) proof_schema bytes
      → (found : Data) × (deserialize_commit_proof viem addresses bytes ≡ ok found)
        × Agrees proof_schema (proof_object proof) found
  unfolding deserialize_commit_proof
  read_proof proof bytes encoded =
      whole-encoding proof_schema (proof_object proof) viem addresses laws trailing_bytes bytes
        (tt, (tt, (tt, tt))) encoded

  module _ (blocks : BlockFactory) (validate : Commit → Bool) where
    -- A commit that is serialized from a proof that fits and a block's bytes is read back as that proof and that
    -- block. The block factory reads the block's bytes, and the JSON schema accepts such a commit.
    pub from_bytes-serialize_commit :
        (proof : CommitProof) (block_bytes : List ℕ) (block : Data)
        → FitsProof proof
        → blocks.from_bytes block_bytes ≡ ok block
        → ((commit : Commit)
            → Agrees proof_schema (proof_object proof) commit.proof
            → commit.block ≡ block
            → validate commit ≡ true)
        → (bytes : List ℕ) × (found : Data) × (serialize_commit viem addresses proof block_bytes
            ≡ ok bytes)
          × (from_bytes viem addresses blocks validate bytes
              ≡ ok (record { block = block; proof = found; serialized = bytes }))
          × Agrees proof_schema (proof_object proof) found
    unfolding serialize_commit from_bytes
    from_bytes-serialize_commit proof block_bytes block fits parses accepts =
        let (bytes, encoded) = proof-Encodes proof fits in
        let (written, size) = serialized_proof proof bytes encoded in
        let (found, read, agrees) = read_proof proof bytes encoded in
        let (rest, split, left) =
          Reads-ok bytes block_bytes (read_bytes proof_size (from_buffer (bytes ++ block_bytes))) (
            read_bytes-Reads (from_buffer (bytes ++ block_bytes)) bytes block_bytes refl proof_size
              (sym size)) in
        let commit : Commit = record {
          block = block;
          proof = found;
          serialized = bytes ++ block_bytes;
        } in
        let valid : validate commit ≡ true = accepts commit agrees refl in
        (
          bytes ++ block_bytes,
          found,
          rw written refl,
          rw (split, read, left, parses, valid) refl,
          agrees,
        )

  -- A commit whose proof was stored with its flags packed comes back from the storage with the same proof and
  -- the bytes that it is sent as, if the flags are as many as the validators of the block's milestone.
  pub from_storage-stored :
      (round_validators : Data → ℕ) (proof : CommitProof) (block : Data) (block_bytes : List ℕ)
      → FitsProof proof
      → round_validators block ≡ length proof.validators
      → (bytes : List ℕ) × (serialize_commit viem addresses proof block_bytes ≡ ok bytes)
        × (from_storage viem addresses round_validators (record {
          block = block;
          block_serialized = block_bytes;
          round = proof.round;
          signature = proof.signature;
          validator_set = validator_set_pack proof.validators;
        })
            ≡ ok (record { block = block; proof = proof_object proof; serialized = bytes }))
  unfolding from_storage serialize_commit
  from_storage-stored round_validators proof block block_bytes fits count =
      let (bytes, encoded) = proof-Encodes proof fits in
      let (written, _) = serialized_proof proof bytes encoded in
      (
        bytes ++ block_bytes,
        rw written refl,
        rw (count, unpack-pack proof.validators, written) refl,
      )
