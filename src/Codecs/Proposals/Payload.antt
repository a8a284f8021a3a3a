-- ===== src/Codecs/Proposals/Payload.antt =====
-- The payload of a proposal, a block behind the lock proof that it may have, is read back from its bytes.
use mainsail.Prelude.{
  ℕ, suc, ◌<◌, ◌≡◌, ◌%◌, refl, sym, Bool, true, Option, none, some, List, [], ◌∷◌, ◌++◌, length,
  arith, append-nil, subst,
}
use mainsail.Prelude.Outcome.{ok, ◌>>=◌}
use mainsail.ByteBuffer.{Viem, from_buffer, read_uint8, read_bytes}
use mainsail.ByteBuffer.Reading.{
  Reads, Reads-and_then, Reads-ok, read_number-Reads, read_bytes-Reads,
}
use mainsail.Serializer.{Data, assign, AddressFactory}
use mainsail.Serializer.Encoding.{ViemLaws, ObjectEncodes}
use mainsail.Serializer.RoundTrip.{Agrees}
use mainsail.Codecs.{number_property, BlockFactory}
use mainsail.Codecs.Whole.{only_object-encoding}
use mainsail.Codecs.Proposals.{
  lock_proof_schema, AggregatedSignature, lock_proof_object, serialize_payload,
  deserialize_lock_proof, get_proof_of, get_lock_proof, verify_lock_proof, make_payload_from_bytes,
}
use mainsail.Codecs.Proposals.Encoding.{FitsLockProof, lock_proof-Encodes}
use mainsail.Codecs.Proposals.RoundTrip.{serialized_lock_proof}

-- A proof was read where there is one, and it has the fields of the one that was written.
abbrev pub SameProof : Option AggregatedSignature → Option Data → Type 0
SameProof none none = Unit {0}
SameProof none (some found) = ⊥
SameProof (some lock_proof) none = ⊥
SameProof (some lock_proof) (some found) =
    Agrees lock_proof_schema (lock_proof_object lock_proof) found

abbrev pub FitsPayload : Option AggregatedSignature → Type 0
FitsPayload none = Unit {0}
FitsPayload (some lock_proof) = FitsLockProof lock_proof

module _ (viem : Viem) (addresses : AddressFactory) (laws : ViemLaws viem) where
  -- The proof decoder stops at the end of the proof.
  pub read_lock_proof :
      (lock_proof : AggregatedSignature) (bytes rest : List ℕ)
      → ObjectEncodes viem addresses (lock_proof_object lock_proof) lock_proof_schema bytes
      → (found : Data) × (deserialize_lock_proof viem addresses (bytes ++ rest) ≡ ok found)
        × Agrees lock_proof_schema (lock_proof_object lock_proof) found
  unfolding deserialize_lock_proof
  read_lock_proof lock_proof bytes rest encoded =
      only_object-encoding lock_proof_schema (lock_proof_object lock_proof) viem addresses laws
        bytes rest (tt, (tt, tt)) encoded

  get_lock_proof-none :
      (block : List ℕ) → Reads none block (get_lock_proof viem addresses (from_buffer (0 ∷ block)))
  unfolding get_lock_proof
  get_lock_proof-none block =
      Reads-and_then 0 none block block (get_proof_of viem addresses)
        (read_uint8 (from_buffer (0 ∷ block)))
        (read_number-Reads (from_buffer (0 ∷ block)) block 0 0 (omega arith) refl)
        (λ later left. (refl, left))

  get_lock_proof-some :
      (found : Data) (bytes block : List ℕ) (count : ℕ)
      → length bytes ≡ suc count
      → length bytes < 256
      → deserialize_lock_proof viem addresses bytes ≡ ok found
      → Reads
          (some found)
          block
          (get_lock_proof viem addresses (from_buffer ((length bytes % 256) ∷ (bytes ++ block))))
  unfolding get_lock_proof
  get_lock_proof-some found bytes block count long short read =
      let byte : length bytes % 256 ≡ suc count = omega (arith, long, short) in
      let low : suc count % 256 ≡ suc count = omega (arith, long, short) in
      rw byte (
        Reads-and_then (suc count) (some found) (bytes ++ block) block (get_proof_of viem addresses)
          (read_uint8 (from_buffer (suc count ∷ (bytes ++ block))))
          (read_number-Reads (from_buffer (suc count ∷ (bytes ++ block))) (bytes ++ block) 0
            (suc count) (omega (arith, long, short)) (rw low refl))
          (λ later left.
            Reads-and_then bytes (some found) block block
              (λ (proof, rest).
                deserialize_lock_proof viem addresses proof
                >>= (λ lock_proof. ok (some lock_proof, rest)))
              (read_bytes (suc count) later)
              (read_bytes-Reads later bytes block left (suc count) (sym long))
              (λ rest end. rw read (refl, end))))

  module _ (blocks : BlockFactory) (validate : Data → Bool)
      (validate_lock_proof : Data → Bool) where
    -- The payload once its lock proof is read.
    made :
        (bytes block_bytes : List ℕ) (block : Data) (found : Option Data)
        → Reads found block_bytes (get_lock_proof viem addresses (from_buffer bytes))
        → blocks.from_bytes block_bytes ≡ ok block
        → verify_lock_proof viem addresses blocks validate validate_lock_proof found block ≡ ok tt
        → make_payload_from_bytes viem addresses blocks validate validate_lock_proof bytes
          ≡ ok (record { block = block; lock_proof = found; serialized = bytes })
    unfolding make_payload_from_bytes
    made bytes block_bytes block found reads parses accepted =
        let (rest, read, left) =
          Reads-ok found block_bytes (get_lock_proof viem addresses (from_buffer bytes)) reads in
        rw (read, left, parses, accepted) refl

    -- A payload that is serialized from a block's bytes, with a lock proof that fits or with none, is read back
    -- as that block and that proof. The block factory reads the block's bytes, and the JSON schema accepts the
    -- proof for the block.
    pub make_payload_from_bytes-serialize_payload :
        (block_bytes : List ℕ) (lock_proof : Option AggregatedSignature) (block : Data)
        → FitsPayload lock_proof
        → blocks.from_bytes block_bytes ≡ ok block
        → ((found : Data)
            → SameProof lock_proof (some found)
            → validate_lock_proof (assign number_property (block number_property) found) ≡ true)
        → (bytes : List ℕ) × (found : Option Data) × (serialize_payload viem addresses block_bytes
              lock_proof
            ≡ ok bytes)
          × (make_payload_from_bytes viem addresses blocks validate validate_lock_proof bytes
              ≡ ok (record { block = block; lock_proof = found; serialized = bytes }))
          × SameProof lock_proof found
    unfolding serialize_payload
    make_payload_from_bytes-serialize_payload block_bytes none block fits parses accepts = (
      0 ∷ block_bytes,
      none,
      refl,
      made (0 ∷ block_bytes) block_bytes block none (get_lock_proof-none block_bytes) parses refl,
      tt,
    )
    make_payload_from_bytes-serialize_payload block_bytes (some lock_proof) block fits parses
          accepts =
        let (proof, encoded) = lock_proof-Encodes viem addresses lock_proof fits in
        let (written, size) = serialized_lock_proof viem addresses laws lock_proof proof encoded in
        let (found, read, agrees) = read_lock_proof lock_proof proof [] encoded in
        let bytes : List ℕ = (length proof % 256) ∷ (proof ++ block_bytes) in
        let valid : validate_lock_proof (assign number_property (block number_property) found)
            ≡ true =
          accepts found agrees in
        (
          bytes,
          some found,
          rw written refl,
          made bytes block_bytes block (some found)
              (get_lock_proof-some found proof block_bytes 104 size (omega (arith, size)) (
                subst (λ whole. deserialize_lock_proof viem addresses whole ≡ ok found)
                  (append-nil proof) read))
              parses (rw valid refl),
          agrees,
        )
