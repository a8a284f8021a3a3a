-- ===== src/Codecs/Proposals/RoundTrip.antt =====
-- Proposals are read back from their bytes.
use mainsail.Prelude.{ℕ, ◌+◌, ◌≡◌, ◌∙◌, List, ◌++◌, length, arith, append-nil, subst}
use mainsail.Prelude.Outcome.{ok, trailing_bytes}
use mainsail.ByteBuffer.{Viem}
use mainsail.Serializer.{Data, AddressFactory}
use mainsail.Serializer.Encoding.{ViemLaws, ObjectEncodes}
use mainsail.Serializer.Sizes.{length-object}
use mainsail.Serializer.Writing.{serialize-fits}
use mainsail.Serializer.RoundTrip.{Agrees}
use mainsail.Codecs.{signature_size}
use mainsail.Codecs.Whole.{whole-encoding}
use mainsail.Codecs.Proposals.{
  schema_unsigned, schema, lock_proof_schema, lock_proof_size, ProposalData, AggregatedSignature,
  unsigned_object, proposal_object, lock_proof_object, unsigned_proposal_size,
  serialize_proposal_unsigned, serialize_proposal, serialize_lock_proof, deserialize_proposal,
}
use mainsail.Codecs.Proposals.Encoding.{
  FitsProposal, unsigned-Encodes, proposal-Encodes, unsigned_size, proposal_size,
}

module _ (viem : Viem) (addresses : AddressFactory) (laws : ViemLaws viem) where
  serialized_unsigned :
      (proposal : ProposalData) (bytes : List ℕ)
      → ObjectEncodes viem addresses (unsigned_object proposal) schema_unsigned bytes
      → serialize_proposal_unsigned viem addresses proposal ≡ ok bytes
  unfolding serialize_proposal_unsigned
  serialized_unsigned proposal bytes encoded =
      let size : length bytes ≡ unsigned_proposal_size proposal =
        length-object viem addresses laws (unsigned_object proposal) schema_unsigned bytes encoded
        ∙ unsigned_size proposal in
      serialize-fits viem addresses laws (unsigned_proposal_size proposal) schema_unsigned
        (unsigned_object proposal) bytes (omega (arith, size)) encoded

  serialized_proposal :
      (proposal : ProposalData) (signature bytes : List ℕ)
      → ObjectEncodes viem addresses (proposal_object proposal signature) schema bytes
      → serialize_proposal viem addresses proposal signature ≡ ok bytes
  unfolding serialize_proposal
  serialized_proposal proposal signature bytes encoded =
      let size : length bytes ≡ unsigned_proposal_size proposal + signature_size =
        length-object viem addresses laws (proposal_object proposal signature) schema bytes encoded
        ∙ proposal_size proposal signature in
      serialize-fits viem addresses laws (unsigned_proposal_size proposal + signature_size) schema
        (proposal_object proposal signature) bytes (omega (arith, size)) encoded

  -- A proposal whose fields fit is serialized into the bytes that are signed, followed by the signature; these
  -- are deserialized into a proposal with the same fields and that signature.
  pub deserialize_proposal-serialize_proposal :
      (proposal : ProposalData) (signature : List ℕ)
      → FitsProposal proposal
      → length signature ≡ 96
      → (bytes : List ℕ) × (found : Data) × (serialize_proposal_unsigned viem addresses proposal
          ≡ ok bytes)
        × (serialize_proposal viem addresses proposal signature ≡ ok (bytes ++ signature))
        × (deserialize_proposal viem addresses (bytes ++ signature) ≡ ok found)
        × Agrees schema (proposal_object proposal signature) found
  unfolding deserialize_proposal
  deserialize_proposal-serialize_proposal proposal signature fits long =
      let object : Data = proposal_object proposal signature in
      let (bytes, encoded) = unsigned-Encodes viem addresses proposal fits in
      let whole_encoded : ObjectEncodes viem addresses object schema (bytes ++ signature) =
        subst (λ end. ObjectEncodes viem addresses object schema (bytes ++ end))
          (append-nil signature)
          (proposal-Encodes viem addresses proposal signature bytes long encoded) in
      let (found, read, agrees) =
        whole-encoding schema object viem addresses laws trailing_bytes (bytes ++ signature)
          (tt, (tt, (tt, (tt, (tt, tt))))) whole_encoded in
      (
        bytes,
        found,
        serialized_unsigned proposal bytes encoded,
        serialized_proposal proposal signature (bytes ++ signature) whole_encoded,
        read,
        agrees,
      )

  pub serialized_lock_proof :
      (lock_proof : AggregatedSignature) (bytes : List ℕ)
      → ObjectEncodes viem addresses (lock_proof_object lock_proof) lock_proof_schema bytes
      → (serialize_lock_proof viem addresses lock_proof ≡ ok bytes)
        × (length bytes ≡ lock_proof_size)
  unfolding serialize_lock_proof
  serialized_lock_proof lock_proof bytes encoded =
      let size : length bytes ≡ lock_proof_size =
        length-object viem addresses laws (lock_proof_object lock_proof) lock_proof_schema bytes
          encoded in
      (
        serialize-fits viem addresses laws lock_proof_size lock_proof_schema
            (lock_proof_object lock_proof) bytes (omega (arith, size)) encoded,
        size,
      )
