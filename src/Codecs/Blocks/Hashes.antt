-- ===== src/Codecs/Blocks/Hashes.antt =====
-- The hash of a block that comes from bytes.
use mainsail.Prelude.{
  ℕ, ◌≡◌, refl, sym, ap, ◌∙◌, Bool-cases, inl, inr, List, length, take, take-append, arith, subst,
  All,
}
use mainsail.Prelude.Outcome.{Result, ok, ok-inj, not_ok, and_then-inv}
use mainsail.ByteBuffer.{ByteBuffer, Viem, from_buffer, get_remainder, get_remainder_length}
use mainsail.ByteBuffer.Reading.{Byte}
use mainsail.Serializer.{string, Data, assign, AddressFactory, serialize, deserialize}
use mainsail.Serializer.Encoding.{ViemLaws, AddressLaws}
use mainsail.Serializer.Sizes.{length-object}
use mainsail.Serializer.Writing.{serialize-fits}
use mainsail.Serializer.Canonical.{deserialize-encodes}
use mainsail.Codecs.{payload_size_property, hash_property, empty}
use mainsail.Codecs.Blocks.{
  block_header_schema, header_size, is_number, BlockWithTransactions, check_payload_size,
  check_trailing, serialize_header, deserialize_buffer_header, make_hash, with_hash,
  deserialize_header, deserialize_if_any, deserialize_with_transactions,
}

check_payload_size-inv :
    (header found : Data) (buffer rest : ByteBuffer)
    → check_payload_size (header, buffer) ≡ ok (found, rest)
    → (header ≡ found) × (buffer ≡ rest)
check_payload_size-inv header found buffer rest h =
    elim (Bool-cases (is_number (header payload_size_property) (get_remainder_length buffer))) [
      | inl matches ↦
          let same : ◌≡◌ {A = Data × ByteBuffer} (header, buffer) (found, rest) =
            ok-inj (rw matches at h) in
          (ap (λ pair. pair.0) same, ap (λ pair. pair.1) same)
      | inr differs ↦ absurd (not_ok (rw differs at h))
    ]

module _ (viem : Viem) (addresses : AddressFactory) (laws : ViemLaws viem)
    (known : AddressLaws addresses) where
  buffer_header-inv :
      (source : List ℕ) (header : Data) (rest : ByteBuffer)
      → All Byte source
      → deserialize_buffer_header viem addresses (from_buffer source) ≡ ok (header, rest)
      → serialize_header viem addresses header ≡ ok (take header_size source)
  unfolding deserialize_buffer_header serialize_header
  buffer_header-inv source header rest plain h =
      let ((found, buffer), read, checked) =
        and_then-inv check_payload_size
          (deserialize viem addresses block_header_schema empty (from_buffer source)) h in
      let (same, _) = check_payload_size-inv found header buffer rest checked in
      let (bytes, joined, encoded) =
        deserialize-encodes viem addresses laws known block_header_schema empty found source buffer
          refl plain read in
      let size : length bytes ≡ header_size =
        length-object viem addresses laws found block_header_schema bytes encoded in
      let front : take header_size source ≡ bytes =
        ap (take header_size) joined
        ∙ take-append header_size bytes (get_remainder buffer) (sym size) in
      subst
        (λ object.
          serialize viem addresses header_size 0 block_header_schema object
          ≡ ok (take header_size source))
        same
        (serialize-fits viem addresses laws header_size block_header_schema found bytes
            (omega (arith, size)) encoded
          ∙ ap ok (sym front))

  module _ (sha256 : List ℕ → List ℕ) (transaction_from_bytes : List ℕ → Result Data) where
    with_hash-inv :
        (header found : Data) (bytes : List ℕ)
        → serialize_header viem addresses header ≡ ok bytes
        → with_hash viem addresses sha256 transaction_from_bytes header ≡ ok found
        → found hash_property ≡ string (sha256 bytes)
    unfolding with_hash make_hash
    with_hash-inv header found bytes written h =
        let same : assign hash_property (string (sha256 bytes)) header ≡ found =
          ok-inj (rw written at h) in
        sym (ap (λ object. object hash_property) same)

    -- Every block that is read from bytes, with its transactions or without, has the hash of the first
    -- `header_size` of these bytes: the hash does not depend on how the header was read.
    pub deserialize_with_transactions-hash :
        (source : List ℕ) (block : BlockWithTransactions)
        → All Byte source
        → deserialize_with_transactions viem addresses sha256 transaction_from_bytes source
          ≡ ok block
        → (block.properties hash_property ≡ string (sha256 (take header_size source)))
          × (deserialize_header viem addresses sha256 transaction_from_bytes source
              ≡ ok block.properties)
    unfolding deserialize_with_transactions deserialize_header
    deserialize_with_transactions-hash source block plain h =
        let ((header, buffer), read, h) =
          and_then-inv _ (deserialize_buffer_header viem addresses (from_buffer source)) h in
        let ((listed, rest), _, h) =
          and_then-inv _
            (deserialize_if_any viem addresses sha256 transaction_from_bytes header buffer) h in
        let (_, _, h) = and_then-inv _ (check_trailing rest) h in
        let (object, hashed, h) =
          and_then-inv _ (with_hash viem addresses sha256 transaction_from_bytes header) h in
        let same : object ≡ block.properties = ap (λ made. made.properties) (ok-inj h) in
        (
          ap (λ held. held hash_property) (sym same)
              ∙ with_hash-inv header object (take header_size source)
                  (buffer_header-inv source header buffer plain read) hashed,
          rw read (hashed ∙ ap ok same),
        )
