-- ===== src/Codecs/Blocks/RoundTrip.antt =====
-- Blocks are read back from their bytes, and their hash is that of the bytes of the header.
use mainsail.Prelude.{
  ℕ, ◌≡◌, ◌==◌, ==-refl, refl, sym, ap, ◌∙◌, true, false, List, [], ◌∷◌, ◌++◌, length, arith,
  append-nil, subst, length-drop, length-append,
}
use mainsail.Prelude.Outcome.{Result, ok, ok-inj}
use mainsail.ByteBuffer.{ByteBuffer, Viem, from_buffer, get_remainder, get_remainder_length}
use mainsail.Serializer.{
  transactions_count, number, string, Data, assign, transactions_field, Schema, AddressFactory,
}
use mainsail.Serializer.Encoding.{
  encode_transactions, ViemLaws, encodes_transactions, bare, ObjectEncodes, none_left, one_more,
  Agrees-encoding,
}
use mainsail.Serializer.Sizes.{transactions_size, length-encode_transactions, length-object}
use mainsail.Serializer.Writing.{serialize-fits}
use mainsail.Serializer.RoundTrip.{Agrees, deserialize-Agrees}
use mainsail.Codecs.{field, payload_size_property, hash_property, transactions_property, empty}
use mainsail.Codecs.Whole.{nothing_left}
use mainsail.Codecs.Blocks.{
  block_header_schema, transactions_schema, block_schema, header_size, BlockHeader, header_object,
  block_object, total_size, is_number, read_all, serialize_header, serialize_with_transactions,
  deserialize_buffer_header, make_hash, with_hash, deserialize_header, deserialize_transactions,
  deserialize_if_any, deserialize_with_transactions,
}
use mainsail.Codecs.Blocks.Encoding.{FitsHeader, FitsTransactions, header-Encodes, block-Encodes}

remainder_length :
    (b : ByteBuffer) (left : List ℕ) → get_remainder b ≡ left → get_remainder_length b ≡ length left
remainder_length b left h = omega (arith, length-drop b.offset b.buffer, ap length h)

opposite :
    (schemas : List Schema) (object other : Data)
    → Agrees schemas object other
    → Agrees schemas other object
opposite [] object other h = tt
opposite (schema ∷ schemas) object other h = (sym h.0, opposite schemas object other h.1)

itself : (schemas : List Schema) (object : Data) → Agrees schemas object object
itself [] object = tt
itself (schema ∷ schemas) object = (refl, itself schemas object)

module _ (viem : Viem) (addresses : AddressFactory) (laws : ViemLaws viem)
    (header : BlockHeader) where
  header_length :
      (bytes : List ℕ)
      → ObjectEncodes viem addresses (header_object header) block_header_schema bytes
      → length bytes ≡ header_size
  header_length bytes encoded =
      length-object viem addresses laws (header_object header) block_header_schema bytes encoded

  -- Every object with the properties of the header is serialized into the header's bytes.
  serialized_header :
      (found : Data) (bytes : List ℕ)
      → ObjectEncodes viem addresses (header_object header) block_header_schema bytes
      → Agrees block_header_schema (header_object header) found
      → serialize_header viem addresses found ≡ ok bytes
  unfolding serialize_header
  serialized_header found bytes encoded agrees =
      serialize-fits viem addresses laws header_size block_header_schema found bytes
        (omega (arith, header_length bytes encoded))
        (Agrees-encoding viem addresses (header_object header) found block_header_schema bytes
          (opposite block_header_schema (header_object header) found agrees) encoded)

  -- The header is read if what follows has the size that it gives.
  read_header :
      (bytes payload : List ℕ)
      → header.payload_size ≡ length payload
      → ObjectEncodes viem addresses (header_object header) block_header_schema bytes
      → (found : Data) × (later : ByteBuffer) × (deserialize_buffer_header viem addresses
            (from_buffer (bytes ++ payload))
          ≡ ok (found, later))
        × (get_remainder later ≡ payload)
        × Agrees block_header_schema (header_object header) found
  unfolding deserialize_buffer_header
  read_header bytes payload size encoded =
      let (found, later, read, left, agrees) =
        deserialize-Agrees viem addresses laws (header_object header) block_header_schema empty
          bytes payload (from_buffer (bytes ++ payload))
          (
            tt,
            (tt, (tt, (tt, (tt, (tt, (tt, (tt, (tt, (tt, (tt, (tt, (tt, (tt, (tt, tt)))))))))))))),
          )
          encoded refl in
      let held : found payload_size_property ≡ number header.payload_size =
        agrees.1.1.1.1.1.1.1.1.1.1.1.0 in
      let matches : is_number (found payload_size_property) (get_remainder_length later) ≡ true =
        rw held (
          ==-refl (get_remainder_length later) header.payload_size
            (remainder_length later payload left ∙ sym size)) in
      (found, later, rw (read, matches) refl, left, agrees)

  serialized_block :
      (serialized : List (List ℕ)) (bytes : List ℕ)
      → FitsTransactions header serialized
      → ObjectEncodes viem addresses (header_object header) block_header_schema bytes
      → (serialize_with_transactions viem addresses header serialized
          ≡ ok (bytes ++ encode_transactions serialized))
        × (length (bytes ++ encode_transactions serialized) ≡ total_size header)
  unfolding serialize_with_transactions
  serialized_block serialized bytes fits encoded =
      let whole_encoded : ObjectEncodes viem addresses (block_object header serialized) block_schema
          (bytes ++ encode_transactions serialized) =
        subst
          (λ end.
            ObjectEncodes viem addresses (block_object header serialized) block_schema
              (bytes ++ end))
          (append-nil (encode_transactions serialized))
          (block-Encodes viem addresses header serialized bytes fits encoded) in
      let size : length (bytes ++ encode_transactions serialized) ≡ total_size header = omega (
        arith,
        length-append bytes (encode_transactions serialized),
        header_length bytes encoded,
        length-encode_transactions serialized,
        fits.measured,
      ) in
      (
        serialize-fits viem addresses laws (total_size header) block_schema
            (block_object header serialized) (bytes ++ encode_transactions serialized)
            (omega (arith, size)) whole_encoded,
        size,
      )

  module _ (sha256 : List ℕ → List ℕ) (transaction_from_bytes : List ℕ → Result Data) where
    hashed :
        (found : Data) (bytes : List ℕ)
        → ObjectEncodes viem addresses (header_object header) block_header_schema bytes
        → Agrees block_header_schema (header_object header) found
        → with_hash viem addresses sha256 transaction_from_bytes found
          ≡ ok (assign hash_property (string (sha256 bytes)) found)
    unfolding with_hash make_hash
    hashed found bytes encoded agrees = rw (serialized_header found bytes encoded agrees) refl

    -- The transactions, of which there may be none.
    read_transactions_of :
        (serialized : List (List ℕ)) (read : List Data) (found : Data) (later : ByteBuffer)
        → FitsTransactions header serialized
        → read_all transaction_from_bytes serialized ≡ ok read
        → get_remainder later ≡ encode_transactions serialized
        → found transactions_count ≡ number header.transactions_count
        → (last : ByteBuffer) × (deserialize_if_any viem addresses sha256 transaction_from_bytes
              found later
            ≡ ok (read, last))
          × (get_remainder last ≡ [])
    unfolding deserialize_if_any deserialize_transactions read_all
    read_transactions_of [] read found later fits reads left count =
        let none_there : (get_remainder_length later == 0) ≡ true = nothing_left later left in
        (later, rw none_there (ap (λ given. ok (given, later)) (ok-inj reads)), left)
    read_transactions_of (first ∷ others) read found later fits reads left count =
        let serialized : List (List ℕ) = first ∷ others in
        let size : length (encode_transactions serialized) ≡ transactions_size serialized =
          length-encode_transactions serialized in
        let some_there : (get_remainder_length later == 0) ≡ false =
          ground (arith, size, remainder_length later (encode_transactions serialized) left) in
        let (block, last, parsed, end, agrees) =
          deserialize-Agrees viem addresses laws (block_object header serialized)
            transactions_schema found (encode_transactions serialized ++ []) [] later
            (count ∙ ap number fits.counted, tt)
            (one_more (field transactions_property transactions_field) []
              (encode_transactions serialized) []
              (bare (encode_transactions serialized) refl
                (encodes_transactions serialized fits.fits_each))
              none_left)
            (left
              ∙ sym (append-nil (encode_transactions serialized))
              ∙ sym (append-nil (encode_transactions serialized ++ []))) in
        (last, rw (some_there, parsed, agrees.0, reads) refl, end)

    -- A header that fits, behind which stand as many bytes as it says, is read back with the hash of its bytes.
    pub deserialize_header-serialize_header :
        (payload : List ℕ)
        → FitsHeader addresses header
        → header.payload_size ≡ length payload
        → (bytes : List ℕ) × (found : Data) × (serialize_header viem addresses
              (header_object header)
            ≡ ok bytes)
          × (length bytes ≡ header_size)
          × (deserialize_header viem addresses sha256 transaction_from_bytes (bytes ++ payload)
              ≡ ok (assign hash_property (string (sha256 bytes)) found))
          × Agrees block_header_schema (header_object header) found
    unfolding deserialize_header
    deserialize_header-serialize_header payload fits size =
        let (bytes, encoded) = header-Encodes viem addresses header fits in
        let (found, later, read, left, agrees) = read_header bytes payload size encoded in
        (
          bytes,
          found,
          serialized_header (header_object header) bytes encoded
              (itself block_header_schema (header_object header)),
          header_length bytes encoded,
          rw (read, hashed found bytes encoded agrees) refl,
          agrees,
        )

    -- A block whose header fits, and counts its transactions and their bytes, is serialized into its total size
    -- and read back: the same header with the hash of the header's bytes, and the transactions in their order.
    pub deserialize_with_transactions-serialize_with_transactions :
        (serialized : List (List ℕ)) (read : List Data)
        → FitsHeader addresses header
        → FitsTransactions header serialized
        → read_all transaction_from_bytes serialized ≡ ok read
        → (header_bytes : List ℕ) × (bytes : List ℕ) × (found : Data) × (serialize_header viem
              addresses
              (header_object header)
            ≡ ok header_bytes)
          × (serialize_with_transactions viem addresses header serialized ≡ ok bytes)
          × (length bytes ≡ total_size header)
          × (deserialize_with_transactions viem addresses sha256 transaction_from_bytes bytes
              ≡ ok (record {
                properties = assign hash_property (string (sha256 header_bytes)) found;
                transactions = read;
              }))
          × Agrees block_header_schema (header_object header) found
    unfolding deserialize_with_transactions
    deserialize_with_transactions-serialize_with_transactions serialized read fits listed reads =
        let (header_bytes, encoded) = header-Encodes viem addresses header fits in
        let payload : List ℕ = encode_transactions serialized in
        let size : header.payload_size ≡ length payload =
          listed.measured ∙ sym (length-encode_transactions serialized) in
        let (found, later, parsed, left, agrees) = read_header header_bytes payload size encoded in
        let (last, parsed_all, end) =
          read_transactions_of serialized read found later listed reads left
            agrees.1.1.1.1.1.1.1.0 in
        let whole_there : (get_remainder_length last == 0) ≡ true = nothing_left last end in
        let (written, total) = serialized_block serialized header_bytes listed encoded in
        (
          header_bytes,
          header_bytes ++ payload,
          found,
          serialized_header (header_object header) header_bytes encoded
              (itself block_header_schema (header_object header)),
          written,
          total,
          rw (parsed, parsed_all, whole_there, hashed found header_bytes encoded agrees) refl,
          agrees,
        )
