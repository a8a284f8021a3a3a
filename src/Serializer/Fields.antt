-- ===== src/Serializer/Fields.antt =====
-- What a read of one property takes off the buffer is the encoding of what it gives.
use mainsail.Prelude.{
  ℕ, zero, suc, ◌<◌, ◌^◌, ◌≡◌, sym, ap, ◌∙◌, subst, ◌++◌, true, inl, inr, Bool-cases, Option, List,
  length, All, arith, append-nil,
}
use mainsail.Prelude.Outcome.{ok}
use mainsail.ByteBuffer.{
  ByteBuffer, Viem, to_little_endian, get_remainder, read_uint8, read_bytes, read_number,
  read_uint256,
}
use mainsail.ByteBuffer.Reading.{Byte, Took, read_bytes-Took, read_number-Took}
use mainsail.Serializer.{
  transactions_count, Value, undefined, number, bigint, string, flags, transactions, Data,
  FieldType, uint8_field, uint16_field, uint32_field, uint48_field, uint64_field, uint256_field,
  bigint_field, hash_field, block_hash_field, address_field, public_key_field,
  consensus_signature_field, validator_set_field, hex_field, transactions_field, Schema,
  is_optional, hash_size, size_or_hash_size, AddressFactory, read_sized, read_transactions,
  read_validator_set, read_present, read_optional, as_value, read_counted, read_value, read_field,
}
use mainsail.Serializer.Taking.{
  Took-and_then, Took-imp, Took-as_value, Took-nil, IsSized, read_sized-Took, AreTransactions,
  read_transactions-Took, IsValidatorSet, read_validator_set-Took,
}
use mainsail.Serializer.Encoding.{
  ViemLaws, AddressLaws, Encodes, encodes_uint8, encodes_uint16, encodes_uint32, encodes_uint48,
  encodes_uint64, encodes_uint256, encodes_bigint, encodes_hash, encodes_block_hash,
  encodes_address, encodes_public_key, encodes_consensus_signature, encodes_validator_set,
  encodes_hex, encodes_transactions, FieldEncodes, absent, present, bare,
}

module _ (viem : Viem) (addresses : AddressFactory) (laws : ViemLaws viem)
    (known : AddressLaws addresses) where
  read_uint256-Took :
      (b : ByteBuffer)
      → All Byte (get_remainder b)
      → Took
          (λ value xs. (xs ≡ viem.pad_bytes (viem.to_bytes value)) × (value < 2 ^ 256))
          b
          (read_uint256 viem b)
  unfolding read_uint256
  read_uint256-Took b plain =
      Took-and_then (λ value xs. (xs ≡ viem.pad_bytes (viem.to_bytes value)) × (value < 2 ^ 256))
        (λ value xs. (xs ≡ value) × (length value ≡ 32) × All Byte value)
        (λ (bytes, rest). ok (viem.bytes_to_big_int (viem.trim bytes), rest)) b (read_bytes 32 b)
        (read_bytes-Took b 32 plain)
        (λ bytes xs later means left.
          let value : ℕ = viem.bytes_to_big_int (viem.trim bytes) in
          Took-nil
            (λ value' ys. (xs ++ ys ≡ viem.pad_bytes (viem.to_bytes value')) × (value' < 2 ^ 256))
            value later
            (
              rw append-nil (means.0 ∙ sym (laws.bytes_back bytes means.2 means.1)),
              laws.number-lt bytes means.2 means.1,
            )
            left)

  number-Encodes :
      (size : Option ℕ) (type : FieldType) (width : ℕ) (wrap : ℕ → Value) (b : ByteBuffer)
      → All Byte (get_remainder b)
      → ((value : ℕ)
          → value < 256 ^ width
          → Encodes viem addresses size type (wrap value) (to_little_endian width value))
      → Took (Encodes viem addresses size type) b (as_value wrap (read_number width b))
  number-Encodes size type width wrap b plain f =
      Took-as_value (Encodes viem addresses size type)
        (λ value xs. (xs ≡ to_little_endian width value) × (value < 256 ^ width)) wrap b
        (read_number width b)
        (λ value xs h.
          subst (Encodes viem addresses size type (wrap value)) (sym h.0) (f value h.1))
        (read_number-Took b width plain)

  bytes-Encodes :
      (size : Option ℕ) (type : FieldType) (count : ℕ) (b : ByteBuffer)
      → All Byte (get_remainder b)
      → ((value : List ℕ)
          → length value ≡ count
          → Encodes viem addresses size type (string value) value)
      → Took (Encodes viem addresses size type) b (as_value string (read_bytes count b))
  bytes-Encodes size type count b plain f =
      Took-as_value (Encodes viem addresses size type)
        (λ value xs. (xs ≡ value) × (length value ≡ count) × All Byte value) string b
        (read_bytes count b)
        (λ value xs h.
          subst (Encodes viem addresses size type (string value)) (sym h.0) (f value h.1))
        (read_bytes-Took b count plain)

  counted-Encodes :
      (size : Option ℕ) (count : Value) (b : ByteBuffer)
      → All Byte (get_remainder b)
      → Took (Encodes viem addresses size transactions_field) b (read_counted count b)
  unfolding read_counted
  counted-Encodes size (number count) b plain =
      Took-as_value (Encodes viem addresses size transactions_field) AreTransactions transactions b
        (read_transactions count b)
        (λ value xs h.
          subst (Encodes viem addresses size transactions_field (transactions value)) (sym h.0)
            (encodes_transactions value h.1))
        (read_transactions-Took count b plain)
  counted-Encodes size _ b plain = tt

  read_value-Took :
      (type : FieldType) (size : Option ℕ) (target : Data) (b : ByteBuffer)
      → All Byte (get_remainder b)
      → Took (Encodes viem addresses size type) b (read_value viem addresses type size target b)
  unfolding read_value
  read_value-Took uint8_field size target b plain =
      number-Encodes size uint8_field 1 number b plain
        (λ value h. encodes_uint8 value (omega (arith, h)))
  read_value-Took uint16_field size target b plain =
      number-Encodes size uint16_field 2 number b plain
        (λ value h. encodes_uint16 value (omega (arith, h)))
  read_value-Took uint32_field size target b plain =
      number-Encodes size uint32_field 4 number b plain
        (λ value h. encodes_uint32 value (omega (arith, h)))
  read_value-Took uint48_field size target b plain =
      number-Encodes size uint48_field 6 number b plain
        (λ value h. encodes_uint48 value (omega (arith, h)))
  read_value-Took uint64_field size target b plain =
      number-Encodes size uint64_field 8 bigint b plain
        (λ value h. encodes_uint64 value (omega (arith, h)))
  read_value-Took uint256_field size target b plain =
      Took-as_value (Encodes viem addresses size uint256_field)
        (λ value xs. (xs ≡ viem.pad_bytes (viem.to_bytes value)) × (value < 2 ^ 256)) bigint b
        (read_uint256 viem b)
        (λ value xs h.
          subst (Encodes viem addresses size uint256_field (bigint value)) (sym h.0)
            (encodes_uint256 value h.1))
        (read_uint256-Took b plain)
  read_value-Took bigint_field size target b plain =
      number-Encodes size bigint_field 8 bigint b plain
        (λ value h. encodes_bigint value (omega (arith, h)))
  read_value-Took hash_field size target b plain =
      bytes-Encodes size hash_field (size_or_hash_size size) b plain
        (λ value h. encodes_hash value h)
  read_value-Took block_hash_field size target b plain =
      bytes-Encodes size block_hash_field hash_size b plain (λ value h. encodes_block_hash value h)
  read_value-Took address_field size target b plain =
      Took-as_value (Encodes viem addresses size address_field)
        (λ value xs. (xs ≡ value) × (length value ≡ 20) × All Byte value)
        (λ found. string (addresses.from_buffer found)) b (read_bytes 20 b)
        (λ value xs h.
          let back : addresses.to_buffer (addresses.from_buffer value) ≡ value =
            known.buffer_back value h.1 in
          subst (Encodes viem addresses size address_field (string (addresses.from_buffer value)))
            (back ∙ sym h.0)
            (encodes_address (addresses.from_buffer value) (ap length back ∙ h.1)
              (ap addresses.from_buffer back)))
        (read_bytes-Took b 20 plain)
  read_value-Took public_key_field size target b plain =
      bytes-Encodes size public_key_field 33 b plain (λ value h. encodes_public_key value h)
  read_value-Took consensus_signature_field size target b plain =
      bytes-Encodes size consensus_signature_field 96 b plain
        (λ value h. encodes_consensus_signature value h)
  read_value-Took validator_set_field size target b plain =
      Took-as_value (Encodes viem addresses size validator_set_field) IsValidatorSet flags b
        (read_validator_set b)
        (λ value xs h.
          subst (Encodes viem addresses size validator_set_field (flags value)) (sym h.0)
            (encodes_validator_set value h.1 h.2))
        (read_validator_set-Took b plain)
  read_value-Took hex_field size target b plain =
      Took-as_value (Encodes viem addresses size hex_field) IsSized string b (read_sized b)
        (λ value xs h.
          subst (Encodes viem addresses size hex_field (string value)) (sym h.0)
            (encodes_hex value h.1))
        (read_sized-Took b plain)
  read_value-Took transactions_field size target b plain =
      counted-Encodes size (target transactions_count) b plain

  present_field :
      (schema : Schema) (target : Data)
      → is_optional schema ≡ true
      → (flag : ℕ) (xs : List ℕ) (later : ByteBuffer) → xs ≡ to_little_endian 1 flag
      → All Byte (get_remainder later)
      → Took
          (λ value ys. FieldEncodes viem addresses schema value (xs ++ ys))
          later
          (read_present (read_value viem addresses schema.type schema.size target) (flag, later))
  present_field schema target optional zero xs later e plain =
      Took-nil (λ value ys. FieldEncodes viem addresses schema value (xs ++ ys)) undefined later
        (rw (append-nil, e) (absent optional)) plain
  present_field schema target optional (suc zero) xs later e plain =
      Took-imp (λ value ys. FieldEncodes viem addresses schema value (xs ++ ys))
        (Encodes viem addresses schema.size schema.type) later
        (read_value viem addresses schema.type schema.size target later)
        (λ value ys h. rw e (present ys optional h))
        (read_value-Took schema.type schema.size target later plain)
  present_field schema target optional (suc (suc flag)) xs later e plain = tt

  pub read_field-Took :
      (schema : Schema) (target : Data) (b : ByteBuffer)
      → All Byte (get_remainder b)
      → Took (FieldEncodes viem addresses schema) b (read_field viem addresses schema target b)
  unfolding read_field read_optional
  read_field-Took schema target b plain = elim (Bool-cases (is_optional schema)) [
    | inr mandatory ↦ rw mandatory (
        Took-imp (FieldEncodes viem addresses schema)
          (Encodes viem addresses schema.size schema.type) b
          (read_value viem addresses schema.type schema.size target b)
          (λ value xs h. bare xs mandatory h)
          (read_value-Took schema.type schema.size target b plain))
    | inl optional ↦ rw optional (
        Took-and_then (FieldEncodes viem addresses schema)
          (λ flag xs. (xs ≡ to_little_endian 1 flag) × (flag < 256 ^ 1))
          (read_present (read_value viem addresses schema.type schema.size target)) b (read_uint8 b)
          (read_number-Took b 1 plain)
          (λ flag xs later means left.
            present_field schema target optional flag xs later means.0 left))
  ]
