-- ===== src/Serializer/Encoding.antt =====
-- The bytes that stand for a value, a property and an object: what the serializer promises, with no buffer.
use mainsail.Prelude.{
  ℕ, ◌^◌, ◌≤◌, ◌<◌, ◌≡◌, ◌++◌, subst, append_assoc, Bool, true, false, Option, List, [], ◌∷◌,
  length, All,
}
use mainsail.ByteBuffer.{Viem, to_little_endian}
use mainsail.ByteBuffer.Reading.{Byte}
use mainsail.ValidatorSet.{validator_set_pack}
use mainsail.Serializer.{
  Value, undefined, number, bigint, string, flags, transactions, Data, FieldType, uint8_field,
  uint16_field, uint32_field, uint48_field, uint64_field, uint256_field, bigint_field, hash_field,
  block_hash_field, address_field, public_key_field, consensus_signature_field, validator_set_field,
  hex_field, transactions_field, Schema, is_optional, hash_size, size_or_hash_size, AddressFactory,
}

abbrev pub encode_sized : List ℕ → List ℕ
encode_sized serialized = to_little_endian 4 (length serialized) ++ serialized

abbrev pub encode_transactions : List (List ℕ) → List ℕ
encode_transactions [] = []
encode_transactions (serialized ∷ rest) = encode_sized serialized ++ encode_transactions rest

abbrev pub encode_validator_set : List Bool → List ℕ
encode_validator_set set =
    to_little_endian 1 (length set) ++ to_little_endian 8 (validator_set_pack set)

-- What the code relies on: a number below 2 to the 256 has 32 bytes at most, padding makes them 32, and
-- trimming and padding undo each other.
pub record ViemLaws (viem : Viem) : Type 0 where
  pub length-to_bytes : (value : ℕ) → value < 2 ^ 256 → length (viem.to_bytes value) ≤ 32
  pub length-pad_bytes :
      (value : ℕ) → value < 2 ^ 256 → length (viem.pad_bytes (viem.to_bytes value)) ≡ 32
  pub number_back :
      (value : ℕ)
      → value < 2 ^ 256
      → viem.bytes_to_big_int (viem.trim (viem.pad_bytes (viem.to_bytes value))) ≡ value
  pub number-lt :
      (bytes : List ℕ)
      → All Byte bytes
      → length bytes ≡ 32
      → viem.bytes_to_big_int (viem.trim bytes) < 2 ^ 256
  pub bytes_back :
      (bytes : List ℕ)
      → All Byte bytes
      → length bytes ≡ 32
      → viem.pad_bytes (viem.to_bytes (viem.bytes_to_big_int (viem.trim bytes))) ≡ bytes

-- The 20 bytes of an address give the address and come back from it.
pub record AddressLaws (addresses : AddressFactory) : Type 0 where
  pub buffer_back :
      (bytes : List ℕ)
      → length bytes ≡ 20
      → addresses.to_buffer (addresses.from_buffer bytes) ≡ bytes

module _ (viem : Viem) (addresses : AddressFactory) where
  pub data Encodes (size : Option ℕ) : FieldType → Value → List ℕ → Type 0 where
    encodes_uint8 :
        (value : ℕ)
        → value < 2 ^ 8
        → Encodes size uint8_field (number value) (to_little_endian 1 value)
    encodes_uint16 :
        (value : ℕ)
        → value < 2 ^ 16
        → Encodes size uint16_field (number value) (to_little_endian 2 value)
    encodes_uint32 :
        (value : ℕ)
        → value < 2 ^ 32
        → Encodes size uint32_field (number value) (to_little_endian 4 value)
    encodes_uint48 :
        (value : ℕ)
        → value < 2 ^ 48
        → Encodes size uint48_field (number value) (to_little_endian 6 value)
    encodes_uint64 :
        (value : ℕ)
        → value < 2 ^ 64
        → Encodes size uint64_field (bigint value) (to_little_endian 8 value)
    encodes_uint256 :
        (value : ℕ)
        → value < 2 ^ 256
        → Encodes size uint256_field (bigint value) (viem.pad_bytes (viem.to_bytes value))
    encodes_bigint :
        (value : ℕ)
        → value < 2 ^ 64
        → Encodes size bigint_field (bigint value) (to_little_endian 8 value)
    encodes_hash :
        (value : List ℕ)
        → length value ≡ size_or_hash_size size
        → Encodes size hash_field (string value) value
    encodes_block_hash :
        (value : List ℕ)
        → length value ≡ hash_size
        → Encodes size block_hash_field (string value) value
    encodes_address :
        (value : List ℕ)
        → length (addresses.to_buffer value) ≡ 20
        → addresses.from_buffer (addresses.to_buffer value) ≡ value
        → Encodes size address_field (string value) (addresses.to_buffer value)
    encodes_public_key :
        (value : List ℕ) → length value ≡ 33 → Encodes size public_key_field (string value) value
    encodes_consensus_signature :
        (value : List ℕ)
        → length value ≡ 96
        → Encodes size consensus_signature_field (string value) value
    encodes_validator_set :
        (value : List Bool)
        → length value < 2 ^ 8
        → validator_set_pack value < 2 ^ 64
        → Encodes size validator_set_field (flags value) (encode_validator_set value)
    encodes_hex :
        (value : List ℕ)
        → length value < 2 ^ 32
        → Encodes size hex_field (string value) (encode_sized value)
    encodes_transactions :
        (value : List (List ℕ))
        → All (λ serialized. length serialized < 2 ^ 32) value
        → Encodes size transactions_field (transactions value) (encode_transactions value)

  -- An optional property has a flag in front, and nothing else if it is undefined.
  pub data FieldEncodes (schema : Schema) : Value → List ℕ → Type 0 where
    absent : is_optional schema ≡ true → FieldEncodes schema undefined (0 ∷ [])
    present :
        {value : Value} (bytes : List ℕ)
        → is_optional schema ≡ true
        → Encodes schema.size schema.type value bytes
        → FieldEncodes schema value (1 ∷ bytes)
    bare :
        {value : Value} (bytes : List ℕ)
        → is_optional schema ≡ false
        → Encodes schema.size schema.type value bytes
        → FieldEncodes schema value bytes

  pub data ObjectEncodes (object : Data) : List Schema → List ℕ → Type 0 where
    none_left : ObjectEncodes object [] []
    one_more :
        (schema : Schema) (schemas : List Schema) (xs ys : List ℕ)
        → FieldEncodes schema (object schema.property) xs
        → ObjectEncodes object schemas ys
        → ObjectEncodes object (schema ∷ schemas) (xs ++ ys)

  -- Encodings of the properties, put together in the order of the schema.
  abbrev pub add :
      (object : Data) (schema : Schema) (schemas : List Schema)
      → (xs : List ℕ) × FieldEncodes schema (object schema.property) xs
      → (ys : List ℕ) × ObjectEncodes object schemas ys
      → (bytes : List ℕ) × ObjectEncodes object (schema ∷ schemas) bytes
  add object schema schemas (xs, h) (ys, others) =
      (xs ++ ys, one_more schema schemas xs ys h others)

  abbrev pub nothing : (object : Data) → (bytes : List ℕ) × ObjectEncodes object [] bytes
  nothing object = ([], none_left)

  -- Objects with the same properties have the same encodings.
  pub Agrees-encoding :
      (object other : Data) (schemas : List Schema) (bytes : List ℕ)
      → All (λ schema. object schema.property ≡ other schema.property) schemas
      → ObjectEncodes object schemas bytes
      → ObjectEncodes other schemas bytes
  Agrees-encoding object other _ _ same none_left = none_left
  Agrees-encoding object other _ _ same (one_more schema schemas xs ys h others) =
      one_more schema schemas xs ys (subst (λ value. FieldEncodes schema value xs) same.0 h)
        (Agrees-encoding object other schemas ys same.1 others)

  pub append-encoding :
      (object : Data) (schemas others : List Schema) (xs ys : List ℕ)
      → ObjectEncodes object schemas xs
      → ObjectEncodes object others ys
      → ObjectEncodes object (schemas ++ others) (xs ++ ys)
  append-encoding object _ others _ ys none_left k = k
  append-encoding object _ others _ ys (one_more schema schemas xs zs h rest) k =
      rw (append_assoc xs zs ys) (
        one_more schema (schemas ++ others) xs (zs ++ ys) h
          (append-encoding object schemas others zs ys rest k))
