-- ===== src/Serializer/Sizes.antt =====
-- How many bytes an encoding has.
use mainsail.Prelude.{
  ℕ, ◌+◌, ◌≡◌, refl, subst, Bool, true, false, Option, List, [], ◌∷◌, length, arith, length-append,
}
use mainsail.ByteBuffer.{Viem}
use mainsail.Serializer.{
  Value, undefined, number, bigint, string, flags, transactions, Data, FieldType, uint8_field,
  uint16_field, uint32_field, uint48_field, uint64_field, uint256_field, bigint_field, hash_field,
  block_hash_field, address_field, public_key_field, consensus_signature_field, validator_set_field,
  hex_field, transactions_field, Schema, is_optional, hash_size, size_or_hash_size, AddressFactory,
}
use mainsail.Serializer.Writing.{Encodes-defined}
use mainsail.Serializer.Encoding.{
  encode_transactions, ViemLaws, Encodes, encodes_uint8, encodes_uint16, encodes_uint32,
  encodes_uint48, encodes_uint64, encodes_uint256, encodes_bigint, encodes_hash, encodes_block_hash,
  encodes_address, encodes_public_key, encodes_consensus_signature, encodes_validator_set,
  encodes_hex, encodes_transactions, FieldEncodes, absent, present, bare, ObjectEncodes, none_left,
  one_more,
}

abbrev sized_size : List ℕ → ℕ
sized_size value = 4 + length value

abbrev pub transactions_size : List (List ℕ) → ℕ
transactions_size [] = 0
transactions_size (serialized ∷ rest) = 4 + length serialized + transactions_size rest

abbrev value_size : Option ℕ → FieldType → Value → ℕ
value_size size uint8_field value = 1
value_size size uint16_field value = 2
value_size size uint32_field value = 4
value_size size uint48_field value = 6
value_size size uint64_field value = 8
value_size size uint256_field value = 32
value_size size bigint_field value = 8
value_size size hash_field value = size_or_hash_size size
value_size size block_hash_field value = hash_size
value_size size address_field value = 20
value_size size public_key_field value = 33
value_size size consensus_signature_field value = 96
value_size size validator_set_field value = 9
value_size size hex_field (string value) = 4 + length value
value_size size hex_field _ = 0
value_size size transactions_field (transactions value) = transactions_size value
value_size size transactions_field _ = 0

abbrev pub optional_size : Bool → Value → ℕ → ℕ
optional_size false value size = size
optional_size true undefined size = 1
optional_size true value size = 1 + size

abbrev pub object_size : List Schema → Data → ℕ
object_size [] object = 0
object_size (schema ∷ schemas) object =
    optional_size (is_optional schema) (object schema.property)
      (value_size schema.size schema.type (object schema.property))
    + object_size schemas object

pub length-encode_transactions :
    (value : List (List ℕ)) → length (encode_transactions value) ≡ transactions_size value
length-encode_transactions [] = refl
length-encode_transactions (serialized ∷ rest) =
    omega
      (arith, length-append serialized (encode_transactions rest), length-encode_transactions rest)

module _ (viem : Viem) (addresses : AddressFactory) (laws : ViemLaws viem) where
  length-value :
      (size : Option ℕ) (type : FieldType) (value : Value) (bytes : List ℕ)
      → Encodes viem addresses size type value bytes
      → length bytes ≡ value_size size type value
  length-value size _ _ _ (encodes_uint8 value h) = refl
  length-value size _ _ _ (encodes_uint16 value h) = refl
  length-value size _ _ _ (encodes_uint32 value h) = refl
  length-value size _ _ _ (encodes_uint48 value h) = refl
  length-value size _ _ _ (encodes_uint64 value h) = refl
  length-value size _ _ _ (encodes_uint256 value h) = laws.length-pad_bytes value h
  length-value size _ _ _ (encodes_bigint value h) = refl
  length-value size _ _ _ (encodes_hash value h) = h
  length-value size _ _ _ (encodes_block_hash value h) = h
  length-value size _ _ _ (encodes_address value h back) = h
  length-value size _ _ _ (encodes_public_key value h) = h
  length-value size _ _ _ (encodes_consensus_signature value h) = h
  length-value size _ _ _ (encodes_validator_set value few small) = refl
  length-value size _ _ _ (encodes_hex value h) = omega arith
  length-value size _ _ _ (encodes_transactions value h) = length-encode_transactions value

  optional_size-present :
      (size : ℕ) (value : Value) → ¬ (value ≡ undefined) → optional_size true value size ≡ 1 + size
  optional_size-present size undefined defined = absurd (defined refl)
  optional_size-present size (number n) defined = refl
  optional_size-present size (bigint n) defined = refl
  optional_size-present size (string s) defined = refl
  optional_size-present size (flags s) defined = refl
  optional_size-present size (transactions s) defined = refl

  length-field :
      (schema : Schema) (value : Value) (bytes : List ℕ)
      → FieldEncodes viem addresses schema value bytes
      → length bytes
        ≡ optional_size (is_optional schema) value (value_size schema.size schema.type value)
  length-field schema _ _ (absent optional) = rw optional refl
  length-field schema value _ (present bytes optional h) =
      let defined : ¬ (value ≡ undefined) = λ e.
        Encodes-defined viem addresses laws schema.size schema.type bytes
          (subst (λ held. Encodes viem addresses schema.size schema.type held bytes) e h) in
      rw optional (
        omega (
          arith,
          length-value schema.size schema.type value bytes h,
          optional_size-present (value_size schema.size schema.type value) value defined,
        ))
  length-field schema value bytes (bare _ optional h) =
      rw optional (length-value schema.size schema.type value bytes h)

  -- The length of an encoding, from the schema and the object.
  pub length-object :
      (object : Data) (schemas : List Schema) (bytes : List ℕ)
      → ObjectEncodes viem addresses object schemas bytes
      → length bytes ≡ object_size schemas object
  length-object object _ _ none_left = refl
  length-object object _ _ (one_more schema schemas xs ys h others) = omega (
    arith,
    length-append xs ys,
    length-field schema (object schema.property) xs h,
    length-object object schemas ys others,
  )
