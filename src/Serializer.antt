-- ===== src/Serializer.antt =====
-- packages/serializer/source/serializer.ts: objects written and read by a schema, one property after another.
-- A hex string is the list of the bytes it spells, a transaction is the bytes of its `serialized`, and a
-- negative or fractional number, which every write refuses, is not a value here.
pub mod Encoding
pub mod Writing
pub mod Reading
pub mod RoundTrip
pub mod Taking
pub mod Fields
pub mod Canonical
pub mod Examples
pub mod Sizes
mod Tests
use mainsail.Prelude.{
  ℕ, zero, suc, ◌+◌, ◌==◌, ◌&&◌, ◌++◌, Bool, true, false, Option, none, some, List, [], ◌∷◌, length,
  if◌then◌else◌,
}
use mainsail.Prelude.Outcome.{
  Result, ok, err, ◌>>=◌, invalid_value, invalid_presence_flag, missing_count,
}
use mainsail.ByteBuffer.{
  ByteBuffer, Viem, Jump, forward, from_size, get_result, skip, write_uint8, write_uint16,
  write_uint32, write_uint48, write_uint64, write_uint256, write_bytes, read_uint8, read_uint16,
  read_uint32, read_uint48, read_uint64, read_uint256, read_bytes,
}
use mainsail.ValidatorSet.{validator_set_pack, validator_set_unpack}

-- A property's name is a number.
abbrev pub Property : Type 0
Property = ℕ

-- The property that `assertTransactionCount` asks for.
abbrev pub transactions_count : Property
transactions_count = 0

-- What `data[property]` can hold.
pub data Value : Type 0 where
  undefined : Value
  number bigint : ℕ → Value
  string : List ℕ → Value
  flags : List Bool → Value
  transactions : List (List ℕ) → Value

abbrev pub Data : Type 0
Data = Property → Value

-- An object literal.
abbrev pub object_of : List (Property × Value) → Data
object_of [] other = undefined
object_of ((property, value) ∷ entries) other =
    if other == property then value else object_of entries other

-- A property that may be missing.
abbrev pub optional_number : Option ℕ → Value
optional_number none = undefined
optional_number (some value) = number value

abbrev pub optional_string : Option (List ℕ) → Value
optional_string none = undefined
optional_string (some value) = string value

-- `target[property] = value`.
abbrev pub assign : Property → Value → Data → Data
assign property value target other = if other == property then value else target other

pub data FieldType : Type 0 where
  uint8_field uint16_field uint32_field uint48_field uint64_field uint256_field bigint_field :
      FieldType
  hash_field block_hash_field address_field public_key_field consensus_signature_field : FieldType
  validator_set_field hex_field transactions_field : FieldType

pub record Schema : Type 0 where
  pub property : Property
  pub type : FieldType
  pub optional : Bool
  pub size : Option ℕ

-- The types whose branch writes and reads through `#writeOptional` and `#readOptional`.
abbrev pub may_be_optional : FieldType → Bool
may_be_optional hash_field = false
may_be_optional address_field = false
may_be_optional public_key_field = false
may_be_optional consensus_signature_field = false
may_be_optional validator_set_field = false
may_be_optional hex_field = false
may_be_optional transactions_field = false
may_be_optional _ = true

abbrev pub is_optional : Schema → Bool
is_optional schema = may_be_optional schema.type && schema.optional

abbrev pub hash_size : ℕ
hash_size = 32

abbrev pub size_or_hash_size : Option ℕ → ℕ
size_or_hash_size none = hash_size
size_or_hash_size (some size) = size

-- What the address factory of the application makes of an address and of its bytes.
pub record AddressFactory : Type 0 where
  pub to_buffer : List ℕ → List ℕ
  pub from_buffer : List ℕ → List ℕ

unfoldable pub write_sized : List ℕ → ByteBuffer → Result ByteBuffer
unfolding write_uint32 write_bytes
write_sized serialized result = do
  written ← write_uint32 (length serialized) result
  write_bytes serialized written

unfoldable pub read_sized : ByteBuffer → Result (List ℕ × ByteBuffer)
unfolding read_bytes
read_sized source = do (count, rest) ← read_uint32 source; read_bytes count rest

unfoldable pub write_transactions : List (List ℕ) → ByteBuffer → Result ByteBuffer
unfolding write_sized
write_transactions [] result = ok result
write_transactions (serialized ∷ rest) result = do
  written ← write_sized serialized result
  write_transactions rest written

unfoldable pub read_transactions : ℕ → ByteBuffer → Result (List (List ℕ) × ByteBuffer)
unfolding read_sized
read_transactions zero source = ok ([], source)
read_transactions (suc count) source = do
  (serialized, next) ← read_sized source
  (others, rest) ← read_transactions count next
  ok (serialized ∷ others, rest)

unfoldable pub write_validator_set : List Bool → ByteBuffer → Result ByteBuffer
unfolding write_uint8 write_uint64 validator_set_pack
write_validator_set validator_set result = do
  written ← write_uint8 (length validator_set) result
  write_uint64 (validator_set_pack validator_set) written

unfoldable pub read_validator_set : ByteBuffer → Result (List Bool × ByteBuffer)
unfolding validator_set_unpack
read_validator_set source = do
  (count, next) ← read_uint8 source
  (packed, rest) ← read_uint64 next
  set ← validator_set_unpack packed count
  ok (set, rest)

unfoldable pub write_optional :
    Bool → Value → (ByteBuffer → Result ByteBuffer) → ByteBuffer → Result ByteBuffer
unfolding write_uint8
write_optional false value write result = write result
write_optional true undefined write result = write_uint8 0 result
write_optional true value write result = do written ← write_uint8 1 result; write written

-- The rest of `#readOptional`, once the flag is read.
abbrev pub read_present :
    (ByteBuffer → Result (Value × ByteBuffer)) → ℕ × ByteBuffer → Result (Value × ByteBuffer)
read_present read (zero, rest) = ok (undefined, rest)
read_present read (suc zero, rest) = read rest
read_present read (suc (suc flag), rest) = err invalid_presence_flag

unfoldable pub read_optional :
    Bool → (ByteBuffer → Result (Value × ByteBuffer)) → ByteBuffer → Result (Value × ByteBuffer)
read_optional false read source = read source
read_optional true read source = do flag ← read_uint8 source; read_present read flag

-- What was read, as the value of a property.
abbrev pub as_value :
    {A : Type 0} → (A → Value) → Result (A × ByteBuffer) → Result (Value × ByteBuffer)
as_value wrap (err e) = err e
as_value wrap (ok (found, rest)) = ok (wrap found, rest)

-- `assertTransactionCount` and the loop.
unfoldable pub read_counted : Value → ByteBuffer → Result (Value × ByteBuffer)
unfolding read_transactions
read_counted (number count) source = as_value transactions (read_transactions count source)
read_counted _ source = err missing_count

module _ (viem : Viem) (addresses : AddressFactory) where
  unfoldable pub write_value : FieldType → Value → ByteBuffer → Result ByteBuffer
  unfolding write_uint8 write_uint16 write_uint32 write_uint48 write_uint64 write_uint256
      write_bytes write_sized write_transactions write_validator_set
  write_value uint8_field (number value) result = write_uint8 value result
  write_value uint16_field (number value) result = write_uint16 value result
  write_value uint32_field (number value) result = write_uint32 value result
  write_value uint48_field (number value) result = write_uint48 value result
  write_value uint64_field (bigint value) result = write_uint64 value result
  write_value uint256_field (bigint value) result = write_uint256 viem value result
  write_value bigint_field (bigint value) result = write_uint64 value result
  write_value hash_field (string value) result = write_bytes value result
  write_value block_hash_field (string value) result = write_bytes value result
  write_value address_field (string value) result = write_bytes (addresses.to_buffer value) result
  write_value public_key_field (string value) result = write_bytes value result
  write_value consensus_signature_field (string value) result = write_bytes value result
  write_value validator_set_field (flags value) result = write_validator_set value result
  write_value hex_field (string value) result = write_sized value result
  write_value transactions_field (transactions value) result = write_transactions value result
  write_value _ _ result = err invalid_value

  unfoldable pub write_field : Schema → Value → ByteBuffer → Result ByteBuffer
  unfolding write_optional write_value
  write_field schema value result =
      write_optional (is_optional schema) value (write_value schema.type value) result

  unfoldable pub write_fields : List Schema → Data → ByteBuffer → Result ByteBuffer
  unfolding write_field
  write_fields [] object result = ok result
  write_fields (schema ∷ schemas) object result = do
    written ← write_field schema (object schema.property) result
    write_fields schemas object written

  -- `serialize`, with the configuration's length, skip and schema.
  unfoldable pub serialize : ℕ → ℕ → List Schema → Data → Result (List ℕ)
  unfolding write_fields skip
  serialize size skipped schemas object = do
    start ← skip (forward skipped) (from_size size)
    result ← write_fields schemas object start
    ok (get_result result)

  -- The branch of `deserialize` for a type. The target is read for the number of transactions only.
  unfoldable pub read_value : FieldType → Option ℕ → Data → ByteBuffer → Result (Value × ByteBuffer)
  unfolding read_uint256 read_bytes read_sized read_counted read_validator_set
  read_value uint8_field size target source = as_value number (read_uint8 source)
  read_value uint16_field size target source = as_value number (read_uint16 source)
  read_value uint32_field size target source = as_value number (read_uint32 source)
  read_value uint48_field size target source = as_value number (read_uint48 source)
  read_value uint64_field size target source = as_value bigint (read_uint64 source)
  read_value uint256_field size target source = as_value bigint (read_uint256 viem source)
  read_value bigint_field size target source = as_value bigint (read_uint64 source)
  read_value hash_field size target source =
      as_value string (read_bytes (size_or_hash_size size) source)
  read_value block_hash_field size target source = as_value string (read_bytes hash_size source)
  read_value address_field size target source =
      as_value (λ bytes. string (addresses.from_buffer bytes)) (read_bytes 20 source)
  read_value public_key_field size target source = as_value string (read_bytes 33 source)
  read_value consensus_signature_field size target source = as_value string (read_bytes 96 source)
  read_value validator_set_field size target source = as_value flags (read_validator_set source)
  read_value hex_field size target source = as_value string (read_sized source)
  read_value transactions_field size target source = read_counted (target transactions_count) source

  unfoldable pub read_field : Schema → Data → ByteBuffer → Result (Value × ByteBuffer)
  unfolding read_optional read_value
  read_field schema target source =
      read_optional (is_optional schema) (read_value schema.type schema.size target) source

  unfoldable pub deserialize : List Schema → Data → ByteBuffer → Result (Data × ByteBuffer)
  unfolding read_field
  deserialize [] target source = ok (target, source)
  deserialize (schema ∷ schemas) target source = do
    (value, rest) ← read_field schema target source
    deserialize schemas (assign schema.property value target) rest
