-- ===== src/Serializer/Reading.antt =====
-- The serializer reads an object back from its encoding.
use mainsail.Prelude.{
  ℕ, ◌<◌, ◌^◌, ◌≡◌, refl, sym, ap, ◌∙◌, subst, ◌++◌, Bool, Option, List, [], ◌∷◌, length, All,
  arith, append_assoc,
}
use mainsail.Prelude.Outcome.{Result, ok, err, ◌>>=◌}
use mainsail.ByteBuffer.{
  ByteBuffer, Viem, to_little_endian, get_remainder, read_uint32, read_uint8, read_uint16,
  read_uint48, read_uint64, read_bytes, read_uint256,
}
use mainsail.ByteBuffer.Reading.{Reads, Reads-and_then, read_bytes-Reads, read_number-Reads}
use mainsail.ValidatorSet.{validator_set_pack, validator_set_unpack}
use mainsail.ValidatorSet.Laws.{unpack-pack}
use mainsail.Serializer.{
  transactions_count, Value, undefined, number, bigint, string, flags, transactions, Data,
  FieldType, address_field, transactions_field, Schema, hash_size, size_or_hash_size,
  AddressFactory, read_sized, read_transactions, read_validator_set, read_present, read_optional,
  as_value, read_counted, read_value, read_field,
}
use mainsail.Serializer.Encoding.{
  encode_sized, encode_transactions, encode_validator_set, ViemLaws, Encodes, encodes_uint8,
  encodes_uint16, encodes_uint32, encodes_uint48, encodes_uint64, encodes_uint256, encodes_bigint,
  encodes_hash, encodes_block_hash, encodes_address, encodes_public_key,
  encodes_consensus_signature, encodes_validator_set, encodes_hex, encodes_transactions,
  FieldEncodes, absent, present, bare,
}

read_sized-Reads :
    (value rest : List ℕ) (b : ByteBuffer)
    → length value < 2 ^ 32
    → get_remainder b ≡ encode_sized value ++ rest
    → Reads value rest (read_sized b)
unfolding read_sized
read_sized-Reads value rest b h e =
    Reads-and_then (length value) value (value ++ rest) rest
      (λ (count, later). read_bytes count later) (read_uint32 b)
      (read_number-Reads b (value ++ rest) 3 (length value) (omega (arith, h))
        (e ∙ append_assoc (to_little_endian 4 (length value)) value rest))
      (λ later left. read_bytes-Reads later value rest left (length value) refl)

read_transactions-Reads :
    (value : List (List ℕ)) (rest : List ℕ) (b : ByteBuffer)
    → All (λ serialized. length serialized < 2 ^ 32) value
    → get_remainder b ≡ encode_transactions value ++ rest
    → Reads value rest (read_transactions (length value) b)
unfolding read_transactions
read_transactions-Reads [] rest b h e = (refl, e)
read_transactions-Reads (serialized ∷ others) rest b h e =
    Reads-and_then serialized (serialized ∷ others) (encode_transactions others ++ rest) rest
      (λ (first, next).
        read_transactions (length others) next >>= (λ (more, later). ok (first ∷ more, later)))
      (read_sized b)
      (read_sized-Reads serialized (encode_transactions others ++ rest) b h.0
        (e ∙ append_assoc (encode_sized serialized) (encode_transactions others) rest))
      (λ later left.
        Reads-and_then others (serialized ∷ others) rest rest
          (λ (more, last). ok (serialized ∷ more, last)) (read_transactions (length others) later)
          (read_transactions-Reads others rest later h.1 left) (λ last end. (refl, end)))

read_validator_set-Reads :
    (value : List Bool) (rest : List ℕ) (b : ByteBuffer)
    → length value < 2 ^ 8
    → validator_set_pack value < 2 ^ 64
    → get_remainder b ≡ encode_validator_set value ++ rest
    → Reads value rest (read_validator_set b)
unfolding read_validator_set
read_validator_set-Reads value rest b few small e =
    Reads-and_then (length value) value (to_little_endian 8 (validator_set_pack value) ++ rest) rest
      (λ (count, next).
        read_uint64 next
        >>= (λ (packed, later). validator_set_unpack packed count >>= (λ set. ok (set, later))))
      (read_uint8 b)
      (read_number-Reads b (to_little_endian 8 (validator_set_pack value) ++ rest) 0 (length value)
        (omega (arith, few))
        (e
          ∙ append_assoc (to_little_endian 1 (length value))
              (to_little_endian 8 (validator_set_pack value)) rest))
      (λ next left.
        Reads-and_then (validator_set_pack value) value rest rest
          (λ (packed, later).
            validator_set_unpack packed (length value) >>= (λ set. ok (set, later)))
          (read_uint64 next)
          (read_number-Reads next rest 7 (validator_set_pack value) (omega (arith, small)) left)
          (λ later end. rw (unpack-pack value) (refl, end)))

Reads-as_value :
    {A : Type 0} (wrap : A → Value) (a : A) (rest : List ℕ) (call : Result (A × ByteBuffer))
    → Reads a rest call
    → Reads (wrap a) rest (as_value wrap call)
Reads-as_value wrap a rest (err e) h = h
Reads-as_value wrap a rest (ok (found, later)) h = (ap wrap h.0, h.1)

-- The number of transactions was read before them.
abbrev pub Counted : FieldType → Value → Data → Type 0
Counted transactions_field (transactions value) target =
    target transactions_count ≡ number (length value)
Counted _ _ target = Unit {0}

module _ (viem : Viem) (addresses : AddressFactory) (laws : ViemLaws viem) where
  read_uint256-Reads :
      (value : ℕ) (rest : List ℕ) (b : ByteBuffer)
      → value < 2 ^ 256
      → get_remainder b ≡ viem.pad_bytes (viem.to_bytes value) ++ rest
      → Reads value rest (read_uint256 viem b)
  unfolding read_uint256
  read_uint256-Reads value rest b h e =
      Reads-and_then (viem.pad_bytes (viem.to_bytes value)) value rest rest
        (λ (bytes, later). ok (viem.bytes_to_big_int (viem.trim bytes), later)) (read_bytes 32 b)
        (read_bytes-Reads b (viem.pad_bytes (viem.to_bytes value)) rest e 32
          (sym (laws.length-pad_bytes value h)))
        (λ later left. (laws.number_back value h, left))

  read_value-Reads :
      (size : Option ℕ) (type : FieldType) (value : Value) (bytes rest : List ℕ) (target : Data)
      (b : ByteBuffer)
      → Counted type value target
      → Encodes viem addresses size type value bytes
      → get_remainder b ≡ bytes ++ rest
      → Reads value rest (read_value viem addresses type size target b)
  unfolding read_value read_counted
  read_value-Reads size _ _ _ rest target b counted (encodes_uint8 value h) e =
      Reads-as_value number value rest (read_uint8 b)
        (read_number-Reads b rest 0 value (omega (arith, h)) e)
  read_value-Reads size _ _ _ rest target b counted (encodes_uint16 value h) e =
      Reads-as_value number value rest (read_uint16 b)
        (read_number-Reads b rest 1 value (omega (arith, h)) e)
  read_value-Reads size _ _ _ rest target b counted (encodes_uint32 value h) e =
      Reads-as_value number value rest (read_uint32 b)
        (read_number-Reads b rest 3 value (omega (arith, h)) e)
  read_value-Reads size _ _ _ rest target b counted (encodes_uint48 value h) e =
      Reads-as_value number value rest (read_uint48 b)
        (read_number-Reads b rest 5 value (omega (arith, h)) e)
  read_value-Reads size _ _ _ rest target b counted (encodes_uint64 value h) e =
      Reads-as_value bigint value rest (read_uint64 b)
        (read_number-Reads b rest 7 value (omega (arith, h)) e)
  read_value-Reads size _ _ _ rest target b counted (encodes_uint256 value h) e =
      Reads-as_value bigint value rest (read_uint256 viem b) (read_uint256-Reads value rest b h e)
  read_value-Reads size _ _ _ rest target b counted (encodes_bigint value h) e =
      Reads-as_value bigint value rest (read_uint64 b)
        (read_number-Reads b rest 7 value (omega (arith, h)) e)
  read_value-Reads size _ _ _ rest target b counted (encodes_hash value h) e =
      Reads-as_value string value rest (read_bytes (size_or_hash_size size) b)
        (read_bytes-Reads b value rest e (size_or_hash_size size) (sym h))
  read_value-Reads size _ _ _ rest target b counted (encodes_block_hash value h) e =
      Reads-as_value string value rest (read_bytes hash_size b)
        (read_bytes-Reads b value rest e hash_size (sym h))
  read_value-Reads size _ _ _ rest target b counted (encodes_address value h back) e =
      subst
        (λ found. Reads (string found) rest (read_value viem addresses address_field size target b))
        back
        (Reads-as_value (λ found. string (addresses.from_buffer found)) (addresses.to_buffer value)
          rest (read_bytes 20 b) (read_bytes-Reads b (addresses.to_buffer value) rest e 20 (sym h)))
  read_value-Reads size _ _ _ rest target b counted (encodes_public_key value h) e =
      Reads-as_value string value rest (read_bytes 33 b)
        (read_bytes-Reads b value rest e 33 (sym h))
  read_value-Reads size _ _ _ rest target b counted (encodes_consensus_signature value h) e =
      Reads-as_value string value rest (read_bytes 96 b)
        (read_bytes-Reads b value rest e 96 (sym h))
  read_value-Reads size _ _ _ rest target b counted (encodes_validator_set value few small) e =
      Reads-as_value flags value rest (read_validator_set b)
        (read_validator_set-Reads value rest b few small e)
  read_value-Reads size _ _ _ rest target b counted (encodes_hex value h) e =
      Reads-as_value string value rest (read_sized b) (read_sized-Reads value rest b h e)
  read_value-Reads size _ _ _ rest target b counted (encodes_transactions value h) e = rw counted (
      Reads-as_value transactions value rest (read_transactions (length value) b)
        (read_transactions-Reads value rest b h e))

  pub read_field-Reads :
      (schema : Schema) (value : Value) (bytes rest : List ℕ) (target : Data) (b : ByteBuffer)
      → Counted schema.type value target
      → FieldEncodes viem addresses schema value bytes
      → get_remainder b ≡ bytes ++ rest
      → Reads value rest (read_field viem addresses schema target b)
  unfolding read_field read_optional
  read_field-Reads schema _ _ rest target b counted (absent optional) e = rw optional (
      Reads-and_then 0 undefined rest rest
        (read_present (read_value viem addresses schema.type schema.size target)) (read_uint8 b)
        (read_number-Reads b rest 0 0 (omega arith) e) (λ later left. (refl, left)))
  read_field-Reads schema value _ rest target b counted (present bytes optional h) e = rw optional (
      Reads-and_then 1 value (bytes ++ rest) rest
        (read_present (read_value viem addresses schema.type schema.size target)) (read_uint8 b)
        (read_number-Reads b (bytes ++ rest) 0 1 (omega arith) e)
        (λ later left.
          read_value-Reads schema.size schema.type value bytes rest target later counted h left))
  read_field-Reads schema value bytes rest target b counted (bare _ optional h) e =
      rw optional (read_value-Reads schema.size schema.type value bytes rest target b counted h e)
