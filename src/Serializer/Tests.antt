-- ===== src/Serializer/Tests.antt =====
-- An object with a number, a number that is missing, a string and two transactions.
use mainsail.Prelude.{
  ℕ, ◌+◌, ◌≤◌, ◌<◌, ◌≡◌, ◌⊎◌, ◌++◌, refl, true, false, none, List, [], ◌∷◌, length, replicate,
  arith,
}
use mainsail.Prelude.Outcome.{ok, err, Error, invalid_presence_flag}
use mainsail.ByteBuffer.{ByteBuffer, read_number, read_bytes, from_buffer, get_remainder}
use mainsail.Serializer.{
  transactions_count, undefined, number, string, transactions, Data, object_of, assign,
  uint16_field, uint32_field, hex_field, transactions_field, Schema, serialize, deserialize,
}
use mainsail.Serializer.Encoding.{
  encodes_uint16, encodes_hex, encodes_transactions, absent, bare, ObjectEncodes, add, nothing,
}
use mainsail.Serializer.RoundTrip.{Agrees, deserialize-serialize}
use mainsail.Serializer.Writing.{serialize-encodes}
use mainsail.Serializer.Canonical.{serialize-deserialize}
use mainsail.Serializer.Examples.{
  fixed_width, fixed_width-ViemLaws, bytes_lem, plain_addresses, plain_addresses-AddressLaws,
}

abbrev counts : Schema
counts = record {
  property = transactions_count;
  type = uint16_field;
  optional = false;
  size = none;
}

abbrev missing : Schema
missing = record { property = 1; type = uint32_field; optional = true; size = none }

abbrev text : Schema
text = record { property = 2; type = hex_field; optional = false; size = none }

abbrev listed : Schema
listed = record { property = 3; type = transactions_field; optional = false; size = none }

abbrev example_schema : List Schema
example_schema = counts ∷ missing ∷ text ∷ listed ∷ []

abbrev example_object : Data
example_object = object_of (
    (transactions_count, number 2)
    ∷ (2, string (10 ∷ 11 ∷ []))
    ∷ (3, transactions ((5 ∷ []) ∷ [] ∷ []))
    ∷ [])

abbrev example_bytes : List ℕ
example_bytes = 2 ∷ 0 ∷ 0 ∷ 2 ∷ 0 ∷ 0 ∷ 0 ∷ 10 ∷ 11 ∷ 1 ∷ 0 ∷ 0 ∷ 0 ∷ 5 ∷ 0 ∷ 0 ∷ 0 ∷ 0 ∷ []

abbrev example_found : Data
example_found = assign 3 (transactions ((5 ∷ []) ∷ [] ∷ [])) (
    assign 2 (string (10 ∷ 11 ∷ []))
      (assign 1 undefined (assign transactions_count (number 2) (λ property. undefined))))

example_encoded :
    ObjectEncodes fixed_width plain_addresses example_object example_schema example_bytes
example_encoded =
    (add fixed_width plain_addresses example_object counts _
      (_, bare _ refl (encodes_uint16 2 (omega arith)))
      (add fixed_width plain_addresses example_object missing _ (_, absent refl)
        (add fixed_width plain_addresses example_object text _
          (_, bare _ refl (encodes_hex (10 ∷ 11 ∷ []) (omega arith)))
          (add fixed_width plain_addresses example_object listed _
            (
              _,
              bare _ refl
                  (encodes_transactions ((5 ∷ []) ∷ [] ∷ []) (omega arith, (omega arith, tt))),
            )
            (nothing fixed_width plain_addresses example_object))))).1

-- A presence flag other than 0 and 1 is refused.
refused_flag :
    deserialize fixed_width plain_addresses
      (missing ∷ [])
      (λ property. undefined)
      (from_buffer (2 ∷ 0 ∷ 0 ∷ 0 ∷ 0 ∷ []))
    ≡ err invalid_presence_flag
unfolding deserialize read_number read_bytes
refused_flag = refl

example_read :
    deserialize fixed_width plain_addresses example_schema
      (λ property. undefined)
      (from_buffer example_bytes)
    ≡ ok (example_found, record { buffer = example_bytes; offset = 18; marker = 0 })
unfolding deserialize read_number read_bytes
example_read = refl

serialize-encodes_example :
    ((0 + length example_bytes ≤ 18)
      × (serialize fixed_width plain_addresses 18 0 example_schema example_object
          ≡ ok (replicate 0 0 ++ example_bytes)))
    ⊎ ((18 < 0 + length example_bytes)
        × (e : Error) × (serialize fixed_width plain_addresses 18 0 example_schema example_object
            ≡ err e))
serialize-encodes_example =
    serialize-encodes fixed_width plain_addresses fixed_width-ViemLaws 18 0 example_schema
      example_object example_bytes (omega arith) example_encoded

deserialize-serialize_example :
    (serialize fixed_width plain_addresses 20 0 example_schema example_object ≡ ok example_bytes)
    × ((found : Data) × (later : ByteBuffer) × (deserialize fixed_width plain_addresses
            example_schema
            (λ property. undefined)
            (from_buffer (example_bytes ++ (1 ∷ 2 ∷ [])))
          ≡ ok (found, later))
        × (get_remainder later ≡ 1 ∷ 2 ∷ [])
        × Agrees example_schema example_object found)
deserialize-serialize_example =
    deserialize-serialize fixed_width plain_addresses fixed_width-ViemLaws example_object
      example_schema (λ property. undefined) 20 example_bytes (1 ∷ 2 ∷ []) example_encoded
      (omega arith) (tt, (tt, (tt, (refl, tt))))

serialize-deserialize_example :
    (bytes : List ℕ) × (example_bytes ≡ bytes ++ [])
    × ((size : ℕ)
        → length bytes ≤ size
        → serialize fixed_width plain_addresses size 0 example_schema example_found ≡ ok bytes)
serialize-deserialize_example =
    serialize-deserialize fixed_width plain_addresses fixed_width-ViemLaws
      plain_addresses-AddressLaws example_schema (λ property. undefined) example_found example_bytes
      (record { buffer = example_bytes; offset = 18; marker = 0 }) refl
      (bytes_lem example_bytes refl) example_read
