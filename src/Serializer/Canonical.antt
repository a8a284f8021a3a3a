-- ===== src/Serializer/Canonical.antt =====
-- No two encodings of one object: bytes that are deserialized are the encoding of what they give.
use mainsail.Prelude.{
  ℕ, ◌≤◌, ◌==◌, ◌≡◌, refl, sym, ap, ◌∙◌, subst, ◌++◌, ◌&&◌, Bool, true, false, not, ==-refl, List,
  [], ◌∷◌, length, All, arith,
}
use mainsail.Prelude.Outcome.{Result, ok, err, ok-inj, not_ok}
use mainsail.ByteBuffer.{ByteBuffer, Viem, from_buffer, get_remainder}
use mainsail.ByteBuffer.Reading.{Byte, Took}
use mainsail.Serializer.{
  Property, Value, Data, assign, Schema, AddressFactory, serialize, read_field, deserialize,
}
use mainsail.Serializer.Taking.{Took-and_then, Took-imp, Took-nil}
use mainsail.Serializer.Writing.{serialize-fits}
use mainsail.Serializer.Encoding.{
  ViemLaws, AddressLaws, FieldEncodes, ObjectEncodes, none_left, one_more,
}
use mainsail.Serializer.Fields.{read_field-Took}

-- The property is none of the schema's.
abbrev fresh : Property → List Schema → Bool
fresh property [] = true
fresh property (schema ∷ schemas) = not (property == schema.property) && fresh property schemas

-- A schema names each property once.
abbrev pub distinct : List Schema → Bool
distinct [] = true
distinct (schema ∷ schemas) = fresh schema.property schemas && distinct schemas

assign_same :
    (property : Property) (value : Value) (target : Data)
    → assign property value target property ≡ value
assign_same property value target = rw (==-refl property property refl) refl

assign_other :
    (property other : Property) (value : Value) (target : Data)
    → (other == property) ≡ false
    → assign property value target other ≡ target other
assign_other property other value target apart = rw apart refl

module _ (viem : Viem) (addresses : AddressFactory) (laws : ViemLaws viem)
    (known : AddressLaws addresses) where
  abbrev Deserialized : List Schema → Data → Data → List ℕ → Type 0
  Deserialized schemas target found bytes =
      ObjectEncodes viem addresses found schemas bytes
      × ((property : Property) → fresh property schemas ≡ true → found property ≡ target property)

  one_assigned :
      (schema : Schema) (schemas : List Schema) (target found : Data) (value : Value)
      (xs ys : List ℕ)
      → fresh schema.property schemas ≡ true
      → FieldEncodes viem addresses schema value xs
      → Deserialized schemas (assign schema.property value target) found ys
      → Deserialized (schema ∷ schemas) target found (xs ++ ys)
  one_assigned schema schemas target found value xs ys once encodes (others, kept) =
      let set : found schema.property ≡ value =
        kept schema.property once ∙ assign_same schema.property value target in
      (
        one_more schema schemas xs ys
            (subst (λ held. FieldEncodes viem addresses schema held xs) (sym set) encodes) others,
        λ property apart.
            kept property (ground (arith, apart))
            ∙ assign_other schema.property property value target (ground (arith, apart)),
      )

  deserialize-Took :
      (schemas : List Schema) (target : Data) (b : ByteBuffer)
      → distinct schemas ≡ true
      → All Byte (get_remainder b)
      → Took (Deserialized schemas target) b (deserialize viem addresses schemas target b)
  unfolding deserialize
  deserialize-Took [] target b once plain =
      Took-nil (Deserialized [] target) target b (none_left, λ property _. refl) plain
  deserialize-Took (schema ∷ schemas) target b once plain =
      Took-and_then (Deserialized (schema ∷ schemas) target) (FieldEncodes viem addresses schema)
        (λ (value, rest).
          deserialize viem addresses schemas (assign schema.property value target) rest)
        b (read_field viem addresses schema target b)
        (read_field-Took viem addresses laws known schema target b plain)
        (λ value xs later means left.
          Took-imp (λ found ys. Deserialized (schema ∷ schemas) target found (xs ++ ys))
            (Deserialized schemas (assign schema.property value target)) later
            (deserialize viem addresses schemas (assign schema.property value target) later)
            (λ found ys h.
              one_assigned schema schemas target found value xs ys (ground (arith, once)) means h)
            (deserialize-Took schemas (assign schema.property value target) later
              (ground (arith, once)) left))

  encoding_of :
      (schemas : List Schema) (target : Data) (b : ByteBuffer) (call : Result (Data × ByteBuffer))
      (found : Data) (rest : ByteBuffer)
      → Took (Deserialized schemas target) b call
      → call ≡ ok (found, rest)
      → (bytes : List ℕ) × (get_remainder b ≡ bytes ++ get_remainder rest)
        × ObjectEncodes viem addresses found schemas bytes
  encoding_of schemas target b (err e) found rest h returned = absurd (not_ok returned)
  encoding_of schemas target b (ok (given, later)) found rest (bytes, joined, means, plain)
        returned =
      let same : ◌≡◌ {A = Data × ByteBuffer} (given, later) (found, rest) = ok-inj returned in
      (
        bytes,
        joined ∙ ap (λ pair. bytes ++ get_remainder pair.1) same,
        subst (λ pair. ObjectEncodes viem addresses pair.0 schemas bytes) same means.0,
      )

  -- What is read off the buffer is the encoding of what is found.
  pub deserialize-encodes :
      (schemas : List Schema) (target found : Data) (source : List ℕ) (rest : ByteBuffer)
      → distinct schemas ≡ true
      → All Byte source
      → deserialize viem addresses schemas target (from_buffer source) ≡ ok (found, rest)
      → (bytes : List ℕ) × (source ≡ bytes ++ get_remainder rest)
        × ObjectEncodes viem addresses found schemas bytes
  deserialize-encodes schemas target found source rest once plain returned =
      encoding_of schemas target (from_buffer source)
        (deserialize viem addresses schemas target (from_buffer source)) found rest
        (deserialize-Took schemas target (from_buffer source) once plain) returned

  -- Bytes that are deserialized by a schema that names each property once are those that the result serializes
  -- into, in any size that holds them, followed by what is left to read: no other bytes give the same object.
  pub serialize-deserialize :
      (schemas : List Schema) (target found : Data) (source : List ℕ) (rest : ByteBuffer)
      → distinct schemas ≡ true
      → All Byte source
      → deserialize viem addresses schemas target (from_buffer source) ≡ ok (found, rest)
      → (bytes : List ℕ) × (source ≡ bytes ++ get_remainder rest)
        × ((size : ℕ)
            → length bytes ≤ size
            → serialize viem addresses size 0 schemas found ≡ ok bytes)
  serialize-deserialize schemas target found source rest once plain returned =
      let (bytes, joined, encoded) =
        deserialize-encodes schemas target found source rest once plain returned in
      (
        bytes,
        joined,
        λ size fits. serialize-fits viem addresses laws size schemas found bytes fits encoded,
      )
