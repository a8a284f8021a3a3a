-- ===== src/Serializer/RoundTrip.antt =====
-- An object is read back from its encoding, and what is serialized is deserialized into the same properties.
use mainsail.Prelude.{
  ℕ, ◌≤◌, ◌==◌, ◌≡◌, refl, sym, ap, ◌∙◌, subst, ◌++◌, ◌⊎◌, inl, inr, Bool-cases, ==-eq, ==-refl,
  absurd_test, List, [], ◌∷◌, length, All, append_assoc, append-nil,
}
use mainsail.Prelude.Outcome.{Result, ok, err}
use mainsail.ByteBuffer.{ByteBuffer, Viem, from_buffer, get_remainder}
use mainsail.ByteBuffer.Reading.{Reads, Reads-and_then}
use mainsail.Serializer.Reading.{Counted, read_field-Reads}
use mainsail.Serializer.{
  Property, Data, assign, Schema, AddressFactory, serialize, read_field, deserialize,
}
use mainsail.Serializer.Writing.{serialize-fits}
use mainsail.Serializer.Encoding.{ViemLaws, ObjectEncodes, none_left, one_more}

-- The target once the properties of the schema are assigned in their order.
abbrev pub assign_all : List Schema → Data → Data → Data
assign_all [] object target = target
assign_all (schema ∷ schemas) object target =
    assign_all schemas object (assign schema.property (object schema.property) target)

abbrev pub AllCounted : List Schema → Data → Data → Type 0
AllCounted [] object target = Unit {0}
AllCounted (schema ∷ schemas) object target =
    Counted schema.type (object schema.property) target
    × AllCounted schemas object (assign schema.property (object schema.property) target)

-- The properties of the schema are those of the object.
abbrev pub Agrees : List Schema → Data → Data → Type 0
Agrees schemas object target =
    All (λ schema. target schema.property ≡ object schema.property) schemas

assign_cases :
    (property other : Property) (object target : Data)
    → (target other ≡ object other) ⊎ (other ≡ property)
    → assign property (object property) target other ≡ object other
assign_cases property other object target known = elim (Bool-cases (other == property)) [
  | inl same ↦ rw same (ap object (sym (==-eq other property same)))
  | inr differs ↦ elim known [
    | inl kept ↦ rw differs kept
    | inr same ↦ absurd (absurd_test (sym (==-refl other property same) ∙ differs))
  ]
]

assign_all_kept :
    (schemas : List Schema) (object target : Data) (other : Property)
    → target other ≡ object other
    → assign_all schemas object target other ≡ object other
assign_all_kept [] object target other h = h
assign_all_kept (schema ∷ schemas) object target other h =
    assign_all_kept schemas object (assign schema.property (object schema.property) target) other
      (assign_cases schema.property other object target (inl h))

pub assign_all-Agrees :
    (schemas : List Schema) (object target : Data)
    → Agrees schemas object (assign_all schemas object target)
assign_all-Agrees [] object target = tt
assign_all-Agrees (schema ∷ schemas) object target = (
  assign_all_kept schemas object (assign schema.property (object schema.property) target)
      schema.property (assign_cases schema.property schema.property object target (inr refl)),
  assign_all-Agrees schemas object (assign schema.property (object schema.property) target),
)

module _ (viem : Viem) (addresses : AddressFactory) (laws : ViemLaws viem) where
  -- An object is read back from its encoding, whatever bytes follow it, and these are left.
  pub deserialize-Reads :
      (object : Data) (schemas : List Schema) (target : Data) (bytes rest : List ℕ) (b : ByteBuffer)
      → AllCounted schemas object target
      → ObjectEncodes viem addresses object schemas bytes
      → get_remainder b ≡ bytes ++ rest
      → Reads (assign_all schemas object target) rest (deserialize viem addresses schemas target b)
  unfolding deserialize
  deserialize-Reads object _ target _ rest b counted none_left e = (refl, e)
  deserialize-Reads object _ target _ rest b counted (one_more schema schemas xs ys h others) e =
      Reads-and_then (object schema.property) (assign_all (schema ∷ schemas) object target)
        (ys ++ rest) rest
        (λ (value, later).
          deserialize viem addresses schemas (assign schema.property value target) later)
        (read_field viem addresses schema target b)
        (read_field-Reads viem addresses laws schema (object schema.property) xs (ys ++ rest) target
          b counted.0 h (e ∙ append_assoc xs ys rest))
        (λ later left.
          deserialize-Reads object schemas (assign schema.property (object schema.property) target)
            ys rest later counted.1 others left)

  agreed :
      (object : Data) (schemas : List Schema) (target : Data) (rest : List ℕ)
      (call : Result (Data × ByteBuffer))
      → Reads (assign_all schemas object target) rest call
      → (found : Data) × (later : ByteBuffer) × (call ≡ ok (found, later))
        × (get_remainder later ≡ rest)
        × Agrees schemas object found
  agreed object schemas target rest (err e) h = elim h [ ]
  agreed object schemas target rest (ok (found, later)) h = (
    found,
    later,
    refl,
    h.1,
    subst (Agrees schemas object) (sym h.0) (assign_all-Agrees schemas object target),
  )

  -- The same, with the properties of what was found.
  pub deserialize-Agrees :
      (object : Data) (schemas : List Schema) (target : Data) (bytes rest : List ℕ) (b : ByteBuffer)
      → AllCounted schemas object target
      → ObjectEncodes viem addresses object schemas bytes
      → get_remainder b ≡ bytes ++ rest
      → (found : Data) × (later : ByteBuffer) × (deserialize viem addresses schemas target b
          ≡ ok (found, later))
        × (get_remainder later ≡ rest)
        × Agrees schemas object found
  deserialize-Agrees object schemas target bytes rest b counted encoded e =
      agreed object schemas target rest (deserialize viem addresses schemas target b)
        (deserialize-Reads object schemas target bytes rest b counted encoded e)

  -- What is serialized is deserialized into the same properties, and the bytes that follow are left. The object
  -- has an encoding that fits, and its number of transactions stands before them.
  pub deserialize-serialize :
      (object : Data) (schemas : List Schema) (target : Data) (size : ℕ) (bytes rest : List ℕ)
      → ObjectEncodes viem addresses object schemas bytes
      → length bytes ≤ size
      → AllCounted schemas object target
      → (serialize viem addresses size 0 schemas object ≡ ok bytes)
        × ((found : Data) × (later : ByteBuffer) × (deserialize viem addresses schemas target
                (from_buffer (bytes ++ rest))
              ≡ ok (found, later))
            × (get_remainder later ≡ rest)
            × Agrees schemas object found)
  deserialize-serialize object schemas target size bytes rest encoded fits counted = (
    serialize-fits viem addresses laws size schemas object bytes fits encoded,
    deserialize-Agrees object schemas target bytes rest (from_buffer (bytes ++ rest)) counted
        encoded refl,
  )

  same_reading :
      (schemas : List Schema) (object other target : Data) (rest : List ℕ)
      (call : Result (Data × ByteBuffer))
      → Reads (assign_all schemas object target) rest call
      → Reads (assign_all schemas other target) rest call
      → Agrees schemas object (assign_all schemas other target)
  same_reading schemas object other target rest (err e) h k = elim h [ ]
  same_reading schemas object other target rest (ok (found, later)) h k =
      subst (Agrees schemas object) (sym h.0 ∙ k.0) (assign_all-Agrees schemas object target)

  joined :
      (schemas : List Schema) (object other target : Data)
      → Agrees schemas object target
      → Agrees schemas other target
      → Agrees schemas object other
  joined [] object other target h k = tt
  joined (schema ∷ schemas) object other target h k =
      (sym k.0 ∙ h.0, joined schemas object other target h.1 k.1)

  -- Objects with the same encoding have the same properties.
  pub encoding-inj :
      (schemas : List Schema) (object other target : Data) (bytes : List ℕ)
      → AllCounted schemas object target
      → AllCounted schemas other target
      → ObjectEncodes viem addresses object schemas bytes
      → ObjectEncodes viem addresses other schemas bytes
      → Agrees schemas object other
  encoding-inj schemas object other target bytes counted counted' h k =
      joined schemas object other (assign_all schemas other target)
        (same_reading schemas object other target []
          (deserialize viem addresses schemas target (from_buffer bytes))
          (deserialize-Reads object schemas target bytes [] (from_buffer bytes) counted h
            (sym (append-nil bytes)))
          (deserialize-Reads other schemas target bytes [] (from_buffer bytes) counted' k
            (sym (append-nil bytes))))
        (assign_all-Agrees schemas other target)
