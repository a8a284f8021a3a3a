-- ===== src/Serializer/Writing.antt =====
-- The serializer writes the encoding of an object, or throws because the buffer is too small for it.
use mainsail.Prelude.{
  ℕ, ◌+◌, ◌^◌, ◌⊎◌, ◌≤◌, ◌<◌, ◌≡◌, refl, ap, ◌∙◌, subst, ◌++◌, Bool, true, false, Option, List, [],
  ◌∷◌, length, All, replicate, take-replicate, length-replicate, ltb, inl, inr, arith,
}
use mainsail.Prelude.Outcome.{Result, ok, err, and_then, ◌>>=◌, Error}
use mainsail.ByteBuffer.{
  ByteBuffer, Viem, from_size, to_little_endian, write_uint32, write_uint8, write_uint64,
  write_bytes, get_result, get_remainder_length, skip, forward,
}
use mainsail.ByteBuffer.Writing.{
  InBounds, get_result-copied, Writes, Writes-and_then, Writes-nil, write_bytes-Writes,
  write_uint8-Writes, write_uint16-Writes, write_uint32-Writes, write_uint48-Writes,
  write_uint64-Writes, write_uint256-Writes,
}
use mainsail.ValidatorSet.{validator_set_pack}
use mainsail.Serializer.{
  Value, undefined, number, bigint, string, flags, transactions, Data, FieldType, Schema,
  AddressFactory, write_sized, write_transactions, write_validator_set, write_optional, write_value,
  write_field, write_fields, serialize,
}
use mainsail.Serializer.Encoding.{
  encode_sized, encode_transactions, encode_validator_set, ViemLaws, Encodes, encodes_uint8,
  encodes_uint16, encodes_uint32, encodes_uint48, encodes_uint64, encodes_uint256, encodes_bigint,
  encodes_hash, encodes_block_hash, encodes_address, encodes_public_key,
  encodes_consensus_signature, encodes_validator_set, encodes_hex, encodes_transactions,
  FieldEncodes, absent, present, bare, ObjectEncodes, none_left, one_more,
}

write_sized-Writes :
    (value : List ℕ) (b : ByteBuffer)
    → InBounds b
    → length value < 2 ^ 32
    → Writes b (encode_sized value) (write_sized value b)
unfolding write_sized
write_sized-Writes value b within h =
    Writes-and_then (to_little_endian 4 (length value)) value b within (write_bytes value)
      (λ written. write_bytes-Writes value written) (write_uint32 (length value) b)
      (write_uint32-Writes (length value) b h)

write_transactions-Writes :
    (value : List (List ℕ)) (b : ByteBuffer)
    → InBounds b
    → All (λ serialized. length serialized < 2 ^ 32) value
    → Writes b (encode_transactions value) (write_transactions value b)
unfolding write_transactions
write_transactions-Writes [] b within h = Writes-nil b within
write_transactions-Writes (serialized ∷ rest) b within h =
    Writes-and_then (encode_sized serialized) (encode_transactions rest) b within
      (write_transactions rest)
      (λ written inside. write_transactions-Writes rest written inside h.1)
      (write_sized serialized b) (write_sized-Writes serialized b within h.0)

write_validator_set-Writes :
    (value : List Bool) (b : ByteBuffer)
    → InBounds b
    → length value < 2 ^ 8
    → validator_set_pack value < 2 ^ 64
    → Writes b (encode_validator_set value) (write_validator_set value b)
unfolding write_validator_set
write_validator_set-Writes value b within few small =
    Writes-and_then (to_little_endian 1 (length value))
      (to_little_endian 8 (validator_set_pack value)) b within
      (write_uint64 (validator_set_pack value))
      (λ written _. write_uint64-Writes (validator_set_pack value) written small)
      (write_uint8 (length value) b) (write_uint8-Writes (length value) b few)

module _ (viem : Viem) (addresses : AddressFactory) (laws : ViemLaws viem) where
  write_value-Writes :
      (size : Option ℕ) (type : FieldType) (value : Value) (bytes : List ℕ) (b : ByteBuffer)
      → InBounds b
      → Encodes viem addresses size type value bytes
      → Writes b bytes (write_value viem addresses type value b)
  unfolding write_value
  write_value-Writes size _ _ _ b within (encodes_uint8 value h) = write_uint8-Writes value b h
  write_value-Writes size _ _ _ b within (encodes_uint16 value h) = write_uint16-Writes value b h
  write_value-Writes size _ _ _ b within (encodes_uint32 value h) = write_uint32-Writes value b h
  write_value-Writes size _ _ _ b within (encodes_uint48 value h) = write_uint48-Writes value b h
  write_value-Writes size _ _ _ b within (encodes_uint64 value h) = write_uint64-Writes value b h
  write_value-Writes size _ _ _ b within (encodes_uint256 value h) =
      write_uint256-Writes value b viem (laws.length-to_bytes value h) within
  write_value-Writes size _ _ _ b within (encodes_bigint value h) = write_uint64-Writes value b h
  write_value-Writes size _ _ _ b within (encodes_hash value h) = write_bytes-Writes value b within
  write_value-Writes size _ _ _ b within (encodes_block_hash value h) =
      write_bytes-Writes value b within
  write_value-Writes size _ _ _ b within (encodes_address value h back) =
      write_bytes-Writes (addresses.to_buffer value) b within
  write_value-Writes size _ _ _ b within (encodes_public_key value h) =
      write_bytes-Writes value b within
  write_value-Writes size _ _ _ b within (encodes_consensus_signature value h) =
      write_bytes-Writes value b within
  write_value-Writes size _ _ _ b within (encodes_validator_set value few small) =
      write_validator_set-Writes value b within few small
  write_value-Writes size _ _ _ b within (encodes_hex value h) = write_sized-Writes value b within h
  write_value-Writes size _ _ _ b within (encodes_transactions value h) =
      write_transactions-Writes value b within h

  pub Encodes-defined :
      (size : Option ℕ) (type : FieldType) (bytes : List ℕ)
      → ¬ Encodes viem addresses size type undefined bytes
  Encodes-defined size type bytes h = elim h [ ]

  flagged :
      (xs : List ℕ) (write : ByteBuffer → Result ByteBuffer) (b : ByteBuffer)
      → InBounds b
      → ((written : ByteBuffer) → InBounds written → Writes written xs (write written))
      → Writes b (1 ∷ xs) (write_uint8 1 b >>= (λ written. write written))
  flagged xs write b within h =
      Writes-and_then (1 ∷ []) xs b within write h (write_uint8 1 b)
        (write_uint8-Writes 1 b (omega arith))

  write_optional-present :
      (value : Value) (xs : List ℕ) (write : ByteBuffer → Result ByteBuffer) (b : ByteBuffer)
      → InBounds b
      → (value ≡ undefined → ⊥)
      → ((written : ByteBuffer) → InBounds written → Writes written xs (write written))
      → Writes b (1 ∷ xs) (write_optional true value write b)
  unfolding write_optional
  write_optional-present undefined xs write b within defined h = absurd (defined refl)
  write_optional-present (number n) xs write b within defined h = flagged xs write b within h
  write_optional-present (bigint n) xs write b within defined h = flagged xs write b within h
  write_optional-present (string s) xs write b within defined h = flagged xs write b within h
  write_optional-present (flags s) xs write b within defined h = flagged xs write b within h
  write_optional-present (transactions s) xs write b within defined h = flagged xs write b within h

  write_field-Writes :
      (schema : Schema) (value : Value) (bytes : List ℕ) (b : ByteBuffer)
      → InBounds b
      → FieldEncodes viem addresses schema value bytes
      → Writes b bytes (write_field viem addresses schema value b)
  unfolding write_field write_optional
  write_field-Writes schema _ _ b within (absent optional) =
      rw optional (write_uint8-Writes 0 b (omega arith))
  write_field-Writes schema value _ b within (present bytes optional h) = rw optional (
      write_optional-present value bytes (write_value viem addresses schema.type value) b within
        (λ e.
          Encodes-defined schema.size schema.type bytes
            (subst (λ v. Encodes viem addresses schema.size schema.type v bytes) e h))
        (λ written inside. write_value-Writes schema.size schema.type value bytes written inside h))
  write_field-Writes schema value bytes b within (bare _ optional h) =
      rw optional (write_value-Writes schema.size schema.type value bytes b within h)

  pub write_fields-Writes :
      (object : Data) (schemas : List Schema) (bytes : List ℕ) (b : ByteBuffer)
      → InBounds b
      → ObjectEncodes viem addresses object schemas bytes
      → Writes b bytes (write_fields viem addresses schemas object b)
  unfolding write_fields
  write_fields-Writes object _ _ b within none_left = Writes-nil b within
  write_fields-Writes object _ _ b within (one_more schema schemas xs ys h others) =
      Writes-and_then xs ys b within (write_fields viem addresses schemas object)
        (λ written inside. write_fields-Writes object schemas ys written inside others)
        (write_field viem addresses schema (object schema.property) b)
        (write_field-Writes schema (object schema.property) xs b within h)

  abbrev start : ℕ → ℕ → ByteBuffer
  start size skipped = record (from_size size) { offset = skipped }

  skip-start :
      (size skipped : ℕ)
      → skipped ≤ size
      → skip (forward skipped) (from_size size) ≡ ok (start size skipped)
  unfolding skip
  skip-start size skipped h =
      let fits : ltb (get_remainder_length (from_size size)) skipped ≡ false =
        grind (arith, h, length-replicate {A = ℕ} size 0) in
      let moved : 0 + skipped ≡ skipped = omega arith in rw (fits, moved) refl

  finished :
      (size skipped : ℕ) (bytes : List ℕ) (result : Result ByteBuffer)
      → skipped ≤ size
      → Writes (start size skipped) bytes result
      → ((skipped + length bytes ≤ size)
          × (and_then (λ b. ok (get_result b)) result ≡ ok (replicate skipped 0 ++ bytes)))
        ⊎ ((size < skipped + length bytes)
            × (e : Error) × (and_then (λ b. ok (get_result b)) result ≡ err e))
  finished size skipped bytes (err e) h w =
      let count : length (replicate {A = ℕ} size 0) ≡ size = length-replicate size 0 in
      inr (omega (arith, w, count), e, refl)
  finished size skipped bytes (ok b) h w =
      let count : length (replicate {A = ℕ} size 0) ≡ size = length-replicate size 0 in
      inl (
        omega (arith, w.0, count),
        ap (λ written. ok (get_result written)) w.1
            ∙ ap ok (
                get_result-copied bytes (start size skipped) (omega (arith, h, count))
                ∙ ap (λ zeros. zeros ++ bytes) (take-replicate skipped size 0 h)),
      )

  -- An object that has an encoding is serialized into it, after the zeros that are skipped, exactly if that
  -- fits into the length of the configuration. Otherwise the call throws.
  pub serialize-encodes :
      (size skipped : ℕ) (schemas : List Schema) (object : Data) (bytes : List ℕ)
      → skipped ≤ size
      → ObjectEncodes viem addresses object schemas bytes
      → ((skipped + length bytes ≤ size)
          × (serialize viem addresses size skipped schemas object
              ≡ ok (replicate skipped 0 ++ bytes)))
        ⊎ ((size < skipped + length bytes)
            × (e : Error) × (serialize viem addresses size skipped schemas object ≡ err e))
  unfolding serialize
  serialize-encodes size skipped schemas object bytes h encoded =
      let count : length (replicate {A = ℕ} size 0) ≡ size = length-replicate size 0 in
      rw (skip-start size skipped h) (
        finished size skipped bytes
          (write_fields viem addresses schemas object (start size skipped)) h
          (write_fields-Writes object schemas bytes (start size skipped) (omega (arith, h, count))
            encoded))

  pub serialize-fits :
      (size : ℕ) (schemas : List Schema) (object : Data) (bytes : List ℕ)
      → length bytes ≤ size
      → ObjectEncodes viem addresses object schemas bytes
      → serialize viem addresses size 0 schemas object ≡ ok bytes
  serialize-fits size schemas object bytes fits encoded =
      elim (serialize-encodes size 0 schemas object bytes (omega arith) encoded) [
        | inl h ↦ h.1
        | inr h ↦ absurd (omega (arith, fits, h.0))
      ]
