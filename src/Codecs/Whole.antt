-- ===== src/Codecs/Whole.antt =====
-- Bytes that are read to their end.
use mainsail.Prelude.{
  ℕ, ◌==◌, ==-refl, ◌≡◌, refl, sym, ap, subst, true, List, [], ◌++◌, arith, length, length-drop,
  append-nil,
}
use mainsail.Prelude.Outcome.{Result, ok, err, Error}
use mainsail.ByteBuffer.{ByteBuffer, Viem, get_remainder, get_remainder_length, from_buffer}
use mainsail.ByteBuffer.Reading.{Reads}
use mainsail.Serializer.{Data, Schema, AddressFactory, deserialize}
use mainsail.Serializer.Encoding.{ViemLaws, ObjectEncodes}
use mainsail.Serializer.RoundTrip.{
  assign_all, AllCounted, Agrees, assign_all-Agrees, deserialize-Reads,
}
use mainsail.Codecs.{whole, only_object, empty}

pub nothing_left : (b : ByteBuffer) → get_remainder b ≡ [] → (get_remainder_length b == 0) ≡ true
nothing_left b h =
    ==-refl (get_remainder_length b) 0 (omega (arith, length-drop b.offset b.buffer, ap length h))

module _ (schemas : List Schema) (object : Data) where
  read_whole :
      (trailing : Error) (call : Result (Data × ByteBuffer))
      → Reads (assign_all schemas object empty) [] call
      → (found : Data) × (whole trailing call ≡ ok found) × Agrees schemas object found
  read_whole trailing (err e) h = elim h [ ]
  read_whole trailing (ok (found, rest)) h = (
    found,
    rw (nothing_left rest h.1) refl,
    subst (Agrees schemas object) (sym h.0) (assign_all-Agrees schemas object empty),
  )

  read_first :
      (rest : List ℕ) (call : Result (Data × ByteBuffer))
      → Reads (assign_all schemas object empty) rest call
      → (found : Data) × (only_object call ≡ ok found) × Agrees schemas object found
  read_first rest (err e) h = elim h [ ]
  read_first rest (ok (found, later)) h = (
    found,
    refl,
    subst (Agrees schemas object) (sym h.0) (assign_all-Agrees schemas object empty),
  )

  module _ (viem : Viem) (addresses : AddressFactory) (laws : ViemLaws viem) where
    pub whole-encoding :
        (trailing : Error) (bytes : List ℕ)
        → AllCounted schemas object empty
        → ObjectEncodes viem addresses object schemas bytes
        → (found : Data) × (whole trailing
              (deserialize viem addresses schemas empty (from_buffer bytes))
            ≡ ok found)
          × Agrees schemas object found
    whole-encoding trailing bytes counted encoded =
        read_whole trailing (deserialize viem addresses schemas empty (from_buffer bytes)) (
          deserialize-Reads viem addresses laws object schemas empty bytes [] (from_buffer bytes)
            counted encoded (sym (append-nil bytes)))

    -- The bytes that follow are not looked at.
    pub only_object-encoding :
        (bytes rest : List ℕ)
        → AllCounted schemas object empty
        → ObjectEncodes viem addresses object schemas bytes
        → (found : Data) × (only_object
              (deserialize viem addresses schemas empty (from_buffer (bytes ++ rest)))
            ≡ ok found)
          × Agrees schemas object found
    only_object-encoding bytes rest counted encoded =
        read_first rest (deserialize viem addresses schemas empty (from_buffer (bytes ++ rest))) (
          deserialize-Reads viem addresses laws object schemas empty bytes rest
            (from_buffer (bytes ++ rest)) counted encoded refl)
