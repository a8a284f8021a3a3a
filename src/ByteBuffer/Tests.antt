-- ===== src/ByteBuffer/Tests.antt =====
-- A buffer of four bytes, written, read again and written over.
use mainsail.Prelude.{◌≡◌, refl, List, [], ◌∷◌}
use mainsail.Prelude.Outcome.{err, write_over_boundary}
use mainsail.ByteBuffer.{ByteBuffer, back, from_size, read_number}
use mainsail.ByteBuffer.Bounds.{
  Call, to_write_uint8, to_write_uint16, to_write_bytes, to_read_uint8, to_skip, to_mark, to_reset,
  run_calls,
}
use mainsail.Serializer.Examples.{fixed_width}

abbrev some_calls : List Call
some_calls =
    to_write_uint16 258
    ∷ to_mark
    ∷ to_skip (back 1)
    ∷ to_read_uint8
    ∷ to_write_bytes (7 ∷ 8 ∷ [])
    ∷ to_reset
    ∷ []

abbrev buffer_after : ByteBuffer
buffer_after = record { buffer = 2 ∷ 1 ∷ 7 ∷ 8 ∷ []; offset = 2; marker = 2 }

written_over :
    run_calls fixed_width (to_write_uint8 1 ∷ to_write_bytes (1 ∷ 2 ∷ []) ∷ []) (from_size 2)
    ≡ err write_over_boundary
unfolding run_calls read_number
written_over = refl
