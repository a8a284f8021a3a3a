-- ===== src/ByteBuffer/Bounds.antt =====
-- Whatever calls are made, the buffer keeps its size and the offset and the marker stay in it.
use mainsail.Prelude.{ℕ, ◌≤◌, ◌≡◌, List, [], ◌∷◌, length}
use mainsail.Prelude.Outcome.{Result, ok, err, ◌>>=◌}
use mainsail.ByteBuffer.{
  ByteBuffer, Viem, Jump, write_uint8, write_uint16, write_uint32, write_uint48, write_uint64,
  write_uint256, write_bytes, read_uint8, read_uint16, read_uint32, read_uint48, read_uint64,
  read_uint256, read_bytes, skip, mark, reset,
}

-- A call of a method that changes the buffer, the offset or the marker.
pub data Call : Type 0 where
  to_write_uint8 to_write_uint16 to_write_uint32 to_write_uint48 to_write_uint64 to_write_uint256 :
      ℕ → Call
  to_write_bytes : List ℕ → Call
  to_read_uint8 to_read_uint16 to_read_uint32 to_read_uint48 to_read_uint64 to_read_uint256 : Call
  to_read_bytes : ℕ → Call
  to_skip : Jump → Call
  to_mark to_reset : Call

-- The buffer after a read.
abbrev after : {A : Type 0} → Result (A × ByteBuffer) → Result ByteBuffer
after (err e) = err e
after (ok (value, b)) = ok b

module _ (viem : Viem) where
  unfoldable pub run_call : Call → ByteBuffer → Result ByteBuffer
  unfolding write_uint8 write_uint16 write_uint32 write_uint48 write_uint64 write_uint256
      write_bytes read_uint256 read_bytes skip
  run_call (to_write_uint8 value) b = write_uint8 value b
  run_call (to_write_uint16 value) b = write_uint16 value b
  run_call (to_write_uint32 value) b = write_uint32 value b
  run_call (to_write_uint48 value) b = write_uint48 value b
  run_call (to_write_uint64 value) b = write_uint64 value b
  run_call (to_write_uint256 value) b = write_uint256 viem value b
  run_call (to_write_bytes bytes) b = write_bytes bytes b
  run_call to_read_uint8 b = after (read_uint8 b)
  run_call to_read_uint16 b = after (read_uint16 b)
  run_call to_read_uint32 b = after (read_uint32 b)
  run_call to_read_uint48 b = after (read_uint48 b)
  run_call to_read_uint64 b = after (read_uint64 b)
  run_call to_read_uint256 b = after (read_uint256 viem b)
  run_call (to_read_bytes count) b = after (read_bytes count b)
  run_call (to_skip jump) b = skip jump b
  run_call to_mark b = ok (mark b)
  run_call to_reset b = ok (reset b)

  -- Calls in their order, up to the first that throws.
  unfoldable pub run_calls : List Call → ByteBuffer → Result ByteBuffer
  unfolding run_call
  run_calls [] b = ok b
  run_calls (call ∷ calls) b = do next ← run_call call b; run_calls calls next

abbrev pub InRange : ByteBuffer → Type 0
InRange b = (b.offset ≤ length b.buffer) × (b.marker ≤ length b.buffer)

abbrev Keeps : ByteBuffer → Result ByteBuffer → Type 0
Keeps b (err e) = Unit {0}
Keeps b (ok next) = InRange next × (length next.buffer ≡ length b.buffer)
