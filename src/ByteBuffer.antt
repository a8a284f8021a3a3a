-- ===== src/ByteBuffer.antt =====
-- packages/utils/source/byte-buffer.ts: a buffer of fixed size that is written and read in order.
-- Bytes are numbers below 256. The methods of Node's Buffer throw when a number does not fit in what is left;
-- the functions of viem that write and read 256-bit numbers are the record Viem.
pub mod Digits
pub mod Reading
pub mod Writing
pub mod Bounds
mod Tests
use mainsail.Prelude.{
  ℕ, zero, suc, ◌+◌, ◌-◌, ◌*◌, ◌/◌, ◌%◌, ◌^◌, ◌≤◌, ◌≡◌, Bool, List, [], ◌∷◌, ◌++◌, length, take,
  drop, replicate, ltb, leb, if◌then◌else◌,
}
use mainsail.Prelude.Outcome.{
  Result, ok, err, ◌>>=◌, out_of_range, buffer_range, write_over_boundary, read_over_boundary,
  jump_over_boundary,
}

pub record ByteBuffer : Type 0 where
  pub buffer : List ℕ
  pub offset : ℕ
  pub marker : ℕ

-- `toBytes`, `padBytes` to 32 bytes, `trim` from the left and `bytesToBigInt`.
pub record Viem : Type 0 where
  pub to_bytes : ℕ → List ℕ
  pub pad_bytes : List ℕ → List ℕ
  pub trim : List ℕ → List ℕ
  pub bytes_to_big_int : List ℕ → ℕ

abbrev pub from_size : ℕ → ByteBuffer
from_size size = record { buffer = replicate size 0; offset = 0; marker = 0 }

abbrev pub from_buffer : List ℕ → ByteBuffer
from_buffer bytes = record { buffer = bytes; offset = 0; marker = 0 }

-- The offset never passes the end, so the difference is not cut off.
abbrev pub get_remainder_length : ByteBuffer → ℕ
get_remainder_length b = length b.buffer - b.offset

abbrev pub get_remainder : ByteBuffer → List ℕ
get_remainder b = drop b.offset b.buffer

abbrev pub get_result : ByteBuffer → List ℕ
get_result b = take b.offset b.buffer

abbrev pub get_result_length : ByteBuffer → ℕ
get_result_length b = b.offset

-- A number in that many bytes, the lowest first.
abbrev pub to_little_endian : ℕ → ℕ → List ℕ
to_little_endian zero value = []
to_little_endian (suc size) value = (value % 256) ∷ to_little_endian size (value / 256)

abbrev pub from_little_endian : List ℕ → ℕ
from_little_endian [] = 0
from_little_endian (byte ∷ bytes) = byte + 256 * from_little_endian bytes

-- `copy` at the offset, which then moves on.
unfoldable pub copy_bytes : List ℕ → ByteBuffer → ByteBuffer
copy_bytes bytes b = record b {
  buffer = take b.offset b.buffer ++ bytes ++ drop (b.offset + length bytes) b.buffer;
  offset = b.offset + length bytes;
}

-- `writeUInt8`, `writeUInt16LE` and the others of Node's Buffer.
unfoldable pub write_number : ℕ → ℕ → ByteBuffer → Result ByteBuffer
unfolding copy_bytes
write_number size value b =
    if leb (b.offset + size) (length b.buffer)
    then ok (copy_bytes (to_little_endian size value) b)
    else err buffer_range

unfoldable pub read_number : ℕ → ByteBuffer → Result (ℕ × ByteBuffer)
read_number size b =
    if leb (b.offset + size) (length b.buffer)
    then ok
        (from_little_endian (take size (get_remainder b)), record b { offset = b.offset + size })
    else err buffer_range

unfoldable pub write_uint8 : ℕ → ByteBuffer → Result ByteBuffer
unfolding write_number
write_uint8 value b = if ltb 255 value then err out_of_range else write_number 1 value b

abbrev pub read_uint8 : ByteBuffer → Result (ℕ × ByteBuffer)
read_uint8 b = read_number 1 b

unfoldable pub write_uint16 : ℕ → ByteBuffer → Result ByteBuffer
unfolding write_number
write_uint16 value b = if ltb (2 ^ 16 - 1) value then err out_of_range else write_number 2 value b

abbrev pub read_uint16 : ByteBuffer → Result (ℕ × ByteBuffer)
read_uint16 b = read_number 2 b

unfoldable pub write_uint32 : ℕ → ByteBuffer → Result ByteBuffer
unfolding write_number
write_uint32 value b = if ltb (2 ^ 32 - 1) value then err out_of_range else write_number 4 value b

abbrev pub read_uint32 : ByteBuffer → Result (ℕ × ByteBuffer)
read_uint32 b = read_number 4 b

unfoldable pub write_uint48 : ℕ → ByteBuffer → Result ByteBuffer
unfolding write_number
write_uint48 value b = if ltb (2 ^ 48 - 1) value then err out_of_range else write_number 6 value b

abbrev pub read_uint48 : ByteBuffer → Result (ℕ × ByteBuffer)
read_uint48 b = read_number 6 b

unfoldable pub write_uint64 : ℕ → ByteBuffer → Result ByteBuffer
unfolding write_number
write_uint64 value b = if ltb (2 ^ 64 - 1) value then err out_of_range else write_number 8 value b

abbrev pub read_uint64 : ByteBuffer → Result (ℕ × ByteBuffer)
read_uint64 b = read_number 8 b

unfoldable pub write_bytes : List ℕ → ByteBuffer → Result ByteBuffer
unfolding copy_bytes
write_bytes bytes b =
    if ltb (get_remainder_length b) (length bytes)
    then err write_over_boundary
    else ok (copy_bytes bytes b)

unfoldable pub read_bytes : ℕ → ByteBuffer → Result (List ℕ × ByteBuffer)
read_bytes size b =
    if ltb (get_remainder_length b) size
    then err read_over_boundary
    else ok (take size (get_remainder b), record b { offset = b.offset + size })

module _ (viem : Viem) where
  unfoldable pub write_uint256 : ℕ → ByteBuffer → Result ByteBuffer
  unfolding write_bytes
  write_uint256 value b =
      if ltb 32 (length (viem.to_bytes value))
      then err out_of_range
      else write_bytes (viem.pad_bytes (viem.to_bytes value)) b

  unfoldable pub read_uint256 : ByteBuffer → Result (ℕ × ByteBuffer)
  unfolding read_bytes
  read_uint256 b = do
    (bytes, rest) ← read_bytes 32 b
    ok (viem.bytes_to_big_int (viem.trim bytes), rest)

abbrev pub mark : ByteBuffer → ByteBuffer
mark b = record b { marker = b.offset }

abbrev pub reset : ByteBuffer → ByteBuffer
reset b = record b { offset = b.marker }

-- The argument of `skip`, which may be negative.
pub data Jump : Type 0 where
  forward back : ℕ → Jump

unfoldable pub skip : Jump → ByteBuffer → Result ByteBuffer
skip (forward n) b =
    if ltb (get_remainder_length b) n
    then err jump_over_boundary
    else ok (record b { offset = b.offset + n })
skip (back n) b =
    if ltb b.offset n then err jump_over_boundary else ok (record b { offset = b.offset - n })
