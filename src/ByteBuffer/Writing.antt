-- ===== src/ByteBuffer/Writing.antt =====
-- What a write does: it puts bytes at the offset and moves the offset past them, or it throws because they
-- do not fit. Every operation that writes is compared with `copy_bytes` of what it should write.
use mainsail.Prelude.{
  ℕ, ◌+◌, ◌-◌, ◌^◌, ◌≤◌, ◌<◌, ◌≡◌, refl, sym, ap, ◌∙◌, Bool, true, false, if◌then◌else◌, List, ◌++◌,
  length, take, drop, length-append, length-take, length-drop, take-append, drop-append, drop-add,
  append_assoc, append-nil, append-take-drop, [], ltb, leb, arith,
}
use mainsail.Prelude.Outcome.{
  Result, ok, err, and_then, Error, buffer_range, write_over_boundary, out_of_range,
}
use mainsail.ByteBuffer.{
  ByteBuffer, copy_bytes, get_result, write_number, write_uint8, write_uint16, write_uint32,
  write_uint48, write_uint64, write_bytes, to_little_endian, Viem, write_uint256,
}
use mainsail.ByteBuffer.Digits.{length-to_little_endian}

-- The offset is in the buffer.
abbrev pub InBounds : ByteBuffer → Type 0
InBounds b = b.offset ≤ length b.buffer

module _ (bytes : List ℕ) (b : ByteBuffer) where
  length-written : InBounds b → length (take b.offset b.buffer ++ bytes) ≡ b.offset + length bytes
  length-written within =
      omega
        (arith, length-append (take b.offset b.buffer) bytes, length-take b.offset b.buffer within)

  length-whole :
      b.offset + length bytes ≤ length b.buffer
      → length (take b.offset b.buffer ++ bytes ++ drop (b.offset + length bytes) b.buffer)
        ≡ length b.buffer
  length-whole fits = omega (
    arith,
    fits,
    length-written (omega arith),
    length-append (take b.offset b.buffer ++ bytes) (drop (b.offset + length bytes) b.buffer),
    length-drop (b.offset + length bytes) b.buffer,
  )

  pub length-copied :
      b.offset + length bytes ≤ length b.buffer
      → length (copy_bytes bytes b).buffer ≡ length b.buffer
  unfolding copy_bytes
  length-copied fits = length-whole fits

  pub offset-copied : (copy_bytes bytes b).offset ≡ b.offset + length bytes
  unfolding copy_bytes
  offset-copied = refl

  pub marker-copied : (copy_bytes bytes b).marker ≡ b.marker
  unfolding copy_bytes
  marker-copied = refl

  pub get_result-copied : InBounds b → get_result (copy_bytes bytes b) ≡ get_result b ++ bytes
  unfolding copy_bytes
  get_result-copied within =
      take-append (b.offset + length bytes) (take b.offset b.buffer ++ bytes)
        (drop (b.offset + length bytes) b.buffer) (sym (length-written within))

  drop-copied :
      InBounds b
      → drop (b.offset + length bytes) (copy_bytes bytes b).buffer
        ≡ drop (b.offset + length bytes) b.buffer
  unfolding copy_bytes
  drop-copied within =
      drop-append (b.offset + length bytes) (take b.offset b.buffer ++ bytes)
        (drop (b.offset + length bytes) b.buffer) (sym (length-written within))

-- Two copies are one.
pub copied-copied :
    (xs ys : List ℕ) (b : ByteBuffer)
    → InBounds b
    → copy_bytes ys (copy_bytes xs b) ≡ copy_bytes (xs ++ ys) b
unfolding copy_bytes
copied-copied xs ys b within =
    let written : take (b.offset + length xs) (copy_bytes xs b).buffer
        ≡ take b.offset b.buffer ++ xs =
      get_result-copied xs b within in
    let kept : drop (b.offset + length xs + length ys) (copy_bytes xs b).buffer
        ≡ drop (b.offset + length xs + length ys) b.buffer =
      drop-add (b.offset + length xs) (length ys) (copy_bytes xs b).buffer
      ∙ ap (drop (length ys)) (drop-copied xs b within)
      ∙ sym (drop-add (b.offset + length xs) (length ys) b.buffer) in
    let whole : b.offset + length (xs ++ ys) ≡ b.offset + length xs + length ys =
      omega (arith, length-append xs ys) in
    let joined : take b.offset b.buffer ++ (xs ++ ys) ≡ take b.offset b.buffer ++ xs ++ ys =
      sym (append_assoc (take b.offset b.buffer) xs ys) in
    rw (written, kept, whole, joined) refl

copied-nil : (b : ByteBuffer) → copy_bytes [] b ≡ b
unfolding copy_bytes
copied-nil b =
    let still : b.offset + 0 ≡ b.offset = omega arith in
    rw (still, append-nil)
      (ap (λ bytes. record b { buffer = bytes }) (append-take-drop b.offset b.buffer))

-- The call put these bytes, or threw because they do not fit.
abbrev pub Writes : ByteBuffer → List ℕ → Result ByteBuffer → Type 0
Writes b bytes (ok written) =
    (b.offset + length bytes ≤ length b.buffer) × (written ≡ copy_bytes bytes b)
Writes b bytes (err e) = length b.buffer < b.offset + length bytes

module _ (xs ys : List ℕ) (b : ByteBuffer) (within : InBounds b) where
  Writes-copied :
      b.offset + length xs ≤ length b.buffer
      → (call : Result ByteBuffer) → Writes (copy_bytes xs b) ys call
      → Writes b (xs ++ ys) call
  Writes-copied fits (err e) h =
      omega (arith, h, length-copied xs b fits, offset-copied xs b, length-append xs ys)
  Writes-copied fits (ok written) h = (
    omega (arith, h.0, length-copied xs b fits, offset-copied xs b, length-append xs ys),
    h.1 ∙ copied-copied xs ys b within,
  )

  -- A write after a write puts the bytes of both.
  pub Writes-and_then :
      (next : ByteBuffer → Result ByteBuffer)
      → ((written : ByteBuffer) → InBounds written → Writes written ys (next written))
      → (call : Result ByteBuffer) → Writes b xs call
      → Writes b (xs ++ ys) (and_then next call)
  Writes-and_then next goes_on (err e) h = omega (arith, h, length-append xs ys)
  Writes-and_then next goes_on (ok written) h = rw h.1 (
      Writes-copied h.0 (next (copy_bytes xs b)) (
        goes_on (copy_bytes xs b) (omega (arith, h.0, length-copied xs b h.0, offset-copied xs b))))

pub Writes-nil : (b : ByteBuffer) → InBounds b → Writes b [] (ok b)
Writes-nil b within = (omega (arith, within), sym (copied-nil b))

module _ (bytes : List ℕ) (b : ByteBuffer) (e : Error) where
  Writes-if_fits :
      (test : Bool)
      → (test ≡ true → b.offset + length bytes ≤ length b.buffer)
      → (test ≡ false → length b.buffer < b.offset + length bytes)
      → Writes b bytes (if test then ok (copy_bytes bytes b) else err e)
  Writes-if_fits true fits over = (fits refl, refl)
  Writes-if_fits false fits over = over refl

  Writes-if_over :
      (test : Bool)
      → (test ≡ true → length b.buffer < b.offset + length bytes)
      → (test ≡ false → b.offset + length bytes ≤ length b.buffer)
      → Writes b bytes (if test then err e else ok (copy_bytes bytes b))
  Writes-if_over true over fits = over refl
  Writes-if_over false over fits = (fits refl, refl)

pub write_number-Writes :
    (size value : ℕ) (b : ByteBuffer)
    → Writes b (to_little_endian size value) (write_number size value b)
unfolding write_number
write_number-Writes size value b =
    let count : length (to_little_endian size value) ≡ size = length-to_little_endian size value in
    Writes-if_fits (to_little_endian size value) b buffer_range
      (leb (b.offset + size) (length b.buffer)) (λ h. grind (arith, h, count))
      (λ h. grind (arith, h, count))

pub write_bytes-Writes :
    (bytes : List ℕ) (b : ByteBuffer) → InBounds b → Writes b bytes (write_bytes bytes b)
unfolding write_bytes
write_bytes-Writes bytes b within =
    Writes-if_over bytes b write_over_boundary (ltb (length b.buffer - b.offset) (length bytes))
      (λ h. grind (arith, h, within)) (λ h. grind (arith, h, within))

-- A number in its range is written in its width.
module _ (size value : ℕ) (b : ByteBuffer) where
  Writes-in_range :
      (test : Bool)
      → test ≡ false
      → Writes b
          (to_little_endian size value)
          (if test then err out_of_range else write_number size value b)
  Writes-in_range test e = rw e (write_number-Writes size value b)

module _ (value : ℕ) (b : ByteBuffer) where
  pub write_uint8-Writes : value < 2 ^ 8 → Writes b (to_little_endian 1 value) (write_uint8 value b)
  unfolding write_uint8
  write_uint8-Writes h = Writes-in_range 1 value b (ltb 255 value) (ground arith)

  pub write_uint16-Writes :
      value < 2 ^ 16 → Writes b (to_little_endian 2 value) (write_uint16 value b)
  unfolding write_uint16
  write_uint16-Writes h = Writes-in_range 2 value b (ltb (2 ^ 16 - 1) value) (ground arith)

  pub write_uint32-Writes :
      value < 2 ^ 32 → Writes b (to_little_endian 4 value) (write_uint32 value b)
  unfolding write_uint32
  write_uint32-Writes h = Writes-in_range 4 value b (ltb (2 ^ 32 - 1) value) (ground arith)

  pub write_uint48-Writes :
      value < 2 ^ 48 → Writes b (to_little_endian 6 value) (write_uint48 value b)
  unfolding write_uint48
  write_uint48-Writes h = Writes-in_range 6 value b (ltb (2 ^ 48 - 1) value) (ground arith)

  pub write_uint64-Writes :
      value < 2 ^ 64 → Writes b (to_little_endian 8 value) (write_uint64 value b)
  unfolding write_uint64
  write_uint64-Writes h = Writes-in_range 8 value b (ltb (2 ^ 64 - 1) value) (ground arith)

  pub write_uint256-Writes :
      (viem : Viem)
      → length (viem.to_bytes value) ≤ 32
      → InBounds b
      → Writes b (viem.pad_bytes (viem.to_bytes value)) (write_uint256 viem value b)
  unfolding write_uint256
  write_uint256-Writes viem h within =
      let fits : ltb 32 (length (viem.to_bytes value)) ≡ false = ground arith in
      rw fits (write_bytes-Writes (viem.pad_bytes (viem.to_bytes value)) b within)
