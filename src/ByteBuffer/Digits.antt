-- ===== src/ByteBuffer/Digits.antt =====
-- Numbers and their bytes.
use mainsail.Prelude.{
  ℕ, zero, suc, ◌+◌, ◌*◌, ◌/◌, ◌%◌, ◌^◌, ◌<◌, ◌≡◌, refl, ap, List, [], ◌∷◌, length, All, arith,
}
use native.Mathlib.Nat.{pow-succ'}
use mainsail.ByteBuffer.{to_little_endian, from_little_endian}

pub length-to_little_endian : (size value : ℕ) → length (to_little_endian size value) ≡ size
length-to_little_endian zero value = refl
length-to_little_endian (suc size) value = omega (arith, length-to_little_endian size (value / 256))

next_power : (n : ℕ) → 256 ^ suc n ≡ 256 * 256 ^ n
next_power n = omega (arith, pow-succ' 256 n)

-- A number that fits is read back.
pub from_little_endian-to_little_endian :
    (size value : ℕ) → value < 256 ^ size → from_little_endian (to_little_endian size value) ≡ value
from_little_endian-to_little_endian zero value h = omega arith
from_little_endian-to_little_endian (suc size) value h = omega (
  arith,
  next_power size,
  h,
  from_little_endian-to_little_endian size (value / 256) (omega (arith, next_power size)),
)

-- Bytes are the bytes of the number that they give.
pub to_little_endian-from_little_endian :
    (bytes : List ℕ)
    → All (λ byte. byte < 256) bytes
    → to_little_endian (length bytes) (from_little_endian bytes) ≡ bytes
to_little_endian-from_little_endian [] h = refl
to_little_endian-from_little_endian (byte ∷ bytes) h =
    let low : (byte + 256 * from_little_endian bytes) % 256 ≡ byte = omega (arith, h.0) in
    let high : (byte + 256 * from_little_endian bytes) / 256 ≡ from_little_endian bytes =
      omega (arith, h.0) in
    rw (low, high) (ap (λ rest. byte ∷ rest) (to_little_endian-from_little_endian bytes h.1))

pub from_little_endian-lt :
    (bytes : List ℕ)
    → All (λ byte. byte < 256) bytes
    → from_little_endian bytes < 256 ^ length bytes
from_little_endian-lt [] h = omega arith
from_little_endian-lt (byte ∷ bytes) h =
    omega (arith, next_power (length bytes), from_little_endian-lt bytes h.1)
