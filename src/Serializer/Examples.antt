-- ===== src/Serializer/Examples.antt =====
-- A version of viem's functions and of an address factory that has what the laws ask for.
use mainsail.Prelude.{
  Bool, true, ◌&&◌, ltb, ℕ, ◌<◌, ◌^◌, ◌≡◌, refl, sym, ap, ◌∙◌, subst, List, [], ◌∷◌, length, All,
  arith, length-append, All-append,
}
use mathlib.Core.List.{reverse, reverse-reverse, reverse-cons}
use mainsail.ByteBuffer.{Viem, to_little_endian, from_little_endian}
use mainsail.ByteBuffer.Digits.{
  length-to_little_endian, from_little_endian-to_little_endian, to_little_endian-from_little_endian,
  from_little_endian-lt,
}
use mainsail.ByteBuffer.Reading.{Byte}
use mainsail.Serializer.{AddressFactory}
use mainsail.Serializer.Encoding.{ViemLaws, AddressLaws}

length-reverse : (xs : List ℕ) → length (reverse xs) ≡ length xs
length-reverse [] = refl
length-reverse (x ∷ xs) =
    ap length (reverse-cons x xs)
    ∙ length-append (reverse xs) (x ∷ [])
    ∙ omega (arith, length-reverse xs)

All-reverse : (xs : List ℕ) → All Byte xs → All Byte (reverse xs)
All-reverse [] h = tt
All-reverse (x ∷ xs) h =
    subst (All Byte) (sym (reverse-cons x xs))
      (All-append Byte (reverse xs) (x ∷ []) (All-reverse xs h.1) (h.0, tt))

-- Big-endian numbers of 32 bytes, which padding and trimming leave as they are.
abbrev pub fixed_width : Viem
fixed_width = record {
  to_bytes = λ value. reverse (to_little_endian 32 value);
  pad_bytes = λ bytes. bytes;
  trim = λ bytes. bytes;
  bytes_to_big_int = λ bytes. from_little_endian (reverse bytes);
}

width : (value : ℕ) → length (reverse (to_little_endian 32 value)) ≡ 32
width value = length-reverse (to_little_endian 32 value) ∙ length-to_little_endian 32 value

pub fixed_width-ViemLaws : ViemLaws fixed_width
fixed_width-ViemLaws = record {
  length-to_bytes = λ value h. omega (arith, width value);
  length-pad_bytes = λ value h. width value;
  number_back = λ value h.
      ap from_little_endian (reverse-reverse (to_little_endian 32 value))
      ∙ from_little_endian-to_little_endian 32 value h;
  number-lt = λ bytes plain count.
      subst (λ size. from_little_endian (reverse bytes) < 256 ^ size) (length-reverse bytes ∙ count)
        (from_little_endian-lt (reverse bytes) (All-reverse bytes plain));
  bytes_back = λ bytes plain count.
      subst (λ size. reverse (to_little_endian size (from_little_endian (reverse bytes))) ≡ bytes)
        (length-reverse bytes ∙ count)
        (ap reverse (to_little_endian-from_little_endian (reverse bytes) (All-reverse bytes plain))
          ∙ reverse-reverse bytes);
}

abbrev pub plain_addresses : AddressFactory
plain_addresses = record { to_buffer = λ address. address; from_buffer = λ bytes. bytes }

pub plain_addresses-AddressLaws : AddressLaws plain_addresses
plain_addresses-AddressLaws = record { buffer_back = λ bytes count. refl }

abbrev all_bytes : List ℕ → Bool
all_bytes [] = true
all_bytes (byte ∷ bytes) = ltb byte 256 && all_bytes bytes

-- The bytes of an example are bytes by computation.
pub bytes_lem : (bytes : List ℕ) → all_bytes bytes ≡ true → All Byte bytes
bytes_lem [] h = tt
bytes_lem (byte ∷ bytes) h = (ground (arith, h), bytes_lem bytes (ground (arith, h)))
