-- ===== src/ValidatorSet/Laws.antt =====
-- The packed number holds the flags of the validators as its binary digits.
use mainsail.Prelude.{
  ℕ, zero, suc, ◌+◌, ◌*◌, ◌/◌, ◌%◌, ◌^◌, ◌≤◌, ◌<◌, ◌==◌, ==-refl, ltb, ltb→lt, ◌⊎◌, ◌≡◌, refl, sym,
  ap, ◌∙◌, Bool, true, false, List, [], ◌∷◌, length, arith, Bool-cases, inl, inr,
}
use native.Mathlib.Nat.{pow-succ', le-div_iff_mul-le, div-eq_of_lt, div-div-eq-div-mul}
use mainsail.Prelude.Outcome.{ok, err, bits_beyond_validators}
use mainsail.ValidatorSet.{pack_entries, validator_set_pack, unpack_bits, validator_set_unpack}

-- The number whose binary digits are these, the lowest first.
abbrev from_bits : List Bool → ℕ
from_bits [] = 0
from_bits (true ∷ bits) = 1 + 2 * from_bits bits
from_bits (false ∷ bits) = 2 * from_bits bits

abbrev to_bits : ℕ → ℕ → List Bool
to_bits zero value = []
to_bits (suc count) value = (value % 2 == 1) ∷ to_bits count (value / 2)

double : (n : ℕ) → 2 ^ suc n ≡ 2 * 2 ^ n
double n = pow-succ' 2 n

from_bits-lt : (bits : List Bool) → from_bits bits < 2 ^ length bits
from_bits-lt [] = omega arith
from_bits-lt (true ∷ bits) = omega (arith, from_bits-lt bits, double (length bits))
from_bits-lt (false ∷ bits) = omega (arith, from_bits-lt bits, double (length bits))

pack_entries_lem :
    (index : ℕ) (elements : List Bool) (packed : ℕ)
    → pack_entries index elements packed ≡ packed + 2 ^ index * from_bits elements
pack_entries_lem index [] packed = grind arith
pack_entries_lem index (true ∷ elements) packed =
    let later : pack_entries (suc index) elements (packed + 2 ^ index)
        ≡ packed + 2 ^ index + 2 * 2 ^ index * from_bits elements =
      rw (sym (double index)) (pack_entries_lem (suc index) elements (packed + 2 ^ index)) in
    later ∙ grind arith
pack_entries_lem index (false ∷ elements) packed =
    let later : pack_entries (suc index) elements packed
        ≡ packed + 2 * 2 ^ index * from_bits elements =
      rw (sym (double index)) (pack_entries_lem (suc index) elements packed) in
    later ∙ grind arith

halves : (value mask : ℕ) → 0 < mask → value / mask / 2 ≡ value / (mask * 2)
halves value mask h = div-div-eq-div-mul value mask 2

unpack_bits_lem :
    (count mask packed : ℕ)
    → 0 < mask
    → unpack_bits count mask packed ≡ to_bits count (packed / mask)
unpack_bits_lem zero mask packed h = refl
unpack_bits_lem (suc count) mask packed h = rw (halves packed mask h) (
    ap (λ rest. ((packed / mask) % 2 == 1) ∷ rest)
      (unpack_bits_lem count (mask * 2) packed (omega arith)))

to_bits-from_bits : (bits : List Bool) → to_bits (length bits) (from_bits bits) ≡ bits
to_bits-from_bits [] = refl
to_bits-from_bits (true ∷ bits) =
    let low : ((1 + 2 * from_bits bits) % 2 == 1) ≡ true = ground arith in
    let high : (1 + 2 * from_bits bits) / 2 ≡ from_bits bits = omega arith in
    rw (low, high) (ap (λ rest. true ∷ rest) (to_bits-from_bits bits))
to_bits-from_bits (false ∷ bits) =
    let low : (2 * from_bits bits % 2 == 1) ≡ false = ground arith in
    let high : 2 * from_bits bits / 2 ≡ from_bits bits = omega arith in
    rw (low, high) (ap (λ rest. false ∷ rest) (to_bits-from_bits bits))

from_bits-cons :
    (bit : Bool) (bits : List Bool) (value : ℕ)
    → (value % 2 == 1) ≡ bit
    → from_bits bits ≡ value / 2
    → from_bits (bit ∷ bits) ≡ value
from_bits-cons true bits value low high = grind arith
from_bits-cons false bits value low high = grind arith

from_bits-to_bits : (count value : ℕ) → value < 2 ^ count → from_bits (to_bits count value) ≡ value
from_bits-to_bits zero value h = omega arith
from_bits-to_bits (suc count) value h =
    from_bits-cons (value % 2 == 1) (to_bits count (value / 2)) value refl
      (from_bits-to_bits count (value / 2) (omega (arith, h, double count)))

length-to_bits : (count value : ℕ) → length (to_bits count value) ≡ count
length-to_bits zero value = refl
length-to_bits (suc count) value = omega (arith, length-to_bits count (value / 2))

pub validator_set_pack_lem : (set : List Bool) → validator_set_pack set ≡ from_bits set
unfolding validator_set_pack
validator_set_pack_lem set = pack_entries_lem 0 set 0 ∙ omega arith

unpack_lem : (packed count : ℕ) → unpack_bits count 1 packed ≡ to_bits count packed
unpack_lem packed count =
    unpack_bits_lem count 1 packed (omega arith) ∙ ap (to_bits count) (omega arith)

power_positive : (n : ℕ) → 0 < 2 ^ n
power_positive zero = omega arith
power_positive (suc n) = omega (arith, power_positive n, double n)

none_beyond : (packed count : ℕ) → packed < 2 ^ count → (packed / 2 ^ count == 0) ≡ true
none_beyond packed count h = ==-refl (packed / 2 ^ count) 0 (div-eq_of_lt h)

some_beyond : (packed count : ℕ) → 2 ^ count ≤ packed → (packed / 2 ^ count == 0) ≡ false
some_beyond packed count h =
    let beyond : 1 ≤ packed / 2 ^ count =
      (le-div_iff_mul-le (power_positive count)).1 (omega (arith, h)) in
    ground (arith, beyond)

pub validator_set_pack-lt : (set : List Bool) → validator_set_pack set < 2 ^ length set
validator_set_pack-lt set = rw (validator_set_pack_lem set) (from_bits-lt set)

-- A number whose set bits stand for validators is unpacked into flags that pack into it.
pub validator_set_unpack_lem :
    (packed count : ℕ)
    → packed < 2 ^ count
    → validator_set_unpack packed count ≡ ok (to_bits count packed)
unfolding validator_set_unpack
validator_set_unpack_lem packed count h =
    rw (none_beyond packed count h) (ap ok (unpack_lem packed count))

-- Packed flags are unpacked into themselves.
pub unpack-pack :
    (set : List Bool) → validator_set_unpack (validator_set_pack set) (length set) ≡ ok set
unpack-pack set =
    validator_set_unpack_lem (validator_set_pack set) (length set) (validator_set_pack-lt set)
    ∙ ap (λ packed. ok (to_bits (length set) packed)) (validator_set_pack_lem set)
    ∙ ap ok (to_bits-from_bits set)

validator_set_unpack-err :
    (packed count : ℕ)
    → 2 ^ count ≤ packed
    → validator_set_unpack packed count ≡ err bits_beyond_validators
unfolding validator_set_unpack
validator_set_unpack-err packed count h = rw (some_beyond packed count h) refl

pack-to_bits :
    (packed count : ℕ) → packed < 2 ^ count → validator_set_pack (to_bits count packed) ≡ packed
pack-to_bits packed count h =
    validator_set_pack_lem (to_bits count packed) ∙ from_bits-to_bits count packed h

-- A number is unpacked exactly if all of its set bits stand for validators. The flags are then one for each
-- validator, and they pack into that number. Any other number is refused with the error for such bits.
pub unpack-cases :
    (packed count : ℕ)
    → ((set : List Bool) × (validator_set_unpack packed count ≡ ok set)
        × (validator_set_pack set ≡ packed)
        × (length set ≡ count)
        × (packed < 2 ^ count))
      ⊎ ((validator_set_unpack packed count ≡ err bits_beyond_validators) × (2 ^ count ≤ packed))
unpack-cases packed count = elim (Bool-cases (ltb packed (2 ^ count))) [
  | inl small ↦
      let h : packed < 2 ^ count = ltb→lt packed (2 ^ count) small in
      inl (
        to_bits count packed,
        validator_set_unpack_lem packed count h,
        pack-to_bits packed count h,
        length-to_bits count packed,
        h,
      )
  | inr large ↦
      let h : 2 ^ count ≤ packed = ground arith in inr (validator_set_unpack-err packed count h, h)
]
