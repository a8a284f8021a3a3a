-- ===== src/ValidatorSet.antt =====
-- packages/utils/source/validator-set-pack.ts: the validators that signed, as one number.
pub mod Laws
mod Tests
use mainsail.Prelude.{
  ℕ, zero, suc, ◌+◌, ◌*◌, ◌/◌, ◌%◌, ◌^◌, ◌==◌, Bool, true, false, List, [], ◌∷◌, if◌then◌else◌,
}
use mainsail.Prelude.Outcome.{Result, ok, err, bits_beyond_validators}

-- The loop over the entries, from this index on.
abbrev pub pack_entries : ℕ → List Bool → ℕ → ℕ
pack_entries index [] packed = packed
pack_entries index (true ∷ elements) packed = pack_entries (suc index) elements (packed + 2 ^ index)
pack_entries index (false ∷ elements) packed = pack_entries (suc index) elements packed

unfoldable pub validator_set_pack : List Bool → ℕ
validator_set_pack validator_set = pack_entries 0 validator_set 0

-- `packed & mask`, where the mask has one bit, is 0 unless that bit is set.
abbrev pub unpack_bits : ℕ → ℕ → ℕ → List Bool
unpack_bits zero mask packed = []
unpack_bits (suc count) mask packed =
    ((packed / mask) % 2 == 1) ∷ unpack_bits count (mask * 2) packed

-- `packed >> number_of_validators` is the quotient by that power of 2.
unfoldable pub validator_set_unpack : ℕ → ℕ → Result (List Bool)
validator_set_unpack packed number_of_validators =
    if packed / 2 ^ number_of_validators == 0
    then ok (unpack_bits number_of_validators 1 packed)
    else err bits_beyond_validators
