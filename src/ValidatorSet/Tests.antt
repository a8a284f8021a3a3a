-- ===== src/ValidatorSet/Tests.antt =====
-- Three validators, of which the first and the last signed.
use mainsail.Prelude.{◌≤◌, ◌<◌, ◌^◌, ◌≡◌, ◌⊎◌, refl, Bool, true, false, List, [], ◌∷◌, length}
use mainsail.Prelude.Outcome.{ok, err, bits_beyond_validators}
use mainsail.ValidatorSet.{validator_set_pack, validator_set_unpack}
use mainsail.ValidatorSet.Laws.{unpack-pack, unpack-cases}

abbrev first_and_last : List Bool
first_and_last = true ∷ false ∷ true ∷ []

packed_five : validator_set_pack first_and_last ≡ 5
unfolding validator_set_pack
packed_five = refl

too_many : validator_set_unpack 8 3 ≡ err bits_beyond_validators
unfolding validator_set_unpack
too_many = refl

unpack-pack_example :
    validator_set_unpack (validator_set_pack first_and_last) (length first_and_last)
    ≡ ok first_and_last
unpack-pack_example = unpack-pack first_and_last

unpack-cases_example :
    ((set : List Bool) × (validator_set_unpack 5 3 ≡ ok set)
      × (validator_set_pack set ≡ 5)
      × (length set ≡ 3)
      × (5 < 2 ^ 3))
    ⊎ ((validator_set_unpack 5 3 ≡ err bits_beyond_validators) × (2 ^ 3 ≤ 5))
unpack-cases_example = unpack-cases 5 3
