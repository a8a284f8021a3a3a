-- ===== src/Rounds/Proposer.antt =====
-- packages/blockchain-utils/source/proposer-calculator.ts: the validators propose in turn.
use mainsail.Prelude.{
  Bool-cases, inl, inr, ltb, ltb→lt, ◌-◌, ◌≤◌, ℕ, ◌+◌, ◌*◌, ◌/◌, ◌%◌, ◌<◌, ◌≡◌, ap, ◌∙◌, arith,
}
use native.Mathlib.Nat.{mod-lt, div-add-mod, mul-add-mod_self_left, mod-eq_of_lt}

unfoldable pub get_validator_index_from : ℕ → ℕ → ℕ → ℕ
get_validator_index_from round_validators total_round round =
    (total_round + round) % round_validators

-- `getValidatorIndex`, with the milestone's number of validators and the total round of the state.
unfoldable pub get_validator_index : ℕ → ℕ → ℕ → ℕ
unfolding get_validator_index_from
get_validator_index round_validators total_round round =
    get_validator_index_from round_validators total_round round

remainder : (v q r : ℕ) → r < v → (v * q + r) % v ≡ r
remainder v q r h = mul-add-mod_self_left v q r ∙ mod-eq_of_lt h

module _ (validators total_round index : ℕ) (valid : index < validators) where
  parts : validators * (total_round / validators) + total_round % validators ≡ total_round
  parts = div-add-mod total_round validators

  -- In as many rounds as there are validators, each validator has a turn.
  pub get_validator_index-turn :
      (round : ℕ) × (round < validators)
      × (get_validator_index validators total_round round ≡ index)
  unfolding get_validator_index get_validator_index_from
  get_validator_index-turn =
      let offset : total_round % validators < validators =
        mod-lt total_round (omega (arith, valid)) in
      elim (Bool-cases (ltb index (total_round % validators))) [
        | inr later ↦
            let reached : total_round % validators ≤ index = ground (arith, later) in
            let round : ℕ = index - total_round % validators in
            let sum : total_round + round ≡ validators * (total_round / validators) + index =
              omega (arith, parts, reached) in
            (
              round,
              omega (arith, valid),
              ap (λ n. n % validators) sum
                  ∙ remainder validators (total_round / validators) index valid,
            )
        | inl passed ↦
            let before : index < total_round % validators =
              ltb→lt index (total_round % validators) passed in
            let round : ℕ = index + validators - total_round % validators in
            let sum : total_round + round ≡ validators * (total_round / validators + 1) + index =
              grind (arith, parts, before, offset) in
            (
              round,
              omega (arith, before, offset),
              ap (λ n. n % validators) sum
                  ∙ remainder validators (total_round / validators + 1) index valid,
            )
      ]
