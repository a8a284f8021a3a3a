-- ===== src/Rounds/Tests.antt =====
-- Rounds of three heights, and of four from height 7 on.
use mainsail.Prelude.{
  ℕ, ◌<◌, ◌≡◌, refl, true, Option, none, some, List, [], ◌∷◌, arith, ltb, if◌then◌else◌,
}
use mainsail.Prelude.Outcome.{ok}
use mainsail.Rounds.{Milestones, ValidatorSpan, get_validator_spans, is_new_round}
use mainsail.Rounds.Proposer.{get_validator_index, get_validator_index-turn}

abbrev next_seven : ℕ → Option (ℕ × ℕ)
next_seven height = if ltb height 7 then some (7, 4) else none

abbrev example_milestones : Milestones
example_milestones = record {
  genesis_height = 0;
  round_validators = λ height. (if ltb height 7 then 3 else 4);
  next_change = next_seven;
}

abbrev example_spans : List ValidatorSpan
example_spans =
    record { start_height = 1; end_height = some 6; start_round = 1; round_validators = 3 }
    ∷ record { start_height = 7; end_height = none; start_round = 3; round_validators = 4 }
    ∷ []

spans_collected : get_validator_spans example_milestones 5 ≡ ok example_spans
unfolding get_validator_spans
spans_collected = refl

seven_is_new : is_new_round example_milestones 5 7 ≡ ok true
unfolding is_new_round
seven_is_new = refl

get_validator_index-turn_example : (round : ℕ) × (round < 5) × (get_validator_index 5 13 round ≡ 1)
get_validator_index-turn_example = get_validator_index-turn 5 13 1 (omega arith)
