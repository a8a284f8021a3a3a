-- ===== src/Rounds.antt =====
-- packages/blockchain-utils/source/round-calculator.ts and proposer-calculator.ts: the round of validators that
-- a block belongs to, and the validator that proposes. The configuration is the record Milestones.
pub mod Steps
pub mod Spans
pub mod Proposer
mod Tests
use mainsail.Prelude.{
  ℕ, zero, suc, ◌+◌, ◌-◌, ◌*◌, ◌/◌, ◌%◌, ◌==◌, ltb, leb, find, Bool, true, false, Option, none,
  some, List, [], ◌∷◌, if◌then◌else◌,
}
use mainsail.Prelude.Outcome.{
  Result, ok, err, ◌>>=◌, fuel_exhausted, bad_milestone, height_below_genesis, span_undefined,
}

-- What the configuration answers: the height of the genesis block, the number of validators in the milestone of
-- a height, and the next milestone that changes this number, with its height.
pub record Milestones : Type 0 where
  pub genesis_height : ℕ
  pub round_validators : ℕ → ℕ
  pub next_change : ℕ → Option (ℕ × ℕ)

pub record ValidatorSpan : Type 0 where
  pub start_height : ℕ
  pub end_height : Option ℕ
  pub start_round : ℕ
  pub round_validators : ℕ

pub record RoundInfo : Type 0 where
  pub max_validators : ℕ
  pub next_round : ℕ
  pub round : ℕ
  pub round_height : ℕ

-- A remainder by 0 is no number in JavaScript, and not 0.
abbrev pub divides : ℕ → ℕ → Bool
divides zero height = false
divides (suc validators) height = height % suc validators == 0

-- `span.endHeight === undefined || height <= span.endHeight`.
abbrev pub reaches : ℕ → Option ℕ → Bool
reaches height none = true
reaches height (some end) = leb height end

abbrev pub is_span_of : ℕ → ValidatorSpan → Bool
is_span_of height span = reaches height span.end_height

abbrev pub found_span : Option ValidatorSpan → Result ValidatorSpan
found_span none = err span_undefined
found_span (some span) = ok span

-- The information on a height in a span. The configuration refuses milestones with no validators after the
-- genesis block, so nothing is divided by 0.
abbrev pub round_info : ℕ → ValidatorSpan → RoundInfo
round_info height span =
    let heights = height - span.start_height in
    let rounds = heights / span.round_validators in
    let round = span.start_round + rounds in
    record {
      max_validators = span.round_validators;
      next_round = if divides span.round_validators (heights + 1) then round + 1 else round;
      round = round;
      round_height = span.start_height + rounds * span.round_validators;
    }

module _ (configuration : Milestones) where
  -- The loop over the milestones that change the number of validators. The fuel bounds their number.
  unfoldable pub collect_spans : ℕ → ℕ → ℕ → ℕ → Result (List ValidatorSpan)
  collect_spans zero start_height start_round validators = err fuel_exhausted
  collect_spans (suc fuel) start_height start_round validators =
      elim (configuration.next_change start_height) [
        | none ↦ ok (
            record {
              start_height = start_height;
              end_height = none;
              start_round = start_round;
              round_validators = validators;
            }
            ∷ [])
        | some change ↦
            let rest =
              collect_spans fuel change.0 (start_round + (change.0 - start_height) / validators)
                change.1 in
            elim (divides validators (change.0 - start_height)) [
              | false ↦ err bad_milestone
              | true ↦ do
                spans ← rest
                ok (
                    record {
                      start_height = start_height;
                      end_height = some (change.0 - 1);
                      start_round = start_round;
                      round_validators = validators;
                    }
                    ∷ spans)
            ]
      ]

  unfoldable pub get_validator_spans : ℕ → Result (List ValidatorSpan)
  unfolding collect_spans
  get_validator_spans fuel =
      collect_spans fuel (configuration.genesis_height + 1) 1
        (configuration.round_validators (configuration.genesis_height + 1))

  unfoldable pub get_validator_span : ℕ → ℕ → Result ValidatorSpan
  unfolding get_validator_spans
  get_validator_span fuel height =
      if ltb height configuration.genesis_height
      then err height_below_genesis
      else do spans ← get_validator_spans fuel; found_span (find (is_span_of height) spans)

  unfoldable pub calculate_round : ℕ → ℕ → Result RoundInfo
  unfolding get_validator_span
  calculate_round fuel height =
      if height == configuration.genesis_height
      then ok (record {
        max_validators = 0;
        next_round = 1;
        round = 0;
        round_height = configuration.genesis_height;
      })
      else do span ← get_validator_span fuel height; ok (round_info height span)

  unfoldable pub is_new_round : ℕ → ℕ → Result Bool
  unfolding calculate_round
  is_new_round fuel height = do info ← calculate_round fuel height; ok (info.round_height == height)
