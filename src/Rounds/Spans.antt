-- ===== src/Rounds/Spans.antt =====
-- The spans follow each other, and the rounds of the heights in them go up one by one.
use mainsail.Prelude.{
  ℕ, zero, suc, ◌+◌, ◌-◌, ◌*◌, ◌/◌, ◌≤◌, ◌<◌, ◌==◌, ◌≡◌, ◌⊎◌, refl, sym, ◌∙◌, subst, true, false,
  Bool-cases, inl, inr, ==-eq, arith, ltb, leb, find, Option, none, some, List, [], ◌∷◌,
  Option-cases,
}
use mainsail.Prelude.Outcome.{ok, and_then-inv, ok-inj, not_ok}
use mainsail.Rounds.{
  Milestones, ValidatorSpan, RoundInfo, divides, is_span_of, round_info, collect_spans,
  get_validator_spans, calculate_round, get_validator_span,
}
use mainsail.Rounds.Steps.{quotient_step, divides_lem, exact_quotient, quotient-le, zero-quotient}

-- Spans from a height and a round on: each but the last has whole rounds, and the next one starts behind them.
pub data WellSpanned : ℕ → ℕ → List ValidatorSpan → Type 0 where
  last_span :
      (start_height start_round validators : ℕ)
      → 0 < validators
      → WellSpanned start_height start_round (
          record {
            start_height = start_height;
            end_height = none;
            start_round = start_round;
            round_validators = validators;
          }
          ∷ [])
  one_span :
      (start_height start_round validators rounds end : ℕ) (spans : List ValidatorSpan)
      → 0 < validators
      → start_height ≤ end
      → end + 1 ≡ start_height + validators * rounds
      → WellSpanned (end + 1) (start_round + rounds) spans
      → WellSpanned start_height start_round (
          record {
            start_height = start_height;
            end_height = some end;
            start_round = start_round;
            round_validators = validators;
          }
          ∷ spans)

-- The first span holds its first height.
pub first_found :
    (start_height start_round : ℕ) (spans : List ValidatorSpan)
    → WellSpanned start_height start_round spans
    → (span : ValidatorSpan) × (find (is_span_of start_height) spans ≡ some span)
      × (span.start_height ≡ start_height)
      × (span.start_round ≡ start_round)
      × (0 < span.round_validators)
first_found _ _ _ (last_span start_height start_round validators positive) =
    (_, refl, refl, refl, positive)
first_found _ _ _
      (one_span start_height start_round validators rounds end spans positive h whole rest) =
    let reached : leb start_height end ≡ true = ground (arith, h) in
    (
      record {
        start_height = start_height;
        end_height = some end;
        start_round = start_round;
        round_validators = validators;
      },
      rw reached refl,
      refl,
      refl,
      positive,
    )

-- What the information on a height says of the next height: its round, which is the same one, or the next one
-- and starts with that height.
pub record Follows (height : ℕ) (info next : RoundInfo) : Type 0 where
  pub announced : info.next_round ≡ next.round
  pub same_or_new :
      ((next.round ≡ info.round)
        × (next.round_height ≡ info.round_height)
        × (next.max_validators ≡ info.max_validators))
      ⊎ ((next.round ≡ info.round + 1) × (next.round_height ≡ height + 1))

first_height : (height validators : ℕ) → 0 < validators → (height - height) / validators ≡ 0
first_height height zero positive = absurd (omega (arith, positive))
first_height height (suc v) positive =
    let none_in : height - height ≡ 0 = omega arith in rw none_in (zero-quotient v)

module _ (start_height start_round v height : ℕ) (end end' : Option ℕ) where
  abbrev span : Option ℕ → ValidatorSpan
  span end = record {
    start_height = start_height;
    end_height = end;
    start_round = start_round;
    round_validators = suc v;
  }

  -- Two heights of one span.
  same_span :
      start_height ≤ height
      → Follows height (round_info height (span end)) (round_info (height + 1) (span end'))
  same_span h =
      let moved : height + 1 - start_height ≡ height - start_height + 1 = omega (arith, h) in
      rw moved (elim (Bool-cases (divides (suc v) (height - start_height + 1))) [
        | inl ends ↦
            let grows : (height - start_height + 1) / suc v ≡ (height - start_height) / suc v + 1 =
              quotient_step v (height - start_height) ∙ rw ends refl in
            let whole : height - start_height + 1 ≡ suc v * ((height - start_height + 1) / suc v) =
              (divides_lem (suc v) (height - start_height + 1) ends).1 in
            record {
              announced = rw ends (omega (arith, grows));
              same_or_new = inr (omega (arith, grows), grind (arith, whole, h));
            }
        | inr goes_on ↦
            let stays : (height - start_height + 1) / suc v ≡ (height - start_height) / suc v =
              quotient_step v (height - start_height) ∙ rw goes_on refl in
            record {
              announced = rw goes_on (omega (arith, stays));
              same_or_new = inl (omega (arith, stays), rw stays refl, refl);
            }
      ])

  -- The last height of a span, and the first of the next.
  next_span :
      (rounds : ℕ) (other : ValidatorSpan)
      → start_height ≤ height
      → height + 1 ≡ start_height + suc v * rounds
      → other.start_height ≡ height + 1
      → other.start_round ≡ start_round + rounds
      → 0 < other.round_validators
      → Follows height (round_info height (span end)) (round_info (height + 1) other)
  next_span rounds other h whole begins counts positive =
      let size : height - start_height + 1 ≡ suc v * rounds = omega (arith, h, whole) in
      let (ends, value) = exact_quotient v rounds (height - start_height) size in
      let first : (height + 1 - other.start_height) / other.round_validators ≡ 0 =
        rw begins (first_height (height + 1) other.round_validators positive) in
      record {
        announced = rw (ends, first) (omega (arith, value, counts));
        same_or_new =
            inr (rw first (omega (arith, value, counts)), rw first (omega (arith, begins)));
      }

  pub in_round :
      start_height ≤ height
      → ((round_info height (span end)).round_height ≤ height)
        × (height < (round_info height (span end)).round_height + suc v)
  in_round h =
      let (low, high) = quotient-le v (height - start_height) in
      (omega (arith, h, low), omega (arith, h, high))

-- A height from the first on lies in a span, its round is one of those that last as many heights as there are
-- validators, and the next height follows it.
pub consecutive :
    (start_height start_round height : ℕ) (spans : List ValidatorSpan)
    → WellSpanned start_height start_round spans
    → start_height ≤ height
    → (span : ValidatorSpan) × (next : ValidatorSpan) × (find (is_span_of height) spans ≡ some span)
      × (find (is_span_of (height + 1)) spans ≡ some next)
      × Follows height (round_info height span) (round_info (height + 1) next)
      × ((round_info height span).round_height ≤ height)
      × (height < (round_info height span).round_height + span.round_validators)
consecutive _ _ height _ (last_span start_height start_round zero positive) h =
    absurd (omega (arith, positive))
consecutive _ _ height _ (last_span start_height start_round (suc v) positive) h =
    let (low, high) = in_round start_height start_round v height none none h in
    (_, _, refl, refl, same_span start_height start_round v height none none h, low, high)
consecutive _ _ height _
      (one_span start_height start_round zero rounds end spans positive k whole rest) h =
    absurd (omega (arith, positive))
consecutive _ _ height _
      (one_span start_height start_round (suc v) rounds end spans positive k whole rest) h =
    let here : ValidatorSpan = record {
      start_height = start_height;
      end_height = some end;
      start_round = start_round;
      round_validators = suc v;
    } in
    let (low, high) = in_round start_height start_round v height (some end) (some end) h in
    elim (Bool-cases (leb height end)) [
      | inl reached ↦ elim (Bool-cases (leb (height + 1) end)) [
        | inl still ↦ (
          here,
          here,
          rw reached refl,
          rw still refl,
          same_span start_height start_round v height (some end) (some end) h,
          low,
          high,
        )
        | inr over ↦
            let border : end ≡ height = ground (arith, reached, over) in
            let (next, found, begins, counts, some_there) =
              first_found (end + 1) (start_round + rounds) spans rest in
            let begins' : next.start_height ≡ height + 1 = omega (arith, begins, border) in
            (
              here,
              next,
              rw reached refl,
              rw over (subst (λ n. find (is_span_of (n + 1)) spans ≡ some next) border found),
              next_span start_height start_round v height (some end) (some end) rounds next h
                  (omega (arith, whole, border)) begins' counts some_there,
              low,
              high,
            )
      ]
      | inr over ↦
          let over_next : leb (height + 1) end ≡ false = ground (arith, over) in
          let (span, next, found, found', follows, low', high') =
            consecutive (end + 1) (start_round + rounds) height spans rest (ground (arith, over)) in
          (span, next, rw over found, rw over_next found', follows, low', high')
    ]

module _ (configuration : Milestones) where
  -- What the configuration guarantees of a change of the number of validators: it is later, and to some.
  pub record Changes : Type 0 where
    pub later :
        (height : ℕ) (change : ℕ × ℕ)
        → configuration.next_change height ≡ some change
        → height < change.0
    pub positive :
        (height : ℕ) (change : ℕ × ℕ)
        → configuration.next_change height ≡ some change
        → 0 < change.1

  collect_spans-WellSpanned :
      (fuel start_height start_round validators : ℕ) (spans : List ValidatorSpan)
      → Changes
      → 0 < validators
      → collect_spans configuration fuel start_height start_round validators ≡ ok spans
      → WellSpanned start_height start_round spans
  unfolding collect_spans
  collect_spans-WellSpanned zero start_height start_round validators spans changes some_there h =
      absurd (not_ok h)
  collect_spans-WellSpanned (suc fuel) start_height start_round validators spans changes some_there
        h =
      elim (Option-cases (configuration.next_change start_height)) [
        | inl last ↦
            subst (WellSpanned start_height start_round) (ok-inj (rw (last, collect_spans) at h))
              (last_span start_height start_round validators some_there)
        | inr (change, changed) ↦
            let k = rw (changed, collect_spans) at h in
            elim (Bool-cases (divides validators (change.0 - start_height))) [
              | inr broken ↦ absurd (not_ok (rw broken at k))
              | inl whole ↦
                  let after : start_height < change.0 = changes.later start_height change changed in
                  let rounds : ℕ = (change.0 - start_height) / validators in
                  let product : change.0 - start_height ≡ validators * rounds =
                    (divides_lem validators (change.0 - start_height) whole).1 in
                  let (rest, collected, given) =
                    and_then-inv _
                      (collect_spans configuration fuel change.0 (start_round + rounds) change.1)
                      (rw whole at k) in
                  let end : change.0 - 1 + 1 ≡ change.0 = omega (arith, after) in
                  subst (WellSpanned start_height start_round) (ok-inj given) (
                    one_span start_height start_round validators rounds (change.0 - 1) rest
                      some_there (omega (arith, after)) (end ∙ omega (arith, after, product))
                      (subst (λ height. WellSpanned height (start_round + rounds) rest) (sym end)
                        (collect_spans-WellSpanned fuel change.0 (start_round + rounds) change.1
                          rest changes (changes.positive start_height change changed) collected)))
            ]
      ]

  -- In a configuration whose spans can be collected, where each change of the number of validators is later than
  -- what it changes and to some, the round of every height from the genesis block on can be calculated: the
  -- genesis block is round 0 alone; any other height lies in its round, which lasts as many heights as there
  -- are validators; and the next height has the round that was announced for it, which is the same round or the
  -- one after, started by that height.
  pub calculate_round-Follows :
      (fuel height : ℕ) (spans : List ValidatorSpan)
      → Changes
      → 0 < configuration.round_validators (configuration.genesis_height + 1)
      → get_validator_spans configuration fuel ≡ ok spans
      → configuration.genesis_height ≤ height
      → (info : RoundInfo) × (next : RoundInfo) × (calculate_round configuration fuel height
          ≡ ok info)
        × (calculate_round configuration fuel (height + 1) ≡ ok next)
        × Follows height info next
        × (info.round_height ≤ height)
        × ((height ≡ configuration.genesis_height)
            ⊎ (height < info.round_height + info.max_validators))
  unfolding get_validator_spans calculate_round get_validator_span
  calculate_round-Follows fuel height spans changes some_there collected h =
      let well : WellSpanned (configuration.genesis_height + 1) 1 spans =
        collect_spans-WellSpanned fuel (configuration.genesis_height + 1) 1
          (configuration.round_validators (configuration.genesis_height + 1)) spans changes
          some_there collected in
      let genesis : ℕ = configuration.genesis_height in
      let not_next : (height + 1 == genesis) ≡ false = ground (arith, h) in
      let not_below : ltb (height + 1) genesis ≡ false = ground (arith, h) in
      elim (Bool-cases (height == genesis)) [
        | inl first ↦
            let same : genesis ≡ height = sym (==-eq height genesis first) in
            let (span, found, begins, counts, some_in) = first_found (genesis + 1) 1 spans well in
            let starts : span.start_height ≡ height + 1 = omega (arith, begins, same) in
            let none_in : (height + 1 - span.start_height) / span.round_validators ≡ 0 =
              rw starts (first_height (height + 1) span.round_validators some_in) in
            (
              record { max_validators = 0; next_round = 1; round = 0; round_height = genesis },
              round_info (height + 1) span,
              rw first refl,
              rw
                  (
                    not_next,
                    not_below,
                    collected,
                    subst (λ n. find (is_span_of (n + 1)) spans ≡ some span) same found,
                  )
                  refl,
              record {
                announced = rw none_in (omega (arith, counts));
                same_or_new =
                    inr (rw none_in (omega (arith, counts)), rw none_in (omega (arith, starts)));
              },
              omega (arith, same),
              inl (sym same),
            )
        | inr later ↦
            let above : genesis + 1 ≤ height = ground (arith, later, h) in
            let fits : ltb height genesis ≡ false = ground (arith, above) in
            let (span, next, found, found', follows, low, high) =
              consecutive (genesis + 1) 1 height spans well above in
            (
              round_info height span,
              round_info (height + 1) next,
              rw (later, fits, collected, found) refl,
              rw (not_next, not_below, collected, found') refl,
              follows,
              low,
              inr high,
            )
      ]
