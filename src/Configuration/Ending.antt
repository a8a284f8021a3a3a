-- ===== src/Configuration/Ending.antt =====
-- The calculation of rounds in a configuration comes to an end.
use mainsail.Prelude.{
  ℕ, zero, suc, ◌+◌, ◌-◌, ◌/◌, ◌<◌, ◌≤◌, ◌≡◌, ◌⊎◌, refl, sym, subst, Bool-cases, inl, inr, find,
  Option, none, some, List, [], ◌∷◌, arith, some_eq, absurd_option, Option-cases, ltb, length,
  if◌then◌else◌,
}
use mainsail.Prelude.Outcome.{Result, ok, err, bad_milestone}
use mainsail.Configuration.{Milestone, Configuration, Key, round_validators_key}
use mainsail.Configuration.Changes.{wanted}
use mainsail.Configuration.Cursor.{latest}
use mainsail.Configuration.Rounds.{rounds_of, next_of}
use mainsail.Rounds.{ValidatorSpan, collect_spans, get_validator_spans, divides}

-- How many milestones are later than a height.
abbrev count_above : ℕ → List Milestone → ℕ
count_above height [] = 0
count_above height (milestone ∷ milestones) =
    (if ltb height milestone.height then 1 else 0) + count_above height milestones

count_above-le :
    (height later : ℕ) (milestones : List Milestone)
    → height ≤ later
    → count_above later milestones ≤ count_above height milestones
count_above-le height later [] h = omega arith
count_above-le height later (milestone ∷ milestones) h =
    ground (arith, count_above-le height later milestones h)

count_above-length :
    (height : ℕ) (milestones : List Milestone) → count_above height milestones ≤ length milestones
count_above-length height [] = omega arith
count_above-length height (milestone ∷ milestones) =
    ground (arith, count_above-length height milestones)

-- A milestone that is found is no longer later than itself.
find-count_above :
    (height : ℕ) (key : Key) (current : Milestone) (milestones : List Milestone)
    (milestone : Milestone)
    → find (wanted height key current) milestones ≡ some milestone
    → (height < milestone.height)
      × (count_above milestone.height milestones < count_above height milestones)
find-count_above height key current [] milestone h = absurd (absurd_option (sym h))
find-count_above height key current (other ∷ others) milestone h =
    elim (Bool-cases (wanted height key current other)) [
      | inl holds ↦
          let later : height < other.height = ground (arith, holds) in
          subst
            (λ found.
              (height < found.height)
              × (count_above found.height (other ∷ others) < count_above height (other ∷ others)))
            (some_eq (rw holds at h))
            (
              later,
              ground
                  (arith, later, count_above-le height other.height others (omega (arith, later))),
            )
      | inr fails ↦
          let (later, fewer) =
            find-count_above height key current others milestone (rw fails at h) in
          (later, ground (arith, later, fewer))
    ]

change_shrinks :
    (height : ℕ) (milestones : List Milestone) (current : Option Milestone) (change : ℕ × ℕ)
    → next_of height milestones current ≡ some change
    → count_above change.0 milestones < count_above height milestones
change_shrinks height milestones none change h = absurd (absurd_option (sym h))
change_shrinks height milestones (some current) change h =
    elim (Option-cases (find (wanted height round_validators_key current) milestones)) [
      | inl missing ↦ absurd (absurd_option (sym (rw missing at h)))
      | inr (milestone, found) ↦
          subst (λ pair. count_above pair.0 milestones < count_above height milestones)
            (some_eq (rw found at h))
            (find-count_above height round_validators_key current milestones milestone found).1
    ]

-- A result that is there, or the error of a change within a round.
abbrev pub IsEnded : Result (List ValidatorSpan) → Type 0
IsEnded result = ((spans : List ValidatorSpan) × (result ≡ ok spans)) ⊎ (result ≡ err bad_milestone)

collect_spans-IsEnded :
    (configuration : Configuration) (fuel start_height start_round validators : ℕ)
    → count_above start_height configuration.milestones < fuel
    → IsEnded (collect_spans (rounds_of configuration) fuel start_height start_round validators)
unfolding collect_spans
collect_spans-IsEnded configuration zero start_height start_round validators h =
    absurd (omega (arith, h))
collect_spans-IsEnded configuration (suc fuel) start_height start_round validators h =
    let milestones = configuration.milestones in
    let current = latest start_height milestones in
    elim (Option-cases (next_of start_height milestones current)) [
      | inl last ↦ rw (last, collect_spans) (inl (_, refl))
      | inr (change, found) ↦
          let fewer = change_shrinks start_height milestones current change found in
          let rounds = (change.0 - start_height) / validators in
          elim (Bool-cases (divides validators (change.0 - start_height))) [
            | inr within ↦ rw (found, within, collect_spans) (inr refl)
            | inl whole ↦
                elim (collect_spans-IsEnded configuration fuel change.0 (start_round + rounds)
                  change.1 (omega (arith, fewer, h))) [
                    | inl (spans, collected) ↦
                        rw (found, whole, collected, collect_spans) (inl (_, refl))
                    | inr broken ↦ rw (found, whole, broken, collect_spans) (inr refl)
                  ]
          ]
    ]

-- With more fuel than a configuration has milestones, the spans of its numbers of validators are collected to the
-- end: the result is the list of spans or the error of a change of the number within a round.
pub get_validator_spans-IsEnded :
    (configuration : Configuration) (fuel : ℕ)
    → length configuration.milestones < fuel
    → IsEnded (get_validator_spans (rounds_of configuration) fuel)
unfolding get_validator_spans
get_validator_spans-IsEnded configuration fuel h =
    collect_spans-IsEnded configuration fuel (configuration.genesis_height + 1) 1 _ (
      omega
        (arith, h, count_above-length (configuration.genesis_height + 1) configuration.milestones))
