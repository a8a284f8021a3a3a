-- ===== src/Configuration/Rounds.antt =====
-- The configuration as the calculation of rounds sees it.
use mainsail.Prelude.{
  find-true, ℕ, zero, suc, ◌<◌, ◌≡◌, sym, subst, inl, inr, find, true, Option, none, some, List,
  arith, some_eq, absurd_option, Option-cases,
}
use mainsail.Configuration.{
  Milestone, Configuration, round_validators, round_validators_key, truthy,
}
use mainsail.Configuration.Cursor.{latest}
use mainsail.Configuration.Changes.{wanted}
use mainsail.Rounds.{Milestones}
use mainsail.Rounds.Spans.{Changes}

-- A number of validators that is not set is no number.
abbrev pub or_zero : Option ℕ → ℕ
or_zero none = 0
or_zero (some value) = value

abbrev pub validators_of : Option Milestone → ℕ
validators_of none = 0
validators_of (some milestone) = or_zero (round_validators milestone)

abbrev pub change_of : Option Milestone → Option (ℕ × ℕ)
change_of none = none
change_of (some milestone) = some (milestone.height, or_zero (round_validators milestone))

abbrev pub next_of : ℕ → List Milestone → Option Milestone → Option (ℕ × ℕ)
next_of height milestones none = none
next_of height milestones (some current) =
    change_of (find (wanted height round_validators_key current) milestones)

-- The answers of `getMilestone` and `getNextMilestoneWithNewKey` for the number of validators.
abbrev pub rounds_of : Configuration → Milestones
rounds_of configuration = record {
  genesis_height = configuration.genesis_height;
  round_validators = λ height. validators_of (latest height configuration.milestones);
  next_change =
      λ height. next_of height configuration.milestones (latest height configuration.milestones);
}

pub truthy-positive : (value : Option ℕ) → truthy value ≡ true → 0 < or_zero value
truthy-positive none h = cc
truthy-positive (some zero) h = cc
truthy-positive (some (suc value)) h = omega arith

-- A change that is found is later, and to some validators.
found_change :
    (height : ℕ) (milestones : List Milestone) (current : Option Milestone) (change : ℕ × ℕ)
    → next_of height milestones current ≡ some change
    → (height < change.0) × (0 < change.1)
found_change height milestones none change h = absurd (absurd_option (sym h))
found_change height milestones (some current) change h =
    elim (Option-cases (find (wanted height round_validators_key current) milestones)) [
      | inl missing ↦ absurd (absurd_option (sym (rw missing at h)))
      | inr (milestone, found) ↦
          let test : wanted height round_validators_key current milestone ≡ true =
            find-true (wanted height round_validators_key current) milestones found in
          let same : ◌≡◌ {A = ℕ × ℕ} (milestone.height, or_zero (round_validators milestone))
              change =
            some_eq (rw found at h) in
          subst (λ pair. (height < pair.0) × (0 < pair.1)) same
            (
              ground (arith, test),
              truthy-positive (round_validators milestone) (ground (arith, test)),
            )
    ]

pub rounds_of-Changes : (configuration : Configuration) → Changes (rounds_of configuration)
rounds_of-Changes configuration = record {
  later = λ height change h.
      (found_change height configuration.milestones (latest height configuration.milestones) change
        h).0;
  positive = λ height change h.
      (found_change height configuration.milestones (latest height configuration.milestones) change
        h).1;
}
