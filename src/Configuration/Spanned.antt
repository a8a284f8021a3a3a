-- ===== src/Configuration/Spanned.antt =====
-- The numbers of validators of a configuration that was set, as the calculation of rounds sees them.
use mainsail.Prelude.{
  ℕ, zero, suc, ◌+◌, ◌-◌, ◌/◌, ◌≤◌, ◌<◌, ◌≡◌, refl, sym, ap, ◌∙◌, subst, leb, Bool-cases, inl, inr,
  filter, same, true, false, Option, none, some, List, [], ◌∷◌, arith, length, Option-cases,
  absurd_option, absurd_test,
}
use std.Path.{fun_ext}
use mainsail.Prelude.Outcome.{ok, not_ok}
use mainsail.Configuration.{
  Milestone, merge_from, merge_all, or_else, round_validators, check_boundaries, misplaced,
  is_off_boundary,
}
use mainsail.Configuration.Cursor.{Sorted, or_first, latest}
use mainsail.Configuration.Rounds.{or_zero, validators_of, next_of}
use mainsail.Configuration.Validators.{
  sets_validators, current, next, ChangesAfter, latest-merge_from, find-merge_from,
}
use mainsail.Rounds.{Milestones, ValidatorSpan, divides, collect_spans}

-- A milestone that sets nothing.
abbrev blank : Milestone
blank = record { height = 0; values = λ key. none }

or_else-none : (value : Option ℕ) → or_else value none ≡ value
or_else-none none = refl
or_else-none (some value) = refl

merge_from-blank :
    (milestones : List Milestone) → merge_from blank milestones ≡ merge_all milestones
merge_from-blank [] = refl
merge_from-blank (milestone ∷ milestones) =
    ap
      (λ values.
        let first : Milestone = record { height = milestone.height; values = values } in
        first ∷ merge_from first milestones)
      (fun_ext (λ key. or_else-none (milestone.values key)))

validators_of-or_first :
    (found : Option Milestone)
    → or_zero (round_validators (or_first found blank)) ≡ validators_of found
validators_of-or_first none = refl
validators_of-or_first (some milestone) = refl

pub validators_of-merge_all :
    (height : ℕ) (milestones : List Milestone)
    → Sorted milestones
    → validators_of (latest height (merge_all milestones))
      ≡ or_zero (current height none (filter sets_validators milestones))
validators_of-merge_all height milestones sorted =
    subst
      (λ list.
        validators_of (latest height list)
        ≡ or_zero (current height none (filter sets_validators milestones)))
      (merge_from-blank milestones)
      (sym (validators_of-or_first (latest height (merge_from blank milestones)))
        ∙ ap or_zero (latest-merge_from height blank milestones sorted))

next_of-merge_from :
    (height value : ℕ) (milestones : List Milestone)
    → Sorted milestones
    → current height none (filter sets_validators milestones) ≡ some value
    → ChangesAfter height none (filter sets_validators milestones)
    → next_of height (merge_from blank milestones) (latest height (merge_from blank milestones))
      ≡ next height (filter sets_validators milestones)
next_of-merge_from height value milestones sorted some_there changes =
    let holds = latest-merge_from height blank milestones sorted in
    elim (Option-cases (latest height (merge_from blank milestones))) [
      | inl missing ↦ absurd (absurd_option (sym some_there ∙ sym (rw missing at holds)))
      | inr (here, found) ↦
          rw found (find-merge_from height here blank milestones sorted (rw found at holds) changes)
    ]

pub next_of-merge_all :
    (height value : ℕ) (milestones : List Milestone)
    → Sorted milestones
    → current height none (filter sets_validators milestones) ≡ some value
    → ChangesAfter height none (filter sets_validators milestones)
    → next_of height (merge_all milestones) (latest height (merge_all milestones))
      ≡ next height (filter sets_validators milestones)
next_of-merge_all height value milestones sorted some_there changes =
    subst
      (λ list.
        next_of height list (latest height list) ≡ next height (filter sets_validators milestones))
      (merge_from-blank milestones)
      (next_of-merge_from height value milestones sorted some_there changes)

-- Each milestone that sets the number of validators is later than the one before, and sets another number.
abbrev pub Renews : Milestone → List Milestone → Type 0
Renews before [] = Unit {0}
Renews before (milestone ∷ milestones) =
    (before.height < milestone.height)
    × (same (round_validators before) (round_validators milestone) ≡ false)
    × Renews milestone milestones

abbrev pub AllRenew : List Milestone → Type 0
AllRenew [] = Unit {0}
AllRenew (milestone ∷ milestones) = Renews milestone milestones

off_boundary-divides :
    (validators heights : ℕ)
    → is_off_boundary validators heights ≡ false
    → divides validators heights ≡ true
off_boundary-divides zero heights h = absurd (absurd_test h)
off_boundary-divides (suc validators) heights h = ground (arith, h)

placed :
    (before milestone : Milestone)
    → misplaced before milestone ≡ false
    → divides (or_zero (round_validators before)) (milestone.height - before.height) ≡ true
placed before milestone h = elim (Option-cases (round_validators before)) [
  | inl unset ↦ absurd (absurd_test (rw (unset, misplaced) at h))
  | inr (validators, e) ↦
      rw e (
        off_boundary-divides validators (milestone.height - before.height) (rw (e, misplaced) at h))
]

-- What the check of one boundary leaves, when the number changes there.
check_boundaries-inv :
    (before milestone : Milestone) (milestones : List Milestone)
    → same (round_validators before) (round_validators milestone) ≡ false
    → check_boundaries before (milestone ∷ milestones) ≡ ok tt
    → (misplaced before milestone ≡ false) × (check_boundaries milestone milestones ≡ ok tt)
check_boundaries-inv before milestone milestones other h =
    elim (Bool-cases (misplaced before milestone)) [
      | inl wrong ↦ absurd (not_ok (rw (other, wrong) at h))
      | inr right ↦ (right, rw (other, right) at h)
    ]

-- The loop goes from one milestone that sets the number to the next.
module _ (configuration : Milestones) where
  pub collect_spans-total :
      (milestone : Milestone) (milestones : List Milestone) (fuel start_round : ℕ)
      → ((height : ℕ)
          → milestone.height ≤ height
          → configuration.next_change height ≡ next height milestones)
      → Renews milestone milestones
      → check_boundaries milestone milestones ≡ ok tt
      → length milestones < fuel
      → (spans : List ValidatorSpan) × (collect_spans configuration fuel milestone.height
            start_round
            (or_zero (round_validators milestone))
          ≡ ok spans)
  unfolding collect_spans
  collect_spans-total milestone milestones zero start_round follows renews checked enough =
      absurd (omega (arith, enough))
  collect_spans-total milestone [] (suc fuel) start_round follows renews checked enough = (
    record {
      start_height = milestone.height;
      end_height = none;
      start_round = start_round;
      round_validators = or_zero (round_validators milestone);
    }
        ∷ [],
    rw (follows milestone.height (omega arith), collect_spans) refl,
  )
  collect_spans-total milestone (later ∷ milestones) (suc fuel) start_round follows renews checked
        enough =
      let above : leb later.height milestone.height ≡ false = ground (arith, renews.0) in
      let change : configuration.next_change milestone.height
          ≡ some (later.height, or_zero (round_validators later)) =
        follows milestone.height (omega arith) ∙ rw above refl in
      let (right, rest_checked) =
        check_boundaries-inv milestone later milestones renews.1 checked in
      let whole = placed milestone later right in
      let rounds : ℕ = (later.height - milestone.height) / or_zero (round_validators milestone) in
      let (spans, collected) =
        collect_spans-total later milestones fuel (start_round + rounds)
          (λ height reached.
            let behind : leb later.height height ≡ true = ground (arith, reached) in
            follows height (omega (arith, reached, renews.0)) ∙ rw behind refl)
          renews.2 rest_checked (omega (arith, enough)) in
      (
        record {
          start_height = milestone.height;
          end_height = some (later.height - 1);
          start_round = start_round;
          round_validators = or_zero (round_validators milestone);
        }
            ∷ spans,
        rw (change, whole, collected, collect_spans) refl,
      )
