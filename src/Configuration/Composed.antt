-- ===== src/Configuration/Composed.antt =====
-- A configuration that was set, and the rounds of its blocks.
use mainsail.Prelude.{
  ℕ, ◌+◌, ◌≤◌, ◌<◌, ◌≡◌, ◌⊎◌, refl, sym, ap, ◌∙◌, subst, leb, Bool-cases, inl, inr, All, All-imp,
  any, filter, Bool, true, false, none, some, List, [], ◌∷◌, ◌||◌, not, arith, length,
}
use mainsail.Prelude.Outcome.{ok, ok-inj, not_ok, and_then-inv}
use mainsail.Configuration.{
  Milestone, Configuration, sort, merge_all, round_validators, build_milestones, is_empty_later,
  check_first, check_round_validators, set_config, verify_config,
}
use mainsail.Configuration.Cursor.{Sorted}
use mainsail.Configuration.Built.{sort-Sorted, length-sort}
use mainsail.Configuration.Rounds.{or_zero, rounds_of, rounds_of-Changes, truthy-positive}
use mainsail.Configuration.Validators.{sets_validators, current, next, ChangesAfter, current-above}
use mainsail.Configuration.Spanned.{
  Renews, AllRenew, validators_of-merge_all, next_of-merge_all, collect_spans-total,
}
use mainsail.Configuration.Checked.{
  truthy_later, any-false, All-filter_test, length-filter, SetsSome, Renews-ChangesAfter,
  current-some, Checked, check_first-Checked,
}
use mainsail.Rounds.{ValidatorSpan, RoundInfo, collect_spans, get_validator_spans, calculate_round}
use mainsail.Rounds.Spans.{Follows, calculate_round-Follows}

All-both {ℓ κ μ} :
    {A : Type ℓ} (P : A → Type κ) (Q : A → Type μ) (xs : List A)
    → All P xs
    → All Q xs
    → All (λ x. P x × Q x) xs
All-both P Q [] h k = tt
All-both P Q (x ∷ xs) h k = ((h.0, k.0), All-both P Q xs h.1 k.1)

Renews-above :
    (height : ℕ) (before : Milestone) (milestones : List Milestone)
    → height ≤ before.height
    → Renews before milestones
    → All (λ other. height < other.height) milestones
Renews-above height before [] le renews = tt
Renews-above height before (milestone ∷ milestones) le renews =
    let later : height < milestone.height = omega (arith, le, renews.0) in
    (later, Renews-above height milestone milestones (omega (arith, later)) renews.2)

-- The milestones that set a number, from the genesis block on.
module _ (genesis_height : ℕ) (genesis first : Milestone) (others : List Milestone)
    (at_genesis : genesis.height ≡ genesis_height) (at_first : first.height ≡ genesis_height + 1)
    (renews : Renews first others) (all : All (SetsSome genesis_height) (genesis ∷ first ∷ others))
    (height : ℕ) (started : genesis_height + 1 ≤ height) where
  after_genesis : leb genesis.height height ≡ true
  after_genesis = ground (arith, at_genesis, started)

  after_first : leb first.height height ≡ true
  after_first = ground (arith, at_first, started)

  holds : (value : ℕ) × (current height none (genesis ∷ first ∷ others) ≡ some value)
  holds =
      rw (after_genesis, after_first)
        (current-some height first others all.1.0.0 (All-imp (λ milestone h. h.0) others all.1.1))

  changes : ChangesAfter height none (genesis ∷ first ∷ others)
  changes =
      rw (after_genesis, after_first)
        (Renews-ChangesAfter genesis_height height first others (omega (arith, at_first)) renews
          all.1.1)

  next-first : next height (genesis ∷ first ∷ others) ≡ next height others
  next-first = rw (after_genesis, after_first) refl

first-current :
    (genesis_height : ℕ) (genesis first : Milestone) (others : List Milestone)
    → genesis.height ≡ genesis_height
    → first.height ≡ genesis_height + 1
    → Renews first others
    → All (SetsSome genesis_height) (genesis ∷ first ∷ others)
    → current (genesis_height + 1) none (genesis ∷ first ∷ others) ≡ round_validators first
first-current genesis_height genesis first others at_genesis at_first renews all =
    let start : ℕ = genesis_height + 1 in
    let le : start ≤ first.height = omega (arith, at_first) in
    rw
      (
        after_genesis genesis_height genesis first others at_genesis at_first renews all start
            (omega arith),
        after_first genesis_height genesis first others at_genesis at_first renews all start
            (omega arith),
      )
      (current-above start (round_validators first) others
        (Renews-above start first others le renews))

module _ (height cursor genesis_height : ℕ) (milestones : List Milestone) where
  abbrev merged : Configuration
  merged = record {
    milestones = merge_all milestones;
    genesis_height = genesis_height;
    height = height;
    cursor = cursor;
  }

  -- The spans of merged milestones are collected.
  spans_collected :
      (fuel : ℕ)
      → Sorted milestones
      → Checked genesis_height (filter sets_validators milestones)
      → AllRenew (filter sets_validators milestones)
      → All (SetsSome genesis_height) (filter sets_validators milestones)
      → length milestones < fuel
      → (0 < (rounds_of merged).round_validators (genesis_height + 1))
        × ((spans : List ValidatorSpan) × (get_validator_spans (rounds_of merged) fuel ≡ ok spans))
  unfolding get_validator_spans
  spans_collected fuel sorted checked renews all enough =
      let genesis = checked.genesis in
      let first = checked.first in
      let others = checked.others in
      let split = checked.split in
      let renews' : Renews first others = (subst AllRenew split renews).2 in
      let all' = subst (All (SetsSome genesis_height)) split all in
      let follows : (height : ℕ)
          → first.height ≤ height
          → (rounds_of merged).next_change height ≡ next height others =
        λ height reached.
          let started : genesis_height + 1 ≤ height = omega (arith, reached, checked.at_first) in
          let (value, some_there) =
            holds genesis_height genesis first others checked.at_genesis checked.at_first renews'
              all' height started in
          next_of-merge_all height value milestones sorted
            (subst (λ list. current height none list ≡ some value) (sym split) some_there)
            (subst (ChangesAfter height none) (sym split) (
              changes genesis_height genesis first others checked.at_genesis checked.at_first
                renews' all' height started))
          ∙ ap (next height) split
          ∙ next-first genesis_height genesis first others checked.at_genesis checked.at_first
              renews' all' height started in
      let validators : (rounds_of merged).round_validators (genesis_height + 1)
          ≡ or_zero (round_validators first) =
        validators_of-merge_all (genesis_height + 1) milestones sorted
        ∙ ap or_zero (
            ap (current (genesis_height + 1) none) split
            ∙ first-current genesis_height genesis first others checked.at_genesis checked.at_first
                renews' all') in
      let some_there : 0 < or_zero (round_validators first) =
        truthy-positive (round_validators first)
          (truthy_later genesis_height first (omega (arith, checked.at_first)) all'.1.0) in
      let (spans, collected) =
        collect_spans-total (rounds_of merged) first others fuel 1 follows renews'
          checked.on_boundaries
          (omega (arith, enough, length-filter sets_validators milestones, ap length split)) in
      (
        rw validators some_there,
        (
          spans,
          rw validators (
              subst
                (λ start.
                  collect_spans (rounds_of merged) fuel start 1 (or_zero (round_validators first))
                  ≡ ok spans)
                checked.at_first collected),
        ),
      )

-- In a configuration that was set, when each milestone that sets the number of validators is later than the one
-- before and sets another number: the round of every height from the genesis block on is calculated, with
-- more fuel than there are milestones. The genesis block is round 0 alone; any other height lies in its
-- round, which lasts as many heights as there are validators; and the next height has the round that was
-- announced for it, which is the same round or the one after, started by that height.
pub set_config-rounds :
    (validate : List Milestone → Bool) (verify : Bool) (genesis_height : ℕ)
    (milestones : List Milestone) (configuration : Configuration) (fuel height : ℕ)
    → set_config validate verify genesis_height milestones ≡ ok configuration
    → AllRenew (filter sets_validators (sort milestones))
    → length milestones < fuel
    → genesis_height ≤ height
    → (info : RoundInfo) × (next : RoundInfo) × (calculate_round
          (rounds_of configuration)
          fuel
          height
        ≡ ok info)
      × (calculate_round (rounds_of configuration) fuel (height + 1) ≡ ok next)
      × Follows height info next
      × (info.round_height ≤ height)
      × ((height ≡ genesis_height) ⊎ (height < info.round_height + info.max_validators))
unfolding set_config check_round_validators build_milestones
set_config-rounds validate verify genesis_height milestones configuration fuel height h renews
      enough reached =
    let sorted = sort milestones in
    let setting = filter sets_validators sorted in
    let (_, checked, h') = and_then-inv _ (check_round_validators genesis_height milestones) h in
    let (_, valid, h'') =
      and_then-inv _ (verify_config (not verify || validate (build_milestones milestones))) h' in
    elim (Bool-cases (any (is_empty_later genesis_height) setting)) [
      | inl empty ↦ absurd (not_ok (rw (empty, check_round_validators) at checked))
      | inr some_each ↦
          let first_checked : check_first genesis_height setting ≡ ok tt =
            rw (some_each, check_round_validators) at checked in
          let found = merged genesis_height 1 genesis_height sorted in
          let all =
            All-both (λ milestone. sets_validators milestone ≡ true)
              (λ milestone. is_empty_later genesis_height milestone ≡ false) setting
              (All-filter_test sets_validators sorted)
              (any-false (is_empty_later genesis_height) setting some_each) in
          let (positive, (spans, collected)) =
            spans_collected genesis_height 1 genesis_height sorted fuel (sort-Sorted milestones)
              (check_first-Checked genesis_height setting first_checked) renews all
              (omega (arith, enough, length-sort milestones)) in
          subst
            (λ set.
              (info : RoundInfo) × (next : RoundInfo) × (calculate_round (rounds_of set) fuel height
                ≡ ok info)
              × (calculate_round (rounds_of set) fuel (height + 1) ≡ ok next)
              × Follows height info next
              × (info.round_height ≤ height)
              × ((height ≡ genesis_height) ⊎ (height < info.round_height + info.max_validators)))
            (ok-inj h'')
            (calculate_round-Follows (rounds_of found) fuel height spans (rounds_of-Changes found)
              positive collected reached)
    ]
