-- ===== src/Configuration/Tests.antt =====
-- A network of three validators, and of four from height 7 on.
use mainsail.Prelude.{
  ◌+◌, ◌≤◌, ◌<◌, ◌⊎◌, ℕ, ◌≡◌, refl, map, true, none, some, List, [], ◌∷◌, ◌==◌, if◌then◌else◌,
  arith,
}
use mainsail.Prelude.Outcome.{ok, err, bad_milestone, invalid_milestone}
use mainsail.Configuration.{
  Key, Milestone, Configuration, set_config, build_milestones, look_up_all, defined, set,
}
use mainsail.Configuration.Cursor.{latest}
use mainsail.Configuration.Built.{set_config-lookups}
use mainsail.Configuration.Rounds.{rounds_of}
use mainsail.Configuration.Ending.{get_validator_spans-IsEnded}
use mainsail.Configuration.Setting.{set-lookups}
use mainsail.Configuration.Composed.{set_config-rounds}
use mainsail.Rounds.{ValidatorSpan, RoundInfo, get_validator_spans, calculate_round}
use mainsail.Rounds.Spans.{Follows}

abbrev sets : ℕ → Key → ℕ → Milestone
sets height key value = record {
  height = height;
  values = λ other. if other == key then some value else none;
}

abbrev some_milestones : List Milestone
some_milestones = sets 1 0 3 ∷ sets 0 0 0 ∷ sets 4 1 9 ∷ sets 7 0 4 ∷ []

abbrev some_configuration : Configuration
some_configuration = record {
  milestones = build_milestones some_milestones;
  genesis_height = 0;
  height = 0;
  cursor = 1;
}

accepted : set_config (λ milestones. true) true 0 some_milestones ≡ ok some_configuration
unfolding set_config
accepted = refl

refused :
    set_config (λ milestones. true) true 0 (sets 0 0 0 ∷ sets 1 0 3 ∷ sets 6 0 4 ∷ [])
    ≡ err invalid_milestone
unfolding set_config
refused = refl

set_config-lookups_example :
    (build_milestones some_milestones ≡ build_milestones some_milestones)
    × (look_up_all (9 ∷ 0 ∷ 5 ∷ []) some_configuration
        ≡ map
            (λ height. defined (latest height (build_milestones some_milestones)))
            (9 ∷ 0 ∷ 5 ∷ []))
set_config-lookups_example =
    set_config-lookups (λ milestones. true) true 0 some_milestones some_configuration
      (9 ∷ 0 ∷ 5 ∷ []) accepted

abbrev small_milestones : List Milestone
small_milestones = sets 0 0 0 ∷ sets 1 0 3 ∷ sets 7 0 4 ∷ []

abbrev small_configuration : Configuration
small_configuration = record {
  milestones = small_milestones;
  genesis_height = 0;
  height = 0;
  cursor = 3;
}

-- A milestone that sets the same number again is where the check of the next change starts to count, but not
-- where the spans of rounds do.
abbrev repeated : List Milestone
repeated = sets 0 0 0 ∷ sets 1 0 5 ∷ sets 3 0 5 ∷ sets 8 0 7 ∷ []

abbrev repeated_configuration : Configuration
repeated_configuration = record {
  milestones = build_milestones repeated;
  genesis_height = 0;
  height = 0;
  cursor = 1;
}

repeated_accepted : set_config (λ milestones. true) true 0 repeated ≡ ok repeated_configuration
unfolding set_config
repeated_accepted = refl

repeated_broken : get_validator_spans (rounds_of repeated_configuration) 9 ≡ err bad_milestone
unfolding get_validator_spans build_milestones
repeated_broken = refl

get_validator_spans-IsEnded_example :
    ((spans : List ValidatorSpan) × (get_validator_spans (rounds_of small_configuration) 4
        ≡ ok spans))
    ⊎ (get_validator_spans (rounds_of small_configuration) 4 ≡ err bad_milestone)
get_validator_spans-IsEnded_example =
    get_validator_spans-IsEnded small_configuration 4 (omega arith)

-- The number of validators changes at height 7 and another value at 4, on a boundary of rounds too.
set_accepted :
    set (λ milestones. true) true (record some_configuration { height = 5; cursor = 2 })
    ≡ ok (record some_configuration {
      milestones = build_milestones (build_milestones some_milestones);
      height = 5;
    })
unfolding set build_milestones
set_accepted = refl

set-lookups_example :
    (build_milestones (build_milestones some_milestones) ≡ build_milestones some_milestones)
    × (◌≡◌ {A = ℕ} 5 5)
    × (look_up_all (9 ∷ 0 ∷ []) (record some_configuration {
      milestones = build_milestones (build_milestones some_milestones);
      height = 5;
    })
        ≡ look_up_all (9 ∷ 0 ∷ []) (record some_configuration { height = 5; cursor = 2 }))
unfolding build_milestones
set-lookups_example =
    set-lookups (λ milestones. true) (λ milestones. true) true 0 some_milestones some_configuration
      (record some_configuration {
        milestones = build_milestones (build_milestones some_milestones);
        height = 5;
      })
      5 2 (9 ∷ 0 ∷ []) accepted (omega arith) set_accepted

-- A milestone that only sets another value has the number of validators once it is merged, and building again
-- measures from there.
abbrev between : List Milestone
between = sets 0 0 0 ∷ sets 1 0 5 ∷ sets 3 1 9 ∷ sets 6 0 7 ∷ []

abbrev between_configuration : Configuration
between_configuration = record {
  milestones = build_milestones between;
  genesis_height = 0;
  height = 0;
  cursor = 1;
}

between_accepted : set_config (λ milestones. true) true 0 between ≡ ok between_configuration
unfolding set_config
between_accepted = refl

set_refused : set (λ milestones. true) true between_configuration ≡ err invalid_milestone
unfolding set build_milestones
set_refused = refl

-- The number changes at height 7, at the end of the second round.
set_config-rounds_example :
    (info : RoundInfo) × (next : RoundInfo) × (calculate_round (rounds_of some_configuration) 5 6
      ≡ ok info)
    × (calculate_round (rounds_of some_configuration) 5 (6 + 1) ≡ ok next)
    × Follows 6 info next
    × (info.round_height ≤ 6)
    × ((◌≡◌ {A = ℕ} 6 0) ⊎ (6 < info.round_height + info.max_validators))
set_config-rounds_example =
    set_config-rounds (λ milestones. true) true 0 some_milestones some_configuration 5 6 accepted
      (omega arith, refl, (omega arith, refl, tt)) (omega arith) (omega arith)
