-- ===== src/Configuration.antt =====
-- packages/crypto-config/source/configuration.ts: the milestones of a network, and which of them holds at a
-- height. A milestone's values are found by the path of their name, so that merging two milestones deeply is
-- taking the value of the later one where it has one; arrays are one value. The validation of the merged
-- configuration by JSON schema is a parameter, and its other fields are left out.
pub mod Cursor
pub mod Changes
pub mod Built
pub mod Rounds
pub mod Validators
pub mod Spanned
pub mod Checked
pub mod Composed
pub mod Ending
pub mod Setting
mod Tests
use mainsail.Prelude.{
  ℕ, zero, suc, ◌+◌, ◌-◌, ◌%◌, ◌==◌, ltb, leb, ◌&&◌, ◌||◌, not, any, filter, same, is_some, drop,
  get_elem?, Bool, true, false, Option, none, some, List, [], ◌∷◌, if◌then◌else◌,
}
use mainsail.Prelude.Outcome.{
  Result, ok, err, ◌>>=◌, missing_milestone, invalid_milestone, no_round_validators,
  schema_violation,
}

abbrev pub Key : Type 0
Key = ℕ

abbrev pub round_validators_key : Key
round_validators_key = 0

pub record Milestone : Type 0 where
  pub height : ℕ
  pub values : Key → Option ℕ

-- The configuration once it is set. The cursor is the index of the current milestone, plus 1, so that it is 0
-- where the source has run below the first milestone.
pub record Configuration : Type 0 where
  pub milestones : List Milestone
  pub genesis_height : ℕ
  pub height : ℕ
  pub cursor : ℕ

-- `milestones.sort((a, b) => a.height - b.height)`, which keeps the order of equal heights.
abbrev pub insert : Milestone → List Milestone → List Milestone
insert milestone [] = milestone ∷ []
insert milestone (other ∷ others) =
    let later = insert milestone others in
    if leb milestone.height other.height then milestone ∷ other ∷ others else other ∷ later

abbrev pub sort : List Milestone → List Milestone
sort [] = []
sort (milestone ∷ milestones) = insert milestone (sort milestones)

abbrev pub or_else : Option ℕ → Option ℕ → Option ℕ
or_else none other = other
or_else (some value) other = some value

-- `deepmerge(destination, source)`.
abbrev pub deepmerge : Milestone → Milestone → Milestone
deepmerge destination source = record {
  height = source.height;
  values = λ key. or_else (source.values key) (destination.values key);
}

abbrev pub merge_from : Milestone → List Milestone → List Milestone
merge_from merged [] = []
merge_from merged (milestone ∷ milestones) =
    deepmerge merged milestone ∷ merge_from (deepmerge merged milestone) milestones

abbrev pub merge_all : List Milestone → List Milestone
merge_all [] = []
merge_all (milestone ∷ milestones) = milestone ∷ merge_from milestone milestones

unfoldable pub build_milestones : List Milestone → List Milestone
build_milestones milestones = merge_all (sort milestones)

abbrev pub round_validators : Milestone → Option ℕ
round_validators milestone = milestone.values round_validators_key

-- `(current.height - previous.height) % previous.roundValidators !== 0`, where a remainder by 0 is no number.
abbrev pub is_off_boundary : ℕ → ℕ → Bool
is_off_boundary zero heights = true
is_off_boundary (suc validators) heights = not (heights % suc validators == 0)

abbrev pub misplaced : Milestone → Milestone → Bool
misplaced previous current = elim (round_validators previous) [
  | none ↦ true
  | some validators ↦ is_off_boundary validators (current.height - previous.height)
]

-- The loop from index 2 on, with the milestone before.
abbrev pub check_boundaries : Milestone → List Milestone → Result (Unit {0})
check_boundaries previous [] = ok tt
check_boundaries previous (current ∷ milestones) =
    let rest = check_boundaries current milestones in
    if same (round_validators previous) (round_validators current)
    then rest
    else if misplaced previous current
    then err invalid_milestone
    else rest

abbrev pub is_empty_later : ℕ → Milestone → Bool
is_empty_later genesis_height milestone =
    ltb genesis_height milestone.height && same (round_validators milestone) (some 0)

-- What `#checkRoundValidators` asks of the first two milestones that set the number of validators.
abbrev pub check_first : ℕ → List Milestone → Result (Unit {0})
check_first genesis_height [] = err no_round_validators
check_first genesis_height (genesis ∷ milestones) =
    if not (genesis.height == genesis_height) || not (same (round_validators genesis) (some 0))
    then err no_round_validators
    else elim milestones [
      | [] ↦ err no_round_validators
      | first ∷ others ↦
          if not (first.height == genesis_height + 1)
          then err no_round_validators
          else check_boundaries first others
    ]

unfoldable pub check_round_validators : ℕ → List Milestone → Result (Unit {0})
check_round_validators genesis_height milestones =
    let setting = filter (λ milestone. is_some (round_validators milestone)) (sort milestones) in
    if any (is_empty_later genesis_height) setting
    then err no_round_validators
    else check_first genesis_height setting

abbrev pub verify_config : Bool → Result (Unit {0})
verify_config valid = if valid then ok tt else err schema_violation

-- `setConfig`, with the validation it asks for unless `verify` is false.
unfoldable pub set_config :
    (List Milestone → Bool) → Bool → ℕ → List Milestone → Result Configuration
unfolding check_round_validators build_milestones
set_config validate verify genesis_height milestones = do
  checked ← check_round_validators genesis_height milestones
  valid ← verify_config (not verify || validate (build_milestones milestones))
  ok (record {
    milestones = build_milestones milestones;
    genesis_height = genesis_height;
    height = genesis_height;
    cursor = 1;
  })

-- `set` of a field besides the milestones and the genesis block, which builds the configuration again from its own
-- milestones, merged as they are.
unfoldable pub set : (List Milestone → Bool) → Bool → Configuration → Result Configuration
unfolding check_round_validators build_milestones
set validate verify configuration = do
  checked ← check_round_validators configuration.genesis_height configuration.milestones
  valid ← verify_config (not verify || validate (build_milestones configuration.milestones))
  ok (record configuration { milestones = build_milestones configuration.milestones; cursor = 1 })

abbrev pub set_height : ℕ → Configuration → Configuration
set_height value configuration = record configuration { height = value }

-- The first loop of `getMilestone`, over the milestones behind the cursor.
abbrev pub go_forward : ℕ → List Milestone → ℕ → ℕ
go_forward height [] cursor = cursor
go_forward height (milestone ∷ milestones) cursor =
    let further = go_forward height milestones (suc cursor) in
    if leb milestone.height height then further else cursor

abbrev pub is_above : ℕ → Option Milestone → Bool
is_above height none = false
is_above height (some milestone) = ltb height milestone.height

-- The second loop; it leaves the list where every milestone is above the height.
abbrev pub go_back : ℕ → List Milestone → ℕ → ℕ
go_back height milestones zero = zero
go_back height milestones (suc index) =
    let further = go_back height milestones index in
    if is_above height (get_elem? milestones index) then further else suc index

-- `milestones[index]`, with an error where there is none.
abbrev pub milestone_before : ℕ → List Milestone → Option Milestone
milestone_before zero milestones = none
milestone_before (suc index) milestones = get_elem? milestones index

abbrev pub defined : Option Milestone → Result Milestone
defined none = err missing_milestone
defined (some milestone) = ok milestone

unfoldable pub get_milestone : ℕ → Configuration → Result Milestone × Configuration
get_milestone height configuration =
    let cursor = go_back height configuration.milestones (
      go_forward height (drop configuration.cursor configuration.milestones)
        configuration.cursor) in
    (
      defined (milestone_before cursor configuration.milestones),
      record configuration { cursor = cursor },
    )

-- Lookups one after another, each from where the last one left the cursor.
unfoldable pub look_up_all : List ℕ → Configuration → List (Result Milestone)
unfolding get_milestone
look_up_all [] configuration = []
look_up_all (height ∷ heights) configuration =
    (get_milestone height configuration).0
    ∷ look_up_all heights (get_milestone height configuration).1

unfoldable pub is_new_milestone : ℕ → Configuration → Bool
is_new_milestone height configuration =
    any (λ milestone. milestone.height == height) configuration.milestones

-- `milestone[key] && …`: neither undefined nor 0.
abbrev pub truthy : Option ℕ → Bool
truthy none = false
truthy (some zero) = false
truthy (some (suc value)) = true

-- The value and height of a milestone that the search looks for, given the milestone that holds.
abbrev pub changed : ℕ → Key → Milestone → Milestone → Bool
changed previous_height key milestone current =
    not (same (milestone.values key) (current.values key)) && ltb previous_height milestone.height

unfoldable pub search_new_key :
    ℕ → Key → List Milestone → Configuration → Result (Option Milestone) × Configuration
unfolding get_milestone
search_new_key previous_height key [] configuration = (ok none, configuration)
search_new_key previous_height key (milestone ∷ milestones) configuration =
    let looked_up = get_milestone previous_height configuration in
    let skipped = search_new_key previous_height key milestones configuration in
    let rest = search_new_key previous_height key milestones looked_up.1 in
    if truthy (milestone.values key)
    then elim looked_up.0 [
      | err e ↦ (err e, looked_up.1)
      | ok current ↦
          if changed previous_height key milestone current
          then (ok (some milestone), looked_up.1)
          else rest
    ]
    else skipped

-- `getNextMilestoneWithNewKey`.
unfoldable pub get_next_milestone_with_new_key :
    ℕ → Key → Configuration → Result (Option Milestone) × Configuration
unfolding search_new_key
get_next_milestone_with_new_key previous_height key configuration =
    search_new_key previous_height key configuration.milestones configuration
