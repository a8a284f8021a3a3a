-- ===== src/Configuration/Built.antt =====
-- A configuration that is set has its milestones in order.
use mainsail.Prelude.{
  map, ℕ, suc, ◌≤◌, ◌<◌, ◌≡◌, refl, sym, ap, ◌∙◌, subst, leb, Bool-cases, inl, inr, length, All,
  All-imp, Bool, List, [], ◌∷◌, arith, ◌||◌, not,
}
use mainsail.Prelude.Outcome.{ok, ok-inj, and_then-inv, not_ok}
use mainsail.Configuration.{
  Milestone, Configuration, insert, sort, deepmerge, merge_from, merge_all, build_milestones,
  set_config, check_round_validators, verify_config, look_up_all, defined,
}
use mainsail.Configuration.Cursor.{Sorted, latest, get_milestone-latest}

All-insert :
    (bound : ℕ) (milestone : Milestone) (milestones : List Milestone)
    → bound ≤ milestone.height
    → All (λ other. bound ≤ other.height) milestones
    → All (λ other. bound ≤ other.height) (insert milestone milestones)
All-insert bound milestone [] h k = (h, tt)
All-insert bound milestone (other ∷ others) h k =
    elim (Bool-cases (leb milestone.height other.height)) [
      | inl before ↦ rw before (h, (k.0, k.1))
      | inr behind ↦ rw behind (k.0, All-insert bound milestone others h k.1)
    ]

insert-Sorted :
    (milestone : Milestone) (milestones : List Milestone)
    → Sorted milestones
    → Sorted (insert milestone milestones)
insert-Sorted milestone [] h = (tt, tt)
insert-Sorted milestone (other ∷ others) h = elim (Bool-cases (leb milestone.height other.height)) [
  | inl before ↦
      let le : milestone.height ≤ other.height = ground (arith, before) in
      rw before ((le, All-imp (λ later above. omega (arith, le, above)) others h.0), (h.0, h.1))
  | inr behind ↦ rw behind (
    All-insert other.height milestone others (ground (arith, behind)) h.0,
    insert-Sorted milestone others h.1,
  )
]

pub sort-Sorted : (milestones : List Milestone) → Sorted (sort milestones)
sort-Sorted [] = tt
sort-Sorted (milestone ∷ milestones) =
    insert-Sorted milestone (sort milestones) (sort-Sorted milestones)

pub All-merge_from :
    (bound : ℕ) (merged : Milestone) (milestones : List Milestone)
    → All (λ other. bound ≤ other.height) milestones
    → All (λ other. bound ≤ other.height) (merge_from merged milestones)
All-merge_from bound merged [] h = tt
All-merge_from bound merged (milestone ∷ milestones) h =
    (h.0, All-merge_from bound (deepmerge merged milestone) milestones h.1)

merge_from-Sorted :
    (merged : Milestone) (milestones : List Milestone)
    → Sorted milestones
    → Sorted (merge_from merged milestones)
merge_from-Sorted merged [] h = tt
merge_from-Sorted merged (milestone ∷ milestones) h = (
  All-merge_from milestone.height (deepmerge merged milestone) milestones h.0,
  merge_from-Sorted (deepmerge merged milestone) milestones h.1,
)

pub merge_all-Sorted :
    (milestones : List Milestone) → Sorted milestones → Sorted (merge_all milestones)
merge_all-Sorted [] h = tt
merge_all-Sorted (milestone ∷ milestones) h = (
  All-merge_from milestone.height milestone milestones h.0,
  merge_from-Sorted milestone milestones h.1,
)

pub build_milestones-Sorted : (milestones : List Milestone) → Sorted (build_milestones milestones)
unfolding build_milestones
build_milestones-Sorted milestones = merge_all-Sorted (sort milestones) (sort-Sorted milestones)

length-insert :
    (milestone : Milestone) (milestones : List Milestone)
    → length (insert milestone milestones) ≡ suc (length milestones)
length-insert milestone [] = refl
length-insert milestone (other ∷ others) = elim (Bool-cases (leb milestone.height other.height)) [
  | inl before ↦ rw before refl
  | inr behind ↦ rw behind (ap suc (length-insert milestone others))
]

pub length-sort : (milestones : List Milestone) → length (sort milestones) ≡ length milestones
length-sort [] = refl
length-sort (milestone ∷ milestones) =
    length-insert milestone (sort milestones) ∙ ap suc (length-sort milestones)

length-merge_from :
    (merged : Milestone) (milestones : List Milestone)
    → length (merge_from merged milestones) ≡ length milestones
length-merge_from merged [] = refl
length-merge_from merged (milestone ∷ milestones) =
    ap suc (length-merge_from (deepmerge merged milestone) milestones)

length-merge_all : (milestones : List Milestone) → length (merge_all milestones) ≡ length milestones
length-merge_all [] = refl
length-merge_all (milestone ∷ milestones) = ap suc (length-merge_from milestone milestones)

pub length-build_milestones :
    (milestones : List Milestone) → length (build_milestones milestones) ≡ length milestones
unfolding build_milestones
length-build_milestones milestones = length-merge_all (sort milestones) ∙ length-sort milestones

pub some_checked :
    (genesis_height : ℕ) (milestones : List Milestone)
    → check_round_validators genesis_height milestones ≡ ok tt
    → 0 < length milestones
unfolding check_round_validators
some_checked genesis_height [] h = absurd (not_ok h)
some_checked genesis_height (milestone ∷ milestones) h = omega arith

-- The cursor of a configuration that is set stands in its milestones, which are in order; there is one, since the
-- check of the numbers of validators refuses a configuration with none.
pub set_config-Sorted :
    (validate : List Milestone → Bool) (verify : Bool) (genesis_height : ℕ)
    (milestones : List Milestone) (configuration : Configuration)
    → set_config validate verify genesis_height milestones ≡ ok configuration
    → Sorted configuration.milestones × (configuration.cursor ≤ length configuration.milestones)
unfolding set_config
set_config-Sorted validate verify genesis_height milestones configuration h =
    let (_, checked, h) = and_then-inv _ (check_round_validators genesis_height milestones) h in
    let (_, valid, h) =
      and_then-inv _ (verify_config (not verify || validate (build_milestones milestones))) h in
    subst (λ set. Sorted set.milestones × (set.cursor ≤ length set.milestones)) (ok-inj h)
      (
        build_milestones-Sorted milestones,
        omega (
          arith,
          length-build_milestones milestones,
          some_checked genesis_height milestones checked,
        ),
      )

pub look_up_all-latest :
    (heights : List ℕ) (configuration : Configuration)
    → Sorted configuration.milestones
    → configuration.cursor ≤ length configuration.milestones
    → look_up_all heights configuration
      ≡ map (λ height. defined (latest height configuration.milestones)) heights
unfolding look_up_all
look_up_all-latest [] configuration sorted within = refl
look_up_all-latest (height ∷ heights) configuration sorted within =
    let (found, (cursor, moved, inside)) =
      get_milestone-latest height configuration sorted within in
    rw (found, moved)
      (ap (λ rest. defined (latest height configuration.milestones) ∷ rest)
        (look_up_all-latest heights (record configuration { cursor = cursor }) sorted inside))

-- In a configuration that was set, whatever heights are looked up one after another, each lookup finds the last
-- of the merged milestones whose height is reached, and throws if there is none: the cursor, which lookups
-- share, never changes what one of them finds.
pub set_config-lookups :
    (validate : List Milestone → Bool) (verify : Bool) (genesis_height : ℕ)
    (milestones : List Milestone) (configuration : Configuration) (heights : List ℕ)
    → set_config validate verify genesis_height milestones ≡ ok configuration
    → (configuration.milestones ≡ build_milestones milestones)
      × (look_up_all heights configuration
          ≡ map (λ height. defined (latest height configuration.milestones)) heights)
unfolding set_config
set_config-lookups validate verify genesis_height milestones configuration heights h =
    let (sorted, within) =
      set_config-Sorted validate verify genesis_height milestones configuration h in
    let (_, checked, h) = and_then-inv _ (check_round_validators genesis_height milestones) h in
    let (_, valid, h) =
      and_then-inv _ (verify_config (not verify || validate (build_milestones milestones))) h in
    (
      sym (ap (λ set. set.milestones) (ok-inj h)),
      look_up_all-latest heights configuration sorted within,
    )
