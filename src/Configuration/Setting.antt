-- ===== src/Configuration/Setting.antt =====
-- A field of a configuration is set: the milestones are merged again.
use mainsail.Prelude.{
  ℕ, ◌≤◌, ◌≡◌, refl, sym, ap, ◌∙◌, subst, leb, length, Bool, true, Option, none, some, List, [],
  ◌∷◌, arith, ◌||◌, not,
}
use std.Path.{fun_ext}
use mainsail.Prelude.Outcome.{ok, ok-inj, and_then-inv}
use mainsail.Configuration.{
  Milestone, Configuration, insert, sort, or_else, deepmerge, merge_from, merge_all,
  build_milestones, check_round_validators, verify_config, set_config, set, look_up_all,
}
use mainsail.Configuration.Cursor.{Sorted}
use mainsail.Configuration.Built.{
  sort-Sorted, merge_all-Sorted, some_checked, look_up_all-latest, set_config-Sorted,
  set_config-lookups,
}

sort-Sorted_lem : (milestones : List Milestone) → Sorted milestones → sort milestones ≡ milestones
sort-Sorted_lem [] h = refl
sort-Sorted_lem (milestone ∷ []) h = refl
sort-Sorted_lem (milestone ∷ other ∷ others) h =
    let first : leb milestone.height other.height ≡ true = ground (arith, h.0.0) in
    ap (insert milestone) (sort-Sorted_lem (other ∷ others) h.1) ∙ rw first refl

or_else-again : (a b : Option ℕ) → or_else (or_else a b) b ≡ or_else a b
or_else-again none none = refl
or_else-again none (some b) = refl
or_else-again (some a) b = refl

deepmerge-again :
    (merged milestone : Milestone)
    → deepmerge merged (deepmerge merged milestone) ≡ deepmerge merged milestone
deepmerge-again merged milestone =
    ap (λ values. record { height = milestone.height; values = values })
      (fun_ext (λ key. or_else-again (milestone.values key) (merged.values key)))

merge_from-again :
    (merged : Milestone) (milestones : List Milestone)
    → merge_from merged (merge_from merged milestones) ≡ merge_from merged milestones
merge_from-again merged [] = refl
merge_from-again merged (milestone ∷ milestones) =
    let first = deepmerge merged milestone in
    subst
      (λ again.
        again ∷ merge_from again (merge_from first milestones)
        ≡ first ∷ merge_from first milestones)
      (sym (deepmerge-again merged milestone))
      (ap (λ rest. first ∷ rest) (merge_from-again first milestones))

merge_all-again :
    (milestones : List Milestone) → merge_all (merge_all milestones) ≡ merge_all milestones
merge_all-again [] = refl
merge_all-again (milestone ∷ milestones) =
    ap (λ rest. milestone ∷ rest) (merge_from-again milestone milestones)

build_milestones-again :
    (milestones : List Milestone)
    → build_milestones (build_milestones milestones) ≡ build_milestones milestones
unfolding build_milestones
build_milestones-again milestones =
    ap merge_all (
      sort-Sorted_lem (merge_all (sort milestones))
        (merge_all-Sorted (sort milestones) (sort-Sorted milestones)))
    ∙ merge_all-again (sort milestones)

-- In a configuration that was set and that lookups and `setHeight` have moved since: when setting a field besides
-- the milestones and the genesis block is accepted, the milestones and the height stay as they were, and lookups
-- find what they would have found without it.
pub set-lookups :
    (validate validate' : List Milestone → Bool) (verify : Bool) (genesis_height : ℕ)
    (milestones : List Milestone) (before after : Configuration) (height cursor : ℕ)
    (heights : List ℕ)
    → set_config validate verify genesis_height milestones ≡ ok before
    → cursor ≤ length before.milestones
    → set validate' verify (record before { height = height; cursor = cursor }) ≡ ok after
    → (after.milestones ≡ before.milestones)
      × (after.height ≡ height)
      × (look_up_all heights after
          ≡ look_up_all heights (record before { height = height; cursor = cursor }))
unfolding set
set-lookups validate validate' verify genesis_height milestones before after height cursor heights h
      within k =
    let (built, _) =
      set_config-lookups validate verify genesis_height milestones before heights h in
    let (sorted, _) = set_config-Sorted validate verify genesis_height milestones before h in
    let (_, checked, k) =
      and_then-inv _ (check_round_validators before.genesis_height before.milestones) k in
    let (_, valid, k) =
      and_then-inv _ (verify_config (not verify || validate' (build_milestones before.milestones)))
        k in
    let same : build_milestones before.milestones ≡ before.milestones =
      subst (λ list. build_milestones list ≡ list) (sym built)
        (build_milestones-again milestones) in
    let some_there = some_checked before.genesis_height before.milestones checked in
    let result : Configuration = record before { height = height; cursor = 1 } in
    let after_is : result ≡ after =
      subst
        (λ list.
          ◌≡◌ {A = Configuration} (record before { milestones = list; height = height; cursor = 1 })
            after)
        same (ok-inj k) in
    subst
      (λ c.
        (c.milestones ≡ before.milestones)
        × (c.height ≡ height)
        × (look_up_all heights c
            ≡ look_up_all heights (record before { height = height; cursor = cursor })))
      after_is
      (
        refl,
        refl,
        look_up_all-latest heights result sorted (omega (arith, some_there))
            ∙ sym (
                look_up_all-latest heights (record before { height = height; cursor = cursor })
                  sorted within),
      )
