-- ===== src/Configuration/Validators.antt =====
-- The numbers of validators of a merged configuration, by the milestones that set one.
use mainsail.Prelude.{
  ℕ, ◌≤◌, ◌<◌, ◌≡◌, refl, sym, ap, ◌∙◌, subst, leb, Bool-cases, inl, inr, All, All-imp, filter,
  find, is_some, same, same_iff, Bool, true, false, Option, none, some, List, [], ◌∷◌,
  if◌then◌else◌, arith, Option-cases, absurd_test,
}
use mainsail.Configuration.{
  Milestone, deepmerge, merge_from, round_validators, round_validators_key, truthy,
}
use mainsail.Configuration.Cursor.{Sorted, or_first, latest, latest-none}
use mainsail.Configuration.Built.{All-merge_from}
use mainsail.Configuration.Changes.{wanted}
use mainsail.Configuration.Rounds.{or_zero, change_of}

abbrev pub sets_validators : Milestone → Bool
sets_validators milestone = is_some (round_validators milestone)

-- The number of validators at a height, among milestones that set one, and the next change of it.
abbrev pub current : ℕ → Option ℕ → List Milestone → Option ℕ
current height value [] = value
current height value (milestone ∷ milestones) =
    if leb milestone.height height
    then current height (round_validators milestone) milestones
    else value

abbrev pub next : ℕ → List Milestone → Option (ℕ × ℕ)
next height [] = none
next height (milestone ∷ milestones) =
    if leb milestone.height height
    then next height milestones
    else some (milestone.height, or_zero (round_validators milestone))

-- The first milestone above a height sets another number than holds there, and not 0.
abbrev pub ChangesAfter : ℕ → Option ℕ → List Milestone → Type 0
ChangesAfter height value [] = Unit
ChangesAfter height value (milestone ∷ milestones) =
    if leb milestone.height height
    then ChangesAfter height (round_validators milestone) milestones
    else (same (round_validators milestone) value ≡ false)
      × (truthy (round_validators milestone) ≡ true)

pub All-filter {ℓ κ} :
    {A : Type ℓ} (P : A → Type κ) (test : A → Bool) (xs : List A)
    → All P xs
    → All P (filter test xs)
All-filter P test [] h = tt
All-filter P test (x ∷ xs) h = elim (Bool-cases (test x)) [
  | inl kept ↦ rw kept (h.0, All-filter P test xs h.1)
  | inr dropped ↦ rw dropped (All-filter P test xs h.1)
]

pub current-above :
    (height : ℕ) (value : Option ℕ) (milestones : List Milestone)
    → All (λ other. height < other.height) milestones
    → current height value milestones ≡ value
current-above height value [] h = refl
current-above height value (milestone ∷ milestones) h =
    let above : leb milestone.height height ≡ false = ground (arith, h.0) in rw above refl

-- Merging with a milestone before changes the number only where none is set.
merged-set :
    (before milestone : Milestone)
    → sets_validators milestone ≡ true
    → round_validators (deepmerge before milestone) ≡ round_validators milestone
merged-set before milestone e = elim (Option-cases (round_validators milestone)) [
  | inr (value, some_there) ↦ rw some_there refl
  | inl none_there ↦ absurd (absurd_test (sym (rw none_there at e)))
]

merged-unset :
    (before milestone : Milestone)
    → sets_validators milestone ≡ false
    → round_validators (deepmerge before milestone) ≡ round_validators before
merged-unset before milestone e = elim (Option-cases (round_validators milestone)) [
  | inr (value, some_there) ↦ absurd (absurd_test (rw some_there at e))
  | inl none_there ↦ rw none_there refl
]

module _ (height : ℕ) where
  abbrev IsAbove : Milestone → Type 0
  IsAbove milestone = height < milestone.height

  All-IsAbove :
      (milestone : Milestone) (milestones : List Milestone)
      → height < milestone.height
      → All (λ other. milestone.height ≤ other.height) milestones
      → All IsAbove milestones
  All-IsAbove milestone milestones first later =
      All-imp (λ other le. omega (arith, first, le)) milestones later

  -- The milestone that holds at a height has the number of validators that was set last.
  pub latest-merge_from :
      (before : Milestone) (milestones : List Milestone)
      → Sorted milestones
      → round_validators (or_first (latest height (merge_from before milestones)) before)
        ≡ current height (round_validators before) (filter sets_validators milestones)
  latest-merge_from before [] sorted = refl
  latest-merge_from before (milestone ∷ milestones) sorted =
      let merged = deepmerge before milestone in
      elim (Bool-cases (leb milestone.height height)) [
        | inl reached ↦
            let rest = latest-merge_from merged milestones sorted.1 in
            let setting = filter sets_validators milestones in
            elim (Bool-cases (sets_validators milestone)) [
              | inl kept ↦
                  rw (reached, kept)
                    (rest
                      ∙ rw reached
                          (ap (λ v. current height v setting) (merged-set before milestone kept)))
              | inr dropped ↦
                  rw (reached, dropped)
                    (rest
                      ∙ ap (λ v. current height v setting) (merged-unset before milestone dropped))
            ]
        | inr above ↦
            let first : height < milestone.height = ground (arith, above) in
            rw above (
              ap (λ found. round_validators (or_first found before))
                (latest-none height (merge_from merged milestones) (
                  All-IsAbove milestone (merge_from merged milestones) first
                    (All-merge_from milestone.height merged milestones sorted.0)))
              ∙ sym (
                  current-above height (round_validators before)
                    (filter sets_validators (milestone ∷ milestones))
                    (All-filter IsAbove sets_validators (milestone ∷ milestones)
                      (first, All-IsAbove milestone milestones first sorted.0))))
      ]

  wanted-reached :
      (here milestone : Milestone)
      → leb milestone.height height ≡ true
      → wanted height round_validators_key here milestone ≡ false
  wanted-reached here milestone reached = ground (arith, reached)

  wanted-same :
      (here milestone : Milestone)
      → round_validators milestone ≡ round_validators here
      → wanted height round_validators_key here milestone ≡ false
  wanted-same here milestone e =
      let equal : same (round_validators milestone) (round_validators here) ≡ true =
        (same_iff (round_validators milestone) (round_validators here)).1 e in
      ground (arith, equal)

  wanted-changed :
      (here milestone : Milestone)
      → leb milestone.height height ≡ false
      → same (round_validators milestone) (round_validators here) ≡ false
      → truthy (round_validators milestone) ≡ true
      → wanted height round_validators_key here milestone ≡ true
  wanted-changed here milestone above other some_there = ground (arith, above, other, some_there)

  -- Past the milestones of the height, the search finds the first that sets the number.
  pub find-merge_from :
      (here before : Milestone) (milestones : List Milestone)
      → Sorted milestones
      → round_validators here
        ≡ current height (round_validators before) (filter sets_validators milestones)
      → ChangesAfter height (round_validators before) (filter sets_validators milestones)
      → change_of (find (wanted height round_validators_key here) (merge_from before milestones))
        ≡ next height (filter sets_validators milestones)
  find-merge_from here before [] sorted same_value changes = refl
  find-merge_from here before (milestone ∷ milestones) sorted same_value changes =
      let merged = deepmerge before milestone in
      let setting = filter sets_validators milestones in
      let rest = find-merge_from here merged milestones sorted.1 in
      let found =
        λ (v : Option ℕ) (is : round_validators merged ≡ v)
            (held : round_validators here ≡ current height v setting)
            (more : ChangesAfter height v setting).
          rest (subst (λ w. round_validators here ≡ current height w setting) (sym is) held)
            (subst (λ w. ChangesAfter height w setting) (sym is) more) in
      elim (Bool-cases (sets_validators milestone)) [
        | inl kept ↦
            let is = merged-set before milestone kept in
            elim (Bool-cases (leb milestone.height height)) [
              | inl reached ↦
                  rw (wanted-reached here merged reached, kept, reached)
                    (found (round_validators milestone) is (rw (kept, reached) at same_value)
                      (rw (kept, reached) at changes))
              | inr above ↦
                  let held : round_validators here ≡ round_validators before =
                    rw (kept, above) at same_value in
                  let (other, some_there) : (same (round_validators milestone)
                          (round_validators before)
                        ≡ false)
                      × (truthy (round_validators milestone) ≡ true) =
                    rw (kept, above) at changes in
                  let hit =
                    wanted-changed here merged above
                      (subst (λ v. same v (round_validators here) ≡ false) (sym is)
                        (subst (λ v. same (round_validators milestone) v ≡ false) (sym held) other))
                      (subst (λ v. truthy v ≡ true) (sym is) some_there) in
                  rw (hit, kept, above) (ap (λ v. some (milestone.height, or_zero v)) is)
            ]
        | inr dropped ↦
            let is = merged-unset before milestone dropped in
            let held = rw dropped at same_value in
            let same_found = found (round_validators before) is held (rw dropped at changes) in
            elim (Bool-cases (leb milestone.height height)) [
              | inl reached ↦ rw (wanted-reached here merged reached, dropped) same_found
              | inr above ↦
                  let first : height < milestone.height = ground (arith, above) in
                  let later =
                    All-filter IsAbove sets_validators milestones
                      (All-IsAbove milestone milestones first sorted.0) in
                  let equal =
                    is
                    ∙ sym (held ∙ current-above height (round_validators before) setting later) in
                  rw (wanted-same here merged equal, dropped) same_found
            ]
      ]
