-- ===== src/Configuration/Cursor.antt =====
-- The cursor changes how long a lookup takes, and never what it finds.
use mainsail.Prelude.{
  ℕ, zero, suc, ◌+◌, ◌≤◌, ◌<◌, ◌≡◌, refl, sym, ap, ◌∙◌, leb, Bool-cases, inl, inr, drop, length,
  length-drop, get_elem?, get_elem-defined, All-get_elem, All, All-imp, true, false, Option, none,
  some, List, [], ◌∷◌, if◌then◌else◌, arith,
}
use mainsail.Configuration.{
  Milestone, Configuration, go_forward, go_back, is_above, milestone_before, defined, get_milestone,
}

-- The milestones stand in the order of their heights.
abbrev pub Sorted : List Milestone → Type 0
Sorted [] = Unit {0}
Sorted (milestone ∷ milestones) =
    All (λ other. milestone.height ≤ other.height) milestones × Sorted milestones

abbrev pub or_first : Option Milestone → Milestone → Milestone
or_first none milestone = milestone
or_first (some other) milestone = other

-- The milestone of a height, by definition: the last whose height is reached.
abbrev pub latest : ℕ → List Milestone → Option Milestone
latest height [] = none
latest height (milestone ∷ milestones) =
    let rest = latest height milestones in
    if leb milestone.height height then some (or_first rest milestone) else rest

-- How many milestones are reached, in a list in order.
abbrev bound : ℕ → List Milestone → ℕ
bound height [] = 0
bound height (milestone ∷ milestones) =
    let rest = bound height milestones in if leb milestone.height height then suc rest else 0

pub latest-none :
    (height : ℕ) (milestones : List Milestone)
    → All (λ other. height < other.height) milestones
    → latest height milestones ≡ none
latest-none height [] h = refl
latest-none height (milestone ∷ milestones) h =
    let above : leb milestone.height height ≡ false = ground (arith, h.0) in
    rw above (latest-none height milestones h.1)

bound-le : (height : ℕ) (milestones : List Milestone) → bound height milestones ≤ length milestones
bound-le height [] = omega arith
bound-le height (milestone ∷ milestones) = elim (Bool-cases (leb milestone.height height)) [
  | inl reached ↦ rw reached (omega (arith, bound-le height milestones))
  | inr above ↦ rw above (omega arith)
]

front :
    (count : ℕ) (milestone : Milestone) (milestones : List Milestone) (found : Option Milestone)
    → count ≤ length milestones
    → milestone_before count milestones ≡ found
    → get_elem? (milestone ∷ milestones) count ≡ some (or_first found milestone)
front zero milestone milestones found h e = rw (sym e) refl
front (suc count) milestone milestones found h e =
    let (other, here) = get_elem-defined milestones count (omega (arith, h)) in
    let same : found ≡ some other = sym e ∙ here in rw (here, same) refl

latest-bound :
    (height : ℕ) (milestones : List Milestone)
    → Sorted milestones
    → milestone_before (bound height milestones) milestones ≡ latest height milestones
latest-bound height [] sorted = refl
latest-bound height (milestone ∷ milestones) sorted =
    elim (Bool-cases (leb milestone.height height)) [
      | inr above ↦ rw above (
          sym (
            latest-none height milestones
              (All-imp (λ other h. ground (arith, above, h)) milestones sorted.0)))
      | inl reached ↦ rw reached (
          front (bound height milestones) milestone milestones (latest height milestones)
            (bound-le height milestones) (latest-bound height milestones sorted.1))
    ]

go_forward_lem :
    (height : ℕ) (milestones : List Milestone) (cursor : ℕ)
    → go_forward height milestones cursor ≡ cursor + bound height milestones
go_forward_lem height [] cursor = omega arith
go_forward_lem height (milestone ∷ milestones) cursor =
    elim (Bool-cases (leb milestone.height height)) [
      | inl reached ↦ rw reached (omega (arith, go_forward_lem height milestones (suc cursor)))
      | inr above ↦ rw above (omega arith)
    ]

bound-drop :
    (height n : ℕ) (milestones : List Milestone)
    → bound height milestones ≤ n + bound height (drop n milestones)
bound-drop height zero milestones = omega arith
bound-drop height (suc n) [] = omega arith
bound-drop height (suc n) (milestone ∷ milestones) =
    elim (Bool-cases (leb milestone.height height)) [
      | inl reached ↦ rw reached (omega (arith, bound-drop height n milestones))
      | inr above ↦ rw above (omega arith)
    ]

-- Behind the reached milestones every one is above the height, and no other.
above_behind :
    (height index : ℕ) (milestones : List Milestone)
    → Sorted milestones
    → bound height milestones ≤ index
    → index < length milestones
    → is_above height (get_elem? milestones index) ≡ true
above_behind height index [] sorted h k = absurd (omega (arith, k))
above_behind height zero (milestone ∷ milestones) sorted h k =
    elim (Bool-cases (leb milestone.height height)) [
      | inl reached ↦ absurd (omega (arith, rw reached at h))
      | inr above ↦ ground (arith, above)
    ]
above_behind height (suc index) (milestone ∷ milestones) sorted h k =
    elim (Bool-cases (leb milestone.height height)) [
      | inl reached ↦
          above_behind height index milestones sorted.1 (omega (arith, rw reached at h))
            (omega (arith, k))
      | inr above ↦
          let (other, here) = get_elem-defined milestones index (omega (arith, k)) in
          let later : milestone.height ≤ other.height =
            All-get_elem (λ other. milestone.height ≤ other.height) milestones index other sorted.0
              here in
          rw here (ground (arith, later, above))
    ]

not_above :
    (height index : ℕ) (milestones : List Milestone)
    → index < bound height milestones
    → is_above height (get_elem? milestones index) ≡ false
not_above height index [] h = absurd (omega (arith, h))
not_above height zero (milestone ∷ milestones) h = elim (Bool-cases (leb milestone.height height)) [
  | inl reached ↦ ground (arith, reached)
  | inr above ↦ absurd (omega (arith, rw above at h))
]
not_above height (suc index) (milestone ∷ milestones) h =
    elim (Bool-cases (leb milestone.height height)) [
      | inl reached ↦ not_above height index milestones (omega (arith, rw reached at h))
      | inr above ↦ absurd (omega (arith, rw above at h))
    ]

go_back-reached :
    (height : ℕ) (milestones : List Milestone) (index : ℕ)
    → index ≤ bound height milestones
    → go_back height milestones index ≡ index
go_back-reached height milestones zero h = refl
go_back-reached height milestones (suc index) h =
    rw (not_above height index milestones (omega (arith, h))) refl

go_back-bound :
    (height : ℕ) (milestones : List Milestone) (index : ℕ)
    → Sorted milestones
    → bound height milestones ≤ index
    → index ≤ length milestones
    → go_back height milestones index ≡ bound height milestones
go_back-bound height milestones zero sorted h k = omega (arith, h)
go_back-bound height milestones (suc index) sorted h k =
    elim (Bool-cases (leb (bound height milestones) index)) [
      | inl behind ↦
          rw
            (above_behind height index milestones sorted (ground (arith, behind))
              (omega (arith, k)))
            (go_back-bound height milestones index sorted (ground (arith, behind))
              (omega (arith, k)))
      | inr here ↦
          let exact : bound height milestones ≡ suc index = ground (arith, here, h) in
          go_back-reached height milestones (suc index) (omega (arith, exact)) ∙ sym exact
    ]

-- Wherever the cursor stands, a lookup finds the last milestone whose height is reached, and an error if there
-- is none; the cursor then stands in the list again, and nothing else of the configuration is changed.
pub get_milestone-latest :
    (height : ℕ) (configuration : Configuration)
    → Sorted configuration.milestones
    → configuration.cursor ≤ length configuration.milestones
    → ((get_milestone height configuration).0 ≡ defined (latest height configuration.milestones))
      × ((cursor : ℕ) × ((get_milestone height configuration).1
            ≡ record configuration { cursor = cursor })
          × (cursor ≤ length configuration.milestones))
unfolding get_milestone
get_milestone-latest height configuration sorted within =
    let milestones : List Milestone = configuration.milestones in
    let far : ℕ = go_forward height (drop configuration.cursor milestones) configuration.cursor in
    let moved : far ≡ configuration.cursor + bound height (drop configuration.cursor milestones) =
      go_forward_lem height (drop configuration.cursor milestones) configuration.cursor in
    let back : go_back height milestones far ≡ bound height milestones =
      go_back-bound height milestones far sorted
        (omega (arith, moved, bound-drop height configuration.cursor milestones))
        (omega (
          arith,
          moved,
          within,
          bound-le height (drop configuration.cursor milestones),
          length-drop configuration.cursor milestones,
        )) in
    (
      rw back (ap defined (latest-bound height milestones sorted)),
      (bound height milestones, rw back refl, bound-le height milestones),
    )
