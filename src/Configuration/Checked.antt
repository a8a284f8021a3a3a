-- ===== src/Configuration/Checked.antt =====
-- What the check of the numbers of validators leaves of the milestones that set one.
use mainsail.Prelude.{
  ℕ, zero, suc, ◌+◌, ◌≤◌, ◌<◌, ◌≡◌, refl, sym, ◌∙◌, ltb, leb, Bool-cases, inl, inr, All, any,
  filter, is_some, same, same_iff, ◌==◌, Bool, true, false, Option, none, some, List, [], ◌∷◌, ◌||◌,
  not, arith, length, Option-cases, absurd_test,
}
use mainsail.Prelude.Outcome.{ok, not_ok}
use mainsail.Configuration.{
  Milestone, round_validators, truthy, check_boundaries, is_empty_later, check_first,
}
use mainsail.Configuration.Validators.{sets_validators, current, ChangesAfter}
use mainsail.Configuration.Spanned.{Renews}

pub any-false {ℓ} :
    {A : Type ℓ} (test : A → Bool) (xs : List A)
    → any test xs ≡ false
    → All (λ x. test x ≡ false) xs
any-false test [] h = tt
any-false test (x ∷ xs) h = (ground (arith, h), any-false test xs (ground (arith, h)))

pub All-filter_test {ℓ} :
    {A : Type ℓ} (test : A → Bool) (xs : List A) → All (λ x. test x ≡ true) (filter test xs)
All-filter_test test [] = tt
All-filter_test test (x ∷ xs) = elim (Bool-cases (test x)) [
  | inl kept ↦ rw kept (kept, All-filter_test test xs)
  | inr dropped ↦ rw dropped (All-filter_test test xs)
]

pub length-filter {ℓ} :
    {A : Type ℓ} (test : A → Bool) (xs : List A) → length (filter test xs) ≤ length xs
length-filter test [] = omega arith
length-filter test (x ∷ xs) = elim (Bool-cases (test x)) [
  | inl kept ↦ rw kept (omega (arith, length-filter test xs))
  | inr dropped ↦ rw dropped (omega (arith, length-filter test xs))
]

-- A milestone that sets a number after the genesis block sets some.
abbrev pub SetsSome : ℕ → Milestone → Type 0
SetsSome genesis_height milestone =
    (sets_validators milestone ≡ true) × (is_empty_later genesis_height milestone ≡ false)

same_comm : (a b : Option ℕ) → same a b ≡ same b a
same_comm none none = refl
same_comm none (some b) = refl
same_comm (some a) none = refl
same_comm (some a) (some b) = ground arith

defined_validators :
    (value : Option ℕ) → is_some value ≡ true → (number : ℕ) × (value ≡ some number)
defined_validators none h = absurd (absurd_test (sym h))
defined_validators (some number) h = (number, refl)

pub truthy_later :
    (genesis_height : ℕ) (milestone : Milestone)
    → genesis_height < milestone.height
    → SetsSome genesis_height milestone
    → truthy (round_validators milestone) ≡ true
truthy_later genesis_height milestone later h = elim (Option-cases (round_validators milestone)) [
  | inl unset ↦ absurd (absurd_test (sym (rw unset at h.0)))
  | inr (zero, e) ↦
      let below : ltb genesis_height milestone.height ≡ true = ground (arith, later) in
      absurd (absurd_test (rw (e, below) at h.1))
  | inr (suc value, e) ↦ rw e refl
]

pub Renews-ChangesAfter :
    (genesis_height height : ℕ) (before : Milestone) (milestones : List Milestone)
    → genesis_height < before.height
    → Renews before milestones
    → All (SetsSome genesis_height) milestones
    → ChangesAfter height (round_validators before) milestones
Renews-ChangesAfter genesis_height height before [] later renews all = tt
Renews-ChangesAfter genesis_height height before (milestone ∷ milestones) later renews all =
    let later' : genesis_height < milestone.height = omega (arith, later, renews.0) in
    elim (Bool-cases (leb milestone.height height)) [
      | inl reached ↦
          rw reached
            (Renews-ChangesAfter genesis_height height milestone milestones later' renews.2 all.1)
      | inr above ↦ rw above (
        same_comm (round_validators milestone) (round_validators before) ∙ renews.1,
        truthy_later genesis_height milestone later' all.0,
      )
    ]

-- Among milestones that set a number, one holds from the first on.
pub current-some :
    (height : ℕ) (before : Milestone) (milestones : List Milestone)
    → sets_validators before ≡ true
    → All (λ milestone. sets_validators milestone ≡ true) milestones
    → (value : ℕ) × (current height (round_validators before) milestones ≡ some value)
current-some height before [] h all = defined_validators (round_validators before) h
current-some height before (milestone ∷ milestones) h all =
    elim (Bool-cases (leb milestone.height height)) [
      | inl reached ↦ rw reached (current-some height milestone milestones all.0 all.1)
      | inr above ↦ rw above (defined_validators (round_validators before) h)
    ]

-- What the check of the numbers of validators leaves of the milestones that set one.
pub record Checked (genesis_height : ℕ) (setting : List Milestone) : Type 0 where
  pub genesis : Milestone
  pub first : Milestone
  pub others : List Milestone
  pub split : setting ≡ genesis ∷ first ∷ others
  pub at_genesis : genesis.height ≡ genesis_height
  pub none_at_genesis : round_validators genesis ≡ some 0
  pub at_first : first.height ≡ genesis_height + 1
  pub on_boundaries : check_boundaries first others ≡ ok tt

pub check_first-Checked :
    (genesis_height : ℕ) (setting : List Milestone)
    → check_first genesis_height setting ≡ ok tt
    → Checked genesis_height setting
check_first-Checked genesis_height [] h = absurd (not_ok h)
check_first-Checked genesis_height (genesis ∷ []) h =
    elim (Bool-cases
      (not (genesis.height == genesis_height) || not (same (round_validators genesis) (some 0)))) [
        | inl wrong ↦ absurd (not_ok (rw wrong at h))
        | inr right ↦ absurd (not_ok (rw right at h))
      ]
check_first-Checked genesis_height (genesis ∷ first ∷ others) h =
    elim (Bool-cases
      (not (genesis.height == genesis_height) || not (same (round_validators genesis) (some 0)))) [
        | inl wrong ↦ absurd (not_ok (rw wrong at h))
        | inr right ↦ elim (Bool-cases (not (first.height == genesis_height + 1))) [
          | inl wrong ↦ absurd (not_ok (rw (right, wrong) at h))
          | inr placed ↦ record {
            genesis = genesis;
            first = first;
            others = others;
            split = refl;
            at_genesis = ground (arith, right);
            none_at_genesis =
                (same_iff (round_validators genesis) (some 0)).0 (ground (arith, right));
            at_first = ground (arith, placed);
            on_boundaries = rw (right, placed) at h;
          }
        ]
      ]
