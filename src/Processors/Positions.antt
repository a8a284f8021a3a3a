-- ===== src/Processors/Positions.antt =====
-- The repository of round states: which positions have a proposal.
use mainsail.Prelude.{
  ℕ, ◌≡◌, refl, sym, ◌∙◌, ap, inl, inr, Bool, true, false, Option, none, some, List, [], ◌∷◌, arith,
  if◌then◌else◌, ◌==◌, ◌&&◌, find, find-true, is_some, Bool-cases, Option-cases, absurd_test,
}
use mainsail.RoundState.{RoundEnv, RoundState, has_proposal, configure}
use mainsail.Consensus.State.{is_at, get_or_create, update_round}

-- Two positions are the same.
abbrev pub matches : ℕ → ℕ → ℕ → ℕ → Bool
matches block_number round b r = block_number == b && round == r

pub matches-eq :
    (x y b' r' b r : ℕ) → matches x y b' r' ≡ true → matches x y b r ≡ matches b' r' b r
matches-eq x y b' r' b r h =
    let first : x ≡ b' = ground (arith, h) in
    let second : y ≡ r' = ground (arith, h) in rw (first, second) refl

pub matches_refl : (x y : ℕ) → matches x y x y ≡ true
matches_refl x y = ground arith

pub get_or_create-absent :
    (env : RoundEnv) (b r : ℕ) (rounds : List RoundState)
    → find (is_at b r) rounds ≡ none
    → get_or_create env b r rounds ≡ (configure env b r, configure env b r ∷ rounds)
unfolding get_or_create
get_or_create-absent env b r rounds missing = rw (missing, get_or_create) refl

pub get_or_create-present :
    (env : RoundEnv) (b r : ℕ) (rounds : List RoundState) {rs : RoundState}
    → find (is_at b r) rounds ≡ some rs
    → get_or_create env b r rounds ≡ (rs, rounds)
unfolding get_or_create
get_or_create-present env b r rounds found = rw (found, get_or_create) refl

-- What the repository returns stands in it, at the position that was asked for.
pub get_or_create-found :
    (env : RoundEnv) (b r : ℕ) (rounds : List RoundState)
    → (find (is_at b r) (get_or_create env b r rounds).1 ≡ some (get_or_create env b r rounds).0)
      × (is_at b r (get_or_create env b r rounds).0 ≡ true)
unfolding configure
get_or_create-found env b r rounds = elim (Option-cases (find (is_at b r) rounds)) [
  | inr (rs, found) ↦
      rw (get_or_create-present env b r rounds found) (found, find-true (is_at b r) rounds found)
  | inl missing ↦
      let here = matches_refl b r in
      rw (get_or_create-absent env b r rounds missing) (rw here refl, here)
]

-- Whether a round state that was looked up has a proposal.
abbrev pub proposed : Option RoundState → Bool
proposed none = false
proposed (some rs) = has_proposal rs

module _ (b r : ℕ) where
  -- Whether the round state of the position has a proposal.
  abbrev pub is_proposed : List RoundState → Bool
  is_proposed rounds = proposed (find (is_at b r) rounds)

  is_proposed-hit :
      (x : RoundState) (rounds : List RoundState)
      → is_at b r x ≡ true
      → is_proposed (x ∷ rounds) ≡ has_proposal x
  is_proposed-hit x rounds h = rw h refl

  is_proposed-miss :
      (x : RoundState) (rounds : List RoundState)
      → is_at b r x ≡ false
      → is_proposed (x ∷ rounds) ≡ is_proposed rounds
  is_proposed-miss x rounds h = rw h refl

  is_proposed-configure :
      (env : RoundEnv) (b' r' : ℕ) (rounds : List RoundState)
      → find (is_at b' r') rounds ≡ none
      → is_proposed (configure env b' r' ∷ rounds) ≡ is_proposed rounds
  unfolding configure
  is_proposed-configure env b' r' rounds missing = elim (Bool-cases (matches b' r' b r)) [
    | inr other ↦ is_proposed-miss (configure env b' r') rounds other
    | inl same ↦
        let first : b ≡ b' = ground (arith, same) in
        let second : r ≡ r' = ground (arith, same) in
        let none_there : find (is_at b r) rounds ≡ none = rw (first, second) missing in
        is_proposed-hit (configure env b' r') rounds same ∙ sym (ap proposed none_there)
  ]

  pub is_proposed-get_or_create :
      (env : RoundEnv) (b' r' : ℕ) (rounds : List RoundState)
      → is_proposed (get_or_create env b' r' rounds).1 ≡ is_proposed rounds
  is_proposed-get_or_create env b' r' rounds = elim (Option-cases (find (is_at b' r') rounds)) [
    | inr (rs, found) ↦
        ap (λ pair. is_proposed pair.1) (get_or_create-present env b' r' rounds found)
    | inl missing ↦
        ap (λ pair. is_proposed pair.1) (get_or_create-absent env b' r' rounds missing)
        ∙ is_proposed-configure env b' r' rounds missing
  ]

  pub is_proposed-update_round :
      (b' r' : ℕ) (added : RoundState) (rounds : List RoundState)
      → matches added.block_number added.round b' r' ≡ true
      → is_some (find (is_at b' r') rounds) ≡ true
      → is_proposed (update_round (record { block_number = b'; round = r' }) (λ _. added) rounds)
        ≡ (if matches b' r' b r then has_proposal added else is_proposed rounds)
  unfolding update_round
  is_proposed-update_round b' r' added [] there h = absurd (absurd_test (sym h))
  is_proposed-update_round b' r' added (x ∷ rounds) there h = elim (Bool-cases (is_at b' r' x)) [
    | inl here ↦
        let added_is = matches-eq added.block_number added.round b' r' b r there in
        let x_is = matches-eq x.block_number x.round b' r' b r here in
        rw (here, update_round)
          (elim (Bool-cases (matches b' r' b r)) [
            | inl same ↦ rw same (is_proposed-hit added rounds (added_is ∙ same))
            | inr other ↦ rw other (
                is_proposed-miss added rounds (added_is ∙ other)
                ∙ sym (is_proposed-miss x rounds (x_is ∙ other)))
          ])
    | inr behind ↦
        let rest = is_proposed-update_round b' r' added rounds there (rw behind at h) in
        rw (behind, update_round)
          (elim (Bool-cases (is_at b r x)) [
            | inr passed ↦
                is_proposed-miss x _ passed
                ∙ rest
                ∙ ap (λ old. if matches b' r' b r then has_proposal added else old)
                    (sym (is_proposed-miss x rounds passed))
            | inl hit ↦
                let apart : matches b' r' b r ≡ false = ground (arith, behind, hit) in
                is_proposed-hit x _ hit ∙ rw apart (sym (is_proposed-hit x rounds hit))
          ])
  ]
