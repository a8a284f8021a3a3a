-- ===== src/Consensus/Fuel/Spent.antt =====
-- A handler that lacks fuel has committed a block for each unit of it.
use mainsail.Prelude.{
  ℕ, zero, suc, ◌==◌, ◌&&◌, subst, ◌+◌, ◌≤◌, ◌<◌, ◌≡◌, refl, Bool, true, false, Bool-cases, ltb,
  ◌⊎◌, inl, inr, arith, Option-cases,
}
use mainsail.Prelude.Outcome.{Result, ok, err, commit_failed, fuel_exhausted}
use mainsail.RoundState.{RoundState, get_block}
use mainsail.RoundState.Quorums.{
  has_majority_prevotes, has_majority_prevotes_any, has_majority_prevotes_null,
  has_majority_precommits, has_majority_precommits_without_proposal,
}
use mainsail.Timing.{Timeouts, get_next_block_timestamp, calculate_minimal_timestamp}
use mainsail.Consensus.State.{Consensus, World, RoundRef, deref, get_or_create}
use mainsail.Consensus.Monad.{M, Outcome, done, threw, continue, when, lift, persist_state, throw}
use mainsail.Consensus.Rules.{
  process_proposal, on_proposal, on_proposal_locked, on_majority_prevote, on_majority_prevote_any,
  on_majority_prevote_null, on_majority_precommit_without_proposal,
}
use mainsail.Consensus.Rounds.{
  Processable, unit_of, prepare_proposal, begin_propose, begin_round, commit_block,
  on_majority_precommit, on_minority_with_higher_round, upon, on_round_majority_precommit,
  apply_vote_rules, apply_rules_with, open_and_begin, apply_here, start_round, proposer_of,
}
use mainsail.Consensus.Fuel.{Stays, IsOther, IsFine, Stays-continue, Stays-when, Stays-lift}
use mainsail.Consensus.Fuel.Stays.{
  persist_state-Stays, process_proposal-Stays, on_proposal-Stays, on_proposal_locked-Stays,
  on_majority_prevote-Stays, on_majority_prevote_any-Stays, on_majority_prevote_null-Stays,
  on_majority_precommit_any-Stays, get_processor_result-IsFine,
}

proposer_of-IsFine : (rs : RoundState) → IsFine (proposer_of rs)
proposer_of-IsFine rs = elim (Option-cases rs.proposer) [ inl e ↦ rw e tt | inr (v, e) ↦ rw e tt ]

get_block-IsFine : (rs : RoundState) → IsFine (get_block rs)
unfolding get_block
get_block-IsFine rs = elim (Option-cases rs.proposal) [
  | inl e ↦ rw (e, get_block) tt
  | inr (p, e) ↦ elim (Option-cases p.payload) [
    | inl e' ↦ rw (e, e', get_block) tt
    | inr (block, e') ↦ rw (e, e', get_block) tt
  ]
]

get_next_block_timestamp-IsFine :
    (t : Timeouts) (previous start round : ℕ)
    → IsFine (get_next_block_timestamp t previous start round)
unfolding get_next_block_timestamp calculate_minimal_timestamp
get_next_block_timestamp-IsFine t previous start round = elim (Bool-cases (ltb 100000 round)) [
  | inl e ↦ rw (e, get_next_block_timestamp, calculate_minimal_timestamp) tt
  | inr e ↦ rw (e, get_next_block_timestamp, calculate_minimal_timestamp) tt
]

module _ (w : World) (b r : ℕ) where
  apply_vote_rules-Stays :
      (ref : RoundRef) (n : Consensus)
      → n.block_number ≡ b
      → n.round ≡ r
      → Stays b r (apply_vote_rules w ref n)
  unfolding apply_vote_rules
  apply_vote_rules-Stays ref n h k =
      Stays-continue b r (process_proposal w ref n) _ (process_proposal-Stays w b r ref n h k)
        (λ _ n h k.
          Stays-continue b r (on_proposal w ref n) _ (on_proposal-Stays w b r ref n h k) (λ _ n h k.
            Stays-continue b r (on_proposal_locked w ref n) _
              (on_proposal_locked-Stays w b r ref n h k)
              (λ _ n h k.
                Stays-continue b r
                  (upon w (has_majority_prevotes w.env) ref (on_majority_prevote w ref) n) _
                  (Stays-when b r _ _ n h k (on_majority_prevote-Stays w b r ref n h k))
                  (λ _ n h k.
                    Stays-continue b r
                      (upon w (has_majority_prevotes_any w.env) ref (on_majority_prevote_any w ref)
                        n)
                      _ (Stays-when b r _ _ n h k (on_majority_prevote_any-Stays w b r ref n h k))
                      (λ _ n h k.
                        Stays-continue b r
                          (upon w (has_majority_prevotes_null w.env) ref
                            (on_majority_prevote_null w ref) n)
                          _
                          (Stays-when b r _ _ n h k
                            (on_majority_prevote_null-Stays w b r ref n h k))
                          (λ _ n h k.
                            Stays-when b r _ _ n h k
                              (on_majority_precommit_any-Stays w b r ref n h k)))))))

  prepare_proposal-Stays :
      (ref : RoundRef) (n : Consensus)
      → n.block_number ≡ b
      → n.round ≡ r
      → Stays b r (prepare_proposal w ref n)
  unfolding prepare_proposal
  prepare_proposal-Stays ref n h k = Stays-when b r _ _ n h k (
      Stays-lift b r _ _ n (proposer_of-IsFine (deref w.env ref n))
        (λ _. Stays-when b r _ _ n h k (h, k)))

  begin_propose-Stays :
      (ref : RoundRef) (n : Consensus)
      → n.block_number ≡ b
      → n.round ≡ r
      → Stays b r (begin_propose w ref n)
  unfolding begin_propose
  begin_propose-Stays ref n h k =
      Stays-lift b r _ _ n (get_next_block_timestamp-IsFine _ _ _ _)
        (λ _. Stays-when b r _ _ _ h k (prepare_proposal-Stays ref _ h k))

  begin_round-Stays :
      (n : Consensus) → n.block_number ≡ b → n.round ≡ r → Stays b r (begin_round w n)
  unfolding begin_round
  begin_round-Stays n h k = Stays-when b r _ _ _ h k (
      Stays-lift b r _ _ _
        (proposer_of-IsFine (get_or_create w.env n.block_number n.round n.rounds).0)
        (λ _. Stays-when b r _ _ _ h k (begin_propose-Stays _ _ h k)))

  open_and_begin-Stays : (n : Consensus) → n.block_number ≡ b → Stays b r (open_and_begin w r n)
  unfolding open_and_begin
  open_and_begin-Stays n h =
      Stays-continue b r _ _
        (Stays-when b r (ltb 0 r) (persist_state w) _ h refl (persist_state-Stays w b r _ h refl))
        (λ _ m. begin_round-Stays m)

-- Later blocks were reached, or the position was kept; without fuel, that many blocks were committed.
abbrev Moves : {A : Type 0} → ℕ → ℕ → ℕ → Outcome A → Type 0
Moves b r fuel (done a n) = ((n.block_number ≡ b) × (n.round ≡ r)) ⊎ (b < n.block_number)
Moves b r fuel (threw e n) = IsOther e ⊎ (b + fuel ≤ n.block_number)

-- The same from a block number on.
abbrev Advances : {A : Type 0} → ℕ → ℕ → Outcome A → Type 0
Advances b fuel (done a n) = b ≤ n.block_number
Advances b fuel (threw e n) = IsOther e ⊎ (b + fuel ≤ n.block_number)

Stays-Moves : {A : Type 0} (b r fuel : ℕ) (o : Outcome A) → Stays b r o → Moves b r fuel o
Stays-Moves b r fuel (done a n) h = inl h
Stays-Moves b r fuel (threw e n) h = inl h

Moves-Advances : {A : Type 0} (b r fuel : ℕ) (o : Outcome A) → Moves b r fuel o → Advances b fuel o
Moves-Advances b r fuel (done a n) (inl h) = omega (arith, h.0)
Moves-Advances b r fuel (done a n) (inr h) = omega arith
Moves-Advances b r fuel (threw e n) h = h

-- From the next block number on.
Advances-Moves :
    {A : Type 0} (b r fuel : ℕ) (o : Outcome A) → Advances (b + 1) fuel o → Moves b r (suc fuel) o
Advances-Moves b r fuel (done a n) h = inr (omega arith)
Advances-Moves b r fuel (threw e n) (inl h) = inl h
Advances-Moves b r fuel (threw e n) (inr h) = inr (omega arith)

module _ (b r fuel : ℕ) where
  Moves-continue :
      {A B : Type 0} (o : Outcome A) (f : A → M B)
      → Moves b r fuel o
      → ((a : A) (n : Consensus)
          → ((n.block_number ≡ b) × (n.round ≡ r)) ⊎ (b < n.block_number)
          → Moves b r fuel (f a n))
      → Moves b r fuel (continue o f)
  Moves-continue (done a n) f h k = k a n h
  Moves-continue (threw e n) f h k = h

  Stays-then :
      {A B : Type 0} (o : Outcome A) (f : A → M B)
      → Stays b r o
      → ((a : A) (n : Consensus) → n.block_number ≡ b → n.round ≡ r → Moves b r fuel (f a n))
      → Moves b r fuel (continue o f)
  Stays-then (done a n) f h k = k a n h.0 h.1
  Stays-then (threw e n) f h k = inl h

  Moves-when :
      (t : Bool) (m : M (Unit {0})) (n : Consensus)
      → ((n.block_number ≡ b) × (n.round ≡ r)) ⊎ (b < n.block_number)
      → (t ≡ true → Moves b r fuel (m n))
      → Moves b r fuel (when t m n)
  unfolding when
  Moves-when true m n h s = s refl
  Moves-when false m n h s = h

  Moves-lift :
      {A B : Type 0} (c : Result A) (f : A → M B) (n : Consensus)
      → IsFine c
      → ((a : A) → Moves b r fuel (f a n))
      → Moves b r fuel (continue (lift c n) f)
  unfolding lift
  Moves-lift (ok a) f n h s = s a
  Moves-lift (err e) f n h s = inl h

  Moves-guard :
      (t : Bool) (f : Unit {0} → M (Unit {0})) (n : Consensus)
      → Moves b r fuel (f tt n)
      → Moves b r fuel (continue (when t (throw commit_failed) n) f)
  unfolding when
  Moves-guard true f n h = inl tt
  Moves-guard false f n h = h

-- What a start of a round does with its fuel.
abbrev Spends : ℕ → (ℕ → M (Unit {0})) → Type 0
Spends fuel start = (round : ℕ) (n : Consensus) → Advances n.block_number fuel (start round n)

not_higher :
    {b r : ℕ} (ref : RoundRef) (n : Consensus)
    → ref.block_number ≡ b
    → ref.round ≡ r
    → ((n.block_number ≡ b) × (n.round ≡ r)) ⊎ (b < n.block_number)
    → ¬ ((ref.block_number == n.block_number && ltb n.round ref.round) ≡ true)
not_higher ref n rb rr (inl (h, k)) e = ground arith
not_higher ref n rb rr (inr lt) e = ground arith

module _ (w : World) (b r fuel : ℕ) (start : ℕ → M (Unit {0})) (spends : Spends fuel start) where
  commit_block-Advances :
      (number : ℕ) (n : Consensus)
      → Moves n.block_number r (suc fuel) (commit_block w start number n)
  unfolding commit_block
  commit_block-Advances number n =
      Moves-guard n.block_number r (suc fuel) _ _ _
        (Advances-Moves n.block_number r fuel _ (spends 0 _))

  commit_block-Moves :
      (number : ℕ) (n : Consensus)
      → n.block_number ≡ b
      → Moves b r (suc fuel) (commit_block w start number n)
  commit_block-Moves number n h =
      subst (λ i. Moves i r (suc fuel) (commit_block w start number n)) h
        (commit_block-Advances number n)

  on_majority_precommit-Moves :
      (unit : Processable) (is_round_state : Bool) (n : Consensus)
      → IsFine unit.block
      → IsFine unit.result
      → n.block_number ≡ b
      → n.round ≡ r
      → Moves b r (suc fuel) (on_majority_precommit w start unit is_round_state n)
  unfolding on_majority_precommit
  on_majority_precommit-Moves unit is_round_state n fb fr h k =
      Moves-when b r (suc fuel) _ _ n (inl (h, k)) (λ _.
        Stays-then b r (suc fuel) _ _ (Stays-when b r is_round_state _ n h k (h, k)) (λ _ m h k.
          Moves-lift b r (suc fuel) unit.block _ m fb (λ block.
            Moves-lift b r (suc fuel) unit.result _ m fr (λ result.
              Moves-when b r (suc fuel) result.success _ m (inl (h, k))
                (λ _. commit_block-Moves unit.block_number m h)))))

  on_minority_with_higher_round-Moves :
      (ref : RoundRef) (n : Consensus)
      → ref.block_number ≡ b
      → ref.round ≡ r
      → ((n.block_number ≡ b) × (n.round ≡ r)) ⊎ (b < n.block_number)
      → Moves b r (suc fuel) (on_minority_with_higher_round w start ref n)
  unfolding on_minority_with_higher_round
  on_minority_with_higher_round-Moves ref n rb rr at =
      Moves-when b r (suc fuel) _ _ n at (λ e. absurd (not_higher ref n rb rr at e))

  on_majority_precommit_without_proposal-Moves :
      (ref : RoundRef) (n : Consensus)
      → ((n.block_number ≡ b) × (n.round ≡ r)) ⊎ (b < n.block_number)
      → Moves b r (suc fuel) (on_majority_precommit_without_proposal w ref n)
  unfolding on_majority_precommit_without_proposal
  on_majority_precommit_without_proposal-Moves ref n at =
      Moves-when b r (suc fuel) _ _ n at (λ _. at)

  -- At the node's own round.
  apply_rules_with-Moves :
      (ref : RoundRef) (n : Consensus)
      → ref.block_number ≡ b
      → ref.round ≡ r
      → n.block_number ≡ b
      → n.round ≡ r
      → Moves b r (suc fuel) (apply_rules_with w start ref n)
  unfolding apply_rules_with on_round_majority_precommit
  apply_rules_with-Moves ref n rb rr h k = Moves-when b r (suc fuel) _ _ n (inl (h, k)) (λ _.
      Stays-then b r (suc fuel) (apply_vote_rules w ref n) _
        (apply_vote_rules-Stays w b r ref n h k)
        (λ _ n h k.
          Moves-continue b r (suc fuel)
            (upon w (has_majority_precommits w.env) ref (on_round_majority_precommit w start ref) n)
            _
            (Moves-when b r (suc fuel) _ _ n (inl (h, k)) (λ _.
              on_majority_precommit-Moves (unit_of (deref w.env ref n)) true n
                (get_block-IsFine (deref w.env ref n))
                (get_processor_result-IsFine (deref w.env ref n)) h k))
            (λ _ n at.
              Moves-continue b r (suc fuel)
                (upon w (has_majority_precommits_without_proposal w.env) ref
                  (on_majority_precommit_without_proposal w ref) n)
                _
                (Moves-when b r (suc fuel) _ _ n at
                  (λ _. on_majority_precommit_without_proposal-Moves ref n at))
                (λ _ n at.
                  Moves-when b r (suc fuel) _ _ n at
                    (λ _. on_minority_with_higher_round-Moves ref n rb rr at)))))

apply_here-Moves :
    (w : World) (fuel : ℕ) (start : ℕ → M (Unit {0}))
    → Spends fuel start
    → (n : Consensus) → Moves n.block_number n.round (suc fuel) (apply_here w start n)
apply_here-Moves w fuel start spends n =
    Moves-when n.block_number n.round (suc fuel) _ _ n (inl (refl, refl)) (λ _.
      apply_rules_with-Moves w n.block_number n.round fuel start spends _ _ refl refl refl refl)

apply_here-from :
    (w : World) (fuel b r : ℕ) (start : ℕ → M (Unit {0}))
    → Spends fuel start
    → (n : Consensus) → n.block_number ≡ b
    → n.round ≡ r
    → Moves b r (suc fuel) (apply_here w start n)
apply_here-from w fuel b r start spends n h k =
    subst (λ i. Moves i r (suc fuel) (apply_here w start n)) h
      (subst (λ i. Moves n.block_number i (suc fuel) (apply_here w start n)) k
        (apply_here-Moves w fuel start spends n))

start_round-Spends : (w : World) (fuel : ℕ) → Spends fuel (start_round w fuel)
unfolding start_round
start_round-Spends w zero round n = inr (omega arith)
start_round-Spends w (suc fuel) round n = Moves-Advances n.block_number round (suc fuel) _ (
    Stays-then n.block_number round (suc fuel) (open_and_begin w round n) _
      (open_and_begin-Stays w n.block_number round n refl)
      (λ _ m h k.
        apply_here-from w fuel n.block_number round (start_round w fuel) (start_round-Spends w fuel)
          m h k))

-- `startRound` fails for lack of fuel only after it has committed a block for each unit of fuel it had: the
-- block number went up by that much at least.
pub start_round-fuel :
    (w : World) (fuel round : ℕ) (n m : Consensus)
    → start_round w fuel round n ≡ threw fuel_exhausted m
    → n.block_number + fuel ≤ m.block_number
start_round-fuel w fuel round n m e =
    elim (subst (Advances n.block_number fuel) e (start_round-Spends w fuel round n)) [
      | inl other ↦ absurd other
      | inr spent ↦ spent
    ]
