-- ===== src/Consensus/Safety/Rounds.antt =====
-- Starting rounds, committing blocks and applying the rules keep the invariant.
use mainsail.Prelude.{
  ℕ, zero, suc, ◌+◌, ◌<◌, ◌≡◌, refl, inl, inr, Bool, true, none, ◌∷◌, arith, ltb, Bool-cases,
}
use mainsail.RoundState.{RoundState}
use mainsail.RoundState.Quorums.{
  has_majority_prevotes, has_majority_prevotes_any, has_majority_prevotes_null,
  has_majority_precommits, has_majority_precommits_any, has_majority_precommits_without_proposal,
  has_minority_prevotes_or_precommits,
}
use mainsail.Consensus.State.{Consensus, World, RoundRef, rank, round_of, deref, committed}
use mainsail.Consensus.Monad.{M, Outcome, continue, persist_state, when}
use mainsail.Consensus.Rules.{
  process_proposal, on_proposal, on_proposal_locked, on_majority_prevote, on_majority_prevote_any,
  on_majority_prevote_null, on_majority_precommit_any, on_majority_precommit_without_proposal,
}
use mainsail.Consensus.Rounds.{
  Processable, next_block, unit_of, prepare_proposal, begin_propose, begin_round, commit_block,
  on_majority_precommit, on_minority_with_higher_round, upon, on_round_majority_precommit,
  apply_vote_rules, apply_rules_with, open_and_begin, apply_here, start_round,
}
use mainsail.Consensus.Safety.Log.{
  IsSafeAt, IsSafe, IsRestorable, IsBounded-Reaches, IsLocked-next, Reaches,
}
use mainsail.Consensus.Safety.Hoare.{Ends-continue, Ends-when, Keeps, Keeps-lift}
use mainsail.Consensus.Safety.Rules.{
  process_proposal-IsSafe, on_proposal-IsSafe, on_proposal_locked-IsSafe,
  on_majority_prevote-IsSafe, on_majority_prevote_any-IsSafe, on_majority_prevote_null-IsSafe,
  on_majority_precommit_any-IsSafe, on_majority_precommit_without_proposal-IsSafe, and_right,
}

-- Nothing was signed at that round of the current block number or later.
abbrev pub IsNew : ℕ → Consensus → Type 0
IsNew round n = IsSafeAt n.block_number round 0 (round_of n.locked_value) n.log × IsRestorable n.log

-- What a start of a round has to keep.
abbrev pub IsStart : (ℕ → M (Unit {0})) → Type 0
IsStart start =
    (round : ℕ) (n : Consensus) → IsSafe n → IsNew round n → Keeps IsSafe (start round n)

-- A chain of actions that each keep the invariant.
pub then-IsSafe :
    {A B : Type 0} (o : Outcome A) (f : A → M B)
    → Keeps IsSafe o
    → ((a : A) (n : Consensus) → IsSafe n → Keeps IsSafe (f a n))
    → Keeps IsSafe (continue o f)
then-IsSafe o f = Ends-continue (λ _ n. IsSafe n) (λ _ n. IsSafe n) IsSafe o f

pub when-IsSafe :
    (b : Bool) (m : M (Unit {0})) (n : Consensus)
    → IsSafe n
    → (b ≡ true → Keeps IsSafe (m n))
    → Keeps IsSafe (when b m n)
when-IsSafe b m n h k = Ends-when (λ _ m. IsSafe m) IsSafe b m n k (λ _. h)

prepare_proposal-IsSafe :
    (w : World) (ref : RoundRef) (n : Consensus)
    → IsSafe n
    → Keeps IsSafe (prepare_proposal w ref n)
unfolding prepare_proposal
prepare_proposal-IsSafe w ref n h =
    when-IsSafe _ _ n h
      (λ _. Keeps-lift IsSafe _ _ n h (λ proposer _. when-IsSafe _ _ n h (λ _. h)))

begin_propose-IsSafe :
    (w : World) (ref : RoundRef) (n : Consensus) → IsSafe n → Keeps IsSafe (begin_propose w ref n)
unfolding begin_propose
begin_propose-IsSafe w ref n h =
    Keeps-lift IsSafe _ _ n h
      (λ timestamp _. when-IsSafe _ _ _ h (λ _. prepare_proposal-IsSafe w ref _ h))

pub begin_round-IsSafe : (w : World) (n : Consensus) → IsSafe n → Keeps IsSafe (begin_round w n)
unfolding begin_round
begin_round-IsSafe w n h = when-IsSafe _ _ _ h (λ _.
    Keeps-lift IsSafe _ _ _ h
      (λ proposer _. when-IsSafe _ _ _ h (λ _. begin_propose-IsSafe w _ _ h)))

persist_state-IsSafe : (w : World) (n : Consensus) → IsSafe n → Keeps IsSafe (persist_state w n)
persist_state-IsSafe w n h = elim (Bool-cases (w.stored n.tick)) [
  | inl e ↦ rw e (h.0, h.0)
  | inr e ↦ rw e h
]

-- Entering a new round is safe.
open_and_begin-IsSafe :
    (w : World) (round : ℕ) (n : Consensus)
    → IsNew round n
    → Keeps IsSafe (open_and_begin w round n)
unfolding open_and_begin
open_and_begin-IsSafe w round n h =
    then-IsSafe _ _
      (when-IsSafe (ltb 0 round) (persist_state w) _ h (λ _. persist_state-IsSafe w _ h))
      (λ _ m k. begin_round-IsSafe w m k)

-- At the next block number nothing was signed, and no lock is needed.
next_block-IsNew : (n : Consensus) → IsSafe n → IsNew 0 (next_block n)
next_block-IsNew n h = (
  (
    IsBounded-Reaches n.block_number n.round (rank n.step) (n.block_number + 1) 0 0 n.log
        (inl (omega arith)) h.0.0,
    h.0.1,
    h.0.2,
    IsLocked-next n.block_number n.round (rank n.step) (n.block_number + 1) none n.log (omega arith)
        h.0.0,
  ),
  h.1,
)

first-Reaches : (b r k : ℕ) → Reaches b 0 0 b r k
first-Reaches b zero k = inr (inr (refl, refl, omega arith))
first-Reaches b (suc r) k = inr (inl (refl, omega arith))

next_block-IsSafe : (n : Consensus) → IsSafe n → IsSafe (next_block n)
next_block-IsSafe n h =
    let new = next_block-IsNew n h in
    (
      (
        IsBounded-Reaches (n.block_number + 1) 0 0 (n.block_number + 1) n.round (rank n.step) n.log
            (first-Reaches (n.block_number + 1) n.round (rank n.step)) new.0.0,
        new.0.1,
        new.0.2,
        new.0.3,
      ),
      new.1,
    )

pub later_round-IsNew : (round : ℕ) (n : Consensus) → n.round < round → IsSafe n → IsNew round n
later_round-IsNew round n lt h = (
  (
    IsBounded-Reaches n.block_number n.round (rank n.step) n.block_number round 0 n.log
        (inr (inl (refl, lt))) h.0.0,
    h.0.1,
    h.0.2,
    h.0.3,
  ),
  h.1,
)

-- The fields once the processor has committed the block.
abbrev after_commit : World → ℕ → Consensus → Consensus
after_commit w number n = record n {
  log = committed number ∷ n.log;
  tick = suc n.tick;
  rounds = w.arrive n.tick n.rounds;
}

module _ (w : World) (start : ℕ → M (Unit {0})) (starts : IsStart start) where
  commit_block-IsSafe :
      (number : ℕ) (n : Consensus) → IsSafe n → Keeps IsSafe (commit_block w start number n)
  unfolding commit_block
  commit_block-IsSafe number n h =
      then-IsSafe _ (λ _ m. start 0 (next_block (after_commit w number m)))
        (when-IsSafe _ _ _ h (λ _. h))
        (λ _ m k.
          starts 0 (next_block (after_commit w number m))
            (next_block-IsSafe (after_commit w number m) k)
            (next_block-IsNew (after_commit w number m) k))

  pub on_majority_precommit-IsSafe :
      (unit : Processable) (is_round_state : Bool) (n : Consensus)
      → IsSafe n
      → Keeps IsSafe (on_majority_precommit w start unit is_round_state n)
  unfolding on_majority_precommit
  on_majority_precommit-IsSafe unit is_round_state n h = when-IsSafe _ _ n h (λ _.
      then-IsSafe _ _ (when-IsSafe is_round_state _ n h (λ _. h)) (λ _ m k.
        Keeps-lift IsSafe unit.block _ m k (λ block _.
          Keeps-lift IsSafe unit.result _ m k (λ result _.
            when-IsSafe result.success _ m k (λ _. commit_block-IsSafe unit.block_number m k)))))

  on_minority_with_higher_round-IsSafe :
      (ref : RoundRef) (n : Consensus)
      → IsSafe n
      → Keeps IsSafe (on_minority_with_higher_round w start ref n)
  unfolding on_minority_with_higher_round
  on_minority_with_higher_round-IsSafe ref n h =
      when-IsSafe _ _ n h
        (λ e. starts ref.round n h (later_round-IsNew ref.round n (higher (and_right _ _ e)) h))
    where
      higher : ltb n.round ref.round ≡ true → n.round < ref.round
      higher e = ground arith

  upon-IsSafe :
      (test : RoundState → Bool) (ref : RoundRef) (rule : M (Unit {0})) (n : Consensus)
      → IsSafe n
      → Keeps IsSafe (rule n)
      → Keeps IsSafe (upon w test ref rule n)
  upon-IsSafe test ref rule n h k = when-IsSafe _ _ n h (λ _. k)

  apply_vote_rules-IsSafe :
      (ref : RoundRef) (n : Consensus) → IsSafe n → Keeps IsSafe (apply_vote_rules w ref n)
  unfolding apply_vote_rules
  apply_vote_rules-IsSafe ref n h =
      then-IsSafe (process_proposal w ref n) _ (process_proposal-IsSafe w ref n h) (λ _ n h.
        then-IsSafe (on_proposal w ref n) _ (on_proposal-IsSafe w ref n h) (λ _ n h.
          then-IsSafe (on_proposal_locked w ref n) _ (on_proposal_locked-IsSafe w ref n h) (λ _ n h.
            then-IsSafe (upon w (has_majority_prevotes w.env) ref (on_majority_prevote w ref) n) _
              (upon-IsSafe (has_majority_prevotes w.env) ref (on_majority_prevote w ref) n h
                (on_majority_prevote-IsSafe w ref n h))
              (λ _ n h.
                then-IsSafe
                  (upon w (has_majority_prevotes_any w.env) ref (on_majority_prevote_any w ref) n) _
                  (upon-IsSafe (has_majority_prevotes_any w.env) ref (on_majority_prevote_any w ref)
                    n h (on_majority_prevote_any-IsSafe w ref n h))
                  (λ _ n h.
                    then-IsSafe
                      (upon w (has_majority_prevotes_null w.env) ref
                        (on_majority_prevote_null w ref) n)
                      _
                      (upon-IsSafe (has_majority_prevotes_null w.env) ref
                        (on_majority_prevote_null w ref) n h
                        (on_majority_prevote_null-IsSafe w ref n h))
                      (λ _ n h.
                        upon-IsSafe (has_majority_precommits_any w.env) ref
                          (on_majority_precommit_any w ref) n h
                          (on_majority_precommit_any-IsSafe w ref n h)))))))

  pub apply_rules_with-IsSafe :
      (ref : RoundRef) (n : Consensus) → IsSafe n → Keeps IsSafe (apply_rules_with w start ref n)
  unfolding apply_rules_with on_round_majority_precommit
  apply_rules_with-IsSafe ref n h = when-IsSafe _ _ n h (λ _.
      then-IsSafe (apply_vote_rules w ref n) _ (apply_vote_rules-IsSafe ref n h) (λ _ n h.
        then-IsSafe
          (upon w (has_majority_precommits w.env) ref (on_round_majority_precommit w start ref) n) _
          (upon-IsSafe (has_majority_precommits w.env) ref (on_round_majority_precommit w start ref)
            n h (on_majority_precommit-IsSafe (unit_of (deref w.env ref n)) true n h))
          (λ _ n h.
            then-IsSafe
              (upon w (has_majority_precommits_without_proposal w.env) ref
                (on_majority_precommit_without_proposal w ref) n)
              _
              (upon-IsSafe (has_majority_precommits_without_proposal w.env) ref
                (on_majority_precommit_without_proposal w ref) n h
                (on_majority_precommit_without_proposal-IsSafe w ref n h))
              (λ _ n h.
                upon-IsSafe (has_minority_prevotes_or_precommits w.env) ref
                  (on_minority_with_higher_round w start ref) n h
                  (on_minority_with_higher_round-IsSafe ref n h)))))

  pub apply_here-IsSafe : (n : Consensus) → IsSafe n → Keeps IsSafe (apply_here w start n)
  apply_here-IsSafe n h = when-IsSafe _ _ n h (λ _. apply_rules_with-IsSafe _ _ h)

-- With any fuel, a round that is new may be started.
pub start_round-IsStart : (w : World) (fuel : ℕ) → IsStart (start_round w fuel)
unfolding start_round
start_round-IsStart w zero round n safe h = safe
start_round-IsStart w (suc fuel) round n safe h =
    then-IsSafe (open_and_begin w round n) _ (open_and_begin-IsSafe w round n h)
      (λ _ m k. apply_here-IsSafe w (start_round w fuel) (start_round-IsStart w fuel) m k)
