-- ===== src/Consensus/Safety/Rules.antt =====
-- Each rule of Algorithm 1 that votes, locks or sets a timer keeps the invariant.
use mainsail.Prelude.{
  ℕ, ◌≡◌, refl, subst, inl, inr, Bool, true, Option, none, some, arith, ◌==◌, ◌&&◌, Bool-cases,
}
use mainsail.Contracts.{MessageType, Proposal, Block}
use mainsail.RoundState.{get_processor_result}
use mainsail.LockProof.{has_valid_lock_proof}
use mainsail.Consensus.State.{Consensus, World, RoundRef, Event, Step, rank, round_of, deref}
use mainsail.Consensus.Rules.{
  is_step, is_current_round_state, run_deserialized, run_proposal, process_proposal, on_proposal,
  on_proposal_locked, lock_value, keep_valid_value, on_valid_majority, on_majority_prevote,
  on_majority_prevote_any, precommit_nil, on_majority_prevote_null, on_majority_precommit_any,
  on_majority_precommit_without_proposal,
}
use mainsail.Consensus.Safety.Log.{IsSafeAt, IsSafe, IsLocked-here, covers}
use mainsail.Consensus.Safety.Hoare.{Ends-when, Ends-given, Keeps, Keeps-lift}
use mainsail.Consensus.Safety.Votes.{
  persist_then-IsSafe, prevote_ready-IsSafe, precommit_ready-IsSafe,
}

-- The invariant, at a step that a guard has found.
pub IsSafeAt-step :
    (s : Step) (n : Consensus)
    → IsSafe n
    → is_step s n ≡ true
    → IsSafeAt n.block_number n.round (rank s) (round_of n.locked_value) n.log
IsSafeAt-step s n h e =
    subst (λ k. IsSafeAt n.block_number n.round k (round_of n.locked_value) n.log)
      (step_eq (rank n.step) (rank s) e) h.0
  where
    step_eq : (a b : ℕ) → (a == b) ≡ true → a ≡ b
    step_eq a b e = ground arith

pub and_left : (a b : Bool) → (a && b) ≡ true → a ≡ true
and_left a b h = ground arith

pub and_right : (a b : Bool) → (a && b) ≡ true → b ≡ true
and_right a b h = ground arith

module _ (w : World) (ref : RoundRef) (n : Consensus) (h : IsSafe n) where
  run_deserialized-IsSafe :
      (p : Proposal) (block : Option Block) → Keeps IsSafe (run_deserialized w ref p block n)
  unfolding run_deserialized
  run_deserialized-IsSafe p none = h
  run_deserialized-IsSafe p (some block) = elim (Bool-cases (has_valid_lock_proof w.proof p)) [
    | inl e ↦ rw e h
    | inr e ↦ rw e h
  ]

  pub process_proposal-IsSafe : Keeps IsSafe (process_proposal w ref n)
  unfolding process_proposal run_proposal
  process_proposal-IsSafe =
      Ends-given (λ _ m. IsSafe m) IsSafe (deref w.env ref n).proposal _ n
        (λ p _.
          Ends-when (λ _ m. IsSafe m) IsSafe _ _ n (λ _. run_deserialized-IsSafe p _) (λ _. h))
        h

  pub on_majority_prevote_any-IsSafe : Keeps IsSafe (on_majority_prevote_any w ref n)
  unfolding on_majority_prevote_any
  on_majority_prevote_any-IsSafe =
      Ends-when (λ _ m. IsSafe m) IsSafe _ _ n
        (λ _. Ends-when (λ _ m. IsSafe m) IsSafe _ _ _ (λ _. h) (λ _. h)) (λ _. h)

  pub on_majority_precommit_any-IsSafe : Keeps IsSafe (on_majority_precommit_any w ref n)
  unfolding on_majority_precommit_any
  on_majority_precommit_any-IsSafe =
      Ends-when (λ _ m. IsSafe m) IsSafe _ _ n
        (λ _. Ends-when (λ _ m. IsSafe m) IsSafe _ _ _ (λ _. h) (λ _. h)) (λ _. h)

  pub on_majority_precommit_without_proposal-IsSafe :
      Keeps IsSafe (on_majority_precommit_without_proposal w ref n)
  unfolding on_majority_precommit_without_proposal
  on_majority_precommit_without_proposal-IsSafe =
      Ends-when (λ _ m. IsSafe m) IsSafe _ _ n (λ _. h) (λ _. h)

  -- Line 22.
  pub on_proposal-IsSafe : Keeps IsSafe (on_proposal w ref n)
  unfolding on_proposal
  on_proposal-IsSafe =
      Ends-given (λ _ m. IsSafe m) IsSafe (deref w.env ref n).proposal _ n
        (λ p _.
          Ends-when (λ _ m. IsSafe m) IsSafe _ _ n
            (λ e.
              persist_then-IsSafe w MessageType.prevote 0 _ _
                (
                  IsSafeAt-step Step.propose n h (and_left _ _ (and_left _ _ (and_left _ _ e))),
                  h.1,
                  omega arith,
                  refl,
                )
                (λ m r _ _. prevote_ready-IsSafe w _ _ r))
            (λ _. h))
        h

  -- Line 28.
  pub on_proposal_locked-IsSafe : Keeps IsSafe (on_proposal_locked w ref n)
  unfolding on_proposal_locked
  on_proposal_locked-IsSafe =
      Ends-given (λ _ m. IsSafe m) IsSafe (deref w.env ref n).proposal _ n
        (λ p _.
          Ends-given (λ _ m. IsSafe m) IsSafe p.valid_round _ n
            (λ valid_round _.
              Ends-when (λ _ m. IsSafe m) IsSafe _ _ n
                (λ e.
                  persist_then-IsSafe w MessageType.prevote 0 _ _
                    (
                      IsSafeAt-step Step.propose n h
                          (and_left _ _ (and_left _ _ (and_left _ _ (and_left _ _ e)))),
                      h.1,
                      omega arith,
                      refl,
                    )
                    (λ m r _ _. prevote_ready-IsSafe w _ _ r))
                (λ _. h))
            h)
        h

  -- Line 44.
  pub on_majority_prevote_null-IsSafe : Keeps IsSafe (on_majority_prevote_null w ref n)
  unfolding on_majority_prevote_null
  on_majority_prevote_null-IsSafe =
      Ends-when (λ _ m. IsSafe m) IsSafe _ _ n
        (λ e.
          persist_then-IsSafe w MessageType.precommit 1 _ _
            (
              IsSafeAt-step Step.prevote n h (and_left (is_step Step.prevote n) _ e),
              h.1,
              omega arith,
              refl,
            )
            (λ m r _ _. precommit_ready-IsSafe w none _ r refl))
        (λ _. h)

round_eq :
    (ref : RoundRef) (n : Consensus) → is_current_round_state ref n ≡ true → ref.round ≡ n.round
round_eq ref n e = ground arith

-- Locking the current round covers every precommit so far, and lets the node precommit the locked block.
lock_value-IsSafe :
    (w : World) (ref : RoundRef) (p : Proposal) (n : Consensus)
    → IsSafe n
    → is_step Step.prevote n ≡ true
    → ref.round ≡ n.round
    → Keeps IsSafe (lock_value w ref p n)
unfolding lock_value
lock_value-IsSafe w ref p n h step here =
    let safe = IsSafeAt-step Step.prevote n h step in
    persist_then-IsSafe w MessageType.precommit 1 _ _
      (
        (
          safe.0,
          safe.1,
          safe.2,
          IsLocked-here n.block_number n.round 1 ref.round n.log here safe.0,
        ),
        h.1,
        omega arith,
        refl,
      )
      (λ m r locked round.
        precommit_ready-IsSafe w (some p.block_header.hash) _ r (covered m locked round))
  where
    covered :
        (m : Consensus)
        → m.locked_value ≡ some ref
        → m.round ≡ n.round
        → covers (round_of m.locked_value) m.round ≡ true
    covered m locked round = ground arith

keep_valid_value-IsSafe :
    (w : World) (ref : RoundRef) (n : Consensus)
    → IsSafe n
    → Keeps IsSafe (keep_valid_value w ref n)
unfolding keep_valid_value
keep_valid_value-IsSafe w ref n h = elim (Bool-cases (w.stored n.tick)) [
  | inl e ↦ rw e (h.0, h.0)
  | inr e ↦ rw e h
]

on_valid_majority-IsSafe :
    (w : World) (ref : RoundRef) (p : Proposal) (n : Consensus)
    → IsSafe n
    → ref.round ≡ n.round
    → Keeps IsSafe (on_valid_majority w ref p n)
unfolding on_valid_majority
on_valid_majority-IsSafe w ref p n h here = elim (Bool-cases (is_step Step.prevote n)) [
  | inl e ↦ rw e (lock_value-IsSafe w ref p (record n { did_majority_prevote = true }) h e here)
  | inr e ↦ rw e (keep_valid_value-IsSafe w ref (record n { did_majority_prevote = true }) h)
]

-- Line 36.
pub on_majority_prevote-IsSafe :
    (w : World) (ref : RoundRef) (n : Consensus)
    → IsSafe n
    → Keeps IsSafe (on_majority_prevote w ref n)
unfolding on_majority_prevote
on_majority_prevote-IsSafe w ref n h =
    Ends-given (λ _ m. IsSafe m) IsSafe (deref w.env ref n).proposal _ n
      (λ p _.
        Ends-when (λ _ m. IsSafe m) IsSafe _ _ n
          (λ e. Keeps-lift IsSafe (get_processor_result (deref w.env ref n)) _ n h (λ result _.
            Ends-when (λ _ m. IsSafe m) IsSafe result.success _ n
              (λ _. on_valid_majority-IsSafe w ref p n h (round_eq ref n (and_right _ _ e)))
              (λ _. h)))
          (λ _. h))
      h

-- A step is left for the next one: the state is written, and the votes are nil.
pub precommit_nil-IsSafe :
    (w : World) (event : Event) (n : Consensus)
    → IsSafe n
    → is_step Step.prevote n ≡ true
    → Keeps IsSafe (precommit_nil w event n)
unfolding precommit_nil
precommit_nil-IsSafe w event n h e =
    persist_then-IsSafe w MessageType.precommit 1 _ _
      (IsSafeAt-step Step.prevote n h e, h.1, omega arith, refl)
      (λ m r _ _. precommit_ready-IsSafe w none _ r refl)
