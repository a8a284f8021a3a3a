-- ===== src/Consensus/Commits/Rules.antt =====
-- The rules that start no round commit no block.
use mainsail.Prelude.{ℕ, suc, inl, inr, Option, none, some, List, [], ◌∷◌, Bool-cases}
use mainsail.Contracts.{MessageType, Block, Proposal}
use mainsail.RoundState.{RoundState}
use mainsail.LockProof.{has_valid_lock_proof}
use mainsail.Consensus.State.{
  Consensus, World, RoundRef, Step, Effect, persisted, voted, dispatched, proposal_accepted,
  prevoted_proposal, prevoted_null, prevoted_any, precommitted_any, get_state,
}
use mainsail.Consensus.Monad.{persist_state}
use mainsail.Consensus.Voting.{vote, save_message, vote_each, prevote, precommit}
use mainsail.Consensus.Rules.{
  is_step, run_processor, run_deserialized, run_proposal, process_proposal, accept_proposal,
  on_proposal, accept_locked_proposal, on_proposal_locked, lock_value, keep_valid_value,
  on_valid_majority, on_majority_prevote, on_majority_prevote_any, precommit_nil,
  on_majority_prevote_null, on_majority_precommit_any, on_majority_precommit_without_proposal,
}
use mainsail.Consensus.Safety.Hoare.{Keeps, Keeps-then, Keeps-when, Keeps-given, Keeps-lift}
use mainsail.Consensus.Commits.{IsKept, History}

module _ (w : World) (Q : ℕ → List Effect → Type 0) (kept : History Q) where
  pub persist_state-IsKept : (n : Consensus) → IsKept Q n → Keeps (IsKept Q) (persist_state w n)
  persist_state-IsKept n h = elim (Bool-cases (w.stored n.tick)) [
    | inl e ↦ rw e (kept.quiet (persisted (get_state n)) tt h)
    | inr e ↦ rw e h
  ]

  save_message-IsKept :
      (type : MessageType) (value : Option ℕ) (i tick : ℕ) (rounds : List RoundState)
      (n : Consensus)
      → IsKept Q n
      → Keeps
          (IsKept Q)
          (save_message w (vote w type value i n) (record n { tick = tick; rounds = rounds }))
  save_message-IsKept type value i tick rounds n h = elim (Bool-cases (w.stored tick)) [
    | inl e ↦ rw e (kept.quiet (voted (vote w type value i n)) tt h)
    | inr e ↦ rw e h
  ]

  vote_each-IsKept :
      (type : MessageType) (value : Option ℕ) (indices : List ℕ) (n : Consensus)
      → IsKept Q n
      → Keeps (IsKept Q) (vote_each w type value indices n)
  unfolding vote_each
  vote_each-IsKept type value [] n h = h
  vote_each-IsKept type value (i ∷ more) n h =
      Keeps-then (IsKept Q)
        (save_message w (vote w type value i n)
          (record n { tick = suc n.tick; rounds = w.arrive n.tick n.rounds }))
        (λ _. vote_each w type value more) (save_message-IsKept type value i _ _ n h)
        (λ _ m. vote_each-IsKept type value more m)

  pub prevote-IsKept :
      (value : Option ℕ) (n : Consensus) → IsKept Q n → Keeps (IsKept Q) (prevote w value n)
  unfolding prevote
  prevote-IsKept value n h = vote_each-IsKept MessageType.prevote value _ _ h

  pub precommit-IsKept :
      (value : Option ℕ) (n : Consensus) → IsKept Q n → Keeps (IsKept Q) (precommit w value n)
  unfolding precommit
  precommit-IsKept value n h = vote_each-IsKept MessageType.precommit value _ _ h

  run_deserialized-IsKept :
      (ref : RoundRef) (p : Proposal) (payload : Option Block) (n : Consensus)
      → IsKept Q n
      → Keeps (IsKept Q) (run_deserialized w ref p payload n)
  unfolding run_deserialized run_processor
  run_deserialized-IsKept ref p none n h = h
  run_deserialized-IsKept ref p (some block) n h =
      elim (Bool-cases (has_valid_lock_proof w.proof p)) [ inl e ↦ rw e h | inr e ↦ rw e h ]

  pub process_proposal-IsKept :
      (ref : RoundRef) (n : Consensus) → IsKept Q n → Keeps (IsKept Q) (process_proposal w ref n)
  unfolding process_proposal run_proposal
  process_proposal-IsKept ref n h =
      Keeps-given (IsKept Q) _ _ n h
        (λ p. Keeps-when (IsKept Q) _ _ n h (run_deserialized-IsKept ref p _ n h))

  accept_proposal-IsKept :
      (ref : RoundRef) (p : Proposal) (n : Consensus)
      → IsKept Q n
      → Keeps (IsKept Q) (accept_proposal w ref p n)
  unfolding accept_proposal
  accept_proposal-IsKept ref p n h =
      Keeps-then (IsKept Q) (persist_state w (record n { step = Step.prevote })) _
        (persist_state-IsKept _ h)
        (λ _ m h. prevote-IsKept _ _ (kept.quiet (dispatched proposal_accepted) tt h))

  accept_locked_proposal-IsKept :
      (ref : RoundRef) (p : Proposal) (v : ℕ) (n : Consensus)
      → IsKept Q n
      → Keeps (IsKept Q) (accept_locked_proposal w ref p v n)
  unfolding accept_locked_proposal
  accept_locked_proposal-IsKept ref p v n h =
      Keeps-then (IsKept Q) (persist_state w (record n { step = Step.prevote })) _
        (persist_state-IsKept _ h)
        (λ _ m h. prevote-IsKept _ _ (kept.quiet (dispatched proposal_accepted) tt h))

  pub on_proposal-IsKept :
      (ref : RoundRef) (n : Consensus) → IsKept Q n → Keeps (IsKept Q) (on_proposal w ref n)
  unfolding on_proposal
  on_proposal-IsKept ref n h =
      Keeps-given (IsKept Q) _ _ n h
        (λ p. Keeps-when (IsKept Q) _ _ n h (accept_proposal-IsKept ref p n h))

  pub on_proposal_locked-IsKept :
      (ref : RoundRef) (n : Consensus) → IsKept Q n → Keeps (IsKept Q) (on_proposal_locked w ref n)
  unfolding on_proposal_locked
  on_proposal_locked-IsKept ref n h = Keeps-given (IsKept Q) _ _ n h (λ p.
      Keeps-given (IsKept Q) _ _ n h
        (λ v. Keeps-when (IsKept Q) _ _ n h (accept_locked_proposal-IsKept ref p v n h)))

  on_valid_majority-IsKept :
      (ref : RoundRef) (p : Proposal) (n : Consensus)
      → IsKept Q n
      → Keeps (IsKept Q) (on_valid_majority w ref p n)
  unfolding on_valid_majority lock_value keep_valid_value
  on_valid_majority-IsKept ref p n h = elim (Bool-cases (is_step Step.prevote n)) [
    | inl e ↦ rw e (
        Keeps-then (IsKept Q) (persist_state w _) _ (persist_state-IsKept _ h)
          (λ _ m h. precommit-IsKept _ _ (kept.quiet (dispatched prevoted_proposal) tt h)))
    | inr e ↦ rw e (
        Keeps-then (IsKept Q) (persist_state w _) _ (persist_state-IsKept _ h)
          (λ _ m h. kept.quiet (dispatched prevoted_proposal) tt h))
  ]

  pub on_majority_prevote-IsKept :
      (ref : RoundRef) (n : Consensus) → IsKept Q n → Keeps (IsKept Q) (on_majority_prevote w ref n)
  unfolding on_majority_prevote
  on_majority_prevote-IsKept ref n h = Keeps-given (IsKept Q) _ _ n h (λ p.
      Keeps-when (IsKept Q) _ _ n h (
        Keeps-lift (IsKept Q) _ _ n h
          (λ result _. Keeps-when (IsKept Q) _ _ n h (on_valid_majority-IsKept ref p n h))))

  pub on_majority_prevote_any-IsKept :
      (ref : RoundRef) (n : Consensus)
      → IsKept Q n
      → Keeps (IsKept Q) (on_majority_prevote_any w ref n)
  unfolding on_majority_prevote_any
  on_majority_prevote_any-IsKept ref n h =
      Keeps-when (IsKept Q) _ _ n h
        (Keeps-when (IsKept Q) _ _ _ h (kept.quiet (dispatched prevoted_any) tt h))

  pub on_majority_prevote_null-IsKept :
      (ref : RoundRef) (n : Consensus)
      → IsKept Q n
      → Keeps (IsKept Q) (on_majority_prevote_null w ref n)
  unfolding on_majority_prevote_null precommit_nil
  on_majority_prevote_null-IsKept ref n h = Keeps-when (IsKept Q) _ _ n h (
      Keeps-then (IsKept Q) (persist_state w (record n { step = Step.precommit })) _
        (persist_state-IsKept _ h)
        (λ _ m h. precommit-IsKept _ _ (kept.quiet (dispatched prevoted_null) tt h)))

  pub on_majority_precommit_any-IsKept :
      (ref : RoundRef) (n : Consensus)
      → IsKept Q n
      → Keeps (IsKept Q) (on_majority_precommit_any w ref n)
  unfolding on_majority_precommit_any
  on_majority_precommit_any-IsKept ref n h =
      Keeps-when (IsKept Q) _ _ n h
        (Keeps-when (IsKept Q) _ _ _ h (kept.quiet (dispatched precommitted_any) tt h))

  pub on_majority_precommit_without_proposal-IsKept :
      (ref : RoundRef) (n : Consensus)
      → IsKept Q n
      → Keeps (IsKept Q) (on_majority_precommit_without_proposal w ref n)
  unfolding on_majority_precommit_without_proposal
  on_majority_precommit_without_proposal-IsKept ref n h = Keeps-when (IsKept Q) _ _ n h h
