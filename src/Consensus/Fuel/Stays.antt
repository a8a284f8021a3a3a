-- ===== src/Consensus/Fuel/Stays.antt =====
-- The rules that start no round keep the position and do not lack fuel.
use mainsail.Prelude.{
  ℕ, suc, inl, inr, Option-cases, ◌≡◌, Option, none, some, List, [], ◌∷◌, Bool-cases,
}
use mainsail.Contracts.{MessageType, Block, Proposal}
use mainsail.RoundState.{RoundState, get_processor_result}
use mainsail.LockProof.{has_valid_lock_proof}
use mainsail.Consensus.State.{Consensus, World, RoundRef, Step, deref}
use mainsail.Consensus.Monad.{persist_state}
use mainsail.Consensus.Voting.{vote, save_message, vote_each, prevote, precommit}
use mainsail.Consensus.Rules.{
  is_step, run_processor, run_deserialized, run_proposal, process_proposal, accept_proposal,
  on_proposal, accept_locked_proposal, on_proposal_locked, lock_value, keep_valid_value,
  on_valid_majority, on_majority_prevote, on_majority_prevote_any, precommit_nil,
  on_majority_prevote_null, on_majority_precommit_any, on_majority_precommit_without_proposal,
}
use mainsail.Consensus.Fuel.{Stays, IsFine, Stays-continue, Stays-when, Stays-given, Stays-lift}

pub get_processor_result-IsFine : (rs : RoundState) → IsFine (get_processor_result rs)
get_processor_result-IsFine rs = elim (Option-cases rs.processor_result) [
  | inl e ↦ rw e tt
  | inr (result, e) ↦ rw e tt
]

module _ (w : World) (b r : ℕ) where
  pub persist_state-Stays :
      (n : Consensus) → n.block_number ≡ b → n.round ≡ r → Stays b r (persist_state w n)
  persist_state-Stays n h k = elim (Bool-cases (w.stored n.tick)) [
    | inl e ↦ rw e (h, k)
    | inr e ↦ rw e tt
  ]

  save_message-Stays :
      (type : MessageType) (value : Option ℕ) (i tick : ℕ) (rounds : List RoundState)
      (n : Consensus)
      → n.block_number ≡ b
      → n.round ≡ r
      → Stays b r
          (save_message w (vote w type value i n) (record n { tick = tick; rounds = rounds }))
  save_message-Stays type value i tick rounds n h k = elim (Bool-cases (w.stored tick)) [
    | inl e ↦ rw e (h, k)
    | inr e ↦ rw e tt
  ]

  vote_each-Stays :
      (type : MessageType) (value : Option ℕ) (indices : List ℕ) (n : Consensus)
      → n.block_number ≡ b
      → n.round ≡ r
      → Stays b r (vote_each w type value indices n)
  unfolding vote_each
  vote_each-Stays type value [] n h k = (h, k)
  vote_each-Stays type value (i ∷ more) n h k =
      Stays-continue b r
        (save_message w (vote w type value i n)
          (record n { tick = suc n.tick; rounds = w.arrive n.tick n.rounds }))
        (λ _. vote_each w type value more) (save_message-Stays type value i _ _ n h k)
        (λ _ m. vote_each-Stays type value more m)

  prevote-Stays :
      (value : Option ℕ) (n : Consensus)
      → n.block_number ≡ b
      → n.round ≡ r
      → Stays b r (prevote w value n)
  unfolding prevote
  prevote-Stays value n h k = vote_each-Stays MessageType.prevote value _ _ h k

  precommit-Stays :
      (value : Option ℕ) (n : Consensus)
      → n.block_number ≡ b
      → n.round ≡ r
      → Stays b r (precommit w value n)
  unfolding precommit
  precommit-Stays value n h k = vote_each-Stays MessageType.precommit value _ _ h k

  run_deserialized-Stays :
      (ref : RoundRef) (p : Proposal) (payload : Option Block) (n : Consensus)
      → n.block_number ≡ b
      → n.round ≡ r
      → Stays b r (run_deserialized w ref p payload n)
  unfolding run_deserialized run_processor
  run_deserialized-Stays ref p none n h k = (h, k)
  run_deserialized-Stays ref p (some block) n h k =
      elim (Bool-cases (has_valid_lock_proof w.proof p)) [
        | inl e ↦ rw e (h, k)
        | inr e ↦ rw e (h, k)
      ]

  pub process_proposal-Stays :
      (ref : RoundRef) (n : Consensus)
      → n.block_number ≡ b
      → n.round ≡ r
      → Stays b r (process_proposal w ref n)
  unfolding process_proposal run_proposal
  process_proposal-Stays ref n h k =
      Stays-given b r _ _ n h k
        (λ p. Stays-when b r _ _ n h k (run_deserialized-Stays ref p _ n h k))

  accept_proposal-Stays :
      (ref : RoundRef) (p : Proposal) (n : Consensus)
      → n.block_number ≡ b
      → n.round ≡ r
      → Stays b r (accept_proposal w ref p n)
  unfolding accept_proposal
  accept_proposal-Stays ref p n h k =
      Stays-continue b r (persist_state w (record n { step = Step.prevote })) _
        (persist_state-Stays _ h k) (λ _ m h k. prevote-Stays _ _ h k)

  accept_locked_proposal-Stays :
      (ref : RoundRef) (p : Proposal) (v : ℕ) (n : Consensus)
      → n.block_number ≡ b
      → n.round ≡ r
      → Stays b r (accept_locked_proposal w ref p v n)
  unfolding accept_locked_proposal
  accept_locked_proposal-Stays ref p v n h k =
      Stays-continue b r (persist_state w (record n { step = Step.prevote })) _
        (persist_state-Stays _ h k) (λ _ m h k. prevote-Stays _ _ h k)

  pub on_proposal-Stays :
      (ref : RoundRef) (n : Consensus)
      → n.block_number ≡ b
      → n.round ≡ r
      → Stays b r (on_proposal w ref n)
  unfolding on_proposal
  on_proposal-Stays ref n h k =
      Stays-given b r _ _ n h k (λ p. Stays-when b r _ _ n h k (accept_proposal-Stays ref p n h k))

  pub on_proposal_locked-Stays :
      (ref : RoundRef) (n : Consensus)
      → n.block_number ≡ b
      → n.round ≡ r
      → Stays b r (on_proposal_locked w ref n)
  unfolding on_proposal_locked
  on_proposal_locked-Stays ref n h k = Stays-given b r _ _ n h k (λ p.
      Stays-given b r _ _ n h k
        (λ v. Stays-when b r _ _ n h k (accept_locked_proposal-Stays ref p v n h k)))

  on_valid_majority-Stays :
      (ref : RoundRef) (p : Proposal) (n : Consensus)
      → n.block_number ≡ b
      → n.round ≡ r
      → Stays b r (on_valid_majority w ref p n)
  unfolding on_valid_majority lock_value keep_valid_value
  on_valid_majority-Stays ref p n h k = elim (Bool-cases (is_step Step.prevote n)) [
    | inl e ↦ rw e (
        Stays-continue b r (persist_state w _) _ (persist_state-Stays _ h k)
          (λ _ m h k. precommit-Stays _ _ h k))
    | inr e ↦
        rw e
          (Stays-continue b r (persist_state w _) _ (persist_state-Stays _ h k) (λ _ m h k. (h, k)))
  ]

  pub on_majority_prevote-Stays :
      (ref : RoundRef) (n : Consensus)
      → n.block_number ≡ b
      → n.round ≡ r
      → Stays b r (on_majority_prevote w ref n)
  unfolding on_majority_prevote
  on_majority_prevote-Stays ref n h k = Stays-given b r _ _ n h k (λ p. Stays-when b r _ _ n h k (
      Stays-lift b r _ _ n (get_processor_result-IsFine (deref w.env ref n))
        (λ result. Stays-when b r _ _ n h k (on_valid_majority-Stays ref p n h k))))

  pub on_majority_prevote_any-Stays :
      (ref : RoundRef) (n : Consensus)
      → n.block_number ≡ b
      → n.round ≡ r
      → Stays b r (on_majority_prevote_any w ref n)
  unfolding on_majority_prevote_any
  on_majority_prevote_any-Stays ref n h k =
      Stays-when b r _ _ n h k (Stays-when b r _ _ _ h k (h, k))

  pub on_majority_prevote_null-Stays :
      (ref : RoundRef) (n : Consensus)
      → n.block_number ≡ b
      → n.round ≡ r
      → Stays b r (on_majority_prevote_null w ref n)
  unfolding on_majority_prevote_null precommit_nil
  on_majority_prevote_null-Stays ref n h k = Stays-when b r _ _ n h k (
      Stays-continue b r (persist_state w (record n { step = Step.precommit })) _
        (persist_state-Stays _ h k) (λ _ m h k. precommit-Stays _ _ h k))

  pub on_majority_precommit_any-Stays :
      (ref : RoundRef) (n : Consensus)
      → n.block_number ≡ b
      → n.round ≡ r
      → Stays b r (on_majority_precommit_any w ref n)
  unfolding on_majority_precommit_any
  on_majority_precommit_any-Stays ref n h k =
      Stays-when b r _ _ n h k (Stays-when b r _ _ _ h k (h, k))

  pub on_majority_precommit_without_proposal-Stays :
      (ref : RoundRef) (n : Consensus)
      → n.block_number ≡ b
      → n.round ≡ r
      → Stays b r (on_majority_precommit_without_proposal w ref n)
  unfolding on_majority_precommit_without_proposal
  on_majority_precommit_without_proposal-Stays ref n h k = Stays-when b r _ _ n h k (h, k)
