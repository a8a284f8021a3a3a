-- ===== src/Consensus/Commits/Inputs.antt =====
-- What the inputs of a node keep of its block number and its log.
use mainsail.Prelude.{suc, Bool-cases, inl, inr, false, ℕ, ◌+◌, Option, none, some, List, [], ◌∷◌}
use mainsail.Contracts.{Block, BlockProcessorResult, Proposal}
use mainsail.Consensus.State.{
  Consensus, World, RoundRef, Promise, Step, get_or_create, dispatched, bootstrapped, Effect,
  saved_proposal, submitted,
}
use mainsail.Consensus.Monad.{Outcome, done, threw, continue, when, persist_state}
use mainsail.Consensus.Rounds.{start_round, apply_rules, begin_round, apply_here}
use mainsail.Consensus.Events.{
  InitialState, CommitState, commit_unit, restore, run, dispose, handle, handle_commit_state,
  on_timeout_propose, on_timeout_prevote, on_timeout_precommit, on_timeout_block_prepare,
  on_proposal_built, Input, handles, handles_commit, propose_times_out, prevote_times_out,
  precommit_times_out, block_is_due, proposal_is_built, disposes, take, take_all, after, submit,
  vote_nil_prevote, vote_nil_precommit,
}
use mainsail.Timing.{fire_propose, fire_prevote, fire_precommit}
use mainsail.Consensus.Voting.{prevote, precommit}
use mainsail.Consensus.Safety.Hoare.{Keeps, Keeps-then, Keeps-when}
use mainsail.Consensus.Commits.{History, IsKept}
use mainsail.Consensus.Commits.Rules.{persist_state-IsKept, prevote-IsKept, precommit-IsKept}
use mainsail.Consensus.Commits.Rounds.{
  begin_round-IsKept, on_majority_precommit-IsKept, apply_rules_with-IsKept, apply_here-IsKept,
  start_round-IsStart,
}

pub after-IsKept :
    {A : Type 0} (Q : ℕ → List Effect → Type 0) (o : Outcome A)
    → Keeps (IsKept Q) o
    → IsKept Q (after o)
after-IsKept Q (done a n) h = h
after-IsKept Q (threw e n) h = h

-- The fields once `run` has restored the state.
abbrev restarted : World → InitialState → Consensus → Consensus
restarted w s n = record (restore s n) {
  log = dispatched bootstrapped ∷ n.log;
  tick = suc n.tick;
  rounds = w.arrive n.tick n.rounds;
}

-- The fields once the round state was looked up, and when a nil precommit is written.
abbrev with_round : World → Consensus → Consensus
with_round w n = record n { rounds = (get_or_create w.env n.block_number n.round n.rounds).1 }

abbrev nil_precommit : World → Consensus → Consensus
nil_precommit w n = record (with_round w n) { step = Step.precommit }

module _ (w : World) (process_commit : Block → Option BlockProcessorResult) (fuel : ℕ)
    (Q : ℕ → List Effect → Type 0) (kept : History Q) where
  abbrev P : Consensus → Type 0
  P = IsKept Q

  submit-IsKept :
      (p : Option Proposal) (n : Consensus) → P n → Keeps P (submit w process_commit fuel p n)
  unfolding when
  submit-IsKept none n h = h
  submit-IsKept (some p) n h = elim (Bool-cases (w.stored n.tick)) [
    | inl e ↦ rw (e, when) (kept.quiet (submitted p) tt (kept.quiet (saved_proposal p) tt h))
    | inr e ↦ rw (e, when) h
  ]

  handle-IsKept :
      (ref : RoundRef) (n : Consensus) → P n → Keeps P (handle w process_commit fuel ref n)
  unfolding handle apply_rules
  handle-IsKept ref n h = Keeps-when P _ _ n h (
      apply_rules_with-IsKept w Q kept (start_round w fuel) (start_round-IsStart w Q kept fuel) ref
        n h)

  pub handle_commit_state-IsKept :
      (c : CommitState) (n : Consensus)
      → P n
      → Keeps P (handle_commit_state w process_commit fuel c n)
  unfolding handle_commit_state
  handle_commit_state-IsKept c n h = Keeps-when P _ _ n h (
      on_majority_precommit-IsKept w Q kept (start_round w fuel) (start_round-IsStart w Q kept fuel)
        (commit_unit w process_commit fuel c) false
        (record n { tick = suc n.tick; rounds = w.arrive n.tick n.rounds }) h)

  on_timeout_propose-IsKept :
      (b r : ℕ) (n : Consensus) → P n → Keeps P (on_timeout_propose w process_commit fuel b r n)
  unfolding on_timeout_propose vote_nil_prevote
  on_timeout_propose-IsKept b r n h = Keeps-when P _ _ n h (
      Keeps-then P (persist_state w (record n { step = Step.prevote })) (λ _. prevote w none)
        (persist_state-IsKept w Q kept (record n { step = Step.prevote }) h)
        (λ _ m k. prevote-IsKept w Q kept none m k))

  on_timeout_prevote-IsKept :
      (b r : ℕ) (n : Consensus) → P n → Keeps P (on_timeout_prevote w process_commit fuel b r n)
  unfolding on_timeout_prevote vote_nil_precommit
  on_timeout_prevote-IsKept b r n h = Keeps-when P _ _ n h (
      Keeps-then P (persist_state w (nil_precommit w n)) (λ _. precommit w none)
        (persist_state-IsKept w Q kept (nil_precommit w n) h)
        (λ _ m k. precommit-IsKept w Q kept none m k))

  on_timeout_precommit-IsKept :
      (b r : ℕ) (n : Consensus) → P n → Keeps P (on_timeout_precommit w process_commit fuel b r n)
  unfolding on_timeout_precommit
  on_timeout_precommit-IsKept b r n h =
      Keeps-when P _ _ n h (start_round-IsStart w Q kept fuel (n.round + 1) (with_round w n) h)

  on_proposal_built-IsKept :
      (held : Promise) (n : Consensus)
      → P n
      → Keeps P (on_proposal_built w process_commit fuel held n)
  unfolding on_proposal_built
  on_proposal_built-IsKept held n h =
      Keeps-when P _ _ n h (submit-IsKept held.proposal (record n { proposal_promise = none }) h)

  take-IsKept : (i : Input) (n : Consensus) → P n → P (take w process_commit fuel i n)
  unfolding take
  take-IsKept (handles ref) n h =
      after-IsKept Q (handle w process_commit fuel ref n) (handle-IsKept ref n h)
  take-IsKept (handles_commit c) n h =
      after-IsKept Q (handle_commit_state w process_commit fuel c n)
        (handle_commit_state-IsKept c n h)
  take-IsKept (propose_times_out b r) n h =
      after-IsKept Q
        (on_timeout_propose w process_commit fuel b r
          (record n { scheduler = fire_propose n.scheduler }))
        (on_timeout_propose-IsKept b r (record n { scheduler = fire_propose n.scheduler }) h)
  take-IsKept (prevote_times_out b r) n h =
      after-IsKept Q
        (on_timeout_prevote w process_commit fuel b r
          (record n { scheduler = fire_prevote n.scheduler }))
        (on_timeout_prevote-IsKept b r (record n { scheduler = fire_prevote n.scheduler }) h)
  take-IsKept (precommit_times_out b r) n h =
      after-IsKept Q
        (on_timeout_precommit w process_commit fuel b r
          (record n { scheduler = fire_precommit n.scheduler }))
        (on_timeout_precommit-IsKept b r (record n { scheduler = fire_precommit n.scheduler }) h)
  take-IsKept block_is_due n h = unfold on_timeout_block_prepare in h
  take-IsKept (proposal_is_built held) n h =
      after-IsKept Q (on_proposal_built w process_commit fuel held n)
        (on_proposal_built-IsKept held n h)
  take-IsKept disposes n h = unfold dispose in h

  pub take_all-IsKept :
      (inputs : List Input) (n : Consensus) → P n → P (take_all w process_commit fuel inputs n)
  unfolding take_all
  take_all-IsKept [] n h = h
  take_all-IsKept (i ∷ more) n h = take_all-IsKept more _ (take-IsKept i n h)

  pub run-IsKept :
      (s : InitialState) (n : Consensus)
      → Q s.block_number n.log
      → P (after (run w process_commit fuel s n))
  unfolding run
  run-IsKept s n h =
      after-IsKept Q
        (continue (begin_round w (restarted w s n)) (λ _. apply_here w (start_round w fuel)))
        (Keeps-then P (begin_round w (restarted w s n)) (λ _. apply_here w (start_round w fuel))
          (begin_round-IsKept w Q kept (restarted w s n)
            (kept.quiet (dispatched bootstrapped) tt h))
          (λ _ m k.
            apply_here-IsKept w Q kept (start_round w fuel) (start_round-IsStart w Q kept fuel) m
              k))
