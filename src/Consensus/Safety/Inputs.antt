-- ===== src/Consensus/Safety/Inputs.antt =====
-- What holds of a node's votes after any list of inputs.
use mainsail.Prelude.{ℕ, ◌+◌, refl, false, Option, none, some, List, [], ◌∷◌, arith}
use mainsail.Contracts.{MessageType, Proposal, Block, BlockProcessorResult}
use mainsail.Consensus.State.{Consensus, World, RoundRef, Step, rank, round_of, Promise}
use mainsail.Consensus.Monad.{Outcome, done, threw}
use mainsail.Consensus.Rounds.{start_round, apply_rules}
use mainsail.Consensus.Events.{
  InitialState, CommitState, run, dispose, handle, handle_commit_state, on_timeout_propose,
  on_timeout_prevote, on_timeout_precommit, on_timeout_block_prepare, on_proposal_built, Input,
  handles, handles_commit, propose_times_out, prevote_times_out, precommit_times_out, block_is_due,
  proposal_is_built, disposes, take, take_all, after, submit,
}
use mainsail.Consensus.Safety.Log.{IsSafeAt, IsSafe, IsRestorable}
use mainsail.Consensus.Safety.Hoare.{Keeps}
use mainsail.Consensus.Safety.Votes.{
  persist_then-IsSafe, prevote_ready-IsSafe, precommit_ready-IsSafe,
}
use mainsail.Consensus.Safety.Rules.{IsSafeAt-step, and_left, and_right}
use mainsail.Consensus.Safety.Rounds.{
  then-IsSafe, when-IsSafe, begin_round-IsSafe, on_majority_precommit-IsSafe,
  apply_rules_with-IsSafe, apply_here-IsSafe, start_round-IsStart, later_round-IsNew,
}

after-IsSafe : {A : Type 0} (o : Outcome A) → Keeps IsSafe o → IsSafe (after o)
after-IsSafe (done a n) h = h
after-IsSafe (threw e n) h = h

module _ (w : World) (process_commit : Block → Option BlockProcessorResult) (fuel : ℕ) where
  handle-IsSafe :
      (ref : RoundRef) (n : Consensus)
      → IsSafe n
      → Keeps IsSafe (handle w process_commit fuel ref n)
  unfolding handle apply_rules
  handle-IsSafe ref n h =
      when-IsSafe _ _ n h
        (λ _. apply_rules_with-IsSafe w (start_round w fuel) (start_round-IsStart w fuel) ref n h)

  handle_commit_state-IsSafe :
      (c : CommitState) (n : Consensus)
      → IsSafe n
      → Keeps IsSafe (handle_commit_state w process_commit fuel c n)
  unfolding handle_commit_state
  handle_commit_state-IsSafe c n h = when-IsSafe _ _ n h (λ _.
      on_majority_precommit-IsSafe w (start_round w fuel) (start_round-IsStart w fuel) _ false _ h)

  on_timeout_propose-IsSafe :
      (b r : ℕ) (n : Consensus)
      → IsSafe n
      → Keeps IsSafe (on_timeout_propose w process_commit fuel b r n)
  unfolding on_timeout_propose
  on_timeout_propose-IsSafe b r n h = when-IsSafe _ _ n h (λ e.
      persist_then-IsSafe w MessageType.prevote 0 _ _
        (IsSafeAt-step Step.propose n h (and_left _ _ (and_right _ _ e)), h.1, omega arith, refl)
        (λ m ready _ _. prevote_ready-IsSafe w none m ready))

  on_timeout_prevote-IsSafe :
      (b r : ℕ) (n : Consensus)
      → IsSafe n
      → Keeps IsSafe (on_timeout_prevote w process_commit fuel b r n)
  unfolding on_timeout_prevote
  on_timeout_prevote-IsSafe b r n h = when-IsSafe _ _ n h (λ e.
      persist_then-IsSafe w MessageType.precommit 1 _ _
        (IsSafeAt-step Step.prevote n h (and_left _ _ (and_right _ _ e)), h.1, omega arith, refl)
        (λ m ready _ _. precommit_ready-IsSafe w none m ready refl))

  on_timeout_precommit-IsSafe :
      (b r : ℕ) (n : Consensus)
      → IsSafe n
      → Keeps IsSafe (on_timeout_precommit w process_commit fuel b r n)
  unfolding on_timeout_precommit
  on_timeout_precommit-IsSafe b r n h = when-IsSafe _ _ n h (λ _.
      start_round-IsStart w fuel (n.round + 1) _ h
        (later_round-IsNew (n.round + 1) n (omega arith) h))

  on_proposal_built-IsSafe :
      (held : Promise) (n : Consensus)
      → IsSafe n
      → Keeps IsSafe (on_proposal_built w process_commit fuel held n)
  unfolding on_proposal_built
  on_proposal_built-IsSafe held n h = when-IsSafe _ _ n h (λ _. submit-IsSafe held.proposal _ h)
    where
      submit-IsSafe :
          (p : Option Proposal) (m : Consensus)
          → IsSafe m
          → Keeps IsSafe (submit w process_commit fuel p m)
      submit-IsSafe none m k = k
      submit-IsSafe (some p) m k = then-IsSafe _ _ (when-IsSafe _ _ m k (λ _. k)) (λ _ m k. k)

  pub take-IsSafe : (i : Input) (n : Consensus) → IsSafe n → IsSafe (take w process_commit fuel i n)
  unfolding take
  take-IsSafe (handles ref) n h = after-IsSafe _ (handle-IsSafe ref n h)
  take-IsSafe (handles_commit c) n h = after-IsSafe _ (handle_commit_state-IsSafe c n h)
  take-IsSafe (propose_times_out b r) n h = after-IsSafe _ (on_timeout_propose-IsSafe b r _ h)
  take-IsSafe (prevote_times_out b r) n h = after-IsSafe _ (on_timeout_prevote-IsSafe b r _ h)
  take-IsSafe (precommit_times_out b r) n h = after-IsSafe _ (on_timeout_precommit-IsSafe b r _ h)
  take-IsSafe block_is_due n h = unfold on_timeout_block_prepare in h
  take-IsSafe (proposal_is_built held) n h = after-IsSafe _ (on_proposal_built-IsSafe held n h)
  take-IsSafe disposes n h = unfold dispose in h

  pub take_all-IsSafe :
      (inputs : List Input) (n : Consensus)
      → IsSafe n
      → IsSafe (take_all w process_commit fuel inputs n)
  unfolding take_all
  take_all-IsSafe [] n h = h
  take_all-IsSafe (i ∷ more) n h = take_all-IsSafe more _ (take-IsSafe i n h)

  -- `run` on a state that is safe over the log.
  pub run-IsSafe-IsSafe :
      (s : InitialState) (n : Consensus)
      → IsSafeAt s.block_number s.round (rank s.step) (round_of s.locked_value) n.log
        × IsRestorable n.log
      → IsSafe (after (run w process_commit fuel s n))
  unfolding run
  run-IsSafe-IsSafe s n h = after-IsSafe _ (
      then-IsSafe _ _ (begin_round-IsSafe w _ h)
        (λ _ m k. apply_here-IsSafe w (start_round w fuel) (start_round-IsStart w fuel) m k))

  -- `run` restores any state over an empty log.
  run-IsSafe :
      (s : InitialState) (n : Consensus)
      → IsSafe (after (run w process_commit fuel s (record n { log = [] })))
  run-IsSafe s n = run-IsSafe-IsSafe s (record n { log = [] }) ((tt, tt, tt, tt), (tt, tt, tt, tt))

  -- The node after `run` on a state, with nothing signed before, and any inputs.
  abbrev pub node_after : InitialState → Consensus → List Input → Consensus
  node_after s n inputs =
      take_all w process_commit fuel inputs
        (after (run w process_commit fuel s (record n { log = [] })))

  pub node_after-IsSafe :
      (s : InitialState) (n : Consensus) (inputs : List Input) → IsSafe (node_after s n inputs)
  node_after-IsSafe s n inputs = take_all-IsSafe inputs _ (run-IsSafe s n)
