-- ===== src/Consensus/Events.antt =====
-- packages/consensus/source/consensus.ts: the entry points, one for each kind of call from outside.
-- `#handlerLock` runs the handlers one after another, so a run of a node is a list of inputs; a handler that
-- throws leaves the fields as they were written by then. `#pendingJobs` only merges equal calls of `handle`
-- that wait for the lock.
use mainsail.Prelude.{
  ℕ, ◌+◌, Bool, true, false, Option, none, some, List, [], ◌∷◌, ◌==◌, ◌&&◌, ◌||◌, not,
}
use mainsail.Prelude.Outcome.{ok, storage_failed}
use mainsail.Contracts.{Block, BlockProcessorResult, Proposal}
use mainsail.Timing.{
  schedule_timeout_propose, idle, fire_block_prepare, fire_propose, fire_prevote, fire_precommit,
}
use mainsail.Consensus.State.{
  Consensus, World, RoundRef, Step, Promise, bootstrapped, saved_proposal, submitted,
}
use mainsail.Consensus.Monad.{
  M, Outcome, done, threw, ◌>>=◌, ◌>>◌, return, throw, read, modify, when, emit, await, dispatch,
  persist_state, get_round_state,
}
use mainsail.Consensus.Rules.{is_step, failed_processor_result}
use mainsail.Consensus.Voting.{prevote, precommit}
use mainsail.Consensus.Rounds.{
  Processable, begin_round, apply_here, start_round, apply_rules, on_majority_precommit,
}

-- The argument of `run`, as the bootstrapper makes it.
pub record InitialState : Type 0 where
  pub block_number : ℕ
  pub round : ℕ
  pub step : Step
  pub locked_value : Option RoundRef
  pub valid_value : Option RoundRef

-- `packages/consensus/source/commit-state.ts`: a block that was downloaded with its certificate.
pub record CommitState : Type 0 where
  pub block : Block
  pub round : ℕ
  pub processor_result : Option BlockProcessorResult

abbrev pub restore : InitialState → Consensus → Consensus
restore s n = record n {
  block_number = s.block_number;
  round = s.round;
  step = s.step;
  locked_value = s.locked_value;
  valid_value = s.valid_value;
}

abbrev at_position : ℕ → ℕ → Consensus → Bool
at_position block_number round n = n.block_number == block_number && n.round == round

abbrev or_failed : Option BlockProcessorResult → BlockProcessorResult
or_failed none = failed_processor_result
or_failed (some result) = result

abbrev is_pending : Promise → Option Promise → Bool
is_pending held none = false
is_pending held (some p) = held.id == p.id

-- `fuel` bounds the rounds that one handler starts.
module _ (w : World) (process_commit : Block → Option BlockProcessorResult) (fuel : ℕ) where
  unfoldable pub run : InitialState → M (Unit {0})
  run s = do
    modify (restore s)
    dispatch w bootstrapped
    begin_round w
    apply_here w (start_round w fuel)

  unfoldable pub dispose : M (Unit {0})
  dispose = modify (λ n. record n { scheduler = idle; is_disposed = true })

  unfoldable pub handle : RoundRef → M (Unit {0})
  handle ref = do n ← read; when (not n.is_disposed) (apply_rules w fuel ref)

  -- `#processBlock` keeps a result that the unit has.
  abbrev pub result_of : CommitState → BlockProcessorResult
  result_of c = elim c.processor_result [
    | none ↦ or_failed (process_commit c.block)
    | some result ↦ result
  ]

  abbrev pub commit_unit : CommitState → Processable
  commit_unit c = record {
    block_number = c.block.number;
    block = ok c.block;
    result = ok (result_of c);
  }

  unfoldable pub handle_commit_state : CommitState → M (Unit {0})
  handle_commit_state c = do
    n ← read
    when (not (n.is_disposed || not (c.block.number == n.block_number)))
        (do await w; on_majority_precommit w (start_round w fuel) (commit_unit c) false)

  unfoldable pub vote_nil_prevote : M (Unit {0})
  vote_nil_prevote = do
    modify (λ n. record n { step = Step.prevote })
    persist_state w
    prevote w none

  -- Line 57.
  unfoldable pub on_timeout_propose : ℕ → ℕ → M (Unit {0})
  unfolding vote_nil_prevote
  on_timeout_propose block_number round = do
    n ← read
    when (not n.is_disposed && (is_step Step.propose n && at_position block_number round n))
        vote_nil_prevote

  unfoldable pub vote_nil_precommit : M (Unit {0})
  vote_nil_precommit = do
    n ← read
    rs ← get_round_state w n.block_number n.round
    modify (λ m. record m { step = Step.precommit })
    persist_state w
    precommit w none

  -- Line 61.
  unfoldable pub on_timeout_prevote : ℕ → ℕ → M (Unit {0})
  unfolding vote_nil_precommit
  on_timeout_prevote block_number round = do
    n ← read
    when (not n.is_disposed && (is_step Step.prevote n && at_position block_number round n))
        vote_nil_precommit

  -- Line 65.
  unfoldable pub on_timeout_precommit : ℕ → ℕ → M (Unit {0})
  on_timeout_precommit block_number round = do
    n ← read
    when (not n.is_disposed && at_position block_number round n)
        (do rs ← get_round_state w n.block_number n.round; start_round w fuel (n.round + 1))

  -- `onTimeoutBlockPrepare` up to its wait for the promise, which it then holds.
  unfoldable pub on_timeout_block_prepare : M (Option Promise)
  on_timeout_block_prepare = do
    n ← read
    let scheduled =
        schedule_timeout_propose (w.timeouts n.block_number) n.block_number n.round n.scheduler
    modify (λ m. record m { scheduler = scheduled.1 })
    return n.proposal_promise

  abbrev pub submit : Option Proposal → M (Unit {0})
  submit none = return tt
  submit (some p) = do
    n ← read
    when (not (w.stored n.tick)) (throw storage_failed)
    emit (saved_proposal p)
    await w
    emit (submitted p)

  -- The rest, when the promise is there. The wait does not hold the handler lock, so any handlers may have
  -- run meanwhile.
  unfoldable pub on_proposal_built : Promise → M (Unit {0})
  on_proposal_built held = do
    n ← read
    when (not n.is_disposed && is_pending held n.proposal_promise)
        (do modify (λ m. record m { proposal_promise = none }); submit held.proposal)

-- A call from outside.
pub data Input : Type 0 where
  handles : RoundRef → Input
  handles_commit : CommitState → Input
  propose_times_out prevote_times_out precommit_times_out : ℕ → ℕ → Input
  block_is_due : Input
  proposal_is_built : Promise → Input
  disposes : Input

abbrev pub after : {A : Type 0} → Outcome A → Consensus
after (done a n) = n
after (threw e n) = n

-- A timer's callback clears its own field before it calls the handler.
abbrev fire : Input → Consensus → Consensus
fire (propose_times_out b r) n = record n { scheduler = fire_propose n.scheduler }
fire (prevote_times_out b r) n = record n { scheduler = fire_prevote n.scheduler }
fire (precommit_times_out b r) n = record n { scheduler = fire_precommit n.scheduler }
fire block_is_due n = record n { scheduler = fire_block_prepare n.scheduler }
fire _ n = n

module _ (w : World) (process_commit : Block → Option BlockProcessorResult) (fuel : ℕ) where
  abbrev respond : Input → Consensus → Consensus
  respond (handles ref) n = after (handle w process_commit fuel ref n)
  respond (handles_commit c) n = after (handle_commit_state w process_commit fuel c n)
  respond (propose_times_out b r) n = after (on_timeout_propose w process_commit fuel b r n)
  respond (prevote_times_out b r) n = after (on_timeout_prevote w process_commit fuel b r n)
  respond (precommit_times_out b r) n = after (on_timeout_precommit w process_commit fuel b r n)
  respond block_is_due n = after (on_timeout_block_prepare w process_commit fuel n)
  respond (proposal_is_built held) n = after (on_proposal_built w process_commit fuel held n)
  respond disposes n = after (dispose w process_commit fuel n)

  unfoldable pub take : Input → Consensus → Consensus
  take i n = respond i (fire i n)

  -- The node after a list of inputs, from the state that `run` leaves.
  unfoldable pub take_all : List Input → Consensus → Consensus
  take_all [] n = n
  take_all (i ∷ more) n = take_all more (take i n)
