-- ===== src/Consensus/Rules.antt =====
-- packages/consensus/source/consensus.ts: the rules of Algorithm 1 that only vote, lock or set a timer.
-- Each takes the reference to the round state that changed; log messages are left out.
use mainsail.Prelude.{
  ℕ, ◌+◌, Bool, true, false, Option, none, some, [], if◌then◌else◌, ltb, leb, ◌==◌, ◌&&◌, ◌||◌, not,
  is_some, is_none, same,
}
use mainsail.Contracts.{Proposal, Block, BlockHeader, BlockProcessorResult}
use mainsail.RoundState.{
  RoundState, has_processor_result, get_processor_result, set_processor_result,
}
use mainsail.LockProof.{has_valid_lock_proof}
use mainsail.Timing.{schedule_timeout_prevote, schedule_timeout_precommit}
use mainsail.Consensus.State.{
  Consensus, World, RoundRef, Step, rank, Event, proposal_accepted, prevoted_proposal, prevoted_any,
  prevoted_null, precommitted_any, deref,
}
use mainsail.Consensus.Monad.{
  M, ◌>>=◌, ◌>>◌, read, modify, when, given, lift, await, dispatch, persist_state, view,
  write_round,
}
use mainsail.Consensus.Voting.{prevote, precommit}

abbrev pub is_current_round_state : RoundRef → Consensus → Bool
is_current_round_state ref n = ref.block_number == n.block_number && ref.round == n.round

abbrev pub is_step : Step → Consensus → Bool
is_step s n = rank n.step == rank s

abbrev pub failed_processor_result : BlockProcessorResult
failed_processor_result = record { fee_used = 0; gas_used = 0; receipts = []; success = false }

-- `lockedValue.getProposal()?.blockHeader.hash`.
abbrev pub hash_of : Option Proposal → Option ℕ
hash_of none = none
hash_of (some p) = some p.block_header.hash

abbrev pub or_failed : Option BlockProcessorResult → BlockProcessorResult
or_failed none = failed_processor_result
or_failed (some result) = result

abbrev with_payload : Option Proposal → Block → Option Proposal
with_payload none block = none
with_payload (some p) block = some (record p { payload = some block })

abbrev set_payload : Block → RoundState → RoundState
set_payload block rs = record rs { proposal = with_payload rs.proposal block }

module _ (w : World) where
  abbrev pub is_from_future : BlockHeader → Consensus → Bool
  is_from_future header n =
      ltb (w.now n.tick + (w.timeouts n.block_number).tolerance) header.timestamp

  -- `proposal.deserializePayload()`, which does nothing the second time.
  abbrev payload_of : Proposal → Option Block
  payload_of p = elim p.payload [ none ↦ w.deserialize p | some block ↦ some block ]

  -- `roundState.setProcessorResult(await this.processor.process(roundState))`.
  unfoldable pub run_processor : RoundRef → M (Unit {0})
  run_processor ref = do
    n ← read
    rs ← view w ref
    await w
    write_round w ref (set_processor_result (or_failed (w.process n.tick rs)))

  unfoldable pub run_deserialized : RoundRef → Proposal → Option Block → M (Unit {0})
  unfolding run_processor
  run_deserialized ref p none = do
    await w
    write_round w ref (set_processor_result failed_processor_result)
  run_deserialized ref p (some block) = do
    write_round w ref (set_payload block)
    await w
    if has_valid_lock_proof w.proof p
        then run_processor ref
        else write_round w ref (set_processor_result failed_processor_result)

  -- The body of `#processProposal` under its test; whatever throws leaves a failed result.
  unfoldable pub run_proposal : RoundRef → Proposal → M (Unit {0})
  unfolding run_deserialized
  run_proposal ref p = run_deserialized ref p (payload_of p)

  unfoldable pub process_proposal : RoundRef → M (Unit {0})
  unfolding run_proposal
  process_proposal ref = do
    rs ← view w ref
    given rs.proposal (λ p. when (not (has_processor_result rs)) (run_proposal ref p))

  -- The vote of `onProposal`: nil while locked, nil for a block from the future, nil for a failed block.
  abbrev pub fresh_value : Proposal → RoundState → Consensus → Option ℕ
  fresh_value p rs n = elim n.locked_value [
    | some ref ↦ none
    | none ↦ if is_from_future p.block_header n then none else elim rs.processor_result [
      | none ↦ none
      | some result ↦ if result.success then some p.block_header.hash else none
    ]
  ]

  unfoldable pub accept_proposal : RoundRef → Proposal → M (Unit {0})
  accept_proposal ref p = do
    modify (λ n. record n { step = Step.prevote })
    persist_state w
    dispatch w proposal_accepted
    n ← read
    rs ← view w ref
    prevote w (fresh_value p rs n)

  -- Line 22.
  unfoldable pub on_proposal : RoundRef → M (Unit {0})
  unfolding accept_proposal
  on_proposal ref = do
    n ← read
    rs ← view w ref
    given rs.proposal λ p.
        when
          (is_step Step.propose n
            && is_current_round_state ref n
            && is_none p.valid_round
            && has_processor_result rs)
          (accept_proposal ref p)

  abbrev pub is_allowed_by_lock : Proposal → ℕ → Consensus → Bool
  is_allowed_by_lock p valid_round n = elim n.locked_value [
    | none ↦ true
    | some locked ↦
        leb locked.round valid_round
        || same (hash_of (deref w.env locked n).proposal) (some p.block_header.hash)
  ]

  -- The vote of `onProposalLocked`.
  abbrev pub locked_value_vote : Proposal → ℕ → RoundState → Consensus → Option ℕ
  locked_value_vote p valid_round rs n =
      if is_allowed_by_lock p valid_round n
      then elim rs.processor_result [
        | none ↦ none
        | some result ↦ if result.success then some p.block_header.hash else none
      ]
      else none

  unfoldable pub accept_locked_proposal : RoundRef → Proposal → ℕ → M (Unit {0})
  accept_locked_proposal ref p valid_round = do
    modify (λ n. record n { step = Step.prevote })
    persist_state w
    dispatch w proposal_accepted
    n ← read
    rs ← view w ref
    prevote w (locked_value_vote p valid_round rs n)

  abbrev pub valid_before : Option ℕ → ℕ → Bool
  valid_before none round = false
  valid_before (some valid_round) round = ltb valid_round round

  -- Line 28.
  unfoldable pub on_proposal_locked : RoundRef → M (Unit {0})
  unfolding accept_locked_proposal
  on_proposal_locked ref = do
    n ← read
    rs ← view w ref
    given rs.proposal λ p. given p.valid_round λ valid_round.
        when
          (is_step Step.propose n
            && is_current_round_state ref n
            && is_some p.lock_proof
            && ltb valid_round n.round
            && has_processor_result rs)
          (accept_locked_proposal ref p valid_round)

  -- The two branches of `onMajorityPrevote`.
  unfoldable pub lock_value : RoundRef → Proposal → M (Unit {0})
  lock_value ref p = do
    modify
        (λ n. record n { locked_value = some ref; valid_value = some ref; step = Step.precommit })
    persist_state w
    dispatch w prevoted_proposal
    precommit w (some p.block_header.hash)

  unfoldable pub keep_valid_value : RoundRef → M (Unit {0})
  keep_valid_value ref = do
    modify (λ n. record n { valid_value = some ref })
    persist_state w
    dispatch w prevoted_proposal

  unfoldable pub on_valid_majority : RoundRef → Proposal → M (Unit {0})
  unfolding lock_value keep_valid_value
  on_valid_majority ref p = do
    modify (λ n. record n { did_majority_prevote = true })
    n ← read
    if is_step Step.prevote n then lock_value ref p else keep_valid_value ref

  -- Line 36. The guard's last test is `getProcessorResult().success`, which throws without a result.
  unfoldable pub on_majority_prevote : RoundRef → M (Unit {0})
  unfolding on_valid_majority
  on_majority_prevote ref = do
    n ← read
    rs ← view w ref
    given rs.proposal λ p.
        when
          (not n.did_majority_prevote
            && leb (rank Step.prevote) (rank n.step)
            && is_current_round_state ref n)
          (do
            result ← lift (get_processor_result rs)
            when result.success (on_valid_majority ref p))

  -- Line 34.
  unfoldable pub on_majority_prevote_any : RoundRef → M (Unit {0})
  on_majority_prevote_any ref = do
    n ← read
    let scheduled =
        schedule_timeout_prevote (w.timeouts n.block_number) n.block_number n.round n.scheduler
    when (is_step Step.prevote n && is_current_round_state ref n) (do
      modify (λ m. record m { scheduler = scheduled.1 })
      when scheduled.0 (dispatch w prevoted_any))

  unfoldable pub precommit_nil : Event → M (Unit {0})
  precommit_nil event = do
    modify (λ n. record n { step = Step.precommit })
    persist_state w
    dispatch w event
    precommit w none

  -- Line 44.
  unfoldable pub on_majority_prevote_null : RoundRef → M (Unit {0})
  unfolding precommit_nil
  on_majority_prevote_null ref = do
    n ← read
    when (is_step Step.prevote n && is_current_round_state ref n) (precommit_nil prevoted_null)

  -- Line 47.
  unfoldable pub on_majority_precommit_any : RoundRef → M (Unit {0})
  on_majority_precommit_any ref = do
    n ← read
    let scheduled =
        schedule_timeout_precommit (w.timeouts n.block_number) n.block_number n.round n.scheduler
    when (is_current_round_state ref n) (do
      modify (λ m. record m { scheduler = scheduled.1 })
      when scheduled.0 (dispatch w precommitted_any))

  unfoldable pub on_majority_precommit_without_proposal : RoundRef → M (Unit {0})
  on_majority_precommit_without_proposal ref = do
    n ← read
    when (not n.did_majority_precommit_without_proposal && is_current_round_state ref n)
        (modify (λ m. record m { did_majority_precommit_without_proposal = true }))
