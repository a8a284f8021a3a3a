-- ===== src/Consensus/Rounds.antt =====
-- packages/consensus/source/consensus.ts: `applyRules`, `startRound`, `onMajorityPrecommit` and what they
-- call. `startRound` runs `applyRules` on the round it enters, and that may start a round again, so the
-- recursion takes fuel; a call that has none left throws `fuel_exhausted`.
use mainsail.Prelude.{
  ℕ, zero, suc, ◌+◌, Bool, true, false, Option, none, some, [], ◌++◌, ltb, ◌==◌, ◌&&◌, ◌||◌, not,
}
use mainsail.Prelude.Outcome.{Result, ok, err, commit_failed, fuel_exhausted, validator_undefined}
use mainsail.Contracts.{Proposal, Block, BlockProcessorResult, ValidatorWallet}
use mainsail.RoundState.{RoundState, get_block, has_proposal, get_processor_result}
use mainsail.RoundState.Quorums.{
  has_majority_prevotes, has_majority_prevotes_any, has_majority_prevotes_null,
  has_majority_precommits, has_majority_precommits_any, has_majority_precommits_without_proposal,
  has_minority_prevotes_or_precommits, aggregate_prevotes,
}
use mainsail.Timing.{idle, get_next_block_timestamp, schedule_timeout_block_prepare}
use mainsail.Consensus.State.{
  Consensus, World, RoundRef, Step, round_started, precommitted_proposal, committed, deref,
}
use mainsail.Consensus.Monad.{
  M, ◌>>=◌, ◌>>◌, throw, read, modify, when, lift, emit, await, dispatch, persist_state, view,
  get_round_state,
}
use mainsail.Consensus.Rules.{
  is_step, process_proposal, on_proposal, on_proposal_locked, on_majority_prevote,
  on_majority_prevote_any, on_majority_prevote_null, on_majority_precommit_any,
  on_majority_precommit_without_proposal,
}

-- A `ProcessableUnit` as `onMajorityPrecommit` reads it: `getBlock()` and `getProcessorResult()` may throw.
pub record Processable : Type 0 where
  pub block_number : ℕ
  pub block : Result Block
  pub result : Result BlockProcessorResult

abbrev pub unit_of : RoundState → Processable
unit_of rs = record {
  block_number = rs.block_number;
  block = get_block rs;
  result = get_processor_result rs;
}

-- `getNextBlockTimestamp` of the scheduler, at the consensus' position.
abbrev next_timestamp : World → Consensus → Result ℕ
next_timestamp w n =
    get_next_block_timestamp (w.timeouts n.block_number) (w.last_timestamp n.block_number)
      n.round_start_time n.round

abbrev or_none : {A : Type 0} → Result (Option A) → Option A
or_none (err e) = none
or_none (ok a) = a

abbrev forged_proposal : World → ℕ → ℕ → Result ℕ → Option Proposal
forged_proposal w validator_index round (err e) = none
forged_proposal w validator_index round (ok timestamp) =
    elim (w.forge validator_index round timestamp) [
      | none ↦ none
      | some block ↦ w.propose validator_index round none block none
    ]

abbrev re_proposal : World → ℕ → ℕ → ℕ → RoundState → Option Proposal
re_proposal w validator_index round valid_round rs = elim (get_block rs) [
  | err e ↦ none
  | ok block ↦ elim (aggregate_prevotes w.env w.proof.worker rs) [
    | err e ↦ none
    | ok lock_proof ↦ w.propose validator_index round (some valid_round) block (some lock_proof)
  ]
]

-- `#createProposal` under `#makeProposal`'s catch: all it depends on is read before its first wait.
unfoldable pub make_proposal : World → ValidatorWallet → Consensus → Option Proposal
make_proposal w proposer n = elim n.valid_value [
  | none ↦ forged_proposal w (w.index_of proposer.address) n.round (next_timestamp w n)
  | some ref ↦ re_proposal w (w.index_of proposer.address) n.round ref.round (deref w.env ref n)
]

abbrev request : World → ValidatorWallet → Consensus → Consensus
request w proposer n = record n {
  proposal_promise = some (record { id = n.tick; proposal = make_proposal w proposer n });
}

-- Reading a field of a proposer that the validator set does not have throws.
abbrev pub proposer_of : RoundState → Result ValidatorWallet
proposer_of rs = elim rs.proposer [ none ↦ err validator_undefined | some proposer ↦ ok proposer ]

unfoldable pub prepare_proposal : World → RoundRef → M (Unit {0})
prepare_proposal w ref = do
  rs ← view w ref
  when (not (has_proposal rs)) (do
    proposer ← lift (proposer_of rs)
    when (w.registered proposer.bls_public_key) (modify (request w proposer)))

abbrev open_round : World → Consensus → Consensus
open_round w n = record n {
  round_start_time = w.now n.tick;
  proposal_promise = none;
  scheduler = idle;
}

abbrev schedule_prepare : World → ℕ → Consensus → Consensus
schedule_prepare w timestamp n = record n {
  scheduler = (schedule_timeout_block_prepare (w.now n.tick) timestamp n.scheduler).1;
}

-- The part of `#beginRound` that is for the propose step alone.
unfoldable pub begin_propose : World → RoundRef → M (Unit {0})
unfolding prepare_proposal
begin_propose w ref = do
  n ← read
  timestamp ← lift (next_timestamp w n)
  modify (schedule_prepare w timestamp)
  when (not (w.pending_commits n.block_number)) (prepare_proposal w ref)

unfoldable pub begin_round : World → M (Unit {0})
unfolding begin_propose
begin_round w = do
  modify (open_round w)
  n ← read
  when (not n.is_disposed) (do
    rs ← get_round_state w n.block_number n.round
    proposer ← lift (proposer_of rs)
    dispatch w round_started
    m ← read
    when (is_step Step.propose m)
        (begin_propose w (record { block_number = n.block_number; round = n.round })))

abbrev pub enter_round : ℕ → Consensus → Consensus
enter_round round n = record n {
  round = round;
  step = Step.propose;
  did_majority_prevote = false;
  did_majority_precommit = false;
  did_majority_precommit_without_proposal = false;
}

abbrev pub next_block : Consensus → Consensus
next_block n = record n {
  rounds = [];
  detached = n.rounds ++ n.detached;
  block_number = n.block_number + 1;
  locked_value = none;
  valid_value = none;
}

module _ (w : World) where
  -- The rest of `onMajorityPrecommit` once the block is valid; `start` is `startRound`.
  unfoldable pub commit_block : (ℕ → M (Unit {0})) → ℕ → M (Unit {0})
  commit_block start number = do
    dispatch w precommitted_proposal
    await w
    n ← read
    when (not (w.commit n.tick number)) (throw commit_failed)
    emit (committed number)
    await w
    modify next_block
    start 0

  -- Line 49. The guard's second half is the flag that only a round state carries.
  unfoldable pub on_majority_precommit : (ℕ → M (Unit {0})) → Processable → Bool → M (Unit {0})
  unfolding commit_block
  on_majority_precommit start unit is_round_state = do
    n ← read
    when
        (unit.block_number == n.block_number
          && (not is_round_state || not n.did_majority_precommit))
        (do
          when is_round_state (modify (λ m. record m { did_majority_precommit = true }))
          block ← lift unit.block
          result ← lift unit.result
          when result.success (commit_block start unit.block_number))

  -- Line 55.
  unfoldable pub on_minority_with_higher_round : (ℕ → M (Unit {0})) → RoundRef → M (Unit {0})
  on_minority_with_higher_round start ref = do
    n ← read
    when (ref.block_number == n.block_number && ltb n.round ref.round) (start ref.round)

  -- One of the tests of `applyRules`: the round state is read when the test is made.
  abbrev pub upon : (RoundState → Bool) → RoundRef → M (Unit {0}) → M (Unit {0})
  upon test ref rule = do rs ← view w ref; when (test rs) rule

  unfoldable pub on_round_majority_precommit : (ℕ → M (Unit {0})) → RoundRef → M (Unit {0})
  unfolding on_majority_precommit
  on_round_majority_precommit start ref = do
    rs ← view w ref
    on_majority_precommit start (unit_of rs) true

  unfoldable pub apply_vote_rules : RoundRef → M (Unit {0})
  apply_vote_rules ref = do
    process_proposal w ref
    on_proposal w ref
    on_proposal_locked w ref
    upon (has_majority_prevotes w.env) ref (on_majority_prevote w ref)
    upon (has_majority_prevotes_any w.env) ref (on_majority_prevote_any w ref)
    upon (has_majority_prevotes_null w.env) ref (on_majority_prevote_null w ref)
    upon (has_majority_precommits_any w.env) ref (on_majority_precommit_any w ref)

  unfoldable pub apply_rules_with : (ℕ → M (Unit {0})) → RoundRef → M (Unit {0})
  unfolding apply_vote_rules
  apply_rules_with start ref = do
    n ← read
    when (ref.block_number == n.block_number) (do
      apply_vote_rules ref
      upon (has_majority_precommits w.env) ref (on_round_majority_precommit start ref)
      upon (has_majority_precommits_without_proposal w.env) ref
          (on_majority_precommit_without_proposal w ref)
      upon (has_minority_prevotes_or_precommits w.env) ref
          (on_minority_with_higher_round start ref))

  -- What `startRound` does before it applies the rules.
  unfoldable pub open_and_begin : ℕ → M (Unit {0})
  unfolding begin_round
  open_and_begin round = do
    modify (enter_round round)
    when (ltb 0 round) (persist_state w)
    begin_round w

  abbrev pub apply_here : (ℕ → M (Unit {0})) → M (Unit {0})
  apply_here start = do
    n ← read
    when (not n.is_disposed) (do
      rs ← get_round_state w n.block_number n.round
      apply_rules_with start (record { block_number = n.block_number; round = n.round }))

  unfoldable pub start_round : ℕ → ℕ → M (Unit {0})
  unfolding open_and_begin
  start_round zero round = throw fuel_exhausted
  start_round (suc fuel) round = do open_and_begin round; apply_here (start_round fuel)

  unfoldable pub apply_rules : ℕ → RoundRef → M (Unit {0})
  unfolding apply_rules_with start_round
  apply_rules fuel ref = apply_rules_with (start_round fuel) ref
