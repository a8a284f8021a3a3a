-- ===== src/Processors/ProposalProcessor.antt =====
-- packages/consensus/source/processors/proposal-processor.ts, `process`. The calls that wait for the check of the
-- signature stand in a list.
use mainsail.Prelude.{
  ℕ, suc, Bool, true, false, Option, none, some, List, ◌∷◌, ◌++◌, not, if◌then◌else◌, ◌==◌, take,
  drop, get_elem?,
}
use mainsail.Prelude.Outcome.{Error, ok, err}
use mainsail.Contracts.{Proposal}
use mainsail.RoundState.{RoundEnv, RoundState, has_proposal, add_proposal}
use mainsail.Consensus.State.{RoundRef, get_or_create, update_round}
use mainsail.Processors.{
  accepted, skipped, invalid, Position, has_valid_block_number_and_round, is_round_ahead_of_time,
}
use mainsail.Processors.MessageProcessor.{Answer, returned, thrown, Verdict, good, bad, failed}

pub record ProposalCall : Type 0 where
  pub id : ℕ
  pub proposal : Proposal
  pub broadcast : Bool

pub record ProposalProcessor : Type 0 where
  -- the repository of round states
  pub rounds : List RoundState
  -- the calls that wait for the worker
  pub verifying : List ProposalCall
  pub answers : List (ℕ × Answer)
  -- what was written to the storage, sent out, and handed to consensus, newest first
  pub saved : List Proposal
  pub sent : List Proposal
  pub handled : List RoundRef

abbrev pub answer : ℕ → Answer → ProposalProcessor → ProposalProcessor
answer id a s = record s { answers = (id, a) ∷ s.answers }

-- `#isDuplicateProposal`; whether the bytes differ is only logged.
abbrev pub is_duplicate_proposal : RoundState → Bool
is_duplicate_proposal rs = has_proposal rs

abbrev pub has_valid_proposer : RoundEnv → Proposal → Bool
has_valid_proposer env p = p.validator_index == env.validator_index p.round

abbrev pub position_of : Proposal → RoundRef
position_of p = record { block_number = p.block_header.number; round = p.round }

-- From `getRoundState` to the wait; the repository makes the round state when it is missing.
unfoldable pub check_proposal : RoundEnv → ProposalCall → ProposalProcessor → ProposalProcessor
check_proposal env call s =
    let p = call.proposal in
    let (rs, rounds) = get_or_create env p.block_header.number p.round s.rounds in
    if is_duplicate_proposal rs
    then answer call.id (returned skipped) (record s { rounds = rounds })
    else record s { rounds = rounds; verifying = call ∷ s.verifying }

-- `process` up to its wait.
unfoldable pub receive_proposal :
    RoundEnv → Position → ProposalCall → ProposalProcessor → ProposalProcessor
unfolding check_proposal
receive_proposal env at call s =
    let p = call.proposal in
    if at.is_disposed
    then answer call.id (returned skipped) s
    else if not (has_valid_block_number_and_round at p.block_header.number p.round)
    then answer call.id (returned skipped) s
    else elim (is_round_ahead_of_time at p.round) [
      | err e ↦ answer call.id (thrown e) s
      | ok true ↦ answer call.id (returned skipped) s
      | ok false ↦
          if has_valid_proposer env p
          then check_proposal env call s
          else answer call.id (returned invalid) s
    ]

-- What follows on `addProposal`. The write to the storage may fail.
unfoldable pub store_proposal : Option Error → ProposalCall → ProposalProcessor → ProposalProcessor
store_proposal (some e) call s = answer call.id (thrown e) s
store_proposal none call s =
    let p = call.proposal in
    answer call.id (returned accepted) (record s {
      saved = p ∷ s.saved;
      sent = if call.broadcast then p ∷ s.sent else s.sent;
      handled = position_of p ∷ s.handled;
    })

-- The end of `process` for a proposal with a valid signature.
unfoldable pub add_verified_proposal :
    RoundEnv → Option Error → ProposalCall → ProposalProcessor → ProposalProcessor
unfolding store_proposal
add_verified_proposal env failure call s =
    let p = call.proposal in
    let (rs, rounds) = get_or_create env p.block_header.number p.round s.rounds in
    if is_duplicate_proposal rs
    then answer call.id (returned skipped) s
    else elim (add_proposal p rs) [
      | err e ↦ answer call.id (thrown e) s
      | ok added ↦
          store_proposal failure call
            (record s { rounds = update_round (position_of p) (λ _. added) rounds })
    ]

unfoldable pub finish_proposal :
    RoundEnv → Verdict → Option Error → ProposalCall → ProposalProcessor → ProposalProcessor
unfolding add_verified_proposal
finish_proposal env good failure call s = add_verified_proposal env failure call s
finish_proposal env bad failure call s = answer call.id (returned invalid) s
finish_proposal env (failed e) failure call s = answer call.id (thrown e) s

-- The worker answers the call at this place among those that wait.
unfoldable pub resume_proposal :
    RoundEnv → ℕ → Verdict → Option Error → ProposalProcessor → ProposalProcessor
unfolding finish_proposal
resume_proposal env place verdict failure s = elim (get_elem? s.verifying place) [
  | none ↦ s
  | some call ↦
      finish_proposal env verdict failure call
        (record s { verifying = take place s.verifying ++ drop (suc place) s.verifying })
]
