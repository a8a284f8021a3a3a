-- ===== src/Processors/MessageProcessor.antt =====
-- packages/consensus/source/processors/message-processor.ts. Calls are told apart by numbers. Copies of a
-- message that is being verified wait for that check instead of a second one.
use mainsail.Prelude.{
  ℕ, Bool, true, false, Option, none, some, List, [], ◌∷◌, ◌++◌, not, if◌then◌else◌, ◌==◌,
}
use mainsail.Prelude.JsMap.{get, put, delete, number_key}
use mainsail.Prelude.Outcome.{Error, ok, err}
use mainsail.Contracts.{Message}
use mainsail.RoundState.{RoundEnv, RoundState}
use mainsail.RoundState.Messages.{has_message, add_message}
use mainsail.Consensus.State.{RoundRef, get_or_create, update_round}
use mainsail.Processors.{
  ProcessorResult, accepted, skipped, invalid, Position, has_valid_block_number_and_round,
  is_round_ahead_of_time,
}

pub record Call : Type 0 where
  pub id : ℕ
  pub message : Message
  pub broadcast : Bool

-- How a call ends.
pub data Answer : Type 0 where
  returned : ProcessorResult → Answer
  thrown : Error → Answer

pub record MessageProcessor : Type 0 where
  -- the repository of round states
  pub rounds : List RoundState
  -- `#pendingMessages`, with the calls that wait
  pub pending_messages : List (ℕ × List ℕ)
  -- the calls that wait for the worker
  pub verifying : List Call
  pub answers : List (ℕ × Answer)
  -- what was written to the storage, sent out, and handed to consensus, newest first
  pub saved : List Message
  pub sent : List Message
  pub handled : List RoundRef

abbrev pub answer : ℕ → Answer → MessageProcessor → MessageProcessor
answer id a s = record s { answers = (id, a) ∷ s.answers }

-- `#signatureCheck` up to its wait.
unfoldable pub signature_check : Call → MessageProcessor → MessageProcessor
signature_check call s = elim (get call.message.serialized s.pending_messages) [
  | some waiting ↦ record s {
    pending_messages = put call.message.serialized (waiting ++ call.id ∷ []) s.pending_messages;
  }
  | none ↦ record s {
    pending_messages = put call.message.serialized [] s.pending_messages;
    verifying = call ∷ s.verifying;
  }
]

-- From `getRoundState` on; the repository makes the round state when it is missing.
unfoldable pub check_duplicate : RoundEnv → Call → MessageProcessor → MessageProcessor
unfolding signature_check
check_duplicate env call s =
    let (rs, rounds) = get_or_create env call.message.block_number call.message.round s.rounds in
    if has_message call.message rs
    then answer call.id (returned skipped) (record s { rounds = rounds })
    else signature_check call (record s { rounds = rounds })

-- `process` up to its wait.
unfoldable pub process_message : RoundEnv → Position → Call → MessageProcessor → MessageProcessor
unfolding check_duplicate
process_message env at call s =
    if at.is_disposed
    then answer call.id (returned skipped) s
    else if not (has_valid_block_number_and_round at call.message.block_number call.message.round)
    then answer call.id (returned skipped) s
    else elim (is_round_ahead_of_time at call.message.round) [
      | err e ↦ answer call.id (thrown e) s
      | ok true ↦ answer call.id (returned skipped) s
      | ok false ↦ check_duplicate env call s
    ]

abbrev pub answer_all : Answer → List ℕ → List (ℕ × Answer)
answer_all a [] = []
answer_all a (id ∷ ids) = (id, a) ∷ answer_all a ids

-- `#takePendingMessages` with the loop that settles the copies.
unfoldable pub settle_pending_messages : ℕ → Answer → MessageProcessor → MessageProcessor
settle_pending_messages serialized a s = elim (get serialized s.pending_messages) [
  | none ↦ s
  | some waiting ↦ record s {
    pending_messages = delete serialized s.pending_messages;
    answers = answer_all a waiting ++ s.answers;
  }
]

-- The end of `process` for a message with a valid signature.
unfoldable pub accept_message : RoundEnv → Call → MessageProcessor → MessageProcessor
accept_message env call s =
    let m = call.message in
    let (rs, rounds) = get_or_create env m.block_number m.round s.rounds in
    if has_message m rs then answer call.id (returned skipped) s else elim (add_message m rs) [
      | err e ↦ answer call.id (thrown e) s
      | ok added ↦ answer call.id (returned accepted) (record s {
        rounds =
            update_round (record { block_number = m.block_number; round = m.round }) (λ _. added)
              rounds;
        saved = m ∷ s.saved;
        sent = if call.broadcast then m ∷ s.sent else s.sent;
        handled = record { block_number = m.block_number; round = m.round } ∷ s.handled;
      })
    ]

-- What the worker answers: the signature is good or bad, or the check throws.
pub data Verdict : Type 0 where
  good bad : Verdict
  failed : Error → Verdict

abbrev pub put_back : Call → Option (Call × List Call) → Option (Call × List Call)
put_back c none = none
put_back c (some (found, others)) = some (found, c ∷ others)

-- The call with this number and the others.
abbrev pub take_call : ℕ → List Call → Option (Call × List Call)
take_call id [] = none
take_call id (c ∷ cs) =
    let rest = put_back c (take_call id cs) in if c.id == id then some (c, cs) else rest

-- `process` from the worker's answer on, for a call that no longer waits.
unfoldable pub finish_message : RoundEnv → Call → Verdict → MessageProcessor → MessageProcessor
unfolding settle_pending_messages accept_message
finish_message env call good s =
    accept_message env call (settle_pending_messages call.message.serialized (returned skipped) s)
finish_message env call bad s =
    answer call.id (returned invalid)
      (settle_pending_messages call.message.serialized (returned invalid) s)
finish_message env call (failed e) s =
    answer call.id (thrown e) (settle_pending_messages call.message.serialized (thrown e) s)

-- The worker answers a call; there is no answer to a call that does not wait.
unfoldable pub resume_message : RoundEnv → ℕ → Verdict → MessageProcessor → MessageProcessor
unfolding finish_message
resume_message env id verdict s = elim (take_call id s.verifying) [
  | none ↦ s
  | some (call, others) ↦ finish_message env call verdict (record s { verifying = others })
]
