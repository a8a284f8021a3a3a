-- ===== src/Processors/Calls.antt =====
-- No call of the message processor gets lost: each is answered once or waits, and no message is verified
-- twice at a time.
use mainsail.Prelude.{ℕ, List, [], ◌∷◌}
use mainsail.Prelude.JsMap.{number_key}
use mainsail.RoundState.{RoundEnv, RoundState}
use mainsail.Processors.{Position}
use mainsail.Processors.MessageProcessor.{
  Call, MessageProcessor, process_message, Verdict, resume_message,
}

-- Before the first call.
abbrev pub idle : List RoundState → MessageProcessor
idle rounds = record {
  rounds = rounds;
  pending_messages = [];
  verifying = [];
  answers = [];
  saved = [];
  sent = [];
  handled = [];
}

-- A message processor after calls and answers of the worker, in any order, with the calls it was given.
pub data IsReachable (env : RoundEnv) : List ℕ → MessageProcessor → Type 0 where
  started : (rounds : List RoundState) → IsReachable env [] (idle rounds)
  called :
      (ids : List ℕ) (s : MessageProcessor) (at : Position) (call : Call)
      → IsReachable env ids s
      → IsReachable env (call.id ∷ ids) (process_message env at call s)
  resumed :
      (ids : List ℕ) (s : MessageProcessor) (id : ℕ) (verdict : Verdict)
      → IsReachable env ids s
      → IsReachable env ids (resume_message env id verdict s)
