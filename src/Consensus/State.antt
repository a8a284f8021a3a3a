-- ===== src/Consensus/State.antt =====
-- packages/consensus/source/consensus.ts: the fields of the class, packages/consensus/source/
-- round-state-repository.ts, and the components that the class calls.
use mainsail.Prelude.{ℕ, Bool, Option, none, some, List, [], ◌∷◌, ◌==◌, ◌&&◌, if◌then◌else◌, find}
use mainsail.Contracts.{Message, Proposal, Block, BlockProcessorResult, AggregatedSignature}
use mainsail.RoundState.{RoundEnv, RoundState, configure}
use mainsail.LockProof.{ProofEnv}
use mainsail.Timing.{Timeouts, Scheduler}

-- packages/constants/source/enums/consensus.ts.
pub data Step : Type 0 where
  propose prevote precommit : Step

-- The number of the enum, which `>=` compares.
abbrev pub rank : Step → ℕ
rank Step.propose = 0
rank Step.prevote = 1
rank Step.precommit = 2

-- A round state object is named by its position; `locked_value` and `valid_value` are such references.
pub record RoundRef : Type 0 where
  pub block_number : ℕ
  pub round : ℕ

-- What `getState` returns and the consensus storage keeps.
pub record StateData : Type 0 where
  pub block_number : ℕ
  pub round : ℕ
  pub step : Step
  pub valid_round : Option ℕ
  pub locked_round : Option ℕ

pub data Event : Type 0 where
  bootstrapped round_started proposal_accepted prevoted_proposal prevoted_any prevoted_null : Event
  precommitted_any precommitted_proposal proposed forged : Event

-- What a node does that others see, newest first in `log`. `voted` is a message that was signed, written
-- to the storage and handed to the message processor.
pub data Effect : Type 0 where
  persisted : StateData → Effect
  dispatched : Event → Effect
  voted : Message → Effect
  committed : ℕ → Effect
  saved_proposal : Proposal → Effect
  submitted : Proposal → Effect

-- A proposal under construction: all that it depends on is read when it is requested.
pub record Promise : Type 0 where
  pub id : ℕ
  pub proposal : Option Proposal

pub record Consensus : Type 0 where
  pub block_number : ℕ
  pub round : ℕ
  pub step : Step
  pub locked_value : Option RoundRef
  pub valid_value : Option RoundRef
  pub did_majority_prevote : Bool
  pub did_majority_precommit : Bool
  pub did_majority_precommit_without_proposal : Bool
  pub is_disposed : Bool
  pub proposal_promise : Option Promise
  pub round_start_time : ℕ
  pub scheduler : Scheduler
  -- the repository's map, and the objects that `clear` took out of it while a handler still holds them
  pub rounds : List RoundState
  pub detached : List RoundState
  -- how many times a handler has waited, and what the node did
  pub tick : ℕ
  pub log : List Effect

-- What the components outside the class answer. The number is the count of waits so far, so that an answer
-- may change with time.
pub record World : Type 0 where
  pub env : RoundEnv
  pub proof : ProofEnv
  pub now : ℕ → ℕ
  -- the milestone's timeouts at a block number, and the timestamp of the block before that number
  pub timeouts : ℕ → Timeouts
  pub last_timestamp : ℕ → ℕ
  -- what the message and proposal processors did to the round states during a wait
  pub arrive : ℕ → List RoundState → List RoundState
  -- `BlockProcessor.process`, with `none` for an exception, and `BlockProcessor.commit`
  pub process : ℕ → RoundState → Option BlockProcessorResult
  pub commit : ℕ → ℕ → Bool
  pub deserialize : Proposal → Option Block
  -- whether a write to the consensus storage succeeds
  pub stored : ℕ → Bool
  pub registered : ℕ → Bool
  pub index_of : ℕ → ℕ
  pub sign : ℕ → ℕ
  pub pending_commits : ℕ → Bool
  pub forge : ℕ → ℕ → ℕ → Option Block
  pub propose : ℕ → ℕ → Option ℕ → Block → Option AggregatedSignature → Option Proposal

abbrev pub is_at : ℕ → ℕ → RoundState → Bool
is_at block_number round rs = rs.block_number == block_number && rs.round == round

-- `getRoundState`: the entry of the map under `${blockNumber}-${round}`, made if it is missing.
unfoldable pub get_or_create : RoundEnv → ℕ → ℕ → List RoundState → RoundState × List RoundState
get_or_create env block_number round rounds = elim (find (is_at block_number round) rounds) [
  | some rs ↦ (rs, rounds)
  | none ↦ let rs = configure env block_number round in (rs, rs ∷ rounds)
]

-- The object behind a reference, also when it is no longer in the repository.
unfoldable pub deref : RoundEnv → RoundRef → Consensus → RoundState
deref env ref n = elim (find (is_at ref.block_number ref.round) n.rounds) [
  | some rs ↦ rs
  | none ↦ elim (find (is_at ref.block_number ref.round) n.detached) [
    | some rs ↦ rs
    | none ↦ configure env ref.block_number ref.round
  ]
]

-- The proposal of an object, with the other entries of the repository unchanged.
unfoldable pub update_round :
    RoundRef → (RoundState → RoundState) → List RoundState → List RoundState
update_round ref f [] = []
update_round ref f (rs ∷ rounds) =
    let rest = update_round ref f rounds in
    if is_at ref.block_number ref.round rs then f rs ∷ rounds else rs ∷ rest

abbrev pub round_of : Option RoundRef → Option ℕ
round_of none = none
round_of (some ref) = some ref.round

abbrev pub get_state : Consensus → StateData
get_state n = record {
  block_number = n.block_number;
  round = n.round;
  step = n.step;
  valid_round = round_of n.valid_value;
  locked_round = round_of n.locked_value;
}
