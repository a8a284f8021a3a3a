-- ===== src/RoundState.antt =====
-- packages/consensus/source/round-state.ts: the proposal and the votes of one round.
-- The getters of single fields are the record's fields; logging is left out. The configuration, the
-- validator set and the proposer calculator are the record `RoundEnv`.
pub mod Quorums
pub mod Messages
pub mod Invariant
mod Tests
use mainsail.Prelude.{
  ℕ, ◌+◌, Bool, true, false, Option, none, some, List, [], ◌∷◌, ◌++◌, ◌||◌, ◌&&◌, not, length,
  is_some, is_none, replicate, set_bit, get_elem?, if◌then◌else◌, same, any,
}
use mainsail.Prelude.JsMap.{number_key, optional_key, get, put, has}
use mainsail.Prelude.Outcome.{
  Result, ok, err, ◌>>=◌, ◌>>◌, proposal_exists, prevote_exists, precommit_exists,
  block_unavailable, processor_result_undefined, validator_undefined, proposal_undefined,
}
use mainsail.Contracts.{
  MessageType, prevote, precommit, Message, Proposal, Block, ValidatorWallet, BlockProcessorResult,
  AggregatedSignature, Commit, is_data_deserialized,
}

pub record RoundEnv : Type 0 where
  pub round_validators : ℕ → ℕ
  pub validators : List ValidatorWallet
  pub validator_index : ℕ → ℕ

-- `#prevotes`, `#prevotesCount` and `#validatorsSignedPrevote`; the same three for precommits.
pub record Ballot : Type 0 where
  pub messages : List (ℕ × Message)
  pub counts : List (Option ℕ × ℕ)
  pub signed : List Bool

pub record RoundState : Type 0 where
  pub block_number : ℕ
  pub round : ℕ
  pub proposal : Option Proposal
  pub processor_result : Option BlockProcessorResult
  pub account_updates : List ℕ
  pub contract_events : List ℕ
  pub prevotes : Ballot
  pub precommits : Ballot
  pub validators : List (ℕ × ValidatorWallet)
  pub proposer : Option ValidatorWallet
  pub commit : Option Commit

abbrev pub empty_ballot : ℕ → Ballot
empty_ballot n = record { messages = []; counts = []; signed = replicate n false }

-- The field initialisers, before `configure`.
abbrev pub fresh : RoundState
fresh = record {
  block_number = 0;
  round = 0;
  proposal = none;
  processor_result = none;
  account_updates = [];
  contract_events = [];
  prevotes = empty_ballot 0;
  precommits = empty_ballot 0;
  validators = [];
  proposer = none;
  commit = none;
}

abbrev keyed : List ValidatorWallet → List (ℕ × ValidatorWallet) → List (ℕ × ValidatorWallet)
keyed [] m = m
keyed (v ∷ vs) m = keyed vs (put v.bls_public_key v m)

-- `configure` runs once, on a fresh object: the two arrays get one `false` for each validator.
unfoldable pub configure : RoundEnv → ℕ → ℕ → RoundState
configure env number number_of_round = record fresh {
  block_number = number;
  round = number_of_round;
  validators = keyed env.validators [];
  prevotes = empty_ballot (length env.validators);
  precommits = empty_ballot (length env.validators);
  proposer = get_elem? env.validators (env.validator_index number_of_round);
}

unfoldable pub get_validator : ℕ → RoundState → Result ValidatorWallet
get_validator key rs = elim (get key rs.validators) [
  | none ↦ err validator_undefined
  | some v ↦ ok v
]

abbrev pub has_proposal : RoundState → Bool
has_proposal rs = is_some rs.proposal

unfoldable pub add_proposal : Proposal → RoundState → Result RoundState
add_proposal p rs =
    if has_proposal rs then err proposal_exists else ok (record rs { proposal = some p })

unfoldable pub get_block : RoundState → Result Block
get_block rs = elim rs.proposal [
  | none ↦ err block_unavailable
  | some p ↦ elim p.payload [ none ↦ err block_unavailable | some block ↦ ok block ]
]

abbrev pub set_processor_result : BlockProcessorResult → RoundState → RoundState
set_processor_result result rs = record rs { processor_result = some result }

abbrev pub has_processor_result : RoundState → Bool
has_processor_result rs = is_some rs.processor_result

abbrev pub get_processor_result : RoundState → Result BlockProcessorResult
get_processor_result rs = elim rs.processor_result [
  | none ↦ err processor_result_undefined
  | some result ↦ ok result
]

-- `#getPrevoteCount` and `#getPrecommitCount`.
abbrev or_zero : Option ℕ → ℕ
or_zero none = 0
or_zero (some n) = n

abbrev pub get_count : Option ℕ → Ballot → ℕ
get_count block_hash b = or_zero (get block_hash b.counts)

-- The three writes of `addPrevote` and `addPrecommit`, with `#increasePrevoteCount`.
unfoldable pub record_vote : Message → Ballot → Ballot
record_vote m b = record {
  messages = put m.validator_index m b.messages;
  counts = put m.block_hash (get_count m.block_hash b + 1) b.counts;
  signed = set_bit b.signed m.validator_index;
}

abbrev pub has_prevote : ℕ → RoundState → Bool
has_prevote validator_index rs = has validator_index rs.prevotes.messages

abbrev pub has_precommit : ℕ → RoundState → Bool
has_precommit validator_index rs = has validator_index rs.precommits.messages

unfoldable pub add_prevote : Message → RoundState → Result RoundState
add_prevote m rs =
    if has_prevote m.validator_index rs
    then err prevote_exists
    else ok (record rs { prevotes = record_vote m rs.prevotes })

unfoldable pub add_precommit : Message → RoundState → Result RoundState
add_precommit m rs =
    if has_precommit m.validator_index rs
    then err precommit_exists
    else ok (record rs { precommits = record_vote m rs.precommits })
