-- ===== src/ConsensusStorage.antt =====
-- packages/consensus-storage/source/service.ts: the records that a node keeps of the block that it works on.
-- LMDB runs the transactions one after another and completely; where one fails the process stops, so only
-- writes that succeed are modelled. The databases are lists with one record for each key; the order in which
-- LMDB lists keys is not modelled.
pub mod Laws
mod Tests
use mainsail.Prelude.{
  ℕ, Bool, true, false, Option, none, some, List, [], ◌∷◌, ltb, ◌==◌, ◌&&◌, if◌then◌else◌,
}
use Prim.Native.Nat.{max}
use mainsail.Contracts.{MessageType, prevote, precommit, Message, Proposal}
use mainsail.Consensus.State.{StateData}

pub record Service : Type 0 where
  pub proposal_storage : List Proposal
  pub message_storage : List Message
  pub state_storage : Option StateData
  pub block_number : ℕ

abbrev same_type : MessageType → MessageType → Bool
same_type prevote prevote = true
same_type precommit precommit = true
same_type _ _ = false

-- The keys of the two databases.
abbrev pub same_proposal_key : Proposal → Proposal → Bool
same_proposal_key p q = (p.round == q.round) && (p.validator_index == q.validator_index)

abbrev pub same_message_key : Message → Message → Bool
same_message_key m n =
    (m.round == n.round) && (m.validator_index == n.validator_index) && same_type m.type n.type

abbrev pub put_sync {ℓ} : {A : Type ℓ} → (A → A → Bool) → A → List A → List A
put_sync same x [] = x ∷ []
put_sync same x (y ∷ ys) = let rest = put_sync same x ys in if same y x then x ∷ ys else y ∷ rest

abbrev pub block_of : Option StateData → ℕ
block_of none = 0
block_of (some state) = state.block_number

-- When the process starts: what is on the disk stays.
unfoldable pub initialize : Service → Service
initialize s = record s { block_number = block_of s.state_storage }

-- `#clear`.
abbrev clear_databases : Service → Service
clear_databases s = record s { proposal_storage = []; message_storage = []; state_storage = none }

-- `#write` up to the record itself.
unfoldable pub write : ℕ → Service → Service
write block_number s =
    let kept = record s { block_number = max s.block_number block_number } in
    if ltb s.block_number block_number then clear_databases kept else kept

unfoldable pub save_state : StateData → Service → Service
unfolding write
save_state state s = record (write state.block_number s) { state_storage = some state }

unfoldable pub save_proposal : Proposal → Service → Service
unfolding write
save_proposal p s =
    let written = write p.block_header.number s in
    record written { proposal_storage = put_sync same_proposal_key p written.proposal_storage }

unfoldable pub save_message : Message → Service → Service
unfolding write
save_message m s =
    let written = write m.block_number s in
    record written { message_storage = put_sync same_message_key m written.message_storage }

unfoldable pub clear : Service → Service
clear s = clear_databases (record s { block_number = 0 })

abbrev pub get_state : Service → Option StateData
get_state s = s.state_storage

abbrev pub get_proposals : Service → List Proposal
get_proposals s = s.proposal_storage

abbrev pub get_messages : Service → List Message
get_messages s = s.message_storage
