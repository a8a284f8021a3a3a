-- ===== src/Consensus.antt =====
-- packages/consensus/source/consensus.ts: the Tendermint state machine of one node.
-- State is the record `Consensus` of `State`; a method is an action of `Monad`, which returns or throws and
-- leaves the fields as they were written by then. `World` holds what the other components answer.
pub mod State
pub mod Monad
pub mod Voting
pub mod Rules
pub mod Rounds
pub mod Events
pub mod Bootstrapper
pub mod Safety
pub mod Commits
mod Fuel
pub mod Examples
mod SafetyTests
