-- ===== src/Consensus/Safety.antt =====
-- Safety of one node's votes, over every list of inputs and whatever the other components answer.
pub mod Log
pub mod Hoare
pub mod Votes
pub mod Rules
pub mod Rounds
pub mod Inputs
pub mod Theorems
pub mod Restart
