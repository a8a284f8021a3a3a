-- ===== src/Lib.antt =====
-- Mainsail: a verification library for the consensus core of the node.
--
-- The program is a layer 1 blockchain node: validators agree on one block after another by a Tendermint
-- protocol. The parts that carry the protocol are modelled here, function by function, from the TypeScript
-- sources under packages/.
--
-- Files and sources:
-- - Prelude: names of the libraries, Boolean tests, lists, JavaScript maps (Prelude/JsMap), and the
--   errors that the modelled code throws (Prelude/Outcome).
-- - Contracts: the data of packages/contracts/source/contracts/crypto.
-- - Quorum: packages/blockchain-utils/source/is-majority.ts and is-minority.ts.
-- - Aggregator: packages/consensus/source/aggregator.ts. Joined has the joining of signatures under the laws of BLS.
-- - RoundState: packages/consensus/source/round-state.ts. A round state keeps a proposal and two ballots
--   (add_prevote, add_precommit); RoundState/Quorums has the thresholds that the rules test,
--   RoundState/Invariant the agreement of counters and votes.
-- - TransactionPool: packages/transaction-pool-service/source/sender-state.ts, sender-mempool.ts and
--   mempool.ts, with the wallet of packages/state and the fees of packages/blockchain-utils. Each operation
--   runs to its end here; Funds, Replacement and Accounts have the invariant of a sender's account.
-- - Timing: packages/blockchain-utils/source/timestamp-calculator.ts and
--   packages/consensus/source/scheduler.ts.
-- - LockProof: hasValidLockProof of packages/consensus/source/processors/proposal-processor.ts.
-- - Consensus: packages/consensus/source/consensus.ts and round-state-repository.ts. State holds the fields
--   of the class as a record and, as the record World, what the other components answer. Monad has actions,
--   which return or throw. Voting, Rules and Rounds have the private methods, Events the entry points.
--   Bootstrapper is packages/consensus/source/bootstrapper.ts.
-- - Processors: packages/consensus/source/processors/abstract-processor.ts, message-processor.ts,
--   proposal-processor.ts (process) and commit-processor.ts. A call runs in two steps around the check of the
--   signature; Pending and Calls follow the calls of messages, Positions and Proposed those of proposals.
--   Committed composes the commit processor with handleCommitState of Consensus, Certificates follows a
--   certificate from the round state that makes it to the node that checks it.
-- - Consensus/Fuel: which part of the recursion of startRound takes fuel.
-- - ConsensusStorage: packages/consensus-storage/source/service.ts. Laws has what a restart reads back.
-- - Consensus/Safety: the invariant of a node's votes, kept by every handler, and the safety theorems.
--   Consensus/Commits has the same for any relation of the block number and the log that effects keep, and
--   the order of the blocks that a node commits.
-- - ValidatorSet: packages/utils/source/validator-set-pack.ts.
-- - ByteBuffer: packages/utils/source/byte-buffer.ts, a cursor over bytes that throws when it is short of
--   them. Digits has the little-endian numbers, Writing and Reading the operations, Bounds how far they go.
-- - Serializer: packages/serializer/source/serializer.ts. A schema is a list of named fields; Writing and
--   Reading follow the two switches over the fields' types, Encoding is the byte format by itself, without a
--   cursor, and RoundTrip, Taking, Fields and Canonical compare the two with it. Sizes has the capacities.
-- - Codecs: the serializers and factories that use it: Codecs/Messages is packages/crypto-messages,
--   Codecs/Proposals packages/crypto-proposal, Codecs/Commits packages/crypto-commit, Codecs/Blocks the
--   header codec of packages/crypto-block. Whole has what they share, a read that leaves no byte.
-- - Rounds: packages/blockchain-utils/source/round-calculator.ts and proposer-calculator.ts. Spans is the
--   chain as spans of blocks with one number of validators, Steps follows a chain one block at a time.
-- - Configuration: packages/crypto-config/source/configuration.ts. Built is the construction of milestones, Cursor the
--   pointer to the milestone of a height, Changes the search for the next change of a value, Setting a later
--   change of another field; Rounds is what the calculation of rounds asks, and Ending follows its loop.
--   Validators, Spanned, Checked and Composed join the two components: what the check of the numbers of
--   validators guarantees is what the calculation of rounds needs.
--
-- How state and waits are modelled: a handler runs under the handler lock, so handlers run one after
-- another. At each await the function World.arrive may change the round states in any way, which covers all
-- that the message and proposal processors do meanwhile; every theorem is for every such function. What a
-- node signs, stores and sends is its log, newest first.
--
-- Fuel: startRound applies the rules of the round that it enters, which start a round again only after a
-- commit, because the round state just entered is never of a higher round. The recursion takes fuel, which
-- bounds the blocks that one handler commits; a call without any throws fuel_exhausted. collect_spans of
-- Rounds takes fuel for the milestones that change the number of validators, at most as many as there are
-- milestones.
--
-- Not modelled: log messages; the network, the database and the EVM, whose answers are fields of World;
-- cryptography, which is the record Worker; packages that serve APIs and the command line. The codecs take
-- as parameters the address factory, the hash of a header, the reading of transactions and the validation
-- by JSON schema, with the laws they rely on where a round trip needs them; a hex string is the list of its
-- bytes there. In the consensus parts hashes, addresses, keys and signatures are numbers. Numbers are natural
-- numbers, as a bigint is exact and all other modelled values stay far below 2 ^ 53.
pub mod Prelude
pub mod Contracts
pub mod Quorum
pub mod Configuration
pub mod Rounds
pub mod ByteBuffer
pub mod TransactionPool
pub mod Aggregator
pub mod RoundState
pub mod Timing
pub mod LockProof
pub mod Consensus
pub mod Processors
pub mod ConsensusStorage
pub mod ValidatorSet
pub mod Serializer
pub mod Codecs
