-- ===== src/Contracts.antt =====
-- packages/contracts/source/contracts/crypto and consensus: the data that the components exchange.
-- Hashes, addresses, public keys, signatures and serialized bytes are hex strings that the modelled
-- code compares and passes on, so each is a number; timestamps are milliseconds.
use mainsail.Prelude.{ℕ, Bool, Option, List, is_some}

-- The two message types; every switch over a type throws on any other value, which no typed message has.
pub data MessageType : Type 0 where
  prevote precommit : MessageType

pub record Message : Type 0 where
  pub type : MessageType
  pub block_number : ℕ
  pub round : ℕ
  pub validator_index : ℕ
  pub block_hash : Option ℕ
  pub signature : ℕ
  pub serialized : ℕ

pub record BlockHeader : Type 0 where
  pub number : ℕ
  pub round : ℕ
  pub hash : ℕ
  pub timestamp : ℕ

pub record Block : Type 0 where
  pub header : BlockHeader
  pub open header use *
  pub serialized_block : ℕ

pub record AggregatedSignature : Type 0 where
  pub signature : ℕ
  pub validators : List Bool

-- `payload` is set once `deserializePayload` has run.
pub record Proposal : Type 0 where
  pub block_header : BlockHeader
  pub round : ℕ
  pub validator_index : ℕ
  pub valid_round : Option ℕ
  pub lock_proof : Option AggregatedSignature
  pub payload : Option Block
  pub signature : ℕ
  pub serialized : ℕ

abbrev pub is_data_deserialized : Proposal → Bool
is_data_deserialized p = is_some p.payload

pub record ValidatorWallet : Type 0 where
  pub address : ℕ
  pub bls_public_key : ℕ

pub record BlockProcessorResult : Type 0 where
  pub fee_used : ℕ
  pub gas_used : ℕ
  pub receipts : List ℕ
  pub success : Bool

pub record CommitProof : Type 0 where
  pub round : ℕ
  pub signature : ℕ
  pub validators : List Bool

pub record Commit : Type 0 where
  pub block : Block
  pub proof : CommitProof
