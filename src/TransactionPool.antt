-- ===== src/TransactionPool.antt =====
-- packages/transaction-pool-service/source: the pool of one node, with the wallet of each sender
-- (packages/state/source/wallets/wallet.ts) and the fees of packages/blockchain-utils/source/fee-calculator.ts.
-- The EVM, the plugin configuration and the check of second signatures are the record PoolEnv. Amounts are
-- natural numbers: Funds shows that no balance and no nonce would go below zero.
pub mod SenderState
pub mod SenderMempool
pub mod Mempool
pub mod Funds
mod Placement
mod Replacement
mod Accounts
mod Tests
use mainsail.Prelude.{ℕ, ◌+◌, ◌*◌, Bool, Option, List}
use mainsail.Prelude.Outcome.{Result}

-- A transaction without network, and one with network 0, both test as false.
pub record Transaction : Type 0 where
  pub hash : ℕ
  pub from : ℕ
  pub nonce : ℕ
  pub value : ℕ
  pub gas_price : ℕ
  pub gas_limit : ℕ
  pub network : ℕ
  pub byte_length : ℕ
  pub legacy_second_signature : Option ℕ

abbrev pub calculate : Transaction → ℕ
calculate tx = tx.gas_price * tx.gas_limit

-- What a transaction takes from its sender at most.
abbrev pub cost : Transaction → ℕ
cost tx = tx.value + calculate tx

-- What `init` reads from the EVM.
pub record Wallet : Type 0 where
  pub balance : ℕ
  pub nonce : ℕ
  pub second_public_key : Option ℕ

pub record PoolEnv : Type 0 where
  pub max_transaction_bytes : ℕ
  pub max_transactions_per_sender : ℕ
  pub allowed_senders : List ℕ
  pub chain_id : ℕ
  pub account : ℕ → Wallet
  pub verify_second_signature : Transaction → ℕ → Result (Unit {0})
  pub preverify : Transaction → Bool
