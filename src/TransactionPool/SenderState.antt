-- ===== src/TransactionPool/SenderState.antt =====
-- packages/transaction-pool-service/source/sender-state.ts: the account of a sender with the transactions
-- of the pool applied.
use mainsail.Prelude.{
  ℕ, ◌+◌, ◌-◌, Bool, true, false, Option, none, some, ◌&&◌, not, ltb, ◌==◌, is_some, if◌then◌else◌,
}
use mainsail.Prelude.Outcome.{
  Error, Result, ok, err, ◌>>◌, exceeds_byte_size, wrong_network, unexpected_nonce,
  unexpected_second_signature, preverify_failed, insufficient_balance, nonce_mismatch,
}
use mainsail.TransactionPool.{Transaction, Wallet, PoolEnv, cost}

-- `if (test) throw error`.
abbrev pub throw_if : Bool → Error → Result (Unit {0})
throw_if true e = err e
throw_if false e = ok tt

-- The last two checks of `#validateTransaction`, with `#preverify`.
unfoldable pub check_signature : PoolEnv → Wallet → Transaction → Result (Unit {0})
check_signature env w tx = elim w.second_public_key [
  | some key ↦ env.verify_second_signature tx key
  | none ↦ throw_if (is_some tx.legacy_second_signature) unexpected_second_signature
]

-- The first four checks; `expected` is the wallet's nonce plus the offset.
unfoldable pub check_account : PoolEnv → Wallet → Transaction → ℕ → ℕ → Result (Unit {0})
check_account env w tx expected refund = do
  throw_if (ltb env.max_transaction_bytes tx.byte_length) exceeds_byte_size
  throw_if (not (tx.network == 0) && not (tx.network == env.chain_id)) wrong_network
  throw_if (not (expected == tx.nonce)) unexpected_nonce
  throw_if (ltb (w.balance + refund) (cost tx)) insufficient_balance

-- `#validateTransaction`.
unfoldable pub validate_transaction : PoolEnv → Wallet → Transaction → ℕ → ℕ → Result (Unit {0})
unfolding check_account check_signature
validate_transaction env w tx expected refund = do
  check_account env w tx expected refund
  check_signature env w tx
  throw_if (not (env.preverify tx)) preverify_failed

abbrev pub charge : Transaction → Wallet → Wallet
charge tx w = record w { nonce = w.nonce + 1; balance = w.balance - cost tx }

unfoldable pub apply : PoolEnv → Transaction → Wallet → Result Wallet
unfolding validate_transaction
apply env tx w = do validate_transaction env w tx w.nonce 0; ok (charge tx w)

-- The result is `none` where the code returns false.
unfoldable pub replace : PoolEnv → Transaction → Transaction → ℕ → Wallet → Result (Option Wallet)
unfolding validate_transaction
replace env old new current_nonce w =
    if not (old.nonce == new.nonce)
    then err nonce_mismatch
    else if ltb (w.balance + cost old) (cost new)
    then ok none
    else (do
      validate_transaction env w new (w.nonce + new.nonce - current_nonce) (cost old)
      ok (some (record w { balance = w.balance + cost old - cost new })))

abbrev pub revert : Transaction → Wallet → Wallet
revert tx w = record w { nonce = w.nonce - 1; balance = w.balance + cost tx }
