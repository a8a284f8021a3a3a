-- ===== src/TransactionPool/SenderMempool.antt =====
-- packages/transaction-pool-service/source/sender-mempool.ts: the transactions of one sender, in the order
-- of their nonces. The lock of the class lets one `addTransaction` run at a time; `concurrency` counts
-- those that wait, and is 0 again when an operation ends.
use mainsail.Prelude.{
  ℕ, Bool, Option, none, some, List, [], ◌∷◌, ◌++◌, ◌&&◌, not, leb, ltb, ◌==◌, if◌then◌else◌,
  length, any,
}
use mainsail.Prelude.Outcome.{
  Result, ok, err, ◌>>=◌, ◌>>◌, exceeded_transaction_count, nonce_mismatch,
}
use mainsail.TransactionPool.{Transaction, Wallet, PoolEnv}
use mainsail.TransactionPool.SenderState.{apply, replace, revert, throw_if}

pub record SenderMempool : Type 0 where
  pub sender : Wallet
  pub concurrency : ℕ
  pub transactions : List Transaction

abbrev pub is_disposable : SenderMempool → Bool
is_disposable s = (length s.transactions == 0) && (s.concurrency == 0)

-- The test before `apply`.
abbrev pub is_full : PoolEnv → Transaction → SenderMempool → Bool
is_full env tx s =
    leb env.max_transactions_per_sender (length s.transactions)
    && not (any (λ a. a == tx.from) env.allowed_senders)

unfoldable pub add_transaction : PoolEnv → Transaction → SenderMempool → Result SenderMempool
unfolding apply
add_transaction env tx s = do
  throw_if (is_full env tx s) exceeded_transaction_count
  applied ← apply env tx s.sender
  ok (record s { sender = applied; transactions = s.transactions ++ tx ∷ [] })

-- The list before the first entry that passes the test, and the list from it on: `findIndex`, `splice`.
abbrev pub split_at : (Transaction → Bool) → List Transaction → List Transaction × List Transaction
split_at p [] = ([], [])
split_at p (tx ∷ txs) =
    let rest = split_at p txs in if p tx then ([], tx ∷ txs) else (tx ∷ rest.0, rest.1)

-- The loop over the spliced transactions, the last of them first.
abbrev pub revert_all : List Transaction → Wallet → Wallet
revert_all [] w = w
revert_all (tx ∷ txs) w = revert tx (revert_all txs w)

abbrev pub latest_first : List Transaction → List Transaction
latest_first [] = []
latest_first (tx ∷ txs) = latest_first txs ++ tx ∷ []

unfoldable pub remove_transaction : ℕ → SenderMempool → List Transaction × SenderMempool
remove_transaction hash s =
    let (kept, removed) = split_at (λ t. t.hash == hash) s.transactions in
    (latest_first removed, record s { sender = revert_all removed s.sender; transactions = kept })

-- The loop that applies transactions again and collects those that are refused.
unfoldable pub add_all :
    PoolEnv → List Transaction → SenderMempool → List Transaction × SenderMempool
unfolding add_transaction
add_all env [] s = ([], s)
add_all env (tx ∷ txs) s = elim (add_transaction env tx s) [
  | ok added ↦ add_all env txs added
  | err e ↦ (tx ∷ (add_all env txs s).0, (add_all env txs s).1)
]

-- The first loop of `replaceTransaction`, from the latest transaction on.
abbrev pub affected_transactions : ℕ → List Transaction → List Transaction
affected_transactions nonce [] = []
affected_transactions nonce (tx ∷ txs) =
    let rest = affected_transactions nonce txs in if ltb tx.nonce nonce then [] else tx ∷ rest

abbrev pub last : List Transaction → Option Transaction
last [] = none
last (tx ∷ []) = some tx
last (tx ∷ t ∷ txs) = last (t ∷ txs)

-- What is left to do when the sender can pay for the new transaction only without the later ones. `kept`
-- stands before the index, `at_index` and `later` are spliced off.
unfoldable pub rebuild :
    PoolEnv
    → Transaction
    → Transaction
    → List Transaction
    → Transaction
    → List Transaction
    → SenderMempool
    → List Transaction × SenderMempool
unfolding add_all
rebuild env same_nonce new kept at_index later s =
    let reverted = record s {
      sender = revert_all (at_index ∷ later) s.sender;
      transactions = kept;
    } in
    let rest = add_all env (new ∷ later) reverted in (same_nonce ∷ rest.0, rest.1)

-- What follows `senderState.replace`, by its result.
unfoldable pub settle :
    PoolEnv
    → Transaction
    → Transaction
    → List Transaction
    → Transaction
    → List Transaction
    → SenderMempool
    → Result (Option Wallet)
    → Result (List Transaction × SenderMempool)
unfolding rebuild
settle env same_nonce new kept at_index later s (err e) = err e
settle env same_nonce new kept at_index later s (ok none) =
    ok (rebuild env same_nonce new kept at_index later s)
settle env same_nonce new kept at_index later s (ok (some paid)) =
    ok (same_nonce ∷ [], record s { sender = paid; transactions = kept ++ new ∷ later })

-- The list from the index on is never empty; the code would fail on it.
unfoldable pub replace_at :
    PoolEnv
    → Transaction
    → Transaction
    → List Transaction
    → List Transaction
    → SenderMempool
    → Result (List Transaction × SenderMempool)
unfolding replace settle
replace_at env same_nonce new kept [] s = err nonce_mismatch
replace_at env same_nonce new kept (at_index ∷ later) s =
    settle env same_nonce new kept at_index later s
      (replace env same_nonce new s.sender.nonce s.sender)

-- From `const index` on; `same_nonce` is the transaction to replace.
unfoldable pub replace_same_nonce :
    PoolEnv → Transaction → Transaction → SenderMempool → Result (List Transaction × SenderMempool)
unfolding replace_at
replace_same_nonce env same_nonce new s =
    let split = split_at (λ t. t.nonce == new.nonce) s.transactions in
    replace_at env same_nonce new split.0 split.1 s

-- From the test of `affectedTransactions.length` on; the option is the last affected transaction.
unfoldable pub replace_found :
    PoolEnv
    → Transaction
    → SenderMempool
    → Option Transaction
    → Result (List Transaction × SenderMempool)
unfolding replace_same_nonce
replace_found env new s none = ok ([], s)
replace_found env new s (some same_nonce) =
    if same_nonce.nonce == new.nonce
    then (if leb new.gas_price same_nonce.gas_price
        then ok ([], s)
        else replace_same_nonce env same_nonce new s)
    else err nonce_mismatch

unfoldable pub replace_transaction :
    PoolEnv → Transaction → SenderMempool → Result (List Transaction × SenderMempool)
unfolding replace_found
replace_transaction env new s =
    replace_found env new s (last (affected_transactions new.nonce (latest_first s.transactions)))

-- `account` is what the EVM answers to `reset`.
unfoldable pub re_add_transactions :
    PoolEnv → Wallet → SenderMempool → List Transaction × SenderMempool
unfolding add_all
re_add_transactions env account s =
    add_all env s.transactions (record s { sender = account; transactions = [] })
