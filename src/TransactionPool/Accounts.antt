-- ===== src/TransactionPool/Accounts.antt =====
-- The pool as a whole: which pools a node can have, and what holds of them.
use mainsail.Prelude.{ℕ, ◌≤◌, List, [], length, All}
use mainsail.Prelude.JsMap.{number_key}
use mainsail.TransactionPool.{Transaction, Wallet, PoolEnv}
use mainsail.TransactionPool.SenderMempool.{SenderMempool, add_transaction as add_to_sender}
use mainsail.TransactionPool.Mempool.{
  SenderMempools, add_transaction, remove_transaction, re_add_transactions, flush,
}
use mainsail.TransactionPool.Funds.{IsConsistent}

-- Some account of the sender pays for exactly what is in the pool.
abbrev IsBacked : SenderMempool → Type 0
IsBacked s = (account : Wallet) × IsConsistent account s

abbrev IsOccupied : SenderMempool → Type 0
IsOccupied s = IsBacked s × (1 ≤ length s.transactions)

-- Every sender in the map has a transaction.
abbrev pub IsSound : SenderMempools → Type 0
IsSound m = All (λ e. IsOccupied e.1) m

-- The pools that a node can have: operations in any order, each with any environment.
pub data IsReachable : SenderMempools → Type 1 where
  empty : IsReachable []
  added :
      (env : PoolEnv) (tx : Transaction) (m : SenderMempools)
      → IsReachable m
      → IsReachable (add_transaction env tx m).1
  removed :
      (address hash : ℕ) (m : SenderMempools)
      → IsReachable m
      → IsReachable (remove_transaction address hash m).1
  re_added :
      (env : PoolEnv) (addresses : List ℕ) (m : SenderMempools)
      → IsReachable m
      → IsReachable (re_add_transactions env addresses m).1
  flushed : (m : SenderMempools) → IsReachable m → IsReachable (flush m)
