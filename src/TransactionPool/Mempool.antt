-- ===== src/TransactionPool/Mempool.antt =====
-- packages/transaction-pool-service/source/mempool.ts: the senders of the pool, a map from addresses.
use mainsail.Prelude.{ℕ, ◌+◌, none, some, List, [], ◌∷◌, ◌++◌, leb, length, if◌then◌else◌}
use mainsail.Prelude.JsMap.{get, put, delete, number_key}
use mainsail.Prelude.Outcome.{Result, ok, err, ◌>>=◌, unknown_sender}
use mainsail.TransactionPool.{Transaction, PoolEnv}
use mainsail.TransactionPool.SenderMempool.{
  SenderMempool, is_disposable, replace_transaction, add_transaction as add_to_sender,
  remove_transaction as remove_from_sender, re_add_transactions as re_add_of_sender,
}

abbrev pub SenderMempools : Type 0
SenderMempools = List (ℕ × SenderMempool)

abbrev pub get_size : SenderMempools → ℕ
get_size [] = 0
get_size ((address, s) ∷ m) = length s.transactions + get_size m

unfoldable pub get_sender_mempool : ℕ → SenderMempools → Result SenderMempool
get_sender_mempool address m = elim (get address m) [ none ↦ err unknown_sender | some s ↦ ok s ]

-- The sender's mempool, which is created when it is missing.
abbrev pub sender_mempool : PoolEnv → ℕ → SenderMempools → SenderMempool
sender_mempool env from m = elim (get from m) [
  | none ↦ record { sender = env.account from; concurrency = 0; transactions = [] }
  | some s ↦ s
]

unfoldable pub remove_disposable_mempool : ℕ → SenderMempools → SenderMempools
remove_disposable_mempool address m = elim (get address m) [
  | none ↦ m
  | some s ↦ if is_disposable s then delete address m else m
]

-- Returns what was replaced and leaves the storage.
unfoldable pub try_replace_transaction :
    PoolEnv → Transaction → SenderMempool → Result (List Transaction × SenderMempool)
unfolding replace_transaction
try_replace_transaction env tx s = do
  (removed, replaced) ← replace_transaction env tx s
  elim removed [
    | [] ↦ (do added ← add_to_sender env tx replaced; ok ([], added))
    | t ∷ ts ↦ ok (t ∷ ts, replaced)
  ]

-- The `try` block.
unfoldable pub place_transaction :
    PoolEnv → Transaction → SenderMempool → Result (List Transaction × SenderMempool)
unfolding try_replace_transaction
place_transaction env tx s =
    if leb tx.nonce s.sender.nonce
    then try_replace_transaction env tx s
    else (do added ← add_to_sender env tx s; ok ([], added))

-- Also after an error the sender is in the map, unless it has no transaction.
unfoldable pub add_transaction :
    PoolEnv → Transaction → SenderMempools → Result (List Transaction) × SenderMempools
unfolding place_transaction remove_disposable_mempool
add_transaction env tx m =
    let s = sender_mempool env tx.from m in
    elim (place_transaction env tx s) [
      | err e ↦ (err e, remove_disposable_mempool tx.from (put tx.from s m))
      | ok (removed, placed) ↦
          (ok removed, remove_disposable_mempool tx.from (put tx.from placed m))
    ]

unfoldable pub remove_transaction : ℕ → ℕ → SenderMempools → List Transaction × SenderMempools
unfolding remove_disposable_mempool
remove_transaction address hash m = elim (get address m) [
  | none ↦ ([], m)
  | some s ↦
      let (removed, rest) = remove_from_sender hash s in
      (removed, remove_disposable_mempool address (put address rest m))
]

unfoldable pub re_add_transactions :
    PoolEnv → List ℕ → SenderMempools → List Transaction × SenderMempools
unfolding remove_disposable_mempool
re_add_transactions env [] m = ([], m)
re_add_transactions env (address ∷ addresses) m = elim (get address m) [
  | none ↦ re_add_transactions env addresses m
  | some s ↦
      let (removed, kept) = re_add_of_sender env (env.account address) s in
      let (others, rest) =
        re_add_transactions env addresses
          (remove_disposable_mempool address (put address kept m)) in
      (removed ++ others, rest)
]

abbrev pub flush : SenderMempools → SenderMempools
flush m = []
