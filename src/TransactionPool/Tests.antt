-- ===== src/TransactionPool/Tests.antt =====
-- A pool with two senders, and a replacement in it.
use mainsail.Prelude.{ℕ, ◌≡◌, refl, true, none, List, [], ◌∷◌}
use mainsail.Prelude.Outcome.{ok}
use mainsail.TransactionPool.{Transaction, PoolEnv}
use mainsail.TransactionPool.SenderState.{apply}
use mainsail.TransactionPool.SenderMempool.{
  remove_transaction as remove_from_sender, replace_transaction, replace_found, replace_same_nonce,
}
use mainsail.TransactionPool.Mempool.{
  SenderMempools, add_transaction, remove_transaction, re_add_transactions,
}

abbrev env : PoolEnv
env = record {
  max_transaction_bytes = 1000;
  max_transactions_per_sender = 5;
  allowed_senders = [];
  chain_id = 10000;
  account = λ _. record { balance = 100; nonce = 3; second_public_key = none };
  verify_second_signature = λ tx key. ok tt;
  preverify = λ tx. true;
}

-- Five units of gas.
abbrev transfer : ℕ → ℕ → ℕ → ℕ → Transaction
transfer hash from nonce gas_price = record {
  hash = hash;
  from = from;
  nonce = nonce;
  value = 10;
  gas_price = gas_price;
  gas_limit = 5;
  network = 10000;
  byte_length = 200;
  legacy_second_signature = none;
}

-- Sender 7 has nonces 3, 4, 5 and then pays more for 4; sender 8 has nonce 3, which leaves again.
abbrev added_pool : SenderMempools
added_pool =
    (add_transaction env (transfer 4 8 3 1)
      (add_transaction env (transfer 3 7 5 1)
        (add_transaction env (transfer 2 7 4 1)
          (add_transaction env (transfer 1 7 3 1) []).1).1).1).1

abbrev pool : SenderMempools
pool = (remove_transaction 8 4 (add_transaction env (transfer 5 7 4 2) added_pool).1).1

runs : Unit {0}
unfolding add_transaction remove_transaction re_add_transactions apply replace_transaction
    replace_found replace_same_nonce
runs = tt

hashes : SenderMempools → List (ℕ × List ℕ)
hashes [] = []
hashes ((address, s) ∷ m) = (address, ids s.transactions) ∷ hashes m
  where
    ids : List Transaction → List ℕ
    ids [] = []
    ids (tx ∷ txs) = tx.hash ∷ ids txs

pool_run : hashes pool ≡ (7, 1 ∷ 5 ∷ 3 ∷ []) ∷ []
unfolding runs hashes remove_from_sender
pool_run = refl
