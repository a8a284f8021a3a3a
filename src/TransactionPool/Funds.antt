-- ===== src/TransactionPool/Funds.antt =====
-- The accounts of the pool: a sender's wallet is the account that the EVM knows less what the transactions
-- in the pool take from it, and their nonces have no gap.
use mainsail.Prelude.{
  ℕ, suc, ◌+◌, ◌-◌, ◌≤◌, ◌≡◌, refl, sym, subst, Bool, true, false, List, [], ◌∷◌, ◌++◌, arith,
  length, length-append, ◌==◌, inl, inr, Bool-cases,
}
use mainsail.Prelude.Outcome.{Error, Result, ok, and_then, and_then-inv, ok-inj, Result-cases}
use mainsail.TransactionPool.{Transaction, Wallet, PoolEnv, cost}
use mainsail.TransactionPool.SenderState.{
  validate_transaction, check_account, apply, charge, throw_if,
}
use mainsail.TransactionPool.SenderMempool.{
  SenderMempool, add_transaction, is_full, split_at, revert_all, add_all, remove_transaction,
  re_add_transactions,
}

abbrev pub total_cost : List Transaction → ℕ
total_cost [] = 0
total_cost (tx ∷ txs) = cost tx + total_cost txs

-- The nonces go up one by one from here.
abbrev pub IsSequence : ℕ → List Transaction → Type 0
IsSequence nonce [] = Unit
IsSequence nonce (tx ∷ txs) = (tx.nonce ≡ nonce) × IsSequence (suc nonce) txs

abbrev pub IsFunded : Wallet → Wallet → List Transaction → Type 0
IsFunded account w txs =
    (w.nonce ≡ account.nonce + length txs) × (w.balance + total_cost txs ≡ account.balance)

abbrev pub IsConsistent : Wallet → SenderMempool → Type 0
IsConsistent account s =
    IsFunded account s.sender s.transactions
    × IsSequence account.nonce s.transactions
    × (s.concurrency ≡ 0)

pub total_cost-append :
    (xs ys : List Transaction) → total_cost (xs ++ ys) ≡ total_cost xs + total_cost ys
total_cost-append [] ys = omega arith
total_cost-append (x ∷ xs) ys = omega (arith, total_cost-append xs ys)

IsSequence-append :
    (n : ℕ) (xs ys : List Transaction)
    → IsSequence n xs
    → IsSequence (n + length xs) ys
    → IsSequence n (xs ++ ys)
IsSequence-append n [] ys h k = subst (λ i. IsSequence i ys) (omega arith) k
IsSequence-append n (x ∷ xs) ys h k =
    (h.0, IsSequence-append (suc n) xs ys h.1 (subst (λ i. IsSequence i ys) (omega arith) k))

-- A chain that goes on past a check.
throw_if-inv :
    {C : Type 0} {c : C} (b : Bool) (e : Error) (next : Unit {0} → Result C)
    → and_then next (throw_if b e) ≡ ok c
    → (b ≡ false) × (next tt ≡ ok c)
throw_if-inv true e next h = cc
throw_if-inv false e next h = (refl, h)

check_account-inv :
    (env : PoolEnv) (w : Wallet) (tx : Transaction) (expected refund : ℕ)
    → check_account env w tx expected refund ≡ ok tt
    → (expected ≡ tx.nonce) × (cost tx ≤ w.balance + refund)
unfolding check_account
check_account-inv env w tx expected refund h = ground arith

pub validate_transaction-inv :
    (env : PoolEnv) (w : Wallet) (tx : Transaction) (expected refund : ℕ)
    → validate_transaction env w tx expected refund ≡ ok tt
    → (expected ≡ tx.nonce) × (cost tx ≤ w.balance + refund)
unfolding validate_transaction
validate_transaction-inv env w tx expected refund h =
    let (_, checked, _) = and_then-inv _ (check_account env w tx expected refund) h in
    check_account-inv env w tx expected refund checked

apply-inv :
    (env : PoolEnv) (tx : Transaction) (w : Wallet) {w' : Wallet}
    → apply env tx w ≡ ok w'
    → (w.nonce ≡ tx.nonce) × (cost tx ≤ w.balance) × (charge tx w ≡ w')
unfolding apply
apply-inv env tx w h =
    let (_, valid, e) = and_then-inv _ (validate_transaction env w tx w.nonce 0) h in
    let (nonce, funds) = validate_transaction-inv env w tx w.nonce 0 valid in
    (nonce, omega arith, ok-inj e)

add_transaction-inv :
    (env : PoolEnv) (tx : Transaction) (s : SenderMempool) {s' : SenderMempool}
    → add_transaction env tx s ≡ ok s'
    → (w : Wallet) × (apply env tx s.sender ≡ ok w)
      × (record s { sender = w; transactions = s.transactions ++ tx ∷ [] } ≡ s')
unfolding add_transaction
add_transaction-inv env tx s h =
    let (_, h1) = throw_if-inv (is_full env tx s) _ _ h in
    let (w, applied, e) = and_then-inv _ (apply env tx s.sender) h1 in (w, applied, ok-inj e)

-- One more transaction.
charge-IsFunded :
    (account w : Wallet) (txs : List Transaction) (tx : Transaction)
    → IsFunded account w txs
    → cost tx ≤ w.balance
    → IsFunded account (charge tx w) (txs ++ tx ∷ [])
charge-IsFunded account w txs tx (nonce, balance) funds = (
  omega (arith, nonce, length-append txs (tx ∷ [])),
  omega (arith, balance, funds, total_cost-append txs (tx ∷ [])),
)

pub add_transaction-IsConsistent :
    (env : PoolEnv) (account : Wallet) (tx : Transaction) (s s' : SenderMempool)
    → IsConsistent account s
    → add_transaction env tx s ≡ ok s'
    → IsConsistent account s'
add_transaction-IsConsistent env account tx s s' (funded, ordered, quiet) h =
    let (w, applied, e) = add_transaction-inv env tx s h in
    let (same_nonce, funds, charged) = apply-inv env tx s.sender applied in
    subst (IsConsistent account) e (
      subst (λ i. IsFunded account i (s.transactions ++ tx ∷ [])) charged
          (charge-IsFunded account s.sender s.transactions tx funded funds),
      IsSequence-append account.nonce s.transactions (tx ∷ []) ordered
          (omega (arith, same_nonce, funded.0), tt),
      quiet,
    )

pub add_all-IsConsistent :
    (env : PoolEnv) (account : Wallet) (txs : List Transaction) (s : SenderMempool)
    → IsConsistent account s
    → IsConsistent account (add_all env txs s).1
unfolding add_all
add_all-IsConsistent env account [] s h = h
add_all-IsConsistent env account (tx ∷ txs) s h = elim (Result-cases (add_transaction env tx s)) [
  | inl (s', e) ↦
      rw (e, add_all)
        (add_all-IsConsistent env account txs s'
          (add_transaction-IsConsistent env account tx s s' h e))
  | inr (x, e) ↦ rw (e, add_all) (add_all-IsConsistent env account txs s h)
]

revert_all-nonce :
    (txs : List Transaction) (w : Wallet) → (revert_all txs w).nonce ≡ w.nonce - length txs
revert_all-nonce [] w = omega arith
revert_all-nonce (tx ∷ txs) w = omega (arith, revert_all-nonce txs w)

revert_all-balance :
    (txs : List Transaction) (w : Wallet) → (revert_all txs w).balance ≡ w.balance + total_cost txs
revert_all-balance [] w = omega arith
revert_all-balance (tx ∷ txs) w = omega (arith, revert_all-balance txs w)

-- The transactions from some place on leave again.
revert_all-IsFunded :
    (account w : Wallet) (kept removed : List Transaction)
    → IsFunded account w (kept ++ removed)
    → IsFunded account (revert_all removed w) kept
revert_all-IsFunded account w kept removed (nonce, balance) = (
  omega (arith, revert_all-nonce removed w, nonce, length-append kept removed),
  omega (arith, revert_all-balance removed w, balance, total_cost-append kept removed),
)

pub append-split_at :
    (p : Transaction → Bool) (txs : List Transaction)
    → (split_at p txs).0 ++ (split_at p txs).1 ≡ txs
append-split_at p [] = refl
append-split_at p (tx ∷ txs) = elim (Bool-cases (p tx)) [
  | inl e ↦ rw e
  | inr e ↦ rw (e, append-split_at p txs)
]

IsSequence-kept :
    (n : ℕ) (kept removed : List Transaction) → IsSequence n (kept ++ removed) → IsSequence n kept
IsSequence-kept n [] removed h = tt
IsSequence-kept n (x ∷ xs) removed h = (h.0, IsSequence-kept (suc n) xs removed h.1)

pub revert_all-IsConsistent :
    (account : Wallet) (s : SenderMempool) (kept removed : List Transaction)
    → kept ++ removed ≡ s.transactions
    → IsConsistent account s
    → IsConsistent account (record s { sender = revert_all removed s.sender; transactions = kept })
revert_all-IsConsistent account s kept removed e (funded, ordered, quiet) = (
  revert_all-IsFunded account s.sender kept removed
      (subst (IsFunded account s.sender) (sym e) funded),
  IsSequence-kept account.nonce kept removed (subst (IsSequence account.nonce) (sym e) ordered),
  quiet,
)

pub remove_transaction-IsConsistent :
    (account : Wallet) (hash : ℕ) (s : SenderMempool)
    → IsConsistent account s
    → IsConsistent account (remove_transaction hash s).1
unfolding remove_transaction
remove_transaction-IsConsistent account hash s h =
    let split = split_at (λ t. t.hash == hash) s.transactions in
    revert_all-IsConsistent account s split.0 split.1
      (append-split_at (λ t. t.hash == hash) s.transactions) h

pub re_add_transactions-IsConsistent :
    (env : PoolEnv) (account : Wallet) (s : SenderMempool)
    → s.concurrency ≡ 0
    → IsConsistent account (re_add_transactions env account s).1
unfolding re_add_transactions
re_add_transactions-IsConsistent env account s quiet =
    add_all-IsConsistent env account s.transactions _ ((omega arith, omega arith), tt, quiet)
