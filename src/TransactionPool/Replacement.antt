-- ===== src/TransactionPool/Replacement.antt =====
-- A replaced transaction keeps the accounts of the pool in order.
use mainsail.Prelude.{
  some_eq, ℕ, suc, ◌+◌, ◌-◌, ◌≤◌, ◌≡◌, refl, sym, ◌∙◌, ap, subst, Bool, true, false, Option, none,
  some, List, [], ◌∷◌, ◌++◌, arith, length-append, ◌==◌, ◌⊎◌, inl, inr, leb, ltb, ==_iff, not,
  if◌then◌else◌,
}
use mainsail.Prelude.Outcome.{
  not_ok, ◌>>◌, nonce_mismatch, Error, Result, ok, err, and_then-inv, ok-inj,
}
use mainsail.TransactionPool.{Transaction, Wallet, PoolEnv, cost}
use mainsail.TransactionPool.SenderState.{validate_transaction, replace}
use mainsail.TransactionPool.SenderMempool.{
  SenderMempool, split_at, rebuild, settle, replace_at, replace_found, replace_same_nonce,
  replace_transaction, last, affected_transactions, latest_first,
}
use mainsail.TransactionPool.Funds.{
  IsSequence, IsFunded, IsConsistent, total_cost-append, append-split_at, validate_transaction-inv,
  add_all-IsConsistent, revert_all-IsConsistent,
}
use mainsail.TransactionPool.Placement.{split_at-at_index, same-at_index}

not_paid : {w : Wallet} → ¬ (◌≡◌ {A = Result (Option Wallet)} (ok none) (ok (some w)))
not_paid e = cc

paid_for-inv :
    (same poor : Bool) (e : Error) (paid : Result (Option Wallet)) {w : Wallet}
    → (if not same then err e else if poor then ok none else paid) ≡ ok (some w)
    → paid ≡ ok (some w)
paid_for-inv false poor e paid h = absurd (not_ok h)
paid_for-inv true true e paid h = absurd (not_paid h)
paid_for-inv true false e paid h = h

-- A replacement that is paid for.
replace-inv :
    (env : PoolEnv) (old new : Transaction) (current : ℕ) (w : Wallet) {w' : Wallet}
    → replace env old new current w ≡ ok (some w')
    → (cost new ≤ w.balance + cost old)
      × (record w { balance = w.balance + cost old - cost new } ≡ w')
unfolding replace
replace-inv env old new current w h =
    let checked = validate_transaction env w new (w.nonce + new.nonce - current) (cost old) in
    let paid : Option Wallet = some (record w { balance = w.balance + cost old - cost new }) in
    let (_, valid, e) =
      and_then-inv (λ _. ok paid) checked
        (paid_for-inv (old.nonce == new.nonce) (ltb (w.balance + cost old) (cost new))
          nonce_mismatch (checked >> ok paid) h) in
    let (_, funds) =
      validate_transaction-inv env w new (w.nonce + new.nonce - current) (cost old) valid in
    (funds, some_eq (ok-inj e))

replaced-IsSequence :
    (n : ℕ) (kept later : List Transaction) (old new : Transaction)
    → old.nonce ≡ new.nonce
    → IsSequence n (kept ++ old ∷ later)
    → IsSequence n (kept ++ new ∷ later)
replaced-IsSequence n [] later old new e h = (sym e ∙ h.0, h.1)
replaced-IsSequence n (x ∷ xs) later old new e h =
    (h.0, replaced-IsSequence (suc n) xs later old new e h.1)

replaced-IsFunded :
    (account w : Wallet) (kept later : List Transaction) (old new : Transaction)
    → cost new ≤ w.balance + cost old
    → IsFunded account w (kept ++ old ∷ later)
    → IsFunded account
        (record w { balance = w.balance + cost old - cost new })
        (kept ++ new ∷ later)
replaced-IsFunded account w kept later old new le (nonce, balance) = (
  omega (arith, nonce, length-append kept (old ∷ later), length-append kept (new ∷ later)),
  omega (
    arith,
    balance,
    le,
    total_cost-append kept (old ∷ later),
    total_cost-append kept (new ∷ later),
  ),
)

rebuild-IsConsistent :
    (env : PoolEnv) (account : Wallet) (same new at_index : Transaction)
    (kept later : List Transaction) (s : SenderMempool)
    → kept ++ at_index ∷ later ≡ s.transactions
    → IsConsistent account s
    → IsConsistent account (rebuild env same new kept at_index later s).1
unfolding rebuild
rebuild-IsConsistent env account same new at_index kept later s e h =
    add_all-IsConsistent env account (new ∷ later) _
      (revert_all-IsConsistent account s kept (at_index ∷ later) e h)

settle-IsConsistent :
    (env : PoolEnv) (account : Wallet) (same new : Transaction) (kept later : List Transaction)
    (s : SenderMempool) (paid : Result (Option Wallet)) {result : List Transaction × SenderMempool}
    → kept ++ same ∷ later ≡ s.transactions
    → IsConsistent account s
    → same.nonce ≡ new.nonce
    → replace env same new s.sender.nonce s.sender ≡ paid
    → settle env same new kept same later s paid ≡ ok result
    → IsConsistent account result.1
unfolding settle
settle-IsConsistent env account same new kept later s (err x) e h n r k = absurd (not_ok k)
settle-IsConsistent env account same new kept later s (ok none) e h n r k =
    subst (λ i. IsConsistent account i.1) (ok-inj k)
      (rebuild-IsConsistent env account same new same kept later s e h)
settle-IsConsistent env account same new kept later s (ok (some w)) e (funded, ordered, quiet) n r
      k =
    let (le, paid) = replace-inv env same new s.sender.nonce s.sender r in
    subst (λ i. IsConsistent account i.1) (ok-inj k)
      (
        subst (λ i. IsFunded account i (kept ++ new ∷ later)) paid
            (replaced-IsFunded account s.sender kept later same new le
              (subst (IsFunded account s.sender) (sym e) funded)),
        replaced-IsSequence account.nonce kept later same new n
            (subst (IsSequence account.nonce) (sym e) ordered),
        quiet,
      )

replace_at-IsConsistent :
    (env : PoolEnv) (account : Wallet) (same new : Transaction) (kept rest : List Transaction)
    (s : SenderMempool) {result : List Transaction × SenderMempool}
    → split_at (λ t. t.nonce == new.nonce) s.transactions ≡ (kept, rest)
    → IsConsistent account s
    → same.nonce ≡ new.nonce
    → last (affected_transactions same.nonce (latest_first s.transactions)) ≡ some same
    → replace_at env same new kept rest s ≡ ok result
    → IsConsistent account result.1
unfolding replace_at
replace_at-IsConsistent env account same new kept [] s e h n l k = absurd (not_ok k)
replace_at-IsConsistent env account same new kept (at_index ∷ later) s {result} e h n l k =
    let whole : kept ++ at_index ∷ later ≡ s.transactions =
      subst (λ i. i.0 ++ i.1 ≡ s.transactions) e
        (append-split_at (λ t. t.nonce == new.nonce) s.transactions) in
    let found = split_at-at_index (λ t. t.nonce == new.nonce) s.transactions (ap (λ i. i.1) e) in
    let is_same : at_index ≡ same =
      same-at_index account.nonce s.transactions kept later same at_index h.1 whole l
        ((==_iff at_index.nonce new.nonce).0 found ∙ sym n) in
    settle-IsConsistent env account same new kept later s _
      (subst (λ i. kept ++ i ∷ later ≡ s.transactions) is_same whole) h n refl
      (subst
        (λ i.
          settle env same new kept i later s (replace env same new s.sender.nonce s.sender)
          ≡ ok result)
        is_same k)

if_ok :
    {A : Type 0} (b c : Bool) (x y : A) (e : Error) (r : Result A)
    → (if b then (if c then ok x else r) else err e) ≡ ok y
    → (b ≡ true) × ((x ≡ y) ⊎ (r ≡ ok y))
if_ok false c x y e r h = absurd (not_ok h)
if_ok true false x y e r h = (refl, inr h)
if_ok true true x y e r h = (refl, inl (ok-inj h))

replace_found-IsConsistent :
    (env : PoolEnv) (account : Wallet) (new : Transaction) (s : SenderMempool)
    (found : Option Transaction) {result : List Transaction × SenderMempool}
    → IsConsistent account s
    → last (affected_transactions new.nonce (latest_first s.transactions)) ≡ found
    → replace_found env new s found ≡ ok result
    → IsConsistent account result.1
unfolding replace_found replace_same_nonce
replace_found-IsConsistent env account new s none h l k =
    subst (λ i. IsConsistent account i.1) (ok-inj k) h
replace_found-IsConsistent env account new s (some same) {result} h l k =
    let split = split_at (λ t. t.nonce == new.nonce) s.transactions in
    let (equal, rest) =
      if_ok (same.nonce == new.nonce) (leb new.gas_price same.gas_price) ([], s) result
        nonce_mismatch (replace_at env same new split.0 split.1 s) k in
    let n = (==_iff same.nonce new.nonce).0 equal in
    elim rest [
      | inl unchanged ↦ subst (λ i. IsConsistent account i.1) unchanged h
      | inr replaced ↦
          replace_at-IsConsistent env account same new split.0 split.1 s refl h n
            (subst (λ i. last (affected_transactions i (latest_first s.transactions)) ≡ some same)
              (sym n) l)
            replaced
    ]

pub replace_transaction-IsConsistent :
    (env : PoolEnv) (account : Wallet) (new : Transaction) (s : SenderMempool)
    {result : List Transaction × SenderMempool}
    → IsConsistent account s
    → replace_transaction env new s ≡ ok result
    → IsConsistent account result.1
unfolding replace_transaction
replace_transaction-IsConsistent env account new s h k =
    replace_found-IsConsistent env account new s _ h refl k
