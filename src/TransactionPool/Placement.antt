-- ===== src/TransactionPool/Placement.antt =====
-- The transaction that the code takes for the one of a nonce is the one at the index that it writes.
use mainsail.Prelude.{
  some_eq, ℕ, suc, ◌-◌, ◌≤◌, ◌≡◌, refl, sym, ◌∙◌, ap, subst, Bool, true, some, List, [], ◌∷◌, ◌++◌,
  arith, inl, inr, Bool-cases, get_elem?, All, All-imp, All-append, All-append_right, ltb,
}
use mainsail.TransactionPool.{Transaction}
use mainsail.TransactionPool.SenderMempool.{split_at, last, affected_transactions, latest_first}
use mainsail.TransactionPool.Funds.{IsSequence}

-- The place of a transaction follows from its nonce.
abbrev pub IsPlaced : ℕ → List Transaction → Transaction → Type 0
IsPlaced n txs tx = (n ≤ tx.nonce) × (get_elem? txs (tx.nonce - n) ≡ some tx)

IsPlaced-tail :
    (n : ℕ) (x tx : Transaction) (txs : List Transaction)
    → IsPlaced (suc n) txs tx
    → IsPlaced n (x ∷ txs) tx
IsPlaced-tail n x tx txs (le, at) =
    let e : suc (tx.nonce - suc n) ≡ tx.nonce - n = omega arith in
    (omega arith, subst (λ i. get_elem? (x ∷ txs) i ≡ some tx) e at)

IsSequence-IsPlaced : (n : ℕ) (txs : List Transaction) → IsSequence n txs → All (IsPlaced n txs) txs
IsSequence-IsPlaced n [] h = tt
IsSequence-IsPlaced n (x ∷ xs) h =
    let e : 0 ≡ x.nonce - n = omega (arith, h.0) in
    (
      (omega (arith, h.0), subst (λ i. get_elem? (x ∷ xs) i ≡ some x) e refl),
      All-imp (λ tx. IsPlaced-tail n x tx xs) xs (IsSequence-IsPlaced (suc n) xs h.1),
    )

All-latest_first :
    (P : Transaction → Type 0) (txs : List Transaction) → All P txs → All P (latest_first txs)
All-latest_first P [] h = tt
All-latest_first P (x ∷ xs) h =
    All-append P (latest_first xs) (x ∷ []) (All-latest_first P xs h.1) (h.0, tt)

All-affected_transactions :
    (P : Transaction → Type 0) (nonce : ℕ) (txs : List Transaction)
    → All P txs
    → All P (affected_transactions nonce txs)
All-affected_transactions P nonce [] h = tt
All-affected_transactions P nonce (x ∷ xs) h = elim (Bool-cases (ltb x.nonce nonce)) [
  | inl e ↦ rw e tt
  | inr e ↦ rw e (h.0, All-affected_transactions P nonce xs h.1)
]

All-last :
    (P : Transaction → Type 0) (txs : List Transaction) {tx : Transaction}
    → All P txs
    → last txs ≡ some tx
    → P tx
All-last P [] h e = cc
All-last P (x ∷ []) h e = subst P (some_eq e) h.0
All-last P (x ∷ y ∷ xs) h e = All-last P (y ∷ xs) h.1 e

head_eq :
    {a b : Transaction} {xs ys : List Transaction}
    → ◌≡◌ {A = List Transaction} (a ∷ xs) (b ∷ ys)
    → a ≡ b
head_eq e = cc

-- What stands at the index passes the test.
pub split_at-at_index :
    (p : Transaction → Bool) (txs : List Transaction) {tx : Transaction} {later : List Transaction}
    → (split_at p txs).1 ≡ tx ∷ later
    → p tx ≡ true
split_at-at_index p [] e = cc
split_at-at_index p (x ∷ xs) {tx} {later} e = elim (Bool-cases (p x)) [
  | inl h ↦ subst (λ i. p i ≡ true) (head_eq (rw h at e)) h
  | inr h ↦ split_at-at_index p xs (rw h at e)
]

-- A transaction with the nonce of the one at the index is that one.
pub same-at_index :
    (n : ℕ) (txs kept later : List Transaction) (same at_index : Transaction)
    → IsSequence n txs
    → kept ++ at_index ∷ later ≡ txs
    → last (affected_transactions same.nonce (latest_first txs)) ≡ some same
    → at_index.nonce ≡ same.nonce
    → at_index ≡ same
same-at_index n txs kept later same at_index ordered e l nonce =
    let placed = IsSequence-IsPlaced n txs ordered in
    let (_, there) =
      All-last (IsPlaced n txs) _
        (All-affected_transactions (IsPlaced n txs) same.nonce (latest_first txs)
          (All-latest_first (IsPlaced n txs) txs placed))
        l in
    let (_, here) =
      (All-append_right (IsPlaced n txs) kept (at_index ∷ later)
        (subst (All (IsPlaced n txs)) (sym e) placed)).0 in
    some_eq (sym here ∙ ap (λ i. get_elem? txs (i - n)) nonce ∙ there)
