-- ===== src/Aggregator/Joined.antt =====
-- packages/consensus/source/aggregator.ts: a certificate that is made of good signatures passes `verify`.
use mainsail.Prelude.{
  ℕ, zero, suc, ◌+◌, ◌<◌, ◌≡◌, refl, sym, ◌∙◌, ap, Bool, true, false, List, [], ◌∷◌, ◌++◌, arith,
  length, leb, All, replicate, set_bit, bit, length-set_bit, length-replicate, append_assoc,
  append-nil, absurd_test,
}
use mainsail.Prelude.JsMap.{values}
use mainsail.Prelude.Outcome.{ok}
use mainsail.Contracts.{AggregatedSignature}
use mainsail.Quorum.{is_majority}
use mainsail.Aggregator.{Worker, collect, aggregate, signers, verify}
use mainsail.Aggregator.Laws.{IsMap, IsUnset, IsUnset-set_bit, IsUnset-replicate, verify-aggregate}
use mathlib.Core.List.{Perm, perm_middle}
use mathlib.Core.List.Perm

abbrev pub firsts : List (ℕ × ℕ) → List ℕ
firsts [] = []
firsts ((k, v) ∷ m) = k ∷ firsts m

-- The signatures by the signer's key instead of by its index.
abbrev pub with_keys : (ℕ → ℕ) → List (ℕ × ℕ) → List (ℕ × ℕ)
with_keys key_of [] = []
with_keys key_of ((i, s) ∷ m) = (key_of i, s) ∷ with_keys key_of m

-- The signature is the worker's for the message under the key.
abbrev pub IsSigned : Worker → ℕ → ℕ × ℕ → Type 0
IsSigned worker message (key, signature) = worker.verify_signature signature message key ≡ true

-- What BLS promises: good signatures of one message, at least one, join into a good one for the joined keys, and
-- keys join in any order.
pub record IsBls (worker : Worker) : Type 0 where
  pub joined :
      (message : ℕ) (first : ℕ × ℕ) (more : List (ℕ × ℕ))
      → All (IsSigned worker message) (first ∷ more)
      → worker.verify_signature
          (worker.aggregate_signatures (values (first ∷ more)))
          message
          (worker.aggregate_keys (firsts (first ∷ more)))
        ≡ true
  pub unordered : (a b : List ℕ) → Perm a b → worker.aggregate_keys a ≡ worker.aggregate_keys b

module _ (key_of : ℕ → ℕ) where
  -- `i` is the index of the first bit, `k` the index of bit `j`.
  signers-set_bit :
      (i j k : ℕ) (bits : List Bool)
      → i + j ≡ k
      → bit bits j ≡ false
      → j < length bits
      → Perm (signers key_of i (set_bit bits j)) (key_of k ∷ signers key_of i bits)
  unfolding signers
  signers-set_bit i j k [] at unset inside = absurd (omega arith)
  signers-set_bit i zero k (true ∷ bits) at unset inside = absurd (absurd_test unset)
  signers-set_bit i zero k (false ∷ bits) at unset inside =
      let here : k ≡ i = omega (arith, at) in rw here (Perm.refl _)
  signers-set_bit i (suc j) k (true ∷ bits) at unset inside =
      Perm.trans
        (Perm.cons (key_of i)
          (signers-set_bit (suc i) j k bits (omega (arith, at)) unset (omega arith)))
        (Perm.swap _ _ _)
  signers-set_bit i (suc j) k (false ∷ bits) at unset inside =
      signers-set_bit (suc i) j k bits (omega (arith, at)) unset (omega arith)

  signers-replicate : (i n : ℕ) → signers key_of i (replicate n false) ≡ []
  unfolding signers
  signers-replicate i zero = refl
  signers-replicate i (suc n) = signers-replicate (suc i) n

  -- What the loop returns for the signatures of validators of the set.
  abbrev IsCollected : List (ℕ × ℕ) → List Bool → List ℕ → List Bool × List ℕ → Type 0
  IsCollected m bits signatures result =
      (result.1 ≡ signatures ++ values m)
      × Perm (signers key_of 0 result.0) (firsts (with_keys key_of m) ++ signers key_of 0 bits)

  abbrev pub IsInside : ℕ → ℕ × ℕ → Type 0
  IsInside n entry = entry.0 < n

  collect-IsCollected :
      (n : ℕ) (m : List (ℕ × ℕ)) (bits : List Bool) (signatures : List ℕ)
      → IsMap m
      → IsUnset bits m
      → length bits ≡ n
      → All (IsInside n) m
      → (result : List Bool × List ℕ) × (collect n m bits signatures ≡ ok result)
        × IsCollected m bits signatures result
  unfolding collect
  collect-IsCollected n [] bits signatures d u l inside =
      ((bits, signatures), refl, (sym (append-nil signatures), Perm.refl _))
  collect-IsCollected n ((i, s) ∷ m) bits signatures d u l inside =
      let low : leb n i ≡ false = ground (arith, inside.0) in
      let (result, collected, (taken, signed)) =
        collect-IsCollected n m (set_bit bits i) (signatures ++ s ∷ []) d.1
          (IsUnset-set_bit bits i m u.1 d.0)
          (length-set_bit bits i (omega (arith, inside.0, l)) ∙ l) inside.1 in
      (
        result,
        rw low collected,
        (
          taken ∙ append_assoc signatures (s ∷ []) (values m),
          Perm.trans signed (
              Perm.trans
                (Perm.append_left (firsts (with_keys key_of m))
                  (signers-set_bit 0 i i bits (omega arith) u.0 (omega (arith, inside.0, l))))
                (perm_middle (firsts (with_keys key_of m)) (signers key_of 0 bits))),
        ),
      )

  values-with_keys : (m : List (ℕ × ℕ)) → values (with_keys key_of m) ≡ values m
  values-with_keys [] = refl
  values-with_keys ((i, s) ∷ m) = ap (λ rest. s ∷ rest) (values-with_keys m)

-- Joining signatures of validators of the set that are good for one message and come from a majority returns a
-- certificate, and `verify` accepts it for the message.
pub aggregate-verifies :
    (worker : Worker) (key_of : ℕ → ℕ) (m : List (ℕ × ℕ)) (n message : ℕ)
    → IsBls worker
    → IsMap m
    → All (IsInside key_of n) m
    → All (IsSigned worker message) (with_keys key_of m)
    → is_majority (length m) n ≡ true
    → (certificate : AggregatedSignature) × (aggregate worker m n ≡ ok certificate)
      × (verify worker key_of certificate message n ≡ true)
unfolding aggregate
aggregate-verifies worker key_of [] n message bls d inside good many = absurd (ground arith)
aggregate-verifies worker key_of ((i, s) ∷ m) n message bls d inside good many =
    let all : List (ℕ × ℕ) = (i, s) ∷ m in
    let (result, collected, (taken, signed)) =
      collect-IsCollected key_of n all (replicate n false) [] d (IsUnset-replicate n all)
        (length-replicate n false) inside in
    let certificate : AggregatedSignature = record {
      signature = worker.aggregate_signatures result.1;
      validators = result.0;
    } in
    let made : aggregate worker all n ≡ ok certificate = rw (many, collected) in
    let checked = (verify-aggregate worker key_of all n message d made).2 in
    let keys : worker.aggregate_keys (signers key_of 0 result.0)
        ≡ worker.aggregate_keys (firsts (with_keys key_of all)) =
      bls.unordered _ _ signed
      ∙ ap (λ rest. worker.aggregate_keys (firsts (with_keys key_of all) ++ rest))
          (signers-replicate key_of 0 n)
      ∙ ap worker.aggregate_keys (append-nil (firsts (with_keys key_of all))) in
    let signatures : result.1 ≡ values (with_keys key_of all) =
      taken ∙ sym (values-with_keys key_of all) in
    (
      certificate,
      made,
      checked
          ∙ ap
              (λ s.
                worker.verify_signature (worker.aggregate_signatures s) message
                  (worker.aggregate_keys (signers key_of 0 result.0)))
              signatures
          ∙ ap
              (λ k.
                worker.verify_signature
                  (worker.aggregate_signatures (values (with_keys key_of all))) message k)
              keys
          ∙ bls.joined message (key_of i, s) (with_keys key_of m) good,
    )
