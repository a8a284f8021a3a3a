-- ===== src/Aggregator/Laws.antt =====
-- A certificate that `aggregate` makes passes the counting tests of `verify`.
use mainsail.Prelude.{
  absurd_test, ==-false, ==-eq, ==-refl, ℕ, suc, ◌+◌, ◌≡◌, refl, sym, ◌∙◌, ap, subst, inl, inr,
  Bool, true, false, List, [], ◌∷◌, ◌++◌, arith, length, leb, ◌==◌, if◌then◌else◌, replicate,
  set_bit, bit, trues, trues-set_bit, length-set_bit, bit-set_bit, trues-replicate,
  length-replicate, bit-replicate, Bool-cases,
}
use mainsail.Prelude.JsMap.{has, number_key}
use mainsail.Prelude.Outcome.{not_ok, ok, and_then-inv, ok-inj}
use mainsail.Contracts.{AggregatedSignature}
use mainsail.Quorum.{is_majority}
use mainsail.Aggregator.{Worker, collect, aggregate, signers, verify}

-- The keys of a `Map` are distinct.
abbrev pub IsMap : {V : Type 0} → List (ℕ × V) → Type 0
IsMap [] = Unit
IsMap ((k, v) ∷ m) = (has k m ≡ false) × IsMap m

length-signers :
    (key_of : ℕ → ℕ) (i : ℕ) (bits : List Bool) → length (signers key_of i bits) ≡ trues bits
unfolding signers
length-signers key_of i [] = refl
length-signers key_of i (true ∷ bits) = omega (arith, length-signers key_of (suc i) bits)
length-signers key_of i (false ∷ bits) = length-signers key_of (suc i) bits

if_true : (b x : Bool) → (if b then x else false) ≡ true → (b ≡ true) × (x ≡ true)
if_true true x h = (refl, h)
if_true false x h = absurd (absurd_test (sym h))

-- No bit of a signer that comes is set yet.
abbrev pub IsUnset : List Bool → List (ℕ × ℕ) → Type 0
IsUnset bits [] = Unit
IsUnset bits ((k, v) ∷ m) = (bit bits k ≡ false) × IsUnset bits m

pub IsUnset-set_bit :
    (bits : List Bool) (i : ℕ) (m : List (ℕ × ℕ))
    → IsUnset bits m
    → has i m ≡ false
    → IsUnset (set_bit bits i) m
IsUnset-set_bit bits i [] h k = tt
IsUnset-set_bit bits i ((j, v) ∷ m) h k = elim (Bool-cases (j == i)) [
  | inl e ↦ absurd (absurd_test (rw e at k))
  | inr e ↦
      (bit-set_bit bits i j ∙ rw (==-false i j e, h.0), IsUnset-set_bit bits i m h.1 (rw e at k))
]

collect-trues :
    (n : ℕ) (m : List (ℕ × ℕ)) (bits : List Bool) (signatures : List ℕ)
    {result : List Bool × List ℕ}
    → IsMap m
    → IsUnset bits m
    → length bits ≡ n
    → collect n m bits signatures ≡ ok result
    → (length result.0 ≡ n) × (trues result.0 ≡ trues bits + length m)
unfolding collect
collect-trues n [] bits signatures d u l e =
    let same = ok-inj e in
    (ap (λ r. length r.0) (sym same) ∙ l, ap (λ r. trues r.0) (sym same) ∙ omega arith)
collect-trues n ((i, s) ∷ m) bits signatures d u l e = elim (Bool-cases (leb n i)) [
  | inl high ↦ absurd (not_ok (rw (high, collect) at e))
  | inr low ↦
      let (long, count) =
        collect-trues n m (set_bit bits i) (signatures ++ s ∷ []) d.1
          (IsUnset-set_bit bits i m u.1 d.0) (length-set_bit bits i (ground arith) ∙ l)
          (rw (low, collect) at e) in
      (long, omega (arith, count, trues-set_bit bits i u.0))
]

pub IsUnset-replicate : (n : ℕ) (m : List (ℕ × ℕ)) → IsUnset (replicate n false) m
IsUnset-replicate n [] = tt
IsUnset-replicate n ((k, v) ∷ m) = (bit-replicate n k, IsUnset-replicate n m)

-- What `verify` answers for a certificate of the right length with enough bits.
pub verify-counted :
    (worker : Worker) (key_of : ℕ → ℕ) (c : AggregatedSignature) (n message : ℕ)
    → length c.validators ≡ n
    → is_majority (trues c.validators) n ≡ true
    → verify worker key_of c message n
      ≡ worker.verify_signature c.signature message
          (worker.aggregate_keys (signers key_of 0 c.validators))
unfolding verify
verify-counted worker key_of c n message long enough =
    rw (==-refl (length c.validators) n long, length-signers key_of 0 c.validators, enough)

-- A certificate that `aggregate` returns has one bit for each validator and as many set bits as there were
-- signatures, so `verify` answers what the worker says of the joined signature and the signers' keys.
pub verify-aggregate :
    (worker : Worker) (key_of : ℕ → ℕ) (m : List (ℕ × ℕ)) (n message : ℕ)
    {certificate : AggregatedSignature}
    → IsMap m
    → aggregate worker m n ≡ ok certificate
    → (length certificate.validators ≡ n)
      × (trues certificate.validators ≡ length m)
      × (verify worker key_of certificate message n
          ≡ worker.verify_signature certificate.signature message
              (worker.aggregate_keys (signers key_of 0 certificate.validators)))
unfolding aggregate
verify-aggregate worker key_of m n message d e = elim (Bool-cases (is_majority (length m) n)) [
  | inr few ↦ absurd (not_ok (rw few at e))
  | inl many ↦
      let ((validators, buffers), collected, made) =
        and_then-inv _ (collect n m (replicate n false) []) (rw many at e) in
      let (long, count) =
        collect-trues n m (replicate n false) [] d (IsUnset-replicate n m)
          (length-replicate n false) collected in
      let all : trues validators ≡ length m = omega (arith, count, trues-replicate n) in
      subst
        (λ c.
          (length c.validators ≡ n)
          × (trues c.validators ≡ length m)
          × (verify worker key_of c message n
              ≡ worker.verify_signature c.signature message
                  (worker.aggregate_keys (signers key_of 0 c.validators))))
        (ok-inj made) (long, all, verify-counted worker key_of _ n message long (rw all many))
]

-- What a certificate that `verify` accepts has.
pub verify-inv :
    (worker : Worker) (key_of : ℕ → ℕ) (c : AggregatedSignature) (message n : ℕ)
    → verify worker key_of c message n ≡ true
    → (length c.validators ≡ n)
      × (is_majority (trues c.validators) n ≡ true)
      × (worker.verify_signature c.signature message
            (worker.aggregate_keys (signers key_of 0 c.validators))
          ≡ true)
unfolding verify
verify-inv worker key_of c message n h =
    let (long, rest) = if_true (length c.validators == n) _ h in
    let (enough, valid) = if_true (is_majority (length (signers key_of 0 c.validators)) n) _ rest in
    (
      ==-eq (length c.validators) n long,
      rw (sym (length-signers key_of 0 c.validators)) enough,
      valid,
    )
