-- ===== src/LockProof/Laws.antt =====
-- What a proposal with a valid lock proof shows.
use mainsail.Prelude.{
  sym, absurd_test, ℕ, ◌<◌, ◌≡◌, refl, Bool, true, false, Option, none, some, arith, length, leb,
  trues, if◌then◌else◌,
}
use mainsail.Contracts.{Proposal, AggregatedSignature}
use mainsail.Quorum.{is_majority}
use mainsail.Aggregator.{signers}
use mainsail.Aggregator.Laws.{verify-inv}
use mainsail.LockProof.{ProofEnv, is_valid_pair, has_valid_lock_proof}

-- The proof holds signatures of a majority of the validators on prevotes for the proposal's block in an
-- earlier round.
abbrev pub IsProven : ProofEnv → Proposal → AggregatedSignature → ℕ → Type 0
IsProven env p proof valid_round =
    let validators = env.round_validators p.block_header.number in
    (valid_round < p.round)
    × (length proof.validators ≡ validators)
    × (is_majority (trues proof.validators) validators ≡ true)
    × (env.worker.verify_signature proof.signature
          (env.serialize_prevote p.block_header.hash p.block_header.number valid_round)
          (env.worker.aggregate_keys (signers env.key_of 0 proof.validators))
        ≡ true)

-- By lock proof and valid round: a fresh proposal has neither.
abbrev pub IsFreshOrProven : ProofEnv → Proposal → Option AggregatedSignature → Option ℕ → Type 0
IsFreshOrProven env p none none = Unit
IsFreshOrProven env p (some proof) (some valid_round) = IsProven env p proof valid_round
IsFreshOrProven env p _ _ = ⊥

if_false : (b x : Bool) → (if b then false else x) ≡ true → (b ≡ false) × (x ≡ true)
if_false true x h = absurd (absurd_test (sym h))
if_false false x h = (refl, h)

is_valid_pair-IsFreshOrProven :
    (env : ProofEnv) (p : Proposal) (proof : Option AggregatedSignature) (valid_round : Option ℕ)
    → is_valid_pair env p proof valid_round ≡ true
    → IsFreshOrProven env p proof valid_round
unfolding is_valid_pair
is_valid_pair-IsFreshOrProven env p none none h = tt
is_valid_pair-IsFreshOrProven env p none (some r) h = absurd (absurd_test (sym h))
is_valid_pair-IsFreshOrProven env p (some proof) none h = absurd (absurd_test (sym h))
is_valid_pair-IsFreshOrProven env p (some proof) (some r) h =
    let (late, verified) = if_false (leb p.round r) _ h in
    let (long, enough, good) = verify-inv env.worker env.key_of proof _ _ verified in
    (ground arith, long, enough, good)

-- A proposal passes `hasValidLockProof` only if it is fresh, with neither lock proof nor valid round, or
-- carries both, and the proof is of an earlier round, has one bit for each validator, is of a majority, and
-- the joined signature is good for prevotes of the proposal's block in that round.
pub has_valid_lock_proof-IsFreshOrProven :
    (env : ProofEnv) (p : Proposal)
    → has_valid_lock_proof env p ≡ true
    → IsFreshOrProven env p p.lock_proof p.valid_round
unfolding has_valid_lock_proof
has_valid_lock_proof-IsFreshOrProven env p h =
    is_valid_pair-IsFreshOrProven env p p.lock_proof p.valid_round h
