-- ===== src/Processors/Certificates.antt =====
-- packages/consensus/source/round-state.ts (getCommit) with hasValidSignature of packages/consensus/source/
-- processors/commit-processor.ts: another node accepts the certificate that a node makes.
use mainsail.Prelude.{
  ℕ, zero, suc, ◌<◌, ◌≡◌, refl, sym, ◌∙◌, ap, subst, Bool, true, false, none, some, List, [], ◌∷◌,
  arith, length, All, All-imp, bit, same, Bool-cases, inl, inr,
}
use mainsail.Prelude.JsMap.{has, number_key}
use mainsail.Prelude.Outcome.{ok, and_then}
use mainsail.Contracts.{Message, Proposal, Block, Commit, AggregatedSignature}
use mainsail.RoundState.{RoundEnv, RoundState, Ballot}
use mainsail.RoundState.Quorums.{
  payload_block, get_signatures, aggregate_precommits, get_commit, has_majority_precommits,
}
use mainsail.RoundState.Invariant.{IsTallied, votes_for}
use mainsail.Quorum.{is_majority}
use mainsail.Aggregator.{Worker, aggregate, verify}
use mainsail.Aggregator.Laws.{IsMap}
use mainsail.Aggregator.Joined.{IsBls, IsSigned, IsInside, with_keys, aggregate-verifies}
use mainsail.Processors.CommitProcessor.{CommitEnv, has_valid_signature}

bit_inside : (bits : List Bool) (i : ℕ) → bit bits i ≡ true → i < length bits
bit_inside [] i h = ground arith
bit_inside (b ∷ bits) zero h = omega arith
bit_inside (b ∷ bits) (suc i) h = omega (arith, bit_inside bits i h)

has_each : (ms : List (ℕ × Message)) → All (λ (entry : ℕ × Message). has entry.0 ms ≡ true) ms
has_each [] = tt
has_each ((i, m) ∷ ms) = (ground arith, All-imp (λ entry h. ground (arith, h)) ms (has_each ms))

module _ (block_hash : ℕ) where
  -- A property of the signers holds of those whose votes are for the block.
  get_signatures-All :
      (P : ℕ → Type 0) (ms : List (ℕ × Message))
      → All (λ (entry : ℕ × Message). P entry.0) ms
      → All (λ (entry : ℕ × ℕ). P entry.0) (get_signatures block_hash ms)
  unfolding get_signatures
  get_signatures-All P [] h = tt
  get_signatures-All P ((i, m) ∷ ms) h = elim (Bool-cases (same m.block_hash (some block_hash))) [
    | inl e ↦ rw e (h.0, get_signatures-All P ms h.1)
    | inr e ↦ rw e (get_signatures-All P ms h.1)
  ]

  has-get_signatures :
      (k : ℕ) (ms : List (ℕ × Message))
      → has k ms ≡ false
      → has k (get_signatures block_hash ms) ≡ false
  unfolding get_signatures
  has-get_signatures k [] h = refl
  has-get_signatures k ((i, m) ∷ ms) h = ground (arith, has-get_signatures k ms)

  get_signatures-IsMap : (ms : List (ℕ × Message)) → IsMap ms → IsMap (get_signatures block_hash ms)
  unfolding get_signatures
  get_signatures-IsMap [] h = tt
  get_signatures-IsMap ((i, m) ∷ ms) h = elim (Bool-cases (same m.block_hash (some block_hash))) [
    | inl e ↦ rw e (has-get_signatures i ms h.0, get_signatures-IsMap ms h.1)
    | inr e ↦ rw e (get_signatures-IsMap ms h.1)
  ]

  length-get_signatures :
      (ms : List (ℕ × Message))
      → length (get_signatures block_hash ms) ≡ votes_for (some block_hash) ms
  unfolding get_signatures
  length-get_signatures [] = refl
  length-get_signatures ((i, m) ∷ ms) = ground (arith, length-get_signatures ms)

-- Each signer of a consistent ballot is a validator of the set.
get_signatures-IsInside :
    (key_of : ℕ → ℕ) (n block_hash : ℕ) (b : Ballot)
    → IsTallied n b
    → All (IsInside key_of n) (get_signatures block_hash b.messages)
get_signatures-IsInside key_of n block_hash b t =
    get_signatures-All block_hash (λ i. i < n) b.messages
      (All-imp
        (λ entry h.
          omega (arith, t.signed_length, bit_inside b.signed entry.0 (t.signed_has entry.0 ∙ h)))
        b.messages (has_each b.messages))

-- The bytes that a precommit for the proposal's block signs, and the signatures of those that the round state has.
abbrev pub precommit_bytes : CommitEnv → Proposal → ℕ → ℕ
precommit_bytes peer p previous =
    peer.serialize_precommit p.block_header.hash p.block_header.number p.round previous

abbrev pub precommit_signatures : CommitEnv → Proposal → RoundState → List (ℕ × ℕ)
precommit_signatures peer p rs =
    with_keys peer.key_of (get_signatures p.block_header.hash rs.precommits.messages)

abbrev certified : Proposal → Block → AggregatedSignature → Commit
certified p block certificate = record {
  block = block;
  proof = record {
    round = p.round;
    signature = certificate.signature;
    validators = certificate.validators;
  };
}

get_commit-certified :
    (env : RoundEnv) (worker : Worker) (rs : RoundState) (p : Proposal) (block : Block)
    (certificate : AggregatedSignature)
    → rs.commit ≡ none
    → rs.proposal ≡ some p
    → p.payload ≡ some block
    → aggregate worker
        (get_signatures p.block_header.hash rs.precommits.messages)
        (env.round_validators rs.block_number)
      ≡ ok certificate
    → get_commit env worker rs
      ≡ ok (
        certified p block certificate,
        record rs { commit = some (certified p block certificate) },
      )
unfolding get_commit aggregate_precommits
get_commit-certified env worker rs p block certificate fresh proposed given made =
    let joined : aggregate_precommits env worker rs ≡ ok certificate =
      rw (aggregate_precommits, proposed) made in
    let paid : payload_block p ≡ ok block = rw given refl in
    simp (get_commit, fresh, proposed, joined)
      (ap
        (and_then (λ b. ok (
          certified p b certificate,
          record rs { proposal = some p; commit = some (certified p b certificate) },
        )))
        paid)

-- A consistent round state with a majority of precommits for its proposal's block makes a certificate, and
-- another node's commit processor accepts its signature, when both nodes count the same validators, the round
-- state has no certificate yet, the proposal's payload is the block of its header at the round state's block
-- number, the precommits for the block are signed as the other node serializes them, and the worker joins
-- signatures as BLS does.
pub get_commit-has_valid_signature :
    (env : RoundEnv) (peer : CommitEnv) (rs : RoundState) (p : Proposal) (block : Block)
    (previous : ℕ)
    → IsBls peer.worker
    → IsTallied (peer.round_validators rs.block_number) rs.precommits
    → IsMap rs.precommits.messages
    → env.round_validators rs.block_number ≡ peer.round_validators rs.block_number
    → rs.commit ≡ none
    → rs.proposal ≡ some p
    → p.payload ≡ some block
    → block.header ≡ p.block_header
    → p.block_header.number ≡ rs.block_number
    → All (IsSigned peer.worker (precommit_bytes peer p previous)) (precommit_signatures peer p rs)
    → has_majority_precommits env rs ≡ true
    → (commit : Commit) × (get_commit env peer.worker rs
        ≡ ok (commit, record rs { commit = some commit }))
      × (commit.block ≡ block)
      × (has_valid_signature peer commit previous ≡ true)
unfolding has_valid_signature
get_commit-has_valid_signature env peer rs p block previous bls t distinct agreed fresh proposed
      given header number good many =
    let n : ℕ = peer.round_validators rs.block_number in
    let signatures : List (ℕ × ℕ) = get_signatures p.block_header.hash rs.precommits.messages in
    let enough : is_majority (length signatures) n ≡ true =
      subst (λ size. is_majority size n ≡ true)
        (t.counted (some p.block_header.hash)
          ∙ sym (length-get_signatures p.block_header.hash rs.precommits.messages))
        (rw (proposed, given, agreed) at many) in
    let (certificate, made, verified) =
      aggregate-verifies peer.worker peer.key_of signatures n (precommit_bytes peer p previous) bls
        (get_signatures-IsMap p.block_header.hash rs.precommits.messages distinct)
        (get_signatures-IsInside peer.key_of n p.block_header.hash rs.precommits t) good enough in
    (
      certified p block certificate,
      get_commit-certified env peer.worker rs p block certificate fresh proposed given
          (ap (aggregate peer.worker signatures) agreed ∙ made),
      refl,
      rw header (
          subst
            (λ b.
              verify peer.worker peer.key_of certificate (precommit_bytes peer p previous)
                (peer.round_validators b)
              ≡ true)
            (sym number) verified),
    )
