-- ===== src/RoundState/Quorums.antt =====
-- packages/consensus/source/round-state.ts: the vote thresholds that the consensus rules test, and the
-- certificates that the votes are joined into.
use mainsail.Prelude.{
  ℕ, Bool, false, Option, none, some, List, [], ◌∷◌, ◌||◌, ◌&&◌, length, is_some, if◌then◌else◌,
  same,
}
use mainsail.Prelude.Outcome.{Result, ok, err, ◌>>=◌, proposal_undefined, payload_undefined}
use mainsail.Contracts.{Message, Proposal, AggregatedSignature, Block, Commit, is_data_deserialized}
use mainsail.Quorum.{is_majority, is_minority}
use mainsail.Aggregator.{Worker, aggregate}
use mainsail.RoundState.{RoundEnv, Ballot, RoundState, get_count, has_proposal}

module _ (env : RoundEnv) where
  abbrev pub majority : RoundState → ℕ → Bool
  majority rs size = is_majority size (env.round_validators rs.block_number)

  abbrev pub minority : RoundState → ℕ → Bool
  minority rs size = is_minority size (env.round_validators rs.block_number)

  abbrev pub has_majority_prevotes : RoundState → Bool
  has_majority_prevotes rs = elim rs.proposal [
    | none ↦ false
    | some p ↦
        is_data_deserialized p && majority rs (get_count (some p.block_header.hash) rs.prevotes)
  ]

  abbrev pub has_majority_prevotes_any : RoundState → Bool
  has_majority_prevotes_any rs = majority rs (length rs.prevotes.messages)

  abbrev pub has_majority_prevotes_null : RoundState → Bool
  has_majority_prevotes_null rs = majority rs (get_count none rs.prevotes)

  abbrev pub has_majority_precommits : RoundState → Bool
  has_majority_precommits rs = elim rs.proposal [
    | none ↦ false
    | some p ↦
        is_data_deserialized p && majority rs (get_count (some p.block_header.hash) rs.precommits)
  ]

  abbrev pub has_majority_precommits_any : RoundState → Bool
  has_majority_precommits_any rs = majority rs (length rs.precommits.messages)

  -- The loop over `#precommitsCount`.
  abbrev majority_of_a_block : RoundState → List (Option ℕ × ℕ) → Bool
  majority_of_a_block rs [] = false
  majority_of_a_block rs ((block_hash, count) ∷ more) =
      is_some block_hash && majority rs count || majority_of_a_block rs more

  abbrev pub has_majority_precommits_without_proposal : RoundState → Bool
  has_majority_precommits_without_proposal rs =
      if has_proposal rs then false else majority_of_a_block rs rs.precommits.counts

  abbrev pub has_minority_prevotes_or_precommits : RoundState → Bool
  has_minority_prevotes_or_precommits rs =
      minority rs (length rs.prevotes.messages) || minority rs (length rs.precommits.messages)

-- `#getSignatures`: the signatures of the votes for the proposal's block.
unfoldable pub get_signatures : ℕ → List (ℕ × Message) → List (ℕ × ℕ)
get_signatures block_hash [] = []
get_signatures block_hash ((i, m) ∷ more) =
    let rest = get_signatures block_hash more in
    if same m.block_hash (some block_hash) then (i, m.signature) ∷ rest else rest

abbrev aggregate_votes : RoundEnv → Worker → Ballot → RoundState → Result AggregatedSignature
aggregate_votes env worker b rs = elim rs.proposal [
  | none ↦ err proposal_undefined
  | some p ↦
      aggregate worker (get_signatures p.block_header.hash b.messages)
        (env.round_validators rs.block_number)
]

unfoldable pub aggregate_prevotes : RoundEnv → Worker → RoundState → Result AggregatedSignature
aggregate_prevotes env worker rs = aggregate_votes env worker rs.prevotes rs

unfoldable pub aggregate_precommits : RoundEnv → Worker → RoundState → Result AggregatedSignature
aggregate_precommits env worker rs = aggregate_votes env worker rs.precommits rs

-- `getPayload().block`.
abbrev pub payload_block : Proposal → Result Block
payload_block p = elim p.payload [ none ↦ err payload_undefined | some block ↦ ok block ]

-- `getCommit`: the certificate is made once and kept; the serialized form is left out.
unfoldable pub get_commit : RoundEnv → Worker → RoundState → Result (Commit × RoundState)
unfolding aggregate_precommits
get_commit env worker rs = elim rs.commit [
  | some commit ↦ ok (commit, rs)
  | none ↦ elim rs.proposal [
    | none ↦ err proposal_undefined
    | some p ↦ do
      majority_signature ← aggregate_precommits env worker rs
      block ← payload_block p
      let commit : Commit = record {
        block = block;
        proof = record {
          round = p.round;
          signature = majority_signature.signature;
          validators = majority_signature.validators;
        };
      }
      ok (commit, record rs { commit = some commit })
  ]
]
