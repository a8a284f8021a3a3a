-- ===== src/Consensus/Voting.antt =====
-- packages/consensus/source/consensus.ts: `prevote`, `precommit` and `#getValidators`.
-- The node signs once for each of its own validators that is in the round and has no such vote yet.
use mainsail.Prelude.{ℕ, Bool, Option, List, [], ◌∷◌, if◌then◌else◌}
use mainsail.Prelude.Outcome.{storage_failed}
use mainsail.Contracts.{MessageType, Message, ValidatorWallet}
use mainsail.RoundState.{has_prevote, has_precommit}
use mainsail.Consensus.State.{Consensus, World, voted}
use mainsail.Consensus.Monad.{M, ◌>>=◌, ◌>>◌, return, throw, read, emit, await, get_round_state}

module _ (w : World) where
  -- `#getValidators`: the indices of the own validators that `has_message` does not name.
  unfoldable pub get_validators : (ℕ → Bool) → List ValidatorWallet → List ℕ
  get_validators has_message [] = []
  get_validators has_message (v ∷ vs) =
      let rest = get_validators has_message vs in
      let validator_index = w.index_of v.address in
      if w.registered v.bls_public_key
      then (if has_message validator_index then rest else validator_index ∷ rest)
      else rest

  abbrev pub vote : MessageType → Option ℕ → ℕ → Consensus → Message
  vote type value validator_index n = record {
    type = type;
    block_number = n.block_number;
    round = n.round;
    validator_index = validator_index;
    block_hash = value;
    signature = w.sign validator_index;
    serialized = w.sign validator_index;
  }

  -- `storage.saveMessage`, which throws like every write to the storage; the message then goes to the
  -- message processor in the background.
  abbrev pub save_message : Message → M (Unit {0})
  save_message m n =
      (if w.stored n.tick then (do emit (voted m); await w) else throw storage_failed) n

  -- The loop of `prevote` and of `precommit`: signing is a wait, and so is the write.
  unfoldable pub vote_each : MessageType → Option ℕ → List ℕ → M (Unit {0})
  vote_each type value [] = return tt
  vote_each type value (validator_index ∷ more) = do
    n ← read
    let m = vote type value validator_index n
    await w
    save_message m
    vote_each type value more

  unfoldable pub prevote : Option ℕ → M (Unit {0})
  prevote value = do
    n ← read
    rs ← get_round_state w n.block_number n.round
    vote_each MessageType.prevote value (get_validators (λ i. has_prevote i rs) w.env.validators)

  unfoldable pub precommit : Option ℕ → M (Unit {0})
  precommit value = do
    n ← read
    rs ← get_round_state w n.block_number n.round
    vote_each MessageType.precommit value
        (get_validators (λ i. has_precommit i rs) w.env.validators)
