-- ===== src/Consensus/Bootstrapper.antt =====
-- packages/consensus/source/bootstrapper.ts: the state that a node starts from, read from its storage.
-- `none` for the records stands for a read that throws; parsed proposals have no payload yet. The last
-- component of the result says whether the storage was cleared.
use mainsail.Prelude.{
  ℕ, ◌+◌, Bool, true, false, Option, none, some, List, [], ◌∷◌, if◌then◌else◌, ltb, ◌==◌, filter,
}
use mainsail.Prelude.Outcome.{
  Result, ok, err, ◌>>=◌, bootstrap_mismatch, proposal_not_stored, prevotes_not_stored,
  payload_undefined,
}
use mainsail.Contracts.{Proposal, Message, Block}
use mainsail.RoundState.{RoundEnv, RoundState, add_proposal}
use mainsail.RoundState.Messages.{add_message}
use mainsail.RoundState.Quorums.{has_majority_prevotes}
use mainsail.Consensus.State.{Step, StateData, RoundRef, get_or_create, update_round}
use mainsail.Consensus.Events.{InitialState}

pub record Records : Type 0 where
  pub state : Option StateData
  pub proposals : List Proposal
  pub messages : List Message

abbrev pub initial_state : ℕ → InitialState
initial_state block_number = record {
  block_number = block_number;
  round = 0;
  step = Step.propose;
  locked_value = none;
  valid_value = none;
}

module _ (env : RoundEnv) (deserialize : Proposal → Option Block) where
  -- One round of the loops of `#loadRounds`: the round state is made if needed, and written back.
  abbrev load_into :
      (RoundState → Result RoundState) → ℕ → ℕ → List RoundState → Result (List RoundState)
  load_into add block_number round rounds =
      let found = get_or_create env block_number round rounds in
      do
        rs ← add found.0
        ok (update_round (record { block_number = block_number; round = round }) (λ _. rs) found.1)

  unfoldable pub load_proposals : ℕ → List Proposal → List RoundState → Result (List RoundState)
  load_proposals block_number [] rounds = ok rounds
  load_proposals block_number (p ∷ more) rounds = do
    loaded ← load_into (add_proposal p) block_number p.round rounds
    load_proposals block_number more loaded

  unfoldable pub load_messages : ℕ → List Message → List RoundState → Result (List RoundState)
  load_messages block_number [] rounds = ok rounds
  load_messages block_number (m ∷ more) rounds = do
    loaded ← load_into (add_message m) block_number m.round rounds
    load_messages block_number more loaded

  unfoldable pub load_rounds : ℕ → Records → List RoundState → Result (List RoundState)
  unfolding load_proposals load_messages
  load_rounds block_number records rounds = do
    loaded ←
        load_proposals block_number
          (filter (λ (p : Proposal). p.block_header.number == block_number) records.proposals)
          rounds
    load_messages block_number
        (filter (λ (m : Message). m.block_number == block_number) records.messages) loaded

  abbrev payload_of : Proposal → Option Block
  payload_of p = elim p.payload [ none ↦ deserialize p | some block ↦ some block ]

  abbrev with_payload : Proposal → Block → RoundState → RoundState
  with_payload p block rs = record rs { proposal = some (record p { payload = some block }) }

  -- `#getProvenRoundState`: the round's proposal and its +2/3 prevotes must be stored.
  unfoldable pub get_proven_round_state :
      ℕ → ℕ → List RoundState → Result (RoundRef × List RoundState)
  get_proven_round_state block_number round rounds =
      let found = get_or_create env block_number round rounds in
      let ref : RoundRef = record { block_number = block_number; round = round } in
      elim found.0.proposal [
        | none ↦ err proposal_not_stored
        | some p ↦ elim (payload_of p) [
          | none ↦ err payload_undefined
          | some block ↦
              if has_majority_prevotes env (with_payload p block found.0)
              then ok (ref, update_round ref (with_payload p block) found.1)
              else err prevotes_not_stored
        ]
      ]

  unfoldable pub get_proven :
      ℕ → Option ℕ → List RoundState → Result (Option RoundRef × List RoundState)
  unfolding get_proven_round_state
  get_proven block_number none rounds = ok (none, rounds)
  get_proven block_number (some round) rounds = do
    proven ← get_proven_round_state block_number round rounds
    ok (some proven.0, proven.1)

  unfoldable pub restore_state :
      ℕ → StateData → List RoundState → Result (InitialState × List RoundState × Bool)
  restore_state block_number stored rounds = do
    valid ← get_proven block_number stored.valid_round rounds
    locked ← get_proven block_number stored.locked_round valid.1
    ok (
      record {
        block_number = stored.block_number;
        round = stored.round;
        step = stored.step;
        locked_value = locked.0;
        valid_value = valid.0;
      },
      locked.1,
      false,
    )

  unfoldable pub restore_or_start :
      ℕ → Option StateData → List RoundState → Result (InitialState × List RoundState × Bool)
  restore_or_start block_number none rounds = ok (initial_state block_number, rounds, false)
  restore_or_start block_number (some stored) rounds =
      if stored.block_number == block_number
      then restore_state block_number stored rounds
      else ok (initial_state block_number, rounds, ltb block_number stored.block_number)

  unfoldable pub bootstrap :
      ℕ → ℕ → Option Records → List RoundState → Result (InitialState × List RoundState × Bool)
  unfolding load_rounds
  bootstrap last_number configuration_height records rounds =
      let block_number = last_number + 1 in
      if block_number == configuration_height
      then elim records [
        | none ↦ ok (initial_state block_number, rounds, true)
        | some r ↦ do
          loaded ← load_rounds block_number r rounds
          restore_or_start block_number r.state loaded
      ]
      else err bootstrap_mismatch
