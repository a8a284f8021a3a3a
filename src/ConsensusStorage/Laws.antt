-- ===== src/ConsensusStorage/Laws.antt =====
-- What a node reads back: the state that it saved last, unless a record of a later block has replaced it.
-- Consensus/Safety/Restart takes this of the storage that a node starts from.
use mainsail.Prelude.{
  ℕ, ◌≤◌, ◌<◌, ◌≡◌, refl, ap, ◌⊎◌, inl, inr, Option, none, some, List, [], ◌∷◌, arith, ltb,
  Bool-cases,
}
use Prim.Native.Nat.{max}
use mainsail.Contracts.{Message, Proposal}
use mainsail.Consensus.State.{StateData}
use mainsail.ConsensusStorage.{
  Service, block_of, initialize, write, save_state, save_proposal, save_message, clear, get_state,
}

-- What happens to the storage.
pub data Write : Type 0 where
  state_saved : StateData → Write
  proposal_saved : Proposal → Write
  message_saved : Message → Write
  cleared restarted : Write

abbrev pub perform : Write → Service → Service
perform (state_saved state) s = save_state state s
perform (proposal_saved p) s = save_proposal p s
perform (message_saved m) s = save_message m s
perform cleared s = clear s
perform restarted s = initialize s

abbrev pub empty_service : Service
empty_service = record {
  proposal_storage = [];
  message_storage = [];
  state_storage = none;
  block_number = 0;
}

-- The storage after some writes, newest first.
abbrev pub performed : List Write → Service
performed [] = empty_service
performed (w ∷ ws) = perform w (performed ws)

-- The state that was saved last, since the last `clear`.
abbrev pub last_saved : List Write → Option StateData
last_saved [] = none
last_saved (state_saved state ∷ ws) = some state
last_saved (cleared ∷ ws) = none
last_saved (proposal_saved p ∷ ws) = last_saved ws
last_saved (message_saved m ∷ ws) = last_saved ws
last_saved (restarted ∷ ws) = last_saved ws

-- The highest block number that was written, since the last `clear`.
abbrev pub highest : List Write → ℕ
highest [] = 0
highest (state_saved state ∷ ws) = max state.block_number (highest ws)
highest (proposal_saved p ∷ ws) = max p.block_header.number (highest ws)
highest (message_saved m ∷ ws) = max m.block_number (highest ws)
highest (cleared ∷ ws) = 0
highest (restarted ∷ ws) = highest ws

-- The state is there, and the service knows its block number; or it was replaced.
abbrev IsCurrent : Option StateData → ℕ → Service → Type 0
IsCurrent saved top s =
    ((s.state_storage ≡ saved) × (block_of saved ≤ s.block_number))
    ⊎ ((s.state_storage ≡ none) × (block_of saved < top))

write-IsCurrent :
    (saved : Option StateData) (top n : ℕ) (s : Service)
    → IsCurrent saved top s
    → IsCurrent saved (max n top) (write n s)
unfolding write
write-IsCurrent saved top n s h = elim (Bool-cases (ltb s.block_number n)) [
  | inl e ↦ elim h [
    | inl (same, le) ↦ rw (e, write) (inr (refl, ground arith))
    | inr (gone, lt) ↦ rw (e, write) (inr (refl, omega arith))
  ]
  | inr e ↦ elim h [
    | inl (same, le) ↦ rw (e, write) (inl (same, omega arith))
    | inr (gone, lt) ↦ rw (e, write) (inr (gone, omega arith))
  ]
]

write-le : (n : ℕ) (s : Service) → n ≤ (write n s).block_number
unfolding write
write-le n s = elim (Bool-cases (ltb s.block_number n)) [
  | inl e ↦ rw (e, write) (omega arith)
  | inr e ↦ rw (e, write) (omega arith)
]

performed-IsCurrent : (ws : List Write) → IsCurrent (last_saved ws) (highest ws) (performed ws)
unfolding save_state save_proposal save_message clear initialize
performed-IsCurrent [] = inl (refl, omega arith)
performed-IsCurrent (state_saved state ∷ ws) =
    inl (refl, write-le state.block_number (performed ws))
performed-IsCurrent (proposal_saved p ∷ ws) =
    write-IsCurrent (last_saved ws) (highest ws) p.block_header.number (performed ws)
      (performed-IsCurrent ws)
performed-IsCurrent (message_saved m ∷ ws) =
    write-IsCurrent (last_saved ws) (highest ws) m.block_number (performed ws)
      (performed-IsCurrent ws)
performed-IsCurrent (cleared ∷ ws) = inl (refl, omega arith)
performed-IsCurrent (restarted ∷ ws) = elim (performed-IsCurrent ws) [
  | inl (same, le) ↦ inl (same, omega (arith, ap block_of same))
  | inr (gone, lt) ↦ inr (gone, lt)
]

-- After any writes and restarts, a node reads back the state that it saved last; or it reads none, and a
-- record of a later block than that state's was written.
pub get_state-last_saved :
    (ws : List Write)
    → (get_state (performed ws) ≡ last_saved ws)
      ⊎ ((get_state (performed ws) ≡ none) × (block_of (last_saved ws) < highest ws))
get_state-last_saved ws = elim (performed-IsCurrent ws) [
  | inl (same, _) ↦ inl same
  | inr replaced ↦ inr replaced
]
