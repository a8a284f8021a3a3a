-- ===== src/Consensus/Safety/Log.antt =====
-- Predicates on the log of a node: which votes it may hold at a position, and what each vote rests on.
use mainsail.Prelude.{
  ℕ, ◌≤◌, ◌<◌, ◌≡◌, ◌⊎◌, Bool, true, false, Option, none, some, List, [], ◌∷◌, arith, ◌==◌, ◌&&◌,
  is_some, leb,
}
use mainsail.Contracts.{MessageType, Message}
use mainsail.Consensus.State.{
  Consensus, Effect, StateData, rank, persisted, dispatched, voted, committed, saved_proposal,
  submitted, round_of,
}

-- The step in which a message of this type is signed.
abbrev pub type_rank : MessageType → ℕ
type_rank MessageType.prevote = 1
type_rank MessageType.precommit = 2

-- A vote that was signed at the position or before it.
abbrev pub IsBefore : ℕ → ℕ → ℕ → Message → Type 0
IsBefore b r k m =
    (m.block_number < b)
    ⊎ (((m.block_number ≡ b) × (m.round < r))
        ⊎ ((m.block_number ≡ b) × (m.round ≡ r) × (type_rank m.type ≤ k)))

abbrev pub IsBounded : ℕ → ℕ → ℕ → List Effect → Type 0
IsBounded b r k [] = Unit
IsBounded b r k (voted m ∷ log) = IsBefore b r k m × IsBounded b r k log
IsBounded b r k (persisted s ∷ log) = IsBounded b r k log
IsBounded b r k (dispatched e ∷ log) = IsBounded b r k log
IsBounded b r k (committed n ∷ log) = IsBounded b r k log
IsBounded b r k (saved_proposal p ∷ log) = IsBounded b r k log
IsBounded b r k (submitted p ∷ log) = IsBounded b r k log

-- The type, the block number and the round of a message.
abbrev pub in_slot : MessageType → ℕ → ℕ → Message → Bool
in_slot t b r m = type_rank t == type_rank m.type && (m.block_number == b && m.round == r)

-- Every vote of that type, block number and round has the value.
abbrev pub HasOnly : MessageType → ℕ → ℕ → Option ℕ → List Effect → Type 0
HasOnly t b r v [] = Unit
HasOnly t b r v (voted m ∷ log) = (in_slot t b r m ≡ true → m.block_hash ≡ v) × HasOnly t b r v log
HasOnly t b r v (persisted s ∷ log) = HasOnly t b r v log
HasOnly t b r v (dispatched e ∷ log) = HasOnly t b r v log
HasOnly t b r v (committed n ∷ log) = HasOnly t b r v log
HasOnly t b r v (saved_proposal p ∷ log) = HasOnly t b r v log
HasOnly t b r v (submitted p ∷ log) = HasOnly t b r v log

-- No two votes of one type, block number and round differ in their value.
abbrev pub IsAgreed : List Effect → Type 0
IsAgreed [] = Unit
IsAgreed (voted m ∷ log) = HasOnly m.type m.block_number m.round m.block_hash log × IsAgreed log
IsAgreed (persisted s ∷ log) = IsAgreed log
IsAgreed (dispatched e ∷ log) = IsAgreed log
IsAgreed (committed n ∷ log) = IsAgreed log
IsAgreed (saved_proposal p ∷ log) = IsAgreed log
IsAgreed (submitted p ∷ log) = IsAgreed log

-- A state of that block number and round was written to the storage, at that step or a later one.
abbrev pub HasRecord : ℕ → ℕ → ℕ → List Effect → Type 0
HasRecord b r k [] = ⊥
HasRecord b r k (persisted s ∷ log) =
    ((s.block_number ≡ b) × (s.round ≡ r) × (k ≤ rank s.step)) ⊎ HasRecord b r k log
HasRecord b r k (voted m ∷ log) = HasRecord b r k log
HasRecord b r k (dispatched e ∷ log) = HasRecord b r k log
HasRecord b r k (committed n ∷ log) = HasRecord b r k log
HasRecord b r k (saved_proposal p ∷ log) = HasRecord b r k log
HasRecord b r k (submitted p ∷ log) = HasRecord b r k log

-- Each vote comes after a record of the step that it was signed in.
abbrev pub IsRecorded : List Effect → Type 0
IsRecorded [] = Unit
IsRecorded (voted m ∷ log) =
    HasRecord m.block_number m.round (type_rank m.type) log × IsRecorded log
IsRecorded (persisted s ∷ log) = IsRecorded log
IsRecorded (dispatched e ∷ log) = IsRecorded log
IsRecorded (committed n ∷ log) = IsRecorded log
IsRecorded (saved_proposal p ∷ log) = IsRecorded log
IsRecorded (submitted p ∷ log) = IsRecorded log

-- A precommit for a block, at this block number.
abbrev pub needs_lock : ℕ → Message → Bool
needs_lock b m = type_rank m.type == 2 && (m.block_number == b && is_some m.block_hash)

abbrev pub covers : Option ℕ → ℕ → Bool
covers none r = false
covers (some locked) r = leb r locked

-- The lock is at the round of every precommit for a block of this block number, or at a later round.
abbrev pub IsLocked : ℕ → Option ℕ → List Effect → Type 0
IsLocked b lock [] = Unit
IsLocked b lock (voted m ∷ log) =
    (needs_lock b m ≡ true → covers lock m.round ≡ true) × IsLocked b lock log
IsLocked b lock (persisted s ∷ log) = IsLocked b lock log
IsLocked b lock (dispatched e ∷ log) = IsLocked b lock log
IsLocked b lock (committed n ∷ log) = IsLocked b lock log
IsLocked b lock (saved_proposal p ∷ log) = IsLocked b lock log
IsLocked b lock (submitted p ∷ log) = IsLocked b lock log

abbrev pub IsSafeAt : ℕ → ℕ → ℕ → Option ℕ → List Effect → Type 0
IsSafeAt b r k lock log = IsBounded b r k log × IsAgreed log × IsRecorded log × IsLocked b lock log

-- The state that the storage holds: the last one written.
abbrev pub latest : List Effect → Option StateData
latest [] = none
latest (persisted s ∷ log) = some s
latest (voted m ∷ log) = latest log
latest (dispatched e ∷ log) = latest log
latest (committed n ∷ log) = latest log
latest (saved_proposal p ∷ log) = latest log
latest (submitted p ∷ log) = latest log

-- The position of a stored state, the first one where none is stored.
abbrev pub stored_block : Option StateData → ℕ
stored_block none = 0
stored_block (some s) = s.block_number

abbrev pub stored_round : Option StateData → ℕ
stored_round none = 0
stored_round (some s) = s.round

abbrev pub stored_rank : Option StateData → ℕ
stored_rank none = 0
stored_rank (some s) = rank s.step

abbrev pub stored_lock : Option StateData → Option ℕ
stored_lock none = none
stored_lock (some s) = s.locked_round

abbrev pub IsSafeFrom : Option StateData → List Effect → Type 0
IsSafeFrom o log = IsSafeAt (stored_block o) (stored_round o) (stored_rank o) (stored_lock o) log

-- A node that starts again from the stored state is at a safe position.
abbrev pub IsRestorable : List Effect → Type 0
IsRestorable log = IsSafeFrom (latest log) log

-- The invariant of a node.
abbrev pub IsSafe : Consensus → Type 0
IsSafe n =
    IsSafeAt n.block_number n.round (rank n.step) (round_of n.locked_value) n.log
    × IsRestorable n.log

-- A position at or after another.
abbrev pub Reaches : ℕ → ℕ → ℕ → ℕ → ℕ → ℕ → Type 0
Reaches b r k b' r' k' = (b < b') ⊎ (((b ≡ b') × (r < r')) ⊎ ((b ≡ b') × (r ≡ r') × (k ≤ k')))

IsBefore-Reaches :
    (b r k b' r' k' : ℕ) (m : Message)
    → Reaches b r k b' r' k'
    → IsBefore b r k m
    → IsBefore b' r' k' m
IsBefore-Reaches b r k b' r' k' m h before = ground arith

pub IsBounded-Reaches :
    (b r k b' r' k' : ℕ) (log : List Effect)
    → Reaches b r k b' r' k'
    → IsBounded b r k log
    → IsBounded b' r' k' log
IsBounded-Reaches b r k b' r' k' [] h s = tt
IsBounded-Reaches b r k b' r' k' (voted m ∷ log) h s =
    (IsBefore-Reaches b r k b' r' k' m h s.0, IsBounded-Reaches b r k b' r' k' log h s.1)
IsBounded-Reaches b r k b' r' k' (persisted x ∷ log) h s = IsBounded-Reaches b r k b' r' k' log h s
IsBounded-Reaches b r k b' r' k' (dispatched x ∷ log) h s = IsBounded-Reaches b r k b' r' k' log h s
IsBounded-Reaches b r k b' r' k' (committed x ∷ log) h s = IsBounded-Reaches b r k b' r' k' log h s
IsBounded-Reaches b r k b' r' k' (saved_proposal x ∷ log) h s =
    IsBounded-Reaches b r k b' r' k' log h s
IsBounded-Reaches b r k b' r' k' (submitted x ∷ log) h s = IsBounded-Reaches b r k b' r' k' log h s

-- Nothing was signed yet in a later step.
pub HasOnly-IsBounded :
    (t : MessageType) (b r k : ℕ) (v : Option ℕ) (log : List Effect)
    → k < type_rank t
    → IsBounded b r k log
    → HasOnly t b r v log
HasOnly-IsBounded t b r k v [] h s = tt
HasOnly-IsBounded t b r k v (voted m ∷ log) h s =
    (λ slot. absurd (unsigned t b r k m h slot s.0), HasOnly-IsBounded t b r k v log h s.1)
  where
    unsigned :
        (t : MessageType) (b r k : ℕ) (m : Message)
        → k < type_rank t
        → in_slot t b r m ≡ true
        → IsBefore b r k m
        → ⊥
    unsigned t b r k m h slot before = ground arith
HasOnly-IsBounded t b r k v (persisted x ∷ log) h s = HasOnly-IsBounded t b r k v log h s
HasOnly-IsBounded t b r k v (dispatched x ∷ log) h s = HasOnly-IsBounded t b r k v log h s
HasOnly-IsBounded t b r k v (committed x ∷ log) h s = HasOnly-IsBounded t b r k v log h s
HasOnly-IsBounded t b r k v (saved_proposal x ∷ log) h s = HasOnly-IsBounded t b r k v log h s
HasOnly-IsBounded t b r k v (submitted x ∷ log) h s = HasOnly-IsBounded t b r k v log h s

-- At a new block number nothing is precommitted yet, so no lock is needed.
pub IsLocked-next :
    (b r k b' : ℕ) (lock : Option ℕ) (log : List Effect)
    → b < b'
    → IsBounded b r k log
    → IsLocked b' lock log
IsLocked-next b r k b' lock [] h s = tt
IsLocked-next b r k b' lock (voted m ∷ log) h s =
    (λ needed. absurd (unlocked m needed s.0), IsLocked-next b r k b' lock log h s.1)
  where
    unlocked : (m : Message) → needs_lock b' m ≡ true → IsBefore b r k m → ⊥
    unlocked m needed before = ground arith
IsLocked-next b r k b' lock (persisted x ∷ log) h s = IsLocked-next b r k b' lock log h s
IsLocked-next b r k b' lock (dispatched x ∷ log) h s = IsLocked-next b r k b' lock log h s
IsLocked-next b r k b' lock (committed x ∷ log) h s = IsLocked-next b r k b' lock log h s
IsLocked-next b r k b' lock (saved_proposal x ∷ log) h s = IsLocked-next b r k b' lock log h s
IsLocked-next b r k b' lock (submitted x ∷ log) h s = IsLocked-next b r k b' lock log h s

-- A lock at the current round covers all that was signed.
pub IsLocked-here :
    (b r k locked : ℕ) (log : List Effect)
    → locked ≡ r
    → IsBounded b r k log
    → IsLocked b (some locked) log
IsLocked-here b r k locked [] h s = tt
IsLocked-here b r k locked (voted m ∷ log) h s =
    (λ needed. covered m needed s.0, IsLocked-here b r k locked log h s.1)
  where
    covered : (m : Message) → needs_lock b m ≡ true → IsBefore b r k m → leb m.round locked ≡ true
    covered m needed before = ground arith
IsLocked-here b r k locked (persisted x ∷ log) h s = IsLocked-here b r k locked log h s
IsLocked-here b r k locked (dispatched x ∷ log) h s = IsLocked-here b r k locked log h s
IsLocked-here b r k locked (committed x ∷ log) h s = IsLocked-here b r k locked log h s
IsLocked-here b r k locked (saved_proposal x ∷ log) h s = IsLocked-here b r k locked log h s
IsLocked-here b r k locked (submitted x ∷ log) h s = IsLocked-here b r k locked log h s
