-- ===== src/Consensus/Safety/Theorems.antt =====
-- The safety theorems about the votes of a node.
use mainsail.Prelude.{
  ℕ, ◌≡◌, refl, sym, ◌∙◌, subst, ◌⊎◌, inl, inr, true, Option, List, [], ◌∷◌, ◌++◌, arith, ap,
}
use mainsail.Contracts.{MessageType, Message, Block, BlockProcessorResult}
use mainsail.Consensus.State.{
  Consensus, World, Effect, persisted, dispatched, voted, committed, saved_proposal, submitted,
  round_of,
}
use mainsail.Consensus.Events.{InitialState, Input}
use mainsail.Consensus.Safety.Log.{
  type_rank, in_slot, HasOnly, IsAgreed, HasRecord, IsRecorded, IsLocked, needs_lock, covers,
}
use mainsail.Consensus.Safety.Inputs.{node_after, node_after-IsSafe}

-- The message is one of the votes of the log.
abbrev pub IsVoted : Message → List Effect → Type 0
IsVoted m [] = ⊥
IsVoted m (voted x ∷ log) = (m ≡ x) ⊎ IsVoted m log
IsVoted m (persisted x ∷ log) = IsVoted m log
IsVoted m (dispatched x ∷ log) = IsVoted m log
IsVoted m (committed x ∷ log) = IsVoted m log
IsVoted m (saved_proposal x ∷ log) = IsVoted m log
IsVoted m (submitted x ∷ log) = IsVoted m log

HasOnly-IsVoted :
    (t : MessageType) (b r : ℕ) (v : Option ℕ) (m : Message) (log : List Effect)
    → HasOnly t b r v log
    → IsVoted m log
    → in_slot t b r m ≡ true
    → m.block_hash ≡ v
HasOnly-IsVoted t b r v m (voted x ∷ log) h (inl e) slot =
    ap_hash m x e ∙ h.0 (subst (λ y. in_slot t b r y ≡ true) e slot)
  where
    ap_hash : (a b : Message) → a ≡ b → a.block_hash ≡ b.block_hash
    ap_hash a b e i = (e i).block_hash
HasOnly-IsVoted t b r v m (voted x ∷ log) h (inr k) slot = HasOnly-IsVoted t b r v m log h.1 k slot
HasOnly-IsVoted t b r v m (persisted x ∷ log) h k slot = HasOnly-IsVoted t b r v m log h k slot
HasOnly-IsVoted t b r v m (dispatched x ∷ log) h k slot = HasOnly-IsVoted t b r v m log h k slot
HasOnly-IsVoted t b r v m (committed x ∷ log) h k slot = HasOnly-IsVoted t b r v m log h k slot
HasOnly-IsVoted t b r v m (saved_proposal x ∷ log) h k slot = HasOnly-IsVoted t b r v m log h k slot
HasOnly-IsVoted t b r v m (submitted x ∷ log) h k slot = HasOnly-IsVoted t b r v m log h k slot
HasOnly-IsVoted t b r v m [] h k slot = elim k [ ]

same_slot :
    (a b x y : Message)
    → a ≡ x
    → b ≡ y
    → a.type ≡ b.type
    → a.block_number ≡ b.block_number
    → a.round ≡ b.round
    → in_slot x.type x.block_number x.round y ≡ true
same_slot a b x y ea eb t n r =
    slots x y (subst (λ m. m.type ≡ y.type) ea (subst (λ m. a.type ≡ m.type) eb t))
      (subst (λ m. m.block_number ≡ y.block_number) ea
        (subst (λ m. a.block_number ≡ m.block_number) eb n))
      (subst (λ m. m.round ≡ y.round) ea (subst (λ m. a.round ≡ m.round) eb r))
  where
    slots :
        (x y : Message)
        → x.type ≡ y.type
        → x.block_number ≡ y.block_number
        → x.round ≡ y.round
        → in_slot x.type x.block_number x.round y ≡ true
    slots x y t n r = ground arith

pub IsAgreed-IsVoted :
    (m m' : Message) (log : List Effect)
    → IsAgreed log
    → IsVoted m log
    → IsVoted m' log
    → m.type ≡ m'.type
    → m.block_number ≡ m'.block_number
    → m.round ≡ m'.round
    → m.block_hash ≡ m'.block_hash
IsAgreed-IsVoted m m' (voted x ∷ log) h (inl e) (inl e') t b r = ap (λ y. y.block_hash) (e ∙ sym e')
IsAgreed-IsVoted m m' (voted x ∷ log) h (inl e) (inr k') t b r =
    ap (λ y. y.block_hash) e
    ∙ sym (
        HasOnly-IsVoted x.type x.block_number x.round x.block_hash m' log h.0 k'
          (same_slot m m' x m' e refl t b r))
IsAgreed-IsVoted m m' (voted x ∷ log) h (inr k) (inl e') t b r =
    HasOnly-IsVoted x.type x.block_number x.round x.block_hash m log h.0 k
      (same_slot m' m x m e' refl (sym t) (sym b) (sym r))
    ∙ ap (λ y. y.block_hash) (sym e')
IsAgreed-IsVoted m m' (voted x ∷ log) h (inr k) (inr k') t b r =
    IsAgreed-IsVoted m m' log h.1 k k' t b r
IsAgreed-IsVoted m m' (persisted x ∷ log) h k k' t b r = IsAgreed-IsVoted m m' log h k k' t b r
IsAgreed-IsVoted m m' (dispatched x ∷ log) h k k' t b r = IsAgreed-IsVoted m m' log h k k' t b r
IsAgreed-IsVoted m m' (committed x ∷ log) h k k' t b r = IsAgreed-IsVoted m m' log h k k' t b r
IsAgreed-IsVoted m m' (saved_proposal x ∷ log) h k k' t b r = IsAgreed-IsVoted m m' log h k k' t b r
IsAgreed-IsVoted m m' (submitted x ∷ log) h k k' t b r = IsAgreed-IsVoted m m' log h k k' t b r
IsAgreed-IsVoted m m' [] h k k' t b r = elim k [ ]

IsRecorded-append :
    (newer older : List Effect) (m : Message)
    → IsRecorded (newer ++ voted m ∷ older)
    → HasRecord m.block_number m.round (type_rank m.type) older
IsRecorded-append [] older m h = h.0
IsRecorded-append (voted x ∷ log) older m h = IsRecorded-append log older m h.1
IsRecorded-append (persisted x ∷ log) older m h = IsRecorded-append log older m h
IsRecorded-append (dispatched x ∷ log) older m h = IsRecorded-append log older m h
IsRecorded-append (committed x ∷ log) older m h = IsRecorded-append log older m h
IsRecorded-append (saved_proposal x ∷ log) older m h = IsRecorded-append log older m h
IsRecorded-append (submitted x ∷ log) older m h = IsRecorded-append log older m h

IsLocked-IsVoted :
    (b : ℕ) (lock : Option ℕ) (m : Message) (log : List Effect)
    → IsLocked b lock log
    → IsVoted m log
    → needs_lock b m ≡ true
    → covers lock m.round ≡ true
IsLocked-IsVoted b lock m (voted x ∷ log) h (inl e) needed =
    subst (λ y. covers lock y.round ≡ true) (sym e)
      (h.0 (subst (λ y. needs_lock b y ≡ true) e needed))
IsLocked-IsVoted b lock m (voted x ∷ log) h (inr k) needed =
    IsLocked-IsVoted b lock m log h.1 k needed
IsLocked-IsVoted b lock m (persisted x ∷ log) h k needed = IsLocked-IsVoted b lock m log h k needed
IsLocked-IsVoted b lock m (dispatched x ∷ log) h k needed = IsLocked-IsVoted b lock m log h k needed
IsLocked-IsVoted b lock m (committed x ∷ log) h k needed = IsLocked-IsVoted b lock m log h k needed
IsLocked-IsVoted b lock m (saved_proposal x ∷ log) h k needed =
    IsLocked-IsVoted b lock m log h k needed
IsLocked-IsVoted b lock m (submitted x ∷ log) h k needed = IsLocked-IsVoted b lock m log h k needed
IsLocked-IsVoted b lock m [] h k needed = elim k [ ]

module _ (w : World) (process_commit : Block → Option BlockProcessorResult) (fuel : ℕ) where
  -- A node never signs two messages of one type, block number and round with different values, over any
  -- inputs after a start with nothing signed, whatever the other components answer, failed writes and
  -- exceptions included.
  pub votes-agree :
      (s : InitialState) (n : Consensus) (inputs : List Input) (m m' : Message)
      → IsVoted m (node_after w process_commit fuel s n inputs).log
      → IsVoted m' (node_after w process_commit fuel s n inputs).log
      → m.type ≡ m'.type
      → m.block_number ≡ m'.block_number
      → m.round ≡ m'.round
      → m.block_hash ≡ m'.block_hash
  votes-agree s n inputs m m' =
      IsAgreed-IsVoted m m' (node_after w process_commit fuel s n inputs).log
        (node_after-IsSafe w process_commit fuel s n inputs).0.1

  -- Before each vote that a node signs it has written to the storage a state of the vote's block number
  -- and round whose step is the vote's step or a later one.
  pub vote-HasRecord :
      (s : InitialState) (n : Consensus) (inputs : List Input) (newer older : List Effect)
      (m : Message)
      → (node_after w process_commit fuel s n inputs).log ≡ newer ++ voted m ∷ older
      → HasRecord m.block_number m.round (type_rank m.type) older
  vote-HasRecord s n inputs newer older m e =
      IsRecorded-append newer older m
        (subst IsRecorded e (node_after-IsSafe w process_commit fuel s n inputs).0.2)

  -- While a node is at a block number, it is locked at the round of each precommit for a block that it has
  -- signed at that block number, or at a later round.
  pub precommit-covers :
      (s : InitialState) (n : Consensus) (inputs : List Input) (m : Message)
      → IsVoted m (node_after w process_commit fuel s n inputs).log
      → needs_lock (node_after w process_commit fuel s n inputs).block_number m ≡ true
      → covers (round_of (node_after w process_commit fuel s n inputs).locked_value) m.round ≡ true
  precommit-covers s n inputs m =
      IsLocked-IsVoted _ _ m (node_after w process_commit fuel s n inputs).log
        (node_after-IsSafe w process_commit fuel s n inputs).0.3
