-- ===== src/Consensus/Safety/Votes.antt =====
-- The loop of `prevote` and `precommit` keeps the invariant, from a position where the step is recorded and
-- nothing was signed in it.
use mainsail.Prelude.{
  ℕ, suc, ◌<◌, ◌≡◌, refl, sym, subst, inl, inr, Bool, true, Option, none, some, List, [], ◌∷◌,
  arith, Bool-cases,
}
use mainsail.Contracts.{MessageType}
use mainsail.RoundState.{RoundState, has_prevote, has_precommit}
use mainsail.Consensus.State.{Consensus, World, rank, voted, round_of, get_state, get_or_create}
use mainsail.Consensus.Monad.{M, Outcome, continue, persist_state}
use mainsail.Consensus.Voting.{vote, save_message, vote_each, prevote, precommit, get_validators}
use mainsail.Consensus.Safety.Log.{
  type_rank, HasOnly, HasRecord, needs_lock, covers, latest, IsSafeFrom, IsRestorable, IsSafeAt,
  IsSafe, IsBounded-Reaches, HasOnly-IsBounded,
}
use mainsail.Consensus.Safety.Hoare.{Ends, Ends-continue, Ends-mono, Keeps}

-- A precommit for a block is signed while the lock is at the current round or a later one.
abbrev pub lock_holds : MessageType → Option ℕ → Option ℕ → ℕ → Bool
lock_holds MessageType.prevote v lock r = true
lock_holds MessageType.precommit none lock r = true
lock_holds MessageType.precommit (some h) lock r = covers lock r

-- The condition under which votes of one type and value are signed, and which signing keeps.
abbrev pub IsVoting : MessageType → Option ℕ → Consensus → Type 0
IsVoting t v n =
    IsSafe n
    × (rank n.step ≡ type_rank t)
    × HasRecord n.block_number n.round (type_rank t) n.log
    × HasOnly t n.block_number n.round v n.log
    × (lock_holds t v (round_of n.locked_value) n.round ≡ true)
    × (latest n.log ≡ some (get_state n))

vote-lock :
    (w : World) (t : MessageType) (v : Option ℕ) (i : ℕ) (n : Consensus)
    → lock_holds t v (round_of n.locked_value) n.round ≡ true
    → needs_lock n.block_number (vote w t v i n) ≡ true
    → covers (round_of n.locked_value) n.round ≡ true
vote-lock w MessageType.prevote v i n h needed = ground arith
vote-lock w MessageType.precommit none i n h needed = ground arith
vote-lock w MessageType.precommit (some x) i n h needed = h

-- One more vote at the position keeps the condition.
emit-IsVoting :
    (w : World) (t : MessageType) (v : Option ℕ) (i : ℕ) (n : Consensus)
    → IsVoting t v n
    → IsVoting t v (record n { log = voted (vote w t v i n) ∷ n.log })
emit-IsVoting w t v i n (safe, step, recorded, only, lock, stored) = (
  (now, subst (λ o. IsSafeFrom o (voted (vote w t v i n) ∷ n.log)) (sym stored) now),
  step,
  recorded,
  ((λ _. refl), only),
  lock,
  stored,
)
  where
    now :
        IsSafeAt n.block_number n.round
          (rank n.step)
          (round_of n.locked_value)
          (voted (vote w t v i n) ∷ n.log)
    now = (
      (inr (inr (refl, refl, omega arith)), safe.0.0),
      (only, safe.0.1),
      (recorded, safe.0.2),
      (vote-lock w t v i n lock, safe.0.3),
    )

save_message-IsVoting :
    (w : World) (t : MessageType) (v : Option ℕ) (i : ℕ) (n : Consensus) (k : ℕ)
    (rs : List RoundState)
    → IsVoting t v n
    → Keeps (IsVoting t v) (save_message w (vote w t v i n) (record n { tick = k; rounds = rs }))
save_message-IsVoting w t v i n k rs h = elim (Bool-cases (w.stored k)) [
  | inl e ↦ rw e (emit-IsVoting w t v i n h)
  | inr e ↦ rw e h
]

vote_each-IsVoting :
    (w : World) (t : MessageType) (v : Option ℕ) (indices : List ℕ) (n : Consensus)
    → IsVoting t v n
    → Keeps (IsVoting t v) (vote_each w t v indices n)
unfolding vote_each
vote_each-IsVoting w t v [] n h = h
vote_each-IsVoting w t v (i ∷ more) n h =
    Ends-continue (λ _ n. IsVoting t v n) (λ _ n. IsVoting t v n) (IsVoting t v)
      (save_message w (vote w t v i n)
        (record n { tick = suc n.tick; rounds = w.arrive n.tick n.rounds }))
      (λ _. vote_each w t v more) (save_message-IsVoting w t v i n _ _ h)
      (λ _ n' h'. vote_each-IsVoting w t v more n' h')

IsVoting-IsSafe :
    {A : Type 0} (t : MessageType) (v : Option ℕ) (o : Outcome A)
    → Keeps (IsVoting t v) o
    → Keeps IsSafe o
IsVoting-IsSafe t v o h =
    Ends-mono (λ _ n. IsVoting t v n) (λ _ n. IsSafe n) (IsVoting t v) IsSafe o h (λ _ n k. k.0)
      (λ n k. k.0)

pub prevote-IsSafe :
    (w : World) (v : Option ℕ) (n : Consensus)
    → IsVoting MessageType.prevote v n
    → Keeps IsSafe (prevote w v n)
unfolding prevote
prevote-IsSafe w v n h =
    let found = get_or_create w.env n.block_number n.round n.rounds in
    IsVoting-IsSafe MessageType.prevote v (prevote w v n) (
      vote_each-IsVoting w MessageType.prevote v
        (get_validators w (λ i. has_prevote i found.0) w.env.validators)
        (record n { rounds = found.1 }) h)

pub precommit-IsSafe :
    (w : World) (v : Option ℕ) (n : Consensus)
    → IsVoting MessageType.precommit v n
    → Keeps IsSafe (precommit w v n)
unfolding precommit
precommit-IsSafe w v n h =
    let found = get_or_create w.env n.block_number n.round n.rounds in
    IsVoting-IsSafe MessageType.precommit v (precommit w v n) (
      vote_each-IsVoting w MessageType.precommit v
        (get_validators w (λ i. has_precommit i found.0) w.env.validators)
        (record n { rounds = found.1 }) h)

-- A step that was just entered: nothing was signed in it.
abbrev pub IsEntered : MessageType → ℕ → Consensus → Type 0
IsEntered t k n =
    IsSafeAt n.block_number n.round k (round_of n.locked_value) n.log
    × IsRestorable n.log
    × (k < type_rank t)
    × (rank n.step ≡ type_rank t)

-- Entering is safe, since the new step is the later one.
IsEntered-IsSafeAt :
    (t : MessageType) (k : ℕ) (n : Consensus)
    → IsEntered t k n
    → IsSafeAt n.block_number n.round (rank n.step) (round_of n.locked_value) n.log
IsEntered-IsSafeAt t k n (safe, restorable, later, step) = (
  IsBounded-Reaches n.block_number n.round k n.block_number n.round (rank n.step) n.log
      (inr (inr (refl, refl, omega arith))) safe.0,
  safe.1,
  safe.2,
  safe.3,
)

-- A step that was entered and written to the storage: votes of its type may be signed, of any one value.
abbrev pub IsReady : MessageType → Consensus → Type 0
IsReady t n =
    IsSafe n
    × (rank n.step ≡ type_rank t)
    × HasRecord n.block_number n.round (type_rank t) n.log
    × ((v : Option ℕ) → HasOnly t n.block_number n.round v n.log)
    × (latest n.log ≡ some (get_state n))

persist_state-IsReady :
    (w : World) (t : MessageType) (k : ℕ) (n : Consensus)
    → IsEntered t k n
    → Ends
        (λ _ m. IsReady t m × (m.locked_value ≡ n.locked_value) × (m.round ≡ n.round))
        IsSafe
        (persist_state w n)
persist_state-IsReady w t k n h = elim (Bool-cases (w.stored n.tick)) [
  | inl e ↦ rw e (
    (
      (IsEntered-IsSafeAt t k n h, IsEntered-IsSafeAt t k n h),
      h.3,
      inl (refl, refl, omega arith),
      (λ v. HasOnly-IsBounded t n.block_number n.round k v n.log h.2 h.0.0),
      refl,
    ),
    refl,
    refl,
  )
  | inr e ↦ rw e (IsEntered-IsSafeAt t k n h, h.1)
]

-- What the six rules that vote do: a state is written, an event is sent, and then votes are signed.
pub persist_then-IsSafe :
    (w : World) (t : MessageType) (k : ℕ) (f : M (Unit {0})) (n : Consensus)
    → IsEntered t k n
    → ((m : Consensus)
        → IsReady t m
        → m.locked_value ≡ n.locked_value
        → m.round ≡ n.round
        → Keeps IsSafe (f m))
    → Keeps IsSafe (continue (persist_state w n) (λ _. f))
persist_then-IsSafe w t k f n h next =
    Ends-continue (λ _ m. IsReady t m × (m.locked_value ≡ n.locked_value) × (m.round ≡ n.round))
      (λ _ m. IsSafe m) IsSafe (persist_state w n) (λ _. f) (persist_state-IsReady w t k n h)
      (λ _ m r. next m r.0 r.1 r.2)

-- A ready node may prevote any value, and may precommit one that its lock covers.
pub prevote_ready-IsSafe :
    (w : World) (v : Option ℕ) (n : Consensus)
    → IsReady MessageType.prevote n
    → Keeps IsSafe (prevote w v n)
prevote_ready-IsSafe w v n r = prevote-IsSafe w v n (r.0, r.1, r.2, r.3 v, refl, r.4)

pub precommit_ready-IsSafe :
    (w : World) (v : Option ℕ) (n : Consensus)
    → IsReady MessageType.precommit n
    → lock_holds MessageType.precommit v (round_of n.locked_value) n.round ≡ true
    → Keeps IsSafe (precommit w v n)
precommit_ready-IsSafe w v n r lock = precommit-IsSafe w v n (r.0, r.1, r.2, r.3 v, lock, r.4)
