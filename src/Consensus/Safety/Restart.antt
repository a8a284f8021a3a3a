-- ===== src/Consensus/Safety/Restart.antt =====
-- Votes agree across restarts: a node that starts again from what it stored never contradicts what it
-- signed before it stopped, wherever it stopped.
use mainsail.Prelude.{
  ℕ, ◌+◌, ◌≤◌, ◌<◌, ◌≡◌, refl, sym, subst, ◌⊎◌, inl, inr, Bool, false, Option, none, some, List, [],
  arith, ◌==◌, Bool-cases,
}
use mainsail.Prelude.Outcome.{Result, ok, err, and_then-inv, bootstrap_mismatch}
use mainsail.Contracts.{Message, Block, BlockProcessorResult, Proposal}
use mainsail.RoundState.{RoundState, RoundEnv}
use mainsail.Consensus.State.{Consensus, World, Effect, StateData, RoundRef, rank, round_of}
use mainsail.Consensus.Events.{InitialState, Input, run, take_all, after}
use mainsail.Consensus.Bootstrapper.{
  Records, initial_state, get_proven_round_state, get_proven, restore_state, restore_or_start,
  bootstrap, load_rounds,
}
use mainsail.Consensus.Safety.Log.{
  IsAgreed, IsSafeAt, IsSafe, IsRestorable, IsSafeFrom, latest, stored_block, stored_round,
  stored_rank, IsBounded-Reaches, IsLocked-next,
}
use mainsail.Consensus.Safety.Inputs.{run-IsSafe-IsSafe, take_all-IsSafe}
use mainsail.Consensus.Safety.Theorems.{IsVoted, IsAgreed-IsVoted}

ok_first :
    {A B C : Type 0} {a a' : A} {b b' : B} {c c' : C}
    → ◌≡◌ {A = Result (A × B × C)} (ok (a, b, c)) (ok (a', b', c'))
    → a ≡ a'
ok_first e = cc

-- What a restart may find in the storage: the state that was last written; or none, when records of a later
-- block have replaced it. The database is not behind the stored state.
abbrev pub IsStored : Option StateData → List Effect → ℕ → Type 0
IsStored stored log block_number =
    ((stored ≡ latest log) × (stored_block (latest log) ≤ block_number))
    ⊎ ((stored ≡ none) × (stored_block (latest log) < block_number))

-- The position and the lock of a starting node, over an old log.
abbrev pub IsSafeStart : InitialState → List Effect → Type 0
IsSafeStart s log =
    IsSafeAt s.block_number s.round (rank s.step) (round_of s.locked_value) log × IsRestorable log

initial-IsSafeStart :
    (log : List Effect) (block_number : ℕ)
    → IsRestorable log
    → stored_block (latest log) < block_number
    → IsSafeStart (initial_state block_number) log
initial-IsSafeStart log block_number h lt = (
  (
    IsBounded-Reaches (stored_block (latest log)) (stored_round (latest log))
        (stored_rank (latest log)) block_number 0 0 log (inl lt) h.0,
    h.1,
    h.2,
    IsLocked-next (stored_block (latest log)) (stored_round (latest log)) (stored_rank (latest log))
        block_number none log lt h.0,
  ),
  h,
)

module _ (env : RoundEnv) (deserialize : Proposal → Option Block) where
  get_proven-round :
      (b : ℕ) (o : Option ℕ) (rounds : List RoundState) {found : Option RoundRef × List RoundState}
      → get_proven env deserialize b o rounds ≡ ok found
      → round_of found.0 ≡ o
  unfolding get_proven get_proven_round_state
  get_proven-round b none rounds e = ground arith
  get_proven-round b (some r) rounds e = ground arith

  restore_state-IsSafeStart :
      (b : ℕ) (stored : StateData) (rounds : List RoundState) (log : List Effect) {s : InitialState}
      {more : List RoundState} {cleared : Bool}
      → restore_state env deserialize b stored rounds ≡ ok (s, more, cleared)
      → IsRestorable log
      → some stored ≡ latest log
      → IsSafeStart s log
  unfolding restore_state
  restore_state-IsSafeStart b stored rounds log e h l =
      let (valid, ev, e1) =
        and_then-inv _ (get_proven env deserialize b stored.valid_round rounds) e in
      let (locked, el, e2) =
        and_then-inv _ (get_proven env deserialize b stored.locked_round valid.1) e1 in
      let here : IsSafeFrom (some stored) log = subst (λ o. IsSafeFrom o log) (sym l) h in
      subst (λ i. IsSafeStart i log) (ok_first e2)
        (
          subst (λ o. IsSafeAt stored.block_number stored.round (rank stored.step) o log)
              (sym (get_proven-round b stored.locked_round valid.1 el)) here,
          h,
        )

  restore_or_start-IsSafeStart :
      (b : ℕ) (o : Option StateData) (rounds : List RoundState) (log : List Effect)
      {s : InitialState} {more : List RoundState} {cleared : Bool}
      → restore_or_start env deserialize b o rounds ≡ ok (s, more, cleared)
      → 0 < b
      → IsRestorable log
      → IsStored o log b
      → IsSafeStart s log
  unfolding restore_or_start
  restore_or_start-IsSafeStart b none rounds log e pos h (inl (l, le)) =
      subst (λ i. IsSafeStart i log) (ok_first e)
        (initial-IsSafeStart log b h (subst (λ o. stored_block o < b) l pos))
  restore_or_start-IsSafeStart b none rounds log e pos h (inr (l, lt)) =
      subst (λ i. IsSafeStart i log) (ok_first e) (initial-IsSafeStart log b h lt)
  restore_or_start-IsSafeStart b (some stored) rounds log e pos h (inr (l, lt)) = absurd (cc)
  restore_or_start-IsSafeStart b (some stored) rounds log e pos h (inl (l, le)) =
      elim (Bool-cases (stored.block_number == b)) [
        | inl same ↦ restore_state-IsSafeStart b stored rounds log (rw same at e) h l
        | inr other ↦
            subst (λ i. IsSafeStart i log) (ok_first (rw other at e))
              (initial-IsSafeStart log b h (
                strictly (stored_block (latest log))
                  (subst (λ o. stored_block (some stored) ≡ stored_block o) l refl) other le))
      ]
    where
      strictly :
          (k : ℕ) → stored.block_number ≡ k → (stored.block_number == b) ≡ false → k ≤ b → k < b
      strictly k e other le = ground arith

  bootstrap-IsSafeStart :
      (last_number height : ℕ) (records : Records) (rounds : List RoundState) (log : List Effect)
      {s : InitialState} {more : List RoundState} {cleared : Bool}
      → bootstrap env deserialize last_number height (some records) rounds ≡ ok (s, more, cleared)
      → IsRestorable log
      → IsStored records.state log (last_number + 1)
      → IsSafeStart s log
  unfolding bootstrap
  bootstrap-IsSafeStart last_number height records rounds log e h stored =
      elim (Bool-cases (last_number + 1 == height)) [
        | inl same ↦
            let (loaded, _, e') =
              and_then-inv _ (load_rounds env deserialize (last_number + 1) records rounds)
                (rw same at e) in
            restore_or_start-IsSafeStart (last_number + 1) records.state loaded log e' (omega arith)
              h stored
        | inr other ↦ absurd (no_ok (rw other at e))
      ]
    where
      no_ok : {x : InitialState × List RoundState × Bool} → err bootstrap_mismatch ≡ ok x → ⊥
      no_ok e = cc

-- The life of a node's storage: any number of sessions, each of which starts from what the bootstrapper
-- makes of the storage and the database, takes inputs, and ends at any point.
pub data Life (w : World) (process_commit : Block → Option BlockProcessorResult) (fuel : ℕ)
    : List Effect → Type 0 where
  born : Life w process_commit fuel []
  session :
      (log log' : List Effect)
      → Life w process_commit fuel log
      → (last_number height : ℕ) (records : Records) (rounds : List RoundState)
      → IsStored records.state log (last_number + 1)
      → (s : InitialState) (more : List RoundState) (cleared : Bool)
      → bootstrap w.env w.deserialize last_number height (some records) rounds
        ≡ ok (s, more, cleared)
      → (n : Consensus) → n.log ≡ log
      → (inputs : List Input)
      → log' ≡ (take_all w process_commit fuel inputs (after (run w process_commit fuel s n))).log
      → Life w process_commit fuel log'

module _ (w : World) (process_commit : Block → Option BlockProcessorResult) (fuel : ℕ) where
  session-IsSafe :
      (log : List Effect) (s : InitialState) (n : Consensus) (inputs : List Input)
      → IsSafeStart s log
      → n.log ≡ log
      → IsSafe (take_all w process_commit fuel inputs (after (run w process_commit fuel s n)))
  session-IsSafe log s n inputs h e =
      take_all-IsSafe w process_commit fuel inputs (after (run w process_commit fuel s n))
        (run-IsSafe-IsSafe w process_commit fuel s n (subst (IsSafeStart s) (sym e) h))

  Life-IsSafe :
      {log : List Effect} → Life w process_commit fuel log → IsAgreed log × IsRestorable log
  Life-IsSafe born = (tt, (tt, tt, tt, tt))
  Life-IsSafe
        (session log log' life last height records rounds stored s more cleared e n same inputs
          end) =
      let safe =
        session-IsSafe log s n inputs
          (bootstrap-IsSafeStart w.env w.deserialize last height records rounds log e
            (Life-IsSafe life).1 stored)
          same in
      (subst IsAgreed (sym end) safe.0.1, subst IsRestorable (sym end) safe.1)

  -- A node never signs two messages of one type, block number and round with different values, also when it
  -- stops and starts again any number of times, at any points: as long as each start reads its storage, and
  -- the database is not behind the stored state, or a later block has replaced the stored records.
  pub restart-votes-agree :
      (log : List Effect) (m m' : Message)
      → Life w process_commit fuel log
      → IsVoted m log
      → IsVoted m' log
      → m.type ≡ m'.type
      → m.block_number ≡ m'.block_number
      → m.round ≡ m'.round
      → m.block_hash ≡ m'.block_hash
  restart-votes-agree log m m' life = IsAgreed-IsVoted m m' log (Life-IsSafe life).0
