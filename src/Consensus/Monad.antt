-- ===== src/Consensus/Monad.antt =====
-- Actions of the consensus class: an action runs on the fields and returns or throws.
use mainsail.Prelude.{ℕ, Bool, Option, none, some, ◌∷◌, if◌then◌else◌, suc}
use mainsail.Prelude.Outcome.{Error, Result, ok, err, storage_failed}
use mainsail.RoundState.{RoundState}
use mainsail.Consensus.State.{
  Consensus, World, Effect, Event, RoundRef, persisted, dispatched, get_or_create, deref, get_state,
  update_round,
}

pub data Outcome (A : Type 0) : Type 0 where
  done : A → Consensus → Outcome A
  threw : Error → Consensus → Outcome A

abbrev pub M : Type 0 → Type 0
M A = Consensus → Outcome A

abbrev pub continue : {A B : Type 0} → Outcome A → (A → M B) → Outcome B
continue (done a n) f = f a n
continue (threw e n) f = threw e n

infixl 5 ◌>>=◌ ◌>>◌
abbrev pub ◌>>=◌ : {A B : Type 0} → M A → (A → M B) → M B
◌>>=◌ m f n = continue (m n) f

abbrev pub ◌>>◌ : {B : Type 0} → M (Unit {0}) → M B → M B
◌>>◌ m k n = continue (m n) (λ _. k)

abbrev pub return : {A : Type 0} → A → M A
return a n = done a n

abbrev pub throw : {A : Type 0} → Error → M A
throw e n = threw e n

abbrev pub read : M Consensus
read n = done n n

abbrev pub modify : (Consensus → Consensus) → M (Unit {0})
modify f n = done tt (f n)

-- A guard with an early return.
unfoldable pub when : Bool → M (Unit {0}) → M (Unit {0})
when b m n = if b then m n else done tt n

-- A guard `x !== undefined`, with `x` for the rest.
unfoldable pub given : {A : Type 0} → Option A → (A → M (Unit {0})) → M (Unit {0})
given none f n = done tt n
given (some a) f n = f a n

abbrev pub emit : Effect → M (Unit {0})
emit e n = done tt (record n { log = e ∷ n.log })

-- A result of a call that throws on `err`.
unfoldable pub lift : {A : Type 0} → Result A → M A
lift (ok a) n = done a n
lift (err e) n = threw e n

module _ (w : World) where
  -- `await`: the processors run meanwhile, and may add proposals and votes to the round states.
  abbrev pub await : M (Unit {0})
  await n = done tt (record n { tick = suc n.tick; rounds = w.arrive n.tick n.rounds })

  abbrev pub dispatch : Event → M (Unit {0})
  dispatch event = do emit (dispatched event); await

  -- `#persistState`: a node that cannot write its state throws.
  abbrev pub persist_state : M (Unit {0})
  persist_state n =
      if w.stored n.tick
      then await (record n { log = persisted (get_state n) ∷ n.log })
      else threw storage_failed n

  abbrev pub get_round_state : ℕ → ℕ → M RoundState
  get_round_state block_number round n =
      let found = get_or_create w.env block_number round n.rounds in
      done found.0 (record n { rounds = found.1 })

  abbrev pub view : RoundRef → M RoundState
  view ref n = done (deref w.env ref n) n

  abbrev pub write_round : RoundRef → (RoundState → RoundState) → M (Unit {0})
  write_round ref f n = done tt (record n { rounds = update_round ref f n.rounds })
