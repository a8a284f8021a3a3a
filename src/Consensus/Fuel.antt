-- ===== src/Consensus/Fuel.antt =====
-- When a handler runs out of fuel: conditions on how an action ends that name its error.
mod Stays
pub mod Spent
mod Tests
use mainsail.Prelude.{ℕ, ◌≡◌, refl, Bool, true, false, Option, none, some}
use mainsail.Prelude.Outcome.{Error, fuel_exhausted, Result, ok, err}
use mainsail.Consensus.State.{Consensus}
use mainsail.Consensus.Monad.{M, Outcome, done, threw, continue, when, given, lift}

abbrev pub IsOther : Error → Type 0
IsOther fuel_exhausted = ⊥
IsOther _ = Unit

-- The position is kept, or an error other than the lack of fuel is thrown.
abbrev pub Stays : {A : Type 0} → ℕ → ℕ → Outcome A → Type 0
Stays b r (done a n) = (n.block_number ≡ b) × (n.round ≡ r)
Stays b r (threw e n) = IsOther e

-- A call that does not throw for the lack of fuel.
abbrev pub IsFine : {A : Type 0} → Result A → Type 0
IsFine (ok a) = Unit
IsFine (err e) = IsOther e

module _ (b r : ℕ) where
  pub Stays-continue :
      {A B : Type 0} (o : Outcome A) (f : A → M B)
      → Stays b r o
      → ((a : A) (n : Consensus) → n.block_number ≡ b → n.round ≡ r → Stays b r (f a n))
      → Stays b r (continue o f)
  Stays-continue (done a n) f h k = k a n h.0 h.1
  Stays-continue (threw e n) f h k = h

  pub Stays-when :
      (t : Bool) (m : M (Unit {0})) (n : Consensus)
      → n.block_number ≡ b
      → n.round ≡ r
      → Stays b r (m n)
      → Stays b r (when t m n)
  unfolding when
  Stays-when true m n h k s = s
  Stays-when false m n h k s = (h, k)

  pub Stays-given :
      {A : Type 0} (o : Option A) (f : A → M (Unit {0})) (n : Consensus)
      → n.block_number ≡ b
      → n.round ≡ r
      → ((a : A) → Stays b r (f a n))
      → Stays b r (given o f n)
  unfolding given
  Stays-given none f n h k s = (h, k)
  Stays-given (some a) f n h k s = s a

  pub Stays-lift :
      {A B : Type 0} (c : Result A) (f : A → M B) (n : Consensus)
      → IsFine c
      → ((a : A) → Stays b r (f a n))
      → Stays b r (continue (lift c n) f)
  unfolding lift
  Stays-lift (ok a) f n h s = s a
  Stays-lift (err e) f n h s = h
