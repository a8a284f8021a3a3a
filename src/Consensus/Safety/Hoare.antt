-- ===== src/Consensus/Safety/Hoare.antt =====
-- Conditions on how an action ends, and their rules for `do` blocks.
use mainsail.Prelude.{◌≡◌, refl, Bool, true, false, Option, none, some}
use mainsail.Prelude.Outcome.{Result, ok, err}
use mainsail.Consensus.State.{Consensus}
use mainsail.Consensus.Monad.{M, Outcome, done, threw, continue, when, given, lift}

-- `Q` of the value and the fields on a return, `E` of the fields on a throw.
abbrev pub Ends :
    {A : Type 0} → (A → Consensus → Type 0) → (Consensus → Type 0) → Outcome A → Type 0
Ends Q E (done a n) = Q a n
Ends Q E (threw e n) = E n

pub Ends-continue :
    {A B : Type 0} (Q : A → Consensus → Type 0) (R : B → Consensus → Type 0)
    (E : Consensus → Type 0) (o : Outcome A) (f : A → M B)
    → Ends Q E o
    → ((a : A) (n : Consensus) → Q a n → Ends R E (f a n))
    → Ends R E (continue o f)
Ends-continue Q R E (done a n) f h k = k a n h
Ends-continue Q R E (threw e n) f h k = h

pub Ends-mono :
    {A : Type 0} (Q R : A → Consensus → Type 0) (E F : Consensus → Type 0) (o : Outcome A)
    → Ends Q E o
    → ((a : A) (n : Consensus) → Q a n → R a n)
    → ((n : Consensus) → E n → F n)
    → Ends R F o
Ends-mono Q R E F (done a n) h q e = q a n h
Ends-mono Q R E F (threw x n) h q e = e n h

pub Ends-when :
    (Q : Unit {0} → Consensus → Type 0) (E : Consensus → Type 0) (b : Bool) (m : M (Unit {0}))
    (n : Consensus)
    → (b ≡ true → Ends Q E (m n))
    → (b ≡ false → Q tt n)
    → Ends Q E (when b m n)
unfolding when
Ends-when Q E true m n h k = h refl
Ends-when Q E false m n h k = k refl

pub Ends-given :
    {A : Type 0} (Q : Unit {0} → Consensus → Type 0) (E : Consensus → Type 0) (o : Option A)
    (f : A → M (Unit {0})) (n : Consensus)
    → ((a : A) → o ≡ some a → Ends Q E (f a n))
    → Q tt n
    → Ends Q E (given o f n)
unfolding given
Ends-given Q E none f n h k = k
Ends-given Q E (some a) f n h k = h a refl

-- Both ends keep one condition.
abbrev pub Keeps : {A : Type 0} → (Consensus → Type 0) → Outcome A → Type 0
Keeps P o = Ends (λ _ n. P n) P o

pub Keeps-lift :
    {A : Type 0} {B : Type 0} (P : Consensus → Type 0) (r : Result A) (f : A → M B) (n : Consensus)
    → P n
    → ((a : A) → r ≡ ok a → Keeps P (f a n))
    → Keeps P (continue (lift r n) f)
unfolding lift
Keeps-lift P (ok a) f n h k = k a refl
Keeps-lift P (err e) f n h k = h

module _ (P : Consensus → Type 0) where
  pub Keeps-then :
      {A B : Type 0} (o : Outcome A) (f : A → M B)
      → Keeps P o
      → ((a : A) (n : Consensus) → P n → Keeps P (f a n))
      → Keeps P (continue o f)
  Keeps-then o f = Ends-continue (λ _ n. P n) (λ _ n. P n) P o f

  pub Keeps-when :
      (b : Bool) (m : M (Unit {0})) (n : Consensus) → P n → Keeps P (m n) → Keeps P (when b m n)
  Keeps-when b m n h k = Ends-when (λ _ n. P n) P b m n (λ _. k) (λ _. h)

  pub Keeps-given :
      {A : Type 0} (o : Option A) (f : A → M (Unit {0})) (n : Consensus)
      → P n
      → ((a : A) → Keeps P (f a n))
      → Keeps P (given o f n)
  Keeps-given o f n h k = Ends-given (λ _ n. P n) P o f n (λ a _. k a) h
