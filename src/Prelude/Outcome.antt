-- ===== src/Prelude/Outcome.antt =====
-- How a TypeScript call ends: it returns, or it throws. The errors are the ones the modelled code names.
use Prim.Native.Nat.{ℕ}
use mathlib.Core.Path.{◌≡◌, refl}
use mathlib.Core.Logic.{◌⊎◌, inl, inr}

-- One constructor for each `throw` of the modelled code.
pub data Error : Type 0 where
  proposal_exists prevote_exists precommit_exists : Error
  block_unavailable payload_undefined processor_result_undefined validator_undefined
        proposal_undefined :
      Error
  majority_not_reached : Error
  index_out_of_range : ℕ → Error
  fuel_exhausted round_too_high height_below_genesis bad_milestone span_undefined : Error
  commit_failed storage_failed : Error
  bootstrap_mismatch proposal_not_stored prevotes_not_stored : Error
  out_of_range write_over_boundary read_over_boundary jump_over_boundary buffer_range : Error
  unknown_sender exceeded_transaction_count nonce_mismatch insufficient_balance : Error
  exceeds_byte_size wrong_network unexpected_nonce unexpected_second_signature : Error
  invalid_second_signature preverify_failed balance_below_zero nonce_below_zero : Error
  invalid_value invalid_presence_flag missing_count bits_beyond_validators trailing_bytes : Error
  lock_proof_missing valid_round_missing valid_round_too_high : Error
  message_deserialization schema_violation : Error
  no_round_validators payload_size_mismatch invalid_milestone missing_milestone : Error

pub data Result (A : Type 0) : Type 0 where
  err : Error → Result A
  ok : A → Result A

-- What runs after a call only if it returned.
abbrev pub and_then : {A B : Type 0} → (A → Result B) → Result A → Result B
and_then next (err e) = err e
and_then next (ok a) = next a

infixl 5 ◌>>=◌ ◌>>◌
abbrev pub ◌>>=◌ : {A B : Type 0} → Result A → (A → Result B) → Result B
call >>= next = and_then next call

abbrev pub ◌>>◌ : {B : Type 0} → Result (Unit {0}) → Result B → Result B
call >> next = and_then (λ _. next) call

-- A chain that returned went through its first call.
pub and_then-inv :
    {A C : Type 0} {c : C} (next : A → Result C) (call : Result A)
    → and_then next call ≡ ok c
    → (value : A) × (call ≡ ok value) × (next value ≡ ok c)
and_then-inv next (err e) returned = cc
and_then-inv next (ok value) returned = (value, refl, returned)

pub ok-inj : {A : Type 0} {a b : A} → ◌≡◌ {A = Result A} (ok a) (ok b) → a ≡ b
ok-inj e = cc

pub Result-cases :
    {A : Type 0} (r : Result A) → ((a : A) × (r ≡ ok a)) ⊎ ((e : Error) × (r ≡ err e))
Result-cases (ok a) = inl (a, refl)
Result-cases (err e) = inr (e, refl)

pub not_ok : {A : Type 0} {a : A} {e : Error} → ¬ (◌≡◌ {A = Result A} (err e) (ok a))
not_ok e = cc
