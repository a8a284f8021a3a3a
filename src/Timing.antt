-- ===== src/Timing.antt =====
-- packages/blockchain-utils/source/timestamp-calculator.ts and packages/consensus/source/scheduler.ts:
-- when a round may start, and the four timers of a node.
-- `setTimeoutAsync` is a timer that is pending until it fires; the callback's first act, clearing its own
-- field, is the `fire_` operation here.
pub mod Laws
mod Tests
use mainsail.Prelude.{
  ℕ, ◌+◌, ◌-◌, ◌*◌, ◌/◌, Bool, true, false, Option, none, some, ltb, leb, if◌then◌else◌,
}
use Prim.Native.Nat.{max}
use mainsail.Prelude.Outcome.{Result, ok, err, ◌>>=◌, round_too_high}

-- The `timeouts` of a milestone.
pub record Timeouts : Type 0 where
  pub block_time : ℕ
  pub block_prepare_time : ℕ
  pub stage_timeout : ℕ
  pub stage_timeout_increase : ℕ
  pub tolerance : ℕ

-- The milestone is that of the block after the previous one.
unfoldable pub calculate_minimal_timestamp : Timeouts → ℕ → ℕ → Result ℕ
calculate_minimal_timestamp timeouts previous_timestamp round =
    let previous_rounds = round - 1 in
    let increases =
      (timeouts.stage_timeout_increase * previous_rounds * (previous_rounds + 1)) / 2 in
    if ltb 100000 round
    then err round_too_high
    else ok (previous_timestamp + timeouts.block_time + round * timeouts.stage_timeout + increases)

unfoldable pub get_next_block_timestamp : Timeouts → ℕ → ℕ → ℕ → Result ℕ
unfolding calculate_minimal_timestamp
get_next_block_timestamp timeouts previous_timestamp round_start_time round = do
  minimal ← calculate_minimal_timestamp timeouts previous_timestamp round
  ok (max (round_start_time + timeouts.block_prepare_time) minimal)

-- `#getTimeout`.
abbrev pub get_timeout : Timeouts → ℕ → ℕ
get_timeout timeouts round = timeouts.stage_timeout + round * timeouts.stage_timeout_increase

-- A pending timer with the position that its handler is called with.
pub record Timer : Type 0 where
  pub block_number : ℕ
  pub round : ℕ
  pub delay : ℕ

pub record Scheduler : Type 0 where
  pub timeout_block_prepare : Option ℕ
  pub timeout_propose : Option Timer
  pub timeout_prevote : Option Timer
  pub timeout_precommit : Option Timer

abbrev pub idle : Scheduler
idle = record {
  timeout_block_prepare = none;
  timeout_propose = none;
  timeout_prevote = none;
  timeout_precommit = none;
}

-- `Math.max(0, timestamp - now)` is the truncated difference.
unfoldable pub schedule_timeout_block_prepare : ℕ → ℕ → Scheduler → Bool × Scheduler
schedule_timeout_block_prepare now timestamp s = elim s.timeout_block_prepare [
  | some t ↦ (false, s)
  | none ↦ (true, record s { timeout_block_prepare = some (timestamp - now) })
]

abbrev timer : Timeouts → ℕ → ℕ → Timer
timer timeouts block_number round = record {
  block_number = block_number;
  round = round;
  delay = get_timeout timeouts round;
}

unfoldable pub schedule_timeout_propose : Timeouts → ℕ → ℕ → Scheduler → Bool × Scheduler
schedule_timeout_propose timeouts block_number round s = elim s.timeout_propose [
  | some t ↦ (false, s)
  | none ↦ (true, record s { timeout_propose = some (timer timeouts block_number round) })
]

unfoldable pub schedule_timeout_prevote : Timeouts → ℕ → ℕ → Scheduler → Bool × Scheduler
schedule_timeout_prevote timeouts block_number round s = elim s.timeout_prevote [
  | some t ↦ (false, s)
  | none ↦ (true, record s { timeout_prevote = some (timer timeouts block_number round) })
]

unfoldable pub schedule_timeout_precommit : Timeouts → ℕ → ℕ → Scheduler → Bool × Scheduler
schedule_timeout_precommit timeouts block_number round s = elim s.timeout_precommit [
  | some t ↦ (false, s)
  | none ↦ (true, record s { timeout_precommit = some (timer timeouts block_number round) })
]

-- `clear` cancels what is pending.
abbrev pub clear : Scheduler → Scheduler
clear s = idle

-- What a timer's callback does first.
abbrev pub fire_block_prepare : Scheduler → Scheduler
fire_block_prepare s = record s { timeout_block_prepare = none }

abbrev pub fire_propose : Scheduler → Scheduler
fire_propose s = record s { timeout_propose = none }

abbrev pub fire_prevote : Scheduler → Scheduler
fire_prevote s = record s { timeout_prevote = none }

abbrev pub fire_precommit : Scheduler → Scheduler
fire_precommit s = record s { timeout_precommit = none }
