-- ===== src/Timing/Laws.antt =====
-- The earliest time of a round against the timeouts of the rounds before it.
use mainsail.Prelude.{
  ℕ, suc, zero, ◌+◌, ◌-◌, ◌*◌, ◌/◌, ◌≤◌, ◌<◌, ◌≡◌, ap, arith, ltb, ◌⊎◌, inl, inr, Bool-cases,
}
use mainsail.Prelude.Outcome.{ok, err, round_too_high}
use mainsail.Timing.{Timeouts, calculate_minimal_timestamp, get_timeout}

-- The timeouts of the first rounds together.
abbrev pub total_timeout : Timeouts → ℕ → ℕ
total_timeout t zero = 0
total_timeout t (suc round) = total_timeout t round + get_timeout t round

double_total :
    (t : Timeouts) (r : ℕ)
    → 2 * total_timeout t (suc r)
      ≡ 2 * (suc r * t.stage_timeout) + t.stage_timeout_increase * r * (r + 1)
double_total t zero = omega arith
double_total t (suc r) = omega (arith, double_total t r)

increases :
    (t : Timeouts) (r : ℕ)
    → r * t.stage_timeout + (t.stage_timeout_increase * (r - 1) * (r - 1 + 1)) / 2
      ≡ total_timeout t r
increases t zero = omega arith
increases t (suc r) = let e : suc r - 1 ≡ r = omega arith in rw e (omega (arith, double_total t r))

-- The earliest time of a round is the time of the previous block, the block time, and the timeouts of all
-- the rounds before this one; rounds after 100000 are refused.
pub calculate_minimal_timestamp-total :
    (t : Timeouts) (previous round : ℕ)
    → ((round ≤ 100000)
        × (calculate_minimal_timestamp t previous round
            ≡ ok (previous + t.block_time + total_timeout t round)))
      ⊎ ((100000 < round) × (calculate_minimal_timestamp t previous round ≡ err round_too_high))
unfolding calculate_minimal_timestamp
calculate_minimal_timestamp-total t previous round = elim (Bool-cases (ltb 100000 round)) [
  | inl high ↦ inr (ground arith, rw high)
  | inr low ↦ inl (ground arith, rw low (ap ok (omega (arith, increases t round))))
]
