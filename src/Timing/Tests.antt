-- ===== src/Timing/Tests.antt =====
-- Round 3 after a block at 50 seconds: three stages, the later two longer.
use mainsail.Prelude.{◌+◌, ◌≡◌, refl, ◌≤◌, ◌<◌, ◌⊎◌}
use mainsail.Prelude.Outcome.{ok, err, round_too_high}
use mainsail.Timing.{Timeouts, calculate_minimal_timestamp}
use mainsail.Timing.Laws.{total_timeout, calculate_minimal_timestamp-total}

abbrev timeouts : Timeouts
timeouts = record {
  block_time = 8000;
  block_prepare_time = 4000;
  stage_timeout = 2000;
  stage_timeout_increase = 2000;
  tolerance = 100;
}

calculate_minimal_timestamp_run : calculate_minimal_timestamp timeouts 50000 3 ≡ ok 70000
unfolding calculate_minimal_timestamp
calculate_minimal_timestamp_run = refl

calculate_minimal_timestamp-total_example :
    ((3 ≤ 100000)
      × (calculate_minimal_timestamp timeouts 50000 3
          ≡ ok (50000 + 8000 + total_timeout timeouts 3)))
    ⊎ ((100000 < 3) × (calculate_minimal_timestamp timeouts 50000 3 ≡ err round_too_high))
calculate_minimal_timestamp-total_example = calculate_minimal_timestamp-total timeouts 50000 3
