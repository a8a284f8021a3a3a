-- ===== src/Quorum.antt =====
-- packages/blockchain-utils/source/is-majority.ts and is-minority.ts: the two vote thresholds.
-- JavaScript multiplies doubles; below 2 ^ 51 validators the products are exact, so ℕ is used.
pub mod Intersection
mod Tests
use mainsail.Prelude.{ℕ, ◌*◌, Bool, ltb}

abbrev pub is_majority : ℕ → ℕ → Bool
is_majority size round_validators = ltb (round_validators * 2) (size * 3)

abbrev pub is_minority : ℕ → ℕ → Bool
is_minority size round_validators = ltb round_validators (size * 3)
