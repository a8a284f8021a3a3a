-- ===== src/Configuration/Changes.antt =====
-- The search for the next milestone that changes a value.
use mainsail.Prelude.{ℕ, Bool, ◌&&◌}
use mainsail.Configuration.{Key, Milestone, Configuration, truthy, changed}

-- The milestone sets the value, to another one than the current milestone, and is later.
abbrev pub wanted : ℕ → Key → Milestone → Milestone → Bool
wanted previous_height key current milestone =
    truthy (milestone.values key) && changed previous_height key milestone current
