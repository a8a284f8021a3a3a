-- ===== src/Quorum/Tests.antt =====
-- The intersection of quorums at concrete arrays.
use mainsail.Prelude.{true, false, List, [], ◌∷◌, ◌≡◌, refl, Bool}
use mainsail.Quorum.{is_minority}
use mainsail.Quorum.Intersection.{common, majorities_share_minority}

abbrev first_three : List Bool
first_three = true ∷ true ∷ true ∷ false ∷ []

abbrev last_three : List Bool
last_three = false ∷ true ∷ true ∷ true ∷ []

majorities_share_minority_example : is_minority (common first_three last_three) 4 ≡ true
majorities_share_minority_example = majorities_share_minority first_three last_three refl refl refl
