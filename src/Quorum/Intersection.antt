-- ===== src/Quorum/Intersection.antt =====
-- Any two majorities of one validator set share more than a third of it.
use mainsail.Prelude.{ℕ, suc, ◌+◌, ◌≤◌, ◌≡◌, Bool, true, false, List, [], ◌∷◌, arith, length, trues}
use mainsail.Quorum.{is_majority, is_minority}

-- How many validators are marked in both arrays.
abbrev pub common : List Bool → List Bool → ℕ
common [] ys = 0
common (x ∷ xs) [] = 0
common (true ∷ xs) (true ∷ ys) = suc (common xs ys)
common (true ∷ xs) (false ∷ ys) = common xs ys
common (false ∷ xs) (y ∷ ys) = common xs ys

common_count :
    (xs ys : List Bool) → length xs ≡ length ys → trues xs + trues ys ≤ length xs + common xs ys
common_count [] [] h = omega arith
common_count [] (y ∷ ys) h = absurd (omega arith)
common_count (x ∷ xs) [] h = absurd (omega arith)
common_count (true ∷ xs) (true ∷ ys) h = omega (arith, common_count xs ys (omega arith))
common_count (true ∷ xs) (false ∷ ys) h = omega (arith, common_count xs ys (omega arith))
common_count (false ∷ xs) (true ∷ ys) h = omega (arith, common_count xs ys (omega arith))
common_count (false ∷ xs) (false ∷ ys) h = omega (arith, common_count xs ys (omega arith))

-- Two sets of signers over the same validators that are both majorities have in common a set that
-- passes the minority test, which is more than a third of the validators.
pub majorities_share_minority :
    (xs ys : List Bool)
    → length xs ≡ length ys
    → is_majority (trues xs) (length xs) ≡ true
    → is_majority (trues ys) (length ys) ≡ true
    → is_minority (common xs ys) (length xs) ≡ true
majorities_share_minority xs ys e h k = ground (arith, common_count xs ys e)
