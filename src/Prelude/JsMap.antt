-- ===== src/Prelude/JsMap.antt =====
-- JavaScript's `Map` as a list of entries in the order in which the keys were first set.
use mainsail.Prelude.Tests.{if◌then◌else◌, ◌==◌, ==_iff, same, same_iff, is_some}
use Prim.Native.Nat.{ℕ}
use mathlib.Core.Path.{◌≡◌}
use mathlib.Core.Logic.{◌↔◌}
use mathlib.Core.Bool.{Bool, true}
use mathlib.Core.Option.{Option, none, some}
use mathlib.Core.List.{List, [], ◌∷◌}
use native.Mathlib.Omega.{arith}

-- Equality of keys, `===` on the values that the program uses as keys.
pub record Key {ℓ} (K : Type ℓ) : Type ℓ where
  pub eq : K → K → Bool
  pub eq_iff : (a b : K) → (eq a b ≡ true) ↔ (a ≡ b)

instance abbrev pub number_key : Key ℕ
number_key = record { eq = ◌==◌; eq_iff = ==_iff }

instance abbrev pub optional_key : Key (Option ℕ)
optional_key = record { eq = same; eq_iff = same_iff }

module _ {ℓ κ} {K : Type ℓ} {V : Type κ} ⦃e : Key K⦄ where
  abbrev pub get : K → List (K × V) → Option V
  get k [] = none
  get k ((j, v) ∷ m) = let rest = get k m in if e.eq j k then some v else rest

  abbrev pub put : K → V → List (K × V) → List (K × V)
  put k v [] = (k, v) ∷ []
  put k v ((j, w) ∷ m) = let rest = put k v m in if e.eq j k then (j, v) ∷ m else (j, w) ∷ rest

  abbrev pub delete : K → List (K × V) → List (K × V)
  delete k [] = []
  delete k ((j, w) ∷ m) = let rest = delete k m in if e.eq j k then rest else (j, w) ∷ rest

abbrev pub has {ℓ κ} : {K : Type ℓ} {V : Type κ} ⦃e : Key K⦄ → K → List (K × V) → Bool
has k m = is_some (get k m)

abbrev pub values {ℓ κ} : {K : Type ℓ} {V : Type κ} → List (K × V) → List V
values [] = []
values ((k, v) ∷ m) = v ∷ values m

-- Reading a number map after one write.
pub get-put {κ} :
    {V : Type κ} (k j : ℕ) (v : V) (m : List (ℕ × V))
    → get j (put k v m) ≡ (if k == j then some v else get j m)
get-put k j v [] = ground arith
get-put k j v ((i, w) ∷ m) = ground (arith, get-put k j v m)

-- Reading a map with optional keys after one write.
pub get-put_optional {κ} :
    {V : Type κ} (k j : Option ℕ) (v : V) (m : List (Option ℕ × V))
    → get j (put k v m) ≡ (if same k j then some v else get j m)
get-put_optional k j v [] = ground arith
get-put_optional k j v ((i, w) ∷ m) =
    ground (arith, get-put_optional k j v m, same_iff i k, same_iff i j, same_iff k j)
