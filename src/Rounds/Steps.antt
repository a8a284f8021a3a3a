-- ===== src/Rounds/Steps.antt =====
-- A step of one height: whether a round ends with it.
use mainsail.Prelude.{
  ℕ, zero, suc, ◌+◌, ◌*◌, ◌/◌, ◌%◌, ◌≤◌, ◌<◌, ◌≡◌, refl, sym, ◌∙◌, true, false, Bool-cases, inl,
  inr, ==-refl, ==-eq, absurd_test, arith, if◌then◌else◌, ltb, ltb→lt,
}
use native.Mathlib.Nat.{
  div-add-mod, mul-add-div, mul-add-mod_self_left, mod-lt, mod-eq_of_lt, div-eq_of_lt,
}
use mainsail.Rounds.{divides}

-- A number is what its quotient and its remainder say, and no other.
quotient : (v q r : ℕ) → r < v → (v * q + r) / v ≡ q
quotient v q r h = mul-add-div (omega (arith, h)) q r ∙ omega (arith, div-eq_of_lt h)

remainder : (v q r : ℕ) → r < v → (v * q + r) % v ≡ r
remainder v q r h = mul-add-mod_self_left v q r ∙ mod-eq_of_lt h

module _ (v x : ℕ) where
  parts : suc v * (x / suc v) + x % suc v ≡ x
  parts = div-add-mod x (suc v)

  small : x % suc v < suc v
  small = mod-lt x (omega arith)

  inside : x % suc v + 1 < suc v → (divides (suc v) (x + 1) ≡ false) × ((x + 1) / suc v ≡ x / suc v)
  inside h =
      let next : x + 1 ≡ suc v * (x / suc v) + (x % suc v + 1) = omega (arith, parts) in
      rw next (
        let left : (suc v * (x / suc v) + (x % suc v + 1)) % suc v ≡ x % suc v + 1 =
              remainder (suc v) (x / suc v) (x % suc v + 1) h in
            ground (arith, left),
        quotient (suc v) (x / suc v) (x % suc v + 1) h,
      )

  at_end :
      x % suc v + 1 ≡ suc v → (divides (suc v) (x + 1) ≡ true) × ((x + 1) / suc v ≡ x / suc v + 1)
  at_end h =
      let next : x + 1 ≡ suc v * (x / suc v + 1) + 0 = grind (arith, parts, h) in
      rw next (
        ==-refl ((suc v * (x / suc v + 1) + 0) % suc v) 0
            (remainder (suc v) (x / suc v + 1) 0 (omega arith)),
        quotient (suc v) (x / suc v + 1) 0 (omega arith),
      )

  -- The quotient grows by one exactly where the next number is a multiple.
  pub quotient_step :
      (x + 1) / suc v ≡ (if divides (suc v) (x + 1) then x / suc v + 1 else x / suc v)
  quotient_step = elim (Bool-cases (ltb (x % suc v + 1) (suc v))) [
    | inl more ↦ let (test, value) = inside (ltb→lt (x % suc v + 1) (suc v) more) in rw test value
    | inr last ↦
        let full : x % suc v + 1 ≡ suc v = ground (arith, small, last) in
        let (test, value) = at_end full in rw test value
  ]

-- A multiple is divided, and its quotient is the other factor.
pub divides_lem :
    (validators heights : ℕ)
    → divides validators heights ≡ true
    → (0 < validators) × (heights ≡ validators * (heights / validators))
divides_lem zero heights h = absurd (absurd_test (sym h))
divides_lem (suc v) heights h =
    (omega arith, omega (arith, parts v heights, ==-eq (heights % suc v) 0 h))

pub exact_quotient :
    (v q x : ℕ) → x + 1 ≡ suc v * q → (divides (suc v) (x + 1) ≡ true) × (x / suc v + 1 ≡ q)
exact_quotient v q x e =
    let whole : x + 1 ≡ suc v * q + 0 = omega (arith, e) in
    let test : divides (suc v) (x + 1) ≡ true =
      rw whole (==-refl ((suc v * q + 0) % suc v) 0 (remainder (suc v) q 0 (omega arith))) in
    let value : (x + 1) / suc v ≡ q = rw whole (quotient (suc v) q 0 (omega arith)) in
    let step : (x + 1) / suc v ≡ x / suc v + 1 = quotient_step v x ∙ rw test refl in
    (test, sym step ∙ value)

pub quotient-le : (v x : ℕ) → (x / suc v * suc v ≤ x) × (x < x / suc v * suc v + suc v)
quotient-le v x = (grind (arith, parts v x), grind (arith, parts v x, small v x))

pub zero-quotient : (v : ℕ) → 0 / suc v ≡ 0
zero-quotient v = div-eq_of_lt {n = 0} {m = suc v} (omega arith)
