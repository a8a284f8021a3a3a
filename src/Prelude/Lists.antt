-- ===== src/Prelude/Lists.antt =====
-- Lists measured by native numbers, insertion-ordered maps, and Boolean arrays.
use Prim.Native.Nat.{ℕ, zero, suc, ◌+◌, ◌-◌, ◌≤◌, ◌<◌}
use mathlib.Core.Path.{◌≡◌, refl, sym, ap, ◌∙◌, subst}
use mathlib.Core.Bool.{Bool, true, false, ◌||◌}
use mathlib.Core.List.{List, [], ◌∷◌, ◌++◌}
use mathlib.Core.Option.{Option, none, some}
use mathlib.Core.Logic.{inl, inr}
use native.Mathlib.Omega.{arith}
use mainsail.Prelude.Tests.{absurd_option, some_eq, Bool-cases, ◌==◌, if◌then◌else◌}

module _ {ℓ} {A : Type ℓ} where
  abbrev pub length : List A → ℕ
  length [] = 0
  length (x ∷ xs) = suc (length xs)

  abbrev pub get_elem? : List A → ℕ → Option A
  get_elem? [] i = none
  get_elem? (x ∷ xs) zero = some x
  get_elem? (x ∷ xs) (suc i) = get_elem? xs i

  pub length-append : (xs ys : List A) → length (xs ++ ys) ≡ length xs + length ys
  length-append [] ys = omega arith
  length-append (x ∷ xs) ys = omega (arith, length-append xs ys)

  abbrev pub replicate : ℕ → A → List A
  replicate zero a = []
  replicate (suc n) a = a ∷ replicate n a

  abbrev pub take : ℕ → List A → List A
  take zero xs = []
  take (suc n) [] = []
  take (suc n) (x ∷ xs) = x ∷ take n xs

  abbrev pub drop : ℕ → List A → List A
  drop zero xs = xs
  drop (suc n) [] = []
  drop (suc n) (x ∷ xs) = drop n xs

  abbrev pub any : (A → Bool) → List A → Bool
  any p [] = false
  any p (x ∷ xs) = p x || any p xs

  abbrev pub filter : (A → Bool) → List A → List A
  filter p [] = []
  filter p (x ∷ xs) = let rest = filter p xs in if p x then x ∷ rest else rest

  -- What `Array.prototype.find` returns.
  abbrev pub find : (A → Bool) → List A → Option A
  find p [] = none
  find p (x ∷ xs) = let rest = find p xs in if p x then some x else rest

  abbrev pub All {κ} : (A → Type κ) → List A → Type κ
  All P [] = Unit
  All P (x ∷ xs) = P x × All P xs

  pub All-imp {κ μ} :
      {P : A → Type κ} {Q : A → Type μ}
      → ((a : A) → P a → Q a)
      → (xs : List A) → All P xs
      → All Q xs
  All-imp f [] h = tt
  All-imp f (x ∷ xs) h = (f x h.0, All-imp f xs h.1)

  pub All-append {κ} : (P : A → Type κ) (xs ys : List A) → All P xs → All P ys → All P (xs ++ ys)
  All-append P [] ys h k = k
  All-append P (x ∷ xs) ys h k = (h.0, All-append P xs ys h.1 k)

  pub All-append_left {κ} : (P : A → Type κ) (xs ys : List A) → All P (xs ++ ys) → All P xs
  All-append_left P [] ys h = tt
  All-append_left P (x ∷ xs) ys h = (h.0, All-append_left P xs ys h.1)

  pub All-append_right {κ} : (P : A → Type κ) (xs ys : List A) → All P (xs ++ ys) → All P ys
  All-append_right P [] ys h = h
  All-append_right P (x ∷ xs) ys h = All-append_right P xs ys h.1

-- How many entries of a Boolean array are true.
abbrev pub trues : List Bool → ℕ
trues [] = 0
trues (true ∷ bs) = suc (trues bs)
trues (false ∷ bs) = trues bs

-- Reading a Boolean array out of bounds gives `undefined`, which tests as false.
abbrev pub bit : List Bool → ℕ → Bool
bit [] i = false
bit (b ∷ bs) zero = b
bit (b ∷ bs) (suc i) = bit bs i

-- `array[i] = true`: a write beyond the end makes the array longer, and the holes test as false.
abbrev pub set_bit : List Bool → ℕ → List Bool
set_bit [] zero = true ∷ []
set_bit [] (suc i) = false ∷ set_bit [] i
set_bit (b ∷ bs) zero = true ∷ bs
set_bit (b ∷ bs) (suc i) = b ∷ set_bit bs i

pub length-set_bit : (bs : List Bool) (i : ℕ) → i < length bs → length (set_bit bs i) ≡ length bs
length-set_bit [] i h = elim h [ ]
length-set_bit (b ∷ bs) zero h = refl
length-set_bit (b ∷ bs) (suc i) h = omega (arith, length-set_bit bs i (omega arith))

pub trues-set_bit :
    (bs : List Bool) (i : ℕ) → bit bs i ≡ false → trues (set_bit bs i) ≡ suc (trues bs)
trues-set_bit [] zero h = refl
trues-set_bit [] (suc i) h = trues-set_bit [] i refl
trues-set_bit (true ∷ bs) zero h = ground arith
trues-set_bit (false ∷ bs) zero h = refl
trues-set_bit (true ∷ bs) (suc i) h = omega (arith, trues-set_bit bs i h)
trues-set_bit (false ∷ bs) (suc i) h = trues-set_bit bs i h

pub bit-set_bit : (bs : List Bool) (i j : ℕ) → bit (set_bit bs i) j ≡ (i == j) || bit bs j
bit-set_bit [] zero zero = ground arith
bit-set_bit [] zero (suc j) = ground arith
bit-set_bit [] (suc i) zero = ground arith
bit-set_bit [] (suc i) (suc j) = ground (arith, bit-set_bit [] i j)
bit-set_bit (b ∷ bs) zero zero = ground arith
bit-set_bit (b ∷ bs) zero (suc j) = ground arith
bit-set_bit (b ∷ bs) (suc i) zero = ground arith
bit-set_bit (b ∷ bs) (suc i) (suc j) = ground (arith, bit-set_bit bs i j)

pub trues-le-length : (bs : List Bool) → trues bs ≤ length bs
trues-le-length [] = omega arith
trues-le-length (true ∷ bs) = omega (arith, trues-le-length bs)
trues-le-length (false ∷ bs) = omega (arith, trues-le-length bs)

pub trues-replicate : (n : ℕ) → trues (replicate n false) ≡ 0
trues-replicate zero = refl
trues-replicate (suc n) = trues-replicate n

pub bit-replicate : (n i : ℕ) → bit (replicate n false) i ≡ false
bit-replicate zero i = refl
bit-replicate (suc n) zero = refl
bit-replicate (suc n) (suc i) = bit-replicate n i

pub length-replicate {ℓ} : {A : Type ℓ} (n : ℕ) (a : A) → length (replicate n a) ≡ n
length-replicate zero a = refl
length-replicate (suc n) a = omega (arith, length-replicate n a)

-- Cutting a list in two.
module _ {ℓ} {A : Type ℓ} where
  pub length-drop : (n : ℕ) (xs : List A) → length (drop n xs) ≡ length xs - n
  length-drop zero xs = omega arith
  length-drop (suc n) [] = omega arith
  length-drop (suc n) (x ∷ xs) = omega (arith, length-drop n xs)

  pub length-take : (n : ℕ) (xs : List A) → n ≤ length xs → length (take n xs) ≡ n
  length-take zero xs h = refl
  length-take (suc n) [] h = absurd (omega arith)
  length-take (suc n) (x ∷ xs) h = omega (arith, length-take n xs (omega arith))

  pub append-take-drop : (n : ℕ) (xs : List A) → take n xs ++ drop n xs ≡ xs
  append-take-drop zero xs = refl
  append-take-drop (suc n) [] = refl
  append-take-drop (suc n) (x ∷ xs) = ap (λ ys. x ∷ ys) (append-take-drop n xs)

  pub take-append : (n : ℕ) (xs ys : List A) → n ≡ length xs → take n (xs ++ ys) ≡ xs
  take-append zero [] ys e = refl
  take-append zero (x ∷ xs) ys e = absurd (omega arith)
  take-append (suc n) [] ys e = absurd (omega arith)
  take-append (suc n) (x ∷ xs) ys e = ap (λ zs. x ∷ zs) (take-append n xs ys (omega arith))

  pub drop-append : (n : ℕ) (xs ys : List A) → n ≡ length xs → drop n (xs ++ ys) ≡ ys
  drop-append zero [] ys e = refl
  drop-append zero (x ∷ xs) ys e = absurd (omega arith)
  drop-append (suc n) [] ys e = absurd (omega arith)
  drop-append (suc n) (x ∷ xs) ys e = drop-append n xs ys (omega arith)

  drop-nil : (n : ℕ) → drop {A = A} n [] ≡ []
  drop-nil zero = refl
  drop-nil (suc n) = refl

  pub drop-add : (m n : ℕ) (xs : List A) → drop (m + n) xs ≡ drop n (drop m xs)
  drop-add zero n xs = let e : 0 + n ≡ n = omega arith in rw e
  drop-add (suc m) n [] = drop-nil (suc m + n) ∙ sym (drop-nil n)
  drop-add (suc m) n (x ∷ xs) =
      let e : suc m + n ≡ suc (m + n) = omega arith in rw e (drop-add m n xs)

pub take-replicate {ℓ} :
    {A : Type ℓ} (n size : ℕ) (a : A) → n ≤ size → take n (replicate size a) ≡ replicate n a
take-replicate zero size a h = refl
take-replicate (suc n) zero a h = absurd (omega arith)
take-replicate (suc n) (suc size) a h =
    ap (λ rest. a ∷ rest) (take-replicate n size a (omega arith))

-- Reading a list inside of it.
module _ {ℓ} {A : Type ℓ} where
  pub get_elem-defined : (xs : List A) (i : ℕ) → i < length xs → (x : A) × (get_elem? xs i ≡ some x)
  get_elem-defined [] i h = absurd (omega (arith, h))
  get_elem-defined (x ∷ xs) zero h = (x, refl)
  get_elem-defined (x ∷ xs) (suc i) h = get_elem-defined xs i (omega (arith, h))

  pub All-get_elem {κ} :
      (P : A → Type κ) (xs : List A) (i : ℕ) (x : A) → All P xs → get_elem? xs i ≡ some x → P x
  All-get_elem P [] i x h e = absurd (absurd_option (sym e))
  All-get_elem P (y ∷ ys) zero x h e = subst P (some_eq e) h.0
  All-get_elem P (y ∷ ys) (suc i) x h e = All-get_elem P ys i x h.1 e

pub find-true {ℓ} :
    {A : Type ℓ} (test : A → Bool) (xs : List A) {x : A} → find test xs ≡ some x → test x ≡ true
find-true test [] h = absurd (absurd_option (sym h))
find-true test (y ∷ ys) h = elim (Bool-cases (test y)) [
  | inl holds ↦ subst (λ found. test found ≡ true) (some_eq (rw holds at h)) holds
  | inr fails ↦ find-true test ys (rw fails at h)
]
