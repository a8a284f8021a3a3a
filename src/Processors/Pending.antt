-- ===== src/Processors/Pending.antt =====
-- Counting the calls of the message processor, and its map of waiting calls.
use mainsail.Prelude.{
  absurd_option, some_eq, ==-false, ==-eq, ℕ, ◌+◌, ◌≡◌, refl, sym, ◌∙◌, ap, subst, inl, inr, Bool,
  true, false, none, some, List, [], ◌∷◌, ◌++◌, arith, ◌==◌, if◌then◌else◌, Bool-cases,
}
use mainsail.Prelude.JsMap.{get, put, delete, number_key, get-put}
use mainsail.Processors.MessageProcessor.{MessageProcessor}

abbrev pub one : Bool → ℕ
one true = 1
one false = 0

module _ {A : Type 0} (measure : A → ℕ) where
  abbrev pub total : List A → ℕ
  total [] = 0
  total (x ∷ xs) = measure x + total xs

  pub total-append : (xs ys : List A) → total (xs ++ ys) ≡ total xs + total ys
  total-append [] ys = omega arith
  total-append (x ∷ xs) ys = omega (arith, total-append xs ys)

abbrev pub count : ℕ → List ℕ → ℕ
count id ids = total (λ i. one (i == id)) ids

-- How often a call was answered, waits for the worker, and waits for another call.
abbrev pub answered : ℕ → MessageProcessor → ℕ
answered id s = total (λ a. one (a.0 == id)) s.answers

abbrev pub verified : ℕ → MessageProcessor → ℕ
verified id s = total (λ c. one (c.id == id)) s.verifying

abbrev pub held : ℕ → List (ℕ × List ℕ) → ℕ
held id m = total (λ e. count id e.1) m

abbrev pub waits : ℕ → MessageProcessor → ℕ
waits id s = held id s.pending_messages

-- How many checks of a message run.
abbrev pub checks : ℕ → MessageProcessor → ℕ
checks serialized s = total (λ c. one (c.message.serialized == serialized)) s.verifying

abbrev pub IsKeyed : List (ℕ × List ℕ) → Type 0
IsKeyed [] = Unit
IsKeyed ((k, v) ∷ m) = (get k m ≡ none) × IsKeyed m

absent : (j k : ℕ) (m : List (ℕ × List ℕ)) → (j == k) ≡ true → get j m ≡ none → get k m ≡ none
absent j k m e h = subst (λ i. get i m ≡ none) (==-eq j k e) h

pub get-delete :
    (k j : ℕ) (m : List (ℕ × List ℕ)) → get j (delete k m) ≡ (if k == j then none else get j m)
get-delete k j [] = ground arith
get-delete k j ((i, w) ∷ m) = ground (arith, get-delete k j m)

pub IsKeyed-put : (k : ℕ) (v : List ℕ) (m : List (ℕ × List ℕ)) → IsKeyed m → IsKeyed (put k v m)
IsKeyed-put k v [] h = (refl, tt)
IsKeyed-put k v ((j, w) ∷ m) h = elim (Bool-cases (j == k)) [
  | inl e ↦ rw e h
  | inr e ↦ rw e (get-put k j v m ∙ rw (==-false k j e) h.0, IsKeyed-put k v m h.1)
]

pub IsKeyed-delete : (k : ℕ) (m : List (ℕ × List ℕ)) → IsKeyed m → IsKeyed (delete k m)
IsKeyed-delete k [] h = tt
IsKeyed-delete k ((j, w) ∷ m) h = elim (Bool-cases (j == k)) [
  | inl e ↦ rw e (IsKeyed-delete k m h.1)
  | inr e ↦ rw e (get-delete k j m ∙ rw (==-false k j e) h.0, IsKeyed-delete k m h.1)
]

pub held-put_new :
    (id k : ℕ) (v : List ℕ) (m : List (ℕ × List ℕ))
    → get k m ≡ none
    → held id (put k v m) ≡ held id m + count id v
held-put_new id k v [] h = omega arith
held-put_new id k v ((j, w) ∷ m) h = elim (Bool-cases (j == k)) [
  | inl e ↦ absurd (absurd_option (rw e at h))
  | inr e ↦ rw e (omega (arith, held-put_new id k v m (rw e at h)))
]

pub held-put :
    (id k : ℕ) (v : List ℕ) (m : List (ℕ × List ℕ)) {w : List ℕ}
    → get k m ≡ some w
    → held id (put k v m) + count id w ≡ held id m + count id v
held-put id k v [] h = absurd (absurd_option (sym h))
held-put id k v ((j, u) ∷ m) {w} h = elim (Bool-cases (j == k)) [
  | inl e ↦ rw e (
      subst (λ i. count id v + held id m + count id i ≡ count id u + held id m + count id v)
        (some_eq (rw e at h)) (omega arith))
  | inr e ↦ rw e (omega (arith, held-put id k v m (rw e at h)))
]

pub delete-absent : (k : ℕ) (m : List (ℕ × List ℕ)) → get k m ≡ none → delete k m ≡ m
delete-absent k [] h = refl
delete-absent k ((j, w) ∷ m) h = elim (Bool-cases (j == k)) [
  | inl e ↦ absurd (absurd_option (rw e at h))
  | inr e ↦ rw e (ap (λ i. (j, w) ∷ i) (delete-absent k m (rw e at h)))
]

pub held-delete :
    (id k : ℕ) (m : List (ℕ × List ℕ)) {w : List ℕ}
    → IsKeyed m
    → get k m ≡ some w
    → held id (delete k m) + count id w ≡ held id m
held-delete id k [] d h = absurd (absurd_option (sym h))
held-delete id k ((j, u) ∷ m) {w} d h = elim (Bool-cases (j == k)) [
  | inl e ↦
      rw (e, delete-absent k m (absent j k m e d.0))
        (subst (λ i. held id m + count id i ≡ count id u + held id m) (some_eq (rw e at h))
          (omega arith))
  | inr e ↦ rw e (omega (arith, held-delete id k m d.1 (rw e at h)))
]
