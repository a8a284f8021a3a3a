-- ===== src/Serializer/Taking.antt =====
-- What the readers of the serializer take off the buffer stands for what they give.
use mainsail.Prelude.{
  ℕ, zero, suc, ◌<◌, ◌^◌, ◌≡◌, refl, sym, ap, ◌∙◌, ◌++◌, Bool, inl, inr, List, [], ◌∷◌, length, All,
  arith, append_assoc, append-nil,
}
use mainsail.Prelude.Outcome.{Result, ok, err, and_then, ◌>>=◌}
use mainsail.ByteBuffer.{
  ByteBuffer, to_little_endian, get_remainder, read_uint32, read_uint8, read_uint64, read_bytes,
}
use mainsail.ByteBuffer.Reading.{Byte, Took, read_bytes-Took, read_number-Took}
use mainsail.ValidatorSet.{validator_set_pack, validator_set_unpack}
use mainsail.ValidatorSet.Laws.{unpack-cases}
use mainsail.Serializer.{Value, read_sized, read_transactions, read_validator_set, as_value}
use mainsail.Serializer.Encoding.{encode_sized, encode_transactions, encode_validator_set}

module _ {B : Type 0} (N : B → List ℕ → Type 0) where
  pub Took-prepend :
      (b later : ByteBuffer) (xs : List ℕ) (call : Result (B × ByteBuffer))
      → get_remainder b ≡ xs ++ get_remainder later
      → Took (λ c ys. N c (xs ++ ys)) later call
      → Took N b call
  Took-prepend b later xs (err e) joined h = tt
  Took-prepend b later xs (ok (c, last)) joined (ys, more, means, plain) = (
    xs ++ ys,
    joined ∙ ap (λ rest. xs ++ rest) more ∙ sym (append_assoc xs ys (get_remainder last)),
    means,
    plain,
  )

  pub Took-and_then :
      {A : Type 0} (M : A → List ℕ → Type 0) (next : A × ByteBuffer → Result (B × ByteBuffer))
      (b : ByteBuffer) (call : Result (A × ByteBuffer))
      → Took M b call
      → ((a : A) (xs : List ℕ) (later : ByteBuffer)
          → M a xs
          → All Byte (get_remainder later)
          → Took (λ c ys. N c (xs ++ ys)) later (next (a, later)))
      → Took N b (and_then next call)
  Took-and_then M next b (err e) h goes_on = tt
  Took-and_then M next b (ok (a, later)) (xs, joined, means, plain) goes_on =
      Took-prepend b later xs (next (a, later)) joined (goes_on a xs later means plain)

  pub Took-imp :
      (M : B → List ℕ → Type 0) (b : ByteBuffer) (call : Result (B × ByteBuffer))
      → ((c : B) (xs : List ℕ) → M c xs → N c xs)
      → Took M b call
      → Took N b call
  Took-imp M b (err e) f h = tt
  Took-imp M b (ok (c, later)) f (xs, joined, means, plain) = (xs, joined, f c xs means, plain)

pub Took-as_value :
    {A : Type 0} (N : Value → List ℕ → Type 0) (M : A → List ℕ → Type 0) (wrap : A → Value)
    (b : ByteBuffer) (call : Result (A × ByteBuffer))
    → ((a : A) (xs : List ℕ) → M a xs → N (wrap a) xs)
    → Took M b call
    → Took N b (as_value wrap call)
Took-as_value N M wrap b (err e) f h = tt
Took-as_value N M wrap b (ok (a, later)) f (xs, joined, means, plain) =
    (xs, joined, f a xs means, plain)

-- Nothing was taken.
pub Took-nil :
    {A : Type 0} (N : A → List ℕ → Type 0) (a : A) (b : ByteBuffer)
    → N a []
    → All Byte (get_remainder b)
    → Took N b (ok (a, b))
Took-nil N a b means plain = ([], refl, means, plain)

abbrev pub IsSized : List ℕ → List ℕ → Type 0
IsSized value bytes = (bytes ≡ encode_sized value) × (length value < 2 ^ 32)

pub read_sized-Took : (b : ByteBuffer) → All Byte (get_remainder b) → Took IsSized b (read_sized b)
unfolding read_sized
read_sized-Took b plain =
    Took-and_then IsSized (λ count xs. (xs ≡ to_little_endian 4 count) × (count < 256 ^ 4))
      (λ (count, rest). read_bytes count rest) b (read_uint32 b) (read_number-Took b 4 plain)
      (λ count xs later means left.
        Took-imp (λ value ys. IsSized value (xs ++ ys))
          (λ value ys. (ys ≡ value) × (length value ≡ count) × All Byte value) later
          (read_bytes count later)
          (λ value ys h. (rw (means.0, h.0, sym h.1) refl, omega (arith, h.1, means.1)))
          (read_bytes-Took later count left))

abbrev pub AreTransactions : List (List ℕ) → List ℕ → Type 0
AreTransactions value bytes =
    (bytes ≡ encode_transactions value) × All (λ serialized. length serialized < 2 ^ 32) value

pub read_transactions-Took :
    (count : ℕ) (b : ByteBuffer)
    → All Byte (get_remainder b)
    → Took AreTransactions b (read_transactions count b)
unfolding read_transactions
read_transactions-Took zero b plain = Took-nil AreTransactions [] b (refl, tt) plain
read_transactions-Took (suc count) b plain =
    Took-and_then AreTransactions IsSized
      (λ (serialized, next).
        read_transactions count next >>= (λ (others, rest). ok (serialized ∷ others, rest)))
      b (read_sized b) (read_sized-Took b plain)
      (λ serialized xs next sized left.
        Took-and_then (λ value ys. AreTransactions value (xs ++ ys)) AreTransactions
          (λ (others, rest). ok (serialized ∷ others, rest)) next (read_transactions count next)
          (read_transactions-Took count next left)
          (λ others ys rest more end.
            Took-nil (λ value zs. AreTransactions value (xs ++ (ys ++ zs))) (serialized ∷ others)
              rest (rw (append-nil, sized.0, more.0) refl, (sized.1, more.1)) end))

abbrev pub IsValidatorSet : List Bool → List ℕ → Type 0
IsValidatorSet value bytes =
    (bytes ≡ encode_validator_set value)
    × (length value < 2 ^ 8)
    × (validator_set_pack value < 2 ^ 64)

unpacked-Took :
    (packed count : ℕ) (xs ys : List ℕ) (b : ByteBuffer)
    → All Byte (get_remainder b)
    → (xs ≡ to_little_endian 1 count) × (count < 256 ^ 1)
    → (ys ≡ to_little_endian 8 packed) × (packed < 256 ^ 8)
    → Took
        (λ value zs. IsValidatorSet value (xs ++ (ys ++ zs)))
        b
        (validator_set_unpack packed count >>= (λ set. ok (set, b)))
unpacked-Took packed count xs ys b plain counted held = elim (unpack-cases packed count) [
  | inl (set, unpacked, packs, long, small) ↦ rw unpacked (
      Took-nil (λ value zs. IsValidatorSet value (xs ++ (ys ++ zs))) set b
        (
          rw (append-nil, counted.0, held.0, packs, long) refl,
          omega (arith, long, counted.1),
          omega (arith, packs, held.1),
        )
        plain)
  | inr (refused, large) ↦ rw refused tt
]

pub read_validator_set-Took :
    (b : ByteBuffer) → All Byte (get_remainder b) → Took IsValidatorSet b (read_validator_set b)
unfolding read_validator_set
read_validator_set-Took b plain =
    Took-and_then IsValidatorSet (λ count xs. (xs ≡ to_little_endian 1 count) × (count < 256 ^ 1))
      (λ (count, next).
        read_uint64 next
        >>= (λ (packed, rest). validator_set_unpack packed count >>= (λ set. ok (set, rest))))
      b (read_uint8 b) (read_number-Took b 1 plain)
      (λ count xs next counted left.
        Took-and_then (λ value ys. IsValidatorSet value (xs ++ ys))
          (λ packed ys. (ys ≡ to_little_endian 8 packed) × (packed < 256 ^ 8))
          (λ (packed, rest). validator_set_unpack packed count >>= (λ set. ok (set, rest))) next
          (read_uint64 next) (read_number-Took next 8 left)
          (λ packed ys rest held end. unpacked-Took packed count xs ys rest end counted held))
