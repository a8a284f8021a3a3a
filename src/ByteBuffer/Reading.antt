-- ===== src/ByteBuffer/Reading.antt =====
-- What a read does, by what is left to read: it gives what the next bytes stand for and goes past them.
use mainsail.Prelude.{
  ℕ, suc, ◌+◌, ◌-◌, ◌^◌, ◌≤◌, ◌<◌, ◌≡◌, refl, sym, ap, ◌∙◌, subst, true, false, List, ◌++◌, length,
  take, drop, length-append, length-take, length-drop, take-append, drop-append, drop-add,
  append-take-drop, All, All-append_right, All-append_left, Bool-cases, ltb, leb, inl, inr, arith,
}
use mainsail.Prelude.Outcome.{Result, ok, err, and_then}
use mainsail.ByteBuffer.{
  ByteBuffer, get_remainder, get_remainder_length, read_number, read_bytes, to_little_endian,
  from_little_endian,
}
use mainsail.ByteBuffer.Digits.{
  length-to_little_endian, from_little_endian-to_little_endian, to_little_endian-from_little_endian,
  from_little_endian-lt,
}

abbrev pub Byte : ℕ → Type 0
Byte byte = byte < 256

-- The call gave this value and left these bytes.
abbrev pub Reads : {A : Type 0} → A → List ℕ → Result (A × ByteBuffer) → Type 0
Reads value left (err e) = ⊥
Reads value left (ok (found, b)) = (found ≡ value) × (get_remainder b ≡ left)

-- A call that returned took some bytes off what was left, and they stand for the value.
abbrev pub Took :
    {A : Type 0} → (A → List ℕ → Type 0) → ByteBuffer → Result (A × ByteBuffer) → Type 0
Took Means b (err e) = Unit {0}
Took Means b (ok (found, later)) =
    (bytes : List ℕ) × (get_remainder b ≡ bytes ++ get_remainder later)
    × Means found bytes
    × All Byte (get_remainder later)

pub Reads-ok :
    {A : Type 0} (value : A) (left : List ℕ) (call : Result (A × ByteBuffer))
    → Reads value left call
    → (b : ByteBuffer) × (call ≡ ok (value, b)) × (get_remainder b ≡ left)
Reads-ok value left (err e) h = elim h [ ]
Reads-ok value left (ok (found, b)) h = (b, ap (λ given. ok (given, b)) h.0, h.1)

pub Reads-and_then :
    {A B : Type 0} (a : A) (c : B) (left rest : List ℕ)
    (next : A × ByteBuffer → Result (B × ByteBuffer)) (call : Result (A × ByteBuffer))
    → Reads a left call
    → ((b : ByteBuffer) → get_remainder b ≡ left → Reads c rest (next (a, b)))
    → Reads c rest (and_then next call)
Reads-and_then a c left rest next (err e) h goes_on = elim h [ ]
Reads-and_then a c left rest next (ok (found, b)) h goes_on = rw h.0 (goes_on b h.1)

module _ (b : ByteBuffer) (xs rest : List ℕ) (e : get_remainder b ≡ xs ++ rest) where
  room : length b.buffer - b.offset ≡ length xs + length rest
  room = omega (arith, length-drop b.offset b.buffer, ap length e, length-append xs rest)

  left_after : (n : ℕ) → n ≡ length xs → drop (b.offset + n) b.buffer ≡ rest
  left_after n count = drop-add b.offset n b.buffer ∙ ap (drop n) e ∙ drop-append n xs rest count

  next_taken : (n : ℕ) → n ≡ length xs → take n (get_remainder b) ≡ xs
  next_taken n count = ap (take n) e ∙ take-append n xs rest count

  pub read_bytes-Reads : (n : ℕ) → n ≡ length xs → Reads xs rest (read_bytes n b)
  unfolding read_bytes
  read_bytes-Reads n count =
      let fits : ltb (get_remainder_length b) n ≡ false = grind (arith, room, count) in
      rw fits (next_taken n count, left_after n count)

module _ (b : ByteBuffer) (rest : List ℕ) where
  pub read_number-Reads :
      (size value : ℕ)
      → value < 256 ^ suc size
      → get_remainder b ≡ to_little_endian (suc size) value ++ rest
      → Reads value rest (read_number (suc size) b)
  unfolding read_number
  read_number-Reads size value h e =
      let count : length (to_little_endian (suc size) value) ≡ suc size =
        length-to_little_endian (suc size) value in
      let fits : leb (b.offset + suc size) (length b.buffer) ≡ true =
        grind (arith, count, room b (to_little_endian (suc size) value) rest e) in
      rw fits (
        ap from_little_endian
              (next_taken b (to_little_endian (suc size) value) rest e (suc size) (sym count))
            ∙ from_little_endian-to_little_endian (suc size) value h,
        left_after b (to_little_endian (suc size) value) rest e (suc size) (sym count),
      )

module _ (b : ByteBuffer) (n : ℕ) (plain : All Byte (get_remainder b)) where
  cut : get_remainder b ≡ take n (get_remainder b) ++ drop (b.offset + n) b.buffer
  cut =
      sym (append-take-drop n (get_remainder b))
      ∙ ap (λ rest. take n (get_remainder b) ++ rest) (sym (drop-add b.offset n b.buffer))

  plain_cut : All Byte (take n (get_remainder b) ++ drop (b.offset + n) b.buffer)
  plain_cut = subst (All Byte) cut plain

  plain_taken : All Byte (take n (get_remainder b))
  plain_taken =
      All-append_left Byte (take n (get_remainder b)) (drop (b.offset + n) b.buffer) plain_cut

  plain_left : All Byte (drop (b.offset + n) b.buffer)
  plain_left =
      All-append_right Byte (take n (get_remainder b)) (drop (b.offset + n) b.buffer) plain_cut

  enough : n ≤ length b.buffer - b.offset → length (take n (get_remainder b)) ≡ n
  enough h = length-take n (get_remainder b) (omega (arith, h, length-drop b.offset b.buffer))

  pub read_bytes-Took :
      Took (λ value bytes. (bytes ≡ value) × (length value ≡ n) × All Byte value) b (read_bytes n b)
  unfolding read_bytes
  read_bytes-Took = elim (Bool-cases (ltb (get_remainder_length b) n)) [
    | inl over ↦ rw over tt
    | inr fits ↦
        rw fits
          (take n (get_remainder b), cut, (refl, enough (ground arith), plain_taken), plain_left)
  ]

  pub read_number-Took :
      Took
        (λ value bytes. (bytes ≡ to_little_endian n value) × (value < 256 ^ n))
        b
        (read_number n b)
  unfolding read_number
  read_number-Took = elim (Bool-cases (leb (b.offset + n) (length b.buffer))) [
    | inr over ↦ rw over tt
    | inl fits ↦
        let count : length (take n (get_remainder b)) ≡ n = enough (ground arith) in
        rw fits (
          take n (get_remainder b),
          cut,
          (
            subst
                (λ size.
                  take n (get_remainder b)
                  ≡ to_little_endian size (from_little_endian (take n (get_remainder b))))
                count
                (sym (to_little_endian-from_little_endian (take n (get_remainder b)) plain_taken)),
            subst (λ size. from_little_endian (take n (get_remainder b)) < 256 ^ size) count
                (from_little_endian-lt (take n (get_remainder b)) plain_taken),
          ),
          plain_left,
        )
  ]
