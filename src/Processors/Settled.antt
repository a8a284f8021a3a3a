-- ===== src/Processors/Settled.antt =====
-- Each step of the message processor keeps the count of a call and the count of the checks of a message.
use mainsail.Prelude.{
  absurd_option, some_eq, ==-eq, ℕ, ◌+◌, ◌≤◌, ◌≡◌, refl, sym, ◌∙◌, ap, subst, inl, inr, Bool, true,
  false, Option, none, some, List, [], ◌∷◌, ◌++◌, arith, ◌==◌, is_some, Bool-cases, Option-cases,
}
use mainsail.Prelude.JsMap.{get, put, delete, number_key, get-put, has}
use mainsail.Prelude.Outcome.{Result-cases}
use mainsail.RoundState.{RoundEnv}
use mainsail.RoundState.Messages.{has_message, add_message}
use mainsail.Consensus.State.{get_or_create}
use mainsail.Processors.{
  skipped, invalid, Position, is_round_ahead_of_time, has_valid_block_number_and_round,
}
use mainsail.Processors.MessageProcessor.{
  Call, Answer, returned, thrown, MessageProcessor, answer, answer_all, signature_check,
  check_duplicate, process_message, settle_pending_messages, accept_message, Verdict, good, bad,
  failed, take_call, put_back, finish_message, resume_message,
}
use mainsail.Processors.Pending.{
  one, total, total-append, count, answered, verified, waits, checks, IsKeyed, IsKeyed-put,
  IsKeyed-delete, held-put, held-put_new, held-delete, get-delete, delete-absent,
}

total-answer_all :
    (id : ℕ) (a : Answer) (ids : List ℕ)
    → total (λ e. one (e.0 == id)) (answer_all a ids) ≡ count id ids
total-answer_all id a [] = refl
total-answer_all id a (i ∷ ids) = omega (arith, total-answer_all id a ids)

put_back-inv :
    (c : Call) (rest : Option (Call × List Call)) {found : Call × List Call}
    → put_back c rest ≡ some found
    → (d : Call) × (ds : List Call) × (rest ≡ some (d, ds)) × ((d, c ∷ ds) ≡ found)
put_back-inv c none e = absurd (absurd_option (sym e))
put_back-inv c (some (d, ds)) e = (d, ds, refl, some_eq e)

total-take_call :
    (f : Call → ℕ) (id : ℕ) (cs : List Call) {c : Call} {others : List Call}
    → take_call id cs ≡ some (c, others)
    → total f cs ≡ f c + total f others
total-take_call f id [] e = absurd (absurd_option (sym e))
total-take_call f id (x ∷ xs) {c} {others} e = elim (Bool-cases (x.id == id)) [
  | inl h ↦
      subst (λ r. f x + total f xs ≡ f r.0 + total f r.1)
        (let e' : some (x, xs) ≡ some (c, others) = rw h at e in some_eq e') refl
  | inr h ↦
      let (d, ds, found, same) = put_back-inv x (take_call id xs) (rw h at e) in
      subst (λ r. f x + total f xs ≡ f r.0 + total f r.1) same
        (omega (arith, total-take_call f id xs found))
]

has-put_old :
    (key k : ℕ) (v : List ℕ) (m : List (ℕ × List ℕ)) {w : List ℕ}
    → get key m ≡ some w
    → has k (put key v m) ≡ has k m
has-put_old key k v m {w} e = elim (Bool-cases (key == k)) [
  | inl same ↦
      ap is_some (get-put key k v m) ∙ rw (same, subst (λ i. get i m ≡ some w) (==-eq key k same) e)
  | inr other ↦ ap is_some (get-put key k v m) ∙ rw other
]

zero_left : (n : ℕ) → 0 + n ≡ n
zero_left n = omega arith

at_most_one : (b : Bool) → one b ≤ 1
at_most_one true = omega arith
at_most_one false = omega arith

has-put_new :
    (key k : ℕ) (m : List (ℕ × List ℕ))
    → get key m ≡ none
    → one (has k (put key [] m)) ≡ one (key == k) + one (has k m)
has-put_new key k m e = elim (Bool-cases (key == k)) [
  | inl same ↦
      ap (λ o. one (is_some o)) (get-put key k [] m)
      ∙ rw (same, subst (λ i. get i m ≡ none) (==-eq key k same) e)
  | inr other ↦
      ap (λ o. one (is_some o)) (get-put key k [] m) ∙ rw other (sym (zero_left (one (has k m))))
]

has-delete :
    (key k : ℕ) (m : List (ℕ × List ℕ)) (n : ℕ)
    → n + one (key == k) ≡ one (has k m)
    → n ≡ one (has k (delete key m))
has-delete key k m n e = elim (Bool-cases (key == k)) [
  | inl same ↦
      let none_left : one (has k (delete key m)) ≡ 0 =
        ap (λ o. one (is_some o)) (get-delete key k m) ∙ rw same in
      omega (arith, none_left, ap one same, at_most_one (has k m))
  | inr other ↦
      let as_before : one (has k (delete key m)) ≡ one (has k m) =
        ap (λ o. one (is_some o)) (get-delete key k m) ∙ rw other in
      omega (arith, as_before, ap one other)
]

module _ (id k : ℕ) where
  -- For the call `id` and the message `k`.
  abbrev pub IsSettled : ℕ → MessageProcessor → Type 0
  IsSettled n s =
      IsKeyed s.pending_messages
      × (answered id s + verified id s + waits id s ≡ n)
      × (checks k s ≡ one (has k s.pending_messages))

  answer-IsSettled :
      (n i : ℕ) (a : Answer) (s : MessageProcessor)
      → IsSettled n s
      → IsSettled (one (i == id) + n) (answer i a s)
  answer-IsSettled n i a s h = (h.0, omega (arith, h.1), h.2)

  signature_check-IsSettled :
      (n : ℕ) (call : Call) (s : MessageProcessor)
      → IsSettled n s
      → IsSettled (one (call.id == id) + n) (signature_check call s)
  unfolding signature_check
  signature_check-IsSettled n call s (keyed, sum, single) =
      let key = call.message.serialized in
      elim (Option-cases (get key s.pending_messages)) [
        | inr (waiting, e) ↦
            rw (e, signature_check)
              (
                IsKeyed-put key (waiting ++ call.id ∷ []) s.pending_messages keyed,
                omega (
                  arith,
                  sum,
                  held-put id key (waiting ++ call.id ∷ []) s.pending_messages e,
                  total-append (λ i. one (i == id)) waiting (call.id ∷ []),
                ),
                single
                    ∙ ap one
                        (sym (has-put_old key k (waiting ++ call.id ∷ []) s.pending_messages e)),
              )
        | inl e ↦
            rw (e, signature_check)
              (
                IsKeyed-put key [] s.pending_messages keyed,
                omega (arith, sum, held-put_new id key [] s.pending_messages e),
                omega (arith, single, has-put_new key k s.pending_messages e),
              )
      ]

  -- The waiting copies are answered; one check of the key has ended.
  settle_pending_messages-IsSettled :
      (n key : ℕ) (a : Answer) (s : MessageProcessor)
      → IsKeyed s.pending_messages
      → answered id s + verified id s + waits id s ≡ n
      → checks k s + one (key == k) ≡ one (has k s.pending_messages)
      → IsSettled n (settle_pending_messages key a s)
  unfolding settle_pending_messages
  settle_pending_messages-IsSettled n key a s keyed sum single =
      elim (Option-cases (get key s.pending_messages)) [
        | inl e ↦
            rw (e, settle_pending_messages)
              (
                keyed,
                sum,
                subst (λ m. checks k s ≡ one (has k m)) (delete-absent key s.pending_messages e)
                    (has-delete key k s.pending_messages (checks k s) single),
              )
        | inr (waiting, e) ↦
            rw (e, settle_pending_messages)
              (
                IsKeyed-delete key s.pending_messages keyed,
                omega (
                  arith,
                  sum,
                  held-delete id key s.pending_messages keyed e,
                  total-append (λ b. one (b.0 == id)) (answer_all a waiting) s.answers,
                  total-answer_all id a waiting,
                ),
                has-delete key k s.pending_messages _ single,
              )
      ]

  accept_message-IsSettled :
      (env : RoundEnv) (n : ℕ) (call : Call) (s : MessageProcessor)
      → IsSettled n s
      → IsSettled (one (call.id == id) + n) (accept_message env call s)
  unfolding accept_message
  accept_message-IsSettled env n call s h =
      let m = call.message in
      let rs = (get_or_create env m.block_number m.round s.rounds).0 in
      elim (Bool-cases (has_message m rs)) [
        | inl e ↦ rw (e, accept_message) (answer-IsSettled n call.id (returned skipped) s h)
        | inr e ↦ elim (Result-cases (add_message m rs)) [
          | inl (added, e') ↦ rw (e, e', accept_message) (h.0, omega (arith, h.1), h.2)
          | inr (x, e') ↦ rw (e, e', accept_message) (answer-IsSettled n call.id (thrown x) s h)
        ]
      ]

  finish_message-IsSettled :
      (env : RoundEnv) (n : ℕ) (call : Call) (verdict : Verdict) (s : MessageProcessor)
      → IsKeyed s.pending_messages
      → answered id s + verified id s + waits id s ≡ n
      → checks k s + one (call.message.serialized == k) ≡ one (has k s.pending_messages)
      → IsSettled (one (call.id == id) + n) (finish_message env call verdict s)
  unfolding finish_message
  finish_message-IsSettled env n call good s a b c =
      accept_message-IsSettled env n call _
        (settle_pending_messages-IsSettled n call.message.serialized (returned skipped) s a b c)
  finish_message-IsSettled env n call bad s a b c =
      answer-IsSettled n call.id (returned invalid)
        (settle_pending_messages call.message.serialized (returned invalid) s)
        (settle_pending_messages-IsSettled n call.message.serialized (returned invalid) s a b c)
  finish_message-IsSettled env n call (failed e) s a b c =
      answer-IsSettled n call.id (thrown e)
        (settle_pending_messages call.message.serialized (thrown e) s)
        (settle_pending_messages-IsSettled n call.message.serialized (thrown e) s a b c)

  pub resume_message-IsSettled :
      (env : RoundEnv) (n i : ℕ) (verdict : Verdict) (s : MessageProcessor)
      → IsSettled n s
      → IsSettled n (resume_message env i verdict s)
  unfolding resume_message
  resume_message-IsSettled env n i verdict s h = elim (Option-cases (take_call i s.verifying)) [
    | inl e ↦ rw (e, resume_message) h
    | inr ((call, others), e) ↦
        let s' : MessageProcessor = record s { verifying = others } in
        let (keyed, sum, single) =
          finish_message-IsSettled env (answered id s + verified id s' + waits id s) call verdict s'
            h.0 refl
            (omega (
              arith,
              h.2,
              total-take_call (λ c. one (c.message.serialized == k)) i s.verifying e,
            )) in
        rw (e, resume_message)
          (
            keyed,
            omega (arith, sum, h.1, total-take_call (λ c. one (c.id == id)) i s.verifying e),
            single,
          )
  ]

  check_duplicate-IsSettled :
      (env : RoundEnv) (n : ℕ) (call : Call) (s : MessageProcessor)
      → IsSettled n s
      → IsSettled (one (call.id == id) + n) (check_duplicate env call s)
  unfolding check_duplicate
  check_duplicate-IsSettled env n call s h =
      let m = call.message in
      let found = get_or_create env m.block_number m.round s.rounds in
      elim (Bool-cases (has_message m found.0)) [
        | inl e ↦
            rw (e, check_duplicate)
              (answer-IsSettled n call.id (returned skipped) (record s { rounds = found.1 }) h)
        | inr e ↦
            rw (e, check_duplicate)
              (signature_check-IsSettled n call (record s { rounds = found.1 }) h)
      ]

  pub process_message-IsSettled :
      (env : RoundEnv) (at : Position) (n : ℕ) (call : Call) (s : MessageProcessor)
      → IsSettled n s
      → IsSettled (one (call.id == id) + n) (process_message env at call s)
  unfolding process_message
  process_message-IsSettled env at n call s h =
      let m = call.message in
      let skip = answer-IsSettled n call.id (returned skipped) s h in
      elim (Bool-cases at.is_disposed) [
        | inl e ↦ rw e skip
        | inr e ↦ elim (Bool-cases (has_valid_block_number_and_round at m.block_number m.round)) [
          | inr f ↦ rw (e, f, process_message) skip
          | inl f ↦ elim (Result-cases (is_round_ahead_of_time at m.round)) [
            | inr (x, g) ↦ rw (g, f, e, process_message) (answer-IsSettled n call.id (thrown x) s h)
            | inl (true, g) ↦ rw (g, f, e, process_message) skip
            | inl (false, g) ↦
                rw (g, f, e, process_message) (check_duplicate-IsSettled env n call s h)
          ]
        ]
      ]
