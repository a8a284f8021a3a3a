-- ===== src/RoundState/Invariant.antt =====
-- The counters of a round state agree with the votes that it holds, and one block at most has a majority.
use mainsail.Prelude.{
  ℕ, suc, ◌+◌, ◌≤◌, ◌<◌, ◌≡◌, ◌≢◌, ◌∙◌, ap, sym, refl, true, false, Option, List, [], ◌∷◌, arith,
  length, trues, bit, same, same_iff, if◌then◌else◌, ◌==◌, ◌||◌, trues-replicate, bit-replicate,
  length-replicate, trues-set_bit, bit-set_bit, length-set_bit, length-append, trues-le-length,
  Bool-cases, inl, inr,
}
use mainsail.Prelude.JsMap.{values, number_key, optional_key, put, has, get-put, get-put_optional}
use mainsail.Prelude.Outcome.{Result, ok, err}
use mainsail.Contracts.{Message, MessageType, prevote, precommit}
use mainsail.Quorum.{is_majority}
use mainsail.RoundState.Messages.{has_message_of, get_messages, add_message_of, add_message}
use mainsail.RoundState.{
  has_prevote, has_precommit, RoundEnv, Ballot, RoundState, empty_ballot, configure, get_count,
  record_vote, add_prevote, add_precommit,
}

-- How many of the votes are for a block, or for none.
abbrev pub votes_for : Option ℕ → List (ℕ × Message) → ℕ
votes_for h [] = 0
votes_for h ((i, m) ∷ more) =
    let rest = votes_for h more in if same m.block_hash h then suc rest else rest

-- `n` is the number of validators of the round.
pub record IsTallied (n : ℕ) (b : Ballot) : Type 0 where
  pub signed_length : length b.signed ≡ n
  pub signed_has : (i : ℕ) → bit b.signed i ≡ has i b.messages
  pub signed_size : trues b.signed ≡ length b.messages
  pub counted : (h : Option ℕ) → get_count h b ≡ votes_for h b.messages

pub empty_ballot-IsTallied : (n : ℕ) → IsTallied n (empty_ballot n)
empty_ballot-IsTallied n = record {
  signed_length = length-replicate n false;
  signed_has = λ i. bit-replicate n i;
  signed_size = trues-replicate n;
  counted = λ h. refl;
}

length-put :
    (i : ℕ) (m : Message) (ms : List (ℕ × Message))
    → has i ms ≡ false
    → length (put i m ms) ≡ suc (length ms)
length-put i m [] h = refl
length-put i m ((j, w) ∷ ms) h = ground (arith, length-put i m ms)

votes_for-put :
    (h : Option ℕ) (i : ℕ) (m : Message) (ms : List (ℕ × Message))
    → has i ms ≡ false
    → votes_for h (put i m ms) ≡ votes_for h ms + (if same m.block_hash h then 1 else 0)
votes_for-put h i m [] e = ground arith
votes_for-put h i m ((j, w) ∷ ms) e = ground (arith, votes_for-put h i m ms)

has-put :
    (i j : ℕ) (m : Message) (ms : List (ℕ × Message)) → has j (put i m ms) ≡ (i == j) || has j ms
has-put i j m ms = ground (arith, get-put i j m ms)

get_count-record_vote :
    (h : Option ℕ) (m : Message) (b : Ballot)
    → get_count h (record_vote m b) ≡ get_count h b + (if same m.block_hash h then 1 else 0)
unfolding record_vote
get_count-record_vote h m b = ground (
  arith,
  get-put_optional m.block_hash h (get_count m.block_hash b + 1) b.counts,
  same_iff m.block_hash h,
)

pub record_vote-IsTallied :
    (n : ℕ) (m : Message) (b : Ballot)
    → IsTallied n b
    → m.validator_index < n
    → has m.validator_index b.messages ≡ false
    → IsTallied n (record_vote m b)
unfolding record_vote
record_vote-IsTallied n m b t lt new = record {
  signed_length =
      length-set_bit b.signed m.validator_index (omega (arith, t.signed_length)) ∙ t.signed_length;
  signed_has = λ i. ground (
    arith,
    bit-set_bit b.signed m.validator_index i,
    t.signed_has i,
    has-put m.validator_index i m b.messages,
  );
  signed_size = omega (
    arith,
    trues-set_bit b.signed m.validator_index (t.signed_has m.validator_index ∙ new),
    length-put m.validator_index m b.messages new,
    t.signed_size,
  );
  counted = λ h.
      get_count-record_vote h m b
      ∙ ap (λ c. c + (if same m.block_hash h then 1 else 0)) (t.counted h)
      ∙ sym (votes_for-put h m.validator_index m b.messages new);
}

votes_for-two :
    (g h : Option ℕ) (ms : List (ℕ × Message)) → g ≢ h → votes_for g ms + votes_for h ms ≤ length ms
votes_for-two g h [] d = omega arith
votes_for-two g h ((i, m) ∷ ms) d =
    ground (arith, votes_for-two g h ms d, same_iff m.block_hash g, same_iff m.block_hash h)

two_majorities_exceed :
    (n a b : ℕ) {va vb size bits len : ℕ}
    → is_majority a n ≡ true
    → is_majority b n ≡ true
    → va + vb ≤ size
    → a ≡ va
    → b ≡ vb
    → bits ≡ size
    → bits ≤ len
    → len ≡ n
    → ⊥
two_majorities_exceed n a b p q h ea eb es hb el = ground arith

absurd_of_same : (g h : Option ℕ) → same g h ≡ false → g ≡ h → ⊥
absurd_of_same g h e d = ground (arith, same_iff g h)

-- Two values that both have a majority of the validators' votes are the same value: there is one vote
-- for each validator index at most, and no index lies outside the validator set.
pub majority_unique :
    (n : ℕ) (b : Ballot) (g h : Option ℕ)
    → IsTallied n b
    → is_majority (get_count g b) n ≡ true
    → is_majority (get_count h b) n ≡ true
    → same g h ≡ true
majority_unique n b g h t p q = elim (Bool-cases (same g h)) [
  | inl e ↦ e
  | inr e ↦ absurd (
      two_majorities_exceed n (get_count g b) (get_count h b) p q
        (votes_for-two g h b.messages (λ d. absurd_of_same g h e d)) (t.counted g) (t.counted h)
        t.signed_size (trues-le-length b.signed) t.signed_length)
]

-- The two ballots of a round state, for `n` validators.
pub record IsConsistent (n : ℕ) (rs : RoundState) : Type 0 where
  pub prevotes_tallied : IsTallied n rs.prevotes
  pub precommits_tallied : IsTallied n rs.precommits

-- A round state that was just configured is consistent with the number of its validators.
pub configure-IsConsistent :
    (env : RoundEnv) (number round : ℕ)
    → IsConsistent (length env.validators) (configure env number round)
unfolding configure
configure-IsConsistent env number round = record {
  prevotes_tallied = empty_ballot-IsTallied (length env.validators);
  precommits_tallied = empty_ballot-IsTallied (length env.validators);
}

-- What `add_message` returns: a consistent round state that now has the message and one message more, or
-- a refusal of a second vote of one type by one validator index.
abbrev pub IsAdded : MessageType → ℕ → ℕ → RoundState → Result RoundState → Type 0
IsAdded type n i rs (ok next) =
    (has_message_of type i rs ≡ false)
    × IsConsistent n next
    × (has_message_of type i next ≡ true)
    × (length (get_messages next) ≡ suc (length (get_messages rs)))
IsAdded type n i rs (err e) = has_message_of type i rs ≡ true

has_self : (m : Message) (b : Ballot) → has m.validator_index (record_vote m b).messages ≡ true
unfolding record_vote
has_self m b = ground (arith, has-put m.validator_index m.validator_index m b.messages)

record_vote-messages :
    (m : Message) (b : Ballot) → (record_vote m b).messages ≡ put m.validator_index m b.messages
unfolding record_vote
record_vote-messages m b = refl

length-values : {V : Type 0} (xs : List (ℕ × V)) → length (values xs) ≡ length xs
length-values [] = refl
length-values (x ∷ xs) = ap suc (length-values xs)

messages_more :
    (m : Message) (b : Ballot)
    → has m.validator_index b.messages ≡ false
    → length (values (record_vote m b).messages) ≡ suc (length (values b.messages))
messages_more m b new =
    length-values (record_vote m b).messages
    ∙ ap length (record_vote-messages m b)
    ∙ length-put m.validator_index m b.messages new
    ∙ ap suc (sym (length-values b.messages))

add_message_of-IsAdded :
    (type : MessageType) (n : ℕ) (m : Message) (rs : RoundState)
    → IsConsistent n rs
    → m.validator_index < n
    → IsAdded type n m.validator_index rs (add_message_of type m rs)
unfolding add_prevote add_precommit
add_message_of-IsAdded prevote n m rs c lt = elim (Bool-cases (has_prevote m.validator_index rs)) [
  | inl old ↦ rw old old
  | inr new ↦ rw new (
    new,
    record {
      prevotes_tallied = record_vote-IsTallied n m rs.prevotes c.prevotes_tallied lt new;
      precommits_tallied = c.precommits_tallied;
    },
    has_self m rs.prevotes,
    omega (
      arith,
      messages_more m rs.prevotes new,
      length-append {0} (values (record_vote m rs.prevotes).messages)
          (values rs.precommits.messages),
      length-append {0} (values rs.prevotes.messages) (values rs.precommits.messages),
    ),
  )
]
add_message_of-IsAdded precommit n m rs c lt =
    elim (Bool-cases (has_precommit m.validator_index rs)) [
      | inl old ↦ rw old old
      | inr new ↦ rw new (
        new,
        record {
          prevotes_tallied = c.prevotes_tallied;
          precommits_tallied = record_vote-IsTallied n m rs.precommits c.precommits_tallied lt new;
        },
        has_self m rs.precommits,
        omega (
          arith,
          messages_more m rs.precommits new,
          length-append {0} (values rs.prevotes.messages)
              (values (record_vote m rs.precommits).messages),
          length-append {0} (values rs.prevotes.messages) (values rs.precommits.messages),
        ),
      )
    ]

-- Adding a message of a validator of the set to a consistent round state either refuses a second vote of
-- its type by its validator index, or gives a consistent round state that holds it and one message more.
pub add_message-IsAdded :
    (n : ℕ) (m : Message) (rs : RoundState)
    → IsConsistent n rs
    → m.validator_index < n
    → IsAdded m.type n m.validator_index rs (add_message m rs)
add_message-IsAdded n m rs c lt = add_message_of-IsAdded m.type n m rs c lt
