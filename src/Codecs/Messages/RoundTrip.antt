-- ===== src/Codecs/Messages/RoundTrip.antt =====
-- Messages are read back from their bytes, and the bytes that are signed name one vote.
use mainsail.Prelude.{
  ℕ, ◌+◌, ◌^◌, ◌<◌, ◌≡◌, refl, sym, ap, ◌∙◌, subst, Bool, true, Option, none, some, List, [],
  length, arith, append-nil,
}
use mainsail.Prelude.Outcome.{Result, ok, err, ok-inj}
use mainsail.ByteBuffer.{ByteBuffer, Viem, from_buffer}
use mainsail.ByteBuffer.Reading.{Reads}
use mainsail.Serializer.{
  Value, undefined, number, string, Data, optional_string, hash_size, AddressFactory, deserialize,
}
use mainsail.Serializer.Encoding.{ViemLaws, ObjectEncodes}
use mainsail.Serializer.Sizes.{length-object}
use mainsail.Serializer.Writing.{serialize-fits}
use mainsail.Serializer.RoundTrip.{
  assign_all, Agrees, assign_all-Agrees, deserialize-Reads, encoding-inj,
}
use mainsail.Codecs.{signature_size}
use mainsail.Codecs.Whole.{nothing_left}
use mainsail.Codecs.Messages.{
  schema_for_signature, schema, Vote, MessageData, Context, message_object, signature_object,
  block_hash_size, Message, serialize_message, serialize_message_for_signature, whole_message,
  deserialize_message, make_message_from_bytes, make_message,
}
use mainsail.Codecs.Messages.Encoding.{
  FitsVote, FitsMessage, FitsContext, message-Encodes, signature-Encodes, message_size,
  signature_bytes_size,
}

number-inj : {a b : ℕ} → ◌≡◌ {A = Value} (number a) (number b) → a ≡ b
number-inj e = cc

string-inj : {a b : List ℕ} → ◌≡◌ {A = Value} (string a) (string b) → a ≡ b
string-inj e = cc

optional_string-inj : (a b : Option (List ℕ)) → optional_string a ≡ optional_string b → a ≡ b
optional_string-inj none none e = refl
optional_string-inj none (some b) e = cc
optional_string-inj (some a) none e = cc
optional_string-inj (some a) (some b) e = ap some (string-inj e)

same_vote :
    (vote other : Vote)
    → vote.type ≡ other.type
    → vote.block_number ≡ other.block_number
    → vote.round ≡ other.round
    → vote.block_hash ≡ other.block_hash
    → vote ≡ other
same_vote vote other type block_number round block_hash = cc

same_context :
    (context other : Context)
    → context.genesis_block_hash ≡ other.genesis_block_hash
    → context.previous_block_hash ≡ other.previous_block_hash
    → context ≡ other
same_context context other genesis previous = cc

module _ (viem : Viem) (addresses : AddressFactory) (laws : ViemLaws viem) where
  -- A message that has an encoding is serialized into it.
  pub serialized_message :
      (message : MessageData) (bytes : List ℕ)
      → FitsMessage message
      → ObjectEncodes viem addresses (message_object message) schema bytes
      → (serialize_message viem addresses message ≡ ok bytes)
        × (length bytes
            ≡ 1 + 4 + 4 + 1 + 1 + block_hash_size message.vote.block_hash + signature_size)
  unfolding serialize_message
  serialized_message message bytes fits encoded =
      let size : length bytes
          ≡ 1 + 4 + 4 + 1 + 1 + block_hash_size message.vote.block_hash + signature_size =
        length-object viem addresses laws (message_object message) schema bytes encoded
        ∙ message_size message fits in
      (
        serialize-fits viem addresses laws _ schema (message_object message) bytes
            (omega (arith, size)) encoded,
        size,
      )

  read_whole :
      (object : Data) (call : Result (Data × ByteBuffer))
      → Reads (assign_all schema object (λ property. undefined)) [] call
      → (found : Data) × (whole_message call ≡ ok found) × Agrees schema object found
  read_whole object (err e) h = elim h [ ]
  read_whole object (ok (found, rest)) h = (
    found,
    rw (nothing_left rest h.1) refl,
    subst (Agrees schema object) (sym h.0)
        (assign_all-Agrees schema object (λ property. undefined)),
  )

  -- A message whose fields fit into their widths is serialized into as many bytes as the serializer computes,
  -- and these are deserialized into a message with the same fields.
  pub deserialize_message-serialize_message :
      (message : MessageData)
      → FitsMessage message
      → (bytes : List ℕ) × (found : Data) × (serialize_message viem addresses message ≡ ok bytes)
        × (length bytes
            ≡ 1 + 4 + 4 + 1 + 1 + block_hash_size message.vote.block_hash + signature_size)
        × (deserialize_message viem addresses bytes ≡ ok found)
        × Agrees schema (message_object message) found
  unfolding deserialize_message
  deserialize_message-serialize_message message fits =
      let object : Data = message_object message in
      let (bytes, encoded) = message-Encodes viem addresses message fits in
      let written = serialized_message message bytes fits encoded in
      let (found, read, agrees) =
        read_whole object
          (deserialize viem addresses schema (λ property. undefined) (from_buffer bytes))
          (deserialize-Reads viem addresses laws object schema (λ property. undefined) bytes []
            (from_buffer bytes) (tt, (tt, (tt, (tt, (tt, (tt, tt)))))) encoded
            (sym (append-nil bytes))) in
      (bytes, found, written.0, written.1, read, agrees)

  signature_bytes :
      (context : Context) (vote : Vote) (bytes : List ℕ)
      → FitsVote vote
      → ObjectEncodes viem addresses (signature_object context vote) schema_for_signature bytes
      → serialize_message_for_signature viem addresses vote context ≡ ok bytes
  unfolding serialize_message_for_signature
  signature_bytes context vote bytes fits encoded =
      let size : length bytes
          ≡ hash_size + hash_size + 1 + 4 + 4 + 1 + block_hash_size vote.block_hash =
        length-object viem addresses laws (signature_object context vote) schema_for_signature bytes
          encoded
        ∙ signature_bytes_size context vote fits in
      serialize-fits viem addresses laws _ schema_for_signature (signature_object context vote)
        bytes (omega (arith, size)) encoded

  -- Votes and contexts with the same bytes to sign are the same: a signature stands for one vote.
  pub serialize_message_for_signature-inj :
      (context other_context : Context) (vote other_vote : Vote) (bytes : List ℕ)
      → FitsContext context
      → FitsContext other_context
      → FitsVote vote
      → FitsVote other_vote
      → serialize_message_for_signature viem addresses vote context ≡ ok bytes
      → serialize_message_for_signature viem addresses other_vote other_context ≡ ok bytes
      → (vote ≡ other_vote) × (context ≡ other_context)
  serialize_message_for_signature-inj context other_context vote other_vote bytes inside inside'
        fits fits' h k =
      let (xs, encoded) = signature-Encodes viem addresses context vote inside fits in
      let (ys, encoded') =
        signature-Encodes viem addresses other_context other_vote inside' fits' in
      let first : xs ≡ bytes = ok-inj (sym (signature_bytes context vote xs fits encoded) ∙ h) in
      let second : ys ≡ bytes =
        ok-inj (sym (signature_bytes other_context other_vote ys fits' encoded') ∙ k) in
      let object : Data = signature_object context vote in
      let other : Data = signature_object other_context other_vote in
      let (genesis, (previous, (type, (block_number, (round, (hash, _)))))) =
        encoding-inj viem addresses laws schema_for_signature other object (λ property. undefined)
          bytes (tt, (tt, (tt, (tt, (tt, (tt, tt)))))) (tt, (tt, (tt, (tt, (tt, (tt, tt))))))
          (subst (ObjectEncodes viem addresses other schema_for_signature) second encoded')
          (subst (ObjectEncodes viem addresses object schema_for_signature) first encoded) in
      (
        same_vote vote other_vote (number-inj type) (number-inj block_number) (number-inj round)
            (optional_string-inj vote.block_hash other_vote.block_hash hash),
        same_context context other_context (string-inj genesis) (string-inj previous),
      )

  module _ (sign : List ℕ → List ℕ → List ℕ) (validate : Data → Bool) where
    -- A message that is made holds the vote, the validator and the signature of the vote's bytes, and is made
    -- again from its own bytes. The fields fit, a signature has 96 bytes, and the JSON schema accepts such a
    -- message.
    pub make_message_lem :
        (vote : Vote) (validator_index : ℕ) (private_key : List ℕ) (context : Context)
        → FitsVote vote
        → FitsContext context
        → validator_index < 2 ^ 8
        → ((bytes : List ℕ) → length (sign bytes private_key) ≡ 96)
        → ((found : Data) (signature : List ℕ)
            → Agrees schema
                (message_object (record {
                  vote = vote;
                  validator_index = validator_index;
                  signature = signature;
                }))
                found
            → validate found ≡ true)
        → (made : Message) × (bytes : List ℕ) × (make_message viem addresses sign validate vote
              validator_index private_key context
            ≡ ok made)
          × (serialize_message_for_signature viem addresses vote context ≡ ok bytes)
          × Agrees schema
              (message_object (record {
                vote = vote;
                validator_index = validator_index;
                signature = sign bytes private_key;
              }))
              made.properties
          × (make_message_from_bytes viem addresses sign validate made.serialized ≡ ok made)
    unfolding make_message make_message_from_bytes
    make_message_lem vote validator_index private_key context fits inside small long accepts =
        let (bytes, encoded) = signature-Encodes viem addresses context vote inside fits in
        let signed : serialize_message_for_signature viem addresses vote context ≡ ok bytes =
          signature_bytes context vote bytes fits encoded in
        let message : MessageData = record {
          vote = vote;
          validator_index = validator_index;
          signature = sign bytes private_key;
        } in
        let (serialized, found, written, _, read, agrees) =
          deserialize_message-serialize_message message (record {
            fits_vote = fits;
            fits_validator_index = small;
            fits_signature = long bytes;
          }) in
        let valid : validate found ≡ true = accepts found (sign bytes private_key) agrees in
        (
          record { properties = found; serialized = serialized },
          bytes,
          rw (signed, written, read, valid) refl,
          signed,
          agrees,
          rw (read, valid) refl,
        )
