-- ===== src/Codecs/Messages/Tests.antt =====
-- A precommit for a block.
use mainsail.Prelude.{ℕ, ◌+◌, ◌≡◌, ◌++◌, refl, true, some, List, [], ◌∷◌, length, replicate, arith}
use mainsail.Prelude.Outcome.{ok}
use mainsail.Serializer.{Data}
use mainsail.Serializer.RoundTrip.{Agrees}
use mainsail.Serializer.Examples.{fixed_width, fixed_width-ViemLaws, plain_addresses}
use mainsail.Codecs.{signature_size}
use mainsail.Codecs.Messages.{
  schema, Vote, MessageData, Context, message_object, block_hash_size, Message, serialize_message,
  serialize_message_for_signature, deserialize_message, make_message_from_bytes, make_message,
}
use mainsail.Codecs.Messages.Encoding.{FitsVote, FitsContext}
use mainsail.Codecs.Messages.RoundTrip.{
  deserialize_message-serialize_message, serialize_message_for_signature-inj, make_message_lem,
}

abbrev precommit : Vote
precommit = record { type = 2; block_number = 300; round = 1; block_hash = some (replicate 32 9) }

abbrev precommit-Fits : FitsVote precommit
precommit-Fits = record {
  fits_type = omega arith;
  fits_block_number = omega arith;
  fits_round = omega arith;
  fits_block_hash = refl;
}

abbrev example_message : MessageData
example_message = record { vote = precommit; validator_index = 3; signature = replicate 96 7 }

abbrev here : Context
here = record { genesis_block_hash = replicate 32 1; previous_block_hash = replicate 32 2 }

here-Fits : FitsContext here
here-Fits = record { fits_genesis_block_hash = refl; fits_previous_block_hash = refl }

-- The bytes that are signed.
abbrev signed_bytes : List ℕ
signed_bytes =
    replicate 32 1
    ++ (replicate 32 2 ++ (2 ∷ 44 ∷ 1 ∷ 0 ∷ 0 ∷ 1 ∷ 0 ∷ 0 ∷ 0 ∷ 1 ∷ (replicate 32 9 ++ [])))

signed_precommit :
    serialize_message_for_signature fixed_width plain_addresses precommit here ≡ ok signed_bytes
unfolding serialize_message_for_signature
signed_precommit = refl

abbrev constant_signature : List ℕ → List ℕ → List ℕ
constant_signature bytes private_key = replicate 96 7

deserialize_message-serialize_message_example :
    (bytes : List ℕ) × (found : Data) × (serialize_message fixed_width plain_addresses
        example_message
      ≡ ok bytes)
    × (length bytes ≡ 1 + 4 + 4 + 1 + 1 + block_hash_size (some (replicate 32 9)) + signature_size)
    × (deserialize_message fixed_width plain_addresses bytes ≡ ok found)
    × Agrees schema (message_object example_message) found
deserialize_message-serialize_message_example =
    deserialize_message-serialize_message fixed_width plain_addresses fixed_width-ViemLaws
      example_message
      (record {
        fits_vote = precommit-Fits;
        fits_validator_index = omega arith;
        fits_signature = refl;
      })

serialize_message_for_signature-inj_example : (precommit ≡ precommit) × (here ≡ here)
serialize_message_for_signature-inj_example =
    serialize_message_for_signature-inj fixed_width plain_addresses fixed_width-ViemLaws here here
      precommit precommit signed_bytes here-Fits here-Fits precommit-Fits precommit-Fits
      signed_precommit signed_precommit

make_message_lem_example :
    (made : Message) × (bytes : List ℕ) × (make_message fixed_width plain_addresses
        constant_signature
        (λ object. true)
        precommit
        3
        []
        here
      ≡ ok made)
    × (serialize_message_for_signature fixed_width plain_addresses precommit here ≡ ok bytes)
    × Agrees schema (message_object example_message) made.properties
    × (make_message_from_bytes fixed_width plain_addresses constant_signature
          (λ object. true)
          made.serialized
        ≡ ok made)
make_message_lem_example =
    make_message_lem fixed_width plain_addresses fixed_width-ViemLaws constant_signature
      (λ object. true) precommit 3 [] here precommit-Fits here-Fits (omega arith) (λ bytes. refl)
      (λ found signature agrees. refl)
