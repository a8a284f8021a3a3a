-- ===== src/RoundState/Messages.antt =====
-- packages/consensus/source/round-state.ts: the operations that switch on a message's type.
use mainsail.Prelude.{ℕ, Bool, Option, List, ◌++◌}
use mainsail.Prelude.JsMap.{number_key, get, values}
use mainsail.Prelude.Outcome.{Result}
use mainsail.Contracts.{MessageType, prevote, precommit, Message}
use mainsail.RoundState.{RoundState, has_prevote, has_precommit, add_prevote, add_precommit}

abbrev pub has_message_of : MessageType → ℕ → RoundState → Bool
has_message_of prevote i rs = has_prevote i rs
has_message_of precommit i rs = has_precommit i rs

abbrev pub has_message : Message → RoundState → Bool
has_message m rs = has_message_of m.type m.validator_index rs

abbrev pub get_message : ℕ → MessageType → RoundState → Option Message
get_message i prevote rs = get i rs.prevotes.messages
get_message i precommit rs = get i rs.precommits.messages

abbrev pub add_message_of : MessageType → Message → RoundState → Result RoundState
add_message_of prevote m rs = add_prevote m rs
add_message_of precommit m rs = add_precommit m rs

abbrev pub add_message : Message → RoundState → Result RoundState
add_message m rs = add_message_of m.type m rs

abbrev pub get_messages : RoundState → List Message
get_messages rs = values rs.prevotes.messages ++ values rs.precommits.messages
