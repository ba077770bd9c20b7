-- ===== src/Node/Wire.antt =====
-- node/node_internal/src/node.rs: messages between nodes as bytes, a type and what follows it.
use stargate.Common.{ℕ, ◌≡◌, refl, [], ◌∷◌, ◌++◌, arith, length, leb, true, ◌<◌}
use stargate.Common.Outcome.{Outcome, ok, err, panic, ◌>>=◌}
use stargate.Common.Slices.{slice, slice_from, to_be_bytes, from_be_bytes}
use stargate.Libra.{Bytes}
use stargate.Messages.{
  MessageType, open_channel_node_negotiate_message, channel_transaction_request,
  channel_transaction_response, error_message, multi_hop_channel_transaction_request,
  router_message, get_type, from_type, NoSuchType,
}

abbrev unwrap : {E A : Type 0} → Outcome NoSuchType A → Outcome E A
unwrap (ok a) = ok a
unwrap (err e) = panic
unwrap panic = panic

unfoldable pub parse_message_type : {E : Type 0} → Bytes → Outcome E MessageType
parse_message_type data_bytes = do
  data_slice ← slice 0 2 data_bytes
  unwrap (from_type (from_be_bytes 0 data_slice))

unfoldable pub add_message_type : Bytes → MessageType → Bytes
add_message_type data_bytes message_type = to_be_bytes 2 (get_type message_type) ++ data_bytes

two_bytes : (a b : ℕ) (rest : Bytes) → leb 2 (length (a ∷ b ∷ rest)) ≡ true
two_bytes a b rest = ground arith

-- the two bytes of a type are read back
parses :
    {E : Type 0} (a b : ℕ) (payload : Bytes) (t : MessageType)
    → unwrap {E = E} (from_type (from_be_bytes 0 (a ∷ b ∷ []))) ≡ ok t
    → parse_message_type {E = E} (a ∷ b ∷ payload) ≡ ok t
unfolding parse_message_type slice
parses a b payload t e = rw (two_bytes a b payload) e

pub parses_type :
    {E : Type 0} (payload : Bytes) (t : MessageType)
    → parse_message_type {E = E} (add_message_type payload t) ≡ ok t
unfolding add_message_type to_be_bytes get_type from_type from_be_bytes
parses_type payload open_channel_node_negotiate_message = parses 0 1 payload _ refl
parses_type payload channel_transaction_request = parses 0 2 payload _ refl
parses_type payload channel_transaction_response = parses 0 3 payload _ refl
parses_type payload error_message = parses 0 4 payload _ refl
parses_type payload multi_hop_channel_transaction_request = parses 0 5 payload _ refl
parses_type payload router_message = parses 0 6 payload _ refl

pub keeps_payload :
    {E : Type 0} (payload : Bytes) (t : MessageType)
    → slice_from {E = E} 2 (add_message_type payload t) ≡ ok payload
unfolding add_message_type to_be_bytes slice_from
keeps_payload payload t = rw (two_bytes _ _ payload) refl

too_short :
    {E : Type 0} (short : Bytes) → length short < 2 → parse_message_type {E = E} short ≡ panic
unfolding parse_message_type slice
too_short short h = ground (arith, h)

-- What a node puts on the wire under a message type is read with that type, and what follows the type
-- is what was put there; a message of fewer than two bytes makes the reader panic.
parse-add_message_type :
    {E : Type 0} (payload : Bytes) (t : MessageType) (short : Bytes)
    → length short < 2
    → (parse_message_type {E = E} (add_message_type payload t) ≡ ok t)
      × (slice_from {E = E} 2 (add_message_type payload t) ≡ ok payload)
      × (parse_message_type {E = E} short ≡ panic)
parse-add_message_type payload t short h =
    (parses_type payload t, keeps_payload payload t, too_short short h)
