-- ===== src/Messages.antt =====
-- sgtypes/src/message.rs: the types of the messages between nodes, and their codes on the wire.
pub mod Errors
pub mod Hops
pub mod Exchanged
use stargate.Common.{ℕ, ◌≡◌, ◌↔◌, refl, sym, arith, ◌==◌, if◌then◌else◌}
use stargate.Common.Outcome.{Outcome, ok, err}

pub data MessageType : Type 0 where
  open_channel_node_negotiate_message channel_transaction_request : MessageType
  channel_transaction_response error_message : MessageType
  multi_hop_channel_transaction_request router_message : MessageType

pub data NoSuchType : Type 0 where
  no_such_type : NoSuchType

unfoldable pub get_type : MessageType → ℕ
get_type open_channel_node_negotiate_message = 1
get_type channel_transaction_request = 2
get_type channel_transaction_response = 3
get_type error_message = 4
get_type multi_hop_channel_transaction_request = 5
get_type router_message = 6

unfoldable pub from_type : ℕ → Outcome NoSuchType MessageType
from_type msg_type =
    if msg_type == 1
    then ok open_channel_node_negotiate_message
    else if msg_type == 2
    then ok channel_transaction_request
    else if msg_type == 3
    then ok channel_transaction_response
    else if msg_type == 4
    then ok error_message
    else if msg_type == 5
    then ok multi_hop_channel_transaction_request
    else if msg_type == 6
    then ok router_message
    else err no_such_type

to_code : (n : ℕ) (t : MessageType) → from_type n ≡ ok t → get_type t ≡ n
unfolding from_type get_type
to_code n t h = ground arith

of_code : (n : ℕ) (t : MessageType) → get_type t ≡ n → from_type n ≡ ok t
unfolding from_type get_type
of_code n open_channel_node_negotiate_message h = rw (sym h) refl
of_code n channel_transaction_request h = rw (sym h) refl
of_code n channel_transaction_response h = rw (sym h) refl
of_code n error_message h = rw (sym h) refl
of_code n multi_hop_channel_transaction_request h = rw (sym h) refl
of_code n router_message h = rw (sym h) refl

-- A code stands for a message type exactly when it is that type's own code: no two types share one,
-- and every other number is refused.
pub from_type_iff_get_type : (n : ℕ) (t : MessageType) → (from_type n ≡ ok t) ↔ (get_type t ≡ n)
from_type_iff_get_type n t = (to_code n t, of_code n t)
