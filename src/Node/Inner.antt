-- ===== src/Node/Inner.antt =====
-- node/node_internal/src/node.rs, NodeInner: what a node keeps, and how it sends. The router's and the
-- network's queues are lists, and an error where nobody reads them; a responder's message is the
-- result of its function. Handlers run one at a time.
pub mod Incoming
pub mod Payments
pub mod Commands
pub mod Startup
pub mod Sending
pub mod Events
use stargate.Common.{
  ℕ, Bool, true, false, not, Option, none, some, List, [], ◌∷◌, ◌++◌, ◌==◌, if◌then◌else◌,
}
use stargate.Common.Outcome.{Outcome, ok, err, panic, ensure, assert}
use stargate.Common.Handler.{Handler, ◌>>=◌, ◌>>◌, pure, fail, lift, gets, modify}
use stargate.Libra.{Bytes}
use stargate.Invoice.{Codec, InvoiceManager}
use stargate.Messages
use stargate.Messages.{MessageType, error_message}
use stargate.Messages.Errors.{SgError, ErrorMessage, unknown, channel_not_exist}
use stargate.Messages.Hops.{MultiHopChannelRequest}
use stargate.Proposal.Requests.{
  ChannelTransactionRequest, ChannelTransactionResponse, request_id, response_id,
}
use stargate.Router.Paths.{BalanceQueryResponse}
use stargate.Router.Search.{RouterNetworkMessage}
use stargate.Router.Stats.{DirectedChannel, PaymentInfo}
use stargate.Wallet
use stargate.Wallet.{Wallet, WalletWorld, WalletHandler, WalletError}
use stargate.Wallet.Htlc.{HtlcError}
use stargate.Node.Futures
use stargate.Node.Futures.{MessageProcessor, channel, add_future, drop_future}
use stargate.Node.Wire.{add_message_type}

pub data NodeError : Type 0 where
  wallet_error : WalletError → NodeError
  htlc_error : HtlcError → NodeError
  sg_error : SgError → NodeError
  bad_bytes queue_closed few_hops no_balances not_my_path : NodeError

-- a message as protobuf bytes
pub record Proto (A : Type 0) : Type 0 where
  pub into_proto_bytes : A → Bytes
  pub from_proto_bytes : Bytes → Option A

-- The outside world at the time of one message to the node.
pub record NodeWorld : Type 0 where
  pub ww : WalletWorld
  pub c : Codec
  -- `HashValue::from_slice` and `from_sha3_256`
  pub from_slice : Bytes → Option ℕ
  pub sha3 : Bytes → ℕ
  pub request : Proto ChannelTransactionRequest
  pub response : Proto ChannelTransactionResponse
  pub multi_hop : Proto MultiHopChannelRequest
  pub error : Proto ErrorMessage
  pub router : Proto RouterNetworkMessage
  -- `find_path_by_addr` of the router
  pub find_path_by_addr : ℕ → ℕ → Option (List BalanceQueryResponse)
  pub is_connected : ℕ → Bool
  -- an error as text, by `{:?}`
  pub debug_text : NodeError → Bytes
  -- the texts of the errors of a payment between two accounts
  pub balance_text : ℕ → ℕ → Bytes
  pub path_text : ℕ → ℕ → Bytes
  -- whether the network, the router and its statistics read their queues
  pub network_reads : Bool
  pub router_reads : Bool
  pub stats_reads : Bool

pub record NetworkMessage : Type 0 where
  pub peer_id : ℕ
  pub bytes : Bytes

pub record NodeInner : Type 0 where
  pub wallet : Wallet
  pub message_processor : MessageProcessor
  pub invoice_mgr : InvoiceManager
  pub default_future_timeout : ℕ
  pub auto_approve : Bool
  -- what was put into the queues of the network, the router and its statistics
  pub sent : List NetworkMessage
  pub router_messages : List (ℕ × RouterNetworkMessage)
  pub stats : List (DirectedChannel × PaymentInfo)
  -- the hashes whose futures a delay will remove, and the delays
  pub delays : List (ℕ × ℕ)

abbrev pub NodeHandler : Type 0 → Type 0
NodeHandler A = Handler NodeInner NodeError A

-- what a responder is given
abbrev pub Response : Type 0 → Type 0
Response A = Outcome NodeError A

abbrev pub from_wallet : {A : Type 0} → Outcome WalletError A → Outcome NodeError A
from_wallet (ok a) = ok a
from_wallet (err e) = err (wallet_error e)
from_wallet panic = panic

unfoldable pub on_wallet : {A : Type 0} → WalletHandler A → NodeHandler A
on_wallet m s = (from_wallet (m s.wallet).0, record s { wallet = (m s.wallet).1 })

-- a `match` on a result, and an `unwrap` of one
abbrev pub caught : {A : Type 0} → Outcome NodeError A × NodeInner → Outcome NodeError (Response A)
caught (ok a, _) = ok (ok a)
caught (err e, _) = ok (err e)
caught (panic, _) = panic

unfoldable pub attempt : {A : Type 0} → NodeHandler A → NodeHandler (Response A)
attempt m s = (caught (m s), (m s).1)

abbrev pub or_panic : {A : Type 0} → Outcome NodeError A → Outcome NodeError A
or_panic (ok a) = ok a
or_panic (err _) = panic
or_panic panic = panic

unfoldable pub unwrap : {A : Type 0} → NodeHandler A → NodeHandler A
unwrap m s = (or_panic (m s).0, (m s).1)

-- the error that is told to the peer
abbrev pub downcast : Bytes → NodeError → Option SgError
downcast text (sg_error e) = some e
downcast text (wallet_error Wallet.channel_not_exist) =
    some (record { error_code = channel_not_exist; error_message = text })
downcast text _ = none

abbrev pub or_unknown : Bytes → Option SgError → SgError
or_unknown text none = record { error_code = unknown; error_message = text }
or_unknown text (some e) = e

module _ (nw : NodeWorld) where
  unfoldable pub error_bytes : NodeError → ℕ → Bytes
  error_bytes e hash_value =
      let text = nw.debug_text e in
      add_message_type
        (nw.error.into_proto_bytes
          (record { raw_transaction_hash = hash_value; error = or_unknown text (downcast text e) }))
        error_message

  -- `sender.unbounded_send(…)?`
  unfoldable pub send : ℕ → Bytes → NodeHandler (Unit {0})
  send peer_id data_bytes = do
    lift (ensure nw.network_reads queue_closed)
    modify
        (λ s. record s { sent = s.sent ++ record { peer_id = peer_id; bytes = data_bytes } ∷ [] })

  -- error_message, and `unbounded_send(…).unwrap()`
  unfoldable pub send_error : ℕ → NodeError → ℕ → NodeHandler (Unit {0})
  send_error peer_id e hash_value = unwrap (send peer_id (error_bytes e hash_value))

  unfoldable pub future_timeout : ℕ → ℕ → NodeHandler (Unit {0})
  future_timeout hash delay =
      if delay == 0
      then pure tt
      else modify (λ s. record s { delays = s.delays ++ (hash, delay) ∷ [] })

  -- a channel, `MessageFuture::new`, `add_future` and its timeout
  unfoldable pub new_future : ℕ → NodeHandler ℕ
  new_future hash_value = do
    made ← gets (λ s. channel s.message_processor)
    modify (λ s. record s { message_processor = add_future made.0 hash_value made.1 })
    delay ← gets (λ s. s.default_future_timeout)
    future_timeout hash_value delay
    pure made.1

  unfoldable pub send_channel_request : ℕ → ChannelTransactionRequest → MessageType → NodeHandler ℕ
  send_channel_request peer_id request msg_type = do
    send peer_id (add_message_type (nw.request.into_proto_bytes request) msg_type)
    new_future (request_id nw.ww.world.x.txn_hash request)

  unfoldable pub send_multi_hop_channel_request :
      ℕ → MultiHopChannelRequest → MessageType → NodeHandler ℕ
  send_multi_hop_channel_request peer_id message msg_type = do
    send peer_id (add_message_type (nw.multi_hop.into_proto_bytes message) msg_type)
    new_future (request_id nw.ww.world.x.txn_hash message.request)

  unfoldable pub send_router_message : ℕ → RouterNetworkMessage → NodeHandler (Unit {0})
  send_router_message peer_id message =
      send peer_id (add_message_type (nw.router.into_proto_bytes message) Messages.router_message)

  -- `router.stats(…)`
  unfoldable pub send_stats : DirectedChannel → PaymentInfo → NodeHandler (Unit {0})
  send_stats directed payment = do
    lift (ensure nw.stats_reads queue_closed)
    modify (λ s. record s { stats = s.stats ++ (directed, payment) ∷ [] })

-- a future that nobody takes
unfoldable pub dropped : NodeHandler ℕ → NodeHandler (Unit {0})
dropped m = do
  id ← m
  modify (λ s. record s { message_processor = drop_future s.message_processor id })
