-- ===== src/Node/Inner/Incoming.antt =====
-- node/node_internal/src/node.rs, NodeInner: the handlers of the messages that peers send.
pub mod Forwarding
pub mod Answering
pub mod Settling
pub mod Claiming
use stargate.Common.{ℕ, Bool, true, false, Option, none, some, List, [], ◌∷◌, ◌++◌, if◌then◌else◌}
use stargate.Common.Outcome.{Outcome, ok, err, panic, ok_or, ensure}
use stargate.Common.Slices.{slice_from}
use stargate.Common.Handler.{◌>>=◌, ◌>>◌, pure, fail, lift, gets, modify}
use stargate.Libra.{Bytes, TransactionArgument}
use stargate.Invoice.{get_preimage, get_previous_hop, add_previous_hop}
use stargate.Messages
use stargate.Messages.{MessageType}
use stargate.Messages.Errors.{ErrorMessage}
use stargate.Messages.Hops.{NextHop, MultiHopChannelRequest}
use stargate.Proposal.{ChannelOp}
use stargate.Proposal.Requests.{
  ChannelTransactionRequest, ChannelTransactionResponse, channel_txn, request_id, response_id,
}
use stargate.Router.Stats.{payed}
use stargate.Wallet.Handle
use stargate.Wallet.Handle.{verify_txn, approve_txn, verify_txn_response}
use stargate.Wallet.Actions.{send_payment, receive_payment}
use stargate.Wallet.Reads.{channel_sequence_number}
use stargate.Wallet.Htlc.{
  HtlcError, HtlcPayment, is_htlc_transfer, is_htlc_receive, parse_htlc_payment,
  parse_htlc_preimage,
}
use stargate.Node.Futures.{MessageProcessor, SendError, send_response, future_error}
use stargate.Node.Wire.{add_message_type, parse_message_type}
use stargate.Node.Inner.{
  NodeWorld, NodeInner, NodeHandler, NodeError, Response, htlc_error, bad_bytes, queue_closed,
  NetworkMessage, on_wallet, attempt, unwrap, send, send_error, send_channel_request,
  send_multi_hop_channel_request, send_stats, dropped,
}

abbrev pub from_htlc : {A : Type 0} → Outcome HtlcError A → Outcome NodeError A
from_htlc (ok a) = ok a
from_htlc (err e) = err (htlc_error e)
from_htlc panic = panic

module _ (nw : NodeWorld) where
  unfoldable pub told : ℕ → ℕ → Response ℕ → NodeHandler (Unit {0})
  told peer_id id (ok _) = pure tt
  told peer_id id (err e) = send_error nw peer_id e id
  told peer_id id panic = lift panic

  unfoldable pub apply_txn : ℕ → ℕ → ChannelTransactionResponse → NodeHandler (Unit {0})
  apply_txn peer_id id txn_response = do
    unwrap (
        send nw peer_id (
          add_message_type (nw.response.into_proto_bytes txn_response)
            Messages.channel_transaction_response))
    r ← attempt (on_wallet (Handle.apply_txn nw.ww peer_id))
    told peer_id id r

  unfoldable pub approved : ℕ → ℕ → Bool → NodeHandler (Option ChannelTransactionResponse)
  approved peer_id id false = pure none
  approved peer_id id true = do
    resp ← unwrap (on_wallet (approve_txn nw.ww peer_id id))
    pure (some resp)

  -- the response, where there is one now
  unfoldable pub verified :
      ℕ
      → ℕ
      → Response (Option ChannelTransactionResponse)
      → NodeHandler (Option ChannelTransactionResponse)
  verified peer_id id (ok (some resp)) = pure (some resp)
  verified peer_id id (ok none) = do
    auto_approve ← gets (λ s. s.auto_approve)
    approved peer_id id auto_approve
  verified peer_id id (err e) = do send_error nw peer_id e id; pure none
  verified peer_id id panic = lift panic

  -- a payment whose preimage is known is received, under its own hash lock
  unfoldable pub received : ℕ → Option ℕ → NodeHandler (Unit {0})
  received peer_id none = pure tt
  received peer_id (some preimage) = do
    request ← on_wallet (receive_payment nw.ww peer_id (nw.c.hash_to_vec preimage))
    dropped (send_channel_request nw peer_id request Messages.channel_transaction_request)

  unfoldable pub on_transfer : ℕ → List TransactionArgument → Bool → NodeHandler (Unit {0})
  on_transfer peer_id args false = pure tt
  on_transfer peer_id args true = do
    payment ← lift (from_htlc (parse_htlc_payment nw.from_slice args))
    known ← gets (λ s. get_preimage nw.c s.invoice_mgr payment.hash_lock)
    received peer_id known

  -- a preimage goes back to the previous hop of its payment
  unfoldable pub passed_back : ℕ → Option ℕ → NodeHandler (Unit {0})
  passed_back preimage none = pure tt
  passed_back preimage (some previous_addr) = do
    request ← on_wallet (receive_payment nw.ww previous_addr (nw.c.hash_to_vec preimage))
    dropped (send_channel_request nw previous_addr request Messages.channel_transaction_request)

  unfoldable pub on_receive : List TransactionArgument → Bool → NodeHandler (Unit {0})
  on_receive args false = pure tt
  on_receive args true = do
    preimage ← lift (from_htlc (parse_htlc_preimage nw.from_slice args))
    previous ← gets (λ s. get_previous_hop nw.c s.invoice_mgr preimage)
    passed_back preimage previous

  unfoldable pub answered :
      ℕ → ChannelTransactionRequest → Option ChannelTransactionResponse → NodeHandler (Unit {0})
  answered peer_id request none = pure tt
  answered peer_id request (some resp) = do
    let txn = channel_txn request
    apply_txn peer_id (request_id nw.ww.world.x.txn_hash request) resp
    on_transfer peer_id txn.args (is_htlc_transfer txn.operator)
    on_receive txn.args (is_htlc_receive txn.operator)

  unfoldable pub handle_channel_transaction_request :
      ℕ → ChannelTransactionRequest → NodeHandler (Unit {0})
  handle_channel_transaction_request peer_id request = do
    tx ← attempt (on_wallet (verify_txn nw.ww peer_id request))
    resp ← verified peer_id (request_id nw.ww.world.x.txn_hash request) tx
    answered peer_id request resp

  unfoldable pub handle_receiver_channel : Bytes → ℕ → NodeHandler (Unit {0})
  handle_receiver_channel data_bytes peer_id = do
    request ← lift (ok_or bad_bytes (nw.request.from_proto_bytes data_bytes))
    handle_channel_transaction_request peer_id request

  -- the payment of the next hop, with what is left of the hops
  unfoldable pub forward : ℕ → NextHop → List NextHop → HtlcPayment → NodeHandler (Unit {0})
  forward peer_id hop hops payment = do
    request ← on_wallet (
        send_payment nw.ww hop.remote_addr hop.amount (nw.c.hash_to_vec payment.hash_lock)
          payment.timeout)
    dropped (
        send_multi_hop_channel_request nw hop.remote_addr
          (record { request = request; hops = hops })
          Messages.multi_hop_channel_transaction_request)
    modify (λ s. record s {
      invoice_mgr = add_previous_hop nw.c s.invoice_mgr payment.hash_lock peer_id;
    })

  unfoldable pub next_hop :
      ℕ → List TransactionArgument → Bool → List NextHop → NodeHandler (Unit {0})
  next_hop peer_id args is_transfer [] = pure tt
  next_hop peer_id args false (hop ∷ hops) = pure tt
  next_hop peer_id args true (hop ∷ hops) = do
    payment ← lift (from_htlc (parse_htlc_payment nw.from_slice args))
    forward peer_id hop hops payment

  unfoldable pub handle_multi_hop_receiver_channel : Bytes → ℕ → NodeHandler (Unit {0})
  handle_multi_hop_receiver_channel data_bytes peer_id = do
    message ← lift (ok_or bad_bytes (nw.multi_hop.from_proto_bytes data_bytes))
    handle_channel_transaction_request peer_id message.request
    let txn = channel_txn message.request
    next_hop peer_id txn.args (is_htlc_transfer txn.operator) message.hops

  unfoldable pub handle_sender_channel : Bytes → ℕ → NodeHandler (Unit {0})
  handle_sender_channel data_bytes peer_id = do
    resp ← lift (ok_or bad_bytes (nw.response.from_proto_bytes data_bytes))
    on_wallet (verify_txn_response nw.ww peer_id resp)
    on_wallet (Handle.apply_txn nw.ww peer_id)
    number ← on_wallet (channel_sequence_number nw.ww peer_id)
    let id = response_id nw.ww.world.x.txn_hash resp
    modify (λ s. record s { message_processor = send_response s.message_processor id number })
    me ← gets (λ s. s.wallet.account.address)
    send_stats nw (me, peer_id) (record { hash_value = id; amount = 0; kind = payed })

  -- `future_error(…).unwrap()`
  unfoldable pub stored : Outcome SendError MessageProcessor → NodeHandler (Unit {0})
  stored (ok p) = modify (λ s. record s { message_processor = p })
  stored (err _) = lift panic
  stored panic = lift panic

  unfoldable pub failed_future : Option ErrorMessage → NodeHandler (Unit {0})
  failed_future none = pure tt
  failed_future (some msg) = do r ← gets (λ s. future_error s.message_processor msg); stored r

  unfoldable pub handle_error_message : Bytes → NodeHandler (Unit {0})
  handle_error_message data_bytes = failed_future (nw.error.from_proto_bytes data_bytes)

  unfoldable pub handle_router_msg : ℕ → Bytes → NodeHandler (Unit {0})
  handle_router_msg peer_id data_bytes = do
    message ← lift (ok_or bad_bytes (nw.router.from_proto_bytes data_bytes))
    lift (ensure nw.router_reads queue_closed)
    modify (λ s. record s { router_messages = s.router_messages ++ (peer_id, message) ∷ [] })

  unfoldable pub dispatch : MessageType → ℕ → Bytes → NodeHandler (Unit {0})
  dispatch Messages.open_channel_node_negotiate_message peer_id rest = pure tt
  dispatch Messages.channel_transaction_request peer_id rest =
      unwrap (handle_receiver_channel rest peer_id)
  dispatch Messages.channel_transaction_response peer_id rest =
      unwrap (handle_sender_channel rest peer_id)
  dispatch Messages.error_message peer_id rest = handle_error_message rest
  dispatch Messages.multi_hop_channel_transaction_request peer_id rest =
      unwrap (handle_multi_hop_receiver_channel rest peer_id)
  dispatch Messages.router_message peer_id rest = unwrap (handle_router_msg peer_id rest)

  unfoldable pub handle_network_msg : NetworkMessage → NodeHandler (Unit {0})
  handle_network_msg msg = do
    msg_type ← lift (parse_message_type msg.bytes)
    rest ← lift (slice_from 2 msg.bytes)
    dispatch msg_type msg.peer_id rest
