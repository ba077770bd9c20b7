-- ===== src/Node/Inner/Events/Peers.antt =====
-- node/node_internal/src/node.rs: the messages of peers keep a node healthy.
use stargate.Common.{ℕ, Bool, true, false, Option, none, some, List, [], ◌∷◌}
use stargate.Common.Outcome.{Outcome, ok, err, panic}
use stargate.Common.Handler.{Keeps, lift, modify, Keeps-bind, Keeps-gets-bind, Keeps-lift}
use stargate.Libra.{Bytes, TransactionArgument}
use stargate.Invoice
use stargate.Invoice.{Codec, get_preimage}
use stargate.Invoice.Preimages.{call-Opens, call, previous_hop}
use stargate.Messages
use stargate.Messages.{MessageType}
use stargate.Messages.Errors.{ErrorMessage}
use stargate.Messages.Hops.{NextHop}
use stargate.Proposal.Requests.{ChannelTransactionRequest, ChannelTransactionResponse}
use stargate.Wallet.Htlc.{HtlcPayment}
use stargate.Node.Futures.{MessageProcessor, send_response, SendError}
use stargate.Node.Futures.Life.{IsSound, step, respond, fail, or_same, step-IsSound}
use stargate.Node.Inner.{NodeWorld, NodeInner, NodeError, Response, NetworkMessage}
use stargate.Node.Inner.Incoming
use stargate.Node.Inner.Events.Wallets
use stargate.Node.Inner.Events.Keeping.{Healthy, process-Keeps, node_rules}

module _ (nw : NodeWorld) where
  ruleset wallet_rules = (
    node_rules, Wallets.verify_txn-Ready, Wallets.approve_txn-Ready, Wallets.apply_txn-Ready,
    Wallets.send_payment-Ready, Wallets.receive_payment-Ready, Wallets.verify_txn_response-Ready,
    Wallets.channel_sequence_number-Ready,
  )

  told-Keeps : (p id : ℕ) (r : Response ℕ) → Keeps (Healthy nw) (Incoming.told nw p id r)
  unfolding Incoming.told
  told-Keeps p id (ok _) = search node_rules
  told-Keeps p id (err e) = search node_rules
  told-Keeps p id panic = search node_rules

  pub apply_txn-Keeps :
      (p id : ℕ) (r : ChannelTransactionResponse)
      → Keeps (Healthy nw) (Incoming.apply_txn nw p id r)
  unfolding Incoming.apply_txn
  apply_txn-Keeps p id r = search (wallet_rules, told-Keeps) depth 20

  approved-Keeps : (p id : ℕ) (b : Bool) → Keeps (Healthy nw) (Incoming.approved nw p id b)
  unfolding Incoming.approved
  approved-Keeps p id false = search wallet_rules
  approved-Keeps p id true = search wallet_rules depth 20

  verified-Keeps :
      (p id : ℕ) (r : Response (Option ChannelTransactionResponse))
      → Keeps (Healthy nw) (Incoming.verified nw p id r)
  unfolding Incoming.verified
  verified-Keeps p id (ok (some resp)) = search node_rules
  verified-Keeps p id (ok none) = search (node_rules, approved-Keeps) depth 20
  verified-Keeps p id (err e) = search node_rules depth 20
  verified-Keeps p id panic = search node_rules

  received-Keeps : (p : ℕ) (o : Option ℕ) → Keeps (Healthy nw) (Incoming.received nw p o)
  unfolding Incoming.received
  received-Keeps p none = search wallet_rules
  received-Keeps p (some v) = search wallet_rules depth 20

  passed_back-Keeps : (p : ℕ) (o : Option ℕ) → Keeps (Healthy nw) (Incoming.passed_back nw p o)
  unfolding Incoming.passed_back
  passed_back-Keeps p none = search wallet_rules
  passed_back-Keeps p (some v) = search wallet_rules depth 20

  on_transfer-Keeps :
      (p : ℕ) (args : List TransactionArgument) (b : Bool)
      → Keeps (Healthy nw) (Incoming.on_transfer nw p args b)
  unfolding Incoming.on_transfer
  on_transfer-Keeps p args false = search wallet_rules
  on_transfer-Keeps p args true = search (wallet_rules, received-Keeps) depth 20

  on_receive-Keeps :
      (args : List TransactionArgument) (b : Bool)
      → Keeps (Healthy nw) (Incoming.on_receive nw args b)
  unfolding Incoming.on_receive
  on_receive-Keeps args false = search wallet_rules
  on_receive-Keeps args true = search (wallet_rules, passed_back-Keeps) depth 20

  answered-Keeps :
      (p : ℕ) (r : ChannelTransactionRequest) (o : Option ChannelTransactionResponse)
      → Keeps (Healthy nw) (Incoming.answered nw p r o)
  unfolding Incoming.answered
  answered-Keeps p r none = search wallet_rules
  answered-Keeps p r (some resp) =
      search (node_rules, apply_txn-Keeps, on_transfer-Keeps, on_receive-Keeps) depth 20

  request-Keeps :
      (p : ℕ) (r : ChannelTransactionRequest)
      → Keeps (Healthy nw) (Incoming.handle_channel_transaction_request nw p r)
  unfolding Incoming.handle_channel_transaction_request
  request-Keeps p r = search (wallet_rules, verified-Keeps, answered-Keeps) depth 20

  receiver-Keeps :
      (d : Bytes) (p : ℕ) → Keeps (Healthy nw) (Incoming.handle_receiver_channel nw d p)
  unfolding Incoming.handle_receiver_channel
  receiver-Keeps d p = search (node_rules, request-Keeps)

  hop-Keeps :
      (lock p : ℕ)
      → Keeps {E = NodeError} (Healthy nw) (
          modify
            (λ s. record s { invoice_mgr = Invoice.add_previous_hop nw.c s.invoice_mgr lock p }))
  unfolding modify call
  hop-Keeps lock p = record {
    at = λ s y. record {
      wallet = y.wallet;
      processor = y.processor;
      invoices = call-Opens nw.c s.invoice_mgr (previous_hop lock p) y.invoices;
    };
  }

  forward-Keeps :
      (p : ℕ) (hop : NextHop) (hops : List NextHop) (payment : HtlcPayment)
      → Keeps (Healthy nw) (Incoming.forward nw p hop hops payment)
  unfolding Incoming.forward
  forward-Keeps p hop hops payment = search (wallet_rules, hop-Keeps) depth 20

  next_hop-Keeps :
      (p : ℕ) (args : List TransactionArgument) (b : Bool) (hops : List NextHop)
      → Keeps (Healthy nw) (Incoming.next_hop nw p args b hops)
  unfolding Incoming.next_hop
  next_hop-Keeps p args b [] = search node_rules
  next_hop-Keeps p args false (hop ∷ hops) = search node_rules
  next_hop-Keeps p args true (hop ∷ hops) = search (node_rules, forward-Keeps) depth 20

  multi_hop-Keeps :
      (d : Bytes) (p : ℕ) → Keeps (Healthy nw) (Incoming.handle_multi_hop_receiver_channel nw d p)
  unfolding Incoming.handle_multi_hop_receiver_channel
  multi_hop-Keeps d p = search (node_rules, request-Keeps, next_hop-Keeps) depth 20

  response-Keeps :
      (id number : ℕ)
      → Keeps {E = NodeError} (Healthy nw) (
          modify
            (λ s. record s { message_processor = send_response s.message_processor id number }))
  unfolding step
  response-Keeps id number = process-Keeps nw _ (λ p y. step-IsSound p (respond id number) y)

  sender-Keeps : (d : Bytes) (p : ℕ) → Keeps (Healthy nw) (Incoming.handle_sender_channel nw d p)
  unfolding Incoming.handle_sender_channel
  sender-Keeps d p = search (wallet_rules, response-Keeps) depth 30

  stored-Healthy :
      (r : Outcome SendError MessageProcessor) (s : NodeInner)
      → Healthy nw s
      → IsSound (or_same s.message_processor r)
      → Healthy nw (Incoming.stored nw r s).1
  unfolding Incoming.stored modify lift
  stored-Healthy (ok p) s y z = record { wallet = y.wallet; processor = z; invoices = y.invoices }
  stored-Healthy (err e) s y z = y
  stored-Healthy panic s y z = y

  failed_future-Keeps : (o : Option ErrorMessage) → Keeps (Healthy nw) (Incoming.failed_future nw o)
  unfolding Incoming.failed_future step
  failed_future-Keeps none = search node_rules
  failed_future-Keeps (some msg) =
      Keeps-gets-bind _ _
        (λ s y. stored-Healthy _ s y (step-IsSound s.message_processor (fail msg) y.processor))

  router-Keeps : (p : ℕ) (d : Bytes) → Keeps (Healthy nw) (Incoming.handle_router_msg nw p d)
  unfolding Incoming.handle_router_msg modify
  router-Keeps p d =
      Keeps-bind _ _ (Keeps-lift _)
        (λ _. Keeps-bind _ _ (Keeps-lift _) (λ _. record { at = λ s y. y }))

  dispatch-Keeps :
      (t : MessageType) (p : ℕ) (d : Bytes) → Keeps (Healthy nw) (Incoming.dispatch nw t p d)
  unfolding Incoming.dispatch Incoming.handle_error_message
  dispatch-Keeps Messages.open_channel_node_negotiate_message p d = search node_rules
  dispatch-Keeps Messages.channel_transaction_request p d = search (node_rules, receiver-Keeps)
  dispatch-Keeps Messages.channel_transaction_response p d = search (node_rules, sender-Keeps)
  dispatch-Keeps Messages.error_message p d = failed_future-Keeps _
  dispatch-Keeps Messages.multi_hop_channel_transaction_request p d =
      search (node_rules, multi_hop-Keeps)
  dispatch-Keeps Messages.router_message p d = search (node_rules, router-Keeps)

  pub network-Keeps :
      (msg : NetworkMessage) → Keeps (Healthy nw) (Incoming.handle_network_msg nw msg)
  unfolding Incoming.handle_network_msg
  network-Keeps msg = search (node_rules, dispatch-Keeps) depth 20
