-- ===== src/Node/Inner/Events/Users.antt =====
-- node/node_internal/src/node.rs: the commands of its user keep a node healthy.
use stargate.Common.{ℕ, ◌≡◌, refl, Bool, true, false, Option, none, some, List, [], ◌∷◌}
use stargate.Common.Outcome.{ok, err, panic}
use stargate.Common.Handler.{Keeps, ◌>>=◌, pure, lift, modify, Keeps-gets-bind}
use stargate.Libra.{Bytes}
use stargate.Messages.Hops.{MultiHopChannelRequest}
use stargate.Proposal.Requests.{ChannelTransactionRequest, ChannelTransactionResponse}
use stargate.Router.Paths.{BalanceQueryResponse}
use stargate.Node.Futures
use stargate.Node.Futures.{MessageProcessor, value, channel, send, Poll, ready, failed, not_ready}
use stargate.Node.Futures.Life.{send_new-IsSound}
use stargate.Node.Inner.{NodeWorld, NodeInner, Response}
use stargate.Node.Inner.Payments
use stargate.Node.Inner.Commands
use stargate.Node.Inner.Events
use stargate.Node.Inner.Events.{NodeMessage, NodeEvent, happen, responded, handle_node_msg}
use stargate.Node.Inner.Events.Wallets
use stargate.Node.Inner.Events.Keeping.{Healthy, node_rules}
use stargate.Node.Inner.Events.Peers.{apply_txn-Keeps}

module _ (nw : NodeWorld) where
  ruleset user_rules = (
    node_rules, Wallets.open_channel-Ready, Wallets.deposit-Ready, Wallets.withdraw-Ready,
    Wallets.transfer-Ready, Wallets.send_payment-Ready, Wallets.execute_script-Ready,
    Wallets.force_travel_txn-Ready, Wallets.channel_balance-Ready, Wallets.transaction-Ready,
    Wallets.approve_txn-Ready, Wallets.reject_txn-Ready, Wallets.get_pending_txn_request-Ready,
    Wallets.get_all_channels-Ready, apply_txn-Keeps,
  )

  hop_request-Keeps :
      (b : Bool) (r : ℕ) (vs : List ℕ) (a : ℕ) (lock : Bytes) (t : ℕ)
      → Keeps (Healthy nw) (Payments.hop_request nw b r vs a lock t)
  unfolding Payments.hop_request
  hop_request-Keeps false r vs a lock t = search user_rules
  hop_request-Keeps true r vs a lock t = search user_rules depth 20

  multi_hop_request-Keeps :
      (vs : List ℕ) (a : ℕ) (lock : Bytes) (t : ℕ)
      → Keeps (Healthy nw) (Payments.get_multi_hop_request nw vs a lock t)
  unfolding Payments.get_multi_hop_request
  multi_hop_request-Keeps (v ∷ r ∷ vs) a lock t = search (node_rules, hop_request-Keeps)
  multi_hop_request-Keeps (_ ∷ []) a lock t = search node_rules
  multi_hop_request-Keeps [] a lock t = search node_rules

  sent_hops-Keeps :
      (r : Response (MultiHopChannelRequest × ℕ)) → Keeps (Healthy nw) (Payments.sent_hops nw r)
  unfolding Payments.sent_hops
  sent_hops-Keeps (ok (message, a)) = search node_rules
  sent_hops-Keeps (err e) = search node_rules
  sent_hops-Keeps panic = search node_rules

  pay_along-Keeps :
      (b : Bool) (me r : ℕ) (path : List BalanceQueryResponse) (a : ℕ) (lock : Bytes) (t : ℕ)
      → Keeps (Healthy nw) (Payments.pay_along nw b me r path a lock t)
  unfolding Payments.pay_along
  pay_along-Keeps false me r path a lock t = search node_rules
  pay_along-Keeps true me r path a lock t =
      search (node_rules, multi_hop_request-Keeps, sent_hops-Keeps) depth 20

  pay_on_path-Keeps :
      (me r : ℕ) (o : Option (List BalanceQueryResponse)) (a : ℕ) (lock : Bytes) (t : ℕ)
      → Keeps (Healthy nw) (Payments.pay_on_path nw me r o a lock t)
  unfolding Payments.pay_on_path
  pay_on_path-Keeps me r none a lock t = search node_rules
  pay_on_path-Keeps me r (some path) a lock t = pay_along-Keeps _ me r path a lock t

  pay_htlc-Keeps :
      (r a : ℕ) (lock : Bytes) (t : ℕ)
      → Keeps (Healthy nw) (Payments.off_chain_pay_htlc nw r a lock t)
  unfolding Payments.off_chain_pay_htlc
  pay_htlc-Keeps r a lock t = search (node_rules, pay_on_path-Keeps) depth 20

  paid-Keeps :
      (r a : ℕ) (o : Response ChannelTransactionRequest)
      → Keeps (Healthy nw) (Payments.paid nw r a o)
  unfolding Payments.paid
  paid-Keeps r a (ok request) = search node_rules depth 20
  paid-Keeps r a (err e) = search node_rules
  paid-Keeps r a panic = search node_rules

  pay-Keeps : (r a : ℕ) → Keeps (Healthy nw) (Payments.off_chain_pay nw r a)
  unfolding Payments.off_chain_pay
  pay-Keeps r a = search (user_rules, paid-Keeps) depth 20

  given-Healthy :
      (gas : ℕ) (o : Option MessageProcessor) (s : NodeInner)
      → Healthy nw s
      → Commands.answered (channel s.message_processor) gas ≡ o
      → Healthy nw (Commands.given nw (channel s.message_processor) o s).1
  unfolding Commands.given modify ◌>>=◌ pure lift Futures.channel
  given-Healthy gas none s y e = y
  given-Healthy gas (some p) s y e = record {
    wallet = y.wallet;
    processor = send_new-IsSound s.message_processor (value gas) p y.processor e;
    invoices = y.invoices;
  }

  travelled-Keeps : (r : Response ℕ) → Keeps (Healthy nw) (Commands.travelled nw r)
  unfolding Commands.travelled
  travelled-Keeps (ok gas) = Keeps-gets-bind _ _ (λ s y. given-Healthy gas _ s y refl)
  travelled-Keeps (err e) = search node_rules
  travelled-Keeps panic = search node_rules

  respond_sent-Keeps :
      (r : ℕ) (q : ChannelTransactionRequest) → Keeps (Healthy nw) (Commands.respond_sent nw r q)
  unfolding Commands.respond_sent
  respond_sent-Keeps r q = search node_rules

  executed-Keeps :
      (r : ℕ) (b : Bool) (o : Response ChannelTransactionRequest)
      → Keeps (Healthy nw) (Commands.executed nw r b o)
  unfolding Commands.executed
  executed-Keeps r false (ok q) = respond_sent-Keeps r q
  executed-Keeps r true (ok q) = search (user_rules, travelled-Keeps) depth 20
  executed-Keeps r b (err e) = search node_rules
  executed-Keeps r b panic = search node_rules

  granted-Keeps :
      (p hash : ℕ) (r : Response ChannelTransactionResponse)
      → Keeps (Healthy nw) (Commands.granted nw p hash r)
  unfolding Commands.granted
  granted-Keeps p hash (ok t) = search user_rules
  granted-Keeps p hash (err e) = search node_rules
  granted-Keeps p hash panic = search node_rules

  rejected-Keeps :
      (p hash : ℕ) (r : Response (Unit {0})) → Keeps (Healthy nw) (Commands.rejected nw p hash r)
  unfolding Commands.rejected
  rejected-Keeps p hash (ok t) = search node_rules
  rejected-Keeps p hash (err e) = search node_rules
  rejected-Keeps p hash panic = search node_rules

  decided-Keeps : (p hash : ℕ) (b : Bool) → Keeps (Healthy nw) (Commands.decided nw p hash b)
  unfolding Commands.decided
  decided-Keeps p hash false = search (user_rules, rejected-Keeps) depth 20
  decided-Keeps p hash true = search (user_rules, granted-Keeps) depth 20

  timeout-Keeps : (t : ℕ) → Keeps (Healthy nw) (Commands.set_timeout nw t)
  unfolding Commands.set_timeout modify
  timeout-Keeps t = record { at = λ s y. y }

  pub user-Keeps : (msg : NodeMessage) → Keeps (Healthy nw) (handle_node_msg nw msg)
  unfolding handle_node_msg responded Commands.execute_script Commands.deposit Commands.withdraw
      Commands.open_channel Commands.channel_balance Commands.tnx_by_sn
      Commands.channel_transaction_proposal
  user-Keeps (Events.execute r p n b args) = search (user_rules, executed-Keeps) depth 20
  user-Keeps (Events.deposit r a) = search (user_rules, respond_sent-Keeps) depth 20
  user-Keeps (Events.open_channel r a b) = search (user_rules, respond_sent-Keeps) depth 20
  user-Keeps (Events.withdraw r a) = search (user_rules, respond_sent-Keeps) depth 20
  user-Keeps (Events.channel_pay r a) = search (node_rules, pay-Keeps) depth 20
  user-Keeps (Events.channel_pay_htlc r a lock t) = search (node_rules, pay_htlc-Keeps) depth 20
  user-Keeps (Events.channel_balance p) = search user_rules depth 20
  user-Keeps (Events.txn_by_sn p n) = search user_rules depth 20
  user-Keeps (Events.set_timeout t) = timeout-Keeps t
  user-Keeps (Events.channel_transaction_proposal p hash b) =
      search (user_rules, decided-Keeps) depth 20
