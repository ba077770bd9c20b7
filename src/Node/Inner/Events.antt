-- ===== src/Node/Inner/Events.antt =====
-- node/node_internal/src/node.rs: the commands to a node, and what can happen to it. A handler that
-- panics ends its own task only, and the node goes on with what was written.
pub mod Wallets
pub mod Keeping
pub mod Peers
pub mod Users
pub mod Healthy
use stargate.Common.{ℕ, Bool, List}
use stargate.Common.Handler.{◌>>=◌, ◌>>◌, pure}
use stargate.Libra.{Bytes, TransactionArgument}
use stargate.Invoice.{new_invoice}
use stargate.Node.Futures.{remove_future, drop_future, poll}
use stargate.Node.Inner.{NodeWorld, NodeInner, NodeHandler, Response, NetworkMessage, unwrap}
use stargate.Node.Inner.Incoming.{handle_network_msg}
use stargate.Node.Inner.Payments.{off_chain_pay, off_chain_pay_htlc}
use stargate.Node.Inner.Commands
use stargate.Node.Inner.Commands.{tnx_by_sn}
use stargate.Node.Inner.Startup.{init, resume}
use stargate.Wallet.Calls.{Call, call}

-- Install, DeployModule and ChainBalance, which call the chain, are left out.
pub data NodeMessage : Type 0 where
  execute :
      (receiver : ℕ) (package_name script_name : Bytes) (force_execute : Bool)
      → List TransactionArgument
      → NodeMessage
  deposit withdraw channel_pay : (receiver amount : ℕ) → NodeMessage
  open_channel : (receiver sender_amount receiver_amount : ℕ) → NodeMessage
  channel_pay_htlc : (receiver amount : ℕ) (hash_lock : Bytes) (timeout : ℕ) → NodeMessage
  channel_balance : (participant : ℕ) → NodeMessage
  txn_by_sn : (participant channel_seq_number : ℕ) → NodeMessage
  set_timeout : (default_future_timeout : ℕ) → NodeMessage
  channel_transaction_proposal : (participant hash : ℕ) (approve : Bool) → NodeMessage

-- what happens to a node: a message of a peer or of its user, a new invoice, a delay that is over, a
-- future that nobody holds, the start, an awaited future, or a request to its wallet
pub data NodeEvent : Type 0 where
  network_msg : NetworkMessage → NodeEvent
  node_msg : NodeMessage → NodeEvent
  add_invoice : (preimage amount : ℕ) → NodeEvent
  delay_over future_dropped : (id : ℕ) → NodeEvent
  started : NodeEvent
  resumed : (id : ℕ) → List ℕ → NodeEvent
  wallet_call : Call → NodeEvent

-- the responder's message goes to the user
unfoldable pub responded : {A : Type 0} → NodeHandler (Response A) → NodeHandler (Unit {0})
responded m = m >>= λ _. pure tt

module _ (nw : NodeWorld) where
  unfoldable pub handle_node_msg : NodeMessage → NodeHandler (Unit {0})
  handle_node_msg (execute receiver package_name script_name force_execute args) =
      responded (Commands.execute_script nw receiver package_name script_name force_execute args)
  handle_node_msg (deposit receiver amount) = responded (Commands.deposit nw receiver amount)
  handle_node_msg (open_channel receiver sender_amount receiver_amount) =
      responded (Commands.open_channel nw receiver sender_amount receiver_amount)
  handle_node_msg (withdraw receiver amount) = responded (Commands.withdraw nw receiver amount)
  handle_node_msg (channel_pay receiver amount) =
      unwrap (responded (off_chain_pay nw receiver amount))
  handle_node_msg (channel_pay_htlc receiver amount hash_lock timeout) =
      unwrap (responded (off_chain_pay_htlc nw receiver amount hash_lock timeout))
  handle_node_msg (channel_balance participant) =
      responded (Commands.channel_balance nw participant)
  handle_node_msg (txn_by_sn participant n) = responded (tnx_by_sn nw participant n)
  handle_node_msg (set_timeout t) = Commands.set_timeout nw t
  handle_node_msg (channel_transaction_proposal participant hash approve) =
      responded (Commands.channel_transaction_proposal nw participant hash approve)

  -- the node after an event
  unfoldable pub happen : NodeEvent → NodeInner → NodeInner
  happen (network_msg msg) s = (handle_network_msg nw msg s).1
  happen (node_msg msg) s = (handle_node_msg msg s).1
  happen (add_invoice preimage amount) s = record s {
    invoice_mgr = (new_invoice nw.c s.invoice_mgr preimage amount s.wallet.account.address).0;
  }
  happen (delay_over hash) s = record s {
    message_processor = remove_future s.message_processor hash;
  }
  happen (future_dropped id) s = record s { message_processor = drop_future s.message_processor id }
  happen started s = (init nw s).1
  happen (resumed id participants) s = (resume nw id participants (poll s.message_processor id) s).1
  happen (wallet_call r) s = record s { wallet = call nw.ww r s.wallet }
