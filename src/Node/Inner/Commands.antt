-- ===== src/Node/Inner/Commands.antt =====
-- node/node_internal/src/node.rs, NodeInner: the commands of the node's user.
use stargate.Common.{ℕ, Bool, true, false, Option, none, some, List}
use stargate.Common.Outcome.{ok, err, panic}
use stargate.Common.Text.{codes}
use stargate.Common.Handler.{◌>>=◌, ◌>>◌, pure, lift, gets, modify}
use stargate.Libra.{Bytes, TransactionArgument}
use stargate.Messages
use stargate.Messages.Errors.{reject}
use stargate.Proposal.Requests.{ChannelTransactionRequest, ChannelTransactionResponse}
use stargate.Store.{SignedChannelTransaction}
use stargate.Wallet.Actions
use stargate.Wallet.Handle.{approve_txn, reject_txn, force_travel_txn}
use stargate.Wallet.Reads
use stargate.Node.Futures
use stargate.Node.Futures.{MessageProcessor, value, channel}
use stargate.Node.Inner.{
  NodeWorld, NodeHandler, Response, sg_error, on_wallet, attempt, unwrap, send_error,
  send_channel_request, new_future,
}
use stargate.Node.Inner.Incoming.{apply_txn}

-- the channel of a future that is answered at once
abbrev pub answered : MessageProcessor × ℕ → ℕ → Option MessageProcessor
answered made gas = Futures.send made.0 made.1 (value gas)

module _ (nw : NodeWorld) where
  unfoldable pub respond_sent : ℕ → ChannelTransactionRequest → NodeHandler (Response ℕ)
  respond_sent receiver request =
      attempt (send_channel_request nw receiver request Messages.channel_transaction_request)

  -- the errors of the wallet are unwrapped
  unfoldable pub open_channel : ℕ → ℕ → ℕ → NodeHandler (Response ℕ)
  open_channel receiver sender_amount receiver_amount = do
    txn ← unwrap (on_wallet (Actions.open_channel nw.ww receiver sender_amount receiver_amount))
    respond_sent receiver txn

  unfoldable pub deposit : ℕ → ℕ → NodeHandler (Response ℕ)
  deposit receiver sender_amount = do
    txn ← unwrap (on_wallet (Actions.deposit nw.ww receiver sender_amount))
    respond_sent receiver txn

  unfoldable pub withdraw : ℕ → ℕ → NodeHandler (Response ℕ)
  withdraw receiver sender_amount = do
    txn ← unwrap (on_wallet (Actions.withdraw nw.ww receiver sender_amount))
    respond_sent receiver txn

  -- a new future, with the gas in its channel
  unfoldable pub given : MessageProcessor × ℕ → Option MessageProcessor → NodeHandler (Response ℕ)
  given made none = lift panic
  given made (some p) = do modify (λ s. record s { message_processor = p }); pure (ok made.1)

  unfoldable pub travelled : Response ℕ → NodeHandler (Response ℕ)
  travelled (ok gas) = do
    made ← gets (λ s. channel s.message_processor)
    given made (answered made gas)
  travelled (err e) = pure (err e)
  travelled panic = lift panic

  unfoldable pub executed : ℕ → Bool → Response ChannelTransactionRequest → NodeHandler (Response ℕ)
  executed receiver false (ok request) = respond_sent receiver request
  executed receiver true (ok request) = do
    r ← attempt (on_wallet (force_travel_txn nw.ww receiver))
    travelled r
  executed receiver force_execute (err e) = pure (err e)
  executed receiver force_execute panic = lift panic

  unfoldable pub execute_script :
      ℕ → Bytes → Bytes → Bool → List TransactionArgument → NodeHandler (Response ℕ)
  execute_script receiver package_name script_name force_execute args = do
    r ← attempt (on_wallet (Actions.execute_script nw.ww receiver package_name script_name args))
    executed receiver force_execute r

  unfoldable pub channel_balance : ℕ → NodeHandler (Response ℕ)
  channel_balance participant = attempt (on_wallet (Reads.channel_balance nw.ww participant))

  unfoldable pub tnx_by_sn : ℕ → ℕ → NodeHandler (Response SignedChannelTransaction)
  tnx_by_sn participant channel_seq_number =
      attempt
        (on_wallet (Reads.get_txn_by_channel_sequence_number nw.ww participant channel_seq_number))

  unfoldable pub set_timeout : ℕ → NodeHandler (Unit {0})
  set_timeout timeout = modify (λ s. record s { default_future_timeout = timeout })

  unfoldable pub granted : ℕ → ℕ → Response ChannelTransactionResponse → NodeHandler (Unit {0})
  granted participant hash (ok t) = apply_txn nw participant hash t
  granted participant hash (err e) = send_error nw participant e hash
  granted participant hash panic = lift panic

  -- the peer is told in both cases
  unfoldable pub rejected : ℕ → ℕ → Response (Unit {0}) → NodeHandler (Unit {0})
  rejected participant hash (ok _) =
      send_error nw participant
        (sg_error (record {
          error_code = reject;
          error_message = codes "transaction reject by participant";
        }))
        hash
  rejected participant hash (err e) = send_error nw participant e hash
  rejected participant hash panic = lift panic

  unfoldable pub decided : ℕ → ℕ → Bool → NodeHandler (Unit {0})
  decided participant hash false = do
    r ← attempt (on_wallet (reject_txn nw.ww participant hash))
    rejected participant hash r
  decided participant hash true = do
    r ← attempt (on_wallet (approve_txn nw.ww participant hash))
    granted participant hash r

  unfoldable pub channel_transaction_proposal : ℕ → ℕ → Bool → NodeHandler (Response ℕ)
  channel_transaction_proposal participant hash approve = do
    decided participant hash approve
    id ← new_future nw hash
    pure (ok id)
