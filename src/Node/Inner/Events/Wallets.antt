-- ===== src/Node/Inner/Events/Wallets.antt =====
-- sgwallet/src/wallet.rs: what a node asks of its wallet keeps every channel ready for a restart.
use stargate.Common.{ℕ, List}
use stargate.Common.Handler.{Keeps, keeps_rules}
use stargate.Libra.{Bytes, TransactionArgument}
use stargate.Proposal.{ChannelOp}
use stargate.Proposal.Requests.{ChannelTransactionRequest, ChannelTransactionResponse}
use stargate.Wallet.{WalletWorld, get_all_channels, WalletHandler}
use stargate.Wallet.Handle.{
  execute_async, verify_txn, approve_txn, reject_txn, verify_txn_response, force_travel_txn,
  apply_txn, get_pending_txn, get_pending_txn_request,
}
use stargate.Wallet.Actions.{
  open_channel, deposit, withdraw, transfer, send_payment, receive_payment, execute_script,
}
use stargate.Wallet.Reads.{
  channel_sequence_number, channel_balance, channel_participant_account_resource,
  get_txn_by_channel_sequence_number,
}
use stargate.Wallet.Calls.{
  call, propose, verify, approve, reject, verify_response, force, apply, pending, number, resource,
  transaction,
}
use stargate.Wallet.Calls.Durable.{AllReady, call-AllReady}

module _ (ww : WalletWorld) where
  abbrev pub KeepsReady : {A : Type 0} → WalletHandler A → Type 0
  KeepsReady m = Keeps (AllReady ww.world.h) m

  execute_async-Ready :
      (p : ℕ) (op : ChannelOp) (args : List TransactionArgument)
      → KeepsReady (execute_async ww p op args)
  unfolding call
  execute_async-Ready p op args = record { at = call-AllReady ww (propose p op args) }

  pub open_channel-Ready : (p a b : ℕ) → KeepsReady (open_channel ww p a b)
  unfolding open_channel
  open_channel-Ready p a b = execute_async-Ready p _ _

  pub deposit-Ready : (p a : ℕ) → KeepsReady (deposit ww p a)
  unfolding deposit
  deposit-Ready p a = execute_async-Ready p _ _

  pub withdraw-Ready : (p a : ℕ) → KeepsReady (withdraw ww p a)
  unfolding withdraw
  withdraw-Ready p a = execute_async-Ready p _ _

  pub transfer-Ready : (p a : ℕ) → KeepsReady (transfer ww p a)
  unfolding transfer
  transfer-Ready p a = execute_async-Ready p _ _

  pub send_payment-Ready :
      (p a : ℕ) (lock : Bytes) (t : ℕ) → KeepsReady (send_payment ww p a lock t)
  unfolding send_payment
  send_payment-Ready p a lock t = execute_async-Ready p _ _

  pub receive_payment-Ready :
      (p : ℕ) (preimage : Bytes) → KeepsReady (receive_payment ww p preimage)
  unfolding receive_payment
  receive_payment-Ready p preimage = execute_async-Ready p _ _

  pub execute_script-Ready :
      (p : ℕ) (package_name script_name : Bytes) (args : List TransactionArgument)
      → KeepsReady (execute_script ww p package_name script_name args)
  unfolding execute_script
  execute_script-Ready p package_name script_name args = execute_async-Ready p _ _

  pub verify_txn-Ready : (p : ℕ) (r : ChannelTransactionRequest) → KeepsReady (verify_txn ww p r)
  unfolding call
  verify_txn-Ready p r = record { at = call-AllReady ww (verify p r) }

  pub approve_txn-Ready : (p id : ℕ) → KeepsReady (approve_txn ww p id)
  unfolding call
  approve_txn-Ready p id = record { at = call-AllReady ww (approve p id) }

  pub reject_txn-Ready : (p id : ℕ) → KeepsReady (reject_txn ww p id)
  unfolding call
  reject_txn-Ready p id = record { at = call-AllReady ww (reject p id) }

  pub verify_txn_response-Ready :
      (p : ℕ) (r : ChannelTransactionResponse) → KeepsReady (verify_txn_response ww p r)
  unfolding call
  verify_txn_response-Ready p r = record { at = call-AllReady ww (verify_response p r) }

  pub force_travel_txn-Ready : (p : ℕ) → KeepsReady (force_travel_txn ww p)
  unfolding call
  force_travel_txn-Ready p = record { at = call-AllReady ww (force p) }

  pub apply_txn-Ready : (p : ℕ) → KeepsReady (apply_txn ww p)
  unfolding call
  apply_txn-Ready p = record { at = call-AllReady ww (apply p) }

  get_pending_txn-Ready : (p : ℕ) → KeepsReady (get_pending_txn ww p)
  unfolding call
  get_pending_txn-Ready p = record { at = call-AllReady ww (pending p) }

  pub get_pending_txn_request-Ready : (p : ℕ) → KeepsReady (get_pending_txn_request ww p)
  unfolding get_pending_txn_request
  get_pending_txn_request-Ready p = search (keeps_rules, get_pending_txn-Ready)

  pub channel_sequence_number-Ready : (p : ℕ) → KeepsReady (channel_sequence_number ww p)
  unfolding call
  channel_sequence_number-Ready p = record { at = call-AllReady ww (number p) }

  resource-Ready : (p a : ℕ) → KeepsReady (channel_participant_account_resource ww p a)
  unfolding call
  resource-Ready p a = record { at = call-AllReady ww (resource p a) }

  pub channel_balance-Ready : (p : ℕ) → KeepsReady (channel_balance ww p)
  unfolding channel_balance
  channel_balance-Ready p = search (keeps_rules, resource-Ready) depth 10

  pub transaction-Ready : (p n : ℕ) → KeepsReady (get_txn_by_channel_sequence_number ww p n)
  unfolding call
  transaction-Ready p n = record { at = call-AllReady ww (transaction p n) }

  pub get_all_channels-Ready : KeepsReady get_all_channels
  unfolding get_all_channels
  get_all_channels-Ready = record { at = λ s y. y }
