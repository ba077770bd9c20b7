-- ===== src/Wallet/Actions.antt =====
-- sgwallet/src/wallet.rs, WalletHandle: the operations that it proposes.
use stargate.Common.{ℕ, List, [], ◌∷◌}
use stargate.Common.Text.{codes}
use stargate.Libra.{Bytes, TransactionArgument, address, u64, byte_array}
use stargate.Proposal.{ChannelOp, op_open, action, execute, close}
use stargate.Proposal.Requests.{ChannelTransactionRequest}
use stargate.Stm.Build.{default_address}
use stargate.Wallet.{WalletWorld, WalletHandler}
use stargate.Wallet.Handle.{execute_async}

-- an action of the module ChannelScript
abbrev pub channel_script : Bytes → ChannelOp
channel_script name = action default_address (codes "ChannelScript") name

abbrev pub payment_args : ℕ → ℕ → Bytes → ℕ → List TransactionArgument
payment_args participant amount hash_lock timeout =
    address participant ∷ u64 amount ∷ byte_array hash_lock ∷ u64 timeout ∷ []

abbrev pub preimage_args : Bytes → List TransactionArgument
preimage_args preimage = byte_array preimage ∷ []

module _ (ww : WalletWorld) where
  unfoldable pub open_channel : ℕ → ℕ → ℕ → WalletHandler ChannelTransactionRequest
  open_channel participant sender_amount receiver_amount =
      execute_async ww participant op_open
        (address participant ∷ u64 sender_amount ∷ u64 receiver_amount ∷ [])

  unfoldable pub deposit : ℕ → ℕ → WalletHandler ChannelTransactionRequest
  deposit receiver amount =
      execute_async ww receiver (channel_script (codes "deposit")) (u64 amount ∷ [])

  unfoldable pub send_payment : ℕ → ℕ → Bytes → ℕ → WalletHandler ChannelTransactionRequest
  send_payment participant amount hash_lock timeout =
      execute_async ww participant (channel_script (codes "send_payment"))
        (payment_args participant amount hash_lock timeout)

  unfoldable pub receive_payment : ℕ → Bytes → WalletHandler ChannelTransactionRequest
  receive_payment participant preimage =
      execute_async ww participant (channel_script (codes "receive_payment"))
        (preimage_args preimage)

  unfoldable pub recall_timeout_payment : ℕ → WalletHandler ChannelTransactionRequest
  recall_timeout_payment participant =
      execute_async ww participant (channel_script (codes "cancel_payment_after_timeout")) []

  unfoldable pub transfer : ℕ → ℕ → WalletHandler ChannelTransactionRequest
  transfer receiver amount =
      execute_async ww receiver (channel_script (codes "transfer"))
        (address receiver ∷ u64 amount ∷ [])

  unfoldable pub withdraw : ℕ → ℕ → WalletHandler ChannelTransactionRequest
  withdraw receiver amount =
      execute_async ww receiver (channel_script (codes "withdraw")) (u64 amount ∷ [])

  unfoldable pub close_channel : ℕ → WalletHandler ChannelTransactionRequest
  close_channel receiver = execute_async ww receiver close []

  unfoldable pub execute_script :
      ℕ → Bytes → Bytes → List TransactionArgument → WalletHandler ChannelTransactionRequest
  execute_script receiver package_name script_name args =
      execute_async ww receiver (execute package_name script_name) args
