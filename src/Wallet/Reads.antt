-- ===== src/Wallet/Reads.antt =====
-- sgwallet/src/wallet.rs, WalletHandle: what it reads of a channel.
use stargate.Common.{ℕ, Option, none, some}
use stargate.Common.Outcome.{Outcome, ok, err, panic}
use stargate.Common.Handler.{◌>>=◌, pure, lift, gets}
use stargate.Libra.{Bytes}
use stargate.Store.{
  AppliedChannelTxn, offchain, travel, SignedChannelTransaction, ChannelStore, StorageError,
  ChannelTransactionInfo,
}
use stargate.Store.Read
use stargate.Channel.Negotiate
use stargate.Wallet.{
  WalletWorld, WalletHandler, WalletError, is_travel_txn, chain_error, storage_error,
  generate_channel_address, on_channel, database, put_db,
}
use stargate.Wallet.Handle.{channel_with}

module _ (ww : WalletWorld) where
  abbrev pub decoded :
      {A : Type 0} → (Bytes → Option A) → Option Bytes → Outcome WalletError (Option A)
  decoded make none = ok none
  decoded make (some blob) = elim (make blob) [ none ↦ err chain_error | some a ↦ ok (some a) ]

  abbrev pub or_zero : Option ℕ → ℕ
  or_zero none = 0
  or_zero (some n) = n

  unfoldable pub channel_participant_account_resource : ℕ → ℕ → WalletHandler (Option ℕ)
  channel_participant_account_resource participant addr = do
    channel_address ← channel_with ww participant
    blob ← on_channel channel_address (
        Negotiate.accessing_resource ww.world
          (record { address = channel_address; path = ww.participant_path addr }))
    lift (decoded ww.make_participant blob)

  unfoldable pub participant_channel_balance : ℕ → WalletHandler ℕ
  participant_channel_balance participant = do
    resource ← channel_participant_account_resource participant participant
    pure (or_zero resource)

  unfoldable pub channel_balance : ℕ → WalletHandler ℕ
  channel_balance participant = do
    me ← gets (λ s. s.account.address)
    resource ← channel_participant_account_resource participant me
    pure (or_zero resource)

  unfoldable pub channel_sequence_number : ℕ → WalletHandler ℕ
  channel_sequence_number participant = do
    channel_address ← channel_with ww participant
    blob ← on_channel channel_address (
        Negotiate.accessing_resource ww.world
          (record { address = channel_address; path = ww.world.x.mirror_path channel_address }))
    mirror ← lift (decoded ww.world.x.make_mirror blob)
    pure (or_zero mirror)

  abbrev pub read_offchain :
      Outcome StorageError (ChannelTransactionInfo × AppliedChannelTxn)
      → Outcome WalletError SignedChannelTransaction
  read_offchain (ok (_, offchain t)) = ok t
  read_offchain (ok (_, travel t)) = err is_travel_txn
  read_offchain (err e) = err (storage_error e)
  read_offchain panic = panic

  -- a second store is opened on the channel's database
  unfoldable pub read_from :
      ℕ → ℕ → Outcome StorageError ChannelStore → WalletHandler SignedChannelTransaction
  read_from a n (ok store) s =
      (read_offchain (Read.get_transaction_by_channel_seq_number store n), put_db a store.db s)
  read_from a n (err e) s = (err (storage_error e), s)
  read_from a n panic s = (panic, s)

  unfoldable pub get_txn_by_channel_sequence_number : ℕ → ℕ → WalletHandler SignedChannelTransaction
  get_txn_by_channel_sequence_number participant channel_seq_number s =
      let (channel_address, ps) = generate_channel_address ww s.account.address participant in
      read_from channel_address channel_seq_number
        (Read.new ww.world.h ww.world.disk_works ps (database s channel_address)) s
