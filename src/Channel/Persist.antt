-- ===== src/Channel/Persist.antt =====
-- sgwallet/src/channel/channel.rs: how a channel reads and writes its store, and applies a transaction.
use mathlib.Core.Bool.{decide}
use stargate.Common.{ℕ, true, Option, none, some, ltb, if◌then◌else◌}
use stargate.Common.Dict.{Dict}
use stargate.Common.Outcome.{Outcome, ok, err, panic}
use stargate.Libra.{empty_write_set, TransactionOutput, SignedTransaction, Witness, default_witness}
use stargate.Proposal.{
  ChannelTransaction, ChannelTransactionSigs, PendingTransaction, PendingTransaction-discrete,
  newer_than,
}
use stargate.Stm.{Error, save_conflict, externally, ChannelState, advance_state}
use stargate.Store.{
  ChannelTransactionInfo, AppliedChannelTxn, offchain, travel, ChannelStore,
  ChannelTransactionToCommit,
}
use stargate.Store.Read
use stargate.Store.Write
use stargate.Store.Applier
use stargate.Channel.{Channel, World, ChannelHandler, from_storage}
use stargate.Common.Handler.{◌>>=◌, pure, fail, lift, gets, modify}

unfoldable pub pending_txn : ChannelHandler (Option PendingTransaction)
pending_txn = gets (λ c. c.store.pending_txn)

-- `ctx.set_status(ActorStatus::Stopping)`
unfoldable pub stop : ChannelHandler (Unit {0})
stop = modify (λ c. record c { stopping = true })

-- a write of the store; on an error the store is as it was
unfoldable pub write_store : Outcome Error ChannelStore → ChannelHandler (Unit {0})
write_store (ok s) c = (ok tt, record c { store = s })
write_store (err e) c = (err e, c)
write_store panic c = (panic, c)

unfoldable pub persist_pending : World → PendingTransaction → ChannelHandler (Unit {0})
persist_pending w p c =
    write_store (from_storage (Write.save_pending_txn w.disk_works c.store p true)) c

unfoldable pub clear_pending_txn : World → ChannelHandler (Unit {0})
clear_pending_txn w c = write_store (from_storage (Write.clear_pending_txn w.disk_works c.store)) c

-- nothing is written if the transaction is the one in storage, and an older life is refused
unfoldable pub save_over :
    World → PendingTransaction → Option PendingTransaction → ChannelHandler (Unit {0})
save_over w p none = persist_pending w p
save_over w p (some cur) =
    if decide (PendingTransaction-discrete cur p)
    then pure tt
    else if newer_than cur p
    then fail save_conflict
    else persist_pending w p

unfoldable pub save_pending_txn : World → PendingTransaction → ChannelHandler (Unit {0})
save_pending_txn w p = do current ← pending_txn; save_over w p current

unfoldable pub applied_up_to :
    ℕ
    → ChannelStore
    → Option Read.StartupInfo
    → ChannelHandler (Option (ChannelTransactionInfo × AppliedChannelTxn))
applied_up_to channel_sequence_number store none = pure none
applied_up_to channel_sequence_number store (some info) =
    if ltb info.latest_version channel_sequence_number then pure none else do
      t ←
          lift (
            from_storage (Read.get_transaction_by_channel_seq_number store channel_sequence_number))
      pure (some t)

unfoldable pub check_applied :
    ℕ → ChannelHandler (Option (ChannelTransactionInfo × AppliedChannelTxn))
check_applied channel_sequence_number = do
  store ← gets (λ c. c.store)
  info ← lift (from_storage (Read.get_startup_info store))
  applied_up_to channel_sequence_number store info

abbrev pub or_default : Option Witness → Witness
or_default none = default_witness
or_default (some w) = w

-- the machine after a commit, from the store that the commit left
unfoldable pub advanced : Option ChannelState → Channel → ChannelStore → Applier.TxApplier → Channel
advanced channel_state c s a = record c {
  store = s;
  applier = a;
  stm =
      advance_state c.stm channel_state (or_default s.latest_witness) (Read.get_participant_keys s);
}

unfoldable pub commit_result :
    Option ChannelState
    → Channel
    → Outcome Error (ChannelStore × Applier.TxApplier)
    → Outcome Error (Unit {0}) × Channel
commit_result channel_state c (ok (s, a)) = (ok tt, advanced channel_state c s a)
commit_result channel_state c (err e) = (err e, c)
commit_result channel_state c panic = (panic, c)

-- `tx_applier.apply`, then `stm.advance_state`
unfoldable pub commit :
    World → Option ChannelState → ChannelTransactionToCommit → ChannelHandler (Unit {0})
commit w channel_state tx c =
    commit_result channel_state c
      (from_storage (Applier.apply w.h w.disk_works w.now c.store c.applier tx))

-- Channel::apply: the transaction of a pending proposal, off the chain
unfoldable pub apply :
    World
    → ChannelTransaction
    → TransactionOutput
    → Dict ChannelTransactionSigs
    → ChannelHandler (Unit {0})
apply w channel_txn output signatures = commit w none (record {
  signed_channel_txn = offchain (record { raw_tx = channel_txn; signatures = signatures });
  write_set = output.write_set;
  major_status = output.major_status;
  gas_used = output.gas_used;
})

-- Channel::apply_travel: a transaction of the chain, with the channel's state at its version
unfoldable pub apply_travel : World → ℕ → SignedTransaction → ℕ → ℕ → ChannelHandler (Unit {0})
apply_travel w version signed_txn major_status gas_used = do
  stm ← gets (λ c. c.stm)
  state ← lift (externally (w.account_state_at stm.channel_address version))
  commit w (some state) (record {
    signed_channel_txn = travel signed_txn;
    write_set = empty_write_set;
    major_status = major_status;
    gas_used = gas_used;
  })
