-- ===== src/Channel/Kept.antt =====
-- sgwallet/src/channel/channel.rs: a channel changes in six ways only. What each of them
-- keeps, every handler keeps (the module below).
pub mod Handlers
use stargate.Common.{ℕ, ◌≡◌, refl, Bool, true, false, Option, none, some}
use stargate.Common.Outcome.{Outcome, ok, err, panic}
use stargate.Common.Dict.{Dict}
use stargate.Libra.{TransactionOutput, SignedTransaction}
use stargate.Proposal.{ChannelTransaction, ChannelTransactionSigs, PendingTransaction}
use stargate.Stm.{Error, ChannelState, advance_state}
use stargate.Store.{ChannelStore, ChannelTransactionToCommit, StorageError, write_schemas, write_op}
use stargate.Store.Read
use stargate.Store.Write
use stargate.Store.Applier
use stargate.Channel.{Channel, World, ChannelHandler, Effect, emit, from_storage}
use stargate.Common.Handler.{modify, Keeps, keeps_rules}
use stargate.Channel.Persist.{
  stop, write_store, save_over, applied_up_to, commit_result, pending_txn, persist_pending,
  clear_pending_txn, save_pending_txn, check_applied, commit, advanced, or_default, apply,
  apply_travel,
}

-- the channel with another pending transaction, on disk and in memory
abbrev pub with_pending : Option PendingTransaction → Channel → Channel
with_pending p c = record c {
  store = record c.store { db = record c.store.db { pending = p }; pending_txn = p };
}

abbrev pub stopped : Channel → Channel
stopped c = record c { stopping = true }

-- the machine taken up from the store
unfoldable pub resumed : Option ChannelState → Channel → Channel
resumed state c = record c {
  stm =
      advance_state c.stm state (or_default c.store.latest_witness)
        (Read.get_participant_keys c.store);
}

-- `P` outlasts each change of a channel
pub record Kept (w : World) (P : Channel → Type 0) : Type 0 where
  pub emits : (e : Effect) (c : Channel) → P c → P (emit e c)
  pub stops : (c : Channel) → P c → P (stopped c)
  pub pendings : (p : Option PendingTransaction) (c : Channel) → P c → P (with_pending p c)
  pub commits :
      (state : Option ChannelState) (tx : ChannelTransactionToCommit) (c : Channel)
      (s : ChannelStore) (a : Applier.TxApplier)
      → Applier.apply w.h w.disk_works w.now c.store c.applier tx ≡ ok (s, a)
      → P c
      → P (advanced state c s a)
  pub resumes : (state : Option ChannelState) (c : Channel) → P c → P (resumed state c)

module _ (w : World) {P : Channel → Type 0} (k : Kept w P) where
  stored_pending :
      (d : Bool) (p : PendingTransaction) (c : Channel)
      → P c
      → P (write_store (from_storage (Write.save_pending_txn d c.store p true)) c).1
  unfolding write_store Write.save_pending_txn Read.commit write_schemas write_op
  stored_pending true p c y = k.pendings (some p) c y
  stored_pending false p c y = y

  stored_none :
      (d : Bool) (c : Channel)
      → P c
      → P (write_store (from_storage (Write.clear_pending_txn d c.store)) c).1
  unfolding write_store Write.clear_pending_txn Read.commit write_schemas write_op
  stored_none true c y = k.pendings none c y
  stored_none false c y = y

  persist_pending-Keeps : (p : PendingTransaction) → Keeps P (persist_pending w p)
  unfolding persist_pending
  persist_pending-Keeps p = record { at = stored_pending w.disk_works p }

  pub clear_pending_txn-Keeps : Keeps P (clear_pending_txn w)
  unfolding clear_pending_txn
  clear_pending_txn-Keeps = record { at = stored_none w.disk_works }

  pub emit-Keeps : (e : Effect) → Keeps {E = Error} P (modify (emit e))
  unfolding modify
  emit-Keeps e = record { at = k.emits e }

  pub resumed-Keeps : (state : Option ChannelState) → Keeps {E = Error} P (modify (resumed state))
  unfolding modify
  resumed-Keeps state = record { at = k.resumes state }

  pub stop-Keeps : Keeps P stop
  unfolding stop modify
  stop-Keeps = record { at = k.stops }

  pub pending_txn-Keeps : Keeps P pending_txn
  unfolding pending_txn
  pending_txn-Keeps = search keeps_rules

  save_over-Keeps :
      (p : PendingTransaction) (current : Option PendingTransaction)
      → Keeps P (save_over w p current)
  unfolding save_over
  save_over-Keeps p none = persist_pending-Keeps p
  save_over-Keeps p (some cur) = search (keeps_rules, persist_pending-Keeps)

  pub save_pending_txn-Keeps : (p : PendingTransaction) → Keeps P (save_pending_txn w p)
  unfolding save_pending_txn
  save_pending_txn-Keeps p = search (keeps_rules, pending_txn-Keeps, save_over-Keeps)

  applied_up_to-Keeps :
      (n : ℕ) (s : ChannelStore) (info : Option Read.StartupInfo) → Keeps P (applied_up_to n s info)
  unfolding applied_up_to
  applied_up_to-Keeps n s none = search keeps_rules
  applied_up_to-Keeps n s (some info) = search keeps_rules

  pub check_applied-Keeps : (n : ℕ) → Keeps P (check_applied n)
  unfolding check_applied
  check_applied-Keeps n = search (keeps_rules, applied_up_to-Keeps)

  committed :
      (cs : Option ChannelState) (tx : ChannelTransactionToCommit) (c : Channel)
      (r : Outcome StorageError (ChannelStore × Applier.TxApplier))
      → Applier.apply w.h w.disk_works w.now c.store c.applier tx ≡ r
      → P c
      → P (commit_result cs c (from_storage r)).1
  unfolding commit_result
  committed cs tx c (ok (s, a)) e y = k.commits cs tx c s a e y
  committed cs tx c (err _) e y = y
  committed cs tx c panic e y = y

  commit-Keeps :
      (cs : Option ChannelState) (tx : ChannelTransactionToCommit) → Keeps P (commit w cs tx)
  unfolding commit
  commit-Keeps cs tx = record { at = λ c y. committed cs tx c _ refl y }

  pub apply-Keeps :
      (t : ChannelTransaction) (o : TransactionOutput) (s : Dict ChannelTransactionSigs)
      → Keeps P (apply w t o s)
  unfolding apply
  apply-Keeps t o s = search commit-Keeps

  pub apply_travel-Keeps :
      (v : ℕ) (t : SignedTransaction) (m g : ℕ) → Keeps P (apply_travel w v t m g)
  unfolding apply_travel
  apply_travel-Keeps v t m g = search (keeps_rules, commit-Keeps)
