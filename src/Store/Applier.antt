-- ===== src/Store/Applier.antt =====
-- sgwallet/src/tx_applier.rs: a transaction is committed with the ledger info that an accumulator in
-- memory gives, and the store checks it against the accumulator on disk.
use stargate.Common.{
  ℕ, ◌+◌, Bool, true, none, some, List, [], ◌∷◌, ◌++◌, ◌==◌, length, if◌then◌else◌,
}
use stargate.Common.Outcome.{Outcome, ok, panic, ◌>>=◌, ◌>>◌, ensure, assert}
use stargate.Store.{
  LedgerInfo, ChannelTransactionToCommit, Hashes, StorageError, sequence_mismatch, ChannelStore,
  sequence_number, is_travel,
}
use stargate.Store.Read.{get_startup_info}
use stargate.Store.Write.{transaction_info, save_tx}

-- `AppliedTrees`; the accumulator is known by its leaves
pub record TxApplier : Type 0 where
  pub epoch : ℕ
  pub leaves : List ℕ

-- TxApplier::new; an error while reading the startup info is a panic
unfoldable pub new : ChannelStore → Outcome StorageError TxApplier
unfolding get_startup_info
new s = elim (get_startup_info s) [
  | ok none ↦ ok (record { epoch = 0; leaves = [] })
  | ok (some info) ↦
      ok (record { epoch = info.ledger_info.epoch; leaves = info.ledger_frozen_subtree_hashes })
  | _ ↦ panic
]

-- the ledger info that goes with a transaction
unfoldable pub ledger_info_of : Hashes → ℕ → TxApplier → ChannelTransactionToCommit → LedgerInfo
ledger_info_of h now a tx =
    let n = sequence_number h tx.signed_channel_txn in
    record {
      version = n;
      transaction_accumulator_hash =
          h.accumulator_root (a.leaves ++ h.info_hash (transaction_info h tx) ∷ []);
      epoch = if is_travel tx.signed_channel_txn then n else a.epoch;
      timestamp_usecs = now;
    }

unfoldable pub apply :
    Hashes
    → Bool
    → ℕ
    → ChannelStore
    → TxApplier
    → ChannelTransactionToCommit
    → Outcome StorageError (ChannelStore × TxApplier)
apply h disk_works now s a tx = do
  let n = sequence_number h tx.signed_channel_txn
  ensure (n == length a.leaves) sequence_mismatch
  let new_leaves = a.leaves ++ h.info_hash (transaction_info h tx) ∷ []
  assert (length new_leaves == n + 1)
  let ledger_info = ledger_info_of h now a tx
  s' ← save_tx h disk_works s tx n ledger_info true
  ok (s', record { epoch = ledger_info.epoch; leaves = new_leaves })
