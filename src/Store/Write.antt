-- ===== src/Store/Write.antt =====
-- sgstorage/src/channel_store.rs and the stores below it: what a store writes.
use stargate.Common.{
  ℕ, ◌+◌, Bool, Option, none, some, List, [], ◌∷◌, ◌++◌, take, ◌==◌, if◌then◌else◌,
}
use stargate.Common.Dict.{Dict, insert}
use stargate.Common.Outcome.{Outcome, ok, ◌>>=◌, ◌>>◌, ensure}
use stargate.Libra.{WriteSet}
use stargate.Proposal.{PendingTransaction}
use stargate.Store.{
  AppliedChannelTxn, ChannelTransactionInfo, LedgerInfo, ChannelTransactionToCommit, Hashes,
  StorageError, not_applicable, root_mismatch, Db, BatchOp, put_key, put_pending, delete_pending,
  put_transaction, put_by_account, put_info, put_write_set_item, put_leaves, put_ledger_info,
  ChannelStore, sequence_number, is_travel, signing_keys, proposer, generate_witness,
}
use stargate.Store.Read.{commit}

-- the known keys beside the keys that a transaction is signed with: those that are new
unfoldable pub updated_public_keys : Dict (Option ℕ) → List ℕ → Dict (Option ℕ)
updated_public_keys [] new_keys = []
updated_public_keys (_ ∷ m) [] = []
updated_public_keys ((addr, none) ∷ m) (k ∷ new_keys) =
    (addr, some k) ∷ updated_public_keys m new_keys
updated_public_keys ((addr, some o) ∷ m) (k ∷ new_keys) =
    let rest = updated_public_keys m new_keys in if o == k then rest else (addr, some k) ∷ rest

unfoldable pub put_keys : Dict (Option ℕ) → List BatchOp
put_keys [] = []
put_keys ((addr, k) ∷ m) = put_key addr k ∷ put_keys m

-- `participant_keys.append(&mut updated_public_keys)`
unfoldable pub append_keys : Dict (Option ℕ) → Dict (Option ℕ) → Dict (Option ℕ)
append_keys m [] = m
append_keys m ((addr, k) ∷ new_keys) = append_keys (insert addr k m) new_keys

-- ChannelWriteSetStore::put_write_set, from an index on
unfoldable pub put_write_set : ℕ → ℕ → WriteSet → List BatchOp
put_write_set version idx [] = []
put_write_set version idx (item ∷ ws) =
    put_write_set_item version idx item ∷ put_write_set version (idx + 1) ws

-- ChannelTransactionStore::put_transaction
unfoldable pub put_transaction_batch : Hashes → ℕ → AppliedChannelTxn → List BatchOp
put_transaction_batch h version txn =
    put_by_account (proposer txn) (sequence_number h txn) version ∷ put_transaction version txn ∷ []

unfoldable pub transaction_info : Hashes → ChannelTransactionToCommit → ChannelTransactionInfo
transaction_info h tx = record {
  txn_hash = h.applied_hash tx.signed_channel_txn;
  write_set_root_hash = h.write_set_root tx.write_set;
  major_status = tx.major_status;
  is_travel = is_travel tx.signed_channel_txn;
  gas_used = tx.gas_used;
}

-- the leaves after LedgerStore::put_tx_info appends at `version`
unfoldable pub appended : Hashes → Db → ChannelTransactionToCommit → ℕ → List ℕ
appended h db tx version = take version db.leaves ++ h.info_hash (transaction_info h tx) ∷ []

-- save_tx_impl: the batch, and the new root hash
unfoldable pub save_tx_impl : Hashes → Db → ChannelTransactionToCommit → ℕ → List BatchOp × ℕ
save_tx_impl h db tx version = (
  put_write_set version 0 tx.write_set
      ++ (put_transaction_batch h version tx.signed_channel_txn
          ++ (put_info version (transaction_info h tx)
              ∷ put_leaves (appended h db tx version)
              ∷ [])),
  h.accumulator_root (appended h db tx version),
)

-- the write batch of `save_tx` when its checks pass
unfoldable pub save_tx_batch :
    Hashes → ChannelStore → ChannelTransactionToCommit → ℕ → LedgerInfo → Bool → List BatchOp
save_tx_batch h s tx version ledger_info clear_pending_txn =
    put_keys (updated_public_keys s.participant_keys (signing_keys tx.signed_channel_txn))
    ++ ((save_tx_impl h s.db tx version).0
        ++ (put_ledger_info ledger_info.epoch ledger_info
            ∷ (if clear_pending_txn then delete_pending ∷ [] else [])))

-- `ledger_info` is always given. The store is unchanged when the result is an error.
unfoldable pub save_tx :
    Hashes
    → Bool
    → ChannelStore
    → ChannelTransactionToCommit
    → ℕ
    → LedgerInfo
    → Bool
    → Outcome StorageError ChannelStore
save_tx h disk_works s tx version ledger_info clear_pending_txn = do
  ensure (ledger_info.version == version) not_applicable
  ensure ((save_tx_impl h s.db tx version).1 == ledger_info.transaction_accumulator_hash)
      root_mismatch
  db' ← commit disk_works s.db (save_tx_batch h s tx version ledger_info clear_pending_txn)
  ok (record {
    db = db';
    latest_ledger_info = some ledger_info;
    latest_witness = some (generate_witness h tx.signed_channel_txn tx.write_set);
    pending_txn = if clear_pending_txn then none else s.pending_txn;
    participant_keys =
        append_keys s.participant_keys
          (updated_public_keys s.participant_keys (signing_keys tx.signed_channel_txn));
  })

unfoldable pub save_pending_txn :
    Bool → ChannelStore → PendingTransaction → Bool → Outcome StorageError ChannelStore
save_pending_txn disk_works s pending_txn persist =
    if persist
    then (do
      db' ← commit disk_works s.db (put_pending pending_txn ∷ [])
      ok (record s { db = db'; pending_txn = some pending_txn }))
    else ok (record s { pending_txn = some pending_txn })

unfoldable pub clear_pending_txn : Bool → ChannelStore → Outcome StorageError ChannelStore
clear_pending_txn disk_works s = do
  db' ← commit disk_works s.db (delete_pending ∷ [])
  ok (record s { db = db'; pending_txn = none })
