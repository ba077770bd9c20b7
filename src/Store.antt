-- ===== src/Store.antt =====
-- sgstorage: what a channel keeps on disk (the tables of ChannelDB) and what it caches of that in
-- memory. A column family is an ordered table; a write batch is a list of writes that reach the disk
-- together or not at all.
pub mod Read
pub mod Write
pub mod Batches
pub mod Restart
pub mod Applier
pub mod Synced
pub mod Opened
pub mod Rebuilt
use stargate.Common.{
  ℕ, ◌+◌, ◌≡◌, Bool, true, false, Option, none, some, List, [], ◌∷◌, ◌++◌, map, if◌then◌else◌, ◌==◌,
}
use stargate.Common.Dict.{Dict, get, insert, values}
use stargate.Common.Outcome.{Outcome, ok, err}
use stargate.Libra.{
  next_u64, AccessPath, WriteOp, WriteSet, Witness, PayloadBody, SignedTransaction,
}
use stargate.Proposal.{ChannelTransaction, ChannelTransactionSigs, PendingTransaction}

-- sgtypes/src/signed_channel_transaction.rs
pub record SignedChannelTransaction : Type 0 where
  pub raw_tx : ChannelTransaction
  pub signatures : Dict ChannelTransactionSigs

-- sgtypes/src/applied_channel_txn.rs
pub data AppliedChannelTxn : Type 0 where
  offchain : SignedChannelTransaction → AppliedChannelTxn
  travel : SignedTransaction → AppliedChannelTxn

pub record ChannelTransactionInfo : Type 0 where
  pub txn_hash : ℕ
  pub write_set_root_hash : ℕ
  pub major_status : ℕ
  pub is_travel : Bool
  pub gas_used : ℕ

pub record LedgerInfo : Type 0 where
  pub version : ℕ
  pub transaction_accumulator_hash : ℕ
  pub epoch : ℕ
  pub timestamp_usecs : ℕ

pub record ChannelTransactionToCommit : Type 0 where
  pub signed_channel_txn : AppliedChannelTxn
  pub write_set : WriteSet
  pub major_status : ℕ
  pub gas_used : ℕ

-- The hashes of libra, and the payload's own sequence number. The nodes of an accumulator are known
-- by the leaves that it was built of, and its root hash is a function of them.
pub record Hashes : Type 0 where
  pub applied_hash : AppliedChannelTxn → ℕ
  pub info_hash : ChannelTransactionInfo → ℕ
  pub write_set_root : WriteSet → ℕ
  pub accumulator_root : List ℕ → ℕ
  pub payload_sequence_number : PayloadBody → ℕ

pub data StorageError : Type 0 where
  disk not_found not_applicable root_mismatch sequence_mismatch : StorageError

-- the column families; the rows of a write set are kept by version and index
pub record Db : Type 0 where
  pub participant_keys : Dict (Option ℕ)
  pub pending : Option PendingTransaction
  pub transactions : Dict AppliedChannelTxn
  pub by_account : List (ℕ × ℕ × ℕ)
  pub infos : Dict ChannelTransactionInfo
  pub write_sets : Dict (Dict (AccessPath × WriteOp))
  pub leaves : List ℕ
  pub ledger_infos : Dict LedgerInfo

-- one entry of a `SchemaBatch`
pub data BatchOp : Type 0 where
  put_key : ℕ → Option ℕ → BatchOp
  put_pending : PendingTransaction → BatchOp
  delete_pending : BatchOp
  put_transaction : ℕ → AppliedChannelTxn → BatchOp
  put_by_account : ℕ → ℕ → ℕ → BatchOp
  put_info : ℕ → ChannelTransactionInfo → BatchOp
  put_write_set_item : ℕ → ℕ → AccessPath × WriteOp → BatchOp
  put_leaves : List ℕ → BatchOp
  put_ledger_info : ℕ → LedgerInfo → BatchOp

abbrev row {ℓ} : {V : Type ℓ} → Option (Dict V) → Dict V
row none = []
row (some r) = r

unfoldable pub write_op : Db → BatchOp → Db
write_op db (put_key a k) = record db { participant_keys = insert a k db.participant_keys }
write_op db (put_pending p) = record db { pending = some p }
write_op db delete_pending = record db { pending = none }
write_op db (put_transaction v t) = record db { transactions = insert v t db.transactions }
write_op db (put_by_account a n v) = record db { by_account = (a, n, v) ∷ db.by_account }
write_op db (put_info v i) = record db { infos = insert v i db.infos }
write_op db (put_write_set_item v i item) = record db {
  write_sets = insert v (insert i item (row (get db.write_sets v))) db.write_sets;
}
write_op db (put_leaves ls) = record db { leaves = ls }
write_op db (put_ledger_info e l) = record db { ledger_infos = insert e l db.ledger_infos }

unfoldable pub write_schemas : Db → List BatchOp → Db
write_schemas db [] = db
write_schemas db (op ∷ batch) = write_schemas (write_op db op) batch

-- the store: the database, and the caches over it
pub record ChannelStore : Type 0 where
  pub db : Db
  pub latest_ledger_info : Option LedgerInfo
  pub latest_witness : Option Witness
  pub pending_txn : Option PendingTransaction
  pub participant_keys : Dict (Option ℕ)

-- AppliedChannelTxn's methods
unfoldable pub sequence_number : Hashes → AppliedChannelTxn → ℕ
sequence_number h (offchain t) = t.raw_tx.channel_sequence_number
sequence_number h (travel t) = h.payload_sequence_number t.raw_txn.body

unfoldable pub is_travel : AppliedChannelTxn → Bool
is_travel (travel _) = true
is_travel _ = false

abbrev pub public_keys : Dict ChannelTransactionSigs → List ℕ
public_keys [] = []
public_keys ((_, s) ∷ m) = s.public_key ∷ public_keys m

abbrev pub witness_signatures : Dict ChannelTransactionSigs → List ℕ
witness_signatures [] = []
witness_signatures ((_, s) ∷ m) = s.witness_data_signature ∷ witness_signatures m

unfoldable pub signing_keys : AppliedChannelTxn → List ℕ
signing_keys (offchain t) = public_keys t.signatures
signing_keys (travel t) = t.raw_txn.public_keys

unfoldable pub proposer : AppliedChannelTxn → ℕ
proposer (offchain t) = t.raw_tx.proposer
proposer (travel t) = t.raw_txn.body.proposer

unfoldable pub generate_witness : Hashes → AppliedChannelTxn → WriteSet → Witness
unfolding sequence_number
generate_witness h txn write_set = record {
  channel_sequence_number = next_u64 (sequence_number h txn);
  write_set = write_set;
  signatures = elim txn [ offchain t ↦ witness_signatures t.signatures | travel _ ↦ [] ];
}
