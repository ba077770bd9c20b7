-- ===== src/Store/Read.antt =====
-- sgstorage/src/channel_store.rs, ledger_info_store, channel_transaction_store, channel_write_set_store
-- and pending_txn_store: opening a store, and what it reads.
use stargate.Common.{
  ℕ, ◌+◌, Bool, true, false, Option, none, some, List, [], ◌∷◌, take, leb, if◌then◌else◌,
}
use stargate.Common.Dict.{Dict, get, keys, values}
use stargate.Common.Outcome.{Outcome, ok, err, panic, ◌>>=◌, ok_or}
use stargate.Libra.{WriteSet, Witness}
use stargate.Store.{
  AppliedChannelTxn, ChannelTransactionInfo, LedgerInfo, Hashes, StorageError, disk, not_found, Db,
  BatchOp, put_key, write_schemas, ChannelStore, generate_witness,
}

-- `seek_to_last`, then `next`
unfoldable pub last {ℓ} : {V : Type ℓ} → Dict V → Option (ℕ × V)
last [] = none
last ((k, v) ∷ m) = elim (last m) [ none ↦ some (k, v) | some kv ↦ some kv ]

-- `batch` reaches the disk, or the disk fails and nothing does
unfoldable pub commit : Bool → Db → List BatchOp → Outcome StorageError Db
commit true db batch = ok (write_schemas db batch)
commit false db batch = err disk

unfoldable pub get_transaction : Db → ℕ → Outcome StorageError AppliedChannelTxn
get_transaction db version = ok_or not_found (get db.transactions version)

-- the rows of a version, in the order of their index
unfoldable pub get_write_set_by_version : Db → ℕ → WriteSet
get_write_set_by_version db version = elim (get db.write_sets version) [
  | none ↦ []
  | some r ↦ values r
]

-- LedgerStore::bootstrap
unfoldable pub load_ledger_info : Db → Option LedgerInfo
unfolding last
load_ledger_info db = elim (last db.ledger_infos) [ none ↦ none | some kv ↦ some kv.1 ]

unfoldable pub load_witness :
    Hashes → Db → Option LedgerInfo → Outcome StorageError (Option Witness)
load_witness h db none = ok none
load_witness h db (some ledger_info) = do
  txn ← get_transaction db ledger_info.version
  ok (some (generate_witness h txn (get_write_set_by_version db ledger_info.version)))

-- `unwrap_or_else(|e| panic!(…))`
abbrev or_panic : {A : Type 0} → Outcome StorageError A → Outcome StorageError A
or_panic (ok a) = ok a
or_panic _ = panic

-- the caches, read from the database
unfoldable pub load : Hashes → Db → Outcome StorageError ChannelStore
load h db = do
  witness ← or_panic (load_witness h db (load_ledger_info db))
  ok (record {
    db = db;
    latest_ledger_info = load_ledger_info db;
    latest_witness = witness;
    pending_txn = db.pending;
    participant_keys = db.participant_keys;
  })

abbrev pub key_batch : List ℕ → List BatchOp
key_batch [] = []
key_batch (a ∷ participants) = put_key a none ∷ key_batch participants

abbrev pub is_empty : {V : Type 0} → Dict V → Bool
is_empty [] = true
is_empty _ = false

-- ChannelStore::new, with `bootstrap`
unfoldable pub new : Hashes → Bool → List ℕ → Db → Outcome StorageError ChannelStore
new h disk_works participants db = do
  store ← load h db
  if is_empty store.participant_keys
      then (do
        db' ← commit disk_works db (key_batch participants)
        ok (record store { db = db'; participant_keys = db'.participant_keys }))
      else ok store

pub record StartupInfo : Type 0 where
  pub ledger_info : LedgerInfo
  pub latest_version : ℕ
  pub ledger_frozen_subtree_hashes : List ℕ

-- the frozen subtrees of an accumulator are known by its leaves
unfoldable pub get_startup_info : ChannelStore → Outcome StorageError (Option StartupInfo)
get_startup_info s = elim s.latest_ledger_info [
  | none ↦ ok none
  | some ledger_info ↦ (do
    latest ← ok_or not_found (last s.db.infos)
    ok (
        some (record {
          ledger_info = ledger_info;
          latest_version = latest.0;
          ledger_frozen_subtree_hashes = take (latest.0 + 1) s.db.leaves;
        })))
]

unfoldable pub participant_addresses : ChannelStore → List ℕ
participant_addresses s = keys s.participant_keys

abbrev known : Dict (Option ℕ) → Dict ℕ
known [] = []
known ((a, none) ∷ m) = known m
known ((a, some k) ∷ m) = (a, k) ∷ known m

unfoldable pub get_participant_keys : ChannelStore → Dict ℕ
get_participant_keys s = known s.participant_keys

-- The proof of the accumulator is refused for a version past the ledger's.
unfoldable pub get_transaction_by_channel_seq_number :
    ChannelStore → ℕ → Outcome StorageError (ChannelTransactionInfo × AppliedChannelTxn)
get_transaction_by_channel_seq_number s version = do
  ledger_info ← ok_or not_found s.latest_ledger_info
  info ← ok_or not_found (get s.db.infos version)
  if leb version ledger_info.version
      then (do txn ← get_transaction s.db version; ok (info, txn))
      else err not_found
