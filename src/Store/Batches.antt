-- ===== src/Store/Batches.antt =====
-- sgstorage: what a write batch does to the tables, and what the reads of an opening store give.
use mathlib.Core.Path.{subst}
use stargate.Common.{
  ℕ, ◌+◌, ◌≤◌, ◌<◌, ◌≡◌, refl, sym, ◌∙◌, ap, Option, some, List, [], ◌∷◌, ◌++◌, arith, Option-cases,
  inl, inr, All, IsOrdered,
}
use mathlib.Core.List.{append_assoc, append-nil}
use stargate.Common.Dict.{
  Dict, get, insert, keys, values, get-insert_self, values-insert_last, All-keys-insert_last,
}
use stargate.Common.Outcome.{ok}
use stargate.Libra.{AccessPath, WriteOp, WriteSet}
use stargate.Store.{
  AppliedChannelTxn, LedgerInfo, Hashes, Db, BatchOp, write_op, write_schemas, ChannelStore, row,
  generate_witness,
}
use stargate.Store.Read.{
  last, load, load_ledger_info, load_witness, get_write_set_by_version, get_transaction,
}
use stargate.Store.Write.{put_keys, append_keys, put_write_set}

pub write_schemas-append :
    (db : Db) (xs ys : List BatchOp)
    → write_schemas db (xs ++ ys) ≡ write_schemas (write_schemas db xs) ys
unfolding write_schemas
write_schemas-append db [] ys = refl
write_schemas-append db (op ∷ xs) ys = write_schemas-append (write_op db op) xs ys

pub write_schemas-put_keys :
    (db : Db) (m : Dict (Option ℕ))
    → write_schemas db (put_keys m)
      ≡ record db { participant_keys = append_keys db.participant_keys m }
unfolding write_schemas write_op put_keys append_keys
write_schemas-put_keys db [] = refl
write_schemas-put_keys db ((a, k) ∷ m) =
    write_schemas-put_keys (record db { participant_keys = insert a k db.participant_keys }) m

module _ (version : ℕ) where
  abbrev pub rows : Db → Dict (AccessPath × WriteOp)
  rows db = row (get db.write_sets version)

  pub write_schemas-put_write_set :
      (db : Db) (idx : ℕ) (ws : WriteSet)
      → write_schemas db (put_write_set version idx ws)
        ≡ record db { write_sets = (write_schemas db (put_write_set version idx ws)).write_sets }
  unfolding write_schemas write_op put_write_set
  write_schemas-put_write_set db idx [] = refl
  write_schemas-put_write_set db idx (item ∷ ws) =
      write_schemas-put_write_set
        (record db { write_sets = insert version (insert idx item (rows db)) db.write_sets })
        (idx + 1) ws

  pub rows-put_write_set :
      (db : Db) (idx : ℕ) (ws : WriteSet)
      → All (λ j. j < idx) (keys (rows db))
      → values (rows (write_schemas db (put_write_set version idx ws))) ≡ values (rows db) ++ ws
  unfolding write_schemas write_op put_write_set
  rows-put_write_set db idx [] h = sym (append-nil (values (rows db)))
  rows-put_write_set db idx (item ∷ ws) h =
      let db' : Db = record db {
        write_sets = insert version (insert idx item (rows db)) db.write_sets;
      } in
      let self : rows db' ≡ insert idx item (rows db) =
        ap row (get-insert_self version (insert idx item (rows db)) db.write_sets) in
      rows-put_write_set db' (idx + 1) ws (
        subst (λ r. All (λ j. j < idx + 1) (keys r)) (sym self)
          (All-keys-insert_last idx item (rows db) h))
      ∙ rw (self, values-insert_last idx item (rows db) h)
          (append_assoc (values (rows db)) (item ∷ []) ws)

pub last-insert :
    {V : Type 0} (k : ℕ) (v : V) (m : Dict V)
    → IsOrdered (keys m)
    → All (λ j. j ≤ k) (keys m)
    → last (insert k v m) ≡ some (k, v)
unfolding last insert
last-insert k v [] o h = refl
last-insert k v ((j, w) ∷ []) o h = ground arith
last-insert k v ((j, w) ∷ (i, u) ∷ m) o h = ground (arith, last-insert k v ((i, u) ∷ m) o.1 h.1)

-- what the reads of an opening store give
pub load_of_last :
    (db : Db) {e : ℕ} {li : LedgerInfo}
    → last db.ledger_infos ≡ some (e, li)
    → load_ledger_info db ≡ some li
unfolding load_ledger_info
load_of_last db p = rw (p, load_ledger_info)

pub rows_read :
    (version : ℕ) (db : Db) → get_write_set_by_version db version ≡ values (rows version db)
unfolding get_write_set_by_version
rows_read version db = elim (Option-cases (get db.write_sets version)) [
  | inl e ↦ rw (e, get_write_set_by_version)
  | inr (r, e) ↦ rw (e, get_write_set_by_version)
]

pub transaction_read :
    (db : Db) (version : ℕ) {t : AppliedChannelTxn}
    → get db.transactions version ≡ some t
    → get_transaction db version ≡ ok t
unfolding get_transaction
transaction_read db version e = rw (e)

pub witness_read :
    (h : Hashes) (db : Db) (li : LedgerInfo) (version : ℕ) {t : AppliedChannelTxn} {ws : WriteSet}
    → li.version ≡ version
    → get_transaction db version ≡ ok t
    → get_write_set_by_version db version ≡ ws
    → load_witness h db (some li) ≡ ok (some (generate_witness h t ws))
unfolding load_witness
witness_read h db li version v et ews = rw (v, et, ews)

-- an opened store, field by field
pub load_of_parts :
    (h : Hashes) (db : Db) (s : ChannelStore)
    → s.db ≡ db
    → load_ledger_info db ≡ s.latest_ledger_info
    → load_witness h db s.latest_ledger_info ≡ ok s.latest_witness
    → db.pending ≡ s.pending_txn
    → db.participant_keys ≡ s.participant_keys
    → load h db ≡ ok s
unfolding load
load_of_parts h db s d l w p k = ground (arith, l, w, p, k, d)
