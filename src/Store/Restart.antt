-- ===== src/Store/Restart.antt =====
-- sgstorage/src/channel_store.rs: the caches of a store beside what opening its database reads.
use mathlib.Core.Path.{subst}
use stargate.Common.{
  ℕ, ◌≤◌, ◌≡◌, refl, sym, ◌∙◌, ap, Bool, true, false, Option, none, some, [], ◌∷◌, ◌++◌, arith, All,
  IsOrdered, if◌then◌else◌,
}
use mathlib.Core.List.{append_assoc}
use stargate.Common.Dict.{Dict, get, insert, keys, values, get-insert_self}
use stargate.Common.Outcome.{ok, ok-injective}
use stargate.Proposal.{PendingTransaction}
use stargate.Store.{
  LedgerInfo, ChannelTransactionToCommit, Hashes, Db, put_info, put_leaves, put_ledger_info,
  delete_pending, write_op, write_schemas, ChannelStore, sequence_number, proposer, signing_keys,
  generate_witness,
}
use stargate.Store.Read.{
  last, load, load_ledger_info, load_witness, get_write_set_by_version, get_transaction, commit,
}
use stargate.Store.Write.{
  updated_public_keys, append_keys, put_write_set, put_transaction_batch, transaction_info,
  appended, save_tx_impl, save_tx_batch, save_tx, save_pending_txn, clear_pending_txn,
}
use stargate.Store.Batches.{
  write_schemas-append, write_schemas-put_keys, write_schemas-put_write_set, rows-put_write_set,
  rows, last-insert, load_of_last, rows_read, transaction_read, witness_read, load_of_parts,
}

-- A store whose caches are those that opening its database gives.
abbrev pub IsCached : Hashes → ChannelStore → Type 0
IsCached h s = load h s.db ≡ ok s

IsCached-pending : (h : Hashes) (s : ChannelStore) → IsCached h s → s.db.pending ≡ s.pending_txn
unfolding load
IsCached-pending h s c = ground arith

IsCached-keys :
    (h : Hashes) (s : ChannelStore) → IsCached h s → s.db.participant_keys ≡ s.participant_keys
unfolding load
IsCached-keys h s c = ground arith

module _ (h : Hashes) (s : ChannelStore) (tx : ChannelTransactionToCommit) (version : ℕ)
    (li : LedgerInfo) (clear : Bool) where
  abbrev pub saved : Db
  saved = write_schemas s.db (save_tx_batch h s tx version li clear)

  abbrev pub saved_keys : Dict (Option ℕ)
  saved_keys =
      append_keys s.db.participant_keys
        (updated_public_keys s.participant_keys (signing_keys tx.signed_channel_txn))

  abbrev pub with_keys : Db
  with_keys = record s.db { participant_keys = saved_keys }

  abbrev with_rows : Db
  with_rows = record with_keys {
    write_sets = (write_schemas with_keys (put_write_set version 0 tx.write_set)).write_sets;
  }

  -- the writes after the keys and the rows
  last_writes :
      (b : Bool) (db : Db)
      → write_schemas db (
          (put_transaction_batch h version tx.signed_channel_txn
            ++ (put_info version (transaction_info h tx)
                ∷ put_leaves (appended h s.db tx version)
                ∷ []))
          ++ (put_ledger_info li.epoch li ∷ (if b then delete_pending ∷ [] else [])))
        ≡ record db {
          pending = if b then none else db.pending;
          transactions = insert version tx.signed_channel_txn db.transactions;
          by_account =
              (proposer tx.signed_channel_txn, sequence_number h tx.signed_channel_txn, version)
              ∷ db.by_account;
          infos = insert version (transaction_info h tx) db.infos;
          leaves = appended h s.db tx version;
          ledger_infos = insert li.epoch li db.ledger_infos;
        }
  unfolding write_schemas write_op put_transaction_batch
  last_writes true db = refl
  last_writes false db = refl

  -- the database after the batch of `save_tx`
  abbrev pub saved_db : Db
  saved_db = record s.db {
    participant_keys = saved_keys;
    pending = if clear then none else s.db.pending;
    transactions = insert version tx.signed_channel_txn s.db.transactions;
    by_account =
        (proposer tx.signed_channel_txn, sequence_number h tx.signed_channel_txn, version)
        ∷ s.db.by_account;
    infos = insert version (transaction_info h tx) s.db.infos;
    write_sets = (write_schemas with_keys (put_write_set version 0 tx.write_set)).write_sets;
    leaves = appended h s.db tx version;
    ledger_infos = insert li.epoch li s.db.ledger_infos;
  }

  pub saved-eq : saved ≡ saved_db
  unfolding save_tx_batch save_tx_impl
  saved-eq =
      let updated = updated_public_keys s.participant_keys (signing_keys tx.signed_channel_txn) in
      rw
        (
          write_schemas-append,
          write_schemas-put_keys s.db updated,
          append_assoc,
          write_schemas-append,
          write_schemas-put_write_set version with_keys 0 tx.write_set,
        )
        (last_writes clear with_rows)

  -- the store after the save
  abbrev pub after : ChannelStore
  after = record {
    db = saved;
    latest_ledger_info = some li;
    latest_witness = some (generate_witness h tx.signed_channel_txn tx.write_set);
    pending_txn = if clear then none else s.pending_txn;
    participant_keys =
        append_keys s.participant_keys
          (updated_public_keys s.participant_keys (signing_keys tx.signed_channel_txn));
  }

  pub saved_store :
      (disk_works : Bool) {s' : ChannelStore}
      → save_tx h disk_works s tx version li clear ≡ ok s'
      → s' ≡ after
  unfolding save_tx commit
  saved_store true e = ground arith
  saved_store false e = ground arith

  -- What opening the database again finds, once a transaction has been saved at a new version in an
  -- epoch that is not before the last.
  module _ (cached : IsCached h s) (fresh : get s.db.write_sets version ≡ none)
      (ordered : IsOrdered (keys s.db.ledger_infos))
      (newest : All (λ e. e ≤ li.epoch) (keys s.db.ledger_infos))
      (at_version : li.version ≡ version) where
    ledger_info-saved : load_ledger_info saved ≡ some li
    ledger_info-saved = load_of_last saved (
        ap (λ (d : Db). last d.ledger_infos) saved-eq
        ∙ last-insert li.epoch li s.db.ledger_infos ordered newest)

    write_set-saved : get_write_set_by_version saved version ≡ tx.write_set
    write_set-saved =
        rows_read version saved
        ∙ ap (λ (d : Db). values (rows version d)) saved-eq
        ∙ rows-put_write_set version with_keys 0 tx.write_set (rw (fresh) tt)
        ∙ rw (fresh)

    transaction-saved : get_transaction saved version ≡ ok tx.signed_channel_txn
    transaction-saved = transaction_read saved version (
        ap (λ (d : Db). get d.transactions version) saved-eq
        ∙ get-insert_self version tx.signed_channel_txn s.db.transactions)

    witness-saved :
        load_witness h saved (some li)
        ≡ ok (some (generate_witness h tx.signed_channel_txn tx.write_set))
    witness-saved = witness_read h saved li version at_version transaction-saved write_set-saved

    pending-saved : saved.pending ≡ (if clear then none else s.pending_txn)
    pending-saved =
        ap (λ (d : Db). d.pending) saved-eq
        ∙ ap (λ (p : Option PendingTransaction). if clear then none else p)
            (IsCached-pending h s cached)

    participant_keys-saved :
        saved.participant_keys
        ≡ append_keys s.participant_keys
            (updated_public_keys s.participant_keys (signing_keys tx.signed_channel_txn))
    participant_keys-saved =
        ap (λ (d : Db). d.participant_keys) saved-eq
        ∙ ap
            (λ (m : Dict (Option ℕ)).
              append_keys m
                (updated_public_keys s.participant_keys (signing_keys tx.signed_channel_txn)))
            (IsCached-keys h s cached)

    -- A store whose caches are those of its database saves a transaction, at a version without
    -- rows and with a ledger info of that version in an epoch that is not before the last:
    -- opening the database gives the store back, its witness, keys and pending transaction
    -- included.
    pub save_tx-IsCached :
        (disk_works : Bool) {s' : ChannelStore}
        → save_tx h disk_works s tx version li clear ≡ ok s'
        → IsCached h s'
    save_tx-IsCached disk_works {s'} e =
        let e' = saved_store disk_works e in
        subst (IsCached h) (sym e') (
          load_of_parts h saved after refl ledger_info-saved witness-saved pending-saved
            participant_keys-saved)

-- the pending transaction is read on its own
pub load-pending :
    (h : Hashes) (s : ChannelStore) (p : Option PendingTransaction)
    → IsCached h s
    → IsCached h (record s { db = record s.db { pending = p }; pending_txn = p })
unfolding load load_ledger_info load_witness get_transaction get_write_set_by_version
load-pending h s p c = ground arith

-- A store whose caches are those of its database persists a pending transaction: opening the
-- database gives the store back with that transaction.
pub save_pending_txn-IsCached :
    (h : Hashes) (disk_works : Bool) (s : ChannelStore) (p : PendingTransaction) {s' : ChannelStore}
    → IsCached h s
    → save_pending_txn disk_works s p true ≡ ok s'
    → IsCached h s' × (s'.pending_txn ≡ some p)
unfolding save_pending_txn commit write_schemas write_op
save_pending_txn-IsCached h true s p c e =
    (subst (IsCached h) (ok-injective e) (load-pending h s (some p) c), ground arith)
save_pending_txn-IsCached h false s p c e = cc

-- A store whose caches are those of its database clears its pending transaction: opening the
-- database gives the store back, with none.
pub clear_pending_txn-IsCached :
    (h : Hashes) (disk_works : Bool) (s : ChannelStore) {s' : ChannelStore}
    → IsCached h s
    → clear_pending_txn disk_works s ≡ ok s'
    → IsCached h s' × (s'.pending_txn ≡ none)
unfolding clear_pending_txn commit write_schemas write_op
clear_pending_txn-IsCached h true s c e =
    (subst (IsCached h) (ok-injective e) (load-pending h s none c), ground arith)
clear_pending_txn-IsCached h false s c e = cc
