-- ===== src/Store/Synced.antt =====
-- sgwallet/src/tx_applier.rs: the applier beside the store that it writes to.
use mathlib.Core.Path.{subst}
use stargate.Common.{
  ℕ, ◌+◌, ◌≤◌, ◌<◌, ◌≡◌, refl, sym, ◌∙◌, ap, Bool, true, false, Option, none, some, List, [], ◌∷◌,
  ◌++◌, arith, ◌==◌, ==-self, eq→==, ==→eq, length, length-append, take, take-length, All,
  IsOrdered,
}
use stargate.Common.Dict.{get, insert, keys, insert-IsOrdered, All-map, All-keys-insert, get_above}
use stargate.Common.Outcome.{ok, ok-injective}
use stargate.Libra.{WriteSet}
use stargate.Proposal.{PendingTransaction}
use stargate.Store.{
  LedgerInfo, ChannelTransactionInfo, ChannelTransactionToCommit, Hashes, Db, ChannelStore,
  sequence_number, generate_witness, write_schemas, write_op, row,
}
use stargate.Store.Read.{last, get_startup_info, commit}
use stargate.Store.Write.{transaction_info, appended, save_tx, save_tx_impl, put_write_set}
use stargate.Store.Restart.{
  IsCached, save_tx-IsCached, saved_db, saved-eq, after, with_keys, load-pending,
}
use stargate.Store.Batches.{last-insert}
use stargate.Store.Applier.{TxApplier, new, ledger_info_of, apply}

-- The applier and the store it writes to belong together.
pub record IsSynced (h : Hashes) (s : ChannelStore) (a : TxApplier) : Type 0 where
  pub cached : IsCached h s
  pub same_leaves : a.leaves ≡ s.db.leaves
  pub epoch_bound : a.epoch ≤ length a.leaves
  pub epochs_ordered : IsOrdered (keys s.db.ledger_infos)
  pub epochs_past : All (λ e. e ≤ a.epoch) (keys s.db.ledger_infos)
  pub infos_ordered : IsOrdered (keys s.db.infos)
  pub infos_past : All (λ v. v < length a.leaves) (keys s.db.infos)
  pub rows_past : All (λ v. v < length a.leaves) (keys s.db.write_sets)

new_of_parts :
    (s : ChannelStore) (li : LedgerInfo) (v : ℕ) (info : ChannelTransactionInfo)
    → s.latest_ledger_info ≡ some li
    → last s.db.infos ≡ some (v, info)
    → new s ≡ ok (record { epoch = li.epoch; leaves = take (v + 1) s.db.leaves })
unfolding new get_startup_info
new_of_parts s li v info l i = ground (arith, l, i)

All-keys-put_write_set :
    (P : ℕ → Type 0) (db : Db) (version idx : ℕ) (ws : WriteSet)
    → P version
    → All P (keys db.write_sets)
    → All P (keys (write_schemas db (put_write_set version idx ws)).write_sets)
unfolding write_schemas write_op put_write_set
All-keys-put_write_set P db version idx [] p h = h
All-keys-put_write_set P db version idx (item ∷ ws) p h =
    All-keys-put_write_set P
      (record db {
        write_sets =
            insert version (insert idx item (row (get db.write_sets version))) db.write_sets;
      })
      version (idx + 1) ws p
      (All-keys-insert P version (insert idx item (row (get db.write_sets version))) db.write_sets p
        h)

module _ (h : Hashes) (now : ℕ) (s : ChannelStore) (a : TxApplier) (tx : ChannelTransactionToCommit)
    (y : IsSynced h s a) (next : sequence_number h tx.signed_channel_txn ≡ length a.leaves) where
  abbrev n : ℕ
  n = sequence_number h tx.signed_channel_txn

  abbrev li : LedgerInfo
  li = ledger_info_of h now a tx

  abbrev new_leaves : List ℕ
  new_leaves = a.leaves ++ h.info_hash (transaction_info h tx) ∷ []

  abbrev applied_store : ChannelStore
  applied_store = after h s tx n li true

  abbrev applied : TxApplier
  applied = record { epoch = li.epoch; leaves = new_leaves }

  length-new_leaves : length new_leaves ≡ length a.leaves + 1
  length-new_leaves = length-append a.leaves (h.info_hash (transaction_info h tx) ∷ [])

  appended-eq : appended h s.db tx n ≡ new_leaves
  unfolding appended
  appended-eq =
      ap (λ (l : List ℕ). l ++ h.info_hash (transaction_info h tx) ∷ [])
        (rw (next) (rw (y.same_leaves) (take-length s.db.leaves)))

  epoch-li : (a.epoch ≤ li.epoch) × (li.epoch ≤ length new_leaves)
  unfolding ledger_info_of
  epoch-li = ground (arith, y.epoch_bound, next, length-new_leaves)

  at_version : (li.version == n) ≡ true
  unfolding ledger_info_of
  at_version = ==-self n

  same_root : (h.accumulator_root (appended h s.db tx n) == li.transaction_accumulator_hash) ≡ true
  unfolding ledger_info_of
  same_root = rw (appended-eq) (==-self (h.accumulator_root new_leaves))

  db-eq : applied_store.db ≡ saved_db h s tx n li true
  db-eq = saved-eq h s tx n li true

  saves : save_tx h true s tx n li true ≡ ok applied_store
  unfolding save_tx commit save_tx_impl
  saves = rw (at_version, same_root)

  -- A transaction with the next sequence number is committed whenever the disk works: the root hash
  -- computed in memory is the one that the store computes.
  apply-eq : apply h true now s a tx ≡ ok (applied_store, applied)
  unfolding apply save_tx commit save_tx_impl
  apply-eq = rw (
    eq→== n (length a.leaves) next,
    eq→== (length new_leaves) (n + 1) (omega (arith, length-new_leaves, next)),
    at_version,
    same_root,
  )

  keys_bound :
      (ks : List ℕ) → All (λ v. v < length a.leaves) ks → All (λ v. v < length new_leaves) ks
  keys_bound ks = All-map ks (λ v b. omega (arith, b, length-new_leaves))

  epochs_bound : (ks : List ℕ) → All (λ e. e ≤ a.epoch) ks → All (λ e. e ≤ li.epoch) ks
  epochs_bound ks = All-map ks (λ e b. omega (arith, b, epoch-li.0))

  count_leaves : n + 1 ≡ length new_leaves
  count_leaves = omega (arith, length-new_leaves, next)

  version_bound : n < length new_leaves
  version_bound = omega (arith, length-new_leaves, next)

  fresh_rows : get s.db.write_sets n ≡ none
  fresh_rows = rw (next) (get_above (length a.leaves) s.db.write_sets y.rows_past)

  IsCached-applied : IsCached h applied_store
  IsCached-applied =
      save_tx-IsCached h s tx n li true y.cached fresh_rows y.epochs_ordered
        (epochs_bound (keys s.db.ledger_infos) y.epochs_past) (==→eq _ _ at_version) true saves

  -- ... and the pair stays in step.
  applied-IsSynced : IsSynced h applied_store applied
  applied-IsSynced = record {
    cached = IsCached-applied;
    same_leaves = sym (ap (λ (d : Db). d.leaves) db-eq ∙ appended-eq);
    epoch_bound = epoch-li.1;
    epochs_ordered =
        subst (λ (d : Db). IsOrdered (keys d.ledger_infos)) (sym db-eq)
          (insert-IsOrdered li.epoch li s.db.ledger_infos y.epochs_ordered);
    epochs_past =
        subst (λ (d : Db). All (λ e. e ≤ li.epoch) (keys d.ledger_infos)) (sym db-eq)
          (All-keys-insert (λ e. e ≤ li.epoch) li.epoch li s.db.ledger_infos (omega arith)
            (epochs_bound (keys s.db.ledger_infos) y.epochs_past));
    infos_ordered =
        subst (λ (d : Db). IsOrdered (keys d.infos)) (sym db-eq)
          (insert-IsOrdered n (transaction_info h tx) s.db.infos y.infos_ordered);
    infos_past =
        subst (λ (d : Db). All (λ v. v < length new_leaves) (keys d.infos)) (sym db-eq)
          (All-keys-insert (λ v. v < length new_leaves) n (transaction_info h tx) s.db.infos
            version_bound (keys_bound (keys s.db.infos) y.infos_past));
    rows_past =
        subst (λ (d : Db). All (λ v. v < length new_leaves) (keys d.write_sets)) (sym db-eq)
          (All-keys-put_write_set (λ v. v < length new_leaves) (with_keys h s tx n li true) n 0
            tx.write_set version_bound (keys_bound (keys s.db.write_sets) y.rows_past));
  }

  last-applied : last applied_store.db.infos ≡ some (n, transaction_info h tx)
  last-applied =
      ap (λ (d : Db). last d.infos) db-eq
      ∙ last-insert n (transaction_info h tx) s.db.infos y.infos_ordered
          (All-map (keys s.db.infos) (λ v b. omega (arith, b, next)) y.infos_past)

  all_leaves : take (n + 1) applied_store.db.leaves ≡ new_leaves
  all_leaves =
      ap (take (n + 1)) (sym applied-IsSynced.same_leaves)
      ∙ rw (count_leaves) (take-length new_leaves)

  -- ... and a restarted channel builds the same applier from its store.
  new-applied : new applied_store ≡ ok applied
  new-applied =
      new_of_parts applied_store li n (transaction_info h tx) refl last-applied
      ∙ ap (λ (l : List ℕ). ok (record { epoch = li.epoch; leaves = l })) all_leaves

  -- For a store and an applier that are in step, a transaction with the next sequence number is
  -- committed whenever the disk works: the pair stays in step, nothing is left pending, the
  -- accumulator grows by a leaf, the witness is the transaction's, and a restarted channel builds
  -- the same applier.
  pub apply_next :
      (s' : ChannelStore) × (a' : TxApplier) × (apply h true now s a tx ≡ ok (s', a'))
      × IsSynced h s' a'
      × (s'.pending_txn ≡ none)
      × (length a'.leaves ≡ length a.leaves + 1)
      × (s'.latest_witness ≡ some (generate_witness h tx.signed_channel_txn tx.write_set))
      × (new s' ≡ ok a')
  apply_next = (
    applied_store, applied, apply-eq, applied-IsSynced, refl, length-new_leaves, refl, new-applied,
  )

-- a transaction that is applied has the next sequence number
pub sequence_number_applied :
    (h : Hashes) (disk_works : Bool) (now : ℕ) (s : ChannelStore) (a : TxApplier)
    (tx : ChannelTransactionToCommit) {r : ChannelStore × TxApplier}
    → apply h disk_works now s a tx ≡ ok r
    → sequence_number h tx.signed_channel_txn ≡ length a.leaves
unfolding apply
sequence_number_applied h disk_works now s a tx e =
    ground (arith, ==→eq (sequence_number h tx.signed_channel_txn) (length a.leaves))

pub disk_needed :
    (h : Hashes) (now : ℕ) (s : ChannelStore) (a : TxApplier) (tx : ChannelTransactionToCommit)
    {r : ChannelStore × TxApplier}
    → apply h false now s a tx ≡ ok r
    → ⊥
unfolding apply save_tx commit
disk_needed h now s a tx e = ground arith

-- a pending transaction is no concern of the applier's
pub IsSynced-pending :
    (h : Hashes) (s : ChannelStore) (a : TxApplier) (p : Option PendingTransaction)
    → IsSynced h s a
    → IsSynced h (record s { db = record s.db { pending = p }; pending_txn = p }) a
IsSynced-pending h s a p y = record {
  cached = load-pending h s p y.cached;
  same_leaves = y.same_leaves;
  epoch_bound = y.epoch_bound;
  epochs_ordered = y.epochs_ordered;
  epochs_past = y.epochs_past;
  infos_ordered = y.infos_ordered;
  infos_past = y.infos_past;
  rows_past = y.rows_past;
}

-- Whatever is applied, with whatever outcome, the pair stays in step.
pub apply-IsSynced :
    (h : Hashes) (disk_works : Bool) (now : ℕ) (s : ChannelStore) (a : TxApplier)
    (tx : ChannelTransactionToCommit) {s' : ChannelStore} {a' : TxApplier}
    → IsSynced h s a
    → apply h disk_works now s a tx ≡ ok (s', a')
    → IsSynced h s' a'
apply-IsSynced h true now s a tx y e =
    let next = sequence_number_applied h true now s a tx e in
    let same = ok-injective (sym (apply-eq h now s a tx y next) ∙ e) in
    subst (λ (r : ChannelStore × TxApplier). IsSynced h r.0 r.1) same
      (applied-IsSynced h now s a tx y next)
apply-IsSynced h false now s a tx y e = absurd (disk_needed h now s a tx e)
