-- ===== src/Store/Opened.antt =====
-- sgstorage/src/channel_store.rs, `ChannelStore::new` on an empty database, and the applier of
-- sgwallet/src/tx_applier.rs that goes with it: how a channel begins.
use stargate.Common.{ℕ, ◌≡◌, refl, true, Option, none, List, [], ◌∷◌, arith}
use stargate.Common.Dict.{Dict, insert}
use stargate.Common.Outcome.{ok}
use stargate.Store.{Hashes, Db, write_op, write_schemas, ChannelStore}
use stargate.Store.Read
use stargate.Store.Read.{
  last, load, load_ledger_info, load_witness, commit, key_batch, get_startup_info,
}
use stargate.Store.Applier
use stargate.Store.Applier.{TxApplier}
use stargate.Store.Synced.{IsSynced}

-- a database before anything is written
abbrev pub empty_db : Db
empty_db = record {
  participant_keys = [];
  pending = none;
  transactions = [];
  by_account = [];
  infos = [];
  write_sets = [];
  leaves = [];
  ledger_infos = [];
}

abbrev pub no_trees : TxApplier
no_trees = record { epoch = 0; leaves = [] }

-- each participant with no key yet
abbrev pub with_unknown : Dict (Option ℕ) → List ℕ → Dict (Option ℕ)
with_unknown m [] = m
with_unknown m (a ∷ participants) = with_unknown (insert a none m) participants

pub write_schemas-key_batch :
    (db : Db) (participants : List ℕ)
    → write_schemas db (key_batch participants)
      ≡ record db { participant_keys = with_unknown db.participant_keys participants }
unfolding write_schemas write_op
write_schemas-key_batch db [] = refl
write_schemas-key_batch db (a ∷ participants) =
    write_schemas-key_batch (record db { participant_keys = insert a none db.participant_keys })
      participants

module _ (h : Hashes) (participants : List ℕ) where
  abbrev pub db : Db
  db = record empty_db { participant_keys = with_unknown [] participants }

  abbrev pub store : ChannelStore
  store = record {
    db = db;
    latest_ledger_info = none;
    latest_witness = none;
    pending_txn = none;
    participant_keys = db.participant_keys;
  }

  new-eq : Read.new h true participants empty_db ≡ ok store
  unfolding Read.new load load_ledger_info load_witness commit last
  new-eq = rw (write_schemas-key_batch empty_db participants) refl

  pub store-IsSynced : IsSynced h store no_trees
  unfolding load load_ledger_info load_witness last
  store-IsSynced = record {
    cached = refl;
    same_leaves = refl;
    epoch_bound = omega arith;
    epochs_ordered = tt;
    epochs_past = tt;
    infos_ordered = tt;
    infos_past = tt;
    rows_past = tt;
  }

  pub applier-eq : Applier.new store ≡ ok no_trees
  unfolding Applier.new get_startup_info
  applier-eq = refl

  -- A store opened on an empty database by a working disk, for any participants, is in step with the
  -- applier that is built from it, and nothing is pending.
  pub new-IsSynced :
      (s : ChannelStore) × (a : TxApplier) × (Read.new h true participants empty_db ≡ ok s)
      × (Applier.new s ≡ ok a)
      × IsSynced h s a
      × (s.pending_txn ≡ none)
  new-IsSynced = (store, no_trees, new-eq, applier-eq, store-IsSynced, refl)
