-- ===== src/Store/Rebuilt.antt =====
-- sgwallet/src/tx_applier.rs beside sgstorage: an applier that its store gives back at a restart.
use stargate.Common.{ℕ, ◌≡◌, sym, ◌∙◌, Bool, true, false, Option, List, arith, if◌then◌else◌}
use mathlib.Core.Path.{subst}
use stargate.Common.Dict.{Dict}
use stargate.Common.Outcome.{ok, ◌>>=◌, ok-injective}
use stargate.Proposal.{PendingTransaction}
use stargate.Store.{Hashes, Db, ChannelStore, ChannelTransactionToCommit}
use stargate.Store.Read
use stargate.Store.Read.{
  get_startup_info, load, load_witness, load_ledger_info, get_transaction, get_write_set_by_version,
  commit, key_batch, is_empty,
}
use stargate.Store.Applier.{TxApplier, new, apply}
use stargate.Store.Restart.{IsCached}
use stargate.Store.Opened.{with_unknown, write_schemas-key_batch}
use stargate.Store.Synced.{
  IsSynced, IsSynced-pending, apply-IsSynced, apply_next, sequence_number_applied, disk_needed,
}

-- The pair is in step, and opening the store gives the applier.
pub record IsReady (h : Hashes) (s : ChannelStore) (a : TxApplier) : Type 0 where
  pub synced : IsSynced h s a
  pub rebuilt : new s ≡ ok a

pub IsReady-pending :
    (h : Hashes) (s : ChannelStore) (a : TxApplier) (p : Option PendingTransaction)
    → IsReady h s a
    → IsReady h (record s { db = record s.db { pending = p }; pending_txn = p }) a
unfolding new get_startup_info
IsReady-pending h s a p y = record {
  synced = IsSynced-pending h s a p y.synced;
  rebuilt = y.rebuilt;
}

rebuilt_after :
    (h : Hashes) (disk_works : Bool) (now : ℕ) (s : ChannelStore) (a : TxApplier)
    (tx : ChannelTransactionToCommit) {s' : ChannelStore} {a' : TxApplier}
    → IsSynced h s a
    → apply h disk_works now s a tx ≡ ok (s', a')
    → new s' ≡ ok a'
rebuilt_after h false now s a tx y e = absurd (disk_needed h now s a tx e)
rebuilt_after h true now s a tx y e =
    let (s1, a1, applies, _, _, _, _, again) =
      apply_next h now s a tx y (sequence_number_applied h true now s a tx e) in
    subst (λ (r : ChannelStore × TxApplier). new r.0 ≡ ok r.1) (ok-injective (sym applies ∙ e))
      again

pub apply-IsReady :
    (h : Hashes) (disk_works : Bool) (now : ℕ) (s : ChannelStore) (a : TxApplier)
    (tx : ChannelTransactionToCommit) {s' : ChannelStore} {a' : TxApplier}
    → IsReady h s a
    → apply h disk_works now s a tx ≡ ok (s', a')
    → IsReady h s' a'
apply-IsReady h d now s a tx y e = record {
  synced = apply-IsSynced h d now s a tx y.synced e;
  rebuilt = rebuilt_after h d now s a tx y.synced e;
}

abbrev with_keys_of : Dict (Option ℕ) → ChannelStore → ChannelStore
with_keys_of keys s = record s {
  db = record s.db { participant_keys = keys };
  participant_keys = keys;
}

load-keys :
    (h : Hashes) (s : ChannelStore) (keys : Dict (Option ℕ))
    → IsCached h s
    → IsCached h (with_keys_of keys s)
unfolding load load_witness load_ledger_info get_transaction get_write_set_by_version
load-keys h s keys e = ground arith

IsReady-keys :
    (h : Hashes) (s : ChannelStore) (a : TxApplier) (keys : Dict (Option ℕ))
    → IsReady h s a
    → IsReady h (with_keys_of keys s) a
unfolding new get_startup_info
IsReady-keys h s a keys y = record {
  synced = record {
    cached = load-keys h s keys y.synced.cached;
    same_leaves = y.synced.same_leaves;
    epoch_bound = y.synced.epoch_bound;
    epochs_ordered = y.synced.epochs_ordered;
    epochs_past = y.synced.epochs_past;
    infos_ordered = y.synced.infos_ordered;
    infos_past = y.synced.infos_past;
    rows_past = y.synced.rows_past;
  };
  rebuilt = y.rebuilt;
}

-- what opening goes on to do, when it has read `s`
module _ (h : Hashes) (participants : List ℕ) (s : ChannelStore) (a : TxApplier)
    (y : IsReady h s a) where
  opened-IsReady :
      (new_channel disk_works : Bool) {s' : ChannelStore}
      → (if new_channel
          then (do
            db' ← commit disk_works s.db (key_batch participants)
            ok (record s { db = db'; participant_keys = db'.participant_keys }))
          else ok s)
        ≡ ok s'
      → IsReady h s' a
  unfolding commit
  opened-IsReady false d e = subst (λ (t : ChannelStore). IsReady h t a) (ok-injective e) y
  opened-IsReady true false e = cc
  opened-IsReady true true e =
      subst (λ (t : ChannelStore). IsReady h t a) (ok-injective e)
        (subst
          (λ (d : Db). IsReady h (record s { db = d; participant_keys = d.participant_keys }) a)
          (sym (write_schemas-key_batch s.db participants))
          (IsReady-keys h s a (with_unknown s.db.participant_keys participants) y))

  -- Opening the database of a pair that is in step gives a store that is in step with the same
  -- applier, also where the participants are new.
  pub new-IsReady :
      (disk_works : Bool) {s' : ChannelStore}
      → Read.new h disk_works participants s.db ≡ ok s'
      → IsReady h s' a
  unfolding Read.new
  new-IsReady disk_works e =
      opened-IsReady (is_empty s.participant_keys) disk_works (rw y.synced.cached at e)
