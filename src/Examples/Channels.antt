-- ===== src/Examples/Channels.antt =====
-- Runs of the store, the applier and the channel on concrete inputs.
use stargate.Common.{◌+◌, ◌≡◌, refl, true, Option, none, some, [], ◌∷◌, arith, length}
use stargate.Common.Dict.{get}
use stargate.Common.Outcome.{ok}
use stargate.Libra.{next_u64}
use stargate.Proposal.{PendingTransaction, agreed, consensus_reached}
use stargate.Store.{write_schemas, write_op, sequence_number, ChannelStore, generate_witness}
use stargate.Store.Read
use stargate.Store.Read.{load, load_ledger_info, load_witness, last}
use stargate.Store.Write.{
  save_tx_impl, transaction_info, appended, save_tx, save_pending_txn, clear_pending_txn,
}
use stargate.Store.Restart.{IsCached, after, save_tx-IsCached}
use stargate.Store.Applier
use stargate.Store.Applier.{TxApplier, ledger_info_of}
use stargate.Store.Synced.{IsSynced, apply_next}
use stargate.Channel.{Channel}
use stargate.Channel.Negotiate.{apply_pending_txn}
use stargate.Channel.Recovery.{
  execute_op, collect, cancel, apply_pending, serve, here, next, recovery,
}
use stargate.Channel.Agreed.{serve_all, agreed_stays}
use stargate.Channel.Applied.{apply_agreed}
use stargate.Examples.Toy.{
  h, store, applier, to_commit, channel, world, pending, both, transfer, proposal, signed_by,
  output,
}

abbrev full : PendingTransaction
full = pending agreed both

store-IsCached : (p : Option PendingTransaction) → IsCached h (store p)
unfolding load load_ledger_info load_witness last
store-IsCached p = refl

store-IsSynced : (p : Option PendingTransaction) → IsSynced h (store p) applier
store-IsSynced p = record {
  cached = store-IsCached p;
  same_leaves = refl;
  epoch_bound = omega arith;
  epochs_ordered = tt;
  epochs_past = tt;
  infos_ordered = tt;
  infos_past = tt;
  rows_past = tt;
}

abbrev saved : ChannelStore
saved = after h (store (some full)) to_commit 0 (ledger_info_of h 1_000 applier to_commit) true

saves :
    save_tx h true (store (some full)) to_commit 0 (ledger_info_of h 1_000 applier to_commit) true
    ≡ ok saved
unfolding save_tx ledger_info_of sequence_number save_tx_impl transaction_info appended Read.commit
saves = refl

save_tx-IsCached_example : IsCached h saved
unfolding get ledger_info_of sequence_number
save_tx-IsCached_example =
    save_tx-IsCached h (store (some full)) to_commit 0 (ledger_info_of h 1_000 applier to_commit)
      true (store-IsCached (some full)) refl tt tt refl true saves

abbrev with_pending : ChannelStore
with_pending = record (store none) {
  db = record (store none).db { pending = some full };
  pending_txn = some full;
}

persists : save_pending_txn true (store none) full true ≡ ok (store (some full))
unfolding save_pending_txn Read.commit write_schemas write_op
persists = refl

clears : clear_pending_txn true (store (some full)) ≡ ok (store none)
unfolding clear_pending_txn Read.commit write_schemas write_op
clears = refl

apply_next_example :
    (s' : ChannelStore) × (a' : TxApplier) × (Applier.apply h true 1_000
        (store (some full))
        applier
        to_commit
      ≡ ok (s', a'))
    × IsSynced h s' a'
    × (s'.pending_txn ≡ none)
    × (length a'.leaves ≡ length applier.leaves + 1)
    × (s'.latest_witness
        ≡ some (generate_witness h to_commit.signed_channel_txn to_commit.write_set))
    × (Applier.new s' ≡ ok a')
unfolding sequence_number
apply_next_example =
    apply_next h 1_000 (store (some full)) applier to_commit (store-IsSynced (some full)) refl

apply_agreed_example :
    (d : Channel) × (apply_pending_txn world (channel (some full)) ≡ (ok none, d))
    × (d.store.pending_txn ≡ none)
    × (length d.applier.leaves ≡ length applier.leaves + 1)
    × (d.stm.witness.channel_sequence_number ≡ next_u64 (length applier.leaves))
    × (d.stm.witness.write_set ≡ output.write_set)
    × IsSynced h d.store d.applier
apply_agreed_example =
    apply_agreed world (channel (some full)) full refl refl refl refl (store-IsSynced (some full))
      refl

agreed_stays_example :
    serve_all
      ((world, cancel 1) ∷ (world, collect proposal (signed_by 5 15)) ∷ [])
      (channel (some full))
    ≡ channel (some full)
unfolding consensus_reached
agreed_stays_example =
    agreed_stays ((world, cancel 1) ∷ (world, collect proposal (signed_by 5 15)) ∷ [])
      (channel (some full)) full refl refl refl

abbrev served : Channel
served = serve world apply_pending (
    serve world (collect proposal (signed_by 2 12))
      (serve world (execute_op transfer []) (channel none)))

recovery_example :
    (load h served.store.db ≡ ok served.store) × (served.applier.leaves ≡ served.store.db.leaves)
recovery_example = recovery h {c = channel none} (store-IsSynced none) (
    next world apply_pending refl (
      next world (collect proposal (signed_by 2 12)) refl
        (next world (execute_op transfer []) refl here)))
