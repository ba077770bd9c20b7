-- ===== src/Channel/Applied.antt =====
-- sgwallet/src/channel/channel.rs, Handler<ApplyPendingTxn>: applying an agreed transaction off the
-- chain.
use stargate.Common.{◌+◌, ◌≡◌, refl, ap, ◌∙◌, Bool, true, false, none, some, length, ◌==◌, ◌||◌}
use stargate.Common.Outcome.{Outcome, ok, ensure}
use stargate.Libra.{next_u64}
use stargate.Proposal.{
  PendingTransaction, negotiating, agreed, applying, rank, consensus_reached, set_applying,
}
use stargate.Stm.{Error, not_ready, advance_state}
use stargate.Stm.Handle.{handle_apply_proposal}
use stargate.Store.{
  ChannelStore, ChannelTransactionToCommit, offchain, sequence_number, generate_witness,
}
use stargate.Store.Applier.{TxApplier}
use stargate.Store.Synced.{IsSynced, apply_next}
use stargate.Store.Applier
use stargate.Channel.{Channel, World, from_storage}
use stargate.Common.Handler.{continue, ◌>>=◌, pure, lift, gets}
use stargate.Channel.Persist.{pending_txn, commit, commit_result, advanced, apply, or_default}
use stargate.Channel.Negotiate.{apply_pending_txn, apply_of, apply_by_lifecycle}

-- what is committed for a pending transaction
abbrev pub to_commit : PendingTransaction → ChannelTransactionToCommit
to_commit p = record {
  signed_channel_txn =
      offchain (record { raw_tx = p.proposal.channel_txn; signatures = p.signatures });
  write_set = p.output.write_set;
  major_status = p.output.major_status;
  gas_used = p.output.gas_used;
}

module _ (w : World) (c : Channel) (p : PendingTransaction) (has : c.store.pending_txn ≡ some p)
    (is_agreed : p.lifecycle ≡ agreed) (stays : p.output.is_travel_txn ≡ false)
    (works : w.disk_works ≡ true) where
  commit-eq :
      (s : ChannelStore) (a : TxApplier)
      → Applier.apply w.h true w.now c.store c.applier (to_commit p) ≡ ok (s, a)
      → commit w none (to_commit p) c ≡ (ok tt, advanced none c s a)
  unfolding commit commit_result
  commit-eq s a e =
      ap
        (λ (d : Bool).
          commit_result none c
            (from_storage (Applier.apply w.h d w.now c.store c.applier (to_commit p))))
        works
      ∙ ap (λ o. commit_result none c (from_storage o)) e

  by_lifecycle-eq :
      (s : ChannelStore) (a : TxApplier)
      → Applier.apply w.h true w.now c.store c.applier (to_commit p) ≡ ok (s, a)
      → apply_by_lifecycle w applying (set_applying p) c ≡ (ok none, advanced none c s a)
  unfolding apply_by_lifecycle apply set_applying ◌>>=◌ pure
  by_lifecycle-eq s a e =
      ap (λ (r : Outcome Error (Unit {0}) × Channel). continue r.0 (λ _. pure none) r.1)
        (commit-eq s a e)

  becomes_applying : handle_apply_proposal p ≡ set_applying p
  unfolding handle_apply_proposal consensus_reached
  becomes_applying = rw (is_agreed, stays) refl

  is_ready : (rank p.lifecycle == rank negotiating || rank p.lifecycle == rank agreed) ≡ true
  is_ready = rw is_agreed refl

  apply_of-eq : apply_of w (some p) c ≡ apply_by_lifecycle w applying (set_applying p) c
  unfolding apply_of ◌>>=◌ lift set_applying
  apply_of-eq =
      ap
        (λ b.
          continue (ensure b not_ready)
            (λ _.
              apply_by_lifecycle w (handle_apply_proposal p).lifecycle (handle_apply_proposal p))
            c)
        is_ready
      ∙ ap (λ (q : PendingTransaction). apply_by_lifecycle w q.lifecycle q c) becomes_applying

  apply_pending-eq :
      (s : ChannelStore) (a : TxApplier)
      → Applier.apply w.h true w.now c.store c.applier (to_commit p) ≡ ok (s, a)
      → apply_pending_txn w c ≡ (ok none, advanced none c s a)
  unfolding apply_pending_txn pending_txn ◌>>=◌ gets
  apply_pending-eq s a e = ap (λ o. apply_of w o c) has ∙ apply_of-eq ∙ by_lifecycle-eq s a e

  -- A channel that is in step with its disk, whose pending transaction is agreed, does not travel
  -- and has the sequence number that comes next, applies it whenever the disk works: nothing is
  -- left pending, the accumulator grows by a leaf, the machine's witness has the next sequence
  -- number (on 64 bits) and the transaction's write set, and the channel and its disk stay in
  -- step.
  pub apply_agreed :
      IsSynced w.h c.store c.applier
      → p.proposal.channel_txn.channel_sequence_number ≡ length c.applier.leaves
      → (d : Channel) × (apply_pending_txn w c ≡ (ok none, d))
        × (d.store.pending_txn ≡ none)
        × (length d.applier.leaves ≡ length c.applier.leaves + 1)
        × (d.stm.witness.channel_sequence_number ≡ next_u64 (length c.applier.leaves))
        × (d.stm.witness.write_set ≡ p.output.write_set)
        × IsSynced w.h d.store d.applier
  unfolding advanced advance_state sequence_number generate_witness
  apply_agreed y next =
      let (s, a, e, synced, cleared, grown, witness, _) =
        apply_next w.h w.now c.store c.applier (to_commit p) y next in
      (
        advanced none c s a,
        apply_pending-eq s a e,
        cleared,
        grown,
        ap (λ o. (or_default o).channel_sequence_number) witness ∙ ap next_u64 next,
        ap (λ o. (or_default o).write_set) witness,
        synced,
      )

  -- what the machine sees of the channel afterwards
  pub applied_view :
      IsSynced w.h c.store c.applier
      → p.proposal.channel_txn.channel_sequence_number ≡ length c.applier.leaves
      → (d : Channel) × (apply_pending_txn w c ≡ (ok none, d))
        × (d.store.pending_txn ≡ none)
        × (d.stm.channel_address ≡ c.stm.channel_address)
        × (d.stm.channel_state ≡ c.stm.channel_state)
        × (d.stm.witness
            ≡ generate_witness w.h (to_commit p).signed_channel_txn (to_commit p).write_set)
  unfolding advanced advance_state sequence_number
  applied_view y next =
      let (s, a, e, _, cleared, _, witness, _) =
        apply_next w.h w.now c.store c.applier (to_commit p) y next in
      (
        advanced none c s a,
        apply_pending-eq s a e,
        cleared,
        refl,
        refl,
        ap (λ o. or_default o) witness,
      )
