-- ===== src/Channel/Handshake.antt =====
-- sgwallet/src/channel/channel.rs: the two channels of a pair, through a proposal, its acceptance and
-- the answer.
pub mod Steps
use mathlib.Core.Bool.{decide}
use stargate.Common.{
  ℕ, length, ◌≡◌, ◌≢◌, refl, sym, ◌∙◌, ap, Bool, true, false, not, ◌&&◌, Option, none, some, List,
  [], ◌∷◌, arith, ◌==◌, ne→==, ==-self, ltb, if◌then◌else◌,
}
use stargate.Common.Dict.{get, insert, contains_key, contains_key-get, get-insert, get-insert_self}
use stargate.Common.Outcome.{Outcome, ok, err, panic, assert}
use stargate.Common.Handler.{◌>>=◌, pure, fail, lift, gets, run-bind, run-lift, run-gets}
use stargate.Libra.{TransactionArgument, TransactionOutput, PayloadBody, Witness}
use stargate.Stm.Handle.Signing.{SameView}
use stargate.Store.Synced.{IsSynced}
use stargate.Channel.Applied.{applied_view}
use stargate.Proposal.{
  ChannelOp, ChannelTransactionProposal, ChannelTransactionSigs, PendingTransaction,
  PendingTransaction-discrete, newer_than, rank, negotiating, agreed, get_signature,
}
use stargate.Stm.{Error, save_conflict, Externals, ChannelStm}
use stargate.Stm.Build.{generate_proposal, execute_proposal, generate_txn_sigs}
use stargate.Stm.Handle.{
  handle_new_proposal, handle_proposal_signature, can_auto_sign_pending_proposal,
  is_participant_channel_resource_modified,
}
use stargate.Stm.Handle.Exchange.{Partners, fresh, half_signed, full_signed}
use stargate.Store.{
  generate_witness, StorageError, ChannelTransactionInfo, AppliedChannelTxn, write_schemas,
  write_op,
}
use stargate.Store.Read.{
  StartupInfo, get_transaction, commit, get_startup_info, get_transaction_by_channel_seq_number,
}
use stargate.Store.Write
use stargate.Channel.{Channel, World, ChannelHandler, from_storage}
use stargate.Channel.Kept.{with_pending}
use stargate.Channel.Persist.{
  pending_txn, write_store, persist_pending, save_over, save_pending_txn, check_applied,
  applied_up_to,
}
use stargate.Channel.Negotiate.{
  execute, auto_sign, collect_pending, collect_after, collect_proposal_with_sigs, apply_pending_txn,
}
use stargate.Stm.Handle.Exchange.Executed.{IgnoresSigner}
use stargate.Stm.Handle.Exchange.Exchanged.{Exchanged, exchanged}
use stargate.Channel.Handshake.Steps.{proposes, answers, concludes}

can_sign :
    (x : Externals) (stm : ChannelStm) (p : PendingTransaction)
    → is_participant_channel_resource_modified x stm.witness.write_set p.output.write_set
        stm.account_address
      ≡ false
    → can_auto_sign_pending_proposal x stm p ≡ true
unfolding can_auto_sign_pending_proposal
can_sign x stm p e = rw (e) refl

module _ (w : World) (ca cb : Channel) (partners : Partners w.x ca.stm cb.stm) (op : ChannelOp)
    (args : List TransactionArgument) {proposal : ChannelTransactionProposal}
    {r : PayloadBody × ℕ × TransactionOutput} where
  -- In a channel of two that see it alike, with nothing pending and working disks: when one of them
  -- proposes an operation that it can execute, the other finds its sequence number unapplied and its
  -- own resources untouched, the proposer finds the number unapplied too, and what an execution gives
  -- does not depend on its signer, then the proposal is answered at once, and with the answer both
  -- hold the same transaction, agreed, with the output that the proposer computed.
  pub handshake :
      generate_proposal w.x ca.stm w.txn_expiration op args ≡ ok proposal
      → execute_proposal w.x ca.stm proposal ≡ ok r
      → IgnoresSigner w.x
      → w.disk_works ≡ true
      → ca.store.pending_txn ≡ none
      → cb.store.pending_txn ≡ none
      → check_applied proposal.channel_txn.channel_sequence_number ca ≡ (ok none, ca)
      → check_applied proposal.channel_txn.channel_sequence_number cb ≡ (ok none, cb)
      → is_participant_channel_resource_modified w.x cb.stm.witness.write_set r.2.write_set
          cb.stm.account_address
        ≡ false
      → (sa : ChannelTransactionSigs) × (sb : ChannelTransactionSigs) × (p : PendingTransaction)
        × (execute w op args ca
            ≡ (ok (proposal, sa, r.2), with_pending (some (half_signed proposal r.2 sa)) ca))
        × (collect_proposal_with_sigs w proposal sa cb ≡ (ok (some sb), with_pending (some p) cb))
        × (collect_proposal_with_sigs w proposal sb
              (with_pending (some (half_signed proposal r.2 sa)) ca)
            ≡ (ok (some sa), with_pending (some p) ca))
        × (p.lifecycle ≡ agreed)
        × (p.proposal ≡ proposal)
        × (p.output ≡ r.2)
  handshake made runs ignores works free_a free_b unapplied_a unapplied_b untouched =
      let ex = exchanged w.x ca.stm cb.stm partners w.txn_expiration op args made runs ignores in
      (
        _,
        _,
        _,
        proposes w ca cb ex partners.differ works free_a free_b op args made,
        answers w ca cb ex partners.differ works free_a free_b (can_sign w.x cb.stm _ untouched)
            unapplied_b,
        concludes w ca cb ex partners.differ works free_a free_b unapplied_a,
        refl,
        refl,
        refl,
      )

-- Two channels that see their account alike, each in step with its disk, with the same agreed
-- transaction pending, which does not travel and has the number that comes next in both: both apply
-- it when the disk works, nothing is left pending, and they see their account alike again, with the
-- transaction's write set.
pub settle :
    (w : World) (ca cb : Channel) (p : PendingTransaction)
    → SameView ca.stm cb.stm
    → IsSynced w.h ca.store ca.applier
    → IsSynced w.h cb.store cb.applier
    → ca.store.pending_txn ≡ some p
    → cb.store.pending_txn ≡ some p
    → p.lifecycle ≡ agreed
    → p.output.is_travel_txn ≡ false
    → p.proposal.channel_txn.channel_sequence_number ≡ length ca.applier.leaves
    → p.proposal.channel_txn.channel_sequence_number ≡ length cb.applier.leaves
    → w.disk_works ≡ true
    → (da : Channel) × (db : Channel) × (apply_pending_txn w ca ≡ (ok none, da))
      × (apply_pending_txn w cb ≡ (ok none, db))
      × (da.store.pending_txn ≡ none)
      × (db.store.pending_txn ≡ none)
      × SameView da.stm db.stm
      × (da.stm.witness.write_set ≡ p.output.write_set)
unfolding generate_witness
settle w ca cb p view ya yb has_a has_b life stays next_a next_b works =
    let (da, ea, na, address_a, state_a, witness_a) =
      applied_view w ca p has_a life stays works ya next_a in
    let (db, eb, nb, address_b, state_b, witness_b) =
      applied_view w cb p has_b life stays works yb next_b in
    (
      da,
      db,
      ea,
      eb,
      na,
      nb,
      record {
        channel_address = address_a ∙ view.channel_address ∙ sym address_b;
        channel_state = state_a ∙ view.channel_state ∙ sym state_b;
        witness = witness_a ∙ sym witness_b;
      },
      ap (λ (x : Witness). x.write_set) witness_a,
    )
