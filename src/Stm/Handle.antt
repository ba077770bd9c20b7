-- ===== src/Stm/Handle.antt =====
-- sgwallet/src/channel/channel_stm.rs: the handlers of the channel state machine, with the checks
-- that they make on a proposal and on a participant's signatures.
pub mod Signing
pub mod Agreement
pub mod Outsiders
pub mod Exchange
use mathlib.Core.Bool.{decide}
use mathlib.Core.Logic.{ite}
use native.Mathlib.Decide.{ℕ_discrete}
use stargate.Common.{
  ℕ, ◌-◌, ◌||◌, Bool, true, false, not, ◌&&◌, Option, none, some, List, [], ◌∷◌, ◌==◌, leb, ltb,
  if◌then◌else◌, contains,
}
use stargate.Common.Dict.{Dict, get}
use stargate.Common.Outcome.{Outcome, ok, err, panic, ◌>>=◌, ◌>>◌, ensure}
use stargate.Libra.{AccessPath, WriteOp, deletion, value, next_u64, WriteSet, TransactionOutput}
use stargate.Proposal
use stargate.Proposal.{
  is_open, ChannelTransaction, ChannelTransactionProposal, ChannelTransactionSigs,
  PendingTransaction, ProposalLifecycle, created, negotiating, add_signature, get_signature,
  set_lifecycle, set_applying, set_travelling, consensus_reached, try_reach_consensus,
}
use stargate.Stm.{
  Error, stale_proposal, different_pending, hash_mismatch, wrong_channel, wrong_sequence_number,
  bad_proposer_signature, foreign_proposer, bad_payload_signature, witness_mismatch,
  bad_witness_signature, no_travel_signature, bad_travel_signature, Externals, ChannelStm,
  channel_sequence_number,
}
use stargate.Stm.Build.{
  build_and_sign_channel_txn_payload_body, execute_proposal, witness_write_set,
}

module _ (x : Externals) where
  -- `checked_sub(1).unwrap_or(0)` is the truncated subtraction
  unfoldable pub verify_proposal :
      ChannelStm → ChannelTransactionProposal → Outcome Error (Unit {0})
  verify_proposal stm proposal = do
    let channel_txn = proposal.channel_txn
    ensure (stm.channel_address == channel_txn.channel_address) wrong_channel
    n ← channel_sequence_number x stm
    ensure
        (leb (n - 1) channel_txn.channel_sequence_number
          && leb channel_txn.channel_sequence_number n)
        wrong_sequence_number
    ensure
        (x.verify_signature proposal.proposer_public_key (x.txn_hash channel_txn)
          proposal.proposer_signature)
        bad_proposer_signature
    if not (is_open channel_txn.operator)
        then ensure (contains stm.participant_addresses channel_txn.proposer) foreign_proposer
        else ok tt

  -- the check of a travelling transaction's own witness
  verify_travel : ℕ → TransactionOutput → ChannelTransactionSigs → Outcome Error (Unit {0})
  verify_travel n output sigs =
      if output.is_travel_txn
      then elim sigs.travel_output_witness_signature [
        | none ↦ err no_travel_signature
        | some signature ↦
            ensure
              (x.verify_signature sigs.public_key
                (x.witness_data_hash (next_u64 n) output.write_set) signature)
              bad_travel_signature
      ]
      else ok tt

  unfoldable pub verify_txn_sigs :
      ChannelStm → PendingTransaction → ChannelTransactionSigs → Outcome Error (Unit {0})
  unfolding verify_travel
  verify_txn_sigs stm pending_txn sigs = do
    b ← build_and_sign_channel_txn_payload_body x stm pending_txn.proposal.channel_txn
    ensure (x.verify_signature sigs.public_key (x.body_hash b.0) sigs.channel_payload_signature)
        bad_payload_signature
    n ← channel_sequence_number x stm
    let hash = x.witness_data_hash (next_u64 n) (witness_write_set pending_txn.output)
    ensure (hash == sigs.witness_data_hash) witness_mismatch
    ensure (x.verify_signature sigs.public_key sigs.witness_data_hash sigs.witness_data_signature)
        bad_witness_signature
    verify_travel n pending_txn.output sigs

  -- The pending transaction is rewritten in place; it is what the result holds.
  unfoldable pub handle_new_proposal :
      ChannelStm
      → Option PendingTransaction
      → ChannelTransactionProposal
      → Outcome Error PendingTransaction
  handle_new_proposal stm pending_txn proposal = do
    n ← channel_sequence_number x stm
    ensure (not (ltb proposal.channel_txn.channel_sequence_number n)) stale_proposal
    elim pending_txn [
      | none ↦ (do
        verify_proposal stm proposal
        e ← execute_proposal x stm proposal
        ok (set_lifecycle (Proposal.new proposal e.2 []) created))
      | some pending ↦ (do
        ensure (x.txn_hash pending.proposal.channel_txn == x.txn_hash proposal.channel_txn)
            different_pending
        ok pending)
    ]

  -- what a new signature does to the life of the proposal
  unfoldable pub advance_lifecycle :
      ChannelStm → ProposalLifecycle → PendingTransaction → Outcome Error PendingTransaction
  advance_lifecycle stm created p = ok (set_lifecycle p negotiating)
  advance_lifecycle stm negotiating p = ok (try_reach_consensus p stm.participant_addresses).0
  advance_lifecycle stm _ p = panic

  unfoldable pub handle_proposal_signature :
      ChannelStm
      → PendingTransaction
      → ℕ
      → ChannelTransactionSigs
      → Outcome Error PendingTransaction
  unfolding advance_lifecycle
  handle_proposal_signature stm pending_txn proposal_id sigs = do
    ensure (x.txn_hash pending_txn.proposal.channel_txn == proposal_id) hash_mismatch
    elim (get_signature pending_txn sigs.address) [
      | none ↦
          verify_txn_sigs stm pending_txn sigs
          >> advance_lifecycle stm pending_txn.lifecycle (add_signature pending_txn sigs)
      | some _ ↦ ok pending_txn
    ]

unfoldable pub handle_apply_proposal : PendingTransaction → PendingTransaction
handle_apply_proposal p =
    if consensus_reached p && not p.output.is_travel_txn then set_applying p else set_travelling p

pub AccessPath-discrete : Discrete AccessPath
AccessPath-discrete = hlevel ℕ_discrete

pub WriteOp-discrete : Discrete WriteOp
WriteOp-discrete = hlevel ℕ_discrete

-- `prev_write_set.get(ap)`, of the map collected from the old pairs: the last one counts
previous_op : WriteSet → AccessPath → Option WriteOp → Option WriteOp
previous_op [] ap found = found
previous_op ((p, op) ∷ ws) ap found =
    previous_op ws ap (ite (AccessPath-discrete p ap) (some op) found)

modified_in_this_epoch : WriteSet → AccessPath → WriteOp → Bool
modified_in_this_epoch old ap op = elim (previous_op old ap none) [
  | none ↦ true
  | some old_op ↦ not (decide (WriteOp-discrete old_op op))
]

-- channel.rs
unfoldable pub is_participant_channel_resource_modified : Externals → WriteSet → WriteSet → ℕ → Bool
unfolding previous_op modified_in_this_epoch
is_participant_channel_resource_modified x old [] participant = false
is_participant_channel_resource_modified x old ((ap, op) ∷ ws) participant =
    (elim (x.participant_of ap) [ none ↦ false | some a ↦ a == participant ]
      && modified_in_this_epoch old ap op)
    || is_participant_channel_resource_modified x old ws participant

unfoldable pub can_auto_sign_pending_proposal : Externals → ChannelStm → PendingTransaction → Bool
can_auto_sign_pending_proposal x stm p = not (
    is_participant_channel_resource_modified x stm.witness.write_set p.output.write_set
      stm.account_address)
