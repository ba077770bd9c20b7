-- ===== src/Examples.antt =====
-- Runs of the state machine and of the channel on concrete inputs.
pub mod Toy
mod Channels
mod Routing
mod Invoices
mod Messages
mod Wallets
mod Nodes
mod Tables
use stargate.Common.{
  ℕ, contains, ◌+◌, ◌≡◌, ◌≤◌, ◌↔◌, refl, Bool, true, false, Option, none, some, List, [], ◌∷◌,
  ==-self, arith, IsOrdered, if◌then◌else◌,
}
use stargate.Common.Dict.{get, contains_key, insert}
use stargate.Common.Outcome.{Outcome, ok, err, panic}
use stargate.Libra.{Duration}
use stargate.Proposal.{
  get_signature, add_signature, is_negotiating, set_lifecycle, ChannelTransactionProposal,
  PendingTransaction, created, negotiating, agreed, try_reach_consensus, consensus_reached,
}
use stargate.Proposal.Consensus.{signers, HasOrderedSigners, consensus_iff_signers}
use stargate.Stm.{get_local, access_local, Externals, channel_sequence_number}
use stargate.Stm.Build.{
  build_and_sign_channel_txn_payload_body, channel_op_to_action, sigs_by, generate_proposal,
  generate_txn_sigs,
}
use stargate.Stm.Handle.{
  advance_lifecycle, verify_proposal, verify_txn_sigs, handle_proposal_signature,
}
use stargate.Stm.Handle.Signing.{
  SameView, HasKeyPair, Endorses, verify_txn_sigs-generate_txn_sigs, verify_txn_sigs-Endorses,
}
use stargate.Stm.Handle.Agreement.{IsCoherent, handle_proposal_signature-IsCoherent}
use stargate.Stm.Handle.Outsiders.{
  collect, IsForeign, collect-foreign, collect-agreed, late_signature,
}
use Toy.{
  x, alice, bob, expiration, transfer, proposal, signed_by, pending, both, channel_txn, output,
}

members-IsOrdered : IsOrdered (1 ∷ 2 ∷ [])
members-IsOrdered = ((omega arith, tt), (tt, tt))

abbrev half : PendingTransaction
half = pending negotiating ((1, signed_by 1 11) ∷ [])

abbrev full : PendingTransaction
full = pending agreed both

consensus_iff_signers_example :
    ((try_reach_consensus (pending negotiating both) (1 ∷ 2 ∷ [])).1 ≡ true)
    ↔ (signers (pending negotiating both) ≡ 1 ∷ 2 ∷ [])
consensus_iff_signers_example =
    consensus_iff_signers (pending negotiating both) (1 ∷ 2 ∷ []) refl members-IsOrdered
      members-IsOrdered

alike : SameView alice bob
alike = record { channel_address = refl; channel_state = refl; witness = refl }

alice_key : HasKeyPair x alice
alice_key m = ==-self (11 + m)

signs : generate_txn_sigs x alice channel_txn output ≡ ok (signed_by 1 11)
unfolding generate_txn_sigs build_and_sign_channel_txn_payload_body channel_op_to_action
    channel_sequence_number get_local access_local sigs_by
signs = refl

proposes : generate_proposal x alice expiration transfer [] ≡ ok proposal
unfolding generate_proposal build_and_sign_channel_txn_payload_body channel_op_to_action
    channel_sequence_number get_local access_local
proposes = refl

verify_txn_sigs-generate_txn_sigs_example :
    verify_txn_sigs x bob (pending created []) (signed_by 1 11) ≡ ok tt
verify_txn_sigs-generate_txn_sigs_example =
    verify_txn_sigs-generate_txn_sigs x alice bob alike (pending created []) alice_key signs

bob_passes : verify_txn_sigs x alice half (signed_by 2 12) ≡ ok tt
unfolding verify_txn_sigs build_and_sign_channel_txn_payload_body channel_op_to_action
    channel_sequence_number get_local access_local
bob_passes = refl

verify_txn_sigs-Endorses_example : Endorses x alice half (signed_by 2 12)
verify_txn_sigs-Endorses_example = verify_txn_sigs-Endorses x alice half (signed_by 2 12) bob_passes

half-IsCoherent : IsCoherent (1 ∷ 2 ∷ []) half
half-IsCoherent = record {
  ordered = (tt, tt);
  fresh = λ e. cc;
  waiting = λ _ e. cc;
  early = omega arith;
  reached = λ e. cc;
}

bob_handled : handle_proposal_signature x alice half 1 (signed_by 2 12) ≡ ok full
unfolding handle_proposal_signature build_and_sign_channel_txn_payload_body channel_op_to_action
    channel_sequence_number get_local access_local verify_txn_sigs get_signature get
    advance_lifecycle add_signature contains_key insert try_reach_consensus is_negotiating
    consensus_reached
bob_handled = refl

handle_proposal_signature-IsCoherent_example : IsCoherent (1 ∷ 2 ∷ []) full
handle_proposal_signature-IsCoherent_example =
    handle_proposal_signature-IsCoherent x alice half 1 (signed_by 2 12) members-IsOrdered
      half-IsCoherent bob_handled

alice_handled : handle_proposal_signature x alice (pending created []) 1 (signed_by 1 11) ≡ ok half
unfolding handle_proposal_signature build_and_sign_channel_txn_payload_body channel_op_to_action
    channel_sequence_number get_local access_local verify_txn_sigs get_signature get
    advance_lifecycle add_signature contains_key insert set_lifecycle
alice_handled = refl

both_collected :
    collect x alice 1 (pending created []) (signed_by 1 11 ∷ signed_by 2 12 ∷ []) ≡ ok full
both_collected = rw (alice_handled, bob_handled) refl

collect-agreed_example : (full.lifecycle ≡ agreed) ↔ (signers full ≡ 1 ∷ 2 ∷ [])
collect-agreed_example =
    collect-agreed x alice 1 members-IsOrdered (pending created [])
      (signed_by 1 11 ∷ signed_by 2 12 ∷ []) refl refl (omega arith) both_collected

-- address 5 is no participant; it signs with the key 15
abbrev crowded : PendingTransaction
crowded = pending negotiating ((1, signed_by 1 11) ∷ (5, signed_by 5 15) ∷ [])

abbrev overcrowded : PendingTransaction
overcrowded =
    pending negotiating ((1, signed_by 1 11) ∷ (2, signed_by 2 12) ∷ (5, signed_by 5 15) ∷ [])

crowded-IsCoherent : IsCoherent (1 ∷ 2 ∷ []) crowded
crowded-IsCoherent = record {
  ordered = ((omega arith, tt), (tt, tt));
  fresh = λ e. cc;
  waiting = λ _ e. cc;
  early = omega arith;
  reached = λ e. cc;
}

bob_too_late : handle_proposal_signature x alice crowded 1 (signed_by 2 12) ≡ ok overcrowded
unfolding handle_proposal_signature build_and_sign_channel_txn_payload_body channel_op_to_action
    channel_sequence_number get_local access_local verify_txn_sigs get_signature get
    advance_lifecycle add_signature contains_key insert try_reach_consensus is_negotiating
    consensus_reached
bob_too_late = refl

collect-foreign_example :
    (overcrowded.lifecycle ≡ negotiating) × (consensus_reached overcrowded ≡ false)
collect-foreign_example =
    collect-foreign x alice 1 members-IsOrdered crowded 5 (signed_by 2 12 ∷ [])
      (record { signed = refl; outside = refl }) crowded-IsCoherent refl (rw bob_too_late refl)

full-IsCoherent : IsCoherent (1 ∷ 2 ∷ []) full
full-IsCoherent = record {
  ordered = members-IsOrdered;
  fresh = λ e. cc;
  waiting = λ e _. cc;
  early = omega arith;
  reached = λ _. refl;
}

outsider_passes : verify_txn_sigs x alice full (signed_by 5 15) ≡ ok tt
unfolding verify_txn_sigs build_and_sign_channel_txn_payload_body channel_op_to_action
    channel_sequence_number get_local access_local
outsider_passes = refl

late_signature_example :
    handle_proposal_signature x alice full 1 (signed_by 5 15)
    ≡ (if contains (1 ∷ 2 ∷ []) 5 then ok full else panic)
late_signature_example =
    late_signature x alice full (signed_by 5 15) full-IsCoherent refl outsider_passes
