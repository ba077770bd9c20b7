-- ===== src/Stm/Handle/Exchange.antt =====
-- sgwallet/src/channel/channel_stm.rs: two machines that see a channel of two alike, and the proposal
-- that one of them makes: what the handlers of both come to, step by step.
pub mod Executed
pub mod Exchanged
use mathlib.Core.Path.{subst}
use stargate.Common.{
  ℕ, ◌≡◌, ◌≢◌, ◌⊎◌, inl, inr, refl, sym, ◌∙◌, ap, Bool, true, false, Option, none, some, List, [],
  ◌∷◌, arith, contains, length, all, ==-self, ne→==, ◌==◌,
}
use stargate.Common.Dict.{Dict, get, insert, keys, contains_key}
use stargate.Common.Outcome.{Outcome, ok, ◌>>=◌, >>=-eq-ok}
use stargate.Libra.{
  Duration, TransactionArgument, PayloadBody, TransactionOutput, SignedTransaction,
}
use stargate.Proposal
use stargate.Proposal.{
  ChannelOp, ChannelTransaction, ChannelTransactionProposal, ChannelTransactionSigs,
  PendingTransaction, created, negotiating, agreed, set_lifecycle, add_signature, get_signature,
  try_reach_consensus, is_negotiating, consensus_reached,
}
use stargate.Stm.{
  Error, Externals, ChannelStm, ChannelStateView, externally, channel_sequence_number,
}
use stargate.Stm.Build.{
  build_and_sign_channel_txn_payload_body, generate_txn_sigs, sigs_by, generate_proposal,
  execute_proposal, build_raw_txn_from_channel_txn, build_chain_txn, keys_and_sigs,
  max_gas_amount_offchain,
}
use stargate.Stm.Handle.{
  verify_txn_sigs, verify_proposal, handle_new_proposal, handle_proposal_signature,
  advance_lifecycle,
}
use stargate.Stm.Handle.Signing.{
  body_agrees, sequence_number_agrees, SameView, HasKeyPair, verify_txn_sigs-generate_txn_sigs,
  verify_proposal-generate_proposal,
}

-- `a` and `b` are the two participants, and nothing of the channel differs between them.
pub record Partners (x : Externals) (a b : ChannelStm) : Type 0 where
  pub view : SameView a b
  pub same_keys : a.participant_keys ≡ b.participant_keys
  pub same_participants : a.participant_addresses ≡ b.participant_addresses
  pub two :
      (a.participant_addresses ≡ a.account_address ∷ b.account_address ∷ [])
      ⊎ (a.participant_addresses ≡ b.account_address ∷ a.account_address ∷ [])
  pub differ : a.account_address ≢ b.account_address
  pub own_pair : HasKeyPair x a
  pub other_pair : HasKeyPair x b

-- the pending transaction before any signature, and with the signatures of one or of both
abbrev pub fresh : ChannelTransactionProposal → TransactionOutput → PendingTransaction
fresh proposal output = record {
  proposal = proposal;
  output = output;
  signatures = [];
  lifecycle = created;
}

abbrev pub half_signed :
    ChannelTransactionProposal → TransactionOutput → ChannelTransactionSigs → PendingTransaction
half_signed proposal output s = record {
  proposal = proposal;
  output = output;
  signatures = (s.address, s) ∷ [];
  lifecycle = negotiating;
}

abbrev pub full_signed :
    ChannelTransactionProposal
    → TransactionOutput
    → ChannelTransactionSigs
    → ChannelTransactionSigs
    → PendingTransaction
full_signed proposal output s t = record {
  proposal = proposal;
  output = output;
  signatures = insert t.address t ((s.address, s) ∷ []);
  lifecycle = agreed;
}

module _ (x : Externals) (stm : ChannelStm) (proposal : ChannelTransactionProposal)
    (output : TransactionOutput) (s : ChannelTransactionSigs) where
  pub first_signature :
      verify_txn_sigs x stm (fresh proposal output) s ≡ ok tt
      → handle_proposal_signature x stm (fresh proposal output) (x.txn_hash proposal.channel_txn) s
        ≡ ok (half_signed proposal output s)
  unfolding handle_proposal_signature get_signature get add_signature set_lifecycle contains_key
      insert
  first_signature e = rw (==-self (x.txn_hash proposal.channel_txn), e) refl

  module _ (t : ChannelTransactionSigs) (differ : s.address ≢ t.address) where
    pub second_signature :
        verify_txn_sigs x stm (half_signed proposal output s) t ≡ ok tt
        → (stm.participant_addresses ≡ s.address ∷ t.address ∷ [])
          ⊎ (stm.participant_addresses ≡ t.address ∷ s.address ∷ [])
        → handle_proposal_signature x stm
            (half_signed proposal output s)
            (x.txn_hash proposal.channel_txn)
            t
          ≡ ok (full_signed proposal output s t)
    unfolding handle_proposal_signature get_signature get add_signature contains_key
        try_reach_consensus insert is_negotiating
    second_signature e (inl two) =
        rw (==-self (x.txn_hash proposal.channel_txn), ne→== s.address t.address differ, e, two)
          (ground arith)
    second_signature e (inr two) =
        rw (==-self (x.txn_hash proposal.channel_txn), ne→== s.address t.address differ, e, two)
          (ground arith)
