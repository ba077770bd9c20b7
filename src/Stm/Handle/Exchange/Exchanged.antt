-- ===== src/Stm/Handle/Exchange/Exchanged.antt =====
-- sgwallet/src/channel/channel_stm.rs: what the handlers of both machines give on one proposal.
use mathlib.Core.Path.{subst}
use stargate.Common.{
  ℕ, ◌≡◌, ◌≢◌, ◌⊎◌, inl, inr, refl, sym, ◌∙◌, true, none, some, List, [], ◌∷◌, arith, contains,
}
use stargate.Common.Outcome.{ok}
use stargate.Libra.{Duration, TransactionArgument, PayloadBody, TransactionOutput}
use stargate.Proposal
use stargate.Proposal.{
  ChannelOp, ChannelTransaction, ChannelTransactionProposal, ChannelTransactionSigs,
  PendingTransaction, created, negotiating, agreed, set_lifecycle, add_signature, get_signature,
  try_reach_consensus, is_negotiating, consensus_reached,
}
use stargate.Stm.{Externals, ChannelStm, channel_sequence_number}
use stargate.Stm.Build.{generate_txn_sigs, sigs_by, generate_proposal, execute_proposal}
use stargate.Stm.Handle.{verify_proposal, handle_new_proposal, handle_proposal_signature}
use stargate.Stm.Handle.Signing.{
  sequence_number_agrees, SameView, verify_txn_sigs-generate_txn_sigs,
  verify_proposal-generate_proposal,
}
use stargate.Stm.Handle.Exchange.{
  Partners, fresh, half_signed, full_signed, first_signature, second_signature,
}
use stargate.Stm.Handle.Exchange.Executed.{IgnoresSigner, executed_by_other}

numbered :
    (x : Externals) (a : ChannelStm) (expiration : Duration) (op : ChannelOp)
    (args : List TransactionArgument) {proposal : ChannelTransactionProposal}
    → generate_proposal x a expiration op args ≡ ok proposal
    → channel_sequence_number x a ≡ ok proposal.channel_txn.channel_sequence_number
unfolding generate_proposal
numbered x a expiration op args h = ground arith

new_of_parts :
    (x : Externals) (stm : ChannelStm) (proposal : ChannelTransactionProposal)
    {r : PayloadBody × ℕ × TransactionOutput}
    → channel_sequence_number x stm ≡ ok proposal.channel_txn.channel_sequence_number
    → verify_proposal x stm proposal ≡ ok tt
    → execute_proposal x stm proposal ≡ ok r
    → handle_new_proposal x stm none proposal ≡ ok (fresh proposal r.2)
unfolding handle_new_proposal set_lifecycle Proposal.new
new_of_parts x stm proposal e v r = ground (arith, e, v, r)

signs_of_parts :
    (x : Externals) (stm : ChannelStm) (proposal : ChannelTransactionProposal)
    {r : PayloadBody × ℕ × TransactionOutput}
    → channel_sequence_number x stm ≡ ok proposal.channel_txn.channel_sequence_number
    → execute_proposal x stm proposal ≡ ok r
    → generate_txn_sigs x stm proposal.channel_txn r.2
      ≡ ok (sigs_by x stm r.2 proposal.channel_txn.channel_sequence_number r.1)
unfolding generate_txn_sigs execute_proposal
signs_of_parts x stm proposal e r = ground (arith, e, r)

-- the address on one's own signatures
address-sigs_by :
    (x : Externals) (stm : ChannelStm) (output : TransactionOutput) (n s : ℕ)
    → (sigs_by x stm output n s).address ≡ stm.account_address
unfolding sigs_by
address-sigs_by x stm output n s = refl

-- What the machines of the proposer `a` and of its partner `b` come to on a proposal: the signatures
-- `s` and `t` are theirs.
pub record Exchanged (x : Externals) (a b : ChannelStm) (proposal : ChannelTransactionProposal)
    (output : TransactionOutput) (s t : ChannelTransactionSigs) : Type 0 where
  pub address_own : s.address ≡ a.account_address
  pub address_other : t.address ≡ b.account_address
  pub new_by_own : handle_new_proposal x a none proposal ≡ ok (fresh proposal output)
  pub new_by_other : handle_new_proposal x b none proposal ≡ ok (fresh proposal output)
  pub signs_own : generate_txn_sigs x a proposal.channel_txn output ≡ ok s
  pub signs_other : generate_txn_sigs x b proposal.channel_txn output ≡ ok t
  pub signed_own :
      handle_proposal_signature x a (fresh proposal output) (x.txn_hash proposal.channel_txn) s
      ≡ ok (half_signed proposal output s)
  pub signed_at_other :
      handle_proposal_signature x b (fresh proposal output) (x.txn_hash proposal.channel_txn) s
      ≡ ok (half_signed proposal output s)
  pub agreed_at_other :
      handle_proposal_signature x b
        (half_signed proposal output s)
        (x.txn_hash proposal.channel_txn)
        t
      ≡ ok (full_signed proposal output s t)
  pub seen_by_own :
      handle_new_proposal x a (some (half_signed proposal output s)) proposal
      ≡ ok (half_signed proposal output s)
  pub agreed_at_own :
      handle_proposal_signature x a
        (half_signed proposal output s)
        (x.txn_hash proposal.channel_txn)
        t
      ≡ ok (full_signed proposal output s t)

module _ (x : Externals) (a b : ChannelStm) (partners : Partners x a b) (expiration : Duration)
    (op : ChannelOp) (args : List TransactionArgument) {proposal : ChannelTransactionProposal}
    (made : generate_proposal x a expiration op args ≡ ok proposal)
    {r : PayloadBody × ℕ × TransactionOutput} (runs : execute_proposal x a proposal ≡ ok r)
    (ignores : IgnoresSigner x) where
  same_view : SameView a a
  same_view = record { channel_address = refl; channel_state = refl; witness = refl }

  reversed : SameView b a
  reversed = record {
    channel_address = sym partners.view.channel_address;
    channel_state = sym partners.view.channel_state;
    witness = sym partners.view.witness;
  }

  own_member : contains a.participant_addresses a.account_address ≡ true
  own_member = elim partners.two [ inl e ↦ rw (e) (ground arith) | inr e ↦ rw (e) (ground arith) ]

  pub own_signature : ChannelTransactionSigs
  own_signature = sigs_by x a r.2 proposal.channel_txn.channel_sequence_number r.1

  pub other_signature : ChannelTransactionSigs
  other_signature =
      sigs_by x b r.2 proposal.channel_txn.channel_sequence_number
        (x.sign_message b.private_key (x.body_hash r.0))

  abbrev half : PendingTransaction
  half = half_signed proposal r.2 own_signature

  abbrev full : PendingTransaction
  full = full_signed proposal r.2 own_signature other_signature

  number_own : channel_sequence_number x a ≡ ok proposal.channel_txn.channel_sequence_number
  number_own = numbered x a expiration op args made

  number_other : channel_sequence_number x b ≡ ok proposal.channel_txn.channel_sequence_number
  number_other = sym (sequence_number_agrees x a b partners.view) ∙ number_own

  runs_other :
      execute_proposal x b proposal ≡ ok (r.0, x.sign_message b.private_key (x.body_hash r.0), r.2)
  runs_other =
      executed_by_other x a b partners.view partners.same_keys partners.same_participants proposal
        ignores runs

  new_by_own : handle_new_proposal x a none proposal ≡ ok (fresh proposal r.2)
  new_by_own =
      new_of_parts x a proposal number_own
        (verify_proposal-generate_proposal x a a same_view expiration op args partners.own_pair
          own_member made)
        runs

  new_by_other : handle_new_proposal x b none proposal ≡ ok (fresh proposal r.2)
  new_by_other =
      new_of_parts x b proposal number_other
        (verify_proposal-generate_proposal x a b partners.view expiration op args partners.own_pair
          (rw (← partners.same_participants) own_member) made)
        runs_other

  signs_own : generate_txn_sigs x a proposal.channel_txn r.2 ≡ ok own_signature
  unfolding own_signature
  signs_own = signs_of_parts x a proposal number_own runs

  signs_other : generate_txn_sigs x b proposal.channel_txn r.2 ≡ ok other_signature
  unfolding other_signature
  signs_other = signs_of_parts x b proposal number_other runs_other

  address_own : own_signature.address ≡ a.account_address
  unfolding own_signature
  address_own = address-sigs_by x a r.2 _ _

  address_other : other_signature.address ≡ b.account_address
  unfolding other_signature
  address_other = address-sigs_by x b r.2 _ _

  differ : own_signature.address ≢ other_signature.address
  differ e = partners.differ (sym address_own ∙ e ∙ address_other)

  signed_own :
      handle_proposal_signature x a
        (fresh proposal r.2)
        (x.txn_hash proposal.channel_txn)
        own_signature
      ≡ ok half
  signed_own = first_signature x a proposal r.2 own_signature (
      verify_txn_sigs-generate_txn_sigs x a a same_view (fresh proposal r.2) partners.own_pair
        signs_own)

  signed_at_other :
      handle_proposal_signature x b
        (fresh proposal r.2)
        (x.txn_hash proposal.channel_txn)
        own_signature
      ≡ ok half
  signed_at_other = first_signature x b proposal r.2 own_signature (
      verify_txn_sigs-generate_txn_sigs x a b partners.view (fresh proposal r.2) partners.own_pair
        signs_own)

  two_signers :
      (a.participant_addresses ≡ own_signature.address ∷ other_signature.address ∷ [])
      ⊎ (a.participant_addresses ≡ other_signature.address ∷ own_signature.address ∷ [])
  two_signers = rw (address_own, address_other) partners.two

  agreed_at_other :
      handle_proposal_signature x b half (x.txn_hash proposal.channel_txn) other_signature ≡ ok full
  agreed_at_other =
      second_signature x b proposal r.2 own_signature other_signature differ
        (verify_txn_sigs-generate_txn_sigs x b b
          (record { channel_address = refl; channel_state = refl; witness = refl }) half
          partners.other_pair signs_other)
        (subst
          (λ (ps : List ℕ).
            (ps ≡ own_signature.address ∷ other_signature.address ∷ [])
            ⊎ (ps ≡ other_signature.address ∷ own_signature.address ∷ []))
          partners.same_participants two_signers)

  agreed_at_own :
      handle_proposal_signature x a half (x.txn_hash proposal.channel_txn) other_signature ≡ ok full
  agreed_at_own =
      second_signature x a proposal r.2 own_signature other_signature differ
        (verify_txn_sigs-generate_txn_sigs x b a reversed half partners.other_pair signs_other)
        two_signers

  -- the proposer sees its own proposal again
  seen_by_own : handle_new_proposal x a (some half) proposal ≡ ok half
  unfolding handle_new_proposal
  seen_by_own = ground (arith, number_own)

  pub exchanged : Exchanged x a b proposal r.2 own_signature other_signature
  exchanged = record {
    address_own = address_own;
    address_other = address_other;
    new_by_own = new_by_own;
    new_by_other = new_by_other;
    signs_own = signs_own;
    signs_other = signs_other;
    signed_own = signed_own;
    signed_at_other = signed_at_other;
    agreed_at_other = agreed_at_other;
    seen_by_own = seen_by_own;
    agreed_at_own = agreed_at_own;
  }
