-- ===== src/Stm/Handle/Outsiders.antt =====
-- Sequences of signatures on one proposal: what participants reach together, and what a signature by
-- an address outside the channel does. verify_txn_sigs checks the key that comes with a signature and
-- not that its address belongs to the channel.
use mathlib.Core.Path.{subst}
use stargate.Common.{
  ℕ, ◌≤◌, ◌≡◌, ◌↔◌, sym, ◌∙◌, ap, true, false, List, [], ◌∷◌, arith, ==-self, length, contains,
  IsOrdered, inl, inr, if◌then◌else◌,
}
use stargate.Common.Dict.{contains_key, contains_key-eq, contains_key-get}
use stargate.Common.Outcome.{Outcome, ok, panic, ◌>>=◌, >>=-eq-ok, ok-injective}
use stargate.Proposal.{
  PendingTransaction, ChannelTransactionSigs, created, negotiating, agreed, add_signature,
  get_signature, try_reach_consensus, consensus_reached,
}
use stargate.Proposal.Consensus.{
  signers, consensus_iff_signers, add_signature-HasOrderedSigners, contains-signers-add_signature,
  lifecycle-add_signature, signers-try_reach_consensus, lifecycle-try_reach_consensus,
}
use stargate.Stm.{Error, Externals, ChannelStm}
use stargate.Stm.Handle.{handle_proposal_signature, advance_lifecycle, verify_txn_sigs}
use stargate.Stm.Handle.Agreement.{
  IsCoherent, handled, agreed_of_signers, handle_proposal_signature-IsCoherent,
}

-- the proposal after each signature of a list is handled in turn
abbrev pub collect :
    Externals
    → ChannelStm
    → ℕ
    → PendingTransaction
    → List ChannelTransactionSigs
    → Outcome Error PendingTransaction
collect x stm id p [] = ok p
collect x stm id p (sigs ∷ rest) = do
  p' ← handle_proposal_signature x stm p id sigs
  collect x stm id p' rest

-- An address that has signed without being a participant.
pub record IsForeign (participants : List ℕ) (p : PendingTransaction) (a : ℕ) : Type 0 where
  pub signed : contains (signers p) a ≡ true
  pub outside : contains participants a ≡ false

module _ (x : Externals) (stm : ChannelStm) (id : ℕ) (o : IsOrdered stm.participant_addresses) where
  new_proposal-IsCoherent :
      (p : PendingTransaction)
      → p.lifecycle ≡ created
      → signers p ≡ []
      → IsCoherent stm.participant_addresses p
  new_proposal-IsCoherent p new none_signed = record {
    ordered = rw none_signed tt;
    fresh = λ _. ap length none_signed;
    waiting = λ e. cc;
    early = rw new (omega arith);
    reached = λ e. cc;
  }

  collect-IsCoherent :
      (p : PendingTransaction) (sigs : List ChannelTransactionSigs) {p' : PendingTransaction}
      → IsCoherent stm.participant_addresses p
      → collect x stm id p sigs ≡ ok p'
      → IsCoherent stm.participant_addresses p'
  collect-IsCoherent p [] c h = subst (IsCoherent stm.participant_addresses) (ok-injective h) c
  collect-IsCoherent p (s ∷ rest) c h =
      let (q, first, h₁) = >>=-eq-ok (handle_proposal_signature x stm p id s) _ h in
      collect-IsCoherent q rest (handle_proposal_signature-IsCoherent x stm p id s o c first) h₁

  attempt_stays :
      (q : PendingTransaction) (a : ℕ)
      → IsForeign stm.participant_addresses q a
      → IsOrdered (signers q)
      → q.lifecycle ≡ negotiating
      → ((try_reach_consensus q stm.participant_addresses).0.lifecycle ≡ negotiating)
        × IsForeign stm.participant_addresses (try_reach_consensus q stm.participant_addresses).0 a
  attempt_stays q a f oq n =
      let ps = stm.participant_addresses in
      let life = lifecycle-try_reach_consensus q ps n in
      let same = signers-try_reach_consensus q ps in
      let never : (try_reach_consensus q ps).1 ≡ true → ⊥ = λ e.
        cc
          (ap (λ l. contains l a) ((consensus_iff_signers q ps n oq o).0 e), f.signed, f.outside) in
      (
        ground (arith, life, never),
        record { signed = ap (λ l. contains l a) same ∙ f.signed; outside = f.outside },
      )

  advanced_by_attempt :
      (p q : PendingTransaction) {p' : PendingTransaction}
      → p.lifecycle ≡ negotiating
      → advance_lifecycle x stm p.lifecycle q ≡ ok p'
      → (try_reach_consensus q stm.participant_addresses).0 ≡ p'
  unfolding advance_lifecycle
  advanced_by_attempt p q n h = ground arith

  step_stays :
      (p : PendingTransaction) (s : ChannelTransactionSigs) (a : ℕ) {p' : PendingTransaction}
      → IsForeign stm.participant_addresses p a
      → IsOrdered (signers p)
      → p.lifecycle ≡ negotiating
      → handle_proposal_signature x stm p id s ≡ ok p'
      → (p'.lifecycle ≡ negotiating) × IsForeign stm.participant_addresses p' a
  step_stays p s a f op n h = elim (handled x stm p id s h) [
    | inl same ↦
        subst (λ q. (q.lifecycle ≡ negotiating) × IsForeign stm.participant_addresses q a)
          (sym same) (n, f)
    | inr (new, advanced) ↦
        let q = add_signature p s in
        let more : IsForeign stm.participant_addresses q a = record {
          signed = contains-signers-add_signature p s a ∙ ground (arith, f.signed);
          outside = f.outside;
        } in
        subst (λ q'. (q'.lifecycle ≡ negotiating) × IsForeign stm.participant_addresses q' a)
          (advanced_by_attempt p q n advanced)
          (attempt_stays q a more (add_signature-HasOrderedSigners p s op)
            (lifecycle-add_signature p s ∙ n))
  ]

  -- Once an address outside the channel has signed a negotiating proposal whose life is in step
  -- with its signers, no further signatures that are handled, in any number and of anyone, bring
  -- it to consensus. The participants are in order.
  pub collect-foreign :
      (p : PendingTransaction) (a : ℕ) (sigs : List ChannelTransactionSigs)
      {p' : PendingTransaction}
      → IsForeign stm.participant_addresses p a
      → IsCoherent stm.participant_addresses p
      → p.lifecycle ≡ negotiating
      → collect x stm id p sigs ≡ ok p'
      → (p'.lifecycle ≡ negotiating) × (consensus_reached p' ≡ false)
  unfolding consensus_reached
  collect-foreign p a [] f c n h = ground (arith, ok-injective h)
  collect-foreign p a (s ∷ rest) f c n h =
      let (q, first, h₁) = >>=-eq-ok (handle_proposal_signature x stm p id s) _ h in
      let (n', f') = step_stays p s a f c.ordered n first in
      collect-foreign q a rest f' (handle_proposal_signature-IsCoherent x stm p id s o c first) n'
        h₁

  -- A channel of two or more, its participants in order: when all of a list of signatures on a
  -- created proposal without any are handled, the proposal is agreed exactly if those who have
  -- signed it are exactly the participants.
  pub collect-agreed :
      (p : PendingTransaction) (sigs : List ChannelTransactionSigs) {p' : PendingTransaction}
      → p.lifecycle ≡ created
      → signers p ≡ []
      → 2 ≤ length stm.participant_addresses
      → collect x stm id p sigs ≡ ok p'
      → (p'.lifecycle ≡ agreed) ↔ (signers p' ≡ stm.participant_addresses)
  collect-agreed p sigs {p'} new none_signed two h =
      let c = collect-IsCoherent p sigs (new_proposal-IsCoherent p new none_signed) h in
      (c.reached, agreed_of_signers stm.participant_addresses p' c two)

-- After agreement: a participant's signature changes nothing, and one by an outsider that passes the
-- check of its keys makes the handler panic.
module _ (x : Externals) (stm : ChannelStm) (p : PendingTransaction) (sigs : ChannelTransactionSigs)
    (c : IsCoherent stm.participant_addresses p) (agreed_on : p.lifecycle ≡ agreed) where
  signed_iff_participant :
      contains_key p.signatures sigs.address ≡ contains stm.participant_addresses sigs.address
  signed_iff_participant =
      contains_key-eq p.signatures sigs.address
      ∙ ap (λ l. contains l sigs.address) (c.reached agreed_on)

  -- On an agreed proposal whose life is in step with its signers, a signature that passes
  -- verify_txn_sigs is ignored if it is by a participant, and makes the handler panic if it is by
  -- an outsider.
  pub late_signature :
      let id = x.txn_hash p.proposal.channel_txn in
      verify_txn_sigs x stm p sigs ≡ ok tt
      → handle_proposal_signature x stm p id sigs
        ≡ (if contains stm.participant_addresses sigs.address then ok p else panic)
  unfolding handle_proposal_signature advance_lifecycle get_signature
  late_signature v = ground (
    arith,
    signed_iff_participant,
    contains_key-get p.signatures sigs.address,
    v,
    ==-self (x.txn_hash p.proposal.channel_txn),
  )
