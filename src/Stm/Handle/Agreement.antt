-- ===== src/Stm/Handle/Agreement.antt =====
-- How signatures turn a pending proposal into an agreed one: handle_proposal_signature over the life
-- of a proposal, with outsiders among the signers.
use mathlib.Core.Path.{subst}
use stargate.Common.{
  ℕ, ◌≤◌, ◌≡◌, ◌⊎◌, refl, sym, ◌∙◌, ap, false, List, arith, length, contains, IsOrdered,
  Option-cases, inl, inr,
}
use stargate.Common.Dict.{get, contains_key-eq, contains_key-get}
use stargate.Common.Outcome.{ok, ok-injective}
use stargate.Proposal.{
  PendingTransaction, ChannelTransactionSigs, ProposalLifecycle, created, negotiating, agreed, rank,
  add_signature, get_signature, set_lifecycle, try_reach_consensus,
}
use stargate.Proposal.Consensus.{
  signers, HasOrderedSigners, consensus_iff_signers, add_signature-HasOrderedSigners,
  length-signers-add_signature_new, lifecycle-add_signature, signers-try_reach_consensus,
  lifecycle-try_reach_consensus,
}
use stargate.Stm.{Externals, ChannelStm}
use stargate.Stm.Handle.{handle_proposal_signature, advance_lifecycle}

-- What the life of a proposal says of its signers.
pub record IsCoherent (participants : List ℕ) (p : PendingTransaction) : Type 0 where
  pub ordered : HasOrderedSigners p
  pub fresh : p.lifecycle ≡ created → length (signers p) ≡ 0
  pub waiting : p.lifecycle ≡ negotiating → signers p ≡ participants → length participants ≤ 1
  pub early : rank p.lifecycle ≤ rank agreed
  pub reached : p.lifecycle ≡ agreed → signers p ≡ participants

first_signature-IsCoherent :
    (participants : List ℕ) (q : PendingTransaction)
    → HasOrderedSigners q
    → length (signers q) ≡ 1
    → IsCoherent participants (set_lifecycle q negotiating)
unfolding set_lifecycle
first_signature-IsCoherent participants q o one = record {
  ordered = o;
  fresh = λ e. cc;
  waiting = λ _ e. omega (arith, ap length e);
  early = omega arith;
  reached = λ e. cc;
}

attempt-IsCoherent :
    (participants : List ℕ) (q : PendingTransaction)
    → HasOrderedSigners q
    → IsOrdered participants
    → q.lifecycle ≡ negotiating
    → IsCoherent participants (try_reach_consensus q participants).0
attempt-IsCoherent participants q o op n =
    let attempt = try_reach_consensus q participants in
    let same = signers-try_reach_consensus q participants in
    let life = lifecycle-try_reach_consensus q participants n in
    let both = consensus_iff_signers q participants n o op in
    record {
      ordered = subst IsOrdered (sym same) o;
      fresh = λ e. ground (arith, life);
      waiting = λ e s. ground (arith, life, both.1 (sym same ∙ s));
      early = ground (arith, life);
      reached = λ e. same ∙ both.0 (ground (arith, life));
    }

module _ (x : Externals) (stm : ChannelStm) where
  -- A handled signature leaves the proposal alone, or it is new, verified and added.
  pub handled :
      (p : PendingTransaction) (id : ℕ) (sigs : ChannelTransactionSigs) {p' : PendingTransaction}
      → handle_proposal_signature x stm p id sigs ≡ ok p'
      → (p' ≡ p)
        ⊎ ((contains (signers p) sigs.address ≡ false)
            × (advance_lifecycle x stm p.lifecycle (add_signature p sigs) ≡ ok p'))
  unfolding handle_proposal_signature get_signature
  handled p id sigs h = elim (Option-cases (get p.signatures sigs.address)) [
    | inl new ↦ inr (
      ground (
        arith,
        contains_key-eq p.signatures sigs.address,
        contains_key-get p.signatures sigs.address,
      ),
      ground arith,
    )
    | inr (s, e) ↦ inl (ground arith)
  ]

  advance-IsCoherent :
      (l : ProposalLifecycle) (q : PendingTransaction) {p' : PendingTransaction}
      → IsOrdered stm.participant_addresses
      → HasOrderedSigners q
      → q.lifecycle ≡ l
      → (l ≡ created → length (signers q) ≡ 1)
      → advance_lifecycle x stm l q ≡ ok p'
      → IsCoherent stm.participant_addresses p'
  unfolding advance_lifecycle
  advance-IsCoherent created q hp o e one h =
      subst (IsCoherent stm.participant_addresses) (ok-injective h)
        (first_signature-IsCoherent stm.participant_addresses q o (one refl))
  advance-IsCoherent negotiating q hp o e one h =
      subst (IsCoherent stm.participant_addresses) (ok-injective h)
        (attempt-IsCoherent stm.participant_addresses q o hp e)
  advance-IsCoherent _ q hp o e one h = cc

  -- Whatever signature is handled without an error, with the participants in order: a proposal
  -- whose life is in step with its signers stays so (nobody has signed it while it is created,
  -- and when it is agreed those who have signed are the participants).
  pub handle_proposal_signature-IsCoherent :
      (p : PendingTransaction) (id : ℕ) (sigs : ChannelTransactionSigs) {p' : PendingTransaction}
      → IsOrdered stm.participant_addresses
      → IsCoherent stm.participant_addresses p
      → handle_proposal_signature x stm p id sigs ≡ ok p'
      → IsCoherent stm.participant_addresses p'
  handle_proposal_signature-IsCoherent p id sigs hp c h = elim (handled p id sigs h) [
    | inl same ↦ subst (IsCoherent stm.participant_addresses) (sym same) c
    | inr (new, advanced) ↦
        advance-IsCoherent p.lifecycle (add_signature p sigs) hp
          (add_signature-HasOrderedSigners p sigs c.ordered) (lifecycle-add_signature p sigs)
          (λ e. length-signers-add_signature_new p sigs new ∙ omega (arith, c.fresh e)) advanced
  ]

-- In a channel of two or more, a coherent proposal is agreed once all participants have signed.
pub agreed_of_signers :
    (participants : List ℕ) (p : PendingTransaction)
    → IsCoherent participants p
    → 2 ≤ length participants
    → signers p ≡ participants
    → p.lifecycle ≡ agreed
agreed_of_signers participants p c two e =
    ground (arith, c.fresh, c.waiting, c.early, e, ap length e)
