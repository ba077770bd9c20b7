-- ===== src/Channel/Agreed/Still.antt =====
-- Rules for handlers that leave the channel as it is, and what signatures and proposals do to an agreed
-- transaction (sgwallet/src/channel/channel.rs and channel_stm.rs).
use mathlib.Core.Path.{subst}
use mathlib.Core.Bool.{decide}
use stargate.Common.{ℕ, ◌≡◌, refl, sym, true, some, arith, inl, inr}
use stargate.Common.Outcome.{Outcome, ok, err, panic}
use stargate.Proposal.{
  ChannelTransactionProposal, ChannelTransactionSigs, PendingTransaction,
  PendingTransaction-discrete, add_signature, consensus_reached,
}
use stargate.Stm.{Error, Externals, ChannelStm}
use stargate.Stm.Handle.{handle_new_proposal, handle_proposal_signature, advance_lifecycle}
use stargate.Stm.Handle.Agreement.{handled}
use stargate.Channel.{Channel, World, ChannelHandler}
use stargate.Common.Handler.{Keeps, Keeps-pure, Keeps-gets-bind, ◌>>=◌, gets, continue}
use stargate.Channel.Persist.{pending_txn, save_over, save_pending_txn}

pub decided : {A : Type 0} (d : Dec A) → A → decide d ≡ true
unfolding decide
decided (yes _) a = refl
decided (no na) a = absurd (na a)

pub no_advance :
    (x : Externals) (stm : ChannelStm) (p q : PendingTransaction) {p' : PendingTransaction}
    → consensus_reached p ≡ true
    → advance_lifecycle x stm p.lifecycle q ≡ ok p'
    → ⊥
unfolding advance_lifecycle consensus_reached
no_advance x stm p q a h = ground arith

-- once there is consensus, a handled signature changes nothing
pub handled_agreed :
    (x : Externals) (stm : ChannelStm) (p : PendingTransaction) (id : ℕ)
    (sigs : ChannelTransactionSigs) {p' : PendingTransaction}
    → consensus_reached p ≡ true
    → handle_proposal_signature x stm p id sigs ≡ ok p'
    → p' ≡ p
handled_agreed x stm p id sigs a h = elim (handled x stm p id sigs h) [
  | inl same ↦ same
  | inr (new, advanced) ↦ absurd (no_advance x stm p (add_signature p sigs) a advanced)
]

-- a pending transaction stands in for every proposal of its hash
pub proposed_again :
    (x : Externals) (stm : ChannelStm) (p : PendingTransaction)
    (proposal : ChannelTransactionProposal) {q : PendingTransaction}
    → handle_new_proposal x stm (some p) proposal ≡ ok q
    → q ≡ p
unfolding handle_new_proposal
proposed_again x stm p proposal h = ground arith

module _ (w : World) (c : Channel) where
  abbrev pub Still : {A : Type 0} → ChannelHandler A → Type 0
  Still m = Keeps (λ d. d ≡ c) m

  -- what a handler reads is what the channel holds
  pub Still-gets :
      {A B : Type 0} (g : Channel → A) (f : A → ChannelHandler B)
      → Still (f (g c))
      → Still (gets g >>= f)
  Still-gets g f k =
      Keeps-gets-bind g f (λ d h. subst (λ d'. (f (g d') d').1 ≡ c) (sym h) (k.at c refl))

  pub Still-bind :
      {A B : Type 0} (m : ChannelHandler A) (f : A → ChannelHandler B)
      → Still m
      → ((r : A) → (m c).0 ≡ ok r → Still (f r))
      → Still (m >>= f)
  unfolding ◌>>=◌
  Still-bind {A = A} m f km kf = record {
    at = λ d h.
        subst (λ d'. (continue (m d').0 f (m d').1).1 ≡ c) (sym h)
          (go (m c).0 (m c).1 (km.at c refl) kf);
  }
    where
      go :
          (o : Outcome Error A) (d : Channel)
          → d ≡ c
          → ((r : A) → o ≡ ok r → Still (f r))
          → (continue o f d).1 ≡ c
      go (ok r) d same rest = (rest r refl).at d same
      go (err _) d same rest = same
      go panic d same rest = same

  -- saving the stored transaction once more writes nothing
  pub save-Still :
      (p q : PendingTransaction)
      → c.store.pending_txn ≡ some p
      → q ≡ p
      → Still (save_pending_txn w q)
  unfolding save_pending_txn pending_txn save_over
  save-Still p q has e =
      Still-gets (λ d. d.store.pending_txn) (save_over w q)
        (rw (has, decided (PendingTransaction-discrete p q) (sym e)) (Keeps-pure tt))
