-- ===== src/Channel/Agreed/Handlers.antt =====
-- The negotiation handlers of sgwallet/src/channel/channel.rs on a channel whose pending
-- transaction is agreed.
use stargate.Common.{
  ℕ, ◌≡◌, sym, ap, ◌∙◌, Bool, true, false, Option, none, some, List, arith, not, ◌&&◌,
  if◌then◌else◌,
}
use stargate.Common.Dict.{contains_key}
use stargate.Common.Outcome.{Outcome, ok, err, panic, ok-injective}
use stargate.Libra.{TransactionArgument}
use stargate.Proposal.{
  ChannelOp, ChannelTransactionProposal, ChannelTransactionSigs, PendingTransaction,
  consensus_reached,
}
use stargate.Stm.{Error}
use stargate.Stm.Build.{generate_proposal, generate_txn_sigs}
use stargate.Stm.Handle.{
  can_auto_sign_pending_proposal, handle_new_proposal, handle_proposal_signature,
}
use stargate.Store.{ChannelTransactionInfo, AppliedChannelTxn, offchain, travel}
use stargate.Store.Read
use stargate.Channel.{Channel, World, ChannelHandler}
use stargate.Common.Handler.{
  Keeps-pure, Keeps-fail, Keeps-lift, Keeps-gets, Keeps-bind, Keeps-lift-bind, ◌>>=◌, pure, lift,
  gets, continue, keeps_rules,
}
use stargate.Channel.Persist.{pending_txn, save_pending_txn, check_applied, applied_up_to}
use stargate.Channel.Negotiate.{
  execute, auto_sign, collect_pending, collect_applied, collect_after, collect_proposal_with_sigs,
  open_of, open_pending, grant_proposal, cancel_pending_txn,
}
use stargate.Channel.Agreed.Still.{
  Still, Still-gets, Still-bind, save-Still, handled_agreed, proposed_again,
}

module _ (w : World) (c : Channel) (p : PendingTransaction) (has : c.store.pending_txn ≡ some p)
    (a : consensus_reached p ≡ true) where
  -- the rest of a handler, from a signature on the pending transaction on
  signed_rest :
      {A : Type 0} (id : ℕ) (q : PendingTransaction)
      → q ≡ p
      → (sigs : ChannelTransactionSigs) → (f : PendingTransaction → ChannelHandler A)
      → ((r : PendingTransaction) → r ≡ p → Still w c (f r))
      → Still w c (lift (handle_proposal_signature w.x c.stm q id sigs) >>= f)
  signed_rest id q e sigs f k =
      Keeps-lift-bind (handle_proposal_signature w.x c.stm q id sigs) f
        (λ r h. k r (handled_agreed w.x c.stm q id sigs (ap consensus_reached e ∙ a) h ∙ e))

  -- the rest of a handler, from a proposal on
  proposed_rest :
      {A : Type 0} (proposal : ChannelTransactionProposal)
      → (f : PendingTransaction → ChannelHandler A)
      → ((q : PendingTransaction) → q ≡ p → Still w c (f q))
      → Still w c
          (pending_txn >>= λ current. lift (handle_new_proposal w.x c.stm current proposal) >>= f)
  unfolding pending_txn
  proposed_rest proposal f k =
      Still-gets w c (λ d. d.store.pending_txn) _
        (Keeps-lift-bind (handle_new_proposal w.x c.stm c.store.pending_txn proposal) f (λ q h.
          k q (
            proposed_again w.x c.stm p proposal
              (ap (λ o. handle_new_proposal w.x c.stm o proposal) (sym has) ∙ h))))

  pub execute-Still :
      (op : ChannelOp) (args : List TransactionArgument) → Still w c (execute w op args)
  unfolding execute
  execute-Still op args =
      Still-gets w c (λ d. d.stm) _
        (Keeps-lift-bind (generate_proposal w.x c.stm w.txn_expiration op args) _ (λ proposal _.
          proposed_rest proposal _ (λ q e.
            Keeps-lift-bind (generate_txn_sigs w.x c.stm q.proposal.channel_txn q.output) _
              (λ sigs _. signed_rest (w.x.txn_hash q.proposal.channel_txn) q e sigs _ (λ r e'.
                Keeps-bind (save_pending_txn w r) _ (save-Still w c p r has e')
                  (λ _. Keeps-pure _))))))

  -- one's own signature on it leaves it as it is
  auto_sign-same :
      (q : PendingTransaction)
      → q ≡ p
      → (r : PendingTransaction) → (auto_sign w q c).0 ≡ ok r
      → r ≡ p
  unfolding auto_sign ◌>>=◌ gets lift pure
  auto_sign-same q e r = go (
      not (contains_key q.signatures c.stm.account_address)
      && can_auto_sign_pending_proposal w.x c.stm q)
    where
      signs :
          (s : Outcome Error ChannelTransactionSigs)
          → (continue s
              (λ sigs.
                lift (
                  handle_proposal_signature w.x c.stm q (w.x.txn_hash q.proposal.channel_txn) sigs))
              c).0
            ≡ ok r
          → r ≡ p
      signs (ok sigs) h =
          handled_agreed w.x c.stm q (w.x.txn_hash q.proposal.channel_txn) sigs
            (ap consensus_reached e ∙ a) h
          ∙ e
      signs (err _) h = ground arith
      signs panic h = ground arith

      go :
          (b : Bool)
          → ((if b
                then (lift (generate_txn_sigs w.x c.stm q.proposal.channel_txn q.output) >>= λ sigs.
                    lift (
                      handle_proposal_signature w.x c.stm q
                        (w.x.txn_hash q.proposal.channel_txn)
                        sigs))
                else pure q)
              c).0
            ≡ ok r
          → r ≡ p
      go true h = signs (generate_txn_sigs w.x c.stm q.proposal.channel_txn q.output) h
      go false h = sym (ok-injective h) ∙ e

  auto_sign-Still : (q : PendingTransaction) → Still w c (auto_sign w q)
  unfolding auto_sign
  auto_sign-Still q = Still-gets w c (λ d. d.stm) _ (search keeps_rules)

  collect_pending-Still :
      (proposal : ChannelTransactionProposal) (sigs : ChannelTransactionSigs)
      → Still w c (collect_pending w proposal sigs)
  unfolding collect_pending
  collect_pending-Still proposal sigs =
      Still-gets w c (λ d. d.stm) _
        (proposed_rest proposal _ (λ q e.
          signed_rest (w.x.txn_hash q.proposal.channel_txn) q e sigs _ (λ r e'.
            Still-bind w c (auto_sign w r) _ (auto_sign-Still r) (λ b h.
              let e'' = auto_sign-same r e' b h in
              Keeps-bind (save_pending_txn w b) _ (save-Still w c p b has e'')
                (λ _. Keeps-pure _)))))

  collect_after-Still :
      (proposal : ChannelTransactionProposal) (sigs : ChannelTransactionSigs)
      (t : Option (ChannelTransactionInfo × AppliedChannelTxn))
      → Still w c (collect_after w proposal sigs t)
  unfolding collect_after collect_applied
  collect_after-Still proposal sigs none = collect_pending-Still proposal sigs
  collect_after-Still proposal sigs (some (_, travel _)) = Keeps-fail _
  collect_after-Still proposal sigs (some (_, offchain t)) = search keeps_rules

  check_applied-Still : (n : ℕ) → Still w c (check_applied n)
  unfolding check_applied applied_up_to
  check_applied-Still n =
      Still-gets w c (λ d. d.store) _ (Keeps-lift-bind _ _ (λ info _. up_to info))
    where
      up_to : (info : Option Read.StartupInfo) → Still w c (applied_up_to n c.store info)
      up_to none = Keeps-pure none
      up_to (some i) = search keeps_rules

  pub collect-Still :
      (proposal : ChannelTransactionProposal) (sigs : ChannelTransactionSigs)
      → Still w c (collect_proposal_with_sigs w proposal sigs)
  unfolding collect_proposal_with_sigs
  collect-Still proposal sigs =
      Still-gets w c (λ d. d.stm) _
        (Keeps-bind _ _ (Keeps-lift _) (λ _.
          Keeps-bind _ _ (check_applied-Still proposal.channel_txn.channel_sequence_number)
            (collect_after-Still proposal sigs)))

  -- it is not open to be granted or cancelled
  no_open : (id : ℕ) (r : PendingTransaction) → (open_pending w id c).0 ≡ ok r → ⊥
  unfolding open_pending pending_txn open_of ◌>>=◌ lift pure gets
  no_open id r = rw (has, a) (ground arith)

  open_of-Still : (id : ℕ) (current : Option PendingTransaction) → Still w c (open_of w id current)
  unfolding open_of
  open_of-Still id none = Keeps-fail _
  open_of-Still id (some q) = search keeps_rules

  open_pending-Still : (id : ℕ) → Still w c (open_pending w id)
  unfolding open_pending pending_txn
  open_pending-Still id = Keeps-bind _ _ (Keeps-gets _) (open_of-Still id)

  pub grant-Still : (id : ℕ) → Still w c (grant_proposal w id)
  unfolding grant_proposal
  grant-Still id =
      Still-bind w c (open_pending w id) _ (open_pending-Still id) (λ r h. absurd (no_open id r h))

  pub cancel-Still : (id : ℕ) → Still w c (cancel_pending_txn w id)
  unfolding cancel_pending_txn
  cancel-Still id =
      Still-bind w c (open_pending w id) _ (open_pending-Still id) (λ r h. absurd (no_open id r h))
