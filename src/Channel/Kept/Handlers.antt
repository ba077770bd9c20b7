-- ===== src/Channel/Kept/Handlers.antt =====
-- The handlers of sgwallet/src/channel/channel.rs and mod.rs, one by one: each keeps what the ways to
-- change a channel keep.
use stargate.Common.{ℕ, Bool, Option, none, some, List}
use stargate.Libra.{TransactionArgument, SignedTransaction, ChannelResource}
use stargate.Proposal.{
  ChannelOp, ChannelTransactionProposal, ChannelTransactionSigs, PendingTransaction,
  ProposalLifecycle, applying, traveling,
}
use stargate.Store.{ChannelTransactionInfo, AppliedChannelTxn, offchain, travel}
use stargate.Channel.{Channel, World, ChannelHandler}
use stargate.Common.Handler.{Keeps, keeps_rules}
use stargate.Channel.Negotiate.{
  execute, auto_sign, collect_pending, collect_applied, collect_after, collect_proposal_with_sigs,
  open_of, open_pending, grant_proposal, cancel_pending_txn, travel_pending, apply_by_lifecycle,
  apply_of, apply_pending_txn,
}
use stargate.Channel.Chain.{
  OnChain, Transaction, channel_txn, other_txn, to_watch, solo_action, own_txn, late_co_signed,
  after_co_signed, local_resource, apply_co_signed_txn, late_solo, after_solo, apply_solo_txn,
  watch_and_apply_travel_txn, close_if_locked, channel_lock_timeout, solo_by_dual, fetched_solo,
  channel_stage_change,
}
use stargate.Channel.Kept.{
  Kept, clear_pending_txn-Keeps, emit-Keeps, stop-Keeps, pending_txn-Keeps, save_pending_txn-Keeps,
  check_applied-Keeps, apply-Keeps, apply_travel-Keeps,
}

module _ (w : World) {P : Channel → Type 0} (k : Kept w P) where
  abbrev Safe : {A : Type 0} → ChannelHandler A → Type 0
  Safe m = Keeps P m

  ruleset parts = (
    keeps_rules, pending_txn-Keeps, save_pending_txn-Keeps, clear_pending_txn-Keeps,
    check_applied-Keeps, apply-Keeps, apply_travel-Keeps, emit-Keeps, stop-Keeps,
  )

  pub execute-Keeps : (op : ChannelOp) (args : List TransactionArgument) → Safe (execute w op args)
  unfolding execute
  execute-Keeps op args = search (keeps_rules, pending_txn-Keeps, save_pending_txn-Keeps) depth 20

  auto_sign-Keeps : (p : PendingTransaction) → Safe (auto_sign w p)
  unfolding auto_sign
  auto_sign-Keeps p = search keeps_rules depth 20

  collect_pending-Keeps :
      (p : ChannelTransactionProposal) (s : ChannelTransactionSigs) → Safe (collect_pending w p s)
  unfolding collect_pending
  collect_pending-Keeps p s = search (parts, auto_sign-Keeps) depth 20

  collect_applied-Keeps :
      (p : ChannelTransactionProposal) (t : AppliedChannelTxn) → Safe (collect_applied w p t)
  unfolding collect_applied
  collect_applied-Keeps p (travel t) = search keeps_rules
  collect_applied-Keeps p (offchain t) = search keeps_rules depth 20

  collect_after-Keeps :
      (p : ChannelTransactionProposal) (s : ChannelTransactionSigs)
      (applied : Option (ChannelTransactionInfo × AppliedChannelTxn))
      → Safe (collect_after w p s applied)
  unfolding collect_after
  collect_after-Keeps p s none = collect_pending-Keeps p s
  collect_after-Keeps p s (some t) = collect_applied-Keeps p t.1

  pub collect-Keeps :
      (p : ChannelTransactionProposal) (s : ChannelTransactionSigs)
      → Safe (collect_proposal_with_sigs w p s)
  unfolding collect_proposal_with_sigs
  collect-Keeps p s = search (parts, collect_after-Keeps) depth 20

  open_of-Keeps : (id : ℕ) (p : Option PendingTransaction) → Safe (open_of w id p)
  unfolding open_of
  open_of-Keeps id none = search keeps_rules
  open_of-Keeps id (some p) = search keeps_rules depth 20

  open_pending-Keeps : (id : ℕ) → Safe (open_pending w id)
  unfolding open_pending
  open_pending-Keeps id = search (parts, open_of-Keeps)

  pub grant-Keeps : (id : ℕ) → Safe (grant_proposal w id)
  unfolding grant_proposal
  grant-Keeps id = search (parts, open_pending-Keeps) depth 20

  pub cancel-Keeps : (id : ℕ) → Safe (cancel_pending_txn w id)
  unfolding cancel_pending_txn
  cancel-Keeps id = search (parts, open_pending-Keeps) depth 20

  travel_pending-Keeps : (p : PendingTransaction) → Safe (travel_pending w p)
  unfolding travel_pending
  travel_pending-Keeps p = search parts depth 20

  apply_by_lifecycle-Keeps :
      (l : ProposalLifecycle) (p : PendingTransaction) → Safe (apply_by_lifecycle w l p)
  unfolding apply_by_lifecycle
  apply_by_lifecycle-Keeps applying p = search parts
  apply_by_lifecycle-Keeps traveling p = travel_pending-Keeps p
  apply_by_lifecycle-Keeps _ p = search keeps_rules

  apply_of-Keeps : (p : Option PendingTransaction) → Safe (apply_of w p)
  unfolding apply_of
  apply_of-Keeps none = search keeps_rules
  apply_of-Keeps (some p) = search (parts, apply_by_lifecycle-Keeps) depth 20

  pub apply_pending_txn-Keeps : Safe (apply_pending_txn w)
  unfolding apply_pending_txn
  apply_pending_txn-Keeps = search (parts, apply_of-Keeps)

  to_watch-Keeps : (o : Option (ℕ × ℕ)) → Safe (to_watch o)
  unfolding to_watch
  to_watch-Keeps none = search keeps_rules
  to_watch-Keeps (some (a, n)) = search parts

  solo_action-Keeps :
      (op : ChannelOp) (args : List TransactionArgument) → Safe (solo_action w op args)
  unfolding solo_action
  solo_action-Keeps op args =
      search (parts, execute-Keeps, apply_pending_txn-Keeps, to_watch-Keeps) depth 20

  own_txn-Keeps : (b : Bool) (t : Transaction) → Safe (own_txn w b t)
  unfolding own_txn
  own_txn-Keeps b other_txn = search keeps_rules
  own_txn-Keeps b (channel_txn s) = search keeps_rules depth 20

  late_co_signed-Keeps :
      (s : SignedTransaction) (a : Option (ChannelTransactionInfo × AppliedChannelTxn))
      → Safe (late_co_signed w s a)
  unfolding late_co_signed
  late_co_signed-Keeps s none = search keeps_rules
  late_co_signed-Keeps s (some (info, offchain t)) = search keeps_rules
  late_co_signed-Keeps s (some (info, travel t)) = search keeps_rules

  after_co_signed-Keeps : (r : ChannelResource) → Safe (after_co_signed r)
  unfolding after_co_signed
  after_co_signed-Keeps r = search parts depth 20

  local_resource-Keeps : Safe (local_resource w)
  unfolding local_resource
  local_resource-Keeps = search keeps_rules depth 20

  ruleset chain_parts = (
    parts, solo_action-Keeps, own_txn-Keeps, after_co_signed-Keeps, local_resource-Keeps,
    late_co_signed-Keeps,
  )

  apply_co_signed-Keeps : (t : OnChain) → Safe (apply_co_signed_txn w t)
  unfolding apply_co_signed_txn
  apply_co_signed-Keeps t = search chain_parts depth 30

  late_solo-Keeps :
      (s : SignedTransaction) (a : Option (ChannelTransactionInfo × AppliedChannelTxn))
      → Safe (late_solo w s a)
  unfolding late_solo
  late_solo-Keeps s none = search keeps_rules
  late_solo-Keeps s (some (info, travel t)) = search keeps_rules
  late_solo-Keeps s (some (info, offchain t)) = search chain_parts depth 20

  after_solo-Keeps : (s : SignedTransaction) (r : ChannelResource) → Safe (after_solo w s r)
  unfolding after_solo
  after_solo-Keeps s r = search chain_parts depth 20

  apply_solo-Keeps : (t : OnChain) → Safe (apply_solo_txn w t)
  unfolding apply_solo_txn
  apply_solo-Keeps t = search (chain_parts, late_solo-Keeps, after_solo-Keeps) depth 30

  pub watch-Keeps : (t : OnChain) (u : Transaction) → Safe (watch_and_apply_travel_txn w t u)
  unfolding watch_and_apply_travel_txn
  watch-Keeps t other_txn = search keeps_rules
  watch-Keeps t (channel_txn s) =
      search (keeps_rules, apply_solo-Keeps, apply_co_signed-Keeps) depth 20

  close_if_locked-Keeps : (o : Option ℕ) → Safe (close_if_locked w o)
  unfolding close_if_locked
  close_if_locked-Keeps none = search keeps_rules
  close_if_locked-Keeps (some l) = search chain_parts depth 20

  pub lock_timeout-Keeps : (b t : ℕ) → Safe (channel_lock_timeout w b t)
  unfolding channel_lock_timeout
  lock_timeout-Keeps b t = search (keeps_rules, close_if_locked-Keeps) depth 20

  solo_by_dual-Keeps : (t : OnChain) (u : Transaction) → Safe (solo_by_dual w t u)
  unfolding solo_by_dual
  solo_by_dual-Keeps t other_txn = search keeps_rules
  solo_by_dual-Keeps t (channel_txn s) = search (keeps_rules, apply_solo-Keeps) depth 20

  fetched_solo-Keeps : (o : Option OnChain) → Safe (fetched_solo w o)
  unfolding fetched_solo
  fetched_solo-Keeps none = search keeps_rules
  fetched_solo-Keeps (some t) = solo_by_dual-Keeps t t.txn

  pub stage_change-Keeps : (v : ℕ) (o : Option OnChain) → Safe (channel_stage_change w v o)
  unfolding channel_stage_change
  stage_change-Keeps v o = search (keeps_rules, fetched_solo-Keeps) depth 20
