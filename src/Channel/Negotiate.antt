-- ===== src/Channel/Negotiate.antt =====
-- sgwallet/src/channel/channel.rs: the handlers that negotiate, cancel and apply a proposal.
use stargate.Common.{ℕ, not, ◌&&◌, ◌||◌, Option, none, some, List, ◌==◌, if◌then◌else◌}
use stargate.Common.Dict.{get, contains_key}
use stargate.Common.Outcome.{panic, ensure, assert, expect}
use stargate.Libra.{Bytes, AccessPath, TransactionArgument, TransactionOutput}
use stargate.Proposal.{
  ChannelOp, is_open, ChannelTransactionProposal, ChannelTransactionSigs, PendingTransaction,
  ProposalLifecycle, negotiating, agreed, applying, traveling, rank, get_signature,
  consensus_reached,
}
use stargate.Stm.{
  no_pending, id_conflict, already_agreed, not_ready, already_on_chain, different_applied,
  submit_failed, access_local,
}
use stargate.Stm.Build.{generate_proposal, generate_txn_sigs, build_signed_txn}
use stargate.Stm.Handle.{
  handle_new_proposal, handle_proposal_signature, handle_apply_proposal,
  can_auto_sign_pending_proposal,
}
use stargate.Store.{ChannelTransactionInfo, AppliedChannelTxn, offchain, travel}
use stargate.Channel.{World, ChannelHandler, emit, submit_transaction}
use stargate.Common.Handler.{◌>>=◌, ◌>>◌, pure, fail, lift, gets, modify}
use stargate.Channel.Persist.{
  stop, pending_txn, save_pending_txn, clear_pending_txn, check_applied, apply,
}

-- Handler<Execute>
unfoldable pub execute :
    World
    → ChannelOp
    → List TransactionArgument
    → ChannelHandler (ChannelTransactionProposal × ChannelTransactionSigs × TransactionOutput)
execute w channel_op args = do
  stm ← gets (λ c. c.stm)
  proposal ← lift (generate_proposal w.x stm w.txn_expiration channel_op args)
  current ← pending_txn
  pending ← lift (handle_new_proposal w.x stm current proposal)
  my_signature ← lift (generate_txn_sigs w.x stm pending.proposal.channel_txn pending.output)
  signed ← lift (
      handle_proposal_signature w.x stm pending (w.x.txn_hash pending.proposal.channel_txn)
        my_signature)
  save_pending_txn w signed
  pure (signed.proposal, my_signature, signed.output)

-- the own signature, if it is missing and the output leaves one's own resources alone
unfoldable pub auto_sign : World → PendingTransaction → ChannelHandler PendingTransaction
auto_sign w p = do
  stm ← gets (λ c. c.stm)
  if not (contains_key p.signatures stm.account_address) && can_auto_sign_pending_proposal w.x stm p
      then (do
        my_signature ← lift (generate_txn_sigs w.x stm p.proposal.channel_txn p.output)
        lift (
            handle_proposal_signature w.x stm p (w.x.txn_hash p.proposal.channel_txn) my_signature))
      else pure p

-- the answer to a proposal that is not applied yet
unfoldable pub collect_pending :
    World
    → ChannelTransactionProposal
    → ChannelTransactionSigs
    → ChannelHandler (Option ChannelTransactionSigs)
collect_pending w proposal sigs = do
  stm ← gets (λ c. c.stm)
  current ← pending_txn
  pending ← lift (handle_new_proposal w.x stm current proposal)
  signed ←
      lift
        (handle_proposal_signature w.x stm pending (w.x.txn_hash pending.proposal.channel_txn) sigs)
  both ← auto_sign w signed
  save_pending_txn w both
  pure (get_signature both stm.account_address)

-- the answer to a proposal whose sequence number is applied already
unfoldable pub collect_applied :
    World
    → ChannelTransactionProposal
    → AppliedChannelTxn
    → ChannelHandler (Option ChannelTransactionSigs)
collect_applied w proposal (travel _) = fail already_on_chain
collect_applied w proposal (offchain t) = do
  lift (ensure (w.x.txn_hash proposal.channel_txn == w.x.txn_hash t.raw_tx) different_applied)
  stm ← gets (λ c. c.stm)
  signature ← lift (expect (get t.signatures stm.account_address))
  pure (some signature)

unfoldable pub collect_after :
    World
    → ChannelTransactionProposal
    → ChannelTransactionSigs
    → Option (ChannelTransactionInfo × AppliedChannelTxn)
    → ChannelHandler (Option ChannelTransactionSigs)
collect_after w proposal sigs none = collect_pending w proposal sigs
collect_after w proposal sigs (some t) = collect_applied w proposal t.1

-- Handler<CollectProposalWithSigs>
unfoldable pub collect_proposal_with_sigs :
    World
    → ChannelTransactionProposal
    → ChannelTransactionSigs
    → ChannelHandler (Option ChannelTransactionSigs)
collect_proposal_with_sigs w proposal sigs = do
  stm ← gets (λ c. c.stm)
  lift (assert (not (stm.account_address == sigs.address)))
  applied ← check_applied proposal.channel_txn.channel_sequence_number
  collect_after w proposal sigs applied

-- the pending transaction that a request names, while it is not agreed
unfoldable pub open_of : World → ℕ → Option PendingTransaction → ChannelHandler PendingTransaction
open_of w channel_txn_id none = fail no_pending
open_of w channel_txn_id (some p) = do
  lift (ensure (channel_txn_id == w.x.txn_hash p.proposal.channel_txn) id_conflict)
  lift (ensure (not (consensus_reached p)) already_agreed)
  pure p

unfoldable pub open_pending : World → ℕ → ChannelHandler PendingTransaction
open_pending w channel_txn_id = do current ← pending_txn; open_of w channel_txn_id current

-- Handler<GrantProposal>
unfoldable pub grant_proposal : World → ℕ → ChannelHandler ChannelTransactionSigs
grant_proposal w channel_txn_id = do
  p ← open_pending w channel_txn_id
  stm ← gets (λ c. c.stm)
  my_signature ← lift (generate_txn_sigs w.x stm p.proposal.channel_txn p.output)
  signed ←
      lift (handle_proposal_signature w.x stm p (w.x.txn_hash p.proposal.channel_txn) my_signature)
  save_pending_txn w signed
  pure my_signature

-- Handler<CancelPendingTxn>: a channel whose opening is cancelled stops
unfoldable pub cancel_pending_txn : World → ℕ → ChannelHandler (Unit {0})
cancel_pending_txn w channel_txn_id = do
  p ← open_pending w channel_txn_id
  clear_pending_txn w
  if is_open p.proposal.channel_txn.operator then stop else pure tt

-- the proposer brings a travelling transaction to the chain
unfoldable pub travel_pending : World → PendingTransaction → ChannelHandler (Option (ℕ × ℕ))
travel_pending w p = do
  let channel_txn = p.proposal.channel_txn
  stm ← gets (λ c. c.stm)
  if stm.account_address == channel_txn.proposer
      then (do
        signed_txn ← lift (build_signed_txn w.x stm p)
        lift (ensure (w.accepts signed_txn) submit_failed)
        modify (emit (submit_transaction signed_txn)))
      else pure tt
  save_pending_txn w p
  pure (some (channel_txn.proposer, channel_txn.sequence_number))

unfoldable pub apply_by_lifecycle :
    World → ProposalLifecycle → PendingTransaction → ChannelHandler (Option (ℕ × ℕ))
apply_by_lifecycle w applying p = apply w p.proposal.channel_txn p.output p.signatures >> pure none
apply_by_lifecycle w traveling p = travel_pending w p
apply_by_lifecycle w _ p = lift panic

unfoldable pub apply_of : World → Option PendingTransaction → ChannelHandler (Option (ℕ × ℕ))
apply_of w none = fail no_pending
apply_of w (some p) = do
  lift (ensure (rank p.lifecycle == rank negotiating || rank p.lifecycle == rank agreed) not_ready)
  let p' = handle_apply_proposal p
  apply_by_lifecycle w p'.lifecycle p'

-- Handler<ApplyPendingTxn>: the transaction to watch for, if it travels
unfoldable pub apply_pending_txn : World → ChannelHandler (Option (ℕ × ℕ))
apply_pending_txn w = do current ← pending_txn; apply_of w current

-- Handler<AccessingResource>
unfoldable pub accessing_resource : World → AccessPath → ChannelHandler (Option Bytes)
accessing_resource w path = do
  stm ← gets (λ c. c.stm)
  lift (access_local w.x stm.witness.write_set stm.channel_state path)
