-- ===== src/Channel/Recovery.antt =====
-- The messages of the channel actor (sgwallet/src/channel/channel.rs), and a restart after any of
-- them.
use stargate.Common.{ℕ, ◌≡◌, sym, Option, List}
use stargate.Common.Outcome.{ok}
use mathlib.Core.Path.{subst}
use stargate.Libra.{TransactionArgument}
use stargate.Proposal.{ChannelOp, ChannelTransactionProposal, ChannelTransactionSigs}
use stargate.Store.{Hashes}
use stargate.Store.Read.{load}
use stargate.Store.Synced.{IsSynced}
use stargate.Channel.{Channel, World}
use stargate.Channel.Negotiate.{
  execute, collect_proposal_with_sigs, grant_proposal, cancel_pending_txn, apply_pending_txn,
}
use stargate.Channel.Chain.{
  OnChain, watch_and_apply_travel_txn, channel_lock_timeout, channel_stage_change,
}
use stargate.Channel.Kept.{Kept}
use stargate.Channel.Kept.Handlers.{
  execute-Keeps, collect-Keeps, grant-Keeps, cancel-Keeps, apply_pending_txn-Keeps, watch-Keeps,
  lock_timeout-Keeps, stage_change-Keeps,
}
use stargate.Channel.Durable.{IsDurable-Kept}

-- the messages of the actor
pub data Request : Type 0 where
  execute_op : ChannelOp → List TransactionArgument → Request
  collect : ChannelTransactionProposal → ChannelTransactionSigs → Request
  grant : (channel_txn_id : ℕ) → Request
  cancel : (channel_txn_id : ℕ) → Request
  apply_pending : Request
  watched : OnChain → Request
  lock_timeout : (block_height time_lock : ℕ) → Request
  stage_change : (version : ℕ) → Option OnChain → Request

-- the channel after it has handled a message
unfoldable pub serve : World → Request → Channel → Channel
serve w (execute_op op args) c = (execute w op args c).1
serve w (collect p s) c = (collect_proposal_with_sigs w p s c).1
serve w (grant id) c = (grant_proposal w id c).1
serve w (cancel id) c = (cancel_pending_txn w id c).1
serve w apply_pending c = (apply_pending_txn w c).1
serve w (watched t) c = (watch_and_apply_travel_txn w t t.txn c).1
serve w (lock_timeout b l) c = (channel_lock_timeout w b l c).1
serve w (stage_change v o) c = (channel_stage_change w v o c).1

-- What the ways to change a channel keep, every message keeps.
pub serve-Kept :
    (w : World) {P : Channel → Type 0} (k : Kept w P) (r : Request) (c : Channel)
    → P c
    → P (serve w r c)
unfolding serve
serve-Kept w k (execute_op op args) = (execute-Keeps w k op args).at
serve-Kept w k (collect p s) = (collect-Keeps w k p s).at
serve-Kept w k (grant id) = (grant-Keeps w k id).at
serve-Kept w k (cancel id) = (cancel-Keeps w k id).at
serve-Kept w k apply_pending = (apply_pending_txn-Keeps w k).at
serve-Kept w k (watched t) = (watch-Keeps w k t t.txn).at
serve-Kept w k (lock_timeout b l) = (lock_timeout-Keeps w k b l).at
serve-Kept w k (stage_change v o) = (stage_change-Keeps w k v o).at

-- The channels that messages lead to, each in a world of its own that hashes in one way.
pub data Reach (h : Hashes) (c : Channel) : Channel → Type 0 where
  here : Reach h c c
  next : {d : Channel} (w : World) (r : Request) → w.h ≡ h → Reach h c d → Reach h c (serve w r d)

pub Reach-IsSynced :
    (h : Hashes) {c d : Channel}
    → IsSynced h c.store c.applier
    → Reach h c d
    → IsSynced h d.store d.applier
Reach-IsSynced h y here = y
Reach-IsSynced h y (next {d} w r e reached) =
    subst (λ (k : Hashes). IsSynced k (serve w r d).store (serve w r d).applier) e
      (serve-Kept w (IsDurable-Kept w) r d
        (subst (λ (k : Hashes). IsSynced k d.store d.applier) (sym e) (Reach-IsSynced h y reached)))

-- A channel whose store, disk and applier are in step, after any messages, each in a world of its
-- own that hashes in the one way, handled or refused, with a disk that may fail in any of them:
-- opening the database gives the channel's store (its ledger info, witness, pending transaction
-- and keys), and the accumulator in memory has the leaves on the disk.
pub recovery :
    (h : Hashes) {c d : Channel}
    → IsSynced h c.store c.applier
    → Reach h c d
    → (load h d.store.db ≡ ok d.store) × (d.applier.leaves ≡ d.store.db.leaves)
recovery h y r = let s = Reach-IsSynced h y r in (s.cached, s.same_leaves)
