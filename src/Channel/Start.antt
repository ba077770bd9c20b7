-- ===== src/Channel/Start.antt =====
-- sgwallet/src/channel/channel.rs, `bootstrap` and `started`: how a channel that is loaded goes on
-- with what it had left pending.
pub mod Ready
use stargate.Common.{ℕ, Option, none, some}
use stargate.Common.Outcome.{Outcome, ok, err, panic, expect}
use stargate.Libra.{ChannelResource}
use stargate.Proposal.{
  PendingTransaction, ProposalLifecycle, created, negotiating, agreed, applying, traveling,
}
use stargate.Stm.{Error, external, externally, channel_resource}
use stargate.Store.{AppliedChannelTxn, offchain, travel}
use stargate.Store.Read
use stargate.Channel.{World, ChannelHandler, emit, watch_events, from_storage}
use stargate.Channel.Chain.{OnChain, watch_and_apply_travel_txn}
use stargate.Channel.Kept.{resumed, stopped}
use stargate.Channel.Negotiate.{apply_pending_txn}
use stargate.Channel.Persist.{pending_txn}
use stargate.Common.Handler.{◌>>=◌, ◌>>◌, pure, fail, lift, gets, modify}

-- What the chain tells of a transaction by its sender and number: the transaction, once it is there,
-- and its version, if it is there already. The outer `none` is an error.
pub record Past : Type 0 where
  pub watched : ℕ → ℕ → Option OnChain
  pub version_of : ℕ → ℕ → Option (Option ℕ)

unfoldable pub settled : {A : Type 0} → Outcome Error A → ChannelHandler (Option A)
settled (ok a) c = (ok (some a), c)
settled (err e) c = (ok none, stopped c)
settled panic c = (panic, c)

-- an error is logged, and the actor stops
unfoldable pub or_stop : {A : Type 0} → ChannelHandler A → ChannelHandler (Option A)
or_stop m c = settled (m c).0 (m c).1

unfoldable pub watch_from : Option ChannelResource → ChannelHandler (Unit {0})
watch_from none = pure tt
watch_from (some resource) = modify (emit (watch_events resource.event_count))

module _ (w : World) (past : Past) where
  -- an off-chain transaction at the start of an epoch is against an assertion
  unfoldable pub resume_at : AppliedChannelTxn → ChannelHandler (Unit {0})
  resume_at (offchain t) = lift panic
  resume_at (travel t) = do
    found ← lift (externally (past.version_of t.raw_txn.sender t.raw_txn.sequence_number))
    version ← lift (expect found)
    stm ← gets (λ c. c.stm)
    state ← lift (externally (w.account_state_at stm.channel_address version))
    modify (resumed (some state))

  unfoldable pub resume : Option Read.StartupInfo → ChannelHandler (Unit {0})
  resume none = pure tt
  resume (some info) = do
    store ← gets (λ c. c.store)
    t ←
        lift
          (from_storage (Read.get_transaction_by_channel_seq_number store info.ledger_info.epoch))
    resume_at t.1

  -- Channel::bootstrap
  unfoldable pub bootstrap : ChannelHandler (Unit {0})
  bootstrap = do
    store ← gets (λ c. c.store)
    info ← lift (from_storage (Read.get_startup_info store))
    resume info

  unfoldable pub apply_watched : Option OnChain → ChannelHandler ℕ
  apply_watched none = fail external
  apply_watched (some t) = watch_and_apply_travel_txn w t t.txn

  -- Handler<WatchAndApplyTravelTxn>, with what the chain says
  unfoldable pub watch_and_apply : ℕ → ℕ → ChannelHandler ℕ
  watch_and_apply sender seq_number = apply_watched (past.watched sender seq_number)

  unfoldable pub watch_if_any : Option (ℕ × ℕ) → ChannelHandler (Unit {0})
  watch_if_any none = pure tt
  watch_if_any (some (txn_sender, seq_number)) =
      or_stop (watch_and_apply txn_sender seq_number) >> pure tt

  unfoldable pub watch_done : Option (Option (ℕ × ℕ)) → ChannelHandler (Unit {0})
  watch_done none = pure tt
  watch_done (some watch) = watch_if_any watch

  -- an agreed transaction is applied, and a travelling one is watched again
  unfoldable pub take_up : ProposalLifecycle → PendingTransaction → ChannelHandler (Unit {0})
  take_up agreed p = do done ← or_stop (apply_pending_txn w); watch_done done
  take_up traveling p = do
    or_stop (watch_and_apply p.proposal.channel_txn.proposer p.proposal.channel_txn.sequence_number)
    pure tt
  take_up created p = pure tt
  take_up negotiating p = pure tt
  take_up applying p = pure tt

  unfoldable pub take_up_pending : Option PendingTransaction → ChannelHandler (Unit {0})
  take_up_pending none = pure tt
  take_up_pending (some p) = take_up p.lifecycle p

  -- Actor::started
  unfoldable pub started : ChannelHandler (Unit {0})
  started = do
    pending ← pending_txn
    take_up_pending pending
    stm ← gets (λ c. c.stm)
    resource ← lift (channel_resource w.x stm)
    watch_from resource
