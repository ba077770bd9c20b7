-- ===== src/Channel/Chain.antt =====
-- sgwallet/src/channel/channel.rs: how a channel follows the chain. `unimplemented!()` is a panic.
use stargate.Common.{
  ℕ, Bool, true, false, not, ◌&&◌, Option, none, some, List, [], ◌∷◌, ◌==◌, leb, ltb, contains,
  if◌then◌else◌,
}
use stargate.Common.Outcome.{panic, ensure, assert, expect, ok_or}
use stargate.Common.Text.{codes}
use stargate.Libra.{Bytes, TransactionArgument, address, SignedTransaction, ChannelResource}
use stargate.Proposal.{ChannelOp, action}
use stargate.Stm.{
  external, no_channel_resource, not_a_channel_txn, not_traveling, lock_not_expired,
  channel_sequence_number, channel_resource, channel_lock_by_resource,
}
use stargate.Store.{ChannelTransactionInfo, AppliedChannelTxn, offchain, travel}
use stargate.Channel.{World, ChannelHandler, emit, watch_and_apply, watch_events, watch_lock}
use stargate.Common.Handler.{◌>>=◌, ◌>>◌, pure, fail, lift, gets, modify}
use stargate.Channel.Persist.{stop, check_applied, apply_travel}
use stargate.Channel.Negotiate.{execute, apply_pending_txn}

-- a transaction of the chain, as the channel sees it
pub data Transaction : Type 0 where
  channel_txn : SignedTransaction → Transaction
  other_txn : Transaction

-- what the chain says of a transaction that it has executed
pub record OnChain : Type 0 where
  pub txn : Transaction
  pub version : ℕ
  pub major_status : ℕ
  pub gas_used : ℕ

-- an action of libra's account module, by the names of contract.rs
abbrev pub channel_action : World → Bytes → ChannelOp
channel_action w name = action w.core_code_address w.account_module_name name

unfoldable pub to_watch : Option (ℕ × ℕ) → ChannelHandler (Unit {0})
to_watch none = fail not_traveling
to_watch (some (sender, seq_number)) = modify (emit (watch_and_apply sender seq_number))

unfoldable pub solo_action :
    World → ChannelOp → List TransactionArgument → ChannelHandler (Unit {0})
solo_action w channel_op args = do
  execute w channel_op args
  watch ← apply_pending_txn w
  to_watch watch

-- the transaction, if it belongs to this channel; the rest is debug assertions
unfoldable pub own_txn : World → Bool → Transaction → ChannelHandler SignedTransaction
own_txn w authorized other_txn = fail not_a_channel_txn
own_txn w authorized (channel_txn s) = do
  stm ← gets (λ c. c.stm)
  lift (assert (contains stm.participant_addresses s.raw_txn.sender))
  lift (assert (stm.channel_address == s.raw_txn.body.channel_address))
  lift (assert (if authorized then w.is_authorized s else not (w.is_authorized s)))
  pure s

-- a transaction whose sequence number is applied already: the same one may come late
unfoldable pub late_co_signed :
    World
    → SignedTransaction
    → Option (ChannelTransactionInfo × AppliedChannelTxn)
    → ChannelHandler ℕ
late_co_signed w s none = lift panic
late_co_signed w s (some (info, offchain t)) = lift panic
late_co_signed w s (some (info, travel t)) =
    if w.x.raw_hash t.raw_txn == w.x.raw_hash s.raw_txn then pure info.gas_used else lift panic

unfoldable pub after_co_signed : ChannelResource → ChannelHandler (Unit {0})
after_co_signed resource = do
  lift (assert (not resource.locked))
  if resource.opened
      then (if resource.channel_sequence_number == 1
          then modify (emit (watch_events resource.event_count))
          else pure tt)
      else if resource.closed
      then stop
      else pure tt

unfoldable pub local_resource : World → ChannelHandler ChannelResource
local_resource w = do
  stm ← gets (λ c. c.stm)
  resource ← lift (channel_resource w.x stm)
  lift (ok_or no_channel_resource resource)

-- Handler<ApplyCoSignedTxn>
unfoldable pub apply_co_signed_txn : World → OnChain → ChannelHandler ℕ
apply_co_signed_txn w t = do
  s ← own_txn w true t.txn
  stm ← gets (λ c. c.stm)
  n ← lift (channel_sequence_number w.x stm)
  let seen = s.raw_txn.body.witness.channel_sequence_number
  lift (assert (leb seen n))
  if ltb seen n then (do applied ← check_applied seen; late_co_signed w s applied) else do
    apply_travel w t.version s t.major_status t.gas_used
    resource ← local_resource w
    after_co_signed resource
    pure t.gas_used

-- the dual has brought a stale transaction to the chain: it is challenged
unfoldable pub late_solo :
    World
    → SignedTransaction
    → Option (ChannelTransactionInfo × AppliedChannelTxn)
    → ChannelHandler ℕ
late_solo w s none = lift panic
late_solo w s (some (info, travel t)) =
    if w.x.raw_hash t.raw_txn == w.x.raw_hash s.raw_txn then pure info.gas_used else lift panic
late_solo w s (some (info, offchain t)) = do
  stm ← gets (λ c. c.stm)
  if stm.account_address == s.raw_txn.sender
      then lift panic
      else do solo_action w (channel_action w (codes "challenge")) []; pure 0

-- a lock of one's own is waited out, another's is resolved
unfoldable pub after_solo : World → SignedTransaction → ChannelResource → ChannelHandler (Unit {0})
after_solo w s resource = do
  stm ← gets (λ c. c.stm)
  if resource.locked
      then (if stm.account_address == s.raw_txn.sender
          then (do
            lock ← lift (channel_lock_by_resource w.x stm)
            time_lock ← lift (expect lock)
            modify (emit (watch_lock time_lock)))
          else solo_action w (channel_action w (codes "resolve")) [])
      else if resource.closed
      then stop
      else pure tt

-- Handler<ApplySoloTxn>
unfoldable pub apply_solo_txn : World → OnChain → ChannelHandler ℕ
apply_solo_txn w t = do
  s ← own_txn w false t.txn
  stm ← gets (λ c. c.stm)
  n ← lift (channel_sequence_number w.x stm)
  let seen = s.raw_txn.body.witness.channel_sequence_number
  lift (assert (leb seen n))
  if ltb seen n
      then (do
        applied ← check_applied (w.h.payload_sequence_number s.raw_txn.body)
        late_solo w s applied)
      else do
        apply_travel w t.version s t.major_status t.gas_used
        resource ← local_resource w
        after_solo w s resource
        pure t.gas_used

-- Handler<WatchAndApplyTravelTxn>, once the watched transaction has come
unfoldable pub watch_and_apply_travel_txn : World → OnChain → Transaction → ChannelHandler ℕ
watch_and_apply_travel_txn w t other_txn = fail not_a_channel_txn
watch_and_apply_travel_txn w t (channel_txn s) =
    (if not (w.is_authorized s) then apply_solo_txn w t else apply_co_signed_txn w t)
    >> pure t.gas_used

-- the first participant but oneself
abbrev pub other_participant : ℕ → List ℕ → Option ℕ
other_participant me [] = none
other_participant me (a ∷ participants) =
    if a == me then other_participant me participants else some a

unfoldable pub close_if_locked : World → Option ℕ → ChannelHandler (Unit {0})
close_if_locked w none = pure tt
close_if_locked w (some _) = do
  stm ← gets (λ c. c.stm)
  dual ← lift (expect (other_participant stm.account_address stm.participant_addresses))
  solo_action w (channel_action w (codes "close")) (address dual ∷ [])

-- Handler<ChannelLockTimeout>
unfoldable pub channel_lock_timeout : World → ℕ → ℕ → ChannelHandler (Unit {0})
channel_lock_timeout w block_height time_lock = do
  lift (ensure (ltb time_lock block_height) lock_not_expired)
  stm ← gets (λ c. c.stm)
  lock ← lift (channel_lock_by_resource w.x stm)
  close_if_locked w lock

unfoldable pub solo_by_dual : World → OnChain → Transaction → ChannelHandler (Unit {0})
solo_by_dual w t other_txn = lift panic
solo_by_dual w t (channel_txn s) = do
  stm ← gets (λ c. c.stm)
  if not (w.is_authorized s) && not (stm.account_address == s.raw_txn.sender)
      then apply_solo_txn w t >> pure tt
      else pure tt

unfoldable pub fetched_solo : World → Option OnChain → ChannelHandler (Unit {0})
fetched_solo w none = fail external
fetched_solo w (some t) = solo_by_dual w t t.txn

-- Handler<ChannelStageChange>, with the transaction of the chain at the event's version
unfoldable pub channel_stage_change : World → ℕ → Option OnChain → ChannelHandler (Unit {0})
channel_stage_change w version fetched = do
  stm ← gets (λ c. c.stm)
  if leb version stm.channel_state.version then pure tt else fetched_solo w fetched
