-- ===== src/Channel/Start/Ready.antt =====
-- sgwallet/src/channel: a channel that can be taken up from its disk, through a start and through
-- every message.
use stargate.Common.{ℕ, Option, none, some}
use stargate.Common.Outcome.{Outcome, ok, err, panic}
use stargate.Libra.{ChannelResource}
use stargate.Proposal.{
  PendingTransaction, ProposalLifecycle, created, negotiating, agreed, applying, traveling,
}
use stargate.Store.{AppliedChannelTxn, offchain, travel}
use stargate.Store.Read
use stargate.Store.Rebuilt.{IsReady, IsReady-pending, apply-IsReady}
use stargate.Channel.{Channel, World, ChannelHandler, emit, watch_events}
use stargate.Channel.Kept.{Kept, resumed, emit-Keeps, resumed-Keeps, pending_txn-Keeps}
use stargate.Channel.Kept.Handlers.{watch-Keeps, apply_pending_txn-Keeps}
use stargate.Channel.Persist.{advanced}
use stargate.Channel.Chain.{OnChain}
use stargate.Stm.{Error}
use stargate.Channel.Start.{
  Past, or_stop, settled, resume_at, resume, bootstrap, apply_watched, watch_and_apply,
  watch_if_any, watch_done, take_up, take_up_pending, watch_from, started,
}
use stargate.Common.Handler.{Keeps, keeps_rules}

-- the channel, its disk and its applier are in step, and a restart gives them back
abbrev pub CanRestart : World → Channel → Type 0
CanRestart w c = IsReady w.h c.store c.applier

pub CanRestart-Kept : (w : World) → Kept w (CanRestart w)
unfolding emit advanced resumed
CanRestart-Kept w = record {
  emits = λ e c y. y;
  stops = λ c y. y;
  pendings = λ p c y. IsReady-pending w.h c.store c.applier p y;
  commits = λ cs tx c s a e y. apply-IsReady w.h w.disk_works w.now c.store c.applier tx y e;
  resumes = λ cs c y. y;
}

module _ (w : World) (past : Past) {P : Channel → Type 0} (k : Kept w P) where
  settled-keeps : {A : Type 0} (r : Outcome Error A) (c : Channel) → P c → P (settled r c).1
  unfolding settled
  settled-keeps (ok a) c h = h
  settled-keeps (err e) c h = k.stops c h
  settled-keeps panic c h = h

  or_stop-Keeps : {A : Type 0} (m : ChannelHandler A) → Keeps P m → Keeps P (or_stop m)
  unfolding or_stop
  or_stop-Keeps m km = record { at = λ c h. settled-keeps (m c).0 (m c).1 (km.at c h) }

  resume_at-Keeps : (t : AppliedChannelTxn) → Keeps P (resume_at w past t)
  unfolding resume_at
  resume_at-Keeps (offchain t) = search keeps_rules
  resume_at-Keeps (travel t) = search (keeps_rules, resumed-Keeps) depth 20

  resume-Keeps : (info : Option Read.StartupInfo) → Keeps P (resume w past info)
  unfolding resume
  resume-Keeps none = search keeps_rules
  resume-Keeps (some info) = search (keeps_rules, resume_at-Keeps) depth 20

  pub bootstrap-Keeps : Keeps P (bootstrap w past)
  unfolding bootstrap
  bootstrap-Keeps = search (keeps_rules, resume-Keeps) depth 20

  apply_watched-Keeps : (o : Option OnChain) → Keeps P (apply_watched w past o)
  unfolding apply_watched
  apply_watched-Keeps none = search keeps_rules
  apply_watched-Keeps (some t) = watch-Keeps w k t t.txn

  pub watch_and_apply-Keeps :
      (sender seq_number : ℕ) → Keeps P (watch_and_apply w past sender seq_number)
  unfolding watch_and_apply
  watch_and_apply-Keeps sender seq_number = apply_watched-Keeps (past.watched sender seq_number)

  ruleset start_parts = (keeps_rules, or_stop-Keeps, watch_and_apply-Keeps, apply_pending_txn-Keeps)

  watch_if_any-Keeps : (o : Option (ℕ × ℕ)) → Keeps P (watch_if_any w past o)
  unfolding watch_if_any
  watch_if_any-Keeps none = search keeps_rules
  watch_if_any-Keeps (some (a, n)) = search start_parts depth 20

  watch_done-Keeps : (o : Option (Option (ℕ × ℕ))) → Keeps P (watch_done w past o)
  unfolding watch_done
  watch_done-Keeps none = search keeps_rules
  watch_done-Keeps (some watch) = watch_if_any-Keeps watch

  take_up-Keeps : (l : ProposalLifecycle) (p : PendingTransaction) → Keeps P (take_up w past l p)
  unfolding take_up
  take_up-Keeps created p = search keeps_rules
  take_up-Keeps negotiating p = search keeps_rules
  take_up-Keeps agreed p = search (start_parts, watch_done-Keeps) depth 20
  take_up-Keeps applying p = search keeps_rules
  take_up-Keeps traveling p = search start_parts depth 20

  take_up_pending-Keeps : (p : Option PendingTransaction) → Keeps P (take_up_pending w past p)
  unfolding take_up_pending
  take_up_pending-Keeps none = search keeps_rules
  take_up_pending-Keeps (some p) = take_up-Keeps p.lifecycle p

  watch_from-Keeps : (r : Option ChannelResource) → Keeps P (watch_from r)
  unfolding watch_from
  watch_from-Keeps none = search keeps_rules
  watch_from-Keeps (some r) = emit-Keeps w k (watch_events r.event_count)

  pub started-Keeps : Keeps P (started w past)
  unfolding started
  started-Keeps =
      search (keeps_rules, pending_txn-Keeps, take_up_pending-Keeps, watch_from-Keeps) depth 20
