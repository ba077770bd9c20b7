-- ===== src/Channel/Durable.antt =====
-- sgwallet/src/channel/channel.rs: what the handlers write, beside what a restart reads.
use stargate.Store.Synced.{IsSynced, IsSynced-pending, apply-IsSynced}
use stargate.Channel.{Channel, World, emit}
use stargate.Channel.Kept.{Kept, resumed}
use stargate.Channel.Persist.{advanced}

-- the channel and its store can be taken up again from the disk
abbrev pub IsDurable : World → Channel → Type 0
IsDurable w c = IsSynced w.h c.store c.applier

pub IsDurable-Kept : (w : World) → Kept w (IsDurable w)
unfolding emit advanced resumed
IsDurable-Kept w = record {
  emits = λ e c y. y;
  stops = λ c y. y;
  pendings = λ p c y. IsSynced-pending w.h c.store c.applier p y;
  commits = λ cs tx c s a e y. apply-IsSynced w.h w.disk_works w.now c.store c.applier tx y e;
  resumes = λ cs c y. y;
}
