-- ===== src/Router/Stats.antt =====
-- router/stats/src/lib.rs: the payments under way on each channel. The map of channels is behind a
-- mutex that a task cannot lock again while it holds it: `waits` is a task that waits for ever. The
-- mutex of a channel's own map is held within one operation only and is left out.
pub mod Pressure
use stargate.Common.{
  ℕ, ◌+◌, ◌%◌, Bool, true, false, ◌&&◌, Option, none, some, List, [], ◌∷◌, ◌==◌, if◌then◌else◌,
}
use stargate.Common.Dict.{Dict, insert, remove}
use stargate.Libra.{u64_mod}

-- what a task comes to
pub data Task (A : Type 0) : Type 0 where
  done : A → Task A
  waits : Task A

infixl 10 ◌>>=◌
abbrev pub ◌>>=◌ : {A B : Type 0} → Task A → (A → Task B) → Task B
waits >>= k = waits
done a >>= k = k a

abbrev pub DirectedChannel : Type 0
DirectedChannel = ℕ × ℕ

pub data PayEnum : Type 0 where
  paying payed : PayEnum

-- the hash of a payment and its amount
pub record PaymentInfo : Type 0 where
  pub hash_value : ℕ
  pub amount : ℕ
  pub kind : PayEnum

-- `payment_data`
abbrev pub ChannelStats : Type 0
ChannelStats = Dict ℕ

pub record StatsInner : Type 0 where
  pub user_channel_stats : List (DirectedChannel × ChannelStats)
  pub is_locked : Bool

-- Stats::new
unfoldable pub new : StatsInner
new = record { user_channel_stats = []; is_locked = false }

-- `iter()` with `result += amount`
unfoldable pub sum_from : ℕ → ChannelStats → ℕ
sum_from result [] = result
sum_from result ((_, amount) ∷ payment_data) = sum_from ((result + amount) % u64_mod) payment_data

-- ChannelStats::sum
unfoldable pub sum : ChannelStats → ℕ
sum payment_data = sum_from 0 payment_data

abbrev pub same_channel : DirectedChannel → DirectedChannel → Bool
same_channel a b = a.0 == b.0 && a.1 == b.1

unfoldable pub stats_of :
    List (DirectedChannel × ChannelStats) → DirectedChannel → Option ChannelStats
stats_of [] channel = none
stats_of ((key, stats) ∷ m) channel =
    if same_channel key channel then some stats else stats_of m channel

-- a channel's map, changed in place or added
unfoldable pub put_stats :
    DirectedChannel
    → ChannelStats
    → List (DirectedChannel × ChannelStats)
    → List (DirectedChannel × ChannelStats)
put_stats channel stats [] = (channel, stats) ∷ []
put_stats channel stats ((key, old) ∷ m) =
    let rest = put_stats channel stats m in
    if same_channel key channel then (key, stats) ∷ m else (key, old) ∷ rest

unfoldable pub lock : StatsInner → Task StatsInner
lock s = if s.is_locked then waits else done (record s { is_locked = true })

unfoldable pub unlock : StatsInner → StatsInner
unlock s = record s { is_locked = false }

unfoldable pub insert_channel_stats : StatsInner → DirectedChannel → ChannelStats → Task StatsInner
insert_channel_stats s channel stats = do
  held ← lock s
  done (
      unlock (record held { user_channel_stats = put_stats channel stats held.user_channel_stats }))

-- the match on what is known of the channel, under the lock
unfoldable pub handle_locked :
    StatsInner → DirectedChannel → PaymentInfo → PayEnum → Option ChannelStats → Task StatsInner
handle_locked s channel info paying none =
    insert_channel_stats s channel (insert info.hash_value info.amount [])
handle_locked s channel info paying (some stats) = done (record s {
  user_channel_stats =
      put_stats channel (insert info.hash_value info.amount stats) s.user_channel_stats;
})
handle_locked s channel info payed none = done s
handle_locked s channel info payed (some stats) = done (record s {
  user_channel_stats = put_stats channel (remove info.hash_value stats) s.user_channel_stats;
})

-- the guard of the match's scrutinee lives to the end of the match
unfoldable pub handle_data_message : StatsInner → DirectedChannel → PaymentInfo → Task StatsInner
handle_data_message s channel info = do
  held ← lock s
  after ← handle_locked held channel info info.kind (stats_of held.user_channel_stats channel)
  done (unlock after)

unfoldable pub payment_pressure : StatsInner → DirectedChannel → Task ℕ
payment_pressure s channel = do
  held ← lock s
  done (elim (stats_of held.user_channel_stats channel) [ none ↦ 0 | some stats ↦ sum stats ])

-- StatsInner::start, over the messages that it receives
unfoldable pub start : StatsInner → List (DirectedChannel × PaymentInfo) → Task StatsInner
start s [] = done s
start s ((channel, info) ∷ messages) = do s' ← handle_data_message s channel info; start s' messages
