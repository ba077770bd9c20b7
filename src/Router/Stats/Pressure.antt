-- ===== src/Router/Stats/Pressure.antt =====
-- router/stats/src/lib.rs: what the statistics record, and the lock that keeps them from it.
use stargate.Common.{
  ℕ, ◌+◌, ◌%◌, ◌<◌, ◌≡◌, refl, ap, Bool, true, false, ◌&&◌, none, some, List, [], ◌∷◌, arith,
  ==-self, contains, all, if◌then◌else◌,
}
use stargate.Common.Dict.{insert, keys}
use stargate.Libra.{u64_mod}
use stargate.Router.Stats
use stargate.Router.Stats.{
  Task, done, waits, ◌>>=◌, DirectedChannel, PayEnum, paying, payed, PaymentInfo, ChannelStats,
  StatsInner, sum_from, sum, stats_of, put_stats, same_channel, lock, unlock, insert_channel_stats,
  handle_locked, handle_data_message, payment_pressure, start,
}

abbrev pub is_payed : DirectedChannel × PaymentInfo → Bool
is_payed (_, info) = elim info.kind [ paying ↦ false | payed ↦ true ]

-- From the start: messages are handled to the end exactly when none of them begins a payment, and
-- nothing is recorded then. The first payment waits for ever for the lock that its own task holds.
pub start_blocks :
    (messages : List (DirectedChannel × PaymentInfo))
    → start Stats.new messages ≡ (if all is_payed messages then done Stats.new else waits)
unfolding start Stats.new handle_data_message handle_locked lock unlock insert_channel_stats
    stats_of
start_blocks [] = refl
start_blocks ((channel, info) ∷ messages) = go info.kind (start_blocks messages)
  where
    go :
        (kind : PayEnum)
        → start Stats.new messages ≡ (if all is_payed messages then done Stats.new else waits)
        → (handle_locked
              (record { user_channel_stats = []; is_locked = true })
              channel
              info
              kind
              none
            >>= (λ after. done (unlock after))
            >>= (λ s'. start s' messages))
          ≡ (if elim kind [ paying ↦ false | payed ↦ true ] && all is_payed messages
              then done Stats.new
              else waits)
    go paying rest = refl
    go payed rest = rest

-- the amounts, added without a bound
total : ChannelStats → ℕ
total [] = 0
total ((_, amount) ∷ m) = amount + total m

sum_from-total : (r : ℕ) (m : ChannelStats) → r < u64_mod → sum_from r m ≡ (r + total m) % u64_mod
unfolding sum_from total
sum_from-total r [] h = omega (arith, h)
sum_from-total r ((_, amount) ∷ m) h =
    omega (arith, sum_from-total ((r + amount) % u64_mod) m (omega arith))

total-insert :
    (k v : ℕ) (m : ChannelStats) → contains (keys m) k ≡ false → total (insert k v m) ≡ v + total m
unfolding total insert
total-insert k v [] h = refl
total-insert k v ((j, w) ∷ m) h = ground (arith, total-insert k v m)

stats_of-put_stats :
    (channel : DirectedChannel) (stats : ChannelStats) (m : List (DirectedChannel × ChannelStats))
    → stats_of (put_stats channel stats m) channel ≡ some stats
unfolding stats_of put_stats
stats_of-put_stats (a, b) stats [] = ground (arith, ==-self a, ==-self b)
stats_of-put_stats (a, b) stats (((c, d), old) ∷ m) =
    ground (arith, ==-self a, ==-self b, stats_of-put_stats (a, b) stats m)

sum-insert :
    (stats : ChannelStats) (hash_value amount : ℕ)
    → contains (keys stats) hash_value ≡ false
    → sum (insert hash_value amount stats) ≡ (sum stats + amount) % u64_mod
unfolding sum
sum-insert stats hash_value amount new = omega (
  arith,
  sum_from-total 0 (insert hash_value amount stats) (omega arith),
  sum_from-total 0 stats (omega arith),
  total-insert hash_value amount stats new,
)

-- While the mutex is free, on a channel that has its entry, a payment with a new hash adds its
-- amount to the pressure, on 64 bits, and leaves the mutex free.
pressure-paying :
    (s : StatsInner) (channel : DirectedChannel) (stats : ChannelStats) (hash_value amount : ℕ)
    → s.is_locked ≡ false
    → stats_of s.user_channel_stats channel ≡ some stats
    → contains (keys stats) hash_value ≡ false
    → (s' : StatsInner) × (handle_data_message s channel
          (record { hash_value = hash_value; amount = amount; kind = paying })
        ≡ done s')
      × (payment_pressure s' channel ≡ done ((sum stats + amount) % u64_mod))
      × (s'.is_locked ≡ false)
unfolding handle_data_message handle_locked payment_pressure lock unlock
pressure-paying s channel stats hash_value amount free known new =
    let more = insert hash_value amount stats in
    (
      record {
        user_channel_stats = put_stats channel more s.user_channel_stats;
        is_locked = false;
      },
      rw (free, known) refl,
      rw (stats_of-put_stats channel more s.user_channel_stats)
          (ap done (sum-insert stats hash_value amount new)),
      refl,
    )
