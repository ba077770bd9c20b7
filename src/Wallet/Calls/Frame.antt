-- ===== src/Wallet/Calls/Frame.antt =====
-- sgwallet/src/wallet.rs: a request leaves all channels alone but the one that it concerns.
use stargate.Common.{ℕ, ◌≡◌, ◌≢◌, refl, Option, none, some, ne→==}
use stargate.Common.Dict.{get, get-insert, get-remove}
use stargate.Common.Outcome.{Outcome, ok, err, panic}
use stargate.Stm.{Error}
use stargate.Store.{Db, StorageError, ChannelStore}
use stargate.Channel.{Channel, ChannelHandler}
use stargate.Wallet.{
  Wallet, WalletWorld, on_channel, run_on, put_channel, put_db, spawn_channel, opened, loaded,
  begun, remove_channel, removed,
}
use stargate.Wallet.Reads.{read_from}
use stargate.Wallet.Calls.{Call, call, concerns, Outlasts}
use stargate.Wallet.Calls.Kept.{call-kept}

-- what a wallet holds at `b`, on disk and running, and whose wallet it is
record Holds (b me : ℕ) (c : Option Channel) (db : Option Db) (s : Wallet) : Type 0 where
  owner : s.account.address ≡ me
  running : get s.channels b ≡ c
  stored : get s.sgdb b ≡ db

module _ (ww : WalletWorld) (me a b : ℕ) (differ : a ≢ b) (c : Option Channel)
    (db : Option Db) where
  abbrev Same : Wallet → Type 0
  Same = Holds b me c db

  put_channel-Same : (d : Channel) (s : Wallet) → Same s → Same (put_channel a d s)
  unfolding put_channel
  put_channel-Same d s h = record {
    owner = h.owner;
    running = rw (get-insert a b d s.channels, ne→== a b differ) h.running;
    stored = h.stored;
  }

  put_db-Same : (d : Db) (s : Wallet) → Same s → Same (put_db a d s)
  unfolding put_db
  put_db-Same d s h = record {
    owner = h.owner;
    running = h.running;
    stored = rw (get-insert a b d s.sgdb, ne→== a b differ) h.stored;
  }

  run_on-Same :
      {A : Type 0} (m : ChannelHandler A) (o : Option Channel) (s : Wallet)
      → Same s
      → Same (run_on a m o s).1
  unfolding run_on
  run_on-Same m none s h = h
  run_on-Same m (some d) s h = put_channel-Same (m d).1 s h

  begun-Same :
      (r : Outcome Error (Unit {0}) × Channel) (s : Wallet) → Same s → Same (begun ww a r s).1
  unfolding begun
  begun-Same (ok _, d) s h = put_channel-Same _ s h
  begun-Same (err e, d) s h = h
  begun-Same (panic, d) s h = h

  loaded-Same : (r : Outcome StorageError Channel) (s : Wallet) → Same s → Same (loaded ww a r s).1
  unfolding loaded
  loaded-Same (ok d) s h = begun-Same _ s h
  loaded-Same (err e) s h = h
  loaded-Same panic s h = h

  opened-Same :
      (r : Outcome StorageError ChannelStore) (s : Wallet) → Same s → Same (opened ww a r s).1
  unfolding opened
  opened-Same (ok store) s h = loaded-Same _ _ (put_db-Same store.db s h)
  opened-Same (err e) s h = h
  opened-Same panic s h = h

  removed-Same : (o : Option Channel) (s : Wallet) → Same s → Same (removed a o s)
  unfolding removed
  removed-Same none s h = h
  removed-Same (some d) s h = record {
    owner = h.owner;
    running = rw (get-remove a b s.channels, ne→== a b differ) h.running;
    stored = rw (get-insert a b d.store.db s.sgdb, ne→== a b differ) h.stored;
  }

  read_from-Same :
      (n : ℕ) (r : Outcome StorageError ChannelStore) (s : Wallet)
      → Same s
      → Same (read_from ww a n r s).1
  unfolding read_from
  read_from-Same n (ok store) s h = put_db-Same store.db s h
  read_from-Same n (err e) s h = h
  read_from-Same n panic s h = h

  Same-Outlasts : Outlasts ww me a Same
  unfolding on_channel spawn_channel remove_channel
  Same-Outlasts = record {
    owner = λ s h. h.owner;
    messages = λ A m k. record { at = λ s h. run_on-Same m (get s.channels a) s h };
    spawns = λ participants. record { at = λ s h. opened-Same _ s h };
    reads = λ participants n. record { at = λ s h. read_from-Same n _ s h };
    removes = λ s h. removed-Same (get s.channels a) s h;
  }

-- A request to a wallet, handled or refused, leaves every channel but the one that it concerns as it
-- is, in memory and on disk.
pub call_elsewhere :
    (ww : WalletWorld) (r : Call) (s : Wallet) (b : ℕ)
    → concerns ww s.account.address r ≢ b
    → (get (call ww r s).channels b ≡ get s.channels b) × (get (call ww r s).sgdb b ≡ get s.sgdb b)
call_elsewhere ww r s b differ =
    let after =
      call-kept ww s.account.address r
        (Same-Outlasts ww s.account.address _ b differ (get s.channels b) (get s.sgdb b)) s
        (record { owner = refl; running = refl; stored = refl }) in
    (after.running, after.stored)
