-- ===== src/Wallet/Calls/Recovery.antt =====
-- sgwallet/src/wallet.rs: a restart of a wallet after any requests.
use stargate.Common.{ℕ, ◌≡◌, sym}
use mathlib.Core.Path.{subst}
use stargate.Common.Dict.{get}
use stargate.Common.Outcome.{ok}
use stargate.Store.{Hashes, Db, ChannelStore}
use stargate.Store.Read.{load}
use stargate.Store.Synced.{IsSynced}
use stargate.Store.Applier
use stargate.Store.Applier.{TxApplier}
use stargate.Wallet.{Wallet, WalletWorld}
use stargate.Wallet.Calls.{Call, call}
use stargate.Wallet.Calls.Durable.{Every, Every-map, AllReady, call-AllReady}

-- The wallets that requests lead to, each in a world of its own that hashes in one way.
pub data WalletReach (h : Hashes) (s : Wallet) : Wallet → Type 0 where
  here : WalletReach h s s
  next :
      {t : Wallet} (ww : WalletWorld) (r : Call)
      → ww.world.h ≡ h
      → WalletReach h s t
      → WalletReach h s (call ww r t)

WalletReach-AllReady : (h : Hashes) {s t : Wallet} → AllReady h s → WalletReach h s t → AllReady h t
WalletReach-AllReady h y here = y
WalletReach-AllReady h y (next {t} ww r e reached) =
    subst (λ (k : Hashes). AllReady k (call ww r t)) e
      (call-AllReady ww r t
        (subst (λ (k : Hashes). AllReady k t) (sym e) (WalletReach-AllReady h y reached)))

-- A wallet in which every channel is in step with its disk, after any requests, each in a world of
-- its own that hashes in the one way, handled or refused, with a disk that may fail in any of them:
-- for every channel that runs, opening its database gives its store, and the applier built from that
-- store is the channel's; and the database of every channel that was stopped can be opened, with an
-- applier that is in step.
pub wallet_recovery :
    (h : Hashes) {s t : Wallet} (a : ℕ)
    → AllReady h s
    → WalletReach h s t
    → Every
        (λ c. (load h c.store.db ≡ ok c.store) × (Applier.new c.store ≡ ok c.applier))
        (get t.channels a)
      × Every
          (λ db.
            (store : ChannelStore) × (applier : TxApplier) × (load h db ≡ ok store)
            × (Applier.new store ≡ ok applier)
            × IsSynced h store applier)
          (get t.sgdb a)
wallet_recovery h {s} {t} a y reached = (
  Every-map (get t.channels a) (λ c g. (g.synced.cached, g.rebuilt)) (all.running a),
  Every-map (get t.sgdb a)
      (λ db g. (
        g.0,
        g.1,
        subst (λ (d : Db). load h d ≡ ok g.0) g.2 g.3.synced.cached,
        g.3.rebuilt,
        g.3.synced,
      ))
      (all.stored a),
)
  where
    all : AllReady h t
    all = WalletReach-AllReady h y reached
