-- ===== src/Wallet/Calls/Durable.antt =====
-- sgwallet/src/wallet.rs: what a wallet holds, beside its disk, after any requests.
use stargate.Common.{
  ℕ, ◌≡◌, refl, sym, ◌∙◌, Option, none, some, List, [], ◌==◌, Bool-cases, inl, inr,
}
use mathlib.Core.Path.{subst}
use stargate.Common.Dict.{Dict, get, get-insert, get-remove, insert, remove}
use stargate.Common.Outcome.{Outcome, ok, err, panic, ok-injective, assert, >>=-eq-ok}
use stargate.Common.Handler.{Keeps}
use stargate.Stm.{Error}
use stargate.Store.{Hashes, Db, StorageError, ChannelStore}
use stargate.Store.Read
use stargate.Store.Read.{load}
use stargate.Store.Applier
use stargate.Store.Applier.{TxApplier}
use stargate.Store.Opened
use stargate.Store.Opened.{empty_db}
use stargate.Store.Rebuilt.{IsReady, new-IsReady}
use stargate.Channel.{Channel, ChannelHandler}
use stargate.Channel.Open.{Account, of_store, has_participants}
use stargate.Channel.Start.Ready.{CanRestart, CanRestart-Kept, bootstrap-Keeps, started-Keeps}
use stargate.Wallet.{
  Wallet, WalletWorld, on_channel, run_on, put_channel, put_db, spawn_channel, opened, loaded,
  begun, remove_channel, removed, database,
}
use stargate.Wallet.Reads.{read_from}
use stargate.Wallet.Calls.{Call, call, Outlasts}
use stargate.Wallet.Calls.Kept.{call-kept}

-- a database that can be opened again, with its applier
abbrev pub Opens : Hashes → Db → Type 0
Opens h db = (s : ChannelStore) × (a : TxApplier) × (s.db ≡ db) × IsReady h s a

abbrev pub Every : {A : Type 0} → (A → Type 0) → Option A → Type 0
Every Q none = Unit
Every Q (some v) = Q v

pub Every-map :
    {A : Type 0} {P Q : A → Type 0} (o : Option A) → ((a : A) → P a → Q a) → Every P o → Every Q o
Every-map none f e = tt
Every-map (some a) f e = f a e

module _ {V : Type 0} (Q : V → Type 0) (m : Dict V) (all : (b : ℕ) → Every Q (get m b)) where
  Every-insert : (a : ℕ) (v : V) → Q v → (b : ℕ) → Every Q (get (insert a v m) b)
  Every-insert a v q b =
      rw (get-insert a b v m)
        (elim (Bool-cases (a == b)) [ inl same ↦ rw (same) q | inr other ↦ rw (other) (all b) ])

  Every-remove : (a b : ℕ) → Every Q (get (remove a m) b)
  Every-remove a b =
      rw (get-remove a b m)
        (elim (Bool-cases (a == b)) [ inl same ↦ rw (same) tt | inr other ↦ rw (other) (all b) ])

-- Every channel that runs, and the database of every other, can be taken up again.
pub record AllReady (h : Hashes) (s : Wallet) : Type 0 where
  pub running : (a : ℕ) → Every (λ c. IsReady h c.store c.applier) (get s.channels a)
  pub stored : (a : ℕ) → Every (Opens h) (get s.sgdb a)

empty-Opens : (h : Hashes) → Opens h empty_db
empty-Opens h = (
  Opened.store h [],
  Opened.no_trees,
  refl,
  record { synced = Opened.store-IsSynced h []; rebuilt = Opened.applier-eq h [] },
)

module _ (h : Hashes) where
  abbrev Good : Channel → Type 0
  Good c = IsReady h c.store c.applier

  of_stored :
      (o : Option Db) → Every (Opens h) o → Opens h (elim o [ some db ↦ db | none ↦ empty_db ])
  of_stored (some db) e = e
  of_stored none e = empty-Opens h

  of_running :
      (o : Option Channel) (rest : Db)
      → Every Good o
      → Opens h rest
      → Opens h (elim o [ some c ↦ c.store.db | none ↦ rest ])
  of_running (some c) rest e d = (c.store, c.applier, refl, e)
  of_running none rest e d = d

  database-Opens : (s : Wallet) (a : ℕ) → AllReady h s → Opens h (database s a)
  unfolding database
  database-Opens s a r =
      of_running (get s.channels a) _ (r.running a) (of_stored (get s.sgdb a) (r.stored a))

  put_channel-AllReady :
      (a : ℕ) (c : Channel) (s : Wallet) → Good c → AllReady h s → AllReady h (put_channel a c s)
  unfolding put_channel
  put_channel-AllReady a c s g r = record {
    running = Every-insert Good s.channels r.running a c g;
    stored = r.stored;
  }

  put_db-AllReady :
      (a : ℕ) (db : Db) (s : Wallet) → Opens h db → AllReady h s → AllReady h (put_db a db s)
  unfolding put_db
  put_db-AllReady a db s o r = record {
    running = r.running;
    stored = Every-insert (Opens h) s.sgdb r.stored a db o;
  }

  removed-AllReady :
      (a : ℕ) (o : Option Channel) (s : Wallet)
      → Every Good o
      → AllReady h s
      → AllReady h (removed a o s)
  unfolding removed
  removed-AllReady a none s g r = r
  removed-AllReady a (some c) s g r = record {
    running = Every-remove Good s.channels r.running a;
    stored = Every-insert (Opens h) s.sgdb r.stored a c.store.db (c.store, c.applier, refl, g);
  }

module _ (ww : WalletWorld) (me a : ℕ) where
  record Ready (s : Wallet) : Type 0 where
    owner : s.account.address ≡ me
    all : AllReady ww.world.h s

  run_on-Ready :
      {A : Type 0} (m : ChannelHandler A) (o : Option Channel) (s : Wallet)
      → Keeps (CanRestart ww.world) m
      → Every (Good ww.world.h) o
      → Ready s
      → Ready (run_on a m o s).1
  unfolding run_on put_channel
  run_on-Ready m none s k g r = r
  run_on-Ready m (some c) s k g r = record {
    owner = r.owner;
    all = put_channel-AllReady ww.world.h a (m c).1 s (k.at c g) r.all;
  }

  begun-Ready :
      (r : Outcome Error (Unit {0}) × Channel) (s : Wallet)
      → Good ww.world.h r.1
      → Ready s
      → Ready (begun ww a r s).1
  unfolding begun put_channel
  begun-Ready (ok _, c) s g r = record {
    owner = r.owner;
    all =
        put_channel-AllReady ww.world.h a _ s
          ((started-Keeps ww.world ww.past (CanRestart-Kept ww.world)).at c g) r.all;
  }
  begun-Ready (err e, c) s g r = r
  begun-Ready (panic, c) s g r = r

  loaded-Ready :
      (o : Outcome StorageError Channel) (s : Wallet)
      → ((c : Channel) → o ≡ ok c → Good ww.world.h c)
      → Ready s
      → Ready (loaded ww a o s).1
  unfolding loaded
  loaded-Ready (ok c) s g r =
      begun-Ready _ s
        ((bootstrap-Keeps ww.world ww.past (CanRestart-Kept ww.world)).at c (g c refl)) r
  loaded-Ready (err e) s g r = r
  loaded-Ready panic s g r = r

  of_store-Good :
      (account : Account) (store : ChannelStore) (t : TxApplier) (c : Channel)
      → IsReady ww.world.h store t
      → of_store account a store ≡ ok c
      → Good ww.world.h c
  unfolding of_store
  of_store-Good account store t c y e =
      let (_, _, e1) =
        >>=-eq-ok (assert (has_participants (Read.participant_addresses store))) _ e in
      let (u, e2, e3) = >>=-eq-ok (Applier.new store) _ e1 in
      subst (Good ww.world.h) (ok-injective {E = StorageError} e3) (
        subst (λ (v : TxApplier). IsReady ww.world.h store v)
          (ok-injective {E = StorageError} (sym y.rebuilt ∙ e2)) y)

  opened-Ready :
      (o : Outcome StorageError ChannelStore) (s : Wallet)
      → ((store : ChannelStore) → o ≡ ok store → (t : TxApplier) × IsReady ww.world.h store t)
      → Ready s
      → Ready (opened ww a o s).1
  unfolding opened put_db
  opened-Ready (ok store) s g r =
      let (t, y) = g store refl in
      loaded-Ready (of_store s.account a store) (put_db a store.db s)
        (λ c e. of_store-Good s.account store t c y e)
        (record {
          owner = r.owner;
          all = put_db-AllReady ww.world.h a store.db s (store, t, refl, y) r.all;
        })
  opened-Ready (err e) s g r = r
  opened-Ready panic s g r = r

  removed-Ready :
      (o : Option Channel) (s : Wallet)
      → Every (Good ww.world.h) o
      → Ready s
      → Ready (removed a o s)
  unfolding removed
  removed-Ready none s g r = r
  removed-Ready (some c) s g r = record {
    owner = r.owner;
    all = removed-AllReady ww.world.h a (some c) s g r.all;
  }

  -- a second store that was opened on the database
  read_from-Ready :
      (n : ℕ) (o : Outcome StorageError ChannelStore) (s : Wallet)
      → ((store : ChannelStore) → o ≡ ok store → (t : TxApplier) × IsReady ww.world.h store t)
      → Ready s
      → Ready (read_from ww a n o s).1
  unfolding read_from put_db
  read_from-Ready n (ok store) s g r =
      let (t, y) = g store refl in
      record {
        owner = r.owner;
        all = put_db-AllReady ww.world.h a store.db s (store, t, refl, y) r.all;
      }
  read_from-Ready n (err e) s g r = r
  read_from-Ready n panic s g r = r

  -- opening the database of the channel
  reopened :
      (participants : List ℕ) (s : Wallet)
      → Ready s
      → (store : ChannelStore)
      → Read.new ww.world.h ww.world.disk_works participants (database s a) ≡ ok store
      → (t : TxApplier) × IsReady ww.world.h store t
  reopened participants s r store e =
      let (s0, t, same, y) = database-Opens ww.world.h s a r.all in
      (t, new-IsReady ww.world.h participants s0 t y ww.world.disk_works (rw (← same) at e))

  spawn-Ready :
      (participants : List ℕ) (s : Wallet) → Ready s → Ready (spawn_channel ww a participants s).1
  unfolding spawn_channel
  spawn-Ready participants s r = opened-Ready _ s (reopened participants s r) r

  Ready-Outlasts : Outlasts ww me a Ready
  unfolding on_channel remove_channel
  Ready-Outlasts = record {
    owner = λ s r. r.owner;
    messages =
        λ A m k. record { at = λ s r. run_on-Ready m (get s.channels a) s k (r.all.running a) r };
    spawns = λ participants. record { at = spawn-Ready participants };
    reads = λ participants n. record {
      at = λ s r. read_from-Ready n _ s (reopened participants s r) r;
    };
    removes = λ s r. removed-Ready (get s.channels a) s (r.all.running a) r;
  }

pub call-AllReady :
    (ww : WalletWorld) (r : Call) (s : Wallet)
    → AllReady ww.world.h s
    → AllReady ww.world.h (call ww r s)
call-AllReady ww r s y =
    (call-kept ww s.account.address r (Ready-Outlasts ww s.account.address _) s
      (record { owner = refl; all = y })).all
