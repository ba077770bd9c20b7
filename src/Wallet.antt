-- ===== src/Wallet.antt =====
-- sgwallet/src/wallet.rs: the wallet of an account. This file has the actor that holds the channels;
-- Wallet/Handle has what the node asks of it.
pub mod Handle
pub mod Actions
pub mod Htlc
pub mod Reads
pub mod Calls
use stargate.Common.{
  ℕ, Bool, true, false, not, Option, none, some, List, [], ◌∷◌, ◌==◌, ltb, contains, if◌then◌else◌,
}
use stargate.Common.Dict.{Dict, get, insert, remove, values}
use stargate.Common.Outcome.{Outcome, ok, err, panic, ensure, assert, ok_or}
use stargate.Common.Handler.{Handler, ◌>>=◌, ◌>>◌, pure, fail, lift, gets, modify}
use stargate.Libra.{Bytes}
use stargate.Stm.{Error}
use stargate.Store.{StorageError, Db, ChannelStore}
use stargate.Store.Read
use stargate.Store.Opened.{empty_db}
use stargate.Channel.{Channel, World, ChannelHandler}
use stargate.Channel.Open.{Account, of_store}
use stargate.Channel.Start.{Past, bootstrap, started}

pub data WalletError : Type 0 where
  channel_not_exist peer_mismatch wrong_channel_address nothing_to_grant : WalletError
  already_travelling is_travel_txn already_enabled chain_error : WalletError
  channel_error : Error → WalletError
  storage_error : StorageError → WalletError

-- `channels`, the databases of those that are not running, and whether the actor stops
pub record Wallet : Type 0 where
  pub account : Account
  pub channel_enabled : Bool
  pub channels : Dict Channel
  pub sgdb : Dict Db
  pub stopping : Bool

-- The outside world at the time of one request to the wallet. `none` stands for an error.
pub record WalletWorld : Type 0 where
  pub world : World
  pub past : Past
  -- `AccountAddress::from(&BTreeSet)`
  pub address_of_set : List ℕ → ℕ
  -- the path of a participant's account resource in the channel, and its balance
  pub participant_path : ℕ → Bytes
  pub make_participant : Bytes → Option ℕ
  pub sequence_number : Option ℕ
  -- the gas of the transaction that enables channels, sent with that number and waited for
  pub enable : ℕ → Option ℕ

abbrev pub WalletHandler : Type 0 → Type 0
WalletHandler A = Handler Wallet WalletError A

abbrev pub from_channel : {A : Type 0} → Outcome Error A → Outcome WalletError A
from_channel (ok a) = ok a
from_channel (err e) = err (channel_error e)
from_channel panic = panic

-- a BTreeSet of two addresses, and the address that goes with it
abbrev pub pair_set : ℕ → ℕ → List ℕ
pair_set p1 p2 = if p1 == p2 then p1 ∷ [] else if ltb p1 p2 then p1 ∷ p2 ∷ [] else p2 ∷ p1 ∷ []

unfoldable pub generate_channel_address : WalletWorld → ℕ → ℕ → ℕ × List ℕ
generate_channel_address ww p1 p2 = (ww.address_of_set (pair_set p1 p2), pair_set p1 p2)

-- what is on the disk of a channel
unfoldable pub database : Wallet → ℕ → Db
database s a = elim (get s.channels a) [
  | some c ↦ c.store.db
  | none ↦ elim (get s.sgdb a) [ some db ↦ db | none ↦ empty_db ]
]

unfoldable pub put_db : ℕ → Db → Wallet → Wallet
put_db a db s = record s { sgdb = insert a db s.sgdb }

unfoldable pub put_channel : ℕ → Channel → Wallet → Wallet
put_channel a c s = record s { channels = insert a c s.channels }

unfoldable pub run_on : {A : Type 0} → ℕ → ChannelHandler A → Option Channel → WalletHandler A
run_on a m none s = (err channel_not_exist, s)
run_on a m (some c) s = (from_channel (m c).0, put_channel a (m c).1 s)

-- `get_channel`, and a message to the channel
unfoldable pub on_channel : {A : Type 0} → ℕ → ChannelHandler A → WalletHandler A
on_channel a m s = run_on a m (get s.channels a) s

module _ (ww : WalletWorld) where
  -- what `start` gives: an actor takes up what is pending by itself
  unfoldable pub begun : ℕ → Outcome Error (Unit {0}) × Channel → WalletHandler (Unit {0})
  begun a (ok _, c) s = (ok tt, put_channel a (started ww.world ww.past c).1 s)
  begun a (err e, c) s = (err (channel_error e), s)
  begun a (panic, c) s = (panic, s)

  unfoldable pub loaded : ℕ → Outcome StorageError Channel → WalletHandler (Unit {0})
  loaded a (ok c) s = begun a (bootstrap ww.world ww.past c) s
  loaded a (err e) s = (panic, s)
  loaded a panic s = (panic, s)

  unfoldable pub opened : ℕ → Outcome StorageError ChannelStore → WalletHandler (Unit {0})
  opened a (ok store) s = loaded a (of_store s.account a store) (put_db a store.db s)
  opened a (err e) s = (panic, s)
  opened a panic s = (panic, s)

  -- Wallet::spawn_channel; a channel that runs already is replaced
  unfoldable pub spawn_channel : ℕ → List ℕ → WalletHandler (Unit {0})
  spawn_channel a participants s =
      opened a (Read.new ww.world.h ww.world.disk_works participants (database s a)) s

  -- Actor::started, for the channels that the chain knows of; an error stops the wallet
  unfoldable pub start_all : List ℕ → WalletHandler (Unit {0})
  start_all [] s = (ok tt, s)
  start_all (a ∷ user_channels) s = elim (spawn_channel a [] s).0 [
    | ok _ ↦ start_all user_channels (spawn_channel a [] s).1
    | err e ↦ (ok tt, record (spawn_channel a [] s).1 { stopping = true })
    | panic ↦ (panic, (spawn_channel a [] s).1)
  ]

  unfoldable pub wallet_started : Option (List ℕ) → WalletHandler (Unit {0})
  wallet_started none = modify (λ s. record s { channel_enabled = false })
  wallet_started (some user_channels) = do
    modify (λ s. record s { channel_enabled = true })
    start_all user_channels

  -- Handler<EnableChannel>
  unfoldable pub enable_channel : WalletHandler ℕ
  enable_channel = do
    enabled ← gets (λ s. s.channel_enabled)
    lift (ensure (not enabled) already_enabled)
    seq_number ← lift (ok_or chain_error ww.sequence_number)
    gas_used ← lift (ok_or chain_error (ww.enable seq_number))
    modify (λ s. record s { channel_enabled = true })
    pure gas_used

unfoldable pub removed : ℕ → Option Channel → Wallet → Wallet
removed a none s = s
removed a (some c) s = record s {
  channels = remove a s.channels;
  sgdb = insert a c.store.db s.sgdb;
}

-- `channels.remove`: what Handler<StopChannel> and Handler<ChannelNotifyEvent> do
unfoldable pub remove_channel : ℕ → Wallet → Wallet
remove_channel a s = removed a (get s.channels a) s

-- the participants but oneself, by `retain`; there must be one
abbrev pub retain : ℕ → List ℕ → List ℕ
retain me [] = []
retain me (a ∷ participants) =
    let rest = retain me participants in if a == me then rest else a ∷ rest

abbrev pub the_one : List ℕ → Outcome WalletError ℕ
the_one (a ∷ []) = ok a
the_one _ = panic

abbrev pub insert_set : ℕ → List ℕ → List ℕ
insert_set a set = if contains set a then set else a ∷ set

add_peer : Outcome WalletError ℕ → Outcome WalletError (List ℕ) → Outcome WalletError (List ℕ)
add_peer (ok peer) (ok peers) = ok (insert_set peer peers)
add_peer _ _ = panic

unfoldable pub peers_of : List Channel → Outcome WalletError (List ℕ)
unfolding add_peer
peers_of [] = ok []
peers_of (c ∷ cs) =
    add_peer (the_one (retain c.stm.account_address c.stm.participant_addresses)) (peers_of cs)

-- Handler<GetAllChannels>
unfoldable pub get_all_channels : WalletHandler (List ℕ)
get_all_channels s = (peers_of (values s.channels), s)
