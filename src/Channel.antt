-- ===== src/Channel.antt =====
-- sgwallet/src/channel/mod.rs and channel.rs: the channel actor. This file has its state and what a
-- handler is given of the outside world; the handlers are in the modules below.
pub mod Persist
pub mod Negotiate
pub mod Kept
pub mod Open
pub mod Start
pub mod Durable
pub mod Chain
pub mod Recovery
pub mod Agreed
pub mod Applied
pub mod Handshake
use stargate.Common.{ℕ, Bool, true, false, Option, none, some, List, [], ◌∷◌, ◌++◌, if◌then◌else◌}
use stargate.Common.Outcome.{Outcome, ok, err, panic}
use stargate.Libra.{Bytes, Duration, SignedTransaction}
use stargate.Stm.{Error, storage, Externals, ChannelState, ChannelStm}
use stargate.Store.{Hashes, StorageError, ChannelStore}
use stargate.Store.Applier.{TxApplier}
use stargate.Common.Handler.{Handler}

-- What the channel sets going outside itself.
pub data Effect : Type 0 where
  submit_transaction : SignedTransaction → Effect
  watch_and_apply : (sender seq_number : ℕ) → Effect
  watch_events : (from_event : ℕ) → Effect
  watch_lock : (time_lock : ℕ) → Effect

pub record Channel : Type 0 where
  pub store : ChannelStore
  pub applier : TxApplier
  pub stm : ChannelStm
  pub stopping : Bool
  pub effects : List Effect

-- The outside world at the time of one message.
pub record World : Type 0 where
  pub x : Externals
  pub h : Hashes
  pub disk_works : Bool
  pub now : ℕ
  pub txn_expiration : Duration
  -- the chain's `get_account_state(address, Some(version))`
  pub account_state_at : ℕ → ℕ → Option ChannelState
  -- whether the chain takes a submitted transaction
  pub accepts : SignedTransaction → Bool
  -- libra's `core_code_address()` and `account_module_name()`
  pub core_code_address : ℕ
  pub account_module_name : Bytes
  -- `ChannelTransactionPayload::is_authorized`
  pub is_authorized : SignedTransaction → Bool

abbrev pub ChannelHandler : Type 0 → Type 0
ChannelHandler A = Handler Channel Error A

-- an error of the store, as the handlers pass it on
abbrev pub from_storage : {A : Type 0} → Outcome StorageError A → Outcome Error A
from_storage (ok a) = ok a
from_storage (err e) = err storage
from_storage panic = panic

unfoldable pub emit : Effect → Channel → Channel
emit e c = record c { effects = c.effects ++ e ∷ [] }
