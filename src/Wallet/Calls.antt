-- ===== src/Wallet/Calls.antt =====
-- sgwallet/src/wallet.rs: the requests to a wallet that concern one channel, and the ways in which they
-- change it. Wallet/Calls/Kept shows that what these ways keep, a request keeps.
pub mod Kept
pub mod Durable
pub mod Recovery
pub mod Frame
use stargate.Common.{
  ℕ, ◌≡◌, refl, sym, ap, arith, Bool, true, false, Option, none, some, List, [], ◌∷◌, ◌==◌, ltb,
  if◌then◌else◌,
}
use mathlib.Core.Path.{subst}
use stargate.Common.Outcome.{Outcome, ok, err, panic}
use stargate.Common.Handler.{
  Keeps, keeps_rules, ◌>>=◌, ◌>>◌, pure, lift, gets, modify, Keeps-bind, Keeps-lift,
  Keeps-gets-bind, Keeps-lift-bind,
}
use stargate.Libra.{TransactionArgument}
use stargate.Proposal.{
  ChannelOp, ChannelTransactionProposal, ChannelTransactionSigs, is_open, PendingTransaction,
}
use stargate.Proposal.Requests.{ChannelTransactionRequest, ChannelTransactionResponse, channel_txn}
use stargate.Channel.{ChannelHandler}
use stargate.Channel.Negotiate
use stargate.Channel.Persist
use stargate.Channel.Start.{watch_and_apply}
use stargate.Channel.Kept.{pending_txn-Keeps}
use stargate.Channel.Kept.Handlers.{
  execute-Keeps, collect-Keeps, grant-Keeps, cancel-Keeps, apply_pending_txn-Keeps,
}
use stargate.Channel.Start.Ready.{CanRestart, CanRestart-Kept, watch_and_apply-Keeps}
use stargate.Wallet.{
  Wallet, WalletWorld, WalletHandler, WalletError, generate_channel_address, on_channel,
  spawn_channel, remove_channel, pair_set,
}
use stargate.Wallet.Handle.{
  channel_with, execute_async, verify_txn, grant_or_cancel, grant_txn_request, approve_txn,
  reject_txn, cancel_pending_request, verify_txn_response, watch_travel, force_travel_txn,
  apply_txn, stop_channel, start_channel,
}
use stargate.Store.Read
use stargate.Wallet.Handle.{get_pending_txn}
use stargate.Wallet.{database}
use stargate.Wallet.Reads.{
  read_from, channel_sequence_number, channel_participant_account_resource,
  get_txn_by_channel_sequence_number,
}

pub data Call : Type 0 where
  propose : (participant : ℕ) → ChannelOp → List TransactionArgument → Call
  verify : (participant : ℕ) → ChannelTransactionRequest → Call
  approve reject cancel : (participant id : ℕ) → Call
  verify_response : (participant : ℕ) → ChannelTransactionResponse → Call
  apply force stop start : (participant : ℕ) → Call
  -- what is pending, the resource of an account, the sequence number and a transaction
  pending number : (participant : ℕ) → Call
  resource : (participant addr : ℕ) → Call
  transaction : (participant channel_seq_number : ℕ) → Call
  -- ChannelEvent::Stopped
  channel_stopped : (channel_address : ℕ) → Call

-- the wallet after a request
unfoldable pub call : WalletWorld → Call → Wallet → Wallet
call ww (propose p op args) s = (execute_async ww p op args s).1
call ww (verify p r) s = (verify_txn ww p r s).1
call ww (approve p id) s = (approve_txn ww p id s).1
call ww (reject p id) s = (reject_txn ww p id s).1
call ww (cancel p id) s = (cancel_pending_request ww p id s).1
call ww (verify_response p r) s = (verify_txn_response ww p r s).1
call ww (apply p) s = (apply_txn ww p s).1
call ww (force p) s = (force_travel_txn ww p s).1
call ww (stop p) s = (stop_channel ww p s).1
call ww (start p) s = (start_channel ww p s).1
call ww (pending p) s = (get_pending_txn ww p s).1
call ww (number p) s = (channel_sequence_number ww p s).1
call ww (resource p addr) s = (channel_participant_account_resource ww p addr s).1
call ww (transaction p n) s = (get_txn_by_channel_sequence_number ww p n s).1
call ww (channel_stopped a) s = remove_channel a s

-- the address of the channel between two accounts
abbrev pub channel_of : WalletWorld → ℕ → ℕ → ℕ
channel_of ww p me = ww.address_of_set (pair_set p me)

-- the channel that a request to the wallet of `me` concerns
abbrev pub concerns : WalletWorld → ℕ → Call → ℕ
concerns ww me (propose p _ _) = channel_of ww p me
concerns ww me (verify p r) = channel_of ww (channel_txn r).proposer me
concerns ww me (approve p _) = channel_of ww p me
concerns ww me (reject p _) = channel_of ww p me
concerns ww me (cancel p _) = channel_of ww p me
concerns ww me (verify_response p _) = channel_of ww p me
concerns ww me (apply p) = channel_of ww p me
concerns ww me (force p) = channel_of ww p me
concerns ww me (stop p) = channel_of ww p me
concerns ww me (start p) = channel_of ww me p
concerns ww me (pending p) = channel_of ww p me
concerns ww me (number p) = channel_of ww p me
concerns ww me (resource p _) = channel_of ww p me
concerns ww me (transaction p _) = channel_of ww me p
concerns ww me (channel_stopped a) = a

-- `P` outlasts each change of the channel at `a`
pub record Outlasts (ww : WalletWorld) (me a : ℕ) (P : Wallet → Type 0) : Type 1 where
  pub owner : (s : Wallet) → P s → s.account.address ≡ me
  pub messages :
      (A : Type 0) (m : ChannelHandler A) → Keeps (CanRestart ww.world) m → Keeps P (on_channel a m)
  pub spawns : (participants : List ℕ) → Keeps P (spawn_channel ww a participants)
  pub reads :
      (participants : List ℕ) (n : ℕ)
      → Keeps P (λ s.
        read_from ww a n (Read.new ww.world.h ww.world.disk_works participants (database s a)) s)
  pub removes : (s : Wallet) → P s → P (remove_channel a s)
