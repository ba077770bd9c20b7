-- ===== src/Wallet/Calls/Kept.antt =====
-- sgwallet/src/wallet.rs: what the ways to change a channel keep, a request that concerns it keeps.
use stargate.Common.{ℕ, sym, Bool, true, false, Option, none, some, List}
use mathlib.Core.Path.{subst}
use stargate.Common.Handler.{Keeps, keeps_rules, ◌>>=◌, pure, gets, modify, Keeps-bind, Keeps-lift}
use stargate.Libra.{TransactionArgument}
use stargate.Proposal.{ChannelOp, ChannelTransactionProposal, ChannelTransactionSigs}
use stargate.Proposal.Requests.{ChannelTransactionRequest, ChannelTransactionResponse, channel_txn}
use stargate.Channel.Negotiate
use stargate.Channel.Persist
use stargate.Channel.Start.{watch_and_apply}
use stargate.Channel.Kept.{pending_txn-Keeps}
use stargate.Channel.Kept.Handlers.{
  execute-Keeps, collect-Keeps, grant-Keeps, cancel-Keeps, apply_pending_txn-Keeps,
}
use stargate.Channel.Start.Ready.{CanRestart, CanRestart-Kept, watch_and_apply-Keeps}
use stargate.Wallet.{
  Wallet, WalletWorld, WalletHandler, WalletError, generate_channel_address, on_channel,
  spawn_channel, remove_channel, pair_set,
}
use stargate.Libra.{AccessPath}
use stargate.Channel.{World}
use stargate.Store.Read
use stargate.Wallet.{database}
use stargate.Wallet.Reads.{
  read_from, channel_sequence_number, channel_participant_account_resource,
  get_txn_by_channel_sequence_number,
}
use stargate.Wallet.Calls.{
  Call, call, channel_of, concerns, Outlasts, propose, verify, approve, reject, cancel,
  verify_response, apply, force, stop, start, pending, number, resource, transaction,
  channel_stopped,
}
use stargate.Wallet.Handle.{get_pending_txn}
use stargate.Wallet.Handle.{
  channel_with, execute_async, verify_txn, grant_or_cancel, grant_txn_request, approve_txn,
  reject_txn, cancel_pending_request, verify_txn_response, watch_travel, force_travel_txn,
  apply_txn, stop_channel, start_channel,
}

accessing-Keeps :
    (w : World) (path : AccessPath) → Keeps (CanRestart w) (Negotiate.accessing_resource w path)
unfolding Negotiate.accessing_resource
accessing-Keeps w path = search keeps_rules

module _ (ww : WalletWorld) (me a : ℕ) {P : Wallet → Type 0} (o : Outlasts ww me a P) where
  -- code that begins by reading the owner's address
  Keeps-me :
      {A : Type 0} (f : ℕ → WalletHandler A)
      → Keeps P (f me)
      → Keeps P (gets (λ s. s.account.address) >>= f)
  unfolding ◌>>=◌ gets
  Keeps-me f k = record {
    at = λ s h. subst (λ (n : ℕ). P (f n s).1) (sym (o.owner s h)) (k.at s h);
  }

  execute-kept :
      (op : ChannelOp) (args : List TransactionArgument)
      → Keeps P (on_channel a (Negotiate.execute ww.world op args))
  execute-kept op args = o.messages _ _ (execute-Keeps ww.world (CanRestart-Kept ww.world) op args)

  collect-kept :
      (p : ChannelTransactionProposal) (sigs : ChannelTransactionSigs)
      → Keeps P (on_channel a (Negotiate.collect_proposal_with_sigs ww.world p sigs))
  collect-kept p sigs = o.messages _ _ (collect-Keeps ww.world (CanRestart-Kept ww.world) p sigs)

  grant-kept : (id : ℕ) → Keeps P (on_channel a (Negotiate.grant_proposal ww.world id))
  grant-kept id = o.messages _ _ (grant-Keeps ww.world (CanRestart-Kept ww.world) id)

  cancel-kept : (id : ℕ) → Keeps P (on_channel a (Negotiate.cancel_pending_txn ww.world id))
  cancel-kept id = o.messages _ _ (cancel-Keeps ww.world (CanRestart-Kept ww.world) id)

  apply-kept : Keeps P (on_channel a (Negotiate.apply_pending_txn ww.world))
  apply-kept = o.messages _ _ (apply_pending_txn-Keeps ww.world (CanRestart-Kept ww.world))

  watch-kept : (sender n : ℕ) → Keeps P (on_channel a (watch_and_apply ww.world ww.past sender n))
  watch-kept sender n =
      o.messages _ _ (watch_and_apply-Keeps ww.world ww.past (CanRestart-Kept ww.world) sender n)

  accessing-kept :
      (path : AccessPath) → Keeps P (on_channel a (Negotiate.accessing_resource ww.world path))
  accessing-kept path = o.messages _ _ (accessing-Keeps ww.world path)

  pending-kept : Keeps P (on_channel a Persist.pending_txn)
  pending-kept = o.messages _ _ (pending_txn-Keeps ww.world (CanRestart-Kept ww.world))

  remove-kept : Keeps {E = WalletError} P (modify (remove_channel a))
  unfolding modify
  remove-kept = record { at = o.removes }

  spawn-kept : (participants : List ℕ) → Keeps P (spawn_channel ww a participants)
  spawn-kept = o.spawns

  ruleset messages_kept = (
    keeps_rules, execute-kept, collect-kept, grant-kept, cancel-kept, apply-kept, watch-kept,
    pending-kept, spawn-kept, accessing-kept,
  )

  watch_travel-kept : (o : Option (ℕ × ℕ)) → Keeps P (watch_travel ww a o)
  unfolding watch_travel
  watch_travel-kept none = search keeps_rules
  watch_travel-kept (some (sender, n)) = watch-kept sender n

  grant_or_cancel-kept :
      (id : ℕ) (grant : Bool) (p : ChannelTransactionProposal)
      → Keeps P (grant_or_cancel ww a id grant p)
  unfolding grant_or_cancel
  grant_or_cancel-kept id false p = search messages_kept
  grant_or_cancel-kept id true p = search messages_kept

module _ (ww : WalletWorld) (me p : ℕ) {P : Wallet → Type 0}
    (o : Outlasts ww me (channel_of ww p me) P) where
  -- ... or by computing the address of the channel with `p`
  Keeps-channel :
      {A : Type 0} (f : ℕ → WalletHandler A)
      → Keeps P (f (channel_of ww p me))
      → Keeps P (channel_with ww p >>= f)
  unfolding channel_with generate_channel_address ◌>>=◌ gets pure
  Keeps-channel f k = record {
    at = λ s h. subst (λ (n : ℕ). P (f (channel_of ww p n) s).1) (sym (o.owner s h)) (k.at s h);
  }

  execute_async-kept :
      (op : ChannelOp) (args : List TransactionArgument) → Keeps P (execute_async ww p op args)
  unfolding execute_async generate_channel_address
  execute_async-kept op args = Keeps-me ww me _ o _ (search messages_kept depth 20)

  grant_txn_request-kept : (id : ℕ) (grant : Bool) → Keeps P (grant_txn_request ww p id grant)
  unfolding grant_txn_request
  grant_txn_request-kept id grant =
      Keeps-channel _ (search (messages_kept, grant_or_cancel-kept) depth 20)

  approve_txn-kept : (id : ℕ) → Keeps P (approve_txn ww p id)
  unfolding approve_txn
  approve_txn-kept id = search (keeps_rules, grant_txn_request-kept)

  reject_txn-kept : (id : ℕ) → Keeps P (reject_txn ww p id)
  unfolding reject_txn
  reject_txn-kept id = search (keeps_rules, grant_txn_request-kept)

  cancel_pending_request-kept : (id : ℕ) → Keeps P (cancel_pending_request ww p id)
  unfolding cancel_pending_request
  cancel_pending_request-kept id = Keeps-channel _ (cancel-kept ww me _ o id)

  verify_txn_response-kept : (r : ChannelTransactionResponse) → Keeps P (verify_txn_response ww p r)
  unfolding verify_txn_response
  verify_txn_response-kept r = Keeps-channel _ (search messages_kept depth 20)

  force_travel_txn-kept : Keeps P (force_travel_txn ww p)
  unfolding force_travel_txn
  force_travel_txn-kept = Keeps-channel _ (search (messages_kept, watch_travel-kept) depth 20)

  apply_txn-kept : Keeps P (apply_txn ww p)
  unfolding apply_txn
  apply_txn-kept = Keeps-channel _ (search (messages_kept, watch_travel-kept) depth 20)

  stop_channel-kept : Keeps P (stop_channel ww p)
  unfolding stop_channel
  stop_channel-kept = Keeps-channel _ (remove-kept ww me _ o)

module _ (ww : WalletWorld) (me p : ℕ) {P : Wallet → Type 0}
    (o : Outlasts ww me (channel_of ww p me) P) where
  get_pending_txn-kept : Keeps P (get_pending_txn ww p)
  unfolding get_pending_txn
  get_pending_txn-kept = Keeps-channel ww me p o _ (pending-kept ww me _ o)

  channel_sequence_number-kept : Keeps P (channel_sequence_number ww p)
  unfolding channel_sequence_number
  channel_sequence_number-kept = Keeps-channel ww me p o _ (search messages_kept depth 20)

  resource-kept : (addr : ℕ) → Keeps P (channel_participant_account_resource ww p addr)
  unfolding channel_participant_account_resource
  resource-kept addr = Keeps-channel ww me p o _ (search messages_kept depth 20)

transaction-kept :
    (ww : WalletWorld) (me p n : ℕ) {P : Wallet → Type 0}
    → Outlasts ww me (channel_of ww me p) P
    → Keeps P (get_txn_by_channel_sequence_number ww p n)
unfolding get_txn_by_channel_sequence_number generate_channel_address
transaction-kept ww me p n {P} o = record {
  at = λ s h.
      subst
        (λ (m : ℕ).
          P
            (read_from ww (channel_of ww m p) n
              (Read.new ww.world.h ww.world.disk_works (pair_set m p)
                (database s (channel_of ww m p)))
              s).1)
        (sym (o.owner s h)) ((o.reads _ n).at s h);
}

verify_txn-kept :
    (ww : WalletWorld) (me q : ℕ) (r : ChannelTransactionRequest) {P : Wallet → Type 0}
    → Outlasts ww me (channel_of ww (channel_txn r).proposer me) P
    → Keeps P (verify_txn ww q r)
unfolding verify_txn generate_channel_address
verify_txn-kept ww me q r o =
    Keeps-bind _ _ (Keeps-lift _) (λ _. Keeps-me ww me _ o _ (search messages_kept depth 20))

start_channel-kept :
    (ww : WalletWorld) (me p : ℕ) {P : Wallet → Type 0}
    → Outlasts ww me (channel_of ww me p) P
    → Keeps P (start_channel ww p)
unfolding start_channel generate_channel_address
start_channel-kept ww me p o = Keeps-me ww me _ o _ (spawn-kept ww me _ o _)

-- What the ways to change the channel that a request concerns keep, the request keeps.
pub call-kept :
    (ww : WalletWorld) (me : ℕ) (r : Call) {P : Wallet → Type 0}
    → Outlasts ww me (concerns ww me r) P
    → (s : Wallet) → P s
    → P (call ww r s)
unfolding call
call-kept ww me (propose p op args) o = (execute_async-kept ww me p o op args).at
call-kept ww me (verify p r) o = (verify_txn-kept ww me p r o).at
call-kept ww me (approve p id) o = (approve_txn-kept ww me p o id).at
call-kept ww me (reject p id) o = (reject_txn-kept ww me p o id).at
call-kept ww me (cancel p id) o = (cancel_pending_request-kept ww me p o id).at
call-kept ww me (verify_response p r) o = (verify_txn_response-kept ww me p o r).at
call-kept ww me (apply p) o = (apply_txn-kept ww me p o).at
call-kept ww me (force p) o = (force_travel_txn-kept ww me p o).at
call-kept ww me (stop p) o = (stop_channel-kept ww me p o).at
call-kept ww me (start p) o = (start_channel-kept ww me p o).at
call-kept ww me (pending p) o = (get_pending_txn-kept ww me p o).at
call-kept ww me (number p) o = (channel_sequence_number-kept ww me p o).at
call-kept ww me (resource p addr) o = (resource-kept ww me p o addr).at
call-kept ww me (transaction p n) o = (transaction-kept ww me p n o).at
call-kept ww me (channel_stopped a) o = o.removes
