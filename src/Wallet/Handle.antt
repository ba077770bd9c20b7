-- ===== src/Wallet/Handle.antt =====
-- sgwallet/src/wallet.rs, WalletHandle: what the node asks of its wallet.
use stargate.Common.{ℕ, Bool, true, false, not, ◌&&◌, Option, none, some, List, ◌==◌, if◌then◌else◌}
use stargate.Common.Dict.{get, contains_key}
use stargate.Common.Outcome.{Outcome, ok, panic, ensure, expect, ok_or}
use stargate.Common.Handler.{◌>>=◌, ◌>>◌, pure, lift, gets, modify}
use stargate.Libra.{TransactionArgument}
use stargate.Proposal.{
  ChannelOp, is_open, ChannelTransactionProposal, ChannelTransactionSigs, PendingTransaction,
  is_negotiating,
}
use stargate.Proposal.Requests.{ChannelTransactionRequest, ChannelTransactionResponse, channel_txn}
use stargate.Channel.Start.{watch_and_apply}
use stargate.Channel.Persist
use stargate.Channel.Negotiate
use stargate.Wallet.{
  WalletWorld, WalletHandler, WalletError, peer_mismatch, wrong_channel_address, nothing_to_grant,
  already_travelling, generate_channel_address, on_channel, spawn_channel, remove_channel,
}

module _ (ww : WalletWorld) where
  -- the channel with a participant
  unfoldable pub channel_with : ℕ → WalletHandler ℕ
  channel_with participant = do
    me ← gets (λ s. s.account.address)
    pure (generate_channel_address ww participant me).0

  unfoldable pub execute_async :
      ℕ → ChannelOp → List TransactionArgument → WalletHandler ChannelTransactionRequest
  execute_async participant channel_op args = do
    me ← gets (λ s. s.account.address)
    let (channel_address, participants) = generate_channel_address ww participant me
    if is_open channel_op then spawn_channel ww channel_address participants else pure tt
    r ← on_channel channel_address (Negotiate.execute ww.world channel_op args)
    pure (record { proposal = r.0; channel_txn_sigs = r.1; travel = r.2.is_travel_txn })

  abbrev pub answer :
      ChannelTransactionProposal → Option ChannelTransactionSigs → Option ChannelTransactionResponse
  answer proposal none = none
  answer proposal (some sigs) = some (record { proposal = proposal; channel_txn_sigs = sigs })

  -- the receiver's check; without a response the user has to approve
  unfoldable pub verify_txn :
      ℕ → ChannelTransactionRequest → WalletHandler (Option ChannelTransactionResponse)
  verify_txn participant txn_request = do
    let txn = channel_txn txn_request
    lift (ensure (participant == txn.proposer) peer_mismatch)
    me ← gets (λ s. s.account.address)
    let (channel_address, participants) = generate_channel_address ww txn.proposer me
    lift (ensure (channel_address == txn.channel_address) wrong_channel_address)
    if is_open txn.operator then spawn_channel ww channel_address participants else pure tt
    sig_opt ← on_channel channel_address (
        Negotiate.collect_proposal_with_sigs ww.world txn_request.proposal
          txn_request.channel_txn_sigs)
    pure (answer txn_request.proposal sig_opt)

  unfoldable pub get_pending_txn : ℕ → WalletHandler (Option PendingTransaction)
  get_pending_txn participant = do
    channel_address ← channel_with participant
    on_channel channel_address Persist.pending_txn

  unfoldable pub grant_or_cancel :
      ℕ → ℕ → Bool → ChannelTransactionProposal → WalletHandler (Option ChannelTransactionResponse)
  grant_or_cancel channel_address id false proposal = do
    on_channel channel_address (Negotiate.cancel_pending_txn ww.world id)
    pure none
  grant_or_cancel channel_address id true proposal = do
    resp ← on_channel channel_address (Negotiate.grant_proposal ww.world id)
    pure (some (record { proposal = proposal; channel_txn_sigs = resp }))

  unfoldable pub grant_txn_request :
      ℕ → ℕ → Bool → WalletHandler (Option ChannelTransactionResponse)
  grant_txn_request participant id grant = do
    channel_address ← channel_with participant
    pending ← on_channel channel_address Persist.pending_txn
    p ← lift (ok_or nothing_to_grant pending)
    grant_or_cancel channel_address id grant p.proposal

  unfoldable pub approve_txn : ℕ → ℕ → WalletHandler ChannelTransactionResponse
  approve_txn participant id = do resp ← grant_txn_request participant id true; lift (expect resp)

  abbrev pub none_or_panic : {A : Type 0} → Option A → Outcome WalletError (Unit {0})
  none_or_panic none = ok tt
  none_or_panic (some _) = panic

  unfoldable pub reject_txn : ℕ → ℕ → WalletHandler (Unit {0})
  reject_txn participant id = do
    resp ← grant_txn_request participant id false
    lift (none_or_panic resp)

  unfoldable pub cancel_pending_request : ℕ → ℕ → WalletHandler (Unit {0})
  cancel_pending_request participant id = do
    channel_address ← channel_with participant
    on_channel channel_address (Negotiate.cancel_pending_txn ww.world id)

  unfoldable pub verify_txn_response : ℕ → ChannelTransactionResponse → WalletHandler (Unit {0})
  verify_txn_response participant txn_response = do
    channel_address ← channel_with participant
    on_channel channel_address (
        Negotiate.collect_proposal_with_sigs ww.world txn_response.proposal
          txn_response.channel_txn_sigs)
    pure tt

  unfoldable pub watch_travel : ℕ → Option (ℕ × ℕ) → WalletHandler ℕ
  watch_travel channel_address none = pure 0
  watch_travel channel_address (some (txn_sender, seq_number)) =
      on_channel channel_address (watch_and_apply ww.world ww.past txn_sender seq_number)

  unfoldable pub force_travel_txn : ℕ → WalletHandler ℕ
  force_travel_txn participant = do
    channel_address ← channel_with participant
    option_watch ← on_channel channel_address (Negotiate.apply_pending_txn ww.world)
    watch ← lift (ok_or already_travelling option_watch)
    watch_travel channel_address (some watch)

  -- `apply_txn`, whose response is not looked at
  unfoldable pub apply_txn : ℕ → WalletHandler ℕ
  apply_txn participant = do
    channel_address ← channel_with participant
    option_watch ← on_channel channel_address (Negotiate.apply_pending_txn ww.world)
    watch_travel channel_address option_watch

  abbrev pub waiting_for : ℕ → Option PendingTransaction → Option ChannelTransactionProposal
  waiting_for me none = none
  waiting_for me (some p) =
      if is_negotiating p
        && (not (contains_key p.signatures me) && not (p.proposal.channel_txn.proposer == me))
      then some p.proposal
      else none

  unfoldable pub get_waiting_proposal : ℕ → WalletHandler (Option ChannelTransactionProposal)
  get_waiting_proposal participant = do
    me ← gets (λ s. s.account.address)
    pending ← get_pending_txn participant
    pure (waiting_for me pending)

  abbrev pub request_of :
      PendingTransaction
      → Option ChannelTransactionSigs
      → Outcome WalletError (Option ChannelTransactionRequest)
  request_of p none = panic
  request_of p (some sigs) = ok (
      some (record {
        proposal = p.proposal;
        channel_txn_sigs = sigs;
        travel = p.output.is_travel_txn;
      }))

  -- the proposer's signatures are unwrapped, whoever the proposer is
  abbrev pub pending_request :
      Option PendingTransaction → Outcome WalletError (Option ChannelTransactionRequest)
  pending_request none = ok none
  pending_request (some p) =
      if is_negotiating p
      then request_of p (get p.signatures p.proposal.channel_txn.proposer)
      else ok none

  unfoldable pub get_pending_txn_request : ℕ → WalletHandler (Option ChannelTransactionRequest)
  get_pending_txn_request participant = do
    pending ← get_pending_txn participant
    lift (pending_request pending)

  unfoldable pub stop_channel : ℕ → WalletHandler (Unit {0})
  stop_channel participant = do
    channel_address ← channel_with participant
    modify (remove_channel channel_address)

  unfoldable pub start_channel : ℕ → WalletHandler (Unit {0})
  start_channel participant = do
    me ← gets (λ s. s.account.address)
    let (channel_address, ps) = generate_channel_address ww me participant
    spawn_channel ww channel_address ps
