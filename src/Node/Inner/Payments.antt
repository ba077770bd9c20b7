-- ===== src/Node/Inner/Payments.antt =====
-- node/node_internal/src/node.rs, NodeInner: how a node begins a payment.
pub mod Paying
use stargate.Common.{
  ℕ, Bool, true, false, Option, none, some, List, [], ◌∷◌, ◌==◌, ltb, if◌then◌else◌,
}
use stargate.Common.Outcome.{Outcome, ok, err, panic, ok_or}
use stargate.Common.Handler.{◌>>=◌, ◌>>◌, pure, fail, lift, gets}
use stargate.Libra.{Bytes}
use stargate.Messages
use stargate.Messages.Errors.{balance_not_enough, not_path}
use stargate.Messages.Hops.{NextHop, MultiHopChannelRequest}
use stargate.Proposal.Requests.{ChannelTransactionRequest, request_id}
use stargate.Router.Paths.{BalanceQueryResponse}
use stargate.Router.Stats.{paying}
use stargate.Wallet.Actions.{send_payment, transfer}
use stargate.Node.Inner.{
  NodeWorld, NodeInner, NodeHandler, NodeError, Response, sg_error, few_hops, no_balances,
  not_my_path, on_wallet, attempt, send_channel_request, send_multi_hop_channel_request, send_stats,
}

unfoldable pub check_balance : List BalanceQueryResponse → ℕ → Bool
check_balance [] amount = true
check_balance (response ∷ path) amount =
    if ltb response.local_balance amount then false else check_balance path amount

abbrev pub remote_addrs : List BalanceQueryResponse → List ℕ
remote_addrs [] = []
remote_addrs (response ∷ response_list) = response.remote_addr ∷ remote_addrs response_list

unfoldable pub balance_response_to_address : List BalanceQueryResponse → Outcome NodeError (List ℕ)
balance_response_to_address [] = err no_balances
balance_response_to_address (r ∷ response_list) =
    ok (r.local_addr ∷ remote_addrs (r ∷ response_list))

-- the loop over the vertexes, each with the whole amount
abbrev pub hops_of : ℕ → List ℕ → List NextHop
hops_of amount [] = []
hops_of amount (a ∷ vertexes) =
    record { remote_addr = a; amount = amount } ∷ hops_of amount vertexes

module _ (nw : NodeWorld) where
  unfoldable pub hop_request :
      Bool → ℕ → List ℕ → ℕ → Bytes → ℕ → NodeHandler (MultiHopChannelRequest × ℕ)
  hop_request false receiver vertexes amount hash_lock timeout = fail not_my_path
  hop_request true receiver vertexes amount hash_lock timeout = do
    request ← on_wallet (send_payment nw.ww receiver amount hash_lock timeout)
    pure (record { request = request; hops = hops_of amount vertexes }, receiver)

  unfoldable pub get_multi_hop_request :
      List ℕ → ℕ → Bytes → ℕ → NodeHandler (MultiHopChannelRequest × ℕ)
  get_multi_hop_request (first_addr ∷ receiver ∷ vertexes) amount hash_lock timeout = do
    me ← gets (λ s. s.wallet.account.address)
    hop_request (me == first_addr) receiver vertexes amount hash_lock timeout
  get_multi_hop_request [] amount hash_lock timeout = fail few_hops
  get_multi_hop_request (_ ∷ []) amount hash_lock timeout = fail few_hops

  -- the responder's message for a request that was made or not
  unfoldable pub sent_hops : Response (MultiHopChannelRequest × ℕ) → NodeHandler (Response ℕ)
  sent_hops (ok (message, next_addr)) = attempt (
      send_multi_hop_channel_request nw next_addr message
        Messages.multi_hop_channel_transaction_request)
  sent_hops (err e) = pure (err e)
  sent_hops panic = lift panic

  unfoldable pub pay_along :
      Bool → ℕ → ℕ → List BalanceQueryResponse → ℕ → Bytes → ℕ → NodeHandler (Response ℕ)
  pay_along false me receiver path amount hash_lock timeout = pure (
      err (
        sg_error (record {
          error_code = balance_not_enough;
          error_message = nw.balance_text me receiver;
        })))
  pay_along true me receiver path amount hash_lock timeout = do
    vertexes ← lift (balance_response_to_address path)
    r ← attempt (get_multi_hop_request vertexes amount hash_lock timeout)
    sent_hops r

  unfoldable pub pay_on_path :
      ℕ → ℕ → Option (List BalanceQueryResponse) → ℕ → Bytes → ℕ → NodeHandler (Response ℕ)
  pay_on_path me receiver none amount hash_lock timeout =
      pure (
        err (sg_error (record { error_code = not_path; error_message = nw.path_text me receiver })))
  pay_on_path me receiver (some path) amount hash_lock timeout =
      pay_along (check_balance path amount) me receiver path amount hash_lock timeout

  unfoldable pub off_chain_pay_htlc : ℕ → ℕ → Bytes → ℕ → NodeHandler (Response ℕ)
  off_chain_pay_htlc receiver amount hash_lock timeout = do
    me ← gets (λ s. s.wallet.account.address)
    send_stats nw (me, receiver)
        (record { hash_value = nw.sha3 hash_lock; amount = amount; kind = paying })
    pay_on_path me receiver (nw.find_path_by_addr me receiver) amount hash_lock timeout

  unfoldable pub paid : ℕ → ℕ → Response ChannelTransactionRequest → NodeHandler (Response ℕ)
  paid receiver_address amount (ok request) = do
    me ← gets (λ s. s.wallet.account.address)
    send_stats nw (me, receiver_address)
        (record {
          hash_value = request_id nw.ww.world.x.txn_hash request;
          amount = amount;
          kind = paying;
        })
    attempt (send_channel_request nw receiver_address request Messages.channel_transaction_request)
  paid receiver_address amount (err e) = pure (err e)
  paid receiver_address amount panic = lift panic

  unfoldable pub off_chain_pay : ℕ → ℕ → NodeHandler (Response ℕ)
  off_chain_pay receiver_address amount = do
    r ← attempt (on_wallet (transfer nw.ww receiver_address amount))
    paid receiver_address amount r
