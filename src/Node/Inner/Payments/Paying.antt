-- ===== src/Node/Inner/Payments/Paying.antt =====
-- node/node_internal/src/node.rs: what a payment over several hops does.
use stargate.Common.{
  ℕ, ◌≡◌, ◌≤◌, ◌<◌, refl, ◌∙◌, ap, arith, true, false, some, List, [], ◌∷◌, ◌++◌, All, ==-self,
}
use stargate.Common.Outcome.{ok, err, ensure}
use stargate.Common.Handler.{pure, gets, modify, run-bind, run-lift}
use stargate.Libra.{Bytes}
use stargate.Messages
use stargate.Messages.Errors.{balance_not_enough}
use stargate.Messages.Hops.{MultiHopChannelRequest}
use stargate.Proposal.Requests.{ChannelTransactionRequest}
use stargate.Router.Paths.{BalanceQueryResponse}
use stargate.Router.Stats.{paying}
use stargate.Wallet.{Wallet}
use stargate.Wallet.Actions.{send_payment}
use stargate.Node.Wire.{add_message_type}
use stargate.Node.Inner.{NodeWorld, NodeInner, sg_error, queue_closed, on_wallet, send_stats}
use stargate.Node.Inner.Sending.{send_multi_hop-runs, attempted, on_wallet-runs}
use stargate.Node.Inner.Payments.{
  check_balance, balance_response_to_address, remote_addrs, hops_of, hop_request,
  get_multi_hop_request, sent_hops, pay_along, pay_on_path, off_chain_pay_htlc,
}

enough :
    (path : List BalanceQueryResponse) (amount : ℕ)
    → All (λ b. amount ≤ b.local_balance) path
    → check_balance path amount ≡ true
unfolding check_balance
enough [] amount all = refl
enough (b ∷ path) amount all = ground (arith, enough path amount all.1, all.0)

short_of :
    (front back : List BalanceQueryResponse) (b : BalanceQueryResponse) (amount : ℕ)
    → b.local_balance < amount
    → check_balance (front ++ b ∷ back) amount ≡ false
unfolding check_balance
short_of [] back b amount low = ground (arith, low)
short_of (c ∷ front) back b amount low = ground (arith, short_of front back b amount low)

-- the statistics are told first, of the hash lock's own hash
abbrev counted : NodeWorld → NodeInner → ℕ → ℕ → Bytes → NodeInner
counted nw s receiver amount hash_lock = record s {
  stats =
      s.stats
      ++ (
        (s.wallet.account.address, receiver),
        record { hash_value = nw.sha3 hash_lock; amount = amount; kind = paying },
      )
        ∷ [];
}

module _ (nw : NodeWorld) (s : NodeInner) (receiver amount : ℕ) (hash_lock : Bytes) (timeout : ℕ)
    (stats : nw.stats_reads ≡ true) where
  counts :
      off_chain_pay_htlc nw receiver amount hash_lock timeout s
      ≡ pay_on_path nw s.wallet.account.address receiver
          (nw.find_path_by_addr s.wallet.account.address receiver)
          amount
          hash_lock
          timeout
          (counted nw s receiver amount hash_lock)
  unfolding off_chain_pay_htlc send_stats gets modify
  counts =
      run-bind _ _ s refl ∙ run-bind _ _ s (run-lift _ _ s (ap (λ b. ensure b queue_closed) stats))

  -- A payment over a path on which some balance is too small, wherever it is on the path, is answered
  -- with BALANCE_NOT_ENOUGH: the wallet is as it was, and nothing is sent.
  pub refuses :
      (front back : List BalanceQueryResponse) (b : BalanceQueryResponse)
      → nw.find_path_by_addr s.wallet.account.address receiver ≡ some (front ++ b ∷ back)
      → b.local_balance < amount
      → off_chain_pay_htlc nw receiver amount hash_lock timeout s ≡ (
        ok (
            err (
              sg_error (record {
                error_code = balance_not_enough;
                error_message = nw.balance_text s.wallet.account.address receiver;
              }))),
        counted nw s receiver amount hash_lock,
      )
  unfolding pay_on_path pay_along pure
  refuses front back b found low = counts ∙ rw (found, short_of front back b amount low) refl

  module _ (r : BalanceQueryResponse) (rs : List BalanceQueryResponse)
      (request : ChannelTransactionRequest) (w : Wallet)
      (mine : r.local_addr ≡ s.wallet.account.address)
      (proposed : send_payment nw.ww r.remote_addr amount hash_lock timeout s.wallet
        ≡ (ok request, w)) where
    abbrev along : MultiHopChannelRequest
    along = record { request = request; hops = hops_of amount (remote_addrs rs) }

    abbrev after : NodeInner
    after = record (counted nw s receiver amount hash_lock) { wallet = w }

    asks :
        get_multi_hop_request nw
          (r.local_addr ∷ r.remote_addr ∷ remote_addrs rs)
          amount
          hash_lock
          timeout
          (counted nw s receiver amount hash_lock)
        ≡ (ok (along, r.remote_addr), after)
    unfolding get_multi_hop_request gets hop_request on_wallet pure
    asks =
        run-bind _ _ _ refl
        ∙ rw (mine, ==-self s.wallet.account.address)
            (run-bind _ _ _ (
              on_wallet-runs (send_payment nw.ww r.remote_addr amount hash_lock timeout)
                (counted nw s receiver amount hash_lock) proposed))

    -- A payment over a path that the router finds, which begins at the node itself and on which every
    -- balance is large enough, when the wallet proposes the payment to the first hop and the queues
    -- are read: the user gets a new future, the wallet holds the proposal, and what is sent is one
    -- message, to the first hop, with the proposal and the other hops in the order of the path, each
    -- with the whole amount.
    pub pays :
        nw.network_reads ≡ true
        → nw.find_path_by_addr s.wallet.account.address receiver ≡ some (r ∷ rs)
        → All (λ b. amount ≤ b.local_balance) (r ∷ rs)
        → (t : NodeInner) × (off_chain_pay_htlc nw receiver amount hash_lock timeout s
            ≡ (ok (ok s.message_processor.next), t))
          × (t.wallet ≡ w)
          × (t.sent
              ≡ s.sent
                ++ record {
                  peer_id = r.remote_addr;
                  bytes =
                      add_message_type
                        (nw.multi_hop.into_proto_bytes along)
                        Messages.multi_hop_channel_transaction_request;
                }
                  ∷ [])
    unfolding pay_on_path pay_along balance_response_to_address sent_hops
    pays reads found all =
        let (t, runs, sent) =
          send_multi_hop-runs nw r.remote_addr along Messages.multi_hop_channel_transaction_request
            after reads in
        (
          t,
          counts
              ∙ rw (found, enough (r ∷ rs) amount all)
                  (run-lift _ _ _ refl
                    ∙ run-bind _ _ _ (attempted _ _ asks)
                    ∙ attempted _ after runs),
          sent.wallet,
          sent.message,
        )
