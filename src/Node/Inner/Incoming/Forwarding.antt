-- ===== src/Node/Inner/Incoming/Forwarding.antt =====
-- node/node_internal/src/node.rs: a payment on its way over a node.
use stargate.Common.{ℕ, ◌≡◌, ◌∙◌, ap, true, some, List, [], ◌∷◌, ◌++◌}
use stargate.Common.Dict.{get, insert, get-insert_self}
use stargate.Common.Outcome.{Outcome, ok, err, ok_or}
use stargate.Common.Handler.{pure, modify, run-bind, run-lift}
use stargate.Libra.{Bytes}
use stargate.Invoice.{get_previous_hop, add_previous_hop}
use stargate.Messages
use stargate.Messages.Hops.{NextHop, MultiHopChannelRequest}
use stargate.Proposal.Requests.{ChannelTransactionRequest, channel_txn, request_id}
use stargate.Wallet.{Wallet, WalletError}
use stargate.Wallet.Handle.{verify_txn}
use stargate.Wallet.Actions.{send_payment}
use stargate.Wallet.Htlc.{HtlcPayment, is_htlc_transfer, parse_htlc_payment}
use stargate.Node.Futures.{drop_future}
use stargate.Node.Wire.{add_message_type}
use stargate.Node.Inner.{
  NodeWorld, NodeInner, NodeError, NetworkMessage, wallet_error, bad_bytes, on_wallet, attempt,
  caught, from_wallet, unwrap, or_panic, send_error, error_bytes, dropped,
}
use stargate.Node.Inner.Sending.{send-runs, send_multi_hop-runs, on_wallet-runs}
use stargate.Node.Inner.Incoming.{
  from_htlc, verified, answered, handle_channel_transaction_request, forward, next_hop,
  handle_multi_hop_receiver_channel,
}

-- what a message to a peer is
abbrev pub to_peer : ℕ → Bytes → List NetworkMessage
to_peer peer_id bytes = record { peer_id = peer_id; bytes = bytes } ∷ []

module _ (nw : NodeWorld) (reads : nw.network_reads ≡ true) (peer_id : ℕ) where
  told :
      (request : ChannelTransactionRequest) (s : NodeInner) (e : WalletError) (v : Wallet)
      → verify_txn nw.ww peer_id request s.wallet ≡ (err e, v)
      → handle_channel_transaction_request nw peer_id request s ≡ (
        ok tt,
        record s {
          wallet = v;
          sent =
              s.sent
              ++ to_peer peer_id
                  (error_bytes nw (wallet_error e) (request_id nw.ww.world.x.txn_hash request));
        },
      )
  unfolding handle_channel_transaction_request verified answered attempt on_wallet send_error unwrap
      pure
  told request s e v refused =
      run-bind _ _ s (
        ap
          (λ (q : Outcome _ _ × Wallet).
            (caught (from_wallet q.0, record s { wallet = q.1 }), record s { wallet = q.1 }))
          refused)
      ∙ run-bind _ _ _ (
          run-bind _ _ _ (
            ap (λ (q : Outcome NodeError (Unit {0}) × NodeInner). (or_panic q.0, q.1))
              (send-runs nw peer_id _ (record s { wallet = v }) reads)))

  module _ (hop : NextHop) (hops : List NextHop) (payment : HtlcPayment)
      (request : ChannelTransactionRequest) (w : Wallet) (s : NodeInner)
      (proposed : send_payment nw.ww hop.remote_addr hop.amount
          (nw.c.hash_to_vec payment.hash_lock)
          payment.timeout
          s.wallet
        ≡ (ok request, w)) where
    abbrev onwards : MultiHopChannelRequest
    onwards = record { request = request; hops = hops }

    -- what is passed on, and the previous hop that is kept
    forwards :
        (t : NodeInner) × (forward nw peer_id hop hops payment s ≡ (ok tt, t))
        × (t.sent
            ≡ s.sent
              ++ to_peer hop.remote_addr (
                  add_message_type
                    (nw.multi_hop.into_proto_bytes onwards)
                    Messages.multi_hop_channel_transaction_request))
        × (t.wallet ≡ w)
        × ((preimage : ℕ)
            → nw.c.from_sha3_256 preimage ≡ payment.hash_lock
            → get_previous_hop nw.c t.invoice_mgr preimage ≡ some peer_id)
    unfolding forward dropped modify get_previous_hop add_previous_hop
    forwards =
        let (t, runs, sent) =
          send_multi_hop-runs nw hop.remote_addr onwards
            Messages.multi_hop_channel_transaction_request (record s { wallet = w }) reads in
        (
          record t {
            message_processor = drop_future t.message_processor s.message_processor.next;
            invoice_mgr = add_previous_hop nw.c t.invoice_mgr payment.hash_lock peer_id;
          },
          run-bind _ _ s (
                on_wallet-runs
                  (send_payment nw.ww hop.remote_addr hop.amount
                    (nw.c.hash_to_vec payment.hash_lock) payment.timeout)
                  s proposed)
              ∙ run-bind _ _ _ (run-bind _ _ _ runs),
          sent.message,
          sent.wallet,
          λ preimage opens.
              ap (get (insert payment.hash_lock peer_id t.invoice_mgr.r_hash_previous_hop_map))
                opens
              ∙ get-insert_self payment.hash_lock peer_id t.invoice_mgr.r_hash_previous_hop_map,
        )

  module _ (data_bytes : Bytes) (message : MultiHopChannelRequest) (hop : NextHop)
      (hops : List NextHop) (payment : HtlcPayment) (request : ChannelTransactionRequest)
      (s u : NodeInner) (w : Wallet)
      (read : nw.multi_hop.from_proto_bytes data_bytes ≡ some message)
      (further : message.hops ≡ hop ∷ hops)
      (is_payment : is_htlc_transfer (channel_txn message.request).operator ≡ true)
      (of_args : parse_htlc_payment nw.from_slice (channel_txn message.request).args ≡ ok payment)
      (proposed : send_payment nw.ww hop.remote_addr hop.amount
          (nw.c.hash_to_vec payment.hash_lock)
          payment.timeout
          u.wallet
        ≡ (ok request, w)) where
    -- A payment that has further hops, once the request of the previous hop is dealt with: the node
    -- proposes a payment with the same hash lock and the same timeout to the next hop, sends it there
    -- with the hops that are left, and keeps the previous hop under that hash lock.
    pub passes_on :
        handle_channel_transaction_request nw peer_id message.request s ≡ (ok tt, u)
        → (t : NodeInner) × (handle_multi_hop_receiver_channel nw data_bytes peer_id s ≡ (ok tt, t))
          × (t.sent
              ≡ u.sent
                ++ to_peer hop.remote_addr (
                    add_message_type
                      (nw.multi_hop.into_proto_bytes (record { request = request; hops = hops }))
                      Messages.multi_hop_channel_transaction_request))
          × (t.wallet ≡ w)
          × ((preimage : ℕ)
              → nw.c.from_sha3_256 preimage ≡ payment.hash_lock
              → get_previous_hop nw.c t.invoice_mgr preimage ≡ some peer_id)
    unfolding handle_multi_hop_receiver_channel next_hop
    passes_on handled =
        let (t, runs, sent, same, kept) = forwards hop hops payment request w u proposed in
        (
          t,
          run-lift _ _ s (ap (ok_or bad_bytes) read)
              ∙ run-bind _ _ s handled
              ∙ rw (further, is_payment) (run-lift _ _ u (ap from_htlc of_args) ∙ runs),
          sent,
          same,
          kept,
        )

  -- A payment that the wallet refuses, with further hops: the previous hop is told of the error, and
  -- the payment is proposed to the next hop and sent on all the same.
  pub refused_passes_on :
      (data_bytes : Bytes) (message : MultiHopChannelRequest) (hop : NextHop) (hops : List NextHop)
      (payment : HtlcPayment) (request : ChannelTransactionRequest) (s : NodeInner) (v w : Wallet)
      (e : WalletError)
      → nw.multi_hop.from_proto_bytes data_bytes ≡ some message
      → message.hops ≡ hop ∷ hops
      → is_htlc_transfer (channel_txn message.request).operator ≡ true
      → parse_htlc_payment nw.from_slice (channel_txn message.request).args ≡ ok payment
      → verify_txn nw.ww peer_id message.request s.wallet ≡ (err e, v)
      → send_payment nw.ww hop.remote_addr hop.amount
          (nw.c.hash_to_vec payment.hash_lock)
          payment.timeout
          v
        ≡ (ok request, w)
      → (t : NodeInner) × (handle_multi_hop_receiver_channel nw data_bytes peer_id s ≡ (ok tt, t))
        × (t.sent
            ≡ (s.sent
                ++ to_peer peer_id (
                    error_bytes nw
                      (wallet_error e)
                      (request_id nw.ww.world.x.txn_hash message.request)))
              ++ to_peer hop.remote_addr (
                  add_message_type
                    (nw.multi_hop.into_proto_bytes (record { request = request; hops = hops }))
                    Messages.multi_hop_channel_transaction_request))
  refused_passes_on data_bytes message hop hops payment request s v w e read further is_payment
        of_args refused proposed =
      let (t, runs, sent, same, kept) =
        passes_on data_bytes message hop hops payment request s _ w read further is_payment of_args
          proposed (told message.request s e v refused) in
      (t, runs, sent)
