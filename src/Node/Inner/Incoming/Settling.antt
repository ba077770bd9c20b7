-- ===== src/Node/Inner/Incoming/Settling.antt =====
-- node/node_internal/src/node.rs: a peer's request for a transaction, from the wire to the point where
-- it is answered and applied.
use stargate.Common.{ℕ, ◌≡◌, ◌⊎◌, inl, inr, refl, ◌∙◌, ap, true, none, some}
use stargate.Common.Outcome.{Outcome, ok, ok_or}
use stargate.Common.Handler.{◌>>◌, pure, run-bind, run-lift, run-gets}
use stargate.Libra.{Bytes}
use stargate.Messages.{channel_transaction_request, channel_transaction_response}
use stargate.Proposal.Requests.{
  ChannelTransactionRequest, ChannelTransactionResponse, channel_txn, request_id,
}
use stargate.Wallet.{Wallet}
use stargate.Wallet.Handle
use stargate.Wallet.Handle.{verify_txn, approve_txn}
use stargate.Wallet.Htlc.{is_htlc_transfer, is_htlc_receive}
use stargate.Node.Wire.{add_message_type, parses_type, keeps_payload}
use stargate.Node.Inner.{
  NodeWorld, NodeInner, NodeHandler, NodeError, NetworkMessage, bad_bytes, unwrap, or_panic,
}
use stargate.Node.Inner.Sending.{send-runs, on_wallet-runs, attempted, with_message}
use stargate.Node.Inner.Incoming.{
  told, apply_txn, approved, verified, on_transfer, on_receive, answered,
  handle_channel_transaction_request, handle_receiver_channel, dispatch, handle_network_msg,
}

module _ (nw : NodeWorld) where
  -- a request for a transaction, as it comes from a peer
  abbrev pub requested : ℕ → Bytes → NetworkMessage
  requested peer_id data_bytes = record {
    peer_id = peer_id;
    bytes = add_message_type data_bytes channel_transaction_request;
  }

  -- what the node reads from the wire reaches the handler of requests
  pub hears :
      (peer_id : ℕ) (data_bytes : Bytes) (request : ChannelTransactionRequest) (s t : NodeInner)
      → nw.request.from_proto_bytes data_bytes ≡ some request
      → handle_channel_transaction_request nw peer_id request s ≡ (ok tt, t)
      → handle_network_msg nw (requested peer_id data_bytes) s ≡ (ok tt, t)
  unfolding handle_network_msg dispatch unwrap handle_receiver_channel
  hears peer_id data_bytes request s t read handled =
      run-lift _ _ s (parses_type data_bytes channel_transaction_request)
      ∙ run-lift _ _ s (keeps_payload data_bytes channel_transaction_request)
      ∙ ap (λ (q : Outcome NodeError (Unit {0}) × NodeInner). (or_panic q.0, q.1))
          (run-lift _ _ s (ap (ok_or bad_bytes) read) ∙ handled)

  module _ (reads : nw.network_reads ≡ true) (peer_id : ℕ) (request : ChannelTransactionRequest)
      (resp : ChannelTransactionResponse) (s : NodeInner) (u v x : Wallet) (gas : ℕ)
      (agreed : (verify_txn nw.ww peer_id request s.wallet ≡ (ok (some resp), v))
        ⊎ ((s.auto_approve ≡ true)
            × (verify_txn nw.ww peer_id request s.wallet ≡ (ok none, u))
            × (approve_txn nw.ww peer_id (request_id nw.ww.world.x.txn_hash request) u
                ≡ (ok resp, v))))
      (applied : Handle.apply_txn nw.ww peer_id v ≡ (ok gas, x)) where
    -- the node after it has answered and applied the request
    abbrev settled : NodeInner
    settled =
        with_message peer_id
          (add_message_type (nw.response.into_proto_bytes resp) channel_transaction_response)
          (record s { wallet = x })

    applies :
        apply_txn nw peer_id
          (request_id nw.ww.world.x.txn_hash request)
          resp
          (record s { wallet = v })
        ≡ (ok tt, settled)
    unfolding apply_txn unwrap told pure
    applies =
        run-bind _ _ _ (
          ap (λ (q : Outcome NodeError (Unit {0}) × NodeInner). (or_panic q.0, q.1))
            (send-runs nw peer_id _ (record s { wallet = v }) reads))
        ∙ run-bind _ _ _ (attempted _ _ (on_wallet-runs (Handle.apply_txn nw.ww peer_id) _ applied))

    -- what is left to do then
    abbrev rest : NodeHandler (Unit {0})
    rest =
        on_transfer nw peer_id (channel_txn request).args
          (is_htlc_transfer (channel_txn request).operator)
        >> on_receive nw (channel_txn request).args (is_htlc_receive (channel_txn request).operator)

    -- A request that the wallet agrees to, at once or approved by a node that approves by itself, and that
    -- it applies: the node answers it, and then looks whether it is a payment or the receipt of one.
    pub settles : handle_channel_transaction_request nw peer_id request s ≡ rest settled
    unfolding handle_channel_transaction_request verified approved answered pure unwrap
    settles = elim agreed [
      | inl e ↦
          run-bind _ _ s (attempted _ s (on_wallet-runs (verify_txn nw.ww peer_id request) s e))
          ∙ run-bind _ _ _ refl
          ∙ run-bind _ _ _ applies
      | inr (auto, e, f) ↦
          run-bind _ _ s (attempted _ s (on_wallet-runs (verify_txn nw.ww peer_id request) s e))
          ∙ run-bind _ _ _ (
              run-gets _ _ _ auto
              ∙ run-bind _ _ _ (
                  ap
                    (λ (q : Outcome NodeError ChannelTransactionResponse × NodeInner).
                      (or_panic q.0, q.1))
                    (on_wallet-runs
                      (approve_txn nw.ww peer_id (request_id nw.ww.world.x.txn_hash request))
                      (record s { wallet = u }) f)))
          ∙ run-bind _ _ _ applies
    ]
