-- ===== src/Node/Inner/Incoming/Claiming.antt =====
-- node/node_internal/src/node.rs: how a node claims the payments that are made to it, and those that it
-- has passed on when their preimage comes back.
use mathlib.Core.List.{append-nil}
use stargate.Common.{ℕ, ◌≡◌, ◌⊎◌, refl, sym, ◌∙◌, ap, true, Option, none, some, List, [], ◌++◌}
use stargate.Common.Outcome.{ok}
use stargate.Common.Handler.{◌>>=◌, pure, modify, run-bind, run-lift, run-gets}
use stargate.Common.Text.{codes}
use stargate.Libra.{Bytes}
use stargate.Invoice.{get_previous_hop}
use stargate.Messages.{channel_transaction_request, channel_transaction_response}
use stargate.Proposal.Requests.{
  ChannelTransactionRequest, ChannelTransactionResponse, channel_txn, request_id,
}
use stargate.Wallet.{Wallet}
use stargate.Wallet.Handle
use stargate.Wallet.Handle.{verify_txn, approve_txn}
use stargate.Wallet.Actions.{receive_payment, channel_script, preimage_args}
use stargate.Wallet.Htlc.{parse_htlc_payment-payment_args}
use stargate.Node.Futures.{drop_future}
use stargate.Node.Wire.{add_message_type}
use stargate.Node.Inner.{
  NodeWorld, NodeInner, NetworkMessage, on_wallet, send_channel_request, dropped,
}
use stargate.Node.Inner.Sending.{send_request-runs, on_wallet-runs, with_message}
use stargate.Node.Inner.Incoming.{
  from_htlc, on_transfer, passed_back, on_receive, handle_network_msg,
}
use stargate.Node.Inner.Incoming.Forwarding.{to_peer}
use stargate.Node.Inner.Incoming.Settling.{requested, hears, settles}

abbrev pub option : {A B : Type 0} → B → (A → B) → Option A → B
option b f none = b
option b f (some a) = f a

module _ (nw : NodeWorld) where
  abbrev pub answer_to : ℕ → ChannelTransactionResponse → List NetworkMessage
  answer_to peer_id resp =
      to_peer peer_id
        (add_message_type (nw.response.into_proto_bytes resp) channel_transaction_response)

  abbrev pub claim_of : ℕ → ChannelTransactionRequest → List NetworkMessage
  claim_of to request =
      to_peer to
        (add_message_type (nw.request.into_proto_bytes request) channel_transaction_request)

  module _ (reads : nw.network_reads ≡ true) where
    -- a request to receive a payment, whose future nobody takes
    claims :
        (preimage to : ℕ) (request : ChannelTransactionRequest) (s : NodeInner) (w : Wallet)
        → receive_payment nw.ww to (nw.c.hash_to_vec preimage) s.wallet ≡ (ok request, w)
        → (t : NodeInner) × ((on_wallet (receive_payment nw.ww to (nw.c.hash_to_vec preimage))
                >>= λ r. dropped (send_channel_request nw to r channel_transaction_request))
              s
            ≡ (ok tt, t))
          × (t.sent ≡ s.sent ++ claim_of to request)
          × (t.wallet ≡ w)
    unfolding dropped modify
    claims preimage to request s w proposed =
        let (t, runs, sent) =
          send_request-runs nw to request channel_transaction_request (record s { wallet = w })
            reads in
        (
          record t { message_processor = drop_future t.message_processor s.message_processor.next },
          run-bind _ _ s
                (on_wallet-runs (receive_payment nw.ww to (nw.c.hash_to_vec preimage)) s proposed)
              ∙ run-bind _ _ _ runs,
          sent.message,
          sent.wallet,
        )

    passes_back_to :
        (preimage : ℕ) (s : NodeInner) (claim : ℕ → ChannelTransactionRequest) (w : ℕ → Wallet)
        (previous : Option ℕ)
        → ((to : ℕ)
            → previous ≡ some to
            → receive_payment nw.ww to (nw.c.hash_to_vec preimage) s.wallet ≡ (ok (claim to), w to))
        → (t : NodeInner) × (passed_back nw preimage previous s ≡ (ok tt, t))
          × (t.sent ≡ s.sent ++ option [] (λ to. claim_of to (claim to)) previous)
          × (t.wallet ≡ option s.wallet w previous)
    unfolding passed_back pure
    passes_back_to preimage s claim w none proposed = (s, refl, sym (append-nil s.sent), refl)
    passes_back_to preimage s claim w (some to) proposed =
        claims preimage to (claim to) s (w to) (proposed to refl)

    module _ (back : (h : ℕ) → nw.from_slice (nw.c.hash_to_vec h) ≡ some h) (peer_id : ℕ)
        (data_bytes : Bytes) (request : ChannelTransactionRequest)
        (resp : ChannelTransactionResponse) (s : NodeInner) (u v x : Wallet) (gas : ℕ)
        (read : nw.request.from_proto_bytes data_bytes ≡ some request)
        (agreed : (verify_txn nw.ww peer_id request s.wallet ≡ (ok (some resp), v))
          ⊎ ((s.auto_approve ≡ true)
              × (verify_txn nw.ww peer_id request s.wallet ≡ (ok none, u))
              × (approve_txn nw.ww peer_id (request_id nw.ww.world.x.txn_hash request) u
                  ≡ (ok resp, v))))
        (applied : Handle.apply_txn nw.ww peer_id v ≡ (ok gas, x)) where
      -- the node after it has answered and applied the request
      abbrev settled : NodeInner
      settled =
          with_message peer_id
            (add_message_type (nw.response.into_proto_bytes resp) channel_transaction_response)
            (record s { wallet = x })

      -- While the network takes what the node sends, and hashes are read back from their bytes: a peer's
      -- claim of a payment of the node with its preimage, which the wallet agrees to, at once or approved
      -- by a node that approves by itself, and applies. The node answers the peer; where it keeps a
      -- previous hop for the preimage, and the wallet proposes the claim, it then sends that hop a claim
      -- of its payment with the same preimage, and where it keeps none it sends nothing else.
      pub passes_back :
          (preimage : ℕ) (claim : ℕ → ChannelTransactionRequest) (w : ℕ → Wallet)
          → (channel_txn request).operator ≡ channel_script (codes "receive_payment")
          → (channel_txn request).args ≡ preimage_args (nw.c.hash_to_vec preimage)
          → ((previous : ℕ)
              → get_previous_hop nw.c s.invoice_mgr preimage ≡ some previous
              → receive_payment nw.ww previous (nw.c.hash_to_vec preimage) x
                ≡ (ok (claim previous), w previous))
          → (t : NodeInner) × (handle_network_msg nw (requested nw peer_id data_bytes) s
              ≡ (ok tt, t))
            × (t.sent
                ≡ (s.sent ++ answer_to peer_id resp)
                  ++ option []
                      (λ previous. claim_of previous (claim previous))
                      (get_previous_hop nw.c s.invoice_mgr preimage))
            × (t.wallet ≡ option x w (get_previous_hop nw.c s.invoice_mgr preimage))
      unfolding on_transfer on_receive pure
      passes_back preimage claim w operator args proposed =
          let (t, runs, sent, wallet) =
            passes_back_to preimage settled claim w (get_previous_hop nw.c s.invoice_mgr preimage)
              proposed in
          let (_, _, _, receipt, no_transfer, of_args) =
            parse_htlc_payment-payment_args nw.from_slice nw.c.hash_to_vec 0 0 0 0 preimage back in
          (
            t,
            hears nw peer_id data_bytes request s t read (
                settles nw reads peer_id request resp s u v x gas agreed applied
                ∙ rw (operator, args, receipt, no_transfer)
                    (run-bind _ _ settled refl
                      ∙ run-lift _ _ settled (ap from_htlc of_args)
                      ∙ run-gets _ _ settled refl
                      ∙ runs)),
            sent,
            wallet,
          )
