-- ===== src/Node/Inner/Incoming/Answering.antt =====
-- node/node_internal/src/node.rs: how the user who waits for a request gets its answer.
use stargate.Common.{ℕ, ◌≡◌, refl, ◌∙◌, ap, true, some, List, [], ◌∷◌, ◌++◌}
use stargate.Common.Dict.{get}
use stargate.Common.Outcome.{ok, ensure, ok_or}
use stargate.Common.Handler.{gets, modify, run-bind, run-lift}
use stargate.Libra.{Bytes}
use stargate.Proposal.Requests.{ChannelTransactionResponse, response_id}
use stargate.Router.Stats.{payed}
use stargate.Wallet.{Wallet}
use stargate.Wallet.Handle
use stargate.Wallet.Handle.{verify_txn_response}
use stargate.Wallet.Reads.{channel_sequence_number}
use stargate.Node.Futures.{send_response, poll, ready}
use stargate.Node.Futures.Life.{Act, step, steps, IsSound}
use stargate.Node.Futures.Answers.{answer_stays}
use stargate.Node.Inner.{NodeWorld, NodeInner, bad_bytes, queue_closed, send_stats}
use stargate.Node.Inner.Sending.{on_wallet-runs}
use stargate.Node.Inner.Incoming.{handle_sender_channel}

-- A response that the wallet accepts and applies, to a request whose future is waited for: the future
-- gives the new sequence number of the channel, whatever happens to the node's futures after it.
pub answers_user :
    (nw : NodeWorld) (data_bytes : Bytes) (peer_id number gas id : ℕ)
    (resp : ChannelTransactionResponse) (s : NodeInner) (w1 w2 w3 : Wallet)
    → nw.response.from_proto_bytes data_bytes ≡ some resp
    → verify_txn_response nw.ww peer_id resp s.wallet ≡ (ok tt, w1)
    → Handle.apply_txn nw.ww peer_id w1 ≡ (ok gas, w2)
    → channel_sequence_number nw.ww peer_id w2 ≡ (ok number, w3)
    → nw.stats_reads ≡ true
    → IsSound s.message_processor
    → get s.message_processor.tx_map (response_id nw.ww.world.x.txn_hash resp) ≡ some id
    → s.message_processor.listening id ≡ true
    → (t : NodeInner) × (handle_sender_channel nw data_bytes peer_id s ≡ (ok tt, t))
      × (t.wallet ≡ w3)
      × ((acts : List Act) → poll (steps t.message_processor acts) id ≡ ready number)
unfolding handle_sender_channel send_stats modify gets step
answers_user nw data_bytes peer_id number gas id resp s w1 w2 w3 read accepted applied counted stats
      sound has hears =
    (
      record s {
        wallet = w3;
        message_processor =
            send_response s.message_processor (response_id nw.ww.world.x.txn_hash resp) number;
        stats =
            s.stats
            ++ (
              (w3.account.address, peer_id),
              record {
                hash_value = response_id nw.ww.world.x.txn_hash resp;
                amount = 0;
                kind = payed;
              },
            )
              ∷ [];
      },
      run-lift _ _ s (ap (ok_or bad_bytes) read)
          ∙ run-bind _ _ s (on_wallet-runs (verify_txn_response nw.ww peer_id resp) s accepted)
          ∙ run-bind _ _ _
              (on_wallet-runs (Handle.apply_txn nw.ww peer_id) (record s { wallet = w1 }) applied)
          ∙ run-bind _ _ _ (
              on_wallet-runs (channel_sequence_number nw.ww peer_id) (record s { wallet = w2 })
                counted)
          ∙ run-bind _ _ _ refl
          ∙ run-bind _ _ _ refl
          ∙ run-lift _ _ _ (ap (λ b. ensure b queue_closed) stats),
      refl,
      λ acts.
          answer_stays s.message_processor sound (response_id nw.ww.world.x.txn_hash resp) id number
            acts has hears,
    )
