-- ===== src/Node/Inner/Sending.antt =====
-- node/node_internal/src/node.rs: what a node that the network hears puts on the wire.
use stargate.Common.{ℕ, ◌≡◌, refl, ◌∙◌, ap, true, [], ◌∷◌, ◌++◌, ◌==◌, Bool-cases, inl, inr}
use stargate.Common.Outcome.{Outcome, ok, ensure}
use stargate.Common.Handler.{pure, gets, modify, run-bind, run-lift}
use stargate.Libra.{Bytes}
use stargate.Messages.{MessageType}
use stargate.Messages.Hops.{MultiHopChannelRequest}
use stargate.Proposal.Requests.{ChannelTransactionRequest}
use stargate.Wallet.{Wallet, WalletHandler, WalletError}
use stargate.Node.Futures.{channel, add_future}
use stargate.Node.Wire.{add_message_type}
use stargate.Node.Inner.{
  NodeWorld, NodeInner, NodeError, queue_closed, send, future_timeout, new_future,
  send_channel_request, send_multi_hop_channel_request, NodeHandler, attempt, caught, on_wallet,
  from_wallet,
}

-- a node with one more message sent, and what else it holds at most changed for its future
pub record Sent (s : NodeInner) (peer_id : ℕ) (bytes : Bytes) (t : NodeInner) : Type 0 where
  pub message : t.sent ≡ s.sent ++ record { peer_id = peer_id; bytes = bytes } ∷ []
  pub wallet : t.wallet ≡ s.wallet

abbrev pub with_message : ℕ → Bytes → NodeInner → NodeInner
with_message peer_id bytes s = record s {
  sent = s.sent ++ record { peer_id = peer_id; bytes = bytes } ∷ [];
}

pub attempted :
    {A : Type 0} (m : NodeHandler A) (s : NodeInner) {a : A} {t : NodeInner}
    → m s ≡ (ok a, t)
    → attempt m s ≡ (ok (ok a), t)
unfolding attempt
attempted m s e = ap (λ (r : Outcome NodeError _ × NodeInner). (caught r, r.1)) e

pub on_wallet-runs :
    {A : Type 0} (m : WalletHandler A) (s : NodeInner) {a : A} {w : Wallet}
    → m s.wallet ≡ (ok a, w)
    → on_wallet m s ≡ (ok a, record s { wallet = w })
unfolding on_wallet
on_wallet-runs m s e =
    ap (λ (q : Outcome WalletError _ × Wallet). (from_wallet q.0, record s { wallet = q.1 })) e

module _ (nw : NodeWorld) where
  future_timeout-runs :
      (hash delay : ℕ) (s : NodeInner)
      → (t : NodeInner) × (future_timeout nw hash delay s ≡ (ok tt, t))
        × (t.sent ≡ s.sent)
        × (t.wallet ≡ s.wallet)
  unfolding future_timeout pure modify
  future_timeout-runs hash delay s = elim (Bool-cases (delay == 0)) [
    | inl now ↦ (s, rw (now) refl, refl, refl)
    | inr later ↦
        (record s { delays = s.delays ++ (hash, delay) ∷ [] }, rw (later) refl, refl, refl)
  ]

  new_future-runs :
      (hash : ℕ) (s : NodeInner)
      → (t : NodeInner) × (new_future nw hash s ≡ (ok s.message_processor.next, t))
        × (t.sent ≡ s.sent)
        × (t.wallet ≡ s.wallet)
  unfolding new_future modify gets channel pure
  new_future-runs hash s =
      let made : NodeInner = record s {
        message_processor =
            add_future (channel s.message_processor).0 hash s.message_processor.next;
      } in
      let (t, runs, same, w) = future_timeout-runs hash s.default_future_timeout made in
      (
        t,
        run-bind _ _ s refl ∙ run-bind _ _ s refl ∙ run-bind _ _ made refl ∙ run-bind _ _ made runs,
        same,
        w,
      )

  pub send-runs :
      (peer_id : ℕ) (bytes : Bytes) (s : NodeInner)
      → nw.network_reads ≡ true
      → send nw peer_id bytes s ≡ (ok tt, with_message peer_id bytes s)
  unfolding send modify
  send-runs peer_id bytes s reads = run-lift _ _ s (ap (λ b. ensure b queue_closed) reads)

  pub send_multi_hop-runs :
      (peer_id : ℕ) (message : MultiHopChannelRequest) (kind : MessageType) (s : NodeInner)
      → nw.network_reads ≡ true
      → (t : NodeInner) × (send_multi_hop_channel_request nw peer_id message kind s
          ≡ (ok s.message_processor.next, t))
        × Sent s peer_id (add_message_type (nw.multi_hop.into_proto_bytes message) kind) t
  unfolding send_multi_hop_channel_request
  send_multi_hop-runs peer_id message kind s reads =
      let bytes = add_message_type (nw.multi_hop.into_proto_bytes message) kind in
      let (t, runs, same, w) = new_future-runs _ (with_message peer_id bytes s) in
      (
        t,
        run-bind _ _ s (send-runs peer_id bytes s reads) ∙ runs,
        record { message = same; wallet = w },
      )

  pub send_request-runs :
      (peer_id : ℕ) (request : ChannelTransactionRequest) (kind : MessageType) (s : NodeInner)
      → nw.network_reads ≡ true
      → (t : NodeInner) × (send_channel_request nw peer_id request kind s
          ≡ (ok s.message_processor.next, t))
        × Sent s peer_id (add_message_type (nw.request.into_proto_bytes request) kind) t
  unfolding send_channel_request
  send_request-runs peer_id request kind s reads =
      let bytes = add_message_type (nw.request.into_proto_bytes request) kind in
      let (t, runs, same, w) = new_future-runs _ (with_message peer_id bytes s) in
      (
        t,
        run-bind _ _ s (send-runs peer_id bytes s reads) ∙ runs,
        record { message = same; wallet = w },
      )
