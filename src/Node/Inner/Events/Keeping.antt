-- ===== src/Node/Inner/Events/Keeping.antt =====
-- node/node_internal/src/node.rs: what a node keeps healthy: its wallet can be restarted, a future has
-- one message at most, and a preimage opens the hash that it is kept under.
use stargate.Common.{ℕ, Bool, true, false, [], ◌∷◌, ◌++◌, ◌==◌, if◌then◌else◌}
use stargate.Common.Handler.{
  Keeps, keeps_rules, ◌>>=◌, ◌>>◌, pure, fail, lift, gets, modify, Keeps-bind, Keeps-gets-bind,
  Keeps-lift, Keeps-pure,
}
use stargate.Libra.{Bytes}
use stargate.Store.{Hashes}
use stargate.Invoice.{Codec, InvoiceManager}
use stargate.Invoice.Preimages.{Opens}
use stargate.Messages.{MessageType}
use stargate.Messages.Hops.{MultiHopChannelRequest}
use stargate.Proposal.Requests.{ChannelTransactionRequest}
use stargate.Router.Stats.{DirectedChannel, PaymentInfo}
use stargate.Wallet.{Wallet, WalletHandler}
use stargate.Wallet.Calls.Durable.{AllReady}
use stargate.Node.Futures.{MessageProcessor, drop_future}
use stargate.Node.Futures.Life.{IsSound, step, open_future, abandon, step-IsSound}
use stargate.Node.Inner.{
  NodeWorld, NodeInner, NodeHandler, NodeError, on_wallet, attempt, unwrap, send, send_error,
  future_timeout, new_future, send_channel_request, send_multi_hop_channel_request, send_stats,
  dropped,
}
use stargate.Node.Inner.Events.Wallets.{KeepsReady}

pub record Parts (h : Hashes) (c : Codec) (w : Wallet) (p : MessageProcessor) (i : InvoiceManager)
    : Type 0 where
  pub wallet : AllReady h w
  pub processor : IsSound p
  pub invoices : Opens c i

abbrev pub IsHealthy : Hashes → Codec → NodeInner → Type 0
IsHealthy h c s = Parts h c s.wallet s.message_processor s.invoice_mgr

module _ {P : NodeInner → Type 0} {A : Type 0} (m : NodeHandler A) (k : Keeps P m) where
  pub attempt-Keeps : Keeps P (attempt m)
  unfolding attempt
  attempt-Keeps = record { at = k.at }

  pub unwrap-Keeps : Keeps P (unwrap m)
  unfolding unwrap
  unwrap-Keeps = record { at = k.at }

module _ (nw : NodeWorld) where
  abbrev pub Healthy : NodeInner → Type 0
  Healthy = IsHealthy nw.ww.world.h nw.c

  pub on_wallet-Keeps :
      {A : Type 0} (m : WalletHandler A) → KeepsReady nw.ww m → Keeps Healthy (on_wallet m)
  unfolding on_wallet
  on_wallet-Keeps m k = record {
    at = λ s y. record {
      wallet = k.at s.wallet y.wallet;
      processor = y.processor;
      invoices = y.invoices;
    };
  }

  pub process-Keeps :
      (f : MessageProcessor → MessageProcessor)
      → ((p : MessageProcessor) → IsSound p → IsSound (f p))
      → Keeps {E = NodeError} Healthy
          (modify (λ s. record s { message_processor = f s.message_processor }))
  unfolding modify
  process-Keeps f k = record {
    at = λ s y. record {
      wallet = y.wallet;
      processor = k s.message_processor y.processor;
      invoices = y.invoices;
    };
  }

  pub send-Keeps : (peer_id : ℕ) (bytes : Bytes) → Keeps Healthy (send nw peer_id bytes)
  unfolding send modify
  send-Keeps peer_id bytes = Keeps-bind _ _ (Keeps-lift _) (λ _. record { at = λ s y. y })

  pub send_error-Keeps :
      (peer_id : ℕ) (e : NodeError) (hash : ℕ) → Keeps Healthy (send_error nw peer_id e hash)
  unfolding send_error
  send_error-Keeps peer_id e hash = search (unwrap-Keeps, send-Keeps)

  pub send_stats-Keeps :
      (directed : DirectedChannel) (payment : PaymentInfo)
      → Keeps Healthy (send_stats nw directed payment)
  unfolding send_stats modify
  send_stats-Keeps directed payment = Keeps-bind _ _ (Keeps-lift _) (λ _. record { at = λ s y. y })

  delayed :
      (hash delay : ℕ) (now : Bool)
      → Keeps {E = NodeError} Healthy (
          if now
          then pure tt
          else modify (λ s. record s { delays = s.delays ++ (hash, delay) ∷ [] }))
  unfolding pure modify
  delayed hash delay true = record { at = λ s y. y }
  delayed hash delay false = record { at = λ s y. y }

  future_timeout-Keeps : (hash delay : ℕ) → Keeps Healthy (future_timeout nw hash delay)
  unfolding future_timeout
  future_timeout-Keeps hash delay = delayed hash delay (delay == 0)

  -- the channel is made from the processor that it is put back into
  pub new_future-Keeps : (hash : ℕ) → Keeps Healthy (new_future nw hash)
  unfolding new_future step modify ◌>>=◌ gets
  new_future-Keeps hash = record {
    at = λ s y.
        (Keeps-bind _ _ (future_timeout-Keeps hash s.default_future_timeout) (λ _. Keeps-pure _)).at
          _
          (record {
            wallet = y.wallet;
            processor = step-IsSound s.message_processor (open_future hash) y.processor;
            invoices = y.invoices;
          });
  }

  pub send_channel_request-Keeps :
      (peer_id : ℕ) (r : ChannelTransactionRequest) (t : MessageType)
      → Keeps Healthy (send_channel_request nw peer_id r t)
  unfolding send_channel_request
  send_channel_request-Keeps peer_id r t = search (keeps_rules, send-Keeps, new_future-Keeps)

  pub send_multi_hop-Keeps :
      (peer_id : ℕ) (r : MultiHopChannelRequest) (t : MessageType)
      → Keeps Healthy (send_multi_hop_channel_request nw peer_id r t)
  unfolding send_multi_hop_channel_request
  send_multi_hop-Keeps peer_id r t = search (keeps_rules, send-Keeps, new_future-Keeps)

  drop-Keeps :
      (id : ℕ)
      → Keeps {E = NodeError} Healthy
          (modify (λ s. record s { message_processor = drop_future s.message_processor id }))
  unfolding step
  drop-Keeps id = process-Keeps _ (λ p y. step-IsSound p (abandon id) y)

  pub dropped-Keeps : (m : NodeHandler ℕ) → Keeps Healthy m → Keeps Healthy (dropped m)
  unfolding dropped
  dropped-Keeps m k = search (keeps_rules, drop-Keeps)

pub ruleset node_rules = (
  keeps_rules, attempt-Keeps, unwrap-Keeps, on_wallet-Keeps, send-Keeps, send_error-Keeps,
  send_stats-Keeps, new_future-Keeps, send_channel_request-Keeps, send_multi_hop-Keeps,
  dropped-Keeps,
)
