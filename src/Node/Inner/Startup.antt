-- ===== src/Node/Inner/Startup.antt =====
-- node/node_internal/src/node.rs, NodeInner::init: pending requests are sent again when a node starts.
-- The answer to each is awaited before the next participant, so the loop comes back in pieces.
use stargate.Common.{ℕ, Bool, true, false, Option, none, some, List, [], ◌∷◌}
use stargate.Common.Outcome.{ok, err, panic}
use stargate.Common.Handler.{◌>>=◌, pure, fail, lift}
use stargate.Messages
use stargate.Proposal.Requests.{ChannelTransactionRequest}
use stargate.Wallet.{get_all_channels}
use stargate.Wallet.Handle.{get_pending_txn_request}
use stargate.Node.Futures.{Poll, ready, failed, not_ready}
use stargate.Node.Inner.{
  NodeWorld, NodeHandler, Response, sg_error, on_wallet, attempt, send_channel_request,
}

-- what a participant's turn comes to: the next one, or a future to wait for
pub data Turn : Type 0 where
  next : Turn
  awaits : (id : ℕ) → Turn

pub data Init : Type 0 where
  finished : Init
  awaiting : (id : ℕ) → (participants : List ℕ) → Init

module _ (nw : NodeWorld) where
  abbrev pub turn_of : Response ℕ → Turn
  turn_of (ok id) = awaits id
  turn_of (err e) = next
  turn_of panic = next

  unfoldable pub resend : Bool → ℕ → ChannelTransactionRequest → NodeHandler Turn
  resend false participant request = pure next
  resend true participant request = do
    r ← attempt (send_channel_request nw participant request Messages.channel_transaction_request)
    pure (turn_of r)

  unfoldable pub turn : ℕ → Response (Option ChannelTransactionRequest) → NodeHandler Turn
  turn participant (ok (some request)) = resend (nw.is_connected participant) participant request
  turn participant (ok none) = pure next
  turn participant (err e) = pure next
  turn participant panic = lift panic

  unfoldable pub after_turn : List ℕ → NodeHandler Init → Turn → NodeHandler Init
  after_turn participants rest next = rest
  after_turn participants rest (awaits id) = pure (awaiting id participants)

  unfoldable pub init_from : List ℕ → NodeHandler Init
  init_from [] = pure finished
  init_from (participant ∷ participants) = do
    r ← attempt (on_wallet (get_pending_txn_request nw.ww participant))
    t ← turn participant r
    after_turn participants (init_from participants) t

  unfoldable pub init : NodeHandler Init
  init = do all_channels ← on_wallet get_all_channels; init_from all_channels

  -- on from the future that was awaited
  unfoldable pub resume : ℕ → List ℕ → Poll → NodeHandler Init
  resume id participants (ready _) = init_from participants
  resume id participants (failed e) = fail (sg_error e)
  resume id participants not_ready = pure (awaiting id participants)
