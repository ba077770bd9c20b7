-- ===== src/Router/Table/Handlers.antt =====
-- router/src/lib.rs: the handlers of the table router.
use stargate.Common.{ℕ, Bool, true, false, Option, none, some, List, [], ◌∷◌, ◌++◌, ◌==◌}
use stargate.Common.Outcome.{Outcome, ok, err, panic, ensure}
use stargate.Common.Handler.{◌>>=◌, ◌>>◌, pure, lift, gets, modify}
use stargate.Router.Paths.{BalanceQueryResponse}
use stargate.Router.Wallet.{Node, own_balance}
use stargate.Router.Graph.{
  storage_error, Petgraph, Storage, Edge, put_edge, remove_edge, find_all_path,
}
use stargate.Router.Table.{
  RouterInner, TableHandler, ChannelChangeEvent, opened, closed, locked, generate_edge, on_graph,
  from_node, find_any, queue_closed, TableError, graph_error,
}

module _ (pg : Petgraph) (disk_works : Bool) where
  unfoldable pub put_channel : Edge → TableHandler pg (Unit {0})
  put_channel edge = on_graph pg (put_edge pg disk_works edge 0 true) >>= λ _. pure tt

  unfoldable pub change : ChannelChangeEvent → TableHandler pg (Unit {0})
  change (opened channel_address balances) = do
    edge ← lift (generate_edge balances)
    put_channel edge
  change (closed channel_address balances) = do
    edge ← lift (generate_edge balances)
    on_graph pg (remove_edge pg disk_works edge)
  change (locked channel_address balances) = do
    edge ← lift (generate_edge balances)
    on_graph pg (remove_edge pg disk_works edge)

  unfoldable pub put_offset : ℕ → Option Storage → TableHandler pg (Unit {0})
  put_offset number none = pure tt
  put_offset number (some storage) = do
    lift (ensure disk_works (graph_error storage_error))
    modify (λ s. record s { offset = some number })

  unfoldable pub handle_channel_stream : ℕ → ChannelChangeEvent → TableHandler pg (Unit {0})
  handle_channel_stream number event = do
    change event
    storage ← gets (λ s. s.graph_store.storage)
    put_offset number storage

-- a message of the network, as far as the table router tells them apart
pub data TableMessage : Type 0 where
  balance_query_request : (local_addr remote_addr : ℕ) → TableMessage
  balance_query_response : BalanceQueryResponse → TableMessage
  other_message : TableMessage

abbrev pub or_panic : {A : Type 0} → Outcome TableError A → Outcome TableError A
or_panic (ok a) = ok a
or_panic (err _) = panic
or_panic panic = panic

abbrev pub unwrap : (pg : Petgraph) {A : Type 0} → TableHandler pg A → TableHandler pg A
unwrap pg m s = (or_panic (m s).0, (m s).1)

module _ (pg : Petgraph) (node : Node) where
  unfoldable pub answer_query : Bool → ℕ → ℕ → Bool → TableHandler pg (Unit {0})
  answer_query network_reads sender_addr remote_addr false = pure tt
  answer_query network_reads sender_addr remote_addr true = do
    response ← lift (from_node (own_balance node remote_addr))
    lift (ensure network_reads queue_closed)
    modify (λ s. record s { sent = s.sent ++ (sender_addr, response) ∷ [] })

  unfoldable pub handle_balance_query_request : Bool → ℕ → ℕ → ℕ → TableHandler pg (Unit {0})
  handle_balance_query_request network_reads sender_addr local_addr remote_addr =
      answer_query network_reads sender_addr remote_addr (local_addr == node.account)

  -- The response of another node goes to the future that waits for it: the argument `respond`. An error
  -- of either handler is unwrapped.
  unfoldable pub handle_router_network_msg :
      Bool → (RouterInner pg → RouterInner pg) → ℕ → TableMessage → TableHandler pg (Unit {0})
  handle_router_network_msg network_reads respond peer_id
        (balance_query_request local_addr remote_addr) =
      unwrap pg (handle_balance_query_request network_reads peer_id local_addr remote_addr)
  handle_router_network_msg network_reads respond peer_id (balance_query_response response) =
      modify respond
  handle_router_network_msg network_reads respond peer_id other_message = pure tt

  -- an error leaves the responder without a message
  unfoldable pub handle_router_msg :
      (ℕ → ℕ → Option BalanceQueryResponse)
      → ℕ
      → ℕ
      → RouterInner pg
      → Outcome TableError (List BalanceQueryResponse)
  handle_router_msg query_balance start end s =
      find_any node query_balance (find_all_path pg start end 5 s.graph_store).0
