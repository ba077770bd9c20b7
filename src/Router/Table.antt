-- ===== src/Router/Table.antt =====
-- router/src/lib.rs: the table router, which follows the channels of the chain and asks the nodes of
-- a path for their balances. What another node answers is a parameter.
pub mod Lightest
pub mod Handlers
pub mod Following
pub mod Closing
use stargate.Common.{
  ℕ, Bool, true, false, Option, none, some, List, [], ◌∷◌, ◌++◌, ◌==◌, if◌then◌else◌,
}
use stargate.Common.Outcome.{Outcome, ok, err, panic, ensure, ok_or, ◌>>=◌, ◌>>◌}
use stargate.Router.Paths.{BalanceQueryResponse, pressure_of, Balances, i128_max, scan, get}
use stargate.Router.Wallet.{Node, SearchError, own_balance}
use stargate.Common.Handler.{Handler}
use stargate.Router.Graph.{Petgraph, GraphStore, GraphHandler, GraphError, Edge, from_vertexes}

pub data TableError : Type 0 where
  graph_error : GraphError → TableError
  node_error : SearchError → TableError
  few_hops not_my_path no_answer bad_balances queue_closed : TableError

abbrev pub from_node : {A : Type 0} → Outcome SearchError A → Outcome TableError A
from_node (ok a) = ok a
from_node (err e) = err (node_error e)
from_node panic = panic

-- what the wallet and the statistics answer, and what the other nodes do (`query_balance`)
module _ (node : Node) (query_balance : ℕ → ℕ → Option BalanceQueryResponse) where
  -- the loop over the vertexes behind the first
  unfoldable pub query_all : List ℕ → Outcome TableError (List BalanceQueryResponse)
  query_all [] = ok []
  query_all (a ∷ []) = ok []
  query_all (a ∷ b ∷ vertexes) = do
    response ← ok_or no_answer (query_balance a b)
    rest ← query_all (b ∷ vertexes)
    ok (response ∷ rest)

  unfoldable pub vertexes_to_balance_list : List ℕ → Outcome TableError (List BalanceQueryResponse)
  vertexes_to_balance_list [] = err few_hops
  vertexes_to_balance_list (_ ∷ []) = err few_hops
  vertexes_to_balance_list (first ∷ second ∷ vertexes) = do
    ensure (first == node.account) not_my_path
    response ← from_node (own_balance node second)
    rest ← query_all (second ∷ vertexes)
    ok (response ∷ rest)

  -- the paths, in the order of the set that they are in
  unfoldable pub balance_lists :
      List (List ℕ) → Outcome TableError (List (List BalanceQueryResponse))
  balance_lists [] = ok []
  balance_lists (path ∷ paths) = do
    balances ← vertexes_to_balance_list path
    rest ← balance_lists paths
    ok (balances ∷ rest)

  abbrev pub or_empty : Option (List BalanceQueryResponse) → List BalanceQueryResponse
  or_empty none = []
  or_empty (some t) = t

  -- RouterInner::find_path: the path of the least pressure
  unfoldable pub find_path : List (List ℕ) → Outcome TableError (List BalanceQueryResponse)
  find_path paths = do
    lists ← balance_lists paths
    let (min_pressure, balance_map) = scan i128_max [] lists
    ok (or_empty (get balance_map min_pressure))

  abbrev pub find_any :
      Outcome GraphError (Option (List (List ℕ))) → Outcome TableError (List BalanceQueryResponse)
  find_any (ok (some paths)) = find_path paths
  find_any (ok none) = ok []
  find_any (err e) = err (graph_error e)
  find_any panic = panic

-- the path store of the node is the graph; the storage, where there is one, holds the offset as well
pub record RouterInner (pg : Petgraph) : Type 0 where
  pub graph_store : GraphStore pg
  pub offset : Option ℕ
  pub sent : List (ℕ × BalanceQueryResponse)

-- the accounts of a channel in the order in which the map of its balances is gone through
pub data ChannelChangeEvent : Type 0 where
  opened closed locked : (channel_address : ℕ) → (balances : List (ℕ × ℕ)) → ChannelChangeEvent

abbrev pub addresses : List (ℕ × ℕ) → List ℕ
addresses [] = []
addresses ((addr, _) ∷ balances) = addr ∷ addresses balances

unfoldable pub generate_edge : List (ℕ × ℕ) → Outcome TableError Edge
generate_edge balances = ok_or bad_balances (from_vertexes (addresses balances))

abbrev pub from_graph : {A : Type 0} → Outcome GraphError A → Outcome TableError A
from_graph (ok a) = ok a
from_graph (err e) = err (graph_error e)
from_graph panic = panic

module _ (pg : Petgraph) where
  abbrev pub TableHandler : Type 0 → Type 0
  TableHandler A = Handler (RouterInner pg) TableError A

  unfoldable pub on_graph : {A : Type 0} → GraphHandler pg A → TableHandler A
  on_graph m s = (from_graph (m s.graph_store).0, record s { graph_store = (m s.graph_store).1 })
