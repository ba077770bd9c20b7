-- ===== src/Router/Table/Following.antt =====
-- router/src/lib.rs: the table router, whatever the chain tells it.
use stargate.Common.{ℕ, ◌≢◌, refl, Bool, true, false, Option, none, some, List, [], ◌∷◌}
use stargate.Common.Outcome.{Outcome, ok, err, panic, ensure, ok_or, ◌>>=◌}
use stargate.Common.Handler.{Keeps, keeps_rules, modify, Keeps-bind, Keeps-lift}
use stargate.Router.Paths.{BalanceQueryResponse}
use stargate.Router.Wallet.{Node, SearchError, own_balance}
use stargate.Router.Graph.{Petgraph, GraphHandler, GraphError, Storage, Edge, new}
use stargate.Router.Graph.Indexes.{
  HasIndexes, IsNamed, put_edge-Keeps, remove_edge-Keeps, new-IsNamed, find_all_path_total,
}
use stargate.Router.Table.{
  RouterInner, ChannelChangeEvent, opened, closed, locked, on_graph, query_all,
  vertexes_to_balance_list, balance_lists, find_path, find_any, from_node,
}
use stargate.Router.Table.Handlers.{
  put_channel, change, put_offset, handle_channel_stream, handle_router_msg,
}

-- the router after events of the chain, each with a disk that works or not
unfoldable pub follow :
    (pg : Petgraph) → List (Bool × ℕ × ChannelChangeEvent) → RouterInner pg → RouterInner pg
follow pg [] s = s
follow pg ((disk_works, number, event) ∷ events) s =
    follow pg events (handle_channel_stream pg disk_works number event s).1

module _ (pg : Petgraph) (has : HasIndexes pg) where
  abbrev Named : RouterInner pg → Type 0
  Named s = IsNamed pg s.graph_store

  on_graph-Keeps :
      {A : Type 0} (m : GraphHandler pg A) → Keeps (IsNamed pg) m → Keeps Named (on_graph pg m)
  unfolding on_graph
  on_graph-Keeps m k = record { at = λ s y. k.at s.graph_store y }

  put_channel-Keeps : (b : Bool) (e : Edge) → Keeps Named (put_channel pg b e)
  unfolding put_channel
  put_channel-Keeps b e = search (keeps_rules, on_graph-Keeps, put_edge-Keeps) depth 20

  change-Keeps : (b : Bool) (event : ChannelChangeEvent) → Keeps Named (change pg b event)
  unfolding change
  change-Keeps b (opened a balances) = search (keeps_rules, put_channel-Keeps)
  change-Keeps b (closed a balances) = search (keeps_rules, on_graph-Keeps, remove_edge-Keeps)
  change-Keeps b (locked a balances) = search (keeps_rules, on_graph-Keeps, remove_edge-Keeps)

  put_offset-Keeps : (b : Bool) (n : ℕ) (o : Option Storage) → Keeps Named (put_offset pg b n o)
  unfolding put_offset modify
  put_offset-Keeps b n none = search keeps_rules
  put_offset-Keeps b n (some t) = Keeps-bind _ _ (Keeps-lift _) (λ _. record { at = λ s y. y })

  stream-Keeps :
      (b : Bool) (n : ℕ) (event : ChannelChangeEvent)
      → Keeps Named (handle_channel_stream pg b n event)
  unfolding handle_channel_stream
  stream-Keeps b n event = search (keeps_rules, change-Keeps, put_offset-Keeps) depth 20

  follow-Named :
      (events : List (Bool × ℕ × ChannelChangeEvent)) (s : RouterInner pg)
      → Named s
      → Named (follow pg events s)
  unfolding follow
  follow-Named [] s y = y
  follow-Named ((b, n, event) ∷ events) s y =
      follow-Named events _ ((stream-Keeps b n event).at s y)

bind_total :
    {E A B : Type 0} (m : Outcome E A) (f : A → Outcome E B)
    → m ≢ panic
    → ((a : A) → f a ≢ panic)
    → (m >>= f) ≢ panic
bind_total (ok a) f t u = u a
bind_total (err e) f t u = λ bad. cc
bind_total panic f t u = λ bad. t refl

ok_or_total : {E A : Type 0} (e : E) (o : Option A) → ok_or e o ≢ panic
ok_or_total e none = λ bad. cc
ok_or_total e (some a) = λ bad. cc

ensure_total : {E : Type 0} (b : Bool) (e : E) → ensure b e ≢ panic
ensure_total true e = λ bad. cc
ensure_total false e = λ bad. cc

ok_total : {E A : Type 0} (a : A) → ◌≢◌ {A = Outcome E A} (ok a) panic
ok_total a = λ bad. cc

ruleset total_rules = (bind_total, ok_or_total, ensure_total, ok_total)

module _ (node : Node) (query_balance : ℕ → ℕ → Option BalanceQueryResponse) where
  own_total : (p : ℕ) → from_node (own_balance node p) ≢ panic
  unfolding own_balance
  own_total p = of_node _ (search total_rules depth 20)
    where
      of_node : (r : Outcome SearchError BalanceQueryResponse) → r ≢ panic → from_node r ≢ panic
      of_node (ok a) t = λ bad. cc
      of_node (err e) t = λ bad. cc
      of_node panic t = λ bad. t refl

  query_all_total : (vs : List ℕ) → query_all node query_balance vs ≢ panic
  unfolding query_all
  query_all_total [] = ok_total _
  query_all_total (a ∷ []) = ok_total _
  query_all_total (a ∷ b ∷ vs) =
      bind_total _ _ (ok_or_total _ _)
        (λ r. bind_total _ _ (query_all_total (b ∷ vs)) (λ rest. ok_total _))

  list_total : (vs : List ℕ) → vertexes_to_balance_list node query_balance vs ≢ panic
  unfolding vertexes_to_balance_list
  list_total [] = λ bad. cc
  list_total (_ ∷ []) = λ bad. cc
  list_total (a ∷ b ∷ vs) = search (total_rules, own_total, query_all_total) depth 20

  lists_total : (paths : List (List ℕ)) → balance_lists node query_balance paths ≢ panic
  unfolding balance_lists
  lists_total [] = ok_total _
  lists_total (p ∷ ps) =
      bind_total _ _ (list_total p) (λ b. bind_total _ _ (lists_total ps) (λ rest. ok_total _))

  find_total : (paths : List (List ℕ)) → find_path node query_balance paths ≢ panic
  unfolding find_path
  find_total paths = bind_total _ _ (lists_total paths) (λ lists. ok_total _)

  any_total :
      (r : Outcome GraphError (Option (List (List ℕ))))
      → r ≢ panic
      → find_any node query_balance r ≢ panic
  any_total (ok (some paths)) t = find_total paths
  any_total (ok none) t = ok_total _
  any_total (err e) t = λ bad. cc
  any_total panic t = λ bad. t refl

-- With a graph library that numbers its nodes as petgraph documents: a table router that is new, with
-- a storage or without, after any events of the chain, in any order and with a disk that may fail in
-- any of them, never panics when it is asked for a path, whichever accounts it is asked for and
-- whatever the other nodes answer: each index on a path is known.
pub table_never_panics :
    (pg : Petgraph) (node : Node) (query_balance : ℕ → ℕ → Option BalanceQueryResponse)
    (events : List (Bool × ℕ × ChannelChangeEvent)) (disk_works persist_data : Bool)
    (storage : Option Storage) (start end : ℕ)
    → HasIndexes pg
    → handle_router_msg pg node query_balance start end (
        follow pg events (record {
          graph_store = (new pg disk_works persist_data storage).1;
          offset = none;
          sent = [];
        }))
      ≢ panic
unfolding handle_router_msg
table_never_panics pg node query_balance events disk_works persist_data storage start end has =
    any_total node query_balance _ (
      find_all_path_total pg has _ start end 5
        (follow-Named pg has events _ (new-IsNamed pg has disk_works persist_data storage)))
