-- ===== src/Examples/Tables.antt =====
-- Runs of the table router on concrete inputs, with a small graph library.
use stargate.Common.{
  ℕ, ◌+◌, ◌-◌, ◌<◌, ◌≤◌, ◌≡◌, ◌≢◌, refl, arith, Bool, true, false, ◌&&◌, Option, none, some, List,
  [], ◌∷◌, ◌==◌, ltb, if◌then◌else◌, All,
}
use stargate.Common.Outcome.{ok, panic}
use stargate.Common.Handler.{◌>>=◌}
use stargate.Router.Paths.{BalanceQueryResponse}
use stargate.Router.Wallet.{Node}
use stargate.Router.Graph.{
  Edge, Petgraph, GraphStore, Storage, new, remove_edge, get_edge, same_edge,
}
use stargate.Router.Graph.Indexes.{HasIndexes}
use stargate.Router.Table.{RouterInner, ChannelChangeEvent, opened, closed}
use stargate.Router.Table.Handlers.{handle_router_msg}
use stargate.Router.Table.Following.{follow, table_never_panics}
use stargate.Router.Table.Closing.{between, closed_stays}

record SmallGraph : Type 0 where
  nodes : ℕ
  count : ℕ
  edge_at : ℕ → Edge

abbrev weight : SmallGraph → ℕ → Option Edge
weight g k = if ltb k g.count then some (g.edge_at k) else none

-- the last edge takes the index of the one that is removed
abbrev swap_remove : ℕ → SmallGraph → SmallGraph
swap_remove k g =
    if ltb k g.count
    then record g {
      count = g.count - 1;
      edge_at = λ i. if i == k then g.edge_at (g.count - 1) else g.edge_at i;
    }
    else g

abbrev graph : Petgraph
graph = record {
  Graph = SmallGraph;
  new_undirected = record { nodes = 0; count = 0; edge_at = λ _. between 0 0 };
  node_count = λ g. g.nodes;
  edge_count = λ g. g.count;
  edge_weight = weight;
  add_node = λ v g. (g.nodes, record g { nodes = g.nodes + 1 });
  add_edge = λ i j e g. (
    g.count,
    record g { count = g.count + 1; edge_at = λ k. if k == g.count then e else g.edge_at k },
  );
  remove_node = λ i g. g;
  remove_edge = swap_remove;
  astar = λ g i j. some (i ∷ j ∷ []);
  all_simple_paths = λ g i j n. if ltb i g.nodes && ltb j g.nodes then (i ∷ j ∷ []) ∷ [] else [];
}

removed_nodes : (k : ℕ) (g : SmallGraph) → (swap_remove k g).nodes ≡ g.nodes
removed_nodes k g = ground arith

paths_known :
    (g : SmallGraph) (i j : ℕ) (b : Bool)
    → (ltb i g.nodes && ltb j g.nodes) ≡ b
    → All (All (λ k. k < g.nodes)) (if b then (i ∷ j ∷ []) ∷ [] else [])
paths_known g i j true e = ((ground (arith, e), (ground (arith, e), tt)), tt)
paths_known g i j false e = tt

graph-HasIndexes : HasIndexes graph
graph-HasIndexes = record {
  empty = refl;
  node_index = λ v g. refl;
  node_added = λ v g. refl;
  edge_added = λ i j e g. refl;
  edge_removed = removed_nodes;
  paths = λ g i j n. paths_known g i j _ refl;
}

abbrev node : Node
node = record {
  account = 1;
  all_channels = some (2 ∷ 4 ∷ []);
  channel_balance = λ p. some (p + 10);
  participant_channel_balance = λ p. some 5;
  back_pressure = λ a p. some p;
  hash = λ _. 0;
  meets = λ _ _. false;
}

abbrev query : ℕ → ℕ → Option BalanceQueryResponse
query a b = some (record {
  local_addr = a;
  remote_addr = b;
  local_balance = 20;
  remote_balance = 5;
  total_pay_amount = a;
})

abbrev chain : List (Bool × ℕ × ChannelChangeEvent)
chain =
    (true, 1, opened 100 ((1, 5) ∷ (2, 6) ∷ []))
    ∷ (false, 2, opened 101 ((2, 5) ∷ (3, 6) ∷ []))
    ∷ (true, 3, closed 100 ((1, 5) ∷ (2, 6) ∷ []))
    ∷ []

table_never_panics_example :
    handle_router_msg graph node query 1 3 (
      follow graph chain
        (record { graph_store = (new graph true false none).1; offset = none; sent = [] }))
    ≢ panic
table_never_panics_example =
    table_never_panics graph node query chain true false none 1 3 graph-HasIndexes

abbrev two_edges : Option Storage → GraphStore graph
two_edges storage = record {
  graph = record {
    nodes = 3;
    count = 2;
    edge_at = λ k. if k == 0 then between 1 2 else between 1 3;
  };
  node_index_map = (1, 0) ∷ (2, 1) ∷ (3, 2) ∷ [];
  index_node_map = (0, 1) ∷ (1, 2) ∷ (2, 3) ∷ [];
  edge_index_map = (between 1 2, 0) ∷ (between 1 3, 1) ∷ [];
  persist_data = true;
  storage = storage;
}

abbrev router : RouterInner graph
router = record { graph_store = two_edges none; offset = none; sent = [] }

abbrev stored : Storage
stored = record { vertexes = []; edges = [] }

finds : get_edge (two_edges (some stored)).edge_index_map (between 1 2) ≡ some 0
unfolding get_edge same_edge
finds = refl

finds_last : get_edge (two_edges (some stored)).edge_index_map (between 1 3) ≡ some 1
unfolding get_edge same_edge
finds_last = refl

absent : (k : ℕ) (g : SmallGraph) → g.count ≤ k → swap_remove k g ≡ g
absent k g above = rw (not_below k g.count above) refl
  where
    not_below : (k n : ℕ) → n ≤ k → ltb k n ≡ false
    not_below k n above = ground (arith, above)

counted : (k : ℕ) (g : SmallGraph) → k < g.count → (swap_remove k g).count + 1 ≡ g.count
counted k g below = ground (arith, below)

moved :
    (k l : ℕ) (g : SmallGraph) → k < l → l + 1 ≡ g.count → weight (swap_remove k g) k ≡ weight g l
moved k l g below newest =
    rw
      (
        is_below k g.count (omega (arith, below, newest)),
        is_below k (g.count - 1) (omega (arith, below, newest)),
        ==-same k,
        is_below l g.count (omega (arith, newest)),
        is_last l g.count newest,
      )
      refl
  where
    is_below : (k n : ℕ) → k < n → ltb k n ≡ true
    is_below k n below = ground (arith, below)

    ==-same : (k : ℕ) → (k == k) ≡ true
    ==-same k = ground arith

    is_last : (l n : ℕ) → l + 1 ≡ n → n - 1 ≡ l
    is_last l n newest = omega (arith, newest)

closed_stays_example :
    (u : GraphStore graph) × ((remove_edge graph true (between 1 2) >>= λ _.
    remove_edge graph true (between 1 3))
        (two_edges (some stored))
      ≡ (ok tt, u))
    × (weight u.graph 0 ≡ some (between 1 3))
closed_stays_example =
    closed_stays graph (between 1 2) (between 1 3) (two_edges (some stored)) stored 0 1 absent
      counted moved refl finds finds_last refl (omega arith) refl
