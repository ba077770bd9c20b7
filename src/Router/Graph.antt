-- ===== src/Router/Graph.antt =====
-- router/graphdb/src/graph_store.rs, with vertex.rs and edge.rs: the channels of the chain as a graph
-- of accounts. The graph itself is petgraph's, a parameter: nodes and edges are known by the indexes
-- that it gives them.
pub mod Indexes
use stargate.Common.{
  ℕ, Bool, true, false, not, ◌&&◌, Option, none, some, List, [], ◌∷◌, ◌++◌, ◌==◌, if◌then◌else◌,
  contains,
}
use stargate.Common.Dict.{Dict, get, contains_key, insert, remove}
use stargate.Common.Outcome.{Outcome, ok, err, panic, ensure, expect, ok_or}
use stargate.Common.Handler.{Handler, ◌>>=◌, ◌>>◌, pure, fail, lift, gets, modify}

-- A vertex is compared by its account; the type of all vertices and edges is "BI".
pub record Edge : Type 0 where
  pub outbound_id : ℕ
  pub inbound_id : ℕ

unfoldable pub from_vertexes : List ℕ → Option Edge
from_vertexes (a ∷ b ∷ []) = some (record { outbound_id = a; inbound_id = b })
from_vertexes _ = none

unfoldable pub same_edge : Edge → Edge → Bool
same_edge e f = e.outbound_id == f.outbound_id && e.inbound_id == f.inbound_id

-- what the code uses of `petgraph::Graph`
pub record Petgraph : Type 1 where
  pub Graph : Type 0
  pub new_undirected : Graph
  pub node_count : Graph → ℕ
  pub edge_count : Graph → ℕ
  pub edge_weight : Graph → ℕ → Option Edge
  pub add_node : ℕ → Graph → ℕ × Graph
  pub add_edge : ℕ → ℕ → Edge → Graph → ℕ × Graph
  pub remove_node : ℕ → Graph → Graph
  pub remove_edge : ℕ → Graph → Graph
  pub astar : Graph → ℕ → ℕ → Option (List ℕ)
  pub all_simple_paths : Graph → ℕ → ℕ → ℕ → List (List ℕ)

-- a HashMap keyed by edges
abbrev pub EdgeMap : Type 0
EdgeMap = List (Edge × ℕ)

unfoldable pub get_edge : EdgeMap → Edge → Option ℕ
get_edge [] e = none
get_edge ((key, v) ∷ m) e = if same_edge key e then some v else get_edge m e

unfoldable pub insert_edge : Edge → ℕ → EdgeMap → EdgeMap
insert_edge e v [] = (e, v) ∷ []
insert_edge e v ((key, w) ∷ m) =
    let rest = insert_edge e v m in if same_edge key e then (key, v) ∷ m else (key, w) ∷ rest

unfoldable pub delete_edge : Edge → EdgeMap → EdgeMap
delete_edge e [] = []
delete_edge e ((key, w) ∷ m) =
    let rest = delete_edge e m in if same_edge key e then rest else (key, w) ∷ rest

-- the column families of the storage
pub record Storage : Type 0 where
  pub vertexes : List ℕ
  pub edges : EdgeMap

pub data GraphError : Type 0 where
  no_such_node no_path storage_error : GraphError

abbrev pub put_key : ℕ → List ℕ → List ℕ
put_key node vertexes = if contains vertexes node then vertexes else node ∷ vertexes

abbrev pub delete_vertex : ℕ → List ℕ → List ℕ
delete_vertex node [] = []
delete_vertex node (v ∷ vertexes) =
    let rest = delete_vertex node vertexes in if v == node then rest else v ∷ rest

module _ (pg : Petgraph) where
  pub record GraphStore : Type 0 where
    pub graph : pg.Graph
    pub node_index_map : Dict ℕ
    pub index_node_map : Dict ℕ
    pub edge_index_map : EdgeMap
    pub persist_data : Bool
    pub storage : Option Storage

  abbrev pub GraphHandler : Type 0 → Type 0
  GraphHandler A = Handler GraphStore GraphError A

  -- `storage.as_ref().expect(…)`, and a write that reaches the disk or not
  unfoldable pub write : Bool → (Storage → Storage) → GraphHandler (Unit {0})
  write disk_works f = do
    found ← gets (λ s. s.storage)
    storage ← lift (expect found)
    lift (ensure disk_works storage_error)
    modify (λ s. record s { storage = some (f storage) })

  unfoldable pub write_if : Bool → Bool → (Storage → Storage) → GraphHandler (Unit {0})
  write_if disk_works false f = pure tt
  write_if disk_works true f = write disk_works f

  abbrev pub with_node : ℕ → ℕ × pg.Graph → GraphStore → GraphStore
  with_node node added s = record s {
    graph = added.1;
    node_index_map = insert node added.0 s.node_index_map;
    index_node_map = insert added.0 node s.index_node_map;
  }

  unfoldable pub add_vertex : ℕ → GraphHandler ℕ
  add_vertex node = do
    added ← gets (λ s. pg.add_node node s.graph)
    modify (with_node node added)
    pure added.0

  unfoldable pub put_vertex : Bool → ℕ → GraphHandler ℕ
  put_vertex disk_works node = do
    persist_data ← gets (λ s. s.persist_data)
    write_if disk_works persist_data (λ t. record t { vertexes = put_key node t.vertexes })
    add_vertex node

  unfoldable pub index_or_put : Bool → ℕ → Option ℕ → GraphHandler ℕ
  index_or_put disk_works node none = put_vertex disk_works node
  index_or_put disk_works node (some index) = pure index

  unfoldable pub index_of : Bool → ℕ → GraphHandler ℕ
  index_of disk_works node = do
    found ← gets (λ s. get s.node_index_map node)
    index_or_put disk_works node found

  abbrev pub with_edge : Edge → ℕ × pg.Graph → GraphStore → GraphStore
  with_edge edge added s = record s {
    graph = added.1;
    edge_index_map = insert_edge edge added.0 s.edge_index_map;
  }

  unfoldable pub link : ℕ → ℕ → Edge → GraphHandler ℕ
  link start_index end_index edge = do
    added ← gets (λ s. pg.add_edge start_index end_index edge s.graph)
    modify (with_edge edge added)
    pure added.0

  unfoldable pub put_edge : Bool → Edge → ℕ → Bool → GraphHandler ℕ
  put_edge disk_works edge weight memory_only = do
    start_index ← index_of disk_works edge.inbound_id
    end_index ← index_of disk_works edge.outbound_id
    edge_index ← link start_index end_index edge
    persist_data ← gets (λ s. s.persist_data)
    write_if disk_works (persist_data && not memory_only)
        (λ t. record t { edges = insert_edge edge weight t.edges })
    pure edge_index

  unfoldable pub put_all : Bool → EdgeMap → GraphHandler (Unit {0})
  put_all disk_works [] = pure tt
  put_all disk_works ((edge, weight) ∷ edges) =
      put_edge disk_works edge weight true >> put_all disk_works edges

  unfoldable pub recovery_data : Bool → GraphHandler (Unit {0})
  recovery_data disk_works = do
    found ← gets (λ s. s.storage)
    storage ← lift (expect found)
    put_all disk_works storage.edges

  abbrev pub empty_store : Bool → Option Storage → GraphStore
  empty_store persist_data storage = record {
    graph = pg.new_undirected;
    node_index_map = [];
    index_node_map = [];
    edge_index_map = [];
    persist_data = persist_data;
    storage = storage;
  }

  unfoldable pub recovered : Bool → Bool → GraphHandler (Unit {0})
  recovered disk_works false = pure tt
  recovered disk_works true = recovery_data disk_works

  -- GraphStore::new
  unfoldable pub new : Bool → Bool → Option Storage → Outcome GraphError (Unit {0}) × GraphStore
  new disk_works persist_data storage =
      recovered disk_works persist_data (empty_store persist_data storage)

  -- the map is borrowed to the end of the match, so that the last change to it panics
  unfoldable pub remove_node : ℕ → Option ℕ → GraphHandler (Unit {0})
  remove_node node none = pure tt
  remove_node node (some index) = do
    modify (λ s. record s {
      graph = pg.remove_node index s.graph;
      index_node_map = remove index s.index_node_map;
    })
    lift panic

  unfoldable pub remove_vertex : Bool → ℕ → GraphHandler (Unit {0})
  remove_vertex disk_works node = do
    found ← gets (λ s. get s.node_index_map node)
    remove_node node found
    write disk_works (λ t. record t { vertexes = delete_vertex node t.vertexes })

  unfoldable pub remove_found : Option ℕ → GraphHandler (Unit {0})
  remove_found none = pure tt
  remove_found (some index) = modify (λ s. record s { graph = pg.remove_edge index s.graph })

  unfoldable pub remove_edge : Bool → Edge → GraphHandler (Unit {0})
  remove_edge disk_works edge = do
    found ← gets (λ s. get_edge s.edge_index_map edge)
    remove_found found
    write disk_works (λ t. record t { edges = delete_edge edge t.edges })

  -- the nodes of a path, each of which must be known
  abbrev pub cons_node : Option ℕ → Outcome GraphError (List ℕ) → Outcome GraphError (List ℕ)
  cons_node none rest = panic
  cons_node (some node) (ok nodes) = ok (node ∷ nodes)
  cons_node (some node) (err e) = err e
  cons_node (some node) panic = panic

  unfoldable pub nodes_of : Dict ℕ → List ℕ → Outcome GraphError (List ℕ)
  nodes_of index_node_map [] = ok []
  nodes_of index_node_map (i ∷ indexes) =
      cons_node (get index_node_map i) (nodes_of index_node_map indexes)

  abbrev pub cons_path :
      Outcome GraphError (List ℕ)
      → Outcome GraphError (List (List ℕ))
      → Outcome GraphError (List (List ℕ))
  cons_path (ok path) (ok paths) = ok (path ∷ paths)
  cons_path (ok path) (err e) = err e
  cons_path (ok path) panic = panic
  cons_path (err e) rest = err e
  cons_path panic rest = panic

  unfoldable pub paths_of : Dict ℕ → List (List ℕ) → Outcome GraphError (List (List ℕ))
  paths_of index_node_map [] = ok []
  paths_of index_node_map (p ∷ paths) =
      cons_path (nodes_of index_node_map p) (paths_of index_node_map paths)

  unfoldable pub find_path : ℕ → ℕ → GraphHandler (Option (List ℕ))
  find_path start_node end_node = do
    start ← gets (λ s. get s.node_index_map start_node)
    start_index ← lift (ok_or no_such_node start)
    end ← gets (λ s. get s.node_index_map end_node)
    end_index ← lift (ok_or no_such_node end)
    found ← gets (λ s. pg.astar s.graph start_index end_index)
    indexes ← lift (ok_or no_path found)
    index_node_map ← gets (λ s. s.index_node_map)
    path ← lift (nodes_of index_node_map indexes)
    pure (some path)

  abbrev pub unless_empty : List (List ℕ) → Option (List (List ℕ))
  unless_empty [] = none
  unless_empty (p ∷ paths) = some (p ∷ paths)

  unfoldable pub find_all_path : ℕ → ℕ → ℕ → GraphHandler (Option (List (List ℕ)))
  find_all_path start_node end_node max_deep = do
    start ← gets (λ s. get s.node_index_map start_node)
    start_index ← lift (ok_or no_such_node start)
    end ← gets (λ s. get s.node_index_map end_node)
    end_index ← lift (ok_or no_such_node end)
    indexes ← gets (λ s. pg.all_simple_paths s.graph start_index end_index max_deep)
    index_node_map ← gets (λ s. s.index_node_map)
    paths ← lift (paths_of index_node_map indexes)
    pure (unless_empty paths)
