-- ===== src/Router/Graph/Indexes.antt =====
-- router/graphdb/src/graph_store.rs: every node of the graph has an account in the map of indexes.
use stargate.Common.{
  ℕ, ◌+◌, ◌<◌, ◌≡◌, ◌≢◌, refl, ap, ◌∙◌, arith, Bool, true, false, Option, none, some, List, [], ◌∷◌,
  ◌==◌, All, Bool-cases, inl, inr,
}
use stargate.Common.Dict.{get, get-insert}
use stargate.Common.Outcome.{Outcome, ok, panic, expect}
use stargate.Common.Handler.{
  Keeps, keeps_rules, ◌>>=◌, pure, lift, gets, modify, Keeps-bind, Keeps-lift, Keeps-gets-bind,
  run-gets, run-lift,
}
use stargate.Router.Graph.{
  Petgraph, GraphStore, GraphError, Storage, Edge, EdgeMap, write, write_if, with_node, put_vertex,
  add_vertex, link, index_or_put, index_of, put_edge, new, put_all, recovery_data, recovered,
  remove_found, remove_edge, nodes_of, paths_of, find_all_path,
}

-- what petgraph documents of its indexes
pub record HasIndexes (pg : Petgraph) : Type 0 where
  pub empty : pg.node_count pg.new_undirected ≡ 0
  pub node_index : (v : ℕ) (g : pg.Graph) → (pg.add_node v g).0 ≡ pg.node_count g
  pub node_added : (v : ℕ) (g : pg.Graph) → pg.node_count (pg.add_node v g).1 ≡ pg.node_count g + 1
  pub edge_added :
      (i j : ℕ) (e : Edge) (g : pg.Graph) → pg.node_count (pg.add_edge i j e g).1 ≡ pg.node_count g
  pub edge_removed : (i : ℕ) (g : pg.Graph) → pg.node_count (pg.remove_edge i g) ≡ pg.node_count g
  pub paths :
      (g : pg.Graph) (i j n : ℕ)
      → All (All (λ k. k < pg.node_count g)) (pg.all_simple_paths g i j n)

-- each index of a node is known
pub record IsNamed (pg : Petgraph) (s : GraphStore pg) : Type 0 where
  pub named : (i : ℕ) → i < pg.node_count s.graph → (v : ℕ) × (get s.index_node_map i ≡ some v)

module _ (pg : Petgraph) (has : HasIndexes pg) where
  abbrev Named : GraphStore pg → Type 0
  Named = IsNamed pg

  same_nodes :
      (s t : GraphStore pg)
      → pg.node_count t.graph ≡ pg.node_count s.graph
      → t.index_node_map ≡ s.index_node_map
      → Named s
      → Named t
  same_nodes s t count same y = record {
    named = λ i below.
        let (v, e) = y.named i (omega (arith, count, below)) in (v, ap (λ m. get m i) same ∙ e);
  }

  write-Keeps : (b : Bool) (f : Storage → Storage) → Keeps Named (write pg b f)
  unfolding write modify
  write-Keeps b f = Keeps-gets-bind _ _ (λ s y.
      (Keeps-bind _ _ (Keeps-lift (expect s.storage)) (λ storage.
          Keeps-bind _ _ (Keeps-lift _)
            (λ _. record { at = λ t z. same_nodes t _ refl refl z }))).at
        s y)

  write_if-Keeps : (b c : Bool) (f : Storage → Storage) → Keeps Named (write_if pg b c f)
  unfolding write_if
  write_if-Keeps b false f = search keeps_rules
  write_if-Keeps b true f = write-Keeps b f

  with_node-IsNamed :
      (node : ℕ) (s : GraphStore pg)
      → Named s
      → Named (with_node pg node (pg.add_node node s.graph) s)
  with_node-IsNamed node s y = record {
    named = λ i below. elim (Bool-cases ((pg.add_node node s.graph).0 == i)) [
      | inl new ↦
          (node, rw (get-insert (pg.add_node node s.graph).0 i node s.index_node_map, new) refl)
      | inr old ↦
          let (v, e) = y.named i (
            ground (arith, has.node_index node s.graph, has.node_added node s.graph, old, below)) in
          (v, rw (get-insert (pg.add_node node s.graph).0 i node s.index_node_map, old) e)
    ];
  }

  add_vertex-Keeps : (node : ℕ) → Keeps Named (add_vertex pg node)
  unfolding add_vertex modify ◌>>=◌ pure gets
  add_vertex-Keeps node = record { at = with_node-IsNamed node }

  link-Keeps : (i j : ℕ) (e : Edge) → Keeps Named (link pg i j e)
  unfolding link modify ◌>>=◌ pure gets
  link-Keeps i j e = record { at = λ s y. same_nodes s _ (has.edge_added i j e s.graph) refl y }

  put_vertex-Keeps : (b : Bool) (node : ℕ) → Keeps Named (put_vertex pg b node)
  unfolding put_vertex
  put_vertex-Keeps b node = search (keeps_rules, write_if-Keeps, add_vertex-Keeps)

  index_or_put-Keeps : (b : Bool) (node : ℕ) (o : Option ℕ) → Keeps Named (index_or_put pg b node o)
  unfolding index_or_put
  index_or_put-Keeps b node none = put_vertex-Keeps b node
  index_or_put-Keeps b node (some i) = search keeps_rules

  index_of-Keeps : (b : Bool) (node : ℕ) → Keeps Named (index_of pg b node)
  unfolding index_of
  index_of-Keeps b node = search (keeps_rules, index_or_put-Keeps)

  pub put_edge-Keeps :
      (b : Bool) (e : Edge) (weight : ℕ) (memory_only : Bool)
      → Keeps Named (put_edge pg b e weight memory_only)
  unfolding put_edge
  put_edge-Keeps b e weight memory_only =
      search (keeps_rules, index_of-Keeps, link-Keeps, write_if-Keeps) depth 20

  put_all-Keeps : (b : Bool) (edges : EdgeMap) → Keeps Named (put_all pg b edges)
  unfolding put_all
  put_all-Keeps b [] = search keeps_rules
  put_all-Keeps b ((e, weight) ∷ edges) =
      Keeps-bind _ _ (put_edge-Keeps b e weight true) (λ _. put_all-Keeps b edges)

  recovered-Keeps : (b persist_data : Bool) → Keeps Named (recovered pg b persist_data)
  unfolding recovered recovery_data
  recovered-Keeps b false = search keeps_rules
  recovered-Keeps b true = search (keeps_rules, put_all-Keeps) depth 20

  remove_found-Keeps : (o : Option ℕ) → Keeps Named (remove_found pg o)
  unfolding remove_found modify
  remove_found-Keeps none = search keeps_rules
  remove_found-Keeps (some i) = record {
    at = λ s y. same_nodes s _ (has.edge_removed i s.graph) refl y;
  }

  pub remove_edge-Keeps : (b : Bool) (e : Edge) → Keeps Named (remove_edge pg b e)
  unfolding remove_edge
  remove_edge-Keeps b e = search (keeps_rules, remove_found-Keeps, write-Keeps) depth 20

  -- a store as it is made, with what it recovers
  pub new-IsNamed : (b persist_data : Bool) (o : Option Storage) → Named (new pg b persist_data o).1
  unfolding new
  new-IsNamed b persist_data o =
      (recovered-Keeps b persist_data).at _
        (record { named = λ i below. absurd (omega (arith, has.empty, below)) })

  nodes_found :
      (s : GraphStore pg)
      → Named s
      → (is : List ℕ) → All (λ k. k < pg.node_count s.graph) is
      → (ns : List ℕ) × (nodes_of pg s.index_node_map is ≡ ok ns)
  unfolding nodes_of
  nodes_found s y [] all = ([], refl)
  nodes_found s y (i ∷ is) all =
      let (v, e) = y.named i all.0 in
      let (ns, f) = nodes_found s y is all.1 in (v ∷ ns, rw (e, f) refl)

  paths_found :
      (s : GraphStore pg)
      → Named s
      → (ps : List (List ℕ)) → All (All (λ k. k < pg.node_count s.graph)) ps
      → (qs : List (List ℕ)) × (paths_of pg s.index_node_map ps ≡ ok qs)
  unfolding paths_of
  paths_found s y [] all = ([], refl)
  paths_found s y (p ∷ ps) all =
      let (q, e) = nodes_found s y p all.0 in
      let (qs, f) = paths_found s y ps all.1 in (q ∷ qs, rw (e, f) refl)

  -- two accounts that the graph knows: the paths are found
  pub find_all_path-finds :
      (s : GraphStore pg) (start end deep i j : ℕ)
      → Named s
      → get s.node_index_map start ≡ some i
      → get s.node_index_map end ≡ some j
      → (o : Option (List (List ℕ))) × (find_all_path pg start end deep s ≡ (ok o, s))
  unfolding find_all_path pure
  find_all_path-finds s start end deep i j y e f =
      let (qs, g) = paths_found s y _ (has.paths s.graph i j deep) in
      (
        _,
        run-gets _ _ s e
            ∙ run-lift _ _ s refl
            ∙ run-gets _ _ s f
            ∙ run-lift _ _ s refl
            ∙ run-gets _ _ s refl
            ∙ run-gets _ _ s refl
            ∙ run-lift _ _ s g,
      )

  -- ... and one that it does not know is an error
  pub find_all_path_total :
      (s : GraphStore pg) (start end deep : ℕ)
      → Named s
      → (find_all_path pg start end deep s).0 ≢ panic
  unfolding find_all_path gets lift ◌>>=◌
  find_all_path_total s start end deep y =
      of_known (get s.node_index_map start) (get s.node_index_map end) refl refl
    where
      of_known :
          (a b : Option ℕ)
          → get s.node_index_map start ≡ a
          → get s.node_index_map end ≡ b
          → (find_all_path pg start end deep s).0 ≢ panic
      of_known (some i) (some j) e f =
          let (o, g) = find_all_path-finds s start end deep i j y e f in
          λ bad. let same = ap (λ (r : Outcome GraphError _ × GraphStore pg). r.0) g in cc
      of_known none b e f = rw (e) (λ bad. cc)
      of_known (some i) none e f = rw (e, f) (λ bad. cc)
