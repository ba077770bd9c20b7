-- ===== src/Router/Table/Closing.antt =====
-- router/src/lib.rs and router/graphdb/src/graph_store.rs: what becomes of a channel that is closed.
use stargate.Common.{
  ℕ, ◌+◌, ◌<◌, ◌≤◌, ◌≡◌, refl, ap, ◌∙◌, arith, Bool, true, Option, none, some, [], ◌∷◌,
}
use stargate.Common.Outcome.{ok, panic}
use stargate.Common.Handler.{◌>>=◌, pure, lift, modify, run-bind, run-gets, run-lift, run-panic}
use stargate.Router.Graph.{
  Petgraph, GraphStore, Storage, Edge, get_edge, delete_edge, from_vertexes, write, remove_found,
  remove_edge,
}
use stargate.Router.Table.{RouterInner, closed, generate_edge, on_graph}
use stargate.Router.Table.Handlers.{change, handle_channel_stream}

abbrev pub between : ℕ → ℕ → Edge
between a b = record { outbound_id = a; inbound_id = b }

module _ (pg : Petgraph) where
  abbrev without : Option ℕ → GraphStore pg → GraphStore pg
  without none s = s
  without (some i) s = record s { graph = pg.remove_edge i s.graph }

  removes : (o : Option ℕ) (s : GraphStore pg) → remove_found pg o s ≡ (ok tt, without o s)
  unfolding remove_found pure modify
  removes none s = refl
  removes (some i) s = refl

  kept_storage : (o : Option ℕ) (s : GraphStore pg) → (without o s).storage ≡ s.storage
  kept_storage none s = refl
  kept_storage (some i) s = refl

  -- the edge leaves the graph by its index, and the map of indexes is as it was
  remove_edge-runs :
      (e : Edge) (s : GraphStore pg) (t : Storage) (o : Option ℕ)
      → s.storage ≡ some t
      → get_edge s.edge_index_map e ≡ o
      → remove_edge pg true e s ≡ (
        ok tt,
        record (without o s) { storage = some (record t { edges = delete_edge e t.edges }) },
      )
  unfolding remove_edge write modify
  remove_edge-runs e s t o has known =
      run-gets _ _ s known
      ∙ run-bind _ _ s (removes o s)
      ∙ run-gets _ _ _ (kept_storage o s ∙ has)
      ∙ run-lift _ _ _ refl
      ∙ run-lift _ _ _ refl

  panics :
      (b : Bool) (e : Edge) (s : GraphStore pg)
      → s.storage ≡ none
      → remove_edge pg b e s ≡ (panic, without (get_edge s.edge_index_map e) s)
  unfolding remove_edge write
  panics b e s has =
      run-gets _ _ s refl
      ∙ run-bind _ _ s (removes (get_edge s.edge_index_map e) s)
      ∙ run-gets _ _ _ (kept_storage (get_edge s.edge_index_map e) s ∙ has)
      ∙ run-panic _ _ _ refl

  -- A router without a storage, which is what it is made with when it is given no path: the event of
  -- a channel that closes makes its handler panic, whatever the graph holds.
  close_panics :
      (disk_works : Bool) (number channel_address a b m n : ℕ) (s : RouterInner pg)
      → s.graph_store.storage ≡ none
      → (handle_channel_stream pg disk_works number
          (closed channel_address ((a, m) ∷ (b, n) ∷ []))
          s).0
        ≡ panic
  unfolding handle_channel_stream change generate_edge from_vertexes on_graph ◌>>=◌ lift
  close_panics disk_works number channel_address a b m n s has =
      rw (panics disk_works (between a b) s.graph_store has) refl

  -- Two channels that the router knows by their edges' indexes, the second of which has the last index
  -- of the graph, in a router with a storage that works: when both are closed, the first one first,
  -- the second one is still in the graph, under the index of the first.
  pub closed_stays :
      (first last : Edge) (s : GraphStore pg) (t : Storage) (i n : ℕ)
      → ((k : ℕ) (g : pg.Graph) → pg.edge_count g ≤ k → pg.remove_edge k g ≡ g)
      → ((k : ℕ) (g : pg.Graph)
          → k < pg.edge_count g
          → pg.edge_count (pg.remove_edge k g) + 1 ≡ pg.edge_count g)
      → ((k l : ℕ) (g : pg.Graph)
          → k < l
          → l + 1 ≡ pg.edge_count g
          → pg.edge_weight (pg.remove_edge k g) k ≡ pg.edge_weight g l)
      → s.storage ≡ some t
      → get_edge s.edge_index_map first ≡ some i
      → get_edge s.edge_index_map last ≡ some n
      → pg.edge_weight s.graph n ≡ some last
      → i < n
      → n + 1 ≡ pg.edge_count s.graph
      → (u : GraphStore pg) × ((remove_edge pg true first >>= λ _. remove_edge pg true last) s
          ≡ (ok tt, u))
        × (pg.edge_weight u.graph i ≡ some last)
  closed_stays first last s t i n absent counted moved has is_first is_last weighs before newest = (
    _,
    run-bind _ _ s (remove_edge-runs first s t (some i) has is_first)
        ∙ remove_edge-runs last _ _ (some n) refl is_last,
    ap (λ g. pg.edge_weight g i)
          (absent n (pg.remove_edge i s.graph)
            (omega (arith, counted i s.graph (omega (arith, before, newest)), newest)))
        ∙ moved i n s.graph before newest
        ∙ weighs,
  )
