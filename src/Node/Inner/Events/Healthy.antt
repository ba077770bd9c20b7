-- ===== src/Node/Inner/Events/Healthy.antt =====
-- node/node_internal/src/node.rs: a node stays healthy, whatever happens to it.
use stargate.Common.{ℕ, ◌≡◌, ◌≤◌, sym, length, Bool, true, false, Option, none, some, List, [], ◌∷◌}
use mathlib.Core.Path.{subst}
use stargate.Common.Dict.{get}
use stargate.Common.Outcome.{ok, err, panic}
use stargate.Common.Handler.{Keeps, Keeps-bind}
use stargate.Store.{Hashes}
use stargate.Store.Read.{load}
use stargate.Store.Applier
use stargate.Invoice.{Codec, get_preimage}
use stargate.Invoice.Preimages.{call, call-Opens, invoice}
use stargate.Proposal.Requests.{ChannelTransactionRequest}
use stargate.Wallet.Calls.Durable.{Every, Every-map, call-AllReady}
use stargate.Node.Futures.{Poll, ready, failed, not_ready}
use stargate.Node.Futures.Life.{step, timed_out, abandon, step-IsSound}
use stargate.Node.Inner.{NodeWorld, NodeInner, NodeHandler, Response}
use stargate.Node.Inner.Startup
use stargate.Node.Inner.Startup.{Turn, Init}
use stargate.Node.Inner.Events
use stargate.Node.Inner.Events.{NodeEvent, happen}
use stargate.Node.Inner.Events.Wallets
use stargate.Node.Inner.Events.Keeping.{Healthy, IsHealthy, node_rules}
use stargate.Node.Inner.Events.Peers.{network-Keeps}
use stargate.Node.Inner.Events.Users.{user-Keeps}

module _ (nw : NodeWorld) where
  resend-Keeps :
      (b : Bool) (p : ℕ) (r : ChannelTransactionRequest)
      → Keeps (Healthy nw) (Startup.resend nw b p r)
  unfolding Startup.resend
  resend-Keeps false p r = search node_rules
  resend-Keeps true p r = search node_rules depth 20

  turn-Keeps :
      (p : ℕ) (r : Response (Option ChannelTransactionRequest))
      → Keeps (Healthy nw) (Startup.turn nw p r)
  unfolding Startup.turn
  turn-Keeps p (ok (some r)) = resend-Keeps _ p r
  turn-Keeps p (ok none) = search node_rules
  turn-Keeps p (err e) = search node_rules
  turn-Keeps p panic = search node_rules

  after_turn-Keeps :
      (ps : List ℕ) (rest : NodeHandler Init) (t : Turn)
      → Keeps (Healthy nw) rest
      → Keeps (Healthy nw) (Startup.after_turn nw ps rest t)
  unfolding Startup.after_turn
  after_turn-Keeps ps rest Startup.next k = k
  after_turn-Keeps ps rest (Startup.awaits id) k = search node_rules

  init_from-Keeps : (ps : List ℕ) → Keeps (Healthy nw) (Startup.init_from nw ps)
  unfolding Startup.init_from
  init_from-Keeps [] = search node_rules
  init_from-Keeps (p ∷ ps) =
      Keeps-bind _ _ (search (node_rules, Wallets.get_pending_txn_request-Ready))
        (λ r. Keeps-bind _ _ (turn-Keeps p r) (λ t. after_turn-Keeps ps _ t (init_from-Keeps ps)))

  init-Keeps : Keeps (Healthy nw) (Startup.init nw)
  unfolding Startup.init
  init-Keeps = search (node_rules, Wallets.get_all_channels-Ready, init_from-Keeps) depth 20

  resume-Keeps : (id : ℕ) (ps : List ℕ) (o : Poll) → Keeps (Healthy nw) (Startup.resume nw id ps o)
  unfolding Startup.resume
  resume-Keeps id ps (ready _) = init_from-Keeps ps
  resume-Keeps id ps (failed e) = search node_rules
  resume-Keeps id ps not_ready = search node_rules

  happen-Healthy : (e : NodeEvent) (s : NodeInner) → Healthy nw s → Healthy nw (happen nw e s)
  unfolding happen call step
  happen-Healthy (Events.network_msg msg) s y = (network-Keeps nw msg).at s y
  happen-Healthy (Events.node_msg msg) s y = (user-Keeps nw msg).at s y
  happen-Healthy (Events.add_invoice preimage amount) s y = record {
    wallet = y.wallet;
    processor = y.processor;
    invoices =
        call-Opens nw.c s.invoice_mgr (invoice preimage amount s.wallet.account.address) y.invoices;
  }
  happen-Healthy (Events.delay_over hash) s y = record {
    wallet = y.wallet;
    processor = step-IsSound s.message_processor (timed_out hash) y.processor;
    invoices = y.invoices;
  }
  happen-Healthy (Events.future_dropped id) s y = record {
    wallet = y.wallet;
    processor = step-IsSound s.message_processor (abandon id) y.processor;
    invoices = y.invoices;
  }
  happen-Healthy Events.started s y = init-Keeps.at s y
  happen-Healthy (Events.resumed id ps) s y = (resume-Keeps id ps _).at s y
  happen-Healthy (Events.wallet_call r) s y = record {
    wallet = call-AllReady nw.ww r s.wallet y.wallet;
    processor = y.processor;
    invoices = y.invoices;
  }

-- The nodes that events lead to, each in a world of its own with one way to hash.
pub data NodeReach (h : Hashes) (c : Codec) (s : NodeInner) : NodeInner → Type 0 where
  here : NodeReach h c s s
  next :
      {t : NodeInner} (nw : NodeWorld) (e : NodeEvent)
      → nw.ww.world.h ≡ h
      → nw.c ≡ c
      → NodeReach h c s t
      → NodeReach h c s (happen nw e t)

pub NodeReach-IsHealthy :
    (h : Hashes) (c : Codec) {s t : NodeInner}
    → IsHealthy h c s
    → NodeReach h c s t
    → IsHealthy h c t
NodeReach-IsHealthy h c y here = y
NodeReach-IsHealthy h c y (next {t} nw e same_h same_c reached) =
    subst (λ (k : Hashes). IsHealthy k c (happen nw e t)) same_h
      (subst (λ (k : Codec). IsHealthy nw.ww.world.h k (happen nw e t)) same_c
        (happen-Healthy nw e t (
          subst (λ (k : Hashes). IsHealthy k nw.c t) (sym same_h)
            (subst (λ (k : Codec). IsHealthy h k t) (sym same_c)
              (NodeReach-IsHealthy h c y reached)))))

-- A node whose wallet is in step with its disk, whose futures wait for one message each and whose
-- preimages open their hashes, after any messages of peers, whatever their bytes are, and of its user,
-- invoices, delays, dropped futures, restarts and requests to its wallet, in any order, handled,
-- refused or ended by a panic, with a network and a disk that may fail in any of them: the database of
-- every running channel gives back its store and its applier, no future has two messages, and a
-- preimage that the node gives out for a hash hashes to it.
pub node_stays_healthy :
    (h : Hashes) (c : Codec) {s t : NodeInner} (a id r_hash preimage : ℕ)
    → IsHealthy h c s
    → NodeReach h c s t
    → Every
        (λ ch. (load h ch.store.db ≡ ok ch.store) × (Applier.new ch.store ≡ ok ch.applier))
        (get t.wallet.channels a)
      × (length (t.message_processor.buffer id) ≤ 1)
      × (get_preimage c t.invoice_mgr r_hash ≡ some preimage → c.from_sha3_256 preimage ≡ r_hash)
node_stays_healthy h c {s} {t} a id r_hash preimage y reached =
    let z = NodeReach-IsHealthy h c y reached in
    (
      Every-map (get t.wallet.channels a) (λ ch g. (g.synced.cached, g.rebuilt))
          (z.wallet.running a),
      z.processor.single id,
      z.invoices r_hash preimage,
    )
