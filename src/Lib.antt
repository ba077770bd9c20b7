-- ===== src/Lib.antt =====
-- Stargate is a layer of payment channels beside a Libra chain. Two or more participants share a
-- channel account on the chain; they agree on transactions of the channel among themselves, by
-- signatures of all of them, and go to the chain only to open or close the channel, to move funds
-- in or out, or when they disagree.
--
-- The parts that are modelled, and the files that model them:
-- * Proposal (sgtypes/src/pending_txn.rs, channel_transaction.rs, channel_transaction_sigs.rs): a
--   pending transaction with the signatures collected on it and its lifecycle. Proposal/Requests
--   has the request and the response that carry it, Proposal/Consensus the theorems on
--   `try_reach_consensus`, Proposal/Proto and ProtoSigs the protobuf messages of a transaction and
--   of the signatures.
-- * Stm (sgwallet/src/channel/channel_stm.rs): the channel state machine. Stm has its state and
--   its reads of local resources, Stm/Build the building, signing and execution of transactions,
--   Stm/Handle the checks and the handlers of proposals and signatures. The theorems are in
--   Stm/Handle/Signing (what is signed and what is checked), Agreement (the life of a proposal),
--   Outsiders (sequences of signatures) and Exchange (the machines of both participants).
-- * Store (sgstorage/src/channel_store.rs and the stores that it is made of): the tables on disk,
--   the write batches and the caches. Store/Read opens a store and reads, Store/Write writes.
--   Store/Applier is sgwallet/src/tx_applier.rs. The theorems are in Store/Restart and
--   Store/Opened (opening a store), Store/Synced (the applier beside its store) and Store/Rebuilt
--   (a store from which its applier can be built again).
-- * Channel (sgwallet/src/channel/mod.rs and channel.rs): the channel actor. Channel/Persist is
--   how it writes its store, Channel/Negotiate the handlers Execute, CollectProposalWithSigs,
--   GrantProposal, CancelPendingTxn and ApplyPendingTxn, Channel/Chain the handlers that follow
--   the chain, Channel/Open and Channel/Start how a channel is loaded and started. Channel/Kept has
--   the ways in which handlers change a channel: what these keep, every handler keeps. The
--   theorems are in Channel/Durable and Recovery, Agreed, Applied, and Handshake (both sides of a
--   channel, from a proposal to the transaction applied by both).
-- * Wallet (sgwallet/src/wallet.rs and utils/mod.rs): the actor that holds the channels of an
--   account. Wallet/Handle is what the node asks of it, Wallet/Actions what it proposes,
--   Wallet/Reads what it reads of a channel, and Wallet/Htlc how a hash-locked payment is read.
--   Wallet/Calls has all requests that concern a channel; the theorems are in Calls/Recovery
--   (restarts) and Calls/Frame (a request leaves the other channels alone).
-- * Node (node/node_internal/src/node.rs and message_processor.rs): Node/Futures is the message
--   processor, with its theorems in Futures/Answers; Node/Wire the message types on the wire;
--   Node/Inner what a node keeps and how it sends, Inner/Incoming the handlers of its peers'
--   messages, Inner/Payments the payments over several hops, Inner/Commands the other commands of
--   its user, Inner/Startup the start, and Inner/Events all that can happen to a node. The theorems
--   are in Incoming/Forwarding, Claiming and Answering, Payments/Paying and Events/Healthy.
-- * Router (router and the search values of sgtypes/src/s_value.rs): Router/Stats is the load of
--   the channels, with the mutex of its map (router/stats/src/lib.rs); Router/Seeds the meeting of
--   the two searches of a payment (router/ant/src/seed_generator.rs and path_finder.rs);
--   Router/Paths how a path is put together and chosen (find_path_by_pressure and what it calls in
--   router/ant/src/lib.rs), Router/Search the messages of a search and the path store, and Search/Exchange
--   a whole search, from the exchange of seeds to the path, and the router that asks the table first.
--   Router/Graph is the graph of all channels (router/graphdb/src/graph_store.rs), and Router/Table
--   the router that follows the chain and searches that graph (router/src/lib.rs). The theorems are
--   in Router/Stats/Pressure, Router/Seeds/Meeting, Router/Paths/Walks and Least, Router/Search/Flood,
--   Answers and Exchange/Found, Router/Graph/Indexes and Router/Table/Following, Lightest and Closing.
-- * Invoice (node/node_internal/src/invoice.rs): invoices as bytes and text, and the preimages and
--   previous hops that a node keeps, with the theorems in Invoice/Encoding and Invoice/Preimages.
-- * Messages (sgtypes/src/message.rs and sg_error.rs): the codes of the message types, the errors
--   that nodes tell each other, the hops of a payment, and the protobuf forms of the exchange of
--   seeds (Messages/Exchanged).
-- * Common has what the parts share: lists, dictionaries, slices, integers, results and handlers.
-- * Examples has runs on concrete inputs.
--
-- How the parts interact. A channel's handlers call the state machine on the channel's local
-- state, write what it gives to the store, and commit an agreed transaction by the applier, which
-- gives the machine its next witness. The router finds the hops of a payment, each of which is a
-- transaction of one channel that an invoice's hash locks. A node turns the messages of its peers
-- and of its user into requests to its wallet, which passes each on to one channel, and sends what
-- comes back; a future waits for the answer to each request.
--
-- How the state corresponds to the code.
-- A struct is a record with the source's fields, an enum a data type. A handler of the actor is a
-- function of the channel that gives a result and the channel after it, and what it wrote before
-- an error stays written. `Err` is `err`, with a name for each message; `panic!`, `unwrap`,
-- `expect`, `assert!`, `unreachable!` and `debug_assert!` (of a debug build) are `panic`.
-- Functions on one value are pure, and a `&mut` argument is returned.
--
-- Conventions:
-- * An address, a hash, a key and a signature are fixed-length byte strings read as one number. A
--   BTreeMap or BTreeSet is a list in the order of its keys; `IsOrdered` states that order where a
--   theorem needs it. u64 additions keep their wrap-around.
-- * Libra's hashes, signatures, VM, resources and chain state are fields of `Externals`, `Hashes`
--   and `World`: they are parameters, with no properties but those that a theorem names.
-- * A Merkle accumulator is known by its leaves; its root hash is an external function of them.
-- * Each write batch of RocksDB reaches the disk as a whole or not at all; `disk_works` says
--   which.
-- * `save_tx` is modelled with its ledger info given, as its only caller does. Events are not
--   persisted by the code and are left out of a transaction to commit.
-- * A wallet, and a node, take up one request after another, each with a world of its own
--   (`WalletWorld`, `NodeWorld`). Where a wallet replaces a running channel, the old one is not
--   followed any further. The handlers of a node are tasks that could interleave at every await;
--   they are run one at a time, and a panic ends its task only.
-- * Futures are numbered in the order in which they are made. What a responder is given is the
--   result of its function, and the queues of the network, the router and the statistics are lists.
-- * The protobuf bytes of the messages between nodes are parameters of a node's world.
-- * What a handler submits or watches is recorded in the channel's `effects`. A task that waits
--   for the chain comes back as a request of its own, with what the chain said as its argument.
-- * What a node handles while a search waits is an argument of the search, as is the answer of the
--   other end, which is none when the time is over.
-- * The graph of the table router is shared by its tasks without a lock (`unsafe impl Sync`). Its
--   operations are taken one at a time here, so that no borrow of one task meets another task's.
-- * The graph library petgraph is a parameter (`Petgraph`), and so is what the other nodes of a path
--   answer about their balances. A path of at most five nodes between its ends is searched, as in the
--   source.
-- * A HashMap over SValue is a list with a parameter for the entries that a lookup comes across,
--   since that type's hash and equality disagree.
-- * The loop of format_response_list takes a response out of its list in each round, so it is
--   given as many rounds as the list has responses. The other loops go over lists.
--
-- Not modelled: the actor runtime and the event loops, logging, the protobuf conversions of the
-- other messages, the deployment of modules and packages and what the wallet reads of its account
-- on the chain, the timers of a search,
-- the select loops around the node's handlers, the peer-to-peer network (a copy of another
-- project's), the chain client, the compiler front end, the command line, configuration and
-- gateways.
pub mod Common
pub mod Libra
pub mod Proposal
pub mod Stm
pub mod Store
pub mod Wallet
pub mod Node
pub mod Channel
pub mod Invoice
pub mod Router
pub mod Messages
pub mod Examples
