-- ===== src/Node.antt =====
-- node/node_internal/src: the node of an account.
pub mod Futures
pub mod Inner
pub mod Wire
