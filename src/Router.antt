-- ===== src/Router.antt =====
-- router: how a route for a payment is found. Stats is the load of each channel, Seeds the meeting of
-- the two searches of one payment.
pub mod Stats
pub mod Seeds
pub mod Paths
pub mod Wallet
pub mod Search
pub mod Graph
pub mod Table
