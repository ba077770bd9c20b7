-- ===== src/Messages/Hops.antt =====
-- sgtypes/src/message.rs: the request that travels along the hops of a payment.
use stargate.Common.{ℕ, List}
use stargate.Proposal.Requests.{ChannelTransactionRequest}

pub record NextHop : Type 0 where
  pub remote_addr : ℕ
  pub amount : ℕ

pub record MultiHopChannelRequest : Type 0 where
  pub request : ChannelTransactionRequest
  pub hops : List NextHop
