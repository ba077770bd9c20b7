-- ===== src/Proposal/Requests.antt =====
-- sgtypes/src/channel_transaction.rs: what a proposer sends and what a receiver answers.
use stargate.Common.{ℕ, Bool}
use stargate.Proposal.{ChannelTransaction, ChannelTransactionProposal, ChannelTransactionSigs}

pub record ChannelTransactionRequest : Type 0 where
  pub proposal : ChannelTransactionProposal
  pub channel_txn_sigs : ChannelTransactionSigs
  pub travel : Bool

pub record ChannelTransactionResponse : Type 0 where
  pub proposal : ChannelTransactionProposal
  pub channel_txn_sigs : ChannelTransactionSigs

abbrev pub channel_txn : ChannelTransactionRequest → ChannelTransaction
channel_txn r = r.proposal.channel_txn

-- `request_id` of a request and of a response, by the hash of its transaction
unfoldable pub request_id : (ChannelTransaction → ℕ) → ChannelTransactionRequest → ℕ
request_id txn_hash r = txn_hash r.proposal.channel_txn

unfoldable pub response_id : (ChannelTransaction → ℕ) → ChannelTransactionResponse → ℕ
response_id txn_hash r = txn_hash r.proposal.channel_txn
