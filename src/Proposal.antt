-- ===== src/Proposal.antt =====
-- sgtypes/src/channel_transaction.rs, channel_transaction_sigs.rs and pending_txn.rs: a proposed
-- channel transaction, the participants' signatures on it, and the life of a pending proposal.
pub mod Consensus
pub mod Proto
pub mod ProtoSigs
pub mod Requests
use native.Mathlib.Decide.{ℕ_discrete}
use stargate.Common.{
  ℕ, Bool, true, false, not, ◌&&◌, Option, List, ◌==◌, leb, ltb, if◌then◌else◌, all, length,
}
use stargate.Common.Dict.{Dict, get, contains_key, insert, keys}
use stargate.Libra.{Bytes, Duration, TransactionArgument, TransactionOutput}

pub data ChannelOp : Type 0 where
  op_open : ChannelOp
  execute : (package_name script_name : Bytes) → ChannelOp
  action : (module_address : ℕ) (module_name function_name : Bytes) → ChannelOp
  close : ChannelOp

unfoldable pub is_open : ChannelOp → Bool
is_open op_open = true
is_open _ = false

pub record ChannelTransaction : Type 0 where
  pub version : ℕ
  pub channel_address : ℕ
  pub channel_sequence_number : ℕ
  pub operator : ChannelOp
  pub args : List TransactionArgument
  pub proposer : ℕ
  pub sequence_number : ℕ
  pub expiration_time : Duration

pub record ChannelTransactionProposal : Type 0 where
  pub channel_txn : ChannelTransaction
  pub proposer_public_key : ℕ
  pub proposer_signature : ℕ

pub record ChannelTransactionSigs : Type 0 where
  pub address : ℕ
  pub public_key : ℕ
  pub channel_payload_signature : ℕ
  pub witness_data_hash : ℕ
  pub witness_data_signature : ℕ
  pub travel_output_witness_signature : Option ℕ

pub data ProposalLifecycle : Type 0 where
  created negotiating agreed applying traveling : ProposalLifecycle

-- the derived order of the enum
abbrev pub rank : ProposalLifecycle → ℕ
rank created = 0
rank negotiating = 1
rank agreed = 2
rank applying = 3
rank traveling = 4

pub record PendingTransaction : Type 0 where
  pub proposal : ChannelTransactionProposal
  pub output : TransactionOutput
  pub signatures : Dict ChannelTransactionSigs
  pub lifecycle : ProposalLifecycle

-- the derived `PartialEq`
unfoldable pub PendingTransaction-discrete : Discrete PendingTransaction
PendingTransaction-discrete = hlevel ℕ_discrete

-- `PendingTransaction::new`
unfoldable pub new :
    ChannelTransactionProposal
    → TransactionOutput
    → Dict ChannelTransactionSigs
    → PendingTransaction
new proposal output signatures = record {
  proposal = proposal;
  output = output;
  signatures = signatures;
  lifecycle = negotiating;
}

unfoldable pub add_signature : PendingTransaction → ChannelTransactionSigs → PendingTransaction
add_signature p sig =
    if not (contains_key p.signatures sig.address)
    then record p { signatures = insert sig.address sig p.signatures }
    else p

unfoldable pub set_lifecycle : PendingTransaction → ProposalLifecycle → PendingTransaction
set_lifecycle p state = record p { lifecycle = state }

unfoldable pub set_applying : PendingTransaction → PendingTransaction
set_applying p = record p { lifecycle = applying }

unfoldable pub set_travelling : PendingTransaction → PendingTransaction
set_travelling p = record p { lifecycle = traveling }

unfoldable pub get_signature : PendingTransaction → ℕ → Option ChannelTransactionSigs
get_signature p address = get p.signatures address

unfoldable pub newer_than : PendingTransaction → PendingTransaction → Bool
newer_than p other = ltb (rank other.lifecycle) (rank p.lifecycle)

unfoldable pub is_negotiating : PendingTransaction → Bool
is_negotiating p = rank p.lifecycle == rank negotiating

unfoldable pub consensus_reached : PendingTransaction → Bool
consensus_reached p = leb (rank agreed) (rank p.lifecycle)

-- `participants` is the BTreeSet in its order
unfoldable pub try_reach_consensus : PendingTransaction → List ℕ → PendingTransaction × Bool
unfolding consensus_reached is_negotiating
try_reach_consensus p participants =
    let p' =
      if is_negotiating p && length (keys p.signatures) == length participants
      then (if all (λ addr. contains_key p.signatures addr) participants
          then record p { lifecycle = agreed }
          else p)
      else p in
    (p', consensus_reached p')
