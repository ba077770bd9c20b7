-- ===== src/Examples/Toy.antt =====
-- A channel of two participants for the tests: signatures are sums, hashes read a few fields, and an
-- execution writes one resource.
use stargate.Common.{ℕ, ◌+◌, ◌*◌, true, false, Option, none, some, [], ◌∷◌, ◌==◌, length}
use stargate.Common.Dict.{Dict}
use stargate.Common.Text.{codes}
use stargate.Libra.{value, TransactionOutput, Duration, default_witness}
use stargate.Proposal.{
  ChannelOp, execute, ChannelTransaction, ChannelTransactionProposal, ChannelTransactionSigs,
  PendingTransaction, ProposalLifecycle,
}
use stargate.Stm
use stargate.Stm.{Externals, ChannelStm}
use stargate.Store.{Hashes, Db, ChannelStore, ChannelTransactionToCommit, offchain}
use stargate.Store.Applier.{TxApplier}
use stargate.Channel.{Channel, World}

abbrev pub output : TransactionOutput
output = record {
  write_set = (record { address = 1; path = 7 ∷ [] }, value (9 ∷ [])) ∷ [];
  events = [];
  gas_used = 10;
  major_status = 4001;
  is_travel_txn = false;
}

abbrev pub x : Externals
x = record {
  txn_hash = λ t. t.channel_sequence_number * 1_000 + t.proposer;
  body_hash = λ b. b.channel_address * 7 + b.proposer;
  witness_data_hash = λ n ws. n + length ws;
  raw_hash = λ r. r.sequence_number;
  sign_message = λ k m. k + m;
  verify_signature = λ k m s. s == (k + m);
  write_set_get = λ _ _. none;
  participant_of = λ p. some p.address;
  mirror_path = λ _. 1 ∷ [];
  resource_path = 2 ∷ [];
  lock_path = 3 ∷ [];
  make_mirror = λ d. some (length d);
  make_resource = λ _. none;
  make_lock = λ d. some (length d);
  identifier = λ b. some b;
  get_script = λ _ b. some b;
  scale_gas = λ g. g;
  account_state = λ _. some (5, some 3);
  execute_transaction = λ _ _. some output;
}

abbrev pub machine : ℕ → ℕ → ChannelStm
machine address key = record {
  channel_address = 100;
  account_address = address;
  participant_addresses = 1 ∷ 2 ∷ [];
  participant_keys = [];
  channel_state = Stm.empty_state 100;
  witness = default_witness;
  private_key = key;
  public_key = key;
}

abbrev pub alice : ChannelStm
alice = machine 1 11

abbrev pub bob : ChannelStm
bob = machine 2 12

abbrev pub expiration : Duration
expiration = record { secs = 60; nanos = 0 }

abbrev pub transfer : ChannelOp
transfer = execute (codes "pay") (codes "transfer")

abbrev pub channel_txn : ChannelTransaction
channel_txn = record {
  version = 5;
  channel_address = 100;
  channel_sequence_number = 0;
  operator = transfer;
  args = [];
  proposer = 1;
  sequence_number = 3;
  expiration_time = expiration;
}

abbrev pub proposal : ChannelTransactionProposal
proposal = record { channel_txn = channel_txn; proposer_public_key = 11; proposer_signature = 12 }

-- the signatures that go with an address and a key
abbrev pub signed_by : ℕ → ℕ → ChannelTransactionSigs
signed_by address key = record {
  address = address;
  public_key = key;
  channel_payload_signature = key + 701;
  witness_data_hash = 2;
  witness_data_signature = key + 2;
  travel_output_witness_signature = none;
}

abbrev pub pending : ProposalLifecycle → Dict ChannelTransactionSigs → PendingTransaction
pending lifecycle signatures = record {
  proposal = proposal;
  output = output;
  signatures = signatures;
  lifecycle = lifecycle;
}

abbrev pub both : Dict ChannelTransactionSigs
both = (1, signed_by 1 11) ∷ (2, signed_by 2 12) ∷ []

abbrev pub h : Hashes
h = record {
  applied_hash = λ _. 17;
  info_hash = λ i. i.txn_hash + i.gas_used;
  write_set_root = λ ws. length ws;
  accumulator_root = λ ls. length ls;
  payload_sequence_number = λ b. b.witness.channel_sequence_number;
}

abbrev pub db : Option PendingTransaction → Db
db p = record {
  participant_keys = (1, none) ∷ (2, none) ∷ [];
  pending = p;
  transactions = [];
  by_account = [];
  infos = [];
  write_sets = [];
  leaves = [];
  ledger_infos = [];
}

abbrev pub store : Option PendingTransaction → ChannelStore
store p = record {
  db = db p;
  latest_ledger_info = none;
  latest_witness = none;
  pending_txn = p;
  participant_keys = (1, none) ∷ (2, none) ∷ [];
}

abbrev pub applier : TxApplier
applier = record { epoch = 0; leaves = [] }

abbrev pub to_commit : ChannelTransactionToCommit
to_commit = record {
  signed_channel_txn = offchain (record { raw_tx = channel_txn; signatures = both });
  write_set = output.write_set;
  major_status = output.major_status;
  gas_used = output.gas_used;
}

abbrev pub channel : Option PendingTransaction → Channel
channel p = record {
  store = store p;
  applier = applier;
  stm = alice;
  stopping = false;
  effects = [];
}

abbrev pub world : World
world = record {
  x = x;
  h = h;
  disk_works = true;
  now = 1_000;
  txn_expiration = expiration;
  account_state_at = λ _ _. none;
  accepts = λ _. true;
  core_code_address = 0;
  account_module_name = codes "LibraAccount";
  is_authorized = λ _. true;
}
