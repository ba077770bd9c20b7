-- ===== src/Stm/Build.antt =====
-- sgwallet/src/channel/channel_stm.rs: building, signing and executing channel transactions.
use Prim.Native.Nat.{min}
use stargate.Common.{ℕ, ◌-◌, Option, none, some, List, [], ◌∷◌, ◌==◌, if◌then◌else◌, length}
use stargate.Common.Dict.{Dict, get, insert, values}
use stargate.Common.Outcome.{Outcome, ok, ◌>>=◌, ◌>>◌, ok_or, assert}
use stargate.Common.Text.{codes}
use stargate.Libra.{
  Duration, u64_mod, next_u64, WriteSet, empty_write_set, TransactionOutput, TransactionArgument,
  ScriptAction, call, code, PayloadBody, RawTransaction, SignedTransaction,
}
use stargate.Proposal.{
  ChannelOp, op_open, execute, action, close, ChannelTransaction, ChannelTransactionProposal,
  ChannelTransactionSigs, PendingTransaction,
}
use stargate.Stm.{
  Error, script_not_found, no_account, Externals, ChannelStm, externally, channel_sequence_number,
}

abbrev pub max_gas_amount_offchain : ℕ
max_gas_amount_offchain = u64_mod - 1

abbrev pub max_gas_amount_onchain : ℕ
max_gas_amount_onchain = 1_000_000

abbrev pub gas_unit_price : ℕ
gas_unit_price = 1

-- `AccountAddress::default()`
abbrev pub default_address : ℕ
default_address = 0

-- the keys with which the signers sign; each replaces what is known of that participant
abbrev pub collect_sigs : Dict (ℕ × ℕ) → List ℕ → Dict ℕ → Dict ℕ × List (Option ℕ)
collect_sigs signatures [] known = (known, [])
collect_sigs signatures (addr ∷ addrs) known =
    let (known', sigs) =
      collect_sigs signatures addrs
        (elim (get signatures addr) [ none ↦ known | some s ↦ insert addr s.0 known ]) in
    (known', elim (get signatures addr) [ none ↦ none | some s ↦ some s.1 ] ∷ sigs)

-- the part of `build_chain_txn` before the payload: the keys, by address, and the signatures
unfoldable pub keys_and_sigs : ChannelStm → Option (Dict (ℕ × ℕ)) → List ℕ × List (Option ℕ)
keys_and_sigs stm none = (values stm.participant_keys, [])
keys_and_sigs stm (some signatures) =
    let (known, sigs) = collect_sigs signatures stm.participant_addresses stm.participant_keys in
    (values known, sigs)

-- the key and the payload signature of each signer
abbrev pub payload_signatures : Dict ChannelTransactionSigs → Dict (ℕ × ℕ)
payload_signatures [] = []
payload_signatures ((k, v) ∷ m) =
    (k, (v.public_key, v.channel_payload_signature)) ∷ payload_signatures m

-- what the next witness holds: nothing, if the transaction travels
abbrev pub witness_write_set : TransactionOutput → WriteSet
witness_write_set output = if output.is_travel_txn then empty_write_set else output.write_set

module _ (x : Externals) where
  unfoldable pub channel_op_to_action :
      ChannelOp → List TransactionArgument → Outcome Error ScriptAction
  channel_op_to_action op_open args = do
    name ← externally (x.identifier (codes "ChannelScript"))
    function ← externally (x.identifier (codes "open"))
    ok (call default_address name function args)
  channel_op_to_action close args = do
    name ← externally (x.identifier (codes "LibraAccount"))
    function ← externally (x.identifier (codes "close"))
    ok (call default_address name function args)
  channel_op_to_action (execute package_name script_name) args = do
    script_code ← ok_or script_not_found (x.get_script package_name script_name)
    ok (code script_code args)
  channel_op_to_action (action module_address module_name function_name) args = do
    name ← externally (x.identifier module_name)
    function ← externally (x.identifier function_name)
    ok (call module_address name function args)

  unfoldable pub build_and_sign_channel_txn_payload_body :
      ChannelStm → ChannelTransaction → Outcome Error (PayloadBody × ℕ)
  build_and_sign_channel_txn_payload_body stm channel_txn = do
    act ← channel_op_to_action channel_txn.operator channel_txn.args
    let body : PayloadBody = record {
      channel_address = stm.channel_address;
      proposer = channel_txn.proposer;
      action = act;
      witness = stm.witness;
    }
    ok (body, x.sign_message stm.private_key (x.body_hash body))

  -- `debug_assert!` on the number of keys, unless the witness is the first one
  unfoldable pub build_chain_txn :
      ChannelStm
      → PayloadBody
      → Option (Dict (ℕ × ℕ))
      → ℕ
      → ℕ
      → ℕ
      → Duration
      → Outcome Error SignedTransaction
  build_chain_txn stm body txn_signatures sender sequence_number max_gas_amount expiration_time =
      let (public_keys, sigs) = keys_and_sigs stm txn_signatures in
      let raw : RawTransaction = record {
        sender = sender;
        sequence_number = sequence_number;
        body = body;
        public_keys = public_keys;
        signatures = sigs;
        max_gas_amount = max_gas_amount;
        gas_unit_price = gas_unit_price;
        expiration_time = expiration_time;
      } in
      let signed : Outcome Error SignedTransaction = ok (record {
        raw_txn = raw;
        public_key = stm.public_key;
        signature = x.sign_message stm.private_key (x.raw_hash raw);
      }) in
      if body.witness.channel_sequence_number == 0
      then signed
      else (assert (length stm.participant_addresses == length public_keys) >> signed)

  unfoldable pub build_raw_txn_from_channel_txn :
      ChannelStm
      → PayloadBody
      → ChannelTransaction
      → Option (Dict ChannelTransactionSigs)
      → ℕ
      → Outcome Error SignedTransaction
  build_raw_txn_from_channel_txn stm body channel_txn txn_signatures max_gas_amount =
      build_chain_txn stm body
        (elim txn_signatures [ none ↦ none | some s ↦ some (payload_signatures s) ])
        channel_txn.proposer channel_txn.sequence_number max_gas_amount channel_txn.expiration_time

  unfoldable pub build_signed_txn :
      ChannelStm → PendingTransaction → Outcome Error SignedTransaction
  build_signed_txn stm pending_txn = do
    b ← build_and_sign_channel_txn_payload_body stm pending_txn.proposal.channel_txn
    let max_gas_amount = min (x.scale_gas pending_txn.output.gas_used) max_gas_amount_onchain
    build_raw_txn_from_channel_txn stm b.0 pending_txn.proposal.channel_txn
        (some pending_txn.signatures) max_gas_amount

  -- `channel_view(None)` gives the latest version and the account's sequence number
  unfoldable pub generate_proposal :
      ChannelStm
      → Duration
      → ChannelOp
      → List TransactionArgument
      → Outcome Error ChannelTransactionProposal
  generate_proposal stm txn_expiration channel_op args = do
    view ← externally (x.account_state stm.account_address)
    account_seq_number ← ok_or no_account view.1
    n ← channel_sequence_number x stm
    let channel_txn : ChannelTransaction = record {
      version = view.0;
      channel_address = stm.channel_address;
      channel_sequence_number = n;
      operator = channel_op;
      args = args;
      proposer = stm.account_address;
      sequence_number = account_seq_number;
      expiration_time = txn_expiration;
    }
    ok (record {
      channel_txn = channel_txn;
      proposer_public_key = stm.public_key;
      proposer_signature = x.sign_message stm.private_key (x.txn_hash channel_txn);
    })

  unfoldable pub execute_proposal :
      ChannelStm → ChannelTransactionProposal → Outcome Error (PayloadBody × ℕ × TransactionOutput)
  execute_proposal stm proposal = do
    b ← build_and_sign_channel_txn_payload_body stm proposal.channel_txn
    txn ← build_raw_txn_from_channel_txn stm b.0 proposal.channel_txn none max_gas_amount_offchain
    output ← externally (
        x.execute_transaction
          (record {
            channel_state = stm.channel_state;
            latest_write_set = stm.witness.write_set;
            version = proposal.channel_txn.version;
          })
          txn)
    ok (b.0, b.1, output)

  -- the signatures by `stm` that go with a payload signature, when its sequence number is `n`
  unfoldable pub sigs_by : ChannelStm → TransactionOutput → ℕ → ℕ → ChannelTransactionSigs
  sigs_by stm output n payload_signature =
      let hash = x.witness_data_hash (next_u64 n) (witness_write_set output) in
      record {
        address = stm.account_address;
        public_key = stm.public_key;
        channel_payload_signature = payload_signature;
        witness_data_hash = hash;
        witness_data_signature = x.sign_message stm.private_key hash;
        travel_output_witness_signature =
            if output.is_travel_txn
            then some
                (x.sign_message stm.private_key (x.witness_data_hash (next_u64 n) output.write_set))
            else none;
      }

  unfoldable pub generate_txn_sigs :
      ChannelStm → ChannelTransaction → TransactionOutput → Outcome Error ChannelTransactionSigs
  generate_txn_sigs stm channel_txn output = do
    b ← build_and_sign_channel_txn_payload_body stm channel_txn
    n ← channel_sequence_number x stm
    ok (sigs_by stm output n b.1)
