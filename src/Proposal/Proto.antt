-- ===== src/Proposal/Proto.antt =====
-- sgtypes/src/channel_transaction.rs: the protobuf messages of a channel transaction, and the
-- conversions to and from them. The messages are those of sgtypes/src/proto/channel_transaction.proto;
-- `AccountAddress` and `TransactionArgument` have conversions of libra's.
use stargate.Common.{ℕ, ◌≡◌, refl, Option, some, List, [], ◌∷◌, map}
use stargate.Common.Outcome.{Outcome, ok, ◌>>=◌, ok_or, expect}
use stargate.Libra.{Bytes, TransactionArgument}
use stargate.Proposal.{ChannelOp, op_open, execute, action, close, ChannelTransaction}

pub data ChannelOpType : Type 0 where
  open_type execute_type action_type close_type : ChannelOpType

pub record ProtoChannelOp : Type 0 where
  pub op_type : ChannelOpType
  pub package_name : Bytes
  pub script_name : Bytes
  pub module_address : Bytes
  pub module_name : Bytes
  pub function_name : Bytes

-- `ChannelOp::default()` of the generated code: the first type, and empty strings
abbrev pub default_op : ProtoChannelOp
default_op = record {
  op_type = open_type;
  package_name = [];
  script_name = [];
  module_address = [];
  module_name = [];
  function_name = [];
}

-- Arg stands for the generated message of an argument
pub record ProtoChannelTransaction (Arg : Type 0) : Type 0 where
  pub version : ℕ
  pub channel_address : Bytes
  pub channel_sequence_number : ℕ
  pub operator : Option ProtoChannelOp
  pub args : List Arg
  pub proposer : Bytes
  pub sequence_number : ℕ
  pub expiration_time : ℕ

pub record Conversions (Arg : Type 0) : Type 0 where
  pub address_to_vec : ℕ → Bytes
  pub address_try_from : Bytes → Option ℕ
  pub arg_into : TransactionArgument → Arg
  pub arg_try_from : Arg → Option TransactionArgument

-- libra's conversions read back what they write
pub record IsFaithful {Arg : Type 0} (c : Conversions Arg) : Type 0 where
  pub address_back : (a : ℕ) → c.address_try_from (c.address_to_vec a) ≡ some a
  pub arg_back : (a : TransactionArgument) → c.arg_try_from (c.arg_into a) ≡ some a

pub data ConversionError : Type 0 where
  bad_address bad_argument : ConversionError

module _ {Arg : Type 0} (c : Conversions Arg) where
  -- From<ChannelOp>
  unfoldable pub op_into : ChannelOp → ProtoChannelOp
  op_into op_open = record default_op { op_type = open_type }
  op_into (execute package_name script_name) = record default_op {
    op_type = execute_type;
    package_name = package_name;
    script_name = script_name;
  }
  op_into (action module_address module_name function_name) = record default_op {
    op_type = action_type;
    module_address = c.address_to_vec module_address;
    module_name = module_name;
    function_name = function_name;
  }
  op_into close = record default_op { op_type = close_type }

  op_by_type : ChannelOpType → ProtoChannelOp → Outcome ConversionError ChannelOp
  op_by_type open_type proto = ok op_open
  op_by_type execute_type proto = ok (execute proto.package_name proto.script_name)
  op_by_type action_type proto = do
    module_address ← ok_or bad_address (c.address_try_from proto.module_address)
    ok (action module_address proto.module_name proto.function_name)
  op_by_type close_type proto = ok close

  -- TryFrom<ChannelOp>
  unfoldable pub op_try_from : ProtoChannelOp → Outcome ConversionError ChannelOp
  unfolding op_by_type
  op_try_from proto = op_by_type proto.op_type proto

  -- `map(TransactionArgument::try_from).collect::<Result<Vec<_>>>()`
  unfoldable pub args_try_from : List Arg → Outcome ConversionError (List TransactionArgument)
  args_try_from [] = ok []
  args_try_from (a ∷ args) = do
    arg ← ok_or bad_argument (c.arg_try_from a)
    rest ← args_try_from args
    ok (arg ∷ rest)

  -- From<ChannelTransaction>
  unfoldable pub txn_into : ChannelTransaction → ProtoChannelTransaction Arg
  txn_into t = record {
    version = t.version;
    channel_address = c.address_to_vec t.channel_address;
    channel_sequence_number = t.channel_sequence_number;
    operator = some (op_into t.operator);
    args = map c.arg_into t.args;
    proposer = c.address_to_vec t.proposer;
    sequence_number = t.sequence_number;
    expiration_time = t.expiration_time.secs;
  }

  -- TryFrom<ChannelTransaction>; a missing operator is a panic
  unfoldable pub txn_try_from :
      ProtoChannelTransaction Arg → Outcome ConversionError ChannelTransaction
  txn_try_from value = do
    channel_address ← ok_or bad_address (c.address_try_from value.channel_address)
    proposer ← ok_or bad_address (c.address_try_from value.proposer)
    proto_op ← expect value.operator
    operator ← op_try_from proto_op
    args ← args_try_from value.args
    ok (record {
      version = value.version;
      channel_address = channel_address;
      channel_sequence_number = value.channel_sequence_number;
      operator = operator;
      args = args;
      proposer = proposer;
      sequence_number = value.sequence_number;
      expiration_time = record { secs = value.expiration_time; nanos = 0 };
    })

module _ {Arg : Type 0} (c : Conversions Arg) (f : IsFaithful c) where
  op_back : (op : ChannelOp) → op_try_from c (op_into c op) ≡ ok op
  unfolding op_try_from op_into op_by_type
  op_back op_open = refl
  op_back (execute package_name script_name) = refl
  op_back (action module_address module_name function_name) =
      rw (f.address_back module_address) refl
  op_back close = refl

  args_back : (args : List TransactionArgument) → args_try_from c (map c.arg_into args) ≡ ok args
  unfolding args_try_from
  args_back [] = refl
  args_back (a ∷ args) = rw (f.arg_back a, args_back args) refl

  -- Where addresses and arguments are read back from their messages, a channel transaction that
  -- is sent is read back as it was, but for the part of its expiration that is less than a
  -- second.
  pub txn_try_from-txn_into :
      (t : ChannelTransaction)
      → txn_try_from c (txn_into c t)
        ≡ ok (record t { expiration_time = record { secs = t.expiration_time.secs; nanos = 0 } })
  unfolding txn_try_from txn_into
  txn_try_from-txn_into t =
      rw
        (
          f.address_back t.channel_address,
          f.address_back t.proposer,
          op_back t.operator,
          args_back t.args,
        )
        refl
