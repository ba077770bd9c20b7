-- ===== src/Libra.antt =====
-- The values of libra's types that the channel code handles, by the parts that it reads of them.
-- An account address, a hash, a key and a signature are byte strings of a fixed length, read as one
-- native number. A string and a byte vector are lists of bytes.
use stargate.Common.{ℕ, ◌%◌, ◌+◌, ◌^◌, Bool, Option, List}
use mathlib.Core.List.{[]}

abbrev pub Bytes : Type 0
Bytes = List ℕ

abbrev pub u64_mod : ℕ
u64_mod = 2 ^ 64

-- `n + 1` on a u64
abbrev pub next_u64 : ℕ → ℕ
next_u64 n = (n + 1) % u64_mod

pub record AccessPath : Type 0 where
  pub address : ℕ
  pub path : Bytes

pub data WriteOp : Type 0 where
  deletion : WriteOp
  value : Bytes → WriteOp

-- `iter()` of a `WriteSet`
abbrev pub WriteSet : Type 0
WriteSet = List (AccessPath × WriteOp)

abbrev pub empty_write_set : WriteSet
empty_write_set = []

pub record TransactionOutput : Type 0 where
  pub write_set : WriteSet
  pub events : List Bytes
  pub gas_used : ℕ
  pub major_status : ℕ
  pub is_travel_txn : Bool

-- std's `Duration`
pub record Duration : Type 0 where
  pub secs : ℕ
  pub nanos : ℕ

-- `Witness`: its data, a sequence number and a write set, with the signatures on them
pub record Witness : Type 0 where
  pub channel_sequence_number : ℕ
  pub write_set : WriteSet
  pub signatures : List ℕ

-- `Witness::default()`
abbrev pub default_witness : Witness
default_witness = record { channel_sequence_number = 0; write_set = []; signatures = [] }

pub data TransactionArgument : Type 0 where
  u64 address : ℕ → TransactionArgument
  byte_array text : Bytes → TransactionArgument

pub data ScriptAction : Type 0 where
  call : ℕ → Bytes → Bytes → List TransactionArgument → ScriptAction
  code : Bytes → List TransactionArgument → ScriptAction

pub record PayloadBody : Type 0 where
  pub channel_address : ℕ
  pub proposer : ℕ
  pub action : ScriptAction
  pub witness : Witness

-- A raw transaction whose payload is `TransactionPayload::Channel`
pub record RawTransaction : Type 0 where
  pub sender : ℕ
  pub sequence_number : ℕ
  pub body : PayloadBody
  pub public_keys : List ℕ
  pub signatures : List (Option ℕ)
  pub max_gas_amount : ℕ
  pub gas_unit_price : ℕ
  pub expiration_time : Duration

pub record SignedTransaction : Type 0 where
  pub raw_txn : RawTransaction
  pub public_key : ℕ
  pub signature : ℕ

-- `ChannelResource`, as the channel reads it from its local state
pub record ChannelResource : Type 0 where
  pub opened : Bool
  pub locked : Bool
  pub closed : Bool
  pub channel_sequence_number : ℕ
  pub event_count : ℕ
