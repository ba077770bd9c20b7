-- ===== src/Stm.antt =====
-- sgwallet/src/channel/channel_stm.rs: the channel state machine. This file has its state, what it
-- reads of the local resources, and the functions of libra, the VM and the chain that it calls.
pub mod Build
pub mod Handle
use stargate.Common.{
  ℕ, Bool, true, false, not, Option, none, some, List, [], ◌∷◌, ◌==◌, if◌then◌else◌,
}
use stargate.Common.Dict.{Dict, insert}
use stargate.Common.Outcome.{Outcome, ok, err, panic, ◌>>=◌, expect}
use stargate.Libra.{
  Bytes, AccessPath, WriteOp, deletion, value, WriteSet, TransactionOutput, Witness,
  default_witness, PayloadBody, RawTransaction, SignedTransaction, ChannelResource,
}
use stargate.Proposal.{ChannelTransaction}

-- The errors that the channel code raises itself, and `external` for one of a callee.
pub data Error : Type 0 where
  stale_proposal different_pending hash_mismatch : Error
  wrong_channel wrong_sequence_number bad_proposer_signature foreign_proposer : Error
  bad_payload_signature witness_mismatch bad_witness_signature : Error
  no_travel_signature bad_travel_signature : Error
  unexpected_path script_not_found no_account external : Error
  no_pending id_conflict already_agreed not_ready save_conflict : Error
  already_on_chain different_applied no_channel_resource not_a_channel_txn : Error
  not_traveling lock_not_expired invalid_state submit_failed storage : Error

-- `ChannelState`: the address, the version and the resources of the channel account
pub record ChannelState : Type 0 where
  pub address : ℕ
  pub version : ℕ
  pub get : Bytes → Option Bytes

-- `ChannelState::empty`
abbrev pub empty_state : ℕ → ChannelState
empty_state a = record { address = a; version = 0; get = λ _. none }

-- `ChannelStateView`: what a transaction is executed on
pub record ChannelStateView : Type 0 where
  pub channel_state : ChannelState
  pub latest_write_set : WriteSet
  pub version : ℕ

-- What the state machine calls that is not code of this repository. `none` stands for an error.
pub record Externals : Type 0 where
  -- `CryptoHash::hash`
  pub txn_hash : ChannelTransaction → ℕ
  pub body_hash : PayloadBody → ℕ
  pub witness_data_hash : ℕ → WriteSet → ℕ
  pub raw_hash : RawTransaction → ℕ
  -- `private_key.sign_message(message)` and `public_key.verify_signature(message, signature)`
  pub sign_message : ℕ → ℕ → ℕ
  pub verify_signature : ℕ → ℕ → ℕ → Bool
  pub write_set_get : WriteSet → AccessPath → Option WriteOp
  -- `data_path().and_then(participant)` of a path
  pub participant_of : AccessPath → Option ℕ
  -- the paths of the channel's own resources, and `make_resource` at each
  pub mirror_path : ℕ → Bytes
  pub resource_path : Bytes
  pub lock_path : Bytes
  pub make_mirror : Bytes → Option ℕ
  pub make_resource : Bytes → Option ChannelResource
  pub make_lock : Bytes → Option ℕ
  -- `Identifier::new`
  pub identifier : Bytes → Option Bytes
  -- `PackageRegistry::get_script`
  pub get_script : Bytes → Bytes → Option Bytes
  -- `(gas as f64 * 1.1) as u64`
  pub scale_gas : ℕ → ℕ
  -- the version of the latest account state, with the account's sequence number if it exists
  pub account_state : ℕ → Option (ℕ × Option ℕ)
  pub execute_transaction : ChannelStateView → SignedTransaction → Option TransactionOutput

pub record ChannelStm : Type 0 where
  pub channel_address : ℕ
  pub account_address : ℕ
  pub participant_addresses : List ℕ
  pub participant_keys : Dict ℕ
  pub channel_state : ChannelState
  pub witness : Witness
  pub private_key : ℕ
  pub public_key : ℕ

-- `ChannelStm::new`
unfoldable pub new : ℕ → ℕ → List ℕ → ℕ → ℕ → ChannelStm
new channel_address account_address participant_addresses private_key public_key = record {
  channel_address = channel_address;
  account_address = account_address;
  participant_addresses = participant_addresses;
  participant_keys = [];
  channel_state = empty_state channel_address;
  witness = default_witness;
  private_key = private_key;
  public_key = public_key;
}

-- `participant_keys.append(&mut keys)`
abbrev pub append : Dict ℕ → Dict ℕ → Dict ℕ
append m [] = m
append m ((k, v) ∷ new_keys) = append (insert k v m) new_keys

unfoldable pub advance_state : ChannelStm → Option ChannelState → Witness → Dict ℕ → ChannelStm
advance_state stm channel_state witness participant_keys = record stm {
  channel_state = elim channel_state [ none ↦ stm.channel_state | some cs ↦ cs ];
  witness = witness;
  participant_keys = append stm.participant_keys participant_keys;
}

abbrev pub externally : {A : Type 0} → Option A → Outcome Error A
externally none = err external
externally (some a) = ok a

read_op : WriteOp → Option Bytes
read_op (value v) = some v
read_op deletion = none

-- `data.map(make_resource).transpose()`
abbrev decode : {A : Type 0} → (Bytes → Option A) → Option Bytes → Outcome Error (Option A)
decode make none = ok none
decode make (some d) = do a ← externally (make d); ok (some a)

abbrev unwrap : {A : Type 0} → Outcome Error A → Outcome Error A
unwrap (ok a) = ok a
unwrap _ = panic

abbrev or_zero : Option ℕ → ℕ
or_zero none = 0
or_zero (some n) = n

module _ (x : Externals) where
  unfoldable pub access_local : WriteSet → ChannelState → AccessPath → Outcome Error (Option Bytes)
  unfolding read_op
  access_local latest_write_set channel_state path = elim (x.write_set_get latest_write_set path) [
    | some op ↦ ok (read_op op)
    | none ↦
        if not (channel_state.address == path.address)
        then err unexpected_path
        else ok (channel_state.get path.path)
  ]

  unfoldable pub get_local :
      {A : Type 0} → (Bytes → Option A) → ChannelStm → AccessPath → Outcome Error (Option A)
  unfolding access_local
  get_local make stm path = do
    d ← access_local stm.witness.write_set stm.channel_state path
    decode make d

  unfoldable pub channel_sequence_number : ChannelStm → Outcome Error ℕ
  unfolding get_local
  channel_sequence_number stm = do
    r ← unwrap (
        get_local x.make_mirror stm
          (record { address = stm.channel_address; path = x.mirror_path stm.channel_address }))
    ok (or_zero r)

  unfoldable pub channel_resource : ChannelStm → Outcome Error (Option ChannelResource)
  unfolding get_local
  channel_resource stm = unwrap (
      get_local x.make_resource stm
        (record { address = stm.channel_address; path = x.resource_path }))

  -- the lock's `time_lock`
  unfoldable pub channel_lock_by_resource : ChannelStm → Outcome Error (Option ℕ)
  unfolding get_local
  channel_lock_by_resource stm =
      unwrap
        (get_local x.make_lock stm (record { address = stm.channel_address; path = x.lock_path }))
