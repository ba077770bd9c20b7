-- ===== src/Proposal/ProtoSigs.antt =====
-- sgtypes/src/channel_transaction_sigs.rs: the protobuf message of a participant's signatures. In it a
-- missing signature is an empty string of bytes.
use stargate.Common.{ℕ, ◌≡◌, refl, Option, none, some, [], ◌==◌, length, if◌then◌else◌}
use stargate.Common.Outcome.{Outcome, ok, ◌>>=◌, ok_or}
use stargate.Libra.{Bytes}
use stargate.Proposal.{ChannelTransactionSigs}

pub record ProtoSigs : Type 0 where
  pub address : Bytes
  pub public_key : Bytes
  pub channel_payload_signature : Bytes
  pub witness_data_hash : Bytes
  pub witness_data_signature : Bytes
  pub travel_output_witness_signature : Bytes

-- the conversions of libra's types to bytes and back
pub record Encodings : Type 0 where
  pub address_to_vec : ℕ → Bytes
  pub address_try_from : Bytes → Option ℕ
  pub key_to_bytes : ℕ → Bytes
  pub key_try_from : Bytes → Option ℕ
  pub signature_to_bytes : ℕ → Bytes
  pub signature_try_from : Bytes → Option ℕ
  pub hash_to_vec : ℕ → Bytes
  pub hash_from_slice : Bytes → Option ℕ

-- Each is read back from its bytes, and a signature has 64 of them.
pub record IsExact (c : Encodings) : Type 0 where
  pub address_back : (a : ℕ) → c.address_try_from (c.address_to_vec a) ≡ some a
  pub key_back : (k : ℕ) → c.key_try_from (c.key_to_bytes k) ≡ some k
  pub signature_back : (s : ℕ) → c.signature_try_from (c.signature_to_bytes s) ≡ some s
  pub hash_back : (h : ℕ) → c.hash_from_slice (c.hash_to_vec h) ≡ some h
  pub signature_length : (s : ℕ) → length (c.signature_to_bytes s) ≡ 64

pub data SigsError : Type 0 where
  malformed : SigsError

module _ (c : Encodings) where
  optional_into : Option ℕ → Bytes
  optional_into none = []
  optional_into (some s) = c.signature_to_bytes s

  -- From<ChannelTransactionSigs>
  unfoldable pub sigs_into : ChannelTransactionSigs → ProtoSigs
  unfolding optional_into
  sigs_into sigs = record {
    address = c.address_to_vec sigs.address;
    public_key = c.key_to_bytes sigs.public_key;
    channel_payload_signature = c.signature_to_bytes sigs.channel_payload_signature;
    witness_data_hash = c.hash_to_vec sigs.witness_data_hash;
    witness_data_signature = c.signature_to_bytes sigs.witness_data_signature;
    travel_output_witness_signature = optional_into sigs.travel_output_witness_signature;
  }

  optional_from : Bytes → Outcome SigsError (Option ℕ)
  optional_from bytes =
      if length bytes == 0
      then ok none
      else do s ← ok_or malformed (c.signature_try_from bytes); ok (some s)

  -- TryFrom<ChannelTransactionSigs>
  unfoldable pub sigs_try_from : ProtoSigs → Outcome SigsError ChannelTransactionSigs
  unfolding optional_from
  sigs_try_from proto = do
    address ← ok_or malformed (c.address_try_from proto.address)
    public_key ← ok_or malformed (c.key_try_from proto.public_key)
    channel_payload_signature ←
        ok_or malformed (c.signature_try_from proto.channel_payload_signature)
    witness_data_hash ← ok_or malformed (c.hash_from_slice proto.witness_data_hash)
    witness_data_signature ← ok_or malformed (c.signature_try_from proto.witness_data_signature)
    travel ← optional_from proto.travel_output_witness_signature
    ok (record {
      address = address;
      public_key = public_key;
      channel_payload_signature = channel_payload_signature;
      witness_data_hash = witness_data_hash;
      witness_data_signature = witness_data_signature;
      travel_output_witness_signature = travel;
    })

module _ (c : Encodings) (e : IsExact c) where
  optional_back : (o : Option ℕ) → optional_from c (optional_into c o) ≡ ok o
  unfolding optional_from optional_into
  optional_back none = refl
  optional_back (some s) = rw (e.signature_length s, e.signature_back s) refl

  -- Where addresses, keys, hashes and signatures of 64 bytes are read back from their bytes, a
  -- participant's signatures that are sent are read back as they were, with or without the
  -- signature of a travelling transaction.
  sigs_try_from-sigs_into :
      (sigs : ChannelTransactionSigs) → sigs_try_from c (sigs_into c sigs) ≡ ok sigs
  unfolding sigs_try_from sigs_into
  sigs_try_from-sigs_into sigs =
      rw
        (
          e.address_back sigs.address,
          e.key_back sigs.public_key,
          e.signature_back sigs.channel_payload_signature,
          e.hash_back sigs.witness_data_hash,
          e.signature_back sigs.witness_data_signature,
          optional_back sigs.travel_output_witness_signature,
        )
        refl
