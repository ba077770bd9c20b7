-- ===== src/Stm/Handle/Signing.antt =====
-- What one participant signs, another accepts: generate_txn_sigs against verify_txn_sigs, and
-- generate_proposal against verify_proposal.
use mathlib.Core.Path.{subst}
use stargate.Common.{ℕ, ◌≡◌, sym, ◌∙◌, true, some, List, arith, Option-cases, inl, inr, contains}
use stargate.Common.Outcome.{ok, >>=-eq-ok, ensure}
use stargate.Libra.{next_u64, PayloadBody, TransactionArgument, Duration}
use stargate.Proposal.{
  ChannelOp, ChannelTransaction, ChannelTransactionProposal, ChannelTransactionSigs,
  PendingTransaction,
}
use stargate.Stm.{bad_payload_signature, Externals, ChannelStm, channel_sequence_number}
use stargate.Stm.Build.{
  build_and_sign_channel_txn_payload_body, generate_txn_sigs, sigs_by, generate_proposal,
  witness_write_set,
}
use stargate.Stm.Handle.{verify_txn_sigs, verify_travel, verify_proposal}

-- The two machines see the channel alike.
pub record SameView (a b : ChannelStm) : Type 0 where
  pub channel_address : a.channel_address ≡ b.channel_address
  pub channel_state : a.channel_state ≡ b.channel_state
  pub witness : a.witness ≡ b.witness

-- A signature made with the machine's own key passes against its public key.
abbrev pub HasKeyPair : Externals → ChannelStm → Type 0
HasKeyPair x stm =
    (m : ℕ) → x.verify_signature stm.public_key m (x.sign_message stm.private_key m) ≡ true

module _ (x : Externals) (a b : ChannelStm) (v : SameView a b) where
  pub sequence_number_agrees : channel_sequence_number x a ≡ channel_sequence_number x b
  unfolding channel_sequence_number
  sequence_number_agrees = rw (v.channel_address, v.channel_state, v.witness)

  pub body_agrees :
      (txn : ChannelTransaction) {r : PayloadBody × ℕ}
      → build_and_sign_channel_txn_payload_body x a txn ≡ ok r
      → (build_and_sign_channel_txn_payload_body x b txn
          ≡ ok (r.0, x.sign_message b.private_key (x.body_hash r.0)))
        × (r.1 ≡ x.sign_message a.private_key (x.body_hash r.0))
  unfolding build_and_sign_channel_txn_payload_body
  body_agrees txn h = (ground (arith, v.channel_address, v.witness), ground arith)

  sigs_by_pass :
      (p : PendingTransaction) (body : PayloadBody) (n s : ℕ)
      → HasKeyPair x a
      → build_and_sign_channel_txn_payload_body x b p.proposal.channel_txn ≡ ok (body, s)
      → channel_sequence_number x b ≡ ok n
      → verify_txn_sigs x b p
          (sigs_by x a p.output n (x.sign_message a.private_key (x.body_hash body)))
        ≡ ok tt
  unfolding verify_txn_sigs sigs_by
  sigs_by_pass p body n s k built read =
      rw (built, read, k (x.body_hash body))
        (ground (
          arith,
          k (x.witness_data_hash (next_u64 n) (witness_write_set p.output)),
          k (x.witness_data_hash (next_u64 n) p.output.write_set),
        ))

  -- The signatures that a machine generates for a pending transaction, with a key pair whose
  -- signatures verify, pass the check of every machine that sees the channel alike, whether or
  -- not the transaction travels.
  pub verify_txn_sigs-generate_txn_sigs :
      (p : PendingTransaction) {sigs : ChannelTransactionSigs}
      → HasKeyPair x a
      → generate_txn_sigs x a p.proposal.channel_txn p.output ≡ ok sigs
      → verify_txn_sigs x b p sigs ≡ ok tt
  unfolding generate_txn_sigs
  verify_txn_sigs-generate_txn_sigs p {sigs} k h =
      let (r, built, h₁) =
        >>=-eq-ok (build_and_sign_channel_txn_payload_body x a p.proposal.channel_txn) _ h in
      let (n, read, h₂) = >>=-eq-ok (channel_sequence_number x a) _ h₁ in
      let (there, signed) = body_agrees p.proposal.channel_txn built in
      let passes = sigs_by_pass p r.0 n _ k there (sym sequence_number_agrees ∙ read) in
      subst (λ s. verify_txn_sigs x b p s ≡ ok tt) (cc (signed)) passes

  -- A proposal that a machine generates, with a key pair whose signatures verify, passes the
  -- check of every machine that sees the channel alike and counts its author among the
  -- participants.
  pub verify_proposal-generate_proposal :
      (expiration : Duration) (op : ChannelOp) (args : List TransactionArgument)
      {proposal : ChannelTransactionProposal}
      → HasKeyPair x a
      → contains b.participant_addresses a.account_address ≡ true
      → generate_proposal x a expiration op args ≡ ok proposal
      → verify_proposal x b proposal ≡ ok tt
  unfolding generate_proposal verify_proposal
  verify_proposal-generate_proposal expiration op args {proposal} k member h = ground (
    arith,
    v.channel_address,
    sequence_number_agrees,
    k (x.txn_hash proposal.channel_txn),
    member,
  )

-- What a participant that accepts the signatures of another has checked.
pub record Endorses (x : Externals) (stm : ChannelStm) (p : PendingTransaction)
    (sigs : ChannelTransactionSigs) : Type 0 where
  pub payload : PayloadBody × ℕ
  pub built : build_and_sign_channel_txn_payload_body x stm p.proposal.channel_txn ≡ ok payload
  pub sequence_number : ℕ
  pub read : channel_sequence_number x stm ≡ ok sequence_number
  pub payload_signed :
      x.verify_signature sigs.public_key (x.body_hash payload.0) sigs.channel_payload_signature
      ≡ true
  pub same_witness :
      sigs.witness_data_hash
      ≡ x.witness_data_hash (next_u64 sequence_number) (witness_write_set p.output)
  pub witness_signed :
      x.verify_signature sigs.public_key sigs.witness_data_hash sigs.witness_data_signature ≡ true
  pub travel_signed :
      p.output.is_travel_txn ≡ true
      → (s : ℕ) × (sigs.travel_output_witness_signature ≡ some s)
        × (x.verify_signature sigs.public_key
              (x.witness_data_hash (next_u64 sequence_number) p.output.write_set)
              s
            ≡ true)

module _ (x : Externals) (stm : ChannelStm) (p : PendingTransaction)
    (sigs : ChannelTransactionSigs) where
  travel_checked :
      (n : ℕ)
      → p.output.is_travel_txn ≡ true
      → verify_travel x n p.output sigs ≡ ok tt
      → (s : ℕ) × (sigs.travel_output_witness_signature ≡ some s)
        × (x.verify_signature sigs.public_key
              (x.witness_data_hash (next_u64 n) p.output.write_set)
              s
            ≡ true)
  unfolding verify_travel
  travel_checked n t h = elim (Option-cases sigs.travel_output_witness_signature) [
    | inl missing ↦ ground arith
    | inr (s, e) ↦ (s, e, ground arith)
  ]

  -- Signatures that pass verify_txn_sigs are on the payload that the machine itself builds, and
  -- on the next witness that it computes itself; for a travelling transaction its output is
  -- signed as well.
  pub verify_txn_sigs-Endorses : verify_txn_sigs x stm p sigs ≡ ok tt → Endorses x stm p sigs
  unfolding verify_txn_sigs
  verify_txn_sigs-Endorses h =
      let (payload, built, h₁) =
        >>=-eq-ok (build_and_sign_channel_txn_payload_body x stm p.proposal.channel_txn) _ h in
      let (u, signed, h₂) =
        >>=-eq-ok
          (ensure
            (x.verify_signature sigs.public_key (x.body_hash payload.0)
              sigs.channel_payload_signature)
            bad_payload_signature)
          _ h₁ in
      let (n, read, h₃) = >>=-eq-ok (channel_sequence_number x stm) _ h₂ in
      record {
        payload = payload;
        built = built;
        sequence_number = n;
        read = read;
        payload_signed = ground (arith, signed);
        same_witness = ground (arith, h₃);
        witness_signed = ground (arith, h₃);
        travel_signed = λ t. travel_checked n t (ground (arith, h₃));
      }
