-- ===== src/Stm/Handle/Exchange/Executed.antt =====
-- sgwallet/src/channel/channel_stm.rs, execute_proposal: two machines that see a channel alike compute
-- the same output.
use stargate.Common.{ℕ, ◌≡◌, refl, none, arith}
use stargate.Common.Outcome.{Outcome, ok, ◌>>=◌, >>=-eq-ok}
use stargate.Libra.{PayloadBody, TransactionOutput, SignedTransaction}
use stargate.Proposal.{ChannelTransaction, ChannelTransactionProposal}
use stargate.Stm.{Error, Externals, ChannelStm, ChannelStateView, externally}
use stargate.Stm.Build.{
  build_and_sign_channel_txn_payload_body, execute_proposal, build_raw_txn_from_channel_txn,
  build_chain_txn, keys_and_sigs, max_gas_amount_offchain,
}
use stargate.Stm.Handle.Signing.{body_agrees, SameView}

-- What a transaction gives does not depend on the key with which it is signed for its execution.
abbrev pub IgnoresSigner : Externals → Type 0
IgnoresSigner x =
    (view : ChannelStateView) (t u : SignedTransaction)
    → t.raw_txn ≡ u.raw_txn
    → x.execute_transaction view t ≡ x.execute_transaction view u

module _ (x : Externals) (a b : ChannelStm) (v : SameView a b)
    (same_keys : a.participant_keys ≡ b.participant_keys)
    (same_participants : a.participant_addresses ≡ b.participant_addresses) where
  built_by_other :
      (body : PayloadBody) (txn : ChannelTransaction) (gas : ℕ) {t : SignedTransaction}
      → build_raw_txn_from_channel_txn x a body txn none gas ≡ ok t
      → (u : SignedTransaction) × (build_raw_txn_from_channel_txn x b body txn none gas ≡ ok u)
        × (t.raw_txn ≡ u.raw_txn)
  unfolding build_raw_txn_from_channel_txn build_chain_txn keys_and_sigs
  built_by_other body txn gas {t} e = (
    record {
      raw_txn = t.raw_txn;
      public_key = b.public_key;
      signature = x.sign_message b.private_key (x.raw_hash t.raw_txn);
    },
    ground (arith, same_keys, same_participants),
    refl,
  )

  abbrev view_of : ChannelStm → ChannelTransactionProposal → ChannelStateView
  view_of stm proposal = record {
    channel_state = stm.channel_state;
    latest_write_set = stm.witness.write_set;
    version = proposal.channel_txn.version;
  }

  abbrev given :
      PayloadBody → ℕ → TransactionOutput → Outcome Error (PayloadBody × ℕ × TransactionOutput)
  given body n output = ok (body, n, output)

  ran_by_other :
      (proposal : ChannelTransactionProposal) (body : PayloadBody) (n : ℕ) (t u : SignedTransaction)
      {r : PayloadBody × ℕ × TransactionOutput}
      → x.execute_transaction (view_of a proposal) t ≡ x.execute_transaction (view_of a proposal) u
      → (externally (x.execute_transaction (view_of a proposal) t) >>= given body n) ≡ ok r
      → (externally (x.execute_transaction (view_of b proposal) u)
          >>= given body (x.sign_message b.private_key (x.body_hash body)))
        ≡ ok (r.0, x.sign_message b.private_key (x.body_hash r.0), r.2)
  ran_by_other proposal body n t u same e = ground (arith, same, v.channel_state, v.witness)

  pub executed_by_other :
      (proposal : ChannelTransactionProposal) {r : PayloadBody × ℕ × TransactionOutput}
      → IgnoresSigner x
      → execute_proposal x a proposal ≡ ok r
      → execute_proposal x b proposal
        ≡ ok (r.0, x.sign_message b.private_key (x.body_hash r.0), r.2)
  unfolding execute_proposal
  executed_by_other proposal {r} ignores e =
      let (built, e1, e2) =
        >>=-eq-ok (build_and_sign_channel_txn_payload_body x a proposal.channel_txn) _ e in
      let (t, e3, e4) =
        >>=-eq-ok
          (build_raw_txn_from_channel_txn x a built.0 proposal.channel_txn none
            max_gas_amount_offchain)
          _ e2 in
      let (u, e5, same) = built_by_other built.0 proposal.channel_txn max_gas_amount_offchain e3 in
      rw ((body_agrees x a b v proposal.channel_txn e1).0, e5)
        (ran_by_other proposal built.0 built.1 t u (ignores (view_of a proposal) t u same) e4)
