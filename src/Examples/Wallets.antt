-- ===== src/Examples/Wallets.antt =====
-- Runs of two channels with each other, and of a wallet, on concrete inputs.
use stargate.Common.{
  ℕ, ◌+◌, ◌≡◌, refl, ap, ◌∙◌, true, false, Option, none, some, [], ◌∷◌, arith, length, ==-self, inl,
  inr, Bool-cases, ◌==◌,
}
use stargate.Common.Dict.{get}
use stargate.Common.Outcome.{ok}
use stargate.Libra.{TransactionOutput, PayloadBody}
use stargate.Proposal.{ChannelTransactionSigs, PendingTransaction, agreed}
use stargate.Stm.{ChannelStm, channel_sequence_number, get_local, access_local}
use stargate.Stm.Build.{
  generate_proposal, execute_proposal, build_and_sign_channel_txn_payload_body,
  channel_op_to_action, build_chain_txn, build_raw_txn_from_channel_txn,
}
use stargate.Stm.Handle.{is_participant_channel_resource_modified}
use stargate.Stm.Handle.Signing.{SameView}
use stargate.Stm.Handle.Exchange.{Partners, half_signed}
use stargate.Store.{ChannelStore}
use stargate.Store.Read.{load, load_ledger_info, load_witness, last, get_startup_info}
use stargate.Common.Handler.{◌>>=◌}
use stargate.Store.Applier
use stargate.Store.Applier.{TxApplier}
use stargate.Store.Synced.{IsSynced}
use stargate.Store.Rebuilt.{IsReady}
use stargate.Channel.{Channel}
use stargate.Channel.Kept.{with_pending}
use stargate.Channel.Negotiate.{execute, collect_proposal_with_sigs, apply_pending_txn}
use stargate.Channel.Persist.{check_applied, applied_up_to}
use stargate.Channel.Handshake.{handshake, settle}
use stargate.Channel.Start.{Past}
use stargate.Wallet.{Wallet, WalletWorld}
use stargate.Wallet.Calls.{call, propose, stop}
use stargate.Wallet.Calls.Durable.{Every, AllReady}
use stargate.Wallet.Calls.Recovery.{here, next, wallet_recovery}
use stargate.Wallet.Calls.Frame.{call_elsewhere}
use stargate.Examples.Toy.{
  x, h, world, alice, bob, channel, store, applier, transfer, proposal, pending, both, output,
  expiration,
}

abbrev alices : Option PendingTransaction → Channel
alices p = channel p

abbrev bobs : Option PendingTransaction → Channel
bobs p = record (channel p) { stm = bob }

alike : SameView alice bob
alike = record { channel_address = refl; channel_state = refl; witness = refl }

partners : Partners x alice bob
partners = record {
  view = alike;
  same_keys = refl;
  same_participants = refl;
  two = inl refl;
  differ = λ e. omega arith;
  own_pair = λ m. ==-self (11 + m);
  other_pair = λ m. ==-self (12 + m);
}

proposes : generate_proposal x alice expiration transfer [] ≡ ok proposal
unfolding generate_proposal build_and_sign_channel_txn_payload_body channel_op_to_action
    channel_sequence_number get_local access_local
proposes = refl

executes :
    (r : PayloadBody × ℕ × TransactionOutput) × (execute_proposal x alice proposal ≡ ok r)
    × (r.2 ≡ output)
unfolding execute_proposal build_and_sign_channel_txn_payload_body channel_op_to_action
    channel_sequence_number get_local access_local build_raw_txn_from_channel_txn build_chain_txn
executes = (_, refl, refl)

untouched : is_participant_channel_resource_modified x [] output.write_set 2 ≡ false
unfolding is_participant_channel_resource_modified
untouched = refl

unapplied :
    (stm : ChannelStm)
    → check_applied 0 (record (channel none) { stm = stm })
      ≡ (ok none, record (channel none) { stm = stm })
unfolding check_applied applied_up_to ◌>>=◌ get_startup_info
unapplied stm = refl

handshake_example :
    (sa : ChannelTransactionSigs) × (sb : ChannelTransactionSigs) × (p : PendingTransaction)
    × (execute world transfer [] (alices none) ≡ (
      ok (proposal, sa, executes.0.2),
      with_pending (some (half_signed proposal executes.0.2 sa)) (alices none),
    ))
    × (collect_proposal_with_sigs world proposal sa (bobs none)
        ≡ (ok (some sb), with_pending (some p) (bobs none)))
    × (collect_proposal_with_sigs world proposal sb
          (with_pending (some (half_signed proposal executes.0.2 sa)) (alices none))
        ≡ (ok (some sa), with_pending (some p) (alices none)))
    × (p.lifecycle ≡ agreed)
    × (p.proposal ≡ proposal)
    × (p.output ≡ executes.0.2)
handshake_example =
    handshake world (alices none) (bobs none) partners transfer [] proposes executes.1
      (λ view t u same. refl) refl refl refl (unapplied alice) (unapplied bob)
      (ap (λ (o : TransactionOutput). is_participant_channel_resource_modified x [] o.write_set 2)
          executes.2
        ∙ untouched)

abbrev full : PendingTransaction
full = pending agreed both

store-IsSynced : (p : Option PendingTransaction) → IsSynced h (store p) applier
unfolding load load_ledger_info load_witness last
store-IsSynced p = record {
  cached = refl;
  same_leaves = refl;
  epoch_bound = omega arith;
  epochs_ordered = tt;
  epochs_past = tt;
  infos_ordered = tt;
  infos_past = tt;
  rows_past = tt;
}

settle_example :
    (da : Channel) × (db : Channel) × (apply_pending_txn world (alices (some full)) ≡ (ok none, da))
    × (apply_pending_txn world (bobs (some full)) ≡ (ok none, db))
    × (da.store.pending_txn ≡ none)
    × (db.store.pending_txn ≡ none)
    × SameView da.stm db.stm
    × (da.stm.witness.write_set ≡ output.write_set)
settle_example =
    settle world (alices (some full)) (bobs (some full)) full alike (store-IsSynced (some full))
      (store-IsSynced (some full)) refl refl refl refl refl refl refl

abbrev pub past : Past
past = record { watched = λ _ _. none; version_of = λ _ _. none }

abbrev pub ww : WalletWorld
ww = record {
  world = world;
  past = past;
  address_of_set = λ _. 100;
  participant_path = λ _. 4 ∷ [];
  make_participant = λ d. some (length d);
  sequence_number = some 3;
  enable = λ n. some n;
}

-- alice's wallet, with her channel with bob
abbrev pub wallet : Wallet
wallet = record {
  account = record { address = 1; private_key = 11; public_key = 11 };
  channel_enabled = true;
  channels = (100, channel none) ∷ [];
  sgdb = [];
  stopping = false;
}

pub store-IsReady : (p : Option PendingTransaction) → IsReady h (store p) applier
unfolding Applier.new
store-IsReady p = record { synced = store-IsSynced p; rebuilt = refl }

pub wallet-AllReady : AllReady h wallet
unfolding get
wallet-AllReady = record {
  running = λ a. elim (Bool-cases (100 == a)) [
    | inl same ↦ rw (same) (store-IsReady none)
    | inr other ↦ rw (other) tt
  ];
  stored = λ a. tt;
}

abbrev served : Wallet
served = call ww (stop 2) (call ww (propose 2 transfer []) wallet)

wallet_recovery_example :
    Every
      (λ c. (load h c.store.db ≡ ok c.store) × (Applier.new c.store ≡ ok c.applier))
      (get served.channels 100)
    × Every
        (λ db.
          (s : ChannelStore) × (a : TxApplier) × (load h db ≡ ok s)
          × (Applier.new s ≡ ok a)
          × IsSynced h s a)
        (get served.sgdb 100)
wallet_recovery_example =
    wallet_recovery h 100 wallet-AllReady
      (next ww (stop 2) refl (next ww (propose 2 transfer []) refl here))

call_elsewhere_example :
    (get (call ww (propose 2 transfer []) wallet).channels 7 ≡ get wallet.channels 7)
    × (get (call ww (propose 2 transfer []) wallet).sgdb 7 ≡ get wallet.sgdb 7)
call_elsewhere_example = call_elsewhere ww (propose 2 transfer []) wallet 7 (λ e. omega arith)
