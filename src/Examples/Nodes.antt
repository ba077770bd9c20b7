-- ===== src/Examples/Nodes.antt =====
-- Runs of a node on concrete inputs: alice (1) has channels with bob (2) and with carol (3).
use stargate.Wallet.Htlc
use stargate.Store
use stargate.Store.Applier
use native.Mathlib.Decide.{ℕ_discrete}
use mathlib.Core.Bool.{decide}
use stargate.Proposal.Requests
use stargate.Node.Inner.Incoming
use stargate.Common.Dict
use stargate.Node.Inner
use stargate.Channel.Negotiate
use stargate.Channel.Persist
use stargate.Common.Handler
use stargate.Proposal
use stargate.Stm
use stargate.Stm.Build
use stargate.Stm.Handle
use stargate.Store.Read
use stargate.Store.Write
use stargate.Wallet
use stargate.Wallet.Handle as WalletHandle
use stargate.Common.{
  ℕ, ◌+◌, ◌≡◌, ◌≤◌, refl, true, false, Option, none, some, List, [], ◌∷◌, ◌++◌, arith, length, ◌==◌,
  inl, inr, Bool-cases, if◌then◌else◌,
}
use stargate.Common.Dict.{get, insert}
use stargate.Common.Outcome.{ok, err}
use stargate.Wallet.{WalletError}
use stargate.Common.Text.{codes}
use stargate.Libra.{Bytes}
use stargate.Invoice
use stargate.Invoice.{Codec, get_preimage, get_previous_hop}
use stargate.Proposal.Requests.{ChannelTransactionRequest, ChannelTransactionResponse, request_id}
use stargate.Channel.{Channel}
use stargate.Wallet.{Wallet, WalletWorld, peer_mismatch}
use stargate.Wallet.Actions.{
  send_payment, receive_payment, channel_script, payment_args, preimage_args,
}
use stargate.Node.Inner.{
  NodeWorld, NodeInner, NetworkMessage, Proto, sg_error, wallet_error, error_bytes,
}
use stargate.Node.Inner.Incoming.Forwarding.{to_peer, passes_on, refused_passes_on}
use stargate.Node.Inner.Incoming.Settling.{requested}
use stargate.Node.Inner.Incoming.Claiming.{option, answer_to, claim_of, passes_back}
use mathlib.Core.Bool.{decide}
use native.Mathlib.Decide.{ℕ_discrete}
use stargate.Wallet.Htlc.{
  HtlcPayment, is_htlc_transfer, is_htlc_receive, is_script, parse_htlc_payment-payment_args,
  parse_htlc_payment, parse_htlc_preimage, Bytes-discrete,
}
use stargate.Wallet.Handle.{verify_txn, verify_txn_response, apply_txn}
use stargate.Wallet.Reads.{channel_sequence_number}
use stargate.Stm.Handle.Exchange.{half_signed}
use stargate.Node.Futures.Life.{
  Act, step, steps, open_future, timed_out, respond, abandon, step-IsSound, new-IsSound,
}
use stargate.Node.Inner.Payments.{off_chain_pay_htlc}
use stargate.Node.Inner.Incoming.{
  handle_network_msg, handle_channel_transaction_request, handle_multi_hop_receiver_channel,
  on_receive, on_transfer, handle_sender_channel,
}
use stargate.Node.Inner.Payments.Paying.{pays, refuses}
use stargate.Node.Wire.{add_message_type}
use stargate.Node.Inner.Incoming.Answering.{answers_user}
use stargate.Node.Futures.{poll, ready, failed}
use stargate.Node.Futures.Answers.{answers_bound, second_request}
use stargate.Messages.Errors.{time_out}
use stargate.Node.Inner.Events.{happen, delay_over, add_invoice, node_msg, channel_pay, network_msg}
use stargate.Node.Inner.Events.Keeping.{IsHealthy}
use stargate.Node.Inner.Events.Healthy.{node_stays_healthy, here, next}
use stargate.Wallet.Calls.Durable.{AllReady, Every}
use stargate.Store.Read.{load}
use stargate.Store.Applier
use stargate.Messages.{multi_hop_channel_transaction_request}
use stargate.Messages.Errors.{balance_not_enough}
use stargate.Messages.Hops.{NextHop, MultiHopChannelRequest}
use stargate.Router.Paths.{BalanceQueryResponse}
use stargate.Router.Stats.{paying}
use stargate.Node.Futures
use stargate.Examples.Toy.{x, h, channel_txn, alice, channel, proposal, signed_by, output}
use stargate.Examples.Wallets
use stargate.Examples.Wallets.{past, store-IsReady}

abbrev address_of : List ℕ → ℕ
address_of (_ ∷ b ∷ []) = if b == 2 then 100 else 200
address_of _ = 200

abbrev ww : WalletWorld
ww = record Wallets.ww { address_of_set = address_of }

abbrev with_carol : Channel
with_carol = record (channel none) {
  stm = record alice {
    channel_address = 200;
    participant_addresses = 1 ∷ 3 ∷ [];
    channel_state = Stm.empty_state 200;
  };
}

abbrev wallet : Wallet
wallet = record Wallets.wallet { channels = (100, channel none) ∷ (200, with_carol) ∷ [] }

proposed :
    (r : ChannelTransactionRequest) × (w : Wallet) × (send_payment ww 3 50 (8 ∷ []) 9 wallet
      ≡ (ok r, w))
unfolding send_payment WalletHandle.execute_async Handler.◌>>=◌ Proposal.is_open Wallet.on_channel
    Wallet.run_on get Wallet.generate_channel_address Negotiate.execute Build.generate_proposal
    Stm.channel_sequence_number Wallet.put_channel Persist.pending_txn Handle.handle_new_proposal
    Handle.verify_proposal Build.execute_proposal Build.build_and_sign_channel_txn_payload_body
    Build.channel_op_to_action Build.build_raw_txn_from_channel_txn Build.build_chain_txn
    Build.generate_txn_sigs Proposal.set_lifecycle Proposal.new Handle.handle_proposal_signature
    Proposal.get_signature Handle.verify_txn_sigs Build.sigs_by Write.save_pending_txn
    Persist.save_pending_txn Persist.save_over Persist.persist_pending Persist.write_store
    Read.commit
proposed = (_, _, refl)

abbrev only : Bytes → Option ℕ
only (n ∷ []) = some n
only _ = none

abbrev codec : Codec
codec = record {
  address_length = 1;
  address_to_vec = λ a. a ∷ [];
  address_try_from = only;
  hash_to_vec = λ n. n ∷ [];
  from_sha3_256 = λ p. p + 1;
  hex_encode_upper = λ v. v;
  hex_decode = λ v. some v;
}

abbrev proto : {A : Type 0} → A → Proto A
proto a = record { into_proto_bytes = λ _. 5 ∷ []; from_proto_bytes = λ _. some a }

-- bob pays over alice to carol, under the hash of 20
abbrev bobs_payment : ChannelTransactionRequest
bobs_payment = record {
  proposal = record {
    channel_txn = record channel_txn {
      operator = channel_script (codes "send_payment");
      args = payment_args 1 50 (21 ∷ []) 9;
      proposer = 2;
    };
    proposer_public_key = 12;
    proposer_signature = 14;
  };
  channel_txn_sigs = record (signed_by 2 12) { channel_payload_signature = 714 };
  travel = false;
}

abbrev carols_hop : NextHop
carols_hop = record { remote_addr = 3; amount = 50 }

abbrev bobs_message : MultiHopChannelRequest
bobs_message = record { request = bobs_payment; hops = carols_hop ∷ [] }

-- bob's answer to alice's transfer
abbrev bobs_answer : ChannelTransactionResponse
bobs_answer = record { proposal = proposal; channel_txn_sigs = signed_by 2 12 }

abbrev balance : ℕ → ℕ → ℕ → BalanceQueryResponse
balance a b n = record {
  local_addr = a;
  remote_addr = b;
  local_balance = n;
  remote_balance = 0;
  total_pay_amount = 0;
}

abbrev nw : NodeWorld
nw = record {
  ww = ww;
  c = codec;
  from_slice = only;
  sha3 = λ b. length b;
  request = proto bobs_payment;
  response = proto bobs_answer;
  multi_hop = proto bobs_message;
  error = record { into_proto_bytes = λ _. 6 ∷ []; from_proto_bytes = λ _. none };
  router = record { into_proto_bytes = λ _. 7 ∷ []; from_proto_bytes = λ _. none };
  find_path_by_addr = λ _ _. some (balance 1 3 80 ∷ balance 3 4 60 ∷ []);
  is_connected = λ _. true;
  debug_text = λ _. [];
  balance_text = λ _ _. [];
  path_text = λ _ _. [];
  network_reads = true;
  router_reads = true;
  stats_reads = true;
}

abbrev node : Wallet → NodeInner
node w = record {
  wallet = w;
  message_processor = Futures.new;
  invoice_mgr = record { r_hash_map = (31, 30) ∷ []; r_hash_previous_hop_map = (21, 2) ∷ [] };
  default_future_timeout = 10;
  auto_approve = true;
  sent = [];
  router_messages = [];
  stats = [];
  delays = [];
}

pays_example :
    (t : NodeInner) × (off_chain_pay_htlc nw 4 50 (8 ∷ []) 9 (node wallet)
      ≡ (ok (ok (node wallet).message_processor.next), t))
    × (t.wallet ≡ proposed.1)
    × (t.sent
        ≡ []
          ++ record {
            peer_id = 3;
            bytes = add_message_type (5 ∷ []) multi_hop_channel_transaction_request;
          }
            ∷ [])
pays_example =
    pays nw (node wallet) 4 50 (8 ∷ []) 9 refl (balance 1 3 80) (balance 3 4 60 ∷ []) proposed.0
      proposed.1 refl proposed.2 refl refl (omega arith, (omega arith, tt))

refuses_example : off_chain_pay_htlc nw 4 70 (8 ∷ []) 9 (node wallet) ≡ (
  ok (err (sg_error (record { error_code = balance_not_enough; error_message = [] }))),
  record (node wallet) {
    stats = ((1, 4), record { hash_value = 1; amount = 70; kind = paying }) ∷ [];
  },
)
refuses_example =
    refuses nw (node wallet) 4 70 (8 ∷ []) 9 refl (balance 1 3 80 ∷ []) [] (balance 3 4 60) refl
      (omega arith)

-- bob's payment as alice deals with it, and what she proposes to carol
dealt_with :
    (u : NodeInner) × (r : ChannelTransactionRequest) × (w : Wallet)
    × (handle_channel_transaction_request nw 2 bobs_payment (node wallet) ≡ (ok tt, u))
    × (send_payment ww 3 50 (21 ∷ []) 9 u.wallet ≡ (ok r, w))
unfolding send_payment WalletHandle.execute_async Handler.◌>>=◌ Proposal.is_open Wallet.on_channel
    Wallet.run_on get Wallet.generate_channel_address Negotiate.execute Build.generate_proposal
    Stm.channel_sequence_number Wallet.put_channel Persist.pending_txn Handle.handle_new_proposal
    Handle.verify_proposal Build.execute_proposal Build.build_and_sign_channel_txn_payload_body
    Build.channel_op_to_action Build.build_raw_txn_from_channel_txn Build.build_chain_txn
    Build.generate_txn_sigs Proposal.set_lifecycle Proposal.new Handle.handle_proposal_signature
    Proposal.get_signature Handle.verify_txn_sigs Build.sigs_by Write.save_pending_txn
    Persist.save_pending_txn Persist.save_over Persist.persist_pending Persist.write_store
    Read.commit handle_channel_transaction_request Inner.attempt Inner.on_wallet
    WalletHandle.verify_txn Negotiate.collect_proposal_with_sigs Persist.check_applied
    Read.get_startup_info Persist.applied_up_to Negotiate.collect_after Negotiate.collect_pending
    Negotiate.auto_sign Dict.contains_key Proposal.add_signature insert
    Handle.can_auto_sign_pending_proposal Handle.is_participant_channel_resource_modified
    Incoming.verified Incoming.approved Inner.unwrap WalletHandle.approve_txn
    WalletHandle.grant_txn_request WalletHandle.channel_with WalletHandle.grant_or_cancel
    Negotiate.grant_proposal Negotiate.open_pending Negotiate.open_of Requests.request_id
    Proposal.consensus_reached decide Proposal.PendingTransaction-discrete ℕ_discrete
    Proposal.try_reach_consensus Proposal.newer_than Incoming.answered Incoming.apply_txn Inner.send
    WalletHandle.apply_txn Negotiate.apply_pending_txn Negotiate.apply_of
    Negotiate.apply_by_lifecycle Handle.handle_apply_proposal Proposal.set_applying Persist.apply
    Persist.commit Persist.commit_result Applier.apply Store.sequence_number Write.save_tx
    Applier.ledger_info_of Write.save_tx_impl Write.appended WalletHandle.watch_travel Incoming.told
    on_transfer Htlc.is_htlc_transfer Htlc.Bytes-discrete Htlc.parse_htlc_payment Incoming.received
    Invoice.get_preimage on_receive Htlc.is_htlc_receive
dealt_with = (_, _, _, refl, refl)

abbrev lock : HtlcPayment
lock = record { hash_lock = 21; amount = 50; timeout = 9 }

is_payment : is_htlc_transfer (channel_script (codes "send_payment")) ≡ true
unfolding is_htlc_transfer is_script decide Bytes-discrete ℕ_discrete
is_payment = refl

of_args : parse_htlc_payment only (payment_args 1 50 (21 ∷ []) 9) ≡ ok lock
unfolding parse_htlc_payment
of_args = refl

refused : verify_txn ww 5 bobs_payment wallet ≡ (err peer_mismatch, wallet)
unfolding WalletHandle.verify_txn Handler.◌>>=◌
refused = refl

proposed_under :
    (r : ChannelTransactionRequest) × (w : Wallet) × (send_payment ww 3 50 (21 ∷ []) 9 wallet
      ≡ (ok r, w))
unfolding send_payment WalletHandle.execute_async Handler.◌>>=◌ Proposal.is_open Wallet.on_channel
    Wallet.run_on get Wallet.generate_channel_address Negotiate.execute Build.generate_proposal
    Stm.channel_sequence_number Wallet.put_channel Persist.pending_txn Handle.handle_new_proposal
    Handle.verify_proposal Build.execute_proposal Build.build_and_sign_channel_txn_payload_body
    Build.channel_op_to_action Build.build_raw_txn_from_channel_txn Build.build_chain_txn
    Build.generate_txn_sigs Proposal.set_lifecycle Proposal.new Handle.handle_proposal_signature
    Proposal.get_signature Handle.verify_txn_sigs Build.sigs_by Write.save_pending_txn
    Persist.save_pending_txn Persist.save_over Persist.persist_pending Persist.write_store
    Read.commit
proposed_under = (_, _, refl)

passes_on_example :
    (t : NodeInner) × (handle_multi_hop_receiver_channel nw (9 ∷ []) 2 (node wallet) ≡ (ok tt, t))
    × (t.sent
        ≡ dealt_with.0.sent
          ++ to_peer 3 (add_message_type (5 ∷ []) multi_hop_channel_transaction_request))
    × (t.wallet ≡ dealt_with.2)
    × ((preimage : ℕ) → preimage + 1 ≡ 21 → get_previous_hop codec t.invoice_mgr preimage ≡ some 2)
passes_on_example =
    passes_on nw refl 2 (9 ∷ []) bobs_message carols_hop [] lock dealt_with.1 (node wallet)
      dealt_with.0 dealt_with.2 refl refl is_payment of_args dealt_with.4 dealt_with.3

refused_passes_on_example :
    (t : NodeInner) × (handle_multi_hop_receiver_channel nw (9 ∷ []) 5 (node wallet) ≡ (ok tt, t))
    × (t.sent
        ≡ ([]
            ++ to_peer 5
                (error_bytes nw (wallet_error peer_mismatch) (request_id x.txn_hash bobs_payment)))
          ++ to_peer 3 (add_message_type (5 ∷ []) multi_hop_channel_transaction_request))
refused_passes_on_example =
    refused_passes_on nw refl 5 (9 ∷ []) bobs_message carols_hop [] lock _ (node wallet) wallet _
      peer_mismatch refl refl is_payment of_args refused proposed_under.2

-- bob pays alice under the hash of 30, and claims from her with the preimage 20 what she passed on
abbrev own_payment : ChannelTransactionRequest
own_payment = record bobs_payment {
  proposal = record bobs_payment.proposal {
    channel_txn = record channel_txn {
      operator = channel_script (codes "send_payment");
      args = payment_args 1 50 (31 ∷ []) 9;
      proposer = 2;
    };
  };
}

abbrev bobs_receipt : ChannelTransactionRequest
bobs_receipt = record bobs_payment {
  proposal = record bobs_payment.proposal {
    channel_txn = record channel_txn {
      operator = channel_script (codes "receive_payment");
      args = preimage_args (20 ∷ []);
      proposer = 2;
    };
  };
}

abbrev passing : NodeInner
passing = record (node wallet) {
  invoice_mgr = record { r_hash_map = []; r_hash_previous_hop_map = (21, 3) ∷ [] };
}

agreed_receipt :
    (resp : ChannelTransactionResponse) × (u : Wallet) × (v : Wallet) × (gas : ℕ) × (after : Wallet)
    × (r : ChannelTransactionRequest) × (w : Wallet) × (verify_txn ww 2 bobs_receipt wallet
        ≡ (ok none, u))
    × (WalletHandle.approve_txn ww 2 (request_id x.txn_hash bobs_receipt) u ≡ (ok resp, v))
    × (apply_txn ww 2 v ≡ (ok gas, after))
    × (receive_payment ww 3 (20 ∷ []) after ≡ (ok r, w))
unfolding send_payment WalletHandle.execute_async Handler.◌>>=◌ Proposal.is_open Wallet.on_channel
    Wallet.run_on get Wallet.generate_channel_address Negotiate.execute Build.generate_proposal
    Stm.channel_sequence_number Wallet.put_channel Persist.pending_txn Handle.handle_new_proposal
    Handle.verify_proposal Build.execute_proposal Build.build_and_sign_channel_txn_payload_body
    Build.channel_op_to_action Build.build_raw_txn_from_channel_txn Build.build_chain_txn
    Build.generate_txn_sigs Proposal.set_lifecycle Proposal.new Handle.handle_proposal_signature
    Proposal.get_signature Handle.verify_txn_sigs Build.sigs_by Write.save_pending_txn
    Persist.save_pending_txn Persist.save_over Persist.persist_pending Persist.write_store
    Read.commit handle_channel_transaction_request Inner.attempt Inner.on_wallet
    WalletHandle.verify_txn Negotiate.collect_proposal_with_sigs Persist.check_applied
    Read.get_startup_info Persist.applied_up_to Negotiate.collect_after Negotiate.collect_pending
    Negotiate.auto_sign Dict.contains_key Proposal.add_signature insert
    Handle.can_auto_sign_pending_proposal Handle.is_participant_channel_resource_modified
    Incoming.verified Incoming.approved Inner.unwrap WalletHandle.approve_txn
    WalletHandle.grant_txn_request WalletHandle.channel_with WalletHandle.grant_or_cancel
    Negotiate.grant_proposal Negotiate.open_pending Negotiate.open_of Requests.request_id
    Proposal.consensus_reached decide Proposal.PendingTransaction-discrete ℕ_discrete
    Proposal.try_reach_consensus Proposal.newer_than Incoming.answered Incoming.apply_txn Inner.send
    WalletHandle.apply_txn Negotiate.apply_pending_txn Negotiate.apply_of
    Negotiate.apply_by_lifecycle Handle.handle_apply_proposal Proposal.set_applying Persist.apply
    Persist.commit Persist.commit_result Applier.apply Store.sequence_number Write.save_tx
    Applier.ledger_info_of Write.save_tx_impl Write.appended WalletHandle.watch_travel Incoming.told
    on_transfer Htlc.is_htlc_transfer Htlc.Bytes-discrete Htlc.parse_htlc_payment Incoming.received
    Invoice.get_preimage on_receive Htlc.is_htlc_receive receive_payment
agreed_receipt = (_, _, _, _, _, _, _, refl, refl, refl, refl)

the_previous : (to : ℕ) → get_previous_hop codec passing.invoice_mgr 20 ≡ some to → to ≡ 3
unfolding get_previous_hop get
the_previous to e = cc

abbrev paid : NodeWorld
paid = record nw { request = proto own_payment }

abbrev claiming : NodeWorld
claiming = record nw { request = proto bobs_receipt }

passes_back_example :
    (t : NodeInner) × (handle_network_msg claiming (requested claiming 2 (9 ∷ [])) passing
      ≡ (ok tt, t))
    × (t.sent
        ≡ ([] ++ answer_to claiming 2 agreed_receipt.0)
          ++ option []
              (λ to. claim_of claiming to agreed_receipt.5)
              (get_previous_hop codec passing.invoice_mgr 20))
    × (t.wallet
        ≡ option agreed_receipt.4
            (λ _. agreed_receipt.6)
            (get_previous_hop codec passing.invoice_mgr 20))
passes_back_example =
    passes_back claiming refl (λ hash. refl) 2 (9 ∷ []) bobs_receipt agreed_receipt.0 passing
      agreed_receipt.1 agreed_receipt.2 agreed_receipt.4 agreed_receipt.3 refl
      (inr (refl, agreed_receipt.7, agreed_receipt.8)) agreed_receipt.9 20 (λ _. agreed_receipt.5)
      (λ _. agreed_receipt.6) refl refl
      (λ previous e. rw (the_previous previous e) agreed_receipt.10)

-- alice has proposed a transfer to bob, and waits for the answer under the hash 1
abbrev asking : Wallet
asking = record Wallets.wallet {
  channels =
      (100, channel (some (half_signed proposal output (signed_by 1 11)))) ∷ (200, with_carol) ∷ [];
}

abbrev waiting : NodeInner
waiting = record (node asking) { message_processor = step Futures.new (open_future 1) }

answered :
    (gas : ℕ) × (number : ℕ) × (w1 : Wallet) × (w2 : Wallet) × (w3 : Wallet) × (verify_txn_response
        ww 2 bobs_answer asking
      ≡ (ok tt, w1))
    × (apply_txn ww 2 w1 ≡ (ok gas, w2))
    × (channel_sequence_number ww 2 w2 ≡ (ok number, w3))
unfolding send_payment WalletHandle.execute_async Handler.◌>>=◌ Proposal.is_open Wallet.on_channel
    Wallet.run_on get Wallet.generate_channel_address Negotiate.execute Build.generate_proposal
    Stm.channel_sequence_number Wallet.put_channel Persist.pending_txn Handle.handle_new_proposal
    Handle.verify_proposal Build.execute_proposal Build.build_and_sign_channel_txn_payload_body
    Build.channel_op_to_action Build.build_raw_txn_from_channel_txn Build.build_chain_txn
    Build.generate_txn_sigs Proposal.set_lifecycle Proposal.new Handle.handle_proposal_signature
    Proposal.get_signature Handle.verify_txn_sigs Build.sigs_by Write.save_pending_txn
    Persist.save_pending_txn Persist.save_over Persist.persist_pending Persist.write_store
    Read.commit handle_channel_transaction_request Inner.attempt Inner.on_wallet
    WalletHandle.verify_txn Negotiate.collect_proposal_with_sigs Persist.check_applied
    Read.get_startup_info Persist.applied_up_to Negotiate.collect_after Negotiate.collect_pending
    Negotiate.auto_sign Dict.contains_key Proposal.add_signature insert
    Handle.can_auto_sign_pending_proposal Handle.is_participant_channel_resource_modified
    Incoming.verified Incoming.approved Inner.unwrap WalletHandle.approve_txn
    WalletHandle.grant_txn_request WalletHandle.channel_with WalletHandle.grant_or_cancel
    Negotiate.grant_proposal Negotiate.open_pending Negotiate.open_of Requests.request_id
    Proposal.consensus_reached decide Proposal.PendingTransaction-discrete ℕ_discrete
    Proposal.try_reach_consensus Proposal.newer_than Incoming.answered Incoming.apply_txn Inner.send
    WalletHandle.apply_txn Negotiate.apply_pending_txn Negotiate.apply_of
    Negotiate.apply_by_lifecycle Handle.handle_apply_proposal Proposal.set_applying Persist.apply
    Persist.commit Persist.commit_result Applier.apply Store.sequence_number Write.save_tx
    Applier.ledger_info_of Write.save_tx_impl Write.appended WalletHandle.watch_travel Incoming.told
    on_transfer Htlc.is_htlc_transfer Htlc.Bytes-discrete Htlc.parse_htlc_payment Incoming.received
    Invoice.get_preimage on_receive Htlc.is_htlc_receive verify_txn_response channel_sequence_number
    Negotiate.accessing_resource Persist.advanced Stm.advance_state
answered = (_, _, _, _, _, refl, refl, refl)

has_future : get waiting.message_processor.tx_map 1 ≡ some 0
unfolding get step Futures.add_future Futures.or_insert Futures.channel Futures.new insert
has_future = refl

hears : waiting.message_processor.listening 0 ≡ true
unfolding step Futures.add_future Futures.or_insert Futures.channel Futures.new get
hears = refl

answers_user_example :
    (t : NodeInner) × (handle_sender_channel nw (9 ∷ []) 2 waiting ≡ (ok tt, t))
    × (t.wallet ≡ answered.4)
    × ((acts : List Act) → poll (steps t.message_processor acts) 0 ≡ ready answered.1)
unfolding Requests.response_id
answers_user_example =
    answers_user nw (9 ∷ []) 2 answered.1 answered.0 0 bobs_answer waiting answered.2 answered.3
      answered.4 refl answered.5 answered.6 answered.7 refl
      (step-IsSound Futures.new (open_future 1) new-IsSound) has_future hears

wallet-AllReady : AllReady h wallet
unfolding get
wallet-AllReady = record {
  running = λ a. elim (Bool-cases (100 == a)) [
    | inl same ↦ rw (same) (store-IsReady none)
    | inr other ↦ rw (other) (elim (Bool-cases (200 == a)) [
      | inl same ↦ rw (same) (store-IsReady none)
      | inr others ↦ rw (others) tt
    ])
  ];
  stored = λ a. tt;
}

node-IsHealthy : IsHealthy h codec (node wallet)
unfolding get get_preimage
node-IsHealthy = record {
  wallet = wallet-AllReady;
  processor = new-IsSound;
  invoices = λ r_hash preimage e. ground arith;
}

-- alice gets bob's payment, pays herself, makes an invoice, and hears that a time is up
abbrev events : NodeInner
events = happen nw (delay_over 7) (
    happen nw (add_invoice 40 5) (
      happen nw (node_msg (channel_pay 3 10))
        (happen nw (network_msg (record { peer_id = 2; bytes = 0 ∷ 5 ∷ 9 ∷ [] })) (node wallet))))

node_stays_healthy_example :
    Every
      (λ ch. (load h ch.store.db ≡ ok ch.store) × (Applier.new ch.store ≡ ok ch.applier))
      (get events.wallet.channels 100)
    × (length (events.message_processor.buffer 0) ≤ 1)
    × (get_preimage codec events.invoice_mgr 41 ≡ some 40 → 40 + 1 ≡ 41)
node_stays_healthy_example = node_stays_healthy h codec 100 0 41 40 node-IsHealthy (
    next nw (delay_over 7) refl refl (
      next nw (add_invoice 40 5) refl refl (
        next nw (node_msg (channel_pay 3 10)) refl refl
          (next nw (network_msg (record { peer_id = 2; bytes = 0 ∷ 5 ∷ 9 ∷ [] })) refl refl here))))

answers_bound_example :
    (length ((steps Futures.new (open_future 1 ∷ respond 1 8 ∷ respond 1 9 ∷ [])).buffer 0) ≤ 1)
    × (get (steps Futures.new (open_future 1 ∷ respond 1 8 ∷ respond 1 9 ∷ [])).tx_map 1 ≡ some 0
        → (steps Futures.new (open_future 1 ∷ respond 1 8 ∷ respond 1 9 ∷ [])).buffer 0 ≡ [])
answers_bound_example = answers_bound (open_future 1 ∷ respond 1 8 ∷ respond 1 9 ∷ []) 1 0

second_request_example :
    (poll (step waiting.message_processor (open_future 1)) waiting.message_processor.next
      ≡ failed time_out)
    × (poll
          (steps
            (step (step waiting.message_processor (open_future 1)) (respond 1 8))
            (timed_out 1 ∷ abandon 1 ∷ []))
          0
        ≡ ready 8)
second_request_example =
    second_request waiting.message_processor 1 0 has_future 8 (timed_out 1 ∷ abandon 1 ∷ [])
      (step-IsSound Futures.new (open_future 1) new-IsSound) hears

parse_htlc_payment-payment_args_example :
    (is_htlc_transfer (channel_script (codes "send_payment")) ≡ true)
    × (is_htlc_receive (channel_script (codes "send_payment")) ≡ false)
    × (parse_htlc_payment only (payment_args 4 50 (21 ∷ []) 9) ≡ ok lock)
    × (is_htlc_receive (channel_script (codes "receive_payment")) ≡ true)
    × (is_htlc_transfer (channel_script (codes "receive_payment")) ≡ false)
    × (parse_htlc_preimage only (preimage_args (20 ∷ [])) ≡ ok 20)
parse_htlc_payment-payment_args_example =
    parse_htlc_payment-payment_args only (λ n. n ∷ []) 4 50 21 9 20 (λ n. refl)
