-- ===== src/Channel/Handshake/Steps.antt =====
-- sgwallet/src/channel/channel.rs: the handlers of both channels of a pair, one after the other.
use mathlib.Core.Bool.{decide}
use stargate.Common.{
  ℕ, ◌≡◌, ◌≢◌, refl, sym, ◌∙◌, ap, Bool, true, false, not, ◌&&◌, Option, none, some, List, ◌==◌,
  ne→==, ==-self, ltb, if◌then◌else◌,
}
use stargate.Common.Dict.{get, contains_key, contains_key-get, get-insert, get-insert_self}
use stargate.Common.Outcome.{Outcome, ok, err, panic, assert}
use stargate.Common.Handler.{◌>>=◌, pure, fail, lift, gets, run-bind, run-lift, run-gets}
use stargate.Libra.{TransactionArgument, TransactionOutput}
use stargate.Proposal.{
  ChannelOp, ChannelTransactionProposal, ChannelTransactionSigs, PendingTransaction,
  PendingTransaction-discrete, newer_than, get_signature,
}
use stargate.Stm.{Error, save_conflict}
use stargate.Stm.Build.{generate_proposal}
use stargate.Stm.Handle.{can_auto_sign_pending_proposal}
use stargate.Stm.Handle.Exchange.{half_signed, full_signed}
use stargate.Store.{
  StorageError, ChannelTransactionInfo, AppliedChannelTxn, write_schemas, write_op,
}
use stargate.Store.Read.{
  StartupInfo, get_transaction, commit, get_startup_info, get_transaction_by_channel_seq_number,
}
use stargate.Store.Write
use stargate.Channel.{Channel, World, ChannelHandler, from_storage}
use stargate.Channel.Kept.{with_pending}
use stargate.Channel.Persist.{
  pending_txn, write_store, persist_pending, save_over, save_pending_txn, check_applied,
  applied_up_to,
}
use stargate.Channel.Negotiate.{
  execute, auto_sign, collect_pending, collect_after, collect_proposal_with_sigs,
}
use stargate.Stm.Handle.Exchange.Exchanged.{Exchanged}

module _ (w : World) (works : w.disk_works ≡ true) (c : Channel) (p : PendingTransaction) where
  persists : persist_pending w p c ≡ (ok tt, with_pending (some p) c)
  unfolding persist_pending write_store Write.save_pending_txn commit write_schemas write_op
  persists = rw works refl

  saves_first :
      c.store.pending_txn ≡ none → save_pending_txn w p c ≡ (ok tt, with_pending (some p) c)
  unfolding save_pending_txn pending_txn ◌>>=◌ gets save_over
  saves_first e = ap (λ o. save_over w p o c) e ∙ persists

  saves_over :
      (q : PendingTransaction)
      → q ≢ p
      → newer_than q p ≡ false
      → c.store.pending_txn ≡ some q
      → save_pending_txn w p c ≡ (ok tt, with_pending (some p) c)
  unfolding save_pending_txn pending_txn ◌>>=◌ gets save_over decide
  saves_over q other older e =
      ap (λ o. save_over w p o c) e
      ∙ elim (PendingTransaction-discrete q p)
          as (λ d.
            (if decide d
                then pure tt
                else if newer_than q p
                then fail save_conflict
                else persist_pending w p)
              c
            ≡ (ok tt, with_pending (some p) c)) [
              | yes same ↦ absurd (other same)
              | no _ ↦ rw (older) persists
            ]

abbrev some_found :
    ChannelTransactionInfo × AppliedChannelTxn
    → ChannelHandler (Option (ChannelTransactionInfo × AppliedChannelTxn))
some_found t = pure (some t)

-- what is applied does not depend on what is pending
module _ (n : ℕ) (p : Option PendingTransaction) (c : Channel) where
  read-with_pending :
      (found : Outcome Error (ChannelTransactionInfo × AppliedChannelTxn)) (later : Bool)
      → (if later then pure none else (lift found >>= some_found)) (with_pending p c)
        ≡ (((if later then pure none else (lift found >>= some_found)) c).0, with_pending p c)
  unfolding ◌>>=◌ lift pure
  read-with_pending found true = refl
  read-with_pending (ok t) false = refl
  read-with_pending (err e) false = refl
  read-with_pending panic false = refl

  applied-with_pending :
      (info : Outcome StorageError (Option StartupInfo))
      → (lift (from_storage info) >>= applied_up_to n (with_pending p c).store) (with_pending p c)
        ≡ (((lift (from_storage info) >>= applied_up_to n c.store) c).0, with_pending p c)
  unfolding ◌>>=◌ lift pure applied_up_to get_transaction_by_channel_seq_number get_transaction
  applied-with_pending (ok none) = refl
  applied-with_pending (ok (some info)) =
      read-with_pending (from_storage (get_transaction_by_channel_seq_number c.store n))
        (ltb info.latest_version n)
  applied-with_pending (err e) = refl
  applied-with_pending panic = refl

  check_applied-with_pending :
      check_applied n (with_pending p c) ≡ ((check_applied n c).0, with_pending p c)
  unfolding check_applied get_startup_info ◌>>=◌ gets
  check_applied-with_pending = applied-with_pending (get_startup_info c.store)

module _ (w : World) (ca cb : Channel) {proposal : ChannelTransactionProposal}
    {output : TransactionOutput} {sa sb : ChannelTransactionSigs}
    (ex : Exchanged w.x ca.stm cb.stm proposal output sa sb)
    (differ : ca.stm.account_address ≢ cb.stm.account_address) (works : w.disk_works ≡ true)
    (free_a : ca.store.pending_txn ≡ none) (free_b : cb.store.pending_txn ≡ none) where
  abbrev half : PendingTransaction
  half = half_signed proposal output sa

  abbrev full : PendingTransaction
  full = full_signed proposal output sa sb

  pub proposes :
      (op : ChannelOp) (args : List TransactionArgument)
      → generate_proposal w.x ca.stm w.txn_expiration op args ≡ ok proposal
      → execute w op args ca ≡ (ok (proposal, sa, output), with_pending (some half) ca)
  unfolding execute pending_txn pure
  proposes op args made =
      run-gets _ _ ca refl
      ∙ run-lift _ _ ca made
      ∙ run-gets _ _ ca free_a
      ∙ run-lift _ _ ca (ex.new_by_own)
      ∙ run-lift _ _ ca (ex.signs_own)
      ∙ run-lift _ _ ca (ex.signed_own)
      ∙ run-bind _ _ ca (saves_first w works ca half free_a)

  has_signed : (me : ℕ) → sa.address ≢ me → (not (contains_key half.signatures me) && true) ≡ true
  unfolding contains_key
  has_signed me other = rw (ne→== sa.address me other) refl

  a_ne_b : sa.address ≢ cb.stm.account_address
  a_ne_b e = differ (sym ex.address_own ∙ e)

  -- the receiver signs by itself
  signs_itself :
      can_auto_sign_pending_proposal w.x cb.stm half ≡ true → auto_sign w half cb ≡ (ok full, cb)
  unfolding auto_sign lift
  signs_itself can =
      run-gets _ _ cb refl
      ∙ rw (can, has_signed cb.stm.account_address a_ne_b)
          (run-lift _ _ cb (ex.signs_other) ∙ ap (λ q. (q, cb)) (ex.agreed_at_other))

  signature_b : get_signature full cb.stm.account_address ≡ some sb
  unfolding get_signature
  signature_b =
      ap (get full.signatures) (sym ex.address_other)
      ∙ get-insert_self sb.address sb half.signatures

  accepts :
      can_auto_sign_pending_proposal w.x cb.stm half ≡ true
      → collect_pending w proposal sa cb ≡ (ok (some sb), with_pending (some full) cb)
  unfolding collect_pending pending_txn pure
  accepts can =
      run-gets _ _ cb refl
      ∙ run-gets _ _ cb free_b
      ∙ run-lift _ _ cb (ex.new_by_other)
      ∙ run-lift _ _ cb (ex.signed_at_other)
      ∙ run-bind _ _ cb (signs_itself can)
      ∙ run-bind _ _ cb (saves_first w works cb full free_b)
      ∙ ap (λ o. (ok o, with_pending (some full) cb)) signature_b

  a_ne_sb : (ca.stm.account_address == sb.address) ≡ false
  a_ne_sb = ne→== _ _ (λ e. differ (e ∙ ex.address_other))

  b_ne_sa : (cb.stm.account_address == sa.address) ≡ false
  b_ne_sa = ne→== _ _ (λ e. differ (sym (e ∙ ex.address_own)))

  -- the receiver's answer to the request
  pub answers :
      can_auto_sign_pending_proposal w.x cb.stm half ≡ true
      → check_applied proposal.channel_txn.channel_sequence_number cb ≡ (ok none, cb)
      → collect_proposal_with_sigs w proposal sa cb ≡ (ok (some sb), with_pending (some full) cb)
  unfolding collect_proposal_with_sigs collect_after
  answers can unapplied =
      run-gets _ _ cb refl
      ∙ run-lift _ _ cb (ap (λ b. assert (not b)) b_ne_sa)
      ∙ run-bind _ _ cb unapplied
      ∙ accepts can

  abbrev waiting : Channel
  waiting = with_pending (some half) ca

  signature_a : get_signature full ca.stm.account_address ≡ some sa
  unfolding get_signature get
  signature_a =
      ap (get full.signatures) (sym ex.address_own)
      ∙ get-insert sb.address sa.address sb half.signatures
      ∙ rw
          (
            ne→== sb.address sa.address
                (λ e. differ (sym (sym ex.address_other ∙ e ∙ ex.address_own))),
            ==-self sa.address,
          )
          refl

  signed_already : contains_key full.signatures ca.stm.account_address ≡ true
  unfolding get_signature
  signed_already = contains_key-get full.signatures ca.stm.account_address ∙ rw (signature_a) refl

  leaves_signed : auto_sign w full waiting ≡ (ok full, waiting)
  unfolding auto_sign pure
  leaves_signed = run-gets _ _ waiting refl ∙ rw (signed_already) refl

  pub concludes :
      check_applied proposal.channel_txn.channel_sequence_number ca ≡ (ok none, ca)
      → collect_proposal_with_sigs w proposal sb waiting
        ≡ (ok (some sa), with_pending (some full) waiting)
  unfolding collect_proposal_with_sigs collect_after collect_pending pending_txn pure newer_than
  concludes unapplied =
      run-gets _ _ waiting refl
      ∙ run-lift _ _ waiting (ap (λ b. assert (not b)) a_ne_sb)
      ∙ run-bind _ _ waiting (
          check_applied-with_pending _ (some half) ca
          ∙ ap
              (λ (r : Outcome Error (Option (ChannelTransactionInfo × AppliedChannelTxn))
                  × Channel).
                (r.0, waiting))
              unapplied)
      ∙ run-gets _ _ waiting refl
      ∙ run-gets _ _ waiting refl
      ∙ run-lift _ _ waiting ex.seen_by_own
      ∙ run-lift _ _ waiting ex.agreed_at_own
      ∙ run-bind _ _ waiting leaves_signed
      ∙ run-bind _ _ waiting (saves_over w works waiting full half (λ e. cc) refl refl)
      ∙ ap (λ o. (ok o, with_pending (some full) waiting)) signature_a
