-- ===== src/Proposal/Consensus.antt =====
-- When the signatures on a pending proposal amount to consensus: pending_txn.rs, try_reach_consensus.
use stargate.Common.{
  ℕ, ◌+◌, ◌≤◌, ◌≡◌, ◌↔◌, sym, ap, true, false, List, arith, ◌||◌, if◌then◌else◌, ◌==◌, ==→eq,
  length, all, contains, IsOrdered, Subset,
}
use stargate.Common.Dict.{
  keys, contains_key, contains_key-eq, insert-IsOrdered, contains-keys-insert, length-insert_new,
}
use stargate.Common.Ordered.{all-Subset, all_of_Subset, eq_of_Subset}
use stargate.Proposal.{
  PendingTransaction, ChannelTransactionSigs, negotiating, agreed, add_signature,
  try_reach_consensus,
}

-- the addresses that have signed
abbrev pub signers : PendingTransaction → List ℕ
signers p = keys p.signatures

-- the signatures are a BTreeMap
abbrev pub HasOrderedSigners : PendingTransaction → Type 0
HasOrderedSigners p = IsOrdered (signers p)

all_signed :
    (p : PendingTransaction) (ps : List ℕ)
    → all (λ addr. contains_key p.signatures addr) ps ≡ true
    → Subset ps (signers p)
all_signed p ps =
    all-Subset ps (signers p) (contains_key p.signatures) (contains_key-eq p.signatures)

module _ (p : PendingTransaction) (participants : List ℕ) (n : p.lifecycle ≡ negotiating) where
  consensus_needs :
      (try_reach_consensus p participants).1 ≡ true
      → (length (signers p) ≡ length participants)
        × (all (λ addr. contains_key p.signatures addr) participants ≡ true)
  unfolding try_reach_consensus
  consensus_needs h = ground arith

  consensus_follows :
      length (signers p) ≡ length participants
      → all (λ addr. contains_key p.signatures addr) participants ≡ true
      → (try_reach_consensus p participants).1 ≡ true
  unfolding try_reach_consensus
  consensus_follows l a = ground arith

  -- A negotiating proposal, with its signers and the participants in the order of their
  -- addresses, reaches consensus exactly when those who have signed it are exactly the
  -- participants.
  pub consensus_iff_signers :
      HasOrderedSigners p
      → IsOrdered participants
      → ((try_reach_consensus p participants).1 ≡ true) ↔ (signers p ≡ participants)
  consensus_iff_signers hs hp = (to, from)
    where
      to : (try_reach_consensus p participants).1 ≡ true → signers p ≡ participants
      to h =
          let c = consensus_needs h in
          sym
            (eq_of_Subset participants (signers p) hp hs (all_signed p participants c.1) (sym c.0))

      from : signers p ≡ participants → (try_reach_consensus p participants).1 ≡ true
      from e = consensus_follows (ap length e) (
          all_of_Subset participants (signers p) (contains_key p.signatures)
            (contains_key-eq p.signatures) (λ a c. rw e c))

-- What a new signer adds.
module _ (p : PendingTransaction) (sig : ChannelTransactionSigs) where
  pub add_signature-HasOrderedSigners :
      HasOrderedSigners p → HasOrderedSigners (add_signature p sig)
  unfolding add_signature
  add_signature-HasOrderedSigners h = ground (arith, insert-IsOrdered sig.address sig p.signatures)

  pub contains-signers-add_signature :
      (a : ℕ)
      → contains (signers (add_signature p sig)) a ≡ ((sig.address == a) || contains (signers p) a)
  unfolding add_signature
  contains-signers-add_signature a = ground (
    arith,
    contains-keys-insert sig.address a sig p.signatures,
    contains_key-eq p.signatures sig.address,
    ==→eq sig.address a,
  )

  pub length-signers-add_signature : length (signers p) ≤ length (signers (add_signature p sig))
  unfolding add_signature
  length-signers-add_signature = ground (
    arith,
    length-insert_new sig.address sig p.signatures,
    contains_key-eq p.signatures sig.address,
  )

  pub length-signers-add_signature_new :
      contains (signers p) sig.address ≡ false
      → length (signers (add_signature p sig)) ≡ length (signers p) + 1
  unfolding add_signature
  length-signers-add_signature_new new = ground (
    arith,
    length-insert_new sig.address sig p.signatures new,
    contains_key-eq p.signatures sig.address,
  )

  pub lifecycle-add_signature : (add_signature p sig).lifecycle ≡ p.lifecycle
  unfolding add_signature
  lifecycle-add_signature = ground arith

module _ (p : PendingTransaction) (participants : List ℕ) where
  pub signers-try_reach_consensus : signers (try_reach_consensus p participants).0 ≡ signers p
  unfolding try_reach_consensus
  signers-try_reach_consensus = ground arith

  -- the life of a proposal after the attempt
  pub lifecycle-try_reach_consensus :
      p.lifecycle ≡ negotiating
      → (try_reach_consensus p participants).0.lifecycle
        ≡ (if (try_reach_consensus p participants).1 then agreed else negotiating)
  unfolding try_reach_consensus
  lifecycle-try_reach_consensus n = ground arith
