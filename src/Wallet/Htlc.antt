-- ===== src/Wallet/Htlc.antt =====
-- sgwallet/src/utils/mod.rs and sgtypes/src/htlc.rs: what a node reads of a hash-locked payment.
use mathlib.Core.Bool.{decide}
use native.Mathlib.Decide.{ℕ_discrete}
use stargate.Common.{ℕ, ◌≡◌, refl, Bool, true, false, ◌&&◌, Option, some, List, [], ◌∷◌, ◌==◌}
use stargate.Common.Outcome.{Outcome, ok, err, ◌>>=◌, ok_or}
use stargate.Common.Text.{codes}
use stargate.Libra.{Bytes, TransactionArgument, address, u64, byte_array, text}
use stargate.Proposal.{ChannelOp, op_open, execute, action, close}
use stargate.Stm.Build.{default_address}
use stargate.Wallet.Actions.{channel_script, payment_args, preimage_args}

unfoldable pub Bytes-discrete : Discrete Bytes
Bytes-discrete = hlevel ℕ_discrete

abbrev pub same_text : Bytes → Bytes → Bool
unfolding decide
same_text a b = decide (Bytes-discrete a b)

pub data HtlcError : Type 0 where
  wrong_count not_u64 not_byte_array bad_hash : HtlcError

pub record HtlcPayment : Type 0 where
  pub hash_lock : ℕ
  pub amount : ℕ
  pub timeout : ℕ

unfoldable pub is_script : Bytes → ChannelOp → Bool
is_script name (action module_address module_name function_name) =
    module_address == default_address
    && (same_text module_name (codes "ChannelScript") && same_text function_name name)
is_script name op_open = false
is_script name (execute _ _) = false
is_script name close = false

unfoldable pub is_htlc_transfer : ChannelOp → Bool
unfolding is_script
is_htlc_transfer op = is_script (codes "send_payment") op

unfoldable pub is_htlc_receive : ChannelOp → Bool
unfolding is_script
is_htlc_receive op = is_script (codes "receive_payment") op

abbrev as_u64 : TransactionArgument → Outcome HtlcError ℕ
as_u64 (u64 n) = ok n
as_u64 (address _) = err not_u64
as_u64 (byte_array _) = err not_u64
as_u64 (text _) = err not_u64

-- `HashValue::from_slice` is a parameter
module _ (from_slice : Bytes → Option ℕ) where
  abbrev as_hash : TransactionArgument → Outcome HtlcError ℕ
  as_hash (byte_array d) = ok_or bad_hash (from_slice d)
  as_hash (u64 _) = err not_byte_array
  as_hash (address _) = err not_byte_array
  as_hash (text _) = err not_byte_array

  unfoldable pub parse_htlc_payment : List TransactionArgument → Outcome HtlcError HtlcPayment
  parse_htlc_payment (_ ∷ a ∷ h ∷ t ∷ []) = do
    amount ← as_u64 a
    hash_lock ← as_hash h
    timeout ← as_u64 t
    ok (record { hash_lock = hash_lock; amount = amount; timeout = timeout })
  parse_htlc_payment _ = err wrong_count

  unfoldable pub parse_htlc_preimage : List TransactionArgument → Outcome HtlcError ℕ
  parse_htlc_preimage (d ∷ []) = as_hash d
  parse_htlc_preimage _ = err wrong_count

  -- What a payer proposes as a payment is taken for one by the receiver, and for no receipt, and its
  -- hash lock, amount and timeout are read back; what a payee proposes is taken for a receipt, and for
  -- no payment, and its preimage is read back, where hashes are read back from their bytes.
  pub parse_htlc_payment-payment_args :
      (to_vec : ℕ → Bytes) (payee amount hash_lock timeout preimage : ℕ)
      → ((h : ℕ) → from_slice (to_vec h) ≡ some h)
      → (is_htlc_transfer (channel_script (codes "send_payment")) ≡ true)
        × (is_htlc_receive (channel_script (codes "send_payment")) ≡ false)
        × (parse_htlc_payment (payment_args payee amount (to_vec hash_lock) timeout)
            ≡ ok (record { hash_lock = hash_lock; amount = amount; timeout = timeout }))
        × (is_htlc_receive (channel_script (codes "receive_payment")) ≡ true)
        × (is_htlc_transfer (channel_script (codes "receive_payment")) ≡ false)
        × (parse_htlc_preimage (preimage_args (to_vec preimage)) ≡ ok preimage)
  unfolding is_htlc_transfer is_htlc_receive parse_htlc_payment parse_htlc_preimage decide is_script
      Bytes-discrete ℕ_discrete
  parse_htlc_payment-payment_args to_vec payee amount hash_lock timeout preimage back =
      (refl, refl, rw (back hash_lock) refl, refl, refl, rw (back preimage) refl)
