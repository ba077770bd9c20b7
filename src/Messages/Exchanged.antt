-- ===== src/Messages/Exchanged.antt =====
-- sgtypes/src/message.rs: the messages that exchange the seeds of a search, and their protobuf forms,
-- whose seeds are vectors of bytes of any length.
use stargate.Common.{
  ℕ, zero, suc, ◌+◌, ◌*◌, ◌/◌, ◌^◌, ◌<◌, ◌≡◌, ◌↔◌, refl, arith, false, ◌&&◌, [], ◌∷◌, ◌==◌, length,
  Bool-cases, inl, inr, if◌then◌else◌,
}
use stargate.Common.Outcome.{Outcome, ok, panic, ◌>>=◌}
use stargate.Libra.{Bytes}
use stargate.Router.Seeds.{to_le_bytes}

pub record ExchangeSeedMessageRequest : Type 0 where
  pub sender_seed : ℕ

pub record ExchangeSeedMessageResponse : Type 0 where
  pub sender_seed : ℕ
  pub receiver_seed : ℕ

pub record ProtoExchangeSeedMessageRequest : Type 0 where
  pub sender_seed : Bytes

pub record ProtoExchangeSeedMessageResponse : Type 0 where
  pub sender_seed : Bytes
  pub receiver_seed : Bytes

unfoldable pub from_le_bytes : Bytes → ℕ
from_le_bytes [] = 0
from_le_bytes (b ∷ bytes) = b + from_le_bytes bytes * 256

-- `copy_from_slice` to an array of 16 bytes, which panics at another length, and `u128::from_le_bytes`
unfoldable pub read_seed : {E : Type 0} → Bytes → Outcome E ℕ
read_seed seed = if length seed == 16 then ok (from_le_bytes seed) else panic

unfoldable pub seed_request_into : ExchangeSeedMessageRequest → ProtoExchangeSeedMessageRequest
seed_request_into value = record { sender_seed = to_le_bytes 16 value.sender_seed }

unfoldable pub seed_request_try_from :
    {E : Type 0} → ProtoExchangeSeedMessageRequest → Outcome E ExchangeSeedMessageRequest
seed_request_try_from value = do
  seed ← read_seed value.sender_seed
  ok (record { sender_seed = seed })

unfoldable pub seed_response_into : ExchangeSeedMessageResponse → ProtoExchangeSeedMessageResponse
seed_response_into value = record {
  sender_seed = to_le_bytes 16 value.sender_seed;
  receiver_seed = to_le_bytes 16 value.receiver_seed;
}

unfoldable pub seed_response_try_from :
    {E : Type 0} → ProtoExchangeSeedMessageResponse → Outcome E ExchangeSeedMessageResponse
seed_response_try_from value = do
  sender_seed ← read_seed value.sender_seed
  receiver_seed ← read_seed value.receiver_seed
  ok (record { sender_seed = sender_seed; receiver_seed = receiver_seed })

length-to_le_bytes : (w n : ℕ) → length (to_le_bytes w n) ≡ w
unfolding to_le_bytes
length-to_le_bytes zero n = refl
length-to_le_bytes (suc w) n = omega (arith, length-to_le_bytes w (n / 256))

-- a number that fits is read back from its bytes
from_le_bytes-to_le_bytes : (w n : ℕ) → n < 256 ^ w → from_le_bytes (to_le_bytes w n) ≡ n
unfolding from_le_bytes to_le_bytes
from_le_bytes-to_le_bytes zero n h = omega (arith, h)
from_le_bytes-to_le_bytes (suc w) n h =
    omega (arith, from_le_bytes-to_le_bytes w (n / 256) (omega (arith, h)))

read_seed-to_le_bytes :
    {E : Type 0} (n : ℕ) → n < 256 ^ 16 → read_seed {E = E} (to_le_bytes 16 n) ≡ ok n
unfolding read_seed
read_seed-to_le_bytes n fits =
    rw (length-to_le_bytes 16 n, from_le_bytes-to_le_bytes 16 n fits) refl

read_panics :
    {E : Type 0} (message : ProtoExchangeSeedMessageResponse)
    → (seed_response_try_from {E = E} message ≡ panic)
      ↔ ((length message.sender_seed == 16 && length message.receiver_seed == 16) ≡ false)
unfolding seed_response_try_from read_seed
read_panics message = elim (Bool-cases (length message.sender_seed == 16)) [
  | inr e ↦ (λ _. ground (arith, e), λ _. ground (arith, e))
  | inl e ↦ elim (Bool-cases (length message.receiver_seed == 16)) [
    | inr f ↦ (λ _. ground (arith, e, f), λ _. ground (arith, e, f))
    | inl f ↦ (λ h. ground (arith, e, f, h), λ h. ground (arith, e, f, h))
  ]
]

-- An exchange of seeds below 2^128 is read from the message that it is written as, and reading any
-- message panics exactly when one of its seeds does not have 16 bytes.
pub seeds_over_the_wire :
    {E : Type 0} (value : ExchangeSeedMessageResponse) (message : ProtoExchangeSeedMessageResponse)
    → value.sender_seed < 256 ^ 16
    → value.receiver_seed < 256 ^ 16
    → (seed_response_try_from {E = E} (seed_response_into value) ≡ ok value)
      × ((seed_response_try_from {E = E} message ≡ panic)
          ↔ ((length message.sender_seed == 16 && length message.receiver_seed == 16) ≡ false))
unfolding seed_response_try_from seed_response_into
seeds_over_the_wire {E = E} value message fits fits' = (
  rw
      (
        read_seed-to_le_bytes {E = E} value.sender_seed fits,
        read_seed-to_le_bytes {E = E} value.receiver_seed fits',
      )
      refl,
  read_panics message,
)
