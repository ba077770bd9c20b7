-- ===== src/Examples/Messages.antt =====
-- Conversions to and from messages on concrete inputs.
use stargate.Common.{
  ◌↔◌, ◌&&◌, ◌==◌, length, false, ℕ, ◌≡◌, arith, refl, Option, none, some, [], ◌∷◌, zero, suc,
}
use stargate.Common.Outcome.{ok, panic}
use stargate.Libra.{Bytes, TransactionArgument}
use stargate.Proposal.Proto.{Conversions, txn_into, txn_try_from, txn_try_from-txn_into}
use stargate.Proposal.ProtoSigs.{Encodings, IsExact}
use stargate.Messages.Exchanged.{
  ExchangeSeedMessageResponse, ProtoExchangeSeedMessageResponse, seed_response_try_from,
  seed_response_into, seeds_over_the_wire,
}
use stargate.Router.Seeds.{to_le_bytes}
use stargate.Examples.Toy.{channel_txn}

abbrev head : Bytes → Option ℕ
head [] = none
head (b ∷ _) = some b

abbrev conversions : Conversions TransactionArgument
conversions = record {
  address_to_vec = λ a. a ∷ [];
  address_try_from = head;
  arg_into = λ a. a;
  arg_try_from = λ a. some a;
}

txn_try_from-txn_into_example :
    txn_try_from conversions (txn_into conversions channel_txn) ≡ ok channel_txn
txn_try_from-txn_into_example =
    txn_try_from-txn_into conversions (record { address_back = λ _. refl; arg_back = λ _. refl })
      channel_txn

abbrev padding : ℕ → Bytes
padding zero = []
padding (suc n) = 0 ∷ padding n

abbrev encodings : Encodings
encodings = record {
  address_to_vec = λ a. a ∷ [];
  address_try_from = head;
  key_to_bytes = λ a. a ∷ [];
  key_try_from = head;
  signature_to_bytes = λ s. s ∷ padding 63;
  signature_try_from = head;
  hash_to_vec = λ a. a ∷ [];
  hash_from_slice = head;
}

encodings-IsExact : IsExact encodings
encodings-IsExact = record {
  address_back = λ _. refl;
  key_back = λ _. refl;
  signature_back = λ _. refl;
  hash_back = λ _. refl;
  signature_length = λ _. refl;
}

-- a message with a seed of three bytes
abbrev short_seed : ProtoExchangeSeedMessageResponse
short_seed = record { sender_seed = 1 ∷ 2 ∷ 3 ∷ []; receiver_seed = to_le_bytes 16 7 }

abbrev seeds : ExchangeSeedMessageResponse
seeds = record { sender_seed = 70000; receiver_seed = 7 }

seeds_over_the_wire_example :
    (seed_response_try_from {E = ℕ} (seed_response_into seeds) ≡ ok seeds)
    × ((seed_response_try_from {E = ℕ} short_seed ≡ panic)
        ↔ ((length short_seed.sender_seed == 16 && length short_seed.receiver_seed == 16) ≡ false))
seeds_over_the_wire_example =
    seeds_over_the_wire {E = ℕ} seeds short_seed (omega arith) (omega arith)
