-- ===== src/Invoice.antt =====
-- node/node_internal/src/invoice.rs: what an invoice is as bytes and as text, and the preimages and
-- previous hops that a node keeps. `AccountAddress`, sha3 and the `hex` crate are parameters.
pub mod Encoding
pub mod Preimages
use stargate.Common.{
  ℕ, ◌+◌, ◌^◌, ◌≤◌, ◌<◌, ◌≡◌, Bool, true, false, Option, none, some, List, [], ◌∷◌, ◌++◌, length,
}
use stargate.Common.Dict.{Dict, get, insert}
use stargate.Common.Outcome.{Outcome, ok, err, panic, ◌>>=◌, ok_or}
use stargate.Common.Slices.{slice, slice_from, to_be_bytes, from_be_bytes}
use stargate.Libra.{Bytes}

-- what the code uses of libra's `AccountAddress` and `HashValue`, and of `hex`
pub record Codec : Type 0 where
  pub address_length : ℕ
  pub address_to_vec : ℕ → Bytes
  pub address_try_from : Bytes → Option ℕ
  pub hash_to_vec : ℕ → Bytes
  pub from_sha3_256 : ℕ → ℕ
  pub hex_encode_upper : Bytes → Bytes
  pub hex_decode : Bytes → Option Bytes

-- An address has `address_length` bytes and is read back from them, and so is text from hex.
pub record IsCodec (c : Codec) : Type 0 where
  pub address_bytes : (a : ℕ) → length (c.address_to_vec a) ≡ c.address_length
  pub address_back : (a : ℕ) → c.address_try_from (c.address_to_vec a) ≡ some a
  pub hex_back : (v : Bytes) → c.hex_decode (c.hex_encode_upper v) ≡ some v

pub data InvoiceError : Type 0 where
  bad_address bad_hex : InvoiceError

pub record Invoice : Type 0 where
  pub r_hash : Bytes
  pub amount : ℕ
  pub receiver : ℕ

module _ (c : Codec) where
  unfoldable pub as_vec : Invoice → Bytes
  as_vec i = c.address_to_vec i.receiver ++ (to_be_bytes 8 i.amount ++ i.r_hash)

  -- TryFrom<Vec<u8>>
  unfoldable pub try_from : Bytes → Outcome InvoiceError Invoice
  try_from v = do
    address ← slice 0 c.address_length v
    receiver ← ok_or bad_address (c.address_try_from address)
    amount_bytes ← slice c.address_length (c.address_length + 8) v
    r_hash ← slice_from (c.address_length + 8) v
    ok (record { r_hash = r_hash; amount = from_be_bytes 0 amount_bytes; receiver = receiver })

  -- From<Invoice> for String
  unfoldable pub to_text : Invoice → Bytes
  to_text i = c.hex_encode_upper (as_vec i)

  -- TryFrom<String>
  unfoldable pub from_text : Bytes → Outcome InvoiceError Invoice
  from_text text = do bytes_value ← ok_or bad_hex (c.hex_decode text); try_from bytes_value

-- the preimages by their hash, and the previous hop of a payment by its hash
pub record InvoiceManager : Type 0 where
  pub r_hash_map : Dict ℕ
  pub r_hash_previous_hop_map : Dict ℕ

unfoldable pub new : InvoiceManager
new = record { r_hash_map = []; r_hash_previous_hop_map = [] }

module _ (c : Codec) where
  -- `preimage` is the random value drawn
  unfoldable pub new_invoice : InvoiceManager → ℕ → ℕ → ℕ → InvoiceManager × Invoice
  new_invoice s preimage amount receiver = (
    record s { r_hash_map = insert (c.from_sha3_256 preimage) preimage s.r_hash_map },
    record {
      r_hash = c.hash_to_vec (c.from_sha3_256 preimage);
      amount = amount;
      receiver = receiver;
    },
  )

  unfoldable pub get_preimage : InvoiceManager → ℕ → Option ℕ
  get_preimage s r_hash = get s.r_hash_map r_hash

  unfoldable pub add_previous_hop : InvoiceManager → ℕ → ℕ → InvoiceManager
  add_previous_hop s r_hash previous_addr = record s {
    r_hash_previous_hop_map = insert r_hash previous_addr s.r_hash_previous_hop_map;
  }

  unfoldable pub get_previous_hop : InvoiceManager → ℕ → Option ℕ
  get_previous_hop s preimage = get s.r_hash_previous_hop_map (c.from_sha3_256 preimage)
