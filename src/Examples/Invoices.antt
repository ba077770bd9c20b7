-- ===== src/Examples/Invoices.antt =====
-- Runs of the invoices on concrete inputs.
use stargate.Common.{ℕ, ◌+◌, ◌<◌, ◌≡◌, ◌↔◌, refl, Option, none, some, List, [], ◌∷◌, arith, length}
use stargate.Common.Outcome.{ok, panic}
use stargate.Common.Dict.{get, insert}
use stargate.Libra.{Bytes}
use stargate.Invoice
use stargate.Invoice.{
  Codec, IsCodec, Invoice, as_vec, try_from, to_text, from_text, get_preimage, new_invoice,
  add_previous_hop, get_previous_hop,
}
use stargate.Invoice.Encoding.{try_from-as_vec, try_from_panics}
use stargate.Invoice.Preimages.{Call, invoice, previous_hop, calls, call}

-- addresses of one byte, of which every vector of one byte is one
abbrev first_byte : Bytes → Option ℕ
first_byte [] = none
first_byte (b ∷ _) = some b

abbrev codec : Codec
codec = record {
  address_length = 1;
  address_to_vec = λ a. a ∷ [];
  address_try_from = first_byte;
  hash_to_vec = λ h. h ∷ [];
  from_sha3_256 = λ p. p + 1;
  hex_encode_upper = λ v. v;
  hex_decode = λ v. some v;
}

codec-IsCodec : IsCodec codec
codec-IsCodec = record { address_bytes = λ _. refl; address_back = λ _. refl; hex_back = λ _. refl }

abbrev bill : Invoice
bill = record { r_hash = 3 ∷ 4 ∷ []; amount = 1_000; receiver = 7 }

try_from-as_vec_example : try_from codec (as_vec codec bill) ≡ ok bill
try_from-as_vec_example = try_from-as_vec codec codec-IsCodec bill (omega arith)

reads : (s : Bytes) → length s ≡ 1 → (r : ℕ) × (first_byte s ≡ some r)
reads [] e = cc
reads (b ∷ s) e = (b, refl)

abbrev short : Bytes
short = 7 ∷ 0 ∷ []

try_from_panics_example : (try_from codec short ≡ panic) ↔ (length short < 9)
try_from_panics_example = try_from_panics codec short reads

abbrev history : List Call
history = invoice 20 5 7 ∷ previous_hop 21 9 ∷ []

kept : get_preimage codec (calls codec Invoice.new history) 21 ≡ some 20
unfolding calls call get_preimage new_invoice add_previous_hop get insert Invoice.new
kept = refl
