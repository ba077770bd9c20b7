-- ===== src/Invoice/Encoding.antt =====
-- node/node_internal/src/invoice.rs: an invoice is read back from its bytes and from its text.
use mathlib.Core.Path.{subst}
use mathlib.Core.List.{append_assoc}
use stargate.Common.{
  ℕ, ◌+◌, ◌-◌, ◌^◌, ◌≤◌, ◌<◌, ◌≡◌, ◌↔◌, zero, suc, leb→le, inl, inr, Bool-cases, refl, sym, ap, ◌∙◌,
  true, some, [], ◌∷◌, ◌++◌, arith, leb, length, length-append, take,
}
use stargate.Common.Outcome.{ok, panic}
use stargate.Common.Slices.{
  slice, slice_from, drop, to_be_bytes, take-append, drop-append, length-to_be_bytes,
  from_be_bytes-to_be_bytes,
}
use stargate.Libra.{Bytes}
use stargate.Invoice.{Codec, IsCodec, InvoiceError, Invoice, as_vec, try_from, to_text, from_text}

-- the three parts of a vector
slice_first :
    (n : ℕ) (xs ys : Bytes) → length xs ≡ n → slice {E = InvoiceError} 0 n (xs ++ ys) ≡ ok xs
unfolding slice
slice_first n xs ys e =
    ground (arith, ap length (take-append xs ys), take-append xs ys, length-append xs ys, e)

slice_second :
    (xs ys zs : Bytes) (n w : ℕ)
    → length xs ≡ n
    → length ys ≡ w
    → slice {E = InvoiceError} n (n + w) (xs ++ (ys ++ zs)) ≡ ok ys
unfolding slice
slice_second xs ys zs n w e f =
    subst (λ k. slice {E = InvoiceError} k (k + w) (xs ++ (ys ++ zs)) ≡ ok ys) e
      (subst (λ j. slice {E = InvoiceError} (length xs) (length xs + j) (xs ++ (ys ++ zs)) ≡ ok ys)
        f (rw (fits, drop-append xs (ys ++ zs), count) (ap ok (take-append ys zs))))
  where
    fits : leb (length xs + length ys) (length (xs ++ (ys ++ zs))) ≡ true
    fits = ground (arith, length-append xs (ys ++ zs), length-append ys zs)

    count : (length xs + length ys) - length xs ≡ length ys
    count = omega arith

slice_rest :
    (xs ys zs : Bytes) (n w : ℕ)
    → length xs ≡ n
    → length ys ≡ w
    → slice_from {E = InvoiceError} (n + w) (xs ++ (ys ++ zs)) ≡ ok zs
unfolding slice_from
slice_rest xs ys zs n w e f =
    subst (λ k. slice_from {E = InvoiceError} k (xs ++ (ys ++ zs)) ≡ ok zs)
      (length-append xs ys ∙ omega (arith, e, f))
      (rw (fits) (
        ap ok (
          ap (drop (length (xs ++ ys))) (sym (append_assoc xs ys zs)) ∙ drop-append (xs ++ ys) zs)))
  where
    fits : leb (length (xs ++ ys)) (length (xs ++ (ys ++ zs))) ≡ true
    fits = ground (arith, length-append xs ys, length-append xs (ys ++ zs), length-append ys zs)

module _ (c : Codec) (k : IsCodec c) (i : Invoice) (fits : i.amount < 2 ^ 64) where
  -- With addresses that have their length and are read back from their bytes, an invoice whose
  -- amount fits a u64 is read back from its bytes, whatever the hash's length.
  pub try_from-as_vec : try_from c (as_vec c i) ≡ ok i
  unfolding try_from as_vec
  try_from-as_vec =
      let address = c.address_to_vec i.receiver in
      let amount = to_be_bytes 8 i.amount in
      rw (
        slice_first c.address_length address (amount ++ i.r_hash) (k.address_bytes i.receiver),
        k.address_back i.receiver,
        slice_second address amount i.r_hash c.address_length 8 (k.address_bytes i.receiver)
            (length-to_be_bytes 8 i.amount),
        slice_rest address amount i.r_hash c.address_length 8 (k.address_bytes i.receiver)
            (length-to_be_bytes 8 i.amount),
        from_be_bytes-to_be_bytes 8 i.amount (omega (arith, fits)),
      )

  -- With addresses that have their length and are read back from their bytes, and hex text that
  -- is read back too, an invoice whose amount fits a u64 is read back from its text.
  pub from_text-to_text : from_text c (to_text c i) ≡ ok i
  unfolding from_text to_text
  from_text-to_text = rw (k.hex_back (as_vec c i)) try_from-as_vec

length-take : (n : ℕ) (v : Bytes) → n ≤ length v → length (take n v) ≡ n
length-take zero v h = refl
length-take (suc n) [] h = omega (arith, h)
length-take (suc n) (b ∷ v) h = ap suc (length-take n v (omega (arith, h)))

sub_zero : (n : ℕ) → n - 0 ≡ n
sub_zero n = omega arith

first_length : (n : ℕ) (v : Bytes) → leb n (length v) ≡ true → length (take (n - 0) v) ≡ n
first_length n v h = rw (sub_zero n) (length-take n v (leb→le n (length v) h))

-- Where an address is read from any vector of its length: the conversion from bytes panics exactly on
-- the vectors that are shorter than an address and an amount.
pub try_from_panics :
    (c : Codec) (v : Bytes)
    → ((s : Bytes) → length s ≡ c.address_length → (r : ℕ) × (c.address_try_from s ≡ some r))
    → (try_from c v ≡ panic) ↔ (length v < c.address_length + 8)
unfolding try_from slice slice_from
try_from_panics c v reads = elim (Bool-cases (leb c.address_length (length v))) [
  | inr short ↦ (λ _. ground (arith, short), λ _. ground (arith, short))
  | inl long ↦
      let (r, e) = reads (take (c.address_length - 0) v) (first_length c.address_length v long) in
      (λ h. ground (arith, h, e, long), λ h. ground (arith, h, e, long))
]
