-- ===== src/Invoice/Preimages.antt =====
-- node/node_internal/src/invoice.rs: the preimages that a node keeps and gives out.
use stargate.Common.{ℕ, all, ◌≡◌, refl, ap, ◌∙◌, Bool, true, false, some, List, [], ◌∷◌, arith}
use stargate.Common.Dict.{get, get-insert, get-insert_self}
use stargate.Invoice
use stargate.Invoice.{
  Codec, InvoiceManager, new_invoice, get_preimage, add_previous_hop, get_previous_hop,
}

-- the calls that change what a node keeps
pub data Call : Type 0 where
  invoice : (preimage amount receiver : ℕ) → Call
  previous_hop : (r_hash previous_addr : ℕ) → Call

module _ (c : Codec) where
  unfoldable pub call : InvoiceManager → Call → InvoiceManager
  call s (invoice preimage amount receiver) = (new_invoice c s preimage amount receiver).0
  call s (previous_hop r_hash previous_addr) = add_previous_hop c s r_hash previous_addr

  unfoldable pub calls : InvoiceManager → List Call → InvoiceManager
  calls s [] = s
  calls s (k ∷ ks) = calls (call s k) ks

  -- Every preimage that is kept opens the hash that it is kept under.
  abbrev pub Opens : InvoiceManager → Type 0
  Opens s =
      (r_hash preimage : ℕ)
      → get_preimage c s r_hash ≡ some preimage
      → c.from_sha3_256 preimage ≡ r_hash

  pub call-Opens : (s : InvoiceManager) (k : Call) → Opens s → Opens (call s k)
  unfolding call new_invoice add_previous_hop get_preimage
  call-Opens s (previous_hop h previous_addr) o r_hash p e = o r_hash p e
  call-Opens s (invoice preimage amount receiver) o r_hash p e =
      ground
        (arith, get-insert (c.from_sha3_256 preimage) r_hash preimage s.r_hash_map, o r_hash p, e)

  calls-Opens : (s : InvoiceManager) (ks : List Call) → Opens s → Opens (calls s ks)
  unfolding calls
  calls-Opens s [] o = o
  calls-Opens s (k ∷ ks) o = calls-Opens (call s k) ks (call-Opens s k o)

  abbrev is_hop : Call → Bool
  is_hop (previous_hop _ _) = true
  is_hop _ = false

  hops_keep :
      (s : InvoiceManager) (hops : List Call)
      → all is_hop hops ≡ true
      → (calls s hops).r_hash_map ≡ s.r_hash_map
  unfolding calls call add_previous_hop
  hops_keep s [] h = refl
  hops_keep s (previous_hop a b ∷ hops) h = hops_keep (add_previous_hop c s a b) hops h
  hops_keep s (invoice _ _ _ ∷ hops) h = ground arith

  stored :
      (s : InvoiceManager) (preimage amount receiver : ℕ)
      → get (new_invoice c s preimage amount receiver).0.r_hash_map (c.from_sha3_256 preimage)
        ≡ some preimage
  unfolding new_invoice
  stored s preimage amount receiver =
      get-insert_self (c.from_sha3_256 preimage) preimage s.r_hash_map

  -- After any calls on a new manager, a preimage that is given out for a hash hashes to it.
  pub get_preimage-calls :
      (ks : List Call) (r_hash preimage : ℕ)
      → get_preimage c (calls Invoice.new ks) r_hash ≡ some preimage
      → c.from_sha3_256 preimage ≡ r_hash
  unfolding Invoice.new get_preimage get
  get_preimage-calls ks = calls-Opens Invoice.new ks (λ r_hash p e. cc)

  -- The preimage of a new invoice can be had by the invoice's hash, whatever previous hops are added
  -- after it.
  pub get_preimage-new_invoice :
      (s : InvoiceManager) (preimage amount receiver : ℕ) (hops : List Call)
      → all is_hop hops ≡ true
      → get_preimage c
          (calls (new_invoice c s preimage amount receiver).0 hops)
          (c.from_sha3_256 preimage)
        ≡ some preimage
  unfolding get_preimage
  get_preimage-new_invoice s preimage amount receiver hops h =
      ap (λ m. get m (c.from_sha3_256 preimage))
        (hops_keep (new_invoice c s preimage amount receiver).0 hops h)
      ∙ stored s preimage amount receiver
