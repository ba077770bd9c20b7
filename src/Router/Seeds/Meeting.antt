-- ===== src/Router/Seeds/Meeting.antt =====
-- router/ant/src/path_finder.rs: when the two searches of a payment meet.
use stargate.Common.{
  ℕ, ◌≡◌, ◌⊎◌, inl, inr, refl, Bool, true, false, ◌||◌, none, some, List, [], ◌∷◌, ◌++◌, arith,
  ==-self, if◌then◌else◌,
}
use stargate.Common.Outcome.{ok}
use stargate.Libra.{Bytes}
use stargate.Router.Seeds.{
  SValue, is_sender, get_peer, get_r, same_bytes, eq, SValueGenerator, random_bytes, generator_r,
  get_s, finds, get, contains_key, remove, insert, match_or_add,
}

same_bytes_self : (bs : Bytes) → same_bytes bs bs ≡ true
same_bytes_self [] = refl
same_bytes_self (b ∷ bs) = ground (arith, ==-self b, same_bytes_self bs)

-- The values of the two ends of a payment are each other's peers, count as equal, and have the
-- generator's own hash.
pub get_s_peers :
    (hash : Bytes → ℕ) (g : SValueGenerator)
    → (get_peer (get_s g true) ≡ get_s g false)
      × (get_peer (get_s g false) ≡ get_s g true)
      × (eq (get_s g true) (get_s g false) ≡ true)
      × (is_sender (get_s g true) ≡ true)
      × (is_sender (get_s g false) ≡ false)
      × ((b : Bool) → get_r hash (get_s g b) ≡ generator_r hash g)
unfolding get_peer get_s eq is_sender get_r generator_r
get_s_peers hash g = (refl, refl, same_bytes_self (random_bytes g), refl, refl, λ b. refl)

module _ {V : Type 0} (meets : SValue → SValue → Bool) (key : SValue) (v : V) where
  insert_new :
      (m : List (SValue × V))
      → contains_key meets m key ≡ false
      → insert meets m key v ≡ m ++ (key, v) ∷ []
  unfolding contains_key insert
  insert_new [] h = refl
  insert_new ((entry, w) ∷ m) h = ground (arith, insert_new m)

  contains_key-append :
      (m : List (SValue × V)) (other : SValue)
      → contains_key meets (m ++ (key, v) ∷ []) other
        ≡ (contains_key meets m other || finds meets other key)
  unfolding contains_key
  contains_key-append [] other = ground arith
  contains_key-append ((entry, w) ∷ m) other = ground (arith, contains_key-append m other)

  get-append :
      (m : List (SValue × V))
      → contains_key meets m key ≡ false
      → finds meets key key ≡ true
      → get meets (m ++ (key, v) ∷ []) key ≡ some v
  unfolding contains_key get
  get-append [] h f = ground (arith, f)
  get-append ((entry, w) ∷ m) h f = ground (arith, get-append m, f)

  remove-append :
      (m : List (SValue × V))
      → contains_key meets m key ≡ false
      → finds meets key key ≡ true
      → remove meets (m ++ (key, v) ∷ []) key ≡ m
  unfolding contains_key remove
  remove-append [] h f = ground (arith, f)
  remove-append ((entry, w) ∷ m) h f = ground (arith, remove-append m, f)

peer_of_peer : (key : SValue) → (key.side ≡ 0) ⊎ (key.side ≡ 1) → get_peer (get_peer key) ≡ key
unfolding get_peer
peer_of_peer key (inl zero_side) = rw (zero_side) refl
peer_of_peer key (inr one_side) = rw (one_side) refl

module _ (meets : SValue → SValue → Bool) (key : SValue) where
  finds_self : meets key key ≡ true → finds meets key key ≡ true
  unfolding finds eq
  finds_self found = ground (arith, found, same_bytes_self key.value)

  finds-get_peer : finds meets (get_peer key) key ≡ meets (get_peer key) key
  unfolding finds eq get_peer
  finds-get_peer = ground (arith, same_bytes_self key.value)

module _ {R E : Type 0} (meets : SValue → SValue → Bool) (m : List (SValue × List R))
    (key : SValue) where
  -- The searches of a payment's two ends arrive at a node that has seen neither, and a lookup
  -- comes across an entry of its own key. They meet, with the first's answers before the second's
  -- and the map as it was, unless the hashes of the two values lead a lookup of the second to the
  -- first: then the second counts as seen and nothing is found.
  pub match_or_add-peer :
      (v v' : List R)
      → ((k : SValue) → meets k k ≡ true)
      → (key.side ≡ 0) ⊎ (key.side ≡ 1)
      → contains_key meets m key ≡ false
      → contains_key meets m (get_peer key) ≡ false
      → (match_or_add meets {E = E} m key v ≡ ok (none, insert meets m key v))
        × (match_or_add meets {E = E} (insert meets m key v) (get_peer key) v' ≡ (
            if meets (get_peer key) key
            then ok (none, insert meets m key v)
            else ok (some (v ++ v'), m)))
  unfolding match_or_add
  match_or_add-peer v v' found side new no_peer = (first, second)
    where
      self : finds meets key key ≡ true
      self = finds_self meets key (found key)

      first : match_or_add meets {E = E} m key v ≡ ok (none, insert meets m key v)
      first = rw (new, no_peer) refl

      second : match_or_add meets {E = E} (insert meets m key v) (get_peer key) v' ≡ (
          if meets (get_peer key) key
          then ok (none, insert meets m key v)
          else ok (some (v ++ v'), m))
      second =
          rw
            (
              peer_of_peer key side,
              insert_new meets key v m new,
              contains_key-append meets key v m (get_peer key),
              contains_key-append meets key v m key,
              new,
              no_peer,
              finds-get_peer meets key,
              self,
              get-append meets key v m new self,
              remove-append meets key v m new self,
            )
            refl
