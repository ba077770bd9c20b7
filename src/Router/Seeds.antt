-- ===== src/Router/Seeds.antt =====
-- sgtypes/src/s_value.rs, router/ant/src/seed_generator.rs and the SeedManager of
-- router/ant/src/path_finder.rs: both ends of a payment send out searches under values that differ in
-- their first byte, and a node where the two meet knows a path.
pub mod Meeting
use stargate.Common.{
  ℕ, ◌+◌, ◌/◌, ◌%◌, zero, suc, Bool, true, false, not, ◌&&◌, ◌||◌, Option, none, some, List, [],
  ◌∷◌, ◌++◌, ◌==◌, length, if◌then◌else◌,
}
use stargate.Common.Outcome.{Outcome, ok, err, panic, ensure, ◌>>=◌, ◌>>◌, expect}
use stargate.Libra.{Bytes}

-- the first byte, and the 32 bytes after it
pub record SValue : Type 0 where
  pub side : ℕ
  pub value : Bytes

unfoldable pub is_sender : SValue → Bool
is_sender s = s.side == 0

unfoldable pub get_peer : SValue → SValue
get_peer s = record s { side = if s.side == 0 then 1 else 0 }

-- `get_r`, with the hash function of libra
unfoldable pub get_r : (Bytes → ℕ) → SValue → ℕ
get_r hash s = hash s.value

abbrev pub same_bytes : Bytes → Bytes → Bool
same_bytes [] [] = true
same_bytes (a ∷ xs) (b ∷ ys) = a == b && same_bytes xs ys
same_bytes _ _ = false

-- `PartialEq`: the first byte does not count
unfoldable pub eq : SValue → SValue → Bool
eq a b = same_bytes a.value b.value

-- `to_le_bytes` on `w` bytes
unfoldable pub to_le_bytes : ℕ → ℕ → Bytes
to_le_bytes zero n = []
to_le_bytes (suc w) n = n % 256 ∷ to_le_bytes w (n / 256)

pub record SValueGenerator : Type 0 where
  pub sender_r : ℕ
  pub receiver_r : ℕ

unfoldable pub random_bytes : SValueGenerator → Bytes
random_bytes g = to_le_bytes 16 g.sender_r ++ to_le_bytes 16 g.receiver_r

unfoldable pub generator_r : (Bytes → ℕ) → SValueGenerator → ℕ
generator_r hash g = hash (random_bytes g)

unfoldable pub get_s : SValueGenerator → Bool → SValue
get_s g sender = record { side = if not sender then 1 else 0; value = random_bytes g }

-- A HashMap over SValue, with the values of type V. Its hash reads all the bytes, so a lookup of a
-- key comes across an entry only where their hashes lead: `meets k e` says so of the key and an
-- entry's key. The entry found must also equal the key.
unfoldable pub finds : (SValue → SValue → Bool) → SValue → SValue → Bool
finds meets key entry = meets key entry && eq key entry

module _ {V : Type 0} (meets : SValue → SValue → Bool) where
  unfoldable pub get : List (SValue × V) → SValue → Option V
  get [] key = none
  get ((entry, v) ∷ m) key = if finds meets key entry then some v else get m key

  unfoldable pub contains_key : List (SValue × V) → SValue → Bool
  contains_key [] key = false
  contains_key ((entry, v) ∷ m) key = finds meets key entry || contains_key m key

  unfoldable pub remove : List (SValue × V) → SValue → List (SValue × V)
  remove [] key = []
  remove ((entry, v) ∷ m) key =
      let rest = remove m key in if finds meets key entry then m else (entry, v) ∷ rest

  -- an entry that is found keeps its key
  unfoldable pub insert : List (SValue × V) → SValue → V → List (SValue × V)
  insert [] key value = (key, value) ∷ []
  insert ((entry, v) ∷ m) key value =
      let rest = insert m key value in
      if finds meets key entry then (entry, value) ∷ m else (entry, v) ∷ rest

module _ {R : Type 0} (meets : SValue → SValue → Bool) where
  -- SeedManager::match_or_add, when no other call comes between its locks
  unfoldable pub match_or_add :
      {E : Type 0}
      → List (SValue × List R)
      → SValue
      → List R
      → Outcome E (Option (List R) × List (SValue × List R))
  match_or_add seed_hash_map key value =
      if contains_key meets seed_hash_map key
      then ok (none, seed_hash_map)
      else if contains_key meets seed_hash_map (get_peer key)
      then (do
        result ← expect (get meets seed_hash_map (get_peer key))
        ok (some (result ++ value), remove meets seed_hash_map (get_peer key)))
      else ok (none, insert meets seed_hash_map key value)
