-- ===== src/Common/Dict.antt =====
-- std's BTreeMap and HashMap with native keys: an association list kept in the order of the keys.
use Prim.Native.Nat.{ℕ, ◌+◌, ◌<◌}
use mathlib.Core.Path.{◌≡◌, refl}
use mathlib.Core.Bool.{Bool, true, false, ◌||◌}
use mathlib.Core.Logic.{inl, inr}
use mathlib.Core.Option.{Option, none, some}
use mathlib.Core.List.{List, [], ◌∷◌, ◌++◌}
use native.Mathlib.Omega.{arith}
use stargate.Common.Tests.{◌==◌, ==-self, ltb, Bool-cases, if◌then◌else◌}
use stargate.Common.Lists.{contains, length, All, IsOrdered}

abbrev pub Dict {ℓ} : Type ℓ → Type ℓ
Dict V = List (ℕ × V)

All-weaken : (x k : ℕ) (ks : List ℕ) → k < x → All (λ y. x < y) ks → All (λ y. k < y) ks
All-weaken x k [] h a = tt
All-weaken x k (i ∷ ks) h a = (omega arith, All-weaken x k ks h a.1)

module _ {ℓ} {V : Type ℓ} where
  unfoldable pub get : Dict V → ℕ → Option V
  get [] k = none
  get ((j, v) ∷ m) k = if j == k then some v else get m k

  unfoldable pub contains_key : Dict V → ℕ → Bool
  contains_key [] k = false
  contains_key ((j, v) ∷ m) k = (j == k) || contains_key m k

  unfoldable pub insert : ℕ → V → Dict V → Dict V
  insert k v [] = (k, v) ∷ []
  insert k v ((j, w) ∷ m) =
      let rest = insert k v m in
      if j == k then (k, v) ∷ m else if ltb k j then (k, v) ∷ (j, w) ∷ m else (j, w) ∷ rest

  unfoldable pub remove : ℕ → Dict V → Dict V
  remove k [] = []
  remove k ((j, v) ∷ m) = let rest = remove k m in if j == k then rest else (j, v) ∷ rest

  abbrev pub keys : Dict V → List ℕ
  keys [] = []
  keys ((j, v) ∷ m) = j ∷ keys m

  abbrev pub values : Dict V → List V
  values [] = []
  values ((j, v) ∷ m) = v ∷ values m

  pub get-insert :
      (k j : ℕ) (v : V) (m : Dict V) → get (insert k v m) j ≡ (if k == j then some v else get m j)
  unfolding get insert
  get-insert k j v [] = refl
  get-insert k j v ((i, w) ∷ m) = ground (arith, get-insert k j v m)

  pub get-insert_self : (k : ℕ) (v : V) (m : Dict V) → get (insert k v m) k ≡ some v
  get-insert_self k v m = rw (get-insert k k v m, ==-self k)

  pub get-remove : (k j : ℕ) (m : Dict V) → get (remove k m) j ≡ (if k == j then none else get m j)
  unfolding get remove
  get-remove k j [] = ground arith
  get-remove k j ((i, w) ∷ m) = ground (arith, get-remove k j m)

  pub contains_key-eq : (m : Dict V) (k : ℕ) → contains_key m k ≡ contains (keys m) k
  unfolding contains_key
  contains_key-eq [] k = refl
  contains_key-eq ((j, v) ∷ m) k = rw (contains_key-eq m k)

  pub contains_key-get :
      (m : Dict V) (k : ℕ) → contains_key m k ≡ elim (get m k) [ none ↦ false | some _ ↦ true ]
  unfolding contains_key get
  contains_key-get [] k = refl
  contains_key-get ((j, v) ∷ m) k = ground (arith, contains_key-get m k)

  pub contains-keys-insert :
      (k j : ℕ) (v : V) (m : Dict V)
      → contains (keys (insert k v m)) j ≡ ((k == j) || contains (keys m) j)
  unfolding insert
  contains-keys-insert k j v [] = refl
  contains-keys-insert k j v ((i, w) ∷ m) = ground (arith, contains-keys-insert k j v m)

  pub length-insert_new :
      (k : ℕ) (v : V) (m : Dict V)
      → contains (keys m) k ≡ false
      → length (keys (insert k v m)) ≡ length (keys m) + 1
  unfolding insert
  length-insert_new k v [] h = omega arith
  length-insert_new k v ((i, w) ∷ m) h = ground (arith, length-insert_new k v m)

  All-insert :
      (x k : ℕ) (v : V) (m : Dict V)
      → x < k
      → All (λ y. x < y) (keys m)
      → All (λ y. x < y) (keys (insert k v m))
  unfolding insert
  All-insert x k v [] h a = (h, tt)
  All-insert x k v ((i, w) ∷ m) h a = ground (arith, All-insert x k v m h a.1)

  pub insert-IsOrdered :
      (k : ℕ) (v : V) (m : Dict V) → IsOrdered (keys m) → IsOrdered (keys (insert k v m))
  unfolding insert
  insert-IsOrdered k v [] h = (tt, tt)
  insert-IsOrdered k v ((i, w) ∷ m) h =
      ground (arith, insert-IsOrdered k v m h.1, All-insert i k v m, All-weaken i k (keys m))

module _ {ℓ} {V : Type ℓ} where
  -- a key above all others goes to the end
  pub values-insert_last :
      (k : ℕ) (v : V) (m : Dict V)
      → All (λ j. j < k) (keys m)
      → values (insert k v m) ≡ values m ++ v ∷ []
  unfolding insert
  values-insert_last k v [] h = refl
  values-insert_last k v ((j, w) ∷ m) h = ground (arith, values-insert_last k v m h.1)

  pub All-keys-insert_last :
      (k : ℕ) (v : V) (m : Dict V)
      → All (λ j. j < k) (keys m)
      → All (λ j. j < k + 1) (keys (insert k v m))
  unfolding insert
  All-keys-insert_last k v [] h = (omega arith, tt)
  All-keys-insert_last k v ((j, w) ∷ m) h = ground (arith, All-keys-insert_last k v m h.1)

pub All-map : {P Q : ℕ → Type 0} (xs : List ℕ) → ((a : ℕ) → P a → Q a) → All P xs → All Q xs
All-map [] f h = tt
All-map (x ∷ xs) f h = (f x h.0, All-map xs f h.1)

module _ {ℓ} {V : Type ℓ} where
  pub All-keys-insert :
      (P : ℕ → Type 0) (k : ℕ) (v : V) (m : Dict V)
      → P k
      → All P (keys m)
      → All P (keys (insert k v m))
  unfolding insert
  All-keys-insert P k v [] p h = (p, tt)
  All-keys-insert P k v ((j, w) ∷ m) p h = elim (Bool-cases (j == k)) [
    | inl same ↦ rw (same) (p, h.1)
    | inr other ↦ elim (Bool-cases (ltb k j)) [
      | inl before ↦ rw (other, before) (p, h)
      | inr after ↦ rw (other, after) (h.0, All-keys-insert P k v m p h.1)
    ]
  ]

  pub get_above : (k : ℕ) (m : Dict V) → All (λ j. j < k) (keys m) → get m k ≡ none
  unfolding get
  get_above k [] h = refl
  get_above k ((j, w) ∷ m) h = ground (arith, get_above k m h.1)

-- the values of a map of numbers
pub All-values-insert :
    (P : ℕ → Type 0) (k v : ℕ) (m : Dict ℕ) → P v → All P (values m) → All P (values (insert k v m))
unfolding insert
All-values-insert P k v [] p h = (p, tt)
All-values-insert P k v ((j, w) ∷ m) p h = elim (Bool-cases (j == k)) [
  | inl same ↦ rw (same) (p, h.1)
  | inr other ↦ elim (Bool-cases (ltb k j)) [
    | inl before ↦ rw (other, before) (p, h)
    | inr after ↦ rw (other, after) (h.0, All-values-insert P k v m p h.1)
  ]
]

pub All-values-remove :
    (P : ℕ → Type 0) (k : ℕ) (m : Dict ℕ) → All P (values m) → All P (values (remove k m))
unfolding remove
All-values-remove P k [] h = tt
All-values-remove P k ((j, w) ∷ m) h = elim (Bool-cases (j == k)) [
  | inl same ↦ rw (same) (All-values-remove P k m h.1)
  | inr other ↦ rw (other) (h.0, All-values-remove P k m h.1)
]
