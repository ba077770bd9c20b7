-- ===== src/Common/Lists.antt =====
-- Lists measured by native numbers, and a list as a BTreeSet of native keys.
use Prim.Native.Nat.{ℕ, zero, suc, ◌+◌, ◌<◌}
use mathlib.Core.Path.{◌≡◌, refl, ap}
use mathlib.Core.Bool.{Bool, true, false, ◌&&◌, ◌||◌}
use mathlib.Core.List.{List, [], ◌∷◌, ◌++◌}
use native.Mathlib.Omega.{arith}
use stargate.Common.Tests.{◌==◌}

module _ {ℓ} {A : Type ℓ} where
  abbrev pub length : List A → ℕ
  length [] = 0
  length (x ∷ xs) = suc (length xs)

  pub length-append : (xs ys : List A) → length (xs ++ ys) ≡ length xs + length ys
  length-append [] ys = omega arith
  length-append (x ∷ xs) ys = omega (arith, length-append xs ys)

  -- `iter().all(p)`
  abbrev pub all : (A → Bool) → List A → Bool
  all p [] = true
  all p (x ∷ xs) = p x && all p xs

  abbrev pub All {κ} : (A → Type κ) → List A → Type κ
  All P [] = Unit
  All P (x ∷ xs) = P x × All P xs

-- `contains` of a set or a vector of native keys
abbrev pub contains : List ℕ → ℕ → Bool
contains [] a = false
contains (x ∷ xs) a = (x == a) || contains xs a

-- Each key is below all that follow: what iterating over a BTreeSet yields.
abbrev pub IsOrdered : List ℕ → Type 0
IsOrdered [] = Unit
IsOrdered (x ∷ xs) = All (λ y. x < y) xs × IsOrdered xs

pub All-contains :
    (x : ℕ) (xs : List ℕ) (a : ℕ) → All (λ y. x < y) xs → contains xs a ≡ true → x < a
All-contains x [] a h c = ground arith
All-contains x (y ∷ ys) a h c = ground (arith, All-contains x ys a h.1)

abbrev pub Subset : List ℕ → List ℕ → Type 0
Subset xs ys = (a : ℕ) → contains xs a ≡ true → contains ys a ≡ true

module _ {ℓ} {A : Type ℓ} where
  abbrev pub take : ℕ → List A → List A
  take zero xs = []
  take (suc n) [] = []
  take (suc n) (x ∷ xs) = x ∷ take n xs

  pub take-length : (xs : List A) → take (length xs) xs ≡ xs
  take-length [] = refl
  take-length (x ∷ xs) = ap (λ ys. x ∷ ys) (take-length xs)
