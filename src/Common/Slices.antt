-- ===== src/Common/Slices.antt =====
-- Slices of a byte vector, and the big-endian bytes of a number, as std has them.
use Prim.Native.Nat.{ℕ, zero, suc, ◌+◌, ◌-◌, ◌*◌, ◌/◌, ◌%◌, ◌^◌, ◌<◌}
use mathlib.Core.Path.{◌≡◌, refl, ap, ◌∙◌}
use mathlib.Core.List.{List, [], ◌∷◌, ◌++◌}
use native.Mathlib.Omega.{arith}
use stargate.Common.Tests.{leb, if◌then◌else◌}
use stargate.Common.Lists.{length, length-append, take}
use stargate.Common.Outcome.{Outcome, ok, panic}

abbrev pub drop {ℓ} : {A : Type ℓ} → ℕ → List A → List A
drop zero xs = xs
drop (suc n) [] = []
drop (suc n) (x ∷ xs) = drop n xs

-- `&v[from..to]`, for a `from` that is not past `to`
unfoldable pub slice : {E : Type 0} → ℕ → ℕ → List ℕ → Outcome E (List ℕ)
slice from to v = if leb to (length v) then ok (take (to - from) (drop from v)) else panic

-- `&v[from..]`
unfoldable pub slice_from : {E : Type 0} → ℕ → List ℕ → Outcome E (List ℕ)
slice_from from v = if leb from (length v) then ok (drop from v) else panic

-- `to_be_bytes` on `w` bytes
unfoldable pub to_be_bytes : ℕ → ℕ → List ℕ
to_be_bytes zero n = []
to_be_bytes (suc w) n = to_be_bytes w (n / 256) ++ n % 256 ∷ []

-- `from_be_bytes`, with what is read so far
unfoldable pub from_be_bytes : ℕ → List ℕ → ℕ
from_be_bytes n [] = n
from_be_bytes n (b ∷ bytes) = from_be_bytes (n * 256 + b) bytes

module _ {ℓ} {A : Type ℓ} where
  pub take-append : (xs ys : List A) → take (length xs) (xs ++ ys) ≡ xs
  take-append [] ys = refl
  take-append (x ∷ xs) ys = ap (λ zs. x ∷ zs) (take-append xs ys)

  pub drop-append : (xs ys : List A) → drop (length xs) (xs ++ ys) ≡ ys
  drop-append [] ys = refl
  drop-append (x ∷ xs) ys = drop-append xs ys

pub length-to_be_bytes : (w n : ℕ) → length (to_be_bytes w n) ≡ w
unfolding to_be_bytes
length-to_be_bytes zero n = refl
length-to_be_bytes (suc w) n =
    length-append (to_be_bytes w (n / 256)) (n % 256 ∷ [])
    ∙ omega (arith, length-to_be_bytes w (n / 256))

from_be_bytes-append :
    (n : ℕ) (xs : List ℕ) (b : ℕ) → from_be_bytes n (xs ++ b ∷ []) ≡ from_be_bytes n xs * 256 + b
unfolding from_be_bytes
from_be_bytes-append n [] b = refl
from_be_bytes-append n (x ∷ xs) b = from_be_bytes-append (n * 256 + x) xs b

-- a number that fits is read back from its bytes
pub from_be_bytes-to_be_bytes : (w n : ℕ) → n < 256 ^ w → from_be_bytes 0 (to_be_bytes w n) ≡ n
unfolding from_be_bytes to_be_bytes
from_be_bytes-to_be_bytes zero n h = omega (arith, h)
from_be_bytes-to_be_bytes (suc w) n h =
    from_be_bytes-append 0 (to_be_bytes w (n / 256)) (n % 256)
    ∙ omega (arith, from_be_bytes-to_be_bytes w (n / 256) (omega (arith, h)))
