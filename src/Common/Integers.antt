-- ===== src/Common/Integers.antt =====
-- Integers over the native numbers, and what the components use of them.
use Prim.Native.Nat.{ℕ, ◌+◌, ◌-◌}
use mathlib.Core.Path.{◌≡◌}
use mathlib.Core.Bool.{Bool, true, false}
use native.Mathlib.Omega.{arith}
use stargate.Common.Tests.{◌==◌, ltb, leb, if◌then◌else◌}

pub data ℤ : Type 0 where
  pos : ℕ → ℤ
  negsuc : ℕ → ℤ

-- the difference of two natural numbers
unfoldable pub diff : ℕ → ℕ → ℤ
diff a b = if leb b a then pos (a - b) else negsuc (b - a - 1)

infixl 60 ◌+ℤ◌
unfoldable pub ◌+ℤ◌ : ℤ → ℤ → ℤ
unfolding diff
pos a +ℤ pos b = pos (a + b)
pos a +ℤ negsuc b = diff a (b + 1)
negsuc a +ℤ pos b = diff b (a + 1)
negsuc a +ℤ negsuc b = negsuc (a + b + 1)

abbrev pub ltℤ : ℤ → ℤ → Bool
ltℤ (pos a) (pos b) = ltb a b
ltℤ (pos a) (negsuc b) = false
ltℤ (negsuc a) (pos b) = true
ltℤ (negsuc a) (negsuc b) = ltb b a

abbrev pub eqℤ : ℤ → ℤ → Bool
eqℤ (pos a) (pos b) = a == b
eqℤ (negsuc a) (negsuc b) = a == b
eqℤ _ _ = false

pub eqℤ-self : (a : ℤ) → eqℤ a a ≡ true
eqℤ-self (pos a) = ground arith
eqℤ-self (negsuc a) = ground arith

pub eqℤ→eq : (a b : ℤ) → eqℤ a b ≡ true → a ≡ b
eqℤ→eq (pos a) (pos b) h = ground arith
eqℤ→eq (pos a) (negsuc b) h = ground arith
eqℤ→eq (negsuc a) (pos b) h = ground arith
eqℤ→eq (negsuc a) (negsuc b) h = ground arith

pub ltℤ-irrefl : (a : ℤ) → ltℤ a a ≡ false
ltℤ-irrefl (pos a) = ground arith
ltℤ-irrefl (negsuc a) = ground arith

-- `b` is not below `a`, and `c` is not below `b`
pub leℤ-trans : (a b c : ℤ) → ltℤ b a ≡ false → ltℤ c b ≡ false → ltℤ c a ≡ false
leℤ-trans (pos a) (pos b) (pos c) h k = ground arith
leℤ-trans (pos a) (pos b) (negsuc c) h k = ground arith
leℤ-trans (pos a) (negsuc b) c h k = ground arith
leℤ-trans (negsuc a) (pos b) (pos c) h k = ground arith
leℤ-trans (negsuc a) (pos b) (negsuc c) h k = ground arith
leℤ-trans (negsuc a) (negsuc b) (pos c) h k = ground arith
leℤ-trans (negsuc a) (negsuc b) (negsuc c) h k = ground arith

pub ltℤ→leℤ : (a b : ℤ) → ltℤ a b ≡ true → ltℤ b a ≡ false
ltℤ→leℤ (pos a) (pos b) h = ground arith
ltℤ→leℤ (pos a) (negsuc b) h = ground arith
ltℤ→leℤ (negsuc a) (pos b) h = ground arith
ltℤ→leℤ (negsuc a) (negsuc b) h = ground arith
