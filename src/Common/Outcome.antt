-- ===== src/Common/Outcome.antt =====
-- The result of Rust code: `Ok`, `Err`, or a panic (`unwrap`, `expect`, `unreachable!`, `assert!`).
use mathlib.Core.Path.{◌≡◌, refl}
use mathlib.Core.Bool.{Bool, true, false}
use mathlib.Core.Option.{Option, none, some}

pub data Outcome {ℓ} (E A : Type ℓ) : Type ℓ where
  ok : A → Outcome E A
  err : E → Outcome E A
  panic : Outcome E A

module _ {ℓ} {E A B : Type ℓ} where
  infixl 10 ◌>>=◌ ◌>>◌
  abbrev pub ◌>>=◌ : Outcome E A → (A → Outcome E B) → Outcome E B
  panic >>= next = panic
  err e >>= next = err e
  ok a >>= next = next a

  abbrev pub ◌>>◌ : Outcome E A → Outcome E B → Outcome E B
  m >> n = m >>= λ _. n

  -- a chain that succeeds has a first result
  pub >>=-eq-ok :
      (first : Outcome E A) (next : A → Outcome E B) {result : B}
      → (first >>= next) ≡ ok result
      → (a : A) × (first ≡ ok a) × (next a ≡ ok result)
  >>=-eq-ok panic next same = cc
  >>=-eq-ok (err e) next same = cc
  >>=-eq-ok (ok a) next same = (a, refl, same)

pub ok-injective : {E A : Type 0} {a b : A} → ◌≡◌ {A = Outcome E A} (ok a) (ok b) → a ≡ b
ok-injective h = cc

-- `ensure!(b, e)`
abbrev pub ensure : {E : Type 0} → Bool → E → Outcome E (Unit {0})
ensure true e = ok tt
ensure false e = err e

-- `assert!(b)` and `debug_assert!(b)`
abbrev pub assert : {E : Type 0} → Bool → Outcome E (Unit {0})
assert true = ok tt
assert false = panic

-- `o.ok_or(e)?` and `o.expect(…)`
abbrev pub ok_or {ℓ} : {E A : Type ℓ} → E → Option A → Outcome E A
ok_or e none = err e
ok_or e (some a) = ok a

abbrev pub expect {ℓ} : {E A : Type ℓ} → Option A → Outcome E A
expect none = panic
expect (some a) = ok a
