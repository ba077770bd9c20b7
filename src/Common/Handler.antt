-- ===== src/Common/Handler.antt =====
-- Handlers of a state that may fail or panic; what was written before an error stays written.
use mathlib.Core.Path.{◌≡◌, refl, ap}
use mathlib.Core.Bool.{Bool, true, false}
use stargate.Common.Tests.{if◌then◌else◌}
use stargate.Common.Outcome.{Outcome, ok, err, panic}

abbrev pub Handler : Type 0 → Type 0 → Type 0 → Type 0
Handler S E A = S → Outcome E A × S

module _ {S E A : Type 0} where
  unfoldable pub pure : A → Handler S E A
  pure a s = (ok a, s)

  unfoldable pub fail : E → Handler S E A
  fail e s = (err e, s)

  unfoldable pub lift : Outcome E A → Handler S E A
  lift r s = (r, s)

  unfoldable pub gets : (S → A) → Handler S E A
  gets f s = (ok (f s), s)

unfoldable pub modify : {S E : Type 0} → (S → S) → Handler S E (Unit {0})
modify f s = (ok tt, f s)

module _ {S E A B : Type 0} where
  abbrev pub continue : Outcome E A → (A → Handler S E B) → Handler S E B
  continue (ok a) f s = f a s
  continue (err e) f s = (err e, s)
  continue panic f s = (panic, s)

  infixl 10 ◌>>=◌ ◌>>◌
  unfoldable pub ◌>>=◌ : Handler S E A → (A → Handler S E B) → Handler S E B
  unfolding pure fail lift gets modify
  ◌>>=◌ m f s = let (r, s') = m s in continue r f s'

  abbrev pub ◌>>◌ : Handler S E A → Handler S E B → Handler S E B
  m >> n = m >>= λ _. n

-- `m` keeps `P`, whether it succeeds, fails or panics
pub record Keeps {S E A : Type 0} (P : S → Type 0) (m : Handler S E A) : Type 0 where
  pub at : (s : S) → P s → P (m s).1

module _ {S E A : Type 0} {P : S → Type 0} where
  pub Keeps-lift : (result : Outcome E A) → Keeps P (lift result)
  unfolding lift
  Keeps-lift result = record { at = λ s p. p }

  pub Keeps-fail : (e : E) → Keeps {A = A} P (fail e)
  unfolding fail
  Keeps-fail e = record { at = λ s p. p }

  pub Keeps-gets : (part : S → A) → Keeps {E = E} P (gets part)
  unfolding gets
  Keeps-gets part = record { at = λ s p. p }

  pub Keeps-pure : (a : A) → Keeps {E = E} P (pure a)
  unfolding pure
  Keeps-pure a = record { at = λ s p. p }

  pub Keeps-if :
      (test : Bool) (this other : Handler S E A)
      → Keeps P this
      → Keeps P other
      → Keeps P (if test then this else other)
  Keeps-if false this other ky kn = kn
  Keeps-if true this other ky kn = ky

module _ {S E A B : Type 0} {P : S → Type 0} where
  pub Keeps-bind :
      (m : Handler S E A) (f : A → Handler S E B)
      → Keeps P m
      → ((a : A) → Keeps P (f a))
      → Keeps P (m >>= f)
  unfolding ◌>>=◌
  Keeps-bind m f km kf = record { at = λ s h. go (m s).0 (m s).1 (km.at s h) }
    where
      go : (r : Outcome E A) (s' : S) → P s' → P (continue r f s').1
      go (ok a) s' h = (kf a).at s' h
      go (err e) s' h = h
      go panic s' h = h

pub ruleset keeps_rules = (Keeps-pure, Keeps-fail, Keeps-lift, Keeps-gets, Keeps-if, Keeps-bind)

-- Rules for code that is read from one state on: the rest may use what the earlier part gave.
module _ {S E A B : Type 0} {P : S → Type 0} where
  pub Keeps-lift-bind :
      (r : Outcome E A) (f : A → Handler S E B)
      → ((a : A) → r ≡ ok a → Keeps P (f a))
      → Keeps P (lift r >>= f)
  unfolding ◌>>=◌
  Keeps-lift-bind (ok a) f kf = kf a refl
  Keeps-lift-bind (err e) f kf = Keeps-fail e
  Keeps-lift-bind panic f kf = record { at = λ s h. h }

  pub Keeps-gets-bind :
      (g : S → A) (f : A → Handler S E B)
      → ((s : S) → P s → P (f (g s) s).1)
      → Keeps P (gets g >>= f)
  unfolding ◌>>=◌
  Keeps-gets-bind g f kf = record { at = kf }

-- Steps of code that is run from a known state.
module _ {S E A B : Type 0} where
  pub run-bind :
      (m : Handler S E A) (f : A → Handler S E B) (s : S) {a : A} {s' : S}
      → m s ≡ (ok a, s')
      → (m >>= f) s ≡ f a s'
  unfolding ◌>>=◌
  run-bind m f s e = ap (λ (r : Outcome E A × S). continue r.0 f r.1) e

  pub run-lift :
      (r : Outcome E A) (f : A → Handler S E B) (s : S) {a : A}
      → r ≡ ok a
      → (lift r >>= f) s ≡ f a s
  unfolding ◌>>=◌
  run-lift r f s e = ap (λ (o : Outcome E A). continue o f s) e

  pub run-gets :
      (g : S → A) (f : A → Handler S E B) (s : S) {a : A} → g s ≡ a → (gets g >>= f) s ≡ f a s
  unfolding ◌>>=◌
  run-gets g f s e = ap (λ (a : A). f a s) e

  pub run-panic :
      (r : Outcome E A) (f : A → Handler S E B) (s : S) → r ≡ panic → (lift r >>= f) s ≡ (panic, s)
  unfolding ◌>>=◌
  run-panic r f s e = ap (λ (o : Outcome E A). continue o f s) e
