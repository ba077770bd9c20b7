-- ===== src/Router/Paths/Least.antt =====
-- router/ant/src/lib.rs, find_path_by_pressure: the path that it takes.
use mathlib.Core.Path.{subst}
use stargate.Common.{
  ℕ, ◌≡◌, ◌⊎◌, refl, sym, ap, ◌∙◌, Bool, true, false, some, List, [], ◌∷◌, map, Bool-cases, inl,
  inr, All, if◌then◌else◌,
}
use stargate.Common.Outcome.{ok, ok_or}
use stargate.Common.Integers.{ℤ, ltℤ, eqℤ, eqℤ-self, eqℤ→eq, ltℤ-irrefl, leℤ-trans, ltℤ→leℤ}
use stargate.Router.Paths.{
  BalanceQueryResponse, Balances, i128_max, format_response_list, pressure_of, insert, get, scan,
  no_path, find_path_by_pressure,
}

abbrev Route : Type 0
Route = List BalanceQueryResponse

abbrev pub IsOneOf : Route → List Route → Type 0
IsOneOf r [] = ⊥
IsOneOf r (q ∷ qs) = (r ≡ q) ⊎ IsOneOf r qs

separate : (j p k : ℤ) → eqℤ j p ≡ false → eqℤ j k ≡ true → eqℤ p k ≡ true → ⊥
separate j p k ne a b = cc (eqℤ→eq p k b)

get-insert :
    (p k : ℤ) (r : Route) (m : Balances)
    → get (insert p r m) k ≡ (if eqℤ p k then some r else get m k)
unfolding get insert
get-insert p k r [] = refl
get-insert p k r ((key, old) ∷ m) = elim (Bool-cases (eqℤ key p)) [
  | inl e ↦ rw e (
      subst
        (λ j.
          (if eqℤ key k then some r else get m k)
          ≡ (if eqℤ j k then some r else if eqℤ key k then some old else get m k))
        (eqℤ→eq key p e) (same (eqℤ key k)))
  | inr ne ↦
      rw (ne, get-insert p k r m) (apart (eqℤ key k) (eqℤ p k) (λ a b. separate key p k ne a b))
]
  where
    same :
        (b : Bool)
        → (if b then some r else get m k) ≡ (if b then some r else if b then some old else get m k)
    same true = refl
    same false = refl

    apart :
        (a b : Bool)
        → (a ≡ true → b ≡ true → ⊥)
        → (if a then some old else if b then some r else get m k)
          ≡ (if b then some r else if a then some old else get m k)
    apart true true f = absurd (f refl refl)
    apart true false f = refl
    apart false true f = refl
    apart false false f = refl

-- the map has a route of the least pressure so far
record Holds (Q : Route → Type 0) (min : ℤ) (m : Balances) : Type 0 where
  route : Route
  stored : get m min ≡ some route
  weighs : pressure_of route ≡ min
  chosen : Q route

module _ (Q : Route → Type 0) where
  stored_new :
      (r : Route) (m : Balances) → Q r → Holds Q (pressure_of r) (insert (pressure_of r) r m)
  stored_new r m q = record {
    route = r;
    stored = rw (get-insert (pressure_of r) (pressure_of r) r m, eqℤ-self (pressure_of r)) refl;
    weighs = refl;
    chosen = q;
  }

  -- a route that is not lighter replaces the lightest only if it weighs the same
  kept :
      (min : ℤ) (r : Route) (m : Balances)
      → Q r
      → Holds Q min m
      → Holds Q min (insert (pressure_of r) r m)
  kept min r m q h = elim (Bool-cases (eqℤ (pressure_of r) min)) [
    | inl e ↦ record {
      route = r;
      stored = rw (get-insert (pressure_of r) min r m, e) refl;
      weighs = eqℤ→eq (pressure_of r) min e;
      chosen = q;
    }
    | inr ne ↦ record {
      route = h.route;
      stored = rw (get-insert (pressure_of r) min r m, ne) h.stored;
      weighs = h.weighs;
      chosen = h.chosen;
    }
  ]

  abbrev lighter : ℤ → Route → ℤ
  lighter min r = if ltℤ (pressure_of r) min then pressure_of r else min

  lighter-Holds :
      (min : ℤ) (r : Route) (m : Balances)
      → Q r
      → Holds Q min m
      → Holds Q (lighter min r) (insert (pressure_of r) r m)
  lighter-Holds min r m q h = elim (Bool-cases (ltℤ (pressure_of r) min)) [
    | inl e ↦ rw e (stored_new r m q)
    | inr ne ↦ rw ne (kept min r m q h)
  ]

  lighter_below :
      (min : ℤ) (r : Route)
      → (ltℤ min (lighter min r) ≡ false) × (ltℤ (pressure_of r) (lighter min r) ≡ false)
  lighter_below min r = elim (Bool-cases (ltℤ (pressure_of r) min)) [
    | inl e ↦ rw e (ltℤ→leℤ (pressure_of r) min e, ltℤ-irrefl (pressure_of r))
    | inr ne ↦ rw ne (ltℤ-irrefl min, ne)
  ]

  scan_least :
      (min : ℤ) (m : Balances) (routes : List Route)
      → Holds Q min m
      → All Q routes
      → Holds Q (scan min m routes).0 (scan min m routes).1
        × (ltℤ min (scan min m routes).0 ≡ false)
        × All (λ r. ltℤ (pressure_of r) (scan min m routes).0 ≡ false) routes
  unfolding scan
  scan_least min m [] h q = (h, ltℤ-irrefl min, tt)
  scan_least min m (r ∷ routes) h q =
      let (holds, below, rest) =
        scan_least (lighter min r) (insert (pressure_of r) r m) routes (lighter-Holds min r m q.0 h)
          q.1 in
      let least = (scan (lighter min r) (insert (pressure_of r) r m) routes).0 in
      let (a, b) = lighter_below min r in
      (
        holds,
        leℤ-trans least (lighter min r) min below a,
        (leℤ-trans least (lighter min r) (pressure_of r) below b, rest),
      )

All-IsOneOf :
    (all_routes routes : List Route)
    → ((r : Route) → IsOneOf r routes → IsOneOf r all_routes)
    → All (λ r. IsOneOf r all_routes) routes
All-IsOneOf all_routes [] f = tt
All-IsOneOf all_routes (r ∷ routes) f =
    (f r (inl refl), All-IsOneOf all_routes routes (λ q later. f q (inr later)))

-- the first route is lighter than anything before it
scan_first :
    (r : Route) (routes : List Route)
    → ltℤ (pressure_of r) i128_max ≡ true
    → scan i128_max [] (r ∷ routes) ≡ scan (pressure_of r) ((pressure_of r, r) ∷ []) routes
unfolding scan insert
scan_first r routes h =
    ap (λ b. scan (if b then pressure_of r else i128_max) ((pressure_of r, r) ∷ []) routes) h

-- what the loop comes to, and what is found in its map
pub scan-least :
    (first : Route) (others : List Route)
    → All (λ r. ltℤ (pressure_of r) i128_max ≡ true) (first ∷ others)
    → (path : Route) × (get
          (scan i128_max [] (first ∷ others)).1
          (scan i128_max [] (first ∷ others)).0
        ≡ some path)
      × IsOneOf path (first ∷ others)
      × All (λ r. ltℤ (pressure_of r) (pressure_of path) ≡ false) (first ∷ others)
unfolding insert
scan-least first others h =
    let routes = first ∷ others in
    let all_one = All-IsOneOf routes routes (λ r m. m) in
    let m : Balances = (pressure_of first, first) ∷ [] in
    let Q : Route → Type 0 = λ r. IsOneOf r routes in
    let (holds, below, rest) =
      scan_least Q (pressure_of first) m others (stored_new Q first [] all_one.0) all_one.1 in
    (
      holds.route,
      ap (λ (t : ℤ × Balances). get t.1 t.0) (scan_first first others h.0) ∙ holds.stored,
      holds.chosen,
      subst (λ p. All (λ r. ltℤ (pressure_of r) p ≡ false) routes) (sym holds.weighs) (below, rest),
    )

-- Any paths, one at least, whose pressures are below the greatest i128: the path taken is one of them,
-- put in order, and none of them has a lesser pressure.
pub find_path_by_pressure-least :
    (list : Route) (lists : List Route) (start end : ℕ)
    → All
        (λ r. ltℤ (pressure_of r) i128_max ≡ true)
        (map (λ l. format_response_list l start end) (list ∷ lists))
    → (path : Route) × (find_path_by_pressure (list ∷ lists) start end ≡ ok path)
      × IsOneOf path (map (λ l. format_response_list l start end) (list ∷ lists))
      × All
          (λ r. ltℤ (pressure_of r) (pressure_of path) ≡ false)
          (map (λ l. format_response_list l start end) (list ∷ lists))
unfolding find_path_by_pressure
find_path_by_pressure-least list lists start end h =
    let (path, found, chosen, below) =
      scan-least (format_response_list list start end)
        (map (λ l. format_response_list l start end) lists) h in
    (path, ap (ok_or no_path) found, chosen, below)
