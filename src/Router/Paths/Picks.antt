-- ===== src/Router/Paths/Picks.antt =====
-- router/ant/src/lib.rs, find_response: what it takes out of a list of responses.
use mathlib.Core.Path.{subst}
use stargate.Common.{
  ℕ, suc, ◌≡◌, ◌⊎◌, refl, ap, Bool, true, false, ◌||◌, Option, none, some, List, [], ◌∷◌, arith,
  ◌==◌, ==→eq, length, Bool-cases, inl, inr, if◌then◌else◌,
}
use stargate.Router.Paths.{BalanceQueryResponse, revert, take_last, find_response}

-- the hop is a response of the list, from one side or from the other
abbrev pub IsFrom : List BalanceQueryResponse → BalanceQueryResponse → Type 0
IsFrom [] r = ⊥
IsFrom (q ∷ qs) r = (r ≡ q) ⊎ ((r ≡ revert q) ⊎ IsFrom qs r)

abbrev pub Picked : Type 0
Picked = BalanceQueryResponse × List BalanceQueryResponse

record Taken (local : ℕ) (list : List BalanceQueryResponse) (t : Picked) : Type 0 where
  touches : (t.0.local_addr ≡ local) ⊎ (t.0.remote_addr ≡ local)
  shorter : length list ≡ suc (length t.1)
  member : IsFrom list t.0
  others : (x : BalanceQueryResponse) → IsFrom t.1 x → IsFrom list x

pub some_injective : {A : Type 0} {a b : A} → ◌≡◌ {A = Option A} (some a) (some b) → a ≡ b
some_injective h = cc

pub suc_injective : {a b : ℕ} → suc a ≡ suc b → a ≡ b
suc_injective h = omega (arith, h)

module _ (local : ℕ) where
  keep_first :
      (q : BalanceQueryResponse) (qs : List BalanceQueryResponse) (t : Picked)
      → Taken local qs t
      → Taken local (q ∷ qs) (t.0, q ∷ t.1)
  keep_first q qs t k = record {
    touches = k.touches;
    shorter = ap suc k.shorter;
    member = inr (inr k.member);
    others = λ x from. elim from [
      | inl e ↦ inl e
      | inr (inl e) ↦ inr (inl e)
      | inr (inr later) ↦ inr (inr (k.others x later))
    ];
  }

  take_first :
      (q : BalanceQueryResponse) (qs : List BalanceQueryResponse)
      → (q.local_addr == local || q.remote_addr == local) ≡ true
      → Taken local (q ∷ qs) (q, qs)
  take_first q qs h = record {
    touches = elim (Bool-cases (q.local_addr == local)) [
      | inl e ↦ inl (==→eq q.local_addr local e)
      | inr e ↦ inr (==→eq q.remote_addr local (ground (arith, h, e)))
    ];
    shorter = refl;
    member = inl refl;
    others = λ x from. inr (inr from);
  }

  taken :
      (list : List BalanceQueryResponse) {t : Picked}
      → take_last local list ≡ some t
      → Taken local list t
  unfolding take_last
  taken [] h = cc
  taken (q ∷ qs) {t = t} h = go (take_last local qs) (λ u e. taken qs e) h
    where
      pick :
          (b : Bool)
          → (q.local_addr == local || q.remote_addr == local) ≡ b
          → ◌≡◌ {A = Option Picked} (if b then some (q, qs) else none) (some t)
          → Taken local (q ∷ qs) t
      pick true e k = subst (Taken local (q ∷ qs)) (some_injective k) (take_first q qs e)
      pick false e k = cc

      go :
          (o : Option Picked)
          → ((u : Picked) → o ≡ some u → Taken local qs u)
          → ◌≡◌ {A = Option Picked}
              (elim o [
                | some (r, rs) ↦ some (r, q ∷ rs)
                | none ↦
                    if q.local_addr == local || q.remote_addr == local then some (q, qs) else none
              ])
              (some t)
          → Taken local (q ∷ qs) t
      go (some u) later k =
          subst (Taken local (q ∷ qs)) (some_injective k) (keep_first q qs u (later u refl))
      go none later k = pick (q.local_addr == local || q.remote_addr == local) refl k

IsFrom-revert :
    (list : List BalanceQueryResponse) (q : BalanceQueryResponse)
    → IsFrom list q
    → IsFrom list (revert q)
unfolding revert
IsFrom-revert [] q from = elim from [ ]
IsFrom-revert (x ∷ xs) q (inl e) = inr (inl (ap revert e))
IsFrom-revert (x ∷ xs) q (inr (inl e)) = inl (ap revert e)
IsFrom-revert (x ∷ xs) q (inr (inr later)) = inr (inr (IsFrom-revert xs q later))

pub record Found (local : ℕ) (list : List BalanceQueryResponse) (t : Picked) : Type 0 where
  pub begins : t.0.local_addr ≡ local
  pub shorter : length list ≡ suc (length t.1)
  pub member : IsFrom list t.0
  pub others : (x : BalanceQueryResponse) → IsFrom t.1 x → IsFrom list x

module _ (local : ℕ) (list : List BalanceQueryResponse) where
  oriented :
      (q : BalanceQueryResponse) (rest : List BalanceQueryResponse)
      → Taken local list (q, rest)
      → Found local list (if q.remote_addr == local then revert q else q, rest)
  unfolding revert
  oriented q rest k = elim (Bool-cases (q.remote_addr == local)) [
    | inl e ↦ rw e (record {
      begins = ==→eq q.remote_addr local e;
      shorter = k.shorter;
      member = IsFrom-revert list q k.member;
      others = k.others;
    })
    | inr e ↦ rw e (record {
      begins = ground (arith, k.touches, e);
      shorter = k.shorter;
      member = k.member;
      others = k.others;
    })
  ]

  pub found : {t : Picked} → find_response local list ≡ some t → Found local list t
  unfolding find_response
  found {t = t} h = go (take_last local list) (λ u e. taken local list e) h
    where
      go :
          (o : Option Picked)
          → ((u : Picked) → o ≡ some u → Taken local list u)
          → ◌≡◌ {A = Option Picked}
              (elim o [
                | none ↦ none
                | some (r, rest) ↦ some (if r.remote_addr == local then revert r else r, rest)
              ])
              (some t)
          → Found local list t
      go none later k = cc
      go (some (q, rest)) later k =
          subst (Found local list) (some_injective k) (oriented q rest (later (q, rest) refl))
