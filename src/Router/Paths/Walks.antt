-- ===== src/Router/Paths/Walks.antt =====
-- router/ant/src/lib.rs, format_response_list: what it makes of any list of responses.
use stargate.Common.{
  ℕ, zero, suc, ◌≤◌, ◌≡◌, refl, ap, Bool, true, false, Option, none, some, List, [], ◌∷◌, arith,
  ◌==◌, length, All, if◌then◌else◌,
}
use stargate.Router.Paths.{
  BalanceQueryResponse, take_last, find_response, walk, format_response_list,
}
use stargate.Router.Paths.Picks.{IsFrom, Picked, Found, found, suc_injective}

-- each hop begins where the one before it ends
abbrev pub IsWalk : ℕ → List BalanceQueryResponse → Type 0
IsWalk start [] = Unit
IsWalk start (r ∷ rs) = (r.local_addr ≡ start) × IsWalk r.remote_addr rs

-- what a walk is made of
record IsGood (list : List BalanceQueryResponse) (start : ℕ) (path : List BalanceQueryResponse)
    : Type 0 where
  joined : IsWalk start path
  answered : All (IsFrom list) path
  bounded : length path ≤ length list

All-IsFrom :
    (list rest : List BalanceQueryResponse)
    → ((x : BalanceQueryResponse) → IsFrom rest x → IsFrom list x)
    → (path : List BalanceQueryResponse) → All (IsFrom rest) path
    → All (IsFrom list) path
All-IsFrom list rest f [] h = tt
All-IsFrom list rest f (x ∷ path) h = (f x h.0, All-IsFrom list rest f path h.1)

IsGood-hop :
    (list : List BalanceQueryResponse) (start : ℕ) (t : Picked) (path : List BalanceQueryResponse)
    → Found start list t
    → IsGood t.1 t.0.remote_addr path
    → IsGood list start (t.0 ∷ path)
IsGood-hop list start t path f g = record {
  joined = (f.begins, g.joined);
  answered = (f.member, All-IsFrom list t.1 f.others path g.answered);
  bounded = omega (arith, f.shorter, g.bounded);
}

walk-IsGood :
    (n : ℕ) (start end : ℕ) (list : List BalanceQueryResponse)
    → IsGood list start (walk n start end list)
unfolding walk
walk-IsGood zero start end list = record { joined = tt; answered = tt; bounded = omega arith }
walk-IsGood (suc n) start end list =
    go (find_response start list) (λ t e. found start list e)
      (λ (t : Picked). walk-IsGood n t.0.remote_addr end t.1)
  where
    stops :
        (b : Bool) (t : Picked)
        → IsGood t.1 t.0.remote_addr (walk n t.0.remote_addr end t.1)
        → IsGood t.1 t.0.remote_addr (elim b [ true ↦ [] | false ↦ walk n t.0.remote_addr end t.1 ])
    stops true t g = record { joined = tt; answered = tt; bounded = omega arith }
    stops false t g = g

    go :
        (o : Option Picked)
        → ((t : Picked) → o ≡ some t → Found start list t)
        → ((t : Picked) → IsGood t.1 t.0.remote_addr (walk n t.0.remote_addr end t.1))
        → IsGood list start (elim o [
          | none ↦ []
          | some (r, rest) ↦
              r ∷ elim (r.remote_addr == end) [ true ↦ [] | false ↦ walk n r.remote_addr end rest ]
        ])
    go none f rec = record { joined = tt; answered = tt; bounded = omega arith }
    go (some t) f rec =
        IsGood-hop list start t _ (f t refl) (stops (t.0.remote_addr == end) t (rec t))

-- A path put in order, from any answers: each hop begins where the last one ends, the first at the
-- start; each hop is an answer of the list, from one side or the other; and there are no more hops
-- than answers.
pub format_response_list-IsWalk :
    (list : List BalanceQueryResponse) (start end : ℕ)
    → IsWalk start (format_response_list list start end)
      × All (IsFrom list) (format_response_list list start end)
      × (length (format_response_list list start end) ≤ length list)
unfolding format_response_list
format_response_list-IsWalk list start end =
    let g = walk-IsGood (length list) start end list in (g.joined, g.answered, g.bounded)

-- The loop ends by itself: the path of a list is the found response, and unless that reaches the end
-- the path of what is left of the list, from where the response leads.
pub format_response_list-step :
    (list : List BalanceQueryResponse) (start end : ℕ)
    → format_response_list list start end ≡ elim (find_response start list) [
      | none ↦ []
      | some (r, rest) ↦
          r ∷ (if r.remote_addr == end then [] else format_response_list rest r.remote_addr end)
    ]
unfolding format_response_list walk find_response take_last
format_response_list-step [] start end = refl
format_response_list-step (q ∷ qs) start end =
    go (find_response start (q ∷ qs)) (λ t e. found start (q ∷ qs) e)
  where
    same :
        (b : Bool) (r : BalanceQueryResponse) (rest : List BalanceQueryResponse)
        → length qs ≡ length rest
        → r ∷ elim b [ true ↦ [] | false ↦ walk (length qs) r.remote_addr end rest ]
          ≡ r ∷ (if b then [] else walk (length rest) r.remote_addr end rest)
    same true r rest e = refl
    same false r rest e = ap (λ n. r ∷ walk n r.remote_addr end rest) e

    go :
        (o : Option Picked)
        → ((t : Picked) → o ≡ some t → Found start (q ∷ qs) t)
        → elim o [
          | none ↦ []
          | some (r, rest) ↦ r ∷ elim (r.remote_addr == end) [
            | true ↦ []
            | false ↦ walk (length qs) r.remote_addr end rest
          ]
        ]
          ≡ elim o [
            | none ↦ []
            | some (r, rest) ↦
                r ∷ (if r.remote_addr == end then [] else walk (length rest) r.remote_addr end rest)
          ]
    go none later = refl
    go (some (r, rest)) later =
        same (r.remote_addr == end) r rest (suc_injective (later (r, rest) refl).shorter)
