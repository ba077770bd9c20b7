-- ===== src/Router/Paths.antt =====
-- router/ant/src/lib.rs, find_path_by_pressure and what it calls, with BalanceQueryResponse of
-- sgtypes/src/message.rs: a path is put together from the answers of a search, and the path under the
-- least pressure is taken.
pub mod Picks
pub mod Walks
pub mod Least
use stargate.Common.{
  ℕ, zero, suc, ◌+◌, ◌-◌, ◌^◌, Bool, true, false, ◌||◌, Option, none, some, List, [], ◌∷◌, map,
  ◌==◌, length, if◌then◌else◌,
}
use stargate.Common.Outcome.{Outcome, ok, err, ok_or}
use stargate.Common.Integers.{ℤ, pos, negsuc, diff, ◌+ℤ◌, ltℤ, eqℤ}

pub record BalanceQueryResponse : Type 0 where
  pub local_addr : ℕ
  pub remote_addr : ℕ
  pub local_balance : ℕ
  pub remote_balance : ℕ
  pub total_pay_amount : ℕ

unfoldable pub revert : BalanceQueryResponse → BalanceQueryResponse
revert r = record {
  local_addr = r.remote_addr;
  remote_addr = r.local_addr;
  local_balance = r.remote_balance;
  remote_balance = r.local_balance;
  total_pay_amount = r.total_pay_amount;
}

-- the last response that touches `local`, and the others: the index that the loop leaves, and `remove`
unfoldable pub take_last :
    ℕ → List BalanceQueryResponse → Option (BalanceQueryResponse × List BalanceQueryResponse)
take_last local [] = none
take_last local (r ∷ rs) = elim (take_last local rs) [
  | some (q, qs) ↦ some (q, r ∷ qs)
  | none ↦ if r.local_addr == local || r.remote_addr == local then some (r, rs) else none
]

-- the response as seen from `local`, and what is left of the list
unfoldable pub find_response :
    ℕ → List BalanceQueryResponse → Option (BalanceQueryResponse × List BalanceQueryResponse)
find_response local response_list = elim (take_last local response_list) [
  | none ↦ none
  | some (r, rest) ↦ some (if r.remote_addr == local then revert r else r, rest)
]

-- the loop from `seed` on, with the number of rounds left; a round takes a response out of the list
unfoldable pub walk : ℕ → ℕ → ℕ → List BalanceQueryResponse → List BalanceQueryResponse
walk zero seed end list = []
walk (suc n) seed end list = elim (find_response seed list) [
  | none ↦ []
  | some (r, rest) ↦
      r ∷ elim (r.remote_addr == end) [ true ↦ [] | false ↦ walk n r.remote_addr end rest ]
]

-- `balance_query_response_list` of an AntFinalMessage, put in order
unfoldable pub format_response_list : List BalanceQueryResponse → ℕ → ℕ → List BalanceQueryResponse
format_response_list list start end = walk (length list) start end list

-- the loop over the balances, on i128; sums of u64 amounts do not reach its bounds
unfoldable pub pressure_from : ℤ → List BalanceQueryResponse → ℤ
pressure_from pressure [] = pressure
pressure_from pressure (b ∷ balances) =
    pressure_from
      (pressure +ℤ pos b.total_pay_amount +ℤ pos b.remote_balance +ℤ diff 0 b.local_balance)
      balances

unfoldable pub pressure_of : List BalanceQueryResponse → ℤ
pressure_of balances = pressure_from (pos 0) balances

abbrev pub Balances : Type 0
Balances = List (ℤ × List BalanceQueryResponse)

-- a HashMap keyed by the pressure
unfoldable pub insert : ℤ → List BalanceQueryResponse → Balances → Balances
insert pressure path [] = (pressure, path) ∷ []
insert pressure path ((key, old) ∷ m) =
    let rest = insert pressure path m in
    if eqℤ key pressure then (key, path) ∷ m else (key, old) ∷ rest

unfoldable pub get : Balances → ℤ → Option (List BalanceQueryResponse)
get [] pressure = none
get ((key, path) ∷ m) pressure = if eqℤ key pressure then some path else get m pressure

-- `std::i128::MAX`
abbrev pub i128_max : ℤ
i128_max = pos (2 ^ 127 - 1)

-- the loop over the paths, put in order already
unfoldable pub scan : ℤ → Balances → List (List BalanceQueryResponse) → ℤ × Balances
scan min_pressure balance_map [] = (min_pressure, balance_map)
scan min_pressure balance_map (balances ∷ paths) =
    scan (if ltℤ (pressure_of balances) min_pressure then pressure_of balances else min_pressure)
      (insert (pressure_of balances) balances balance_map) paths

pub data NoPath : Type 0 where
  no_path : NoPath

unfoldable pub find_path_by_pressure :
    List (List BalanceQueryResponse) → ℕ → ℕ → Outcome NoPath (List BalanceQueryResponse)
find_path_by_pressure paths start end =
    let (min_pressure, balance_map) =
      scan i128_max [] (map (λ list. format_response_list list start end) paths) in
    ok_or no_path (get balance_map min_pressure)
