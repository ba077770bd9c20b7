-- ===== src/Router/Table/Lightest.antt =====
-- router/src/lib.rs: the path that the table router takes.
use stargate.Common.{ℕ, ◌≡◌, ap, true, false, Option, List, ◌∷◌, All}
use stargate.Common.Outcome.{ok}
use stargate.Common.Integers.{ltℤ}
use stargate.Router.Paths.{BalanceQueryResponse, pressure_of, i128_max}
use stargate.Router.Paths.Least.{IsOneOf, scan-least}
use stargate.Router.Wallet.{Node}
use stargate.Router.Table.{balance_lists, find_path, or_empty}

module _ (node : Node) (query_balance : ℕ → ℕ → Option BalanceQueryResponse) where
  -- Any paths, one at least, whose nodes all answer and whose pressures are below the greatest i128:
  -- the path taken is that of one of them, and none of them has a lesser pressure.
  table_path-least :
      (paths : List (List ℕ)) (list : List BalanceQueryResponse)
      (lists : List (List BalanceQueryResponse))
      → balance_lists node query_balance paths ≡ ok (list ∷ lists)
      → All (λ r. ltℤ (pressure_of r) i128_max ≡ true) (list ∷ lists)
      → (path : List BalanceQueryResponse) × (find_path node query_balance paths ≡ ok path)
        × IsOneOf path (list ∷ lists)
        × All (λ r. ltℤ (pressure_of r) (pressure_of path) ≡ false) (list ∷ lists)
  unfolding find_path
  table_path-least paths list lists answered below =
      let (path, found, chosen, least) = scan-least list lists below in
      (path, rw (answered) (ap (λ o. ok (or_empty node query_balance o)) found), chosen, least)
