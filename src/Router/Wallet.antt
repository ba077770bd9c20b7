-- ===== src/Router/Wallet.antt =====
-- router/ant/src/lib.rs: what a node is asked of its wallet and its statistics.
use stargate.Common.{ℕ, Option, Bool, List}
use stargate.Common.Outcome.{Outcome, ok, ok_or, ◌>>=◌}
use stargate.Libra.{Bytes}
use stargate.Router.Seeds.{SValue}
use stargate.Router.Paths.{BalanceQueryResponse}

-- what the wallet and the statistics answer; `none` is an error
pub record Node : Type 0 where
  pub account : ℕ
  pub all_channels : Option (List ℕ)
  pub channel_balance : ℕ → Option ℕ
  pub participant_channel_balance : ℕ → Option ℕ
  pub back_pressure : ℕ → ℕ → Option ℕ
  pub hash : Bytes → ℕ
  pub meets : SValue → SValue → Bool

pub data SearchError : Type 0 where
  wallet_error no_path_found time_out should_not_be_here : SearchError

-- the answer of one's own channel with a participant
unfoldable pub own_balance : Node → ℕ → Outcome SearchError BalanceQueryResponse
own_balance node participant = do
  total_amount ← ok_or wallet_error (node.back_pressure node.account participant)
  local_balance ← ok_or wallet_error (node.channel_balance participant)
  remote_balance ← ok_or wallet_error (node.participant_channel_balance participant)
  ok (record {
    local_addr = node.account;
    remote_addr = participant;
    local_balance = local_balance;
    remote_balance = remote_balance;
    total_pay_amount = total_amount;
  })
